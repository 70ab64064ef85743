-- ===== src/Storage/Answers.antt =====
-- Runs of the readers, the snapshot filter and the codec: the theorems about them, applied.
use mathlib.Core.List.{reverse}
use not_ahivemind.Base.{◌≡◌, refl, none, some, [], ◌∷◌, arith, text_eq, lookup, if◌then◌else◌}
use not_ahivemind.Base.Int.{pos}
use not_ahivemind.Storage.Reader.{Peek, query_entries}
use not_ahivemind.Storage.Compact.{raw_key, compact}
use not_ahivemind.Storage.Compact.Lookup.{ended, newest, no_raw, lookup-compact}
use not_ahivemind.Storage.Queries.{first_candidate, query_entries-first_candidate}
use not_ahivemind.Storage.Samples.{two_entries}

-- Every payload is that of a pending job of one identifier.
abbrev pending_job : Peek
pending_job bytes = some (record { id = 74 ∷ []; state = some (pos 0); entry = none })

query_entries-first_candidate_example :
    query_entries pending_job none (some (74 ∷ [])) two_entries
    ≡ first_candidate pending_job none (some (74 ∷ [])) (reverse two_entries.entries)
query_entries-first_candidate_example =
    query_entries-first_candidate pending_job none (74 ∷ []) two_entries

lookup-compact_example : lookup (74 ∷ []) (compact pending_job two_entries.entries).snapshots ≡ (
    if ended pending_job (74 ∷ []) (reverse two_entries.entries)
    then none
    else newest pending_job (74 ∷ []) (reverse two_entries.entries))
unfolding no_raw raw_key text_eq
lookup-compact_example =
    lookup-compact pending_job (74 ∷ []) two_entries.entries (λ p. ground arith) refl
