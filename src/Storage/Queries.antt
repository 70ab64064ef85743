-- ===== src/Storage/Queries.antt =====
-- What the readers of the log return.
use mathlib.Core.List.{reverse}
use native.Mathlib.Nat.{add-zero}
use not_ahivemind.Base.{
  ℕ, zero, suc, ◌+◌, ◌-◌, ◌≤◌, ◌<◌, ◌≡◌, refl, Option, none, some, List, [], ◌∷◌, arith, length,
  take, drop, length-take, length-drop, Text,
}
use not_ahivemind.Storage.Codec.{LogEntry}
use not_ahivemind.Storage.Handler.{LogName, Handler}
use not_ahivemind.Storage.Reader.{Peek, entries, member, candidate, query_loop, query_entries}
use not_ahivemind.Storage.Valid.{Contiguous, IsValid}

Contiguous-drop :
    (n k : ℕ) (es : List LogEntry)
    → Contiguous n es
    → k ≤ length es
    → Contiguous (n + k) (drop k es)
Contiguous-drop n zero es h le = rw add-zero h
Contiguous-drop n (suc k) [] h le = tt
Contiguous-drop n (suc k) (e ∷ es) (p, h) le =
    let shift : n + suc k ≡ e.index + k = omega arith in
    rw shift (Contiguous-drop e.index k es h (omega arith))

Contiguous-take : (n k : ℕ) (es : List LogEntry) → Contiguous n es → Contiguous n (take k es)
Contiguous-take n zero es h = tt
Contiguous-take n (suc k) [] h = tt
Contiguous-take n (suc k) (e ∷ es) (p, h) = (p, Contiguous-take e.index k es h)

take_none {ℓ} : {A : Type ℓ} (n : ℕ) (xs : List A) → n ≡ 0 → take n xs ≡ []
take_none zero xs h = refl
take_none (suc n) xs h = absurd (omega arith)

-- Within the bounds the clamping does nothing.
pub entries_lem :
    (h : Handler) (lo hi : ℕ)
    → h.disc_index < lo
    → lo ≤ hi
    → hi ≤ h.disc_index + length h.entries + 1
    → entries lo hi h ≡ take (hi - lo) (drop (lo - h.disc_index - 1) h.entries)
unfolding entries
entries_lem h lo hi above le below =
    ground (arith, take_none (hi - lo) (drop (lo - h.disc_index - 1) h.entries))

-- On a valid handler, a range of indices behind the boundary and up to the last entry gives as many
-- entries, with consecutive indices from the first of the range on.
entries-Contiguous :
    (name : LogName) (h : Handler) (lo hi : ℕ)
    → IsValid name h
    → h.disc_index < lo
    → lo ≤ hi
    → hi ≤ h.prev_index + 1
    → Contiguous (lo - 1) (entries lo hi h) × (length (entries lo hi h) ≡ hi - lo)
entries-Contiguous name h lo hi v above le below =
    rw (entries_lem h lo hi above le (omega (arith, v.index))) (
      Contiguous-take (lo - 1) (hi - lo) (drop skipped h.entries) (
          rw start
            (Contiguous-drop h.disc_index skipped h.entries v.contiguous (omega (arith, v.index)))),
      omega (
        arith,
        length-take (hi - lo) (drop skipped h.entries),
        length-drop skipped h.entries,
        v.index,
      ),
    )
  where
    skipped : ℕ
    skipped = lo - h.disc_index - 1

    start : lo - 1 ≡ h.disc_index + skipped
    start = omega arith

-- The first entry of the list that the filters let through.
pub first_candidate : Peek → Option Text → Option Text → List LogEntry → List LogEntry
first_candidate peek scheduler_id payload_id [] = []
first_candidate peek scheduler_id payload_id (e ∷ es) =
    elim (candidate peek scheduler_id payload_id e) [
      | none ↦ first_candidate peek scheduler_id payload_id es
      | some id ↦ e ∷ []
    ]

query_loop_one :
    (peek : Peek) (scheduler_id : Option Text) (id : Text) (es : List LogEntry)
    → query_loop peek scheduler_id (some id) [] es ≡ first_candidate peek scheduler_id (some id) es
unfolding query_loop first_candidate member
query_loop_one peek scheduler_id id [] = refl
query_loop_one peek scheduler_id id (e ∷ es) =
    ground (arith, query_loop_one peek scheduler_id id es)

-- A query for a payload's identifier returns the newest entry of the log that passes both filters,
-- and nothing where none does.
pub query_entries-first_candidate :
    (peek : Peek) (scheduler_id : Option Text) (id : Text) (h : Handler)
    → query_entries peek scheduler_id (some id) h
      ≡ first_candidate peek scheduler_id (some id) (reverse h.entries)
unfolding query_entries
query_entries-first_candidate peek none id h = query_loop_one peek none id (reverse h.entries)
query_entries-first_candidate peek (some s) id h =
    query_loop_one peek (some s) id (reverse h.entries)
