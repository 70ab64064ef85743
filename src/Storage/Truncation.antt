-- ===== src/Storage/Truncation.antt =====
-- TruncateLog on a valid handler: a cut behind the first entry keeps it valid, and a cut at the first
-- entry leaves the last index where it was.
use mathlib.Core.List.{append_assoc, append-nil}
use native.Mathlib.Nat.{add_assoc, zero-add}
use not_ahivemind.Base.{
  ℕ, zero, suc, ◌+◌, ◌<◌, ◌≡◌, refl, false, none, some, List, [], ◌∷◌, ◌++◌, arith, length,
  length-append, take, length-take, All,
}
use not_ahivemind.Storage.Codec.{LogEntry, encode_log_entry}
use not_ahivemind.Storage.Codec.Frame.{IsEncodable}
use not_ahivemind.Storage.Codec.RoundTrip.{encode_all}
use not_ahivemind.Storage.Handler.{LogName, Handler, set_active, contents-store_self}
use not_ahivemind.Storage.Writer.{
  WriteFault, TruncateFault, index_behind, append, cut_at, rewrite, set_prev, truncate_log,
}
use not_ahivemind.Storage.Valid.{Contiguous, last-end_term, last-Contiguous, IsValid}

-- With no write failing the loop writes every entry behind what is there.
pub rewrite_all :
    (es : List LogEntry) (bytes : List ℕ) (size : ℕ)
    → rewrite es none bytes size ≡ (bytes ++ encode_all es, size + length (encode_all es), false)
unfolding rewrite encode_all
rewrite_all [] bytes size = ground (arith, append-nil bytes)
rewrite_all (e ∷ es) bytes size = rw (
  rewrite_all es (bytes ++ encode_log_entry e) (size + length (encode_log_entry e)),
  append_assoc,
  length-append (encode_log_entry e) (encode_all es),
  add_assoc,
)

-- On consecutive entries the cut keeps those before the index.
cut_at-Contiguous :
    (n k : ℕ) (es : List LogEntry)
    → Contiguous n es
    → k < length es
    → cut_at (n + 1 + k) es ≡ some (take k es)
unfolding cut_at
cut_at-Contiguous n k [] h lt = absurd (omega arith)
cut_at-Contiguous n zero (e ∷ es) (p, h) lt = ground arith
cut_at-Contiguous n (suc k) (e ∷ es) (p, h) lt = ground (arith, cut_at-Contiguous e.index k es h)

Contiguous-take : (n k : ℕ) (es : List LogEntry) → Contiguous n es → Contiguous n (take k es)
Contiguous-take n zero es h = tt
Contiguous-take n (suc k) [] h = tt
Contiguous-take n (suc k) (e ∷ es) (p, h) = (p, Contiguous-take e.index k es h)

All-take : (k : ℕ) (es : List LogEntry) → All IsEncodable es → All IsEncodable (take k es)
All-take zero es h = tt
All-take (suc k) [] h = tt
All-take (suc k) (e ∷ es) (p, h) = (p, All-take k es h)

-- The handler with its log rewritten to the entries `es`.
abbrev cut_to : LogName → Handler → List LogEntry → Handler
cut_to name h es = record (set_active name (encode_all es) (record h { entries = es })) {
  current_size = length (encode_all es);
}

module _ (name : LogName) (h : Handler) (k : ℕ) (v : IsValid name h)
    (inside : k < length h.entries) where
  truncate_log_lem :
      truncate_log TruncateFault.no_fault (h.disc_index + 1 + k) h
      ≡ (set_prev (take k h.entries) (cut_to name h (take k h.entries)), false)
  unfolding truncate_log
  truncate_log_lem = rw (
    cut_at-Contiguous h.disc_index k h.entries v.contiguous inside,
    v.active,
    rewrite_all (take k h.entries) [] 0,
    zero-add,
  )

-- The last step of the cut, where an entry is left.
set_prev-IsValid :
    (name : LogName) (h : Handler) (es : List LogEntry)
    → h.active_file ≡ some name
    → 0 < length es
    → Contiguous h.disc_index es
    → All IsEncodable es
    → IsValid name (set_prev es (cut_to name h es))
unfolding set_active set_prev
set_prev-IsValid name h [] active nonempty contiguous encodable = absurd (omega arith)
set_prev-IsValid name h (e ∷ es) active nonempty contiguous encodable = record {
  active = active;
  on_disk = contents-store_self name _ h.logs;
  contiguous = contiguous;
  index = omega (arith, last-Contiguous e es contiguous.1, contiguous.0);
  term = last-end_term e es;
  size = refl;
  encodable = encodable;
}

-- The cut leaves the kept entries, and the boundary and its term where they were.
set_prev-cut_to :
    (name : LogName) (h : Handler) (es : List LogEntry)
    → ((set_prev es (cut_to name h es)).entries ≡ es)
      × ((set_prev es (cut_to name h es)).disc_index ≡ h.disc_index)
      × ((set_prev es (cut_to name h es)).disc_term ≡ h.disc_term)
unfolding set_prev set_active
set_prev-cut_to name h [] = (refl, refl, refl)
set_prev-cut_to name h (e ∷ es) = (refl, refl, refl)

module _ (name : LogName) (h : Handler) (v : IsValid name h) where
  -- Cutting a valid handler's log behind its first entry succeeds and keeps it valid, with exactly the
  -- entries before the cut and the same boundary.
  pub truncate_log-IsValid :
      (k : ℕ)
      → 0 < k
      → k < length h.entries
      → let (after, failed) = truncate_log TruncateFault.no_fault (h.disc_index + 1 + k) h in
        IsValid name after
        × (after.entries ≡ take k h.entries)
        × (after.disc_index ≡ h.disc_index)
        × (after.disc_term ≡ h.disc_term)
        × (failed ≡ false)
  truncate_log-IsValid k pos inside =
      let (entries, index, term) = set_prev-cut_to name h (take k h.entries) in
      rw (truncate_log_lem name h k v inside) (
        set_prev-IsValid name h (take k h.entries) v.active (omega (arith, length-take k h.entries))
            (Contiguous-take h.disc_index k h.entries v.contiguous)
            (All-take k h.entries v.encodable),
        entries,
        index,
        term,
        refl,
      )

  -- Cutting a valid handler's log at its first entry, right behind the snapshot boundary, empties the
  -- log and keeps the old last index, so that the entry which was to take the place is refused as
  -- behind, and nothing more changes.
  pub truncate_log_first :
      (e : LogEntry)
      → 0 < length h.entries
      → e.index ≡ h.disc_index + 1
      → let (after, failed) = truncate_log TruncateFault.no_fault e.index h in
        (failed ≡ false)
        × (after.entries ≡ [])
        × (after.prev_index ≡ h.prev_index)
        × (after.disc_index ≡ h.disc_index)
        × (append WriteFault.no_fault e after ≡ (after, some index_behind))
  unfolding append set_prev set_active
  truncate_log_first e nonempty first =
      ground (arith, truncate_log_lem name h 0 v nonempty, v.index)
