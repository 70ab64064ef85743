-- ===== src/Storage/Rotation.antt =====
-- A round of StoreSnapshot: what it leaves of the log, also when entries came in while it wrote.
use mathlib.Core.Path.{subst}
use native.Mathlib.Nat.{add-zero}
use not_ahivemind.Base.{
  ℕ, ◌+◌, ◌≤◌, ◌≡◌, refl, sym, ap, ◌∙◌, suc, true, false, none, some, List, [], ◌∷◌, ◌++◌, arith,
  length, length-append, All,
}
use not_ahivemind.Storage.Codec.{LogEntry}
use not_ahivemind.Storage.Codec.Frame.{IsEncodable}
use not_ahivemind.Storage.Codec.RoundTrip.{encode_all}
use not_ahivemind.Storage.Handler.{
  LogName, Handler, contents, active_bytes, set_active, contents-store_self,
}
use not_ahivemind.Storage.Snapshot.{
  Capture, SnapshotFault, entries_after, rotate_file, finish_snapshot,
}
use not_ahivemind.Storage.Truncation.{rewrite_all}
use not_ahivemind.Storage.Valid.{Contiguous, end_term, IsValid}

entries_after_all :
    (n cutoff : ℕ) (es : List LogEntry)
    → Contiguous n es
    → cutoff ≤ n
    → entries_after cutoff es ≡ es
unfolding entries_after
entries_after_all n cutoff [] h le = refl
entries_after_all n cutoff (e ∷ es) (p, h) le =
    ground (arith, entries_after_all e.index cutoff es h)

-- Of consecutive entries those behind the cut stay.
entries_after-append :
    (n cutoff : ℕ) (old recent : List LogEntry)
    → Contiguous n (old ++ recent)
    → cutoff ≡ n + length old
    → entries_after cutoff (old ++ recent) ≡ recent
unfolding entries_after
entries_after-append n cutoff [] recent h p = entries_after_all n cutoff recent h (omega arith)
entries_after-append n cutoff (e ∷ old) recent (q, h) p =
    ground (arith, entries_after-append e.index cutoff old recent h)

Contiguous-drop :
    (n : ℕ) (old recent : List LogEntry)
    → Contiguous n (old ++ recent)
    → Contiguous (n + length old) recent
Contiguous-drop n [] recent h = rw add-zero h
Contiguous-drop n (e ∷ old) recent (p, h) =
    let shift : n + suc (length old) ≡ e.index + length old = omega arith in
    rw shift (Contiguous-drop e.index old recent h)

end_term_split :
    (t : ℕ) (old recent : List LogEntry)
    → end_term t (old ++ recent) ≡ end_term (end_term t old) recent
end_term_split t [] recent = refl
end_term_split t (e ∷ old) recent = end_term_split e.term old recent

All-drop : (old recent : List LogEntry) → All IsEncodable (old ++ recent) → All IsEncodable recent
All-drop [] recent h = h
All-drop (e ∷ old) recent (p, h) = All-drop old recent h

-- The state that a rotation to an empty file `name` leaves.
abbrev rotated : LogName → List LogEntry → Capture → Handler → Handler
rotated name recent c g = record (set_active name (encode_all recent) g) {
  active_file = some name;
  current_size = length (encode_all recent);
  entries = recent;
  disc_index = c.last_index;
  disc_term = c.last_term;
}

rotate_file_lem :
    (name old_name : LogName) (recent : List LogEntry) (c : Capture) (g : Handler)
    → g.active_file ≡ some old_name
    → entries_after c.last_index g.entries ≡ recent
    → active_bytes name g ≡ []
    → rotate_file SnapshotFault.no_fault name c g ≡ (rotated name recent c g, false)
unfolding rotate_file
rotate_file_lem name old_name recent c g active remaining empty =
    ground (arith, rewrite_all recent [] 0)

-- The handler before the rotation: the snapshot written and the new log file created.
abbrev prepared : LogName → List LogEntry → Handler → Handler
prepared name order h =
    set_active name []
      (record h { disk = record h.disk { snapshot = encode_all order }; snapshot_open = true })

finish_snapshot_lem :
    (order : List LogEntry) (c : Capture) (h : Handler)
    → contents (record { term = c.last_term; index = c.last_index }) h.logs ≡ none
    → finish_snapshot SnapshotFault.no_fault order c h
      ≡ rotate_file SnapshotFault.no_fault
          (record { term = c.last_term; index = c.last_index })
          c
          (prepared (record { term = c.last_term; index = c.last_index }) order h)
unfolding finish_snapshot active_bytes set_active
finish_snapshot_lem order c h absent = rw (rewrite_all order [] 0, active_bytes, absent)

module _ (name : LogName) (h : Handler) (old recent order : List LogEntry) (c : Capture)
    (v : IsValid name h) (split : h.entries ≡ old ++ recent)
    (cut : c.last_index ≡ h.disc_index + length old)
    (cut_term : c.last_term ≡ end_term h.disc_term old) where
  abbrev pub new_name : LogName
  new_name = record { term = c.last_term; index = c.last_index }

  remaining : entries_after c.last_index h.entries ≡ recent
  remaining =
      ap (entries_after c.last_index) split
      ∙ entries_after-append h.disc_index c.last_index old recent
          (subst (Contiguous h.disc_index) split v.contiguous) cut

  -- A round of StoreSnapshot that began on the entries `old` of a valid handler, and ends when
  -- `recent` have come behind them, leaves a valid handler on a new log file: its entries are
  -- `recent`, its boundary is the last of `old`, and the snapshot is the round's own entries alone.
  pub finish_snapshot-IsValid :
      contents new_name h.logs ≡ none
      → let (after, failed) = finish_snapshot SnapshotFault.no_fault order c h in
        IsValid new_name after
        × (after.entries ≡ recent)
        × (after.disc_index ≡ c.last_index)
        × (after.disc_term ≡ c.last_term)
        × (after.snapshot ≡ encode_all order)
        × (failed ≡ false)
  unfolding set_active active_bytes
  finish_snapshot-IsValid absent =
      rw
        (
          finish_snapshot_lem order c h absent,
          rotate_file_lem new_name name recent c (prepared new_name order h) v.active remaining
              (rw (contents-store_self new_name [] h.logs, active_bytes)),
        )
        (
          (record {
            active = refl;
            on_disk = contents-store_self new_name _ _;
            contiguous = rw cut (
                Contiguous-drop h.disc_index old recent
                  (subst (Contiguous h.disc_index) split v.contiguous));
            index = omega (arith, v.index, ap length split, length-append old recent);
            term =
                v.term
                ∙ ap (end_term h.disc_term) split
                ∙ end_term_split h.disc_term old recent
                ∙ ap (λ t. end_term t recent) (sym cut_term);
            size = refl;
            encodable = All-drop old recent (subst (All IsEncodable) split v.encodable);
          }),
          refl,
          refl,
          refl,
          refl,
          refl,
        )
