-- ===== src/Storage/Install.antt =====
-- InstallSnapshot: what the last chunk leaves, and the file that chunks sent in order add up to.
use mathlib.Core.List.{append-nil}
use not_ahivemind.Base.{
  ℕ, zero, suc, ◌+◌, ◌≤◌, ◌≡◌, refl, true, false, none, List, [], ◌∷◌, ◌++◌, arith, length, drop,
  take-append,
}
use not_ahivemind.Storage.Codec.{LogEntry, ok, read_frames, read_log_entries}
use not_ahivemind.Storage.Codec.RoundTrip.{encode_all}
use not_ahivemind.Storage.Handler.{LogName, Handler, store, set_active, contents-store_self}
use not_ahivemind.Storage.Snapshot.{Chunk, InstallFault, write_at, install_snapshot}
use not_ahivemind.Storage.Load.{later, opened, snapshot_entries, load_storage}
use not_ahivemind.Storage.Recovery.{IsLatest, find_latest_log_lem}
use not_ahivemind.Storage.Valid.{IsValid}

drop_all {ℓ} : {A : Type ℓ} (n : ℕ) (xs : List A) → length xs ≤ n → drop n xs ≡ []
drop_all zero [] h = refl
drop_all zero (x ∷ xs) h = absurd (omega arith)
drop_all (suc n) [] h = refl
drop_all (suc n) (x ∷ xs) h = drop_all n xs (omega arith)

-- A chunk that starts where the file ends is appended.
pub write_at_end :
    (old new : List ℕ) (offset : ℕ) → offset ≡ length old → write_at old offset new ≡ old ++ new
unfolding write_at
write_at_end old new offset h =
    rw
      (take-append old _ offset h, drop_all (offset + length new) old (omega arith), append-nil new)

-- A whole snapshot in one chunk.
abbrev pub whole : List ℕ → ℕ → ℕ → Chunk
whole bytes index term = record {
  offset = 0;
  bytes = bytes;
  done = true;
  last_included_index = index;
  last_included_term = term;
}

-- The state after the last chunk, the received file being `bytes`.
abbrev pub installed : LogName → List ℕ → Chunk → Handler → Handler
installed name bytes c h =
    record (set_active name [] (record h {
      disk = record h.disk { snapshot = bytes; temporary = none };
      snapshot_open = true;
    })) {
      entries = [];
      current_size = 0;
      prev_index = c.last_included_index;
      prev_term = c.last_included_term;
      disc_index = c.last_included_index;
      disc_term = c.last_included_term;
    }

IsLatest-store :
    (name : LogName) (b : List ℕ) (logs : List (LogName × List ℕ))
    → later name name ≡ false
    → IsLatest name logs
    → IsLatest name (store name b logs)
unfolding store
IsLatest-store name b [] self h = (self, tt)
IsLatest-store name b ((other, old) ∷ logs) self (h, hs) =
    ground (arith, IsLatest-store name b logs self hs)

module _ (name : LogName) (h : Handler) (bytes : List ℕ) (index term : ℕ) (v : IsValid name h) where
  install_snapshot-whole :
      install_snapshot InstallFault.no_fault (whole bytes index term) h
      ≡ (installed name bytes (whole bytes index term) h, false)
  unfolding install_snapshot set_active
  install_snapshot-whole = ground (arith, v.active, write_at_end [] bytes 0 refl)

  -- A snapshot received in one chunk replaces the log of a valid handler: the handler stays valid,
  -- with no entry, its boundary and last entry at the snapshot's, and the received bytes on disk.
  pub install_snapshot-IsValid :
      let (after, failed) = install_snapshot InstallFault.no_fault (whole bytes index term) h in
      IsValid name after
      × (after.entries ≡ [])
      × (after.prev_index ≡ index)
      × (after.disc_index ≡ index)
      × (after.disc_term ≡ term)
      × (after.snapshot ≡ bytes)
      × (failed ≡ false)
  unfolding set_active encode_all
  install_snapshot-IsValid = rw install_snapshot-whole (
    (record {
      active = v.active;
      on_disk = contents-store_self name [] h.logs;
      contiguous = tt;
      index = omega arith;
      term = refl;
      size = refl;
      encodable = tt;
    }),
    refl,
    refl,
    refl,
    refl,
    refl,
    refl,
  )

  -- The open log file keeps its name, so opening the directory again gives a handler with no entry
  -- that stands at the boundary which that name has, and not at the snapshot's.
  install_then_load :
      (snapshot : List LogEntry)
      → IsLatest name h.logs
      → snapshot_entries (read_log_entries bytes) ≡ ok snapshot
      → (g : Handler) × (load_storage h.max_log_size_kb
            (install_snapshot InstallFault.no_fault (whole bytes index term) h).0.disk
          ≡ ok g)
        × (g.entries ≡ [])
        × (g.prev_index ≡ name.index)
        × (g.disc_index ≡ name.index)
  unfolding set_active load_storage opened read_log_entries read_frames
  install_then_load snapshot latest readable = rw install_snapshot-whole (
    opened (installed name bytes (whole bytes index term) h).disk h.max_log_size_kb name [] 0,
    rw (
      readable,
      find_latest_log_lem name [] (store name [] h.logs)
          (IsLatest-store name [] h.logs (later_irrefl name) latest)
          (contents-store_self name [] h.logs),
    ),
    refl,
    refl,
    refl,
  )
    where
      later_irrefl : (n : LogName) → later n n ≡ false
      later_irrefl n = ground arith
