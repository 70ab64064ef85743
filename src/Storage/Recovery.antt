-- ===== src/Storage/Recovery.antt =====
-- Opening the directory of a handler again: what LoadStorage finds is what the handler had.
use not_ahivemind.Base.{ℕ, ◌+◌, ◌≡◌, refl, ap, true, false, some, List, [], ◌∷◌, arith, length, All}
use not_ahivemind.Storage.Codec.{LogEntry, ok, read_log_entries}
use not_ahivemind.Storage.Codec.RoundTrip.{encode_all, read_log_entries-encode_all}
use not_ahivemind.Storage.Handler.{LogName, Disk, Handler, contents}
use not_ahivemind.Storage.Load.{
  later, latest_loop, find_latest_log, opened, snapshot_entries, load_storage,
}
use not_ahivemind.Storage.Valid.{Contiguous, end_term, last-end_term, last-Contiguous, IsValid}

-- No log file of the directory has a later name.
abbrev pub IsLatest : LogName → List (LogName × List ℕ) → Type 0
IsLatest name logs = All (λ (f : LogName × List ℕ). later f.0 name ≡ false) logs

module _ (name : LogName) (bytes : List ℕ) where
  latest_loop_kept :
      (logs : List (LogName × List ℕ))
      → IsLatest name logs
      → latest_loop logs (some (name, bytes)) ≡ some (name, bytes)
  unfolding latest_loop
  latest_loop_kept [] h = refl
  latest_loop_kept ((other, old) ∷ logs) (h, hs) = rw h (latest_loop_kept logs hs)

  latest_loop_found :
      (logs : List (LogName × List ℕ)) (best : LogName) (old : List ℕ)
      → IsLatest name logs
      → later name best ≡ true
      → contents name logs ≡ some bytes
      → latest_loop logs (some (best, old)) ≡ some (name, bytes)
  unfolding latest_loop contents
  latest_loop_found [] best old h l c = cc
  latest_loop_found ((other, b) ∷ logs) best old (h, hs) l c = ground (
    arith,
    latest_loop_kept logs hs,
    latest_loop_found logs best old hs,
    latest_loop_found logs other b hs,
  )

  -- The file of the latest name is the one that findLatestLog returns.
  pub find_latest_log_lem :
      (logs : List (LogName × List ℕ))
      → IsLatest name logs
      → contents name logs ≡ some bytes
      → find_latest_log logs ≡ some (name, bytes)
  unfolding find_latest_log latest_loop contents
  find_latest_log_lem [] h c = cc
  find_latest_log_lem ((other, b) ∷ logs) (h, hs) c =
      ground (arith, latest_loop_kept logs hs, latest_loop_found logs other b hs)

-- What a restart makes of a handler: the same, with the snapshot open and no snapshot asked for.
abbrev pub restarted : Handler → Handler
restarted h = record h { snapshot_open = true; snapshot_required = false }

opened_prev :
    (disk : Disk) (max_kb : ℕ) (name : LogName) (es : List LogEntry) (size : ℕ)
    → Contiguous name.index es
    → ((opened disk max_kb name es size).prev_index ≡ name.index + length es)
      × ((opened disk max_kb name es size).prev_term ≡ end_term name.term es)
unfolding opened
opened_prev disk max_kb name [] size h = (omega arith, refl)
opened_prev disk max_kb name (e ∷ es) size (p, h) =
    (omega (arith, last-Contiguous e es h), last-end_term e es)

module _ (name : LogName) (h : Handler) (snapshot : List LogEntry) (v : IsValid name h)
    (named_term : name.term ≡ h.disc_term) (named_index : name.index ≡ h.disc_index) where
  opened-restarted :
      opened h.disk h.max_log_size_kb name h.entries (length (encode_all h.entries)) ≡ restarted h
  unfolding opened
  opened-restarted = ground (
    arith,
    v.active,
    v.index,
    v.term,
    v.size,
    first,
    opened_prev h.disk h.max_log_size_kb name h.entries (length (encode_all h.entries)) first,
  )
    where
      first : Contiguous name.index h.entries
      first = rw named_index v.contiguous

  -- Opening the directory of a valid handler, when the open log file has the latest name, bears the
  -- handler's snapshot boundary as its name and "active.log" is readable, gives the handler back:
  -- the same entries, last index and term, boundary and size.
  pub load_storage-restarted :
      IsLatest name h.logs
      → snapshot_entries (read_log_entries h.snapshot) ≡ ok snapshot
      → load_storage h.max_log_size_kb h.disk ≡ ok (restarted h)
  unfolding load_storage
  load_storage-restarted latest readable =
      rw
        (
          readable,
          find_latest_log_lem name (encode_all h.entries) h.logs latest v.on_disk,
          read_log_entries-encode_all h.entries v.encodable,
        )
        (ap ok opened-restarted)
