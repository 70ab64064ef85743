-- ===== src/Storage/Samples.antt =====
-- Runs of the storage layer on a small log: the theorems about it, applied.
use not_ahivemind.Base.{ℕ, ◌<◌, ◌≡◌, refl, true, false, none, some, [], ◌∷◌, arith, length, take}
use not_ahivemind.Storage.Codec.{
  LogEntry, ok, encode_log_entry, read_frames, read_log_entries, put_le,
}
use not_ahivemind.Storage.Codec.Frame.{IsEncodable}
use not_ahivemind.Storage.Codec.RoundTrip.{encode_all, read_log_entries-encode_all}
use not_ahivemind.Storage.Handler.{LogName, Handler, contents}
use not_ahivemind.Storage.Writer.{WriteFault, TruncateFault, append, truncate_log}
use not_ahivemind.Storage.Snapshot.{
  Capture, SnapshotFault, InstallFault, finish_snapshot, install_snapshot,
}
use not_ahivemind.Storage.Load.{load_storage, snapshot_entries}
use not_ahivemind.Storage.Valid.{IsValid, append-IsValid}
use not_ahivemind.Storage.Truncation.{truncate_log-IsValid}
use not_ahivemind.Storage.Recovery.{restarted, load_storage-restarted}
use not_ahivemind.Storage.Rotation.{finish_snapshot-IsValid}
use not_ahivemind.Storage.Install.{whole, install_snapshot-IsValid}

abbrev pub entry_at : ℕ → LogEntry
entry_at index = record { index = index; term = 1; scheduler_id = 65 ∷ []; payload = 7 ∷ 8 ∷ [] }

abbrev pub origin : LogName
origin = record { term = 0; index = 0 }

-- A log of two entries behind the boundary 0.
abbrev pub two_entries : Handler
two_entries = record {
  disk = record {
    logs = (origin, encode_all (entry_at 1 ∷ entry_at 2 ∷ [])) ∷ [];
    snapshot = [];
    temporary = none;
  };
  active_file = some origin;
  snapshot_open = true;
  current_size = 50;
  max_log_size_kb = 1;
  prev_index = 2;
  prev_term = 1;
  disc_index = 0;
  disc_term = 0;
  entries = entry_at 1 ∷ entry_at 2 ∷ [];
  snapshot_required = false;
}

pub entry_at-IsEncodable : (index : ℕ) → index < 100 → IsEncodable (entry_at index)
entry_at-IsEncodable index small = record {
  index_fits = omega arith;
  term_fits = omega arith;
  id_fits = omega arith;
  size_fits = omega arith;
}

pub two_entries-IsValid : IsValid origin two_entries
unfolding contents encode_all encode_log_entry put_le
two_entries-IsValid = record {
  active = refl;
  on_disk = refl;
  contiguous = (refl, (refl, tt));
  index = refl;
  term = refl;
  size = refl;
  encodable = (entry_at-IsEncodable 1 (omega arith), (entry_at-IsEncodable 2 (omega arith), tt));
}

load_storage-restarted_example : load_storage 1 two_entries.disk ≡ ok (restarted two_entries)
unfolding snapshot_entries read_log_entries read_frames
load_storage-restarted_example =
    load_storage-restarted origin two_entries [] two_entries-IsValid refl refl (refl, tt) refl

read_log_entries-encode_all_example :
    read_log_entries (encode_all (entry_at 1 ∷ entry_at 2 ∷ []))
    ≡ ok (entry_at 1 ∷ entry_at 2 ∷ [], length (encode_all (entry_at 1 ∷ entry_at 2 ∷ [])))
read_log_entries-encode_all_example =
    read_log_entries-encode_all (entry_at 1 ∷ entry_at 2 ∷ []) two_entries-IsValid.encodable

append-IsValid_example : IsValid origin (append WriteFault.no_fault (entry_at 3) two_entries).0
append-IsValid_example =
    append-IsValid origin two_entries (entry_at 3) two_entries-IsValid
      (entry_at-IsEncodable 3 (omega arith))

truncate_log-IsValid_example :
    let (after, failed) = truncate_log TruncateFault.no_fault 2 two_entries in
    IsValid origin after
    × (after.entries ≡ take 1 two_entries.entries)
    × (after.disc_index ≡ 0)
    × (after.disc_term ≡ 0)
    × (failed ≡ false)
truncate_log-IsValid_example =
    truncate_log-IsValid origin two_entries two_entries-IsValid 1 (omega arith) (omega arith)

abbrev round : Capture
round = record { compressed = entry_at 1 ∷ []; last_term = 1; last_index = 1 }

finish_snapshot-IsValid_example :
    let (after, failed) =
      finish_snapshot SnapshotFault.no_fault (entry_at 1 ∷ []) round two_entries in
    IsValid (record { term = 1; index = 1 }) after
    × (after.entries ≡ entry_at 2 ∷ [])
    × (after.disc_index ≡ 1)
    × (after.disc_term ≡ 1)
    × (after.snapshot ≡ encode_all (entry_at 1 ∷ []))
    × (failed ≡ false)
unfolding contents
finish_snapshot-IsValid_example =
    finish_snapshot-IsValid origin two_entries (entry_at 1 ∷ []) (entry_at 2 ∷ []) (entry_at 1 ∷ [])
      round two_entries-IsValid refl refl refl refl

install_snapshot-IsValid_example :
    let (after, failed) =
      install_snapshot InstallFault.no_fault (whole (1 ∷ 2 ∷ []) 9 3) two_entries in
    IsValid origin after
    × (after.entries ≡ [])
    × (after.prev_index ≡ 9)
    × (after.disc_index ≡ 9)
    × (after.disc_term ≡ 3)
    × (after.snapshot ≡ 1 ∷ 2 ∷ [])
    × (failed ≡ false)
install_snapshot-IsValid_example =
    install_snapshot-IsValid origin two_entries (1 ∷ 2 ∷ []) 9 3 two_entries-IsValid
