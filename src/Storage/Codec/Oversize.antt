-- ===== src/Storage/Codec/Oversize.antt =====
-- Identifiers whose length overflows the decoder's 16-bit sums.
use native.Mathlib.Nat.{mod-eq_of_lt}
use mathlib.Core.List.{append-nil}
use not_ahivemind.Base.{
  ℕ, ◌+◌, ◌%◌, ◌^◌, ◌≤◌, ◌<◌, ◌≡◌, sym, List, [], arith, le→ltb, lt→leb, length,
}
use not_ahivemind.Storage.Codec.{
  get_le-put_le_of_lt, LogEntry, panic, encode_log_entry, slice, decode_body, decode_sized,
  decode_log_entry,
}
use not_ahivemind.Storage.Codec.Frame.{
  entry_size, frame, encode-frame, slice_size, slice_id, length-frame,
}

module _ (entry : LogEntry) where
  wrapped_slice :
      (bytes : List ℕ) (n : ℕ) → 65514 ≤ n → n < 65536 → slice bytes 22 ((22 + n) % 2 ^ 16) ≡ panic
  unfolding slice
  wrapped_slice bytes n lo hi = rw (lt→leb 22 ((22 + n) % 65536) (omega arith))

  -- An entry whose identifier has 65514 to 65535 bytes is encoded, and decoding it panics.
  decode-encode_oversize :
      65514 ≤ length entry.scheduler_id
      → length entry.scheduler_id < 65536
      → 22 + length entry.scheduler_id + length entry.payload < 2 ^ 32
      → decode_log_entry (encode_log_entry entry) ≡ panic
  unfolding decode_log_entry decode_sized decode_body
  decode-encode_oversize lo hi fits =
      rw (sym (append-nil (encode_log_entry entry)), encode-frame entry [])
        (rw (
          length-frame entry [],
          le→ltb (4 + entry_size entry + 0) 4 (omega arith),
          slice_size entry [],
          get_le-put_le_of_lt 4 (entry_size entry) (omega arith),
          le→ltb (entry_size entry) 18 (omega arith),
          mod-eq_of_lt {n = 4 + entry_size entry + 0} {m = 2 ^ 32} (omega arith),
          mod-eq_of_lt {n = 4 + entry_size entry} {m = 2 ^ 32} (omega arith),
          le→ltb (4 + entry_size entry + 0) (4 + entry_size entry) (omega arith),
          slice_id entry [],
          get_le-put_le_of_lt 2 (length entry.scheduler_id) (omega arith),
          le→ltb (entry_size entry) ((18 + length entry.scheduler_id) % 65536) (omega arith),
          wrapped_slice (frame entry []) (length entry.scheduler_id) lo hi,
        ))
