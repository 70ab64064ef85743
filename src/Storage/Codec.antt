-- ===== src/Storage/Codec.antt =====
-- The binary format of one log entry: internal/consensus/filesystem/interpreter.go. A byte slice is
-- a list of numbers, whose capacity is its length.
mod Bytes
mod Slices
pub mod Frame
pub mod RoundTrip
pub mod Torn
pub mod Oversize
unfoldable pub use Bytes.{put_le, get_le}
pub use Bytes.{put_le-length, get_le-put_le_of_lt, put_le-IsByte, put_le-get_le}
use not_ahivemind.Base.{
  ℕ, zero, suc, ◌+◌, ◌-◌, ◌%◌, ◌^◌, Bool, true, false, ◌&&◌, ◌||◌, Option, none, some, List, [],
  ◌∷◌, ◌++◌, ltb, leb, if◌then◌else◌, length, take, drop,
}

-- handler.go: `Index` and `Term` are the 64-bit patterns of the `int64` fields.
pub record LogEntry : Type 0 where
  pub index : ℕ
  pub term : ℕ
  pub scheduler_id : List ℕ
  pub payload : List ℕ

-- What a call gives: a value, an error, or a run-time panic. `stuck` is no Go value: the fuel of a
-- loop ran out.
pub data Outcome {ℓ} (A : Type ℓ) : Type ℓ where
  ok : A → Outcome A
  corrupted : Outcome A
  panic : Outcome A
  stuck : Outcome A

infixl 5 ◌>>=◌
abbrev pub ◌>>=◌ {ℓ κ} : {A : Type ℓ} {B : Type κ} → Outcome A → (A → Outcome B) → Outcome B
ok a >>= f = f a
corrupted >>= f = corrupted
panic >>= f = panic
stuck >>= f = stuck

-- 8 bytes of index, 8 of term, 2 of identifier length.
abbrev pub fixed_part : ℕ
fixed_part = 18

unfoldable pub encode_log_entry : LogEntry → List ℕ
encode_log_entry entry =
    put_le 4 (fixed_part + length entry.scheduler_id + length entry.payload)
    ++ (put_le 8 entry.index
        ++ (put_le 8 entry.term
            ++ (put_le 2 (length entry.scheduler_id) ++ (entry.scheduler_id ++ entry.payload))))

-- `data[lo:hi]`, which panics out of range.
unfoldable pub slice : List ℕ → ℕ → ℕ → Outcome (List ℕ)
slice bytes lo hi =
    if leb lo hi && leb hi (length bytes) then ok (take (hi - lo) (drop lo bytes)) else panic

-- `make([]byte, n)` and the copy of `data[lo:lo+n]` into it; `n` is `size - used`, an `int`.
copy_rest : List ℕ → ℕ → ℕ → ℕ → Outcome (List ℕ)
copy_rest bytes lo size used = if ltb size used then panic else slice bytes lo (lo + (size - used))

-- The slices and the fields, once the lengths have been checked. `masterIDLen` is a `uint16`, and
-- so are `18+masterIDLen` and `22+masterIDLen`.
unfoldable pub decode_body : List ℕ → ℕ → Outcome LogEntry
unfolding copy_rest
decode_body bytes size = do
  id_field ← slice bytes 20 22
  let id_length = get_le id_field
  if ltb size ((18 + id_length) % 2 ^ 16) then corrupted else do
    scheduler_id ← slice bytes 22 ((22 + id_length) % 2 ^ 16)
    index ← slice bytes 4 12
    term ← slice bytes 12 20
    payload ← copy_rest bytes (22 + id_length) size (18 + id_length)
    ok (record {
      index = get_le index;
      term = get_le term;
      scheduler_id = scheduler_id;
      payload = payload;
    })

-- `4+entrySize` is a `uint32`.
unfoldable pub decode_sized : List ℕ → ℕ → Outcome LogEntry
decode_sized bytes size =
    if ltb size 18 || ltb (length bytes % 2 ^ 32) ((4 + size) % 2 ^ 32)
    then corrupted
    else decode_body bytes size

unfoldable pub decode_log_entry : List ℕ → Outcome LogEntry
decode_log_entry bytes =
    if ltb (length bytes) 4
    then corrupted
    else (slice bytes 0 4 >>= λ size_field. decode_sized bytes (get_le size_field))

-- readLogEntries: `io.ReadFull` on what is left of the file, and one decoded frame after another.
-- `4+entrySize` is a `uint32` here too, and `buf[:4]` panics where it wrapped below 4. The frame's
-- size comes back with the entry.
unfoldable pub read_frame : List ℕ → Outcome (LogEntry × ℕ)
read_frame bytes =
    let total = (4 + get_le (take 4 bytes)) % 2 ^ 32 in
    if ltb (length bytes) 4
    then corrupted
    else if ltb total 4
    then panic
    else if ltb (length bytes) total
    then corrupted
    else (decode_log_entry (take total bytes) >>= λ entry. ok (entry, total))

-- The entries and `totalSize`; the end of the file is only looked for between frames. Each round
-- takes four bytes at least.
unfoldable pub read_frames : ℕ → List ℕ → Outcome (List LogEntry × ℕ)
read_frames fuel [] = ok ([], 0)
read_frames zero (b ∷ bs) = stuck
read_frames (suc fuel) (b ∷ bs) = do
  (entry, total) ← read_frame (b ∷ bs)
  (entries, size) ← read_frames fuel (drop total (b ∷ bs))
  ok (entry ∷ entries, total + size)

unfoldable pub read_log_entries : List ℕ → Outcome (List LogEntry × ℕ)
read_log_entries bytes = read_frames (length bytes) bytes
