-- ===== src/Storage/Codec/RoundTrip.antt =====
-- Decoding what encodeLogEntry wrote, entry by entry and file by file.
use mathlib.Core.List.{append-nil}
use native.Mathlib.Nat.{mod-eq_of_lt}
use not_ahivemind.Base.{
  list_laws, ℕ, zero, suc, ◌+◌, ◌^◌, ◌≤◌, ◌<◌, ◌≡◌, refl, sym, ap, ◌∙◌, List, [], ◌∷◌, ◌++◌, arith,
  le→ltb, length, take, drop, length-append, take-append, drop-append, All,
}
use not_ahivemind.Storage.Codec.{
  put_le, get_le, get_le-put_le_of_lt, LogEntry, ok, ◌>>=◌, encode_log_entry, decode_sized,
  decode_log_entry, read_frame, read_frames, read_log_entries,
}
use not_ahivemind.Storage.Codec.Frame.{
  IsEncodable, entry_size, length-encode, frame, encode-frame, slice_size, decode_body-frame,
  length-frame, take_size,
}

pub size_bytes :
    (entry : LogEntry) (rest : List ℕ)
    → take 4 (encode_log_entry entry ++ rest) ≡ put_le 4 (entry_size entry)
size_bytes entry rest = ap (take 4) (encode-frame entry rest) ∙ take_size entry rest

module _ (entry : LogEntry) (v : IsEncodable entry) where
  pub size_field : get_le (put_le 4 (entry_size entry)) ≡ entry_size entry
  size_field = get_le-put_le_of_lt 4 (entry_size entry) (omega arith)

  decode_sized-frame : decode_sized (frame entry []) (entry_size entry) ≡ ok entry
  unfolding decode_sized
  decode_sized-frame =
      rw
        (
          le→ltb (entry_size entry) 18 (omega arith),
          length-frame entry [],
          mod-eq_of_lt {n = 4 + entry_size entry + 0} {m = 2 ^ 32} (omega arith),
          mod-eq_of_lt {n = 4 + entry_size entry} {m = 2 ^ 32} (omega arith),
          le→ltb (4 + entry_size entry + 0) (4 + entry_size entry) (omega arith),
        )
        (decode_body-frame entry [] v)

  decode_log_entry-frame : decode_log_entry (frame entry []) ≡ ok entry
  unfolding decode_log_entry
  decode_log_entry-frame =
      rw
        (
          length-frame entry [],
          le→ltb (4 + entry_size entry + 0) 4 (omega arith),
          slice_size entry [],
          size_field,
        )
        decode_sized-frame

  -- Decoding an encoded entry gives it back, when its fields fit: an identifier shorter than 65514
  -- bytes, a 64-bit index and term, and a frame of less than 2^32 bytes.
  decode-encode : decode_log_entry (encode_log_entry entry) ≡ ok entry
  decode-encode =
      ap decode_log_entry (sym (append-nil _) ∙ encode-frame entry []) ∙ decode_log_entry-frame

  read_frame-encode :
      (rest : List ℕ)
      → read_frame (encode_log_entry entry ++ rest) ≡ ok (entry, 4 + entry_size entry)
  unfolding read_frame
  read_frame-encode rest = rw (
    size_bytes entry rest,
    size_field,
    mod-eq_of_lt {n = 4 + entry_size entry} {m = 2 ^ 32} (omega arith),
    length-append (encode_log_entry entry) rest,
    length-encode entry,
    le→ltb (4 + entry_size entry + length rest) 4 (omega arith),
    le→ltb (4 + entry_size entry) 4 (omega arith),
    le→ltb (4 + entry_size entry + length rest) (4 + entry_size entry) (omega arith),
    take-append (encode_log_entry entry) rest (4 + entry_size entry) (sym (length-encode entry)),
    decode-encode,
  )

-- A log file: the entries written one after the other.
unfoldable pub encode_all : List LogEntry → List ℕ
encode_all [] = []
encode_all (e ∷ es) = encode_log_entry e ++ encode_all es

pub encode_all-append :
    (es fs : List LogEntry) → encode_all (es ++ fs) ≡ encode_all es ++ encode_all fs
unfolding encode_all
encode_all-append [] fs = refl
encode_all-append (e ∷ es) fs = simp (encode_all-append es fs, list_laws)

-- One round of the loop, at a file with something left.
pub read_frames_step :
    (fuel : ℕ) (bytes : List ℕ)
    → 0 < length bytes
    → read_frames (suc fuel) bytes ≡ (
        read_frame bytes >>= λ r.
        read_frames fuel (drop r.1 bytes) >>= λ q. ok (r.0 ∷ q.0, r.1 + q.1))
unfolding read_frames
read_frames_step fuel [] h = absurd (omega arith)
read_frames_step fuel (b ∷ bs) h = refl

-- One round at an encoded entry.
pub read_frames-encode :
    (fuel : ℕ) (e : LogEntry) (rest : List ℕ)
    → IsEncodable e
    → read_frames (suc fuel) (encode_log_entry e ++ rest)
      ≡ (read_frames fuel rest >>= λ q. ok (e ∷ q.0, 4 + entry_size e + q.1))
read_frames-encode fuel e rest v = rw (
  read_frames_step fuel (encode_log_entry e ++ rest)
      (omega (arith, length-append (encode_log_entry e) rest, length-encode e)),
  read_frame-encode e v rest,
  drop-append (encode_log_entry e) rest (4 + entry_size e) (sym (length-encode e)),
)

read_frames-encode_all :
    (fuel : ℕ) (es : List LogEntry)
    → length es ≤ fuel
    → All IsEncodable es
    → read_frames fuel (encode_all es) ≡ ok (es, length (encode_all es))
unfolding encode_all read_frames
read_frames-encode_all fuel [] h v = refl
read_frames-encode_all zero (e ∷ es) h v = absurd (omega arith)
read_frames-encode_all (suc fuel) (e ∷ es) h (v, vs) =
    read_frames-encode fuel e (encode_all es) v
    ∙ rw (
      read_frames-encode_all fuel es (omega arith) vs,
      length-append (encode_log_entry e) (encode_all es),
      length-encode e,
    )

pub length-le-encode_all : (es : List LogEntry) → length es ≤ length (encode_all es)
unfolding encode_all
length-le-encode_all [] = omega arith
length-le-encode_all (e ∷ es) = omega (
  arith,
  length-append (encode_log_entry e) (encode_all es),
  length-encode e,
  length-le-encode_all es,
)

-- Reading a file that is the encoding of some entries, each with fields that fit their widths and
-- identifiers short enough for the decoder, gives those entries and the size of the file.
pub read_log_entries-encode_all :
    (es : List LogEntry)
    → All IsEncodable es
    → read_log_entries (encode_all es) ≡ ok (es, length (encode_all es))
unfolding read_log_entries
read_log_entries-encode_all es v = read_frames-encode_all _ es (length-le-encode_all es) v
