-- ===== src/Storage/Codec/Torn.antt =====
-- A log file whose last write was cut short by a crash.
use mathlib.Core.List.{append_assoc, append-nil}
use native.Mathlib.Nat.{mod-eq_of_lt}
use not_ahivemind.Base.{
  ℕ, zero, suc, ◌+◌, ◌^◌, ◌≤◌, ◌<◌, ◌≡◌, sym, ap, ◌∙◌, inl, inr, false, List, [], ◌∷◌, ◌++◌, arith,
  ltb, lt→ltb, le→ltb, Bool-cases, length, take, length-append, length-take, take-take, All,
}
use not_ahivemind.Storage.Codec.{
  put_le, LogEntry, corrupted, encode_log_entry, read_frame, read_frames, read_log_entries,
}
use not_ahivemind.Storage.Codec.Frame.{IsEncodable, entry_size, length-encode}
use not_ahivemind.Storage.Codec.RoundTrip.{
  size_bytes, size_field, encode_all, read_frames_step, read_frames-encode, length-le-encode_all,
}

read_frames_torn :
    (fuel : ℕ) (es : List LogEntry) (tail : List ℕ)
    → length es < fuel
    → All IsEncodable es
    → 0 < length tail
    → read_frame tail ≡ corrupted
    → read_frames fuel (encode_all es ++ tail) ≡ corrupted
unfolding encode_all
read_frames_torn zero es tail h v nonempty torn = absurd (omega arith)
read_frames_torn (suc fuel) [] tail h v nonempty torn =
    rw (read_frames_step fuel tail nonempty, torn)
read_frames_torn (suc fuel) (e ∷ es) tail h (v, vs) nonempty torn = rw (
  append_assoc,
  read_frames-encode fuel e (encode_all es ++ tail) v,
  read_frames_torn fuel es tail (omega arith) vs nonempty torn,
)

-- A strict prefix of an encoded entry is no frame.
read_frame_torn :
    (e : LogEntry) (k : ℕ)
    → IsEncodable e
    → k < 4 + entry_size e
    → read_frame (take k (encode_log_entry e)) ≡ corrupted
unfolding read_frame
read_frame_torn e k v h = elim (Bool-cases (ltb (length (take k (encode_log_entry e))) 4)) [
  | inl short ↦ rw short
  | inr long ↦ rw (
    long,
    header long,
    size_field e v,
    mod-eq_of_lt {n = 4 + entry_size e} {m = 2 ^ 32} (omega arith),
    le→ltb (4 + entry_size e) 4 (omega arith),
    lt→ltb (length (take k (encode_log_entry e))) (4 + entry_size e)
        (omega (arith, length-take k (encode_log_entry e))),
  )
]
  where
    header :
        ltb (length (take k (encode_log_entry e))) 4 ≡ false
        → take 4 (take k (encode_log_entry e)) ≡ put_le 4 (entry_size e)
    header long =
        take-take 4 k (encode_log_entry e) (four_le long)
        ∙ ap (take 4) (sym (append-nil (encode_log_entry e)))
        ∙ size_bytes e []
      where
        four_le : ltb (length (take k (encode_log_entry e))) 4 ≡ false → 4 ≤ k
        four_le long = ground (arith, length-take k (encode_log_entry e))

-- A file that ends in a strict, non-empty prefix of an entry is refused as a whole: the entries
-- before it are not recovered either.
read_log_entries_torn :
    (es : List LogEntry) (e : LogEntry) (k : ℕ)
    → All IsEncodable es
    → IsEncodable e
    → 0 < k
    → k < length (encode_log_entry e)
    → read_log_entries (encode_all es ++ take k (encode_log_entry e)) ≡ corrupted
unfolding read_log_entries
read_log_entries_torn es e k vs v pos short =
    read_frames_torn _ es torn
      (omega (arith, length-append (encode_all es) torn, length-le-encode_all es, length_torn)) vs
      (omega (arith, length_torn)) (read_frame_torn e k v (omega (arith, length-encode e)))
  where
    torn : List ℕ
    torn = take k (encode_log_entry e)

    length_torn : length torn ≡ k
    length_torn = omega (arith, length-take k (encode_log_entry e))
