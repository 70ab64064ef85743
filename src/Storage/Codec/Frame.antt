-- ===== src/Storage/Codec/Frame.antt =====
-- The fields of an encoded entry, as the decoder cuts them out of the buffer.
use native.Mathlib.Nat.{mod-eq_of_lt}
use not_ahivemind.Base.{
  list_laws, ℕ, ◌+◌, ◌-◌, ◌^◌, ◌<◌, ◌≡◌, refl, sym, ap, ◌∙◌, List, ◌++◌, arith, le→ltb, length,
  take, length-append, take-append,
}
use not_ahivemind.Storage.Codec.{
  put_le, put_le-length, get_le-put_le_of_lt, LogEntry, ok, encode_log_entry, slice, decode_body,
}
use not_ahivemind.Storage.Codec.Slices.{slice-append_left, slice-append_right}

-- The lengths and numbers that fit their fields, with room for the 16-bit sums of the decoder.
pub record IsEncodable (entry : LogEntry) : Type 0 where
  pub index_fits : entry.index < 256 ^ 8
  pub term_fits : entry.term < 256 ^ 8
  pub id_fits : length entry.scheduler_id < 65514
  pub size_fits : 22 + length entry.scheduler_id + length entry.payload < 2 ^ 32

abbrev pub entry_size : LogEntry → ℕ
entry_size entry = 18 + length entry.scheduler_id + length entry.payload

pub length-encode : (entry : LogEntry) → length (encode_log_entry entry) ≡ 4 + entry_size entry
unfolding encode_log_entry
length-encode entry = omega (
  arith,
  put_le-length 4 (entry_size entry),
  put_le-length 8 entry.index,
  put_le-length 8 entry.term,
  put_le-length 2 (length entry.scheduler_id),
  length-append {0},
)

module _ (entry : LogEntry) (rest : List ℕ) where
  open entry use {index, term, scheduler_id, payload}

  -- What follows the identifier length, the term, the index and the size.
  tail_text : List ℕ
  tail_text = scheduler_id ++ (payload ++ rest)

  tail_id : List ℕ
  tail_id = put_le 2 (length scheduler_id) ++ tail_text

  tail_term : List ℕ
  tail_term = put_le 8 term ++ tail_id

  tail_index : List ℕ
  tail_index = put_le 8 index ++ tail_term

  pub frame : List ℕ
  frame = put_le 4 (entry_size entry) ++ tail_index

  pub encode-frame : encode_log_entry entry ++ rest ≡ frame
  unfolding encode_log_entry frame tail_index tail_term tail_id tail_text
  encode-frame = simp list_laws

  pub slice_size : slice frame 0 4 ≡ ok (put_le 4 (entry_size entry))
  unfolding frame
  slice_size = slice-append_left _ tail_index 4 (sym (put_le-length 4 _))

  skip_size : (lo hi : ℕ) → slice frame (4 + lo) (4 + hi) ≡ slice tail_index lo hi
  unfolding frame
  skip_size lo hi = slice-append_right _ tail_index 4 lo hi _ _ (sym (put_le-length 4 _)) refl refl

  skip_index : (lo hi : ℕ) → slice tail_index (8 + lo) (8 + hi) ≡ slice tail_term lo hi
  unfolding tail_index
  skip_index lo hi = slice-append_right _ tail_term 8 lo hi _ _ (sym (put_le-length 8 _)) refl refl

  skip_term : (lo hi : ℕ) → slice tail_term (8 + lo) (8 + hi) ≡ slice tail_id lo hi
  unfolding tail_term
  skip_term lo hi = slice-append_right _ tail_id 8 lo hi _ _ (sym (put_le-length 8 _)) refl refl

  slice_index : slice frame 4 12 ≡ ok (put_le 8 index)
  unfolding tail_index
  slice_index = skip_size 0 8 ∙ slice-append_left _ tail_term 8 (sym (put_le-length 8 _))

  slice_term : slice frame 12 20 ≡ ok (put_le 8 term)
  unfolding tail_term
  slice_term =
      skip_size 8 16 ∙ skip_index 0 8 ∙ slice-append_left _ tail_id 8 (sym (put_le-length 8 _))

  pub slice_id : slice frame 20 22 ≡ ok (put_le 2 (length scheduler_id))
  unfolding tail_id
  slice_id =
      skip_size 16 18
      ∙ skip_index 8 10
      ∙ skip_term 0 2
      ∙ slice-append_left _ tail_text 2 (sym (put_le-length 2 _))

  skip_fixed :
      (lo hi lo' hi' : ℕ)
      → lo' ≡ 22 + lo
      → hi' ≡ 22 + hi
      → slice frame lo' hi' ≡ slice tail_text lo hi
  unfolding frame tail_index tail_term tail_id
  skip_fixed lo hi lo' hi' p q = rw regroup (
      slice-append_right prefix tail_text 22 lo hi lo' hi'
        (omega (
          arith,
          put_le-length 4 (entry_size entry),
          put_le-length 8 index,
          put_le-length 8 term,
          put_le-length 2 (length scheduler_id),
          length-append {0},
        ))
        p q)
    where
      prefix : List ℕ
      prefix =
          put_le 4 (entry_size entry)
          ++ (put_le 8 index ++ (put_le 8 term ++ put_le 2 (length scheduler_id)))

      regroup : frame ≡ prefix ++ tail_text
      regroup = simp list_laws

  slice_scheduler : slice frame 22 (22 + length scheduler_id) ≡ ok scheduler_id
  unfolding tail_text
  slice_scheduler =
      skip_fixed 0 (length scheduler_id) _ _ refl refl
      ∙ slice-append_left scheduler_id (payload ++ rest) _ refl

  slice_payload :
      (lo hi : ℕ)
      → lo ≡ 22 + length scheduler_id
      → hi ≡ 22 + (length scheduler_id + length payload)
      → slice frame lo hi ≡ ok payload
  unfolding tail_text
  slice_payload lo hi p q =
      skip_fixed (length scheduler_id) (length scheduler_id + length payload) lo hi p q
      ∙ slice-append_right scheduler_id (payload ++ rest) (length scheduler_id) 0 (length payload) _
          _ refl (omega arith) refl
      ∙ slice-append_left payload rest _ refl

  pub decode_body-frame : IsEncodable entry → decode_body frame (entry_size entry) ≡ ok entry
  unfolding decode_body
  decode_body-frame v = rw (
    slice_id,
    get_le-put_le_of_lt 2 id_length (omega arith),
    mod-eq_of_lt {n = 18 + id_length} {m = 65536} (omega arith),
    mod-eq_of_lt {n = 22 + id_length} {m = 65536} (omega arith),
    le→ltb size (18 + id_length) (omega arith),
    slice_scheduler,
    slice_index,
    slice_term,
    slice_payload (22 + id_length) (22 + id_length + (size - (18 + id_length))) refl (omega arith),
    get_le-put_le_of_lt 8 index v.index_fits,
    get_le-put_le_of_lt 8 term v.term_fits,
  )
    where
      id_length : ℕ
      id_length = length scheduler_id

      size : ℕ
      size = entry_size entry

  pub length-frame : length frame ≡ 4 + entry_size entry + length rest
  length-frame = omega (
    arith,
    ap length encode-frame,
    length-append (encode_log_entry entry) rest,
    length-encode entry,
  )

  pub take_size : take 4 frame ≡ put_le 4 (entry_size entry)
  unfolding frame
  take_size = take-append _ tail_index 4 (sym (put_le-length 4 _))
