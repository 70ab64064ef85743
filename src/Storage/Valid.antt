-- ===== src/Storage/Valid.antt =====
-- When a handler's memory, counters and open log file agree, and what Append does to that.
use mathlib.Core.List.{append-nil}
use not_ahivemind.Base.{
  ℕ, ◌+◌, ◌≤◌, ◌<◌, ◌≡◌, refl, sym, ap, ◌∙◌, ◌⊎◌, inl, inr, none, some, List, [], ◌∷◌, ◌++◌, arith,
  length, length-append, last_or, All, All-append,
}
use not_ahivemind.Storage.Codec.{LogEntry, encode_log_entry}
use not_ahivemind.Storage.Codec.Frame.{IsEncodable}
use not_ahivemind.Storage.Codec.RoundTrip.{encode_all, encode_all-append}
use not_ahivemind.Storage.Handler.{
  LogName, Handler, contents, active_bytes, set_active, contents-store_self,
}
use not_ahivemind.Storage.Writer.{WriteFault, index_behind, index_ahead, record_entry, append}

-- The indices go up by one from the one before the first.
abbrev pub Contiguous : ℕ → List LogEntry → Type 0
Contiguous n [] = Unit {0}
Contiguous n (e ∷ es) = (e.index ≡ n + 1) × Contiguous e.index es

abbrev pub end_term : ℕ → List LogEntry → ℕ
end_term term [] = term
end_term term (e ∷ es) = end_term e.term es

-- `name` is the open log file.
pub record IsValid (name : LogName) (h : Handler) : Type 0 where
  pub active : h.active_file ≡ some name
  pub on_disk : contents name h.logs ≡ some (encode_all h.entries)
  pub contiguous : Contiguous h.disc_index h.entries
  pub index : h.prev_index ≡ h.disc_index + length h.entries
  pub term : h.prev_term ≡ end_term h.disc_term h.entries
  pub size : h.current_size ≡ length (encode_all h.entries)
  pub encodable : All IsEncodable h.entries

Contiguous-append :
    (n : ℕ) (es : List LogEntry) (e : LogEntry)
    → Contiguous n es
    → e.index ≡ n + length es + 1
    → Contiguous n (es ++ e ∷ [])
Contiguous-append n [] e h p = (omega arith, tt)
Contiguous-append n (x ∷ es) e (p, h) q = (p, Contiguous-append x.index es e h (omega arith))

end_term-append : (t : ℕ) (es : List LogEntry) (e : LogEntry) → end_term t (es ++ e ∷ []) ≡ e.term
end_term-append t [] e = refl
end_term-append t (x ∷ es) e = end_term-append x.term es e

pub last-end_term : (e : LogEntry) (es : List LogEntry) → (last_or e es).term ≡ end_term e.term es
last-end_term e [] = refl
last-end_term e (x ∷ es) = last-end_term x es

pub last-Contiguous :
    (e : LogEntry) (es : List LogEntry)
    → Contiguous e.index es
    → (last_or e es).index ≡ e.index + length es
last-Contiguous e [] h = omega arith
last-Contiguous e (x ∷ es) (p, h) = omega (arith, last-Contiguous x es h)

encode_all_snoc :
    (es : List LogEntry) (e : LogEntry)
    → encode_all (es ++ e ∷ []) ≡ encode_all es ++ encode_log_entry e
unfolding encode_all
encode_all_snoc es e =
    encode_all-append es (e ∷ []) ∙ ap (λ bytes. encode_all es ++ bytes) (append-nil _)

module _ (name : LogName) (h : Handler) (e : LogEntry) (v : IsValid name h) where
  pub append_behind :
      e.index ≤ h.prev_index → append WriteFault.no_fault e h ≡ (h, some index_behind)
  unfolding append
  append_behind p = ground arith

  pub append_ahead :
      h.prev_index + 1 < e.index → append WriteFault.no_fault e h ≡ (h, some index_ahead)
  unfolding append
  append_ahead p = ground arith

  pub append_next :
      e.index ≡ h.prev_index + 1 → append WriteFault.no_fault e h ≡ (record_entry name e h, none)
  unfolding append
  append_next p = ground (arith, v.active)

  active_bytes_lem : active_bytes name h ≡ encode_all h.entries
  unfolding active_bytes
  active_bytes_lem = rw (v.on_disk, active_bytes)

  pub record_entry-IsValid :
      IsEncodable e → e.index ≡ h.prev_index + 1 → IsValid name (record_entry name e h)
  unfolding record_entry set_active
  record_entry-IsValid fits next = record {
    active = v.active;
    on_disk =
        contents-store_self name _ h.logs
        ∙ ap some (
            ap (λ bytes. bytes ++ encode_log_entry e) active_bytes_lem
            ∙ sym (encode_all_snoc h.entries e));
    contiguous = Contiguous-append h.disc_index h.entries e v.contiguous (omega (arith, v.index));
    index = omega (arith, v.index, length-append h.entries (e ∷ []));
    term = sym (end_term-append h.disc_term h.entries e);
    size = omega (
      arith,
      v.size,
      ap length (encode_all_snoc h.entries e),
      length-append (encode_all h.entries) (encode_log_entry e),
    );
    encodable = All-append IsEncodable h.entries (e ∷ []) v.encodable (fits, tt);
  }

  -- Append of an encodable entry (its fields fit their widths and its identifier is short enough), where
  -- no write fails, keeps a valid handler valid, whether it accepts the entry or refuses its index.
  pub append-IsValid : IsEncodable e → IsValid name (append WriteFault.no_fault e h).0
  append-IsValid fits = elim (cases e.index h.prev_index) [
    | inl behind ↦ rw (append_behind behind) v
    | inr (inl next) ↦ rw (append_next next) (record_entry-IsValid fits next)
    | inr (inr ahead) ↦ rw (append_ahead ahead) v
  ]
    where
      cases : (i p : ℕ) → (i ≤ p) ⊎ ((i ≡ p + 1) ⊎ (p + 1 < i))
      cases i p = ground arith
