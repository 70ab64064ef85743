-- ===== src/Storage/Codec/Bytes.antt =====
-- encoding/binary's little-endian integers, as lists of bytes.
use mathlib.Core.Path.{ap₂}
use native.Mathlib.Nat.{pow-suc}
use not_ahivemind.Base.{
  ℕ, zero, suc, ◌+◌, ◌*◌, ◌/◌, ◌%◌, ◌^◌, ◌<◌, ◌≡◌, refl, ap, ◌∙◌, List, [], ◌∷◌, arith, length, All,
}

-- `PutUint16`, `PutUint32` and `PutUint64` at 2, 4 and 8 bytes; they keep the low bytes.
unfoldable pub put_le : ℕ → ℕ → List ℕ
put_le zero v = []
put_le (suc k) v = (v % 256) ∷ put_le k (v / 256)

-- `Uint16`, `Uint32` and `Uint64`.
unfoldable pub get_le : List ℕ → ℕ
get_le [] = 0
get_le (b ∷ bs) = b + 256 * get_le bs

pub put_le-length : (k v : ℕ) → length (put_le k v) ≡ k
unfolding put_le
put_le-length zero v = refl
put_le-length (suc k) v = ap suc (put_le-length k (v / 256))

pub get_le-put_le_of_lt : (k v : ℕ) → v < 256 ^ k → get_le (put_le k v) ≡ v
unfolding put_le get_le
get_le-put_le_of_lt zero v h = omega arith
get_le-put_le_of_lt (suc k) v h =
    omega (arith, get_le-put_le_of_lt k (v / 256) (omega (arith, pow-suc 256 k)))

-- The bytes written are bytes, whatever the number.
pub put_le-IsByte : (k v : ℕ) → All (λ b. b < 256) (put_le k v)
unfolding put_le
put_le-IsByte zero v = tt
put_le-IsByte (suc k) v = (omega arith, put_le-IsByte k (v / 256))

-- Reading as many bytes back gives the same bytes.
pub put_le-get_le : (bs : List ℕ) → All (λ b. b < 256) bs → put_le (length bs) (get_le bs) ≡ bs
unfolding put_le get_le
put_le-get_le [] h = refl
put_le-get_le (b ∷ bs) (hb, h) =
    ap₂ ◌∷◌ (omega arith) (ap (put_le (length bs)) (omega arith) ∙ put_le-get_le bs h)
