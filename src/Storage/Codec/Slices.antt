-- ===== src/Storage/Codec/Slices.antt =====
-- Slices of a buffer that is put together from parts.
use native.Mathlib.Nat.{zero-add, suc-add}
use not_ahivemind.Base.{
  ℕ, ◌+◌, ◌≡◌, List, [], ◌∷◌, ◌++◌, arith, length, drop, length-append, take-append,
}
use not_ahivemind.Storage.Codec.{ok, slice}

pub slice-append_left :
    (mid post : List ℕ) (n : ℕ) → n ≡ length mid → slice (mid ++ post) 0 n ≡ ok mid
unfolding slice
slice-append_left mid post n h = ground (arith, length-append mid post, take-append mid post n h)

drop-append_right :
    (pre bytes : List ℕ) (lo : ℕ) → drop (length pre + lo) (pre ++ bytes) ≡ drop lo bytes
drop-append_right [] bytes lo = simp zero-add
drop-append_right (x ∷ pre) bytes lo = rw suc-add (drop-append_right pre bytes lo)

pub slice-append_right :
    (pre bytes : List ℕ) (k lo hi lo' hi' : ℕ)
    → k ≡ length pre
    → lo' ≡ k + lo
    → hi' ≡ k + hi
    → slice (pre ++ bytes) lo' hi' ≡ slice bytes lo hi
unfolding slice
slice-append_right pre bytes k lo hi lo' hi' h p q =
    ground (arith, length-append pre bytes, drop-append_right pre bytes lo)
