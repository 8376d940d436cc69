-- ===== src/Util/Fill.antt =====
-- src/common/util.c: `is_constant_fill`, over the `length` bytes that `buf` points to.
use bootrom_tools.Base.{
  ℕ, ◌≡◌, ◌↔◌, Bool, true, false, List, [], ◌∷◌, arith, ◌==◌, if◌then◌else◌, length, replicate,
}

unfoldable pub is_constant_fill : List ℕ → ℕ → Bool
is_constant_fill [] fill_byte = true
is_constant_fill (b ∷ buf) fill_byte =
    if b == fill_byte then is_constant_fill buf fill_byte else false

-- A region is filled with a byte exactly when it is that byte repeated to its length.
pub is_constant_fill_iff :
    (buf : List ℕ) (fill_byte : ℕ)
    → (is_constant_fill buf fill_byte ≡ true) ↔ (buf ≡ replicate (length buf) fill_byte)
unfolding is_constant_fill
is_constant_fill_iff [] f = ground arith
is_constant_fill_iff (b ∷ buf) f = ground (arith, is_constant_fill_iff buf f)
