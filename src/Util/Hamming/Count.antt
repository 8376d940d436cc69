-- ===== src/Util/Hamming/Count.antt =====
-- `hamming_weight` counts the ones of a whole buffer.
use native.Mathlib.Nat.{zero-add}
use bootrom_tools.Base.{ℕ, ◌+◌, ◌%◌, ◌^◌, ◌<◌, ◌≡◌, ◌∙◌, List, [], ◌∷◌, arith, All}
use bootrom_tools.Util.Hamming.{weight32, weight8, le32, hamming_from, hamming_weight}
use bootrom_tools.Util.Hamming.Weight.{ones, weight32-ones, weight8-ones}

-- The number of ones in a buffer.
unfoldable pub set_bits : List ℕ → ℕ
set_bits [] = 0
set_bits (x ∷ xs) = ones 8 x + set_bits xs

hamming_from-set_bits :
    (buf : List ℕ) (count : ℕ)
    → All (λ b. b < 256) buf
    → count < 2 ^ 32
    → hamming_from count buf ≡ (count + set_bits buf) % 2 ^ 32
unfolding hamming_from set_bits
hamming_from-set_bits [] count h fit = omega arith
hamming_from-set_bits (a ∷ b ∷ c ∷ d ∷ buf) count (ha, (hb, (hc, (hd, h)))) fit = omega (
  arith,
  weight32-ones a b c d (ha, hb, hc) hd,
  hamming_from-set_bits buf ((count + weight32 (le32 a b c d)) % 2 ^ 32) h (omega arith),
)
hamming_from-set_bits (a ∷ buf) count (ha, h) fit = omega (
  arith,
  weight8-ones a ha,
  hamming_from-set_bits buf ((count + weight8 a) % 2 ^ 32) h (omega arith),
)

-- `hamming_weight` counts the ones of every buffer of bytes, whatever its length (modulo 2^32,
-- the range of the counter).
pub hamming_weight-set_bits :
    (buf : List ℕ) → All (λ b. b < 256) buf → hamming_weight buf ≡ set_bits buf % 2 ^ 32
unfolding hamming_weight
hamming_weight-set_bits buf h = hamming_from-set_bits buf 0 h (omega arith) ∙ rw zero-add
