-- ===== src/Util/Hamming/Balance.antt =====
-- `balance_vidpid`: what it accepts has as many ones as zeros.
use native.Mathlib.Decide.{dec_le}
use bootrom_tools.Base.{
  ℕ, ◌+◌, ◌-◌, ◌*◌, ◌/◌, ◌%◌, ◌^◌, ◌≤◌, ◌<◌, ◌≡◌, ◌≢◌, refl, true, [], ◌∷◌, arith, bit_or,
  bit_or_disjoint, ◌==◌, ==_iff,
}
use bootrom_tools.Util.Hamming.{hamming_weight, bytes_of, balance_vidpid}
use bootrom_tools.Util.Hamming.Weight.{ones, ones8-le, all_below, all_below_lem}
use bootrom_tools.Util.Hamming.Count.{set_bits, hamming_weight-set_bits}

complement_table : all_below 256 (λ x. ones 8 x + ones 8 (255 - x) == 8) ≡ true
unfolding all_below ones
complement_table = refl

-- A byte and its complement have eight ones between them.
ones-complement : (x : ℕ) → x < 256 → ones 8 x + ones 8 (255 - x) ≡ 8
ones-complement x h =
    (==_iff _ _).0 (all_below_lem 256 (λ x. ones 8 x + ones 8 (255 - x) == 8) x complement_table h)

abbrev upconverted : ℕ → ℕ
upconverted v = bit_or v ((2 ^ 32 - 1 - v) * 2 ^ 16 % 2 ^ 32)

upconverted_value : (v : ℕ) → v < 2 ^ 16 → upconverted v ≡ (2 ^ 16 - 1 - v) * 2 ^ 16 + v
upconverted_value v h =
    let high : (2 ^ 32 - 1 - v) * 2 ^ 16 % 2 ^ 32 ≡ (2 ^ 16 - 1 - v) * 2 ^ 16 = omega arith in
    rw high (bit_or_disjoint 16 (2 ^ 16 - 1 - v) v h)

bytes_of_upconverted :
    (v : ℕ)
    → v < 2 ^ 16
    → bytes_of ((2 ^ 16 - 1 - v) * 2 ^ 16 + v)
      ≡ v % 256 ∷ v / 256 ∷ (255 - v % 256) ∷ (255 - v / 256) ∷ []
unfolding bytes_of
bytes_of_upconverted v h = ground arith

upconverted_bits : (v : ℕ) → v < 2 ^ 16 → set_bits (bytes_of (upconverted v)) ≡ 16
upconverted_bits v h =
    rw (upconverted_value v h, bytes_of_upconverted v h)
      (unfold set_bits in omega (arith, ones-complement (v % 256), ones-complement (v / 256)))

-- The counter does not wrap over four bytes.
hamming_weight-bytes_of : (v : ℕ) → hamming_weight (bytes_of v) ≡ set_bits (bytes_of v)
unfolding bytes_of set_bits
hamming_weight-bytes_of v = omega (
  arith,
  hamming_weight-set_bits (bytes_of v) (omega arith),
  ones8-le (v % 2 ^ 8),
  ones8-le (v / 2 ^ 8 % 2 ^ 8),
  ones8-le (v / 2 ^ 16 % 2 ^ 8),
  ones8-le (v / 2 ^ 24 % 2 ^ 8),
)

small_upconverted : (v : ℕ) → v ≢ 0 → v ≤ 0x7fff → balance_vidpid v ≡ (upconverted v, true)
unfolding balance_vidpid
small_upconverted v nonzero small = ground arith

large_kept : (v : ℕ) → 0x7fff < v → balance_vidpid v ≡ (v, hamming_weight (bytes_of v) == 16)
unfolding balance_vidpid
large_kept v large = ground arith

-- Every nonzero id that `balance_vidpid` accepts leaves it with exactly 16 ones among its 32
-- bits.
pub balance_vidpid_balanced :
    (v : ℕ) → v ≢ 0 → (balance_vidpid v).1 ≡ true → set_bits (bytes_of (balance_vidpid v).0) ≡ 16
balance_vidpid_balanced v nonzero accepted = elim (dec_le v 0x7fff) [
  | yes small ↦ rw (small_upconverted v nonzero small) (upconverted_bits v (omega arith))
  | no large ↦
      let kept = large_kept v (omega arith) in
      let sixteen : (hamming_weight (bytes_of v) == 16) ≡ true = rw kept at accepted in
      rw kept (omega (arith, (==_iff _ _).0 sixteen, hamming_weight-bytes_of v))
]

-- A nonzero id of at most 15 bits is accepted, and the balanced word has it in its low half.
pub balance_vidpid_keeps_id :
    (v : ℕ)
    → v ≢ 0
    → v ≤ 0x7fff
    → ((balance_vidpid v).1 ≡ true) × ((balance_vidpid v).0 % 2 ^ 16 ≡ v)
balance_vidpid_keeps_id v nonzero small =
    rw (small_upconverted v nonzero small) (refl, omega (arith, upconverted_value v (omega arith)))
