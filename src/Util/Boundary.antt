-- ===== src/Util/Boundary.antt =====
-- src/common/util.c: `is_power_of_2`, `block_aligned` and `next_boundary` on `uint32_t`.
use native.Mathlib.Nat.{mod-lt, div-add-mod', mul-mod_left, mod_self, div-eq_of_lt}
use native.Mathlib.Decide.{ℕ_discrete}
use bootrom_tools.Base.{
  ℕ, zero, suc, ◌+◌, ◌-◌, ◌*◌, ◌/◌, ◌%◌, ◌^◌, ◌≤◌, ◌<◌, ◌≡◌, ◌↔◌, ap, Bool, true, not, ◌&&◌,
  bit_and, arith, ◌==◌, ==_iff, bit_and_lowest, bit_and_self_below, bit_and_mask, bit_and_high,
  pow_pos, pow_double, pow_lt, ◌∙◌,
}

-- `x - 1` on `uint32_t` wraps at zero.
abbrev pub pred32 : ℕ → ℕ
pred32 x = (x + 2 ^ 32 - 1) % 2 ^ 32

-- `~x` on `uint32_t`
abbrev pub not32 : ℕ → ℕ
not32 x = 2 ^ 32 - 1 - x

unfoldable pub is_power_of_2 : ℕ → Bool
is_power_of_2 x = not (x == 0) && bit_and x (pred32 x) == 0

unfoldable pub block_aligned : ℕ → ℕ → Bool
block_aligned location block_size = bit_and location (pred32 block_size) == 0

unfoldable pub next_boundary : ℕ → ℕ → ℕ
next_boundary location block_size =
    bit_and ((location + pred32 block_size) % 2 ^ 32) (not32 (pred32 block_size))

pred32-pow : (k : ℕ) → k < 32 → pred32 (2 ^ k) ≡ 2 ^ k - 1
pred32-pow k h = omega (arith, pow_pos k, pow_lt k 32 h)

-- An address is block-aligned exactly when the block size, a power of two, divides it.
pub block_aligned_iff :
    (k location : ℕ) → k < 32 → (block_aligned location (2 ^ k) ≡ true) ↔ (location % 2 ^ k ≡ 0)
unfolding block_aligned
block_aligned_iff k location h =
    rw (pred32-pow k h, bit_and_mask k location) (==_iff (location % 2 ^ k) 0)

next_boundary_value :
    (k location : ℕ)
    → k < 32
    → next_boundary location (2 ^ k) ≡ (location + (2 ^ k - 1)) % 2 ^ 32 / 2 ^ k * 2 ^ k
unfolding next_boundary
next_boundary_value k location h =
    let mask : not32 (pred32 (2 ^ k)) ≡ 2 ^ 32 - 2 ^ k =
      omega (arith, pred32-pow k h, pow_pos k, pow_lt k 32 h) in
    rw (mask, pred32-pow k h)
      (bit_and_high 32 k ((location + (2 ^ k - 1)) % 2 ^ 32) (omega arith) (omega arith))

-- `next_boundary` rounds up: where the last byte of the block that starts at the address has an
-- address, the result is a multiple of the block size, at least the address, and less than one
-- block above it.
pub next_boundary_rounds_up :
    (k location : ℕ)
    → k < 32
    → location + 2 ^ k ≤ 2 ^ 32
    → (next_boundary location (2 ^ k) % 2 ^ k ≡ 0)
      × (location ≤ next_boundary location (2 ^ k))
      × (next_boundary location (2 ^ k) < location + 2 ^ k)
next_boundary_rounds_up k location h room =
    let y : ℕ = location + (2 ^ k - 1) in
    let whole : y % 2 ^ 32 ≡ y = omega (arith, pow_pos k) in
    let value : next_boundary location (2 ^ k) ≡ y / 2 ^ k * 2 ^ k =
      next_boundary_value k location h ∙ ap (λ (t : ℕ). t / 2 ^ k * 2 ^ k) whole in
    rw value (
      mul-mod_left (y / 2 ^ k) (2 ^ k),
      omega (arith, pow_pos k, div-add-mod' y (2 ^ k), mod-lt y (pow_pos k)),
      omega (arith, pow_pos k, div-add-mod' y (2 ^ k)),
    )

one_multiple : (a b size : ℕ) → a * size < b * size + size → a ≤ b
one_multiple a b size h = grind arith

-- The fewest blocks that reach an address, if they end below 2^32, end where `next_boundary` says.
pub next_boundary_blocks :
    (k blocks location : ℕ)
    → k < 31
    → location ≤ blocks * 2 ^ k
    → blocks * 2 ^ k < location + 2 ^ k
    → blocks * 2 ^ k < 2 ^ 31
    → next_boundary location (2 ^ k) ≡ blocks * 2 ^ k
next_boundary_blocks k blocks location h enough fewest below =
    let y : ℕ = location + (2 ^ k - 1) in
    let whole : y % 2 ^ 32 ≡ y = omega (arith, pow_pos k, pow_lt k 31 h) in
    let lower =
      one_multiple (y / 2 ^ k) blocks (2 ^ k) (omega (arith, pow_pos k, div-add-mod' y (2 ^ k))) in
    let upper =
      one_multiple blocks (y / 2 ^ k) (2 ^ k)
        (omega (arith, pow_pos k, div-add-mod' y (2 ^ k), mod-lt y (pow_pos k))) in
    let same : y / 2 ^ k ≡ blocks = omega arith in
    next_boundary_value k location (omega arith)
    ∙ (ap (λ (t : ℕ). t / 2 ^ k * 2 ^ k) whole ∙ ap (λ (t : ℕ). t * 2 ^ k) same)

-- Where no block boundary is left above an address, `next_boundary` wraps round to 0.
pub next_boundary_wraps :
    (k location : ℕ)
    → k < 32
    → location < 2 ^ 32
    → 2 ^ 32 < location + 2 ^ k
    → next_boundary location (2 ^ k) ≡ 0
next_boundary_wraps k location h below over =
    let small : (location + (2 ^ k - 1)) % 2 ^ 32 < 2 ^ k =
      omega (arith, pow_pos k, pow_lt k 32 h) in
    rw (next_boundary_value k location h, div-eq_of_lt small) (omega arith)

-- Only a power of two has no bit in common with its predecessor.
pow_of_bit_and_pred : (n x : ℕ) → x ≤ n → 0 < x → bit_and x (x - 1) ≡ 0 → (k : ℕ) × (x ≡ 2 ^ k)
pow_of_bit_and_pred zero x le pos e = absurd (omega arith)
pow_of_bit_and_pred (suc n) x le pos e = elim (ℕ_discrete (x % 2) 0) [
  | yes even ↦
      let half : (x - 1) / 2 ≡ x / 2 - 1 = omega arith in
      let (k, p) =
        pow_of_bit_and_pred n (x / 2) (omega arith) (omega arith)
          (omega (arith, bit_and_lowest x (x - 1), ap (bit_and (x / 2)) half)) in
      (suc k, omega (arith, pow_double k))
  | no odd ↦
      let half : (x - 1) / 2 ≡ x / 2 = omega arith in
      (
        0,
        omega (
          arith,
          bit_and_lowest x (x - 1),
          ap (bit_and (x / 2)) half,
          bit_and_self_below (x / 2) (x / 2) (omega arith),
        ),
      )
]

bit_and_pred-pow : (k : ℕ) → bit_and (2 ^ k) (2 ^ k - 1) ≡ 0
bit_and_pred-pow k = bit_and_mask k (2 ^ k) ∙ mod_self (2 ^ k)

-- A nonzero word has no bit in common with its predecessor exactly when it is a power of two.
pub is_power_of_2_iff : (x : ℕ) → x < 2 ^ 32 → (is_power_of_2 x ≡ true) ↔ ((k : ℕ) × (x ≡ 2 ^ k))
unfolding is_power_of_2
is_power_of_2_iff x h = (
  (λ e.
      let pos : 0 < x = ground arith in
      let pred : pred32 x ≡ x - 1 = omega arith in
      pow_of_bit_and_pred x x (omega arith) pos (ground (arith, ap (bit_and x) pred))),
  (λ (k, e).
      let pos : 0 < x = omega (arith, pow_pos k) in
      let pred : pred32 x ≡ x - 1 = omega arith in
      let apart : bit_and x (x - 1) ≡ 0 = rw e (bit_and_pred-pow k) in
      ground (arith, ap (bit_and x) pred)),
)
