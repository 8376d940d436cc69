-- ===== src/Base/Bits.antt =====
-- `&` of machine words as arithmetic: masks of low bits, and masks that clear them.
use Prim.Native.Nat.{
  ℕ, zero, suc, ◌+◌, ◌-◌, ◌*◌, ◌/◌, ◌%◌, ◌^◌, ◌≤◌, ◌<◌, min, max, bit_and, bit_or, digits,
  bit_and-bitwise, bit_or-bitwise,
}
use mathlib.Core.Path.{◌≡◌, refl, ap}
use native.Mathlib.Nat.{pow-suc, mod-eq_of_lt, div-lt_iff_lt-mul}
use native.Mathlib.Decide.{dec_lt}
use native.Mathlib.Omega.{arith}

-- The fuel of the digit recursion does not matter once it reaches the number.
same_digits :
    (f : ℕ → ℕ → ℕ) (z : ℕ → ℕ) (k l a b : ℕ) → a ≤ k → a ≤ l → digits z f k a b ≡ digits z f l a b
same_digits f z zero l (suc a) b p q = absurd (omega arith)
same_digits f z (suc k) zero (suc a) b p q = absurd (omega arith)
same_digits f z zero zero zero b p q = refl
same_digits f z zero (suc l) zero b p q = refl
same_digits f z (suc k) zero zero b p q = refl
same_digits f z (suc k) (suc l) zero b p q = refl
same_digits f z (suc k) (suc l) (suc a) b p q =
    rw (same_digits f z k l (suc a / 2) (b / 2) (omega arith) (omega arith))

pub bit_and_lowest : (a b : ℕ) → bit_and a b ≡ 2 * bit_and (a / 2) (b / 2) + min (a % 2) (b % 2)
bit_and_lowest zero b = omega (arith, bit_and-bitwise 0 b, bit_and-bitwise 0 (b / 2))
bit_and_lowest (suc a) b = omega (
  arith,
  bit_and-bitwise (suc a) b,
  bit_and-bitwise (suc a / 2) (b / 2),
  same_digits min (λ b. 0) a (suc a / 2) (suc a / 2) (b / 2) (omega arith) (omega arith),
)

pub bit_or_lowest : (a b : ℕ) → bit_or a b ≡ 2 * bit_or (a / 2) (b / 2) + max (a % 2) (b % 2)
bit_or_lowest zero b = omega (arith, bit_or-bitwise 0 b, bit_or-bitwise 0 (b / 2))
bit_or_lowest (suc a) b = omega (
  arith,
  bit_or-bitwise (suc a) b,
  bit_or-bitwise (suc a / 2) (b / 2),
  same_digits max (λ y. y) a (suc a / 2) (suc a / 2) (b / 2) (omega arith) (omega arith),
)

zero-bit_and : (b : ℕ) → bit_and 0 b ≡ 0
zero-bit_and b = bit_and-bitwise 0 b

bit_and-zero_below : (n a : ℕ) → a ≤ n → bit_and a 0 ≡ 0
bit_and-zero_below n zero h = refl
bit_and-zero_below zero (suc a) h = absurd (omega arith)
bit_and-zero_below (suc n) (suc a) h =
    omega (arith, bit_and_lowest (suc a) 0, bit_and-zero_below n (suc a / 2) (omega arith))

pub bit_and-zero : (a : ℕ) → bit_and a 0 ≡ 0
bit_and-zero a = bit_and-zero_below a a (omega arith)

pub pow_double : (k : ℕ) → 2 ^ suc k ≡ 2 * 2 ^ k
pow_double k = omega (arith, pow-suc 2 k)

pub pow_pos : (k : ℕ) → 1 ≤ 2 ^ k
pow_pos zero = omega arith
pow_pos (suc k) = omega (arith, pow_double k, pow_pos k)

pub double_shift : (a k : ℕ) → a * 2 ^ suc k ≡ 2 * (a * 2 ^ k)
double_shift a k = omega (arith, ap (λ (t : ℕ). a * t) (pow_double k))

-- `&` acts on the low `k` bits and on the rest apart.
pub bit_and_split :
    (k a b c d : ℕ)
    → b < 2 ^ k
    → d < 2 ^ k
    → bit_and (a * 2 ^ k + b) (c * 2 ^ k + d) ≡ bit_and a c * 2 ^ k + bit_and b d
bit_and_split zero a b c d hb hd =
    let eb : b ≡ 0 = omega arith in
    let ed : d ≡ 0 = omega arith in
    let ea : a * 2 ^ 0 + 0 ≡ a = omega arith in
    let ec : c * 2 ^ 0 + 0 ≡ c = omega arith in rw (eb, ed, ea, ec) (omega (arith, bit_and-zero 0))
bit_and_split (suc k) a b c d hb hd = ground (
  arith,
  pow_double k,
  double_shift a k,
  double_shift c k,
  double_shift (bit_and a c) k,
  bit_and_lowest (a * 2 ^ suc k + b) (c * 2 ^ suc k + d),
  bit_and_lowest b d,
  bit_and_split k a (b / 2) c (d / 2),
)

pub bit_and_self_below : (n a : ℕ) → a ≤ n → bit_and a a ≡ a
bit_and_self_below n zero h = zero-bit_and 0
bit_and_self_below zero (suc a) h = absurd (omega arith)
bit_and_self_below (suc n) (suc a) h =
    omega (arith, bit_and_lowest (suc a) (suc a), bit_and_self_below n (suc a / 2) (omega arith))

-- A mask of ones keeps what fits below it.
bit_and_ones : (k r : ℕ) → r < 2 ^ k → bit_and r (2 ^ k - 1) ≡ r
bit_and_ones zero r h = let e : r ≡ 0 = omega arith in rw e (zero-bit_and (2 ^ 0 - 1))
bit_and_ones (suc k) r h =
    ground
      (arith, pow_double k, pow_pos k, bit_and_lowest r (2 ^ suc k - 1), bit_and_ones k (r / 2))

-- `x & (2^k - 1)` is the remainder by `2^k`.
pub bit_and_mask : (k x : ℕ) → bit_and x (2 ^ k - 1) ≡ x % 2 ^ k
bit_and_mask k x = ground (
  arith,
  pow_pos k,
  bit_and-zero (x / 2 ^ k),
  bit_and_split k (x / 2 ^ k) (x % 2 ^ k) 0 (2 ^ k - 1),
  bit_and_ones k (x % 2 ^ k),
)

-- `x & (m << k)` reads only the bits from `k` on.
pub bit_and_shifted : (k m x : ℕ) → bit_and x (m * 2 ^ k) ≡ bit_and (x / 2 ^ k) m * 2 ^ k
bit_and_shifted k m x =
    ground (arith, pow_pos k, bit_and-zero (x % 2 ^ k), bit_and_split k (x / 2 ^ k) (x % 2 ^ k) m 0)

pub pow_add : (j k n : ℕ) → j + k ≡ n → 2 ^ j * 2 ^ k ≡ 2 ^ n
pow_add zero k n e = let e' : k ≡ n = omega arith in rw e' (omega arith)
pow_add (suc j) k zero e = absurd (omega arith)
pow_add (suc j) k (suc n) e =
    omega
      (arith, ap (λ (t : ℕ). t * 2 ^ k) (pow_double j), pow_double n, pow_add j k n (omega arith))

pub pow_lt : (k n : ℕ) → k < n → 2 ^ k < 2 ^ n
pow_lt k zero h = absurd (omega arith)
pow_lt k (suc n) h = elim (dec_lt k n) [
  | yes p ↦ omega (arith, pow_lt k n p, pow_double n)
  | no p ↦ let e : k ≡ n = omega arith in rw e (omega (arith, pow_double n, pow_pos n))
]

-- Clearing the low `k` bits of an `n`-bit word rounds it down to a multiple of `2^k`.
pub bit_and_high : (n k x : ℕ) → k ≤ n → x < 2 ^ n → bit_and x (2 ^ n - 2 ^ k) ≡ x / 2 ^ k * 2 ^ k
bit_and_high n k x h below =
    let whole : 2 ^ (n - k) * 2 ^ k ≡ 2 ^ n = pow_add (n - k) k n (omega arith) in
    let ones : 2 ^ (n - k) ≡ suc (2 ^ (n - k) - 1) = omega (arith, pow_pos (n - k)) in
    let mask : 2 ^ n - 2 ^ k ≡ (2 ^ (n - k) - 1) * 2 ^ k =
      omega (arith, whole, ap (λ (t : ℕ). t * 2 ^ k) ones) in
    let fits : x / 2 ^ k < 2 ^ (n - k) = (div-lt_iff_lt-mul (pow_pos k)).1 (omega (arith, whole)) in
    rw (mask, bit_and_shifted k (2 ^ (n - k) - 1) x, bit_and_mask (n - k) (x / 2 ^ k))
      (ap (λ (t : ℕ). t * 2 ^ k) (mod-eq_of_lt fits))

pub bit_or-zero_below : (n a : ℕ) → a ≤ n → bit_or a 0 ≡ a
bit_or-zero_below n zero h = refl
bit_or-zero_below zero (suc a) h = absurd (omega arith)
bit_or-zero_below (suc n) (suc a) h =
    omega (arith, bit_or_lowest (suc a) 0, bit_or-zero_below n (suc a / 2) (omega arith))

-- `|` of a field of `k` bits and what is shifted above it is their sum.
pub bit_or_disjoint : (k q r : ℕ) → r < 2 ^ k → bit_or r (q * 2 ^ k) ≡ q * 2 ^ k + r
bit_or_disjoint zero q r h =
    let er : r ≡ 0 = omega arith in
    let eq : q * 2 ^ 0 ≡ q = omega arith in rw (er, eq) (omega (arith, bit_or-bitwise 0 q))
bit_or_disjoint (suc k) q r h = ground (
  arith,
  pow_double k,
  double_shift q k,
  bit_or_lowest r (q * 2 ^ suc k),
  bit_or_disjoint k q (r / 2),
)
