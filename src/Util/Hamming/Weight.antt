-- ===== src/Util/Hamming/Weight.antt =====
-- `hamming_weight` against the count of binary digits, byte by byte.
use bootrom_tools.Base.{
  ℕ, zero, suc, ◌+◌, ◌*◌, ◌/◌, ◌%◌, ◌^◌, ◌≤◌, ◌<◌, ◌≡◌, ◌∙◌, refl, Bool, true, ◌&&◌, bit_and, arith,
  ◌==◌, ==_iff, leb, bit_and_split, bit_and_mask, bit_and-zero, leb_iff,
}
use bootrom_tools.Util.Hamming.{
  pairs32, nibbles32, bytes32, halves32, word32, weight32, weight8, le32,
}

-- The number of ones among the lowest `n` binary digits.
unfoldable pub ones : ℕ → ℕ → ℕ
ones zero x = 0
ones (suc n) x = x % 2 + ones n (x / 2)

unfoldable pub all_below : ℕ → (ℕ → Bool) → Bool
all_below zero p = true
all_below (suc n) p = p n && all_below n p

pub all_below_lem : (n : ℕ) (p : ℕ → Bool) (x : ℕ) → all_below n p ≡ true → x < n → p x ≡ true
unfolding all_below
all_below_lem zero p x h lt = absurd (omega arith)
all_below_lem (suc n) p x h lt = ground (arith, all_below_lem n p x)

-- What the first three steps do to each byte.
pairs : ℕ → ℕ
pairs x = bit_and x 0x55 + bit_and (x / 2) 0x55

nibbles : ℕ → ℕ
nibbles x = bit_and x 0x33 + bit_and (x / 4) 0x33

whole : ℕ → ℕ
whole x = bit_and x 0x0f + bit_and (x / 16) 0x0f

abbrev fits : ℕ → Bool
fits x = leb x 255

byte_tables :
    (all_below 256 (λ x. fits (pairs x)) ≡ true)
    × (all_below 256 (λ x. fits (nibbles x)) ≡ true)
    × (all_below 256 (λ x. fits (whole x)) ≡ true)
    × (all_below 256 (λ x. whole (nibbles (pairs x)) == ones 8 x) ≡ true)
    × (all_below 256 (λ x. weight8 x == ones 8 x) ≡ true)
unfolding all_below pairs nibbles whole weight8 ones
byte_tables = (refl, refl, refl, refl, refl)

module _ (x : ℕ) (byte : x < 256) where
  pairs-lt : pairs x < 256
  pairs-lt =
      omega (arith, (leb_iff _ _).0 (all_below_lem 256 (λ x. fits (pairs x)) x byte_tables.0 byte))

  nibbles-lt : nibbles x < 256
  nibbles-lt =
      omega
        (arith, (leb_iff _ _).0 (all_below_lem 256 (λ x. fits (nibbles x)) x byte_tables.1 byte))

  whole-lt : whole x < 256
  whole-lt =
      omega (arith, (leb_iff _ _).0 (all_below_lem 256 (λ x. fits (whole x)) x byte_tables.2 byte))

  whole-ones : whole (nibbles (pairs x)) ≡ ones 8 x
  whole-ones =
      (==_iff _ _).0
        (all_below_lem 256 (λ x. whole (nibbles (pairs x)) == ones 8 x) x byte_tables.3 byte)

  -- A single byte is weighed by its binary digits.
  pub weight8-ones : weight8 x ≡ ones 8 x
  weight8-ones =
      (==_iff _ _).0 (all_below_lem 256 (λ x. weight8 x == ones 8 x) x byte_tables.4 byte)

abbrev pub Below : ℕ → ℕ → ℕ → ℕ → Type 0
Below n a b c = (a < n) × (b < n) × (c < n)

-- `&` of two words is `&` of their bytes.
bit_and-le32 :
    (a b c d m n p q : ℕ)
    → Below 256 a b c
    → Below 256 m n p
    → bit_and (le32 a b c d) (le32 m n p q)
      ≡ le32 (bit_and a m) (bit_and b n) (bit_and c p) (bit_and d q)
unfolding le32
bit_and-le32 a b c d m n p q h k =
    let left : a + 2 ^ 8 * b + 2 ^ 16 * c + 2 ^ 24 * d ≡ ((d * 2 ^ 8 + c) * 2 ^ 8 + b) * 2 ^ 8 + a =
      omega arith in
    let right : m + 2 ^ 8 * n + 2 ^ 16 * p + 2 ^ 24 * q
        ≡ ((q * 2 ^ 8 + p) * 2 ^ 8 + n) * 2 ^ 8 + m =
      omega arith in
    rw (left, right)
      (omega (
        arith,
        bit_and_split 8 ((d * 2 ^ 8 + c) * 2 ^ 8 + b) a ((q * 2 ^ 8 + p) * 2 ^ 8 + n) m h.0 k.0,
        bit_and_split 8 (d * 2 ^ 8 + c) b (q * 2 ^ 8 + p) n h.1 k.1,
        bit_and_split 8 d c q p h.2 k.2,
      ))

-- A mask of `k` bits does not see what stands above them.
bit_and_low : (k t r m : ℕ) → r < 2 ^ k → m < 2 ^ k → bit_and (t * 2 ^ k + r) m ≡ bit_and r m
bit_and_low k t r m hr hm = ground (arith, bit_and_split k t r 0 m hr hm, bit_and-zero t)

-- A shifted word under a mask that has no bit where the next byte came in.
bit_and-shifted :
    (k t u v a b c d m : ℕ)
    → m < 2 ^ k
    → Below (2 ^ k) a b c
    → Below 256 (t * 2 ^ k + a) (u * 2 ^ k + b) (v * 2 ^ k + c)
    → Below 256 m m m
    → bit_and (le32 (t * 2 ^ k + a) (u * 2 ^ k + b) (v * 2 ^ k + c) d) (le32 m m m m)
      ≡ le32 (bit_and a m) (bit_and b m) (bit_and c m) (bit_and d m)
bit_and-shifted k t u v a b c d m km low high hm =
    bit_and-le32 (t * 2 ^ k + a) (u * 2 ^ k + b) (v * 2 ^ k + c) d m m m m high hm
    ∙ rw (bit_and_low k t a m low.0 km, bit_and_low k u b m low.1 km, bit_and_low k v c m low.2 km)

-- Adding two words adds their bytes, where no byte overflows.
add-le32 :
    (a b c d m n p q : ℕ)
    → Below 256 (a + m) (b + n) (c + p)
    → d + q < 256
    → (le32 a b c d + le32 m n p q) % 2 ^ 32 ≡ le32 (a + m) (b + n) (c + p) (d + q)
unfolding le32
add-le32 a b c d m n p q h hd = omega arith

module _ (a b c d : ℕ) (low : Below 256 a b c) (hd : d < 256) where
  -- One step: the word under the mask, added to the shifted word under the mask.
  step_le32 :
      (j k t u v m x y z w : ℕ)
      → le32 a b c d / 2 ^ j ≡ le32 (t * 2 ^ k + x) (u * 2 ^ k + y) (v * 2 ^ k + z) w
      → m < 2 ^ k
      → Below (2 ^ k) x y z
      → Below 256 (t * 2 ^ k + x) (u * 2 ^ k + y) (v * 2 ^ k + z)
      → Below 256 m m m
      → Below 256
          (bit_and a m + bit_and x m)
          (bit_and b m + bit_and y m)
          (bit_and c m + bit_and z m)
      → bit_and d m + bit_and w m < 256
      → (bit_and (le32 a b c d) (le32 m m m m) + bit_and (le32 a b c d / 2 ^ j) (le32 m m m m))
          % 2 ^ 32
        ≡ le32
            (bit_and a m + bit_and x m)
            (bit_and b m + bit_and y m)
            (bit_and c m + bit_and z m)
            (bit_and d m + bit_and w m)
  step_le32 j k t u v m x y z w shift km xs high hm sums sum =
      rw
        (
          shift,
          bit_and-le32 a b c d m m m m low hm,
          bit_and-shifted k t u v x y z w m km xs high hm,
        )
        (add-le32 _ _ _ _ _ _ _ _ sums sum)

  pairs32-le32 : pairs32 (le32 a b c d) ≡ le32 (pairs a) (pairs b) (pairs c) (pairs d)
  unfolding pairs32 pairs le32
  pairs32-le32 =
      step_le32 1 7 (b % 2) (c % 2) (d % 2) 0x55 (a / 2) (b / 2) (c / 2) (d / 2) (omega arith)
        (omega arith) (omega arith) (omega arith) (omega arith)
        (pairs-lt a low.0, pairs-lt b low.1, pairs-lt c low.2) (pairs-lt d hd)

  nibbles32-le32 : nibbles32 (le32 a b c d) ≡ le32 (nibbles a) (nibbles b) (nibbles c) (nibbles d)
  unfolding nibbles32 nibbles le32
  nibbles32-le32 =
      step_le32 2 6 (b % 4) (c % 4) (d % 4) 0x33 (a / 4) (b / 4) (c / 4) (d / 4) (omega arith)
        (omega arith) (omega arith) (omega arith) (omega arith)
        (nibbles-lt a low.0, nibbles-lt b low.1, nibbles-lt c low.2) (nibbles-lt d hd)

  bytes32-le32 : bytes32 (le32 a b c d) ≡ le32 (whole a) (whole b) (whole c) (whole d)
  unfolding bytes32 whole le32
  bytes32-le32 =
      step_le32 4 4 (b % 16) (c % 16) (d % 16) 0x0f (a / 16) (b / 16) (c / 16) (d / 16)
        (omega arith) (omega arith) (omega arith) (omega arith) (omega arith)
        (whole-lt a low.0, whole-lt b low.1, whole-lt c low.2) (whole-lt d hd)

  halves32-le32 : a + b < 256 → c + d < 256 → halves32 (le32 a b c d) ≡ le32 (a + b) 0 (c + d) 0
  unfolding halves32 le32
  halves32-le32 hab hcd =
      let shift : (a + 2 ^ 8 * b + 2 ^ 16 * c + 2 ^ 24 * d) / 256
          ≡ b + 2 ^ 8 * c + 2 ^ 16 * d + 2 ^ 24 * 0 =
        omega arith in
      rw shift (
        omega (
          arith,
          bit_and-le32 a b c d 255 0 255 0 low (omega arith),
          bit_and-le32 b c d 0 255 0 255 0 (omega arith) (omega arith),
          bit_and_mask 8 a,
          bit_and_mask 8 b,
          bit_and_mask 8 c,
          bit_and_mask 8 d,
          bit_and-zero b,
          bit_and-zero c,
          bit_and-zero d,
          bit_and-zero 0,
        ))

  word32-le32 : a + c < 256 → word32 (le32 a 0 c 0) ≡ a + c
  unfolding word32 le32
  word32-le32 h = omega (arith, bit_and_mask 16 ((le32 a 0 c 0 + le32 a 0 c 0 / 2 ^ 16) % 2 ^ 32))

pub ones8-le : (x : ℕ) → ones 8 x ≤ 8
unfolding ones
ones8-le x = omega arith

-- A four-byte chunk is weighed by its binary digits.
pub weight32-ones :
    (a b c d : ℕ)
    → Below 256 a b c
    → d < 256
    → weight32 (le32 a b c d) ≡ ones 8 a + ones 8 b + ones 8 c + ones 8 d
unfolding weight32
weight32-ones a b c d h hd =
    let pairs_fit : Below 256 (pairs a) (pairs b) (pairs c) =
      (pairs-lt a h.0, pairs-lt b h.1, pairs-lt c h.2) in
    let nibbles_fit : Below 256 (nibbles (pairs a)) (nibbles (pairs b)) (nibbles (pairs c)) =
      (nibbles-lt _ pairs_fit.0, nibbles-lt _ pairs_fit.1, nibbles-lt _ pairs_fit.2) in
    rw
      (
        pairs32-le32 a b c d h hd,
        nibbles32-le32 _ _ _ _ pairs_fit (pairs-lt d hd),
        bytes32-le32 _ _ _ _ nibbles_fit (nibbles-lt _ (pairs-lt d hd)),
        whole-ones a h.0,
        whole-ones b h.1,
        whole-ones c h.2,
        whole-ones d hd,
      )
      (counted (ones 8 a) (ones 8 b) (ones 8 c) (ones 8 d) (ones8-le a) (ones8-le b) (ones8-le c)
        (ones8-le d))
  where
    counted :
        (i j k l : ℕ)
        → i ≤ 8
        → j ≤ 8
        → k ≤ 8
        → l ≤ 8
        → word32 (halves32 (le32 i j k l)) ≡ i + j + k + l
    counted i j k l hi hj hk hl =
        rw
          (
            halves32-le32 i j k l (omega arith) (omega arith) (omega arith) (omega arith),
            word32-le32 (i + j) 0 (k + l) 0 (omega arith) (omega arith) (omega arith),
          )
          (omega arith)
