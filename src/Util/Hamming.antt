-- ===== src/Util/Hamming.antt =====
-- src/common/util.c: `hamming_weight`, and `balance_vidpid` on a word that is little-endian in
-- memory.
pub mod Weight
pub mod Count
pub mod Balance
use bootrom_tools.Base.{
  ℕ, zero, suc, ◌+◌, ◌-◌, ◌*◌, ◌/◌, ◌%◌, ◌^◌, ◌≤◌, ◌<◌, ◌≡◌, refl, Bool, true, false, ◌&&◌, List,
  [], ◌∷◌, bit_and, bit_or, arith, ◌==◌, ==_iff, leb, if◌then◌else◌, All,
}

abbrev u8 : ℕ → ℕ
u8 x = x % 2 ^ 8

abbrev u32 : ℕ → ℕ
u32 x = x % 2 ^ 32

-- The five steps on a four-byte chunk.
pairs32 : ℕ → ℕ
pairs32 x = u32 (bit_and x 0x55555555 + bit_and (x / 2) 0x55555555)

nibbles32 : ℕ → ℕ
nibbles32 x = u32 (bit_and x 0x33333333 + bit_and (x / 4) 0x33333333)

bytes32 : ℕ → ℕ
bytes32 x = u32 (bit_and x 0x0f0f0f0f + bit_and (x / 16) 0x0f0f0f0f)

halves32 : ℕ → ℕ
halves32 x = u32 (bit_and x 0x00ff00ff + bit_and (x / 256) 0x00ff00ff)

word32 : ℕ → ℕ
word32 x = bit_and (u32 (x + x / 2 ^ 16)) 0x0000ffff

pub weight32 : ℕ → ℕ
unfolding pairs32 nibbles32 bytes32 halves32 word32
weight32 x = word32 (halves32 (bytes32 (nibbles32 (pairs32 x))))

-- The three steps on a byte that is left over.
pub weight8 : ℕ → ℕ
weight8 x =
    let x1 = u8 (x + 2 ^ 8 - bit_and (x / 2) 0x55) in
    let x2 = u8 (bit_and x1 0x33 + bit_and (x1 / 4) 0x33) in bit_and (u8 (x2 + x2 / 16)) 0x0f

-- `uint32_t` read from memory by a little-endian machine.
unfoldable pub le32 : ℕ → ℕ → ℕ → ℕ → ℕ
le32 a b c d = a + 2 ^ 8 * b + 2 ^ 16 * c + 2 ^ 24 * d

-- The two loops: chunks of four bytes while there are four, then single bytes.
hamming_from : ℕ → List ℕ → ℕ
unfolding weight32 weight8
hamming_from count (a ∷ b ∷ c ∷ d ∷ buf) = hamming_from (u32 (count + weight32 (le32 a b c d))) buf
hamming_from count (a ∷ buf) = hamming_from (u32 (count + weight8 a)) buf
hamming_from count [] = count

unfoldable pub hamming_weight : List ℕ → ℕ
unfolding hamming_from
hamming_weight buf = hamming_from 0 buf

-- The call in `balance_vidpid`: the four bytes of the word in memory.
unfoldable pub bytes_of : ℕ → List ℕ
bytes_of x = x % 2 ^ 8 ∷ x / 2 ^ 8 % 2 ^ 8 ∷ x / 2 ^ 16 % 2 ^ 8 ∷ x / 2 ^ 24 % 2 ^ 8 ∷ []

-- The new value of `*vidpid`, and whether it is good.
unfoldable pub balance_vidpid : ℕ → ℕ × Bool
unfolding hamming_weight bytes_of
balance_vidpid vidpid =
    if vidpid == 0
    then (vidpid, true)
    else if leb vidpid 0x00007fff
    then (bit_or vidpid (u32 ((2 ^ 32 - 1 - vidpid) * 2 ^ 16)), true)
    else (vidpid, hamming_weight (bytes_of vidpid) == 16)
