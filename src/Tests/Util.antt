-- ===== src/Tests/Util.antt =====
-- src/common/util.c at concrete numbers, buffers and names.
use bootrom_tools.Base.{ℕ, ◌+◌, ◌%◌, ◌^◌, ◌≤◌, ◌<◌, ◌≡◌, refl, List, [], ◌∷◌, arith}
use bootrom_tools.Util.Boundary.{next_boundary, next_boundary_rounds_up}
use bootrom_tools.Util.Hamming.{hamming_weight, bytes_of, balance_vidpid}
use bootrom_tools.Util.Hamming.Count.{set_bits, hamming_weight-set_bits}
use bootrom_tools.Util.Hamming.Balance.{balance_vidpid_balanced}

next_boundary_example :
    (next_boundary 0x1001 (2 ^ 12) % 2 ^ 12 ≡ 0)
    × (0x1001 ≤ next_boundary 0x1001 (2 ^ 12))
    × (next_boundary 0x1001 (2 ^ 12) < 0x1001 + 2 ^ 12)
next_boundary_example = next_boundary_rounds_up 12 0x1001 (omega arith) (omega arith)

abbrev padding : List ℕ
padding = 0 ∷ 0 ∷ 0 ∷ []

abbrev fuses : List ℕ
fuses = 0x0f ∷ 0xff ∷ 0x01 ∷ 0x80 ∷ 0x33 ∷ []

hamming_weight_example : hamming_weight fuses ≡ set_bits fuses % 2 ^ 32
hamming_weight_example = hamming_weight-set_bits fuses (ground arith)

balance_vidpid_example : set_bits (bytes_of (balance_vidpid 0x0126).0) ≡ 16
balance_vidpid_example =
    balance_vidpid_balanced 0x0126 (omega arith) (unfold balance_vidpid in refl)

-- "ab", "abcd", and a buffer of six bytes that holds "xy".
abbrev ab : List ℕ
ab = b'a' ∷ b'b' ∷ []

abbrev abcd : List ℕ
abcd = b'a' ∷ b'b' ∷ b'c' ∷ b'd' ∷ []

abbrev xy_buffer : List ℕ
xy_buffer = b'x' ∷ b'y' ∷ 0 ∷ 7 ∷ 7 ∷ 7 ∷ []

abbrev map_extension : List ℕ
map_extension = b'm' ∷ b'a' ∷ b'p' ∷ []
