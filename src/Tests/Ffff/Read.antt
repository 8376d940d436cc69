-- ===== src/Tests/Ffff/Read.antt =====
-- Reading an image, and the search that does not end.
use bootrom_tools.Base.{
  ℕ, pow_add, ◌-◌, ◌≤◌, ◌+◌, ◌*◌, ◌^◌, Bool, leb, if◌then◌else◌, none, ◌<◌, ◌≡◌, refl, true, false,
  List, Option, some, arith, replicate,
}
use bootrom_tools.Files.{System}
use bootrom_tools.Util.Boundary.{next_boundary}
use bootrom_tools.Ffff.{Header}
use bootrom_tools.Ffff.Read.{find_header, no_fuel, read_ffff_romimage}
use bootrom_tools.Ffff.Read.Doubling.{le_mul_pow, find_header_unending}
use bootrom_tools.Ffff.Read.Whole.{IsRead, read_ffff_romimage-IsRead}
use bootrom_tools.Tests.Ffff.{ffff, image}

-- One file of 5000 bytes.
abbrev files : System
files = record { FileName = ℕ; stat = λ name. some 5000; read = λ name n. some (replicate n 1) }

-- The same header wherever one is looked for.
abbrev header_at : List ℕ → ℕ → Option Header
header_at blob offset = some image

starts : 0 < next_boundary ffff.header_size_min ffff.header_size_min
unfolding next_boundary
starts = omega arith

read_example :
    IsRead files ffff 19 header_at 5000 (read_ffff_romimage files ffff 19 header_at true 7)
read_example =
    read_ffff_romimage-IsRead files ffff 19 header_at true 7 5000 refl (omega arith) starts

-- No valid header, and none at all within the last 512 bytes or behind the image.
abbrev no_header : ℕ → Option Bool
no_header offset = if leb (offset + 512) 3000000000 then some false else none

no_header-false : (x : ℕ) → x ≤ 2 ^ 31 → no_header x ≡ some false
no_header-false x h = ground arith

visited : (j : ℕ) → j ≤ 21 → 1024 * 2 ^ j ≤ 2 ^ 31
visited j below = omega (arith, pow_add j (21 - j) 21 (omega arith), le_mul_pow (2 ^ j) (21 - j))

unending_example : find_header no_header 40 3000000000 1024 ≡ no_fuel
unending_example =
    find_header_unending no_header 3000000000 40 21 1024 (omega arith) (omega arith)
      (no_header-false 0 (omega arith))
      (λ j below. no_header-false (1024 * 2 ^ j) (visited j below))
