-- ===== src/Util/Overlap.antt =====
-- src/common/util.c: `overlap` and `regions_overlap` over `size_t`, which is 64 bits wide.
use bootrom_tools.Base.{ℕ, ◌+◌, ◌%◌, ◌^◌, ◌≤◌, ◌<◌, ◌≡◌, ◌↔◌, Bool, true, ◌&&◌, arith, ltb, max}

unfoldable pub regions_overlap : ℕ → ℕ → ℕ → ℕ → Bool
regions_overlap x xlen y ylen =
    let x_end = (x + xlen) % 2 ^ 64 in let y_end = (y + ylen) % 2 ^ 64 in ltb y x_end && ltb x y_end

-- Addresses of buffers are compared as the numbers that they are.
unfoldable pub overlap : ℕ → ℕ → ℕ → ℕ → Bool
overlap x xlen y ylen =
    let x_end = (x + xlen) % 2 ^ 64 in let y_end = (y + ylen) % 2 ^ 64 in ltb y x_end && ltb x y_end

-- The byte at `b` lies in the region of `len` bytes at `start`.
abbrev pub Holds : ℕ → ℕ → ℕ → Type 0
Holds start len b = (start ≤ b) × (b < start + len)

-- Two nonempty regions that end below 2^64 overlap exactly when some byte lies in both.
pub regions_overlap_iff :
    (x xlen y ylen : ℕ)
    → 0 < xlen
    → 0 < ylen
    → x + xlen < 2 ^ 64
    → y + ylen < 2 ^ 64
    → (regions_overlap x xlen y ylen ≡ true) ↔ ((b : ℕ) × Holds x xlen b × Holds y ylen b)
unfolding regions_overlap
regions_overlap_iff x xlen y ylen px py fx fy =
    ((λ e. (max x y, ground arith, ground arith)), (λ (b, hx, hy). ground arith))

pub regions_overlap_comm :
    (x xlen y ylen : ℕ) → regions_overlap x xlen y ylen ≡ regions_overlap y ylen x xlen
unfolding regions_overlap
regions_overlap_comm x xlen y ylen = ground arith
