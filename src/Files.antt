-- ===== src/Files.antt =====
-- src/common/util.c: `size_file` and `load_file`. What the system calls return is a parameter.
pub mod Store
use bootrom_tools.Base.{
  ℕ, ◌-◌, ◌%◌, ◌^◌, Bool, false, List, [], Option, none, some, ◌==◌, ◌+◌, ◌∷◌, ◌++◌, leb, take,
  drop, if◌then◌else◌, length,
}

-- `stat` gives the size of a file, and `open` with `read` of `n` bytes the bytes that were read;
-- `none` where the call fails.
pub record System : Type 1 where
  pub FileName : Type 0
  pub stat : FileName → Option ℕ
  pub read : FileName → ℕ → Option (List ℕ)

-- A write of bytes into a buffer; `none` is a write past its end.
unfoldable pub store : List ℕ → ℕ → List ℕ → Option (List ℕ)
store buffer at [] = some buffer
store buffer at (b ∷ bs) =
    let bytes = b ∷ bs in
    if leb (at + length bytes) (length buffer)
    then some (take at buffer ++ (bytes ++ drop (at + length bytes) buffer))
    else none

module _ (sys : System) where
  open sys use {FileName, stat, read}

  -- The size as it arrives in a `uint32_t`: -1 is all ones.
  unfoldable pub size_file : FileName → ℕ
  size_file filename = elim (stat filename) [ none ↦ 2 ^ 32 - 1 | some size ↦ size % 2 ^ 32 ]

  -- The bytes that reach the buffer, and whether all of them did.
  unfoldable pub load_file : FileName → ℕ → List ℕ × Bool
  load_file filename len = elim (read filename len) [
    | none ↦ ([], false)
    | some bytes ↦ (bytes, length bytes == len)
  ]
