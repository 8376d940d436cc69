-- ===== src/Ffff/Image.antt =====
-- src/common/ffff_common.c: `new_ffff`, and include/ffff_common.h: `struct ffff`.
pub mod Blank
pub mod Build
use bootrom_tools.Base.{ℕ, Bool, List, Option, none, some, ◌==◌, if◌then◌else◌, replicate}
use bootrom_tools.Util.Boundary.{next_boundary}

-- `struct ffff`: the two header pointers are offsets into the blob, the second may be null.
pub record Romimage : Type 0 where
  pub blob_length : ℕ
  pub erase_block_length : ℕ
  pub first_header : ℕ
  pub second_header : Option ℕ
  pub blob : List ℕ

-- The size of the structure and its blob does not reach 2^64.
unfoldable pub new_ffff : Bool → ℕ → ℕ → ℕ → Option Romimage
new_ffff malloc_succeeds image_size header_length erase_block_length =
    if malloc_succeeds
    then (let header_blob_length = next_boundary header_length erase_block_length in
        some (record {
          blob_length = image_size;
          erase_block_length = erase_block_length;
          first_header = 0;
          second_header = if header_blob_length == 0 then none else some header_blob_length;
          blob = replicate image_size 0;
        }))
    else none
