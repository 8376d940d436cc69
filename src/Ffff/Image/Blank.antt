-- ===== src/Ffff/Image/Blank.antt =====
-- Where `new_ffff` puts the second header.
use bootrom_tools.Base.{ℕ, ◌+◌, ◌%◌, ◌^◌, ◌≤◌, ◌<◌, ◌≡◌, refl, true, some, arith, replicate}
use bootrom_tools.Util.Boundary.{next_boundary, next_boundary_rounds_up}
use bootrom_tools.Ffff.Image.{Romimage, new_ffff}

-- An image that can be allocated is blank, and has its second header at the first multiple of the
-- erase block that is at least the header's length; where the erase block is a power of two and the block that starts at the header's length
-- ends within the address space.
pub new_ffff_lem :
    (image_size k header_length : ℕ)
    → k < 32
    → 0 < header_length
    → header_length + 2 ^ k ≤ 2 ^ 32
    → (r : Romimage) × (second : ℕ) × (new_ffff true image_size header_length (2 ^ k) ≡ some r)
      × (r.blob ≡ replicate image_size 0)
      × (r.first_header ≡ 0)
      × (r.second_header ≡ some second)
      × (second % 2 ^ k ≡ 0)
      × (header_length ≤ second)
      × (second < header_length + 2 ^ k)
unfolding new_ffff
new_ffff_lem image_size k header_length power some_header room =
    let (whole, above, below) = next_boundary_rounds_up k header_length power room in
    (
      record {
        blob_length = image_size;
        erase_block_length = 2 ^ k;
        first_header = 0;
        second_header = some (next_boundary header_length (2 ^ k));
        blob = replicate image_size 0;
      },
      next_boundary header_length (2 ^ k),
      ground arith,
      refl,
      refl,
      refl,
      whole,
      above,
      below,
    )
