-- ===== src/Ffff/Validate/Wrap.antt =====
-- The bounds of an element are computed modulo 2^32.
use bootrom_tools.Base.{ℕ, ◌+◌, ◌%◌, ◌^◌, ◌≤◌, ◌<◌, ◌≡◌, ◌≢◌, true, false, [], arith}
use bootrom_tools.Util.Boundary.{block_aligned, block_aligned_iff}
use bootrom_tools.Ffff.{Format, Element, Header}
use bootrom_tools.Ffff.Validate.{good, check_location, check_following, valid_ffff_element}

-- An element whose end wraps past 2^32 into the image is accepted as the last of the table,
-- wherever it starts: even past the end of the image.
valid_ffff_element_wraps :
    (fmt : Format) (header : Header) (rom_address k : ℕ) (e : Element)
    → k < 32
    → header.erase_block_size ≡ 2 ^ k
    → e.element_type ≢ fmt.element_end
    → e.element_location % 2 ^ k ≡ 0
    → rom_address + header.erase_block_size ≤ e.element_location
    → e.element_location < 2 ^ 32
    → header.flash_image_length ≤ e.element_location
    → 2 ^ 32 < e.element_location + e.element_length
    → e.element_location + e.element_length ≤ 2 ^ 32 + header.flash_image_length
    → valid_ffff_element fmt header rom_address e [] ≡ (good, false)
unfolding valid_ffff_element check_location check_following
valid_ffff_element_wraps fmt header rom_address k e power size live aligned above small outside
      wraps inside =
    let block : block_aligned e.element_location header.erase_block_size ≡ true =
      rw size ((block_aligned_iff k e.element_location power).1 aligned) in
    ground (arith, block)
