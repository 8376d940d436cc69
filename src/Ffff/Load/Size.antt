-- ===== src/Ffff/Load/Size.antt =====
-- What the size check before the image is built measures.
use bootrom_tools.Base.{ℕ, ◌+◌, ◌*◌, ◌^◌, ◌≤◌, ◌<◌, ◌≡◌, ◌↔◌, true, some, arith, get_elem?}
use bootrom_tools.Files.{System}
use bootrom_tools.Ffff.Cache.{Entry, Cache}
use bootrom_tools.Ffff.Load.{content_size, check_ffff_romimage_size}

module _ (sys : System) where
  -- Where twice the header size and the length of the first cached element are below 2^32 (the
  -- header size is not checked before, and its double wraps):
  -- `check_ffff_romimage_size` weighs the two headers and the first cached element only: however
  -- many elements follow it and however long they are, it accepts exactly when these fit.
  pub check_ffff_romimage_size_first :
      (flash_capacity image_length header_size : ℕ) (c : Cache sys) (first : Entry sys)
      → 2 * header_size < 2 ^ 32
      → first.element.element_length < 2 ^ 32
      → 0 < c.current_element
      → get_elem? c.entries 0 ≡ some first
      → (check_ffff_romimage_size sys flash_capacity image_length header_size c ≡ some true) ↔ (
          (2 * header_size + first.element.element_length ≤ flash_capacity)
          × (2 * header_size + first.element.element_length ≤ image_length))
  unfolding check_ffff_romimage_size
  check_ffff_romimage_size_first cap len hs c first small short some_cached found =
      ground (arith, measured)
    where
      measured : content_size sys hs c ≡ some (2 * hs + first.element.element_length)
      measured = unfold content_size in ground arith
