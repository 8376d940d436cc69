-- ===== src/Ffff/Read.antt =====
-- src/common/ffff_in.c: `read_ffff_romimage`. Its loops double an offset in `uint32_t` until it
-- passes the image, and run on fuel: 33 steps take any offset to a multiple of 2^32.
pub mod Doubling
pub mod Start
pub mod Whole
use bootrom_tools.Base.{
  ℕ, zero, suc, ◌+◌, ◌*◌, ◌%◌, ◌^◌, Bool, true, false, not, List, Option, none, some, ltb, leb,
  ◌==◌, if◌then◌else◌, length,
}
use bootrom_tools.Files.{System, store}
use bootrom_tools.Util.Boundary.{next_boundary}
use bootrom_tools.Ffff.{Format, Header}
use bootrom_tools.Ffff.Image.{Romimage, new_ffff}
use bootrom_tools.Ffff.Validate.{good, bad, validate_ffff_header}

-- How a search for a header ends: at an offset, past the image, with a header that reaches out of
-- the blob, or not within the fuel.
pub data Search : Type 0 where
  located : ℕ → Search
  not_located overrun no_fuel : Search

-- The loop, with the validation of the header at an offset.
unfoldable pub find_header : (ℕ → Option Bool) → ℕ → ℕ → ℕ → Search
find_header valid zero image_length offset = no_fuel
find_header valid (suc fuel) image_length offset =
    let rest = find_header valid fuel image_length (offset * 2 % 2 ^ 32) in
    if ltb offset image_length
    then (elim (valid offset) [
      | none ↦ overrun
      | some is_valid ↦ if is_valid then located offset else rest
    ])
    else not_located

abbrev pub search_fuel : ℕ
search_fuel = 33

-- What the function ends with: an image, null, an access past the blob, or no fuel.
pub data Reading : Type 0 where
  romimage : Romimage → Reading
  refused outside unending : Reading

-- What each loop leaves in the image.
abbrev pub with_second : Romimage → Search → Reading
with_second image (located offset) = romimage (record image { second_header = some offset })
with_second image not_located = refused
with_second image overrun = outside
with_second image no_fuel = unending

abbrev pub with_first : Romimage → Search → Reading
with_first image (located offset) =
    romimage (record image { first_header = offset; second_header = none })
with_first image not_located = refused
with_first image overrun = outside
with_first image no_fuel = unending

-- What becomes of the file before it is examined.
pub data Loading : Type 0 where
  loaded : Romimage → Loading
  not_loaded too_long : Loading

abbrev pub stored_blob : Romimage → Bool → Option (List ℕ) → Loading
stored_blob image complete none = too_long
stored_blob image complete (some blob) =
    if complete then loaded (record image { blob = blob }) else not_loaded

-- The bytes that were read, if the file could be opened.
abbrev pub load_blob : Romimage → ℕ → Option (List ℕ) → Loading
load_blob image image_length none = not_loaded
load_blob image image_length (some bytes) =
    stored_blob image (length bytes == image_length) (store image.blob 0 bytes)

module _ (sys : System) (fmt : Format) (max_elements : ℕ)
    (header_at : List ℕ → ℕ → Option Header) where
  -- The validation of what stands at an offset of the blob; `none` where the header is not inside.
  unfoldable pub valid_at : List ℕ → ℕ → ℕ → Option Bool
  valid_at blob address offset = elim (header_at blob offset) [
    | none ↦ none
    | some header ↦ some (elim (validate_ffff_header fmt max_elements header address) [
      | good ↦ true
      | bad reason ↦ false
    ])
  ]

  -- The first header is there: the second is validated as if it stood at 0.
  unfoldable pub second_of : Romimage → ℕ → Reading
  second_of image image_length = elim (header_at image.blob 0) [
    | none ↦ outside
    | some ffff_hdr ↦ with_second image (
        find_header (valid_at image.blob 0) search_fuel image_length
          (next_boundary ffff_hdr.header_size ffff_hdr.erase_block_size))
  ]

  -- No header at the start: the first valid one behind it, validated for its own offset, takes
  -- the place of the first.
  unfoldable pub first_of : Romimage → ℕ → Reading
  first_of image image_length = with_first image (
      find_header (λ offset. valid_at image.blob offset offset) search_fuel image_length
        (next_boundary fmt.header_size_min fmt.header_size_min))

  -- The examination of an image that has been read.
  unfoldable pub examine : Romimage → ℕ → Reading
  examine image image_length = elim (valid_at image.blob 0 0) [
    | none ↦ outside
    | some is_valid ↦ if is_valid then second_of image image_length else first_of image image_length
  ]

  abbrev pub examined : ℕ → Loading → Reading
  examined image_length (loaded image) = examine image image_length
  examined image_length not_loaded = refused
  examined image_length too_long = outside

  -- The blob has the length of the file modulo 2^32, and takes what is read of all of the file.
  unfoldable pub load_image : Bool → sys.FileName → ℕ → Loading
  load_image malloc_succeeds ffff_file image_length =
      elim (new_ffff malloc_succeeds (image_length % 2 ^ 32) 0 0) [
        | none ↦ not_loaded
        | some image ↦ load_blob image image_length (sys.read ffff_file image_length)
      ]

  unfoldable pub read_ffff_romimage : Bool → sys.FileName → Reading
  read_ffff_romimage malloc_succeeds ffff_file = elim (sys.stat ffff_file) [
    | none ↦ refused
    | some image_length ↦
        if not (ltb (2 * fmt.header_size_min) image_length)
        then refused
        else examined image_length (load_image malloc_succeeds ffff_file image_length)
  ]
