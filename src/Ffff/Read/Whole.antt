-- ===== src/Ffff/Read/Whole.antt =====
-- What `read_ffff_romimage` ends with.
use bootrom_tools.Base.{
  ℕ, ◌*◌, ◌%◌, ◌^◌, ◌≤◌, ◌<◌, ◌≡◌, ◌∙◌, refl, sym, Bool, true, false, List, Option, none, some,
  arith, ltb, Bool-cases, inl, inr,
}
use bootrom_tools.Files.{System}
use bootrom_tools.Util.Boundary.{next_boundary}
use bootrom_tools.Ffff.{Format, Header}
use bootrom_tools.Ffff.Image.{Romimage, new_ffff}
use bootrom_tools.Ffff.Read.{
  Search, located, not_located, overrun, no_fuel, find_header, search_fuel, Reading, romimage,
  refused, outside, unending, with_second, with_first, valid_at, second_of, first_of, examine,
  examined, Loading, loaded, not_loaded, too_long, load_blob, load_image, read_ffff_romimage,
}
use bootrom_tools.Ffff.Read.Doubling.{IsEnd, at, past, fault}
use bootrom_tools.Ffff.Read.Start.{find_header-start, AtStart, load_blob-AtStart, new_ffff-AtStart}

module _ (sys : System) (fmt : Format) (max_elements : ℕ)
    (header_at : List ℕ → ℕ → Option Header) where
  abbrev valid : List ℕ → ℕ → ℕ → Option Bool
  valid blob address offset = valid_at sys fmt max_elements header_at blob address offset

  -- An image of the given length with valid headers: both, or, where none stands at the start, one
  -- behind it.
  pub data HasHeaders (image_length : ℕ) (image : Romimage) : Type 0 where
    both :
        (offset : ℕ)
        → image.first_header ≡ 0
        → image.second_header ≡ some offset
        → offset < image_length
        → valid image.blob 0 0 ≡ some true
        → valid image.blob 0 offset ≡ some true
        → HasHeaders image_length image
    later :
        image.second_header ≡ none
        → image.first_header < image_length
        → valid image.blob 0 0 ≡ some false
        → valid image.blob image.first_header image.first_header ≡ some true
        → HasHeaders image_length image

  -- Every way for the reading to end but for want of fuel.
  abbrev pub IsRead : ℕ → Reading → Type 0
  IsRead image_length (romimage image) = HasHeaders image_length image
  IsRead image_length refused = Unit
  IsRead image_length outside = Unit
  IsRead image_length unending = ⊥

  module _ (image : Romimage) (image_length : ℕ) where
    second_of-some :
        (h : Header)
        → header_at image.blob 0 ≡ some h
        → second_of sys fmt max_elements header_at image image_length
          ≡ with_second image (
              find_header
                (valid image.blob 0)
                search_fuel
                image_length
                (next_boundary h.header_size h.erase_block_size))
    unfolding second_of
    second_of-some h e = rw (e, second_of) refl

    first_of_lem :
        first_of sys fmt max_elements header_at image image_length
        ≡ with_first image (
            find_header
              (λ offset. valid image.blob offset offset)
              search_fuel
              image_length
              (next_boundary fmt.header_size_min fmt.header_size_min))
    unfolding first_of
    first_of_lem = refl

    second-IsRead :
        (start : ℕ) (r : Search)
        → image.first_header ≡ 0
        → valid image.blob 0 0 ≡ some true
        → IsEnd (valid image.blob 0) image_length start r
        → IsRead image_length (with_second image r)
    second-IsRead start (located offset) first here (at k o place below good) =
        both offset first refl below here good
    second-IsRead start not_located first here past = tt
    second-IsRead start overrun first here fault = tt
    second-IsRead start no_fuel first here end = elim end [ ]

    first-IsRead :
        (start : ℕ) (r : Search)
        → valid image.blob 0 0 ≡ some false
        → IsEnd (λ offset. valid image.blob offset offset) image_length start r
        → IsRead image_length (with_first image r)
    first-IsRead start (located offset) none_here (at k o place below good) =
        later refl below none_here good
    first-IsRead start not_located none_here past = tt
    first-IsRead start overrun none_here fault = tt
    first-IsRead start no_fuel none_here end = elim end [ ]

    no_header : header_at image.blob 0 ≡ none → valid image.blob 0 0 ≡ none
    unfolding valid_at
    no_header e = rw (e, valid_at) refl

    second_by :
        (r : Option Header)
        → header_at image.blob 0 ≡ r
        → image.first_header ≡ 0
        → 0 < image_length
        → image_length ≤ 2 ^ 31
        → valid image.blob 0 0 ≡ some true
        → IsRead image_length (second_of sys fmt max_elements header_at image image_length)
    second_by none e first pos small here = let result = sym (no_header e) ∙ here in cc
    second_by (some h) e first pos small here = rw (second_of-some h e) (
        second-IsRead (next_boundary h.header_size h.erase_block_size) _ first here (
          find_header-start (valid image.blob 0) image_length
            (next_boundary h.header_size h.erase_block_size) pos small (inr here)))

    examine-none :
        valid image.blob 0 0 ≡ none
        → examine sys fmt max_elements header_at image image_length ≡ outside
    unfolding examine
    examine-none e = rw (e, examine) refl

    examine-second :
        valid image.blob 0 0 ≡ some true
        → examine sys fmt max_elements header_at image image_length
          ≡ second_of sys fmt max_elements header_at image image_length
    unfolding examine
    examine-second e = rw (e, examine) refl

    examine-first :
        valid image.blob 0 0 ≡ some false
        → examine sys fmt max_elements header_at image image_length
          ≡ first_of sys fmt max_elements header_at image image_length
    unfolding examine
    examine-first e = rw (e, examine) refl

    examine-IsRead :
        (r : Option Bool)
        → valid image.blob 0 0 ≡ r
        → image.first_header ≡ 0
        → 0 < image_length
        → image_length ≤ 2 ^ 31
        → 0 < next_boundary fmt.header_size_min fmt.header_size_min
        → IsRead image_length (examine sys fmt max_elements header_at image image_length)
    examine-IsRead none e first pos small starts = rw (examine-none e) tt
    examine-IsRead (some true) e first pos small starts =
        rw (examine-second e) (second_by _ refl first pos small e)
    examine-IsRead (some false) e first pos small starts =
        rw (examine-first e, first_of_lem)
          (first-IsRead (next_boundary fmt.header_size_min fmt.header_size_min) _ e (
            find_header-start (λ offset. valid image.blob offset offset) image_length
              (next_boundary fmt.header_size_min fmt.header_size_min) pos small (inl starts)))

  load_none :
      (malloc_succeeds : Bool) (ffff_file : sys.FileName) (n : ℕ)
      → new_ffff malloc_succeeds (n % 2 ^ 32) 0 0 ≡ none
      → load_image sys fmt max_elements header_at malloc_succeeds ffff_file n ≡ not_loaded
  unfolding load_image
  load_none malloc_succeeds ffff_file n e = rw (e, load_image) refl

  load_some :
      (malloc_succeeds : Bool) (ffff_file : sys.FileName) (n : ℕ) (image : Romimage)
      → new_ffff malloc_succeeds (n % 2 ^ 32) 0 0 ≡ some image
      → load_image sys fmt max_elements header_at malloc_succeeds ffff_file n
        ≡ load_blob image n (sys.read ffff_file n)
  unfolding load_image
  load_some malloc_succeeds ffff_file n image e = rw (e, load_image) refl

  load_image-AtStart :
      (malloc_succeeds : Bool) (ffff_file : sys.FileName) (n : ℕ) (r : Option Romimage)
      → new_ffff malloc_succeeds (n % 2 ^ 32) 0 0 ≡ r
      → AtStart (load_image sys fmt max_elements header_at malloc_succeeds ffff_file n)
  load_image-AtStart malloc_succeeds ffff_file n none e =
      rw (load_none malloc_succeeds ffff_file n e) tt
  load_image-AtStart malloc_succeeds ffff_file n (some image) e =
      rw (load_some malloc_succeeds ffff_file n image e) (
        load_blob-AtStart image n (sys.read ffff_file n)
          (new_ffff-AtStart malloc_succeeds (n % 2 ^ 32) image e))

  examined-IsRead :
      (n : ℕ) (l : Loading)
      → AtStart l
      → 0 < n
      → n ≤ 2 ^ 31
      → 0 < next_boundary fmt.header_size_min fmt.header_size_min
      → IsRead n (examined sys fmt max_elements header_at n l)
  examined-IsRead n (loaded image) first pos small starts =
      examine-IsRead image n _ refl first pos small starts
  examined-IsRead n not_loaded first pos small starts = tt
  examined-IsRead n too_long first pos small starts = tt

  read-short :
      (malloc_succeeds : Bool) (ffff_file : sys.FileName) (n : ℕ)
      → sys.stat ffff_file ≡ some n
      → ltb (2 * fmt.header_size_min) n ≡ false
      → read_ffff_romimage sys fmt max_elements header_at malloc_succeeds ffff_file ≡ refused
  unfolding read_ffff_romimage
  read-short malloc_succeeds ffff_file n e h = rw (e, read_ffff_romimage, h) refl

  read-long :
      (malloc_succeeds : Bool) (ffff_file : sys.FileName) (n : ℕ)
      → sys.stat ffff_file ≡ some n
      → ltb (2 * fmt.header_size_min) n ≡ true
      → read_ffff_romimage sys fmt max_elements header_at malloc_succeeds ffff_file
        ≡ examined sys fmt max_elements header_at n
            (load_image sys fmt max_elements header_at malloc_succeeds ffff_file n)
  unfolding read_ffff_romimage
  read-long malloc_succeeds ffff_file n e h = rw (e, read_ffff_romimage, h) refl

  -- For a file of at most 2^31 bytes, and a least header size whose next boundary is not 0: the
  -- search of `read_ffff_romimage` ends within its fuel, and an image that it gives has a valid
  -- header at the start and a valid second one within the image, or none at the start and a valid
  -- one within the image.
  pub read_ffff_romimage-IsRead :
      (malloc_succeeds : Bool) (ffff_file : sys.FileName) (n : ℕ)
      → sys.stat ffff_file ≡ some n
      → n ≤ 2 ^ 31
      → 0 < next_boundary fmt.header_size_min fmt.header_size_min
      → IsRead n (read_ffff_romimage sys fmt max_elements header_at malloc_succeeds ffff_file)
  read_ffff_romimage-IsRead malloc_succeeds ffff_file n e small starts =
      elim (Bool-cases (ltb (2 * fmt.header_size_min) n)) [
        | inr short ↦ rw (read-short malloc_succeeds ffff_file n e short) tt
        | inl long ↦ rw (read-long malloc_succeeds ffff_file n e long) (
            examined-IsRead n _ (load_image-AtStart malloc_succeeds ffff_file n _ refl)
              (ground (arith, long)) small starts)
      ]
