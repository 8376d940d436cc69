-- ===== src/Ffff/Read/Start.antt =====
-- What `read_ffff_romimage` loads, and its search from the start of the image.
use bootrom_tools.Base.{
  ℕ, zero, suc, ◌^◌, ◌≤◌, ◌<◌, ◌≡◌, ◌⊎◌, refl, sym, ap, Bool, true, false, List, Option, none, some,
  arith, ◌==◌, length, inl, inr,
}
use bootrom_tools.Files.{store}
use bootrom_tools.Ffff.Image.{Romimage, new_ffff}
use bootrom_tools.Ffff.Read.{
  find_header, search_fuel, Loading, loaded, not_loaded, too_long, stored_blob, load_blob,
}
use bootrom_tools.Ffff.Read.Doubling.{IsEnd, at, find_header-hit, find_header-IsEnd}

pub find_header-start :
    (valid : ℕ → Option Bool) (image_length start : ℕ)
    → 0 < image_length
    → image_length ≤ 2 ^ 31
    → (0 < start) ⊎ (valid 0 ≡ some true)
    → IsEnd valid image_length start (find_header valid search_fuel image_length start)
find_header-start valid image_length zero pos small (inr v) =
    rw (find_header-hit valid image_length 32 0 pos v) (at 0 0 refl pos v)
find_header-start valid image_length zero pos small (inl h) = absurd (omega arith)
find_header-start valid image_length (suc start) pos small h =
    find_header-IsEnd valid image_length 32 (suc start) 0 (suc start) small (omega arith)
      (omega arith)

-- What is loaded has its first header at the start.
abbrev pub AtStart : Loading → Type 0
AtStart (loaded image) = image.first_header ≡ 0
AtStart not_loaded = Unit
AtStart too_long = Unit

stored_blob-AtStart :
    (image : Romimage) (complete : Bool) (r : Option (List ℕ))
    → image.first_header ≡ 0
    → AtStart (stored_blob image complete r)
stored_blob-AtStart image complete none h = tt
stored_blob-AtStart image true (some blob) h = h
stored_blob-AtStart image false (some blob) h = tt

pub load_blob-AtStart :
    (image : Romimage) (image_length : ℕ) (r : Option (List ℕ))
    → image.first_header ≡ 0
    → AtStart (load_blob image image_length r)
load_blob-AtStart image image_length none h = tt
load_blob-AtStart image image_length (some bytes) h =
    stored_blob-AtStart image (length bytes == image_length) (store image.blob 0 bytes) h

pub new_ffff-AtStart :
    (malloc_succeeds : Bool) (size : ℕ) (image : Romimage)
    → new_ffff malloc_succeeds size 0 0 ≡ some image
    → image.first_header ≡ 0
unfolding new_ffff
new_ffff-AtStart true size image h =
    ap (λ (r : Option Romimage). elim r [ none ↦ 0 | some i ↦ i.first_header ]) (sym h)
new_ffff-AtStart false size image h = cc
