-- ===== src/Ffff/Image/Build/Copies.antt =====
-- What an image that `new_ffff_romimage` makes looks like.
use bootrom_tools.Base.{
  elim_some, elim_allocated, ℕ, ◌*◌, zero, suc, ◌+◌, ◌-◌, ◌≤◌, ◌≡◌, ◌≢◌, refl, sym, ap, ◌∙◌, Bool,
  true, false, List, ◌++◌, Option, none, some, arith, leb, length, take, drop, length-append,
  length-take, take-append_length, drop-append_length, Bool-cases, inl, inr, ◌%◌, ◌^◌,
}
use bootrom_tools.Files.{System, store}
use bootrom_tools.Files.Store.{store_inside, store_outside}
use bootrom_tools.Ffff.{Format}
use bootrom_tools.Util.Boundary.{next_boundary}
use bootrom_tools.Ffff.Cache.{Cache}
use bootrom_tools.Ffff.Load.{Status, error, end_of_list, stored}
use bootrom_tools.Ffff.Image.{Romimage, new_ffff}
use bootrom_tools.Ffff.Image.Build.{
  Layout, Outcome, fault, no_fuel, filled, copy_header, finish_headers, outcome, new_ffff_romimage,
  mark_end,
}

-- The first bytes of a blob stand in it twice, one copy behind the other.
pub record IsCopied (n : ℕ) (blob : List ℕ) : Type 0 where
  pub room : 2 * n ≤ length blob
  pub same : take n (drop n blob) ≡ take n blob

append-IsCopied :
    (n : ℕ) (half rest : List ℕ) → length half ≡ n → IsCopied n (half ++ (half ++ rest))
append-IsCopied n half rest e = rw (sym e) (record {
  room = omega (arith, length-append half (half ++ rest), length-append half rest);
  same =
      ap (take (length half)) (drop-append_length half (half ++ rest))
      ∙ (take-append_length half rest ∙ sym (take-append_length half (half ++ rest)));
})

pub copy_header-inside :
    (n : ℕ) (blob : List ℕ)
    → leb n (length blob) ≡ true
    → copy_header n blob ≡ store blob n (take n blob)
unfolding copy_header
copy_header-inside n blob h = rw h refl

copy_header-outside :
    (n : ℕ) (blob : List ℕ) → leb n (length blob) ≡ false → copy_header n blob ≡ none
unfolding copy_header
copy_header-outside n blob h = rw h refl

pub copy_header-stores :
    (n : ℕ) (blob copied : List ℕ)
    → copy_header n blob ≡ some copied
    → (n ≤ length blob) × (store blob n (take n blob) ≡ some copied)
copy_header-stores n blob copied e = elim (Bool-cases (leb n (length blob))) [
  | inr outside ↦ absurd (cc (copy_header-outside n blob outside))
  | inl inside ↦ (ground (arith, inside), sym (copy_header-inside n blob inside) ∙ e)
]

pub copy_header-IsCopied :
    (n : ℕ) (blob copied : List ℕ) → copy_header n blob ≡ some copied → IsCopied n copied
copy_header-IsCopied zero blob copied e = record { room = omega arith; same = refl }
copy_header-IsCopied (suc n) blob copied e = elim (Bool-cases (leb (suc n) (length blob))) [
  | inr outside ↦ absurd (cc (copy_header-outside (suc n) blob outside))
  | inl inside ↦
      let half = take (suc n) blob in
      let size : length half ≡ suc n = ground (arith, length-take (suc n) blob, inside) in
      let step = copy_header-inside (suc n) blob inside in
      elim (Bool-cases (leb (suc n + length half) (length blob))) [
        | inr outside ↦
            absurd
              (cc (step, store_outside blob (suc n) half (ground (arith, outside)) (omega arith)))
        | inl room ↦
            let written = store_inside blob (suc n) half (ground (arith, room)) in
            let same : half ++ (half ++ drop (suc n + length half) blob) ≡ copied =
              cc (step, written) in
            rw (sym same) (append-IsCopied (suc n) half _ size)
      ]
]

module _ (sys : System) (fmt : Format) (layout : Layout) where
  abbrev finished : ℕ → ℕ → List ℕ → Option (List ℕ)
  finished = finish_headers sys fmt layout

  abbrev tail_offset : ℕ → ℕ
  tail_offset header_size = (header_size + 2 ^ 32 - length fmt.ffff_sentinel_value) % 2 ^ 32

  -- The tail sentinel is written and then the header copied.
  pub finish_headers-copies :
      (header_size n : ℕ) (blob copied : List ℕ)
      → finished header_size n blob ≡ some copied
      → (sealed : List ℕ) × (store blob (tail_offset header_size) fmt.ffff_sentinel_value
          ≡ some sealed)
        × (copy_header n sealed ≡ some copied)
  unfolding finish_headers
  finish_headers-copies header_size n blob copied e =
      elim_some (store blob (tail_offset header_size) fmt.ffff_sentinel_value) _ e

  finish_headers-IsCopied :
      (header_size n : ℕ) (blob copied : List ℕ)
      → finished header_size n blob ≡ some copied
      → IsCopied n copied
  finish_headers-IsCopied header_size n blob copied e =
      let (sealed, written, copy) = finish_headers-copies header_size n blob copied e in
      copy_header-IsCopied n sealed copied copy

  -- An image is made when the loop ended without an error.
  pub outcome-filled :
      (header_size n : ℕ) (r r' : Romimage) (o : Outcome)
      → outcome sys fmt layout header_size n r o ≡ some (some r')
      → (status : Status) × (blob : List ℕ) × (o ≡ filled status blob)
        × (status ≢ error)
        × (finished header_size n blob ≡ some r'.blob)
  outcome-filled header_size n r r' fault e = absurd (cc e)
  outcome-filled header_size n r r' no_fuel e = absurd (cc e)
  outcome-filled header_size n r r' (filled status blob) e =
      let (b, found, rest) = elim_some (finished header_size n blob) _ e in
      let (good, same) = by_status b status rest in (status, blob, refl, good, found ∙ ap some same)
    where
      by_status :
          (b : List ℕ) (status : Status)
          → ◌≡◌ {A = Option (Option Romimage)}
              (elim status [ error ↦ some none | _ ↦ some (some (record r { blob = b })) ])
              (some (some r'))
          → (status ≢ error) × (b ≡ r'.blob)
      by_status b error g = absurd (cc g)
      by_status b end_of_list g =
          let same : record r { blob = b } ≡ r' = cc in (λ h. cc h, ap (λ x. x.blob) same)
      by_status b stored g =
          let same : record r { blob = b } ≡ r' = cc in (λ h. cc h, ap (λ x. x.blob) same)

  outcome-IsCopied :
      (header_size n : ℕ) (r r' : Romimage) (o : Outcome)
      → outcome sys fmt layout header_size n r o ≡ some (some r')
      → IsCopied n r'.blob
  outcome-IsCopied header_size n r r' o e =
      let (status, blob, ended, good, finish) = outcome-filled header_size n r r' o e in
      finish_headers-IsCopied header_size n blob r'.blob finish

  -- An image that `new_ffff_romimage` makes has room for two headers, each of the length of the
  -- header up to the next boundary of the erase block, and the second is a copy of the first.
  pub new_ffff_romimage-IsCopied :
      (malloc_succeeds : Bool) (now : List ℕ) (max : ℕ) (name : Option (List ℕ))
      (capacity erase_block_size image_length generation header_size : ℕ) (c : Cache sys)
      (r : Romimage)
      → new_ffff_romimage sys fmt layout malloc_succeeds now max name capacity erase_block_size
          image_length generation header_size c
        ≡ some (some r)
      → IsCopied (next_boundary header_size erase_block_size) r.blob
  unfolding new_ffff_romimage
  new_ffff_romimage-IsCopied malloc_succeeds now max name capacity erase_block_size image_length
        generation header_size c r e =
      let (blank, _, e1) =
        elim_allocated (new_ffff malloc_succeeds image_length header_size erase_block_size) _ e in
      let (text, _, e2) = elim_some name _ e1 in
      let (started, _, e3) = elim_some (store blank.blob 0 _) _ e2 in
      let (marked, _, e4) = elim_some (mark_end sys fmt layout started 0) _ e3 in
      outcome-IsCopied header_size (next_boundary header_size erase_block_size) blank r _ e4
