-- ===== src/Ffff/Validate/Table.antt =====
-- What the checks of `valid_ffff_element` mean for the table as a whole.
use bootrom_tools.Base.{
  ℕ, suc, ◌+◌, ◌%◌, ◌^◌, ◌≤◌, ◌<◌, ◌≡◌, ◌↔◌, ◌⊎◌, refl, true, false, List, [], ◌∷◌, arith, ◌==◌,
  length, All, Bool-cases, inl, inr,
}
use bootrom_tools.Util.Boundary.{block_aligned, block_aligned_iff}
use bootrom_tools.Ffff.{Format, Element, Header, live, live_end, live_more}
use bootrom_tools.Ffff.Validate.{
  good, ended, collides, duplicates, check_following, check_location, valid_ffff_element,
  scan_elements,
}

-- A nonempty region that ends within the 32-bit address space.
abbrev pub Fits : Element → Type 0
Fits e = (0 < e.element_length) × (e.element_location + e.element_length ≤ 2 ^ 32)

abbrev pub Apart : Element → Element → Type 0
Apart e f =
    (e.element_location + e.element_length ≤ f.element_location)
    ⊎ (f.element_location + f.element_length ≤ e.element_location)

abbrev pub Different : Element → Element → Type 0
Different e f =
    (e.element_type ≡ f.element_type)
    → (e.element_id ≡ f.element_id)
    → (e.element_generation ≡ f.element_generation)
    → ⊥

-- Past the header's erase block, within the image, and on a block boundary.
abbrev pub Placed : Header → ℕ → Element → Type 0
Placed header rom_address e =
    (rom_address + header.erase_block_size ≤ e.element_location)
    × (e.element_location + e.element_length ≤ header.flash_image_length)
    × (e.element_location % header.erase_block_size ≡ 0)

module _ (fmt : Format) where
  collides-Apart : (e f : Element) → Fits e → Fits f → (collides fmt e f ≡ false) ↔ Apart e f
  unfolding collides
  collides-Apart e f he hf = ground arith

  duplicates-Different : (e f : Element) → (duplicates fmt e f ≡ false) ↔ Different e f
  unfolding duplicates
  duplicates-Different e f = ground arith

  check_following_iff :
      (e : Element) (rest : List Element)
      → Fits e
      → All Fits (live fmt rest)
      → (check_following fmt e rest ≡ good) ↔ All (λ f. Apart e f × Different e f) (live fmt rest)
  unfolding check_following
  check_following_iff e [] he h = unfold live in ground arith
  check_following_iff e (f ∷ rest) he h = elim (Bool-cases (f.element_type == fmt.element_end)) [
    | inl stop ↦ rw (live_end fmt f rest stop) (rw stop (λ _. tt, λ _. refl))
    | inr more ↦
        let h' : Fits f × All Fits (live fmt rest) = rw (live_more fmt f rest more) at h in
        rw (live_more fmt f rest more) (
          rw more (
            ground (
              arith,
              collides-Apart e f he h'.0,
              duplicates-Different e f,
              check_following_iff e rest he h'.1,
            )))
  ]

-- Every element is placed, and apart and different from every element after it.
abbrev pub ValidTable : Header → ℕ → List Element → Type 0
ValidTable header rom_address [] = Unit
ValidTable header rom_address (e ∷ es) =
    Placed header rom_address e
    × All (λ f. Apart e f × Different e f) es
    × ValidTable header rom_address es

module _ (fmt : Format) (header : Header) (rom_address k : ℕ) (power : k < 32)
    (size : header.erase_block_size ≡ 2 ^ k)
    (room : rom_address + header.erase_block_size < 2 ^ 32) where
  check_location_iff :
      (e : Element)
      → Fits e
      → (check_location fmt header rom_address e ≡ good) ↔ Placed header rom_address e
  unfolding check_location
  check_location_iff e h =
      let aligned : (block_aligned e.element_location header.erase_block_size ≡ true)
          ↔ (e.element_location % header.erase_block_size ≡ 0) =
        rw size (block_aligned_iff k e.element_location power) in
      ground (arith, aligned)

  -- The scan ends at the end marker exactly when there is one and all before it are valid.
  pub scan_elements_iff :
      (slots : List Element) (index m : ℕ)
      → All Fits (live fmt slots)
      → (scan_elements fmt header rom_address index slots ≡ ended m) ↔ (
          (m ≡ index + suc (length (live fmt slots)))
          × (length (live fmt slots) < length slots)
          × ValidTable header rom_address (live fmt slots))
  unfolding scan_elements valid_ffff_element
  scan_elements_iff [] index m h = unfold live in ground arith
  scan_elements_iff (e ∷ rest) index m h = elim (Bool-cases (e.element_type == fmt.element_end)) [
    | inl stop ↦ rw (live_end fmt e rest stop) (ground arith)
    | inr more ↦
        let h' : Fits e × All Fits (live fmt rest) = rw (live_more fmt e rest more) at h in
        rw (live_more fmt e rest more) (
          ground (
            arith,
            check_location_iff e h'.0,
            check_following_iff fmt e rest h'.0 h'.1,
            scan_elements_iff rest (suc index) m h'.1,
          ))
  ]
