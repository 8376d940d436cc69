-- ===== src/Ffff/Validate/Whole.antt =====
-- `validate_ffff_header` accepts exactly the well-formed headers.
use bootrom_tools.Base.{
  ℕ, suc, ◌+◌, ◌*◌, ◌^◌, ◌≤◌, ◌<◌, ◌≡◌, ◌↔◌, ◌∙◌, refl, List, ◌++◌, arith, length, take, drop,
  replicate, All, inl, inr, flat_bytes, same_bytes_iff, flat_bytes, ◌⊎◌, ap, pow_lt,
}
use bootrom_tools.Util.Fill.{is_constant_fill_iff}
use bootrom_tools.Ffff.{Format, Element, Header, live}
use bootrom_tools.Ffff.Validate.{
  Reason, good, Scan, ended, stopped, scan_elements, validate_ffff_header,
}
use bootrom_tools.Ffff.Validate.Table.{Fits, ValidTable, scan_elements_iff}

module _ (fmt : Format) where
  -- The bytes between the end marker and the tail sentinel.
  abbrev pub unused_bytes : ℕ → Header → List ℕ
  unused_bytes max_elements header =
      let used = suc (length (live fmt (take max_elements header.elements))) in
      flat_bytes fmt.element_bytes (drop used header.elements) ++ header.padding

  pub record IsWellFormed (max_elements : ℕ) (header : Header) (rom_address : ℕ) : Type 0 where
    pub leading : header.sentinel_value ≡ fmt.ffff_sentinel_value
    pub trailing : header.tail_sentinel ≡ fmt.ffff_sentinel_value
    pub block_fits : header.erase_block_size ≤ fmt.erase_block_size_max
    pub two_blocks : 2 * header.erase_block_size ≤ header.flash_capacity
    pub image_fits : header.flash_image_length ≤ header.flash_capacity
    pub size_min : fmt.header_size_min ≤ header.header_size
    pub size_max : header.header_size ≤ fmt.header_size_max
    pub terminated :
        length (live fmt (take max_elements header.elements))
        < length (take max_elements header.elements)
    pub table : ValidTable header rom_address (live fmt (take max_elements header.elements))
    pub zero_padded :
        unused_bytes max_elements header ≡ replicate (length (unused_bytes max_elements header)) 0

  Scan-cases : (s : Scan) → ((m : ℕ) × (s ≡ ended m)) ⊎ ((r : Reason) × (s ≡ stopped r))
  Scan-cases (ended m) = inl (m, refl)
  Scan-cases (stopped r) = inr (r, refl)

  -- For a header whose erase block size is a power of two below 2^31, where the block at the address
  -- of the header ends below 2^32, and whose elements in use are nonempty and end within the 32-bit
  -- address space, `validate_ffff_header` succeeds exactly when both
  -- sentinels stand, the sizes are in range, the end marker is among the first `max_elements`
  -- slots, every element lies block-aligned inside the image and outside the header's block, no
  -- two overlap or have the same type, id and generation, and the rest up to the tail sentinel
  -- is zero.
  pub validate_ffff_header_iff :
      (max_elements : ℕ) (header : Header) (rom_address k : ℕ)
      → k < 31
      → header.erase_block_size ≡ 2 ^ k
      → rom_address + header.erase_block_size < 2 ^ 32
      → All Fits (live fmt (take max_elements header.elements))
      → (validate_ffff_header fmt max_elements header rom_address ≡ good)
        ↔ IsWellFormed max_elements header rom_address
  unfolding validate_ffff_header
  validate_ffff_header_iff max_elements header rom_address k power size room fits =
      let slots : List Element = take max_elements header.elements in
      let scanned = scan_elements_iff fmt header rom_address k (omega arith) size room slots 0 in
      let used : ℕ = suc (length (live fmt slots)) in
      let unused : List ℕ = unused_bytes max_elements header in
      elim (Scan-cases (scan_elements fmt header rom_address 0 slots)) [
        | inl (m, e) ↦
            let all : (m ≡ 0 + used)
                × (length (live fmt slots) < length slots)
                × ValidTable header rom_address (live fmt slots) =
              (scanned m fits).0 e in
            let e' : scan_elements fmt header rom_address 0 slots ≡ ended used =
              e ∙ ap ended (omega (arith, all.0)) in
            ground (
              arith,
              e',
              all.1,
              pow_lt k 31 power,
              same_bytes_iff header.sentinel_value fmt.ffff_sentinel_value,
              same_bytes_iff header.tail_sentinel fmt.ffff_sentinel_value,
              is_constant_fill_iff unused 0,
            )
        | inr (r, e) ↦ ground (arith, e, scanned used fits)
      ]
