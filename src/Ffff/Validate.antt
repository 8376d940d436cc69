-- ===== src/Ffff/Validate.antt =====
-- src/common/ffff_in.c: `valid_ffff_type`, `valid_ffff_element` and `validate_ffff_header`.
-- The last error that the boot ROM would record is kept as the reason of a refusal.
pub mod Table
pub mod Whole
pub mod Wrap
use bootrom_tools.Base.{
  ℕ, zero, suc, ◌+◌, ◌-◌, ◌*◌, ◌%◌, ◌^◌, ◌≡◌, Bool, true, false, ◌&&◌, ◌||◌, not, List, [], ◌∷◌,
  ◌++◌, ltb, leb, ◌==◌, if◌then◌else◌, same_bytes, flat_bytes, length, take, drop,
}
use bootrom_tools.Util.Boundary.{block_aligned}
use bootrom_tools.Util.Fill.{is_constant_fill}
use bootrom_tools.Ffff.{Format, Element, Header}

-- The `BRE_FFFF_...` codes.
pub data Reason : Type 0 where
  sentinel block_size flash_capacity image_length header_size : Reason
  elt_reserved_memory elt_alignment elt_collision elt_duplicate : Reason
  no_table_end non_zero_pad : Reason

pub data Check : Type 0 where
  good : Check
  bad : Reason → Check

-- What the loop over the table ends with: the index one past the end marker, or why it stopped.
pub data Scan : Type 0 where
  ended : ℕ → Scan
  stopped : Reason → Scan

-- The last byte of a region, in `uint32_t` arithmetic.
abbrev pub last_byte : ℕ → ℕ → ℕ
last_byte start length = ((start + length) % 2 ^ 32 + 2 ^ 32 - 1) % 2 ^ 32

module _ (fmt : Format) where
  unfoldable pub valid_ffff_type : ℕ → Bool
  valid_ffff_type element_type =
      (leb fmt.element_stage_2_fw element_type && leb element_type fmt.element_data)
      || element_type == fmt.element_end

  -- (a) and (b) of the inner loop, against one other element.
  pub collides : Element → Element → Bool
  collides element other =
      let this_start = element.element_location in
      let this_end = last_byte this_start element.element_length in
      let that_start = other.element_location in
      let that_end = last_byte that_start other.element_length in
      leb this_start that_end && leb that_start this_end

  pub duplicates : Element → Element → Bool
  duplicates element other =
      element.element_type == other.element_type
      && (element.element_id == other.element_id
          && element.element_generation == other.element_generation)

  -- The inner loop, over the slots after the element.
  pub check_following : Element → List Element → Check
  check_following element [] = good
  check_following element (other ∷ rest) =
      if other.element_type == fmt.element_end
      then good
      else if collides element other
      then bad elt_collision
      else if duplicates element other
      then bad elt_duplicate
      else check_following element rest

  -- What precedes the inner loop, for an element that is not the end marker.
  pub check_location : Header → ℕ → Element → Check
  check_location header rom_address element =
      let element_location_min = (rom_address + header.erase_block_size) % 2 ^ 32 in
      let this_start = element.element_location in
      let this_end = last_byte this_start element.element_length in
      if ltb this_start element_location_min || leb header.flash_image_length this_end
      then bad elt_reserved_memory
      else if not (block_aligned this_start header.erase_block_size)
      then bad elt_alignment
      else good

  -- An element and the slots after it: whether it is valid, and whether it is the end marker.
  pub valid_ffff_element : Header → ℕ → Element → List Element → Check × Bool
  valid_ffff_element header rom_address element following =
      if element.element_type == fmt.element_end
      then (good, true)
      else elim (check_location header rom_address element) [
        | bad r ↦ (bad r, false)
        | good ↦ (check_following element following, false)
      ]

  pub scan_elements : Header → ℕ → ℕ → List Element → Scan
  scan_elements header rom_address index [] = stopped no_table_end
  scan_elements header rom_address index (element ∷ following) =
      let later = scan_elements header rom_address (suc index) following in
      let (check, end_of_elements) = valid_ffff_element header rom_address element following in
      elim check [ bad r ↦ stopped r | good ↦ if end_of_elements then ended (suc index) else later ]

  -- `max_elements` is the global `ffff_max_elements`, which bounds the table.
  pub validate_ffff_header : ℕ → Header → ℕ → Check
  validate_ffff_header max_elements header address =
      if not (same_bytes header.sentinel_value fmt.ffff_sentinel_value)
      then bad sentinel
      else if not (same_bytes header.tail_sentinel fmt.ffff_sentinel_value)
      then bad sentinel
      else if ltb fmt.erase_block_size_max header.erase_block_size
      then bad block_size
      else if ltb header.flash_capacity (header.erase_block_size * 2 % 2 ^ 32)
      then bad flash_capacity
      else if ltb header.flash_capacity header.flash_image_length
      then bad image_length
      else if ltb header.header_size fmt.header_size_min
          || ltb fmt.header_size_max header.header_size
      then bad header_size
      else elim (scan_elements header address 0 (take max_elements header.elements)) [
        | stopped r ↦ bad r
        | ended rest ↦
            let unused =
              flat_bytes fmt.element_bytes (drop rest header.elements) ++ header.padding in
            if is_constant_fill unused 0 then good else bad non_zero_pad
      ]
