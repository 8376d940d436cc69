-- ===== src/Tftf/Validate.antt =====
-- src/common/tftf_in.c: `valid_tftf_type`, `valid_tftf_section`, `valid_tftf_header` and
-- `sniff_tftf_header`. The last error that the boot ROM would record is kept as the reason.
pub mod Table
pub mod Whole
use bootrom_tools.Base.{
  ℕ, zero, suc, ◌+◌, ◌-◌, ◌*◌, ◌%◌, ◌^◌, ◌≡◌, Bool, true, false, ◌&&◌, ◌||◌, not, List, [], ◌∷◌,
  ◌++◌, ltb, leb, ◌==◌, if◌then◌else◌, same_bytes, flat_bytes, length, take, drop,
}
use bootrom_tools.Util.Fill.{is_constant_fill}
use bootrom_tools.Tftf.{Format, Section, Header}

-- The `BRE_TFTF_...` codes.
pub data Reason : Type 0 where
  sentinel header_size header_type compression_bad collision : Reason
  no_table_end start_not_in_code non_zero_pad : Reason

-- What the check of one section reports: a refusal; the end marker; or a valid section, with
-- whether the entry point lies in it.
pub data Check : Type 0 where
  invalid : Reason → Check
  end_of_sections : Check
  valid : Bool → Check

-- What the loop over the table ends with: the index one past the end marker and whether some
-- section contains the entry point, or why it stopped.
pub data Scan : Type 0 where
  ended : ℕ → Bool → Scan
  stopped : Reason → Scan

pub data Verdict : Type 0 where
  good : Verdict
  bad : Reason → Verdict

-- The address one past a section, in `uint32_t` arithmetic.
abbrev pub end_address : Section → ℕ
end_address s = (s.section_load_address + s.section_expanded_length) % 2 ^ 32

module _ (fmt : Format) where
  unfoldable pub valid_tftf_type : ℕ → Bool
  valid_tftf_type section_type =
      (leb fmt.section_raw_code section_type && leb section_type fmt.section_manifest)
      || (section_type == fmt.section_signature
          || (section_type == fmt.section_certificate || section_type == fmt.section_end))

  -- The condition of the inner loop's refusal.
  unfoldable pub collides : Section → Section → Bool
  collides section other = not (
      ltb (end_address other) section.section_load_address
      || leb (end_address section) other.section_load_address)

  -- The inner loop, over the slots after the section: it stops at the end marker and at a section
  -- whose address is to be ignored.
  unfoldable pub no_collision : Section → List Section → Bool
  no_collision section [] = true
  no_collision section (other ∷ rest) =
      if other.section_type == fmt.section_end
        || other.section_load_address == fmt.data_address_to_be_ignored
      then true
      else if collides section other
      then false
      else no_collision section rest

  unfoldable pub contains_start : Header → Section → Bool
  contains_start header section =
      leb section.section_load_address header.start_location
      && (ltb header.start_location (end_address section)
          && section.section_type == fmt.section_raw_code)

  unfoldable pub valid_tftf_section : Header → Section → List Section → Check
  valid_tftf_section header section following =
      if not (valid_tftf_type section.section_type)
      then invalid header_type
      else if section.section_type == fmt.section_end
      then end_of_sections
      else if section.section_load_address == fmt.data_address_to_be_ignored
      then valid false
      else if ltb section.section_expanded_length section.section_length
      then invalid compression_bad
      else if not (no_collision section following)
      then invalid collision
      else valid (contains_start header section)

  unfoldable pub scan_sections : Header → ℕ → Bool → List Section → Scan
  scan_sections header index contains [] = stopped no_table_end
  scan_sections header index contains (section ∷ following) =
      elim (valid_tftf_section header section following) [
        | invalid r ↦ stopped r
        | end_of_sections ↦ ended (suc index) contains
        | valid here ↦ scan_sections header (suc index) (contains || here) following
      ]

  -- `max_sections` is the global `tftf_max_sections`, which bounds the table.
  unfoldable pub valid_tftf_header : ℕ → Header → Verdict
  valid_tftf_header max_sections header =
      if not (same_bytes header.sentinel_value fmt.tftf_sentinel)
      then bad sentinel
      else if ltb header.header_size fmt.header_size_min
          || ltb fmt.header_size_max header.header_size
      then bad header_size
      else elim (scan_sections header 0 false (take max_sections header.sections)) [
        | stopped r ↦ bad r
        | ended rest section_contains_start ↦
            if not (header.start_location == 0) && not section_contains_start
            then bad start_not_in_code
            else (let unused =
                  flat_bytes fmt.section_bytes (drop rest header.sections) ++ header.padding in
                if is_constant_fill unused 0 then good else bad non_zero_pad)
      ]

  unfoldable pub sniff_tftf_header : Header → Bool
  sniff_tftf_header header = same_bytes header.sentinel_value fmt.tftf_sentinel
