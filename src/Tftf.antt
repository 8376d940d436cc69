-- ===== src/Tftf.antt =====
-- The boot image format (TFTF): the structures that include/tftf_common.h and the format's own
-- header declare. `tftf.h` belongs to the boot ROM and is not in the repository, so its constants
-- and the layout of its structures in memory are a record that every definition takes.
pub mod Build
pub mod Cache
pub mod Common
pub mod Elf
pub mod Validate
use bootrom_tools.Base.{ℕ, ◌≡◌, true, false, List, [], ◌∷◌, refl, if◌then◌else◌, ◌==◌}

-- `tftf_section_descriptor`
pub record Section : Type 0 where
  pub section_type : ℕ
  pub section_class : ℕ
  pub section_id : ℕ
  pub section_length : ℕ
  pub section_load_address : ℕ
  pub section_expanded_length : ℕ

-- `tftf_header`, with the bytes that follow the last whole slot of the table. The table holds
-- every whole slot before `header_size`.
pub record Header : Type 0 where
  pub sentinel_value : List ℕ
  pub build_timestamp : List ℕ
  pub firmware_package_name : List ℕ
  pub header_size : ℕ
  pub package_type : ℕ
  pub start_location : ℕ
  pub unipro_mid : ℕ
  pub unipro_pid : ℕ
  pub ara_vid : ℕ
  pub ara_pid : ℕ
  pub sections : List Section
  pub padding : List ℕ

-- A TFTF blob: the header and the bytes behind it.
pub record Blob : Type 0 where
  pub header : Header
  pub payload : List ℕ

-- What `tftf.h` declares: constants, the bytes of a descriptor, and where the table stands.
pub record Format : Type 0 where
  pub section_raw_code : ℕ
  pub section_raw_data : ℕ
  pub section_manifest : ℕ
  pub section_signature : ℕ
  pub section_certificate : ℕ
  pub section_end : ℕ
  pub data_address_to_be_ignored : ℕ
  pub tftf_sentinel : List ℕ
  pub header_size_min : ℕ
  pub header_size_max : ℕ
  pub header_size_default : ℕ
  pub calc_max_sections : ℕ → ℕ
  pub sections_offset : ℕ
  pub section_size : ℕ
  pub section_bytes : Section → List ℕ
  pub timestamp_size : ℕ
  pub package_name_size : ℕ

-- The sections in use: those before the end marker.
module _ (fmt : Format) where
  unfoldable pub live : List Section → List Section
  live [] = []
  live (s ∷ ss) = if s.section_type == fmt.section_end then [] else s ∷ live ss

  pub live_end :
      (s : Section) (ss : List Section)
      → (s.section_type == fmt.section_end) ≡ true
      → live (s ∷ ss) ≡ []
  unfolding live
  live_end s ss h = rw h

  pub live_more :
      (s : Section) (ss : List Section)
      → (s.section_type == fmt.section_end) ≡ false
      → live (s ∷ ss) ≡ s ∷ live ss
  unfolding live
  live_more s ss h = rw h
