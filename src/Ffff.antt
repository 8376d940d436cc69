-- ===== src/Ffff.antt =====
-- The flash image format (FFFF): the structures that include/ffff_common.h and the format's own
-- header declare. `ffff.h` belongs to the boot ROM and is not in the repository, so its constants
-- and the layout of its structures in memory are a record that every definition takes.
pub mod Common
pub mod Cache
pub mod Image
pub mod Load
pub mod Validate
pub mod Read
use bootrom_tools.Base.{
  ℕ, ◌≡◌, Bool, true, false, List, [], ◌∷◌, refl, if◌then◌else◌, ◌==◌, ◌<◌, ◌^◌,
}

-- `ffff_element_descriptor`
pub record Element : Type 0 where
  pub element_type : ℕ
  pub element_class : ℕ
  pub element_id : ℕ
  pub element_length : ℕ
  pub element_location : ℕ
  pub element_generation : ℕ

-- `ffff_header`, with what lies between the table and the tail sentinel at `header_size`. The
-- table holds every whole slot before the tail sentinel.
pub record Header : Type 0 where
  pub sentinel_value : List ℕ
  pub build_timestamp : List ℕ
  pub flash_image_name : List ℕ
  pub flash_capacity : ℕ
  pub erase_block_size : ℕ
  pub header_size : ℕ
  pub flash_image_length : ℕ
  pub header_generation : ℕ
  pub elements : List Element
  pub padding : List ℕ
  pub tail_sentinel : List ℕ

-- What `ffff.h` declares: constants, and the bytes of the two structures.
pub record Format : Type 0 where
  pub element_stage_2_fw : ℕ
  pub element_stage_3_fw : ℕ
  pub element_ims_cert : ℕ
  pub element_cms_cert : ℕ
  pub element_data : ℕ
  pub element_end : ℕ
  pub ffff_sentinel_value : List ℕ
  pub erase_block_size_max : ℕ
  pub header_size_min : ℕ
  pub header_size_max : ℕ
  pub header_size_default : ℕ
  pub calc_max_elements : ℕ → ℕ
  pub element_bytes : Element → List ℕ
  pub header_bytes : Header → List ℕ

-- The values that the fields of a descriptor can hold.
pub record IsInRange (e : Element) : Type 0 where
  pub element_type : e.element_type < 2 ^ 8
  pub element_class : e.element_class < 2 ^ 24
  pub element_id : e.element_id < 2 ^ 32
  pub element_length : e.element_length < 2 ^ 32
  pub element_location : e.element_location < 2 ^ 32
  pub element_generation : e.element_generation < 2 ^ 32

-- A descriptor has no padding: `memcmp` compares its fields.
abbrev pub IsPacked : Format → Type 0
IsPacked fmt =
    (x y : Element) → IsInRange x → IsInRange y → fmt.element_bytes x ≡ fmt.element_bytes y → x ≡ y

-- The elements in use: those before the end marker.
module _ (fmt : Format) where
  unfoldable pub live : List Element → List Element
  live [] = []
  live (e ∷ es) = if e.element_type == fmt.element_end then [] else e ∷ live es

  pub live_end :
      (e : Element) (es : List Element)
      → (e.element_type == fmt.element_end) ≡ true
      → live (e ∷ es) ≡ []
  unfolding live
  live_end e es h = rw h

  pub live_more :
      (e : Element) (es : List Element)
      → (e.element_type == fmt.element_end) ≡ false
      → live (e ∷ es) ≡ e ∷ live es
  unfolding live
  live_more e es h = rw h
