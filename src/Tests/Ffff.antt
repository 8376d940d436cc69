-- ===== src/Tests/Ffff.antt =====
-- src/common/ffff_common.c and src/common/ffff_in.c at a concrete flash image and element cache,
-- with the element types that ffff_element.py names.
pub mod Read
use bootrom_tools.Base.{
  ℕ, ◌+◌, ◌*◌, ◌-◌, ◌%◌, ◌/◌, ◌^◌, ◌≤◌, ◌<◌, ◌≡◌, ◌↔◌, refl, true, false, List, [], ◌∷◌, ◌++◌, none,
  some, arith, take, replicate, All,
}
use bootrom_tools.Files.{System}
use bootrom_tools.Util.Boundary.{next_boundary}
use bootrom_tools.Util.Hamming.{bytes_of}
use bootrom_tools.Ffff.{Format, Element, Header, IsInRange, IsPacked, live}
use bootrom_tools.Ffff.Image.{Romimage, new_ffff}
use bootrom_tools.Ffff.Image.Blank.{new_ffff_lem}
use bootrom_tools.Ffff.Common.{ffff_element_collisions, ffff_element_tables_match}
use bootrom_tools.Ffff.Common.Laws.{
  overlapping, through_end, collisions-overlapping, tables_match_iff,
}
use bootrom_tools.Ffff.Cache.{
  Entry, Cache, entry_open, entry_set_class, entry_set_id, entry_set_length, entry_set_location,
  entry_set_generation, validate_locations,
}
use bootrom_tools.Ffff.Cache.Inv.{IsValid, Step, Reach, Keeps, Reach-Keeps, entry_open-none_iff}
use bootrom_tools.Ffff.Cache.Check.{Located, validate_locations_iff, current, Sets, entry_set-open}
use bootrom_tools.Ffff.Load.{check_ffff_romimage_size}
use bootrom_tools.Ffff.Load.Size.{check_ffff_romimage_size_first}
use bootrom_tools.Ffff.Validate.{good, validate_ffff_header, valid_ffff_element}
use bootrom_tools.Ffff.Validate.Whole.{IsWellFormed, validate_ffff_header_iff}

-- A class of three bytes behind a type of one, then four words.
abbrev element_bytes : Element → List ℕ
element_bytes e =
    e.element_type % 256
      ∷ e.element_class % 256
      ∷ e.element_class / 2 ^ 8 % 256
      ∷ e.element_class / 2 ^ 16 % 256
      ∷ bytes_of e.element_id
    ++ bytes_of e.element_length
    ++ bytes_of e.element_location
    ++ bytes_of e.element_generation

abbrev pub ffff : Format
ffff = record {
  element_stage_2_fw = 1;
  element_stage_3_fw = 2;
  element_ims_cert = 3;
  element_cms_cert = 4;
  element_data = 5;
  element_end = 0xfe;
  ffff_sentinel_value = b'F' ∷ b'l' ∷ b'a' ∷ b's' ∷ b'h' ∷ [];
  erase_block_size_max = 64 * 1024;
  header_size_min = 512;
  header_size_max = 32768;
  header_size_default = 4096;
  calc_max_elements = λ size. (size - 132) / 20;
  element_bytes = element_bytes;
  header_bytes = λ h. h.sentinel_value;
}

bytes_of-injective : (x y : ℕ) → x < 2 ^ 32 → y < 2 ^ 32 → bytes_of x ≡ bytes_of y → x ≡ y
unfolding bytes_of
bytes_of-injective x y hx hy e = ground arith

ffff-IsPacked : IsPacked ffff
unfolding bytes_of
ffff-IsPacked x y rx ry e = ground arith

abbrev element : ℕ → ℕ → ℕ → Element
element type len location = record {
  element_type = type;
  element_class = 0;
  element_id = 1;
  element_length = len;
  element_location = location;
  element_generation = 1;
}

abbrev empty : Element
empty = record {
  element_type = 0;
  element_class = 0;
  element_id = 0;
  element_length = 0;
  element_location = 0;
  element_generation = 0;
}

abbrev firmware : Element
firmware = element 1 0x900 0x2000

abbrev end_marker : Element
end_marker = element 0xfe 0 0

abbrev image : Header
image = record {
  sentinel_value = b'F' ∷ b'l' ∷ b'a' ∷ b's' ∷ b'h' ∷ [];
  build_timestamp = [];
  flash_image_name = [];
  flash_capacity = 0x40000;
  erase_block_size = 0x800;
  header_size = 512;
  flash_image_length = 0x40000;
  header_generation = 1;
  elements = firmware ∷ element 2 0x500 0x3000 ∷ end_marker ∷ replicate 16 empty;
  padding = [];
  tail_sentinel = b'F' ∷ b'l' ∷ b'a' ∷ b's' ∷ b'h' ∷ [];
}

validate_ffff_header_example :
    (validate_ffff_header ffff 19 image 0 ≡ good) ↔ IsWellFormed ffff 19 image 0
validate_ffff_header_example =
    validate_ffff_header_iff ffff 19 image 0 11 (omega arith) refl (omega arith)
      (unfold live in ground arith)

collisions_example :
    ffff_element_collisions ffff 19 (some image) firmware 0 8
    ≡ take 8 (overlapping ffff firmware 0 0 (live ffff (take 19 image.elements)))
collisions_example =
    collisions-overlapping ffff 19 image firmware 0 8 (ground arith) (unfold live in ground arith)

image-IsInRange : All IsInRange (take 19 image.elements)
image-IsInRange = ground arith

-- A system of one file of three bytes.
abbrev one_file : System
one_file = record { FileName = ℕ; stat = λ f. some 3; read = λ f n. some (take n (1 ∷ 2 ∷ 3 ∷ [])) }

abbrev no_entry : Entry one_file
no_entry = record { filename = none; element = empty }

abbrev fresh : Cache one_file
fresh = record {
  entries = no_entry ∷ no_entry ∷ [];
  current_element = 0;
  element_iterator = 2 ^ 32 - 1;
  element_window_open = false;
}

abbrev on_last : Cache one_file
on_last = record fresh { current_element = 1; element_window_open = true }

on_last-IsValid : IsValid one_file on_last
on_last-IsValid = record { in_array = omega arith; open_in_array = λ w. omega arith }

reach_example : Keeps one_file on_last (entry_set_class one_file 7 on_last).1
reach_example =
    Reach-Keeps one_file (Reach.next Reach.here (Step.set_class on_last 7)) on_last-IsValid

open_example :
    (entry_open one_file 1 none on_last ≡ none)
    ↔ ((on_last.element_window_open ≡ true) × (on_last.current_element + 1 ≡ 2))
open_example = entry_open-none_iff one_file 1 none on_last on_last-IsValid

abbrev two_closed : Cache one_file
two_closed = record fresh {
  entries =
      record { filename = some 0; element = firmware }
      ∷ record { filename = some 0; element = element 2 0x500 0x3000 }
      ∷ [];
  current_element = 2;
}

locations_example :
    (validate_locations one_file 512 (2 ^ 11) 0x40000 two_closed ≡ true)
    ↔ All (Located one_file (2 * (1 * 2 ^ 11)) (2 ^ 11) 0x40000) (take 2 two_closed.entries)
locations_example =
    validate_locations_iff one_file 512 11 1 0x40000 two_closed (omega arith) (omega arith)
      (omega arith) (omega arith)

size_example :
    (check_ffff_romimage_size one_file 0x40000 0x40000 512 two_closed ≡ some true)
    ↔ ((2 * 512 + 0x900 ≤ 0x40000) × (2 * 512 + 0x900 ≤ 0x40000))
size_example =
    check_ffff_romimage_size_first one_file 0x40000 0x40000 512 two_closed
      (record { filename = some 0; element = firmware }) (omega arith) (omega arith) (omega arith)
      refl
