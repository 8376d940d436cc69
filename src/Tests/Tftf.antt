-- ===== src/Tests/Tftf.antt =====
-- src/common/tftf_common.c and src/common/tftf_in.c at a concrete boot image, with the section
-- types that tftf.py names.
pub mod Sign
pub mod Command
use bootrom_tools.Base.{
  flat_bytes, get_elem?, ℕ, ◌+◌, ◌-◌, ◌%◌, ◌/◌, ◌^◌, ◌≤◌, ◌<◌, ◌≡◌, ◌↔◌, ◌⊎◌, inl, refl, true,
  false, List, [], ◌∷◌, ◌++◌, none, some, arith, length, replicate, Any,
}
use bootrom_tools.Util.Hamming.{bytes_of}
use bootrom_tools.Tftf.{Format, Section, Header, Blob, live}
use bootrom_tools.Files.{System}
use bootrom_tools.Tftf.Cache.{Entry, Cache, contents, entries_size, entry_open, entry_set_blob}
use bootrom_tools.Tftf.Cache.Inv.{entry_open-entry_set_blob}
use bootrom_tools.Tftf.Build.{new_tftf}
use bootrom_tools.Tftf.Build.Loaded.{IsLoadable, payload_of, descriptors}
use bootrom_tools.Tftf.Build.Cached.{new_tftf-loads}
use bootrom_tools.Tftf.Common.{
  tftf_get_signable_region, tftf_payload_size, payload_from, described, tftf_add_section,
}
use bootrom_tools.Tftf.Common.Append.{Sealing}
use bootrom_tools.Tftf.Common.AddSection.{
  IsTable, tftf_add_section_refuses_iff, tftf_add_section_appends,
}
use bootrom_tools.Tftf.Common.Signable.{tftf_get_signable_region-tftf_add_section}
use bootrom_tools.Tftf.Validate.{
  good, invalid, collision, valid_tftf_header, valid_tftf_section, scan_sections, valid_tftf_type,
  no_collision, contains_start,
}
use bootrom_tools.Util.Fill.{is_constant_fill}
use bootrom_tools.Tftf.Validate.Whole.{IsWellFormed, valid_tftf_header_iff}

abbrev section_bytes : Section → List ℕ
section_bytes s =
    s.section_type % 256
      ∷ s.section_class % 256
      ∷ s.section_class / 2 ^ 8 % 256
      ∷ s.section_class / 2 ^ 16 % 256
      ∷ bytes_of s.section_id
    ++ bytes_of s.section_length
    ++ bytes_of s.section_load_address
    ++ bytes_of s.section_expanded_length

abbrev pub tftf : Format
tftf = record {
  section_raw_code = 1;
  section_raw_data = 2;
  section_manifest = 5;
  section_signature = 0x80;
  section_certificate = 0x81;
  section_end = 0xfe;
  data_address_to_be_ignored = 0xffffffff;
  tftf_sentinel = b'T' ∷ b'F' ∷ b'T' ∷ b'F' ∷ [];
  header_size_min = 512;
  header_size_max = 32768;
  header_size_default = 512;
  calc_max_sections = λ header_size. (header_size - 120) / 20;
  sections_offset = 120;
  section_size = 20;
  section_bytes = section_bytes;
  timestamp_size = 16;
  package_name_size = 48;
}

abbrev section : ℕ → ℕ → ℕ → Section
section type len address = record {
  section_type = type;
  section_class = 0;
  section_id = 1;
  section_length = len;
  section_load_address = address;
  section_expanded_length = len;
}

abbrev code : Section
code = section 1 3 0x10000000

abbrev end_marker : Section
end_marker = section 0xfe 0 0

abbrev empty : Section
empty = record {
  section_type = 0;
  section_class = 0;
  section_id = 0;
  section_length = 0;
  section_load_address = 0;
  section_expanded_length = 0;
}

abbrev header_with : List Section → Header
header_with sections = record {
  sentinel_value = b'T' ∷ b'F' ∷ b'T' ∷ b'F' ∷ [];
  build_timestamp = [];
  firmware_package_name = [];
  header_size = 512;
  package_type = 0;
  start_location = 0x10000001;
  unipro_mid = 0;
  unipro_pid = 0;
  ara_vid = 0;
  ara_pid = 0;
  sections = sections;
  padding = replicate 12 0;
}

abbrev image : Header
image = header_with (code ∷ end_marker ∷ replicate 17 empty)

abbrev blob : Blob
blob = record { header = image; payload = 7 ∷ 8 ∷ 9 ∷ [] }

image-IsTable : IsTable tftf 19 image
unfolding live
image-IsTable = record {
  slots = refl;
  terminated = omega arith;
  minimum = omega arith;
  word = omega arith;
}

valid_tftf_header_example : (valid_tftf_header tftf 19 image ≡ good) ↔ IsWellFormed tftf 19 image
valid_tftf_header_example = valid_tftf_header_iff tftf 19 image (unfold live in ground arith)

image_valid : valid_tftf_header tftf 19 image ≡ good
unfolding valid_tftf_header scan_sections valid_tftf_section valid_tftf_type no_collision
    contains_start is_constant_fill bytes_of
image_valid = refl

refuses_example :
    (tftf_add_section tftf 19 true (some blob) 0x80 0 1 0xffffffff none 2 ≡ some (false, some blob))
    ↔ ((19 ≤ length (live tftf image.sections) + 2)
        ⊎ (Any (Sealing tftf) (live tftf image.sections) × (0x80 < 0x80)))
refuses_example =
    tftf_add_section_refuses_iff tftf 19 true blob 0x80 0 1 0xffffffff none 2 image-IsTable

abbrev two_bytes : List ℕ
two_bytes = 1 ∷ 2 ∷ []

appends_example :
    (b : Blob) × (tftf_add_section tftf 19 true (some blob) 0x80 0 1 0xffffffff (some two_bytes) 2
      ≡ some (true, some b))
    × (live tftf b.header.sections
        ≡ live tftf image.sections ++ (described tftf 0x80 0 1 0xffffffff 2 ∷ []))
    × (b.payload ≡ blob.payload ++ two_bytes)
    × (length b.payload ≡ tftf_payload_size tftf b.header)
    × (length b.header.sections ≡ 19)
appends_example =
    tftf_add_section_appends tftf 19 blob 0x80 0 1 0xffffffff two_bytes image-IsTable
      (unfold live in omega arith) (omega arith) (inl (omega arith)) (omega arith)
      (unfold tftf_payload_size payload_from in refl)

signable_example :
    (b : Blob) × (tftf_add_section tftf 19 true (some blob) 0x80 0 1 0xffffffff (some two_bytes) 2
      ≡ some (true, some b))
    × (tftf_get_signable_region tftf b.header ≡ tftf_get_signable_region tftf image)
signable_example =
    tftf_get_signable_region-tftf_add_section tftf 19 blob 0x80 0 1 0xffffffff two_bytes
      (omega arith) image-IsTable (unfold live in omega arith) (omega arith) (omega arith)
      (omega arith) (unfold tftf_payload_size payload_from in refl)

-- A system of no files, and a cache that holds one section from a buffer.
abbrev no_files : System
no_files = record { FileName = ℕ; stat = λ f. none; read = λ f n. none }

abbrev code_entry : Entry no_files
code_entry = record { filename = none; blob = some (7 ∷ 8 ∷ 9 ∷ []); section = code }

abbrev empty_entry : Entry no_files
empty_entry = record { filename = none; blob = none; section = empty }

abbrev one_cached : Cache no_files
one_cached = record {
  entries = code_entry ∷ empty_entry ∷ [];
  current_section = 1;
  section_iterator = 0;
  section_window_open = false;
  section_load_address = 0x10000003;
}

code_entry-IsLoadable : IsLoadable no_files tftf code_entry
unfolding contents
code_entry-IsLoadable = record {
  complete = refl;
  size = refl;
  nonempty = omega arith;
  kind = omega arith;
}

new_tftf_example :
    (b : Blob) × (new_tftf no_files tftf true [] 512
        (entries_size no_files one_cached)
        none
        0
        0
        0
        0
        0
        0
        one_cached
      ≡ some (some b))
    × (live tftf b.header.sections ≡ descriptors no_files tftf (code_entry ∷ []))
    × (b.payload ≡ flat_bytes (payload_of no_files tftf) (code_entry ∷ []))
    × (b.header.header_size ≡ 512)
unfolding entries_size
new_tftf_example =
    new_tftf-loads no_files tftf [] 512 none 0 0 0 0 0 0 one_cached (omega arith) (omega arith)
      (omega arith) (code_entry-IsLoadable, tt) (omega arith) (omega arith) (omega arith)

abbrev open_on_first : Cache no_files
open_on_first = record one_cached { current_section = 0; section_window_open = true }

contiguous_example :
    (c' : Cache no_files) × (d : Entry no_files) × (e' : Entry no_files) × (entry_open no_files 2
        none
        (entry_set_blob no_files true (1 ∷ 2 ∷ []) open_on_first).1
      ≡ some (true, c'))
    × (c'.current_section ≡ 1)
    × (get_elem? c'.entries 0 ≡ some d)
    × (d.blob ≡ some (1 ∷ 2 ∷ []))
    × (d.section.section_length ≡ 2)
    × (d.section.section_load_address ≡ 0x10000000)
    × (get_elem? c'.entries 1 ≡ some e')
    × (e'.section.section_type ≡ 2)
    × (e'.blob ≡ none)
    × (e'.section.section_load_address ≡ 0x10000002)
contiguous_example =
    entry_open-entry_set_blob no_files (1 ∷ 2 ∷ []) 2 none open_on_first code_entry refl refl
      (omega arith)
