-- ===== src/Tftf/Common.antt =====
-- src/common/tftf_common.c: blobs, payload sizes, collisions, the signable region, and appending
-- a section. Whether `malloc` succeeds is an argument of what calls it. A pointer that may be null
-- is an option; the pointers of the other functions are not null.
pub mod Append
pub mod AddSection
pub mod Signable
use bootrom_tools.Base.{
  ℕ, zero, suc, ◌+◌, ◌-◌, ◌*◌, ◌%◌, ◌^◌, Bool, true, false, ◌&&◌, ◌||◌, not, List, [], ◌∷◌, ◌++◌,
  Option, none, some, ltb, leb, ◌==◌, if◌then◌else◌, length, get_elem?, set, take, replicate,
}
use bootrom_tools.Util.Overlap.{regions_overlap}
use bootrom_tools.Tftf.{Format, Section, Header, Blob}

-- The parts of the header and of the payload that are signed.
pub record Region : Type 0 where
  pub hdr_length : ℕ
  pub scn_length : ℕ

module _ (fmt : Format) where
  -- The sum in `size_t`, which the slots of one header cannot fill.
  unfoldable pub payload_from : ℕ → List Section → ℕ
  payload_from size [] = size
  payload_from size (s ∷ ss) =
      let later = payload_from (size + s.section_length) ss in
      if s.section_type == fmt.section_end then size else later

  unfoldable pub tftf_payload_size : Header → ℕ
  tftf_payload_size tftf_hdr = payload_from 0 tftf_hdr.sections

  -- The sweep from `index` on, which stops at the end marker: the table must have one. `self` is the index of the section, which is skipped.
  unfoldable pub sweep : Section → ℕ → ℕ → List Section → List ℕ → List ℕ
  sweep section self index [] collisions = collisions
  sweep section self index (sweeper ∷ rest) collisions =
      let hit =
        not (index == self)
        && (not (sweeper.section_load_address == fmt.data_address_to_be_ignored)
            && regions_overlap section.section_load_address section.section_length
                sweeper.section_load_address sweeper.section_length) in
      let later =
        sweep section self (suc index) rest
          (if hit then collisions ++ (index ∷ []) else collisions) in
      if sweeper.section_type == fmt.section_end then collisions else later

  unfoldable pub tftf_section_collisions : Option Header → Section → ℕ → List ℕ
  tftf_section_collisions none section self = []
  tftf_section_collisions (some tftf_hdr) section self =
      if section.section_load_address == fmt.data_address_to_be_ignored
      then []
      else sweep section self 0 tftf_hdr.sections []

  -- The loop with the index of the descriptor that it stands at. The source bounds it only by the
  -- type of the sections, which the end marker ends too.
  unfoldable pub signable_from : ℕ → Region → List Section → Region
  signable_from index region [] = region
  signable_from index region (s ∷ ss) =
      let later =
        signable_from (suc index)
          (record {
            hdr_length = fmt.sections_offset + index * fmt.section_size + fmt.section_size;
            scn_length = region.scn_length + s.section_length;
          })
          ss in
      if ltb s.section_type fmt.section_signature then later else region

  unfoldable pub tftf_get_signable_region : Header → Region
  tftf_get_signable_region tftf_hdr =
      signable_from 0 (record { hdr_length = 0; scn_length = 0 }) tftf_hdr.sections

  -- The header stays and the payload behind it grows, by the data or by zeros.
  unfoldable pub append_to_tftf_blob : Bool → Blob → Option (List ℕ) → ℕ → Option Blob
  append_to_tftf_blob malloc_succeeds blob extra extra_size =
      if malloc_succeeds
      then (let kept = take (tftf_payload_size blob.header) blob.payload in
          elim extra [
            | some bytes ↦ some (record blob { payload = kept ++ take extra_size bytes })
            | none ↦ some (record blob { payload = kept ++ replicate extra_size 0 })
          ])
      else none

  -- The index of the end marker, and whether a signature or certificate stands before it.
  unfoldable pub find_end : ℕ → Bool → List Section → ℕ × Bool
  find_end i restricted [] = (i, restricted)
  find_end i restricted (s ∷ ss) =
      let later = find_end (suc i) (leb fmt.section_signature s.section_type || restricted) ss in
      if s.section_type == fmt.section_end then (i, restricted) else later

  -- The descriptor that `tftf_add_section` writes: both lengths are the length of the data.
  abbrev pub described : ℕ → ℕ → ℕ → ℕ → ℕ → Section
  described type class id load_address len = record {
    section_type = type;
    section_class = class;
    section_id = id;
    section_length = len % 2 ^ 32;
    section_load_address = load_address;
    section_expanded_length = len % 2 ^ 32;
  }

  -- The end marker goes to the next slot and the section into its place; `none` is an access past
  -- the table.
  abbrev pub insert_at : List Section → ℕ → Section → Option (List Section)
  insert_at table i new = elim (get_elem? table i) [
    | none ↦ none
    | some end_marker ↦ elim (get_elem? table (i + 1)) [
      | none ↦ none
      | some _ ↦ some (set (set table (i + 1) end_marker) i new)
    ]
  ]

  -- Success, and what the caller's pointer refers to; `none` is an access past the table.
  -- `max_sections` is the global `tftf_max_sections`, `int` and `uint32_t` compared as the latter.
  unfoldable pub tftf_add_section :
      ℕ → Bool → Option Blob → ℕ → ℕ → ℕ → ℕ → Option (List ℕ) → ℕ → Option (Bool × Option Blob)
  tftf_add_section max malloc_succeeds none type class id load_address bytes len =
      some (false, none)
  tftf_add_section max malloc_succeeds (some blob) type class id load_address bytes len =
      let (i, restricted) = find_end 0 false (take max blob.header.sections) in
      if leb ((max + 2 ^ 32 - 2) % 2 ^ 32) i
      then some (false, some blob)
      else if restricted && ltb type fmt.section_signature
      then some (false, some blob)
      else elim (append_to_tftf_blob malloc_succeeds blob bytes len) [
        | none ↦ some (true, some blob)
        | some b ↦ elim (insert_at b.header.sections i (described type class id load_address len)) [
          | none ↦ none
          | some table ↦
              some (true, some (record b { header = record (b.header) { sections = table } }))
        ]
      ]
