-- ===== src/Tftf/Build.antt =====
-- src/common/tftf_common.c: `new_tftf_blob`; src/common/tftf_in.c: `new_tftf`.
pub mod Loaded
pub mod Cached
use bootrom_tools.Base.{
  ℕ, zero, suc, ◌+◌, ◌-◌, ◌*◌, ◌/◌, ◌%◌, ◌^◌, Bool, true, false, ◌&&◌, List, [], ◌∷◌, Option, none,
  some, ltb, if◌then◌else◌, length, replicate,
}
use bootrom_tools.Files.{System}
use bootrom_tools.Util.Text.{safer_strncpy, buffer_or_empty}
use bootrom_tools.Tftf.{Format, Section, Header, Blob}
use bootrom_tools.Tftf.Cache.{
  Cache, Status, error, end_of_list, stored, Walk, init_iterator, get_next_entry,
}

-- A descriptor of zero bytes.
abbrev pub zero_section : Section
zero_section = record {
  section_type = 0;
  section_class = 0;
  section_id = 0;
  section_length = 0;
  section_load_address = 0;
  section_expanded_length = 0;
}

-- How the loop over the cache ends: an access out of bounds; a failure, after which the blob is
-- freed; or the table and the payload.
pub data Outcome : Type 0 where
  fault : Outcome
  failed : Outcome
  built : List Section → List ℕ → Outcome

abbrev pub within : Section → Outcome → Outcome
within s fault = fault
within s failed = failed
within s (built table payload) = built (s ∷ table) payload

module _ (sys : System) (fmt : Format) where
  -- A blob of zeros but for the sentinel and the header size. The table has the whole slots of the
  -- header, whose size is at least that of the fixed part.
  abbrev pub zeroed : ℕ → ℕ → Blob
  zeroed header_size payload_size = record {
    header = record {
      sentinel_value = fmt.tftf_sentinel;
      build_timestamp = replicate fmt.timestamp_size 0;
      firmware_package_name = replicate fmt.package_name_size 0;
      header_size = header_size;
      package_type = 0;
      start_location = 0;
      unipro_mid = 0;
      unipro_pid = 0;
      ara_vid = 0;
      ara_pid = 0;
      sections = replicate ((header_size - fmt.sections_offset) / fmt.section_size) zero_section;
      padding = replicate ((header_size - fmt.sections_offset) % fmt.section_size) 0;
    };
    payload = replicate payload_size 0;
  }

  -- The sum of the two lengths in `uint32_t`.
  abbrev pub blob_length : ℕ → ℕ → ℕ
  blob_length header_size payload_size = (header_size + payload_size) % 2 ^ 32

  -- What there is behind the header. Where the sum wraps the blob ends within it.
  unfoldable pub new_tftf_blob : Bool → ℕ → ℕ → Option Blob
  new_tftf_blob malloc_succeeds header_size payload_size =
      if malloc_succeeds
      then some (zeroed header_size (blob_length header_size payload_size - header_size))
      else none

  -- After the loop: the end marker goes to the slot that the pointer has come to.
  abbrev pub finish : List Section → List ℕ → Outcome
  finish [] payload = fault
  finish (next ∷ slots) payload =
      built (record next { section_type = fmt.section_end } ∷ slots) payload

  -- The do-while loop from the slot with the given index on, over the slots that are left. Past
  -- the last whole slot only a walk that writes no descriptor stays in bounds.
  unfoldable pub fill : ℕ → ℕ → List Section → Walk sys → Outcome
  fill header_size index [] w = elim (get_next_entry sys w) [
    | some (error, none, _) ↦ failed
    | _ ↦ fault
  ]
  fill header_size index (slot ∷ slots) w = elim (get_next_entry sys w) [
    | none ↦ fault
    | some (status, descriptor, w') ↦
        let here : Section = elim descriptor [ none ↦ slot | some s ↦ s ] in
        let later = fill header_size (suc index) slots w' in
        let room =
          ltb w'.position (length w'.buffer)
          && ltb (fmt.sections_offset + suc index * fmt.section_size) header_size in
        elim status [
          | stored ↦ within here (if room then later else finish slots w'.buffer)
          | end_of_list ↦ within here (finish slots w'.buffer)
          | error ↦ failed
        ]
  ]

  -- The rest of the header, and the table and payload of the loop. `set_timestamp` writes the
  -- bytes `now`; the package name keeps its terminator.
  abbrev pub completed :
      List ℕ → Option (List ℕ) → ℕ → ℕ → ℕ → ℕ → ℕ → ℕ → Blob → List Section → List ℕ → Blob
  completed now name type start mid pid vid ara_pid b table payload = record {
    header = record (b.header) {
      build_timestamp = now;
      firmware_package_name = elim name [
        | none ↦ b.header.firmware_package_name
        | some text ↦
            buffer_or_empty
              (safer_strncpy (some b.header.firmware_package_name) fmt.package_name_size (some text)
                fmt.package_name_size).1
      ];
      package_type = type;
      start_location = start;
      unipro_mid = mid;
      unipro_pid = pid;
      ara_vid = vid;
      ara_pid = ara_pid;
      sections = table;
    };
    payload = payload;
  }

  -- A blob that ends within its header is accessed past its end.
  unfoldable pub new_tftf :
      Bool
      → List ℕ
      → ℕ
      → ℕ
      → Option (List ℕ)
      → ℕ
      → ℕ
      → ℕ
      → ℕ
      → ℕ
      → ℕ
      → Cache sys
      → Option (Option Blob)
  new_tftf malloc_succeeds now header_size payload_size name type start mid pid vid ara_pid c =
      elim (new_tftf_blob malloc_succeeds header_size payload_size) [
        | none ↦ some none
        | some b ↦
            if ltb (blob_length header_size payload_size) header_size
            then none
            else (let start_walk : Walk sys = record {
              cache = init_iterator sys c;
              buffer = b.payload;
              position = 0;
            } in
                elim (fill header_size 0 b.header.sections start_walk) [
                  | fault ↦ none
                  | failed ↦ some none
                  | built table payload ↦
                      some
                        (some (completed now name type start mid pid vid ara_pid b table payload))
                ])
      ]
