-- ===== src/Ffff/Image/Build.antt =====
-- src/common/ffff_in.c: `new_ffff_romimage`. The first header lies at the start of the blob that
-- the elements are loaded into, so the table is read and written there.
pub mod Copies
pub mod Slots
pub mod Payload
pub mod Loaded
pub mod Fills
pub mod Succeeds
pub mod Elements
pub mod Total
pub mod Ends
use bootrom_tools.Base.{
  ℕ, zero, suc, ◌+◌, ◌-◌, ◌*◌, ◌%◌, ◌^◌, Bool, true, false, List, Option, none, some, ltb, leb,
  ◌==◌, if◌then◌else◌, length, take, drop, replicate,
}
use bootrom_tools.Files.{System, store}
use bootrom_tools.Util.Text.{safer_strcpy, buffer_or_empty}
use bootrom_tools.Util.Boundary.{next_boundary}
use bootrom_tools.Ffff.{Format, Element}
use bootrom_tools.Ffff.Cache.{Entry, Cache, init_iterator}
use bootrom_tools.Ffff.Load.{
  Status, error, end_of_list, stored, advanced, entry_at_iterator, load_entry,
}
use bootrom_tools.Ffff.Image.{Romimage, new_ffff}

-- Where `ffff.h` puts the fields of a header: the bytes before the table, from the time stamp, the
-- name's buffer and the five numbers, the table's offset, and the type in the bytes of a
-- descriptor.
pub record Layout : Type 0 where
  pub start_bytes : List ℕ → List ℕ → ℕ → ℕ → ℕ → ℕ → ℕ → List ℕ
  pub name_size : ℕ
  pub elements_offset : ℕ
  pub element_size : ℕ
  pub type_of : List ℕ → ℕ
  pub with_type : ℕ → List ℕ → List ℕ

-- How the loop ends: an access out of bounds, the end of the fuel, or the last status and the blob.
pub data Outcome : Type 0 where
  fault : Outcome
  no_fuel : Outcome
  filled : Status → List ℕ → Outcome

-- The second header is null where the boundary is 0, and then nothing is copied.
unfoldable pub copy_header : ℕ → List ℕ → Option (List ℕ)
copy_header header_blob_length blob =
    if leb header_blob_length (length blob)
    then store blob header_blob_length (take header_blob_length blob)
    else none

module _ (sys : System) (fmt : Format) (layout : Layout) where
  abbrev pub slot_at : ℕ → ℕ
  slot_at i = layout.elements_offset + i * layout.element_size

  -- The bytes of a descriptor; `none` is a read past the blob.
  abbrev pub slot_bytes : List ℕ → ℕ → Option (List ℕ)
  slot_bytes blob i =
      if leb (slot_at i + layout.element_size) (length blob)
      then some (take layout.element_size (drop (slot_at i) blob))
      else none

  -- The end marker goes to a slot, whose other fields stay.
  unfoldable pub mark_end : List ℕ → ℕ → Option (List ℕ)
  mark_end blob i = elim (slot_bytes blob i) [
    | none ↦ none
    | some bytes ↦ store blob (slot_at i) (layout.with_type fmt.element_end bytes)
  ]

  -- `element_cache_get_next_entry` with the descriptor's pointer into the blob: it is written
  -- before the payload is loaded.
  unfoldable pub next_into : ℕ → Cache sys → List ℕ → Option (Status × List ℕ)
  next_into slot c blob = elim (entry_at_iterator sys (advanced sys c)) [
    | none ↦ some (end_of_list, blob)
    | some e ↦
        if ltb (length blob) e.element.element_length
        then some (error, blob)
        else elim (store blob (slot_at slot) (fmt.element_bytes e.element)) [
          | none ↦ none
          | some described ↦ elim (load_entry sys e described) [
            | none ↦ none
            | some (success, loaded) ↦ some (if success then stored else error, loaded)
          ]
        ]
  ]

  -- The pointer behind the descriptor, unless that is the end marker, and the new end marker.
  unfoldable pub next_slot : ℕ → List ℕ → Option (ℕ × List ℕ)
  unfolding mark_end
  next_slot slot blob = elim (slot_bytes blob slot) [
    | none ↦ none
    | some bytes ↦
        if layout.type_of bytes == fmt.element_end
        then some (slot, blob)
        else elim (mark_end blob (suc slot)) [ none ↦ none | some b ↦ some (suc slot, b) ]
  ]

  -- The do-while loop. `max` is the global `ffff_max_elements`.
  unfoldable pub add_elements : ℕ → ℕ → ℕ → Cache sys → List ℕ → Outcome
  add_elements zero max slot c blob = no_fuel
  add_elements (suc fuel) max slot c blob = elim (next_into slot c blob) [
    | none ↦ fault
    | some (status, loaded) ↦ elim (next_slot slot loaded) [
      | none ↦ fault
      | some (slot', marked) ↦
          let later = add_elements fuel max slot' (advanced sys c) marked in
          elim status [
            | stored ↦ if ltb slot' max then later else filled stored marked
            | error ↦ filled error marked
            | end_of_list ↦ filled end_of_list marked
          ]
    ]
  ]

  -- What follows the loop: the tail sentinel, and the copy.
  unfoldable pub finish_headers : ℕ → ℕ → List ℕ → Option (List ℕ)
  unfolding copy_header
  finish_headers header_size header_blob_length blob =
      elim (store blob ((header_size + 2 ^ 32 - length fmt.ffff_sentinel_value) % 2 ^ 32)
        fmt.ffff_sentinel_value) [ none ↦ none | some b ↦ copy_header header_blob_length b ]

  abbrev pub outcome : ℕ → ℕ → Romimage → Outcome → Option (Option Romimage)
  outcome header_size header_blob_length r fault = none
  outcome header_size header_blob_length r no_fuel = none
  outcome header_size header_blob_length r (filled status blob) =
      elim (finish_headers header_size header_blob_length blob) [
        | none ↦ none
        | some b ↦ elim status [ error ↦ some none | _ ↦ some (some (record r { blob = b })) ]
      ]

  -- `none` is an access out of bounds or through the null name; two more than the number of cached
  -- elements is enough fuel.
  unfoldable pub new_ffff_romimage :
      Bool → List ℕ → ℕ → Option (List ℕ) → ℕ → ℕ → ℕ → ℕ → ℕ → Cache sys → Option (Option Romimage)
  unfolding mark_end add_elements finish_headers
  new_ffff_romimage malloc_succeeds now max name capacity erase_block_size image_length generation
        header_size c =
      elim (new_ffff malloc_succeeds image_length header_size erase_block_size) [
        | none ↦ some none
        | some r ↦ elim name [
          | none ↦ none
          | some text ↦
              let named =
                buffer_or_empty
                  (safer_strcpy (some (replicate layout.name_size 0)) layout.name_size
                    (some text)).1 in
              let start =
                layout.start_bytes now named capacity erase_block_size header_size image_length
                  generation in
              elim (store r.blob 0 start) [
                | none ↦ none
                | some started ↦ elim (mark_end started 0) [
                  | none ↦ none
                  | some marked ↦
                      outcome header_size (next_boundary header_size erase_block_size) r
                        (add_elements (c.current_element + 2) max 0 (init_iterator sys c) marked)
                ]
              ]
        ]
      ]
