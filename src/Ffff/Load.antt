-- ===== src/Ffff/Load.antt =====
-- src/common/ffff_in.c: the walk over the cache that sizes and loads the elements, and the size
-- check that precedes it.
pub mod Size
use bootrom_tools.Base.{
  ℕ, zero, suc, ◌+◌, ◌-◌, ◌*◌, ◌%◌, ◌^◌, Bool, true, false, ◌&&◌, ◌||◌, not, List, [], ◌∷◌, ◌++◌,
  Option, none, some, ltb, leb, ◌==◌, if◌then◌else◌, length, get_elem?, set, take, drop,
}
use bootrom_tools.Files.{System, load_file, store}
use bootrom_tools.Ffff.{Format, Element}
use bootrom_tools.Ffff.Cache.{Entry, Cache, init_iterator}

-- What the walk returns: -1, 0 and 1.
pub data Status : Type 0 where
  error end_of_list stored : Status

module _ (sys : System) where
  abbrev pub advanced : Cache sys → Cache sys
  advanced c = record c { element_iterator = (c.element_iterator + 1) % 2 ^ 32 }

  -- The entry that the iterator has come to.
  unfoldable pub entry_at_iterator : Cache sys → Option (Entry sys)
  entry_at_iterator c =
      if ltb c.element_iterator c.current_element
      then get_elem? c.entries c.element_iterator
      else none

  -- `element_cache_get_next_entry_size` never sets its status.
  pub get_next_entry_size : Cache sys → ℕ → Status × Cache sys × ℕ
  unfolding entry_at_iterator
  get_next_entry_size c total_size = elim (entry_at_iterator (advanced c)) [
    | none ↦ (error, advanced c, total_size)
    | some e ↦ (error, advanced c, (total_size + e.element.element_length) % 2 ^ 64)
  ]

  -- The loop's condition reads an element that nothing has set, once the status is positive:
  -- `none` is that read.
  pub content_size : ℕ → Cache sys → Option ℕ
  unfolding get_next_entry_size init_iterator
  content_size header_size c =
      let (status, c', total_size) =
        get_next_entry_size (init_iterator sys c) (2 * header_size % 2 ^ 32) in
      elim status [ stored ↦ none | _ ↦ some total_size ]

  unfoldable pub check_ffff_romimage_size : ℕ → ℕ → ℕ → Cache sys → Option Bool
  unfolding content_size
  check_ffff_romimage_size flash_capacity image_length header_size c =
      elim (content_size header_size c) [
        | none ↦ none
        | some total_size ↦ some (
            if ltb flash_capacity total_size
            then false
            else if ltb image_length total_size
            then false
            else true)
      ]

  -- The payload goes to the element's location; a missing file name cannot be opened.
  unfoldable pub load_entry : Entry sys → List ℕ → Option (Bool × List ℕ)
  load_entry e buffer = elim e.filename [
    | none ↦ some (false, buffer)
    | some name ↦
        let (bytes, success) = load_file sys name e.element.element_length in
        elim (store buffer e.element.element_location bytes) [
          | none ↦ none
          | some buffer' ↦ some (success, buffer')
        ]
  ]

  -- The status, the cache, the descriptor if it was written, and the buffer; `none` is a write
  -- past the buffer.
  pub get_next_entry : Cache sys → List ℕ → Option (Status × Cache sys × Option Element × List ℕ)
  unfolding entry_at_iterator load_entry
  get_next_entry c buffer = elim (entry_at_iterator (advanced c)) [
    | none ↦ some (end_of_list, advanced c, none, buffer)
    | some e ↦
        if ltb (length buffer) e.element.element_length
        then some (error, advanced c, none, buffer)
        else elim (load_entry e buffer) [
          | none ↦ none
          | some (success, buffer') ↦
              some (if success then stored else error, advanced c, some e.element, buffer')
        ]
  ]
