-- ===== src/Ffff/Cache.antt =====
-- src/common/ffff_in.c: the cache of elements that the command line builds, a static array with
-- a cursor, an iterator and a flag.
pub mod Inv
pub mod Check
use bootrom_tools.Base.{
  ℕ, zero, suc, ◌+◌, ◌-◌, ◌*◌, ◌%◌, ◌^◌, Bool, true, false, ◌&&◌, ◌||◌, not, List, [], ◌∷◌, Option,
  none, some, ltb, leb, ◌==◌, if◌then◌else◌, length, get_elem?, set, take,
}
use bootrom_tools.Files.{System, size_file}
use bootrom_tools.Util.Boundary.{block_aligned, next_boundary}
use bootrom_tools.Ffff.{Element}

module _ (sys : System) where
  -- `element_cache_entry`; a null file name is `none`.
  pub record Entry : Type 0 where
    pub filename : Option sys.FileName
    pub element : Element

  -- The four static variables. `countof` is the length of the array.
  pub record Cache : Type 0 where
    pub entries : List Entry
    pub current_element : ℕ
    pub element_iterator : ℕ
    pub element_window_open : Bool

  abbrev pub countof : Cache → ℕ
  countof c = length c.entries

  unfoldable pub entry_close : Cache → Cache
  entry_close c =
      if c.element_window_open
      then record c {
        current_element =
            if ltb c.current_element (countof c) then c.current_element + 1 else c.current_element;
        element_window_open = false;
      }
      else c

  -- A change of the entry under the cursor; `none` is an access past the array.
  unfoldable pub update_current : Cache → (Entry → Entry) → Option Cache
  update_current c f = elim (get_elem? c.entries c.current_element) [
    | none ↦ none
    | some e ↦ some (record c { entries = set c.entries c.current_element (f e) })
  ]

  abbrev pub opened : ℕ → Option sys.FileName → Entry → Entry
  opened element_type none e = record e {
    element = record (e.element) { element_type = element_type };
  }
  opened element_type (some name) e = record {
    filename = some name;
    element = record (e.element) {
      element_type = element_type;
      element_length = size_file sys name;
    };
  }

  -- The status is true for 0 and false for -1.
  unfoldable pub entry_open : ℕ → Option sys.FileName → Cache → Option (Bool × Cache)
  unfolding entry_close update_current
  entry_open element_type filename c =
      if ltb c.current_element (countof c)
      then elim (update_current (record (entry_close c) { element_window_open = true })
          (opened element_type filename)) [ none ↦ none | some c' ↦ some (true, c') ]
      else some (false, c)

  -- The five setters of one field differ in the field alone.
  abbrev pub entry_set : (Element → Element) → Cache → Bool × Cache
  entry_set f c =
      if c.element_window_open && ltb c.current_element (countof c)
      then elim (update_current c (λ e. record e { element = f e.element })) [
        | none ↦ (false, c)
        | some c' ↦ (true, c')
      ]
      else (false, c)

  unfoldable pub entry_set_class : ℕ → Cache → Bool × Cache
  unfolding update_current
  entry_set_class v = entry_set (λ e. record e { element_class = v })

  unfoldable pub entry_set_id : ℕ → Cache → Bool × Cache
  unfolding update_current
  entry_set_id v = entry_set (λ e. record e { element_id = v })

  unfoldable pub entry_set_length : ℕ → Cache → Bool × Cache
  unfolding update_current
  entry_set_length v = entry_set (λ e. record e { element_length = v })

  unfoldable pub entry_set_location : ℕ → Cache → Bool × Cache
  unfolding update_current
  entry_set_location v = entry_set (λ e. record e { element_location = v })

  unfoldable pub entry_set_generation : ℕ → Cache → Bool × Cache
  unfolding update_current
  entry_set_generation v = entry_set (λ e. record e { element_generation = v })

  unfoldable pub init_iterator : Cache → Cache
  init_iterator c = record c { element_iterator = 2 ^ 32 - 1 }

  unfoldable pub entry_count : Cache → ℕ
  entry_count c = c.current_element

  unfoldable pub sum_lengths : List Entry → ℕ
  sum_lengths [] = 0
  sum_lengths (e ∷ es) = e.element.element_length + sum_lengths es

  -- The total is kept in a 64-bit integer, which 2^32 lengths below 2^32 do not fill.
  unfoldable pub entries_size : Cache → ℕ
  unfolding sum_lengths
  entries_size c = sum_lengths (take c.current_element c.entries)

  unfoldable pub valid_locations : ℕ → ℕ → ℕ → List Entry → Bool
  valid_locations lower_limit erase_block_length image_length [] = true
  valid_locations lower_limit erase_block_length image_length (e ∷ es) =
      if not (block_aligned e.element.element_location erase_block_length)
      then false
      else if ltb e.element.element_location lower_limit
          || leb image_length e.element.element_location
      then false
      else valid_locations lower_limit erase_block_length image_length es

  unfoldable pub validate_locations : ℕ → ℕ → ℕ → Cache → Bool
  unfolding valid_locations
  validate_locations header_size erase_block_length image_length c =
      let lower_limit = 2 * next_boundary header_size erase_block_length % 2 ^ 32 in
      valid_locations lower_limit erase_block_length image_length (take c.current_element c.entries)
