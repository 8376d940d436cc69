-- ===== src/CreateFfff.antt =====
-- src/create-ffff/create-ffff.c: the program's variables, and the functions that its options call.
pub mod Table
pub mod Main
use bootrom_tools.Base.{
  ℕ, Bool, true, false, ◌||◌, List, [], ◌∷◌, Option, none, some, ◌==◌, if◌then◌else◌, codes,
}
use bootrom_tools.Files.{System}
use bootrom_tools.Ffff.{Format}
use bootrom_tools.Options.{get_num}
use bootrom_tools.CreateTftf.{is_in}
use bootrom_tools.Ffff.Cache.{
  Cache, entry_open, entry_close, entry_set_class, entry_set_id, entry_set_length,
  entry_set_location, entry_set_generation,
}

-- The tags of the options that keep an element open.
abbrev pub element_args : List ℕ
element_args = codes "23icdCIGOL"

module _ (sys : System) where
  -- The global variables that the program reads, and the element cache. The callbacks of the
  -- elements leave the other variables of the table as they are.
  pub record State : Type 0 where
    pub flash_capacity : ℕ
    pub erase_block_size : ℕ
    pub image_length : ℕ
    pub generation : ℕ
    pub output_filename : Option (List ℕ)
    pub header_size : ℕ
    pub name : Option (List ℕ)
    pub element_class : ℕ
    pub element_id : ℕ
    pub element_generation : ℕ
    pub element_location : ℕ
    pub element_length : ℕ
    pub verbose_flag : ℕ
    pub map_flag : ℕ
    pub cache : Cache sys

  abbrev pub with_cache : State → Bool × Cache sys → Option (Bool × State)
  with_cache s (success, c) = some (success, record s { cache = c })

  module _ (fmt : Format) (strtoul : List ℕ → ℕ × List ℕ) (file_name : List ℕ → sys.FileName) where
    -- The type that an option opens.
    abbrev pub element_type_of : ℕ → Option ℕ
    element_type_of option =
        if option == b'2'
        then some fmt.element_stage_2_fw
        else if option == b'3'
        then some fmt.element_stage_3_fw
        else if option == b'i'
        then some fmt.element_ims_cert
        else if option == b'c'
        then some fmt.element_cms_cert
        else if option == b'd'
        then some fmt.element_data
        else none

    -- `none` is an access past the array of elements.
    unfoldable pub handle_element : ℕ → List ℕ → State → Option (Bool × State)
    unfolding entry_open
    handle_element option optarg s = elim (element_type_of option) [
      | none ↦ some (false, s)
      | some type ↦ elim (entry_open sys type (some (file_name optarg)) s.cache) [
        | none ↦ none
        | some result ↦ with_cache s result
      ]
    ]

    -- A number that is stored in the element that is open.
    abbrev pub set_number :
        (ℕ → Cache sys → Bool × Cache sys) → List ℕ → State → Option (Bool × State)
    set_number set optarg s =
        let (success, num) = get_num State strtoul optarg in
        if success then with_cache s (set num s.cache) else some (false, s)

    unfoldable pub handle_element_class : List ℕ → State → Option (Bool × State)
    unfolding entry_set_class
    handle_element_class optarg s = set_number (entry_set_class sys) optarg s

    unfoldable pub handle_element_id : List ℕ → State → Option (Bool × State)
    unfolding entry_set_id
    handle_element_id optarg s = set_number (entry_set_id sys) optarg s

    unfoldable pub handle_element_length : List ℕ → State → Option (Bool × State)
    unfolding entry_set_length
    handle_element_length optarg s = set_number (entry_set_length sys) optarg s

    unfoldable pub handle_element_location : List ℕ → State → Option (Bool × State)
    unfolding entry_set_location
    handle_element_location optarg s = set_number (entry_set_location sys) optarg s

    unfoldable pub handle_element_generation : List ℕ → State → Option (Bool × State)
    unfolding entry_set_generation
    handle_element_generation optarg s = set_number (entry_set_generation sys) optarg s

    unfoldable pub close_element_if_needed : ℕ → State → State
    unfolding entry_close
    close_element_if_needed option s =
        if is_in option element_args then s else record s { cache = entry_close sys s.cache }
