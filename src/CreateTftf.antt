-- ===== src/CreateTftf.antt =====
-- src/create-tftf/create-tftf.c: the program's variables and the functions that its options call.
-- An option's argument is a text; `file_name` gives the file that a text names.
pub mod Table
pub mod Order
pub mod Sound
pub mod Handlers
pub mod Setters
pub mod Reach
pub mod Output
pub mod Main
use bootrom_tools.Base.{
  ℕ, ◌+◌, ◌-◌, ◌%◌, ◌^◌, Bool, true, false, ◌&&◌, ◌||◌, not, List, [], ◌∷◌, Option, none, some, ltb,
  ◌==◌, if◌then◌else◌, codes,
}
use bootrom_tools.Files.{System}
use bootrom_tools.Util.Boundary.{is_power_of_2}
use bootrom_tools.Tftf.{Format}
use bootrom_tools.Ffff
use bootrom_tools.Options.{ParseEntry, token_not_found, kw_to_token, get_num}
use bootrom_tools.Tftf.Cache.{
  Cache, entry_open, entry_close, entry_set_class, entry_set_id, entry_set_load_address,
}

-- The element types of parse_support.c, which are the package types too.
abbrev pub element_types : Ffff.Format → List ParseEntry
element_types ffff =
    record { string = codes "s2fw"; value = ffff.element_stage_2_fw }
    ∷ record { string = codes "s3fw"; value = ffff.element_stage_3_fw }
    ∷ record { string = codes "icert"; value = ffff.element_ims_cert }
    ∷ record { string = codes "ccert"; value = ffff.element_cms_cert }
    ∷ record { string = codes "data"; value = ffff.element_data }
    ∷ record { string = codes "end"; value = ffff.element_end }
    ∷ []

-- Success, and the new `*type`.
unfoldable pub get_type : Ffff.Format → List ℕ → Bool × ℕ
get_type ffff type_name =
    let type = kw_to_token type_name (element_types ffff) in (not (type == token_not_found), type)

-- The tags of the options that keep a section open.
abbrev pub section_args : List ℕ
section_args = codes "ECDMGRcil"

abbrev pub is_in : ℕ → List ℕ → Bool
is_in option [] = false
is_in option (c ∷ args) = (c == option) || is_in option args

module _ (sys : System) where
  -- The global variables and the section cache.
  pub record State : Type 0 where
    pub output_filename : Option (List ℕ)
    pub output_dir : Option (List ℕ)
    pub header_size : ℕ
    pub fw_pkg_name : Option (List ℕ)
    pub package_type : ℕ
    pub start_location : ℕ
    pub unipro_mfg : ℕ
    pub unipro_pid : ℕ
    pub ara_vid : ℕ
    pub ara_pid : ℕ
    pub elf_name : Option (List ℕ)
    pub s2lcfg_name : Option (List ℕ)
    pub start_sym_name : Option (List ℕ)
    pub verbose_flag : ℕ
    pub map_flag : ℕ
    pub hamming_balance_flag : ℕ
    pub restricted_address : Bool
    pub code_data_blocked : Bool
    pub code_data_while_blocked : Bool
    pub cache : Cache sys

  -- The state behind a call of the cache.
  abbrev pub with_cache : State → Bool × Cache sys → Option (Bool × State)
  with_cache s (success, c) = some (success, record s { cache = c })

  module _ (fmt : Format) (ffff : Ffff.Format) (strtoul : List ℕ → ℕ × List ℕ)
      (file_name : List ℕ → sys.FileName) where
    unfoldable pub handle_header_size : List ℕ → State → Bool × State
    handle_header_size optarg s =
        let (success, header_size) = get_num State strtoul optarg in
        let s' = record s { header_size = header_size } in
        if ltb header_size fmt.header_size_min
          || (ltb fmt.header_size_max header_size || not (is_power_of_2 header_size))
        then (false, s')
        else if not (header_size % 4 == 0)
        then (false, s')
        else (success, s')

    unfoldable pub handle_header_type : List ℕ → State → Bool × State
    handle_header_type optarg s =
        let (success, type) = get_type ffff optarg in (success, record s { package_type = type })

    -- Here and below `none` is an access past the array of sections.
    abbrev pub open_section : ℕ → List ℕ → State → Option (Bool × State)
    open_section type optarg s = elim (entry_open sys type (some (file_name optarg)) s.cache) [
      | none ↦ none
      | some result ↦ with_cache s result
    ]

    -- Code and data.
    unfoldable pub open_unless_blocked : ℕ → List ℕ → State → Option (Bool × State)
    unfolding entry_open entry_close
    open_unless_blocked type optarg s =
        if s.code_data_blocked
        then some (false, record s { code_data_while_blocked = true })
        else open_section type optarg s

    abbrev pub blocked : State → State
    blocked s = record s { restricted_address = true; code_data_blocked = true }

    -- Signature and certificate.
    unfoldable pub open_restricted : ℕ → List ℕ → State → Option (Bool × State)
    unfolding entry_open entry_close entry_set_load_address
    open_restricted type optarg s = elim (open_section type optarg s) [
      | none ↦ none
      | some (false, s') ↦ some (false, blocked s')
      | some (true, s') ↦
          with_cache (blocked s')
            (entry_set_load_address sys fmt.data_address_to_be_ignored s'.cache)
    ]

    unfoldable pub open_manifest : List ℕ → State → Option (Bool × State)
    unfolding entry_open entry_close
    open_manifest optarg s = open_section fmt.section_manifest optarg s

    unfoldable pub handle_section_normal : ℕ → List ℕ → State → Option (Bool × State)
    unfolding open_unless_blocked open_restricted open_manifest
    handle_section_normal option optarg s =
        let s' = record s { restricted_address = false } in
        if option == b'C'
        then open_unless_blocked fmt.section_raw_code optarg s'
        else if option == b'D'
        then open_unless_blocked fmt.section_raw_data optarg s'
        else if option == b'G'
        then open_restricted fmt.section_signature optarg s'
        else if option == b'R'
        then open_restricted fmt.section_certificate optarg s'
        else if option == b'M'
        then open_manifest optarg s'
        else some (false, s')

    -- A number that is stored in the section that is open.
    abbrev pub set_number :
        (ℕ → Cache sys → Bool × Cache sys) → List ℕ → State → Option (Bool × State)
    set_number set optarg s =
        let (success, num) = get_num State strtoul optarg in
        if success then with_cache s (set num s.cache) else some (false, s)

    unfoldable pub handle_section_class : List ℕ → State → Option (Bool × State)
    unfolding entry_set_class
    handle_section_class optarg s = set_number (entry_set_class sys) optarg s

    unfoldable pub handle_section_id : List ℕ → State → Option (Bool × State)
    unfolding entry_set_id
    handle_section_id optarg s = set_number (entry_set_id sys) optarg s

    unfoldable pub handle_section_load_address : List ℕ → State → Option (Bool × State)
    unfolding entry_set_load_address
    handle_section_load_address optarg s =
        if s.restricted_address
        then some (false, s)
        else set_number (entry_set_load_address sys) optarg s

    unfoldable pub close_section_if_needed : ℕ → State → Option State
    unfolding entry_close
    close_section_if_needed option s =
        if is_in option section_args then some s else elim (entry_close sys s.cache) [
          | none ↦ none
          | some c ↦ some (record s { restricted_address = false; cache = c })
        ]
