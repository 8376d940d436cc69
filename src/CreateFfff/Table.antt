-- ===== src/CreateFfff/Table.antt =====
-- The table of options of create-ffff.
use bootrom_tools.Base.{ℕ, Bool, true, false, List, [], ◌∷◌, Option, some, codes}
use bootrom_tools.Files.{System}
use bootrom_tools.Ffff.{Format}
use bootrom_tools.Options.{Optionx}
use bootrom_tools.Options.Makers.{
  update, number, hex_option, str_option, section_option, flag_option,
}
use bootrom_tools.CreateFfff.{
  State, handle_element, handle_element_class, handle_element_id, handle_element_length,
  handle_element_location, handle_element_generation, close_element_if_needed,
}

module _ (sys : System) (fmt : Format) (strtoul : List ℕ → ℕ × List ℕ)
    (file_name : List ℕ → sys.FileName) where
  abbrev pub Vars : Type 0
  Vars = Option (State sys)

  -- An option of an element: a file, whose variable nothing is written to, or a number, whose
  -- variable gets the default.
  abbrev pub file_option : ℕ → List (List ℕ) → Optionx Vars
  file_option short_name long_names =
      section_option (State sys) strtoul short_name long_names 0 false
        (handle_element sys fmt strtoul file_name)

  abbrev pub number_option :
      ℕ
      → List (List ℕ)
      → (ℕ → State sys → State sys)
      → (List ℕ → State sys → Option (Bool × State sys))
      → Optionx Vars
  number_option short_name long_names put handle =
      record (section_option (State sys) strtoul short_name long_names 0 true (λ option. handle)) {
        var_ptr = number (State sys) strtoul put;
      }

  unfoldable pub parse_table : List (Optionx Vars)
  unfolding handle_element handle_element_class handle_element_id handle_element_length
      handle_element_location handle_element_generation
  parse_table =
      hex_option (State sys) strtoul b'f' (codes "flash-capacity" ∷ codes "fc" ∷ []) 0
        (λ n s. record s { flash_capacity = n })
      ∷ hex_option (State sys) strtoul b'e' (codes "erase-size" ∷ codes "ebs" ∷ []) 0
          (λ n s. record s { erase_block_size = n })
      ∷ hex_option (State sys) strtoul b'l' (codes "image-length" ∷ codes "length" ∷ []) 0
          (λ n s. record s { image_length = n })
      ∷ hex_option (State sys) strtoul b'g' (codes "generation" ∷ codes "gen" ∷ []) 0
          (λ n s. record s { generation = n })
      ∷ str_option (State sys) strtoul b'o' (codes "out" ∷ [])
          (λ text s. record s { output_filename = some text })
      ∷ hex_option (State sys) strtoul b'h' (codes "header-size" ∷ []) fmt.header_size_default
          (λ n s. record s { header_size = n })
      ∷ str_option (State sys) strtoul b'n' (codes "name" ∷ [])
          (λ text s. record s { name = some text })
      ∷ file_option b'2' (codes "stage-2-fw" ∷ codes "s2fw" ∷ [])
      ∷ file_option b'3' (codes "stage-3-fw" ∷ codes "s3fw" ∷ [])
      ∷ file_option b'i' (codes "ims" ∷ [])
      ∷ file_option b'c' (codes "cms" ∷ [])
      ∷ file_option b'd' (codes "data" ∷ [])
      ∷ number_option b'C' (codes "element-class" ∷ codes "eclass" ∷ [])
          (λ n s. record s { element_class = n }) (handle_element_class sys fmt strtoul file_name)
      ∷ number_option b'I' (codes "element-id" ∷ codes "eid" ∷ [])
          (λ n s. record s { element_id = n }) (handle_element_id sys fmt strtoul file_name)
      ∷ number_option b'L' (codes "element-length" ∷ codes "elen" ∷ [])
          (λ n s. record s { element_length = n }) (handle_element_length sys fmt strtoul file_name)
      ∷ number_option b'O' (codes "element-location" ∷ codes "eloc" ∷ [])
          (λ n s. record s { element_location = n })
          (handle_element_location sys fmt strtoul file_name)
      ∷ number_option b'G' (codes "element-generation" ∷ codes "egen" ∷ [])
          (λ n s. record s { element_generation = n })
          (handle_element_generation sys fmt strtoul file_name)
      ∷ flag_option (State sys) strtoul b'v' (codes "verbose" ∷ []) true
          (λ n s. record s { verbose_flag = n })
      ∷ flag_option (State sys) strtoul b'm' (codes "map" ∷ []) true
          (λ n s. record s { map_flag = n })
      ∷ []

  -- The function that the parser calls before it looks an option up.
  unfoldable pub preprocess : ℕ → Vars → Vars
  unfolding close_element_if_needed
  preprocess option = update (close_element_if_needed sys fmt strtoul file_name option)
