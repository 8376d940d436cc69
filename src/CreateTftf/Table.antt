-- ===== src/CreateTftf/Table.antt =====
-- The table of options, which src/common/parse_support.c works on.
use bootrom_tools.Base.{ℕ, ◌-◌, ◌^◌, Bool, true, false, List, [], ◌∷◌, Option, none, some, codes}
use bootrom_tools.Files.{System}
use bootrom_tools.Tftf.{Format}
use bootrom_tools.Ffff
use bootrom_tools.Options.{Optionx, given}
use bootrom_tools.Options.Makers.{guarded, hex_option, str_option, section_option, flag_option}
use bootrom_tools.CreateTftf.{
  State, handle_header_size, handle_header_type, handle_section_normal, handle_section_class,
  handle_section_id, handle_section_load_address, close_section_if_needed,
}

module _ (sys : System) (fmt : Format) (ffff : Ffff.Format) (strtoul : List ℕ → ℕ × List ℕ)
    (file_name : List ℕ → sys.FileName) where
  abbrev pub Vars : Type 0
  Vars = Option (State sys)

  abbrev section_normal : ℕ → List ℕ → State sys → Option (Bool × State sys)
  section_normal = handle_section_normal sys fmt ffff strtoul file_name

  unfoldable pub parse_table : List (Optionx Vars)
  unfolding handle_header_size handle_header_type handle_section_normal handle_section_class
      handle_section_id handle_section_load_address
  parse_table =
      record (hex_option (State sys) strtoul b'z' (codes "header-size" ∷ []) fmt.header_size_default
        (λ n s. record s { header_size = n })) {
          callback = some (
              given (λ option optarg.
                guarded (λ s. some (handle_header_size sys fmt ffff strtoul file_name optarg s))));
        }
      ∷ record (hex_option (State sys) strtoul b't' (codes "type" ∷ []) 0
          (λ n s. record s { package_type = n })) {
            has_default = false;
            required = true;
            callback = some (
                given (λ option optarg.
                  guarded
                    (λ s. some (handle_header_type sys fmt ffff strtoul file_name optarg s))));
          }
      ∷ str_option (State sys) strtoul b'n' (codes "name" ∷ [])
          (λ text s. record s { fw_pkg_name = some text })
      ∷ hex_option (State sys) strtoul b's' (codes "start" ∷ []) 0
          (λ n s. record s { start_location = n })
      ∷ hex_option (State sys) strtoul b'u' (codes "unipro-mfg" ∷ []) 0
          (λ n s. record s { unipro_mfg = n })
      ∷ hex_option (State sys) strtoul b'U' (codes "unipro-pid" ∷ []) 0
          (λ n s. record s { unipro_pid = n })
      ∷ hex_option (State sys) strtoul b'a' (codes "ara-vid" ∷ []) 0
          (λ n s. record s { ara_vid = n })
      ∷ hex_option (State sys) strtoul b'A' (codes "ara-pid" ∷ []) 0
          (λ n s. record s { ara_pid = n })
      ∷ str_option (State sys) strtoul b'S' (codes "start-sym" ∷ codes "sym" ∷ [])
          (λ text s. record s { start_sym_name = some text })
      ∷ str_option (State sys) strtoul b'E' (codes "elf" ∷ [])
          (λ text s. record s { elf_name = some text })
      ∷ str_option (State sys) strtoul b'X' (codes "s2lcfg" ∷ [])
          (λ text s. record s { s2lcfg_name = some text })
      ∷ section_option (State sys) strtoul b'C' (codes "code" ∷ []) 0 false section_normal
      ∷ section_option (State sys) strtoul b'D' (codes "data" ∷ []) 0 false section_normal
      ∷ section_option (State sys) strtoul b'M' (codes "manifest" ∷ []) 0 false section_normal
      ∷ section_option (State sys) strtoul b'G' (codes "signature" ∷ []) 0 false section_normal
      ∷ section_option (State sys) strtoul b'R' (codes "certificate" ∷ []) 0 false section_normal
      ∷ section_option (State sys) strtoul b'c' (codes "class" ∷ []) 0 true
          (λ option. handle_section_class sys fmt ffff strtoul file_name)
      ∷ section_option (State sys) strtoul b'i' (codes "id" ∷ []) 0 true
          (λ option. handle_section_id sys fmt ffff strtoul file_name)
      ∷ section_option (State sys) strtoul b'l' (codes "load" ∷ codes "load-address" ∷ [])
          (2 ^ 32 - 1) true (λ option. handle_section_load_address sys fmt ffff strtoul file_name)
      ∷ str_option (State sys) strtoul b'o' (codes "out" ∷ [])
          (λ text s. record s { output_filename = some text })
      ∷ str_option (State sys) strtoul b'O' (codes "outdir" ∷ [])
          (λ text s. record s { output_dir = some text })
      ∷ flag_option (State sys) strtoul b'v' (codes "verbose" ∷ []) true
          (λ n s. record s { verbose_flag = n })
      ∷ flag_option (State sys) strtoul b'm' (codes "map" ∷ []) true
          (λ n s. record s { map_flag = n })
      ∷ flag_option (State sys) strtoul b'H' (codes "no-hamming-balance" ∷ []) false
          (λ n s. record s { hamming_balance_flag = n })
      ∷ []

  -- The function that the parser calls before it looks an option up.
  unfoldable pub preprocess : ℕ → Vars → Vars
  unfolding close_section_if_needed
  preprocess option none = none
  preprocess option (some s) = close_section_if_needed sys fmt ffff strtoul file_name option s
