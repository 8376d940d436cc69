-- ===== src/CreateTftf/Main/Parsed.antt =====
-- `main` of create-tftf behind the parse of its options.
use bootrom_tools.Base.{
  ℕ, ◌≡◌, refl, ◌∙◌, Bool, true, false, List, Option, none, some, if◌then◌else◌,
}
use bootrom_tools.Files.{System}
use bootrom_tools.Ffff
use bootrom_tools.Options.{Event, Parser}
use bootrom_tools.Tftf.{Format, Header}
use bootrom_tools.Tftf.Elf.{Elf, load_elf}
use bootrom_tools.Tftf.Cache.{Entry, Cache}
use bootrom_tools.CreateTftf.{State}
use bootrom_tools.CreateTftf.Output.{Disk}
use bootrom_tools.CreateTftf.Main.{
  V, Run, initial, parse_command_line, build_image, named_file, load_and_build, main,
  program_errors,
}

module _ (sys : System) (fmt : Format) (ffff : Ffff.Format) (strtoul : List ℕ → ℕ × List ℕ)
    (file_name : List ℕ → sys.FileName) where
  module _ (header_bytes : Header → List ℕ) (disk : Disk) (malloc_succeeds : Bool)
      (now : List ℕ) where
    module _ (elf_begin : sys.FileName → Option Elf) (stack : List ℕ) where
      abbrev pub loaded : State sys → Option (Bool × ℕ × Cache sys)
      loaded s =
          load_elf sys fmt elf_begin malloc_succeeds stack
            (named_file sys fmt ffff strtoul file_name header_bytes disk malloc_succeeds now
              s.elf_name)
            s.start_location s.start_sym_name
            (named_file sys fmt ffff strtoul file_name header_bytes disk malloc_succeeds now
              s.s2lcfg_name)
            s.cache

      pub load_and_build-loaded :
          (status : ℕ) (s : State sys) (r : Option (Bool × ℕ × Cache sys))
          → loaded s ≡ r
          → load_and_build sys fmt ffff strtoul file_name header_bytes disk malloc_succeeds now
              elf_begin stack status s
            ≡ elim r [
              | none ↦ none
              | some (false, start_location, c) ↦ some (status, none)
              | some (true, start_location, c) ↦
                  build_image sys fmt ffff strtoul file_name header_bytes disk malloc_succeeds now
                    status
                    (record s { start_location = start_location; cache = c })
            ]
      unfolding load_and_build
      load_and_build-loaded status s r e = rw (load_and_build, e) refl

      loaded_nothing :
          (s : State sys) → s.elf_name ≡ none → loaded s ≡ some (false, s.start_location, s.cache)
      unfolding load_elf
      loaded_nothing s e = rw (loaded, e) refl

      -- The exit status behind the parse.
      abbrev pub parse_status : Parser (V sys fmt ffff strtoul file_name) → ℕ
      parse_status p = if p.success then 0 else if p.parser_help then 0 else program_errors

      abbrev pub run :
          List (Entry sys)
          → List (Event (V sys fmt ffff strtoul file_name))
          → Option (Run sys fmt ffff strtoul file_name)
      run =
          main sys fmt ffff strtoul file_name header_bytes disk malloc_succeeds now elf_begin stack

      abbrev pub parse :
          List (Entry sys)
          → List (Event (V sys fmt ffff strtoul file_name))
          → Option (Parser (V sys fmt ffff strtoul file_name))
      parse entries events =
          parse_command_line sys fmt ffff strtoul file_name events
            (initial sys fmt ffff strtoul file_name entries)

      pub main-parsed :
          (entries : List (Entry sys)) (events : List (Event (V sys fmt ffff strtoul file_name)))
          (p : Parser (V sys fmt ffff strtoul file_name)) (v : Option (State sys))
          → parse entries events ≡ some p
          → p.vars ≡ v
          → run entries events ≡ elim v [
            | none ↦ none
            | some s ↦
                load_and_build sys fmt ffff strtoul file_name header_bytes disk malloc_succeeds now
                  elf_begin stack
                  (parse_status p)
                  s
          ]
      unfolding main
      main-parsed entries events p v h e = rw (main, h, e) refl

      pub main-fault :
          (entries : List (Entry sys)) (events : List (Event (V sys fmt ffff strtoul file_name)))
          → parse entries events ≡ none
          → run entries events ≡ none
      unfolding main
      main-fault entries events h = rw (main, h) refl

      -- Without `--elf` the program writes no file, whatever its other options are; its exit status
      -- is 0 if the options were parsed.
      pub main-no_elf :
          (entries : List (Entry sys)) (events : List (Event (V sys fmt ffff strtoul file_name)))
          (p : Parser (V sys fmt ffff strtoul file_name)) (s : State sys)
          → parse entries events ≡ some p
          → p.vars ≡ some s
          → s.elf_name ≡ none
          → run entries events ≡ some (parse_status p, none)
      main-no_elf entries events p s h v e =
          main-parsed entries events p (some s) h v
          ∙ load_and_build-loaded (parse_status p) s _ (loaded_nothing s e)
