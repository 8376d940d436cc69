-- ===== src/CreateTftf/Main/Accepted.antt =====
-- When create-tftf writes a file.
use bootrom_tools.Base.{ℕ, ◌≡◌, Bool, true, false, List, Option, none, some}
use bootrom_tools.Files.{System}
use bootrom_tools.Ffff
use bootrom_tools.Options.{Event, Parser}
use bootrom_tools.Tftf.{Format, Header}
use bootrom_tools.Tftf.Elf.{Elf, load_elf}
use bootrom_tools.Tftf.Cache.{Entry, Cache}
use bootrom_tools.CreateTftf.{State}
use bootrom_tools.CreateTftf.Output.{Disk}
use bootrom_tools.CreateTftf.Main.{V, initial, parse_command_line, named_file, load_and_build, main}
use bootrom_tools.CreateTftf.Main.Parsed.{parse_status, loaded, load_and_build-loaded}
use bootrom_tools.CreateTftf.Main.Built.{IsAccepted, build, IsWritten}

module _ (sys : System) (fmt : Format) (ffff : Ffff.Format) (strtoul : List ℕ → ℕ × List ℕ)
    (file_name : List ℕ → sys.FileName) where
  module _ (header_bytes : Header → List ℕ) (disk : Disk) (malloc_succeeds : Bool)
      (now : List ℕ) where
    module _ (elf_begin : sys.FileName → Option Elf) (stack : List ℕ) (entries : List (Entry sys))
        (events : List (Event (V sys fmt ffff strtoul file_name))) where
      abbrev status_of : Parser (V sys fmt ffff strtoul file_name) → ℕ
      status_of =
          parse_status sys fmt ffff strtoul file_name header_bytes disk malloc_succeeds now
            elf_begin stack

      built :
          (status : ℕ) (s : State sys) (r : Option (Bool × ℕ × Cache sys))
          → loaded sys fmt ffff strtoul file_name header_bytes disk malloc_succeeds now elf_begin
              stack s
            ≡ r
          → load_and_build sys fmt ffff strtoul file_name header_bytes disk malloc_succeeds now
              elf_begin stack status s
            ≡ elim r [
              | none ↦ none
              | some (false, start_location, c) ↦ some (status, none)
              | some (true, start_location, c) ↦
                  build sys fmt ffff strtoul file_name header_bytes disk malloc_succeeds now status
                    (record s { start_location = start_location; cache = c })
            ]
      built =
          load_and_build-loaded sys fmt ffff strtoul file_name header_bytes disk malloc_succeeds now
            elf_begin stack

      -- The parser leaves a state, and the sections of the ELF file are added to it.
      pub record IsLoaded (parser : Parser (V sys fmt ffff strtoul file_name)) (s : State sys)
          : Type 0 where
        pub left : State sys
        pub start_location : ℕ
        pub cache : Cache sys
        pub parsed :
            parse_command_line sys fmt ffff strtoul file_name events
              (initial sys fmt ffff strtoul file_name entries)
            ≡ some parser
        pub vars : parser.vars ≡ some left
        pub loaded :
            load_elf sys fmt elf_begin malloc_succeeds stack
              (named_file sys fmt ffff strtoul file_name header_bytes disk malloc_succeeds now
                left.elf_name)
              left.start_location
              left.start_sym_name
              (named_file sys fmt ffff strtoul file_name header_bytes disk malloc_succeeds now
                left.s2lcfg_name)
              left.cache
            ≡ some (true, start_location, cache)
        pub same : s ≡ record left { start_location = start_location; cache = cache }

      module _ (status : ℕ) (name bytes : List ℕ) where
        abbrev Writes : Type 0
        Writes =
            main sys fmt ffff strtoul file_name header_bytes disk malloc_succeeds now elf_begin
              stack entries events
            ≡ some (status, some (name, bytes))

        abbrev Accepted : Type 0
        Accepted =
            (p : Parser (V sys fmt ffff strtoul file_name)) × (s : State sys) × (s' : State sys)
            × IsLoaded p s
            × IsAccepted sys fmt ffff strtoul file_name header_bytes disk malloc_succeeds now s s'
            × IsWritten sys fmt ffff strtoul file_name header_bytes disk malloc_succeeds now s' name
                bytes
            × (status ≡ status_of p)
