-- ===== src/Tests/CreateTftf/Image.antt =====
-- What src/create-tftf/create-tftf.c writes at concrete command lines.
use bootrom_tools.Base.{ℕ, ◌≡◌, refl, true, false, List, [], ◌∷◌, Option, none, some, codes, length}
use bootrom_tools.Files.{size_file}
use bootrom_tools.Options.{Event, seen, store_str, none_missing, kw_to_token}
use bootrom_tools.CreateTftf.{get_type}
use bootrom_tools.CreateTftf.Main.{Run, main}
use bootrom_tools.Files.{size_file, load_file, store}
use bootrom_tools.Tftf.Common.{payload_from, tftf_payload_size}
use bootrom_tools.Tftf.Build.{new_tftf_blob, fill}
use bootrom_tools.Tftf.Cache.{
  get_next_entry, init_iterator, entry_at_iterator, contents, sum_expanded,
}
use bootrom_tools.Tftf.Elf.{elf_getscn_byname, elf_add_section_cache_entry, load_sections, Elf}
use bootrom_tools.CreateTftf.Output.{Disk}
use bootrom_tools.CreateTftf.Main.Parsed.{parse_status, main-no_elf}
use bootrom_tools.Tests.Tftf.{tftf}
use bootrom_tools.Tests.Ffff.{ffff}
use bootrom_tools.Tests.CreateTftf.{
  three_bytes, sixteen, blanks, Variables, parse, parser_of, placed_events, placed, placed_state,
  placed_run, placed_vars,
}

abbrev disk : Disk
disk = record {
  is_dir = λ name. false;
  strdup = λ name. true;
  dirname = λ name. b'.' ∷ [];
  create = λ name. true;
  write = λ name bytes. length bytes;
}

-- A file whose only section is three bytes of code.
abbrev elf : Elf
elf = record {
  scns =
      record { header = none; section_name = none; elf_data = none; symbols = [] }
      ∷ record {
        header = some (record { is_symtab = false; sh_size = 3; sh_addr = 0x1000; sh_entsize = 1 });
        section_name = some (codes ".text");
        elf_data = some (7 ∷ 8 ∷ 9 ∷ []);
        symbols = [];
      }
      ∷ [];
  e_entry = some 0x1001;
}

abbrev run : List (Event Variables) → Option (Run three_bytes tftf ffff sixteen (λ text. text))
run =
    main three_bytes tftf ffff sixteen (λ text. text) (λ h. h.sentinel_value) disk true []
      (λ name. some elf) [] blanks

placed_elf : placed_state.elf_name ≡ none
unfolding parse
placed_elf = refl

no_elf_example :
    run placed_events
    ≡ some (
      parse_status three_bytes tftf ffff sixteen
          (λ text. text)
          (λ h. h.sentinel_value)
          disk
          true
          []
          (λ name. some elf)
          []
          (parser_of placed),
      none,
    )
no_elf_example =
    main-no_elf three_bytes tftf ffff sixteen (λ text. text) (λ h. h.sentinel_value) disk true []
      (λ name. some elf) [] blanks placed_events (parser_of placed) placed_state placed_run
      placed_vars placed_elf

-- An ELF file behind a signature.
abbrev elf_events : List (Event Variables)
elf_events =
    seen b't' (some 1) (codes "s2fw")
    ∷ seen b'G' (some 14) (codes "s")
    ∷ seen b'E' (some 9) (codes "e")
    ∷ seen b'o' (some 19) (codes "out")
    ∷ []

abbrev out : List ℕ
out = b'o' ∷ b'u' ∷ b't' ∷ []

abbrev image : List ℕ
image = b'T' ∷ b'F' ∷ b'T' ∷ b'F' ∷ 7 ∷ 8 ∷ 9 ∷ 7 ∷ 8 ∷ 9 ∷ []

built : Option (Run three_bytes tftf ffff sixteen (λ text. text))
unfolding parse none_missing get_type kw_to_token main store_str elf_getscn_byname
    elf_add_section_cache_entry load_sections new_tftf_blob fill get_next_entry init_iterator
    entry_at_iterator contents store size_file load_file payload_from tftf_payload_size sum_expanded
built = run elf_events

built_run : built ≡ some (0, some (out, image))
unfolding built
built_run = refl

main_run : run elf_events ≡ some (0, some (out, image))
unfolding built
main_run = refl
