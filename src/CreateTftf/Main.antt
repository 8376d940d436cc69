-- ===== src/CreateTftf/Main.antt =====
-- What the program does around its options: `validate_args` and `main`.
pub mod Valid
pub mod Written
pub mod Parsed
pub mod Built
pub mod Accepted
pub mod Sections
use bootrom_tools.Base.{
  ℕ, zero, suc, ◌+◌, ◌-◌, ◌/◌, ◌%◌, ◌^◌, Bool, true, false, ◌&&◌, ◌||◌, not, List, [], ◌∷◌, ◌++◌,
  Option, none, some, ltb, ◌==◌, if◌then◌else◌, codes, length, take, drop, replicate,
}
use bootrom_tools.Files.{System}
use bootrom_tools.Util.Text.{c_string, strncpy}
use bootrom_tools.Util.Hamming.{balance_vidpid}
use bootrom_tools.Tftf.{Format, Header, Blob}
use bootrom_tools.Tftf.Common.{tftf_payload_size}
use bootrom_tools.Tftf.Cache.{Entry, Cache, entry_close, entry_count, entries_size}
use bootrom_tools.Tftf.Build.{new_tftf}
use bootrom_tools.Tftf.Elf.{Elf, load_elf}
use bootrom_tools.Ffff
use bootrom_tools.Options.{Event, Parser, new_argparse, parse_args}
use bootrom_tools.CreateTftf.{State}
use bootrom_tools.CreateTftf.Output.{join, hex_digits, Disk, write_tftf_file}
use bootrom_tools.CreateTftf.Table.{Vars, parse_table, preprocess}

abbrev pub program_errors : ℕ
program_errors = 2

unfoldable pub boot_stage : Ffff.Format → ℕ → ℕ
boot_stage ffff package_type =
    if package_type == ffff.element_stage_2_fw
    then 2
    else if package_type == ffff.element_stage_3_fw
    then 3
    else 2 ^ 32 - 1

-- `%02x` of the three values.
abbrev pub stage_digits : ℕ → List ℕ
stage_digits n = if ltb n 256 then hex_digits 2 n else hex_digits 8 n

module _ (sys : System) (fmt : Format) (ffff : Ffff.Format) (strtoul : List ℕ → ℕ × List ℕ)
    (file_name : List ℕ → sys.FileName) where
  abbrev pub default_name : State sys → List ℕ
  default_name s =
      codes "ara_"
      ++ (hex_digits 8 s.unipro_mfg
          ++ (b'_' ∷ hex_digits 8 s.unipro_pid
              ++ (b'_' ∷ hex_digits 8 s.ara_vid
                  ++ (b'_' ∷ hex_digits 8 s.ara_pid
                      ++ (b'_' ∷ stage_digits (boot_stage ffff s.package_type) ++ codes ".tftf")))))

  abbrev pub chosen_name : State sys → List ℕ
  chosen_name s = elim s.output_filename [ none ↦ default_name s | some name ↦ name ]

  -- The name in the output directory. The static buffer is empty before, and what `join` returns
  -- is not looked at.
  unfoldable pub output_path : State sys → Option (List ℕ)
  unfolding join boot_stage
  output_path s = elim s.output_dir [
    | none ↦ some (chosen_name s)
    | some dir ↦ elim (join (replicate 1024 0) dir (chosen_name s)) [
      | none ↦ none
      | some (success, path) ↦ some path
    ]
  ]

  -- Both ids; the second only if the first is good.
  unfoldable pub balance_ids : State sys → Bool × State sys
  unfolding balance_vidpid
  balance_ids s =
      let (vid, vid_good) = balance_vidpid s.ara_vid in
      let (pid, pid_good) = balance_vidpid s.ara_pid in
      if vid_good
      then (pid_good, record s { ara_vid = vid; ara_pid = pid })
      else (false, record s { ara_vid = vid })

  unfoldable pub validate_args : State sys → Option (Bool × State sys)
  unfolding output_path balance_ids entry_count
  validate_args s =
      let num_sections = entry_count sys s.cache in
      if num_sections == 0
      then some (false, s)
      else if ltb (fmt.calc_max_sections s.header_size) num_sections
      then some (false, s)
      else elim (output_path s) [
        | none ↦ none
        | some path ↦
            let named = record s { output_filename = some path } in
            if s.hamming_balance_flag == 0 then some (true, named) else some (balance_ids named)
      ]

  -- The global variables before `main`, with the array of sections.
  abbrev pub initial : List (Entry sys) → State sys
  initial entries = record {
    output_filename = none;
    output_dir = none;
    header_size = fmt.header_size_default;
    fw_pkg_name = none;
    package_type = ffff.element_stage_3_fw;
    start_location = 0;
    unipro_mfg = 0;
    unipro_pid = 0;
    ara_vid = 0;
    ara_pid = 0;
    elf_name = none;
    s2lcfg_name = none;
    start_sym_name = none;
    verbose_flag = 0;
    map_flag = 0;
    hamming_balance_flag = 1;
    restricted_address = false;
    code_data_blocked = false;
    code_data_while_blocked = false;
    cache = record {
      entries = entries;
      current_section = 0;
      section_iterator = 0;
      section_window_open = false;
      section_load_address = 0;
    };
  }

  abbrev pub V : Type 0
  V = Vars sys fmt ffff strtoul file_name

  -- The two calls of the parser, over what getopt returns; `none` is a write past the table.
  unfoldable pub parse_command_line : List (Event V) → State sys → Option (Parser V)
  parse_command_line events s = elim (new_argparse V (parse_table sys fmt ffff strtoul file_name)) [
    | none ↦ none
    | some (optx, opts) ↦ some (
        parse_args V (length opts - suc (length optx))
          (some (preprocess sys fmt ffff strtoul file_name)) events
          (record {
            optx = optx;
            vars = some s;
            success = true;
            parser_help = false;
            parser_invalid_arg = false;
          }))
  ]

  -- `main` behind `load_elf`: the exit status so far, the map and the listing left out. The status,
  -- and the name of the file and the bytes in it, if one is written.
  abbrev pub Run : Type 0
  Run = ℕ × Option (List ℕ × List ℕ)

  module _ (header_bytes : Header → List ℕ) (disk : Disk) (malloc_succeeds : Bool)
      (now : List ℕ) where
    unfoldable pub write_image : ℕ → State sys → Option Run
    unfolding new_tftf entries_size write_tftf_file
    write_image program_status s = elim s.output_filename [
      | none ↦ none
      | some name ↦
          elim (new_tftf sys fmt malloc_succeeds now s.header_size (entries_size sys s.cache)
            s.fw_pkg_name s.package_type s.start_location s.unipro_mfg s.unipro_pid s.ara_vid
            s.ara_pid s.cache) [
              | none ↦ none
              | some none ↦ some (program_status, none)
              | some (some blob) ↦
                  let (success, contents) = write_tftf_file header_bytes fmt disk blob name in
                  some (
                    program_status,
                    elim contents [ none ↦ none | some bytes ↦ some (name, bytes) ],
                  )
            ]
    ]

    unfoldable pub build_image : ℕ → State sys → Option Run
    unfolding entry_close validate_args write_image
    build_image program_status s = elim (entry_close sys s.cache) [
      | none ↦ none
      | some c ↦ elim (validate_args (record s { cache = c })) [
        | none ↦ none
        | some (false, s') ↦ some (program_errors, none)
        | some (true, s') ↦ write_image program_status s'
      ]
    ]

    abbrev pub named_file : Option (List ℕ) → Option sys.FileName
    named_file none = none
    named_file (some name) = some (file_name name)

    module _ (elf_begin : sys.FileName → Option Elf) (stack : List ℕ) where
      unfoldable pub load_and_build : ℕ → State sys → Option Run
      unfolding load_elf build_image
      load_and_build program_status s =
          elim (load_elf sys fmt elf_begin malloc_succeeds stack (named_file s.elf_name)
            s.start_location s.start_sym_name (named_file s.s2lcfg_name) s.cache) [
              | none ↦ none
              | some (false, start_location, c) ↦ some (program_status, none)
              | some (true, start_location, c) ↦
                  build_image program_status
                    (record s { start_location = start_location; cache = c })
            ]

      -- `new_argparse` has allocated its table; `none` is an access out of bounds.
      unfoldable pub main : List (Entry sys) → List (Event V) → Option Run
      unfolding parse_command_line load_and_build
      main entries events = elim (parse_command_line events (initial entries)) [
        | none ↦ none
        | some p ↦
            let program_status =
              if p.success then 0 else if p.parser_help then 0 else program_errors in
            elim p.vars [ none ↦ none | some s ↦ load_and_build program_status s ]
      ]
