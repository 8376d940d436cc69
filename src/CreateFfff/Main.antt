-- ===== src/CreateFfff/Main.antt =====
-- `main` of create-ffff, and write_ffff_file of src/common/ffff_out.c.
pub mod Written
pub mod Accepted
use bootrom_tools.Base.{
  ℕ, suc, ◌-◌, Bool, true, false, not, List, [], ◌∷◌, Option, none, some, ◌==◌, if◌then◌else◌,
  length, take,
}
use bootrom_tools.Files.{System}
use bootrom_tools.Ffff.{Format}
use bootrom_tools.Ffff.Cache.{Entry, entry_close, entry_count, validate_locations}
use bootrom_tools.Ffff.Load.{check_ffff_romimage_size}
use bootrom_tools.Ffff.Image.{Romimage}
use bootrom_tools.Ffff.Image.Build.{Layout, new_ffff_romimage}
use bootrom_tools.Options.{Event, Parser, new_argparse, parse_args}
use bootrom_tools.CreateTftf.Output.{Disk}
use bootrom_tools.CreateFfff.{State}
use bootrom_tools.CreateFfff.Table.{Vars, parse_table, preprocess}

-- Success, and the bytes that were written, if the file could be created.
unfoldable pub write_ffff_file : Disk → Romimage → List ℕ → Bool × Option (List ℕ)
write_ffff_file disk romimage output_filename =
    if disk.create output_filename
    then (
      disk.write output_filename romimage.blob == length romimage.blob,
      some (take (disk.write output_filename romimage.blob) romimage.blob),
    )
    else (false, none)

-- `PROGRAM_ERRORS`
abbrev pub program_errors : ℕ
program_errors = 2

module _ (sys : System) (fmt : Format) (strtoul : List ℕ → ℕ × List ℕ)
    (file_name : List ℕ → sys.FileName) where
  -- The global variables before `main`, with the array of elements.
  abbrev pub initial : List (Entry sys) → State sys
  initial entries = record {
    flash_capacity = 0;
    erase_block_size = 0;
    image_length = 0;
    generation = 0;
    output_filename = none;
    header_size = 0;
    name = none;
    element_class = 0;
    element_id = 0;
    element_generation = 0;
    element_location = 0;
    element_length = 0;
    verbose_flag = 0;
    map_flag = 0;
    cache = record {
      entries = entries;
      current_element = 0;
      element_iterator = 0;
      element_window_open = false;
    };
  }

  abbrev pub V : Type 0
  V = Vars sys fmt strtoul file_name

  -- The two calls of the parser, over what getopt returns; `none` is a write past the table.
  unfoldable pub parse_command_line : List (Event V) → State sys → Option (Parser V)
  parse_command_line events s = elim (new_argparse V (parse_table sys fmt strtoul file_name)) [
    | none ↦ none
    | some (optx, opts) ↦ some (
        parse_args V (length opts - suc (length optx)) (some (preprocess sys fmt strtoul file_name))
          events
          (record {
            optx = optx;
            vars = some s;
            success = true;
            parser_help = false;
            parser_invalid_arg = false;
          }))
  ]

  -- The checks behind the parse, once the open element is closed.
  unfoldable pub valid_args : State sys → Bool
  unfolding entry_count validate_locations
  valid_args s =
      let located =
        validate_locations sys s.header_size s.erase_block_size s.image_length s.cache in
      elim s.output_filename [
        | none ↦ false
        | some name ↦ if entry_count sys s.cache == 0 then false else located
      ]

  -- The exit status, and the name of the file and the bytes in it, if one is written.
  abbrev pub Run : Type 0
  Run = ℕ × Option (List ℕ × List ℕ)

  module _ (layout : Layout) (disk : Disk) (malloc_succeeds : Bool) (now : List ℕ) where
    unfoldable pub build_image : State sys → Option (Option Romimage)
    unfolding new_ffff_romimage
    build_image s =
        new_ffff_romimage sys fmt layout malloc_succeeds now (fmt.calc_max_elements s.header_size)
          s.name s.flash_capacity s.erase_block_size s.image_length s.generation s.header_size
          s.cache

    -- The map and the listing are left out.
    unfoldable pub write_image : ℕ → State sys → Option Run
    unfolding check_ffff_romimage_size build_image write_ffff_file
    write_image program_status s =
        elim (check_ffff_romimage_size sys s.flash_capacity s.image_length s.header_size s.cache) [
          | none ↦ none
          | some false ↦ some (program_status, none)
          | some true ↦ elim (build_image s) [
            | none ↦ none
            | some none ↦ some (program_status, none)
            | some (some romimage) ↦ elim s.output_filename [
              | none ↦ none
              | some name ↦
                  let (success, contents) = write_ffff_file disk romimage name in
                  some (
                    program_status,
                    elim contents [ none ↦ none | some bytes ↦ some (name, bytes) ],
                  )
            ]
          ]
        ]

    -- `new_argparse` has allocated its table; `none` is an access out of bounds.
    unfoldable pub main : List (Entry sys) → List (Event V) → Option Run
    unfolding parse_command_line entry_close valid_args write_image
    main entries events = elim (parse_command_line events (initial entries)) [
      | none ↦ none
      | some p ↦ elim p.vars [
        | none ↦ none
        | some s ↦
            let closed = record s { cache = entry_close sys s.cache } in
            let image = write_image 0 closed in
            if not p.success
            then some (program_errors, none)
            else if valid_args closed
            then image
            else some (program_errors, none)
      ]
    ]
