-- ===== src/Tests/CreateTftf.antt =====
-- src/create-tftf/create-tftf.c at concrete command lines.
pub mod Image
pub mod Parts
use bootrom_tools.Base.{
  ℕ, ◌+◌, ◌*◌, ◌≤◌, ◌<◌, ◌≡◌, ◌⊎◌, refl, inl, inr, Bool, true, false, List, [], ◌∷◌, ◌++◌, All, Any,
  Option, none, some, arith, codes, take, length, replicate, ltb, leb, if◌then◌else◌, ◌==◌,
  same_bytes,
}
use bootrom_tools.Files.{System, size_file}
use bootrom_tools.Options.{
  Event, seen, Parser, new_argparse, secondary_opts, secondary_names, put_opts, parse_args,
  parse_loop, parse_event, dispatch, process, matching, init_optx, call, apply_defaults, store_str,
  none_missing, kw_to_token,
}
use bootrom_tools.Tftf.{Section}
use bootrom_tools.Tftf.Cache.{Entry}
use bootrom_tools.Tftf.Cache.Abstract.{abstraction, all_of}
use bootrom_tools.Tftf.Build.{zero_section}
use bootrom_tools.CreateTftf.{State, get_type}
use bootrom_tools.CreateTftf.Table.{parse_table, preprocess}
use bootrom_tools.CreateTftf.Order.{HasDistinctTypes, IsOrdered, types_of, IsUnplaced}
use bootrom_tools.CreateTftf.Main.{V, Run, initial, parse_command_line, main}
use bootrom_tools.Files.{size_file, load_file, store}
use bootrom_tools.Tftf.Common.{payload_from, tftf_payload_size}
use bootrom_tools.Tftf.Build.{new_tftf_blob, fill}
use bootrom_tools.Tftf.Cache.{
  get_next_entry, init_iterator, entry_at_iterator, contents, sum_expanded,
}
use bootrom_tools.Tftf.Elf.{
  elf_getscn_byname, elf_add_section_cache_entry, load_sections, Elf, Scn, Shdr,
}
use bootrom_tools.CreateTftf.Output.{Disk}
use bootrom_tools.CreateTftf.Main.Sections.{
  parse_command_line-IsOrdered, parse_command_line-IsUnplaced,
}
use bootrom_tools.Tests.Tftf.{tftf}
use bootrom_tools.Tests.Ffff.{ffff}

abbrev pub three_bytes : System
three_bytes = record {
  FileName = List ℕ;
  stat = λ name. some 3;
  read = λ name n. some (take n (7 ∷ 8 ∷ 9 ∷ []));
}

abbrev tftf_distinct : HasDistinctTypes tftf
tftf_distinct = record {
  code_signature = λ e. omega arith;
  code_certificate = λ e. omega arith;
  data_signature = λ e. omega arith;
  data_certificate = λ e. omega arith;
  manifest_signature = λ e. omega arith;
  manifest_certificate = λ e. omega arith;
  manifest_code = λ e. omega arith;
  manifest_data = λ e. omega arith;
}

-- Every number is 16.
abbrev pub sixteen : List ℕ → ℕ × List ℕ
sixteen text = (16, [])

abbrev blank : Entry three_bytes
blank = record { filename = none; blob = none; section = zero_section }

abbrev pub blanks : List (Entry three_bytes)
blanks = replicate 4 blank

abbrev pub Variables : Type 0
Variables = V three_bytes tftf ffff sixteen (λ text. text)

abbrev pub start : State three_bytes
start = initial three_bytes tftf ffff sixteen (λ text. text) blanks

unfoldable pub parse : List (Event Variables) → Option (Parser Variables)
unfolding parse_command_line new_argparse secondary_opts parse_table secondary_names put_opts
    parse_args parse_loop parse_event dispatch process matching init_optx call preprocess
    apply_defaults
parse events = parse_command_line three_bytes tftf ffff sixteen (λ text. text) events start

abbrev pub from_command_line : List (Event Variables) → Option (Parser Variables)
from_command_line events =
    parse_command_line three_bytes tftf ffff sixteen (λ text. text) events start

abbrev pub parser_of : Option (Parser Variables) → Parser Variables
parser_of none = record {
  optx = [];
  vars = none;
  success = false;
  parser_help = false;
  parser_invalid_arg = false;
}
parser_of (some p) = p

abbrev pub state_of : Option (State three_bytes) → State three_bytes
state_of none = start
state_of (some s) = s

-- A manifest, a signature, and code, which is refused.
abbrev refused_events : List (Event Variables)
refused_events =
    seen b't' (some 1) (codes "s2fw")
    ∷ seen b'M' (some 13) (codes "m")
    ∷ seen b'G' (some 14) (codes "s")
    ∷ seen b'C' (some 11) (codes "c")
    ∷ []

abbrev refused : Option (Parser Variables)
refused = parse refused_events

refused_run : from_command_line refused_events ≡ some (parser_of refused)
unfolding parse
refused_run = refl

abbrev refused_state : State three_bytes
refused_state = state_of (parser_of refused).vars

refused_vars : (parser_of refused).vars ≡ some refused_state
unfolding parse
refused_vars = refl

ordered_example :
    IsOrdered tftf (types_of tftf three_bytes (abstraction three_bytes refused_state.cache))
ordered_example =
    parse_command_line-IsOrdered three_bytes tftf ffff sixteen (λ text. text) tftf_distinct blanks
      refused_events (parser_of refused) refused_state refused_run refused_vars

-- Code, and a signature, whose address is asked for and refused.
abbrev pub placed_events : List (Event Variables)
placed_events =
    seen b't' (some 1) (codes "s2fw")
    ∷ seen b'C' (some 11) (codes "c")
    ∷ seen b'G' (some 14) (codes "s")
    ∷ seen b'l' (some 18) (codes "16")
    ∷ []

abbrev pub placed : Option (Parser Variables)
placed = parse placed_events

abbrev pub placed_state : State three_bytes
placed_state = state_of (parser_of placed).vars

pub placed_run : from_command_line placed_events ≡ some (parser_of placed)
unfolding parse
placed_run = refl

pub placed_vars : (parser_of placed).vars ≡ some placed_state
unfolding parse
placed_vars = refl

placed_free : placed_state.code_data_while_blocked ≡ false
unfolding parse
placed_free = refl

unplaced_example :
    All
      (IsUnplaced tftf three_bytes)
      (all_of three_bytes (abstraction three_bytes placed_state.cache))
unplaced_example =
    parse_command_line-IsUnplaced three_bytes tftf ffff sixteen (λ text. text) tftf_distinct blanks
      placed_events (parser_of placed) placed_state placed_run placed_vars placed_free

-- Two sections are in the cache.
placed_count : length (all_of three_bytes (abstraction three_bytes placed_state.cache)) ≡ 2
unfolding parse
placed_count = refl
