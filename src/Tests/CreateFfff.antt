-- ===== src/Tests/CreateFfff.antt =====
-- src/create-ffff/create-ffff.c and the images of src/common/ffff_in.c at concrete inputs.
use bootrom_tools.Base.{
  ℕ, zero, suc, ◌<◌, get_elem?, sym, ◌≡◌, refl, Bool, true, false, List, [], ◌∷◌, Option, none,
  some, arith, length, replicate, take,
}
use bootrom_tools.Files.{System, store, load_file, size_file}
use bootrom_tools.Options.{
  Event, Parser, seen, new_argparse, secondary_opts, secondary_names, put_opts, parse_args,
  parse_loop, parse_event, dispatch, process, matching, init_optx, call, apply_defaults, store_str,
  none_missing, store_hex, get_num,
}
use bootrom_tools.Util.Boundary.{block_aligned, next_boundary}
use bootrom_tools.Ffff.Load.{load_entry}
use bootrom_tools.Ffff.{Format}
use bootrom_tools.Ffff.Cache.{Entry, Cache, entry_close}
use bootrom_tools.Ffff.Image.{Romimage, new_ffff}
use bootrom_tools.Ffff.Image.Build.{Layout, new_ffff_romimage, next_into, next_slot}
use bootrom_tools.Ffff.Image.Build.Slots.{IsTyped}
use bootrom_tools.Ffff.Image.Build.Loaded.{HasRoom}
use bootrom_tools.Ffff.Image.Build.Succeeds.{IsReadable}
use bootrom_tools.Ffff.Image.Build.Total.{HoldsElements, new_ffff_romimage-HoldsElements}
use bootrom_tools.CreateTftf.Output.{Disk}
use bootrom_tools.CreateFfff.Table.{parse_table, preprocess}
use bootrom_tools.CreateFfff.Main.{V, Run, initial, parse_command_line, main}
use bootrom_tools.CreateFfff.{State}
use bootrom_tools.CreateFfff.Main.Accepted.{IsParsed, IsFlashFile, main-IsFlashFile}
use bootrom_tools.Tests.Ffff.{ffff}

abbrev three_bytes : System
three_bytes = record {
  FileName = List ℕ;
  stat = λ name. some 3;
  read = λ name n. some (take n (7 ∷ 8 ∷ 9 ∷ []));
}

-- A sentinel of one byte and descriptors of three.
abbrev small : Format
small = record ffff {
  ffff_sentinel_value = b'F' ∷ [];
  calc_max_elements = λ size. 2;
  element_bytes = λ e. e.element_type ∷ e.element_length ∷ e.element_location ∷ [];
}

abbrev type_of : List ℕ → ℕ
type_of [] = 0
type_of (b ∷ bs) = b

abbrev with_type : ℕ → List ℕ → List ℕ
with_type type [] = []
with_type type (b ∷ bs) = type ∷ bs

-- A sentinel of one byte, the table behind it, and the other fields nowhere.
abbrev layout : Layout
layout = record {
  start_bytes = λ now name capacity erase_block_size header_size image_length generation. b'F' ∷ [];
  name_size = 1;
  elements_offset = 1;
  element_size = 3;
  type_of = type_of;
  with_type = with_type;
}

abbrev disk : Disk
disk = record {
  is_dir = λ name. false;
  strdup = λ name. true;
  dirname = λ name. b'.' ∷ [];
  create = λ name. true;
  write = λ name bytes. length bytes;
}

-- A number is written as one byte.
abbrev one_byte : List ℕ → ℕ × List ℕ
one_byte text = (type_of text, [])

abbrev blank : Entry three_bytes
blank = record {
  filename = none;
  element = record {
    element_type = 0;
    element_class = 0;
    element_id = 0;
    element_length = 0;
    element_location = 0;
    element_generation = 0;
  };
}

abbrev blanks : List (Entry three_bytes)
blanks = replicate 2 blank

abbrev Variables : Type 0
Variables = V three_bytes small one_byte (λ text. text)

abbrev run : List (Event Variables) → Option (Run three_bytes small one_byte (λ text. text))
run = main three_bytes small one_byte (λ text. text) layout disk true [] blanks

-- Headers of 8 bytes in an image of 24, and one file at address 16.
abbrev events : List (Event Variables)
events =
    seen b'f' (some 0) (32 ∷ [])
    ∷ seen b'e' (some 1) (8 ∷ [])
    ∷ seen b'l' (some 2) (24 ∷ [])
    ∷ seen b'h' (some 5) (8 ∷ [])
    ∷ seen b'n' (some 6) (b'n' ∷ [])
    ∷ seen b'2' (some 7) (b's' ∷ [])
    ∷ seen b'O' (some 15) (16 ∷ [])
    ∷ seen b'o' (some 4) (b'o' ∷ [])
    ∷ []

built : Option (Run three_bytes small one_byte (λ text. text))
unfolding main new_argparse secondary_opts secondary_names put_opts parse_args parse_loop
    parse_event dispatch process matching init_optx call apply_defaults store_str none_missing
    parse_table preprocess new_ffff_romimage new_ffff store load_file size_file store_hex get_num
    block_aligned next_boundary next_into next_slot load_entry
built = run events

abbrev image : List ℕ
image =
    b'F' ∷ 1 ∷ 3 ∷ 16 ∷ 254 ∷ 0 ∷ 0 ∷ b'F' ∷ b'F' ∷ 1 ∷ 3 ∷ 16 ∷ 254 ∷ 0 ∷ 0 ∷ b'F' ∷ 7 ∷ 8 ∷ 9 ∷ 0
    ∷ 0 ∷ 0 ∷ 0 ∷ 0 ∷ []

main_run : run events ≡ some (0, some (b'o' ∷ [], image))
unfolding built
main_run = refl

abbrev parse : Option (Parser Variables)
parse =
    parse_command_line three_bytes small one_byte (λ text. text) events
      (initial three_bytes small one_byte (λ text. text) blanks)

abbrev parser_of : Option (Parser Variables) → Parser Variables
parser_of none = record {
  optx = [];
  vars = none;
  success = false;
  parser_help = false;
  parser_invalid_arg = false;
}
parser_of (some p) = p

abbrev state_of : Option (State three_bytes) → State three_bytes
state_of none = initial three_bytes small one_byte (λ text. text) blanks
state_of (some s) = s

abbrev left : State three_bytes
left = state_of (parser_of parse).vars

abbrev closed : State three_bytes
closed = record left { cache = entry_close three_bytes left.cache }

abbrev is_some {ℓ} : {A : Type ℓ} → Option A → Bool
is_some none = false
is_some (some a) = true

some-parser_of : (o : Option (Parser Variables)) → is_some o ≡ true → o ≡ some (parser_of o)
some-parser_of none h = cc
some-parser_of (some p) h = refl

some-state_of : (o : Option (State three_bytes)) → is_some o ≡ true → o ≡ some (state_of o)
some-state_of none h = cc
some-state_of (some s) h = refl

parses : is_some parse ≡ true
unfolding built parse_command_line
parses = refl

has_vars : is_some (parser_of parse).vars ≡ true
unfolding built parse_command_line
has_vars = refl

succeeds : (parser_of parse).success ≡ true
unfolding built parse_command_line
succeeds = refl

events-IsParsed : IsParsed three_bytes small one_byte (λ text. text) blanks events closed
events-IsParsed = record {
  parser = parser_of parse;
  left = left;
  parsed = some-parser_of parse parses;
  vars = some-state_of (parser_of parse).vars has_vars;
  success = succeeds;
  closed = refl;
}

closed_sizes : (closed.erase_block_size ≡ 8) × (closed.header_size ≡ 8)
unfolding built parse_command_line
closed_sizes = (refl, refl)

written_example :
    IsFlashFile three_bytes small one_byte
      (λ text. text)
      layout
      disk
      true
      []
      closed
      3
      1
      (b'o' ∷ [])
      image
    × ◌≡◌ {A = ℕ} 0 0
written_example =
    main-IsFlashFile three_bytes small one_byte (λ text. text) layout disk true [] blanks events 0
      (b'o' ∷ []) image closed 3 1 events-IsParsed (omega arith) closed_sizes.0
      (omega (arith, closed_sizes.1)) (omega (arith, closed_sizes.1)) (omega arith) main_run

-- One file of three bytes at address 16.
abbrev cache : Cache three_bytes
cache = record {
  entries =
      record {
        filename = some (b's' ∷ []);
        element = record (blank.element) {
          element_type = 1;
          element_length = 3;
          element_location = 16;
        };
      }
      ∷ blank
      ∷ [];
  current_element = 1;
  element_iterator = 0;
  element_window_open = false;
}

abbrev romimage : Romimage
romimage = record {
  blob_length = 24;
  erase_block_length = 8;
  first_header = 0;
  second_header = some 8;
  blob = image;
}

romimage_run :
    new_ffff_romimage three_bytes small layout true [] 2 (some (b'n' ∷ [])) 32 8 24 0 8 cache
    ≡ some (some romimage)
unfolding built
romimage_run = refl

type_of-with_type :
    (type : ℕ) (bytes : List ℕ) → 0 < length bytes → type_of (with_type type bytes) ≡ type
type_of-with_type type [] h = absurd (omega arith)
type_of-with_type type (b ∷ bs) h = refl

length-with_type : (type : ℕ) (bytes : List ℕ) → length (with_type type bytes) ≡ length bytes
length-with_type type [] = refl
length-with_type type (b ∷ bs) = refl

layout-IsTyped : IsTyped three_bytes small layout
layout-IsTyped = record {
  some_bytes = omega arith;
  size = λ e. refl;
  start_size =
      λ now name capacity erase_block_size header_size image_length generation. omega arith;
  same_size = length-with_type;
  type_of_bytes = λ e h. refl;
  type_of_end = λ bytes h. type_of-with_type 0xfe bytes (omega arith);
}

-- The only entry of the cache.
abbrev first : Entry three_bytes
first = record {
  filename = some (b's' ∷ []);
  element = record (blank.element) { element_type = 1; element_length = 3; element_location = 16 };
}

only : (k : ℕ) (e : Entry three_bytes) → k < 1 → get_elem? cache.entries k ≡ some e → first ≡ e
only zero e h found = cc
only (suc k) e h found = absurd (omega arith)

cache-HasRoom : HasRoom three_bytes small layout 7 16 cache
cache-HasRoom = record {
  counted = omega arith;
  cached = omega arith;
  table = omega arith;
  in_order = omega arith;
  in_range = λ k e h found. rw (sym (only k e h found)) (omega arith);
  known = λ k e h found. rw (sym (only k e h found)) (omega arith);
  behind = λ k e h found. rw (sym (only k e h found)) (omega arith);
  apart = λ j k d e before h at_j at_k. absurd (omega arith);
}

first-IsReadable : IsReadable three_bytes small layout 24 first
unfolding load_file
first-IsReadable = record {
  name = b's' ∷ [];
  bytes = 7 ∷ 8 ∷ 9 ∷ [];
  named = refl;
  read = refl;
  whole = refl;
  inside = omega arith;
}

elements_example :
    (r : Romimage) × (new_ffff_romimage three_bytes small layout true [] 2
        (some (b'n' ∷ []))
        32
        8
        24
        0
        8
        cache
      ≡ some (some r))
    × HoldsElements three_bytes small layout cache (next_boundary 8 8) r.blob
unfolding next_boundary
elements_example =
    new_ffff_romimage-HoldsElements three_bytes small layout layout-IsTyped [] 2 (b'n' ∷ []) 32 8 24
      0 8 cache (omega arith) (omega arith) (omega arith) cache-HasRoom (omega arith)
      (λ k e h found. rw (sym (only k e h found)) first-IsReadable) (omega arith) (omega arith)
