-- ===== src/Tests/CreateTftf/Parts.antt =====
-- The symbols of an ELF file, the directories above a file, and calls on the section cache.
use bootrom_tools.Base.{
  ℕ, ◌<◌, ◌≡◌, refl, Bool, true, false, List, [], ◌∷◌, ◌++◌, Option, none, some, arith, codes, take,
  length, length-take, ltb, if◌then◌else◌,
}
use bootrom_tools.Tftf.Elf.{Elf, Shdr, Scn}
use bootrom_tools.Tftf.Cache.{Entry, Cache, entry_open}
use bootrom_tools.Tftf.Cache.Abstract.{abstraction}
use bootrom_tools.Tftf.Cache.Steps.{open_entry, none_yet, then_call, Calls-appends}
use bootrom_tools.CreateTftf.Output.{Disk, mkdir_recursive}
use bootrom_tools.CreateTftf.Output.Directories.{IsMade, mkdir_recursive_lem}
use bootrom_tools.Tests.CreateTftf.{three_bytes, start}

abbrev table_header : Shdr
table_header = record { is_symtab = true; sh_size = 32; sh_addr = 0; sh_entsize = 16 }

abbrev symbol_table : Scn
symbol_table = record {
  header = some table_header;
  section_name = some (codes ".symtab");
  elf_data = some [];
  symbols = (codes "start", 0) ∷ (codes "main", 0x1001) ∷ [];
}

abbrev with_symbols : Elf
with_symbols = record { scns = symbol_table ∷ symbol_table ∷ []; e_entry = some 0 }

-- A directory part of three characters, or one.
abbrev above : List ℕ → List ℕ
above path = if ltb 3 (length path) then take 3 path else b'.' ∷ []

abbrev empty_disk : Disk
empty_disk = record {
  is_dir = λ name. false;
  strdup = λ name. true;
  dirname = above;
  create = λ name. true;
  write = λ name bytes. 0;
}

above_shorter :
    (p : List ℕ) → empty_disk.is_dir p ≡ false → 1 < length (above p) → length (above p) < length p
above_shorter p missing h = ground (arith, length-take 3 p)

mkdir_example :
    (success : Bool) × (made : List (List ℕ)) × (mkdir_recursive 8 empty_disk (codes "usr/lib")
      ≡ some (success, made))
    × IsMade empty_disk (codes "usr/lib") success made
mkdir_example = mkdir_recursive_lem empty_disk 8 (codes "usr/lib") above_shorter (omega arith)

abbrev cache_of : Option (Bool × Cache three_bytes) → Cache three_bytes
cache_of none = start.cache
cache_of (some (success, c)) = c

-- A code section that is closed by a signature.
abbrev one_open : Cache three_bytes
one_open = cache_of (entry_open three_bytes 1 (some (codes "c")) start.cache)

abbrev two_open : Cache three_bytes
two_open = cache_of (entry_open three_bytes 0x80 (some (codes "s")) one_open)

first_open : entry_open three_bytes 1 (some (codes "c")) start.cache ≡ some (true, one_open)
unfolding entry_open
first_open = refl

second_open : entry_open three_bytes 0x80 (some (codes "s")) one_open ≡ some (true, two_open)
unfolding entry_open
second_open = refl

calls_example :
    (later : List (Entry three_bytes)) × ((abstraction three_bytes two_open).done
      ≡ (abstraction three_bytes start.cache).done ++ later)
calls_example = Calls-appends three_bytes (
    then_call (then_call none_yet (open_entry 1 (some (codes "c")) true first_open))
      (open_entry 0x80 (some (codes "s")) true second_open))
