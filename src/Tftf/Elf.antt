-- ===== src/Tftf/Elf.antt =====
-- src/common/tftf_in.c: `load_elf` and what it calls, over what libelf returns for an open file.
pub mod Symbols
use bootrom_tools.Base.{
  ℕ, zero, suc, ◌+◌, ◌*◌, ◌/◌, ◌%◌, ◌^◌, Bool, true, false, ◌&&◌, not, List, [], ◌∷◌, ◌++◌, Option,
  none, some, ltb, leb, ◌==◌, if◌then◌else◌, length, take, drop, replicate, same_bytes, codes,
}
use bootrom_tools.Files.{System}
use bootrom_tools.Tftf.{Format}
use bootrom_tools.Tftf.Cache.{Cache, entry_open, entry_close, entry_set_blob, update_current}

-- `GElf_Shdr`
pub record Shdr : Type 0 where
  pub is_symtab : Bool
  pub sh_size : ℕ
  pub sh_addr : ℕ
  pub sh_entsize : ℕ

-- A section as libelf shows it: its header, its name, its data, and its symbols with their names.
-- The header of a section that is searched for symbols can be read, and `sh_entsize` is not 0.
pub record Scn : Type 0 where
  pub header : Option Shdr
  pub section_name : Option (List ℕ)
  pub elf_data : Option (List ℕ)
  pub symbols : List (List ℕ × ℕ)

-- An open ELF file: `elf_getscn` by index, and `e_entry` where `elf32_getehdr` succeeds.
pub record Elf : Type 0 where
  pub scns : List Scn
  pub e_entry : Option ℕ

abbrev pub is_named : Scn → List ℕ → Bool
is_named scn name = elim scn.header [
  | none ↦ false
  | some shdr ↦ elim scn.section_name [ none ↦ false | some n ↦ same_bytes n name ]
]

-- The loop over the sections that `elf_nextscn` gives.
unfoldable pub named_in : List Scn → List ℕ → Option Scn
named_in [] name = none
named_in (scn ∷ scns) name = if is_named scn name then some scn else named_in scns name

-- `elf_nextscn` of no section gives the one of index 1.
unfoldable pub elf_getscn_byname : Elf → List ℕ → Option Scn
unfolding named_in
elf_getscn_byname elf name = named_in (drop 1 elf.scns) name

abbrev pub is_symtab : Scn → Bool
is_symtab scn = elim scn.header [ none ↦ false | some shdr ↦ shdr.is_symtab ]

unfoldable pub symtab_from : ℕ → List Scn → Option (ℕ × Scn)
symtab_from idx [] = none
symtab_from idx (scn ∷ scns) = if is_symtab scn then some (idx, scn) else symtab_from (suc idx) scns

-- The first symbol table from an index on, with the index that it has.
unfoldable pub elf_getsymtab : Elf → ℕ → Option (ℕ × Scn)
unfolding symtab_from
elf_getsymtab elf idx = symtab_from idx (drop idx elf.scns)

unfoldable pub symbol_value : List (List ℕ × ℕ) → List ℕ → ℕ
symbol_value [] name = 0
symbol_value ((n, st_value) ∷ symbols) name =
    if same_bytes n name then st_value else symbol_value symbols name

unfoldable pub elf_scn_getsymaddr_byname : Scn → List ℕ → ℕ
unfolding symbol_value
elf_scn_getsymaddr_byname scn name = elim scn.header [
  | none ↦ 0
  | some shdr ↦ if not shdr.is_symtab then 0 else elim scn.elf_data [
    | none ↦ 0
    | some _ ↦ symbol_value (take (shdr.sh_size / shdr.sh_entsize % 2 ^ 32) scn.symbols) name
  ]
]

-- The loop over the symbol tables; `none` is the end of the fuel.
unfoldable pub symaddr_from : ℕ → Elf → ℕ → List ℕ → Option ℕ
symaddr_from zero elf symtab_idx name = none
symaddr_from (suc fuel) elf symtab_idx name = elim (elf_getsymtab elf symtab_idx) [
  | none ↦ some 0
  | some (idx, symtab) ↦
      let addr = elf_scn_getsymaddr_byname symtab name in
      let later = symaddr_from fuel elf (suc idx) name in if addr == 0 then later else some addr
]

-- One more than the number of sections is enough fuel.
unfoldable pub elf_getsymaddr_byname : Elf → List ℕ → Option ℕ
unfolding symaddr_from
elf_getsymaddr_byname elf name = symaddr_from (suc (length elf.scns)) elf 0 name

module _ (sys : System) (fmt : Format) where
  -- The tail of both functions that add a section: the blob, the load address, which is written
  -- whether or not the entry could be opened, and the close. `none` is an access past the array.
  abbrev pub add_blob : Bool → Shdr → ℕ → List ℕ → Cache sys → Option (Bool × Cache sys)
  add_blob malloc_succeeds shdr type bytes c = elim (entry_open sys type none c) [
    | none ↦ none
    | some (opened, c1) ↦
        let blob = entry_set_blob sys malloc_succeeds bytes c1 in
        let (success, c2) = if opened then blob else (false, c1) in
        elim (update_current sys c2 (λ e. record e {
          section = record (e.section) { section_load_address = shdr.sh_addr % 2 ^ 32 };
        })) [
          | none ↦ none
          | some c3 ↦ elim (entry_close sys c3) [ none ↦ none | some c4 ↦ some (success, c4) ]
        ]
  ]

  unfoldable pub elf_add_section_cache_entry :
      Bool → Scn → ℕ → Cache sys → Option (Bool × Cache sys)
  unfolding entry_open entry_close entry_set_blob update_current
  elf_add_section_cache_entry malloc_succeeds scn type c = elim scn.header [
    | none ↦ some (false, c)
    | some shdr ↦
        if ltb 0 shdr.sh_size
        then elim scn.elf_data [
          | none ↦ some (false, c)
          | some bytes ↦ add_blob malloc_succeeds shdr type bytes c
        ]
        else some (false, c)
  ]

  -- The buffer on the stack, which has twice the size of the data: a file that fits replaces its
  -- start, and without one its first half is zeros.
  unfoldable pub config_bytes : ℕ → Option sys.FileName → List ℕ → List ℕ
  config_bytes size filename stack =
      let cleared = replicate size 0 in
      elim filename [
        | none ↦ cleared
        | some name ↦ elim (sys.read name (2 * size)) [
          | none ↦ cleared
          | some bytes ↦
              if ltb size (length bytes)
              then cleared
              else take size (bytes ++ drop (length bytes) stack)
        ]
      ]

  unfoldable pub elf_add_section_cache_entry_with_data :
      Bool → List ℕ → Scn → ℕ → Option sys.FileName → Cache sys → Option (Bool × Cache sys)
  unfolding entry_open entry_close entry_set_blob update_current config_bytes
  elf_add_section_cache_entry_with_data malloc_succeeds stack scn type filename c =
      elim scn.header [
        | none ↦ some (false, c)
        | some shdr ↦ elim scn.elf_data [
          | none ↦ some (false, c)
          | some bytes ↦
              add_blob malloc_succeeds shdr type (config_bytes (length bytes) filename stack) c
        ]
      ]

  -- The local variables of `load_elf`, `*start_address` and the cache.
  pub record Loading : Type 0 where
    pub success : Bool
    pub sections_created : ℕ
    pub start_address : ℕ
    pub ehdr : Option ℕ
    pub cache : Cache sys

  -- A section that the file has is added, and counted if that succeeds.
  abbrev pub add_named :
      Elf
      → List ℕ
      → (Scn → Cache sys → Option (Bool × Cache sys))
      → (Loading → Loading)
      → Loading
      → Option Loading
  add_named elf name add if_added l = elim (elf_getscn_byname elf name) [
    | none ↦ some l
    | some scn ↦ elim (add scn l.cache) [
      | none ↦ none
      | some (false, c) ↦ some (record l { success = false; cache = c })
      | some (true, c) ↦ some (record (if_added l) {
        success = true;
        sections_created = l.sections_created + 1;
        cache = c;
      })
    ]
  ]

  -- The entry point, once the code has been added.
  abbrev pub with_entry : Elf → Loading → Loading
  with_entry elf l = elim elf.e_entry [
    | none ↦ l
    | some entry ↦ record l {
      ehdr = some entry;
      start_address = if l.start_address == 0 then entry else l.start_address;
    }
  ]

  -- The start symbol; `none` is a read through a null `ehdr`.
  unfoldable pub use_symbol : Elf → Option (List ℕ) → Loading → Option Loading
  use_symbol elf none l = some l
  use_symbol elf (some start_symbol) l = elim l.ehdr [
    | none ↦ none
    | some entry ↦
        if l.start_address == entry
        then elim (elf_getsymaddr_byname elf start_symbol) [
          | none ↦ none
          | some addr ↦ some (if addr == 0 then l else record l { start_address = addr % 2 ^ 32 })
        ]
        else some (record l { success = false })
  ]

  abbrev pub then_load : Option Loading → (Loading → Option Loading) → Option Loading
  then_load none f = none
  then_load (some l) f = f l

  unfoldable pub load_sections :
      Bool → List ℕ → Elf → Option sys.FileName → Loading → Option Loading
  load_sections malloc_succeeds stack elf s2lcfg_filename l =
      then_load
        (then_load
          (add_named elf (codes ".text")
            (λ scn. elf_add_section_cache_entry malloc_succeeds scn fmt.section_raw_code)
            (with_entry elf) l)
          (add_named elf (codes ".s2lcfg")
            (λ scn.
              elf_add_section_cache_entry_with_data malloc_succeeds stack scn fmt.section_raw_data
                s2lcfg_filename)
            (λ l. l)))
        (add_named elf (codes ".data")
          (λ scn. elf_add_section_cache_entry malloc_succeeds scn fmt.section_raw_data) (λ l. l))

  -- `elf_begin` stands for the calls that open the file and find out that it is an ELF object.
  -- Success, the start address and the cache; `none` is an access out of bounds.
  unfoldable pub load_elf :
      (sys.FileName → Option Elf)
      → Bool
      → List ℕ
      → Option sys.FileName
      → ℕ
      → Option (List ℕ)
      → Option sys.FileName
      → Cache sys
      → Option (Bool × ℕ × Cache sys)
  unfolding use_symbol load_sections
  load_elf elf_begin malloc_succeeds stack none start_address start_symbol s2lcfg_filename c =
      some (false, start_address, c)
  load_elf elf_begin malloc_succeeds stack (some filename) start_address start_symbol
        s2lcfg_filename c =
      elim (elf_begin filename) [
        | none ↦ some (false, start_address, c)
        | some elf ↦
            let start : Loading = record {
              success = false;
              sections_created = 0;
              start_address = start_address;
              ehdr = none;
              cache = c;
            } in
            elim (then_load (load_sections malloc_succeeds stack elf s2lcfg_filename start)
              (use_symbol elf start_symbol)) [
                | none ↦ none
                | some l ↦ some (leb 1 l.sections_created, l.start_address, l.cache)
              ]
      ]
