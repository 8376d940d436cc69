-- ===== src/Tftf/Elf/Symbols.antt =====
-- The search for a symbol over all symbol tables of an ELF file.
use bootrom_tools.Base.{
  ℕ, suc, ◌≤◌, ◌≡◌, ◌&&◌, not, List, [], ◌∷◌, Option, none, some, length, drop, ◌==◌, if◌then◌else◌,
  ◌<◌, ◌/◌, ◌%◌, ◌^◌, take, same_bytes,
}
use bootrom_tools.Tftf.Elf.{Shdr, Scn, Elf, is_symtab, elf_scn_getsymaddr_byname}

-- The first address that is not 0 in the symbol tables of a list of sections.
abbrev first_address : List Scn → List ℕ → ℕ
first_address [] name = 0
first_address (scn ∷ scns) name =
    let later = first_address scns name in
    let addr = elf_scn_getsymaddr_byname scn name in
    if is_symtab scn && not (addr == 0) then addr else later

-- What the address of a table stands for, with the tables behind it.
abbrev chosen : ℕ → ℕ → ℕ
chosen addr later = if addr == 0 then later else addr

-- What the search for a table finds says where the first address comes from.
abbrev Explains : Elf → List ℕ → ℕ → List Scn → Option (ℕ × Scn) → Type 0
Explains elf name idx scns none = first_address scns name ≡ 0
Explains elf name idx scns (some (i, scn)) =
    (idx ≤ i)
    × (i < length elf.scns)
    × (first_address scns name
        ≡ chosen (elf_scn_getsymaddr_byname scn name) (first_address (drop (suc i) elf.scns) name))

-- The value of the first of some symbols that has the name, or 0.
abbrev pub value_of : List (List ℕ × ℕ) → List ℕ → ℕ
value_of [] name = 0
value_of ((n, value) ∷ symbols) name =
    let later = value_of symbols name in if same_bytes name n then value else later

-- The symbols of a symbol table: none where its data cannot be had.
abbrev pub symbols_of : Scn → List (List ℕ × ℕ)
symbols_of scn = elim scn.header [
  | none ↦ []
  | some shdr ↦ elim scn.elf_data [
    | none ↦ []
    | some _ ↦ take (shdr.sh_size / shdr.sh_entsize % 2 ^ 32) scn.symbols
  ]
]

-- The first value other than 0 among those that the symbol tables, in the order of the sections, give
-- the name, or 0.
abbrev pub first_value : List Scn → List ℕ → ℕ
first_value [] name = 0
first_value (scn ∷ scns) name =
    let later = first_value scns name in
    if is_symtab scn && not (value_of (symbols_of scn) name == 0)
    then value_of (symbols_of scn) name
    else later

-- The header can be read, and a symbol table says how long a symbol is.
abbrev pub IsReadable : Scn → Type 0
IsReadable scn = (shdr : Shdr) × (scn.header ≡ some shdr) × (0 < shdr.sh_entsize)
