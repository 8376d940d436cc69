-- ===== src/Tftf/Cache.antt =====
-- src/common/tftf_in.c: the cache of sections that the command line builds, a static array with a
-- cursor, an iterator, a flag and the load address that the next section gets by default.
pub mod Inv
pub mod Abstract
pub mod Changes
pub mod Steps
use bootrom_tools.Base.{
  ℕ, zero, suc, ◌+◌, ◌-◌, ◌*◌, ◌%◌, ◌^◌, Bool, true, false, ◌&&◌, ◌||◌, not, List, [], ◌∷◌, Option,
  none, some, ltb, leb, ◌==◌, if◌then◌else◌, length, get_elem?, set, take,
}
use bootrom_tools.Files.{System, size_file, load_file, store}
use bootrom_tools.Tftf.{Section}

-- What the walk returns: -1, 0 and 1.
pub data Status : Type 0 where
  error end_of_list stored : Status

module _ (sys : System) where
  -- `section_cache_entry`; null pointers are `none`.
  pub record Entry : Type 0 where
    pub filename : Option sys.FileName
    pub blob : Option (List ℕ)
    pub section : Section

  -- The five static variables. `MAX_TFTF_SECTION_CACHE` is the length of the array.
  pub record Cache : Type 0 where
    pub entries : List Entry
    pub current_section : ℕ
    pub section_iterator : ℕ
    pub section_window_open : Bool
    pub section_load_address : ℕ

  abbrev pub max_entries : Cache → ℕ
  max_entries c = length c.entries

  abbrev pub end_of : Section → ℕ
  end_of s = (s.section_load_address + s.section_length) % 2 ^ 32

  -- `none` is an access past the array, here and below.
  unfoldable pub entry_close : Cache → Option Cache
  entry_close c =
      if c.section_window_open
      then elim (get_elem? c.entries c.current_section) [
        | none ↦ none
        | some e ↦ some (record c {
          section_load_address = end_of e.section;
          current_section =
              if ltb c.current_section (max_entries c)
              then c.current_section + 1
              else c.current_section;
          section_window_open = false;
        })
      ]
      else some c

  unfoldable pub update_current : Cache → (Entry → Entry) → Option Cache
  update_current c f = elim (get_elem? c.entries c.current_section) [
    | none ↦ none
    | some e ↦ some (record c { entries = set c.entries c.current_section (f e) })
  ]

  abbrev pub opened : ℕ → Option sys.FileName → ℕ → Entry → Entry
  opened section_type none load_address e = record e {
    blob = none;
    section = record (e.section) {
      section_type = section_type;
      section_load_address = load_address;
    };
  }
  opened section_type (some name) load_address e = record {
    filename = some name;
    blob = none;
    section = record (e.section) {
      section_type = section_type;
      section_length = size_file sys name;
      section_expanded_length = size_file sys name;
      section_load_address = load_address;
    };
  }

  -- The status is true for 0 and false for -1.
  unfoldable pub entry_open : ℕ → Option sys.FileName → Cache → Option (Bool × Cache)
  unfolding entry_close update_current
  entry_open section_type filename c =
      if ltb c.current_section (max_entries c)
      then elim (entry_close c) [
        | none ↦ none
        | some closed ↦
            elim (update_current (record closed { section_window_open = true })
              (opened section_type filename closed.section_load_address)) [
                | none ↦ none
                | some c' ↦ some (true, c')
              ]
      ]
      else some (false, c)

  -- A setter: whether it succeeds once the window is open, and what it does to the entry.
  abbrev pub entry_set : Bool → (Entry → Entry) → Cache → Bool × Cache
  entry_set success f c =
      if c.section_window_open && ltb c.current_section (max_entries c)
      then elim (update_current c f) [ none ↦ (false, c) | some c' ↦ (success, c') ]
      else (false, c)

  unfoldable pub entry_set_class : ℕ → Cache → Bool × Cache
  unfolding update_current
  entry_set_class v =
      entry_set true (λ e. record e { section = record (e.section) { section_class = v } })

  unfoldable pub entry_set_id : ℕ → Cache → Bool × Cache
  unfolding update_current
  entry_set_id v =
      entry_set true (λ e. record e { section = record (e.section) { section_id = v } })

  unfoldable pub entry_set_load_address : ℕ → Cache → Bool × Cache
  unfolding update_current
  entry_set_load_address v =
      entry_set true (λ e. record e { section = record (e.section) { section_load_address = v } })

  -- The bytes of the caller's buffer; where `malloc` fails, the entry's pointer is null.
  unfoldable pub entry_set_blob : Bool → List ℕ → Cache → Bool × Cache
  unfolding update_current
  entry_set_blob malloc_succeeds bytes =
      if malloc_succeeds
      then entry_set true (λ e. record e {
        blob = some bytes;
        section = record (e.section) {
          section_length = length bytes % 2 ^ 32;
          section_expanded_length = length bytes % 2 ^ 32;
        };
      })
      else entry_set false (λ e. record e { blob = none })

  unfoldable pub init_iterator : Cache → Cache
  init_iterator c = record c { section_iterator = 2 ^ 32 - 1 }

  unfoldable pub entry_count : Cache → ℕ
  entry_count c = c.current_section

  unfoldable pub sum_expanded : List Entry → ℕ
  sum_expanded [] = 0
  sum_expanded (e ∷ es) = e.section.section_expanded_length + sum_expanded es

  -- The total is kept in a `size_t`, which the lengths of the array do not fill.
  unfoldable pub entries_size : Cache → ℕ
  unfolding sum_expanded
  entries_size c = sum_expanded (take c.current_section c.entries)

  abbrev pub advanced : Cache → Cache
  advanced c = record c { section_iterator = (c.section_iterator + 1) % 2 ^ 32 }

  unfoldable pub entry_at_iterator : Cache → Option Entry
  entry_at_iterator c =
      if ltb c.section_iterator c.current_section
      then get_elem? c.entries c.section_iterator
      else none

  -- The payload of an entry, and whether it is complete; `none` is a read past the cached blob. A
  -- file without a name cannot be opened.
  unfoldable pub contents : Entry → Option (List ℕ × Bool)
  contents e = elim e.blob [
    | some bytes ↦
        let wanted = e.section.section_expanded_length in
        if ltb (length bytes) wanted then none else some (take wanted bytes, true)
    | none ↦ elim e.filename [
      | none ↦ some ([], false)
      | some name ↦ some (load_file sys name e.section.section_expanded_length)
    ]
  ]

  -- The walk's state: the cache, the payload buffer, and where in it the payload pointer stands.
  pub record Walk : Type 0 where
    pub cache : Cache
    pub buffer : List ℕ
    pub position : ℕ

  -- The status, the descriptor where one is written, and the new state; `none` is an access past
  -- a buffer. `limit` is the end of the buffer.
  unfoldable pub get_next_entry : Walk → Option (Status × Option Section × Walk)
  get_next_entry w =
      let next = record w { cache = advanced w.cache } in
      elim (entry_at_iterator next.cache) [
        | none ↦ some (end_of_list, none, next)
        | some e ↦
            let payload_end = w.position + e.section.section_expanded_length in
            if ltb (length w.buffer) payload_end
            then some (error, none, next)
            else elim (contents e) [
              | none ↦ none
              | some (bytes, success) ↦ elim (store w.buffer w.position bytes) [
                | none ↦ none
                | some buffer ↦ some (
                    if success
                    then (
                      stored,
                      some e.section,
                      record next { buffer = buffer; position = payload_end },
                    )
                    else (error, some e.section, record next { buffer = buffer }))
              ]
            ]
      ]
