-- ===== src/Tftf/Cache/Inv.antt =====
-- What a section is opened with.
use bootrom_tools.Base.{
  ℕ, ◌+◌, ◌%◌, ◌^◌, ◌<◌, ◌≡◌, refl, sym, ap, ◌∙◌, true, List, length, length-set, Option, none,
  some, arith, get_elem?, set, get_elem?-none_iff, get_elem?-set_self, get_elem?-set_ne,
  Option-cases, inl, inr,
}
use bootrom_tools.Files.{System}
use bootrom_tools.Tftf.Cache.{
  Entry, Cache, max_entries, end_of, entry_close, update_current, opened, entry_open,
  entry_set_blob,
}

module _ (sys : System) where
  opened-type :
      (t : ℕ) (f : Option sys.FileName) (address : ℕ) (d : Entry sys)
      → (opened sys t f address d).section.section_type ≡ t
  opened-type t none address d = refl
  opened-type t (some name) address d = refl

  opened-address :
      (t : ℕ) (f : Option sys.FileName) (address : ℕ) (d : Entry sys)
      → (opened sys t f address d).section.section_load_address ≡ address
  opened-address t none address d = refl
  opened-address t (some name) address d = refl

  opened-blob :
      (t : ℕ) (f : Option sys.FileName) (address : ℕ) (d : Entry sys)
      → (opened sys t f address d).blob ≡ none
  opened-blob t none address d = refl
  opened-blob t (some name) address d = refl

  -- Opening a section while the window is open on an entry that is not the last closes that entry,
  -- moves the cursor to the next, and gives the new section the type that was asked for and a load
  -- address right behind the closed section, modulo 2^32, with nothing cached; the closed entry
  -- stays.
  entry_open-contiguous :
      (t : ℕ) (f : Option sys.FileName) (c : Cache sys) (e : Entry sys)
      → c.section_window_open ≡ true
      → get_elem? c.entries c.current_section ≡ some e
      → c.current_section + 1 < max_entries sys c
      → (c' : Cache sys) × (e' : Entry sys) × (entry_open sys t f c ≡ some (true, c'))
        × (c'.current_section ≡ c.current_section + 1)
        × (get_elem? c'.entries c'.current_section ≡ some e')
        × (e'.section.section_type ≡ t)
        × (e'.section.section_load_address
            ≡ (e.section.section_load_address + e.section.section_length) % 2 ^ 32)
        × (e'.blob ≡ none)
        × (get_elem? c'.entries c.current_section ≡ some e)
  unfolding entry_open entry_close update_current
  entry_open-contiguous t f c e w found room =
      elim (Option-cases (get_elem? c.entries (c.current_section + 1))) [
        | inl missing ↦
            absurd (omega (arith, (get_elem?-none_iff c.entries (c.current_section + 1)).0 missing))
        | inr (d, next) ↦
            let e' : Entry sys = opened sys t f (end_of sys e.section) d in
            let c' : Cache sys = record c {
              entries = set c.entries (c.current_section + 1) e';
              current_section = c.current_section + 1;
              section_window_open = true;
              section_load_address = end_of sys e.section;
            } in
            (
              c',
              e',
              ground (arith, found, next),
              refl,
              get_elem?-set_self c.entries (c.current_section + 1) e' room,
              opened-type t f (end_of sys e.section) d,
              opened-address t f (end_of sys e.section) d,
              opened-blob t f (end_of sys e.section) d,
              get_elem?-set_ne c.entries (c.current_section + 1) c.current_section e' (omega arith)
                  ∙ found,
            )
      ]

  -- `section_cache_entry_set_blob` on the section under the cursor, while the window is open and
  -- memory can be had, and then `section_cache_entry_open`, where there is room for one more entry:
  -- the first section keeps its load address and holds the bytes, and the next one, of the type that
  -- was asked for and with nothing cached, is loaded at that address plus the number of the bytes,
  -- modulo 2^32.
  pub entry_open-entry_set_blob :
      (bytes : List ℕ) (t : ℕ) (f : Option sys.FileName) (c : Cache sys) (e : Entry sys)
      → c.section_window_open ≡ true
      → get_elem? c.entries c.current_section ≡ some e
      → c.current_section + 1 < max_entries sys c
      → (c' : Cache sys) × (d : Entry sys) × (e' : Entry sys) × (entry_open sys t f
            (entry_set_blob sys true bytes c).1
          ≡ some (true, c'))
        × (c'.current_section ≡ c.current_section + 1)
        × (get_elem? c'.entries c.current_section ≡ some d)
        × (d.blob ≡ some bytes)
        × (d.section.section_length ≡ length bytes % 2 ^ 32)
        × (d.section.section_load_address ≡ e.section.section_load_address)
        × (get_elem? c'.entries (c.current_section + 1) ≡ some e')
        × (e'.section.section_type ≡ t)
        × (e'.blob ≡ none)
        × (e'.section.section_load_address
            ≡ (e.section.section_load_address + length bytes) % 2 ^ 32)
  unfolding entry_set_blob update_current
  entry_open-entry_set_blob bytes t f c e w found room =
      let d : Entry sys = record e {
        blob = some bytes;
        section = record (e.section) {
          section_length = length bytes % 2 ^ 32;
          section_expanded_length = length bytes % 2 ^ 32;
        };
      } in
      let c1 : Cache sys = record c { entries = set c.entries c.current_section d } in
      let below : c.current_section < length c.entries = omega arith in
      let same : (entry_set_blob sys true bytes c).1 ≡ c1 = ground (arith, found, w, below) in
      let here : get_elem? c1.entries c1.current_section ≡ some d =
        get_elem?-set_self c.entries c.current_section d below in
      let room' : c1.current_section + 1 < max_entries sys c1 =
        omega (arith, length-set c.entries c.current_section d) in
      let (c', e', opens, moved, next, type, address, fresh, kept) =
        entry_open-contiguous t f c1 d w here room' in
      (
        c',
        d,
        e',
        ap (entry_open sys t f) same ∙ opens,
        moved,
        kept,
        refl,
        refl,
        refl,
        ap (get_elem? c'.entries) (sym moved) ∙ next,
        type,
        fresh,
        address ∙ omega arith,
      )
