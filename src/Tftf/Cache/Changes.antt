-- ===== src/Tftf/Cache/Changes.antt =====
-- What opening a section and setting its fields change.
use bootrom_tools.Base.{
  ℕ, ◌<◌, ◌≡◌, ◌⊎◌, refl, sym, ap, ◌∙◌, Bool, true, false, Option, none, some, arith, ltb, length,
  get_elem?, set, take, take-set_behind, get_elem?-none_iff, get_elem?-set_self, lt_of_get_elem?,
  inl, inr, Bool-cases, Option-cases,
}
use bootrom_tools.Files.{System}
use bootrom_tools.Tftf.Cache.{
  Entry, Cache, max_entries, entry_close, update_current, opened, entry_open, entry_set,
}
use bootrom_tools.Tftf.Cache.Abstract.{
  begun, changed, abstraction, abstraction-shut, abstraction-open, entry_close-closed,
}

module _ (sys : System) where
  update_current-some :
      (c : Cache sys) (f : Entry sys → Entry sys) (e : Entry sys)
      → get_elem? c.entries c.current_section ≡ some e
      → update_current sys c f ≡ some (record c { entries = set c.entries c.current_section (f e) })
  unfolding update_current
  update_current-some c f e h = rw (update_current, h) refl

  update_current-none :
      (c : Cache sys) (f : Entry sys → Entry sys)
      → get_elem? c.entries c.current_section ≡ none
      → update_current sys c f ≡ none
  unfolding update_current
  update_current-none c f h = rw (update_current, h) refl

  -- The sections before the cursor, and the one under it, behind a write under the cursor.
  written-abstraction :
      (c : Cache sys) (v : Entry sys)
      → c.section_window_open ≡ true
      → c.current_section < length c.entries
      → abstraction sys (record c { entries = set c.entries c.current_section v })
        ≡ record { done = take c.current_section c.entries; pending = some v }
  written-abstraction c v w inside =
      abstraction-open sys (record c { entries = set c.entries c.current_section v }) v w
        (get_elem?-set_self c.entries c.current_section v inside)
      ∙ ap (λ d. record { done = d; pending = some v })
          (take-set_behind c.current_section c.entries c.current_section v (omega arith))

  entry_open-full :
      (t : ℕ) (f : Option sys.FileName) (c : Cache sys)
      → ltb c.current_section (max_entries sys c) ≡ false
      → entry_open sys t f c ≡ some (false, c)
  unfolding entry_open
  entry_open-full t f c h = rw h refl

  entry_open-none :
      (t : ℕ) (f : Option sys.FileName) (c : Cache sys)
      → ltb c.current_section (max_entries sys c) ≡ true
      → entry_close sys c ≡ none
      → entry_open sys t f c ≡ none
  unfolding entry_open
  entry_open-none t f c h e = rw h (rw e refl)

  entry_open-missing :
      (t : ℕ) (f : Option sys.FileName) (c k : Cache sys)
      → ltb c.current_section (max_entries sys c) ≡ true
      → entry_close sys c ≡ some k
      → get_elem? k.entries k.current_section ≡ none
      → entry_open sys t f c ≡ none
  unfolding entry_open update_current
  entry_open-missing t f c k h e m = rw h (rw e (rw m refl))

  entry_open-found :
      (t : ℕ) (f : Option sys.FileName) (c k : Cache sys) (d : Entry sys)
      → ltb c.current_section (max_entries sys c) ≡ true
      → entry_close sys c ≡ some k
      → get_elem? k.entries k.current_section ≡ some d
      → entry_open sys t f c
        ≡ some (
          true,
          record k {
            section_window_open = true;
            entries = set k.entries k.current_section (opened sys t f k.section_load_address d);
          },
        )
  unfolding entry_open update_current
  entry_open-found t f c k d h e m = rw h (rw e (rw m refl))

  abbrev pub Begun : ℕ → Option sys.FileName → Cache sys → Cache sys → Type 0
  Begun t f c c' =
      (address : ℕ) × (d : Entry sys) × (abstraction sys c'
        ≡ begun sys (opened sys t f address d) (abstraction sys c))

  abstraction-missing :
      (c : Cache sys)
      → get_elem? c.entries c.current_section ≡ none
      → abstraction sys c ≡ record { done = take c.current_section c.entries; pending = none }
  abstraction-missing c m = ground (arith, m)

  -- Opening a section closes the one that is open and begins one, or changes nothing at all, where
  -- the cache is full and no section is open.
  pub entry_open-Begun :
      (t : ℕ) (f : Option sys.FileName) (c : Cache sys) (b : Bool) (c' : Cache sys)
      → entry_open sys t f c ≡ some (b, c')
      → ((b ≡ false) × (c' ≡ c) × ((abstraction sys c).pending ≡ none))
        ⊎ ((b ≡ true) × Begun t f c c')
  entry_open-Begun t f c b c' h = elim (Bool-cases (ltb c.current_section (max_entries sys c))) [
    | inr full ↦
        let past : get_elem? c.entries c.current_section ≡ none =
          (get_elem?-none_iff c.entries c.current_section).1 (ground (arith, full)) in
        inl (
          cc (entry_open-full t f c full),
          cc (entry_open-full t f c full),
          ap (λ a. a.pending) (abstraction-missing c past),
        )
    | inl room ↦ elim (Option-cases (entry_close sys c)) [
      | inl e ↦ absurd (cc (entry_open-none t f c room e))
      | inr (k, e) ↦ elim (Option-cases (get_elem? k.entries k.current_section)) [
        | inl m ↦ absurd (cc (entry_open-missing t f c k room e m))
        | inr (d, m) ↦
            let step = entry_open-found t f c k d room e m in
            let new = opened sys t f k.section_load_address d in
            let after : Cache sys = record k {
              section_window_open = true;
              entries = set k.entries k.current_section new;
            } in
            let same : after ≡ c' = cc (step) in
            let (kept, shut) = entry_close-closed sys c k e in
            inr (
              cc (step),
              (
                k.section_load_address,
                d,
                rw (sym same) (
                    written-abstraction (record k { section_window_open = true }) new refl
                      (lt_of_get_elem? k.entries k.current_section m)
                    ∙ ap (λ a. record { done = a.done; pending = some new })
                        (sym (abstraction-shut sys k shut) ∙ kept)),
              ),
            )
      ]
    ]
  ]

  entry_set-shut :
      (ok : Bool) (f : Entry sys → Entry sys) (c : Cache sys)
      → c.section_window_open ≡ false
      → entry_set sys ok f c ≡ (false, c)
  entry_set-shut ok f c h = rw h refl

  entry_set-full :
      (ok : Bool) (f : Entry sys → Entry sys) (c : Cache sys)
      → ltb c.current_section (max_entries sys c) ≡ false
      → (w : c.section_window_open ≡ true) → entry_set sys ok f c ≡ (false, c)
  entry_set-full ok f c h w = rw w (rw h refl)

  entry_set-found :
      (ok : Bool) (f : Entry sys → Entry sys) (c : Cache sys) (e : Entry sys)
      → c.section_window_open ≡ true
      → ltb c.current_section (max_entries sys c) ≡ true
      → get_elem? c.entries c.current_section ≡ some e
      → entry_set sys ok f c ≡ (ok, record c { entries = set c.entries c.current_section (f e) })
  entry_set-found ok f c e w h m = ground (arith, w, h, update_current-some c f e m)

  entry_set-missing :
      (ok : Bool) (f : Entry sys → Entry sys) (c : Cache sys)
      → c.section_window_open ≡ true
      → ltb c.current_section (max_entries sys c) ≡ true
      → get_elem? c.entries c.current_section ≡ none
      → entry_set sys ok f c ≡ (false, c)
  entry_set-missing ok f c w h m = ground (arith, w, h, update_current-none c f m)

  -- A setter changes the open section; where none is open, it changes nothing.
  pub entry_set-changed :
      (ok : Bool) (f : Entry sys → Entry sys) (c : Cache sys)
      → abstraction sys (entry_set sys ok f c).1 ≡ changed sys f (abstraction sys c)
  entry_set-changed ok f c = elim (Bool-cases c.section_window_open) [
    | inr shut ↦
        ap (λ r. abstraction sys r.1) (entry_set-shut ok f c shut)
        ∙ (abstraction-shut sys c shut ∙ sym (ap (changed sys f) (abstraction-shut sys c shut)))
    | inl w ↦ elim (Option-cases (get_elem? c.entries c.current_section)) [
      | inl m ↦
          ap (λ r. abstraction sys r.1) (untouched w m)
          ∙ (abstraction-missing c m ∙ sym (ap (changed sys f) (abstraction-missing c m)))
      | inr (e, m) ↦
          let inside = lt_of_get_elem? c.entries c.current_section m in
          ap (λ r. abstraction sys r.1) (entry_set-found ok f c e w (ground (arith, inside)) m)
          ∙ (written-abstraction c (f e) w inside
              ∙ sym (ap (changed sys f) (abstraction-open sys c e w m)))
    ]
  ]
    where
      untouched :
          c.section_window_open ≡ true
          → get_elem? c.entries c.current_section ≡ none
          → entry_set sys ok f c ≡ (false, c)
      untouched w m = elim (Bool-cases (ltb c.current_section (max_entries sys c))) [
        | inr full ↦ entry_set-full ok f c full w
        | inl room ↦ entry_set-missing ok f c w room m
      ]
