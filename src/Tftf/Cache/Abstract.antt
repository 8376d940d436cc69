-- ===== src/Tftf/Cache/Abstract.antt =====
-- The cache as its user sees it: the sections that are done, and the one that is open.
use bootrom_tools.Base.{
  ℕ, zero, suc, ◌+◌, ◌≡◌, refl, sym, ap, ◌∙◌, true, false, List, [], ◌∷◌, ◌++◌, Option, none, some,
  arith, if◌then◌else◌, get_elem?, take, append-nil, lt_of_get_elem?, inl, inr, Bool-cases,
  Option-cases,
}
use bootrom_tools.Files.{System}
use bootrom_tools.Tftf.Cache.{Entry, Cache, end_of, entry_close}

take-snoc :
    {A : Type 0} (n : ℕ) (xs : List A) (x : A)
    → get_elem? xs n ≡ some x
    → take (suc n) xs ≡ take n xs ++ (x ∷ [])
take-snoc n [] x h = cc
take-snoc zero (y ∷ xs) x h = let same : y ≡ x = cc in rw same refl
take-snoc (suc n) (y ∷ xs) x h = ap (◌∷◌ y) (take-snoc n xs x h)

take-next :
    {A : Type 0} (n : ℕ) (xs : List A) (x : A)
    → get_elem? xs n ≡ some x
    → take (n + 1) xs ≡ take n xs ++ (x ∷ [])
take-next n xs x h =
    let next : n + 1 ≡ suc n = omega arith in ap (λ k. take k xs) next ∙ take-snoc n xs x h

abbrev pub to_list : {A : Type 0} → Option A → List A
to_list none = []
to_list (some x) = x ∷ []

module _ (sys : System) where
  pub record Sections : Type 0 where
    pub done : List (Entry sys)
    pub pending : Option (Entry sys)

  abbrev pub all_of : Sections → List (Entry sys)
  all_of a = a.done ++ to_list a.pending

  abbrev pub closed : Sections → Sections
  closed a = record { done = all_of a; pending = none }

  abbrev pub begun : Entry sys → Sections → Sections
  begun e a = record { done = all_of a; pending = some e }

  abbrev pub changed : (Entry sys → Entry sys) → Sections → Sections
  changed f a = record a { pending = elim a.pending [ none ↦ none | some e ↦ some (f e) ] }

  abbrev pub abstraction : Cache sys → Sections
  abstraction c = record {
    done = take c.current_section c.entries;
    pending = if c.section_window_open then get_elem? c.entries c.current_section else none;
  }

  entry_close-shut : (c : Cache sys) → c.section_window_open ≡ false → entry_close sys c ≡ some c
  unfolding entry_close
  entry_close-shut c h = rw h refl

  entry_close-found :
      (c : Cache sys) (e : Entry sys)
      → c.section_window_open ≡ true
      → get_elem? c.entries c.current_section ≡ some e
      → entry_close sys c
        ≡ some (record c {
          section_load_address = end_of sys e.section;
          current_section = c.current_section + 1;
          section_window_open = false;
        })
  unfolding entry_close
  entry_close-found c e w h = ground (arith, w, h, lt_of_get_elem? c.entries c.current_section h)

  entry_close-missing :
      (c : Cache sys)
      → c.section_window_open ≡ true
      → get_elem? c.entries c.current_section ≡ none
      → entry_close sys c ≡ none
  unfolding entry_close
  entry_close-missing c w h = ground (arith, w, h)

  pub abstraction-shut :
      (c : Cache sys)
      → c.section_window_open ≡ false
      → abstraction c ≡ record { done = take c.current_section c.entries; pending = none }
  abstraction-shut c w = rw w refl

  pub abstraction-open :
      (c : Cache sys) (e : Entry sys)
      → c.section_window_open ≡ true
      → get_elem? c.entries c.current_section ≡ some e
      → abstraction c ≡ record { done = take c.current_section c.entries; pending = some e }
  abstraction-open c e w h = rw w (rw h refl)

  -- Closing keeps the sections and leaves none open.
  pub entry_close-closed :
      (c c' : Cache sys)
      → entry_close sys c ≡ some c'
      → (abstraction c' ≡ closed (abstraction c)) × (c'.section_window_open ≡ false)
  entry_close-closed c c' h = elim (Bool-cases c.section_window_open) [
    | inr shut ↦
        let same : c ≡ c' = cc (entry_close-shut c shut) in
        rw (sym same) (
          abstraction-shut c shut
              ∙ (ap (λ d. record { done = d; pending = none }) (sym (append-nil _))
                  ∙ sym (ap closed (abstraction-shut c shut))),
          shut,
        )
    | inl w ↦ elim (Option-cases (get_elem? c.entries c.current_section)) [
      | inl missing ↦ absurd (cc (entry_close-missing c w missing))
      | inr (e, found) ↦
          let after : Cache sys = record c {
            section_load_address = end_of sys e.section;
            current_section = c.current_section + 1;
            section_window_open = false;
          } in
          let same : after ≡ c' = cc (entry_close-found c e w found) in
          rw (sym same) (
            ap (λ d. record { done = d; pending = none })
                  (take-next c.current_section c.entries e found)
                ∙ sym (ap closed (abstraction-open c e w found)),
            refl,
          )
    ]
  ]
