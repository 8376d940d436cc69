-- ===== src/Ffff/Cache/Inv.antt =====
-- What holds of the element cache between two calls, and what no call can change.
use bootrom_tools.Base.{
  ℕ, ◌+◌, ◌≤◌, ◌<◌, ◌≡◌, ◌∙◌, refl, true, ◌&&◌, Option, none, some, arith, ltb, get_elem?, set,
  length-set, get_elem?-set_ne, lt_of_get_elem?, get_elem?-none_iff, ◌↔◌, Bool-cases, Option-cases,
  inl, inr,
}
use bootrom_tools.Files.{System}
use bootrom_tools.Ffff.{Element}
use bootrom_tools.Ffff.Cache.{
  Entry, Cache, countof, entry_close, update_current, opened, entry_open, entry_set,
  entry_set_class, entry_set_id, entry_set_length, entry_set_location, entry_set_generation,
}

module _ (sys : System) where
  -- The cursor is in the array or just past it, and in it while the window is open.
  pub record IsValid (c : Cache sys) : Type 0 where
    pub in_array : c.current_element ≤ countof sys c
    pub open_in_array : c.element_window_open ≡ true → c.current_element < countof sys c

  -- One call of the command line's handlers.
  pub data Step : Cache sys → Cache sys → Type 0 where
    close : (c : Cache sys) → Step c (entry_close sys c)
    open_new :
        {c c' : Cache sys} (t : ℕ) (f : Option sys.FileName)
        → entry_open sys t f c ≡ some (true, c')
        → Step c c'
    set_class : (c : Cache sys) (v : ℕ) → Step c (entry_set_class sys v c).1
    set_id : (c : Cache sys) (v : ℕ) → Step c (entry_set_id sys v c).1
    set_length : (c : Cache sys) (v : ℕ) → Step c (entry_set_length sys v c).1
    set_location : (c : Cache sys) (v : ℕ) → Step c (entry_set_location sys v c).1
    set_generation : (c : Cache sys) (v : ℕ) → Step c (entry_set_generation sys v c).1

  pub data Reach (c : Cache sys) : Cache sys → Type 0 where
    here : Reach c c
    next : {d e : Cache sys} → Reach c d → Step d e → Reach c e

  -- What a call keeps: the size of the array, the cursor's direction, and every closed entry.
  pub record Keeps (c c' : Cache sys) : Type 0 where
    pub same_size : countof sys c' ≡ countof sys c
    pub forward : c.current_element ≤ c'.current_element
    pub frozen : (i : ℕ) → i < c.current_element → get_elem? c'.entries i ≡ get_elem? c.entries i
    pub valid : IsValid c'

  entry_close-Keeps : (c : Cache sys) → IsValid c → Keeps c (entry_close sys c)
  unfolding entry_close
  entry_close-Keeps c v = record {
    same_size = ground arith;
    forward = ground arith;
    frozen = λ i h. ground arith;
    valid = ground arith;
  }

  -- Whatever is done to the entry under the cursor, which must be there, the others stand.
  update_current-Keeps :
      (c c' : Cache sys) (g : Entry sys → Entry sys) → update_current sys c g ≡ some c' → Keeps c c'
  unfolding update_current
  update_current-Keeps c c' g e = elim (Option-cases (get_elem? c.entries c.current_element)) [
    | inl missing ↦ absurd (ground arith)
    | inr (entry, found) ↦
        let result : c' ≡ record c { entries = set c.entries c.current_element (g entry) } =
          ground arith in
        let size = length-set c.entries c.current_element (g entry) in
        let inside = lt_of_get_elem? c.entries c.current_element found in
        rw result (record {
          same_size = size;
          forward = omega arith;
          frozen = λ i h. get_elem?-set_ne c.entries c.current_element i (g entry) (omega arith);
          valid = record {
            in_array = omega (arith, size);
            open_in_array = λ w. omega (arith, size);
          };
        })
  ]

  Keeps-trans : (c d e : Cache sys) → Keeps c d → Keeps d e → Keeps c e
  Keeps-trans c d e p q = record {
    same_size = q.same_size ∙ p.same_size;
    forward = omega arith;
    frozen = λ i h. q.frozen i (omega arith) ∙ p.frozen i h;
    valid = q.valid;
  }

  Keeps-refl : (c : Cache sys) → IsValid c → Keeps c c
  Keeps-refl c v = record {
    same_size = refl;
    forward = omega arith;
    frozen = λ i h. refl;
    valid = v;
  }

  entry_set-Keeps :
      (f : Element → Element) (c : Cache sys) → IsValid c → Keeps c (entry_set sys f c).1
  entry_set-Keeps f c v =
      elim (Bool-cases (c.element_window_open && ltb c.current_element (countof sys c))) [
        | inr off ↦ rw off (Keeps-refl c v)
        | inl on ↦
            elim (Option-cases (update_current sys c (λ e. record e { element = f e.element }))) [
              | inl missing ↦ rw (on, missing) (Keeps-refl c v)
              | inr (c', e) ↦ rw (on, e) (update_current-Keeps c c' _ e)
            ]
      ]

  entry_open-Keeps :
      (t : ℕ) (f : Option sys.FileName) (c c' : Cache sys)
      → IsValid c
      → entry_open sys t f c ≡ some (true, c')
      → Keeps c c'
  unfolding entry_open
  entry_open-Keeps t f c c' v e =
      let closed : Cache sys = record (entry_close sys c) { element_window_open = true } in
      elim (Option-cases (update_current sys closed (opened sys t f))) [
        | inl missing ↦ absurd (ground arith)
        | inr (d, found) ↦
            let result : c' ≡ d = ground arith in
            let kept = update_current-Keeps closed d (opened sys t f) found in
            let before = entry_close-Keeps c v in
            rw result (record {
              same_size = kept.same_size ∙ before.same_size;
              forward = omega arith;
              frozen = λ i h. kept.frozen i (omega arith) ∙ before.frozen i h;
              valid = kept.valid;
            })
      ]

  Step-Keeps : {c c' : Cache sys} → Step c c' → IsValid c → Keeps c c'
  unfolding entry_set_class entry_set_id entry_set_length entry_set_location entry_set_generation
  Step-Keeps (close c) v = entry_close-Keeps c v
  Step-Keeps (open_new {c} {c'} t f e) v = entry_open-Keeps t f c c' v e
  Step-Keeps (set_class c x) v = entry_set-Keeps _ c v
  Step-Keeps (set_id c x) v = entry_set-Keeps _ c v
  Step-Keeps (set_length c x) v = entry_set-Keeps _ c v
  Step-Keeps (set_location c x) v = entry_set-Keeps _ c v
  Step-Keeps (set_generation c x) v = entry_set-Keeps _ c v

  -- Over any sequence of calls on a valid cache, the cursor stays in the array (and strictly in it
  -- while the window is open) and never moves back, the array keeps its size, and an entry that
  -- has been closed never changes.
  pub Reach-Keeps : {c c' : Cache sys} → Reach c c' → IsValid c → Keeps c c'
  Reach-Keeps {c} here v = Keeps-refl c v
  Reach-Keeps {c} (next {d} {e} r s) v =
      let before = Reach-Keeps r v in Keeps-trans c d e before (Step-Keeps s before.valid)

  -- In a valid cache `entry_open` writes past the array exactly when the window is open on the
  -- last slot: the bounds test passes, the slot is closed, and the cursor leaves the array.
  pub entry_open-none_iff :
      (t : ℕ) (f : Option sys.FileName) (c : Cache sys)
      → IsValid c
      → (entry_open sys t f c ≡ none)
        ↔ ((c.element_window_open ≡ true) × (c.current_element + 1 ≡ countof sys c))
  unfolding entry_open
  entry_open-none_iff t f c v = ground (
    arith,
    get_elem?-none_iff c.entries c.current_element,
    get_elem?-none_iff c.entries (c.current_element + 1),
  )
