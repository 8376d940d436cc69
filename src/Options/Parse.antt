-- ===== src/Options/Parse.antt =====
-- What success of `parse_args` says.
use bootrom_tools.Base.{
  ℕ, suc, ◌+◌, ◌≡◌, ◌⊎◌, ◌∙◌, refl, sym, ap, true, false, ◌&&◌, not, List, [], ◌∷◌, Option, none,
  some, All, All-set, arith, get_elem?, set, if◌then◌else◌, ltb, leb, ◌==◌, ==_iff, Bool-cases, inl,
  inr,
}
use bootrom_tools.Options.{
  Optionx, Event, unrecognized, seen, Parser, Callback, find_short, matching, dispatch, process,
  preprocessed, parse_event,
}

module _ (Vars : Type 0) where
  find_short-here :
      (option : ℕ) (x : Optionx Vars) (optx : List (Optionx Vars))
      → (x.short_name == option) ≡ true
      → find_short Vars option (x ∷ optx) ≡ 0
  unfolding find_short
  find_short-here option x optx h = rw h refl

  find_short-skip :
      (option : ℕ) (x : Optionx Vars) (optx : List (Optionx Vars))
      → (x.short_name == option) ≡ false
      → find_short Vars option (x ∷ optx) ≡ suc (find_short Vars option optx)
  unfolding find_short
  find_short-skip option x optx h = rw h refl

  find_short-found :
      (option : ℕ) (optx : List (Optionx Vars)) (o : Optionx Vars)
      → get_elem? optx (find_short Vars option optx) ≡ some o
      → o.short_name ≡ option
  find_short-found option [] o h = cc
  find_short-found option (x ∷ optx) o h = elim (Bool-cases (x.short_name == option)) [
    | inl e ↦
        let found = ap (get_elem? (x ∷ optx)) (sym (find_short-here option x optx e)) ∙ h in
        let same : x ≡ o = cc in rw (sym same) ((==_iff _ _).0 e)
    | inr e ↦
        find_short-found option optx o
          (ap (get_elem? (x ∷ optx)) (sym (find_short-skip option x optx e)) ∙ h)
  ]

  matching-some :
      (optx : List (Optionx Vars)) (option index : ℕ) (x : Optionx Vars)
      → get_elem? optx index ≡ some x
      → (x.short_name == option) ≡ true
      → matching Vars optx option index ≡ index
  unfolding matching
  matching-some optx option index x h e = ground (arith, h, e)

  matching-other :
      (optx : List (Optionx Vars)) (option index : ℕ) (x : Optionx Vars)
      → get_elem? optx index ≡ some x
      → (x.short_name == option) ≡ false
      → matching Vars optx option index ≡ find_short Vars option optx
  unfolding matching
  matching-other optx option index x h e = ground (arith, h, e)

  matching-none :
      (optx : List (Optionx Vars)) (option index : ℕ)
      → get_elem? optx index ≡ none
      → matching Vars optx option index ≡ find_short Vars option optx
  unfolding matching
  matching-none optx option index h = ground (arith, h)

  pub matching-short :
      (optx : List (Optionx Vars)) (option index : ℕ) (r : Option (Optionx Vars)) (o : Optionx Vars)
      → get_elem? optx index ≡ r
      → get_elem? optx (matching Vars optx option index) ≡ some o
      → o.short_name ≡ option
  matching-short optx option index none o e h =
      find_short-found option optx o
        (ap (get_elem? optx) (sym (matching-none optx option index e)) ∙ h)
  matching-short optx option index (some x) o e h = elim (Bool-cases (x.short_name == option)) [
    | inl same ↦
        let found =
          sym e ∙ (ap (get_elem? optx) (sym (matching-some optx option index x e same)) ∙ h) in
        let same_entry : x ≡ o = cc in rw (sym same_entry) ((==_iff _ _).0 same)
    | inr other ↦
        find_short-found option optx o
          (ap (get_elem? optx) (sym (matching-other optx option index x e other)) ∙ h)
  ]

  pub dispatch-matching :
      (optx : List (Optionx Vars)) (num_entries total_entries option i : ℕ) (index : Option ℕ)
      → dispatch Vars optx num_entries total_entries option index ≡ some i
      → (k : ℕ) × (i ≡ matching Vars optx option k)
  unfolding dispatch
  dispatch-matching optx num_entries total_entries option i none h = cc
  dispatch-matching optx num_entries total_entries option i (some index) h =
      let is_secondary = leb num_entries index && ltb index total_entries in
      let k : ℕ =
        if not (option == 0) && is_secondary then find_short Vars option optx else index in
      elim (Bool-cases (not (option == 0) && ltb k num_entries)) [
        | inl inside ↦ (k, ground (arith, h, inside))
        | inr outside ↦ absurd (ground (arith, h, outside))
      ]

  -- Some option that getopt returned has the character.
  abbrev pub Asks : ℕ → Event Vars → Type 0
  Asks short_name (unrecognized offending_arg) = ⊥
  Asks short_name (seen option option_index optarg) = short_name ≡ option

  -- An option is counted only if it was asked for.
  abbrev pub Counted : (ℕ → Type 0) → Optionx Vars → Type 0
  Counted P o = (o.count ≡ 0) ⊎ P o.short_name

  pub process_call :
      (i option : ℕ) (optarg : List ℕ) (p : Parser Vars) (o : Optionx Vars) (c : Callback Vars)
      → get_elem? p.optx i ≡ some o
      → o.callback ≡ some c
      → (process Vars i option optarg p).optx ≡ set p.optx i (record o { count = o.count + 1 })
  unfolding process
  process_call i option optarg p o c h e = ground (arith, h, e)

  pub process_idle :
      (i option : ℕ) (optarg : List ℕ) (p : Parser Vars) (o : Optionx Vars)
      → get_elem? p.optx i ≡ some o
      → o.callback ≡ none
      → (process Vars i option optarg p).optx ≡ p.optx
  unfolding process
  process_idle i option optarg p o h e = ground (arith, h, e)

  pub process-none :
      (i option : ℕ) (optarg : List ℕ) (p : Parser Vars)
      → get_elem? p.optx i ≡ none
      → (process Vars i option optarg p).optx ≡ p.optx
  unfolding process
  process-none i option optarg p h = ground (arith, h)

  pub process_success :
      (i option : ℕ) (optarg : List ℕ) (p : Parser Vars)
      → (process Vars i option optarg p).success ≡ true
      → p.success ≡ true
  unfolding process
  process_success i option optarg p h = ground (arith, h)

  pub process-Counted :
      (P : ℕ → Type 0) (i option : ℕ) (optarg : List ℕ) (p : Parser Vars)
      (r : Option (Optionx Vars))
      → get_elem? p.optx i ≡ r
      → ((o : Optionx Vars) → get_elem? p.optx i ≡ some o → P o.short_name)
      → All (Counted P) p.optx
      → All (Counted P) (process Vars i option optarg p).optx
  process-Counted P i option optarg p none e asked h = rw (process-none i option optarg p e) h
  process-Counted P i option optarg p (some o) e asked h = by_callback o.callback refl
    where
      by_callback :
          (c : Option (Callback Vars))
          → o.callback ≡ c
          → All (Counted P) (process Vars i option optarg p).optx
      by_callback none none_yet = rw (process_idle i option optarg p o e none_yet) h
      by_callback (some c) some_call =
          rw (process_call i option optarg p o c e some_call)
            (All-set (Counted P) p.optx i (record o { count = o.count + 1 }) h (inr (asked o e)))

  module _ (num_entries total_entries : ℕ) (preprocess : Option (ℕ → Vars → Vars)) where
    pub event_unrecognized :
        (arg : List ℕ) (p : Parser Vars)
        → (parse_event Vars num_entries total_entries preprocess (unrecognized arg) p).success
          ≡ false
    unfolding parse_event
    event_unrecognized arg p = refl

    pub event_ignored :
        (option : ℕ) (index : Option ℕ) (optarg : List ℕ) (p : Parser Vars)
        → dispatch Vars p.optx num_entries total_entries option index ≡ none
        → parse_event Vars num_entries total_entries preprocess (seen option index optarg) p
          ≡ record p { vars = preprocessed Vars num_entries total_entries preprocess option p.vars }
    unfolding parse_event
    event_ignored option index optarg p h = ground (arith, h)

    pub event_called :
        (option i : ℕ) (index : Option ℕ) (optarg : List ℕ) (p : Parser Vars)
        → dispatch Vars p.optx num_entries total_entries option index ≡ some i
        → parse_event Vars num_entries total_entries preprocess (seen option index optarg) p
          ≡ process Vars i option optarg (record p {
            vars = preprocessed Vars num_entries total_entries preprocess option p.vars;
          })
    unfolding parse_event
    event_called option i index optarg p h = ground (arith, h)
