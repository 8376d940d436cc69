-- ===== src/Options/Kept.antt =====
-- What the variables keep over a whole run of `parse_args`.
use bootrom_tools.Base.{
  ℕ, zero, suc, ◌+◌, ◌≡◌, ◌∙◌, refl, sym, ap, Bool, true, false, ◌&&◌, ◌||◌, List, [], ◌∷◌, map,
  Option, none, some, All, All-set, arith, length, get_elem?, ◌==◌, if◌then◌else◌, Bool-cases, inl,
  inr, Option-cases,
}
use bootrom_tools.Options.{
  Optionx, Event, unrecognized, seen, Parser, Callback, flag, given, call, store_flag, init_optx,
  flag_callback, dispatch, process, preprocessed, parse_event, parse_loop, apply_defaults,
  parse_args,
}
use bootrom_tools.Options.Parse.{
  process_call, dispatch-matching, matching-short, event_ignored, event_called,
}

All-get :
    {A : Type 0} (P : A → Type 0) (xs : List A) (i : ℕ) (x : A)
    → get_elem? xs i ≡ some x
    → All P xs
    → P x
All-get P [] i x e h = cc
All-get P (y ∷ xs) zero x e h = let same : y ≡ x = cc in rw (sym same) (h.0)
All-get P (y ∷ xs) (suc i) x e h = All-get P xs i x e h.1

module _ (Vars : Type 0) (P : Vars → Type 0) where
  -- Every write of an option keeps the property: through its pointer, and by its callback, which
  -- is called with the option's own character.
  pub record IsKept (o : Optionx Vars) : Type 0 where
    pub put :
        (write : ℕ → Vars → Vars)
        → o.var_ptr ≡ some write
        → (n : ℕ) (v : Vars) → P v
        → P (write n v)
    pub called :
        (f : ℕ → List ℕ → Vars → Bool × Vars)
        → o.callback ≡ some (given f)
        → (optarg : List ℕ) (v : Vars) → P v
        → P (f o.short_name optarg v).1

  store_flag_put :
      (o : Optionx Vars) (vars : Vars) (r : Option (ℕ → Vars → Vars))
      → o.var_ptr ≡ r
      → ((write : ℕ → Vars → Vars) → r ≡ some write → (n : ℕ) (v : Vars) → P v → P (write n v))
      → P vars
      → P (store_flag Vars o vars).1
  unfolding store_flag
  store_flag_put o vars none e keeps h = rw (store_flag, e) h
  store_flag_put o vars (some write) e keeps h = rw (store_flag, e) (keeps write refl _ vars h)

  call_lem :
      (o : Optionx Vars) (c : Callback Vars) (optarg : List ℕ) (vars : Vars)
      → IsKept o
      → o.callback ≡ some c
      → P vars
      → P (call Vars (record o { count = o.count + 1 }) c o.short_name optarg vars).1
  unfolding call
  call_lem o flag optarg vars kept e h =
      store_flag_put (record o { count = o.count + 1 }) vars o.var_ptr refl kept.put h
  call_lem o (given f) optarg vars kept e h = kept.called f e optarg vars h

  process_vars :
      (i option : ℕ) (optarg : List ℕ) (p : Parser Vars) (o : Optionx Vars) (c : Callback Vars)
      → get_elem? p.optx i ≡ some o
      → o.callback ≡ some c
      → (process Vars i option optarg p).vars
        ≡ (call Vars (record o { count = o.count + 1 }) c option optarg p.vars).1
  unfolding process
  process_vars i option optarg p o c h e = ground (arith, h, e)

  process_same :
      (i option : ℕ) (optarg : List ℕ) (p : Parser Vars)
      → get_elem? p.optx i ≡ none
      → process Vars i option optarg p ≡ p
  unfolding process
  process_same i option optarg p h = ground (arith, h)

  process_skipped :
      (i option : ℕ) (optarg : List ℕ) (p : Parser Vars) (o : Optionx Vars)
      → get_elem? p.optx i ≡ some o
      → o.callback ≡ none
      → process Vars i option optarg p ≡ p
  unfolding process
  process_skipped i option optarg p o h e = ground (arith, h, e)

  abbrev Good : Parser Vars → Type 0
  Good p = All IsKept p.optx × P p.vars

  process-Good :
      (i option : ℕ) (optarg : List ℕ) (p : Parser Vars)
      → ((o : Optionx Vars) → get_elem? p.optx i ≡ some o → o.short_name ≡ option)
      → Good p
      → Good (process Vars i option optarg p)
  process-Good i option optarg p own good = elim (Option-cases (get_elem? p.optx i)) [
    | inl e ↦ rw (process_same i option optarg p e) good
    | inr (o, e) ↦ elim (Option-cases o.callback) [
      | inl idle ↦ rw (process_skipped i option optarg p o e idle) good
      | inr (c, some_call) ↦
          let kept = All-get IsKept p.optx i o e good.0 in
          (
            rw (process_call Vars i option optarg p o c e some_call) (
                All-set IsKept p.optx i (record o { count = o.count + 1 }) good.0
                  (record { put = kept.put; called = kept.called })),
            rw (process_vars i option optarg p o c e some_call)
                (rw (sym (own o e)) (call_lem o c optarg p.vars kept some_call good.1)),
          )
    ]
  ]

  apply_defaults_lem :
      (optx : List (Optionx Vars)) (vars : Vars)
      → All IsKept optx
      → P vars
      → P (apply_defaults Vars optx vars)
  unfolding apply_defaults
  apply_defaults_lem [] vars kept h = h
  apply_defaults_lem (o ∷ optx) vars kept h =
      apply_defaults_lem optx _ kept.1 (defaulted (o.count == 0 && o.has_default) o.var_ptr refl)
    where
      defaulted :
          (b : Bool) (r : Option (ℕ → Vars → Vars))
          → o.var_ptr ≡ r
          → P (if b then (elim r [ none ↦ vars | some put ↦ put o.default_val vars ]) else vars)
      defaulted false r e = h
      defaulted true none e = h
      defaulted true (some write) e = kept.0.put write e o.default_val vars h

  module _ (num_entries total_entries : ℕ) (preprocess : Option (ℕ → Vars → Vars))
      (before : (option : ℕ) (v : Vars)
        → P v
        → P (preprocessed Vars num_entries total_entries preprocess option v)) where
    seen-Good :
        (option : ℕ) (index : Option ℕ) (optarg : List ℕ) (p : Parser Vars) (r : Option ℕ)
        → dispatch Vars p.optx num_entries total_entries option index ≡ r
        → Good p
        → Good (parse_event Vars num_entries total_entries preprocess (seen option index optarg) p)
    seen-Good option index optarg p none e good =
        rw (event_ignored Vars num_entries total_entries preprocess option index optarg p e)
          (good.0, before option p.vars good.1)
    seen-Good option index optarg p (some i) e good =
        let start : Parser Vars = record p {
          vars = preprocessed Vars num_entries total_entries preprocess option p.vars;
        } in
        let (k, place) = dispatch-matching Vars p.optx num_entries total_entries option i index e in
        rw (event_called Vars num_entries total_entries preprocess option i index optarg p e) (
          process-Good i option optarg start
            (λ o at.
              matching-short Vars p.optx option k _ o refl (ap (get_elem? p.optx) (sym place) ∙ at))
            (good.0, before option p.vars good.1))

    event-Good :
        (e : Event Vars) (p : Parser Vars)
        → Good p
        → Good (parse_event Vars num_entries total_entries preprocess e p)
    unfolding parse_event
    event-Good (unrecognized arg) p good = good
    event-Good (seen option index optarg) p good = seen-Good option index optarg p _ refl good

    loop-Good :
        (events : List (Event Vars)) (p : Parser Vars)
        → Good p
        → Good (parse_loop Vars num_entries total_entries preprocess events p)
    unfolding parse_loop
    loop-Good [] p good = good
    loop-Good (e ∷ events) p good =
        loop-Good events (parse_event Vars num_entries total_entries preprocess e p)
          (event-Good e p good)

  -- Where every option of the table and the function that is called before each keep a property of
  -- the variables, `parse_args` keeps it, whatever getopt returns.
  pub parse_args_lem :
      (num_secondary : ℕ) (preprocess : Option (ℕ → Vars → Vars)) (events : List (Event Vars))
      (p : Parser Vars)
      → ((option : ℕ) (v : Vars) → P v → P (preprocessed Vars 0 0 preprocess option v))
      → All IsKept p.optx
      → P p.vars
      → P (parse_args Vars num_secondary preprocess events p).vars
  unfolding parse_args
  parse_args_lem num_secondary preprocess events p before kept h =
      (loop-Good (suc (length p.optx)) (suc (length p.optx) + num_secondary) preprocess before
        events (record p { vars = apply_defaults Vars p.optx p.vars; success = true })
        (kept, apply_defaults_lem p.optx p.vars kept h)).1

  flag_callback_given :
      (o : Optionx Vars) (r : Option (Callback Vars)) (f : ℕ → List ℕ → Vars → Bool × Vars)
      → o.callback ≡ r
      → flag_callback Vars o ≡ some (given f)
      → o.callback ≡ some (given f)
  unfolding flag_callback
  flag_callback_given o none f e h = absurd (ground (arith, h, e))
  flag_callback_given o (some c) f e h = ground (arith, h, e)

  init_optx-IsKept : (o : Optionx Vars) → IsKept o → IsKept (init_optx Vars o)
  unfolding init_optx
  init_optx-IsKept o kept = by_names o.long_names refl
    where
      by_names : (r : List (List ℕ)) → o.long_names ≡ r → IsKept (init_optx Vars o)
      by_names [] e = rw (init_optx, e) (record { put = kept.put; called = kept.called })
      by_names (name ∷ names) e = elim (Bool-cases (o.store_false || o.store_true)) [
        | inl flagged ↦
            rw (init_optx, e, flagged)
              (record {
                put = kept.put;
                called = λ f h. kept.called f (flag_callback_given o o.callback f refl h);
              })
        | inr plain ↦ rw (init_optx, e, plain) (record { put = kept.put; called = kept.called })
      ]

  -- The options as `new_argparse` sets them up.
  pub map-init_optx-IsKept :
      (optx : List (Optionx Vars)) → All IsKept optx → All IsKept (map (init_optx Vars) optx)
  map-init_optx-IsKept [] h = tt
  map-init_optx-IsKept (o ∷ optx) h = (init_optx-IsKept o h.0, map-init_optx-IsKept optx h.1)
