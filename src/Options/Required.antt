-- ===== src/Options/Required.antt =====
-- What success of `parse_args` says.
use bootrom_tools.Base.{
  ℕ, zero, suc, ◌+◌, ◌≡◌, ◌⊎◌, ◌∙◌, refl, sym, ap, Bool, true, false, List, [], ◌∷◌, map, Option,
  none, some, All, Any, arith, length, get_elem?, set, inl, inr,
}
use bootrom_tools.Options.{
  Optionx, Event, unrecognized, seen, Parser, Callback, dispatch, process, preprocessed,
  parse_event, parse_loop, apply_defaults, none_missing, parse_args,
}
use bootrom_tools.Options.Parse.{
  Asks, Counted, process_success, process-Counted, process_call, process_idle, process-none,
  dispatch-matching, matching-short, event_unrecognized, event_ignored, event_called,
}

module _ (Vars : Type 0) where
  -- What of an option no call changes.
  abbrev profile : Optionx Vars → ℕ × Bool
  profile o = (o.short_name, o.required)

  map-set_same :
      (optx : List (Optionx Vars)) (i : ℕ) (o v : Optionx Vars)
      → get_elem? optx i ≡ some o
      → profile v ≡ profile o
      → map profile (set optx i v) ≡ map profile optx
  map-set_same [] i o v h e = refl
  map-set_same (x ∷ optx) zero o v h e =
      let same : x ≡ o = cc in ap (λ q. q ∷ map profile optx) (e ∙ ap profile (sym same))
  map-set_same (x ∷ optx) (suc i) o v h e = ap (◌∷◌ (profile x)) (map-set_same optx i o v h e)

  process-profile :
      (i option : ℕ) (optarg : List ℕ) (p : Parser Vars) (r : Option (Optionx Vars))
      → get_elem? p.optx i ≡ r
      → map profile (process Vars i option optarg p).optx ≡ map profile p.optx
  process-profile i option optarg p none e =
      ap (map profile) (process-none Vars i option optarg p e)
  process-profile i option optarg p (some o) e = by_callback o.callback refl
    where
      by_callback :
          (c : Option (Callback Vars))
          → o.callback ≡ c
          → map profile (process Vars i option optarg p).optx ≡ map profile p.optx
      by_callback none idle = ap (map profile) (process_idle Vars i option optarg p o e idle)
      by_callback (some c) called =
          ap (map profile) (process_call Vars i option optarg p o c e called)
          ∙ map-set_same p.optx i o (record o { count = o.count + 1 }) e refl

  -- What a step of the loop keeps, seen from a later success.
  pub record Keeps (P : ℕ → Type 0) (p p' : Parser Vars) : Type 0 where
    pub success : p.success ≡ true
    pub profiles : map profile p'.optx ≡ map profile p.optx
    pub counted : All (Counted Vars P) p.optx → All (Counted Vars P) p'.optx

  abbrev pub IsRecognized : Event Vars → Type 0
  IsRecognized (unrecognized arg) = ⊥
  IsRecognized (seen option index optarg) = Unit

  module _ (num_entries total_entries : ℕ) (preprocess : Option (ℕ → Vars → Vars))
      (P : ℕ → Type 0) where
    seen-Keeps :
        (option : ℕ) (index : Option ℕ) (optarg : List ℕ) (p : Parser Vars) (r : Option ℕ)
        → dispatch Vars p.optx num_entries total_entries option index ≡ r
        → P option
        → (parse_event Vars num_entries total_entries preprocess
            (seen option index optarg)
            p).success
          ≡ true
        → Keeps P p
            (parse_event Vars num_entries total_entries preprocess (seen option index optarg) p)
    seen-Keeps option index optarg p none e asked h =
        let step =
          event_ignored Vars num_entries total_entries preprocess option index optarg p e in
        let ok = ap (λ (q : Parser Vars). q.success) (sym step) ∙ h in
        rw step (record { success = ok; profiles = refl; counted = λ c. c })
    seen-Keeps option index optarg p (some i) e asked h =
        let step =
          event_called Vars num_entries total_entries preprocess option i index optarg p e in
        let start : Parser Vars = record p {
          vars = preprocessed Vars num_entries total_entries preprocess option p.vars;
        } in
        let ok = ap (λ (q : Parser Vars). q.success) (sym step) ∙ h in
        let (k, place) = dispatch-matching Vars p.optx num_entries total_entries option i index e in
        rw step (record {
          success = process_success Vars i option optarg start ok;
          profiles = process-profile i option optarg start _ refl;
          counted = process-Counted Vars P i option optarg start _ refl (λ o at.
              rw
                (matching-short Vars p.optx option k _ o refl
                  (ap (get_elem? p.optx) (sym place) ∙ at))
                asked);
        })

    event-Keeps :
        (e : Event Vars) (p : Parser Vars)
        → ((c : ℕ) → Asks Vars c e → P c)
        → (parse_event Vars num_entries total_entries preprocess e p).success ≡ true
        → IsRecognized e × Keeps P p (parse_event Vars num_entries total_entries preprocess e p)
    event-Keeps (unrecognized arg) p asked h =
        let failed = event_unrecognized Vars num_entries total_entries preprocess arg p in
        absurd (ground (arith, h, failed))
    event-Keeps (seen option index optarg) p asked h =
        (tt, seen-Keeps option index optarg p _ refl (asked option refl) h)

    loop-Keeps :
        (events : List (Event Vars)) (p : Parser Vars)
        → ((c : ℕ) → Any (Asks Vars c) events → P c)
        → (parse_loop Vars num_entries total_entries preprocess events p).success ≡ true
        → All IsRecognized events
          × Keeps P p (parse_loop Vars num_entries total_entries preprocess events p)
    unfolding parse_loop
    loop-Keeps [] p asked h = (tt, record { success = h; profiles = refl; counted = λ c. c })
    loop-Keeps (e ∷ events) p asked h =
        let rest =
          loop-Keeps events (parse_event Vars num_entries total_entries preprocess e p)
            (λ c a. asked c (inr a)) h in
        let first = event-Keeps e p (λ c a. asked c (inl a)) rest.1.success in
        (
          (first.0, rest.0),
          record {
            success = first.1.success;
            profiles = rest.1.profiles ∙ first.1.profiles;
            counted = λ c. rest.1.counted (first.1.counted c);
          },
        )

  none_missing-Counted :
      (P : ℕ → Type 0) (optx : List (Optionx Vars))
      → none_missing Vars optx ≡ true
      → All (Counted Vars P) optx
      → All (λ q. (q.1 ≡ false) ⊎ P q.0) (map profile optx)
  unfolding none_missing
  none_missing-Counted P [] h c = tt
  none_missing-Counted P (o ∷ optx) h c = (
    elim c.0 [ inl fresh ↦ inl (ground (arith, h, fresh)) | inr asked ↦ inr asked ],
    none_missing-Counted P optx (ground (arith, h)) c.1,
  )

  of_profiles :
      (P : ℕ → Type 0) (optx : List (Optionx Vars))
      → All (λ q. (q.1 ≡ false) ⊎ P q.0) (map profile optx)
      → All (λ o. (o.required ≡ false) ⊎ P o.short_name) optx
  of_profiles P [] h = tt
  of_profiles P (o ∷ optx) h = (h.0, of_profiles P optx h.1)

  zero-Counted :
      (P : ℕ → Type 0) (optx : List (Optionx Vars))
      → All (λ o. o.count ≡ 0) optx
      → All (Counted Vars P) optx
  zero-Counted P [] h = tt
  zero-Counted P (o ∷ optx) h = (inl h.0, zero-Counted P optx h.1)

  -- Where no option has been counted before: if `parse_args` reports success, getopt recognized
  -- every option, and has returned the short name of each option that is required.
  pub parse_args_required :
      (num_secondary : ℕ) (preprocess : Option (ℕ → Vars → Vars)) (events : List (Event Vars))
      (p : Parser Vars)
      → All (λ o. o.count ≡ 0) p.optx
      → (parse_args Vars num_secondary preprocess events p).success ≡ true
      → All IsRecognized events
        × All (λ o. (o.required ≡ false) ⊎ Any (Asks Vars o.short_name) events) p.optx
  unfolding parse_args
  parse_args_required num_secondary preprocess events p fresh h =
      let num_entries = suc (length p.optx) in
      let start : Parser Vars = record p {
        vars = apply_defaults Vars p.optx p.vars;
        success = true;
      } in
      let final =
        parse_loop Vars num_entries (num_entries + num_secondary) preprocess events start in
      let asked = λ (c : ℕ). Any (Asks Vars c) events in
      let kept =
        loop-Keeps num_entries (num_entries + num_secondary) preprocess asked events start
          (λ c a. a) (ground (arith, h)) in
      let complete : none_missing Vars final.optx ≡ true = ground (arith, h) in
      let all =
        none_missing-Counted asked final.optx complete
          (kept.1.counted (zero-Counted asked p.optx fresh)) in
      (kept.0, of_profiles asked p.optx (rw kept.1.profiles at all))
