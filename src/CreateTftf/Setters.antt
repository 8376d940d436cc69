-- ===== src/CreateTftf/Setters.antt =====
-- The functions that set a number of the open section, and the one that closes it, keep the
-- invariant.
use bootrom_tools.Base.{
  ℕ, ◌≡◌, refl, sym, Bool, true, false, List, [], ◌∷◌, Option, none, some, All, inl, inr, arith,
  Bool-cases, if◌then◌else◌,
}
use bootrom_tools.Files.{System}
use bootrom_tools.Ffff
use bootrom_tools.Options.{get_num}
use bootrom_tools.Options.Makers.Kept
use bootrom_tools.Tftf.{Format}
use bootrom_tools.Tftf.Cache.{
  Entry, Cache, entry_close, entry_set, entry_set_class, entry_set_id, entry_set_load_address,
}
use bootrom_tools.Tftf.Cache.Abstract.{abstraction, entry_close-closed}
use bootrom_tools.Tftf.Cache.Changes.{entry_set-changed}
use bootrom_tools.CreateTftf.{
  State, set_number, handle_section_class, handle_section_id, handle_section_load_address,
  close_section_if_needed, is_in, section_args, with_cache,
}
use bootrom_tools.CreateTftf.Handlers.{IsGood, IsGoodResult}
use bootrom_tools.CreateTftf.Order.{HasDistinctTypes, type_of, IsUnplaced}
use bootrom_tools.CreateTftf.Sound.{closed-IsSound, changed-IsSound, placed, placed-IsSound}

All-always : {A : Type 0} (P : A → Type 0) (xs : List A) → ((x : A) → P x) → All P xs
All-always P [] h = tt
All-always P (x ∷ xs) h = (h x, All-always P xs h)

module _ (sys : System) (fmt : Format) (distinct : HasDistinctTypes fmt) (ffff : Ffff.Format)
    (strtoul : List ℕ → ℕ × List ℕ) (file_name : List ℕ → sys.FileName) where
  -- A number that is stored, or that is none.
  set_number-IsGood :
      (set : ℕ → Cache sys → Bool × Cache sys) (optarg : List ℕ) (s : State sys)
      → ((v : ℕ) → IsGood sys fmt distinct (record s { cache = (set v s.cache).1 }))
      → IsGood sys fmt distinct s
      → IsGoodResult sys fmt distinct (set_number sys fmt ffff strtoul file_name set optarg s)
  set_number-IsGood set optarg s stored h = by_number (get_num (State sys) strtoul optarg)
    where
      by_number :
          (r : Bool × ℕ)
          → IsGoodResult sys fmt distinct (
              let (success, num) = r in
              if success then with_cache sys s (set num s.cache) else some (false, s))
      by_number (false, num) = h
      by_number (true, num) = stored num

  -- A setter that touches neither the type nor the address.
  kept_by :
      (f : Entry sys → Entry sys) (s : State sys)
      → ((e : Entry sys) → type_of fmt sys (f e) ≡ type_of fmt sys e)
      → ((e : Entry sys) → IsUnplaced fmt sys e → IsUnplaced fmt sys (f e))
      → IsGood sys fmt distinct s
      → IsGood sys fmt distinct (record s { cache = (entry_set sys true f s.cache).1 })
  kept_by f s same keeps h = rw (entry_set-changed sys true f s.cache) (
      changed-IsSound fmt distinct sys f (abstraction sys s.cache) same (λ w. All-always _ _ keeps)
        h)

  pub handle_section_class-IsGood :
      (optarg : List ℕ) (s : State sys)
      → IsGood sys fmt distinct s
      → IsGoodResult sys fmt distinct (handle_section_class sys fmt ffff strtoul file_name optarg s)
  unfolding handle_section_class entry_set_class
  handle_section_class-IsGood optarg s h =
      set_number-IsGood (entry_set_class sys) optarg s (λ v. kept_by _ s (λ e. refl) (λ e u. u) h) h

  pub handle_section_id-IsGood :
      (optarg : List ℕ) (s : State sys)
      → IsGood sys fmt distinct s
      → IsGoodResult sys fmt distinct (handle_section_id sys fmt ffff strtoul file_name optarg s)
  unfolding handle_section_id entry_set_id
  handle_section_id-IsGood optarg s h =
      set_number-IsGood (entry_set_id sys) optarg s (λ v. kept_by _ s (λ e. refl) (λ e u. u) h) h

  load_address-free :
      (optarg : List ℕ) (s : State sys)
      → s.restricted_address ≡ false
      → handle_section_load_address sys fmt ffff strtoul file_name optarg s
        ≡ set_number sys fmt ffff strtoul file_name (entry_set_load_address sys) optarg s
  unfolding handle_section_load_address
  load_address-free optarg s h = ground (arith, h)

  load_address-refused :
      (optarg : List ℕ) (s : State sys)
      → s.restricted_address ≡ true
      → handle_section_load_address sys fmt ffff strtoul file_name optarg s ≡ some (false, s)
  unfolding handle_section_load_address
  load_address-refused optarg s h = ground (arith, h)

  entry_set_load_address-IsGood :
      (v : ℕ) (s : State sys)
      → s.restricted_address ≡ false
      → IsGood sys fmt distinct s
      → IsGood sys fmt distinct (record s { cache = (entry_set_load_address sys v s.cache).1 })
  unfolding entry_set_load_address
  entry_set_load_address-IsGood v s free h =
      rw (entry_set-changed sys true (placed fmt distinct sys v) s.cache)
        (rw free (placed-IsSound fmt distinct sys v (abstraction sys s.cache) (rw (sym free) h)))

  pub handle_section_load_address-IsGood :
      (optarg : List ℕ) (s : State sys)
      → IsGood sys fmt distinct s
      → IsGoodResult sys fmt distinct
          (handle_section_load_address sys fmt ffff strtoul file_name optarg s)
  handle_section_load_address-IsGood optarg s h = elim (Bool-cases s.restricted_address) [
    | inl restricted ↦ rw (load_address-refused optarg s restricted) h
    | inr free ↦ rw (load_address-free optarg s free) (
        set_number-IsGood (entry_set_load_address sys) optarg s
          (λ v. entry_set_load_address-IsGood v s free h) h)
  ]

  abbrev pub IsGoodState : Option (State sys) → Type 0
  IsGoodState = Kept.IsGoodState (State sys) (IsGood sys fmt distinct)

  pub close_section_if_needed-IsGood :
      (option : ℕ) (s : State sys)
      → IsGood sys fmt distinct s
      → IsGoodState (close_section_if_needed sys fmt ffff strtoul file_name option s)
  unfolding close_section_if_needed
  close_section_if_needed-IsGood option s h = elim (Bool-cases (is_in option section_args)) [
    | inl kept ↦ rw kept h
    | inr other ↦ rw other (by_close (entry_close sys s.cache) refl)
  ]
    where
      by_close :
          (r : Option (Cache sys))
          → entry_close sys s.cache ≡ r
          → IsGoodState (elim r [
            | none ↦ none
            | some c ↦ some (record s { restricted_address = false; cache = c })
          ])
      by_close none e = tt
      by_close (some c) e =
          rw (entry_close-closed sys s.cache c e).0
            (closed-IsSound fmt distinct sys (abstraction sys s.cache) h)
