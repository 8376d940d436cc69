-- ===== src/CreateTftf/Handlers.antt =====
-- The functions that the options of a section call keep the invariant.
use bootrom_tools.Base.{
  ℕ, ◌≡◌, ◌⊎◌, refl, ap, ◌∙◌, Bool, true, false, List, Option, none, some, inl, inr, arith,
  Bool-cases,
}
use bootrom_tools.Files.{System}
use bootrom_tools.Ffff
use bootrom_tools.Options.Makers.Kept
use bootrom_tools.Tftf.{Format}
use bootrom_tools.Tftf.Cache.{Cache, entry_open, entry_set_load_address}
use bootrom_tools.Tftf.Cache.Abstract.{abstraction, changed}
use bootrom_tools.Tftf.Cache.Changes.{entry_open-Begun, entry_set-changed}
use bootrom_tools.CreateTftf.{
  State, open_section, open_unless_blocked, open_restricted, open_manifest, handle_section_normal,
  with_cache,
}
use bootrom_tools.CreateTftf.Order.{
  HasDistinctTypes, IsRestricted, IsCodeOrData, code_plain, data_plain, manifest_plain,
  manifest_other,
}
use bootrom_tools.CreateTftf.Sound.{
  IsSound, begun-IsSound, restricted-IsSound, blocked-IsSound, refused-IsSound, idle-IsSound,
  placed,
}

module _ (sys : System) (fmt : Format) (distinct : HasDistinctTypes fmt) where
  -- The invariant of the program's state.
  abbrev pub IsGood : State sys → Type 0
  IsGood s =
      IsSound fmt distinct sys s.restricted_address s.code_data_blocked s.code_data_while_blocked
        (abstraction sys s.cache)

  abbrev pub IsGoodResult : Option (Bool × State sys) → Type 0
  IsGoodResult = Kept.IsGoodResult (State sys) IsGood

  module _ (ffff : Ffff.Format) (strtoul : List ℕ → ℕ × List ℕ)
      (file_name : List ℕ → sys.FileName) where
    open_section-IsGood :
        (t : ℕ) (optarg : List ℕ) (s : State sys) (r : Bool)
        → (IsRestricted fmt t → ⊥)
        → (IsCodeOrData fmt t → ⊥) ⊎ (s.code_data_blocked ≡ false)
        → s.restricted_address ≡ false
        → IsSound fmt distinct sys r s.code_data_blocked s.code_data_while_blocked
            (abstraction sys s.cache)
        → IsGoodResult (open_section sys fmt ffff strtoul file_name t optarg s)
    open_section-IsGood t optarg s r plain first free h =
        by_result (entry_open sys t (some (file_name optarg)) s.cache) refl
      where
        by_result :
            (o : Option (Bool × Cache sys))
            → entry_open sys t (some (file_name optarg)) s.cache ≡ o
            → IsGoodResult (elim o [ none ↦ none | some result ↦ with_cache sys s result ])
        by_result none e = tt
        by_result (some (ok, c)) e =
            elim (entry_open-Begun sys t (some (file_name optarg)) s.cache ok c e) [
              | inl (failed, same, idle) ↦
                  rw free (rw same (idle-IsSound fmt distinct sys (abstraction sys s.cache) idle h))
              | inr (done, (address, d, step)) ↦ rw free (
                  rw step (
                    begun-IsSound fmt distinct sys t (some (file_name optarg)) address d
                      (abstraction sys s.cache) plain first h))
            ]

    unless_blocked-open :
        (t : ℕ) (optarg : List ℕ) (s : State sys)
        → s.code_data_blocked ≡ false
        → open_unless_blocked sys fmt ffff strtoul file_name t optarg s
          ≡ open_section sys fmt ffff strtoul file_name t optarg s
    unfolding open_unless_blocked
    unless_blocked-open t optarg s h = ground (arith, h)

    open_unless_blocked-IsGood :
        (t : ℕ) (optarg : List ℕ) (s : State sys) (r : Bool)
        → (IsRestricted fmt t → ⊥)
        → s.restricted_address ≡ false
        → IsSound fmt distinct sys r s.code_data_blocked s.code_data_while_blocked
            (abstraction sys s.cache)
        → IsGoodResult (open_unless_blocked sys fmt ffff strtoul file_name t optarg s)
    unfolding open_unless_blocked
    open_unless_blocked-IsGood t optarg s r plain free h = elim (Bool-cases s.code_data_blocked) [
      | inl blocked ↦
          rw (open_unless_blocked, blocked)
            (rw free (refused-IsSound fmt distinct sys (abstraction sys s.cache) h))
      | inr unblocked ↦
          rw (unless_blocked-open t optarg s unblocked)
            (open_section-IsGood t optarg s r plain (inr unblocked) free h)
    ]

    entry_set_load_address-changed :
        (address : ℕ) (c : Cache sys)
        → abstraction sys (entry_set_load_address sys address c).1
          ≡ changed sys (placed fmt distinct sys address) (abstraction sys c)
    unfolding entry_set_load_address
    entry_set_load_address-changed address c = entry_set-changed sys true _ c

    open_restricted-IsGood :
        (t : ℕ) (optarg : List ℕ) (s : State sys) (r : Bool)
        → IsRestricted fmt t
        → IsSound fmt distinct sys r s.code_data_blocked s.code_data_while_blocked
            (abstraction sys s.cache)
        → IsGoodResult (open_restricted sys fmt ffff strtoul file_name t optarg s)
    unfolding open_restricted
    open_restricted-IsGood t optarg s r restricted h =
        by_result (entry_open sys t (some (file_name optarg)) s.cache) refl
      where
        by_result :
            (o : Option (Bool × Cache sys))
            → entry_open sys t (some (file_name optarg)) s.cache ≡ o
            → IsGoodResult (open_restricted sys fmt ffff strtoul file_name t optarg s)
        by_result none e = rw (open_restricted, e) tt
        by_result (some (false, c)) e =
            elim (entry_open-Begun sys t (some (file_name optarg)) s.cache false c e) [
              | inl (failed, same, idle) ↦
                  rw (open_restricted, e)
                    (rw same (blocked-IsSound fmt distinct sys (abstraction sys s.cache) h))
              | inr (done, new) ↦ absurd (ground (arith, done))
            ]
        by_result (some (true, c)) e =
            elim (entry_open-Begun sys t (some (file_name optarg)) s.cache true c e) [
              | inl (failed, same, idle) ↦ absurd (ground (arith, failed))
              | inr (done, (address, d, step)) ↦
                  rw (open_restricted, e)
                    (rw
                      (entry_set_load_address-changed fmt.data_address_to_be_ignored c
                        ∙ ap (changed sys (placed fmt distinct sys fmt.data_address_to_be_ignored))
                            step)
                      ((restricted-IsSound fmt distinct sys t (some (file_name optarg)) address d
                        (abstraction sys s.cache) restricted h)))
            ]

    -- The characters of the options that open a section.
    abbrev pub OpensSection : ℕ → Type 0
    OpensSection option =
        (option ≡ b'C')
        ⊎ ((option ≡ b'D') ⊎ ((option ≡ b'M') ⊎ ((option ≡ b'G') ⊎ (option ≡ b'R'))))

    abbrev cleared : State sys → State sys
    cleared s = record s { restricted_address = false }

    handle_section_normal-C :
        (optarg : List ℕ) (s : State sys)
        → handle_section_normal sys fmt ffff strtoul file_name b'C' optarg s
          ≡ open_unless_blocked sys fmt ffff strtoul file_name fmt.section_raw_code optarg
              (cleared s)
    unfolding handle_section_normal
    handle_section_normal-C optarg s = refl

    handle_section_normal-D :
        (optarg : List ℕ) (s : State sys)
        → handle_section_normal sys fmt ffff strtoul file_name b'D' optarg s
          ≡ open_unless_blocked sys fmt ffff strtoul file_name fmt.section_raw_data optarg
              (cleared s)
    unfolding handle_section_normal
    handle_section_normal-D optarg s = refl

    handle_section_normal-G :
        (optarg : List ℕ) (s : State sys)
        → handle_section_normal sys fmt ffff strtoul file_name b'G' optarg s
          ≡ open_restricted sys fmt ffff strtoul file_name fmt.section_signature optarg (cleared s)
    unfolding handle_section_normal
    handle_section_normal-G optarg s = refl

    handle_section_normal-R :
        (optarg : List ℕ) (s : State sys)
        → handle_section_normal sys fmt ffff strtoul file_name b'R' optarg s
          ≡ open_restricted sys fmt ffff strtoul file_name fmt.section_certificate optarg
              (cleared s)
    unfolding handle_section_normal
    handle_section_normal-R optarg s = refl

    handle_section_normal-M :
        (optarg : List ℕ) (s : State sys)
        → handle_section_normal sys fmt ffff strtoul file_name b'M' optarg s
          ≡ open_section sys fmt ffff strtoul file_name fmt.section_manifest optarg (cleared s)
    unfolding handle_section_normal open_manifest
    handle_section_normal-M optarg s = refl

    -- Each option that opens a section keeps the invariant.
    pub handle_section_normal-IsGood :
        (option : ℕ) (optarg : List ℕ) (s : State sys)
        → OpensSection option
        → IsGood s
        → IsGoodResult (handle_section_normal sys fmt ffff strtoul file_name option optarg s)
    handle_section_normal-IsGood option optarg s (inl e) h = rw e (
        rw (handle_section_normal-C optarg s) (
          open_unless_blocked-IsGood fmt.section_raw_code optarg (cleared s) s.restricted_address
            (code_plain fmt distinct) refl h))
    handle_section_normal-IsGood option optarg s (inr (inl e)) h = rw e (
        rw (handle_section_normal-D optarg s) (
          open_unless_blocked-IsGood fmt.section_raw_data optarg (cleared s) s.restricted_address
            (data_plain fmt distinct) refl h))
    handle_section_normal-IsGood option optarg s (inr (inr (inl e))) h = rw e (
        rw (handle_section_normal-M optarg s) (
          open_section-IsGood fmt.section_manifest optarg (cleared s) s.restricted_address
            (manifest_plain fmt distinct) (inl (manifest_other fmt distinct)) refl h))
    handle_section_normal-IsGood option optarg s (inr (inr (inr (inl e)))) h = rw e (
        rw (handle_section_normal-G optarg s) (
          open_restricted-IsGood fmt.section_signature optarg (cleared s) s.restricted_address
            (inl refl) h))
    handle_section_normal-IsGood option optarg s (inr (inr (inr (inr e)))) h = rw e (
        rw (handle_section_normal-R optarg s) (
          open_restricted-IsGood fmt.section_certificate optarg (cleared s) s.restricted_address
            (inr refl) h))
