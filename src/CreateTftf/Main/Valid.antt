-- ===== src/CreateTftf/Main/Valid.antt =====
-- What `validate_args` accepts.
use bootrom_tools.Base.{
  ℕ, ◌≤◌, ◌≡◌, refl, sym, ◌∙◌, Bool, true, false, List, Option, none, some, arith, inl, inr,
  Bool-cases, ltb, ◌==◌, if◌then◌else◌,
}
use bootrom_tools.Files.{System}
use bootrom_tools.Ffff
use bootrom_tools.Tftf.{Format}
use bootrom_tools.Tftf.Cache.{entry_count}
use bootrom_tools.CreateTftf.{State}
use bootrom_tools.CreateTftf.Main.{output_path, balance_ids, validate_args}

module _ (sys : System) (fmt : Format) (ffff : Ffff.Format) (strtoul : List ℕ → ℕ × List ℕ)
    (file_name : List ℕ → sys.FileName) where
  balance_ids_cache :
      (s : State sys) (ok : Bool) (s' : State sys)
      → balance_ids sys fmt ffff strtoul file_name s ≡ (ok, s')
      → (s'.cache ≡ s.cache)
        × (s'.header_size ≡ s.header_size)
        × (s'.output_filename ≡ s.output_filename)
  unfolding balance_ids
  balance_ids_cache s ok s' h = ground (arith, h)

  -- The sections of a state fit its header.
  pub record HasRoom (s : State sys) : Type 0 where
    pub some_section : 1 ≤ entry_count sys s.cache
    pub fits : entry_count sys s.cache ≤ fmt.calc_max_sections s.header_size

  validate_args_empty :
      (s : State sys)
      → (entry_count sys s.cache == 0) ≡ true
      → validate_args sys fmt ffff strtoul file_name s ≡ some (false, s)
  unfolding validate_args
  validate_args_empty s h = rw (validate_args, h) refl

  validate_args_full :
      (s : State sys)
      → (entry_count sys s.cache == 0) ≡ false
      → ltb (fmt.calc_max_sections s.header_size) (entry_count sys s.cache) ≡ true
      → validate_args sys fmt ffff strtoul file_name s ≡ some (false, s)
  unfolding validate_args
  validate_args_full s h full = rw (validate_args, h, full) refl

  validate_args_path :
      (s : State sys) (r : Option (List ℕ))
      → (entry_count sys s.cache == 0) ≡ false
      → ltb (fmt.calc_max_sections s.header_size) (entry_count sys s.cache) ≡ false
      → output_path sys fmt ffff strtoul file_name s ≡ r
      → validate_args sys fmt ffff strtoul file_name s ≡ elim r [
        | none ↦ none
        | some path ↦
            if s.hamming_balance_flag == 0
            then some (true, record s { output_filename = some path })
            else some (
                balance_ids sys fmt ffff strtoul file_name
                  (record s { output_filename = some path }))
      ]
  unfolding validate_args
  validate_args_path s r h room e = rw (validate_args, h, room, e) refl

  abbrev Kept : State sys → State sys → Type 0
  Kept s s' = (s'.cache ≡ s.cache) × (s'.header_size ≡ s.header_size)

  balanced-Kept :
      (flag : Bool) (s s' : State sys)
      → (if flag then some (true, s) else some (balance_ids sys fmt ffff strtoul file_name s))
        ≡ some (true, s')
      → Kept s s'
  balanced-Kept true s s' h = let same : s ≡ s' = cc in rw (sym same) (refl, refl)
  balanced-Kept false s s' h =
      let (cache, size, _) = balance_ids_cache s true s' (cc h) in (cache, size)

  validate_args_room :
      (s s' : State sys)
      → (entry_count sys s.cache == 0) ≡ false
      → ltb (fmt.calc_max_sections s.header_size) (entry_count sys s.cache) ≡ false
      → validate_args sys fmt ffff strtoul file_name s ≡ some (true, s')
      → Kept s s'
  validate_args_room s s' h room e = by_path (output_path sys fmt ffff strtoul file_name s) refl
    where
      by_path : (r : Option (List ℕ)) → output_path sys fmt ffff strtoul file_name s ≡ r → Kept s s'
      by_path none path = absurd (cc (validate_args_path s none h room path))
      by_path (some name) path =
          balanced-Kept (s.hamming_balance_flag == 0) (record s { output_filename = some name }) s'
            (sym (validate_args_path s (some name) h room path) ∙ e)

  -- What `validate_args` accepts has a section, and room for all of them in its header.
  pub validate_args-HasRoom :
      (s s' : State sys)
      → validate_args sys fmt ffff strtoul file_name s ≡ some (true, s')
      → HasRoom s'
  validate_args-HasRoom s s' e = elim (Bool-cases (entry_count sys s.cache == 0)) [
    | inl empty ↦ absurd (cc (validate_args_empty s empty))
    | inr h ↦
        elim (Bool-cases (ltb (fmt.calc_max_sections s.header_size) (entry_count sys s.cache))) [
          | inl full ↦ absurd (cc (validate_args_full s h full))
          | inr room ↦
              let (cache, size) = validate_args_room s s' h room e in
              record {
                some_section = rw cache (ground (arith, h));
                fits = rw cache (rw size (ground (arith, room)));
              }
        ]
  ]
