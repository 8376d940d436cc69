-- ===== src/CreateTftf/Reach.antt =====
-- What every command line leaves in the section cache.
use bootrom_tools.Base.{ℕ, ◌≡◌, refl, true, false, List, [], ◌∷◌, some, All, inl, inr, arith, codes}
use bootrom_tools.Files.{System}
use bootrom_tools.Ffff
use bootrom_tools.Options.{given, get_num}
use bootrom_tools.Options.Kept.{IsKept}
use bootrom_tools.Tftf.{Format}
use bootrom_tools.CreateTftf.{
  State, handle_header_size, handle_header_type, handle_section_normal, handle_section_class,
  handle_section_id, handle_section_load_address,
}
use bootrom_tools.Options.Makers.{guarded, hex_option}
use bootrom_tools.Options.Makers.Kept.{
  guarded_kept, number_kept, callback_kept, hex_option-IsKept, str_option-IsKept,
  section_option-IsKept, flag_option-IsKept,
}
use bootrom_tools.CreateTftf.Table.{Vars, parse_table}
use bootrom_tools.CreateTftf.Order.{HasDistinctTypes}
use bootrom_tools.CreateTftf.Handlers.{
  IsGood, IsGoodResult, OpensSection, handle_section_normal-IsGood,
}
use bootrom_tools.CreateTftf.Setters.{
  IsGoodState, handle_section_class-IsGood, handle_section_id-IsGood,
  handle_section_load_address-IsGood,
}

infixr 4 ◌⋯◌
abbrev ◌⋯◌ : {A B : Type 0} → A → B → A × B
a ⋯ b = (a, b)

module _ (sys : System) (fmt : Format) (distinct : HasDistinctTypes fmt) (ffff : Ffff.Format)
    (strtoul : List ℕ → ℕ × List ℕ) (file_name : List ℕ → sys.FileName) where
  abbrev V : Type 0
  V = Vars sys fmt ffff strtoul file_name

  abbrev P : V → Type 0
  P = IsGoodState sys fmt distinct ffff strtoul file_name

  handle_header_size_state :
      (optarg : List ℕ) (s : State sys)
      → (handle_header_size sys fmt ffff strtoul file_name optarg s).1
        ≡ record s { header_size = (get_num (State sys) strtoul optarg).1 }
  unfolding handle_header_size
  handle_header_size_state optarg s = ground arith

  handle_header_type_kept :
      (optarg : List ℕ) (s : State sys)
      → IsGood sys fmt distinct s
      → IsGood sys fmt distinct (handle_header_type sys fmt ffff strtoul file_name optarg s).1
  unfolding handle_header_type
  handle_header_type_kept optarg s h = h

  header_size_option :
      IsKept V P
        (record (hex_option
          (State sys)
          strtoul
          b'z'
          (codes "header-size" ∷ [])
          fmt.header_size_default
          (λ n s. record s { header_size = n })) {
            callback = some (
                given (λ option optarg.
                  guarded
                    (λ s. some (handle_header_size sys fmt ffff strtoul file_name optarg s))));
          })
  header_size_option = record {
    put = number_kept (State sys) strtoul (IsGood sys fmt distinct) _ (λ n s h. h);
    called = λ f e.
        callback_kept (State sys) strtoul (IsGood sys fmt distinct) _ f b'z' e (λ optarg.
          guarded_kept (State sys) strtoul (IsGood sys fmt distinct)
            (λ s. some (handle_header_size sys fmt ffff strtoul file_name optarg s))
            (λ s h. rw (handle_header_size_state optarg s) h));
  }

  header_type_option :
      IsKept V P
        (record (hex_option
          (State sys)
          strtoul
          b't'
          (codes "type" ∷ [])
          0
          (λ n s. record s { package_type = n })) {
            has_default = false;
            required = true;
            callback = some (
                given (λ option optarg.
                  guarded
                    (λ s. some (handle_header_type sys fmt ffff strtoul file_name optarg s))));
          })
  header_type_option = record {
    put = number_kept (State sys) strtoul (IsGood sys fmt distinct) _ (λ n s h. h);
    called = λ f e.
        callback_kept (State sys) strtoul (IsGood sys fmt distinct) _ f b't' e (λ optarg.
          guarded_kept (State sys) strtoul (IsGood sys fmt distinct)
            (λ s. some (handle_header_type sys fmt ffff strtoul file_name optarg s))
            (handle_header_type_kept optarg));
  }

  pub parse_table-IsKept : All (IsKept V P) (parse_table sys fmt ffff strtoul file_name)
  unfolding parse_table
  parse_table-IsKept =
      header_size_option
      ⋯ header_type_option
      ⋯ str_option-IsKept (State sys) strtoul (IsGood sys fmt distinct) b'n' _ _ (λ text s h. h)
      ⋯ hex_option-IsKept (State sys) strtoul (IsGood sys fmt distinct) b's' _ _ _ (λ n s h. h)
      ⋯ hex_option-IsKept (State sys) strtoul (IsGood sys fmt distinct) b'u' _ _ _ (λ n s h. h)
      ⋯ hex_option-IsKept (State sys) strtoul (IsGood sys fmt distinct) b'U' _ _ _ (λ n s h. h)
      ⋯ hex_option-IsKept (State sys) strtoul (IsGood sys fmt distinct) b'a' _ _ _ (λ n s h. h)
      ⋯ hex_option-IsKept (State sys) strtoul (IsGood sys fmt distinct) b'A' _ _ _ (λ n s h. h)
      ⋯ str_option-IsKept (State sys) strtoul (IsGood sys fmt distinct) b'S' _ _ (λ text s h. h)
      ⋯ str_option-IsKept (State sys) strtoul (IsGood sys fmt distinct) b'E' _ _ (λ text s h. h)
      ⋯ str_option-IsKept (State sys) strtoul (IsGood sys fmt distinct) b'X' _ _ (λ text s h. h)
      ⋯ section_option-IsKept (State sys) strtoul (IsGood sys fmt distinct) b'C' _ _ _
          (handle_section_normal sys fmt ffff strtoul file_name)
          (λ optarg s. section_normal b'C' optarg s (inl refl))
      ⋯ section_option-IsKept (State sys) strtoul (IsGood sys fmt distinct) b'D' _ _ _
          (handle_section_normal sys fmt ffff strtoul file_name)
          (λ optarg s. section_normal b'D' optarg s (inr (inl refl)))
      ⋯ section_option-IsKept (State sys) strtoul (IsGood sys fmt distinct) b'M' _ _ _
          (handle_section_normal sys fmt ffff strtoul file_name)
          (λ optarg s. section_normal b'M' optarg s (inr (inr (inl refl))))
      ⋯ section_option-IsKept (State sys) strtoul (IsGood sys fmt distinct) b'G' _ _ _
          (handle_section_normal sys fmt ffff strtoul file_name)
          (λ optarg s. section_normal b'G' optarg s (inr (inr (inr (inl refl)))))
      ⋯ section_option-IsKept (State sys) strtoul (IsGood sys fmt distinct) b'R' _ _ _
          (handle_section_normal sys fmt ffff strtoul file_name)
          (λ optarg s. section_normal b'R' optarg s (inr (inr (inr (inr refl)))))
      ⋯ section_option-IsKept (State sys) strtoul (IsGood sys fmt distinct) b'c' _ _ _
          (λ option. handle_section_class sys fmt ffff strtoul file_name)
          (handle_section_class-IsGood sys fmt distinct ffff strtoul file_name)
      ⋯ section_option-IsKept (State sys) strtoul (IsGood sys fmt distinct) b'i' _ _ _
          (λ option. handle_section_id sys fmt ffff strtoul file_name)
          (handle_section_id-IsGood sys fmt distinct ffff strtoul file_name)
      ⋯ section_option-IsKept (State sys) strtoul (IsGood sys fmt distinct) b'l' _ _ _
          (λ option. handle_section_load_address sys fmt ffff strtoul file_name)
          (handle_section_load_address-IsGood sys fmt distinct ffff strtoul file_name)
      ⋯ str_option-IsKept (State sys) strtoul (IsGood sys fmt distinct) b'o' _ _ (λ text s h. h)
      ⋯ str_option-IsKept (State sys) strtoul (IsGood sys fmt distinct) b'O' _ _ (λ text s h. h)
      ⋯ flag_option-IsKept (State sys) strtoul (IsGood sys fmt distinct) b'v' _ _ _ (λ n s h. h)
      ⋯ flag_option-IsKept (State sys) strtoul (IsGood sys fmt distinct) b'm' _ _ _ (λ n s h. h)
      ⋯ flag_option-IsKept (State sys) strtoul (IsGood sys fmt distinct) b'H' _ _ _ (λ n s h. h)
      ⋯ tt
    where
      section_normal :
          (c : ℕ) (optarg : List ℕ) (s : State sys)
          → OpensSection sys fmt distinct ffff strtoul file_name c
          → IsGood sys fmt distinct s
          → IsGoodResult sys fmt distinct
              (handle_section_normal sys fmt ffff strtoul file_name c optarg s)
      section_normal = handle_section_normal-IsGood sys fmt distinct ffff strtoul file_name
