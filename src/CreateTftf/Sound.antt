-- ===== src/CreateTftf/Sound.antt =====
-- The invariant of the section options, and what each change of the cache does to it.
use bootrom_tools.Base.{
  ℕ, ◌≡◌, ◌⊎◌, refl, sym, ◌∙◌, Bool, true, false, [], ◌∷◌, ◌++◌, Option, none, some, All, inl, inr,
  append-nil, arith,
}
use bootrom_tools.Files.{System}
use bootrom_tools.Tftf.{Format}
use bootrom_tools.Tftf.Cache.{Entry, opened}
use bootrom_tools.Tftf.Cache.Abstract.{Sections, all_of, to_list, closed, begun, changed}
use bootrom_tools.CreateTftf.Order.{
  HasDistinctTypes, All-append, All-left, All-right, IsRestricted, IsCodeOrData, IsOrdered,
  IsOrdered-plain, IsOrdered-first, type_of, types_of, IsUnplaced, types_of-begun, types_of-changed,
}

module _ (fmt : Format) (distinct : HasDistinctTypes fmt) (sys : System) where
  abbrev Plain : ℕ → Type 0
  Plain t = IsRestricted fmt t → ⊥

  -- The three flags of the program and the sections of its cache.
  pub record IsSound (restricted_address blocked while_blocked : Bool) (a : Sections sys)
      : Type 0 where
    pub ordered : IsOrdered fmt (types_of fmt sys a)
    pub unblocked : blocked ≡ false → All (λ t. IsRestricted fmt t → ⊥) (types_of fmt sys a)
    pub unplaced : while_blocked ≡ false → All (IsUnplaced fmt sys) (all_of sys a)
    pub allowed :
        while_blocked ≡ false
        → restricted_address ≡ false
        → All (λ e. IsRestricted fmt (type_of fmt sys e) → ⊥) (to_list a.pending)

  not_both : (t : ℕ) → IsRestricted fmt t → IsCodeOrData fmt t → ⊥
  not_both t (inl s) (inl c) = distinct.code_signature (sym c ∙ s)
  not_both t (inl s) (inr d) = distinct.data_signature (sym d ∙ s)
  not_both t (inr s) (inl c) = distinct.code_certificate (sym c ∙ s)
  not_both t (inr s) (inr d) = distinct.data_certificate (sym d ∙ s)

  pub closed-IsSound :
      {r b w : Bool} (a : Sections sys) → IsSound r b w a → IsSound false b w (closed sys a)
  closed-IsSound a h =
      let same : all_of sys (closed sys a) ≡ all_of sys a = append-nil _ in
      record {
        ordered = rw same h.ordered;
        unblocked = λ e. rw same (h.unblocked e);
        unplaced = λ e. rw same (h.unplaced e);
        allowed = λ e f. tt;
      }

  type_of-opened :
      (t : ℕ) (f : Option sys.FileName) (address : ℕ) (d : Entry sys)
      → type_of fmt sys (opened sys t f address d) ≡ t
  type_of-opened t none address d = refl
  type_of-opened t (some name) address d = refl

  -- A section that is not restricted is begun: not code or data, or before any restricted one.
  pub begun-IsSound :
      {r b w : Bool} (t : ℕ) (f : Option sys.FileName) (address : ℕ) (d : Entry sys)
      (a : Sections sys)
      → (IsRestricted fmt t → ⊥)
      → (IsCodeOrData fmt t → ⊥) ⊎ (b ≡ false)
      → IsSound r b w a
      → IsSound false b w (begun sys (opened sys t f address d) a)
  begun-IsSound {b = b} {w = w} t f address d a plain first h =
      let types = types_of-begun fmt sys t f address d a in
      let own = type_of-opened t f address d in
      record {
        ordered = rw types (ordered first);
        unblocked =
            λ e. rw types (All-append _ (types_of fmt sys a) (t ∷ []) (h.unblocked e) (plain, tt));
        unplaced = λ e.
            All-append (IsUnplaced fmt sys) (all_of sys a) _ (h.unplaced e)
              ((λ restricted. absurd (plain (rw (sym own) restricted))), tt);
        allowed = λ e f. ((λ restricted. plain (rw (sym own) restricted)), tt);
      }
    where
      ordered :
          (IsCodeOrData fmt t → ⊥) ⊎ (b ≡ false) → IsOrdered fmt (types_of fmt sys a ++ (t ∷ []))
      ordered (inl other) = IsOrdered-plain fmt _ t other h.ordered
      ordered (inr unblocked) = IsOrdered-first fmt _ t (h.unblocked unblocked) h.ordered

  -- What `section_cache_entry_set_load_address` does to the entry.
  abbrev pub placed : ℕ → Entry sys → Entry sys
  placed address e = record e { section = record (e.section) { section_load_address = address } }

  -- A signature or certificate is begun, and gets the address that is ignored.
  pub restricted-IsSound :
      {r b w : Bool} (t : ℕ) (f : Option sys.FileName) (address : ℕ) (d : Entry sys)
      (a : Sections sys)
      → IsRestricted fmt t
      → IsSound r b w a
      → IsSound true true w (
          changed sys
            (placed fmt.data_address_to_be_ignored)
            (begun sys (opened sys t f address d) a))
  restricted-IsSound t f address d a restricted h =
      let types =
        types_of-changed fmt sys (placed fmt.data_address_to_be_ignored)
          (begun sys (opened sys t f address d) a) (λ e. refl)
        ∙ types_of-begun fmt sys t f address d a in
      record {
        ordered = rw types (IsOrdered-plain fmt _ t (not_both t restricted) h.ordered);
        unblocked = λ e. absurd (ground (arith, e));
        unplaced =
            λ e. All-append (IsUnplaced fmt sys) (all_of sys a) _ (h.unplaced e) ((λ _. refl), tt);
        allowed = λ e f. absurd (ground (arith, f));
      }

  -- A signature or certificate that cannot be opened still blocks code and data.
  pub blocked-IsSound : {r b w : Bool} (a : Sections sys) → IsSound r b w a → IsSound true true w a
  blocked-IsSound a h = record {
    ordered = h.ordered;
    unblocked = λ e. absurd (ground (arith, e));
    unplaced = h.unplaced;
    allowed = λ e f. absurd (ground (arith, f));
  }

  -- Code or data that is refused, behind a signature or certificate.
  pub refused-IsSound :
      {r b w : Bool} (a : Sections sys) → IsSound r b w a → IsSound false true true a
  refused-IsSound a h = record {
    ordered = h.ordered;
    unblocked = λ e. absurd (ground (arith, e));
    unplaced = λ e. absurd (ground (arith, e));
    allowed = λ e f. absurd (ground (arith, e));
  }

  -- The address may be set where no section is open.
  pub idle-IsSound :
      {r b w : Bool} (a : Sections sys) → a.pending ≡ none → IsSound r b w a → IsSound false b w a
  idle-IsSound a none_open h = record {
    ordered = h.ordered;
    unblocked = h.unblocked;
    unplaced = h.unplaced;
    allowed = λ e f. rw none_open tt;
  }

  -- A setter that keeps the type and, for a signature or certificate, the address.
  pub changed-IsSound :
      {r b w : Bool} (f : Entry sys → Entry sys) (a : Sections sys)
      → ((e : Entry sys) → type_of fmt sys (f e) ≡ type_of fmt sys e)
      → (w ≡ false → All (λ e. IsUnplaced fmt sys e → IsUnplaced fmt sys (f e)) (to_list a.pending))
      → IsSound r b w a
      → IsSound r b w (changed sys f a)
  changed-IsSound {r = r} {b = b} {w = w} f a same keeps h = record {
    ordered = rw types h.ordered;
    unblocked = λ e. rw types (h.unblocked e);
    unplaced = λ e.
        All-append (IsUnplaced fmt sys) a.done _
          (All-left (IsUnplaced fmt sys) a.done _ (h.unplaced e))
          (unplaced a.pending (keeps e) (All-right (IsUnplaced fmt sys) a.done _ (h.unplaced e)));
    allowed = λ e g. allowed a.pending (h.allowed e g);
  }
    where
      types : types_of fmt sys (changed sys f a) ≡ types_of fmt sys a
      types = types_of-changed fmt sys f a same

      unplaced :
          (pending : Option (Entry sys))
          → All (λ e. IsUnplaced fmt sys e → IsUnplaced fmt sys (f e)) (to_list pending)
          → All (IsUnplaced fmt sys) (to_list pending)
          → All (IsUnplaced fmt sys) (to_list (elim pending [ none ↦ none | some e ↦ some (f e) ]))
      unplaced none k u = tt
      unplaced (some e) k u = (k.0 u.0, tt)

      allowed :
          (pending : Option (Entry sys))
          → All (λ e. IsRestricted fmt (type_of fmt sys e) → ⊥) (to_list pending)
          → All
              (λ e. IsRestricted fmt (type_of fmt sys e) → ⊥)
              (to_list (elim pending [ none ↦ none | some e ↦ some (f e) ]))
      allowed none u = tt
      allowed (some e) u = ((λ restricted. u.0 (rw (sym (same e)) restricted)), tt)

  -- The address is set where `--load` is allowed.
  pub placed-IsSound :
      {b w : Bool} (address : ℕ) (a : Sections sys)
      → IsSound false b w a
      → IsSound false b w (changed sys (placed address) a)
  placed-IsSound address a h =
      changed-IsSound (placed address) a (λ e. refl) (λ e. kept a.pending (h.allowed e refl)) h
    where
      kept :
          (pending : Option (Entry sys))
          → All (λ e. IsRestricted fmt (type_of fmt sys e) → ⊥) (to_list pending)
          → All
              (λ e. IsUnplaced fmt sys e → IsUnplaced fmt sys (placed address e))
              (to_list pending)
      kept none u = tt
      kept (some e) u = ((λ _ restricted. absurd (u.0 restricted)), tt)
