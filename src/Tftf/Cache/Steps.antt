-- ===== src/Tftf/Cache/Steps.antt =====
-- The calls on the cache as steps of its abstract view, and what every sequence of calls keeps.
use bootrom_tools.Base.{
  ℕ, ◌≡◌, refl, sym, ap, ◌∙◌, Bool, true, false, List, [], ◌++◌, Option, some, append_assoc,
  append-nil, inl, inr,
}
use bootrom_tools.Files.{System}
use bootrom_tools.Tftf.Cache.{
  Entry, Cache, opened, entry_open, entry_close, entry_set_class, entry_set_id,
  entry_set_load_address, entry_set_blob,
}
use bootrom_tools.Tftf.Cache.Abstract.{
  Sections, to_list, closed, begun, changed, abstraction, entry_close-closed,
}
use bootrom_tools.Tftf.Cache.Changes.{entry_open-Begun, entry_set-changed}

module _ (sys : System) where
  -- A call and the cache after it.
  pub data Call : Cache sys → Cache sys → Type 0 where
    close : {c c' : Cache sys} → entry_close sys c ≡ some c' → Call c c'
    open_entry :
        {c c' : Cache sys} (type : ℕ) (filename : Option sys.FileName) (success : Bool)
        → entry_open sys type filename c ≡ some (success, c')
        → Call c c'
    set_class : {c : Cache sys} (v : ℕ) → Call c (entry_set_class sys v c).1
    set_id : {c : Cache sys} (v : ℕ) → Call c (entry_set_id sys v c).1
    set_load_address : {c : Cache sys} (v : ℕ) → Call c (entry_set_load_address sys v c).1
    set_blob :
        {c : Cache sys} (malloc_succeeds : Bool) (bytes : List ℕ)
        → Call c (entry_set_blob sys malloc_succeeds bytes c).1

  -- The steps of the abstract view.
  pub data Step : Sections sys → Sections sys → Type 0 where
    finish : {a : Sections sys} → Step a (closed sys a)
    begin : {a : Sections sys} (e : Entry sys) → Step a (begun sys e a)
    change : {a : Sections sys} (f : Entry sys → Entry sys) → Step a (changed sys f a)
    idle : {a : Sections sys} → Step a a

  pub data Calls (c : Cache sys) : Cache sys → Type 0 where
    none_yet : Calls c c
    then_call : {d e : Cache sys} → Calls c d → Call d e → Calls c e

  to_step : {a b : Sections sys} (f : Entry sys → Entry sys) → b ≡ changed sys f a → Step a b
  to_step f e = rw e (change f)

  set_class-Step :
      (v : ℕ) (c : Cache sys)
      → Step (abstraction sys c) (abstraction sys (entry_set_class sys v c).1)
  unfolding entry_set_class
  set_class-Step v c = to_step _ (entry_set-changed sys true _ c)

  set_id-Step :
      (v : ℕ) (c : Cache sys) → Step (abstraction sys c) (abstraction sys (entry_set_id sys v c).1)
  unfolding entry_set_id
  set_id-Step v c = to_step _ (entry_set-changed sys true _ c)

  set_load_address-Step :
      (v : ℕ) (c : Cache sys)
      → Step (abstraction sys c) (abstraction sys (entry_set_load_address sys v c).1)
  unfolding entry_set_load_address
  set_load_address-Step v c = to_step _ (entry_set-changed sys true _ c)

  set_blob-Step :
      (malloc_succeeds : Bool) (bytes : List ℕ) (c : Cache sys)
      → Step (abstraction sys c) (abstraction sys (entry_set_blob sys malloc_succeeds bytes c).1)
  unfolding entry_set_blob
  set_blob-Step true bytes c = to_step _ (entry_set-changed sys true _ c)
  set_blob-Step false bytes c = to_step _ (entry_set-changed sys false _ c)

  -- Every call of the cache is a step of its abstract view.
  pub Call-Step : {c c' : Cache sys} → Call c c' → Step (abstraction sys c) (abstraction sys c')
  Call-Step {c} {c'} (close e) = rw ((entry_close-closed sys c c' e).0) finish
  Call-Step {c} {c'} (open_entry type filename success e) =
      elim (entry_open-Begun sys type filename c success c' e) [
        | inl (failed, same, none_open) ↦ rw same idle
        | inr (done, (address, d, step)) ↦ rw step (begin (opened sys type filename address d))
      ]
  Call-Step {c} (set_class v) = set_class-Step v c
  Call-Step {c} (set_id v) = set_id-Step v c
  Call-Step {c} (set_load_address v) = set_load_address-Step v c
  Call-Step {c} (set_blob malloc_succeeds bytes) = set_blob-Step malloc_succeeds bytes c

  Step-appends :
      {a b : Sections sys} → Step a b → (later : List (Entry sys)) × (b.done ≡ a.done ++ later)
  Step-appends {a} finish = (to_list a.pending, refl)
  Step-appends {a} (begin e) = (to_list a.pending, refl)
  Step-appends {a} (change f) = ([], sym (append-nil a.done))
  Step-appends {a} idle = ([], sym (append-nil a.done))

  -- Every sequence of calls on the section cache keeps the sections that were closed before it, in
  -- their places and as they were.
  pub Calls-appends :
      {c c' : Cache sys}
      → Calls c c'
      → (later : List (Entry sys)) × ((abstraction sys c').done ≡ (abstraction sys c).done ++ later)
  Calls-appends {c} none_yet = ([], sym (append-nil (abstraction sys c).done))
  Calls-appends {c} (then_call calls call) =
      let (before, e) = Calls-appends calls in
      let (last, f) = Step-appends (Call-Step call) in
      (
        before ++ last,
        f ∙ (ap (λ d. d ++ last) e ∙ append_assoc (abstraction sys c).done before last),
      )
