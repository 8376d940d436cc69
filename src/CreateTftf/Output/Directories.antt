-- ===== src/CreateTftf/Output/Directories.antt =====
-- `mkdir_recursive`.
use bootrom_tools.Base.{
  ℕ, zero, suc, ◌<◌, ◌≤◌, ◌≡◌, ◌⊎◌, refl, sym, Bool, true, false, if◌then◌else◌, List, [], ◌∷◌,
  ◌++◌, some, arith, length, ltb, Bool-cases, inl, inr, Any, append-nil, append_assoc,
}
use bootrom_tools.CreateTftf.Output.{Disk, mkdir_recursive}

module _ (disk : Disk) where
  -- The directory above one exists, or has just been made, or is the root or the current one.
  abbrev pub HasAbove : List ℕ → List (List ℕ) → Type 0
  HasAbove path made =
      (disk.is_dir (disk.dirname path) ≡ true)
      ⊎ ((length (disk.dirname path) ≤ 1) ⊎ Any (λ d. d ≡ disk.dirname path) made)

  -- Each directory of a list is made when the one above it is there.
  abbrev pub IsTopDown : List (List ℕ) → List (List ℕ) → Type 0
  IsTopDown before [] = Unit
  IsTopDown before (d ∷ ds) = HasAbove d before × IsTopDown (before ++ (d ∷ [])) ds

  mkdir_recursive-there :
      (fuel : ℕ) (path : List ℕ)
      → disk.is_dir path ≡ true
      → mkdir_recursive (suc fuel) disk path ≡ some (true, [])
  unfolding mkdir_recursive
  mkdir_recursive-there fuel path h = rw (mkdir_recursive, h) refl

  mkdir_recursive-failed :
      (fuel : ℕ) (path : List ℕ)
      → disk.is_dir path ≡ false
      → disk.strdup path ≡ false
      → mkdir_recursive (suc fuel) disk path ≡ some (false, [])
  unfolding mkdir_recursive
  mkdir_recursive-failed fuel path h full = rw (mkdir_recursive, h, full) refl

  mkdir_recursive-top :
      (fuel : ℕ) (path : List ℕ)
      → disk.is_dir path ≡ false
      → disk.strdup path ≡ true
      → ltb 1 (length (disk.dirname path)) ≡ false
      → mkdir_recursive (suc fuel) disk path ≡ some (true, path ∷ [])
  unfolding mkdir_recursive
  mkdir_recursive-top fuel path h room top = rw (mkdir_recursive, h, room, top) refl

  mkdir_recursive-below :
      (fuel : ℕ) (path : List ℕ) (success : Bool) (made : List (List ℕ))
      → disk.is_dir path ≡ false
      → disk.strdup path ≡ true
      → ltb 1 (length (disk.dirname path)) ≡ true
      → mkdir_recursive fuel disk (disk.dirname path) ≡ some (success, made)
      → mkdir_recursive (suc fuel) disk path
        ≡ some (success, if success then made ++ (path ∷ []) else made)
  unfolding mkdir_recursive
  mkdir_recursive-below fuel path success made h room below e =
      rw (mkdir_recursive, h, room, below, e) refl

  IsTopDown-snoc :
      (before ds : List (List ℕ)) (d : List ℕ)
      → IsTopDown before ds
      → HasAbove d (before ++ ds)
      → IsTopDown before (ds ++ (d ∷ []))
  IsTopDown-snoc before [] d h above = (rw (append-nil before) at above, tt)
  IsTopDown-snoc before (x ∷ ds) d h above = (
    h.0,
    IsTopDown-snoc (before ++ (x ∷ [])) ds d h.1
        (rw (sym (append_assoc before (x ∷ []) ds)) at above),
  )

  Any-last : (xs : List (List ℕ)) (x : List ℕ) → Any (λ d. d ≡ x) (xs ++ (x ∷ []))
  Any-last [] x = inl refl
  Any-last (y ∷ xs) x = inr (Any-last xs x)

  -- It returned 0, and each directory was asked for after the one above it, so that the path was a
  -- directory or has been asked for; or it returned -1 without a call of `mkdir`, for a path that is
  -- no directory and could not be duplicated.
  abbrev pub IsMade : List ℕ → Bool → List (List ℕ) → Type 0
  IsMade path true made = IsTopDown [] made × ((disk.is_dir path ≡ true) ⊎ Any (λ d. d ≡ path) made)
  IsMade path false made =
      (made ≡ []) × (p : List ℕ) × (disk.is_dir p ≡ false) × (disk.strdup p ≡ false)

  below-IsMade :
      (fuel : ℕ) (path : List ℕ) (success : Bool) (made : List (List ℕ))
      → disk.is_dir path ≡ false
      → disk.strdup path ≡ true
      → ltb 1 (length (disk.dirname path)) ≡ true
      → mkdir_recursive fuel disk (disk.dirname path) ≡ some (success, made)
      → IsMade (disk.dirname path) success made
      → (success' : Bool) × (made' : List (List ℕ)) × (mkdir_recursive (suc fuel) disk path
          ≡ some (success', made'))
        × IsMade path success' made'
  below-IsMade fuel path true made missing room below e (down, above) = (
    true,
    made ++ (path ∷ []),
    mkdir_recursive-below fuel path true made missing room below e,
    (
      IsTopDown-snoc [] made path down (elim above [ inl a ↦ inl a | inr a ↦ inr (inr a) ]),
      inr (Any-last made path),
    ),
  )
  below-IsMade fuel path false made missing room below e failed =
      (false, made, mkdir_recursive-below fuel path false made missing room below e, failed)

  -- Where the directory part of a path that is no directory is at most one character long or shorter
  -- than the path: on fuel above the length of the path the recursion ends. It returns 0 after
  -- calling `mkdir` for every missing directory, each after the one above it, so that at the end the
  -- path was a directory or `mkdir` has been called for it; or it returns -1 without any call of
  -- `mkdir`, and then some path that is no directory could not be duplicated. What `mkdir` returns
  -- is not looked at.
  pub mkdir_recursive_lem :
      (fuel : ℕ) (path : List ℕ)
      → ((p : List ℕ)
          → disk.is_dir p ≡ false
          → 1 < length (disk.dirname p)
          → length (disk.dirname p) < length p)
      → length path < fuel
      → (success : Bool) × (made : List (List ℕ)) × (mkdir_recursive fuel disk path
          ≡ some (success, made))
        × IsMade path success made
  mkdir_recursive_lem zero path shorter enough = absurd (omega arith)
  mkdir_recursive_lem (suc fuel) path shorter enough = elim (Bool-cases (disk.is_dir path)) [
    | inl there ↦ (true, [], mkdir_recursive-there fuel path there, (tt, inl there))
    | inr missing ↦ elim (Bool-cases (disk.strdup path)) [
      | inr full ↦
          (false, [], mkdir_recursive-failed fuel path missing full, (refl, path, missing, full))
      | inl room ↦ elim (Bool-cases (ltb 1 (length (disk.dirname path)))) [
        | inr top ↦ (
          true,
          path ∷ [],
          mkdir_recursive-top fuel path missing room top,
          ((inr (inl (ground (arith, top))), tt), inr (inl refl)),
        )
        | inl below ↦
            let (success, made, e, is_made) =
              mkdir_recursive_lem fuel (disk.dirname path) shorter
                (omega (arith, shorter path missing (ground (arith, below)))) in
            below-IsMade fuel path success made missing room below e is_made
      ]
    ]
  ]
