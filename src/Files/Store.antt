-- ===== src/Files/Store.antt =====
-- What a write into a buffer puts there, and what it leaves as it was.
use bootrom_tools.Base.{
  ℕ, zero, suc, ◌+◌, ◌-◌, ◌≤◌, ◌<◌, ◌≡◌, ◌⊎◌, inl, inr, refl, sym, ap, ◌∙◌, List, [], ◌∷◌, ◌++◌,
  none, some, arith, leb, length, take, drop, get_elem?, length-append, length-take, length-drop,
  take-append-drop, Bool-cases, Option-cases, get_elem?-none_iff, lt_of_get_elem?,
}
use bootrom_tools.Files.{store}

module _ {ℓ} {A : Type ℓ} where
  get_elem?-append_left :
      (xs ys : List A) (i : ℕ) → i < length xs → get_elem? (xs ++ ys) i ≡ get_elem? xs i
  get_elem?-append_left [] ys i h = absurd (omega arith)
  get_elem?-append_left (x ∷ xs) ys zero h = refl
  get_elem?-append_left (x ∷ xs) ys (suc i) h = get_elem?-append_left xs ys i (omega arith)

  get_elem?-append_right :
      (xs ys : List A) (i j : ℕ) → i ≡ length xs + j → get_elem? (xs ++ ys) i ≡ get_elem? ys j
  get_elem?-append_right [] ys i j e = ap (get_elem? ys) (omega arith)
  get_elem?-append_right (x ∷ xs) ys zero j e = absurd (omega arith)
  get_elem?-append_right (x ∷ xs) ys (suc i) j e = get_elem?-append_right xs ys i j (omega arith)

  pub get_elem?-take :
      (n : ℕ) (xs : List A) (i : ℕ) → i < n → get_elem? (take n xs) i ≡ get_elem? xs i
  get_elem?-take zero xs i h = absurd (omega arith)
  get_elem?-take (suc n) [] i h = refl
  get_elem?-take (suc n) (x ∷ xs) zero h = refl
  get_elem?-take (suc n) (x ∷ xs) (suc i) h = get_elem?-take n xs i (omega arith)

  pub get_elem?-drop :
      (n : ℕ) (xs : List A) (i j : ℕ) → i ≡ n + j → get_elem? (drop n xs) j ≡ get_elem? xs i
  get_elem?-drop zero xs i j e = ap (get_elem? xs) (omega arith)
  get_elem?-drop (suc n) [] i j e = refl
  get_elem?-drop (suc n) (x ∷ xs) zero j e = absurd (omega arith)
  get_elem?-drop (suc n) (x ∷ xs) (suc i) j e = get_elem?-drop n xs i j (omega arith)

  take_same :
      (xs ys : List A)
      → ((j : ℕ) → j < length ys → get_elem? xs j ≡ get_elem? ys j)
      → take (length ys) xs ≡ ys
  take_same xs [] h = refl
  take_same [] (y ∷ ys) h = let first = h 0 (omega arith) in absurd (cc)
  take_same (x ∷ xs) (y ∷ ys) h =
      let first = h 0 (omega arith) in
      let rest = take_same xs ys (λ j inside. h (suc j) (omega arith)) in cc

-- The bytes stand at an offset of the buffer.
abbrev pub IsAt : List ℕ → ℕ → List ℕ → Type 0
IsAt buffer at bytes = (j : ℕ) → j < length bytes → get_elem? buffer (at + j) ≡ get_elem? bytes j

-- They can be read back.
pub take-IsAt :
    (buffer : List ℕ) (at : ℕ) (bytes : List ℕ)
    → IsAt buffer at bytes
    → take (length bytes) (drop at buffer) ≡ bytes
take-IsAt buffer at bytes h =
    take_same (drop at buffer) bytes
      (λ j inside. get_elem?-drop at buffer (at + j) j refl ∙ h j inside)

pub IsAt-inside :
    (buffer : List ℕ) (at : ℕ) (bytes : List ℕ)
    → IsAt buffer at bytes
    → 0 < length bytes
    → at + length bytes ≤ length buffer
IsAt-inside buffer at bytes h some_bytes =
    let last = length bytes - 1 in
    elim (Option-cases (get_elem? bytes last)) [
      | inl past ↦ absurd (omega (arith, (get_elem?-none_iff bytes last).0 past))
      | inr (b, found) ↦
          omega (arith, lt_of_get_elem? buffer (at + last) (h last (omega arith) ∙ found))
    ]

take-drop_same : (at : ℕ) (buffer : List ℕ) → take at buffer ++ drop (at + 0) buffer ≡ buffer
take-drop_same at buffer =
    let same : at + 0 ≡ at = omega arith in rw same (take-append-drop at buffer)

-- A write that stays inside the buffer.
pub store_inside :
    (buffer : List ℕ) (at : ℕ) (bytes : List ℕ)
    → at + length bytes ≤ length buffer
    → store buffer at bytes ≡ some (take at buffer ++ (bytes ++ drop (at + length bytes) buffer))
unfolding store
store_inside buffer at [] h = ap some (sym (take-drop_same at buffer))
store_inside buffer at (b ∷ bytes) h = ground (arith, h)

pub store_outside :
    (buffer : List ℕ) (at : ℕ) (bytes : List ℕ)
    → length buffer < at + length bytes
    → 0 < length bytes
    → store buffer at bytes ≡ none
unfolding store
store_outside buffer at [] h some_bytes = absurd (omega arith)
store_outside buffer at (b ∷ bytes) h some_bytes = ground (arith, h)

-- A write that succeeds either has nothing to write, or is one inside the buffer.
store-cases :
    (buffer : List ℕ) (at : ℕ) (bytes written : List ℕ)
    → store buffer at bytes ≡ some written
    → ((bytes ≡ []) × (written ≡ buffer))
      ⊎ ((at + length bytes ≤ length buffer)
          × (written ≡ take at buffer ++ (bytes ++ drop (at + length bytes) buffer)))
unfolding store
store-cases buffer at [] written e = inl (refl, cc)
store-cases buffer at (b ∷ bytes) written e =
    elim (Bool-cases (leb (at + suc (length bytes)) (length buffer))) [
      | inl room ↦ inr (ground (arith, room), cc (room, e))
      | inr outside ↦ absurd (cc (outside, e))
    ]

spliced_in :
    (buffer : List ℕ) (at : ℕ) (bytes : List ℕ)
    → at + length bytes ≤ length buffer
    → IsAt (take at buffer ++ (bytes ++ drop (at + length bytes) buffer)) at bytes
spliced_in buffer at bytes room j h =
    get_elem?-append_right (take at buffer) _ (at + j) j (omega (arith, length-take at buffer))
    ∙ get_elem?-append_left bytes _ j h

spliced_out :
    (buffer : List ℕ) (at : ℕ) (bytes : List ℕ) (i : ℕ)
    → at + length bytes ≤ length buffer
    → (i < at) ⊎ (at + length bytes ≤ i)
    → get_elem? (take at buffer ++ (bytes ++ drop (at + length bytes) buffer)) i
      ≡ get_elem? buffer i
spliced_out buffer at bytes i room (inl before) =
    get_elem?-append_left (take at buffer) _ i (omega (arith, length-take at buffer))
    ∙ get_elem?-take at buffer i before
spliced_out buffer at bytes i room (inr behind) =
    get_elem?-append_right (take at buffer) _ i (i - at) (omega (arith, length-take at buffer))
    ∙ (get_elem?-append_right bytes _ (i - at) (i - at - length bytes) (omega arith)
        ∙ get_elem?-drop (at + length bytes) buffer i (i - at - length bytes) (omega arith))

-- A write inside the buffer succeeds.
pub store_total :
    (buffer : List ℕ) (at : ℕ) (bytes : List ℕ)
    → at + length bytes ≤ length buffer
    → (written : List ℕ) × (store buffer at bytes ≡ some written)
store_total buffer at bytes room = (_, store_inside buffer at bytes room)

module _ (buffer : List ℕ) (at : ℕ) (bytes written : List ℕ)
    (e : store buffer at bytes ≡ some written) where
  pub length-store : length written ≡ length buffer
  length-store = elim (store-cases buffer at bytes written e) [
    | inl (empty, same) ↦ ap length same
    | inr (room, same) ↦ omega (
      arith,
      ap length same,
      length-append (take at buffer) (bytes ++ drop (at + length bytes) buffer),
      length-append bytes (drop (at + length bytes) buffer),
      length-take at buffer,
      length-drop (at + length bytes) buffer,
    )
  ]

  pub store-IsAt : IsAt written at bytes
  store-IsAt j h = elim (store-cases buffer at bytes written e) [
    | inl (empty, same) ↦ absurd (omega (arith, h, ap length empty))
    | inr (room, same) ↦ rw same (spliced_in buffer at bytes room j h)
  ]

  pub store-outside :
      (i : ℕ) → (i < at) ⊎ (at + length bytes ≤ i) → get_elem? written i ≡ get_elem? buffer i
  store-outside i h = elim (store-cases buffer at bytes written e) [
    | inl (empty, same) ↦ rw same refl
    | inr (room, same) ↦ rw same (spliced_out buffer at bytes i room h)
  ]

  -- Other bytes of the buffer stay where they were.
  pub IsAt-store :
      (at' : ℕ) (bytes' : List ℕ)
      → (at' + length bytes' ≤ at) ⊎ (at + length bytes ≤ at')
      → IsAt buffer at' bytes'
      → IsAt written at' bytes'
  IsAt-store at' bytes' (inl before) h j inside =
      store-outside (at' + j) (inl (omega arith)) ∙ h j inside
  IsAt-store at' bytes' (inr behind) h j inside =
      store-outside (at' + j) (inr (omega arith)) ∙ h j inside
