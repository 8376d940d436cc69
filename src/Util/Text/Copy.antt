-- ===== src/Util/Text/Copy.antt =====
-- The bounded copies: what string the destination holds afterwards.
use bootrom_tools.Base.{
  ℕ, zero, suc, ◌+◌, ◌-◌, ◌≤◌, ◌<◌, ◌≡◌, ◌≢◌, ◌↔◌, ◌∙◌, ◌⊎◌, refl, ap, true, List, [], ◌∷◌, ◌++◌,
  some, arith, ◌==◌, length, set, take, drop, replicate, All, length-append, length-take,
  length-replicate, length-drop, inl, inr, Bool-cases, min, take_all,
}
use bootrom_tools.Util.Text.{c_string, strncpy, trimmed, safer_strncpy, safer_strncat}

abbrev pub NoZero : List ℕ → Type 0
NoZero s = All (λ c. c ≢ 0) s

-- A zero written at index `n` ends the string there, if none stands before it.
c_string-set_zero :
    (buf : List ℕ) (n : ℕ)
    → NoZero (take n buf)
    → n < length buf
    → c_string (set buf n 0) ≡ take n buf
unfolding c_string
c_string-set_zero [] n h lt = absurd (omega arith)
c_string-set_zero (c ∷ cs) zero h lt = refl
c_string-set_zero (c ∷ cs) (suc n) h lt = ground (arith, c_string-set_zero cs n h.1)

pub take-append : (n : ℕ) (xs ys : List ℕ) → n ≤ length xs → take n (xs ++ ys) ≡ take n xs
take-append zero xs ys h = refl
take-append (suc n) [] ys h = absurd (omega arith)
take-append (suc n) (x ∷ xs) ys h = ap (◌∷◌ x) (take-append n xs ys (omega arith))

take-take : (m n : ℕ) (xs : List ℕ) → m ≤ n → take m (take n xs) ≡ take m xs
take-take zero n xs h = refl
take-take (suc m) zero xs h = absurd (omega arith)
take-take (suc m) (suc n) [] h = refl
take-take (suc m) (suc n) (x ∷ xs) h = ap (◌∷◌ x) (take-take m n xs (omega arith))

NoZero-take : (n : ℕ) (s : List ℕ) → NoZero s → NoZero (take n s)
NoZero-take zero s h = tt
NoZero-take (suc n) [] h = tt
NoZero-take (suc n) (c ∷ s) h = (h.0, NoZero-take n s h.1)

length-strncpy : (dest src : List ℕ) (n : ℕ) → length (strncpy dest src n) ≡ n + (length dest - n)
unfolding strncpy
length-strncpy dest src n = omega (
  arith,
  length-append (take n (src ++ replicate n 0)) (drop n dest),
  length-take n (src ++ replicate n 0),
  length-append src (replicate n 0),
  length-replicate {A = ℕ} n 0,
  length-drop n dest,
)

take-strncpy :
    (dest src : List ℕ) (m n : ℕ)
    → m ≤ n
    → m ≤ length src
    → take m (strncpy dest src n) ≡ take m src
unfolding strncpy
take-strncpy dest src m n h k =
    let padded : List ℕ = src ++ replicate n 0 in
    take-append m (take n padded) (drop n dest)
      (omega (arith, length-take n padded, length-append src (replicate n 0)))
    ∙ take-take m n padded h
    ∙ take-append m src (replicate n 0) k

-- What a full copy and the terminator behind it leave in the buffer.
terminated :
    (dest src : List ℕ) (n : ℕ)
    → NoZero src
    → n < length dest
    → n ≤ length src
    → c_string (set (strncpy dest src (length dest)) n 0) ≡ take n src
terminated dest src n h fits some_src =
    let copied : take n (strncpy dest src (length dest)) ≡ take n src =
      take-strncpy dest src n (length dest) (omega arith) some_src in
    c_string-set_zero (strncpy dest src (length dest)) n (rw copied (NoZero-take n src h))
      (omega (arith, length-strncpy dest src (length dest)))
    ∙ copied

pub safer_strncpy_lem :
    (dest src : List ℕ) (count : ℕ)
    → NoZero src
    → 0 < length dest
    → 0 < count
    → (count ≤ length src) ⊎ (length dest ≤ count)
    → (out : List ℕ) × ((safer_strncpy (some dest) (length dest) (some src) count).1 ≡ some out)
      × (c_string out ≡ take (min count (length dest - 1)) src)
      × (((safer_strncpy (some dest) (length dest) (some src) count).0 ≡ true)
          ↔ ((count < length dest) ⊎ (length src < length dest)))
unfolding safer_strncpy
safer_strncpy_lem dest src count h room some_count reach =
    let n : ℕ = (trimmed count (length dest) src).0 in
    (
      set (strncpy dest src (length dest)) n 0,
      ground arith,
      ground (
        arith,
        terminated dest src n h,
        take_all src (length src),
        take_all src (min count (length dest - 1)),
      ),
      ground arith,
    )

c_string-NoZero : (buf : List ℕ) → NoZero (c_string buf)
unfolding c_string
c_string-NoZero [] = tt
c_string-NoZero (c ∷ cs) = elim (Bool-cases (c == 0)) [
  | inl e ↦ rw (e, c_string) tt
  | inr e ↦ rw (e, c_string) (ground arith, c_string-NoZero cs)
]

take-c_string : (buf : List ℕ) → take (length (c_string buf)) buf ≡ c_string buf
unfolding c_string
take-c_string [] = refl
take-c_string (c ∷ cs) = ground (arith, take-c_string cs)

take-append_split :
    (n : ℕ) (xs ys : List ℕ) → take n (xs ++ ys) ≡ take n xs ++ take (n - length xs) ys
take-append_split zero xs ys = let e : 0 - length xs ≡ 0 = omega arith in rw e
take-append_split (suc n) [] ys =
    let e : suc n ≡ suc n - 0 = omega arith in ap (λ (k : ℕ). take k ys) e
take-append_split (suc n) (x ∷ xs) ys =
    let e : suc n - suc (length xs) ≡ n - length xs = omega arith in
    rw e (ap (◌∷◌ x) (take-append_split n xs ys))

NoZero-append : (xs ys : List ℕ) → NoZero xs → NoZero ys → NoZero (xs ++ ys)
NoZero-append [] ys h k = k
NoZero-append (x ∷ xs) ys h k = (h.0, NoZero-append xs ys h.1 k)

-- `safer_strncat` puts the terminator at index `count` of the buffer and not behind what it
-- appended: where all of it would fit, it succeeds and leaves the first `count` bytes of the two
-- strings together.
pub safer_strncat_cut :
    (dest src : List ℕ) (count : ℕ)
    → NoZero src
    → 0 < count
    → count ≤ length src
    → length (c_string dest) + count < length dest
    → (out : List ℕ) × (safer_strncat (some dest) (length dest) (some src) count ≡ (true, some out))
      × (c_string out ≡ take count (c_string dest ++ src))
unfolding safer_strncat
safer_strncat_cut dest src count h some_count reach room =
    let used : ℕ = length (c_string dest) in
    let added : List ℕ = strncpy (drop used dest) src count in
    let start : take used dest ≡ c_string dest = take-c_string dest in
    let whole : take count (c_string dest ++ added) ≡ take count (c_string dest ++ src) =
      rw
        (take-append_split count (c_string dest) added, take-append_split count (c_string dest) src)
        (ap (◌++◌ (take count (c_string dest)))
          (take-strncpy (drop used dest) src (count - used) count (omega arith) (omega arith))) in
    let size : count < length (c_string dest ++ added) = omega (
      arith,
      length-append (c_string dest) added,
      length-strncpy (drop used dest) src count,
      length-drop used dest,
    ) in
    (
      set (take used dest ++ added) count 0,
      ground arith,
      rw start (
          c_string-set_zero (c_string dest ++ added) count
            (rw whole (NoZero-take count _ (NoZero-append _ _ (c_string-NoZero dest) h))) size
          ∙ whole),
    )
