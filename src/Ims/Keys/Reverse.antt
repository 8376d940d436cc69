-- ===== src/Ims/Keys/Reverse.antt =====
-- Both ways in which the code turns a buffer round.
use bootrom_tools.Base.{
  ℕ, zero, suc, ◌+◌, ◌-◌, ◌*◌, ◌≤◌, ◌<◌, ◌≡◌, ◌∙◌, refl, sym, ap, List, [], ◌∷◌, ◌++◌, Option, none,
  some, arith, length, get_elem?, set, length-append, append_assoc, append-nil,
}
use bootrom_tools.Ims.Keys.{swap_between, reverse_buf, copy_reversed}

-- The mirror image.
unfoldable pub reverse : List ℕ → List ℕ
reverse [] = []
reverse (x ∷ xs) = reverse xs ++ (x ∷ [])

copy_reversed-behind :
    (n : ℕ) (x : ℕ) (xs : List ℕ) → copy_reversed (suc n) (x ∷ xs) ≡ copy_reversed n xs ++ (x ∷ [])
unfolding copy_reversed
copy_reversed-behind zero x xs = refl
copy_reversed-behind (suc n) x xs = go (copy_reversed-behind n x xs) (get_elem? xs n)
  where
    go :
        copy_reversed (suc n) (x ∷ xs) ≡ copy_reversed n xs ++ (x ∷ [])
        → (r : Option ℕ)
        → elim r [
          | none ↦ copy_reversed (suc n) (x ∷ xs)
          | some b ↦ b ∷ copy_reversed (suc n) (x ∷ xs)
        ]
          ≡ elim r [ none ↦ copy_reversed n xs | some b ↦ b ∷ copy_reversed n xs ] ++ (x ∷ [])
    go rest none = rest
    go rest (some b) = ap (◌∷◌ b) rest

-- The copy that `ff_from_little_endian_octet` makes is the mirror image of the octet.
pub copy_reversed-reverse : (val : List ℕ) → copy_reversed (length val) val ≡ reverse val
unfolding copy_reversed reverse
copy_reversed-reverse [] = refl
copy_reversed-reverse (x ∷ xs) =
    copy_reversed-behind (length xs) x xs ∙ ap (λ ys. ys ++ (x ∷ [])) (copy_reversed-reverse xs)

-- A nonempty list ends in an element.
ends_in : (x : ℕ) (xs : List ℕ) → (ys : List ℕ) × (y : ℕ) × (x ∷ xs ≡ ys ++ (y ∷ []))
ends_in x [] = ([], x, refl)
ends_in x (z ∷ zs) = let (ys, y, e) = ends_in z zs in (x ∷ ys, y, ap (◌∷◌ x) e)

reverse-append_one : (xs : List ℕ) (y : ℕ) → reverse (xs ++ (y ∷ [])) ≡ y ∷ reverse xs
unfolding reverse
reverse-append_one [] y = refl
reverse-append_one (x ∷ xs) y = ap (λ ys. ys ++ (x ∷ [])) (reverse-append_one xs y)

get_elem?-at :
    (pre : List ℕ) (a : ℕ) (post : List ℕ) → get_elem? (pre ++ (a ∷ post)) (length pre) ≡ some a
get_elem?-at [] a post = refl
get_elem?-at (x ∷ pre) a post = get_elem?-at pre a post

set-at :
    (pre : List ℕ) (a v : ℕ) (post : List ℕ)
    → set (pre ++ (a ∷ post)) (length pre) v ≡ pre ++ (v ∷ post)
set-at [] a v post = refl
set-at (x ∷ pre) a v post = ap (◌∷◌ x) (set-at pre a v post)

swap_stop :
    (fuel front rear : ℕ) (buf : List ℕ)
    → rear ≤ front
    → swap_between (suc fuel) front rear buf ≡ some buf
unfolding swap_between
swap_stop fuel front rear buf h = ground (arith, h)

swap_step :
    (fuel front rear a b : ℕ) (buf : List ℕ)
    → front < rear
    → get_elem? buf front ≡ some a
    → get_elem? buf rear ≡ some b
    → swap_between (suc fuel) front rear buf
      ≡ swap_between fuel (front + 1) (rear - 1) (set (set buf front b) rear a)
unfolding swap_between
swap_step fuel front rear a b buf h ha hb = ground (arith, h, ha, hb)

-- One exchange of the first and the last element of the middle part.
swap_ends :
    (fuel : ℕ) (pre ys post : List ℕ) (x y front rear : ℕ)
    → front ≡ length pre
    → rear ≡ length (pre ++ (x ∷ ys))
    → swap_between (suc fuel) front rear (pre ++ (x ∷ (ys ++ (y ∷ post))))
      ≡ swap_between fuel (front + 1) (rear - 1) ((pre ++ (y ∷ [])) ++ (ys ++ (x ∷ post)))
swap_ends fuel pre ys post x y front rear hf hr =
    let buf = pre ++ (x ∷ (ys ++ (y ∷ post))) in
    let regroup : buf ≡ (pre ++ (x ∷ ys)) ++ (y ∷ post) =
      sym (append_assoc pre (x ∷ ys) (y ∷ post)) in
    let at_front : get_elem? buf front ≡ some x = rw hf (get_elem?-at pre x (ys ++ (y ∷ post))) in
    let at_rear : get_elem? buf rear ≡ some y =
      rw (regroup, hr) (get_elem?-at (pre ++ (x ∷ ys)) y post) in
    let first : set buf front y ≡ pre ++ (y ∷ (ys ++ (y ∷ post))) =
      rw hf (set-at pre x y (ys ++ (y ∷ post))) in
    let same : rear ≡ length (pre ++ (y ∷ ys)) =
      hr ∙ (length-append pre (x ∷ ys) ∙ sym (length-append pre (y ∷ ys))) in
    let second : set (pre ++ (y ∷ (ys ++ (y ∷ post)))) rear x
        ≡ (pre ++ (y ∷ [])) ++ (ys ++ (x ∷ post)) =
      rw (same, sym (append_assoc pre (y ∷ ys) (y ∷ post)))
        (set-at (pre ++ (y ∷ ys)) y x post
          ∙ (append_assoc pre (y ∷ ys) (x ∷ post)
              ∙ sym (append_assoc pre (y ∷ []) (ys ++ (x ∷ post))))) in
    swap_step fuel front rear x y buf (omega (arith, hf, hr, length-append pre (x ∷ ys))) at_front
      at_rear
    ∙ ap (swap_between fuel (front + 1) (rear - 1)) (ap (λ b. set b rear x) first ∙ second)

-- The middle part between the two indices is turned round.
swap_between-reverse :
    (fuel : ℕ) (pre mid post : List ℕ) (front rear : ℕ)
    → front ≡ length pre
    → rear + 1 ≡ length pre + length mid
    → length mid < 2 * fuel
    → swap_between fuel front rear (pre ++ (mid ++ post)) ≡ some (pre ++ (reverse mid ++ post))
unfolding reverse
swap_between-reverse zero pre mid post front rear hf hr enough = absurd (omega arith)
swap_between-reverse (suc fuel) pre [] post front rear hf hr enough =
    swap_stop fuel front rear (pre ++ post) (omega arith)
swap_between-reverse (suc fuel) pre (x ∷ []) post front rear hf hr enough =
    swap_stop fuel front rear (pre ++ (x ∷ post)) (omega arith)
swap_between-reverse (suc fuel) pre (x ∷ (z ∷ zs)) post front rear hf hr enough =
    let (ys, y, e) = ends_in z zs in
    let count : suc (length zs) ≡ length ys + 1 = ap length e ∙ length-append ys (y ∷ []) in
    let start : (z ∷ zs) ++ post ≡ ys ++ (y ∷ post) =
      ap (λ (l : List ℕ). l ++ post) e ∙ append_assoc ys (y ∷ []) post in
    let turned : reverse (z ∷ zs) ≡ y ∷ reverse ys = ap reverse e ∙ reverse-append_one ys y in
    let result : (pre ++ (y ∷ [])) ++ (reverse ys ++ (x ∷ post))
        ≡ pre ++ ((reverse (z ∷ zs) ++ (x ∷ [])) ++ post) =
      rw (turned, append_assoc (y ∷ reverse ys) (x ∷ []) post)
        (append_assoc pre (y ∷ []) (reverse ys ++ (x ∷ post))) in
    ap (λ (l : List ℕ). swap_between (suc fuel) front rear (pre ++ (x ∷ l))) start
    ∙ (swap_ends fuel pre ys post x y front rear hf (omega (arith, length-append pre (x ∷ ys)))
        ∙ (swap_between-reverse fuel (pre ++ (y ∷ [])) ys (x ∷ post) (front + 1) (rear - 1)
              (omega (arith, length-append pre (y ∷ [])))
              (omega (arith, length-append pre (y ∷ []))) (omega arith)
            ∙ ap some result))

-- `reverse_buf` ends within its fuel, never leaves the buffer, and gives its mirror image.
pub reverse_buf-reverse : (buf : List ℕ) → reverse_buf buf ≡ some (reverse buf)
unfolding reverse_buf reverse
reverse_buf-reverse [] = refl
reverse_buf-reverse (b ∷ buf) =
    let whole =
      swap_between-reverse (suc (length buf)) [] (b ∷ buf) [] 0 (length buf) refl (omega arith)
        (omega arith) in
    ap (swap_between (suc (length buf)) 0 (length buf)) (sym (append-nil (b ∷ buf)))
    ∙ (whole ∙ ap some (append-nil (reverse (b ∷ buf))))
