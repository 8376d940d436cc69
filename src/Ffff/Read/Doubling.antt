-- ===== src/Ffff/Read/Doubling.antt =====
-- When the search for a header ends.
use bootrom_tools.Base.{
  ℕ, zero, suc, ◌*◌, ◌%◌, ◌^◌, ◌≤◌, ◌<◌, ◌≡◌, ◌∙◌, refl, sym, ap, Bool, true, false, Option, none,
  some, arith, ltb, double_shift, Bool-cases, inl, inr,
}
use bootrom_tools.Ffff.Read.{Search, located, not_located, overrun, no_fuel, find_header}

mul_regroup : (a k : ℕ) → a * 2 * 2 ^ k ≡ 2 * (a * 2 ^ k)
mul_regroup a k = omega arith

pub le_mul_pow : (a k : ℕ) → a ≤ a * 2 ^ k
le_mul_pow a zero = omega arith
le_mul_pow a (suc k) = omega (arith, le_mul_pow a k, double_shift a k)

module _ (valid : ℕ → Option Bool) (image_length : ℕ) where
  pub find_header-past :
      (fuel offset : ℕ)
      → image_length ≤ offset
      → find_header valid (suc fuel) image_length offset ≡ not_located
  unfolding find_header
  find_header-past fuel offset h = ground (arith, h)

  pub find_header-next :
      (fuel offset : ℕ)
      → offset < image_length
      → valid offset ≡ some false
      → find_header valid (suc fuel) image_length offset
        ≡ find_header valid fuel image_length (offset * 2 % 2 ^ 32)
  unfolding find_header
  find_header-next fuel offset h e = ground (arith, h, e)

  pub find_header-hit :
      (fuel offset : ℕ)
      → offset < image_length
      → valid offset ≡ some true
      → find_header valid (suc fuel) image_length offset ≡ located offset
  unfolding find_header
  find_header-hit fuel offset h e = ground (arith, h, e)

  pub find_header-fault :
      (fuel offset : ℕ)
      → offset < image_length
      → valid offset ≡ none
      → find_header valid (suc fuel) image_length offset ≡ overrun
  unfolding find_header
  find_header-fault fuel offset h e = ground (arith, h, e)

  -- A search that ends, and what it ends with.
  pub data IsEnd (start : ℕ) : Search → Type 0 where
    at :
        (k offset : ℕ)
        → offset ≡ start * 2 ^ k
        → offset < image_length
        → valid offset ≡ some true
        → IsEnd start (located offset)
    past : IsEnd start not_located
    fault : IsEnd start overrun

  find_header-by :
      (fuel start j offset : ℕ) (r : Option Bool)
      → offset ≡ start * 2 ^ j
      → offset < image_length
      → valid offset ≡ r
      → IsEnd start (find_header valid fuel image_length (offset * 2 % 2 ^ 32))
      → IsEnd start (find_header valid (suc fuel) image_length offset)
  find_header-by fuel start j offset none ho h e rest = rw (find_header-fault fuel offset h e) fault
  find_header-by fuel start j offset (some true) ho h e rest =
      rw (find_header-hit fuel offset h e) (at j offset ho h e)
  find_header-by fuel start j offset (some false) ho h e rest =
      rw (find_header-next fuel offset h e) rest

  pub find_header-IsEnd :
      (fuel start j offset : ℕ)
      → image_length ≤ 2 ^ 31
      → offset ≡ start * 2 ^ j
      → image_length ≤ offset * 2 ^ fuel
      → IsEnd start (find_header valid (suc fuel) image_length offset)
  find_header-IsEnd zero start j offset small ho enough =
      rw (find_header-past 0 offset (omega arith)) past
  find_header-IsEnd (suc fuel) start j offset small ho enough =
      elim (Bool-cases (ltb offset image_length)) [
        | inr stop ↦ rw (find_header-past (suc fuel) offset (ground (arith, stop))) past
        | inl go ↦
            let below : offset < image_length = ground (arith, go) in
            let no_wrap : offset * 2 % 2 ^ 32 ≡ offset * 2 = omega arith in
            let place : offset * 2 ≡ start * 2 ^ suc j = omega (arith, ho, double_shift start j) in
            let reach : offset * 2 * 2 ^ fuel ≡ offset * 2 ^ suc fuel =
              omega (arith, double_shift offset fuel, mul_regroup offset fuel) in
            find_header-by (suc fuel) start j offset _ ho below refl (
              rw no_wrap
                (find_header-IsEnd fuel start (suc j) (offset * 2) small place (omega arith)))
      ]

  -- From 0 no step leads on.
  find_header-out : (offset : ℕ) → find_header valid 0 image_length offset ≡ no_fuel
  unfolding find_header
  find_header-out offset = refl

  find_header-zero :
      (fuel : ℕ)
      → 0 < image_length
      → valid 0 ≡ some false
      → find_header valid fuel image_length 0 ≡ no_fuel
  find_header-zero zero h e = find_header-out 0
  find_header-zero (suc fuel) h e = find_header-next fuel 0 h e ∙ find_header-zero fuel h e

  -- In an image of more than 2^31 bytes, with no valid header at offset 0 nor at an
  -- offset that the search visits: no amount of fuel lets the search from a power of two that is at
  -- most 2^31 end, since the doubled offset wraps to 0.
  pub find_header_unending :
      (fuel m offset : ℕ)
      → 2 ^ 31 < image_length
      → offset * 2 ^ m ≡ 2 ^ 31
      → valid 0 ≡ some false
      → ((j : ℕ) → j ≤ m → valid (offset * 2 ^ j) ≡ some false)
      → find_header valid fuel image_length offset ≡ no_fuel
  find_header_unending zero m offset large h none_first e = find_header-out offset
  find_header_unending (suc fuel) zero offset large h none_first e =
      let wraps : offset * 2 % 2 ^ 32 ≡ 0 = omega arith in
      let here : offset * 2 ^ 0 ≡ offset = omega arith in
      find_header-next fuel offset (omega arith) (ap valid (sym here) ∙ e 0 (omega arith))
      ∙ rw wraps (find_header-zero fuel (omega arith) none_first)
  find_header_unending (suc fuel) (suc m) offset large h none_first e =
      let double = double_shift offset m in
      let regroup = mul_regroup offset m in
      let bound = le_mul_pow (offset * 2) m in
      let no_wrap : offset * 2 % 2 ^ 32 ≡ offset * 2 = omega arith in
      let here : offset * 2 ^ 0 ≡ offset = omega arith in
      let later : (j : ℕ) → j ≤ m → valid (offset * 2 * 2 ^ j) ≡ some false = λ j below.
        let same : offset * 2 * 2 ^ j ≡ offset * 2 ^ suc j =
          omega (arith, double_shift offset j, mul_regroup offset j) in
        ap valid same ∙ e (suc j) (omega arith) in
      find_header-next fuel offset (omega arith) (ap valid (sym here) ∙ e 0 (omega arith))
      ∙ rw no_wrap (find_header_unending fuel m (offset * 2) large (omega arith) none_first later)
