-- ===== src/Ims/Errk/Agree.antt =====
-- The key that is stored and the key that is derived from the finished IMS.
use bootrom_tools.Base.{
  ℕ, ◌+◌, ◌*◌, ◌/◌, ◌%◌, ◌^◌, ◌<◌, ◌≡◌, ◌∙◌, refl, sym, ap, ap₂, Bool, List, arith, All, All-set,
  length, set, take, length-set, get_or-set_self, get_or-set_ne, take-set_behind, bit_or,
  bit_or_disjoint,
}
use bootrom_tools.Ims.{Crypto, IsIncrement, ims_hamming_size}
use bootrom_tools.Ims.Keys.{calc_errk_pq_bias_odd, candidate_of, public_modulus}
use bootrom_tools.Util.Hamming.{hamming_weight}
use bootrom_tools.Ims.Errk.{
  bias_bytes, Found, found, exhausted, out_of_fuel, made, overflow, search_pq, set_bias, calc_errk,
  bias_of, recover_errk,
}
use bootrom_tools.Ims.Errk.Search.{search_pq-Ends}
use bootrom_tools.Ims.Errk.Second.{IsFound, Ends}

-- The three bytes of a number of 24 bits.
joined_bytes :
    (b : ℕ)
    → b < 2 ^ 24
    → bit_or (bit_or (b % 2 ^ 8) (b / 2 ^ 8 % 2 ^ 8 * 2 ^ 8)) (b / 2 ^ 16 % 2 ^ 8 * 2 ^ 16) ≡ b
joined_bytes b h =
    rw
      (
        bit_or_disjoint 8 (b / 2 ^ 8 % 2 ^ 8) (b % 2 ^ 8) (omega arith),
        bit_or_disjoint 16 (b / 2 ^ 16 % 2 ^ 8) (b / 2 ^ 8 % 2 ^ 8 * 2 ^ 8 + b % 2 ^ 8)
            (omega arith),
      )
      (omega arith)

module _ (crypto : Crypto) where
  bias_of-set_bias :
      (ims : List ℕ) (b : ℕ)
      → length ims ≡ 35
      → b < 2 ^ 24
      → bias_of crypto (set_bias crypto ims b) ≡ b
  unfolding bias_of
  bias_of-set_bias ims b size h =
      let b0 = b % 2 ^ 8 in
      let b1 = b / 2 ^ 8 % 2 ^ 8 in
      let b2 = b / 2 ^ 16 % 2 ^ 8 in
      let first = set ims 32 b0 in
      let second = set first 33 b1 in
      rw
        (
          get_or-set_ne second 34 32 b2 0 (omega arith),
          get_or-set_ne first 33 32 b1 0 (omega arith),
          get_or-set_self ims 32 b0 0 (omega arith),
          get_or-set_ne second 34 33 b2 0 (omega arith),
          get_or-set_self first 33 b1 0 (omega (arith, length-set ims 32 b0)),
          get_or-set_self second 34 b2 0
              (omega (arith, length-set ims 32 b0, length-set first 33 b1)),
        )
        (joined_bytes b h)

  -- The biases leave the first 32 bytes alone.
  take-set_bias :
      (ims : List ℕ) (b : ℕ)
      → take ims_hamming_size (set_bias crypto ims b) ≡ take ims_hamming_size ims
  take-set_bias ims b =
      let first = set ims 32 (b % 2 ^ 8) in
      let second = set first 33 (b / 2 ^ 8 % 2 ^ 8) in
      take-set_behind 32 second 34 (b / 2 ^ 16 % 2 ^ 8) (omega arith)
      ∙ take-set_behind 32 first 33 (b / 2 ^ 8 % 2 ^ 8) (omega arith)
      ∙ take-set_behind 32 ims 32 (b % 2 ^ 8) (omega arith)

  bytes-set_bias :
      (ims : List ℕ) (b : ℕ) → All (λ x. x < 256) ims → All (λ x. x < 256) (set_bias crypto ims b)
  bytes-set_bias ims b h =
      let first = set ims 32 (b % 2 ^ 8) in
      let second = set first 33 (b / 2 ^ 8 % 2 ^ 8) in
      All-set _ second 34 (b / 2 ^ 16 % 2 ^ 8)
        (All-set _ first 33 (b / 2 ^ 8 % 2 ^ 8) (All-set _ ims 32 (b % 2 ^ 8) h (omega arith))
          (omega arith))
        (omega arith)

  length-set_bias : (ims : List ℕ) (b : ℕ) → length (set_bias crypto ims b) ≡ length ims
  length-set_bias ims b =
      let first = set ims 32 (b % 2 ^ 8) in
      let second = set first 33 (b / 2 ^ 8 % 2 ^ 8) in
      length-set second 34 (b / 2 ^ 16 % 2 ^ 8)
      ∙ length-set first 33 (b / 2 ^ 8 % 2 ^ 8)
      ∙ length-set ims 32 (b % 2 ^ 8)

  module _ (law : IsIncrement crypto) (sample : Bool) where
    -- A found pair, once its steps are packed into an IMS, is the pair that is derived.
    recover_errk-set_bias :
        (y2 ims : List ℕ) (p q : crypto.FF) (b : ℕ)
        → length ims ≡ 35
        → IsFound crypto law sample
            (candidate_of crypto sample (calc_errk_pq_bias_odd crypto y2).0)
            (candidate_of crypto sample (calc_errk_pq_bias_odd crypto y2).1)
            p
            q
            b
        → recover_errk crypto sample y2 (set_bias crypto ims b) ≡ public_modulus crypto p q
    unfolding recover_errk
    recover_errk-set_bias y2 ims p q b size pair =
        let i_below = pair.i_below in
        let j_below = pair.j_below in
        let packing = pair.packing in
        let hi : b / 4096 ≡ pair.i = omega arith in
        let hj : b % 4096 ≡ pair.j = omega arith in
        rw (bias_of-set_bias ims b size (omega arith), hi, hj)
          (ap₂ (public_modulus crypto) (sym pair.p_value) (sym pair.q_value))

    pub calc_errk-found :
        (y2 ims : List ℕ) (p q : crypto.FF) (b : ℕ) (rng rng' : crypto.Rng)
        → search_pq crypto sample y2 rng ≡ found p q b rng'
        → calc_errk crypto sample y2 ims rng
          ≡ made (set_bias crypto ims b) (public_modulus crypto p q) rng'
    unfolding calc_errk
    calc_errk-found y2 ims p q b rng rng' h = ground (arith, h)

    calc_errk-exhausted :
        (y2 ims : List ℕ) (rng rng' : crypto.Rng)
        → search_pq crypto sample y2 rng ≡ exhausted rng'
        → calc_errk crypto sample y2 ims rng ≡ overflow rng'
    unfolding calc_errk
    calc_errk-exhausted y2 ims rng rng' h = ground (arith, h)

    -- What a finished IMS has in common with the given one, and the key that follows from it.
    pub record IsMade (y2 ims ims' modulus : List ℕ) : Type 0 where
      pub recovered : recover_errk crypto sample y2 ims' ≡ modulus
      pub same_front : take ims_hamming_size ims' ≡ take ims_hamming_size ims
      pub same_size : length ims' ≡ length ims
      pub bytes : All (λ b. b < 256) ims → All (λ b. b < 256) ims'
      pub balanced : hamming_weight (bias_bytes (bias_of crypto ims')) ≡ 12

    made_by :
        (y2 ims ims' modulus : List ℕ) (rng rng' : crypto.Rng) (r : Found crypto)
        → length ims ≡ 35
        → calc_errk crypto sample y2 ims rng ≡ made ims' modulus rng'
        → search_pq crypto sample y2 rng ≡ r
        → Ends crypto law sample
            (candidate_of crypto sample (calc_errk_pq_bias_odd crypto y2).0)
            (candidate_of crypto sample (calc_errk_pq_bias_odd crypto y2).1)
            r
        → IsMade y2 ims ims' modulus
    made_by y2 ims ims' modulus rng rng' (found p q b rng2) size h e pair =
        let result = sym (calc_errk-found y2 ims p q b rng rng2 e) ∙ h in
        let same_ims : set_bias crypto ims b ≡ ims' = cc in
        let same_modulus : public_modulus crypto p q ≡ modulus = cc in
        let i_below = pair.i_below in
        let j_below = pair.j_below in
        let packing = pair.packing in
        let same_bias = bias_of-set_bias ims b size (omega arith) in
        rw (sym same_ims, sym same_modulus)
          (record {
            recovered = recover_errk-set_bias y2 ims p q b size pair;
            same_front = take-set_bias ims b;
            same_size = length-set_bias ims b;
            bytes = λ h. bytes-set_bias ims b h;
            balanced = ap (λ x. hamming_weight (bias_bytes x)) same_bias ∙ pair.balanced;
          })
    made_by y2 ims ims' modulus rng rng' (exhausted rng2) size h e pair =
        let result = sym (calc_errk-exhausted y2 ims rng rng2 e) ∙ h in cc
    made_by y2 ims ims' modulus rng rng' out_of_fuel size h e pair = absurd pair

    pub calc_errk-IsMade :
        (y2 ims ims' modulus : List ℕ) (rng rng' : crypto.Rng)
        → length ims ≡ 35
        → calc_errk crypto sample y2 ims rng ≡ made ims' modulus rng'
        → IsMade y2 ims ims' modulus
    calc_errk-IsMade y2 ims ims' modulus rng rng' size h =
        made_by y2 ims ims' modulus rng rng' _ size h refl (search_pq-Ends crypto law sample y2 rng)

    -- For an IMS of 35 bytes, and where increments add up: where `calc_errk` makes a key, the modulus
    -- that it stores is the one that ims_test_core.c derives from the finished IMS, whose first 32
    -- bytes are those of the given one and whose packed biases have 12 ones.
    pub calc_errk-recover_errk :
        (y2 ims ims' modulus : List ℕ) (rng rng' : crypto.Rng)
        → length ims ≡ 35
        → calc_errk crypto sample y2 ims rng ≡ made ims' modulus rng'
        → (recover_errk crypto sample y2 ims' ≡ modulus)
          × ((take ims_hamming_size ims' ≡ take ims_hamming_size ims)
              × (hamming_weight (bias_bytes (bias_of crypto ims')) ≡ 12))
    calc_errk-recover_errk y2 ims ims' modulus rng rng' size h =
        let result = calc_errk-IsMade y2 ims ims' modulus rng rng' size h in
        (result.recovered, (result.same_front, result.balanced))
