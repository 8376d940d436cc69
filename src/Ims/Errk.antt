-- ===== src/Ims/Errk.antt =====
-- src/imsgen/ims.c: `calc_errk`, the search for the two primes of the RSA key, and the `calc_errk` of
-- src/imsgen/ims_test_core.c, which derives the same key from a finished IMS. Both factorability
-- and balance checks are enabled in ims_common.h.
pub mod Search
pub mod Second
pub mod Agree
pub mod Finds
use bootrom_tools.Base.{
  ℕ, zero, suc, ◌+◌, ◌-◌, ◌*◌, ◌/◌, ◌%◌, ◌^◌, Bool, true, false, ◌&&◌, not, List, [], ◌∷◌, ltb,
  ◌==◌, if◌then◌else◌, get_or, set, replicate, bit_or,
}
use bootrom_tools.Util.Hamming.{hamming_weight}
use bootrom_tools.Ims.{Crypto}
use bootrom_tools.Ims.Keys.{errk_pq_size, calc_errk_pq_bias_odd, candidate_of, public_modulus}

-- `ODD_MOD_SAMPLE` and `ODD_MOD_PRODUCTION`
abbrev pub odd_mod_of : Bool → ℕ
odd_mod_of ims_sample_compatibility = if ims_sample_compatibility then 2 else 4

-- `1 << P_Q_BIAS_BITS`
abbrev pub bias_steps : ℕ
bias_steps = 4096

abbrev pub erpk_exponent : ℕ
erpk_exponent = 65537

-- The first three bytes of `pq_bias` in memory.
abbrev pub bias_bytes : ℕ → List ℕ
bias_bytes pq_bias = pq_bias % 2 ^ 8 ∷ pq_bias / 2 ^ 8 % 2 ^ 8 ∷ pq_bias / 2 ^ 16 % 2 ^ 8 ∷ []

module _ (crypto : Crypto) where
  -- How a loop ends: with the two numbers, the packed biases and the random numbers that are left;
  -- without any; or for want of fuel.
  pub data Found : Type 0 where
    found : crypto.FF → crypto.FF → ℕ → crypto.Rng → Found
    exhausted : crypto.Rng → Found
    out_of_fuel : Found

  -- `calc_errk_max_pq`
  unfoldable pub errk_max_pq : crypto.FF
  errk_max_pq = crypto.dec (crypto.from_octet (replicate errk_pq_size 0xff)) 2

  -- Whether a number is taken: prime, and in the sample mode not one whose predecessor has the
  -- exponent as a factor.
  unfoldable pub accepts : Bool → crypto.FF → crypto.Rng → Bool × crypto.Rng
  accepts sample x rng =
      let (is_prime, rng') = crypto.prime x rng in
      (is_prime && not (sample && crypto.cfactor (crypto.dec x 1) erpk_exponent), rng')

  abbrev pub packed : ℕ → ℕ → ℕ → ℕ
  packed odd_mod p_bias q_bias = 4096 * (p_bias / odd_mod) + q_bias / odd_mod

  -- The body of the inner loop: an unbalanced bias is passed over before the number is tested.
  unfoldable pub accepts_q : Bool → ℕ → crypto.FF → crypto.Rng → Bool × crypto.Rng
  accepts_q sample pq_bias q rng =
      if not (hamming_weight (bias_bytes pq_bias) == 12) then (false, rng) else accepts sample q rng

  -- The loop over Q. The biases stay below 2^14, and are compared as they are.
  unfoldable pub find_q : Bool → ℕ → ℕ → crypto.FF → ℕ → crypto.FF → crypto.Rng → Found
  find_q sample zero p_bias p q_bias q rng = out_of_fuel
  find_q sample (suc fuel) p_bias p q_bias q rng =
      let odd_mod = odd_mod_of sample in
      let pq_bias = packed odd_mod p_bias q_bias in
      let (taken, rng') = accepts_q sample pq_bias q rng in
      elim (ltb q_bias (bias_steps * odd_mod) && not (crypto.exceeds q errk_max_pq)) [
        | false ↦ exhausted rng
        | true ↦ elim taken [
          | true ↦ found p q pq_bias rng'
          | false ↦ find_q sample fuel p_bias p (q_bias + odd_mod) (crypto.inc q odd_mod) rng'
        ]
      ]

  -- The loop over P, which starts the loop over Q anew for each P that is taken.
  unfoldable pub find_p : Bool → ℕ → crypto.FF → ℕ → crypto.FF → crypto.Rng → Found
  find_p sample zero q_start p_bias p rng = out_of_fuel
  find_p sample (suc fuel) q_start p_bias p rng =
      let odd_mod = odd_mod_of sample in
      let (taken, rng1) = accepts sample p rng in
      elim (ltb p_bias (bias_steps * odd_mod) && not (crypto.exceeds p errk_max_pq)) [
        | false ↦ exhausted rng
        | true ↦ elim taken [
          | false ↦ find_p sample fuel q_start (p_bias + odd_mod) (crypto.inc p odd_mod) rng1
          | true ↦ elim (find_q sample (suc bias_steps) p_bias p 0 q_start rng1) [
            | found p' q pq_bias rng2 ↦ found p' q pq_bias rng2
            | exhausted rng2 ↦
                find_p sample fuel q_start (p_bias + odd_mod) (crypto.inc p odd_mod) rng2
            | out_of_fuel ↦ out_of_fuel
          ]
        ]
      ]

  -- The search from the numbers that follow from "Y2".
  unfoldable pub search_pq : Bool → List ℕ → crypto.Rng → Found
  search_pq sample y2 rng =
      let (errk_p, errk_q) = calc_errk_pq_bias_odd crypto y2 in
      find_p sample (suc bias_steps) (candidate_of crypto sample errk_q) 0
        (candidate_of crypto sample errk_p) rng

  -- What `calc_errk` ends with: the IMS with the biases in its last three bytes, the modulus and the
  -- random numbers; `EOVERFLOW`; or no fuel.
  pub data Errk : Type 0 where
    made : List ℕ → List ℕ → crypto.Rng → Errk
    overflow : crypto.Rng → Errk
    no_fuel : Errk

  abbrev pub set_bias : List ℕ → ℕ → List ℕ
  set_bias ims pq_bias =
      set (set (set ims 32 (pq_bias % 2 ^ 8)) 33 (pq_bias / 2 ^ 8 % 2 ^ 8)) 34
        (pq_bias / 2 ^ 16 % 2 ^ 8)

  unfoldable pub calc_errk : Bool → List ℕ → List ℕ → crypto.Rng → Errk
  calc_errk sample y2 ims rng = elim (search_pq sample y2 rng) [
    | found p q pq_bias rng' ↦ made (set_bias ims pq_bias) (public_modulus crypto p q) rng'
    | exhausted rng' ↦ overflow rng'
    | out_of_fuel ↦ no_fuel
  ]

  -- `pq_bias` in ims_test_core.c, from the last three bytes of the IMS.
  unfoldable pub bias_of : List ℕ → ℕ
  bias_of ims =
      bit_or (bit_or (get_or ims 32 0) (get_or ims 33 0 * 2 ^ 8)) (get_or ims 34 0 * 2 ^ 16)

  -- The modulus that ims_test_core.c derives.
  unfoldable pub recover_errk : Bool → List ℕ → List ℕ → List ℕ
  recover_errk sample y2 ims =
      let (errk_p, errk_q) = calc_errk_pq_bias_odd crypto y2 in
      let odd_mod = odd_mod_of sample in
      let p_bias = bias_of ims / 4096 * odd_mod in
      let q_bias = bias_of ims % 4096 * odd_mod in
      public_modulus crypto (crypto.inc (candidate_of crypto sample errk_p) p_bias)
        (crypto.inc (candidate_of crypto sample errk_q) q_bias)
