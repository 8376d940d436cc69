-- ===== src/Ims/Errk/Finds.antt =====
-- When the search finds a pair.
use bootrom_tools.Base.{
  ℕ, zero, suc, ◌+◌, ◌*◌, ◌≤◌, ◌<◌, ◌≡◌, ◌⊎◌, refl, Bool, true, false, List, arith, Bool-cases, inl,
  inr,
}
use bootrom_tools.Ims.{Crypto, IsIncrement}
use bootrom_tools.Ims.Keys.{calc_errk_pq_bias_odd, candidate_of, public_modulus}
use bootrom_tools.Ims.Errk.{
  odd_mod_of, bias_steps, Found, found, exhausted, out_of_fuel, errk_max_pq, accepts, accepts_q,
  packed, find_q, find_p, search_pq, calc_errk, made, set_bias,
}
use bootrom_tools.Ims.Errk.Search.{find_p-next, find_p-found, find_p-exhausted}
use bootrom_tools.Ims.Errk.Second.{
  goes_on, find_q-take, find_q-next, find_q_all-Ends, accepts-IsPrime, goes_on-below, Ends, step_up,
  bias_up, none_up, no_step,
}
use bootrom_tools.Ims.Errk.Agree.{calc_errk-found}

module _ (crypto : Crypto) (law : IsIncrement crypto) (sample : Bool) where
  abbrev Succeeds : Found crypto → Type 0
  Succeeds (found p q b rng) = Unit
  Succeeds (exhausted rng) = ⊥
  Succeeds out_of_fuel = ⊥

  -- The numbers up to `n` steps above the start stay below the limit.
  abbrev pub Fits : crypto.FF → ℕ → Type 0
  Fits start n =
      (s : ℕ)
      → s ≤ n
      → crypto.exceeds (crypto.inc start (s * odd_mod_of sample)) (errk_max_pq crypto) ≡ false

  -- A pair that is taken whatever the random numbers are.
  pub record IsTaken (p_start q_start : crypto.FF) (i j : ℕ) : Type 0 where
    pub i_below : i < bias_steps
    pub j_below : j < bias_steps
    pub p_fits : Fits p_start i
    pub q_fits : Fits q_start j
    pub p_taken :
        (r : crypto.Rng)
        → (accepts crypto sample (crypto.inc p_start (i * odd_mod_of sample)) r).0 ≡ true
    pub q_taken :
        (r : crypto.Rng)
        → (accepts_q crypto sample
            (packed crypto (odd_mod_of sample) (i * odd_mod_of sample) (j * odd_mod_of sample))
            (crypto.inc q_start (j * odd_mod_of sample))
            r).0
          ≡ true

  going :
      (x start : crypto.FF) (s n : ℕ)
      → Fits start n
      → s ≤ n
      → n < bias_steps
      → x ≡ crypto.inc start (s * odd_mod_of sample)
      → goes_on crypto law sample (s * odd_mod_of sample) x ≡ true
  going x start s n fits below n_below hx =
      let small = fits s below in
      rw hx (elim (Bool-cases sample) [
        | inl e ↦ ground (arith, small, e)
        | inr e ↦ ground (arith, small, e)
      ])

  -- Short of the target, or at it.
  rises : (j n : ℕ) → j ≤ n → (j ≡ n) ⊎ (suc j ≤ n)
  rises j n h = ground arith

  module _ (p_start q_start : crypto.FF) (i n : ℕ) (pair : IsTaken p_start q_start i n) where
    find_q-Succeeds :
        (fuel j : ℕ) (p q : crypto.FF) (rng : crypto.Rng)
        → q ≡ crypto.inc q_start (j * odd_mod_of sample)
        → j ≤ n
        → n < fuel + j
        → Succeeds
            (find_q crypto sample fuel (i * odd_mod_of sample) p (j * odd_mod_of sample) q rng)
    find_q-Succeeds zero j p q rng hq j_le enough = absurd (omega arith)
    find_q-Succeeds (suc fuel) j p q rng hq j_le enough =
        let bias =
          packed crypto (odd_mod_of sample) (i * odd_mod_of sample) (j * odd_mod_of sample) in
        let go = going q q_start j n pair.q_fits j_le pair.j_below hq in
        elim (Bool-cases (accepts_q crypto sample bias q rng).0) [
          | inl taken ↦
              rw
                (find_q-take crypto law sample fuel (i * odd_mod_of sample) (j * odd_mod_of sample)
                  p q rng go taken)
                tt
          | inr passed ↦ elim (rises j n j_le) [
            | inl at ↦
                let taken : (accepts_q crypto sample bias q rng).0 ≡ true =
                  rw (hq, at) (pair.q_taken rng) in
                absurd (ground (arith, taken, passed))
            | inr short ↦
                rw
                  (
                    find_q-next crypto law sample fuel (i * odd_mod_of sample)
                        (j * odd_mod_of sample) p q rng go passed,
                    bias_up crypto law sample j,
                  )
                  (find_q-Succeeds fuel (suc j) p (crypto.inc q (odd_mod_of sample))
                    (accepts_q crypto sample bias q rng).1
                    (step_up crypto law sample q q_start j hq) short (omega arith))
          ]
        ]

    find_q_all-Succeeds :
        (p : crypto.FF) (rng : crypto.Rng)
        → Succeeds (find_q crypto sample (suc bias_steps) (i * odd_mod_of sample) p 0 q_start rng)
    find_q_all-Succeeds p rng =
        let below = pair.j_below in
        rw (none_up crypto law sample) at (
          find_q-Succeeds (suc bias_steps) 0 p q_start rng (no_step crypto law sample q_start)
            (omega arith) (omega arith))

    -- A P that is taken, by what the loop over Q ends with.
    find_p-taken :
        (fuel s : ℕ) (p : crypto.FF) (rng : crypto.Rng)
        → goes_on crypto law sample (s * odd_mod_of sample) p ≡ true
        → (accepts crypto sample p rng).0 ≡ true
        → ((r : crypto.Rng)
            → (s ≡ i)
              ⊎ Succeeds (
                  find_p crypto sample fuel q_start
                    (suc s * odd_mod_of sample)
                    (crypto.inc p (odd_mod_of sample))
                    r))
        → (r : Found crypto)
        → find_q crypto sample
            (suc bias_steps)
            (s * odd_mod_of sample)
            p
            0
            q_start
            (accepts crypto sample p rng).1
          ≡ r
        → ((s ≡ i) → Succeeds r)
        → Ends crypto law sample p_start q_start r
        → Succeeds (find_p crypto sample (suc fuel) q_start (s * odd_mod_of sample) p rng)
    find_p-taken fuel s p rng go taken rest (found p' q b rng') e target ends =
        rw
          (find_p-found crypto law sample fuel (s * odd_mod_of sample) b p q_start p' q rng rng' go
            taken e)
          tt
    find_p-taken fuel s p rng go taken rest (exhausted rng') e target ends = elim (rest rng') [
      | inl at ↦ absurd (target at)
      | inr later ↦
          rw
            (
              find_p-exhausted crypto law sample fuel (s * odd_mod_of sample) p q_start rng rng' go
                  taken e,
              bias_up crypto law sample s,
            )
            later
    ]
    find_p-taken fuel s p rng go taken rest out_of_fuel e target ends = absurd ends

    find_p-Succeeds :
        (fuel s : ℕ) (p : crypto.FF) (rng : crypto.Rng)
        → p ≡ crypto.inc p_start (s * odd_mod_of sample)
        → s ≤ i
        → i < fuel + s
        → Succeeds (find_p crypto sample fuel q_start (s * odd_mod_of sample) p rng)
    find_p-Succeeds zero s p rng hp s_le enough = absurd (omega arith)
    find_p-Succeeds (suc fuel) s p rng hp s_le enough =
        let go = going p p_start s i pair.p_fits s_le pair.i_below hp in
        let rest : (r : crypto.Rng)
            → (s ≡ i)
              ⊎ Succeeds (
                  find_p crypto sample fuel q_start (suc s * odd_mod_of sample)
                    (crypto.inc p (odd_mod_of sample)) r) =
          λ r. elim (rises s i s_le) [
            | inl at ↦ inl at
            | inr short ↦ inr (
                find_p-Succeeds fuel (suc s) (crypto.inc p (odd_mod_of sample)) r
                  (step_up crypto law sample p p_start s hp) short (omega arith))
          ] in
        elim (Bool-cases (accepts crypto sample p rng).0) [
          | inl taken ↦
              find_p-taken fuel s p rng go taken rest _ refl
                (λ at. rw at (find_q_all-Succeeds p (accepts crypto sample p rng).1))
                (find_q_all-Ends crypto law sample s p_start q_start p
                  (accepts crypto sample p rng).1 (goes_on-below crypto law sample s p go) hp
                  (accepts-IsPrime crypto law sample p rng taken))
          | inr passed ↦ elim (rest (accepts crypto sample p rng).1) [
            | inl at ↦
                let taken : (accepts crypto sample p rng).0 ≡ true =
                  rw (hp, at) (pair.p_taken rng) in
                absurd (ground (arith, taken, passed))
            | inr later ↦
                rw
                  (
                    find_p-next crypto law sample fuel (s * odd_mod_of sample) p q_start rng go
                        passed,
                    bias_up crypto law sample s,
                  )
                  later
          ]
        ]

  made_by_found :
      (y2 ims : List ℕ) (rng : crypto.Rng) (r : Found crypto)
      → search_pq crypto sample y2 rng ≡ r
      → Succeeds r
      → (ims' : List ℕ) × (modulus : List ℕ) × (rng' : crypto.Rng) × (calc_errk crypto sample y2 ims
            rng
          ≡ made ims' modulus rng')
  made_by_found y2 ims rng (found p q b rng') e h = (
    set_bias crypto ims b,
    public_modulus crypto p q,
    rng',
    calc_errk-found crypto law sample y2 ims p q b rng rng' e,
  )
  made_by_found y2 ims rng (exhausted rng') e h = absurd h
  made_by_found y2 ims rng out_of_fuel e h = absurd h

  search_pq-Succeeds :
      (y2 : List ℕ) (rng : crypto.Rng) (i j : ℕ)
      → IsTaken
          (candidate_of crypto sample (calc_errk_pq_bias_odd crypto y2).0)
          (candidate_of crypto sample (calc_errk_pq_bias_odd crypto y2).1)
          i
          j
      → Succeeds (search_pq crypto sample y2 rng)
  unfolding search_pq
  search_pq-Succeeds y2 rng i j pair =
      let (errk_p, errk_q) = calc_errk_pq_bias_odd crypto y2 in
      let below = pair.i_below in
      rw (none_up crypto law sample) at (
        find_p-Succeeds (candidate_of crypto sample errk_p) (candidate_of crypto sample errk_q) i j
          pair (suc bias_steps) 0 (candidate_of crypto sample errk_p) rng
          (no_step crypto law sample _) (omega arith) (omega arith))

  -- Where increments add up, and some pair of numbers, each less than 4096 steps above its start, is
  -- taken whatever the random numbers are, with no number up to it past the limit: `calc_errk`
  -- makes a key.
  pub calc_errk-IsTaken :
      (y2 ims : List ℕ) (rng : crypto.Rng) (i j : ℕ)
      → IsTaken
          (candidate_of crypto sample (calc_errk_pq_bias_odd crypto y2).0)
          (candidate_of crypto sample (calc_errk_pq_bias_odd crypto y2).1)
          i
          j
      → (ims' : List ℕ) × (modulus : List ℕ) × (rng' : crypto.Rng) × (calc_errk crypto sample y2 ims
            rng
          ≡ made ims' modulus rng')
  calc_errk-IsTaken y2 ims rng i j pair =
      made_by_found y2 ims rng _ refl (search_pq-Succeeds y2 rng i j pair)
