-- ===== src/Ims/Errk/Search.antt =====
-- The search ends, and what it finds.
use bootrom_tools.Base.{
  ℕ, zero, suc, ◌+◌, ◌*◌, ◌≤◌, ◌<◌, ◌≡◌, refl, Bool, true, false, List, arith, Bool-cases, inl, inr,
}
use bootrom_tools.Ims.{Crypto, IsIncrement}
use bootrom_tools.Ims.Keys.{calc_errk_pq_bias_odd, candidate_of}
use bootrom_tools.Ims.Errk.{
  odd_mod_of, bias_steps, Found, found, exhausted, out_of_fuel, accepts, find_q, find_p, search_pq,
}
use bootrom_tools.Ims.Errk.Second.{
  Ends, accepts-IsPrime, goes_on, goes_on-below, step_up, bias_up, none_up, no_step,
  find_q_all-Ends,
}

module _ (crypto : Crypto) (law : IsIncrement crypto) (sample : Bool) where
  pub find_p-stop :
      (fuel p_bias : ℕ) (p q_start : crypto.FF) (rng : crypto.Rng)
      → goes_on crypto law sample p_bias p ≡ false
      → find_p crypto sample (suc fuel) q_start p_bias p rng ≡ exhausted rng
  unfolding find_p
  find_p-stop fuel p_bias p q_start rng h = ground (arith, h)

  pub find_p-next :
      (fuel p_bias : ℕ) (p q_start : crypto.FF) (rng : crypto.Rng)
      → goes_on crypto law sample p_bias p ≡ true
      → (accepts crypto sample p rng).0 ≡ false
      → find_p crypto sample (suc fuel) q_start p_bias p rng
        ≡ find_p crypto sample fuel q_start
            (p_bias + odd_mod_of sample)
            (crypto.inc p (odd_mod_of sample))
            (accepts crypto sample p rng).1
  unfolding find_p
  find_p-next fuel p_bias p q_start rng h passed = ground (arith, h, passed)

  pub find_p-found :
      (fuel p_bias pq_bias : ℕ) (p q_start p' q : crypto.FF) (rng rng' : crypto.Rng)
      → goes_on crypto law sample p_bias p ≡ true
      → (accepts crypto sample p rng).0 ≡ true
      → find_q crypto sample (suc bias_steps) p_bias p 0 q_start (accepts crypto sample p rng).1
        ≡ found p' q pq_bias rng'
      → find_p crypto sample (suc fuel) q_start p_bias p rng ≡ found p' q pq_bias rng'
  unfolding find_p
  find_p-found fuel p_bias pq_bias p q_start p' q rng rng' h taken e = ground (arith, h, taken, e)

  pub find_p-exhausted :
      (fuel p_bias : ℕ) (p q_start : crypto.FF) (rng rng' : crypto.Rng)
      → goes_on crypto law sample p_bias p ≡ true
      → (accepts crypto sample p rng).0 ≡ true
      → find_q crypto sample (suc bias_steps) p_bias p 0 q_start (accepts crypto sample p rng).1
        ≡ exhausted rng'
      → find_p crypto sample (suc fuel) q_start p_bias p rng
        ≡ find_p crypto sample fuel q_start
            (p_bias + odd_mod_of sample)
            (crypto.inc p (odd_mod_of sample))
            rng'
  unfolding find_p
  find_p-exhausted fuel p_bias p q_start rng rng' h taken e = ground (arith, h, taken, e)

  -- What follows on a P that is taken, by what the loop over Q ends with.
  find_p-by :
      (fuel i : ℕ) (p_start q_start p : crypto.FF) (rng : crypto.Rng)
      → goes_on crypto law sample (i * odd_mod_of sample) p ≡ true
      → (accepts crypto sample p rng).0 ≡ true
      → ((rng' : crypto.Rng)
          → Ends crypto law sample p_start q_start (
              find_p crypto sample fuel q_start
                (suc i * odd_mod_of sample)
                (crypto.inc p (odd_mod_of sample))
                rng'))
      → (r : Found crypto)
      → find_q crypto sample
          (suc bias_steps)
          (i * odd_mod_of sample)
          p
          0
          q_start
          (accepts crypto sample p rng).1
        ≡ r
      → Ends crypto law sample p_start q_start r
      → Ends crypto law sample p_start q_start
          (find_p crypto sample (suc fuel) q_start (i * odd_mod_of sample) p rng)
  find_p-by fuel i p_start q_start p rng go taken rest (found p' q b rng') e h =
      rw (find_p-found fuel (i * odd_mod_of sample) b p q_start p' q rng rng' go taken e) h
  find_p-by fuel i p_start q_start p rng go taken rest (exhausted rng') e h =
      rw
        (
          find_p-exhausted fuel (i * odd_mod_of sample) p q_start rng rng' go taken e,
          bias_up crypto law sample i,
        )
        (rest rng')
  find_p-by fuel i p_start q_start p rng go taken rest out_of_fuel e h = absurd h

  find_p-Ends :
      (fuel i : ℕ) (p_start q_start p : crypto.FF) (rng : crypto.Rng)
      → p ≡ crypto.inc p_start (i * odd_mod_of sample)
      → i ≤ bias_steps
      → bias_steps < fuel + i
      → Ends crypto law sample p_start q_start
          (find_p crypto sample fuel q_start (i * odd_mod_of sample) p rng)
  find_p-Ends zero i p_start q_start p rng hp i_le enough = absurd (omega arith)
  find_p-Ends (suc fuel) i p_start q_start p rng hp i_le enough =
      elim (Bool-cases (goes_on crypto law sample (i * odd_mod_of sample) p)) [
        | inr stop ↦ rw (find_p-stop fuel (i * odd_mod_of sample) p q_start rng stop) tt
        | inl go ↦
            let next = (λ (rng' : crypto.Rng).
              find_p-Ends fuel (suc i) p_start q_start (crypto.inc p (odd_mod_of sample)) rng'
                (step_up crypto law sample p p_start i hp) (goes_on-below crypto law sample i p go)
                (omega arith)) in
            elim (Bool-cases (accepts crypto sample p rng).0) [
              | inr passed ↦
                  rw
                    (
                      find_p-next fuel (i * odd_mod_of sample) p q_start rng go passed,
                      bias_up crypto law sample i,
                    )
                    (next (accepts crypto sample p rng).1)
              | inl taken ↦ find_p-by fuel i p_start q_start p rng go taken next _ refl (
                  find_q_all-Ends crypto law sample i p_start q_start p
                    (accepts crypto sample p rng).1 (goes_on-below crypto law sample i p go) hp
                    (accepts-IsPrime crypto law sample p rng taken))
            ]
      ]

  -- Where increments add up: the search of `calc_errk` ends within its fuel, and what it finds are
  -- two numbers that were reported prime, each less than 4096 steps above its start, with the steps
  -- packed into 24 bits of which 12 are ones.
  pub search_pq-Ends :
      (y2 : List ℕ) (rng : crypto.Rng)
      → Ends crypto law sample
          (candidate_of crypto sample (calc_errk_pq_bias_odd crypto y2).0)
          (candidate_of crypto sample (calc_errk_pq_bias_odd crypto y2).1)
          (search_pq crypto sample y2 rng)
  unfolding search_pq
  search_pq-Ends y2 rng =
      let (errk_p, errk_q) = calc_errk_pq_bias_odd crypto y2 in
      rw (none_up crypto law sample) at (
        find_p-Ends (suc bias_steps) 0 (candidate_of crypto sample errk_p)
          (candidate_of crypto sample errk_q) (candidate_of crypto sample errk_p) rng
          (no_step crypto law sample _) (omega arith) (omega arith))
