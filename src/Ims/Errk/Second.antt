-- ===== src/Ims/Errk/Second.antt =====
-- The search for the second prime.
use bootrom_tools.Base.{
  ℕ, zero, suc, ◌+◌, ◌*◌, ◌≤◌, ◌<◌, ◌≡◌, ◌∙◌, sym, ap, Bool, true, false, ◌&&◌, not, arith, ltb,
  ◌==◌, ==_iff, Bool-cases, inl, inr,
}
use bootrom_tools.Util.Hamming.{hamming_weight}
use bootrom_tools.Ims.{Crypto, IsIncrement}
use bootrom_tools.Ims.Errk.{
  odd_mod_of, bias_steps, bias_bytes, Found, found, exhausted, out_of_fuel, errk_max_pq, accepts,
  accepts_q, packed, find_q,
}

module _ (crypto : Crypto) (law : IsIncrement crypto) (sample : Bool) where
  -- A number that was reported prime by some call.
  abbrev pub IsPrime : crypto.FF → Type 0
  IsPrime x = (r : crypto.Rng) × ((crypto.prime x r).0 ≡ true)

  -- The result is a pair of primes `j` and `i` steps above the starts, packed with 12 ones.
  pub record IsFound (p_start q_start p q : crypto.FF) (pq_bias : ℕ) : Type 0 where
    pub i : ℕ
    pub j : ℕ
    pub i_below : i < bias_steps
    pub j_below : j < bias_steps
    pub p_value : p ≡ crypto.inc p_start (i * odd_mod_of sample)
    pub q_value : q ≡ crypto.inc q_start (j * odd_mod_of sample)
    pub packing : pq_bias ≡ 4096 * i + j
    pub balanced : hamming_weight (bias_bytes pq_bias) ≡ 12
    pub p_prime : IsPrime p
    pub q_prime : IsPrime q

  -- What is true of every way a search can end but for want of fuel.
  abbrev pub Ends : crypto.FF → crypto.FF → Found crypto → Type 0
  Ends p_start q_start (found p q pq_bias rng) = IsFound p_start q_start p q pq_bias
  Ends p_start q_start (exhausted rng) = Unit
  Ends p_start q_start out_of_fuel = ⊥

  pub accepts-IsPrime :
      (x : crypto.FF) (rng : crypto.Rng) → (accepts crypto sample x rng).0 ≡ true → IsPrime x
  unfolding accepts
  accepts-IsPrime x rng h = (rng, ground arith)

  accepts_q-IsPrime :
      (pq_bias : ℕ) (x : crypto.FF) (rng : crypto.Rng)
      → (accepts_q crypto sample pq_bias x rng).0 ≡ true
      → IsPrime x × (hamming_weight (bias_bytes pq_bias) ≡ 12)
  unfolding accepts_q
  accepts_q-IsPrime pq_bias x rng h =
      elim (Bool-cases (hamming_weight (bias_bytes pq_bias) == 12)) [
        | inl balanced ↦ (accepts-IsPrime x rng (ground (arith, balanced)), (==_iff _ _).0 balanced)
        | inr other ↦ absurd (ground (arith, other))
      ]

  -- The loop's own test, and the judgement of its body.
  abbrev pub goes_on : ℕ → crypto.FF → Bool
  goes_on bias x =
      ltb bias (bias_steps * odd_mod_of sample) && not (crypto.exceeds x (errk_max_pq crypto))

  pub goes_on-below :
      (j : ℕ) (x : crypto.FF) → goes_on (j * odd_mod_of sample) x ≡ true → j < bias_steps
  goes_on-below j x h = elim (Bool-cases sample) [
    | inl s ↦ ground (arith, h, s)
    | inr s ↦ ground (arith, h, s)
  ]

  packed_lem :
      (i j : ℕ)
      → packed crypto (odd_mod_of sample) (i * odd_mod_of sample) (j * odd_mod_of sample)
        ≡ 4096 * i + j
  packed_lem i j = elim (Bool-cases sample) [
    | inl s ↦ ground (arith, s)
    | inr s ↦ ground (arith, s)
  ]

  pub find_q-stop :
      (fuel p_bias q_bias : ℕ) (p q : crypto.FF) (rng : crypto.Rng)
      → goes_on q_bias q ≡ false
      → find_q crypto sample (suc fuel) p_bias p q_bias q rng ≡ exhausted rng
  unfolding find_q
  find_q-stop fuel p_bias q_bias p q rng h = ground (arith, h)

  pub find_q-take :
      (fuel p_bias q_bias : ℕ) (p q : crypto.FF) (rng : crypto.Rng)
      → goes_on q_bias q ≡ true
      → (accepts_q crypto sample (packed crypto (odd_mod_of sample) p_bias q_bias) q rng).0 ≡ true
      → find_q crypto sample (suc fuel) p_bias p q_bias q rng
        ≡ found p q
            (packed crypto (odd_mod_of sample) p_bias q_bias)
            (accepts_q crypto sample (packed crypto (odd_mod_of sample) p_bias q_bias) q rng).1
  unfolding find_q
  find_q-take fuel p_bias q_bias p q rng h taken = ground (arith, h, taken)

  pub find_q-next :
      (fuel p_bias q_bias : ℕ) (p q : crypto.FF) (rng : crypto.Rng)
      → goes_on q_bias q ≡ true
      → (accepts_q crypto sample (packed crypto (odd_mod_of sample) p_bias q_bias) q rng).0 ≡ false
      → find_q crypto sample (suc fuel) p_bias p q_bias q rng
        ≡ find_q crypto sample fuel p_bias p
            (q_bias + odd_mod_of sample)
            (crypto.inc q (odd_mod_of sample))
            (accepts_q crypto sample (packed crypto (odd_mod_of sample) p_bias q_bias) q rng).1
  unfolding find_q
  find_q-next fuel p_bias q_bias p q rng h taken = ground (arith, h, taken)

  -- One step more above the start.
  pub step_up :
      (x start : crypto.FF) (j : ℕ)
      → x ≡ crypto.inc start (j * odd_mod_of sample)
      → crypto.inc x (odd_mod_of sample) ≡ crypto.inc start (suc j * odd_mod_of sample)
  step_up x start j h =
      ap (λ y. crypto.inc y (odd_mod_of sample)) h
      ∙ law.inc-inc start (j * odd_mod_of sample) (odd_mod_of sample)
      ∙ ap (crypto.inc start) (omega arith)

  pub bias_up : (j : ℕ) → j * odd_mod_of sample + odd_mod_of sample ≡ suc j * odd_mod_of sample
  bias_up j = omega arith

  pub none_up : 0 * odd_mod_of sample ≡ 0
  none_up = omega arith

  pub no_step : (x : crypto.FF) → x ≡ crypto.inc x (0 * odd_mod_of sample)
  no_step x = rw none_up (sym (law.inc_zero x))

  find_q-Ends :
      (fuel i j : ℕ) (p_start q_start p q : crypto.FF) (rng : crypto.Rng)
      → i < bias_steps
      → p ≡ crypto.inc p_start (i * odd_mod_of sample)
      → q ≡ crypto.inc q_start (j * odd_mod_of sample)
      → IsPrime p
      → j ≤ bias_steps
      → bias_steps < fuel + j
      → Ends p_start q_start
          (find_q crypto sample fuel (i * odd_mod_of sample) p (j * odd_mod_of sample) q rng)
  find_q-Ends zero i j p_start q_start p q rng i_below hp hq prime j_le enough =
      absurd (omega arith)
  find_q-Ends (suc fuel) i j p_start q_start p q rng i_below hp hq prime j_le enough =
      let bias =
        packed crypto (odd_mod_of sample) (i * odd_mod_of sample) (j * odd_mod_of sample) in
      elim (Bool-cases (goes_on (j * odd_mod_of sample) q)) [
        | inr stop ↦
            rw (find_q-stop fuel (i * odd_mod_of sample) (j * odd_mod_of sample) p q rng stop) tt
        | inl go ↦ elim (Bool-cases (accepts_q crypto sample bias q rng).0) [
          | inl taken ↦
              rw (find_q-take fuel (i * odd_mod_of sample) (j * odd_mod_of sample) p q rng go taken)
                (let (q_prime, balanced) = accepts_q-IsPrime bias q rng taken in
                  record {
                    i = i;
                    j = j;
                    i_below = i_below;
                    j_below = goes_on-below j q go;
                    p_value = hp;
                    q_value = hq;
                    packing = packed_lem i j;
                    balanced = balanced;
                    p_prime = prime;
                    q_prime = q_prime;
                  })
          | inr passed ↦
              rw
                (
                  find_q-next fuel (i * odd_mod_of sample) (j * odd_mod_of sample) p q rng go
                      passed,
                  bias_up j,
                )
                (find_q-Ends fuel i (suc j) p_start q_start p (crypto.inc q (odd_mod_of sample))
                  (accepts_q crypto sample bias q rng).1 i_below hp (step_up q q_start j hq) prime
                  (goes_on-below j q go) (omega arith))
        ]
      ]

  -- From the start of the loop.
  pub find_q_all-Ends :
      (i : ℕ) (p_start q_start p : crypto.FF) (rng : crypto.Rng)
      → i < bias_steps
      → p ≡ crypto.inc p_start (i * odd_mod_of sample)
      → IsPrime p
      → Ends p_start q_start
          (find_q crypto sample (suc bias_steps) (i * odd_mod_of sample) p 0 q_start rng)
  find_q_all-Ends i p_start q_start p rng i_below hp prime = rw none_up at (
      find_q-Ends (suc bias_steps) i 0 p_start q_start p q_start rng i_below hp (no_step q_start)
        prime (omega arith) (omega arith))
