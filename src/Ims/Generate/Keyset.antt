-- ===== src/Ims/Generate/Keyset.antt =====
-- The keys that the generator stores are those that follow from its IMS.
use bootrom_tools.Base.{
  ℕ, ◌<◌, zero, suc, ◌≡◌, ◌∙◌, refl, sym, ap, Bool, true, false, List, Option, none, some, arith,
  Bool-cases, inl, inr,
}
use bootrom_tools.Util.Hamming.{hamming_weight}
use bootrom_tools.Ims.{Crypto, IsIncrement}
use bootrom_tools.Ims.Hash.{calculate_epuid_es3, calculate_y2}
use bootrom_tools.Ims.Errk.{Errk, made, overflow, no_fuel, calc_errk, bias_of, bias_bytes}
use bootrom_tools.Ims.Errk.Agree.{calc_errk-IsMade}
use bootrom_tools.Ims.Database.{Sqlite, db_ep_uid_exists}
use bootrom_tools.Ims.Generate.{
  Keys, calculate_keys, keeps_keys, generated_keys, unique_candidate, search_ims,
}
use bootrom_tools.Ims.Generate.Candidate.{
  IsBuffer, IsCandidate, IsUnique, same_epuid, same_y2, unique_candidate-IsUnique,
}

module _ (crypto : Crypto) (random : (rng : crypto.Rng) → (crypto.rand_byte rng).0 < 256)
    (law : IsIncrement crypto) (sample : Bool) (sqlite : Sqlite) (draws : ℕ) (db : sqlite.Db) where
  -- An IMS whose two parts are balanced, with the keys that follow from it and are not in the
  -- database.
  pub record IsGenerated (ims : List ℕ) (keys : Keys) : Type 0 where
    pub candidate : IsCandidate crypto random ims
    pub balanced : hamming_weight (bias_bytes (bias_of crypto ims)) ≡ 12
    pub derived : calculate_keys crypto sample ims ≡ keys
    pub unused : db_ep_uid_exists crypto sqlite db keys.ep_uid ≡ false
    pub kept : keeps_keys crypto sample (calculate_y2 crypto ims) ≡ true

  -- The keys that the working set holds are those of the finished IMS.
  made-IsGenerated :
      (ims ims' modulus : List ℕ) (rng rng' : crypto.Rng)
      → IsUnique crypto random sqlite draws db ims
      → calc_errk crypto sample (calculate_y2 crypto ims) ims rng ≡ made ims' modulus rng'
      → keeps_keys crypto sample (calculate_y2 crypto ims) ≡ true
      → IsGenerated ims' (
          generated_keys crypto sample
            (calculate_epuid_es3 crypto ims)
            (calculate_y2 crypto ims)
            modulus)
  unfolding calculate_keys
  made-IsGenerated ims ims' modulus rng rng' unique e kept =
      let m =
        calc_errk-IsMade crypto law sample (calculate_y2 crypto ims) ims ims' modulus rng rng'
          unique.0.0.0 e in
      let y2 = same_y2 crypto random ims ims' m.same_front in
      let uid = same_epuid crypto random ims ims' m.same_front in
      record {
        candidate = (
          (m.same_size ∙ unique.0.0.0, m.bytes unique.0.0.1),
          ap hamming_weight m.same_front ∙ unique.0.1,
        );
        balanced = m.balanced;
        derived = rw (y2, uid, m.recovered) refl;
        unused = unique.1;
        kept = ap (keeps_keys crypto sample) y2 ∙ kept;
      }

  search_zero :
      (ims : List ℕ) (rng : crypto.Rng) → search_ims crypto sqlite draws 0 sample db ims rng ≡ none
  unfolding search_ims
  search_zero ims rng = refl

  search_none :
      (fuel : ℕ) (ims : List ℕ) (rng : crypto.Rng)
      → unique_candidate crypto sqlite draws draws db ims rng ≡ none
      → search_ims crypto sqlite draws (suc fuel) sample db ims rng ≡ none
  unfolding search_ims
  search_none fuel ims rng h = ground (arith, h)

  module _ (fuel : ℕ) (ims ims1 : List ℕ) (rng rng1 : crypto.Rng)
      (h : unique_candidate crypto sqlite draws draws db ims rng ≡ some (ims1, rng1)) where
    search_no_fuel :
        calc_errk crypto sample (calculate_y2 crypto ims1) ims1 rng1 ≡ no_fuel
        → search_ims crypto sqlite draws (suc fuel) sample db ims rng ≡ none
    unfolding search_ims
    search_no_fuel e = ground (arith, h, e)

    search_overflow :
        (rng2 : crypto.Rng)
        → calc_errk crypto sample (calculate_y2 crypto ims1) ims1 rng1 ≡ overflow rng2
        → search_ims crypto sqlite draws (suc fuel) sample db ims rng
          ≡ search_ims crypto sqlite draws fuel sample db ims1 rng2
    unfolding search_ims
    search_overflow rng2 e = ground (arith, h, e)

    search_dropped :
        (ims2 modulus : List ℕ) (rng2 : crypto.Rng)
        → calc_errk crypto sample (calculate_y2 crypto ims1) ims1 rng1 ≡ made ims2 modulus rng2
        → keeps_keys crypto sample (calculate_y2 crypto ims1) ≡ false
        → search_ims crypto sqlite draws (suc fuel) sample db ims rng
          ≡ search_ims crypto sqlite draws fuel sample db ims2 rng2
    unfolding search_ims
    search_dropped ims2 modulus rng2 e kept = ground (arith, h, e, kept)

    search_kept :
        (ims2 modulus : List ℕ) (rng2 : crypto.Rng)
        → calc_errk crypto sample (calculate_y2 crypto ims1) ims1 rng1 ≡ made ims2 modulus rng2
        → keeps_keys crypto sample (calculate_y2 crypto ims1) ≡ true
        → search_ims crypto sqlite draws (suc fuel) sample db ims rng
          ≡ some (
            ims2,
            (
              generated_keys crypto sample
                  (calculate_epuid_es3 crypto ims1)
                  (calculate_y2 crypto ims1)
                  modulus,
              rng2,
            ),
          )
    unfolding search_ims
    search_kept ims2 modulus rng2 e kept = ground (arith, h, e, kept)

    -- What the search leaves with, by what `calc_errk` gives for the candidate.
    search_by_errk :
        (ims' : List ℕ) (keys : Keys) (rng' : crypto.Rng) (r : Errk crypto)
        → ((ims2 : List ℕ) (rng2 : crypto.Rng)
            → IsBuffer ims2
            → search_ims crypto sqlite draws fuel sample db ims2 rng2 ≡ some (ims', (keys, rng'))
            → IsGenerated ims' keys)
        → calc_errk crypto sample (calculate_y2 crypto ims1) ims1 rng1 ≡ r
        → IsUnique crypto random sqlite draws db ims1
        → search_ims crypto sqlite draws (suc fuel) sample db ims rng ≡ some (ims', (keys, rng'))
        → IsGenerated ims' keys
    search_by_errk ims' keys rng' no_fuel rest e unique found =
        let result = sym (search_no_fuel e) ∙ found in cc
    search_by_errk ims' keys rng' (overflow rng2) rest e unique found =
        rest ims1 rng2 unique.0.0 (sym (search_overflow rng2 e) ∙ found)
    search_by_errk ims' keys rng' (made ims2 modulus rng2) rest e unique found =
        elim (Bool-cases (keeps_keys crypto sample (calculate_y2 crypto ims1))) [
          | inr dropped ↦
              let m =
                calc_errk-IsMade crypto law sample (calculate_y2 crypto ims1) ims1 ims2 modulus rng1
                  rng2 unique.0.0.0 e in
              rest ims2 rng2 (m.same_size ∙ unique.0.0.0, m.bytes unique.0.0.1)
                (sym (search_dropped ims2 modulus rng2 e dropped) ∙ found)
          | inl kept ↦
              let result = sym (search_kept ims2 modulus rng2 e kept) ∙ found in
              let same_ims : ims2 ≡ ims' = cc in
              let same_keys : generated_keys crypto sample (calculate_epuid_es3 crypto ims1)
                    (calculate_y2 crypto ims1) modulus
                  ≡ keys =
                cc in
              rw (sym same_ims, sym same_keys)
                (made-IsGenerated ims1 ims2 modulus rng1 rng2 unique e kept)
        ]

  search_by :
      (fuel : ℕ) (ims ims' : List ℕ) (keys : Keys) (rng rng' : crypto.Rng)
      (r : Option (List ℕ × crypto.Rng))
      → ((ims2 : List ℕ) (rng2 : crypto.Rng)
          → IsBuffer ims2
          → search_ims crypto sqlite draws fuel sample db ims2 rng2 ≡ some (ims', (keys, rng'))
          → IsGenerated ims' keys)
      → unique_candidate crypto sqlite draws draws db ims rng ≡ r
      → IsBuffer ims
      → search_ims crypto sqlite draws (suc fuel) sample db ims rng ≡ some (ims', (keys, rng'))
      → IsGenerated ims' keys
  search_by fuel ims ims' keys rng rng' none rest e size found =
      let result = sym (search_none fuel ims rng e) ∙ found in cc
  search_by fuel ims ims' keys rng rng' (some c) rest e size found =
      search_by_errk fuel ims c.0 rng c.1 e ims' keys rng' _ rest refl
        (unique_candidate-IsUnique crypto random sqlite draws db draws ims c.0 rng c.1 size e) found

  -- For an IMS buffer of 35 bytes, random numbers that are bytes, and increments that add up: an IMS
  -- that the search leaves with has half of its first 256 bits set and 12 ones in its packed biases;
  -- its keys are those that `calculate_keys` derives from it, are accepted, and their endpoint id is
  -- not in the database.
  pub search_ims-IsGenerated :
      (fuel : ℕ) (ims ims' : List ℕ) (keys : Keys) (rng rng' : crypto.Rng)
      → IsBuffer ims
      → search_ims crypto sqlite draws fuel sample db ims rng ≡ some (ims', (keys, rng'))
      → IsGenerated ims' keys
  search_ims-IsGenerated zero ims ims' keys rng rng' size found =
      let result = sym (search_zero ims rng) ∙ found in cc
  search_ims-IsGenerated (suc fuel) ims ims' keys rng rng' size found =
      search_by fuel ims ims' keys rng rng' _
        (λ ims2 rng2 size2 h. search_ims-IsGenerated fuel ims2 ims' keys rng2 rng' size2 h) refl
        size found
