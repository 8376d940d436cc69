-- ===== src/Ims/Generate/Candidate.antt =====
-- What the loops of the generator draw: balanced bytes, and an endpoint id that is not in use.
use bootrom_tools.Base.{
  ℕ, zero, suc, ◌+◌, ◌≤◌, ◌<◌, All, All-set, ◌≡◌, ◌∙◌, refl, sym, ap, true, false, List, [], ◌∷◌,
  Option, none, some, arith, length, set, take, length-set, Bool-cases, inl, inr, ◌==◌, ==_iff,
  bit_xor, map,
}
use bootrom_tools.Util.Hamming.{hamming_weight}
use bootrom_tools.Ims.{Crypto, ims_hamming_size}
use bootrom_tools.Ims.Hash.{
  feed_words, epuid_from, calculate_epuid_es3, calculate_y2, hash_it, feed_ones,
}
use bootrom_tools.Ims.Database.{Sqlite, db_ep_uid_exists}
use bootrom_tools.Ims.Generate.{draw_bytes, ims_generate_candidate, unique_candidate}

-- Four bytes for each word.
abbrev word_bytes : ℕ → ℕ
word_bytes zero = zero
word_bytes (suc n) = suc (suc (suc (suc (word_bytes n))))

take-take : (m n : ℕ) (xs : List ℕ) → m ≤ n → take m (take n xs) ≡ take m xs
take-take zero n xs h = refl
take-take (suc m) zero xs h = absurd (omega arith)
take-take (suc m) (suc n) [] h = refl
take-take (suc m) (suc n) (x ∷ xs) h = ap (◌∷◌ x) (take-take m n xs (omega arith))

-- The buffer of an IMS.
abbrev pub IsBuffer : List ℕ → Type 0
IsBuffer ims = (length ims ≡ 35) × All (λ b. b < 256) ims

module _ (crypto : Crypto) (random : (rng : crypto.Rng) → (crypto.rand_byte rng).0 < 256) where
  feed_words-take :
      (n size : ℕ) (bytes context : List ℕ)
      → feed_words crypto n size (take (word_bytes n) bytes) context
        ≡ feed_words crypto n size bytes context
  unfolding feed_words
  feed_words-take zero size bytes context = refl
  feed_words-take (suc n) size [] context = refl
  feed_words-take (suc n) size (a ∷ []) context = refl
  feed_words-take (suc n) size (a ∷ b ∷ []) context = refl
  feed_words-take (suc n) size (a ∷ b ∷ c ∷ []) context = refl
  feed_words-take (suc n) size (a ∷ b ∷ c ∷ d ∷ bytes) context = feed_words-take n size bytes _

  -- The endpoint id and "Y2" depend on the first 32 bytes only.
  pub same_epuid :
      (ims ims' : List ℕ)
      → take ims_hamming_size ims' ≡ take ims_hamming_size ims
      → calculate_epuid_es3 crypto ims' ≡ calculate_epuid_es3 crypto ims
  unfolding epuid_from
  same_epuid ims ims' h =
      let front =
        sym (take-take 16 32 ims' (omega arith))
        ∙ (ap (take 16) h ∙ take-take 16 32 ims (omega arith)) in
      let fed =
        sym (feed_words-take 4 1 ims' [])
        ∙ (ap (λ bytes. feed_words crypto 4 1 bytes []) front ∙ feed_words-take 4 1 ims []) in
      ap
        (λ y1. take 8 (
          hash_it crypto
            (take 32 (crypto.sha256 (feed_ones crypto 8 1 (take 32 (crypto.sha256 y1)))))))
        fed

  pub same_y2 :
      (ims ims' : List ℕ)
      → take ims_hamming_size ims' ≡ take ims_hamming_size ims
      → calculate_y2 crypto ims' ≡ calculate_y2 crypto ims
  unfolding calculate_y2
  same_y2 ims ims' h = ap (λ bytes. hash_it crypto (map (λ x. bit_xor x 0x5a) bytes)) h

  draw_bytes-IsBuffer :
      (left i : ℕ) (ims : List ℕ) (rng : crypto.Rng)
      → IsBuffer ims
      → IsBuffer (draw_bytes crypto left i ims rng).0
  unfolding draw_bytes
  draw_bytes-IsBuffer zero i ims rng h = h
  draw_bytes-IsBuffer (suc left) i ims rng h =
      let byte = (crypto.rand_byte rng).0 in
      draw_bytes-IsBuffer left (i + 1) (set ims i byte) (crypto.rand_byte rng).1
        (length-set ims i byte ∙ h.0, All-set _ ims i byte h.1 (random rng))

  -- A candidate has half of its first 256 bits set.
  abbrev pub IsCandidate : List ℕ → Type 0
  IsCandidate ims = IsBuffer ims × (hamming_weight (take ims_hamming_size ims) ≡ 128)

  candidate_zero :
      (ims : List ℕ) (rng : crypto.Rng) → ims_generate_candidate crypto 0 ims rng ≡ none
  unfolding ims_generate_candidate
  candidate_zero ims rng = refl

  candidate_step :
      (fuel : ℕ) (ims : List ℕ) (rng : crypto.Rng)
      → (hamming_weight (take ims_hamming_size (draw_bytes crypto 32 0 ims rng).0) == 128) ≡ false
      → ims_generate_candidate crypto (suc fuel) ims rng
        ≡ ims_generate_candidate crypto fuel
            (draw_bytes crypto 32 0 ims rng).0
            (draw_bytes crypto 32 0 ims rng).1
  unfolding ims_generate_candidate
  candidate_step fuel ims rng h = ground (arith, h)

  candidate_take :
      (fuel : ℕ) (ims : List ℕ) (rng : crypto.Rng)
      → (hamming_weight (take ims_hamming_size (draw_bytes crypto 32 0 ims rng).0) == 128) ≡ true
      → ims_generate_candidate crypto (suc fuel) ims rng ≡ some (draw_bytes crypto 32 0 ims rng)
  unfolding ims_generate_candidate
  candidate_take fuel ims rng h = ground (arith, h)

  ims_generate_candidate-IsCandidate :
      (fuel : ℕ) (ims ims' : List ℕ) (rng rng' : crypto.Rng)
      → IsBuffer ims
      → ims_generate_candidate crypto fuel ims rng ≡ some (ims', rng')
      → IsCandidate ims'
  ims_generate_candidate-IsCandidate zero ims ims' rng rng' size h =
      let result = sym (candidate_zero ims rng) ∙ h in cc
  ims_generate_candidate-IsCandidate (suc fuel) ims ims' rng rng' size h =
      let drawn = draw_bytes crypto 32 0 ims rng in
      elim (Bool-cases (hamming_weight (take ims_hamming_size drawn.0) == 128)) [
        | inl e ↦
            let result = sym (candidate_take fuel ims rng e) ∙ h in
            let same : drawn.0 ≡ ims' = cc in
            rw (sym same) (draw_bytes-IsBuffer 32 0 ims rng size, (==_iff _ _).0 e)
        | inr e ↦
            ims_generate_candidate-IsCandidate fuel drawn.0 ims' drawn.1 rng'
              (draw_bytes-IsBuffer 32 0 ims rng size) (sym (candidate_step fuel ims rng e) ∙ h)
      ]

  module _ (sqlite : Sqlite) (draws : ℕ) (db : sqlite.Db) where
    -- A candidate whose endpoint id the database does not hold.
    abbrev pub IsUnique : List ℕ → Type 0
    IsUnique ims =
        IsCandidate ims
        × (db_ep_uid_exists crypto sqlite db (calculate_epuid_es3 crypto ims) ≡ false)

    unique_zero :
        (ims : List ℕ) (rng : crypto.Rng) → unique_candidate crypto sqlite draws 0 db ims rng ≡ none
    unfolding unique_candidate
    unique_zero ims rng = refl

    unique_none :
        (fuel : ℕ) (ims : List ℕ) (rng : crypto.Rng)
        → ims_generate_candidate crypto draws ims rng ≡ none
        → unique_candidate crypto sqlite draws (suc fuel) db ims rng ≡ none
    unfolding unique_candidate
    unique_none fuel ims rng h = ground (arith, h)

    unique_take :
        (fuel : ℕ) (ims ims1 : List ℕ) (rng rng1 : crypto.Rng)
        → ims_generate_candidate crypto draws ims rng ≡ some (ims1, rng1)
        → db_ep_uid_exists crypto sqlite db (calculate_epuid_es3 crypto ims1) ≡ false
        → unique_candidate crypto sqlite draws (suc fuel) db ims rng ≡ some (ims1, rng1)
    unfolding unique_candidate
    unique_take fuel ims ims1 rng rng1 h e = ground (arith, h, e)

    unique_next :
        (fuel : ℕ) (ims ims1 : List ℕ) (rng rng1 : crypto.Rng)
        → ims_generate_candidate crypto draws ims rng ≡ some (ims1, rng1)
        → db_ep_uid_exists crypto sqlite db (calculate_epuid_es3 crypto ims1) ≡ true
        → unique_candidate crypto sqlite draws (suc fuel) db ims rng
          ≡ unique_candidate crypto sqlite draws fuel db ims1 rng1
    unfolding unique_candidate
    unique_next fuel ims ims1 rng rng1 h e = ground (arith, h, e)

    -- What the loop leaves with, by what the first candidate is.
    next_candidate-IsUnique :
        (fuel : ℕ) (ims ims' : List ℕ) (rng rng' : crypto.Rng) (r : Option (List ℕ × crypto.Rng))
        → ((ims1 : List ℕ) (rng1 : crypto.Rng)
            → IsBuffer ims1
            → unique_candidate crypto sqlite draws fuel db ims1 rng1 ≡ some (ims', rng')
            → IsUnique ims')
        → ims_generate_candidate crypto draws ims rng ≡ r
        → IsBuffer ims
        → unique_candidate crypto sqlite draws (suc fuel) db ims rng ≡ some (ims', rng')
        → IsUnique ims'
    next_candidate-IsUnique fuel ims ims' rng rng' none rest e size h =
        let result = sym (unique_none fuel ims rng e) ∙ h in cc
    next_candidate-IsUnique fuel ims ims' rng rng' (some c) rest e size h =
        let candidate = ims_generate_candidate-IsCandidate draws ims c.0 rng c.1 size e in
        elim (Bool-cases (db_ep_uid_exists crypto sqlite db (calculate_epuid_es3 crypto c.0))) [
          | inl held ↦ rest c.0 c.1 candidate.0 (sym (unique_next fuel ims c.0 rng c.1 e held) ∙ h)
          | inr free ↦
              let result = sym (unique_take fuel ims c.0 rng c.1 e free) ∙ h in
              let same : c.0 ≡ ims' = cc in rw (sym same) (candidate, free)
        ]

    pub unique_candidate-IsUnique :
        (fuel : ℕ) (ims ims' : List ℕ) (rng rng' : crypto.Rng)
        → IsBuffer ims
        → unique_candidate crypto sqlite draws fuel db ims rng ≡ some (ims', rng')
        → IsUnique ims'
    unique_candidate-IsUnique zero ims ims' rng rng' size h =
        let result = sym (unique_zero ims rng) ∙ h in cc
    unique_candidate-IsUnique (suc fuel) ims ims' rng rng' size h =
        next_candidate-IsUnique fuel ims ims' rng rng' _
          (λ ims1 rng1 size1 h1. unique_candidate-IsUnique fuel ims1 ims' rng1 rng' size1 h1) refl
          size h
