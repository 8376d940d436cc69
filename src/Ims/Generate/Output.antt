-- ===== src/Ims/Generate/Output.antt =====
-- The file that a run of imsgen leaves.
use bootrom_tools.Base.{
  ℕ, zero, suc, ◌+◌, ◌*◌, ◌≤◌, ◌<◌, ◌≡◌, ◌∙◌, refl, sym, ap, ap₂, Bool, true, false, List, [], ◌∷◌,
  ◌++◌, Option, none, some, arith, length, All, flat_bytes, length-append, append_assoc, append-nil,
}
use bootrom_tools.Ims.{Crypto, IsIncrement}
use bootrom_tools.Ims.Text.RoundTrip.{line_text, length-line_text}
use bootrom_tools.Ims.Database.{Sqlite, Octet}
use bootrom_tools.Ims.Database.Lookup.{IsStore}
use bootrom_tools.Ims.Generate.{State, ims_generate, generate_all}
use bootrom_tools.Ims.Generate.Candidate.{IsBuffer, IsCandidate}
use bootrom_tools.Ims.Generate.Stored.{HasRoom, ims_generate-IsStored}

module _ (crypto : Crypto) (sqlite : Sqlite) (draws fuel capacity : ℕ) (sample opened : Bool)
    (num_ims : ℕ) (s : State crypto sqlite) where
  all_none :
      ims_generate crypto sqlite draws fuel sample opened capacity s ≡ none
      → generate_all crypto sqlite draws fuel sample opened capacity (suc num_ims) s ≡ none
  unfolding generate_all
  all_none h = ground (arith, h)

  all_stop :
      (s1 : State crypto sqlite)
      → ims_generate crypto sqlite draws fuel sample opened capacity s ≡ some (false, s1)
      → generate_all crypto sqlite draws fuel sample opened capacity (suc num_ims) s ≡ some (0, s1)
  unfolding generate_all
  all_stop s1 h = ground (arith, h)

  all_none_later :
      (s1 : State crypto sqlite)
      → ims_generate crypto sqlite draws fuel sample opened capacity s ≡ some (true, s1)
      → generate_all crypto sqlite draws fuel sample opened capacity num_ims s1 ≡ none
      → generate_all crypto sqlite draws fuel sample opened capacity (suc num_ims) s ≡ none
  unfolding generate_all
  all_none_later s1 h e = ground (arith, h, e)

  all_later :
      (s1 s2 : State crypto sqlite) (n : ℕ)
      → ims_generate crypto sqlite draws fuel sample opened capacity s ≡ some (true, s1)
      → generate_all crypto sqlite draws fuel sample opened capacity num_ims s1 ≡ some (n, s2)
      → generate_all crypto sqlite draws fuel sample opened capacity (suc num_ims) s
        ≡ some (suc n, s2)
  unfolding generate_all
  all_later s1 s2 n h e = ground (arith, h, e)

module _ (crypto : Crypto) (random : (rng : crypto.Rng) → (crypto.rand_byte rng).0 < 256)
    (law : IsIncrement crypto) (sqlite : Sqlite) (store : IsStore sqlite) (sample : Bool)
    (draws fuel capacity : ℕ) (o1 o2 o3 : Octet) (room : HasRoom crypto o1 o2 o3) where
  -- `n` lines of balanced IMS values behind what was there.
  pub record HasLines (n : ℕ) (before after : List ℕ) : Type 0 where
    pub values : List (List ℕ)
    pub count : length values ≡ n
    pub balanced : All (IsCandidate crypto random) values
    pub appended : after ≡ before ++ flat_bytes line_text values

  -- One line more in front.
  one_more :
      (n : ℕ) (ims before after : List ℕ)
      → IsCandidate crypto random ims
      → HasLines n (before ++ line_text ims) after
      → HasLines (suc n) before after
  one_more n ims before after good rest = record {
    values = ims ∷ rest.values;
    count = ap suc rest.count;
    balanced = (good, rest.balanced);
    appended =
        rest.appended ∙ append_assoc before (line_text ims) (flat_bytes line_text rest.values);
  }

  abbrev pub Run : ℕ → Type 0
  Run num_ims =
      (s s' : State crypto sqlite)
      → IsBuffer s.ims
      → length s.out + num_ims * 281 ≤ capacity
      → generate_all crypto sqlite draws fuel sample true capacity num_ims s ≡ some (num_ims, s')
      → HasLines num_ims s.out s'.out

  all_by_later :
      (num_ims : ℕ) (s s1 s' : State crypto sqlite) (r : Option (ℕ × State crypto sqlite))
      → Run num_ims
      → IsBuffer s.ims
      → length s.out + suc num_ims * 281 ≤ capacity
      → ims_generate crypto sqlite draws fuel sample true capacity s ≡ some (true, s1)
      → generate_all crypto sqlite draws fuel sample true capacity num_ims s1 ≡ r
      → generate_all crypto sqlite draws fuel sample true capacity (suc num_ims) s
        ≡ some (suc num_ims, s')
      → HasLines (suc num_ims) s.out s'.out
  all_by_later num_ims s s1 s' none ih buffer space e later h =
      let result =
        sym (all_none_later crypto sqlite draws fuel capacity sample true num_ims s s1 e later)
        ∙ h in
      cc
  all_by_later num_ims s s1 s' (some (n, s2)) ih buffer space e later h =
      let result =
        sym (all_later crypto sqlite draws fuel capacity sample true num_ims s s1 s2 n e later)
        ∙ h in
      let same_n : suc n ≡ suc num_ims = cc in
      let count : n ≡ num_ims = omega arith in
      let same_state : s2 ≡ s' = cc in
      let stored =
        ims_generate-IsStored crypto random law sqlite store sample draws fuel capacity s s1 o1 o2
          o3 buffer (omega arith) room e in
      let good = stored.generated.candidate in
      let size : length s1.out ≡ length s.out + 281 =
        ap length stored.appended
        ∙ (length-append s.out (line_text s1.ims)
            ∙ ap (◌+◌ (length s.out)) (length-line_text s1.ims)) in
      let rest =
        ih s1 s' good.0 (omega arith)
          (later ∙ ap₂ (λ (a : ℕ) (b : State crypto sqlite). some (a, b)) count same_state) in
      one_more num_ims s1.ims s.out s'.out good (rw stored.appended at rest)

  all_by :
      (num_ims : ℕ) (s s' : State crypto sqlite) (r : Option (Bool × State crypto sqlite))
      → Run num_ims
      → IsBuffer s.ims
      → length s.out + suc num_ims * 281 ≤ capacity
      → ims_generate crypto sqlite draws fuel sample true capacity s ≡ r
      → generate_all crypto sqlite draws fuel sample true capacity (suc num_ims) s
        ≡ some (suc num_ims, s')
      → HasLines (suc num_ims) s.out s'.out
  all_by num_ims s s' none ih buffer space e h =
      let result = sym (all_none crypto sqlite draws fuel capacity sample true num_ims s e) ∙ h in
      cc
  all_by num_ims s s' (some (true, s1)) ih buffer space e h =
      all_by_later num_ims s s1 s' _ ih buffer space e refl h
  all_by num_ims s s' (some (false, s1)) ih buffer space e h =
      let result =
        sym (all_stop crypto sqlite draws fuel capacity sample true num_ims s s1 e) ∙ h in
      let same : 0 ≡ suc num_ims = cc in absurd (omega arith)

  zero_state :
      (s s' : State crypto sqlite)
      → generate_all crypto sqlite draws fuel sample true capacity 0 s ≡ some (0, s')
      → s ≡ s'
  unfolding generate_all
  zero_state s s' h = cc

  all-Run : (num_ims : ℕ) → Run num_ims
  all-Run zero s s' buffer space h = record {
    values = [];
    count = refl;
    balanced = tt;
    appended = rw (zero_state s s' h, append-nil s'.out) refl;
  }
  all-Run (suc num_ims) s s' buffer space h =
      all_by num_ims s s' _ (all-Run num_ims) buffer space refl h

  -- For an IMS buffer of 35 bytes, random numbers that are bytes, increments that add up, a database
  -- whose only failing call is an insertion, and room for the lines and the keys: a run that makes
  -- as many IMS as it was asked for has appended exactly that many lines, each of an IMS of 35 bytes
  -- of which the first 32 have half of their bits set.
  pub generate_all-HasLines :
      (num_ims : ℕ) (s s' : State crypto sqlite)
      → IsBuffer s.ims
      → length s.out + num_ims * 281 ≤ capacity
      → generate_all crypto sqlite draws fuel sample true capacity num_ims s ≡ some (num_ims, s')
      → HasLines num_ims s.out s'.out
  generate_all-HasLines num_ims s s' buffer space h = all-Run num_ims s s' buffer space h
