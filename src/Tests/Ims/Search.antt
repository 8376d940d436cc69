-- ===== src/Tests/Ims/Search.antt =====
-- Runs of the key search and of the buffers that are turned round.
use bootrom_tools.Base.{ℕ, ◌≡◌, refl, false, List, [], arith, replicate, take}
use bootrom_tools.Util.Hamming.{hamming_weight}
use bootrom_tools.Ims.Hash.{hash_it, sha256_concat}
use bootrom_tools.Ims.Keys.{
  copy_reversed, calc_errk_pq_bias_odd, candidate_of, ff_from_little_endian_octet, public_modulus,
}
use bootrom_tools.Ims.Errk.{
  Errk, made, overflow, no_fuel, errk_max_pq, accepts, accepts_q, find_q, find_p, search_pq,
  calc_errk, bias_of, bias_bytes, recover_errk,
}
use bootrom_tools.Ims.Errk.Search.{search_pq-Ends}
use bootrom_tools.Ims.Errk.Second.{Ends}
use bootrom_tools.Ims.Errk.Agree.{calc_errk-recover_errk}
use bootrom_tools.Ims.Errk.Finds.{IsTaken, calc_errk-IsTaken}
use bootrom_tools.Tests.Ims.{toy, toy_law}

abbrev y2_test : List ℕ
y2_test = replicate 32 9

abbrev ims_test : List ℕ
ims_test = replicate 35 15

search_pq_example :
    Ends toy toy_law false
      (candidate_of toy false (calc_errk_pq_bias_odd toy y2_test).0)
      (candidate_of toy false (calc_errk_pq_bias_odd toy y2_test).1)
      (search_pq toy false y2_test 0)
search_pq_example = search_pq-Ends toy toy_law false y2_test 0

-- What `calc_errk` gives.
abbrev ims_of : Errk toy → List ℕ
ims_of (made ims modulus rng) = ims
ims_of (overflow rng) = []
ims_of no_fuel = []

abbrev modulus_of : Errk toy → List ℕ
modulus_of (made ims modulus rng) = modulus
modulus_of (overflow rng) = []
modulus_of no_fuel = []

abbrev rng_of : Errk toy → ℕ
rng_of (made ims modulus rng) = rng
rng_of (overflow rng) = rng
rng_of no_fuel = 0

abbrev errk_test : Errk toy
errk_test = calc_errk toy false y2_test ims_test 0

errk_run : errk_test ≡ made (ims_of errk_test) (modulus_of errk_test) (rng_of errk_test)
unfolding calc_errk search_pq find_p find_q accepts accepts_q errk_max_pq hamming_weight
    calc_errk_pq_bias_odd sha256_concat hash_it ff_from_little_endian_octet copy_reversed
    public_modulus
errk_run = refl

calc_errk_example :
    (recover_errk toy false y2_test (ims_of errk_test) ≡ modulus_of errk_test)
    × ((take 32 (ims_of errk_test) ≡ take 32 ims_test)
        × (hamming_weight (bias_bytes (bias_of toy (ims_of errk_test))) ≡ 12))
calc_errk_example =
    calc_errk-recover_errk toy toy_law false y2_test ims_test (ims_of errk_test)
      (modulus_of errk_test) 0 (rng_of errk_test) refl errk_run

abbrev start : ℕ
start = 700000

toy-IsTaken : IsTaken toy toy_law false start start 63 63
unfolding accepts accepts_q errk_max_pq hamming_weight
toy-IsTaken = record {
  i_below = omega arith;
  j_below = omega arith;
  p_fits = λ s h. ground arith;
  q_fits = λ s h. ground arith;
  p_taken = λ r. refl;
  q_taken = λ r. refl;
}

starts :
    (candidate_of toy false (calc_errk_pq_bias_odd toy y2_test).0 ≡ start)
    × (candidate_of toy false (calc_errk_pq_bias_odd toy y2_test).1 ≡ start)
unfolding calc_errk_pq_bias_odd sha256_concat hash_it ff_from_little_endian_octet copy_reversed
starts = (refl, refl)

starts-IsTaken :
    IsTaken toy toy_law false
      (candidate_of toy false (calc_errk_pq_bias_odd toy y2_test).0)
      (candidate_of toy false (calc_errk_pq_bias_odd toy y2_test).1)
      63
      63
starts-IsTaken = rw (starts.0, starts.1) toy-IsTaken

taken_example :
    (ims' : List ℕ) × (modulus : List ℕ) × (rng' : ℕ) × (calc_errk toy false y2_test ims_test 0
      ≡ made ims' modulus rng')
taken_example = calc_errk-IsTaken toy toy_law false y2_test ims_test 0 63 63 starts-IsTaken
