-- ===== src/Ims.antt =====
-- src/imsgen: the endpoint's internal master secret (IMS), 35 bytes from which all keys follow. The
-- hash, the random numbers and the arithmetic on big numbers and curves belong to MIRACL, and are
-- a record that the definitions take.
pub mod Text
pub mod Hash
pub mod Keys
pub mod Errk
pub mod Database
pub mod Generate
pub mod Input
use bootrom_tools.Base.{ℕ, ◌+◌, ◌*◌, ◌≡◌, Bool, List}

abbrev pub ims_size : ℕ
ims_size = 35

abbrev pub ims_hamming_size : ℕ
ims_hamming_size = 32

abbrev pub sha256_size : ℕ
sha256_size = 32

-- `csprng`, the numbers that MIRACL calls FF, and the calls on them. `exceeds x y` is a comparison
-- that gives 1; `prime` draws from the random numbers; `public_448` and `public_25519` make a public
-- key of a private one, and the validators accept it. `from_octet` takes the bytes of the octet's
-- buffer, of which it reads 128. `behind_hex` is what the buffer of the digits holds behind them.
pub record Crypto : Type 1 where
  pub Rng : Type 0
  pub FF : Type 0
  pub sha256 : List ℕ → List ℕ
  pub rand_byte : Rng → ℕ × Rng
  pub from_octet : List ℕ → FF
  pub to_octet : FF → List ℕ
  pub to_hex : List ℕ → List ℕ
  pub behind_hex : List ℕ
  pub inc : FF → ℕ → FF
  pub dec : FF → ℕ → FF
  pub mul : FF → FF → FF
  pub exceeds : FF → FF → Bool
  pub prime : FF → Rng → Bool × Rng
  pub cfactor : FF → ℕ → Bool
  pub public_448 : List ℕ → List ℕ
  pub valid_448 : List ℕ → Bool
  pub public_25519 : List ℕ → List ℕ
  pub valid_25519 : List ℕ → Bool

-- Adding nothing, and adding twice, as MIRACL's increment does below its overflow.
pub record IsIncrement (c : Crypto) : Type 0 where
  pub inc_zero : (x : c.FF) → c.inc x 0 ≡ x
  pub inc-inc : (x : c.FF) (m n : ℕ) → c.inc (c.inc x m) n ≡ c.inc x (m + n)
