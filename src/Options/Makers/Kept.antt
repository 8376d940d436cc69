-- ===== src/Options/Makers/Kept.antt =====
-- What the options keep of a program's state, if what they do to it does.
use bootrom_tools.Base.{ℕ, ◌≡◌, refl, sym, Bool, List, Option, none, some, arith}
use bootrom_tools.Options.{given, store_hex, store_str}
use bootrom_tools.Options.Kept.{IsKept}
use bootrom_tools.Options.Makers.{
  Vars, guarded, update, number, hex_option, str_option, section_option, flag_option,
}

module _ (A : Type 0) (Good : A → Type 0) where
  abbrev pub IsGoodState : Option A → Type 0
  IsGoodState none = Unit
  IsGoodState (some s) = Good s

  abbrev pub IsGoodResult : Option (Bool × A) → Type 0
  IsGoodResult none = Unit
  IsGoodResult (some (success, s)) = Good s

module _ (A : Type 0) (strtoul : List ℕ → ℕ × List ℕ) (Good : A → Type 0) where
  abbrev V : Type 0
  V = Vars A strtoul

  abbrev P : V → Type 0
  P = IsGoodState A Good

  abbrev Keeps : (A → A) → Type 0
  Keeps g = (s : A) → Good s → Good (g s)

  pub update_kept : (g : A → A) → Keeps g → (v : V) → P v → P (update g v)
  update_kept g keeps none h = tt
  update_kept g keeps (some s) h = keeps s h

  pub guarded_kept :
      (f : A → Option (Bool × A))
      → ((s : A) → Good s → IsGoodResult A Good (f s))
      → (v : V) → P v
      → P (guarded f v).1
  guarded_kept f keeps none h = tt
  guarded_kept f keeps (some s) h = by_result (f s) refl (keeps s h)
    where
      by_result :
          (r : Option (Bool × A)) → f s ≡ r → IsGoodResult A Good r → P (guarded f (some s)).1
      by_result none e g = rw (guarded, e) tt
      by_result (some (success, s')) e g = rw (guarded, e) g

  pub number_kept :
      (put : ℕ → A → A)
      → ((n : ℕ) → Keeps (put n))
      → (write : ℕ → V → V) → number A strtoul put ≡ some write
      → (n : ℕ) (v : V) → P v
      → P (write n v)
  number_kept put keeps write e n v h =
      let same : (λ k. update (put k)) ≡ write = cc in
      rw (sym same) (update_kept (put n) (keeps n) v h)

  pub callback_kept :
      (g f : ℕ → List ℕ → V → Bool × V) (option : ℕ)
      → some (given g) ≡ some (given f)
      → ((optarg : List ℕ) (v : V) → P v → P (g option optarg v).1)
      → (optarg : List ℕ) (v : V) → P v
      → P (f option optarg v).1
  callback_kept g f option e keeps optarg v h =
      let same : g ≡ f = cc in rw (sym same) (keeps optarg v h)

  store_hex_kept :
      (put : ℕ → A → A)
      → ((n : ℕ) → Keeps (put n))
      → (optarg : List ℕ) (v : V) → P v
      → P (store_hex V strtoul (number A strtoul put) optarg v).1
  unfolding store_hex
  store_hex_kept put keeps optarg v h = update_kept _ (keeps _) v h

  pub hex_option-IsKept :
      (c : ℕ) (names : List (List ℕ)) (d : ℕ) (put : ℕ → A → A)
      → ((n : ℕ) → Keeps (put n))
      → IsKept V P (hex_option A strtoul c names d put)
  hex_option-IsKept c names d put keeps = record {
    put = number_kept put keeps;
    called = λ f e. callback_kept _ f c e (store_hex_kept put keeps);
  }

  store_str_kept :
      (put : List ℕ → A → A)
      → ((text : List ℕ) → Keeps (put text))
      → (optarg : List ℕ) (v : V) → P v
      → P (store_str V (some (λ text. update (put text))) optarg v).1
  unfolding store_str
  store_str_kept put keeps optarg v h = update_kept (put optarg) (keeps optarg) v h

  pub str_option-IsKept :
      (c : ℕ) (names : List (List ℕ)) (put : List ℕ → A → A)
      → ((text : List ℕ) → Keeps (put text))
      → IsKept V P (str_option A strtoul c names put)
  str_option-IsKept c names put keeps = record {
    put = λ write e. absurd (ground (arith, e));
    called = λ f e. callback_kept _ f c e (store_str_kept put keeps);
  }

  pub section_option-IsKept :
      (c : ℕ) (names : List (List ℕ)) (d : ℕ) (b : Bool)
      (handle : ℕ → List ℕ → A → Option (Bool × A))
      → ((optarg : List ℕ) (s : A) → Good s → IsGoodResult A Good (handle c optarg s))
      → IsKept V P (section_option A strtoul c names d b handle)
  section_option-IsKept c names d b handle keeps = record {
    put = λ write e. absurd (ground (arith, e));
    called = λ f e. callback_kept _ f c e (λ optarg. guarded_kept _ (keeps optarg));
  }

  pub flag_option-IsKept :
      (c : ℕ) (names : List (List ℕ)) (b : Bool) (put : ℕ → A → A)
      → ((n : ℕ) → Keeps (put n))
      → IsKept V P (flag_option A strtoul c names b put)
  flag_option-IsKept c names b put keeps = record {
    put = number_kept put keeps;
    called = λ f e. absurd (ground (arith, e));
  }
