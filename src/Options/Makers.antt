-- ===== src/Options/Makers.antt =====
-- The kinds of options that the programs of the repository put into their tables, over a program's
-- state.
pub mod Kept
use bootrom_tools.Base.{ℕ, Bool, true, false, not, List, Option, none, some}
use bootrom_tools.Options.{Optionx, Callback, given, store_hex, store_str}

-- A program whose state has had an access out of bounds does nothing more.
abbrev pub guarded : {A : Type 0} → (A → Option (Bool × A)) → Option A → Bool × Option A
guarded f none = (false, none)
guarded f (some s) = elim (f s) [ none ↦ (false, none) | some (success, s') ↦ (success, some s') ]

abbrev pub update : {A : Type 0} → (A → A) → Option A → Option A
update f none = none
update f (some s) = some (f s)

module _ (A : Type 0) (strtoul : List ℕ → ℕ × List ℕ) where
  abbrev pub Vars : Type 0
  Vars = Option A

  abbrev pub number : (ℕ → A → A) → Option (ℕ → Vars → Vars)
  number put = some (λ n. update (put n))

  -- An option with a number that `store_hex` stores.
  abbrev pub hex_option : ℕ → List (List ℕ) → ℕ → (ℕ → A → A) → Optionx Vars
  hex_option short_name long_names default_val put = record {
    short_name = short_name;
    long_names = long_names;
    var_ptr = number put;
    default_val = default_val;
    has_default = true;
    required = false;
    store_true = false;
    store_false = false;
    callback = some (given (λ option. store_hex Vars strtoul (number put)));
    count = 0;
  }

  -- An option with a text that `store_str` stores; it has no default, so nothing else is written
  -- through its pointer.
  abbrev pub str_option : ℕ → List (List ℕ) → (List ℕ → A → A) → Optionx Vars
  str_option short_name long_names put = record {
    short_name = short_name;
    long_names = long_names;
    var_ptr = none;
    default_val = 0;
    has_default = false;
    required = false;
    store_true = false;
    store_false = false;
    callback = some (given (λ option. store_str Vars (some (λ text. update (put text)))));
    count = 0;
  }

  -- An option of a section, which has no variable.
  abbrev pub section_option :
      ℕ → List (List ℕ) → ℕ → Bool → (ℕ → List ℕ → A → Option (Bool × A)) → Optionx Vars
  section_option short_name long_names default_val has_default handle = record {
    short_name = short_name;
    long_names = long_names;
    var_ptr = none;
    default_val = default_val;
    has_default = has_default;
    required = false;
    store_true = false;
    store_false = false;
    callback = some (given (λ option optarg. guarded (handle option optarg)));
    count = 0;
  }

  abbrev pub flag_option : ℕ → List (List ℕ) → Bool → (ℕ → A → A) → Optionx Vars
  flag_option short_name long_names store_true put = record {
    short_name = short_name;
    long_names = long_names;
    var_ptr = number put;
    default_val = 0;
    has_default = true;
    required = false;
    store_true = store_true;
    store_false = not store_true;
    callback = none;
    count = 0;
  }
