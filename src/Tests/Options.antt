-- ===== src/Tests/Options.antt =====
-- src/common/parse_support.c at two options and three names.
use bootrom_tools.Base.{ℕ, ◌+◌, ◌≡◌, ◌⊎◌, refl, true, false, List, [], ◌∷◌, none, some, All, Any}
use bootrom_tools.Options.{
  Opt, Optionx, flag, given, Event, seen, Parser, find_short, matching, dispatch, call, process,
  store_flag, parse_event, parse_loop, apply_defaults, none_missing, parse_args,
}
use bootrom_tools.Options.Parse.{Asks}
use bootrom_tools.Options.Required.{IsRecognized, parse_args_required}

-- A number with two names that is required, and a flag.
abbrev number : Optionx ℕ
number = record {
  short_name = b'n';
  long_names = (1 ∷ []) ∷ (2 ∷ []) ∷ [];
  var_ptr = some (λ v vars. v);
  default_val = 0;
  has_default = false;
  required = true;
  store_true = false;
  store_false = false;
  callback = some (given (λ option optarg vars. (true, vars + 1)));
  count = 0;
}

abbrev verbose : Optionx ℕ
verbose = record {
  short_name = b'v';
  long_names = (3 ∷ []) ∷ [];
  var_ptr = some (λ v vars. v);
  default_val = 0;
  has_default = true;
  required = false;
  store_true = true;
  store_false = false;
  callback = some flag;
  count = 0;
}

abbrev options : List (Optionx ℕ)
options = number ∷ verbose ∷ []

abbrev second_name : List Opt
second_name = record { name = some (2 ∷ []); has_arg = true; val = b'n' } ∷ []

abbrev parser : Parser ℕ
parser = record {
  optx = options;
  vars = 5;
  success = false;
  parser_help = false;
  parser_invalid_arg = false;
}

-- The second name of the number, whose index is behind the primary ones, and the flag.
abbrev events : List (Event ℕ)
events = seen b'n' (some 3) (4 ∷ []) ∷ seen b'v' (some 0) [] ∷ []

parse_run : (parse_args ℕ 1 none events parser).success ≡ true
unfolding parse_args apply_defaults parse_loop parse_event dispatch matching find_short process call
    store_flag none_missing
parse_run = refl

required_example :
    All (IsRecognized ℕ) events
    × All (λ (o : Optionx ℕ). (o.required ≡ false) ⊎ Any (Asks ℕ o.short_name) events) options
required_example = parse_args_required ℕ 1 none events parser (refl, (refl, tt)) parse_run
