-- ===== src/Options.antt =====
-- src/common/parse_support.c: the option tables over getopt_long_only, and the keyword tables. The
-- variables of a program are a type that the definitions take; getopt is the list of what its calls
-- return, up to the end of the options.
pub mod Keyword
pub mod Table
pub mod Parse
pub mod Required
pub mod Kept
pub mod Makers
use bootrom_tools.Base.{
  ℕ, zero, suc, ◌+◌, ◌-◌, ◌%◌, ◌^◌, Bool, true, false, ◌&&◌, ◌||◌, not, List, [], ◌∷◌, ◌++◌, map,
  Option, none, some, ltb, leb, ◌==◌, if◌then◌else◌, length, get_elem?, set, replicate, same_bytes,
}

abbrev pub token_not_found : ℕ
token_not_found = 2 ^ 32 - 1

-- `parse_entry`; a table is the list of its entries before the terminator.
pub record ParseEntry : Type 0 where
  pub string : List ℕ
  pub value : ℕ

unfoldable pub kw_to_token : List ℕ → List ParseEntry → ℕ
kw_to_token keyword [] = token_not_found
kw_to_token keyword (entry ∷ lookup) =
    if same_bytes keyword entry.string then entry.value else kw_to_token keyword lookup

unfoldable pub token_to_kw : ℕ → List ParseEntry → Option (List ℕ)
token_to_kw token [] = none
token_to_kw token (entry ∷ lookup) =
    if token == entry.value then some entry.string else token_to_kw token lookup

-- `struct option`
pub record Opt : Type 0 where
  pub name : Option (List ℕ)
  pub has_arg : Bool
  pub val : ℕ

abbrev pub end_of_table : Opt
end_of_table = record { name = none; has_arg = false; val = 0 }

-- One write to the table that `calloc` gave; `none` is a write behind it.
abbrev pub put_opt : List Opt → ℕ → Opt → Option (List Opt)
put_opt opts i opt = if ltb i (length opts) then some (set opts i opt) else none

-- The writes of a loop, from the slot of its pointer.
unfoldable pub put_opts : List Opt → ℕ → List Opt → Option (List Opt)
put_opts opts i [] = some opts
put_opts opts i (opt ∷ rest) = elim (put_opt opts i opt) [
  | none ↦ none
  | some opts' ↦ put_opts opts' (i + 1) rest
]

module _ (Vars : Type 0) where
  -- What an option calls: `store_flag`, or a function of the option character and its argument.
  pub data Callback : Type 0 where
    flag : Callback
    given : (ℕ → List ℕ → Vars → Bool × Vars) → Callback

  -- `struct optionx`, with its flags as Booleans and the write through `var_ptr` as a function.
  pub record Optionx : Type 0 where
    pub short_name : ℕ
    pub long_names : List (List ℕ)
    pub var_ptr : Option (ℕ → Vars → Vars)
    pub default_val : ℕ
    pub has_default : Bool
    pub required : Bool
    pub store_true : Bool
    pub store_false : Bool
    pub callback : Option Callback
    pub count : ℕ

  unfoldable pub parse_args_init_opt_entry : List ℕ → Optionx → Opt
  parse_args_init_opt_entry name optx = record {
    name = some name;
    has_arg = not (optx.store_false || optx.store_true);
    val = optx.short_name;
  }

  -- The first loop of `parse_args_init`: the entry of the primary name, or a slot that stays zero.
  unfoldable pub primary_opt : Optionx → Opt
  primary_opt optx = elim optx.long_names [
    | [] ↦ end_of_table
    | name ∷ names ↦ parse_args_init_opt_entry name optx
  ]

  unfoldable pub flag_callback : Optionx → Option Callback
  flag_callback optx = elim optx.callback [ none ↦ some flag | some c ↦ some c ]

  unfoldable pub init_optx : Optionx → Optionx
  init_optx optx = elim optx.long_names [
    | [] ↦ optx
    | name ∷ names ↦
        if optx.store_false || optx.store_true
        then (record optx {
          has_default = true;
          default_val = if optx.store_false then 1 else 0;
          callback = flag_callback optx;
          count = 0;
        })
        else record optx { count = 0 }
  ]

  -- The names behind the first; `none` is a read behind the terminator of an empty list.
  unfoldable pub secondary_names : Optionx → Option (List (List ℕ))
  secondary_names optx = elim optx.long_names [ [] ↦ none | name ∷ names ↦ some names ]

  -- The entries for the secondary names of all options, in the order in which they are written.
  unfoldable pub secondary_opts : List Optionx → Option (List Opt)
  secondary_opts [] = some []
  secondary_opts (optx ∷ rest) = elim (secondary_names optx) [
    | none ↦ none
    | some names ↦ elim (secondary_opts rest) [
      | none ↦ none
      | some opts ↦ some (map (λ name. parse_args_init_opt_entry name optx) names ++ opts)
    ]
  ]

  -- `new_argparse` and the `parse_args_init` that it calls: the options as they are set up and the
  -- table for getopt.
  unfoldable pub new_argparse : List Optionx → Option (List Optionx × List Opt)
  new_argparse optx = elim (secondary_opts optx) [
    | none ↦ none
    | some secondary ↦
        let slots = replicate (suc (length optx) + length secondary) end_of_table in
        elim (put_opts slots 0 (map primary_opt optx)) [
          | none ↦ none
          | some opts1 ↦ elim (put_opts opts1 (length optx) secondary) [
            | none ↦ none
            | some opts2 ↦ elim (put_opt opts2 (length optx + length secondary) end_of_table) [
              | none ↦ none
              | some opts ↦ some (map init_optx optx, opts)
            ]
          ]
        ]
  ]

  -- `store_flag`, `store_str` and `store_hex`.
  unfoldable pub store_flag : Optionx → Vars → Bool × Vars
  store_flag optx vars = elim optx.var_ptr [
    | none ↦ (false, vars)
    | some put ↦ (true, put (if optx.store_true then 1 else 0) vars)
  ]

  -- `strtoul` gives a number and what is left of the text; the test of `errno` compares it with
  -- itself.
  unfoldable pub get_num : (List ℕ → ℕ × List ℕ) → List ℕ → Bool × ℕ
  get_num strtoul optarg = let (num, tail) = strtoul optarg in (length tail == 0, num % 2 ^ 32)

  unfoldable pub store_hex :
      (List ℕ → ℕ × List ℕ) → Option (ℕ → Vars → Vars) → List ℕ → Vars → Bool × Vars
  store_hex strtoul none optarg vars = (false, vars)
  store_hex strtoul (some put) optarg vars =
      let (success, num) = get_num strtoul optarg in (success, put num vars)

  unfoldable pub store_str : Option (List ℕ → Vars → Vars) → List ℕ → Vars → Bool × Vars
  store_str none optarg vars = (false, vars)
  store_str (some put) optarg vars = (true, put optarg vars)

  -- What getopt_long_only returns before -1: '?' with the argument that it stopped at, or an option
  -- character with `option_index` as it is then (`none` for a negative number) and `optarg`.
  pub data Event : Type 0 where
    unrecognized : List ℕ → Event
    seen : ℕ → Option ℕ → List ℕ → Event

  -- What the parser works on: the options, the variables, and its results.
  pub record Parser : Type 0 where
    pub optx : List Optionx
    pub vars : Vars
    pub success : Bool
    pub parser_help : Bool
    pub parser_invalid_arg : Bool

  -- The first option with a short name, or the length of the list.
  unfoldable pub find_short : ℕ → List Optionx → ℕ
  find_short option [] = 0
  find_short option (o ∷ optx) = if o.short_name == option then 0 else suc (find_short option optx)

  -- The entry of the index, or the search by the short name where the two do not match. The
  -- terminator, whose short name is 0, never matches.
  unfoldable pub matching : List Optionx → ℕ → ℕ → ℕ
  matching optx option index = elim (get_elem? optx index) [
    | none ↦ find_short option optx
    | some o ↦ if o.short_name == option then index else find_short option optx
  ]

  -- The entry that an option character leads to, by its position; past the list it is the
  -- terminator, which has no callback. The numbers are `num_entries` and `total_entries`.
  unfoldable pub dispatch : List Optionx → ℕ → ℕ → ℕ → Option ℕ → Option ℕ
  dispatch optx num_entries total_entries option none = none
  dispatch optx num_entries total_entries option (some option_index) =
      let is_secondary = leb num_entries option_index && ltb option_index total_entries in
      let index =
        if not (option == 0) && is_secondary then find_short option optx else option_index in
      if not (option == 0) && ltb index num_entries then some (matching optx option index) else none

  unfoldable pub call : Optionx → Callback → ℕ → List ℕ → Vars → Bool × Vars
  call optx flag option optarg vars = store_flag optx vars
  call optx (given f) option optarg vars = f option optarg vars

  -- The call of an entry's callback, counted before it.
  unfoldable pub process : ℕ → ℕ → List ℕ → Parser → Parser
  process i option optarg p = elim (get_elem? p.optx i) [
    | none ↦ p
    | some o ↦ elim o.callback [
      | none ↦ p
      | some callback ↦
          let counted = record o { count = o.count + 1 } in
          let (ok, vars) = call counted callback option optarg p.vars in
          record p { optx = set p.optx i counted; vars = vars; success = p.success && ok }
    ]
  ]

  abbrev pub help_arg : List ℕ
  help_arg = b'-' ∷ b'-' ∷ b'h' ∷ b'e' ∷ b'l' ∷ b'p' ∷ []

  module _ (num_entries total_entries : ℕ) (preprocess : Option (ℕ → Vars → Vars)) where
    abbrev pub preprocessed : ℕ → Vars → Vars
    preprocessed option vars = elim preprocess [ none ↦ vars | some f ↦ f option vars ]

    -- The body of the parsing loop.
    unfoldable pub parse_event : Event → Parser → Parser
    parse_event (unrecognized offending_arg) p = record p {
      success = false;
      parser_help = true;
      parser_invalid_arg = p.parser_invalid_arg || not (same_bytes offending_arg help_arg);
    }
    parse_event (seen option option_index optarg) p =
        let p' = record p { vars = preprocessed option p.vars } in
        elim (dispatch p.optx num_entries total_entries option option_index) [
          | none ↦ p'
          | some i ↦ process i option optarg p'
        ]

    unfoldable pub parse_loop : List Event → Parser → Parser
    parse_loop [] p = p
    parse_loop (e ∷ events) p = parse_loop events (parse_event e p)

  -- The defaults of the options that have not been counted.
  unfoldable pub apply_defaults : List Optionx → Vars → Vars
  apply_defaults [] vars = vars
  apply_defaults (o ∷ optx) vars = apply_defaults optx (
      if o.count == 0 && o.has_default
      then (elim o.var_ptr [ none ↦ vars | some put ↦ put o.default_val vars ])
      else vars)

  -- No required option is missing.
  unfoldable pub none_missing : List Optionx → Bool
  none_missing [] = true
  none_missing (o ∷ optx) = not (o.count == 0 && o.required) && none_missing optx

  -- `num_secondary` is `num_secondary_entries`; `num_entries` counts the terminator.
  unfoldable pub parse_args : ℕ → Option (ℕ → Vars → Vars) → List Event → Parser → Parser
  parse_args num_secondary preprocess events p =
      let num_entries = suc (length p.optx) in
      let start = record p { vars = apply_defaults p.optx p.vars; success = true } in
      let final = parse_loop num_entries (num_entries + num_secondary) preprocess events start in
      record final { success = final.success && none_missing final.optx }
