-- ===== src/Sign/Command.antt =====
-- src/sign-tftf/sign-tftf.c: the program's variables, the functions that its options call, and the
-- name of the key.
pub mod Main
use bootrom_tools.Base.{
  ℕ, ◌+◌, Bool, true, false, not, List, [], ◌∷◌, ◌++◌, Option, none, some, ltb, ◌==◌, if◌then◌else◌,
  codes, length, take, drop, same_bytes,
}
use bootrom_tools.Util.Text.{rchop}
use bootrom_tools.Options.{Optionx, given, ParseEntry, kw_to_token, token_not_found}
use bootrom_tools.Options.Makers.{guarded, number, str_option, flag_option}

-- `PASSIN_PROMPT`, `PASSIN_STDIN` and `PASSIN_PASSIN`
abbrev pub passin_prompt : ℕ
passin_prompt = 0

abbrev pub passin_stdin : ℕ
passin_stdin = 1

abbrev pub passin_passin : ℕ
passin_passin = 2

abbrev pub passin_modes : List ParseEntry
passin_modes =
    record { string = codes "prompt"; value = passin_prompt }
    ∷ record { string = codes "pass:"; value = passin_passin }
    ∷ record { string = codes "stdin"; value = passin_stdin }
    ∷ []

-- The static variables; a text that is null is `none`.
pub record State : Type 0 where
  pub verbose_flag : ℕ
  pub no_retry_flag : ℕ
  pub check_flag : ℕ
  pub key_filename : Option (List ℕ)
  pub key_domain : Option (List ℕ)
  pub key_id : Option (List ℕ)
  pub signature_algorithm : ℕ
  pub passin_mode : ℕ
  pub passphrase : Option (List ℕ)

-- The constants and the size of a key's name are those of `tftf.h`.
module _ (rsa2048_sha256 key_name_size : ℕ) (malloc_succeeds : Bool) (strtoul : List ℕ → ℕ × List ℕ)
    (basename : List ℕ → List ℕ) where
  abbrev pub signature_algorithms : List ParseEntry
  signature_algorithms = record { string = codes "rsa2048-sha256"; value = rsa2048_sha256 } ∷ []

  -- Five bytes are compared, and then stepped over.
  unfoldable pub handle_passin : List ℕ → State → Bool × State
  handle_passin optarg s =
      let token = kw_to_token optarg passin_modes in
      if not (token == token_not_found)
      then (true, record s { passin_mode = token })
      else if not (same_bytes (take 5 optarg) (codes "pass:"))
      then (false, record s { passin_mode = token })
      else if malloc_succeeds
      then (true, record s { passin_mode = passin_passin; passphrase = some (drop 5 optarg) })
      else (false, record s { passin_mode = passin_passin; passphrase = none })

  unfoldable pub handle_algorithm : List ℕ → State → Bool × State
  handle_algorithm optarg s =
      let token = kw_to_token optarg signature_algorithms in
      (not (token == token_not_found), record s { signature_algorithm = token })

  abbrev pub Vars : Type 0
  Vars = Option State

  -- An option that calls a function of its own, with its variable and the default for it.
  abbrev pub own_option :
      ℕ
      → List (List ℕ)
      → (ℕ → State → State)
      → Bool
      → (List ℕ → State → Bool × State)
      → Optionx Vars
  own_option short_name long_names put has_default handle = record {
    short_name = short_name;
    long_names = long_names;
    var_ptr = number State strtoul put;
    default_val = 0;
    has_default = has_default;
    required = not has_default;
    store_true = false;
    store_false = false;
    callback = some (given (λ option optarg. guarded (λ s. some (handle optarg s))));
    count = 0;
  }

  unfoldable pub parse_table : List (Optionx Vars)
  unfolding handle_passin handle_algorithm
  parse_table =
      own_option b'p' (codes "passin" ∷ []) (λ n s. record s { passin_mode = n }) true handle_passin
      ∷ own_option b'a' (codes "algorithm" ∷ []) (λ n s. record s { signature_algorithm = n }) false
          handle_algorithm
      ∷ record (str_option State strtoul b'k' (codes "key" ∷ [])
          (λ text s. record s { key_filename = some text })) { required = true }
      ∷ record (str_option State strtoul b'd' (codes "domain" ∷ [])
          (λ text s. record s { key_domain = some text })) { required = true }
      ∷ str_option State strtoul b'i' (codes "id" ∷ []) (λ text s. record s { key_id = some text })
      ∷ flag_option State strtoul b'r' (codes "no-retry" ∷ []) true
          (λ n s. record s { no_retry_flag = n })
      ∷ flag_option State strtoul b'c' (codes "check" ∷ []) true
          (λ n s. record s { check_flag = n })
      ∷ flag_option State strtoul b'v' (codes "verbose" ∷ []) true
          (λ n s. record s { verbose_flag = n })
      ∷ []

  -- `sizeof(key_id_buffer)`
  abbrev pub key_id_size : ℕ
  key_id_size = 256

  -- The name of the key's file without its directory and its endings.
  unfoldable pub key_stem : List ℕ → List ℕ
  unfolding rchop
  key_stem key_filename =
      rchop
        (rchop (rchop (basename key_filename) (some (codes ".private.pem")))
          (some (codes ".public.pem")))
        (some (codes ".pem"))

  -- Where nothing can be allocated the buffer is returned, which is still empty; the outer `none` is
  -- a read through the null file name.
  unfoldable pub get_id : Option (List ℕ) → Option (List ℕ) → Option (Option (List ℕ))
  unfolding key_stem
  get_id (some key_id) key_filename = some (some key_id)
  get_id none none = none
  get_id none (some key_filename) =
      if not malloc_succeeds
      then some (some [])
      else if ltb (length (key_stem key_filename)) key_id_size
      then some (some (key_stem key_filename))
      else some none

  -- The name in the buffer, which has its full size.
  unfoldable pub format_key_name : Option (List ℕ) → List ℕ → Option (List ℕ) → Option (List ℕ)
  format_key_name none key_id key_domain = none
  format_key_name (some key_filename) key_id none = none
  format_key_name (some key_filename) key_id (some key_domain) =
      if ltb (length key_id + 1 + length key_domain) key_name_size
      then some (key_id ++ (b'@' ∷ key_domain))
      else none
