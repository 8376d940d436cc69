-- ===== src/Sign/Command/Main.antt =====
-- src/sign-tftf/sign-tftf.c: `main`, and `sign_init` and `sign_deinit` of src/sign-tftf/sign.c.
pub mod Checked
pub mod Signed
use bootrom_tools.Base.{
  ℕ, suc, ◌-◌, Bool, true, false, ◌&&◌, not, List, [], ◌∷◌, Option, none, some, ◌==◌, if◌then◌else◌,
  length,
}
use bootrom_tools.Tftf.{Format, Header, Blob}
use bootrom_tools.Options.{Event, Parser, new_argparse, parse_args}
use bootrom_tools.Sign.{OpenSsl, Result, sign_tftf}
use bootrom_tools.Sign.Command.{State, Vars, parse_table, get_id, format_key_name, passin_prompt}

-- What the calls on the file of a key and on OpenSSL return: the key that a file and a pass phrase
-- give, if they give one.
pub record KeyStore (Key : Type 0) : Type 0 where
  pub fopen : List ℕ → Bool
  pub rsa_new : Bool
  pub pem_read : List ℕ → Option (List ℕ) → Option Key

-- A file of the command line: what `alloc_load_file` gives, what lies on the stack where the
-- signature's field is, and whether the file can be written.
pub record Target : Type 0 where
  pub tftf : Option Blob
  pub memory : List ℕ
  pub write : Blob → Bool

-- The variables before `main`.
abbrev pub initial : State
initial = record {
  verbose_flag = 0;
  no_retry_flag = 0;
  check_flag = 0;
  key_filename = none;
  key_domain = none;
  key_id = none;
  signature_algorithm = 0;
  passin_mode = 0;
  passphrase = none;
}

-- `PROGRAM_ERRORS`
abbrev pub program_errors : ℕ
program_errors = 2

module _ {Key : Type 0} (store : KeyStore Key) where
  -- The flag for a bad pass phrase, and the key, if the call succeeds. The static variables are not
  -- read before the next call sets them.
  unfoldable pub sign_init : List ℕ → Option (List ℕ) → Bool × Option Key
  sign_init key_filename passphrase =
      if not (store.fopen key_filename)
      then (false, none)
      else if not store.rsa_new
      then (false, none)
      else elim (store.pem_read key_filename passphrase) [
        | none ↦ (true, none)
        | some key ↦ (false, some key)
      ]

  abbrev is_given : Option (List ℕ) → Bool
  is_given none = false
  is_given (some text) = true

  -- The loop that asks for the pass phrase, over what the calls of `getpass` return: success, and
  -- the last pass phrase. `none` is a call that has not returned.
  unfoldable pub prompt : Bool → List ℕ → List (Option (List ℕ)) → Option (Bool × Option (List ℕ))
  unfolding sign_init
  prompt no_retry key_filename [] = none
  prompt no_retry key_filename (pass ∷ later) =
      let (bad_passphrase, key) = sign_init key_filename pass in
      let again = prompt no_retry key_filename later in
      if bad_passphrase
      then if no_retry
        then some (false, pass)
        else if is_given pass
        then again
        else some (false, pass)
      else some (is_given pass, pass)

module _ (fmt : Format) (header_bytes : Header → List ℕ)
    (block_bytes : ℕ → List ℕ → List ℕ → List ℕ) (max : ℕ) (malloc_succeeds : Bool) where
  -- Every file is signed, also behind one that cannot be; the flag, and what is then in memory and has been written.
  unfoldable pub sign_files :
      OpenSsl → ℕ → List ℕ → Bool → List Target → Option (Bool × List Result)
  sign_files ssl algorithm key_name write_if_good [] = some (true, [])
  sign_files ssl algorithm key_name write_if_good (file ∷ files) =
      elim (sign_tftf fmt header_bytes block_bytes max malloc_succeeds ssl file.tftf algorithm
        key_name file.memory write_if_good file.write) [
          | none ↦ none
          | some (success, blob) ↦ elim (sign_files ssl algorithm key_name write_if_good files) [
            | none ↦ none
            | some (others, blobs) ↦ some (success && others, blob ∷ blobs)
          ]
        ]

  module _ (rsa2048_sha256 key_name_size : ℕ) (strtoul : List ℕ → ℕ × List ℕ)
      (basename : List ℕ → List ℕ) where
    abbrev pub V : Type 0
    V = Vars rsa2048_sha256 key_name_size malloc_succeeds strtoul basename

    -- The two calls of the parser; `none` is a write past the table.
    unfoldable pub parse_command_line : List (Event V) → Option (Parser V)
    parse_command_line events =
        elim (new_argparse V
          (parse_table rsa2048_sha256 key_name_size malloc_succeeds strtoul basename)) [
            | none ↦ none
            | some (optx, opts) ↦ some (
                parse_args V (length opts - suc (length optx)) none events (record {
                  optx = optx;
                  vars = some initial;
                  success = true;
                  parser_help = false;
                  parser_invalid_arg = false;
                }))
          ]

    -- The key's name, if there is one.
    unfoldable pub key_name_of : State → Option (Option (List ℕ))
    unfolding get_id format_key_name
    key_name_of s =
        elim (get_id rsa2048_sha256 key_name_size malloc_succeeds strtoul basename s.key_id
          s.key_filename) [
            | none ↦ none
            | some none ↦ some none
            | some (some key_id) ↦ some (
                format_key_name rsa2048_sha256 key_name_size malloc_succeeds strtoul basename
                  s.key_filename key_id s.key_domain)
          ]

    -- The exit status for success or failure.
    abbrev pub status_of : Bool → ℕ
    status_of true = 0
    status_of false = program_errors

    -- What `main` does once there is a pass phrase.
    unfoldable pub sign_with :
        {Key : Type 0}
        → KeyStore Key
        → (Key → OpenSsl)
        → State
        → List ℕ
        → List ℕ
        → Option (List ℕ)
        → List Target
        → Option (Bool × List Result)
    unfolding sign_init sign_files
    sign_with store ssl s key_filename key_name passphrase files =
        elim (sign_init store key_filename passphrase).1 [
          | none ↦ some (false, [])
          | some key ↦ sign_files (ssl key) s.signature_algorithm key_name (s.check_flag == 0) files
        ]

    -- The pass phrase: asked for, or as the options left it.
    unfoldable pub pass_phrase :
        {Key : Type 0}
        → KeyStore Key
        → State
        → List ℕ
        → List (Option (List ℕ))
        → Option (Bool × Option (List ℕ))
    unfolding prompt
    pass_phrase store s key_filename answers =
        if s.passin_mode == passin_prompt
        then prompt store (not (s.no_retry_flag == 0)) key_filename answers
        else some (true, s.passphrase)

    -- `main` once the options are parsed. The file name of the key is not null where it is used.
    unfoldable pub run :
        {Key : Type 0}
        → KeyStore Key
        → (Key → OpenSsl)
        → State
        → List (Option (List ℕ))
        → List Target
        → Option (Bool × List Result)
    unfolding key_name_of pass_phrase sign_with
    run store ssl s answers files = elim (key_name_of s) [
      | none ↦ none
      | some named ↦ elim named [
        | none ↦ some (false, [])
        | some key_name ↦ if length files == 0 then some (false, []) else elim s.key_filename [
          | none ↦ none
          | some key_filename ↦ elim (pass_phrase store s key_filename answers) [
            | none ↦ none
            | some (is_good, passphrase) ↦
                if is_good
                then sign_with store ssl s key_filename key_name passphrase files
                else some (false, [])
          ]
        ]
      ]
    ]

    -- The exit status, and what is then in memory of each file and has been written to it; `none` is an access out of bounds or
    -- a call that has not returned.
    unfoldable pub main :
        {Key : Type 0}
        → KeyStore Key
        → (Key → OpenSsl)
        → List (Event V)
        → List (Option (List ℕ))
        → List Target
        → Option (ℕ × List Result)
    unfolding parse_command_line run
    main store ssl events answers files = elim (parse_command_line events) [
      | none ↦ none
      | some p ↦ elim p.vars [
        | none ↦ none
        | some s ↦
            let signed = run store ssl s answers files in
            if not p.success then some (program_errors, []) else elim signed [
              | none ↦ none
              | some (success, blobs) ↦ some (status_of success, blobs)
            ]
      ]
    ]
