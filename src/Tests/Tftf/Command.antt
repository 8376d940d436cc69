-- ===== src/Tests/Tftf/Command.antt =====
-- src/sign-tftf/sign-tftf.c at a concrete command line.
use bootrom_tools.Base.{
  ℕ, ◌≡◌, refl, true, false, List, [], ◌∷◌, Option, none, some, arith, All, codes,
}
use bootrom_tools.Tftf.Common.{tftf_add_section, find_end, append_to_tftf_blob}
use bootrom_tools.Util.Text.{rchop}
use bootrom_tools.Options.{
  Event, seen, Parser, new_argparse, secondary_opts, secondary_names, put_opts, parse_args,
  parse_loop, parse_event, dispatch, process, matching, init_optx, call, apply_defaults, store_str,
  none_missing, kw_to_token, flag_callback, store_flag,
}
use bootrom_tools.Sign.{OpenSsl, Result, sign_tftf, digest_and_sign}
use bootrom_tools.Sign.Command.{State, parse_table, key_stem}
use bootrom_tools.Sign.Command.Main.{
  KeyStore, Target, V, initial, parse_command_line, main, sign_files, sign_init,
}
use bootrom_tools.Sign.Command.Main.Checked.{IsUnwritten, main-IsUnwritten}
use bootrom_tools.Sign.Command.Main.Signed.{IsSigned, main-IsSigned}
use bootrom_tools.Tests.Tftf.{tftf, blob}

-- Every file holds the key 5.
abbrev keys : KeyStore ℕ
keys = record { fopen = λ name. true; rsa_new = true; pem_read = λ name passphrase. some 5 }

abbrev working : ℕ → OpenSsl
working key = record {
  md_ctx_create = true;
  digest_init = true;
  digest_update_hdr = true;
  digest_update_scn = true;
  digest_final = true;
  sha256 = λ bytes. [];
  rsa_sign = λ digest. some (key ∷ []);
}

abbrev number : List ℕ → ℕ × List ℕ
number text = (0, [])

abbrev Variables : Type 0
Variables = V tftf (λ h. []) (λ a k s. a ∷ s) 19 true 1 16 number (λ path. path)

abbrev events : List (Event Variables)
events =
    seen b'p' (some 0) (codes "pass:x")
    ∷ seen b'a' (some 1) (codes "rsa2048-sha256")
    ∷ seen b'k' (some 2) (codes "k.pem")
    ∷ seen b'd' (some 3) (codes "d")
    ∷ seen b'c' (some 6) []
    ∷ []

abbrev files : List Target
files = record { tftf = some blob; memory = 8 ∷ []; write = λ b. true } ∷ []

abbrev parse : Option (Parser Variables)
parse = parse_command_line tftf (λ h. []) (λ a k s. a ∷ s) 19 true 1 16 number (λ path. path) events

abbrev run : List Target → Option (ℕ × List Result)
run = main tftf (λ h. []) (λ a k s. a ∷ s) 19 true 1 16 number (λ path. path) keys working events []

parsed : Option (Parser Variables)
unfolding parse_command_line new_argparse secondary_opts secondary_names put_opts parse_args
    parse_loop parse_event dispatch process matching init_optx call apply_defaults store_str
    none_missing kw_to_token flag_callback store_flag parse_table
parsed = parse

signed : Option (ℕ × List Result)
unfolding parsed main sign_files sign_tftf digest_and_sign sign_init key_stem rchop tftf_add_section
    find_end append_to_tftf_blob
signed = run files

abbrev blobs_of : Option (ℕ × List Result) → List Result
blobs_of none = []
blobs_of (some (status, blobs)) = blobs

abbrev parser_of : Option (Parser Variables) → Parser Variables
parser_of none = record {
  optx = [];
  vars = none;
  success = false;
  parser_help = false;
  parser_invalid_arg = false;
}
parser_of (some p) = p

abbrev state_of : Option State → State
state_of none = initial
state_of (some s) = s

signed_run : run files ≡ some (0, blobs_of (run files))
unfolding signed
signed_run = refl

parsed_run : parse ≡ some (parser_of parse)
unfolding parsed
parsed_run = refl

parsed_vars : (parser_of parse).vars ≡ some (state_of (parser_of parse).vars)
unfolding parsed
parsed_vars = refl

parsed_check : (state_of (parser_of parse).vars).check_flag ≡ 1
unfolding parsed
parsed_check = refl

command_example :
    (p : Parser Variables) × (s : State) × (parse ≡ some p)
    × (p.vars ≡ some s)
    × (p.success ≡ true)
    × IsSigned tftf
        (λ h. [])
        (λ a k s. a ∷ s)
        19
        true
        1
        16
        number
        (λ path. path)
        keys
        working
        s
        []
        files
        (blobs_of (run files))
command_example =
    main-IsSigned tftf (λ h. []) (λ a k s. a ∷ s) 19 true 1 16 number (λ path. path) keys working
      events [] files (blobs_of (run files)) signed_run

checked_example : All IsUnwritten (blobs_of (run files))
checked_example =
    main-IsUnwritten tftf (λ h. []) (λ a k s. a ∷ s) 19 true 1 16 number (λ path. path) keys working
      events [] files (parser_of parse) (state_of (parser_of parse).vars) 0 (blobs_of (run files))
      parsed_run parsed_vars (omega (arith, parsed_check)) signed_run
