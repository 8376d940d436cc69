-- ===== src/Sign/Command/Main/Checked.antt =====
-- sign-tftf with `--check`.
use bootrom_tools.Base.{
  ℕ, ◌≡◌, ◌≢◌, refl, sym, Bool, true, false, not, ◌&&◌, List, [], ◌∷◌, Option, none, some, ◌==◌,
  if◌then◌else◌, length, All, ==_false,
}
use bootrom_tools.Tftf.{Format, Header, Blob}
use bootrom_tools.Tftf.Common.{tftf_add_section}
use bootrom_tools.Options.{Event, Parser}
use bootrom_tools.Sign.{
  OpenSsl, Result, digest_and_sign, sign_tftf, finish, signed_header, signed_payload,
}
use bootrom_tools.Sign.Command.{State}
use bootrom_tools.Sign.Command.Main.{
  KeyStore, Target, sign_files, sign_init, key_name_of, pass_phrase, status_of, sign_with, run,
  main, V, parse_command_line, program_errors,
}

-- Nothing has been written.
abbrev pub IsUnwritten : Result → Type 0
IsUnwritten result = result.1 ≡ none

abbrev IsUnwrittenRun : Option (Bool × Result) → Type 0
IsUnwrittenRun none = Unit
IsUnwrittenRun (some (success, result)) = IsUnwritten result

abbrev AllUnwritten : Option (Bool × List Result) → Type 0
AllUnwritten none = Unit
AllUnwritten (some (success, results)) = All IsUnwritten results

after_elim {ℓ} :
    {A : Type ℓ} (o : Option A) (otherwise : Option (Bool × List Result))
    (f : A → Option (Bool × List Result))
    → AllUnwritten otherwise
    → ((a : A) → AllUnwritten (f a))
    → AllUnwritten (elim o [ none ↦ otherwise | some a ↦ f a ])
after_elim none otherwise f h k = h
after_elim (some a) otherwise f h k = k a

after_if :
    (b : Bool) (x y : Option (Bool × List Result))
    → AllUnwritten x
    → AllUnwritten y
    → AllUnwritten (if b then x else y)
after_if true x y h k = h
after_if false x y h k = k

module _ (fmt : Format) (header_bytes : Header → List ℕ)
    (block_bytes : ℕ → List ℕ → List ℕ → List ℕ) (max : ℕ) (malloc_succeeds : Bool) where
  finish-unwritten :
      (write : Blob → Bool) (r : Option (Bool × Option Blob))
      → IsUnwrittenRun (finish fmt header_bytes block_bytes false write r)
  finish-unwritten write none = tt
  finish-unwritten write (some (false, blob)) = refl
  finish-unwritten write (some (true, none)) = refl
  finish-unwritten write (some (true, some blob)) = refl

  unsigned_or :
      (signed : Bool) (blob : Blob) (r : Option (Bool × Result))
      → IsUnwrittenRun r
      → IsUnwrittenRun (if signed then r else some (false, (some blob, none)))
  unsigned_or true blob r h = h
  unsigned_or false blob r h = refl

  sign_tftf-unwritten :
      (ssl : OpenSsl) (algorithm : ℕ) (key_name : List ℕ) (tftf : Option Blob) (memory : List ℕ)
      (write : Blob → Bool)
      → IsUnwrittenRun (
          sign_tftf fmt header_bytes block_bytes max malloc_succeeds ssl tftf algorithm key_name
            memory false write)
  unfolding sign_tftf
  sign_tftf-unwritten ssl algorithm key_name none memory write = refl
  sign_tftf-unwritten ssl algorithm key_name (some blob) memory write =
      let signed =
        digest_and_sign ssl true (signed_header fmt header_bytes block_bytes blob)
          (signed_payload fmt header_bytes block_bytes blob) memory in
      unsigned_or signed.0 blob _ (
        finish-unwritten write (
          tftf_add_section fmt max malloc_succeeds (some blob) fmt.section_signature 0 0
            fmt.data_address_to_be_ignored (some (block_bytes algorithm key_name signed.1))
            (length (block_bytes algorithm key_name signed.1))))

  one_more :
      (r : Option (Bool × Result)) (later : Option (Bool × List Result))
      → IsUnwrittenRun r
      → AllUnwritten later
      → AllUnwritten (elim r [
        | none ↦ none
        | some (success, result) ↦ elim later [
          | none ↦ none
          | some (others, results) ↦ some (success && others, result ∷ results)
        ]
      ])
  one_more none later h k = tt
  one_more (some (success, result)) none h k = tt
  one_more (some (success, result)) (some (others, results)) h k = (h, k)

  sign_files-unwritten :
      (ssl : OpenSsl) (algorithm : ℕ) (key_name : List ℕ) (files : List Target)
      → AllUnwritten (
          sign_files fmt header_bytes block_bytes max malloc_succeeds ssl algorithm key_name false
            files)
  unfolding sign_files
  sign_files-unwritten ssl algorithm key_name [] = tt
  sign_files-unwritten ssl algorithm key_name (f ∷ files) =
      one_more _ _ (sign_tftf-unwritten ssl algorithm key_name f.tftf f.memory f.write)
        (sign_files-unwritten ssl algorithm key_name files)

  module _ (rsa2048_sha256 key_name_size : ℕ) (strtoul : List ℕ → ℕ × List ℕ)
      (basename : List ℕ → List ℕ) {Key : Type 0} (store : KeyStore Key) (ssl : Key → OpenSsl) where
    sign_with-unwritten :
        (s : State) (key_filename key_name : List ℕ) (passphrase : Option (List ℕ))
        (files : List Target)
        → s.check_flag ≢ 0
        → AllUnwritten (
            sign_with fmt header_bytes block_bytes max malloc_succeeds rsa2048_sha256 key_name_size
              strtoul basename store ssl s key_filename key_name passphrase files)
    unfolding sign_with
    sign_with-unwritten s key_filename key_name passphrase files check =
        after_elim (sign_init store key_filename passphrase).1 (some (false, [])) _ tt λ key.
          rw (==_false s.check_flag 0 check)
            (sign_files-unwritten (ssl key) s.signature_algorithm key_name files)

    run-unwritten :
        (s : State) (answers : List (Option (List ℕ))) (files : List Target)
        → s.check_flag ≢ 0
        → AllUnwritten (
            run fmt header_bytes block_bytes max malloc_succeeds rsa2048_sha256 key_name_size
              strtoul basename store ssl s answers files)
    unfolding run
    run-unwritten s answers files check =
        after_elim
          (key_name_of fmt header_bytes block_bytes max malloc_succeeds rsa2048_sha256 key_name_size
            strtoul basename s)
          none _ tt
          λ named. after_elim named (some (false, [])) _ tt λ key_name.
            after_if (length files == 0) (some (false, [])) _ tt (
              after_elim s.key_filename none _ tt λ key_filename.
                after_elim
                  (pass_phrase fmt header_bytes block_bytes max malloc_succeeds rsa2048_sha256
                    key_name_size strtoul basename store s key_filename answers)
                  none _ tt
                  λ phrase.
                    after_if phrase.0 _ (some (false, []))
                      (sign_with-unwritten s key_filename key_name phrase.1 files check) tt)

    abbrev status : Bool → ℕ
    status =
        status_of fmt header_bytes block_bytes max malloc_succeeds rsa2048_sha256 key_name_size
          strtoul basename

    results_of :
        (code : ℕ) (results : List Result) (parsed : Bool) (signed : Option (Bool × List Result))
        → AllUnwritten signed
        → ◌≡◌ {A = Option (ℕ × List Result)}
            (if not parsed then some (program_errors, []) else elim signed [
              | none ↦ none
              | some (success, blobs) ↦ some (status success, blobs)
            ])
            (some (code, results))
        → All IsUnwritten results
    results_of code results false signed h e = let same : [] ≡ results = cc in rw (sym same) tt
    results_of code results true none h e = absurd (cc e)
    results_of code results true (some (success, blobs)) h e =
        let same : blobs ≡ results = cc in rw (sym same) h

    -- With `--check`, `write_tftf_file` is called for no file, whatever becomes of the run.
    pub main-IsUnwritten :
        (events : List (
          Event (
            V fmt header_bytes block_bytes max malloc_succeeds rsa2048_sha256 key_name_size strtoul
              basename)))
        (answers : List (Option (List ℕ))) (files : List Target)
        (p : Parser (
          V fmt header_bytes block_bytes max malloc_succeeds rsa2048_sha256 key_name_size strtoul
            basename))
        (s : State) (code : ℕ) (results : List Result)
        → parse_command_line fmt header_bytes block_bytes max malloc_succeeds rsa2048_sha256
            key_name_size strtoul basename events
          ≡ some p
        → p.vars ≡ some s
        → s.check_flag ≢ 0
        → main fmt header_bytes block_bytes max malloc_succeeds rsa2048_sha256 key_name_size strtoul
            basename store ssl events answers files
          ≡ some (code, results)
        → All IsUnwritten results
    unfolding main
    main-IsUnwritten events answers files p s code results parsed vars check e =
        results_of code results p.success _ (run-unwritten s answers files check)
          (rw (main, parsed, vars) at e)
