-- ===== src/Sign/Command/Main/Signed.antt =====
-- When sign-tftf reports success.
use bootrom_tools.Base.{
  ℕ, ◌+◌, ◌<◌, ◌≡◌, ◌≢◌, refl, sym, Bool, true, false, ◌&&◌, List, [], ◌∷◌, ◌++◌, Option, none,
  some, arith, ltb, ◌==◌, if◌then◌else◌, length, Bool-cases, inl, inr, elim_some, &&_iff, ==_iff,
  Option-cases, ◌⊎◌, Any, not, length-append,
}
use bootrom_tools.Tftf.{Format, Header}
use bootrom_tools.Options.{Event, Parser}
use bootrom_tools.Sign.{OpenSsl, Result, sign_tftf}
use bootrom_tools.Sign.Command.{State, passin_prompt, get_id, format_key_name}
use bootrom_tools.Sign.Command.Main.{
  KeyStore, Target, prompt, sign_files, sign_init, key_name_of, pass_phrase, status_of, sign_with,
  run, main, V, parse_command_line,
}

-- A chain that succeeds.
found_some :
    {A B : Type 0} (o : Option A) (f : A → Option (Bool × B)) (b c : B)
    → ◌≡◌ {A = Option (Bool × B)}
        (elim o [ none ↦ some (false, b) | some a ↦ f a ])
        (some (true, c))
    → (a : A) × (o ≡ some a) × (f a ≡ some (true, c))
found_some none f b c e = absurd (cc e)
found_some (some a) f b c e = (a, refl, e)

module _ (fmt : Format) (header_bytes : Header → List ℕ)
    (block_bytes : ℕ → List ℕ → List ℕ → List ℕ) (max : ℕ) (malloc_succeeds : Bool) where
  -- Every file has been signed, and these are the files in memory.
  abbrev pub AllSigned : OpenSsl → ℕ → List ℕ → Bool → List Target → List Result → Type 0
  AllSigned ssl algorithm key_name write_if_good [] [] = Unit
  AllSigned ssl algorithm key_name write_if_good [] (blob ∷ blobs) = ⊥
  AllSigned ssl algorithm key_name write_if_good (file ∷ files) [] = ⊥
  AllSigned ssl algorithm key_name write_if_good (file ∷ files) (blob ∷ blobs) =
      (sign_tftf fmt header_bytes block_bytes max malloc_succeeds ssl file.tftf algorithm key_name
          file.memory write_if_good file.write
        ≡ some (true, blob))
      × AllSigned ssl algorithm key_name write_if_good files blobs

  sign_files-AllSigned :
      (ssl : OpenSsl) (algorithm : ℕ) (key_name : List ℕ) (write_if_good : Bool)
      (files : List Target) (blobs : List Result)
      → sign_files fmt header_bytes block_bytes max malloc_succeeds ssl algorithm key_name
          write_if_good files
        ≡ some (true, blobs)
      → AllSigned ssl algorithm key_name write_if_good files blobs
  unfolding sign_files
  sign_files-AllSigned ssl algorithm key_name write_if_good [] [] e = tt
  sign_files-AllSigned ssl algorithm key_name write_if_good [] (blob ∷ blobs) e = absurd (cc e)
  sign_files-AllSigned ssl algorithm key_name write_if_good (file ∷ files) blobs e =
      let ((success, blob), signed, e1) =
        elim_some
          (sign_tftf fmt header_bytes block_bytes max malloc_succeeds ssl file.tftf algorithm
            key_name file.memory write_if_good file.write)
          _ e in
      let ((others, later), rest, e2) =
        elim_some
          (sign_files fmt header_bytes block_bytes max malloc_succeeds ssl algorithm key_name
            write_if_good files)
          _ e1 in
      let both : (success && others) ≡ true = cc in
      let same : blob ∷ later ≡ blobs = cc in
      let (good, goods) = (&&_iff success others).0 both in
      rw (sym same) (
        cc (signed, good),
        sign_files-AllSigned ssl algorithm key_name write_if_good files later (cc (rest, goods)),
      )

  module _ (rsa2048_sha256 key_name_size : ℕ) (strtoul : List ℕ → ℕ × List ℕ)
      (basename : List ℕ → List ℕ) {Key : Type 0} (store : KeyStore Key) (ssl : Key → OpenSsl) where
    abbrev name : State → Option (Option (List ℕ))
    name =
        key_name_of fmt header_bytes block_bytes max malloc_succeeds rsa2048_sha256 key_name_size
          strtoul basename

    -- The pass phrase is the one that the options left, unless it is asked for; then it is one of
    -- the answers.
    abbrev pub IsPhrase : State → List (Option (List ℕ)) → Option (List ℕ) → Type 0
    IsPhrase s answers passphrase =
        ((s.passin_mode ≢ passin_prompt) × (passphrase ≡ s.passphrase))
        ⊎ ((s.passin_mode ≡ passin_prompt) × Any (λ a. a ≡ passphrase) answers)

    -- The name of the key fits its field in the signature, there is a file, the key is the one that
    -- the key's file gives for the pass phrase, and `sign_tftf` succeeds on every file with it.
    pub record IsSigned (s : State) (answers : List (Option (List ℕ))) (files : List Target)
        (blobs : List Result) : Type 0 where
      pub key : Key
      pub key_filename : List ℕ
      pub passphrase : Option (List ℕ)
      pub key_file : s.key_filename ≡ some key_filename
      pub phrase : IsPhrase s answers passphrase
      pub opened : store.fopen key_filename ≡ true
      pub read : store.pem_read key_filename passphrase ≡ some key
      pub key_name : List ℕ
      pub named : name s ≡ some (some key_name)
      pub short : length key_name < key_name_size
      pub some_file : length files ≢ 0
      pub signed :
          AllSigned (ssl key) s.signature_algorithm key_name (s.check_flag == 0) files blobs

    sign_init-reads :
        (key_filename : List ℕ) (passphrase : Option (List ℕ)) (key : Key)
        → (sign_init store key_filename passphrase).1 ≡ some key
        → (store.fopen key_filename ≡ true) × (store.pem_read key_filename passphrase ≡ some key)
    unfolding sign_init
    sign_init-reads key_filename passphrase key e = elim (Bool-cases (store.fopen key_filename)) [
      | inr missing ↦ absurd (ground (arith, e, missing))
      | inl opened ↦ elim (Bool-cases store.rsa_new) [
        | inr full ↦ absurd (ground (arith, e, opened, full))
        | inl room ↦ elim (Option-cases (store.pem_read key_filename passphrase)) [
          | inl bad ↦ absurd (ground (arith, e, opened, room, bad))
          | inr (k, good) ↦ (opened, ground (arith, e, opened, room, good))
        ]
      ]
    ]

    prompt-answered :
        (no_retry : Bool) (key_filename : List ℕ) (answers : List (Option (List ℕ)))
        (passphrase : Option (List ℕ))
        → prompt store no_retry key_filename answers ≡ some (true, passphrase)
        → Any (λ a. a ≡ passphrase) answers
    unfolding prompt
    prompt-answered no_retry key_filename [] passphrase e = absurd (cc e)
    prompt-answered no_retry key_filename (pass ∷ later) passphrase e =
        elim (Bool-cases (sign_init store key_filename pass).0) [
          | inr good ↦ inl (ground (arith, e, good))
          | inl bad ↦ elim (Bool-cases no_retry) [
            | inl stop ↦ absurd (ground (arith, e, bad, stop))
            | inr again ↦ elim (Option-cases pass) [
              | inl ended ↦ absurd (ground (arith, e, bad, again, ended))
              | inr (text, given) ↦ inr (
                  prompt-answered no_retry key_filename later passphrase
                    (ground (arith, e, bad, again, given)))
            ]
          ]
        ]

    pass_phrase-IsPhrase :
        (s : State) (key_filename : List ℕ) (answers : List (Option (List ℕ)))
        (passphrase : Option (List ℕ))
        → pass_phrase fmt header_bytes block_bytes max malloc_succeeds rsa2048_sha256 key_name_size
            strtoul basename store s key_filename answers
          ≡ some (true, passphrase)
        → IsPhrase s answers passphrase
    unfolding pass_phrase
    pass_phrase-IsPhrase s key_filename answers passphrase e =
        elim (Bool-cases (s.passin_mode == passin_prompt)) [
          | inl asks ↦ inr (
            (==_iff _ _).0 asks,
            prompt-answered (not (s.no_retry_flag == 0)) key_filename answers passphrase
                (ground (arith, e, asks)),
          )
          | inr fixed ↦ inl (ground (arith, fixed), ground (arith, e, fixed))
        ]

    format_key_name-short :
        (key_filename : Option (List ℕ)) (key_id : List ℕ) (key_domain : Option (List ℕ))
        (key_name : List ℕ)
        → format_key_name rsa2048_sha256 key_name_size malloc_succeeds strtoul basename key_filename
            key_id key_domain
          ≡ some key_name
        → length key_name < key_name_size
    unfolding format_key_name
    format_key_name-short none key_id key_domain key_name e = absurd (cc e)
    format_key_name-short (some key_filename) key_id none key_name e = absurd (cc e)
    format_key_name-short (some key_filename) key_id (some domain) key_name e =
        elim (Bool-cases (ltb (length key_id + 1 + length domain) key_name_size)) [
          | inr long ↦ absurd (cc (e, long))
          | inl fits ↦
              let same : key_id ++ (b'@' ∷ domain) ≡ key_name = cc in
              let size = length-append key_id (b'@' ∷ domain) in
              rw (sym same) (ground (arith, fits, size))
        ]

    key_name_of-short :
        (s : State) (key_name : List ℕ)
        → name s ≡ some (some key_name)
        → length key_name < key_name_size
    unfolding key_name_of
    key_name_of-short s key_name e =
        by_id
          (get_id rsa2048_sha256 key_name_size malloc_succeeds strtoul basename s.key_id
            s.key_filename)
          e
      where
        by_id :
            (o : Option (Option (List ℕ)))
            → ◌≡◌ {A = Option (Option (List ℕ))}
                (elim o [
                  | none ↦ none
                  | some none ↦ some none
                  | some (some key_id) ↦ some (
                      format_key_name rsa2048_sha256 key_name_size malloc_succeeds strtoul basename
                        s.key_filename key_id s.key_domain)
                ])
                (some (some key_name))
            → length key_name < key_name_size
        by_id none g = absurd (cc g)
        by_id (some none) g = absurd (cc g)
        by_id (some (some key_id)) g =
            format_key_name-short s.key_filename key_id s.key_domain key_name (cc g)

    run-IsSigned :
        (s : State) (answers : List (Option (List ℕ))) (files : List Target) (blobs : List Result)
        → run fmt header_bytes block_bytes max malloc_succeeds rsa2048_sha256 key_name_size strtoul
            basename store ssl s answers files
          ≡ some (true, blobs)
        → IsSigned s answers files blobs
    unfolding run sign_with
    run-IsSigned s answers files blobs e =
        let (named, there, e1) = elim_some (name s) _ e in
        let (key_name, known, e2) = found_some named _ [] blobs e1 in
        elim (Bool-cases (length files == 0)) [
          | inl empty ↦ absurd (cc (e2, empty))
          | inr some_file ↦
              let (key_filename, key_file, e3) = elim_some s.key_filename _ (rw some_file at e2) in
              let ((is_good, passphrase), phrase, e4) =
                elim_some
                  (pass_phrase fmt header_bytes block_bytes max malloc_succeeds rsa2048_sha256
                    key_name_size strtoul basename store s key_filename answers)
                  _ e3 in
              let (good, e5) = if_good is_good _ blobs e4 in
              let (key, has_key, e6) =
                found_some (sign_init store key_filename passphrase).1 _ [] blobs e5 in
              let named' : name s ≡ some (some key_name) = cc in
              record {
                key = key;
                key_filename = key_filename;
                passphrase = passphrase;
                key_file = key_file;
                phrase = pass_phrase-IsPhrase s key_filename answers passphrase (cc (phrase, good));
                opened = (sign_init-reads key_filename passphrase key has_key).0;
                read = (sign_init-reads key_filename passphrase key has_key).1;
                key_name = key_name;
                named = named';
                short = key_name_of-short s key_name named';
                some_file = ground (arith, some_file);
                signed =
                    sign_files-AllSigned (ssl key) s.signature_algorithm key_name
                      (s.check_flag == 0) files blobs e6;
              }
        ]
      where
        if_good :
            (is_good : Bool) (r : Option (Bool × List Result)) (blobs : List Result)
            → ◌≡◌ {A = Option (Bool × List Result)}
                (if is_good then r else some (false, []))
                (some (true, blobs))
            → (is_good ≡ true) × (r ≡ some (true, blobs))
        if_good true r blobs g = (refl, g)
        if_good false r blobs g = absurd (cc g)

    abbrev status : Bool → ℕ
    status =
        status_of fmt header_bytes block_bytes max malloc_succeeds rsa2048_sha256 key_name_size
          strtoul basename

    status-zero : (b : Bool) → status b ≡ 0 → b ≡ true
    status-zero true h = refl
    status-zero false h = absurd (omega arith)

    -- The exit status is 0 only if the options are parsed with success, there is a file to sign, the
    -- name of the key fits its field in the signature, the key's file could be opened and gives a key
    -- for the pass phrase, which is that of the options or, where it is asked for, one of the
    -- answers, and `sign_tftf` reports success for every file with that name and that key, which it
    -- does also where OpenSSL fails. The results are then those of these calls, in the order of the
    -- command line.
    pub main-IsSigned :
        (events : List (
          Event (
            V fmt header_bytes block_bytes max malloc_succeeds rsa2048_sha256 key_name_size strtoul
              basename)))
        (answers : List (Option (List ℕ))) (files : List Target) (blobs : List Result)
        → main fmt header_bytes block_bytes max malloc_succeeds rsa2048_sha256 key_name_size strtoul
            basename store ssl events answers files
          ≡ some (0, blobs)
        → (p : Parser (
            V fmt header_bytes block_bytes max malloc_succeeds rsa2048_sha256 key_name_size strtoul
              basename))
          × (s : State) × (parse_command_line fmt header_bytes block_bytes max malloc_succeeds
                rsa2048_sha256 key_name_size strtoul basename events
              ≡ some p)
          × (p.vars ≡ some s)
          × (p.success ≡ true)
          × IsSigned s answers files blobs
    unfolding main
    main-IsSigned events answers files blobs e =
        let (p, parsed, e1) =
          elim_some
            (parse_command_line fmt header_bytes block_bytes max malloc_succeeds rsa2048_sha256
              key_name_size strtoul basename events)
            _ e in
        let (s, vars, e2) = elim_some p.vars _ e1 in
        elim (Bool-cases p.success) [
          | inr failed ↦ absurd (cc (rw failed at e2))
          | inl parsed_all ↦
              let ((success, blobs'), ran, e3) =
                elim_some
                  (run fmt header_bytes block_bytes max malloc_succeeds rsa2048_sha256 key_name_size
                    strtoul basename store ssl s answers files)
                  _ (rw parsed_all at e2) in
              let zero : status success ≡ 0 = cc in
              let same : blobs' ≡ blobs = cc in
              (
                p,
                s,
                parsed,
                vars,
                parsed_all,
                run-IsSigned s answers files blobs (cc (ran, status-zero success zero, same)),
              )
        ]
