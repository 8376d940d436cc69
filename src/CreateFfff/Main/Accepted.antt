-- ===== src/CreateFfff/Main/Accepted.antt =====
-- When create-ffff writes a file.
use bootrom_tools.Base.{
  ℕ, ◌+◌, ◌*◌, ◌^◌, ◌≤◌, ◌<◌, All, take, arith, ◌≡◌, refl, sym, ap, ◌∙◌, Bool, true, false, not,
  List, Option, none, some, Bool-cases, inl, inr, elim_some, if◌then◌else◌,
}
use bootrom_tools.Files.{System}
use bootrom_tools.Ffff.{Format}
use bootrom_tools.Util.Boundary.{next_boundary, next_boundary_blocks}
use bootrom_tools.Ffff.Cache.{Entry, entry_close, entry_count, validate_locations}
use bootrom_tools.Ffff.Cache.Check.{Located, validate_locations_iff}
use bootrom_tools.Ffff.Image.Build.Copies.{IsCopied}
use bootrom_tools.Ffff.Image.Build.{Layout}
use bootrom_tools.Options.{Event, Parser}
use bootrom_tools.CreateTftf.Output.{Disk}
use bootrom_tools.CreateFfff.{State}
use bootrom_tools.CreateFfff.Main.{
  V, Run, initial, parse_command_line, valid_args, write_image, main, program_errors,
}
use bootrom_tools.CreateFfff.Main.Written.{
  IsFlashImage, written_file, located_valid_args, write-IsFlashImage, IsFlashImage-write,
}

module _ (sys : System) (fmt : Format) (strtoul : List ℕ → ℕ × List ℕ)
    (file_name : List ℕ → sys.FileName) where
  -- The options are parsed with success, and leave this state, with its open element closed.
  pub record IsParsed (entries : List (Entry sys))
      (events : List (Event (V sys fmt strtoul file_name))) (state : State sys) : Type 0 where
    pub parser : Parser (V sys fmt strtoul file_name)
    pub left : State sys
    pub parsed :
        parse_command_line sys fmt strtoul file_name events
          (initial sys fmt strtoul file_name entries)
        ≡ some parser
    pub vars : parser.vars ≡ some left
    pub success : parser.success ≡ true
    pub closed : state ≡ record left { cache = entry_close sys left.cache }

  module _ (layout : Layout) (disk : Disk) (malloc_succeeds : Bool) (now : List ℕ) where
    abbrev write : ℕ → State sys → Option (Run sys fmt strtoul file_name)
    write = write_image sys fmt strtoul file_name layout disk malloc_succeeds now

    abbrev IsWritten : State sys → List ℕ → List ℕ → Type 0
    IsWritten = IsFlashImage sys fmt strtoul file_name layout disk malloc_succeeds now

    -- The file that the program leaves.
    pub record IsFlashFile (state : State sys) (k blocks : ℕ) (name bytes : List ℕ) : Type 0 where
      pub image : List ℕ
      pub named : state.output_filename ≡ some name
      pub some_element : 1 ≤ state.cache.current_element
      pub located :
          All
            (Located sys (2 * (blocks * 2 ^ k)) (2 ^ k) state.image_length)
            (take state.cache.current_element state.cache.entries)
      pub copied : IsCopied (blocks * 2 ^ k) image
      pub created : disk.create name ≡ true
      pub written : bytes ≡ take (disk.write name image) image

    by_flags :
        (status : ℕ) (name bytes : List ℕ) (parsed : Bool) (s : State sys)
        → ◌≡◌ {A = Option (Run sys fmt strtoul file_name)}
            (if not parsed
              then some (program_errors, none)
              else if valid_args sys fmt strtoul file_name s
              then write 0 s
              else some (program_errors, none))
            (some (status, some (name, bytes)))
        → (parsed ≡ true) × IsWritten s name bytes × (status ≡ 0)
    by_flags status name bytes false s e = absurd (cc e)
    by_flags status name bytes true s e =
        elim (Bool-cases (valid_args sys fmt strtoul file_name s)) [
          | inr invalid ↦ absurd (cc (e, invalid))
          | inl valid ↦
              let (image, unchanged) =
                write-IsFlashImage sys fmt strtoul file_name layout disk malloc_succeeds now 0
                  status s name bytes valid (cc (e, valid)) in
              (refl, image, unchanged)
        ]

    module _ (entries : List (Entry sys)) (events : List (Event (V sys fmt strtoul file_name)))
        (status : ℕ) (name bytes : List ℕ) where
      abbrev Writes : Type 0
      Writes =
          main sys fmt strtoul file_name layout disk malloc_succeeds now entries events
          ≡ some (status, some (name, bytes))

      abbrev Accepted : Type 0
      Accepted = (s : State sys) × IsParsed entries events s × IsWritten s name bytes × (status ≡ 0)

      main-accepted : Writes → Accepted
      unfolding main
      main-accepted e =
          let (p, parsed, e1) =
            elim_some
              (parse_command_line sys fmt strtoul file_name events
                (initial sys fmt strtoul file_name entries))
              _ e in
          let (s, vars, e2) = elim_some p.vars _ e1 in
          let closed = record s { cache = entry_close sys s.cache } in
          let (success, image, unchanged) = by_flags status name bytes p.success closed e2 in
          (
            closed,
            record {
              parser = p;
              left = s;
              parsed = parsed;
              vars = vars;
              success = success;
              closed = refl;
            },
            image,
            unchanged,
          )

      accepted-main : Accepted → Writes
      unfolding main
      accepted-main (s, p, image, unchanged) =
          let valid =
            located_valid_args sys fmt strtoul file_name s name image.named image.some_element
              image.located in
          let written =
            IsFlashImage-write sys fmt strtoul file_name layout disk malloc_succeeds now 0 s name
              bytes image in
          let closed = record (p.left) { cache = entry_close sys p.left.cache } in
          let valid' : valid_args sys fmt strtoul file_name closed ≡ true =
            ap (valid_args sys fmt strtoul file_name) (sym p.closed) ∙ valid in
          let written' : write 0 closed ≡ some (0, some (name, bytes)) =
            ap (write 0) (sym p.closed) ∙ written in
          rw (main, p.parsed, p.vars, p.success, valid', unchanged) written'

      same_state :
          (s s' : State sys) → IsParsed entries events s → IsParsed entries events s' → s' ≡ s
      same_state s s' p p' =
          let parser : p'.parser ≡ p.parser = cc (p.parsed, p'.parsed) in
          let left : p'.left ≡ p.left =
            cc
              (p.vars, p'.vars, ap (λ (q : Parser (V sys fmt strtoul file_name)). q.vars) parser) in
          p'.closed
          ∙ (ap (λ (t : State sys). record t { cache = entry_close sys t.cache }) left
              ∙ sym p.closed)

      -- For a command line whose options are parsed with success, and erase blocks of 2^k bytes of
      -- which the given number are the fewest that hold a header, two such numbers of them ending
      -- below 2^32: if the program writes a file, its exit status is 0, and the file is the one that
      -- was named and could be created. It holds the first bytes, as many as `write` took, of an
      -- image whose first blocks, those of the header, stand in it twice, one copy behind the other.
      -- There is at least one element, and every element starts at a multiple of the erase block,
      -- behind the blocks of both headers, and within the image.
      pub main-IsFlashFile :
          (state : State sys) (k blocks : ℕ)
          → IsParsed entries events state
          → k < 31
          → state.erase_block_size ≡ 2 ^ k
          → state.header_size ≤ blocks * 2 ^ k
          → blocks * 2 ^ k < state.header_size + 2 ^ k
          → 2 * (blocks * 2 ^ k) < 2 ^ 32
          → main sys fmt strtoul file_name layout disk malloc_succeeds now entries events
            ≡ some (status, some (name, bytes))
          → IsFlashFile state k blocks name bytes × (status ≡ 0)
      unfolding entry_count
      main-IsFlashFile state k blocks parsed small power enough fewest below e =
          let (s', parsed', image', zero) = main-accepted e in
          let image : IsWritten state name bytes =
            rw (same_state state s' parsed parsed') at image' in
          let boundary : next_boundary state.header_size state.erase_block_size ≡ blocks * 2 ^ k =
            ap (next_boundary state.header_size) power
            ∙ next_boundary_blocks k blocks state.header_size small enough fewest (omega arith) in
          let (created, content) =
            written_file sys fmt strtoul file_name layout disk malloc_succeeds now image.romimage
              name bytes image.written in
          let located =
            ap
              (λ (size : ℕ).
                validate_locations sys state.header_size size state.image_length state.cache)
              (sym power)
            ∙ image.located in
          (
            record {
              image = image.romimage.blob;
              named = image.named;
              some_element = image.some_element;
              located =
                  (validate_locations_iff sys state.header_size k blocks state.image_length
                      state.cache small enough fewest below).0
                    located;
              copied = rw boundary at (image.copied);
              created = created;
              written = content;
            },
            zero,
          )
