-- ===== src/CreateTftf/Main/Built.antt =====
-- When create-tftf builds and writes an image of its state.
use bootrom_tools.Base.{ℕ, ◌≡◌, refl, sym, ◌∙◌, Bool, true, false, List, Option, none, some}
use bootrom_tools.Files.{System}
use bootrom_tools.Ffff
use bootrom_tools.Tftf.{Format, Header}
use bootrom_tools.Tftf.Cache.{Cache, entry_close}
use bootrom_tools.CreateTftf.{State}
use bootrom_tools.CreateTftf.Output.{Disk}
use bootrom_tools.CreateTftf.Main.Valid.{validate_args-HasRoom}
use bootrom_tools.CreateTftf.Main.{Run, validate_args, write_image, build_image, program_errors}
use bootrom_tools.CreateTftf.Main.Written.{IsImage, write_image-IsImage, IsImage-write_image}

module _ (sys : System) (fmt : Format) (ffff : Ffff.Format) (strtoul : List ℕ → ℕ × List ℕ)
    (file_name : List ℕ → sys.FileName) where
  module _ (header_bytes : Header → List ℕ) (disk : Disk) (malloc_succeeds : Bool)
      (now : List ℕ) where
    -- The state is what `validate_args` accepts and completes, once the open section is closed.
    pub record IsAccepted (s accepted : State sys) : Type 0 where
      pub closed : Cache sys
      pub closing : entry_close sys s.cache ≡ some closed
      pub valid :
          validate_args sys fmt ffff strtoul file_name (record s { cache = closed })
          ≡ some (true, accepted)

    abbrev pub build : ℕ → State sys → Option (Run sys fmt ffff strtoul file_name)
    build = build_image sys fmt ffff strtoul file_name header_bytes disk malloc_succeeds now

    abbrev pub IsWritten : State sys → List ℕ → List ℕ → Type 0
    IsWritten = IsImage sys fmt ffff strtoul file_name header_bytes disk malloc_succeeds now

    build_image-closed :
        (status : ℕ) (s : State sys) (c : Cache sys) (r : Option (Bool × State sys))
        → entry_close sys s.cache ≡ some c
        → validate_args sys fmt ffff strtoul file_name (record s { cache = c }) ≡ r
        → build_image sys fmt ffff strtoul file_name header_bytes disk malloc_succeeds now status s
          ≡ elim r [
            | none ↦ none
            | some (false, s') ↦ some (program_errors, none)
            | some (true, s') ↦
                write_image sys fmt ffff strtoul file_name header_bytes disk malloc_succeeds now
                  status s'
          ]
    unfolding build_image
    build_image-closed status s c r e v = rw (build_image, e, v) refl

    build_image-fault :
        (status : ℕ) (s : State sys)
        → entry_close sys s.cache ≡ none
        → build_image sys fmt ffff strtoul file_name header_bytes disk malloc_succeeds now status s
          ≡ none
    unfolding build_image
    build_image-fault status s e = rw (build_image, e) refl

    pub build_image-IsImage :
        (program_status status : ℕ) (s : State sys) (name bytes : List ℕ)
        → build program_status s ≡ some (status, some (name, bytes))
        → (s' : State sys) × IsAccepted s s' × IsWritten s' name bytes × (status ≡ program_status)
    build_image-IsImage program_status status s name bytes e = by_close _ refl
      where
        by_valid :
            (c : Cache sys) (r : Option (Bool × State sys))
            → entry_close sys s.cache ≡ some c
            → validate_args sys fmt ffff strtoul file_name (record s { cache = c }) ≡ r
            → (s' : State sys) × IsAccepted s s'
              × IsWritten s' name bytes
              × (status ≡ program_status)
        by_valid c none closing v =
            absurd (cc (build_image-closed program_status s c none closing v))
        by_valid c (some (false, s')) closing v =
            absurd (cc (build_image-closed program_status s c (some (false, s')) closing v))
        by_valid c (some (true, s')) closing v =
            let (image, unchanged) =
              write_image-IsImage sys fmt ffff strtoul file_name header_bytes disk malloc_succeeds
                now program_status status s' name bytes
                (validate_args-HasRoom sys fmt ffff strtoul file_name (record s { cache = c }) s' v)
                (sym (build_image-closed program_status s c (some (true, s')) closing v) ∙ e) in
            (s', record { closed = c; closing = closing; valid = v }, image, unchanged)

        by_close :
            (r : Option (Cache sys))
            → entry_close sys s.cache ≡ r
            → (s' : State sys) × IsAccepted s s'
              × IsWritten s' name bytes
              × (status ≡ program_status)
        by_close none fault = absurd (cc (build_image-fault program_status s fault))
        by_close (some c) closing = by_valid c _ closing refl

    pub IsImage-build_image :
        (status : ℕ) (s s' : State sys) (name bytes : List ℕ)
        → IsAccepted s s'
        → IsWritten s' name bytes
        → build status s ≡ some (status, some (name, bytes))
    unfolding build_image
    IsImage-build_image status s s' name bytes h image =
        rw (build_image, h.closing, h.valid)
          (IsImage-write_image sys fmt ffff strtoul file_name header_bytes disk malloc_succeeds now
            status s' name bytes image)
