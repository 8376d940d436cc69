-- ===== src/CreateTftf/Main/Written.antt =====
-- The file that create-tftf writes once its arguments have been accepted.
use bootrom_tools.Base.{
  ℕ, ◌≡◌, refl, sym, ap, ◌∙◌, Bool, true, arith, take, Bool-cases, inl, inr, List, Option, none,
  some,
}
use bootrom_tools.Files.{System}
use bootrom_tools.Ffff
use bootrom_tools.Tftf.{Format, Header, Blob}
use bootrom_tools.Tftf.Build.{new_tftf}
use bootrom_tools.Tftf.Cache.{entries_size}
use bootrom_tools.CreateTftf.{State}
use bootrom_tools.CreateTftf.Output.{Disk, make_directories, image_bytes, write_tftf_file}
use bootrom_tools.CreateTftf.Main.Valid.{HasRoom}
use bootrom_tools.CreateTftf.Main.{Run, write_image}

module _ (sys : System) (fmt : Format) (ffff : Ffff.Format) (strtoul : List ℕ → ℕ × List ℕ)
    (file_name : List ℕ → sys.FileName) where
  module _ (header_bytes : Header → List ℕ) (disk : Disk) (malloc_succeeds : Bool)
      (now : List ℕ) where
    -- A file that is written holds what `write` took of the image of a state that was accepted.
    pub record IsImage (s : State sys) (name bytes : List ℕ) : Type 0 where
      pub room : HasRoom sys fmt ffff strtoul file_name s
      pub named : s.output_filename ≡ some name
      pub blob : Blob
      pub built :
          new_tftf sys fmt malloc_succeeds now s.header_size
            (entries_size sys s.cache)
            s.fw_pkg_name
            s.package_type
            s.start_location
            s.unipro_mfg
            s.unipro_pid
            s.ara_vid
            s.ara_pid
            s.cache
          ≡ some (some blob)
      pub directories : make_directories disk name ≡ true
      pub created : disk.create name ≡ true
      pub written :
          bytes
          ≡ take
              (disk.write name (image_bytes header_bytes fmt blob))
              (image_bytes header_bytes fmt blob)

    written_file :
        (blob : Blob) (name bytes : List ℕ)
        → (write_tftf_file header_bytes fmt disk blob name).1 ≡ some bytes
        → (make_directories disk name ≡ true)
          × (disk.create name ≡ true)
          × (bytes
              ≡ take
                  (disk.write name (image_bytes header_bytes fmt blob))
                  (image_bytes header_bytes fmt blob))
    unfolding write_tftf_file
    written_file blob name bytes h = elim (Bool-cases (make_directories disk name)) [
      | inr missing ↦ absurd (ground (arith, h, missing))
      | inl made ↦ elim (Bool-cases (disk.create name)) [
        | inr refused ↦ absurd (ground (arith, h, made, refused))
        | inl created ↦ (made, created, ground (arith, h, made, created))
      ]
    ]

    file_written :
        (s : State sys) (name bytes : List ℕ) (h : IsImage s name bytes)
        → (write_tftf_file header_bytes fmt disk h.blob name).1 ≡ some bytes
    unfolding write_tftf_file
    file_written s name bytes h = rw (h.directories, h.created, h.written) refl

    abbrev image_of : State sys → Option (Option Blob)
    image_of s =
        new_tftf sys fmt malloc_succeeds now s.header_size (entries_size sys s.cache) s.fw_pkg_name
          s.package_type s.start_location s.unipro_mfg s.unipro_pid s.ara_vid s.ara_pid s.cache

    write_image-unnamed :
        (status : ℕ) (s : State sys)
        → s.output_filename ≡ none
        → write_image sys fmt ffff strtoul file_name header_bytes disk malloc_succeeds now status s
          ≡ none
    unfolding write_image
    write_image-unnamed status s e = rw (write_image, e) refl

    write_image-built :
        (status : ℕ) (s : State sys) (name : List ℕ) (r : Option (Option Blob))
        → s.output_filename ≡ some name
        → image_of s ≡ r
        → write_image sys fmt ffff strtoul file_name header_bytes disk malloc_succeeds now status s
          ≡ elim r [
            | none ↦ none
            | some none ↦ some (status, none)
            | some (some blob) ↦ some (
              status,
              elim (write_tftf_file header_bytes fmt disk blob name).1 [
                | none ↦ none
                | some bytes ↦ some (name, bytes)
              ],
            )
          ]
    unfolding write_image
    write_image-built status s name r e b = rw (write_image, e, b) refl

    file_of_some :
        (program_status status : ℕ) (name n bytes : List ℕ) (contents : Option (List ℕ))
        → ◌≡◌ {A = Option (Run sys fmt ffff strtoul file_name)}
            (some (program_status, elim contents [ none ↦ none | some b ↦ some (n, b) ]))
            (some (status, some (name, bytes)))
        → (n ≡ name) × (contents ≡ some bytes) × (status ≡ program_status)
    file_of_some program_status status name n bytes none e = absurd (cc e)
    file_of_some program_status status name n bytes (some b) e = (cc e, cc e, cc e)

    pub write_image-IsImage :
        (program_status status : ℕ) (s : State sys) (name bytes : List ℕ)
        → HasRoom sys fmt ffff strtoul file_name s
        → write_image sys fmt ffff strtoul file_name header_bytes disk malloc_succeeds now
            program_status s
          ≡ some (status, some (name, bytes))
        → IsImage s name bytes × (status ≡ program_status)
    write_image-IsImage program_status status s name bytes room e =
        by_name s.output_filename refl (image_of s) refl
      where
        by_name :
            (o : Option (List ℕ))
            → s.output_filename ≡ o
            → (r : Option (Option Blob)) → image_of s ≡ r
            → IsImage s name bytes × (status ≡ program_status)
        by_name none unnamed r b = absurd (cc (write_image-unnamed program_status s unnamed))
        by_name (some n) named none b =
            absurd (cc (write_image-built program_status s n none named b))
        by_name (some n) named (some none) b =
            absurd (cc (write_image-built program_status s n (some none) named b))
        by_name (some n) named (some (some blob)) b =
            let (same, contents, unchanged) =
              file_of_some program_status status name n bytes _
                (sym (write_image-built program_status s n (some (some blob)) named b) ∙ e) in
            let file =
              written_file blob name bytes (
                ap (λ m. (write_tftf_file header_bytes fmt disk blob m).1) (sym same) ∙ contents) in
            (
              record {
                room = room;
                named = named ∙ ap some same;
                blob = blob;
                built = b;
                directories = file.0;
                created = file.1;
                written = file.2;
              },
              unchanged,
            )

    pub IsImage-write_image :
        (status : ℕ) (s : State sys) (name bytes : List ℕ)
        → IsImage s name bytes
        → write_image sys fmt ffff strtoul file_name header_bytes disk malloc_succeeds now status s
          ≡ some (status, some (name, bytes))
    IsImage-write_image status s name bytes h =
        write_image-built status s name _ h.named h.built ∙ rw (file_written s name bytes h) refl
