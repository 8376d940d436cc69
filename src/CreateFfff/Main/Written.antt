-- ===== src/CreateFfff/Main/Written.antt =====
-- The file that create-ffff writes once its options are parsed.
use bootrom_tools.Base.{
  ℕ, ◌≤◌, ◌≡◌, refl, sym, ap, ◌∙◌, Bool, true, false, List, Option, none, some, arith, elim_some,
  take, Bool-cases, inl, inr,
}
use bootrom_tools.Files.{System}
use bootrom_tools.Util.Boundary.{next_boundary}
use bootrom_tools.Ffff.{Format}
use bootrom_tools.Ffff.Cache.{entry_count, validate_locations}
use bootrom_tools.Ffff.Load.{check_ffff_romimage_size}
use bootrom_tools.Ffff.Image.{Romimage}
use bootrom_tools.Ffff.Image.Build.{Layout}
use bootrom_tools.Ffff.Image.Build.Copies.{IsCopied, new_ffff_romimage-IsCopied}
use bootrom_tools.CreateTftf.Output.{Disk}
use bootrom_tools.CreateFfff.{State}
use bootrom_tools.CreateFfff.Main.{Run, valid_args, build_image, write_image, write_ffff_file}

module _ (sys : System) (fmt : Format) (strtoul : List ℕ → ℕ × List ℕ)
    (file_name : List ℕ → sys.FileName) where
  valid_args_located :
      (s : State sys) (name : List ℕ)
      → s.output_filename ≡ some name
      → valid_args sys fmt strtoul file_name s ≡ true
      → (1 ≤ entry_count sys s.cache)
        × (validate_locations sys s.header_size s.erase_block_size s.image_length s.cache ≡ true)
  unfolding valid_args
  valid_args_located s name e h = ground (arith, e, h)

  pub located_valid_args :
      (s : State sys) (name : List ℕ)
      → s.output_filename ≡ some name
      → 1 ≤ entry_count sys s.cache
      → validate_locations sys s.header_size s.erase_block_size s.image_length s.cache ≡ true
      → valid_args sys fmt strtoul file_name s ≡ true
  unfolding valid_args
  located_valid_args s name e some_element located = ground (arith, e, some_element, located)

  module _ (layout : Layout) (disk : Disk) (malloc_succeeds : Bool) (now : List ℕ) where
    build_image-IsCopied :
        (s : State sys) (r : Romimage)
        → build_image sys fmt strtoul file_name layout disk malloc_succeeds now s ≡ some (some r)
        → IsCopied (next_boundary s.header_size s.erase_block_size) r.blob
    unfolding build_image
    build_image-IsCopied s r e =
        new_ffff_romimage-IsCopied sys fmt layout malloc_succeeds now _ s.name s.flash_capacity
          s.erase_block_size s.image_length s.generation s.header_size s.cache r e

    -- A file that is written: the elements lie where they may, the content has been found to fit,
    -- and the file holds what `write` took of an image with two equal headers.
    pub record IsFlashImage (state : State sys) (name bytes : List ℕ) : Type 0 where
      pub romimage : Romimage
      pub named : state.output_filename ≡ some name
      pub some_element : 1 ≤ entry_count sys state.cache
      pub located :
          validate_locations sys state.header_size state.erase_block_size state.image_length
            state.cache
          ≡ true
      pub fits :
          check_ffff_romimage_size sys state.flash_capacity state.image_length state.header_size
            state.cache
          ≡ some true
      pub copied : IsCopied (next_boundary state.header_size state.erase_block_size) romimage.blob
      pub built :
          build_image sys fmt strtoul file_name layout disk malloc_succeeds now state
          ≡ some (some romimage)
      pub written : (write_ffff_file disk romimage name).1 ≡ some bytes

    pub written_file :
        (romimage : Romimage) (name bytes : List ℕ)
        → (write_ffff_file disk romimage name).1 ≡ some bytes
        → (disk.create name ≡ true) × (bytes ≡ take (disk.write name romimage.blob) romimage.blob)
    unfolding write_ffff_file
    written_file romimage name bytes h = elim (Bool-cases (disk.create name)) [
      | inl created ↦ (created, ground (arith, h, created))
      | inr refused ↦ absurd (ground (arith, h, refused))
    ]

    file_of_some :
        (program_status status : ℕ) (name n bytes : List ℕ) (contents : Option (List ℕ))
        → ◌≡◌ {A = Option (Run sys fmt strtoul file_name)}
            (some (program_status, elim contents [ none ↦ none | some b ↦ some (n, b) ]))
            (some (status, some (name, bytes)))
        → (n ≡ name) × (contents ≡ some bytes) × (status ≡ program_status)
    file_of_some program_status status name n bytes none e = absurd (cc e)
    file_of_some program_status status name n bytes (some b) e = (cc e, cc e, cc e)

    abbrev pub write : ℕ → State sys → Option (Run sys fmt strtoul file_name)
    write = write_image sys fmt strtoul file_name layout disk malloc_succeeds now

    write_image-built :
        (status : ℕ) (s : State sys) (r : Option (Option Romimage))
        → check_ffff_romimage_size sys s.flash_capacity s.image_length s.header_size s.cache
          ≡ some true
        → build_image sys fmt strtoul file_name layout disk malloc_succeeds now s ≡ r
        → write status s ≡ elim r [
          | none ↦ none
          | some none ↦ some (status, none)
          | some (some romimage) ↦ elim s.output_filename [
            | none ↦ none
            | some name ↦ some (
              status,
              elim (write_ffff_file disk romimage name).1 [
                | none ↦ none
                | some bytes ↦ some (name, bytes)
              ],
            )
          ]
        ]
    unfolding write_image
    write_image-built status s r c b = rw (write_image, c, b) refl

    write_image-unfit :
        (status : ℕ) (s : State sys)
        → check_ffff_romimage_size sys s.flash_capacity s.image_length s.header_size s.cache
          ≡ some false
        → write status s ≡ some (status, none)
    unfolding write_image
    write_image-unfit status s c = rw (write_image, c) refl

    write_image-fault :
        (status : ℕ) (s : State sys)
        → check_ffff_romimage_size sys s.flash_capacity s.image_length s.header_size s.cache ≡ none
        → write status s ≡ none
    unfolding write_image
    write_image-fault status s c = rw (write_image, c) refl

    pub write-IsFlashImage :
        (program_status status : ℕ) (s : State sys) (name bytes : List ℕ)
        → valid_args sys fmt strtoul file_name s ≡ true
        → write program_status s ≡ some (status, some (name, bytes))
        → IsFlashImage s name bytes × (status ≡ program_status)
    write-IsFlashImage program_status status s name bytes valid e = by_size _ refl
      where
        by_size :
            (r : Option Bool)
            → check_ffff_romimage_size sys s.flash_capacity s.image_length s.header_size s.cache ≡ r
            → IsFlashImage s name bytes × (status ≡ program_status)
        by_size none c = absurd (cc (write_image-fault program_status s c))
        by_size (some false) c = absurd (cc (write_image-unfit program_status s c))
        by_size (some true) c = by_built _ refl
          where
            by_built :
                (r : Option (Option Romimage))
                → build_image sys fmt strtoul file_name layout disk malloc_succeeds now s ≡ r
                → IsFlashImage s name bytes × (status ≡ program_status)
            by_built none b = absurd (cc (write_image-built program_status s none c b))
            by_built (some none) b =
                absurd (cc (write_image-built program_status s (some none) c b))
            by_built (some (some romimage)) b =
                let (n, named, e1) =
                  elim_some s.output_filename _
                    (sym (write_image-built program_status s (some (some romimage)) c b) ∙ e) in
                let (same, contents, unchanged) =
                  file_of_some program_status status name n bytes _ e1 in
                let (some_element, located) = valid_args_located s n named valid in
                (
                  record {
                    romimage = romimage;
                    named = named ∙ ap some same;
                    some_element = some_element;
                    located = located;
                    fits = c;
                    copied = build_image-IsCopied s romimage b;
                    built = b;
                    written = ap (λ m. (write_ffff_file disk romimage m).1) (sym same) ∙ contents;
                  },
                  unchanged,
                )

    pub IsFlashImage-write :
        (status : ℕ) (s : State sys) (name bytes : List ℕ)
        → IsFlashImage s name bytes
        → write status s ≡ some (status, some (name, bytes))
    IsFlashImage-write status s name bytes h =
        write_image-built status s _ h.fits h.built ∙ rw (h.named, h.written) refl
