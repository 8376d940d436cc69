-- ===== src/Lib.antt =====
-- The boot ROM image tools: the C code that builds, signs, checks and displays boot images
-- (TFTF) and flash images (FFFF).
--
-- A TFTF file is a header with a table of sections and the sections' payloads behind it;
-- create-tftf caches the sections of its command line and builds the file, sign-tftf adds
-- signatures and certificates. An FFFF file is two copies of a header with a table of
-- elements, which lie at block-aligned locations of the image; create-ffff caches elements
-- and builds it. Both are read back through validators that are shared with the boot ROM. The
-- tools are single-threaded and keep the caches in static variables.
--
-- Files:
-- - Base: operators, Boolean tests, lists and bits of the native numbers.
-- - Files: size_file and load_file (src/common/util.c) over `System`, which stands for stat,
--   open and read; Files/Store has what a write into a buffer changes.
-- - Util: the rest of src/common/util.c. Util/Boundary has is_power_of_2, block_aligned and
--   next_boundary; Util/Overlap overlap and regions_overlap; Util/Fill is_constant_fill;
--   Util/Hamming hamming_weight and balance_vidpid; Util/Text the bounded copies, the suffix
--   tests and change_extension. join and mkdir_recursive are in CreateTftf/Output.
-- - Ffff: the FFFF structures. Ffff/Common and Ffff/Image are src/common/ffff_common.c.
--   src/common/ffff_in.c is Ffff/Cache (the element cache: its static variables as a record, one
--   function per call), Ffff/Load (the walk that sizes and loads the elements), Ffff/Validate
--   (valid_ffff_type, valid_ffff_element, validate_ffff_header), Ffff/Read (read_ffff_romimage)
--   and Ffff/Image/Build (new_ffff_romimage: the header is bytes of the image that it fills;
--   a step of its loop is in Slots and Payload, its end in Ends, what it loads in Loaded and
--   Fills, and its result in Succeeds, Elements and Total).
-- - Tftf: the TFTF structures. Tftf/Common is src/common/tftf_common.c; src/common/tftf_in.c is
--   Tftf/Validate (valid_tftf_type, valid_tftf_section, valid_tftf_header, sniff_tftf_header),
--   Tftf/Cache (the section cache and the walk over it; Tftf/Cache/Abstract and Tftf/Cache/Steps
--   the sections that are done and the one that is open, as its calls change them), Tftf/Build
--   (new_tftf) and Tftf/Elf (load_elf and the functions that it calls).
-- - Ims: src/imsgen, the generator of internal master secrets (IMS). Ims/Text is ims_parse
--   and ims_write; Ims/Hash the endpoint id and "Y2"; Ims/Keys the signing keys and reverse_buf;
--   Ims/Errk the search for the primes of the RSA key (calc_errk of ims.c) and the derivation in
--   ims_test_core.c; Ims/Database db.c; Ims/Generate ims_generate and the loop of imsgen.c;
--   Ims/Input num_ims_in_file, get_ims and ims_read.
-- - Options: src/common/parse_support.c, the option tables, parse_args and the keyword tables.
--   Options/Makers has the kinds of options that the programs put into their tables.
-- - CreateTftf: src/create-tftf/create-tftf.c, the variables of the program with the section cache
--   as one state, a function for each callback of its options (CreateTftf), the table
--   (CreateTftf/Table), validate_args and main (CreateTftf/Main), and write_tftf_file of
--   src/common/tftf_out.c (CreateTftf/Output). An option's callback works on the state, the
--   parser on the state or on nothing, once there has been an access out of bounds.
-- - CreateFfff: src/create-ffff/create-ffff.c in the same way, and write_ffff_file of
--   src/common/ffff_out.c (CreateFfff/Main).
-- - Sign: sign_tftf of src/sign-tftf/sign.c; Sign/Command is src/sign-tftf/sign-tftf.c, with the
--   files of the command line and the answers to its prompt as lists.
-- - S2config: src/common/s2cfgcore.c, the second-stage configuration and its file.
-- - Tests: the theorems at concrete images, buffers and caches.
--
-- Numbers: `uint32_t` and `size_t` are natural numbers with `% 2 ^ 32` and `% 2 ^ 64` written
-- out where the source computes; a status is a constructor or a Boolean, or a number where
-- its value matters. A C string is the list of its bytes before the terminator, a buffer the
-- list of all its bytes. An access outside a buffer or an array is `none`. Loops run over
-- lists or over the slots of a table, and need no fuel, with these exceptions. The two loops
-- of calc_errk run on 4097 units each, one more than the steps that their bounds allow; the
-- loops of read_ffff_romimage on 33, which double an offset from 1 past 2^32; reverse_buf on
-- the length of the buffer, which is at least one more than half of it, but for the empty
-- buffer; the search for an ELF symbol on one more than the number of sections; the loop of
-- new_ffff_romimage on two more than the number of cached elements; and mkdir_recursive,
-- in write_tftf_file, on one more than the length of the path. The retry loops of
-- ims_generate end only if the random numbers are good: they run on fuel that is an argument,
-- and without enough of it the result is `none`.
--
-- Parameters: ffff.h and tftf.h belong to the boot ROM and are not in the repository; their
-- constants and layouts are the records `Ffff.Format` and `Tftf.Format`, with an argument for
-- the header that stands at an offset of a blob, and the element and section descriptors are
-- records of the fields that the code reads and writes. Where an FFFF header is written in
-- place, the offsets of its fields are the record `Ffff.Image.Build.Layout`. The structures
-- of the second-stage configuration are records too, with `S2config.Layout`. Of OpenSSL, the
-- modulus that it reads from a key file and the record `Sign.OpenSsl` are used. `malloc` is a
-- Boolean that says whether it succeeds, `System` what stat and read return. Of MIRACL, the
-- hash, the random numbers and the operations on big numbers and curves are the record
-- `Ims.Crypto`, and SQLite is the record `Ims.Database.Sqlite`. basename is a function, and
-- getopt_long_only the list of what its calls return, and a program's variables are any type.
-- An ELF file is what libelf shows of it, and the output files are the record
-- `CreateTftf.Output.Disk`, which also says whether a path can be duplicated.
--
-- Not modelled: usage messages, map and print modules, the command lines of s2config
-- and of the display programs, setting up OpenSSL, the IMS test programs' use of MIRACL, the
-- seeding of the random numbers, the private exponents of the RSA key, ftdi and the Python and
-- shell tools.
pub mod Base
pub mod Files
pub mod Util
pub mod Ffff
pub mod Tftf
pub mod Ims
pub mod S2config
pub mod Options
pub mod Sign
pub mod CreateTftf
pub mod CreateFfff
pub mod Tests
