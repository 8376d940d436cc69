-- ===== src/CreateTftf/Main/Sections.antt =====
-- What every command line leaves in the section cache.
use bootrom_tools.Base.{
  ℕ, ◌-◌, suc, ◌≡◌, refl, sym, ◌∙◌, true, false, List, map, none, some, All, length,
}
use bootrom_tools.Files.{System}
use bootrom_tools.Ffff
use bootrom_tools.Options.{
  Opt, Event, Parser, new_argparse, parse_args, init_optx, secondary_opts, secondary_names,
}
use bootrom_tools.Options.Kept.{parse_args_lem, map-init_optx-IsKept}
use bootrom_tools.Options.Table.{new_argparse_fills}
use bootrom_tools.Tftf.{Format}
use bootrom_tools.Tftf.Cache.{Entry}
use bootrom_tools.Tftf.Cache.Abstract.{abstraction, all_of}
use bootrom_tools.CreateTftf.{State}
use bootrom_tools.CreateTftf.Table.{parse_table, preprocess}
use bootrom_tools.CreateTftf.Order.{HasDistinctTypes, IsOrdered, types_of, IsUnplaced}
use bootrom_tools.CreateTftf.Handlers.{IsGood}
use bootrom_tools.CreateTftf.Setters.{IsGoodState, close_section_if_needed-IsGood}
use bootrom_tools.CreateTftf.Reach.{parse_table-IsKept}
use bootrom_tools.CreateTftf.Main.{V, initial, parse_command_line}

some_injective : {A : Type 0} (x y : A) → some x ≡ some y → x ≡ y
some_injective x y h = cc

module _ (sys : System) (fmt : Format) (ffff : Ffff.Format) (strtoul : List ℕ → ℕ × List ℕ)
    (file_name : List ℕ → sys.FileName) where
  abbrev Program : Type 0
  Program = V sys fmt ffff strtoul file_name

  parse_table_secondary :
      (secondary : List Opt) × (secondary_opts Program (parse_table sys fmt ffff strtoul file_name)
        ≡ some secondary)
  unfolding parse_table secondary_opts secondary_names
  parse_table_secondary = (_, refl)

  -- What `new_argparse` makes of the table.
  parse_table-new_argparse :
      (opts : List Opt) × (new_argparse Program (parse_table sys fmt ffff strtoul file_name)
        ≡ some (map (init_optx Program) (parse_table sys fmt ffff strtoul file_name), opts))
  parse_table-new_argparse =
      let (secondary, e) = parse_table_secondary in
      (_, new_argparse_fills Program (parse_table sys fmt ffff strtoul file_name) secondary e)

  parse_command_line-run :
      (events : List (Event Program)) (s : State sys)
      → parse_command_line sys fmt ffff strtoul file_name events s
        ≡ some (
            parse_args Program
              (length parse_table-new_argparse.0
                - suc
                    (length (map (init_optx Program) (parse_table sys fmt ffff strtoul file_name))))
              (some (preprocess sys fmt ffff strtoul file_name))
              events
              (record {
                optx = map (init_optx Program) (parse_table sys fmt ffff strtoul file_name);
                vars = some s;
                success = true;
                parser_help = false;
                parser_invalid_arg = false;
              }))
  unfolding parse_command_line
  parse_command_line-run events s = rw (parse_command_line, parse_table-new_argparse.1) refl

  module _ (distinct : HasDistinctTypes fmt) where
    preprocess_kept :
        (option : ℕ) (v : Program)
        → IsGoodState sys fmt distinct ffff strtoul file_name v
        → IsGoodState sys fmt distinct ffff strtoul file_name
            (preprocess sys fmt ffff strtoul file_name option v)
    unfolding preprocess
    preprocess_kept option none h = tt
    preprocess_kept option (some s) h =
        close_section_if_needed-IsGood sys fmt distinct ffff strtoul file_name option s h

    initial-IsGood :
        (entries : List (Entry sys))
        → IsGood sys fmt distinct (initial sys fmt ffff strtoul file_name entries)
    initial-IsGood entries = record {
      ordered = tt;
      unblocked = λ e. tt;
      unplaced = λ e. tt;
      allowed = λ e f. tt;
    }

    -- Whatever getopt returns, the parse ends in a state that satisfies the invariant.
    parse_command_line-IsGoodState :
        (entries : List (Entry sys)) (events : List (Event Program)) (p : Parser Program)
        → parse_command_line sys fmt ffff strtoul file_name events
            (initial sys fmt ffff strtoul file_name entries)
          ≡ some p
        → IsGoodState sys fmt distinct ffff strtoul file_name p.vars
    parse_command_line-IsGoodState entries events p h =
        let start : State sys = initial sys fmt ffff strtoul file_name entries in
        let same = some_injective _ p (sym (parse_command_line-run events start) ∙ h) in
        rw (sym same) (
          parse_args_lem Program (IsGoodState sys fmt distinct ffff strtoul file_name) _ _ events _
            preprocess_kept
            (map-init_optx-IsKept Program (IsGoodState sys fmt distinct ffff strtoul file_name) _
              (parse_table-IsKept sys fmt distinct ffff strtoul file_name))
            (initial-IsGood entries))

    parsed-IsGood :
        (entries : List (Entry sys)) (events : List (Event Program)) (p : Parser Program)
        (s : State sys)
        → parse_command_line sys fmt ffff strtoul file_name events
            (initial sys fmt ffff strtoul file_name entries)
          ≡ some p
        → p.vars ≡ some s
        → IsGood sys fmt distinct s
    parsed-IsGood entries events p s h e =
        rw e at (parse_command_line-IsGoodState entries events p h)

    -- Where the section types are different, the options leave the cache, whatever getopt returns
    -- and whether or not they succeed, with no code or data section behind a signature or a
    -- certificate.
    pub parse_command_line-IsOrdered :
        (entries : List (Entry sys)) (events : List (Event Program)) (p : Parser Program)
        (s : State sys)
        → parse_command_line sys fmt ffff strtoul file_name events
            (initial sys fmt ffff strtoul file_name entries)
          ≡ some p
        → p.vars ≡ some s
        → IsOrdered fmt (types_of fmt sys (abstraction sys s.cache))
    parse_command_line-IsOrdered entries events p s h e =
        (parsed-IsGood entries events p s h e).ordered

    -- Where the section types are different, the options leave every signature and certificate in
    -- the cache with the load address that is ignored, whatever getopt returns, if no code or data
    -- option was refused.
    pub parse_command_line-IsUnplaced :
        (entries : List (Entry sys)) (events : List (Event Program)) (p : Parser Program)
        (s : State sys)
        → parse_command_line sys fmt ffff strtoul file_name events
            (initial sys fmt ffff strtoul file_name entries)
          ≡ some p
        → p.vars ≡ some s
        → s.code_data_while_blocked ≡ false
        → All (IsUnplaced fmt sys) (all_of sys (abstraction sys s.cache))
    parse_command_line-IsUnplaced entries events p s h e none_refused =
        (parsed-IsGood entries events p s h e).unplaced none_refused
