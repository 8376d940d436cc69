-- ===== src/Options/Table.antt =====
-- The table for getopt.
use native.Mathlib.Nat.{zero-add, suc-add}
use bootrom_tools.Base.{
  ℕ, zero, suc, ◌+◌, ◌≡◌, ◌∙◌, refl, sym, ap, List, [], ◌∷◌, ◌++◌, map, some, arith, length, set,
  replicate, length-append, length-replicate, append_assoc,
}
use bootrom_tools.Options.{
  Opt, end_of_table, put_opt, put_opts, Optionx, primary_opt, init_optx, secondary_opts,
  new_argparse,
}

set-at :
    (pre : List Opt) (a v : Opt) (post : List Opt)
    → set (pre ++ (a ∷ post)) (length pre) v ≡ pre ++ (v ∷ post)
set-at [] a v post = refl
set-at (x ∷ pre) a v post = ap (◌∷◌ x) (set-at pre a v post)

put_opts-step :
    (opts opts' rest : List Opt) (i : ℕ) (opt : Opt)
    → put_opt opts i opt ≡ some opts'
    → put_opts opts i (opt ∷ rest) ≡ put_opts opts' (i + 1) rest
unfolding put_opts
put_opts-step opts opts' rest i opt h = ground (arith, h)

put_opts-nil : (opts : List Opt) (i : ℕ) → put_opts opts i [] ≡ some opts
unfolding put_opts
put_opts-nil opts i = refl

put_opt-at :
    (pre : List Opt) (a v : Opt) (post : List Opt)
    → put_opt (pre ++ (a ∷ post)) (length pre) v ≡ some (pre ++ (v ∷ post))
put_opt-at pre a v post = ground (arith, length-append pre (a ∷ post), set-at pre a v post)

-- A loop that writes as many slots as there are cells.
put_opts-fill :
    (rest cells pre post : List Opt) (i : ℕ)
    → i ≡ length pre
    → length cells ≡ length rest
    → put_opts (pre ++ (cells ++ post)) i rest ≡ some (pre ++ (rest ++ post))
put_opts-fill [] [] pre post i h size = put_opts-nil (pre ++ post) i
put_opts-fill [] (c ∷ cells) pre post i h size = absurd (omega arith)
put_opts-fill (opt ∷ rest) [] pre post i h size = absurd (omega arith)
put_opts-fill (opt ∷ rest) (c ∷ cells) pre post i h size =
    let first : put_opt (pre ++ (c ∷ (cells ++ post))) i opt
        ≡ some (pre ++ (opt ∷ (cells ++ post))) =
      rw h (put_opt-at pre c opt (cells ++ post)) in
    let regroup : pre ++ (opt ∷ (cells ++ post)) ≡ (pre ++ (opt ∷ [])) ++ (cells ++ post) =
      sym (append_assoc pre (opt ∷ []) (cells ++ post)) in
    let later =
      put_opts-fill rest cells (pre ++ (opt ∷ [])) post (i + 1)
        (omega (arith, length-append pre (opt ∷ []))) (omega arith) in
    put_opts-step (pre ++ (c ∷ (cells ++ post))) (pre ++ (opt ∷ (cells ++ post))) rest i opt first
    ∙ (ap (λ opts. put_opts opts (i + 1) rest) regroup
        ∙ (later ∙ ap some (append_assoc pre (opt ∷ []) (rest ++ post))))

replicate-add : (m n : ℕ) (a : Opt) → replicate (m + n) a ≡ replicate m a ++ replicate n a
replicate-add zero n a = rw zero-add refl
replicate-add (suc m) n a = rw suc-add (ap (◌∷◌ a) (replicate-add m n a))

module _ (Vars : Type 0) where
  length-map : (optx : List (Optionx Vars)) → length (map (primary_opt Vars) optx) ≡ length optx
  length-map [] = refl
  length-map (o ∷ optx) = ap suc (length-map optx)

  -- Where every option has a name, `parse_args_init` writes within the table that `new_argparse`
  -- allocates and fills it: the primary names in the order of the options, the secondary names, and
  -- the end marker.
  pub new_argparse_fills :
      (optx : List (Optionx Vars)) (secondary : List Opt)
      → secondary_opts Vars optx ≡ some secondary
      → new_argparse Vars optx
        ≡ some (
          map (init_optx Vars) optx,
          map (primary_opt Vars) optx ++ (secondary ++ (end_of_table ∷ [])),
        )
  unfolding new_argparse
  new_argparse_fills optx secondary h =
      let n = length optx in
      let s = length secondary in
      let primary = map (primary_opt Vars) optx in
      let blanks = replicate s end_of_table in
      let slots : replicate (suc n + s) end_of_table
          ≡ replicate n end_of_table ++ (blanks ++ (end_of_table ∷ [])) =
        let count : suc n + s ≡ n + (s + 1) = omega arith in
        rw count (
          replicate-add n (s + 1) end_of_table
          ∙ ap (λ l. replicate n end_of_table ++ l) (replicate-add s 1 end_of_table)) in
      let first : put_opts (replicate (suc n + s) end_of_table) 0 primary
          ≡ some (primary ++ (blanks ++ (end_of_table ∷ []))) =
        rw slots (
          put_opts-fill primary (replicate n end_of_table) [] (blanks ++ (end_of_table ∷ [])) 0 refl
            (length-replicate n end_of_table ∙ sym (length-map optx))) in
      let second : put_opts (primary ++ (blanks ++ (end_of_table ∷ []))) n secondary
          ≡ some (primary ++ (secondary ++ (end_of_table ∷ []))) =
        put_opts-fill secondary blanks primary (end_of_table ∷ []) n (sym (length-map optx))
          (length-replicate s end_of_table) in
      let third : put_opt (primary ++ (secondary ++ (end_of_table ∷ []))) (n + s) end_of_table
          ≡ some (primary ++ (secondary ++ (end_of_table ∷ []))) =
        let place : n + s ≡ length (primary ++ secondary) =
          omega (arith, length-append primary secondary, length-map optx) in
        rw (place, sym (append_assoc primary secondary (end_of_table ∷ [])))
          (put_opt-at (primary ++ secondary) end_of_table end_of_table []) in
      ground (arith, h, first, second, third)
