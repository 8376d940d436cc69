-- ===== src/Util/Text/Suffix.antt =====
-- `endswith` and `rchop` agree on what a suffix is.
use bootrom_tools.Base.{
  ℕ, ◌-◌, ◌<◌, ◌≡◌, ◌↔◌, true, List, ◌++◌, some, arith, length, take, drop, same_bytes_iff,
  take-append-drop, length-append, take-append_length, drop-append_length, length-take, append-nil,
  if◌then◌else◌, [],
}
use bootrom_tools.Util.Text.{endswith, rchop}

length-root : (root suffix : List ℕ) → length (root ++ suffix) - length suffix ≡ length root
length-root root suffix = omega (arith, length-append root suffix)

take-root :
    (root suffix : List ℕ) → take (length (root ++ suffix) - length suffix) (root ++ suffix) ≡ root
take-root root suffix = rw (length-root root suffix) (take-append_length root suffix)

drop-root :
    (root suffix : List ℕ)
    → drop (length (root ++ suffix) - length suffix) (root ++ suffix) ≡ suffix
drop-root root suffix = rw (length-root root suffix) (drop-append_length root suffix)

endswith-append :
    (root suffix : List ℕ) → 0 < length root → endswith (some (root ++ suffix)) (some suffix) ≡ true
unfolding endswith
endswith-append root suffix pos = ground (
  arith,
  length-append root suffix,
  drop-root root suffix,
  same_bytes_iff (drop (length (root ++ suffix) - length suffix) (root ++ suffix)) suffix,
)

-- `endswith` holds exactly of a string that is a nonempty string followed by the suffix.
pub endswith_iff :
    (str suffix : List ℕ)
    → (endswith (some str) (some suffix) ≡ true)
      ↔ ((root : List ℕ) × (0 < length root) × (str ≡ root ++ suffix))
unfolding endswith
endswith_iff str suffix =
    let n : ℕ = length str - length suffix in
    (
      (λ e.
          let longer : length suffix < length str = ground arith in
          let ends : drop n str ≡ suffix = ground (arith, same_bytes_iff (drop n str) suffix) in
          (take n str, omega (arith, length-take n str), cc (take-append-drop n str, ends))),
      (λ (root, pos, e). rw e (endswith-append root suffix pos)),
    )

-- `rchop` removes the suffix from exactly the strings that `endswith` accepts: what it leaves,
-- with the suffix behind it in that case, is the string.
pub rchop-endswith :
    (str suffix : List ℕ)
    → rchop str (some suffix) ++ (if endswith (some str) (some suffix) then suffix else []) ≡ str
unfolding rchop endswith
rchop-endswith str suffix =
    let n : ℕ = length str - length suffix in
    ground (arith, same_bytes_iff (drop n str) suffix, take-append-drop n str, append-nil str)
