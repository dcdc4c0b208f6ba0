-- ===== src/Package/Spec.antt =====
-- src/package/mod.rs: `parse_spec`, with the functions of `str` that it calls.
pub mod Names
use yidika.Base.{
  ℕ, zero, suc, ◌+◌, Bool, true, false, not, ◌&&◌, ◌||◌, Option, none, some, List, [], ◌∷◌, ◌++◌,
  ◌==◌, if◌then◌else◌, Text, codes, text_eq, strip_prefix, length, take,
}

-- `s.contains(c)`
pub contains_char : ℕ → Text → Bool
contains_char c [] = false
contains_char c (d ∷ s) = d == c || contains_char c s

abbrev pub is_some : Option Text → Bool
is_some none = false
is_some (some s) = true

-- `s.contains(needle)`
pub contains_text : Text → Text → Bool
unfolding strip_prefix
contains_text needle [] = is_some (strip_prefix needle [])
contains_text needle (c ∷ s) = is_some (strip_prefix needle (c ∷ s)) || contains_text needle s

-- `s.rsplit('/').next()`: what stands behind the last slash, or all of `s`.
pub after_last_slash : Text → Text
unfolding contains_char
after_last_slash [] = []
after_last_slash (c ∷ s) =
    if contains_char b'/' s then after_last_slash s else if c == b'/' then s else c ∷ s

abbrev pub dot_git : Text
dot_git = codes ".git"

-- `s.trim_end_matches(".git")` takes the suffix away as often as it stands there: the text that is
-- left when the rest is a number of copies of it.
pub copies_of_git : Text → Bool
copies_of_git [] = true
copies_of_git (a ∷ b ∷ c ∷ d ∷ s) =
    a == b'.' && b == b'g' && c == b'i' && d == b't' && copies_of_git s
copies_of_git _ = false

pub trim_git : Text → Text
unfolding copies_of_git
trim_git [] = []
trim_git (c ∷ s) = if copies_of_git (c ∷ s) then [] else c ∷ trim_git s

-- The package's name and the address to clone it from, or the refusal of the specification.
pub data Spec : Type 0 where
  spec : Text → Text → Spec
  invalid : Text → Spec

abbrev pub github_url : Text → Text
github_url s = codes "https://github.com/" ++ (s ++ dot_git)

-- The branches behind the test for `://`; the first argument is the text behind `github:`, if it
-- begins so.
pub parse_short : Option Text → Text → Spec
parse_short (some shorthand) s = spec (after_last_slash shorthand) (github_url shorthand)
parse_short none s =
    if contains_char b'/' s && not (contains_char 92 s)
    then spec (after_last_slash s) (github_url s)
    else invalid s

unfoldable pub parse_spec : Text → Spec
unfolding contains_text contains_char after_last_slash trim_git strip_prefix parse_short
parse_spec s =
    if contains_text (codes "://") s
    then spec (after_last_slash (trim_git s)) s
    else parse_short (strip_prefix (codes "github:") s) s
