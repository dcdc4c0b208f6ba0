-- ===== src/Package/Spec/Names.antt =====
-- The names that `parse_spec` gives to packages.
use yidika.Base.{
  ◌≡◌, refl, ap, ◌∙◌, Bool, true, false, not, ◌&&◌, Option, none, some, [], ◌∷◌, arith, ◌==◌,
  if◌then◌else◌, Text, codes, subst,
}
use yidika.Base.{strip_prefix}
use yidika.Package.Spec.{
  contains_char, contains_text, after_last_slash, copies_of_git, trim_git, spec, invalid,
  github_url, parse_spec, parse_short,
}

contains_char-after_last_slash : (s : Text) → contains_char b'/' (after_last_slash s) ≡ false
unfolding contains_char after_last_slash
contains_char-after_last_slash [] = refl
contains_char-after_last_slash (c ∷ s) = ground (arith, contains_char-after_last_slash s)

spec-name : {n u name url : Text} → spec n u ≡ spec name url → n ≡ name
spec-name h = cc

-- A name is the part behind the last slash of the specification, of what follows `github:`, or of
-- the address without its `.git`.
name_of_spec :
    (P : Text → Type 0) (text name url : Text)
    → P (after_last_slash (trim_git text))
    → ((t : Text) → strip_prefix (codes "github:") text ≡ some t → P (after_last_slash t))
    → P (after_last_slash text)
    → parse_spec text ≡ spec name url
    → P name
unfolding parse_spec
name_of_spec P text name url whole short plain e =
    cases (contains_text (codes "://") text) (strip_prefix (codes "github:") text) short e
  where
    unquoted :
        (b : Bool)
        → (if b then spec (after_last_slash text) (github_url text) else invalid text)
          ≡ spec name url
        → P name
    unquoted true h = subst P (spec-name h) plain
    unquoted false h = absurd (cc)

    cases :
        (b : Bool) (o : Option Text)
        → ((t : Text) → o ≡ some t → P (after_last_slash t))
        → (if b then spec (after_last_slash (trim_git text)) text else parse_short o text)
          ≡ spec name url
        → P name
    cases true o k h = subst P (spec-name h) whole
    cases false (some t) k h = subst P (spec-name h) (k t refl)
    cases false none k h = unquoted (contains_char b'/' text && not (contains_char 92 text)) h

-- No name that `parse_spec` gives has a slash in it.
pub contains_char-parse_spec :
    (text name url : Text) → parse_spec text ≡ spec name url → contains_char b'/' name ≡ false
contains_char-parse_spec text name url =
    name_of_spec (λ n. contains_char b'/' n ≡ false) text name url
      (contains_char-after_last_slash (trim_git text)) (λ t _. contains_char-after_last_slash t)
      (contains_char-after_last_slash text)

-- The last character of the text is a slash.
abbrev pub ends_in_slash : Text → Bool
ends_in_slash [] = false
ends_in_slash (c ∷ []) = c == b'/'
ends_in_slash (c ∷ d ∷ s) = ends_in_slash (d ∷ s)

contains_char-ends : (s : Text) → ends_in_slash s ≡ true → contains_char b'/' s ≡ true
unfolding contains_char
contains_char-ends [] h = absurd (cc)
contains_char-ends (c ∷ []) h = ground arith
contains_char-ends (c ∷ d ∷ s) h = ground (arith, contains_char-ends (d ∷ s) h)

after_last_slash-ends : (s : Text) → ends_in_slash s ≡ true → after_last_slash s ≡ []
unfolding after_last_slash contains_char
after_last_slash-ends [] h = refl
after_last_slash-ends (c ∷ []) h = ground arith
after_last_slash-ends (c ∷ d ∷ s) h =
    rw (contains_char-ends (d ∷ s) h, after_last_slash) (after_last_slash-ends (d ∷ s) h)

copies_of_git-ends : (s : Text) → ends_in_slash s ≡ true → copies_of_git s ≡ false
unfolding copies_of_git
copies_of_git-ends [] h = absurd (cc)
copies_of_git-ends (a ∷ []) h = refl
copies_of_git-ends (a ∷ b ∷ []) h = refl
copies_of_git-ends (a ∷ b ∷ c ∷ []) h = refl
copies_of_git-ends (a ∷ b ∷ c ∷ d ∷ []) h = ground arith
copies_of_git-ends (a ∷ b ∷ c ∷ d ∷ e ∷ s) h = ground (arith, copies_of_git-ends (e ∷ s) h)

trim_git-ends : (s : Text) → ends_in_slash s ≡ true → trim_git s ≡ s
unfolding trim_git
trim_git-ends [] h = refl
trim_git-ends (c ∷ []) h = ground (arith, copies_of_git-ends (c ∷ []) h)
trim_git-ends (c ∷ d ∷ s) h =
    rw (copies_of_git-ends (c ∷ d ∷ s) h, trim_git) (ap (λ t. c ∷ t) (trim_git-ends (d ∷ s) h))

strip_prefix-ends :
    (p s t : Text)
    → ends_in_slash p ≡ false
    → ends_in_slash s ≡ true
    → strip_prefix p s ≡ some t
    → ends_in_slash t ≡ true
unfolding strip_prefix
strip_prefix-ends [] s t hp hs e = ground arith
strip_prefix-ends (p ∷ ps) [] t hp hs e = absurd (cc)
strip_prefix-ends (p ∷ []) (c ∷ []) t hp hs e = ground arith
strip_prefix-ends (p ∷ q ∷ ps) (c ∷ []) t hp hs e = ground arith
strip_prefix-ends (p ∷ []) (c ∷ d ∷ s) t hp hs e = ground arith
strip_prefix-ends (p ∷ q ∷ ps) (c ∷ d ∷ s) t hp hs e =
    ground (arith, strip_prefix-ends (q ∷ ps) (d ∷ s) t hp hs)

-- A specification that ends in a slash and is accepted gives the empty name.
pub parse_spec-ends_in_slash :
    (text name url : Text) → ends_in_slash text ≡ true → parse_spec text ≡ spec name url → name ≡ []
parse_spec-ends_in_slash text name url h =
    name_of_spec (λ n. n ≡ []) text name url
      (ap after_last_slash (trim_git-ends text h) ∙ after_last_slash-ends text h)
      (λ t e. after_last_slash-ends t (strip_prefix-ends (codes "github:") text t refl h e))
      (after_last_slash-ends text h)
