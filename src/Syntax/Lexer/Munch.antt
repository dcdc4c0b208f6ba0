-- ===== src/Syntax/Lexer/Munch.antt =====
-- A word is read to its end.
use yidika.Base.{
  ℕ, suc, ◌+◌, ◌≡◌, refl, ap, ◌∙◌, Bool, true, false, ◌&&◌, ◌||◌, none, [], ◌∷◌, ◌++◌, arith,
  length, leb, ◌==◌, Text,
}
use yidika.Base.{take, drop, All}
use yidika.Syntax.Lexer.{CharClasses, is_ascii_digit, count_while, lexeme, classify}
use yidika.Syntax.Lexer.Next.{at_quote, fixed, operator, word_char, word, literal, token_at}

-- An ASCII letter or an underscore.
abbrev pub begins_word : ℕ → Bool
begins_word c = (leb b'a' c && leb c b'z') || (leb b'A' c && leb c b'Z') || c == b'_'

fixed_of_word : (c : ℕ) → begins_word c ≡ true → fixed c ≡ none
unfolding fixed
fixed_of_word c h = ground arith

operator_of_word : (c : ℕ) (r : Text) → begins_word c ≡ true → operator c r ≡ none
unfolding operator
operator_of_word c r h = ground arith

dot_of_word : (c : ℕ) → begins_word c ≡ true → (c == b'.') ≡ false
dot_of_word c h = ground arith

at_of_word : (c : ℕ) → begins_word c ≡ true → (c == b'@') ≡ false
at_of_word c h = ground arith

double_of_word : (c : ℕ) → begins_word c ≡ true → (c == b'"') ≡ false
double_of_word c h = ground arith

tick_of_word : (c : ℕ) → begins_word c ≡ true → (c == b'`') ≡ false
tick_of_word c h = ground arith

digit_of_word : (c : ℕ) → begins_word c ≡ true → is_ascii_digit c ≡ false
unfolding is_ascii_digit
digit_of_word c h = ground arith

module _ (u : CharClasses) where
  count_while-All :
      (p : ℕ → Bool) (cs rest : Text)
      → All (λ c. p c ≡ true) cs
      → count_while p rest ≡ 0
      → count_while p (cs ++ rest) ≡ length cs
  unfolding count_while
  count_while-All p [] rest h stop = stop
  count_while-All p (c ∷ cs) rest h stop = rw h.0 (ap suc (count_while-All p cs rest h.1 stop))

  take-length : (cs rest : Text) → take (length cs) (cs ++ rest) ≡ cs
  take-length [] rest = refl
  take-length (c ∷ cs) rest = ap (λ t. c ∷ t) (take-length cs rest)

  starts : (c : ℕ) → begins_word c ≡ true → (u.is_alphabetic c || c == b'_') ≡ true
  starts c h = ground (arith, u.ascii_alphabetic c)

  literal-word :
      (c : ℕ) (r : Text)
      → begins_word c ≡ true
      → (c == b'f' && at_quote r) ≡ false
      → literal u c (c ∷ r) ≡ word u (c ∷ r)
  unfolding literal
  literal-word c r first no_f =
      rw (dot_of_word c first, literal)
        (rw (at_of_word c first) (
          rw (double_of_word c first) (
            rw (tick_of_word c first)
              (rw no_f (rw (digit_of_word c first) (rw (starts c first)))))))

  word_lem :
      (s : Text)
      → word u s
        ≡ lexeme
            (classify (take (1 + count_while (word_char u) (drop 1 s)) s))
            (1 + count_while (word_char u) (drop 1 s))
  unfolding word
  word_lem s = refl

  word_first :
      (c : ℕ) (r : Text)
      → begins_word c ≡ true
      → (c == b'f' && at_quote r) ≡ false
      → token_at u c r ≡ word u (c ∷ r)
  unfolding token_at
  word_first c r first no_f =
      rw (fixed_of_word c first, token_at)
        (rw (operator_of_word c r first) (literal-word c r first no_f))

  word_text :
      (c : ℕ) (cs rest : Text)
      → All (λ d. word_char u d ≡ true) cs
      → count_while (word_char u) rest ≡ 0
      → word u (c ∷ (cs ++ rest)) ≡ lexeme (classify (c ∷ cs)) (length (c ∷ cs))
  word_text c cs rest more stop =
      let all : 1 + count_while (word_char u) (cs ++ rest) ≡ suc (length cs) =
        omega (arith, count_while-All (word_char u) cs rest more stop) in
      word_lem (c ∷ (cs ++ rest)) ∙ rw (all, take-length cs rest) refl

  -- A word that begins with an ASCII letter or an underscore, goes on with word characters, and is
  -- followed by none, is one token: the class of the whole word. (An `f` that a quote follows
  -- begins a format string.)
  pub token_at-word :
      (c : ℕ) (cs rest : Text)
      → begins_word c ≡ true
      → All (λ d. word_char u d ≡ true) cs
      → count_while (word_char u) rest ≡ 0
      → (c == b'f' && at_quote (cs ++ rest)) ≡ false
      → token_at u c (cs ++ rest) ≡ lexeme (classify (c ∷ cs)) (length (c ∷ cs))
  token_at-word c cs rest first more stop no_f =
      word_first c (cs ++ rest) first no_f ∙ word_text c cs rest more stop
