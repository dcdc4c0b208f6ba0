-- ===== src/Syntax/Lexer/Panics.antt =====
-- Exactly where the lexer panics: at an opening quote that is the last character of the source.
use yidika.Base.{if_both}
use yidika.Base.{
  ℕ, ◌+◌, ◌-◌, ◌≡◌, refl, sym, ◌∙◌, inl, inr, Bool, true, false, not, ◌&&◌, ◌||◌, Option, none,
  some, List, [], ◌∷◌, arith, ltb, leb, ◌==◌, Bool-cases, Text, ==_iff,
}
use yidika.Base.{take, drop}
use yidika.Syntax.Token.{Token}
use yidika.Syntax.Lexer.{
  CharClasses, is_ascii_digit, peek_is, count_while, Lexeme, lexeme, panic, quoted, backtick,
  f_string, slice,
}
use yidika.Syntax.Lexer.Next.{
  of_slice, at_quote, with_suffix, starts_with_digit, number, fixed, pick, doubled, dot, operator,
  char_or_string, backtick_string, format_string, char_token, word_char, word, symbol, literal,
  token_at,
}

abbrev pub is_panic : Lexeme → Bool
is_panic panic = true
is_panic (lexeme t n) = false

abbrev pub is_empty : Text → Bool
is_empty [] = true
is_empty (c ∷ r) = false

-- The first character opens a backtick string or a character literal and nothing follows it, or it
-- is the `f` of a format string and nothing follows the quote behind it.
abbrev pub opens_at_end : ℕ → Text → Bool
opens_at_end c [] = c == b'`' || c == 39
opens_at_end c (q ∷ []) = c == b'f' && (q == b'"' || q == 39 || q == b'`')
opens_at_end c (q ∷ d ∷ r) = false

data Fine : Lexeme → Type 0 where
  fine : {t : Token} {n : ℕ} → Fine (lexeme t n)

Fine-is_panic : {l : Lexeme} → Fine l → is_panic l ≡ false
Fine-is_panic fine = refl

with_suffix-Fine : (f g : Text → Token) (s : Text) (n : ℕ) → Fine (with_suffix f g s n)
unfolding with_suffix
with_suffix-Fine f g s n = if_both Fine (peek_is b'i' (drop n s)) fine fine

number-Fine : (s : Text) → Fine (number s)
unfolding number
number-Fine s =
    if_both Fine (peek_is b'x' (drop 1 s) || peek_is b'X' (drop 1 s))
      (with_suffix-Fine Token.hex_lit Token.imag_int s _)
      (if_both Fine (peek_is b'.' (drop _ s) && starts_with_digit (drop 1 (drop _ s)))
        (with_suffix-Fine Token.real_lit Token.imag_real s _)
        (with_suffix-Fine Token.int_lit Token.imag_int s _))

dot-Fine : (s : Text) → Fine (dot s)
unfolding dot
dot-Fine s =
    if_both Fine (peek_is b'.' (drop 1 s))
      (if_both Fine (peek_is b'.' (drop 1 (drop 1 s))) fine fine)
      (if_both Fine (starts_with_digit (drop 1 s))
        (with_suffix-Fine Token.real_lit Token.imag_real s _) fine)

pick-Fine : (r : Text) (more : List (ℕ × Token)) (d : Token) → Fine (pick r more d)
unfolding pick
pick-Fine r [] d = fine
pick-Fine r ((c, t) ∷ more) d = if_both Fine (peek_is c r) fine (pick-Fine r more d)

doubled-Fine : (c : ℕ) (t u : Token) (l : Lexeme) (r : Text) → Fine l → Fine (doubled c t u l r)
doubled-Fine c t u l r h =
    if_both Fine (peek_is c r) (if_both Fine (peek_is b'=' (drop 1 r)) fine fine) h

symbol-Fine : (u : CharClasses) (s : Text) → Fine (symbol u s)
unfolding symbol
symbol-Fine u s = if_both Fine (ltb 0 (count_while (word_char u) (drop 1 s))) fine fine

data OptFine : Option Lexeme → Type 0 where
  absent : OptFine none
  present : {l : Lexeme} → Fine l → OptFine (some l)

operator-Fine : (c : ℕ) (r : Text) → OptFine (operator c r)
unfolding operator
operator-Fine c r = if_both OptFine (c == b':') (present (pick-Fine r _ _)) (
    if_both OptFine (c == b'+') (present (pick-Fine r _ _)) (
      if_both OptFine (c == b'-') (present (pick-Fine r _ _)) (
        if_both OptFine (c == b'*') (present (doubled-Fine b'*' _ _ _ r (pick-Fine r _ _))) (
          if_both OptFine (c == b'/') (present (pick-Fine r _ _)) (
            if_both OptFine (c == b'%') (present (pick-Fine r _ _)) (
              if_both OptFine (c == b'^') (present (pick-Fine r _ _)) (
                if_both OptFine (c == b'!') (present (pick-Fine r _ _)) (
                  if_both OptFine (c == b'=') (present (pick-Fine r _ _)) (
                    if_both OptFine (c == b'<')
                      (present (doubled-Fine b'<' _ _ _ r (pick-Fine r _ _)))
                      (if_both OptFine (c == b'>')
                        (present (doubled-Fine b'>' _ _ _ r (pick-Fine r _ _)))
                        (if_both OptFine (c == b'&') (present (pick-Fine r _ _)) (
                          if_both OptFine (c == b'|') (present (pick-Fine r _ _)) (
                            if_both OptFine (c == b'?') (present (pick-Fine r _ _))
                              (absent))))))))))))))

of_slice-panic :
    (f : Text → Token) (from to : ℕ) (s : Text) (n : ℕ)
    → is_panic (of_slice f from to s n) ≡ not (leb from to)
unfolding of_slice slice
of_slice-panic f from to s n = ground arith

backtick-panic : (c : ℕ) (r : Text) → is_panic (backtick_string (c ∷ r)) ≡ is_empty r
unfolding backtick_string backtick
backtick-panic c [] = of_slice-panic Token.backtick_str 1 0 (c ∷ []) 1
backtick-panic c (d ∷ r) =
    of_slice-panic Token.backtick_str 1 (1 + backtick (d ∷ r) - 1) (c ∷ d ∷ r)
      (1 + backtick (d ∷ r))
    ∙ ground arith

quote-panic : (c : ℕ) (r : Text) → is_panic (char_or_string (c ∷ r)) ≡ is_empty r
unfolding char_or_string quoted
quote-panic c [] = of_slice-panic (char_token (c ∷ [])) 1 0 (c ∷ []) 1
quote-panic c (d ∷ []) = of_slice-panic (char_token (c ∷ d ∷ [])) 1 1 (c ∷ d ∷ []) 2 ∙ ground arith
quote-panic c (d ∷ e ∷ r) =
    of_slice-panic (char_token (take (1 + quoted 39 (d ∷ e ∷ r)) (c ∷ d ∷ e ∷ r))) 1
      (1 + quoted 39 (d ∷ e ∷ r) - 1) (c ∷ d ∷ e ∷ r) (1 + quoted 39 (d ∷ e ∷ r))
    ∙ ground arith

format-panic : (c q : ℕ) (r : Text) → is_panic (format_string (c ∷ q ∷ r)) ≡ is_empty r
unfolding format_string f_string
format-panic c q [] = of_slice-panic Token.f_str_lit 2 1 (c ∷ q ∷ []) 2
format-panic c q (d ∷ r) =
    of_slice-panic Token.f_str_lit 2 (2 + f_string q 0 (d ∷ r) - 1) (c ∷ q ∷ d ∷ r)
      (2 + f_string q 0 (d ∷ r))
    ∙ ground arith

module _ (u : CharClasses) where
  -- The first character opens none of the three literals that can panic.
  literal-Fine :
      (c : ℕ) (r : Text)
      → (c == b'`') ≡ false
      → (c == 39) ≡ false
      → (c == b'f') ≡ false
      → Fine (literal u c (c ∷ r))
  unfolding literal word
  literal-Fine c r no_tick no_quote no_f = if_both Fine (c == b'.') (dot-Fine (c ∷ r)) (
      if_both Fine (c == b'@') (symbol-Fine u (c ∷ r)) (
        if_both Fine (c == b'"') fine (
          rw (no_tick, no_f, no_quote)
            (if_both Fine (is_ascii_digit c) (number-Fine (c ∷ r))
              (if_both Fine (u.is_alphabetic c || c == b'_') fine fine)))))

  token_at-Fine :
      (c : ℕ) (r : Text)
      → (c == b'`') ≡ false
      → (c == 39) ≡ false
      → (c == b'f') ≡ false
      → Fine (token_at u c r)
  unfolding token_at
  token_at-Fine c r no_tick no_quote no_f =
      by_cases (fixed c) (operator-Fine c r) (literal-Fine c r no_tick no_quote no_f)
    where
      by_cases :
          (f : Option Token) {o : Option Lexeme} {l : Lexeme}
          → OptFine o
          → Fine l
          → Fine (elim f [ some t ↦ lexeme t 1 | none ↦ elim o [ some m ↦ m | none ↦ l ] ])
      by_cases (some t) o h = fine
      by_cases none absent h = h
      by_cases none (present k) h = k

  tick-panic : (r : Text) → is_panic (token_at u b'`' r) ≡ opens_at_end b'`' r
  unfolding token_at fixed operator literal
  tick-panic [] = backtick-panic b'`' []
  tick-panic (d ∷ []) = backtick-panic b'`' (d ∷ [])
  tick-panic (d ∷ e ∷ r) = backtick-panic b'`' (d ∷ e ∷ r)

  single-panic : (r : Text) → is_panic (token_at u 39 r) ≡ opens_at_end 39 r
  unfolding token_at fixed operator literal
  single-panic [] = rw (u.ascii_alphabetic 39 (omega arith)) (quote-panic 39 [])
  single-panic (d ∷ []) = rw (u.ascii_alphabetic 39 (omega arith)) (quote-panic 39 (d ∷ []))
  single-panic (d ∷ e ∷ r) = rw (u.ascii_alphabetic 39 (omega arith)) (quote-panic 39 (d ∷ e ∷ r))

  f-panic : (r : Text) → is_panic (token_at u b'f' r) ≡ opens_at_end b'f' r
  unfolding token_at fixed operator literal word
  f-panic [] = rw (u.ascii_alphabetic b'f' (omega arith))
  f-panic (q ∷ r) = elim (Bool-cases (at_quote (q ∷ r))) [
    | inl e ↦ rw e (format-panic b'f' q r ∙ ends r e)
    | inr e ↦ rw (e, u.ascii_alphabetic b'f' (omega arith)) (other r e)
  ]
    where
      ends : (r : Text) → at_quote (q ∷ r) ≡ true → is_empty r ≡ opens_at_end b'f' (q ∷ r)
      ends [] e = ground arith
      ends (d ∷ r) e = refl

      other : (r : Text) → at_quote (q ∷ r) ≡ false → false ≡ opens_at_end b'f' (q ∷ r)
      other [] e = ground arith
      other (d ∷ r) e = refl

  -- The lexer panics at a position exactly if what is left of the source there is a backtick or a
  -- single quote alone, or an `f` and one quote (`"`, `'` or a backtick) alone.
  pub is_panic-token_at : (c : ℕ) (r : Text) → is_panic (token_at u c r) ≡ opens_at_end c r
  is_panic-token_at c r = elim (Bool-cases (c == b'`')) [
    | inl tick ↦ rw ((==_iff c b'`').0 tick) (tick-panic r)
    | inr no_tick ↦ elim (Bool-cases (c == 39)) [
      | inl single ↦ rw ((==_iff c 39).0 single) (single-panic r)
      | inr no_quote ↦ elim (Bool-cases (c == b'f')) [
        | inl f ↦ rw ((==_iff c b'f').0 f) (f-panic r)
        | inr no_f ↦
            Fine-is_panic (token_at-Fine c r no_tick no_quote no_f)
            ∙ sym (closed c r no_tick no_quote no_f)
      ]
    ]
  ]
    where
      closed :
          (c : ℕ) (r : Text)
          → (c == b'`') ≡ false
          → (c == 39) ≡ false
          → (c == b'f') ≡ false
          → opens_at_end c r ≡ false
      closed c [] a b d = ground arith
      closed c (q ∷ []) a b d = ground arith
      closed c (q ∷ e ∷ r) a b d = refl
