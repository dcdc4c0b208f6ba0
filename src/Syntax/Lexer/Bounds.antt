-- ===== src/Syntax/Lexer/Bounds.antt =====
-- Every token takes at least one character and no more than there are.
use yidika.Base.{
  if_both, ℕ, suc, ◌+◌, ◌-◌, ◌%◌, ◌^◌, ◌≤◌, ◌<◌, ◌≡◌, refl, inl, inr, Bool, true, false, ◌&&◌, ◌||◌,
  Option, none, some, List, [], ◌∷◌, arith, length, ltb, ◌==◌, if◌then◌else◌, Bool-cases,
  Option-cases, Text,
}
use yidika.Base.{drop, length-drop}
use yidika.Syntax.Token.{Token}
use yidika.Syntax.Lexer.{
  CharClasses, is_ascii_digit, peek_is, count_while, Lexeme, lexeme, panic, quoted, backtick,
  f_string, slice,
}
use yidika.Syntax.Lexer.Next.{
  of_slice, digit_or_underscore, hexdigit_or_underscore, with_suffix, starts_with_digit, number,
  fixed, pick, dot, operator, char_or_string, backtick_string, format_string, word_char, word,
  symbol, literal, token_at, at_quote, doubled,
}

count_while-le : (p : ℕ → Bool) (s : Text) → count_while p s ≤ length s
unfolding count_while
count_while-le p [] = omega arith
count_while-le p (c ∷ r) = ground (arith, count_while-le p r)

quoted-le : (q : ℕ) (s : Text) → quoted q s ≤ length s
unfolding quoted
quoted-le q [] = omega arith
quoted-le q (c ∷ []) = omega arith
quoted-le q (c ∷ d ∷ r) = ground (arith, quoted-le q r, quoted-le q (d ∷ r))

backtick-le : (s : Text) → backtick s ≤ length s
unfolding backtick
backtick-le [] = omega arith
backtick-le (c ∷ r) = ground (arith, backtick-le r)

f_string-le : (q depth : ℕ) (s : Text) → f_string q depth s ≤ length s
unfolding f_string
f_string-le q depth [] = omega arith
f_string-le q depth (c ∷ r) = elim (Bool-cases (c == q && depth == 0)) [
  | inl e ↦ rw (e, f_string) (omega arith)
  | inr e ↦
      rw (e, f_string)
        (omega (
          arith,
          f_string-le q
              (if c == b'{'
                then (depth + 1) % 2 ^ 32
                else if c == b'}' && ltb 0 depth
                then depth - 1
                else depth)
              r,
        ))
]

-- A token takes at least one and at most `length s` characters.
pub data InBounds (s : Text) : Lexeme → Type 0 where
  no_token : InBounds s panic
  within : {t : Token} {n : ℕ} → (0 < n) × (n ≤ length s) → InBounds s (lexeme t n)

peek_is-length : (c : ℕ) (s : Text) → peek_is c s ≡ true → 0 < length s
peek_is-length c [] h = absurd (cc)
peek_is-length c (d ∷ r) h = omega arith

with_suffix-InBounds :
    (f g : Text → Token) (s : Text) (n : ℕ)
    → 0 < n
    → n ≤ length s
    → InBounds s (with_suffix f g s n)
unfolding with_suffix
with_suffix-InBounds f g s n h k = elim (Bool-cases (peek_is b'i' (drop n s))) [
  | inl e ↦ rw e (within (omega (arith, peek_is-length b'i' (drop n s) e, length-drop n s)))
  | inr e ↦ rw e (within (h, k))
]

of_slice-InBounds :
    (f : Text → Token) (from to : ℕ) (s : Text) (n : ℕ)
    → 0 < n
    → n ≤ length s
    → InBounds s (of_slice f from to s n)
unfolding of_slice
of_slice-InBounds f from to s n h k = elim (Option-cases (slice from to s)) [
  | inl e ↦ rw (e, of_slice) no_token
  | inr (t, e) ↦ rw (e, of_slice) (within (h, k))
]

pick-InBounds :
    (c : ℕ) (r : Text) (more : List (ℕ × Token)) (d : Token) → InBounds (c ∷ r) (pick r more d)
unfolding pick
pick-InBounds c r [] d = within (omega arith)
pick-InBounds c r ((e, t) ∷ more) d = elim (Bool-cases (peek_is e r)) [
  | inl h ↦ rw h (within (omega (arith, peek_is-length e r h)))
  | inr h ↦ rw h (pick-InBounds c r more d)
]

drop-length : (n : ℕ) (s : Text) → n ≤ length s → length (drop n s) + n ≡ length s
drop-length n s h = omega (arith, length-drop n s)

number_head :
    (r : Text) (h : ℕ)
    → h ≤ length r
    → 1 + h + count_while hexdigit_or_underscore (drop h r) ≤ suc (length r)
number_head r h k =
    omega (arith, drop-length h r k, count_while-le hexdigit_or_underscore (drop h r))

hex_mark : (r : Text) → (if (peek_is b'x' r || peek_is b'X' r) then 1 else 0) ≤ length r
hex_mark [] = omega arith
hex_mark (c ∷ r) = ground arith

starts_with_digit-length : (s : Text) → starts_with_digit s ≡ true → 0 < length s
starts_with_digit-length [] h = absurd (cc)
starts_with_digit-length (c ∷ r) h = omega arith

-- The branches of `number` behind its test for a hexadecimal number, at `n` characters.
number_tail :
    (s : Text) (n : ℕ)
    → 0 < n
    → n ≤ length s
    → InBounds s (
        if peek_is b'.' (drop n s) && starts_with_digit (drop 1 (drop n s))
        then with_suffix Token.real_lit Token.imag_real s
            (n + 1 + count_while digit_or_underscore (drop 1 (drop n s)))
        else with_suffix Token.int_lit Token.imag_int s n)
number_tail s n pos h = elim (Bool-cases (peek_is b'.' (drop n s))) [
  | inl e ↦ rw e (
      if_both (InBounds s) (starts_with_digit (drop 1 (drop n s)))
        (with_suffix-InBounds _ _ s _ (omega arith) (
          omega (
            arith,
            drop-length n s h,
            drop-length 1 (drop n s) (peek_is-length b'.' (drop n s) e),
            count_while-le digit_or_underscore (drop 1 (drop n s)),
          )))
        (with_suffix-InBounds _ _ s n pos h))
  | inr e ↦ rw e (with_suffix-InBounds _ _ s n pos h)
]

number-InBounds : (c : ℕ) (r : Text) → InBounds (c ∷ r) (number (c ∷ r))
unfolding number
number-InBounds c r =
    let h : ℕ = if (peek_is b'x' r || peek_is b'X' r) then 1 else 0 in
    let n = 1 + h + count_while hexdigit_or_underscore (drop h r) in
    if_both (InBounds (c ∷ r)) (peek_is b'x' r || peek_is b'X' r)
      (with_suffix-InBounds Token.hex_lit Token.imag_int (c ∷ r) n (omega arith)
        (number_head r h (hex_mark r)))
      (number_tail (c ∷ r) n (omega arith) (number_head r h (hex_mark r)))

dot-InBounds : (c : ℕ) (r : Text) → InBounds (c ∷ r) (dot (c ∷ r))
unfolding dot
dot-InBounds c [] = within (omega arith)
dot-InBounds c (d ∷ []) = elim (Bool-cases (d == b'.')) [
  | inl e ↦ rw e (within (omega arith))
  | inr e ↦ rw e (
      if_both (InBounds (c ∷ d ∷ [])) (is_ascii_digit d)
        (with_suffix-InBounds Token.real_lit Token.imag_real (c ∷ d ∷ [])
          (2 + count_while digit_or_underscore []) (omega arith)
          (omega (arith, count_while-le digit_or_underscore [])))
        (within (omega arith)))
]
dot-InBounds c (d ∷ e ∷ r) =
    if_both (InBounds (c ∷ d ∷ e ∷ r)) (d == b'.')
      (if_both (InBounds (c ∷ d ∷ e ∷ r)) (e == b'.') (within (omega arith)) (within (omega arith)))
      (if_both (InBounds (c ∷ d ∷ e ∷ r)) (is_ascii_digit d)
        (with_suffix-InBounds Token.real_lit Token.imag_real (c ∷ d ∷ e ∷ r)
          (2 + count_while digit_or_underscore (e ∷ r)) (omega arith)
          (omega (arith, count_while-le digit_or_underscore (e ∷ r))))
        (within (omega arith)))

doubled-InBounds :
    (c d : ℕ) (r : Text) (t u : Token) (l : Lexeme)
    → InBounds (c ∷ r) l
    → InBounds (c ∷ r) (doubled d t u l r)
doubled-InBounds c d [] t u l h = h
doubled-InBounds c d (e ∷ []) t u l h =
    if_both (InBounds (c ∷ e ∷ [])) (e == d) (within (omega arith)) h
doubled-InBounds c d (e ∷ e' ∷ r) t u l h =
    if_both (InBounds (c ∷ e ∷ e' ∷ r)) (e == d)
      (if_both (InBounds (c ∷ e ∷ e' ∷ r)) (e' == b'=') (within (omega arith))
        (within (omega arith)))
      h

abbrev OptInBounds : Text → Option Lexeme → Type 0
OptInBounds s none = Unit {0}
OptInBounds s (some l) = InBounds s l

operator-InBounds : (c : ℕ) (r : Text) → OptInBounds (c ∷ r) (operator c r)
unfolding operator
operator-InBounds c r = if_both (OptInBounds (c ∷ r)) (c == b':') (pick-InBounds c r _ _) (
    if_both (OptInBounds (c ∷ r)) (c == b'+') (pick-InBounds c r _ _) (
      if_both (OptInBounds (c ∷ r)) (c == b'-') (pick-InBounds c r _ _) (
        if_both (OptInBounds (c ∷ r)) (c == b'*')
          (doubled-InBounds c b'*' r _ _ _ (pick-InBounds c r _ _))
          (if_both (OptInBounds (c ∷ r)) (c == b'/') (pick-InBounds c r _ _) (
            if_both (OptInBounds (c ∷ r)) (c == b'%') (pick-InBounds c r _ _) (
              if_both (OptInBounds (c ∷ r)) (c == b'^') (pick-InBounds c r _ _) (
                if_both (OptInBounds (c ∷ r)) (c == b'!') (pick-InBounds c r _ _) (
                  if_both (OptInBounds (c ∷ r)) (c == b'=') (pick-InBounds c r _ _) (
                    if_both (OptInBounds (c ∷ r)) (c == b'<')
                      (doubled-InBounds c b'<' r _ _ _ (pick-InBounds c r _ _))
                      (if_both (OptInBounds (c ∷ r)) (c == b'>')
                        (doubled-InBounds c b'>' r _ _ _ (pick-InBounds c r _ _))
                        (if_both (OptInBounds (c ∷ r)) (c == b'&') (pick-InBounds c r _ _) (
                          if_both (OptInBounds (c ∷ r)) (c == b'|') (pick-InBounds c r _ _) (
                            if_both (OptInBounds (c ∷ r)) (c == b'?') (pick-InBounds c r _ _)
                              (tt))))))))))))))

and_false : (b : Bool) → b && false ≡ false
and_false true = refl
and_false false = refl

module _ (u : CharClasses) where
  symbol-InBounds : (c : ℕ) (r : Text) → InBounds (c ∷ r) (symbol u (c ∷ r))
  unfolding symbol
  symbol-InBounds c r =
      if_both (InBounds (c ∷ r)) (ltb 0 (count_while (word_char u) r))
        (within (omega (arith, count_while-le (word_char u) r))) (within (omega arith))

  format-InBounds :
      (c : ℕ) (r : Text) → at_quote r ≡ true → InBounds (c ∷ r) (format_string (c ∷ r))
  unfolding format_string
  format-InBounds c [] h = absurd (cc)
  format-InBounds c (q ∷ r) h =
      of_slice-InBounds Token.f_str_lit 2 _ (c ∷ q ∷ r) (2 + f_string q 0 r) (omega arith)
        (omega (arith, f_string-le q 0 r))

  literal-InBounds : (c : ℕ) (r : Text) → InBounds (c ∷ r) (literal u c (c ∷ r))
  unfolding literal word char_or_string backtick_string
  literal-InBounds c r = if_both (InBounds (c ∷ r)) (c == b'.') (dot-InBounds c r) (
      if_both (InBounds (c ∷ r)) (c == b'@') (symbol-InBounds c r) (
        if_both (InBounds (c ∷ r)) (c == b'"') (within (omega (arith, quoted-le b'"' r))) (
          if_both (InBounds (c ∷ r)) (c == b'`')
            (of_slice-InBounds _ 1 _ (c ∷ r) (1 + backtick r) (omega arith)
              (omega (arith, backtick-le r)))
            (format_case (
              if_both (InBounds (c ∷ r)) (is_ascii_digit c) (number-InBounds c r) (
                if_both (InBounds (c ∷ r)) (u.is_alphabetic c || c == b'_')
                  (within (omega (arith, count_while-le (word_char u) r)))
                  (if_both (InBounds (c ∷ r)) (c == 39)
                    (of_slice-InBounds _ 1 _ (c ∷ r) (1 + quoted 39 r) (omega arith)
                      (omega (arith, quoted-le 39 r)))
                    (within (omega arith)))))))))
    where
      format_case :
          {l : Lexeme}
          → InBounds (c ∷ r) l
          → InBounds (c ∷ r) (if c == b'f' && at_quote r then format_string (c ∷ r) else l)
      format_case {l} h = elim (Bool-cases (at_quote r)) [
        | inl e ↦ rw e (if_both (InBounds (c ∷ r)) (c == b'f' && true) (format-InBounds c r e) h)
        | inr e ↦ rw (e, and_false (c == b'f')) h
      ]

  pub token_at-InBounds : (c : ℕ) (r : Text) → InBounds (c ∷ r) (token_at u c r)
  unfolding token_at
  token_at-InBounds c r = from_fixed (fixed c) (operator c r) (operator-InBounds c r)
    where
      from_fixed :
          (f : Option Token) (o : Option Lexeme)
          → OptInBounds (c ∷ r) o
          → InBounds (c ∷ r) (elim f [
            | some t ↦ lexeme t 1
            | none ↦ elim o [ some l ↦ l | none ↦ literal u c (c ∷ r) ]
          ])
      from_fixed (some t) o h = within (omega arith)
      from_fixed none (some l) h = h
      from_fixed none none h = literal-InBounds c r
