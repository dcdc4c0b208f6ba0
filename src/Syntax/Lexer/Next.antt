-- ===== src/Syntax/Lexer/Next.antt =====
-- src/syntax/lexer.rs: `Lexer::skip`, `number`, `next` and `lex`.
use yidika.Base.{
  ℕ, zero, suc, ◌+◌, ◌-◌, Bool, true, false, ◌&&◌, ◌||◌, Option, none, some, List, [], ◌∷◌, length,
  take, drop, ltb, ◌==◌, if◌then◌else◌, Text, codes, text_eq,
}
use yidika.Diagnostics.{Span}
use yidika.Syntax.Token.{Token}
use yidika.Syntax.Lexer.{
  CharClasses, is_ascii_digit, is_ascii_hexdigit, peek_is, count_while, without_underscores,
  SkipMode, outside, line_comment, block_comment, Lexeme, lexeme, panic, classify, quoted, backtick,
  f_string, slice,
}

-- A token of a slice of the source, with what it consumes.
unfoldable pub of_slice : (Text → Token) → ℕ → ℕ → Text → ℕ → Lexeme
unfolding slice
of_slice make from to s n = elim (slice from to s) [ none ↦ panic | some t ↦ lexeme (make t) n ]

abbrev pub digit_or_underscore : ℕ → Bool
digit_or_underscore c = is_ascii_digit c || c == b'_'

abbrev pub hexdigit_or_underscore : ℕ → Bool
hexdigit_or_underscore c = is_ascii_hexdigit c || c == b'_'

-- A number whose text is the first `n` characters of `s`, or its imaginary form if an `i` follows.
unfoldable pub with_suffix : (Text → Token) → (Text → Token) → Text → ℕ → Lexeme
unfolding without_underscores
with_suffix plain imaginary s n =
    let raw = without_underscores (take n s) in
    if peek_is b'i' (drop n s) then lexeme (imaginary raw) (n + 1) else lexeme (plain raw) n

abbrev pub starts_with_digit : Text → Bool
starts_with_digit [] = false
starts_with_digit (c ∷ r) = is_ascii_digit c

-- `Lexer::number`, from its first digit on: `s` is not empty.
unfoldable pub number : Text → Lexeme
unfolding with_suffix count_while is_ascii_hexdigit
number s =
    let r = drop 1 s in
    let is_hex = peek_is b'x' r || peek_is b'X' r in
    let h : ℕ = if is_hex then 1 else 0 in
    let n = 1 + h + count_while hexdigit_or_underscore (drop h r) in
    let after = drop n s in
    if is_hex
    then with_suffix Token.hex_lit Token.imag_int s n
    else if peek_is b'.' after && starts_with_digit (drop 1 after)
    then with_suffix Token.real_lit Token.imag_real s
        (n + 1 + count_while digit_or_underscore (drop 1 after))
    else with_suffix Token.int_lit Token.imag_int s n

-- The tokens of one character that no other character can extend.
unfoldable pub fixed : ℕ → Option Token
fixed c =
    if c == b'('
    then some Token.l_paren
    else if c == b')'
    then some Token.r_paren
    else if c == b'{'
    then some Token.l_brace
    else if c == b'}'
    then some Token.r_brace
    else if c == b'['
    then some Token.l_bracket
    else if c == b']'
    then some Token.r_bracket
    else if c == b';'
    then some Token.semicolon
    else if c == b','
    then some Token.comma
    else if c == b'~'
    then some Token.tilde
    else if c == b'#'
    then some Token.hash
    else none

-- The tests of the next character in turn, each for a token of two characters.
unfoldable pub pick : Text → List (ℕ × Token) → Token → Lexeme
pick r [] d = lexeme d 1
pick r ((c, t) ∷ more) d = if peek_is c r then lexeme t 2 else pick r more d

-- The operators that begin with a doubled character, which `=` may follow.
abbrev pub doubled : ℕ → Token → Token → Lexeme → Text → Lexeme
doubled c with_eq without otherwise r =
    if peek_is c r
    then (if peek_is b'=' (drop 1 r) then lexeme with_eq 3 else lexeme without 2)
    else otherwise

unfoldable pub dot : Text → Lexeme
unfolding with_suffix count_while is_ascii_digit
dot s =
    let r = drop 1 s in
    if peek_is b'.' r
    then (if peek_is b'.' (drop 1 r) then lexeme Token.dot_dot_dot 3 else lexeme Token.dot_dot 2)
    else if starts_with_digit r
    then with_suffix Token.real_lit Token.imag_real s
        (2 + count_while digit_or_underscore (drop 1 r))
    else lexeme Token.dot 1

unfoldable pub operator : ℕ → Text → Option Lexeme
operator c r =
    if c == b':'
    then some (pick r ((b':', Token.double_colon) ∷ []) Token.colon)
    else if c == b'+'
    then some (pick r ((b'+', Token.inc) ∷ (b'=', Token.plus_eq) ∷ []) Token.plus)
    else if c == b'-'
    then some
        (pick r ((b'>', Token.arrow) ∷ (b'-', Token.dec) ∷ (b'=', Token.minus_eq) ∷ []) Token.minus)
    else if c == b'*'
    then some (
        doubled b'*' Token.star_star_eq Token.star_star
          (pick r ((b'=', Token.star_eq) ∷ []) Token.star) r)
    else if c == b'/'
    then some (pick r ((b'=', Token.slash_eq) ∷ []) Token.slash)
    else if c == b'%'
    then some (pick r ((b'=', Token.percent_eq) ∷ []) Token.percent)
    else if c == b'^'
    then some (pick r ((b'=', Token.caret_eq) ∷ []) Token.caret)
    else if c == b'!'
    then some (pick r ((b'=', Token.not_eq) ∷ []) Token.bang)
    else if c == b'='
    then some (pick r ((b'=', Token.eq_eq) ∷ (b'>', Token.fat_arrow) ∷ []) Token.eq)
    else if c == b'<'
    then some (doubled b'<' Token.shl_eq Token.shl (pick r ((b'=', Token.lt_eq) ∷ []) Token.lt) r)
    else if c == b'>'
    then some (doubled b'>' Token.shr_eq Token.shr (pick r ((b'=', Token.gt_eq) ∷ []) Token.gt) r)
    else if c == b'&'
    then some (pick r ((b'&', Token.and) ∷ (b'=', Token.ref_eq) ∷ []) Token.ref)
    else if c == b'|'
    then some (pick r ((b'|', Token.or) ∷ (b'=', Token.pipe_eq) ∷ []) Token.pipe)
    else if c == b'?'
    then some (pick r ((b'.', Token.question_dot) ∷ (b':', Token.elvis) ∷ []) Token.question)
    else none

-- `str::len`: the bytes of the UTF-8 encoding.
pub utf8_len : Text → ℕ
utf8_len [] = 0
utf8_len (c ∷ r) =
    (if ltb c 0x80 then 1 else if ltb c 0x800 then 2 else if ltb c 0x10000 then 3 else 4)
    + utf8_len r

-- The escapes that a character literal knows.
pub escape : Text → Option ℕ
unfolding text_eq
escape raw =
    if text_eq raw (codes "\\n")
    then some 10
    else if text_eq raw (codes "\\t")
    then some 9
    else if text_eq raw (codes "\\r")
    then some 13
    else if text_eq raw (codes "\\0")
    then some 0
    else if text_eq raw (codes "\\\\")
    then some b'\\'
    else if text_eq raw (codes "\\'")
    then some 39
    else if text_eq raw (codes "\\\"")
    then some b'"'
    else none

abbrev pub first_or_nul : Text → ℕ
first_or_nul [] = 0
first_or_nul (c ∷ r) = c

-- What stands between the quotes decides between a character and a string literal; `whole` is the
-- text with its quotes.
pub char_token : Text → Text → Token
unfolding escape utf8_len
char_token whole raw = elim (escape raw) [
  | some c ↦ Token.char_lit c
  | none ↦ if utf8_len raw == 1 then Token.char_lit (first_or_nul raw) else Token.str_lit whole
]

unfoldable pub char_or_string : Text → Lexeme
unfolding char_token of_slice quoted
char_or_string s =
    let n = 1 + quoted 39 (drop 1 s) in of_slice (char_token (take n s)) 1 (n - 1) s n

unfoldable pub backtick_string : Text → Lexeme
unfolding of_slice backtick
backtick_string s = let n = 1 + backtick (drop 1 s) in of_slice Token.backtick_str 1 (n - 1) s n

unfoldable pub format_string : Text → Lexeme
unfolding of_slice f_string
format_string s =
    let n = 2 + f_string (first_or_nul (drop 1 s)) 0 (drop 2 s) in
    of_slice Token.f_str_lit 2 (n - 1) s n

abbrev pub at_quote : Text → Bool
at_quote r = peek_is b'"' r || peek_is 39 r || peek_is b'`' r

-- One call of `next`: the token, its span, and the rest with its position.
pub data Next : Type 0 where
  ended : Next
  panicked : Next
  token : Token → Span → Text → ℕ → Next

unfoldable pub lexed : Lexeme → Text → ℕ → Next
lexed panic s start = panicked
lexed (lexeme t n) s start =
    token t (record { start = start; end = start + n }) (drop n s) (start + n)

-- `lex`: `Iterator::collect`, on fuel.
pub data Lexed : Type 0 where
  tokens : List (Token × Span) → Lexed
  panics : Lexed
  out_of_fuel : Lexed

abbrev pub prepend : Token × Span → Lexed → Lexed
prepend t (tokens ts) = tokens (t ∷ ts)
prepend t panics = panics
prepend t out_of_fuel = out_of_fuel

module _ (u : CharClasses) where
  abbrev pub word_char : ℕ → Bool
  word_char c = u.is_alphanumeric c || c == b'_'

  -- `Lexer::word`
  unfoldable pub word : Text → Lexeme
  unfolding classify count_while
  word s = let n = 1 + count_while word_char (drop 1 s) in lexeme (classify (take n s)) n

  unfoldable pub symbol : Text → Lexeme
  unfolding count_while
  symbol s =
      let n = count_while word_char (drop 1 s) in
      if ltb 0 n
      then lexeme (Token.symbol_lit (b'@' ∷ take n (drop 1 s))) (1 + n)
      else lexeme Token.at 1

  -- The branches of `next` for literals, words and all that is left, by the first character.
  unfoldable pub literal : ℕ → Text → Lexeme
  unfolding symbol quoted backtick_string format_string number word char_or_string dot
      is_ascii_digit
  literal c s =
      if c == b'.'
      then dot s
      else if c == b'@'
      then symbol s
      else if c == b'"'
      then (let n = 1 + quoted b'"' (drop 1 s) in lexeme (Token.str_lit (take n s)) n)
      else if c == b'`'
      then backtick_string s
      else if c == b'f' && at_quote (drop 1 s)
      then format_string s
      else if is_ascii_digit c
      then number s
      else if u.is_alphabetic c || c == b'_'
      then word s
      else if c == 39
      then char_or_string s
      else lexeme (Token.error c) 1

  -- The `match self.advance()` of `Iterator::next`, on what is left after `skip`.
  unfoldable pub token_at : ℕ → Text → Lexeme
  unfolding fixed operator pick literal
  token_at c r = elim (fixed c) [
    | some t ↦ lexeme t 1
    | none ↦ elim (operator c r) [ some l ↦ l | none ↦ literal c (c ∷ r) ]
  ]

  -- `Lexer::skip`
  unfoldable pub skip : SkipMode → Text → ℕ
  skip mode [] = 0
  skip outside (c ∷ []) = elim (u.is_whitespace c) [ true ↦ 1 | false ↦ 0 ]
  skip outside (c ∷ d ∷ r) = elim (u.is_whitespace c) [
    | true ↦ suc (skip outside (d ∷ r))
    | false ↦ elim (c == b'/' && d == b'/') [
      | true ↦ suc (suc (skip line_comment r))
      | false ↦ elim (c == b'/' && d == b'*') [
        | true ↦ suc (suc (skip block_comment r))
        | false ↦ 0
      ]
    ]
  ]
  skip line_comment (c ∷ r) = elim (c == 10) [
    | true ↦ suc (skip outside r)
    | false ↦ suc (skip line_comment r)
  ]
  skip block_comment (c ∷ []) = 1
  skip block_comment (c ∷ d ∷ r) = elim (c == b'*' && d == b'/') [
    | true ↦ suc (suc (skip outside r))
    | false ↦ suc (skip block_comment (d ∷ r))
  ]

  unfoldable pub next_from : Text → ℕ → Next
  unfolding token_at lexed
  next_from [] start = ended
  next_from (c ∷ r) start = lexed (token_at c r) (c ∷ r) start

  unfoldable pub next : Text → ℕ → Next
  unfolding skip next_from
  next s pos = next_from (drop (skip outside s) s) (pos + skip outside s)

  -- `lex` collects the tokens, on fuel.
  unfoldable pub collect : ℕ → Text → ℕ → Lexed
  unfolding next
  collect zero s pos = out_of_fuel
  collect (suc fuel) s pos = elim (next s pos) [
    | ended ↦ tokens []
    | panicked ↦ panics
    | token t span rest end ↦ prepend (t, span) (collect fuel rest end)
  ]

  unfoldable pub lex : Text → Lexed
  unfolding collect
  lex source = collect (suc (length source)) source 0
