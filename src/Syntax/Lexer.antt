-- ===== src/Syntax/Lexer.antt =====
-- src/syntax/lexer.rs: `Lexer`. The source is its code points, and a method works on the characters
-- from the current position on: it gives how many of them it consumes, so that a slice of the source
-- is a `take`. Unicode's character classes are a parameter.

pub mod Next
pub mod Bounds
pub mod Spans
pub mod Panics
pub mod Blanks
pub mod Munch
pub mod Tests
use yidika.Base.{
  ℕ, zero, suc, ◌+◌, ◌-◌, ◌*◌, ◌%◌, ◌^◌, ◌<◌, Bool, true, false, not, ◌&&◌, ◌||◌, Option, none,
  some, List, [], ◌∷◌, ◌≡◌, length, take, drop, ltb, leb, ◌==◌, if◌then◌else◌, Text, codes, text_eq,
  strip_prefix,
}
use yidika.Diagnostics.{Span}
use yidika.Syntax.Token.{Token}

-- `char::is_whitespace`, `char::is_alphabetic` and `char::is_alphanumeric`, with what Unicode says of
-- ASCII.
pub record CharClasses : Type 0 where
  pub is_whitespace : ℕ → Bool
  pub is_alphabetic : ℕ → Bool
  pub is_alphanumeric : ℕ → Bool
  pub ascii_whitespace : (c : ℕ) → c < 128 → is_whitespace c ≡ (c == 32 || (leb 9 c && leb c 13))
  pub ascii_alphabetic :
      (c : ℕ)
      → c < 128
      → is_alphabetic c ≡ ((leb b'a' c && leb c b'z') || (leb b'A' c && leb c b'Z'))
  pub ascii_alphanumeric :
      (c : ℕ)
      → c < 128
      → is_alphanumeric c
        ≡ ((leb b'a' c && leb c b'z') || (leb b'A' c && leb c b'Z') || (leb b'0' c && leb c b'9'))

pub is_ascii_digit : ℕ → Bool
is_ascii_digit c = leb b'0' c && leb c b'9'

pub is_ascii_hexdigit : ℕ → Bool
unfolding is_ascii_digit
is_ascii_hexdigit c = is_ascii_digit c || (leb b'a' c && leb c b'f') || (leb b'A' c && leb c b'F')

-- `self.peek() == Some(c)`
abbrev pub peek_is : ℕ → Text → Bool
peek_is c [] = false
peek_is c (d ∷ r) = d == c

-- The loops `while let Some(c) = self.peek() { if p(c) { self.advance(); } else { break; } }`.
pub count_while : (ℕ → Bool) → Text → ℕ
count_while p [] = 0
count_while p (c ∷ r) = elim (p c) [ true ↦ suc (count_while p r) | false ↦ 0 ]

-- `.iter().filter(|&&c| c != '_')`
pub without_underscores : Text → Text
without_underscores [] = []
without_underscores (c ∷ r) = if c == b'_' then without_underscores r else c ∷ without_underscores r

-- Where `skip` stands: between tokens, in a line comment, in a block comment.
pub data SkipMode : Type 0 where
  outside line_comment block_comment : SkipMode

-- A token with the number of characters from its start on that it takes, or a panic: a slice of
-- the source whose end lies before its start.
pub data Lexeme : Type 0 where
  lexeme : Token → ℕ → Lexeme
  panic : Lexeme

-- `str::parse::<u8>`, on text with no sign: one digit or more, and at most 255 at every step.
pub parse_digits : ℕ → Text → Option ℕ
unfolding is_ascii_digit
parse_digits acc [] = some acc
parse_digits acc (c ∷ r) = elim (is_ascii_digit c && leb (acc * 10 + (c - b'0')) 255) [
  | true ↦ parse_digits (acc * 10 + (c - b'0')) r
  | false ↦ none
]

pub parse_u8 : Text → Option ℕ
unfolding parse_digits
parse_u8 [] = none
parse_u8 (c ∷ r) = parse_digits 0 (c ∷ r)

-- `if let Some(rest) = s.strip_prefix(..)` with the two tests below it.
pub fixed_width : Text → (ℕ → Bool) → Text → Option ℕ
unfolding parse_u8 strip_prefix
fixed_width prefix allowed s = elim (strip_prefix prefix s) [
  | none ↦ none
  | some rest ↦ elim (parse_u8 rest) [ none ↦ none | some w ↦ if allowed w then some w else none ]
]

abbrev int_width : ℕ → Bool
int_width w = w == 8 || w == 16 || w == 32 || w == 64

abbrev real_width : ℕ → Bool
real_width w = w == 16 || w == 32 || w == 64

abbrev keywords : List (Text × Token)
keywords =
    (codes "fn", Token.fn)
    ∷ (codes "const", Token.const)
    ∷ (codes "if", Token.if_)
    ∷ (codes "else", Token.else_)
    ∷ (codes "for", Token.for)
    ∷ (codes "in", Token.in_)
    ∷ (codes "while", Token.while)
    ∷ (codes "loop", Token.loop)
    ∷ (codes "infiny", Token.infiny)
    ∷ (codes "return", Token.return)
    ∷ (codes "struct", Token.struct)
    ∷ (codes "class", Token.class)
    ∷ (codes "interface", Token.interface)
    ∷ (codes "union", Token.union)
    ∷ (codes "enum", Token.enum)
    ∷ (codes "object", Token.object)
    ∷ (codes "type", Token.type)
    ∷ (codes "use", Token.use_)
    ∷ (codes "implements", Token.use_)
    ∷ (codes "export", Token.export)
    ∷ (codes "as", Token.as_)
    ∷ (codes "from", Token.from)
    ∷ (codes "async", Token.async)
    ∷ (codes "await", Token.await)
    ∷ (codes "spawn", Token.spawn)
    ∷ (codes "try", Token.try)
    ∷ (codes "catch", Token.catch)
    ∷ (codes "init", Token.init)
    ∷ (codes "open", Token.open_)
    ∷ (codes "abstract", Token.abstract)
    ∷ (codes "data", Token.data_)
    ∷ (codes "override", Token.override)
    ∷ (codes "final", Token.final)
    ∷ (codes "true", Token.true_)
    ∷ (codes "false", Token.false_)
    ∷ (codes "null", Token.null)
    ∷ (codes "None", Token.none_)
    ∷ (codes "Ok", Token.ok_kw)
    ∷ (codes "Error", Token.error_kw)
    ∷ (codes "mut", Token.mut)
    ∷ (codes "ref", Token.ref)
    ∷ (codes "match", Token.match_)
    ∷ (codes "super", Token.super)
    ∷ (codes "int", Token.t_int 0)
    ∷ (codes "rint", Token.t_rint 0)
    ∷ (codes "real", Token.t_real 0)
    ∷ (codes "complex", Token.t_complex)
    ∷ (codes "bool", Token.t_bool)
    ∷ (codes "str", Token.t_str)
    ∷ (codes "symbol", Token.t_symbol)
    ∷ (codes "vector", Token.t_vector)
    ∷ (codes "matrix", Token.t_matrix)
    ∷ (codes "map", Token.t_map)
    ∷ []

pub lookup_word : Text → List (Text × Token) → Token
unfolding text_eq
lookup_word s [] = Token.ident s
lookup_word s ((k, t) ∷ table) = if text_eq s k then t else lookup_word s table

-- The classification at the end of `Lexer::word`.
pub classify : Text → Token
unfolding fixed_width lookup_word
classify s = elim (fixed_width (codes "int") int_width s) [
  | some w ↦ Token.t_int w
  | none ↦ elim (fixed_width (codes "rint") int_width s) [
    | some w ↦ Token.t_rint w
    | none ↦ elim (fixed_width (codes "real") real_width s) [
      | some w ↦ Token.t_real w
      | none ↦ lookup_word s keywords
    ]
  ]
]

-- After the opening quote of a string or of a character, up to and with the closing one; a backslash
-- takes the next character with it.
pub quoted : ℕ → Text → ℕ
quoted q [] = 0
quoted q (c ∷ []) = 1
quoted q (c ∷ d ∷ r) = elim (c == b'\\') [
  | true ↦ suc (suc (quoted q r))
  | false ↦ elim (c == q) [ true ↦ 1 | false ↦ suc (quoted q (d ∷ r)) ]
]

-- After an opening backtick.
pub backtick : Text → ℕ
backtick [] = 0
backtick (c ∷ r) = elim (c == b'`') [ true ↦ 1 | false ↦ suc (backtick r) ]

-- After the opening quote of an f-string; the depth of braces is a `u32`.
pub f_string : ℕ → ℕ → Text → ℕ
f_string q depth [] = 0
f_string q depth (c ∷ r) = elim (c == q && depth == 0) [
  | true ↦ 1
  | false ↦ suc (
      f_string q
        (if c == b'{'
          then (depth + 1) % 2 ^ 32
          else if c == b'}' && ltb 0 depth
          then depth - 1
          else depth)
        r)
]

-- `source[from..to]`, for indices counted from the start of the token `s`.
pub slice : ℕ → ℕ → Text → Option Text
slice from to s = if leb from to then some (take (to - from) (drop from s)) else none
