-- ===== src/Syntax/Parser/Good.antt =====
pub mod Moves
pub mod Turns
pub mod Guards
pub mod Brackets
pub mod Types
pub mod Patterns
pub mod Stmts
pub mod Literals
pub mod Prefix
pub mod Infix
pub mod Items
pub mod Modules
use yidika.Diagnostics.{Span}
use yidika.Syntax.Parser.Names.{unquoted, sliced}
use yidika.Syntax.Token.{Token}
use yidika.Syntax.Parser.{
  Parse, fail, Parser, pure, fresh_id, stuck, ◌>>=◌, kind, parsed, Parsed, is, failed, panicked,
  out_of_fuel, continue,
}
use yidika.Base.{
  List, match_option, ℕ, Bool, ◌≡◌, suc, false, not, Option, if◌then◌else◌, arith, ◌≤◌, get_elem?,
  true, some, All, none,
}

-- src/syntax/parser.rs: that the parser stays inside of its tokens. The vector has `Eof` at a place
-- `last`, which a split of `>>` moves to the right, and the position does not pass it.

-- A literal of which the slices are in bounds; format strings are left out.
abbrev is_plain : Token → Bool
is_plain (Token.str_lit x) = match_option (unquoted x) false λ y. true
is_plain (Token.hex_lit x) = match_option (sliced 2 x) false λ y. true
is_plain (Token.symbol_lit x) = match_option (sliced 1 x) false λ y. true
is_plain (Token.f_str_lit x) = false
is_plain _ = true

unfoldable pub Plain : Token → Type 0
unfolding unquoted sliced match_option
Plain t = is_plain t ≡ true

abbrev pub NotEof : Token → Type 0
NotEof Token.eof = ⊥
NotEof _ = Unit

abbrev pub PlainTokens : List (Token × Span) → Type 0
PlainTokens ts = All (λ t. Plain t.0) ts

pub record Inside (last : ℕ) (p : Parser) : Type 0 where
  pub eof_span : Span
  pub ends : get_elem? p.tokens last ≡ some (Token.eof, eof_span)
  pub bound : p.pos ≤ last
  pub plain : PlainTokens p.tokens

abbrev pub Safe : {A : Type 0} → ℕ → Parsed A → Type 0
Safe last (parsed a q) = (k : ℕ) × (last ≤ k) × Inside k q
Safe last (failed e) = Unit
Safe last panicked = ⊥
Safe last out_of_fuel = Unit

-- The next token is not `Eof`.
abbrev pub BeforeEof : Parser → Type 0
BeforeEof p = (t : Token × Span) → get_elem? p.tokens p.pos ≡ some t → NotEof t.0

-- What stays inside, from any parser that is.
pub record Good {A : Type 0} (m : Parse A) : Type 0 where
  pub safe : (last : ℕ) (p : Parser) → Inside last p → Safe last (m p)

-- What stays inside if the next token is not `Eof`.
pub record Live {A : Type 0} (m : Parse A) : Type 0 where
  pub safe : (last : ℕ) (p : Parser) → Inside last p → BeforeEof p → Safe last (m p)

pub Live-Good : {A : Type 0} (m : Parse A) → Good m → Live m
Live-Good m g = record { safe = λ last p i b. g.safe last p i }

kept : {A : Type 0} (last : ℕ) (a : A) (p : Parser) → Inside last p → Safe last (parsed a p)
kept last a p i = (last, omega arith, i)

pub Good-pure : {A : Type 0} (a : A) → Good (pure a)
unfolding pure
Good-pure a = record { safe = λ last p i. kept last a p i }

pub Good-fail : {A : Type 0} (s : Span) → Good {A = A} (fail s)
unfolding fail
Good-fail s = record { safe = λ last p i. tt }

pub Good-stuck : {A : Type 0} → Good {A = A} stuck
unfolding stuck
Good-stuck = record { safe = λ last p i. tt }

widen : {A : Type 0} (last k : ℕ) (x : Parsed A) → last ≤ k → Safe k x → Safe last x
widen last k (parsed a q) h (n, le, i) = (n, omega arith, i)
widen last k (failed e) h s = tt
widen last k panicked h s = elim s [ ]
widen last k out_of_fuel h s = tt

after :
    {A B : Type 0} (last : ℕ) (f : A → Parse B) (x : Parsed A)
    → Safe last x
    → ((a : A) → Good (f a))
    → Safe last (continue x f)
after last f (parsed a q) (k, le, i) g = widen last k (f a q) le ((g a).safe k q i)
after last f (failed e) s g = tt
after last f panicked s g = elim s [ ]
after last f out_of_fuel s g = tt

pub Good-bind :
    {A B : Type 0} (m : Parse A) (f : A → Parse B)
    → Good m
    → ((a : A) → Good (f a))
    → Good (m >>= f)
unfolding ◌>>=◌
Good-bind m f gm gf = record { safe = λ last p i. after last f (m p) (gm.safe last p i) gf }

pub Live-bind :
    {A B : Type 0} (m : Parse A) (f : A → Parse B)
    → Live m
    → ((a : A) → Good (f a))
    → Live (m >>= f)
unfolding ◌>>=◌
Live-bind m f gm gf = record { safe = λ last p i b. after last f (m p) (gm.safe last p i b) gf }

pub Good-if :
    {A : Type 0} (test : Bool) (m n : Parse A) → Good m → Good n → Good (if test then m else n)
Good-if true m n gm gn = gm
Good-if false m n gm gn = gn

pub Live-if :
    {A : Type 0} (test : Bool) (m n : Parse A) → Live m → Live n → Live (if test then m else n)
Live-if true m n gm gn = gm
Live-if false m n gm gn = gn

pub Good-option :
    {A B : Type 0} (o : Option A) (m : Parse B) (f : A → Parse B)
    → Good m
    → ((a : A) → Good (f a))
    → Good (match_option o m f)
unfolding match_option
Good-option none m f gm gf = gm
Good-option (some a) m f gm gf = gf a

pub Live-option :
    {A B : Type 0} (o : Option A) (m : Parse B) (f : A → Parse B)
    → Live m
    → ((a : A) → Live (f a))
    → Live (match_option o m f)
unfolding match_option
Live-option none m f gm gf = gm
Live-option (some a) m f gm gf = gf a
