-- ===== src/Syntax/Parser.antt =====
-- src/syntax/parser.rs: `Parser`. A method takes the parser and gives its result with the new parser,
-- or fails at a span, or panics (an index or a slice out of bounds), or runs out of fuel.
mod Kinds
pub mod Names
pub mod Loops
pub mod Types
pub mod Patterns
pub mod Stmts
pub mod Literals
pub mod Formats
pub mod Prefix
pub mod Infix
pub mod Items
pub mod Modules
pub mod Good
pub mod Precedence
pub mod Whole
mod Tests
pub use Kinds.{is}
unfoldable pub use Kinds.{kind, tokens_match}
use yidika.Base.{
  ℕ, zero, suc, ◌+◌, Bool, true, false, ◌&&◌, not, Option, none, some, List, [], ◌∷◌, Text, codes,
  if◌then◌else◌, ◌==◌, ltb, match_option, get_elem?, ◌-◌, drop,
}
use yidika.Diagnostics.{Span}
use yidika.Syntax.Token.{Token}

pub record Parser : Type 0 where
  pub tokens : List (Token × Span)
  pub pos : ℕ
  pub no_struct : Bool
  -- `NEXT_ID`. The `source` is an argument of `parse_module`.
  pub next_id : ℕ

pub data Parsed (A : Type 0) : Type 0 where
  parsed : A → Parser → Parsed A
  failed : Span → Parsed A
  panicked out_of_fuel : Parsed A

abbrev pub Parse : Type 0 → Type 0
Parse A = Parser → Parsed A

unfoldable pub pure : {A : Type 0} → A → Parse A
pure a p = parsed a p

abbrev pub continue : {A B : Type 0} → Parsed A → (A → Parse B) → Parsed B
continue (parsed a q) f = f a q
continue (failed e) f = failed e
continue panicked f = panicked
continue out_of_fuel f = out_of_fuel

infixl 5 ◌>>=◌ ◌>>◌
unfoldable pub ◌>>=◌ : {A B : Type 0} → Parse A → (A → Parse B) → Parse B
◌>>=◌ m f p = continue (m p) f

abbrev pub ◌>>◌ : {A B : Type 0} → Parse A → Parse B → Parse B
m >> n = m >>= λ _. n

unfoldable pub fail : {A : Type 0} → Span → Parse A
fail span p = failed span

unfoldable pub panic : {A : Type 0} → Parse A
panic p = panicked

unfoldable pub stuck : {A : Type 0} → Parse A
stuck p = out_of_fuel

-- `fresh_id`
unfoldable pub fresh_id : Parse ℕ
fresh_id p = parsed p.next_id (record p { next_id = suc p.next_id })

abbrev pub peeked : Option (Token × Span) → Parser → Parsed (Token × Span)
peeked none p = panicked
peeked (some t) p = parsed t p

-- `peek`: `self.tokens[self.pos]`
unfoldable pub peek : Parse (Token × Span)
peek p = peeked (get_elem? p.tokens p.pos) p

-- `self.pos += 1`
unfoldable pub step : Parse (Unit {0})
step p = parsed tt (record p { pos = suc p.pos })

-- A token that `f` reads is passed, any other is refused.
unfoldable pub take_token : {A : Type 0} → (Token → Span → Option A) → Parse A
take_token f = peek >>= λ t. match_option (f t.0 t.1) (fail t.1) λ a. step >> pure a

-- A token that `f` reads is passed, any other is left.
unfoldable pub take_opt : {A : Type 0} → (Token → Span → Option A) → Parse (Option A)
take_opt f = peek >>= λ t. match_option (f t.0 t.1) (pure none) λ a. step >> pure (some a)

-- `advance`, and what is done with the token.
unfoldable pub advance : {A : Type 0} → (Token → Span → Parse A) → Parse A
advance f = peek >>= λ t. step >> f t.0 t.1

unfoldable pub tok : Parse Token
tok = peek >>= λ t. pure t.0

unfoldable pub next_span : Parse Span
next_span = peek >>= λ t. pure t.1

-- `self.tok() == &x`
unfoldable pub at_token : Token → Parse Bool
unfolding kind
at_token x = tok >>= λ t. pure (is x t)

abbrev span_if : Token → Token → Span → Option Span
span_if x t s = if is x t then some s else none

-- `if self.tok() == &x { self.advance(); .. }`, as the test that it makes.
unfoldable pub accept : Token → Parse Bool
unfolding kind
accept x = take_opt (span_if x) >>= λ o. pure (match_option o false λ s. true)

abbrev pub eat_if : Token → Token → Span → Option Span
eat_if x t s = if tokens_match t x then some s else none

unfoldable pub eat : Token → Parse Span
unfolding tokens_match
eat x = take_token (eat_if x)

-- `self.tokens.get(self.pos + 1)`
unfoldable pub ahead : Parse (Option Token)
ahead p = parsed (match_option (get_elem? p.tokens (suc p.pos)) none λ t. some t.0) p

-- The tokens after the next one.
unfoldable pub lookahead : Parse (List (Token × Span))
lookahead p = parsed (drop (suc p.pos) p.tokens) p

abbrev pub insert_at : {A : Type 0} → ℕ → A → List A → List A
insert_at zero x ts = x ∷ ts
insert_at (suc n) x [] = x ∷ []
insert_at (suc n) x (t ∷ ts) = t ∷ insert_at n x ts

abbrev gt_after : Span → Token × Span
gt_after s = (Token.gt, record { start = s.end; end = s.end })

-- A `>` is put before the next token.
unfoldable pub insert_gt : Span → Parse (Unit {0})
insert_gt s p = parsed tt (record p { tokens = insert_at p.pos (gt_after s) p.tokens })

abbrev pub gt_or_shr : Token → Span → Parse Span
gt_or_shr Token.gt s = step >> pure s
gt_or_shr Token.shr s = step >> insert_gt s >> pure s
gt_or_shr _ s = fail s

-- `eat_gt`
unfoldable pub eat_gt : Parse Span
eat_gt = peek >>= λ t. gt_or_shr t.0 t.1

unfoldable pub opt_semicolon : Parse (Unit {0})
opt_semicolon = accept Token.semicolon >> pure tt

-- `let saved = self.pos; ..; self.pos = saved;` around an attempt that gives up.
abbrev pub go_back : {A : Type 0} → ℕ → Parse A → Parsed (Option A) → Parsed A
go_back saved m (parsed none q) = m (record q { pos = saved })
go_back saved m (parsed (some a) q) = parsed a q
go_back saved m (failed e) = failed e
go_back saved m panicked = panicked
go_back saved m out_of_fuel = out_of_fuel

unfoldable pub or_back : {A : Type 0} → Parse (Option A) → Parse A → Parse A
or_back try_ m p = go_back p.pos m (try_ p)

-- `self.pos -= 1`
unfoldable pub step_back : Parse (Unit {0})
step_back p = parsed tt (record p { pos = p.pos - 1 })

unfoldable pub get_no_struct : Parse Bool
get_no_struct p = parsed p.no_struct p

unfoldable pub set_no_struct : Bool → Parse (Unit {0})
set_no_struct b p = parsed tt (record p { no_struct = b })
