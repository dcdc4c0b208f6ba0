-- ===== src/Syntax/Parser/Good/Guards.antt =====
use yidika.Syntax.Parser.Names.{or_panic}
use yidika.Diagnostics.{Span}
use yidika.Syntax.Parser.Good.Moves.{Live-step, next_token, Good-tok, Live-advance}
use yidika.Syntax.Token.{Token}
use yidika.Syntax.Parser.Good.Turns.{more_goods, GoodParsers, Good-or_back, Live-or_back}
use yidika.Syntax.Parser.Good.{Live-bind, NotEof, Live-if, Live, Good, Live-option, Safe, Live-Good}
use yidika.Syntax.Parser.Loops.{Parsers}
use yidika.Base.{
  Bool, if◌then◌else◌, ◌≡◌, subst, ◌&&◌, false, refl, get_elem?, sym, some, ap, true, match_option,
  Option, none,
}
use yidika.Syntax.Parser.{
  at_token, ◌>>=◌, kind, pure, Parsed, Parse, tok, continue, is, peek, Parser, parsed, failed,
  peeked, ahead,
}

-- src/syntax/parser.rs: that what a test of the next token guards stays inside of the tokens.

assoc :
    {A B C : Type 0} (x : Parsed A) (h : A → Parse B) (f : B → Parse C)
    → continue (continue x h) f ≡ continue x (λ a. h a >>= f)
unfolding ◌>>=◌
assoc (parsed a q) h f = refl
assoc (failed e) h f = refl
assoc Parsed.panicked h f = refl
assoc Parsed.out_of_fuel h f = refl

-- Good is what is good when it is grouped to the right.
pub Good-assoc :
    {A B C : Type 0} (m : Parse A) (h : A → Parse B) (f : B → Parse C)
    → Good (m >>= λ a. h a >>= f)
    → Good (m >>= h >>= f)
unfolding ◌>>=◌
Good-assoc m h f g = record {
  safe = λ last p i. subst (Safe last) (sym (assoc (m p) h f)) (g.safe last p i);
}

pub Good-test :
    {A : Type 0} (x : Token) (f : Bool → Parse A)
    → Good (tok >>= λ t. f (is x t))
    → Good (at_token x >>= f)
unfolding at_token ◌>>=◌ pure
Good-test x f g = record {
  safe = λ last p i. subst (Safe last) (sym (assoc (tok p) _ f)) (g.safe last p i);
}

pub is-eof : (x : Token) → NotEof x → is x Token.eof ≡ false
unfolding kind
is-eof Token.eof n = elim n [ ]
is-eof _ n = refl

-- A branch that is taken only at a token other than `Eof`.
pub Good-at_token_if :
    {A : Type 0} (x : Token) (m n : Parse A)
    → NotEof x
    → Live m
    → Good n
    → Good (at_token x >>= λ c. if c then m else n)
unfolding kind
Good-at_token_if x m n e lm gn =
    Good-test x (λ c. if c then m else n)
      (Good-tok _ (λ t p u. Live-if _ m n lm (Live-Good n gn))
        (subst (λ c. Good (if c then m else n)) (sym (is-eof x e)) gn))

pub Good-at_token_and :
    {A : Type 0} (x : Token) (b : Bool) (m n : Parse A)
    → NotEof x
    → Live m
    → Good n
    → Good (at_token x >>= λ c. if c && b then m else n)
unfolding kind
Good-at_token_and x b m n e lm gn =
    Good-test x (λ c. if c && b then m else n)
      (Good-tok _ (λ t p u. Live-if _ m n lm (Live-Good n gn))
        (subst (λ c. Good (if c && b then m else n)) (sym (is-eof x e)) gn))

-- A branch that a false test excludes.
pub Good-unless :
    {A : Type 0} (b : Bool) (m n : Parse A) → Good n → Good (if b && false then m else n)
Good-unless true m n g = g
Good-unless false m n g = g

at_token_step :
    {A : Type 0} (x : Token) (f : Bool → Parse A) (p : Parser) (t : Token × Span)
    → get_elem? p.tokens p.pos ≡ some t
    → (at_token x >>= f) p ≡ f (is x t.0) p
unfolding at_token tok peek pure ◌>>=◌ kind
at_token_step x f p t e =
    ap (λ o. continue (continue (continue (peeked o p) λ t. pure t.0) λ t. pure (is x t)) f) e

pub Live-at_token :
    {A : Type 0} (x : Token) (f : Bool → Parse A)
    → ((b : Bool) → Live (f b))
    → Live (at_token x >>= f)
Live-at_token x f live = record {
  safe = λ last p i b.
      let (t, e, plain) = next_token last p i in
      subst (Safe last) (sym (at_token_step x f p t e)) ((live (is x t.0)).safe last p i b);
}

pub Live-ahead :
    {A : Type 0} (f : Option Token → Parse A)
    → ((o : Option Token) → Live (f o))
    → Live (ahead >>= f)
unfolding ahead match_option ◌>>=◌
Live-ahead f live = record { safe = λ last p i b. (live _).safe last p i b }

-- A slice that is in bounds changes nothing.
pub Live-or_panic :
    {A B : Type 0} (o : Option A) (f : A → Parse B)
    → match_option o false (λ _. true) ≡ true
    → ((a : A) → Live (f a))
    → Live (or_panic o >>= f)
unfolding match_option pure ◌>>=◌
Live-or_panic none f h live = absurd (cc)
Live-or_panic (some a) f h live = record { safe = λ last p i b. (live a).safe last p i b }

pub Live-if_stmt : (r : Parsers) → GoodParsers r → Live r.if_stmt
Live-if_stmt r g = g.if_stmt

pub ruleset guards = (more_goods, Good-or_back, Good-at_token_if, Good-at_token_and, Good-unless)

pub ruleset lives = (
  guards, Live-bind, Live-step, Live-if, Live-option, Live-Good, Live-advance, Live-at_token,
  Live-ahead, Live-or_back, Live-if_stmt,
)
