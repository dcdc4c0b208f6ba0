-- ===== src/Syntax/Parser/Whole.antt =====
use yidika.Diagnostics.{Span}
use yidika.Syntax.Items.{Module}
use yidika.Base.{
  ◌≡◌, Option, ℕ, Text, List, Bool, true, suc, get_elem?, refl, subst, some, zero, none,
  if◌then◌else◌, [], ◌∷◌, false,
}
use yidika.Syntax.Token.{Token}
use yidika.Syntax.Parser.Modules.{parse_module, entry_of}
use yidika.Syntax.Parser.{
  Parsed, at_token, ◌>>=◌, pure, Parser, tok, Parse, peek, continue, parsed, kind, failed, peeked,
  is, stuck,
}
use yidika.Syntax.Parser.Loops.{until_list, Parsers}

-- src/syntax/parser.rs: that `module` reads all tokens.

-- What a sequence does, it does in two steps.
split :
    {A B : Type 0} (x : Parsed A) (f : A → Parse B) (b : B) (q : Parser)
    → continue x f ≡ parsed b q
    → (a : A) × (p : Parser) × (x ≡ parsed a p) × (f a p ≡ parsed b q)
split (parsed a p) f b q e = (a, p, refl, e)
split (failed s) f b q e = absurd (cc)
split Parsed.panicked f b q e = absurd (cc)
split Parsed.out_of_fuel f b q e = absurd (cc)

bind-split :
    {A B : Type 0} (m : Parse A) (f : A → Parse B) (p : Parser) (b : B) (q : Parser)
    → (m >>= f) p ≡ parsed b q
    → (a : A) × (p1 : Parser) × (m p ≡ parsed a p1) × (f a p1 ≡ parsed b q)
unfolding ◌>>=◌
bind-split m f p b q e = split (m p) f b q e

peeked_same :
    (x : Token) (o : Option (Token × Span)) (p q : Parser) (b : Bool)
    → continue (continue (peeked o p) λ t. pure t.0) (λ t. pure (is x t)) ≡ parsed b q
    → p ≡ q
unfolding pure
peeked_same x none p q b e = absurd (cc)
peeked_same x (some t) p q b e = cc

at_token_same : (x : Token) (p q : Parser) (b : Bool) → at_token x p ≡ parsed b q → p ≡ q
unfolding at_token tok peek pure ◌>>=◌ kind
at_token_same x p q b e = peeked_same x (get_elem? p.tokens p.pos) p q b e

pure_same : {A : Type 0} (a b : A) (p q : Parser) → pure a p ≡ parsed b q → p ≡ q
unfolding pure
pure_same a b p q e = cc

stuck_fails : {A : Type 0} (p q : Parser) (a : A) (B : Type 0) → stuck p ≡ parsed a q → B
unfolding stuck
stuck_fails p q a B e = absurd (cc)

-- A turn of the loop that is the last, or that goes on with `again`.
last_turn :
    {A : Type 0} (close : Token) (item : Parse A) (again : Parse (List A)) (stop : Bool)
    (p p1 q : Parser) (xs : List A)
    → ((p2 p3 : Parser) (rest : List A)
        → again p2 ≡ parsed rest p3
        → at_token close p3 ≡ parsed true p3)
    → at_token close p ≡ parsed stop p1
    → (if stop then pure [] else item >>= λ a. again >>= λ rest. pure (a ∷ rest)) p1 ≡ parsed xs q
    → at_token close q ≡ parsed true q
last_turn close item again true p p1 q xs ih d e =
    let here = at_token_same close p p1 true d in let same = pure_same [] xs p1 q e in cc
last_turn close item again false p p1 q xs ih d e =
    let (a, p2, d2, e2) = bind-split item _ p1 xs q e in
    let (rest, p3, d3, e3) = bind-split again _ p2 xs q e2 in
    let same = pure_same (a ∷ rest) xs p3 q e3 in let closed = ih p2 p3 rest d3 in cc

-- The loop ends only before the token that closes it.
until_list-at_token :
    {A : Type 0} (close : Token) (item : Parse A) (n : ℕ) (p q : Parser) (xs : List A)
    → until_list close item n p ≡ parsed xs q
    → at_token close q ≡ parsed true q
unfolding until_list
until_list-at_token close item zero p q xs e = stuck_fails p q xs _ e
until_list-at_token {A = A} close item (suc n) p q xs e =
    let (stop, p1, d, e1) = bind-split (at_token close) _ p xs q e in
    last_turn close item (until_list close item n) stop p p1 q xs
      (λ p2 p3 rest. until_list-at_token close item n p2 p3 rest) d e1

-- If `module` gives a module, then the next token is `Eof`: every token has been read.
pub parse_module-at_token :
    (r : Parsers) (source name : Text) (p q : Parser) (m : Module)
    → parse_module r source name p ≡ parsed m q
    → at_token Token.eof q ≡ parsed true q
unfolding parse_module
parse_module-at_token r source name p q m e =
    let (es, p1, d, e1) = bind-split (until_list Token.eof (tok >>= entry_of r) r.fuel) _ p m q e in
    let same = pure_same _ m p1 q e1 in
    subst (λ v. at_token Token.eof v ≡ parsed true v) same
      (until_list-at_token Token.eof (tok >>= entry_of r) r.fuel p p1 es d)
