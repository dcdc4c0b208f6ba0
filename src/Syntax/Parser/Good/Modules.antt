-- ===== src/Syntax/Parser/Good/Modules.antt =====
use yidika.Syntax.Ast.{ExprNode}
use yidika.Syntax.Lexer.Next.{utf8_len, lex, Lexed}
use yidika.Syntax.Parser.Good.Items.{Good-parse_item}
use yidika.Syntax.Parser.Good.Patterns.{Good-parse_pattern}
use yidika.Syntax.Parser.Good.Stmts.{Good-parse_block, Live-parse_if}
use yidika.Syntax.Parser.Formats.{new_parser}
use yidika.Syntax.Parser.Good.Infix.{Good-parse_expr_range, Good-parse_expr_inner}
use yidika.Syntax.Parser.Good.Types.{Good-parse_type}
use yidika.Syntax.Parser.Good.Moves.{Good-peek, Good-tok, stepped}
use yidika.Diagnostics.{Span}
use yidika.Syntax.Parser.Good.Guards.{Good-assoc, guards, lives}
use yidika.Syntax.Token.{Token}
use yidika.Syntax.Parser.Good.Turns.{GoodParsers, Good-or_panic}
use yidika.Syntax.Parser.Good.{Good, Plain, Live, Good-stuck, PlainTokens, Live-Good, Inside, Safe}
use yidika.Base.{
  match_option, Text, ℕ, Option, List, suc, length, zero, get_elem?, refl, arith, ◌++◌, ◌≢◌, ◌∷◌,
  All-append, ◌≡◌, [], some, subst, ◌≤◌, ◌<◌, get_elem?-bound,
}
use yidika.Syntax.Parser.Loops.{Parsers}
use yidika.Syntax.Parser.{
  fail, step, ◌>>=◌, pure, take_token, Parse, tok, ◌>>◌, Parsed, Parser, parsed, panicked,
}
use yidika.Syntax.Parser.Modules.{
  import, braced_import, single_import, import_names, entry_of, parse_module, parsers, next_parsers,
  no_parsers, parse_with_name,
}
use yidika.Syntax.Lexer.{CharClasses}
use yidika.Syntax.Parser.Names.{str_lit, str_raw, or_panic, unquoted}

-- src/syntax/parser.rs: that `parse_with_name` does not panic.

-- What is done with a token that is passed, and what it gives.
Live-given : {A B : Type 0} (a : A) (f : A → Parse B) → Good (f a) → Live (step >> pure a >>= f)
unfolding step pure ◌>>=◌
Live-given a f g = record {
  safe = λ last p i b. g.safe last (record p { pos = suc p.pos }) (stepped last p i b);
}

refused : {A B : Type 0} (s : Span) (f : A → Parse B) → Good (fail s >>= f)
unfolding fail ◌>>=◌
refused s f = record { safe = λ last p i. tt }

str_then :
    (t : Token) (s : Span)
    → Plain t
    → Live
        ((match_option (str_raw t s) (fail s) λ a. step >> pure a) >>= λ x. or_panic (unquoted x))
unfolding match_option Plain
str_then (Token.str_lit x) s p = Live-given x _ (Good-or_panic (unquoted x) p)
str_then _ s p = Live-Good _ (refused s _)

Good-str_lit : Good str_lit
unfolding str_lit take_token match_option
Good-str_lit = Good-assoc _ _ _ (Good-peek _ (λ t s p e. str_then t s p) λ s. refused s _)

Good-braced_import : Good braced_import
unfolding braced_import
Good-braced_import = search (guards) depth 24

Good-single_import : Good single_import
unfolding single_import
Good-single_import = search (guards) depth 24

Good-import_names : (n : ℕ) → Good (import_names n)
unfolding import_names
Good-import_names n = search (guards, Good-braced_import, Good-single_import) depth 24

Live-import : (n : ℕ) → Live (import n)
unfolding import
Live-import n = search (lives, Good-import_names, Good-str_lit) depth 24

module _ (r : Parsers) (g : GoodParsers r) where
  Live-entry_of : (t : Token) → Live (entry_of r t)
  unfolding entry_of
  Live-entry_of Token.use_ = search (lives, Live-import) depth 24
  Live-entry_of Token.export = search lives depth 24
  Live-entry_of _ = search lives depth 24

  Good-entry : Good (tok >>= entry_of r)
  unfolding entry_of
  Good-entry = Good-tok _ (λ t p e. Live-entry_of t) (search guards depth 12)

  pub Good-parse_module : (source name : Text) → Good (parse_module r source name)
  unfolding parse_module
  Good-parse_module source name = search (guards, Good-entry) depth 24

module _ (u : CharClasses) (f : Text → Option ℕ) where
  Good-no_parsers : GoodParsers (no_parsers u f)
  unfolding no_parsers
  Good-no_parsers = record {
    type_ = Good-stuck;
    expr = λ n. Good-stuck;
    expr_inner = λ n b. Good-stuck;
    block_stmts = Good-stuck;
    if_stmt = Live-Good _ Good-stuck;
    pattern = Good-stuck;
    item = Good-stuck;
  }

  Good-next_parsers : (r : Parsers) → GoodParsers r → GoodParsers (next_parsers u f r)
  unfolding next_parsers
  Good-next_parsers r g = record {
    type_ = Good-parse_type r g;
    expr = Good-parse_expr_range r g;
    expr_inner = Good-parse_expr_inner r g;
    block_stmts = Good-parse_block r g;
    if_stmt = Live-parse_if r g;
    pattern = Good-parse_pattern r g;
    item = Good-parse_item r g;
  }

  -- On any fuel, the parsers stay inside of the tokens.
  pub parsers-Good : (n : ℕ) → GoodParsers (parsers u f n)
  unfolding parsers
  parsers-Good zero = Good-no_parsers
  parsers-Good (suc n) = Good-next_parsers (parsers u f n) (parsers-Good n)

get_elem?-snoc : {A : Type 0} (xs : List A) (y : A) → get_elem? (xs ++ y ∷ []) (length xs) ≡ some y
get_elem?-snoc [] y = refl
get_elem?-snoc (x ∷ xs) y = get_elem?-snoc xs y

Plain-eof : Plain Token.eof
unfolding Plain
Plain-eof = refl

pub new_parser-Inside :
    (source : Text) (ts : List (Token × Span)) (id : ℕ)
    → PlainTokens ts
    → Inside (length ts) (new_parser source ts id)
new_parser-Inside source ts id plain = record {
  eof_span = record { start = utf8_len source; end = utf8_len source };
  ends = get_elem?-snoc ts _;
  bound = omega arith;
  plain = All-append _ ts _ plain (Plain-eof, tt);
}

Safe-panics : {A : Type 0} (last : ℕ) (x : Parsed A) → Safe last x → x ≢ panicked
Safe-panics last x s e = subst (Safe last) e s

-- If `lex` gives tokens of a source, the string, hexadecimal and symbol literals among them as long
-- as their slices ask, and no format string, then `parse_with_name` does not panic, whatever the
-- fuel: no index into the tokens and no slice is out of bounds.
pub parse_with_name-NoPanic :
    (u : CharClasses) (f : Text → Option ℕ) (fuel : ℕ) (source name : Text) (id : ℕ)
    (ts : List (Token × Span))
    → lex u source ≡ Lexed.tokens ts
    → PlainTokens ts
    → parse_with_name u f fuel source name id ≢ panicked
unfolding parse_with_name
parse_with_name-NoPanic u f fuel source name id ts e plain =
    let good = Good-parse_module (parsers u f fuel) (parsers-Good u f fuel) source name in
    let safe =
      good.safe (length ts) (new_parser source ts id) (new_parser-Inside source ts id plain) in
    rw e (Safe-panics (length ts) _ safe)

-- An expression parsed from a parser whose tokens have `Eof` at `last`, no format string and well
-- formed literals, the position at most `last`, leaves a position inside of the tokens, of which an
-- `Eof` at the position or after it is one.
pub expr-InBounds :
    (u : CharClasses) (f : Text → Option ℕ) (fuel min_prec last : ℕ) (p : Parser) (e : ExprNode)
    (q : Parser)
    → Inside last p
    → (parsers u f fuel).expr min_prec p ≡ parsed e q
    → (k : ℕ) × (last ≤ k)
      × (q.pos ≤ k)
      × (k < length q.tokens)
      × (s : Span) × (get_elem? q.tokens k ≡ some (Token.eof, s))
expr-InBounds u f fuel min_prec last p e q i h =
    let s = ((parsers-Good u f fuel).expr min_prec).safe last p i in
    let (k, le, inside) = subst (Safe last) h s in
    (k, le, inside.bound, get_elem?-bound q.tokens k inside.ends, inside.eof_span, inside.ends)
