-- ===== src/Syntax/Parser/Good/Types.antt =====
use yidika.Syntax.Parser.Good.Brackets.{Good-suffixes}
use yidika.Syntax.Parser.{Parse, accept, ◌>>=◌, pure}
use yidika.Syntax.Parser.Good.Moves.{Good-take_opt, Good-advance}
use yidika.Syntax.Ast.{TypeNode}
use yidika.Syntax.Token.{Token}
use yidika.Syntax.Parser.Good.{Good, NotEof, Good-fail, Good-stuck, Good-bind, Good-pure}
use yidika.Syntax.Types.{TypeExpr}
use yidika.Base.{ℕ, Text, ◌≡◌, none, refl, List, suc, if◌then◌else◌, ◌∷◌, [], zero}
use yidika.Syntax.Parser.Good.Turns.{GoodParsers, more_goods, Good-type_node}
use yidika.Diagnostics.{Span, merge}
use yidika.Syntax.Parser.Loops.{Parsers}
use yidika.Syntax.Parser.Types.{
  sized, int_text, first_type, with_generics, inner, two_inner, named_type, with_question, variants,
  with_variants, parse_type, union_of,
}

-- src/syntax/parser.rs: that `type_` stays inside of the tokens.

int_text-eof : (s : Span) → int_text Token.eof s ≡ none
int_text-eof s = refl

Good-sized : (c : ℕ → TypeExpr) (w : ℕ) (s : Span) → Good (sized c w s)
unfolding sized
Good-sized c w s = search (more_goods, Good-take_opt, int_text-eof) depth 12

module _ (r : Parsers) (g : GoodParsers r) where
  Good-inner :
      (c : TypeExpr → TypeExpr) (s : Span) (close : Token) → NotEof close → Good (inner r c s close)
  unfolding inner
  Good-inner c s close e = search more_goods depth 12

  Good-two_inner :
      (c : TypeExpr → TypeExpr → TypeExpr) (s : Span) (close : Token)
      → NotEof close
      → Good (two_inner r c s close)
  unfolding two_inner
  Good-two_inner c s close e = search more_goods depth 12

  Good-named_type : (x : Text) (s : Span) → Good (named_type r x s)
  unfolding named_type
  Good-named_type x s = search (more_goods, Good-inner) depth 16

  Good-first_type : (t : Token) (s : Span) → Good (first_type r t s)
  unfolding first_type
  Good-first_type (Token.t_int w) s = Good-sized _ w s
  Good-first_type (Token.t_rint w) s = Good-sized _ w s
  Good-first_type (Token.t_real w) s = Good-sized _ w s
  Good-first_type Token.t_complex s = search (more_goods, Good-two_inner) depth 12
  Good-first_type Token.t_bool s = Good-type_node s _
  Good-first_type Token.t_str s = Good-type_node s _
  Good-first_type Token.t_symbol s = Good-type_node s _
  Good-first_type Token.t_vector s = Good-type_node s _
  Good-first_type Token.t_matrix s = Good-type_node s _
  Good-first_type Token.t_map s = search (more_goods, Good-two_inner) depth 12
  Good-first_type Token.l_brace s = Good-two_inner _ s _ tt
  Good-first_type Token.l_bracket s = Good-inner _ s _ tt
  Good-first_type (Token.ident x) s = Good-named_type x s
  Good-first_type Token.const s = search more_goods depth 12
  Good-first_type _ s = Good-fail s

  Good-with_generics : (t : TypeNode) → Good (with_generics r t)
  unfolding with_generics
  Good-with_generics t = search more_goods depth 20

  Good-with_question : (t : TypeNode) → Good (with_question r t)
  unfolding with_question
  Good-with_question t = search more_goods depth 12

  Good-variants : (n : ℕ) (s : Span) → Good (variants r n s)
  unfolding variants
  Good-variants zero s = Good-stuck
  Good-variants (suc n) s = turn (variants r n) (Good-variants n)
    where
      turn :
          (again : Span → Parse (List TypeExpr × Span))
          → ((u : Span) → Good (again u))
          → Good (
              accept Token.pipe >>= λ b.
              if b
              then (r.type_ >>= λ t. again (merge s t.span) >>= λ v.
                  pure {A = List TypeExpr × Span} (t.value ∷ v.0, v.1))
              else pure ([], s))
      turn again h = search more_goods depth 12

  Good-union_of : (t : TypeNode) (ts : List TypeExpr) (s : Span) → Good (union_of r t ts s)
  Good-union_of t [] s = Good-pure t
  Good-union_of t (u ∷ us) s = Good-type_node s _

  Good-with_variants : (t : TypeNode) → Good (with_variants r t)
  unfolding with_variants
  Good-with_variants t = Good-bind _ _ (Good-variants r.fuel t.span) λ v. Good-union_of t v.0 v.1

  pub Good-parse_type : Good (parse_type r)
  unfolding parse_type
  Good-parse_type = Good-bind _ _ (Good-advance _ (λ t s p e. Good-first_type t s) λ s. refl) λ t.
      Good-bind _ _ (Good-suffixes r.fuel t) λ u.
        Good-bind _ _ (Good-with_generics u)
          λ v. Good-bind _ _ (Good-with_question v) λ w. Good-with_variants w
