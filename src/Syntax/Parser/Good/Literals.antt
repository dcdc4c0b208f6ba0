-- ===== src/Syntax/Parser/Good/Literals.antt =====
use yidika.Syntax.Parser.Good.Moves.{Good-tok}
use yidika.Syntax.Parser.Good.Guards.{guards, lives}
use yidika.Syntax.Ast.{ExprNode}
use yidika.Syntax.Parser.{kind, Parse, accept, ◌>>=◌, pure}
use yidika.Syntax.Token.{Token}
use yidika.Base.{Text, ℕ, suc, List, if◌then◌else◌, [], ◌∷◌, zero}
use yidika.Syntax.Parser.Good.{Good, Live, Good-stuck, NotEof}
use yidika.Diagnostics.{Span}
use yidika.Syntax.Parser.Literals.{
  keyed_pair, map_pair, struct_lit, struct_field, map_pairs, items_to, match_arms, key_node,
  tuple_lit, match_arm, map_lit, set_lit, shorthand_pair, computed_pair, call, call_args, brace_lit,
  parse_match, Arm,
}
use yidika.Syntax.Parser.Good.Turns.{GoodParsers}
use yidika.Syntax.Parser.Loops.{Parsers}

-- src/syntax/parser.rs: that calls and literals stay inside of the tokens.

module _ (r : Parsers) (g : GoodParsers r) where
  pub Good-call_args : Good (call_args r)
  unfolding call_args
  Good-call_args = search (guards) depth 24

  pub Good-call : (x : Text) (s : Span) → Good (call r x s)
  unfolding call
  Good-call x s = search (guards, Good-call_args) depth 24

  pub Good-items_to : (close : Token) → NotEof close → Good (items_to r close)
  unfolding items_to
  Good-items_to close e = search (guards) depth 24

  pub Live-set_lit : (s : Span) → Live (set_lit r s)
  unfolding set_lit
  Live-set_lit s = search (lives, Good-items_to) depth 24

  pub Live-tuple_lit : (s : Span) → Live (tuple_lit r s)
  unfolding tuple_lit
  Live-tuple_lit s = search (lives, Good-items_to) depth 24

  pub Good-computed_pair : Good (computed_pair r)
  unfolding computed_pair
  Good-computed_pair = search (guards) depth 24

  pub Good-shorthand_pair : Good (shorthand_pair r)
  unfolding shorthand_pair
  Good-shorthand_pair = search (guards) depth 24

  pub Good-key_node : (k : ExprNode) → Good (key_node r k)
  unfolding key_node
  Good-key_node k = search (guards) depth 24

  pub Good-keyed_pair : Good (keyed_pair r)
  unfolding keyed_pair
  Good-keyed_pair = search (guards, Good-key_node) depth 24

  pub Good-map_pair : Good (map_pair r)
  unfolding map_pair kind
  Good-map_pair =
      search (lives, Good-tok, Good-computed_pair, Good-shorthand_pair, Good-keyed_pair) depth 24

  pub Good-map_pairs : (s : Span) → Good (map_pairs r s)
  unfolding map_pairs
  Good-map_pairs s = search (guards, Good-map_pair) depth 24

  pub Live-map_lit : (s : Span) → Live (map_lit r s)
  unfolding map_lit
  Live-map_lit s = search (lives, Good-map_pairs) depth 24

  pub Good-struct_field : Good (struct_field r)
  unfolding struct_field
  Good-struct_field = search (guards) depth 24

  pub Live-struct_lit : (x : Text) (s : Span) → Live (struct_lit r x s)
  unfolding struct_lit
  Live-struct_lit x s = search (lives, Good-struct_field) depth 24

  pub Good-match_arm : Good (match_arm r)
  unfolding match_arm
  Good-match_arm = search (guards) depth 24

  Good-match_arms : (n : ℕ) → Good (match_arms r n)
  unfolding match_arms
  Good-match_arms zero = Good-stuck
  Good-match_arms (suc n) = turn (match_arms r n) (Good-match_arms n)
    where
      turn :
          (again : Parse (List Arm))
          → Good again
          → Good (
              accept Token.r_brace >>= λ close.
              if close then pure [] else match_arm r >>= λ a. again >>= λ arms. pure (a ∷ arms))
      turn again h = search (guards, Good-match_arm) depth 24

  pub Good-parse_match : (s : Span) → Good (parse_match r s)
  unfolding parse_match
  Good-parse_match s = search (guards, Good-match_arms) depth 24

  pub Good-brace_lit : (s : Span) → Good (brace_lit r s)
  unfolding brace_lit kind
  Good-brace_lit s = search (lives, Good-tok, Good-items_to, Good-map_pairs) depth 24
