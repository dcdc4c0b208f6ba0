-- ===== src/Syntax/Parser/Good/Patterns.antt =====
use yidika.Syntax.Parser.Names.{unquoted}
use yidika.Syntax.Ast.{Pattern}
use yidika.Diagnostics.{Span}
use yidika.Syntax.Token.{Token}
use yidika.Syntax.Parser.Good.Guards.{guards, lives, Live-or_panic}
use yidika.Syntax.Parser.Good.Moves.{Good-peek, Good-take_opt}
use yidika.Base.{Text, ℕ, refl, suc, List, match_option, if◌then◌else◌, [], ◌∷◌, zero}
use yidika.Syntax.Parser.Patterns.{
  pattern_of, elements, destruct_fields, destructured_list, destructured, pattern_field, ident_text,
  named_pattern, parse_pattern, list_destruct_pattern, drop_type, or_underscore,
}
use yidika.Syntax.Parser.{take_opt, kind, Parse, at_token, accept, ◌>>=◌, pure, eat, ◌>>◌}
use yidika.Syntax.Parser.Good.Turns.{GoodParsers}
use yidika.Syntax.Parser.Good.{Good, Plain, Good-stuck, Good-fail, Live, Live-Good}
use yidika.Syntax.Parser.Loops.{Parsers}

-- src/syntax/parser.rs: that `parse_pattern` and `list_destruct_pattern` stay inside of the tokens.

pub Good-take_ident : Good (take_opt ident_text)
Good-take_ident = Good-take_opt ident_text λ s. refl

module _ (r : Parsers) (g : GoodParsers r) where
  pub Good-drop_type : Good (drop_type r)
  unfolding drop_type
  Good-drop_type = search (guards) depth 24

  pub Good-pattern_field : Good (pattern_field r)
  unfolding pattern_field
  Good-pattern_field = search (guards) depth 24

  pub Good-destruct_fields : Good (destruct_fields r)
  unfolding destruct_fields
  Good-destruct_fields = search (guards, Good-pattern_field) depth 24

  pub Good-named_pattern : (x : Text) → Good (named_pattern r x)
  unfolding named_pattern
  Good-named_pattern x = search (guards, Good-destruct_fields) depth 24

  Good-elements : (n : ℕ) → Good (elements r n)
  unfolding elements
  Good-elements zero = Good-stuck
  Good-elements (suc n) = turn (elements r n) (Good-elements n)
    where
      turn :
          (again : Parse (List Pattern))
          → Good again
          → Good (
              accept Token.r_bracket >>= λ close.
              if close
              then pure []
              else accept Token.dot_dot_dot >>= λ dots.
                  if dots
                  then (take_opt ident_text >>= λ x.
                      eat Token.r_bracket >> pure (Pattern.rest (or_underscore x) ∷ []))
                  else r.pattern >>= λ p. accept Token.comma >> again >>= λ ps. pure (p ∷ ps))
      turn again h = search (guards, Good-take_ident) depth 24

  Live-pattern_of : (t : Token) (s : Span) → Plain t → Live (pattern_of r t s)
  unfolding pattern_of Plain
  Live-pattern_of (Token.ident x) s p = search (lives, Good-named_pattern) depth 24
  Live-pattern_of (Token.int_lit x) s p = search lives depth 24
  Live-pattern_of (Token.real_lit x) s p = search lives depth 24
  Live-pattern_of (Token.str_lit x) s p = Live-or_panic (unquoted x) _ p λ y. search lives depth 12
  Live-pattern_of Token.true_ s p = search lives depth 24
  Live-pattern_of Token.false_ s p = search lives depth 24
  Live-pattern_of Token.l_bracket s p = search (lives, Good-elements) depth 24
  Live-pattern_of Token.l_brace s p = search (lives, Good-destruct_fields) depth 24
  Live-pattern_of _ s p = Live-Good _ (Good-fail s)

  pub Good-parse_pattern : Good (parse_pattern r)
  unfolding parse_pattern pattern_of
  Good-parse_pattern = Good-peek _ (λ t s p e. Live-pattern_of t s p) λ s. Good-fail s

  pub Good-destructured : Good (destructured r)
  unfolding destructured kind
  Good-destructured = search (lives, Good-peek, Good-drop_type) depth 24

  Good-destructured_list : (n : ℕ) → Good (destructured_list r n)
  unfolding destructured_list
  Good-destructured_list zero = Good-stuck
  Good-destructured_list (suc n) = turn (destructured_list r n) (Good-destructured_list n)
    where
      turn :
          (again : Parse (List Pattern))
          → Good again
          → Good (
              at_token Token.r_bracket >>= λ close.
              if close
              then pure []
              else destructured r >>= λ o. match_option o (pure []) λ p.
                accept Token.comma >>= λ more.
                if more then (again >>= λ ps. pure (p ∷ ps)) else pure (p ∷ []))
      turn again h = search (guards, Good-destructured) depth 24

  pub Good-list_destruct_pattern : Good (list_destruct_pattern r)
  unfolding list_destruct_pattern
  Good-list_destruct_pattern = search (guards, Good-destructured_list) depth 24
