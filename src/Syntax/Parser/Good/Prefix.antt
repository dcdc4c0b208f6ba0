-- ===== src/Syntax/Parser/Good/Prefix.antt =====
use yidika.Syntax.Parser.Names.{sliced, unquoted}
use yidika.Syntax.Parser.Good.Stmts.{Good-paren_expr}
use yidika.Syntax.Parser.Good.Literals.{
  Good-call_args, Live-struct_lit, Live-set_lit, Live-map_lit, Good-call, Live-tuple_lit,
  Good-brace_lit, Good-parse_match,
}
use yidika.Syntax.Parser.{kind, Parse, advance, at_token, ◌>>=◌, pure}
use yidika.Diagnostics.{Span}
use yidika.Syntax.Token.{Token}
use yidika.Syntax.Parser.Good.Moves.{Good-advance, Good-tok, Good-get_no_struct}
use yidika.Syntax.Parser.Good.Guards.{guards, lives, Good-at_token_and}
use yidika.Syntax.Parser.Good.{
  Good, Plain, Live, Good-bind, NotEof, Live-Good, Good-stuck, Good-fail,
}
use yidika.Syntax.Ast.{ExprNode, UnOp, Expr}
use yidika.Base.{Text, ℕ, suc, List, if◌then◌else◌, [], ◌∷◌, zero, not, refl}
use yidika.Syntax.Parser.Good.Turns.{GoodParsers, Good-expr_node, Good-or_panic}
use yidika.Syntax.Parser.Loops.{Parsers}
use yidika.Syntax.Parser.Prefix.{
  closure_param, inferred_param, variant_lit, named_expr, try_expr, wrapped, closure_body,
  imaginary, unary, keyword_expr, fn_param, prefix_of, if_expr, struct_or_name, paren, parse_prefix,
  items_after, tuple_or_closure, closure, vector_lit, fn_lit, list_lit,
}

-- src/syntax/parser.rs: that `prefix` stays inside of the tokens.

pub Good-inferred_param : (x : Text) → Good (inferred_param x)
unfolding inferred_param
Good-inferred_param x = search guards depth 12

Good-closure_param : (e : ExprNode) → Good (closure_param e)
unfolding closure_param
Good-closure_param e = Good-inferred_param _

module _ (r : Parsers) (g : GoodParsers r) where
  pub Good-closure_body : (s : Span) → Good (closure_body r s)
  unfolding closure_body
  Good-closure_body s = search (guards) depth 24

  pub Good-closure : (s : Span) (es : List ExprNode) → Good (closure r s es)
  unfolding closure
  Good-closure s es =
      search (guards, Good-closure_param, Good-closure_param, Good-closure_body) depth 24

  Live-items_after :
      (separator : Token) (n : ℕ) → NotEof separator → Live (items_after r separator n)
  unfolding items_after
  Live-items_after separator zero e = Live-Good _ Good-stuck
  Live-items_after separator (suc n) e =
      turn (items_after r separator n) (Live-items_after separator n e)
    where
      turn :
          (again : Parse (List ExprNode))
          → Live again
          → Live (
              advance λ _ _. at_token Token.r_paren >>= λ close.
              if close
              then pure []
              else r.expr 0 >>= λ e. at_token separator >>= λ more.
                  if more then (again >>= λ es. pure (e ∷ es)) else pure (e ∷ []))
      turn again h = search lives depth 24

  pub Live-vector_lit : (e : ExprNode) (s : Span) → Live (vector_lit r e s)
  unfolding vector_lit
  Live-vector_lit e s = search (lives, Live-items_after) depth 24

  pub Live-tuple_or_closure : (e : ExprNode) (s : Span) → Live (tuple_or_closure r e s)
  unfolding tuple_or_closure
  Live-tuple_or_closure e s = search (lives, Good-closure, Live-items_after) depth 24

  pub Good-paren : (s : Span) → Good (paren r s)
  unfolding paren kind
  Good-paren s =
      search (lives, Good-tok, Good-closure, Live-vector_lit, Live-tuple_or_closure) depth 24

  pub Good-variant_lit : (x : Text) (s : Span) → Good (variant_lit r x s)
  unfolding variant_lit
  Good-variant_lit x s = search (guards, Good-call_args) depth 24

  pub Good-struct_or_name : (x : Text) (s : Span) → Good (struct_or_name r x s)
  unfolding struct_or_name
  Good-struct_or_name x s = Good-bind _ _ Good-get_no_struct λ f.
      Good-at_token_and Token.l_brace (not f) _ _ tt (Live-struct_lit r g x s) (Good-expr_node s _)

  pub Good-named_expr : (x : Text) (s : Span) → Good (named_expr r x s)
  unfolding named_expr kind
  Good-named_expr x s =
      search
        (
          lives, Live-set_lit, Live-tuple_lit, Live-map_lit, Good-call, Good-tok, Good-variant_lit,
          Good-struct_or_name,
        )
        depth 24

  pub Good-keyword_expr : (x : Text) (s : Span) → Good (keyword_expr r x s)
  unfolding keyword_expr kind
  Good-keyword_expr x s =
      search (lives, Live-map_lit, Good-call, Good-tok, Good-struct_or_name) depth 24

  pub Good-unary : (op : UnOp) (s : Span) → Good (unary r op s)
  unfolding unary
  Good-unary op s = search (guards) depth 24

  pub Good-wrapped : (c : (ExprNode → Expr)) (s : Span) → Good (wrapped r c s)
  unfolding wrapped
  Good-wrapped c s = search (guards) depth 24

  pub Good-imaginary : (zero_ : Expr) (value : Expr) (s : Span) → Good (imaginary r zero_ value s)
  unfolding imaginary
  Good-imaginary zero_ value s = search (guards) depth 24

  pub Good-fn_param : Good (fn_param r)
  unfolding fn_param
  Good-fn_param =
      search (guards, Good-inferred_param, Good-inferred_param, Good-inferred_param) depth 24

  pub Good-fn_lit : (s : Span) → Good (fn_lit r s)
  unfolding fn_lit
  Good-fn_lit s = search (guards, Good-fn_param) depth 24

  pub Good-list_lit : (s : Span) → Good (list_lit r s)
  unfolding list_lit
  Good-list_lit s = search (guards) depth 24

  pub Good-if_expr : (s : Span) → Good (if_expr r s)
  unfolding if_expr
  Good-if_expr s = search (guards, Good-paren_expr) depth 24

  pub Good-try_expr : (s : Span) → Good (try_expr r s)
  unfolding try_expr
  Good-try_expr s = search (guards) depth 24

  Good-prefix_of : (t : Token) (s : Span) → Plain t → Good (prefix_of r t s)
  unfolding prefix_of Plain
  Good-prefix_of (Token.int_lit x) s p = Good-expr_node s _
  Good-prefix_of (Token.hex_lit x) s p =
      Good-bind _ _ (Good-or_panic (sliced 2 x) p) λ y. Good-expr_node s _
  Good-prefix_of (Token.real_lit x) s p = Good-expr_node s _
  Good-prefix_of (Token.imag_int x) s p = Good-imaginary _ _ s
  Good-prefix_of (Token.imag_real x) s p = Good-imaginary _ _ s
  Good-prefix_of (Token.str_lit x) s p =
      Good-bind _ _ (Good-or_panic (unquoted x) p) λ y. Good-expr_node s _
  Good-prefix_of Token.true_ s p = Good-expr_node s _
  Good-prefix_of Token.false_ s p = Good-expr_node s _
  Good-prefix_of Token.null s p = Good-expr_node s _
  Good-prefix_of Token.none_ s p = Good-expr_node s _
  Good-prefix_of (Token.symbol_lit x) s p =
      Good-bind _ _ (Good-or_panic (sliced 1 x) p) λ y. Good-expr_node s _
  Good-prefix_of (Token.char_lit c) s p = Good-expr_node s _
  Good-prefix_of (Token.ident x) s p = Good-named_expr x s
  Good-prefix_of (Token.t_int w) s p = Good-keyword_expr _ s
  Good-prefix_of (Token.t_rint w) s p = Good-keyword_expr _ s
  Good-prefix_of (Token.t_real w) s p = Good-keyword_expr _ s
  Good-prefix_of Token.t_complex s p = Good-keyword_expr _ s
  Good-prefix_of Token.t_bool s p = Good-keyword_expr _ s
  Good-prefix_of Token.t_str s p = Good-keyword_expr _ s
  Good-prefix_of Token.t_symbol s p = Good-keyword_expr _ s
  Good-prefix_of Token.t_vector s p = Good-keyword_expr _ s
  Good-prefix_of Token.t_matrix s p = Good-keyword_expr _ s
  Good-prefix_of Token.t_map s p = Good-keyword_expr _ s
  Good-prefix_of Token.infiny s p = Good-keyword_expr _ s
  Good-prefix_of Token.open_ s p = Good-keyword_expr _ s
  Good-prefix_of Token.abstract s p = Good-keyword_expr _ s
  Good-prefix_of Token.data_ s p = Good-keyword_expr _ s
  Good-prefix_of Token.init s p = Good-keyword_expr _ s
  Good-prefix_of Token.super s p = Good-keyword_expr _ s
  Good-prefix_of Token.override s p = Good-keyword_expr _ s
  Good-prefix_of Token.final s p = Good-keyword_expr _ s
  Good-prefix_of Token.minus s p = Good-unary _ s
  Good-prefix_of Token.bang s p = Good-unary _ s
  Good-prefix_of Token.tilde s p = Good-unary _ s
  Good-prefix_of Token.l_paren s p = Good-paren s
  Good-prefix_of Token.l_brace s p = Good-brace_lit r g s
  Good-prefix_of Token.fn s p = Good-fn_lit s
  Good-prefix_of Token.l_bracket s p = Good-list_lit s
  Good-prefix_of Token.ok_kw s p = Good-wrapped _ s
  Good-prefix_of Token.error_kw s p = Good-wrapped _ s
  Good-prefix_of Token.spawn s p = Good-wrapped _ s
  Good-prefix_of Token.await s p = Good-wrapped _ s
  Good-prefix_of Token.if_ s p = Good-if_expr s
  Good-prefix_of Token.match_ s p = Good-parse_match r g s
  Good-prefix_of Token.try s p = Good-try_expr s
  Good-prefix_of (Token.backtick_str x) s p = Good-expr_node s _
  Good-prefix_of (Token.f_str_lit x) s p = absurd (cc)
  Good-prefix_of _ s p = Good-fail s

  pub Good-parse_prefix : Good (parse_prefix r)
  unfolding parse_prefix prefix_of
  Good-parse_prefix = Good-advance _ (λ t s p e. Good-prefix_of t s p) λ s. refl
