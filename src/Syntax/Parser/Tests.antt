-- ===== src/Syntax/Parser/Tests.antt =====
use yidika.Syntax.Parser.Items.{parse_item, item_of, type_item, item_node}
use yidika.Syntax.Parser.Types.{
  parse_type, first_type, sized, suffixes, with_generics, with_question, with_variants, variants,
}
use yidika.Syntax.Types.{TypeExpr}
use yidika.Syntax.Parser.Whole.{parse_module-at_token}
use yidika.Syntax.Parser.Names.{parse_i64, digits, ident, ident_name}
use yidika.Syntax.Parser.Prefix.{parse_prefix, prefix_of}
use yidika.Syntax.Parser.Good.Modules.{expr-InBounds, parse_with_name-NoPanic}
use yidika.Syntax.Parser.Infix.{
  parse_expr_range, parse_expr_inner, postfix_loop, postfix_of, infix_loop, infix_of, infix_op,
  compound_op, op_prec, rhs_prec, binary, over, ternary, elvis, trailing_closure, trailing_block,
}
use yidika.Syntax.Lexer.Tests.{ascii}
use yidika.Syntax.Parser.Loops.{no_span, expr_node, until_list, type_node}
use yidika.Syntax.Token.{Token}
use yidika.Diagnostics.{Span}
use yidika.Syntax.Parser.Good.{Plain, Inside, PlainTokens}
use yidika.Syntax.Lexer.Next.{lex, Lexed, utf8_len}
use yidika.Syntax.Parser.{
  at_token, parsed, advance, ◌>>=◌, peek, step, accept, take_opt, pure, tok, fresh_id, kind, Parsed,
  eat, tokens_match, take_token, ahead, opt_semicolon,
}
use yidika.Syntax.Parser.Modules.{
  parse_module, parse_with_name, parsers, next_parsers, no_parsers, entry_of,
}
use yidika.Syntax.Items.{Module, ItemNode, ItemKind}
use yidika.Syntax.Parser.Precedence.{at_place}
use yidika.Syntax.Ast.{ExprNode, TypeNode, enode, Expr, BinOp}
use yidika.Base.{
  ℕ, List, Text, codes, Option, ◌≤◌, ◌≡◌, [], ◌≢◌, ◌<◌, ◌∷◌, none, refl, false, arith, true,
  match_option, get_elem?, some,
}

-- src/syntax/parser.rs: the parser at work.

abbrev no_real : Text → Option ℕ
no_real x = none

abbrev span : ℕ → ℕ → Span
span a b = record { start = a; end = b }

abbrev alias : List (Token × Span)
alias =
    (Token.type, span 0 4)
    ∷ (Token.ident (codes "a"), span 5 6)
    ∷ (Token.eq, span 7 8)
    ∷ (Token.str_lit (codes "\"b\""), span 9 12)
    ∷ []

lex-alias : lex ascii (codes "type a = \"b\"") ≡ Lexed.tokens alias
unfolding lex
lex-alias = refl

alias-PlainTokens : PlainTokens alias
unfolding Plain
alias-PlainTokens = (refl, (refl, (refl, (refl, tt))))

parse_with_name-NoPanic_example :
    parse_with_name ascii no_real 9 (codes "type a = \"b\"") (codes "m") 0 ≢ Parsed.panicked
parse_with_name-NoPanic_example =
    parse_with_name-NoPanic ascii no_real 9 (codes "type a = \"b\"") (codes "m") 0 alias lex-alias
      alias-PlainTokens

abbrev sum : List (Token × Span)
sum =
    (Token.int_lit (codes "1"), span 0 1)
    ∷ (Token.plus, span 1 2)
    ∷ (Token.int_lit (codes "2"), span 2 3)
    ∷ (Token.eof, span 3 3)
    ∷ []

sum-Inside : Inside 3 (at_place 0 sum false 0)
unfolding Plain
sum-Inside = record {
  eof_span = span 3 3;
  ends = refl;
  bound = omega arith;
  plain = (refl, (refl, (refl, (refl, tt))));
}

abbrev sum_node : ExprNode
sum_node =
    enode 2 (span 0 1)
      (Expr.bin_op (enode 0 (span 0 1) (Expr.lit_int 1) []) BinOp.add
        (enode 1 (span 2 3) (Expr.lit_int 2) []))
      []

sum-parsed :
    (parsers ascii no_real 8).expr 0 (at_place 0 sum false 0)
    ≡ parsed sum_node (at_place 3 sum false 3)
unfolding parsers next_parsers no_parsers parse_expr_range parse_expr_inner parse_prefix advance
    ◌>>=◌ peek step prefix_of accept take_opt pure tok expr_node fresh_id postfix_loop postfix_of
    infix_loop infix_of infix_op compound_op op_prec rhs_prec binary over match_option kind ternary
    elvis trailing_closure trailing_block parse_i64 digits
sum-parsed = refl

expr-InBounds_example :
    (k : ℕ) × (3 ≤ k) × (3 ≤ k) × (k < 4) × (s : Span) × (get_elem? sum k ≡ some (Token.eof, s))
expr-InBounds_example =
    expr-InBounds ascii no_real 8 0 3 (at_place 0 sum false 0) sum_node (at_place 3 sum false 3)
      sum-Inside sum-parsed

abbrev int_alias : List (Token × Span)
int_alias =
    (Token.type, span 0 4)
    ∷ (Token.ident (codes "a"), span 5 6)
    ∷ (Token.eq, span 7 8)
    ∷ (Token.t_int 8, span 9 13)
    ∷ (Token.eof, span 13 13)
    ∷ []

abbrev int_node : TypeNode
int_node = record { id = 0; span = span 9 13; value = TypeExpr.int 8; decorators = [] }

abbrev alias_node : ItemNode
alias_node = record {
  id = 1;
  span = no_span;
  value = ItemKind.type_alias (codes "a") int_node;
  decorators = [];
}

abbrev alias_module : Module
alias_module = record {
  name = codes "m";
  span = record { start = 0; end = utf8_len (codes "type a = int8") };
  imports = [];
  exports = [];
  items = alias_node ∷ [];
}

alias-parsed :
    parse_module
      (parsers ascii no_real 4)
      (codes "type a = int8")
      (codes "m")
      (at_place 0 int_alias false 0)
    ≡ parsed alias_module (at_place 4 int_alias false 2)
unfolding parse_module parsers next_parsers no_parsers ◌>>=◌ until_list at_token tok peek pure
    entry_of parse_item item_of type_item step ident ident_name take_token match_option eat
    tokens_match parse_type first_type advance sized type_node fresh_id suffixes ahead with_generics
    accept take_opt with_question with_variants variants opt_semicolon item_node kind
alias-parsed = refl

parse_module-at_token_example :
    at_token Token.eof (at_place 4 int_alias false 2) ≡ parsed true (at_place 4 int_alias false 2)
parse_module-at_token_example =
    parse_module-at_token (parsers ascii no_real 4) (codes "type a = int8") (codes "m")
      (at_place 0 int_alias false 0) (at_place 4 int_alias false 2) alias_module alias-parsed
