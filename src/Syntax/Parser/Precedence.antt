-- ===== src/Syntax/Parser/Precedence.antt =====
use yidika.Syntax.Lexer.{CharClasses}
use yidika.Syntax.Parser.Loops.{no_span}
use yidika.Diagnostics.{Span}
use yidika.Syntax.Token.{Token}
use yidika.Syntax.Ast.{ExprNode, BinOp, Expr, enode}
use yidika.Syntax.Parser.Names.{parse_i64, or_number}
use yidika.Syntax.Parser.Modules.{parsers}
use yidika.Syntax.Parser.Infix.{op_prec, is_pow}
use yidika.Syntax.Parser.{Parsed, parsed, Parser}
use yidika.Base.{
  Text, ℕ, List, if◌then◌else◌, Bool, ltb, map, ◌∷◌, ◌||◌, [], ◌&&◌, Option, ◌≡◌, suc,
}

-- src/syntax/parser.rs: how `expr` groups two operators.

-- Numbers and operators, without the nodes' identifiers and spans.
pub data Tree : Type 0 where
  num : ℕ → Tree
  node : Tree → BinOp → Tree → Tree
  other : Tree

abbrev pub tree : ExprNode → Tree
tree (enode id s (Expr.lit_int n) ds) = num n
tree (enode id s (Expr.bin_op l op e) ds) = node (tree l) op (tree e)
tree _ = other

abbrev pub tree_of : Parsed ExprNode → Tree
tree_of (parsed e p) = tree e
tree_of _ = other

-- The token of an operator.
abbrev pub token_of : BinOp → Token
token_of BinOp.add = Token.plus
token_of BinOp.sub = Token.minus
token_of BinOp.mul = Token.star
token_of BinOp.div = Token.slash
token_of BinOp.mod_ = Token.percent
token_of BinOp.pow = Token.star_star
token_of BinOp.bit_and = Token.ref
token_of BinOp.bit_or = Token.pipe
token_of BinOp.bit_xor = Token.caret
token_of BinOp.shl = Token.shl
token_of BinOp.shr = Token.shr
token_of BinOp.eq = Token.eq_eq
token_of BinOp.ne = Token.not_eq
token_of BinOp.lt = Token.lt
token_of BinOp.gt = Token.gt
token_of BinOp.le = Token.lt_eq
token_of BinOp.ge = Token.gt_eq
token_of BinOp.and = Token.and
token_of BinOp.or = Token.or
token_of BinOp.assign = Token.eq

-- Whether the second of two operators takes the number between them.
unfoldable pub right_first : BinOp → BinOp → Bool
unfolding op_prec
right_first a b = ltb (op_prec a) (op_prec b) || (is_pow a && is_pow b)

unfoldable pub grouped : BinOp → BinOp → Tree → Tree → Tree → Tree
unfolding right_first
grouped a b x y z = if right_first a b then node x a (node y b z) else node (node x a y) b z

abbrev pub no_spans : List Token → List (Token × Span)
no_spans ts = map (λ t. (t, no_span)) ts

abbrev pub two_ops : Text → BinOp → Text → BinOp → Text → List (Token × Span)
two_ops x a y b z =
    no_spans (
      Token.int_lit x
      ∷ token_of a
      ∷ Token.int_lit y
      ∷ token_of b
      ∷ Token.int_lit z
      ∷ Token.eof
      ∷ [])

unfoldable pub leaf : Text → Tree
unfolding parse_i64
leaf x = num (or_number (parse_i64 10 x) 0)

abbrev pub eight_more : ℕ → ℕ
eight_more n = suc (suc (suc (suc (suc (suc (suc (suc n)))))))

abbrev Groups :
    CharClasses → (Text → Option ℕ) → ℕ → ℕ → Bool → Text → Text → Text → BinOp → BinOp → Type 0
Groups u f fuel id no_struct x y z a b =
    tree_of (
      (parsers u f (eight_more fuel)).expr 0
        (record { tokens = two_ops x a y b z; pos = 0; no_struct = no_struct; next_id = id }))
    ≡ grouped a b (leaf x) (leaf y) (leaf z)

abbrev pub at_place : ℕ → List (Token × Span) → Bool → ℕ → Parser
at_place pos ts no_struct id = record {
  tokens = ts;
  pos = pos;
  no_struct = no_struct;
  next_id = id;
}
