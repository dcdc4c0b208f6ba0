-- ===== src/Syntax/Parser/Loops.antt =====
-- src/syntax/parser.rs: the loops that the parser repeats, and the parsers that call each other. A
-- recursive call goes through `Parsers`, with less fuel, and so does each turn of a loop.
use yidika.Syntax.Parser.{
  Parse, stuck, accept, fresh_id, ◌>>=◌, pure, fail, at_token, next_span, tok, is,
}
use yidika.Base.{ℕ, zero, suc, Bool, Option, none, some, List, [], ◌∷◌, Text, if◌then◌else◌, ◌||◌}
use yidika.Diagnostics.{Span}
use yidika.Syntax.Token.{Token}
use yidika.Syntax.Lexer.{CharClasses}
use yidika.Syntax.Types.{TypeExpr}
use yidika.Syntax.Ast.{TypeNode, ExprNode, Expr, enode, StmtNode, Stmt, snode, StmtList, Pattern}
use yidika.Syntax.Items.{ItemNode}

pub record Parsers : Type 0 where
  pub fuel : ℕ
  -- `parse::<f64>`, as the 64-bit pattern of the number
  pub parse_f64 : Text → Option ℕ
  pub classes : CharClasses
  pub type_ : Parse TypeNode
  pub expr : ℕ → Parse ExprNode
  pub expr_inner : ℕ → Bool → Parse ExprNode
  pub block_stmts : Parse StmtList
  pub if_stmt : Parse StmtNode
  pub pattern : Parse Pattern
  pub item : Parse ItemNode

-- `loop { .. stop => break, _ => { push(item); if separator { advance } else { break } } }`
unfoldable pub separated : {A : Type 0} → (Token → Bool) → Parse Bool → Parse A → ℕ → Parse (List A)
separated stop separator item zero = stuck
separated stop separator item (suc n) = tok >>= λ t.
    if stop t
    then pure []
    else item >>= λ a. separator >>= λ more.
        if more
        then (separated stop separator item n >>= λ rest. pure (a ∷ rest))
        else pure (a ∷ [])

abbrev pub comma_list : {A : Type 0} → (Token → Bool) → Parse A → ℕ → Parse (List A)
comma_list stop item n = separated stop (accept Token.comma) item n

-- `RParen | Eof`
abbrev pub ends_params : Token → Bool
ends_params t = is Token.r_paren t || is Token.eof t

abbrev pub closes : Token → Bool
closes t = is Token.r_paren t

-- `loop { push(item); if comma { advance } else { break } }`
unfoldable pub comma_list1 : {A : Type 0} → Parse A → ℕ → Parse (List A)
comma_list1 item zero = stuck
comma_list1 item (suc n) = item >>= λ a. accept Token.comma >>= λ more.
    if more then (comma_list1 item n >>= λ rest. pure (a ∷ rest)) else pure (a ∷ [])

-- After an entry: `if comma { advance } else if not close { return Err(..) }`.
unfoldable pub comma_or : Token → Parse (Unit {0})
comma_or close = accept Token.comma >>= λ more.
    if more
    then pure tt
    else at_token close >>= λ last. if last then pure tt else next_span >>= λ s. fail s

-- `loop { .. close => { advance; break }, _ => { push(item); comma_or(close) } }`
unfoldable pub braced_list : {A : Type 0} → Token → Parse A → ℕ → Parse (List A)
braced_list close item zero = stuck
braced_list close item (suc n) = accept close >>= λ stop.
    if stop
    then pure []
    else item >>= λ a. comma_or close >>= λ _. braced_list close item n >>= λ rest. pure (a ∷ rest)

-- `while self.tok() != &close { push(item) }`
unfoldable pub until_list : {A : Type 0} → Token → Parse A → ℕ → Parse (List A)
until_list close item zero = stuck
until_list close item (suc n) = at_token close >>= λ stop.
    if stop then pure [] else item >>= λ a. until_list close item n >>= λ rest. pure (a ∷ rest)

abbrev pub no_span : Span
no_span = record { start = 0; end = 0 }

unfoldable pub type_node : Span → TypeExpr → Parse TypeNode
type_node s t = fresh_id >>= λ id. pure (record { id = id; span = s; value = t; decorators = [] })

unfoldable pub expr_node : Span → Expr → Parse ExprNode
expr_node s e = fresh_id >>= λ id. pure (enode id s e [])

unfoldable pub stmt_node : Span → Stmt → Parse StmtNode
stmt_node s e = fresh_id >>= λ id. pure (snode id s e [])

abbrev pub expr_span : ExprNode → Span
expr_span (enode id s e ds) = s

abbrev pub expr_value : ExprNode → Expr
expr_value (enode id s e ds) = e

-- `if self.tok() == &x { self.advance(); Some(m) } else { None }`
unfoldable pub when_accepted : {A : Type 0} → Token → Parse A → Parse (Option A)
when_accepted x m = accept x >>= λ b. if b then (m >>= λ a. pure (some a)) else pure none

-- A parser for each element, in order.
unfoldable pub each : {A B : Type 0} → (A → Parse B) → List A → Parse (List B)
each f [] = pure []
each f (a ∷ as_) = f a >>= λ b. each f as_ >>= λ bs. pure (b ∷ bs)
