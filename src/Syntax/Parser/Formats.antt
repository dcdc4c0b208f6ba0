-- ===== src/Syntax/Parser/Formats.antt =====
use yidika.Syntax.Lexer.Next.{Lexed, lex, utf8_len}
use yidika.Syntax.Token.{Token}
use yidika.Syntax.Ast.{ExprNode, Expr, BinOp, ExprList}
use yidika.Diagnostics.{Span}
use yidika.Syntax.Lexer.{CharClasses}
use yidika.Syntax.Parser.{Parser, Parse, Parsed, parsed, failed, pure, ◌>>=◌, fail}
use yidika.Syntax.Parser.Loops.{Parsers, expr_node, each}
use yidika.Base.{
  ℕ, Text, ◌∷◌, List, ◌⊎◌, ◌++◌, if◌then◌else◌, Option, inl, false, [], ◌==◌, suc, some, inr, none,
  ◌-◌, codes,
}

-- src/syntax/parser.rs: `parse_fstring` and `parse_expr`. The format string is cut into its parts
-- first, one character at a time, and the parts are parsed in their order.

-- Where a character of a format string stands: in text, after a `{` or a `}` of text that may be
-- doubled, in an expression at a depth, or after an error.
pub data Place : Type 0 where
  outside opened closing broken : Place
  inside : ℕ → Place

pub data Piece : Type 0 where
  text_piece expr_piece : Text → Piece
  broken_piece : Piece

pub record Cut : Type 0 where
  pub place : Place
  -- `text`, or `expr_src` inside an expression
  pub held : Text
  pub pieces : List Piece

abbrev open_brace : ℕ
open_brace = 123

abbrev close_brace : ℕ
close_brace = 125

-- `if !text.is_empty() { parts.push(..) }`
abbrev flushed : Text → List Piece → List Piece
flushed [] ps = ps
flushed (c ∷ cs) ps = ps ++ text_piece (c ∷ cs) ∷ []

abbrev moved_to : Place → Text → List Piece → Cut
moved_to place held ps = record { place = place; held = held; pieces = ps }

-- A character of an expression.
abbrev within : ℕ → ℕ → Text → List Piece → Cut
within depth c held ps =
    if c == open_brace
    then moved_to (inside (suc depth)) (held ++ c ∷ []) ps
    else if c == close_brace
    then (if depth == 1
        then moved_to outside [] (ps ++ expr_piece held ∷ [])
        else moved_to (inside (depth - 1)) (held ++ c ∷ []) ps)
    else moved_to (inside depth) (held ++ c ∷ []) ps

abbrev cut_at : Place → ℕ → Text → List Piece → Cut
cut_at outside c held ps =
    if c == open_brace
    then moved_to opened held ps
    else if c == close_brace
    then moved_to closing held ps
    else moved_to outside (held ++ c ∷ []) ps
cut_at opened c held ps =
    if c == open_brace
    then moved_to outside (held ++ c ∷ []) ps
    else within 1 c [] (flushed held ps)
cut_at closing c held ps =
    if c == close_brace then moved_to outside (held ++ c ∷ []) ps else moved_to broken held ps
cut_at broken c held ps = moved_to broken held ps
cut_at (inside depth) c held ps = within depth c held ps

unfoldable pub cut : Text → Cut → Cut
cut [] k = k
cut (c ∷ cs) k = cut cs (cut_at k.place c k.held k.pieces)

abbrev finished : Place → Text → List Piece → List Piece
finished outside held ps = flushed held ps
finished _ held ps = ps ++ broken_piece ∷ []

unfoldable pub pieces_of : Text → List Piece
unfolding cut
pieces_of raw = let k = cut raw (moved_to outside [] []) in finished k.place k.held k.pieces

abbrev trim_start : CharClasses → Text → Text
trim_start u [] = []
trim_start u (c ∷ cs) = let rest = trim_start u cs in if u.is_whitespace c then rest else c ∷ cs

abbrev trim_end : CharClasses → Text → Text
trim_end u [] = []
trim_end u (c ∷ cs) = trimmed c (trim_end u cs)
  where
    trimmed : ℕ → Text → Text
    trimmed c [] = if u.is_whitespace c then [] else c ∷ []
    trimmed c (d ∷ ds) = c ∷ d ∷ ds

unfoldable pub trim : CharClasses → Text → Text
trim u s = trim_end u (trim_start u s)

-- The tokens of a source, and `Eof`.
abbrev pub with_eof : Text → List (Token × Span) → List (Token × Span)
with_eof source ts =
    ts ++ (Token.eof, record { start = utf8_len source; end = utf8_len source }) ∷ []

abbrev pub new_parser : Text → List (Token × Span) → ℕ → Parser
new_parser source ts id = record {
  tokens = with_eof source ts;
  pos = 0;
  no_struct = false;
  next_id = id;
}

abbrev with_id : {A : Type 0} → Parser → Parsed A → Parsed A
with_id p (parsed a q) = parsed a (record p { next_id = q.next_id })
with_id p (failed s) = failed s
with_id p Parsed.panicked = Parsed.panicked
with_id p Parsed.out_of_fuel = Parsed.out_of_fuel

-- A parser of its own for a source, of which the identifiers go on.
abbrev pub on_lexed : {A : Type 0} → Text → Parse A → Lexed → Parse A
on_lexed source m (Lexed.tokens ts) p = with_id p (m (new_parser source ts p.next_id))
on_lexed source m Lexed.panics p = Parsed.panicked
on_lexed source m Lexed.out_of_fuel p = Parsed.out_of_fuel

module _ (r : Parsers) where
  -- `parse_expr`
  unfoldable pub parse_expr : Text → Parse ExprNode
  unfolding lex
  parse_expr source = on_lexed source (r.expr 0) (lex r.classes source)

  abbrev part_of : Span → Piece → Parse (Text ⊎ ExprNode)
  part_of s (text_piece x) = pure (inl x)
  part_of s (expr_piece x) = parse_expr (trim r.classes x) >>= λ e. pure (inr e)
  part_of s broken_piece = fail s

  abbrev part_node : Span → Text ⊎ ExprNode → Parse ExprNode
  part_node s (inl x) = expr_node s (Expr.lit_str x)
  part_node s (inr e) = expr_node s (Expr.ident (codes "str")) >>= λ f.
      expr_node s (Expr.call f (ExprList.econs e ExprList.enil))

  abbrev joined : Span → Option ExprNode → List (Text ⊎ ExprNode) → Parse ExprNode
  joined s none [] = expr_node s (Expr.lit_str [])
  joined s (some e) [] = pure e
  joined s none (x ∷ xs) = part_node s x >>= λ e. joined s (some e) xs
  joined s (some l) (x ∷ xs) =
      part_node s x >>= λ e. expr_node s (Expr.bin_op l BinOp.add e) >>= λ b. joined s (some b) xs

  -- `parse_fstring`
  unfoldable pub parse_fstring : Text → Span → Parse ExprNode
  unfolding pieces_of trim
  parse_fstring raw s = each (part_of s) (pieces_of raw) >>= λ xs. joined s none xs
