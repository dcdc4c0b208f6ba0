-- ===== src/Syntax/Parser/Types.antt =====
-- src/syntax/parser.rs: `type_`.
use yidika.Syntax.Parser.Loops.{Parsers, type_node, comma_list1}
use yidika.Syntax.Parser.Names.{parse_u8, or_number}
use yidika.Syntax.Parser.{
  is, kind, Parse, accept, advance, pure, stuck, ◌>>=◌, eat_gt, take_opt, eat, ahead, ◌>>◌, fail,
  at_token,
}
use yidika.Base.{
  ℕ, zero, suc, Bool, false, ◌||◌, Option, none, some, List, [], ◌∷◌, Text, codes, text_eq,
  if◌then◌else◌, ltb, match_option, ◌&&◌,
}
use yidika.Diagnostics.{Span, merge}
use yidika.Syntax.Token.{Token}
use yidika.Syntax.Types.{TypeExpr, TypeList, nil, cons}
use yidika.Syntax.Ast.{TypeNode}

abbrev pub int_text : Token → Span → Option (Text × Span)
int_text (Token.int_lit x) s = some (x, s)
int_text _ s = none

-- `int8`, or `int 8`, or `int`.
unfoldable pub sized : (ℕ → TypeExpr) → ℕ → Span → Parse TypeNode
unfolding merge parse_u8
sized c w s =
    if ltb 0 w
    then type_node s (c w)
    else take_opt int_text >>= λ o.
        match_option o (type_node s (c 0))
          λ x. type_node (merge s x.1) (c (or_number (parse_u8 x.0) 0))

abbrev list_of : List TypeExpr → TypeList
list_of [] = nil
list_of (t ∷ ts) = cons t (list_of ts)

-- The type that generic arguments make of a named type.
abbrev applied : Text → List TypeExpr → TypeExpr
applied x (t ∷ []) =
    if text_eq x (codes "List") || text_eq x (codes "list")
    then TypeExpr.list t
    else if text_eq x (codes "Set") || text_eq x (codes "set")
    then TypeExpr.set t
    else if text_eq x (codes "Vector")
    then TypeExpr.vector t
    else if text_eq x (codes "Matrix")
    then TypeExpr.matrix t
    else TypeExpr.generic x (cons t nil)
applied x (t ∷ u ∷ []) =
    if text_eq x (codes "Map") || text_eq x (codes "map")
    then TypeExpr.map t u
    else TypeExpr.generic x (cons t (cons u nil))
applied x ts = TypeExpr.generic x (list_of ts)

unfoldable pub apply_args : TypeExpr → List TypeExpr → Option TypeExpr
unfolding text_eq
apply_args (TypeExpr.named x) ts = some (applied x ts)
apply_args _ ts = none

abbrev pub is_some_bracket : Option Token → Bool
is_some_bracket none = false
is_some_bracket (some t) = is Token.r_bracket t

-- `[]` after a type.
unfoldable pub suffixes : ℕ → TypeNode → Parse TypeNode
unfolding kind
suffixes zero t = stuck
suffixes (suc n) t = at_token Token.l_bracket >>= λ open_. ahead >>= λ next.
    if open_ && is_some_bracket next
    then (advance
        λ _ _. advance λ _ _. type_node t.span (TypeExpr.list t.value) >>= λ u. suffixes n u)
    else pure t

module _ (r : Parsers) where
  unfoldable pub inner : (TypeExpr → TypeExpr) → Span → Token → Parse TypeNode
  inner c s close = r.type_ >>= λ t. eat close >> type_node s (c t.value)

  unfoldable pub two_inner : (TypeExpr → TypeExpr → TypeExpr) → Span → Token → Parse TypeNode
  two_inner c s close = r.type_ >>= λ t.
      eat Token.comma >> (r.type_ >>= λ u. eat close >> type_node s (c t.value u.value))

  unfoldable pub named_type : Text → Span → Parse TypeNode
  unfolding text_eq
  named_type x s =
      if text_eq x (codes "auto")
      then type_node s TypeExpr.infer
      else if text_eq x (codes "set")
      then (accept Token.l_bracket >>= λ b.
          if b then inner TypeExpr.set s Token.r_bracket else type_node s (TypeExpr.named x))
      else if text_eq x (codes "list")
      then (accept Token.l_bracket >>= λ b.
          if b then inner TypeExpr.list s Token.r_bracket else type_node s (TypeExpr.named x))
      else type_node s (TypeExpr.named x)

  -- The type that begins with a token.
  unfoldable pub first_type : Token → Span → Parse TypeNode
  first_type (Token.t_int w) s = sized TypeExpr.int w s
  first_type (Token.t_rint w) s = sized TypeExpr.rint w s
  first_type (Token.t_real w) s = sized TypeExpr.real w s
  first_type Token.t_complex s = accept Token.l_bracket >>= λ b.
      if b
      then two_inner TypeExpr.complex s Token.r_bracket
      else type_node s (TypeExpr.complex (TypeExpr.real 0) (TypeExpr.real 0))
  first_type Token.t_bool s = type_node s TypeExpr.bool
  first_type Token.t_str s = type_node s TypeExpr.str
  first_type Token.t_symbol s = type_node s TypeExpr.symbol
  first_type Token.t_vector s = type_node s (TypeExpr.vector TypeExpr.infer)
  first_type Token.t_matrix s = type_node s (TypeExpr.matrix TypeExpr.infer)
  first_type Token.t_map s = accept Token.l_bracket >>= λ b.
      if b
      then two_inner TypeExpr.map s Token.r_bracket
      else type_node s (TypeExpr.map TypeExpr.str TypeExpr.infer)
  first_type Token.l_brace s = two_inner TypeExpr.map s Token.r_brace
  first_type Token.l_bracket s = inner TypeExpr.list s Token.r_bracket
  first_type (Token.ident x) s = named_type x s
  first_type Token.const s = accept Token.lt >>= λ b.
      if b
      then (r.type_ >>= λ t. eat_gt >> type_node s (TypeExpr.const t.value))
      else type_node s (TypeExpr.const TypeExpr.infer)
  first_type _ s = fail s

  unfoldable pub with_generics : TypeNode → Parse TypeNode
  unfolding apply_args
  with_generics t = accept Token.lt >>= λ b.
      if b
      then (comma_list1 (r.type_ >>= λ a. pure a.value) r.fuel >>= λ args.
          eat_gt >> match_option (apply_args t.value args) (fail t.span) λ u. type_node t.span u)
      else pure t

  unfoldable pub with_question : TypeNode → Parse TypeNode
  with_question t = accept Token.question >>= λ b.
      if b then type_node t.span (TypeExpr.nullable t.value) else pure t

  -- `while self.tok() == &Token::Pipe`
  unfoldable pub variants : ℕ → Span → Parse (List TypeExpr × Span)
  unfolding merge
  variants zero s = stuck
  variants (suc n) s = accept Token.pipe >>= λ b.
      if b
      then (r.type_ >>= λ t. variants n (merge s t.span) >>= λ v. pure (t.value ∷ v.0, v.1))
      else pure ([], s)

  abbrev pub union_of : TypeNode → List TypeExpr → Span → Parse TypeNode
  union_of t [] s = pure t
  union_of t (u ∷ us) s = type_node s (TypeExpr.union (cons t.value (list_of (u ∷ us))))

  unfoldable pub with_variants : TypeNode → Parse TypeNode
  with_variants t = variants r.fuel t.span >>= λ v. union_of t v.0 v.1

  -- `type_`
  unfoldable pub parse_type : Parse TypeNode
  unfolding first_type
  parse_type = advance first_type >>= λ t.
      suffixes r.fuel t >>= λ u. with_generics u >>= λ v. with_question v >>= λ w. with_variants w
