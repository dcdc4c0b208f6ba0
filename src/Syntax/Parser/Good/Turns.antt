-- ===== src/Syntax/Parser/Good/Turns.antt =====
use yidika.Syntax.Parser.Names.{or_panic}
use yidika.Syntax.Parser.Good.Moves.{
  Good-peek, Live-step, Good-fresh_id, Good-get_no_struct, Good-set_no_struct, Good-lookahead,
  Good-ahead, Good-step_back, Good-accept, Good-eat, Good-at_token, Good-next_span,
  Good-opt_semicolon, Good-ident, Good-field_ident, Good-tok,
}
use yidika.Syntax.Types.{TypeExpr}
use yidika.Syntax.Ast.{Expr, Stmt}
use yidika.Diagnostics.{Span}
use yidika.Base.{
  match_option, ℕ, zero, suc, [], ◌∷◌, none, some, true, false, List, Option, All, Bool, ◌≤◌, ◌≡◌,
  arith, get_elem?, refl, if◌then◌else◌,
}
use yidika.Syntax.Parser.Good.{
  Plain, Good-pure, Good-fail, NotEof, Good, Live, Good-stuck, Safe, Good-bind, Good-if, Live-bind,
  Good-option, Live-Good, widen,
}
use yidika.Syntax.Token.{Token}
use yidika.Syntax.Parser.Loops.{
  type_node, Parsers, stmt_node, expr_node, when_accepted, comma_list1, braced_list, separated,
  comma_or, each, until_list,
}
use yidika.Syntax.Parser.{
  insert_gt, eat_gt, Parse, or_back, Parsed, gt_after, ◌>>◌, gt_or_shr, insert_at, go_back, parsed,
  failed, ◌>>=◌, accept, pure, at_token, tok,
}

-- src/syntax/parser.rs: that a split of `>>`, a turn back and the loops stay inside of the tokens.

get_elem?-insert_at :
    {A : Type 0} (n i : ℕ) (x : A) (xs : List A) {y : A}
    → get_elem? xs i ≡ some y
    → n ≤ i
    → get_elem? (insert_at n x xs) (suc i) ≡ some y
get_elem?-insert_at zero i x xs e h = e
get_elem?-insert_at (suc n) i x [] e h = absurd (cc)
get_elem?-insert_at (suc n) zero x (z ∷ xs) e h = absurd (omega arith)
get_elem?-insert_at (suc n) (suc i) x (z ∷ xs) e h = get_elem?-insert_at n i x xs e (omega arith)

All-insert_at :
    {A : Type 0} (P : A → Type 0) (n : ℕ) (x : A) (xs : List A)
    → P x
    → All P xs
    → All P (insert_at n x xs)
All-insert_at P zero x xs h a = (h, a)
All-insert_at P (suc n) x [] h a = (h, tt)
All-insert_at P (suc n) x (y ∷ xs) h a = (a.0, All-insert_at P n x xs h a.1)

Plain-gt : (s : Span) → Plain (gt_after s).0
unfolding Plain
Plain-gt s = refl

Good-insert_gt : (s : Span) → Good (insert_gt s)
unfolding insert_gt
Good-insert_gt s = record {
  safe = λ last p i. (
    suc last,
    omega arith,
    record {
      eof_span = i.eof_span;
      ends = get_elem?-insert_at p.pos last (gt_after s) p.tokens i.ends i.bound;
      bound = omega (arith, i.bound);
      plain = All-insert_at (λ t. Plain t.0) p.pos (gt_after s) p.tokens (Plain-gt s) i.plain;
    },
  );
}

Live-gt_or_shr : (t : Token) (s : Span) → Live (gt_or_shr t s)
Live-gt_or_shr Token.gt s = Live-bind _ _ Live-step λ _. Good-pure s
Live-gt_or_shr Token.shr s =
    Live-bind _ _ (Live-bind _ _ Live-step λ _. Good-insert_gt s) λ _. Good-pure s
Live-gt_or_shr _ s = Live-Good _ (Good-fail s)

pub Good-eat_gt : Good eat_gt
unfolding eat_gt
Good-eat_gt = Good-peek _ (λ t s h n. Live-gt_or_shr t s) λ s. Good-fail s

pub Good-or_panic :
    {A : Type 0} (o : Option A) → match_option o false (λ _. true) ≡ true → Good (or_panic o)
unfolding match_option
Good-or_panic none h = absurd (cc)
Good-or_panic (some a) h = Good-pure a

back :
    {A : Type 0} (saved last : ℕ) (m : Parse A) (x : Parsed (Option A))
    → saved ≤ last
    → Good m
    → Safe last x
    → Safe last (go_back saved m x)
back saved last m (parsed none q) h g (k, le, i) = widen last k (m (record q { pos = saved })) le (
    g.safe k (record q { pos = saved })
      (record { eof_span = i.eof_span; ends = i.ends; bound = omega arith; plain = i.plain }))
back saved last m (parsed (some a) q) h g s = s
back saved last m (failed e) h g s = tt
back saved last m Parsed.panicked h g s = elim s [ ]
back saved last m Parsed.out_of_fuel h g s = tt

pub Good-or_back :
    {A : Type 0} (m : Parse (Option A)) (n : Parse A) → Good m → Good n → Good (or_back m n)
unfolding or_back
Good-or_back m n gm gn = record {
  safe = λ last p i. back p.pos last n (m p) i.bound gn (gm.safe last p i);
}

pub Live-or_back :
    {A : Type 0} (m : Parse (Option A)) (n : Parse A) → Live m → Good n → Live (or_back m n)
unfolding or_back
Live-or_back m n gm gn = record {
  safe = λ last p i b. back p.pos last n (m p) i.bound gn (gm.safe last p i b);
}

pub Good-then : {A B : Type 0} (m : Parse A) (n : Parse B) → Good m → Good n → Good (m >> n)
Good-then m n gm gn = Good-bind m _ gm λ _. gn

-- What the calls of less fuel do.
pub record GoodParsers (r : Parsers) : Type 0 where
  pub type_ : Good r.type_
  pub expr : (min_prec : ℕ) → Good (r.expr min_prec)
  pub expr_inner : (min_prec : ℕ) (allow_as : Bool) → Good (r.expr_inner min_prec allow_as)
  pub block_stmts : Good r.block_stmts
  pub if_stmt : Live r.if_stmt
  pub pattern : Good r.pattern
  pub item : Good r.item

pub ruleset goods = (
  Good-pure, Good-fail, Good-stuck, Good-bind, Good-if, Good-option, Good-fresh_id,
  Good-get_no_struct, Good-set_no_struct, Good-lookahead, Good-ahead, Good-step_back, Good-accept,
  Good-eat, Good-at_token, Good-next_span, Good-opt_semicolon, Good-ident, Good-field_ident,
  Good-eat_gt,
)

pub Good-type_node : (s : Span) (t : TypeExpr) → Good (type_node s t)
unfolding type_node
Good-type_node s t = search goods

pub Good-expr_node : (s : Span) (e : Expr) → Good (expr_node s e)
unfolding expr_node
Good-expr_node s e = search goods

pub Good-stmt_node : (s : Span) (e : Stmt) → Good (stmt_node s e)
unfolding stmt_node
Good-stmt_node s e = search goods

pub Good-when_accepted :
    {A : Type 0} (x : Token) (m : Parse A) → NotEof x → Good m → Good (when_accepted x m)
unfolding when_accepted
Good-when_accepted x m n g = search goods

pub Good-comma_list1 : {A : Type 0} (m : Parse A) (n : ℕ) → Good m → Good (comma_list1 m n)
unfolding comma_list1
Good-comma_list1 m zero g = Good-stuck
Good-comma_list1 m (suc n) g = turn m g (comma_list1 m n) (Good-comma_list1 m n g)
  where
    turn :
        {A : Type 0} (m : Parse A) (g : Good m) (again : Parse (List A))
        → Good again
        → Good (
            m >>= λ a. accept Token.comma >>= λ more.
            if more then (again >>= λ rest. pure (a ∷ rest)) else pure (a ∷ []))
    turn m g again h = search goods

pub Good-separated :
    {A : Type 0} (stop : Token → Bool) (sep : Parse Bool) (m : Parse A) (n : ℕ)
    → Good sep
    → Good m
    → Good (separated stop sep m n)
unfolding separated
Good-separated stop sep m zero gs g = Good-stuck
Good-separated {A = A} stop sep m (suc n) gs g =
    turn (separated stop sep m n) (Good-separated stop sep m n gs g)
  where
    turn :
        (again : Parse (List A))
        → Good again
        → Good (
            tok >>= λ t.
            if stop t
            then pure []
            else m >>= λ a.
                sep >>= λ more. if more then (again >>= λ rest. pure (a ∷ rest)) else pure (a ∷ []))
    turn again h = Good-tok _ (λ t p e. Live-Good _ (search goods depth 12)) (search goods depth 12)

pub Good-comma_or : (close : Token) → Good (comma_or close)
unfolding comma_or
Good-comma_or close = search goods depth 12

pub Good-braced_list :
    {A : Type 0} (close : Token) (m : Parse A) (n : ℕ)
    → NotEof close
    → Good m
    → Good (braced_list close m n)
unfolding braced_list
Good-braced_list close m zero e g = Good-stuck
Good-braced_list {A = A} close m (suc n) e g =
    turn (braced_list close m n) (Good-braced_list close m n e g)
  where
    turn :
        (again : Parse (List A))
        → Good again
        → Good (
            accept close >>= λ stop.
            if stop
            then pure []
            else m >>= λ a. comma_or close >>= λ _. again >>= λ rest. pure (a ∷ rest))
    turn again h = search (goods, Good-comma_or) depth 12

pub Good-until_list :
    {A : Type 0} (close : Token) (m : Parse A) (n : ℕ) → Good m → Good (until_list close m n)
unfolding until_list
Good-until_list close m zero g = Good-stuck
Good-until_list {A = A} close m (suc n) g =
    turn (until_list close m n) (Good-until_list close m n g)
  where
    turn :
        (again : Parse (List A))
        → Good again
        → Good (
            at_token close >>= λ stop.
            if stop then pure [] else m >>= λ a. again >>= λ rest. pure (a ∷ rest))
    turn again h = search goods depth 12

pub Good-each :
    {A B : Type 0} (f : A → Parse B) (xs : List A) → ((a : A) → Good (f a)) → Good (each f xs)
unfolding each
Good-each f [] g = Good-pure []
Good-each f (x ∷ xs) g = Good-bind _ _ (g x) λ b. Good-bind _ _ (Good-each f xs g) λ bs. Good-pure _

pub Good-type_ : (r : Parsers) → GoodParsers r → Good r.type_
Good-type_ r g = g.type_

pub Good-expr : (r : Parsers) (min_prec : ℕ) → GoodParsers r → Good (r.expr min_prec)
Good-expr r min_prec g = g.expr min_prec

pub Good-expr_inner :
    (r : Parsers) (min_prec : ℕ) (allow_as : Bool)
    → GoodParsers r
    → Good (r.expr_inner min_prec allow_as)
Good-expr_inner r min_prec allow_as g = g.expr_inner min_prec allow_as

pub Good-block_stmts : (r : Parsers) → GoodParsers r → Good r.block_stmts
Good-block_stmts r g = g.block_stmts

pub Good-pattern : (r : Parsers) → GoodParsers r → Good r.pattern
Good-pattern r g = g.pattern

pub Good-item : (r : Parsers) → GoodParsers r → Good r.item
Good-item r g = g.item

pub ruleset more_goods = (
  goods, Good-type_node, Good-expr_node, Good-stmt_node, Good-when_accepted, Good-comma_list1,
  Good-separated, Good-comma_or, Good-braced_list, Good-until_list, Good-each, Good-type_,
  Good-expr, Good-expr_inner, Good-block_stmts, Good-pattern, Good-item,
)
