-- ===== src/Syntax/Parser/Good/Brackets.antt =====
use yidika.Syntax.Parser.Good.Turns.{Good-type_node}
use yidika.Syntax.Parser.Good.Moves.{
  next_token, Live-advance, Good-ahead, advance_run, stepped, current, Good-tok,
}
use yidika.Syntax.Parser.Good.Guards.{is-eof, Good-test}
use yidika.Diagnostics.{Span}
use yidika.Syntax.Parser.Good.{
  NotEof, Good, Good-stuck, Live, Inside, BeforeEof, Safe, Live-Good, Good-bind, Good-pure,
}
use yidika.Syntax.Ast.{TypeNode}
use yidika.Syntax.Token.{Token}
use yidika.Base.{
  match_option, ℕ, Bool, Option, ◌≡◌, get_elem?, suc, if◌then◌else◌, true, none, ◌&&◌, some, ap,
  subst, sym, Bool-cases, inl, inr, zero, false, refl,
}
use yidika.Syntax.Parser.{step, kind, ahead, ◌>>=◌, Parse, is, Parser, advance}
use yidika.Syntax.Parser.Types.{suffixes, is_some_bracket}

-- src/syntax/parser.rs: that the loop of `type_` over `[]` stays inside of the tokens. It passes two
-- tokens after it has seen both.

NotEof-is : (x t : Token) → NotEof x → is x t ≡ true → NotEof t
unfolding kind
NotEof-is x Token.eof n h = absurd (cc (is-eof x n, h))
NotEof-is x _ n h = tt

looked :
    {A : Type 0} (f : Option Token → Parse A) (p : Parser) (o : Option (Token × Span))
    → get_elem? p.tokens (suc p.pos) ≡ o
    → (ahead >>= f) p ≡ f (match_option o none λ t. some t.0) p
unfolding ahead ◌>>=◌
looked f p o e = ap (λ o. f (match_option o none λ t. some t.0) p) e

-- After a token that is not the last, what passes another that is not the last.
passed_two :
    {A : Type 0} (m : Parse A) (last : ℕ) (p : Parser) (u : Token × Span)
    → Good m
    → Inside last p
    → BeforeEof p
    → get_elem? p.tokens (suc p.pos) ≡ some u
    → NotEof u.0
    → Safe last ((advance λ _ _. advance λ _ _. m) p)
unfolding step ◌>>=◌
passed_two m last p u g i b e n =
    let (t, d, plain) = next_token last p i in
    let second = Live-advance (λ _ _. m) (λ t s h k. g) in
    let q = record p { pos = suc p.pos } in
    subst (Safe last) (sym (advance_run (λ _ _. advance λ _ _. m) p t d))
      (second.safe last q (stepped last p i b) (current q u e n))

Live-two :
    {A : Type 0} (c : Bool) (m n : Parse A)
    → Good m
    → Good n
    → Live (
        ahead >>= λ next.
        if c && is_some_bracket next then (advance λ _ _. advance λ _ _. m) else n)
unfolding match_option
Live-two false m n gm gn = Live-Good _ (Good-bind _ _ Good-ahead λ next. gn)
Live-two {A = A} true m n gm gn = record {
  safe = λ last p i b. split last p i b (get_elem? p.tokens (suc p.pos)) refl;
}
  where
    branch : Option Token → Parse A
    branch next = if is_some_bracket next then (advance λ _ _. advance λ _ _. m) else n

    split :
        (last : ℕ) (p : Parser)
        → Inside last p
        → BeforeEof p
        → (o : Option (Token × Span)) → get_elem? p.tokens (suc p.pos) ≡ o
        → Safe last ((ahead >>= branch) p)
    split last p i b none e = subst (Safe last) (sym (looked branch p none e)) (gn.safe last p i)
    split last p i b (some u) e =
        subst (Safe last) (sym (looked branch p (some u) e))
          (elim (Bool-cases (is Token.r_bracket u.0)) [
            | inl h ↦
                subst (λ c. Safe last ((if c then (advance λ _ _. advance λ _ _. m) else n) p))
                  (sym h) (passed_two m last p u gm i b e (NotEof-is Token.r_bracket u.0 tt h))
            | inr h ↦
                subst (λ c. Safe last ((if c then (advance λ _ _. advance λ _ _. m) else n) p))
                  (sym h) (gn.safe last p i)
          ])

pub Good-suffixes : (n : ℕ) (t : TypeNode) → Good (suffixes n t)
unfolding suffixes
Good-suffixes zero t = Good-stuck
Good-suffixes (suc n) t = Good-test Token.l_bracket _ (
    Good-tok _
      (λ x p e.
        Live-two (is Token.l_bracket x) _ _
          (Good-bind _ _ (Good-type_node t.span _) λ u. Good-suffixes n u) (Good-pure t))
      (Good-bind _ _ Good-ahead λ next. Good-pure t))
