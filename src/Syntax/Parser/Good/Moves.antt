-- ===== src/Syntax/Parser/Good/Moves.antt =====
use yidika.Syntax.Parser.Names.{field_ident, field_name, ident_name, ident}
use yidika.Diagnostics.{Span}
use yidika.Syntax.Token.{Token}
use yidika.Syntax.Parser.Good.{
  Good, NotEof, Live, Inside, BeforeEof, Plain, Safe, Live-bind, Good-bind, Live-Good, Good-pure,
  Live-option, Good-fail,
}
use yidika.Base.{
  match_option, Bool, arith, ℕ, suc, ◌≤◌, ◌≢◌, List, refl, ap, get_elem?, ◌∙◌, ◌≡◌, some,
  All-get_elem?, get_elem?-lt, get_elem?-bound, subst, sym, Option, none,
}
use yidika.Syntax.Parser.{
  set_no_struct, step, lookahead, ahead, get_no_struct, step_back, fresh_id, kind, Parser, peek,
  ◌>>=◌, Parse, advance, tok, fail, Parsed, pure, take_opt, next_span, opt_semicolon, accept, eat,
  take_token, continue, at_token, peeked, eat_if, span_if, tokens_match,
}

-- src/syntax/parser.rs: that the methods which read, pass and split tokens stay inside of them.

pub Good-fresh_id : Good fresh_id
unfolding fresh_id
Good-fresh_id = record {
  safe = λ last p i. (
    last,
    omega arith,
    record { eof_span = i.eof_span; ends = i.ends; bound = i.bound; plain = i.plain },
  );
}

pub Good-get_no_struct : Good get_no_struct
unfolding get_no_struct
Good-get_no_struct = record { safe = λ last p i. (last, omega arith, i) }

pub Good-set_no_struct : (b : Bool) → Good (set_no_struct b)
unfolding set_no_struct
Good-set_no_struct b = record {
  safe = λ last p i. (
    last,
    omega arith,
    record { eof_span = i.eof_span; ends = i.ends; bound = i.bound; plain = i.plain },
  );
}

pub Good-lookahead : Good lookahead
unfolding lookahead
Good-lookahead = record { safe = λ last p i. (last, omega arith, i) }

pub Good-ahead : Good ahead
unfolding ahead match_option
Good-ahead = record { safe = λ last p i. (last, omega arith, i) }

pub Good-step_back : Good step_back
unfolding step_back
Good-step_back = record {
  safe = λ last p i. (
    last,
    omega arith,
    record {
      eof_span = i.eof_span;
      ends = i.ends;
      bound = omega (arith, i.bound);
      plain = i.plain;
    },
  );
}

-- The position of a token other than `Eof` is not the last.
before_last : (last : ℕ) (p : Parser) → Inside last p → BeforeEof p → p.pos ≢ last
before_last last p i b e = b (Token.eof, i.eof_span) (ap (get_elem? p.tokens) e ∙ i.ends)

pub stepped :
    (last : ℕ) (p : Parser)
    → Inside last p
    → BeforeEof p
    → Inside last (record p { pos = suc p.pos })
stepped last p i b = record {
  eof_span = i.eof_span;
  ends = i.ends;
  bound = omega (arith, i.bound, before_last last p i b);
  plain = i.plain;
}

pub Live-step : Live step
unfolding step
Live-step = record { safe = λ last p i b. (last, omega arith, stepped last p i b) }

get_elem?-before :
    {A : Type 0} (xs : List A) (n i : ℕ) (x : A)
    → get_elem? xs n ≡ some x
    → i ≤ n
    → (y : A) × (get_elem? xs i ≡ some y)
get_elem?-before xs n i x e h = get_elem?-lt xs i (omega (arith, get_elem?-bound xs n e))

-- A token is `Eof` or is not.
eof_or_not : (A : Token → Type 0) → A Token.eof → ((t : Token) → NotEof t → A t) → (t : Token) → A t
eof_or_not A e n Token.eof = e
eof_or_not A e n t = n t tt

-- What a read of the next token gives.
pub next_token :
    (last : ℕ) (p : Parser)
    → Inside last p
    → (t : Token × Span) × (get_elem? p.tokens p.pos ≡ some t) × Plain t.0
next_token last p i =
    let (t, e) = get_elem?-before p.tokens last p.pos _ i.ends i.bound in
    (t, e, All-get_elem? (λ t. Plain t.0) p.tokens p.pos i.plain e)

pub current :
    (p : Parser) (t : Token × Span) → get_elem? p.tokens p.pos ≡ some t → NotEof t.0 → BeforeEof p
unfolding match_option
current p t e n u d = same t u (cc (e, d)) n
  where
    same : (t u : Token × Span) → some t ≡ some u → NotEof t.0 → NotEof u.0
    same t u h n = subst (λ o. match_option o Unit λ v. NotEof v.0) h n

peek_step :
    {A : Type 0} (f : Token × Span → Parse A) (p : Parser) (t : Token × Span)
    → get_elem? p.tokens p.pos ≡ some t
    → (peek >>= f) p ≡ f t p
unfolding peek ◌>>=◌
peek_step f p t e = ap (λ o. continue (peeked o p) f) e

-- What is safe at the next token is safe after a read of it.
read_safe :
    {A : Type 0} (last : ℕ) (p : Parser) (x : Parsed A) (f : Token × Span → Parse A)
    → Inside last p
    → ((t : Token × Span) → get_elem? p.tokens p.pos ≡ some t → x ≡ f t p)
    → ((t : Token) (s : Span) → Plain t → NotEof t → Live (f (t, s)))
    → ((s : Span) → Good (f (Token.eof, s)))
    → Safe last x
read_safe last p x f i reads live good =
    let ((t, s), e, plain) = next_token last p i in
    let at_next =
      eof_or_not (λ u. Plain u → get_elem? p.tokens p.pos ≡ some (u, s) → Safe last (f (u, s) p))
        (λ h d. (good s).safe last p i)
        (λ u n h d. (live u s h n).safe last p i (current p (u, s) d n)) t in
    subst (Safe last) (sym (reads (t, s) e)) (at_next plain e)

pub Good-peek :
    {A : Type 0} (f : Token × Span → Parse A)
    → ((t : Token) (s : Span) → Plain t → NotEof t → Live (f (t, s)))
    → ((s : Span) → Good (f (Token.eof, s)))
    → Good (peek >>= f)
Good-peek f live good = record {
  safe = λ last p i. read_safe last p _ f i (peek_step f p) live good;
}

tok_step :
    {A : Type 0} (f : Token → Parse A) (p : Parser) (t : Token × Span)
    → get_elem? p.tokens p.pos ≡ some t
    → (tok >>= f) p ≡ f t.0 p
unfolding tok peek pure ◌>>=◌
tok_step f p t e = ap (λ o. continue (continue (peeked o p) λ t. pure t.0) f) e

pub Good-tok :
    {A : Type 0} (f : Token → Parse A)
    → ((t : Token) → Plain t → NotEof t → Live (f t))
    → Good (f Token.eof)
    → Good (tok >>= f)
Good-tok f live good = record {
  safe = λ last p i. read_safe last p _ (λ t. f t.0) i (tok_step f p) (λ t s. live t) λ s. good;
}

pub advance_run :
    {A : Type 0} (f : Token → Span → Parse A) (p : Parser) (t : Token × Span)
    → get_elem? p.tokens p.pos ≡ some t
    → advance f p ≡ (step >>= λ _. f t.0 t.1) p
unfolding advance
advance_run f p t e = peek_step (λ u. step >>= λ _. f u.0 u.1) p t e

pub Live-advance :
    {A : Type 0} (f : Token → Span → Parse A)
    → ((t : Token) (s : Span) → Plain t → NotEof t → Good (f t s))
    → Live (advance f)
Live-advance f good = record {
  safe = λ last p i b.
      let (t, e, plain) = next_token last p i in
      let live = Live-bind step (λ _. f t.0 t.1) Live-step (λ _. good t.0 t.1 plain (b t e)) in
      subst (Safe last) (sym (advance_run f p t e)) (live.safe last p i b);
}

refused_eof : {A : Type 0} (m : Parse A) (s : Span) → m ≡ fail s → Good (step >>= λ _. m)
unfolding step fail ◌>>=◌
refused_eof m s e = record {
  safe = λ last p i. subst (λ n. Safe last (n (record p { pos = suc p.pos }))) (sym e) tt;
}

-- An `Eof` that is passed has to be refused.
pub Good-advance :
    {A : Type 0} (f : Token → Span → Parse A)
    → ((t : Token) (s : Span) → Plain t → NotEof t → Good (f t s))
    → ((s : Span) → f Token.eof s ≡ fail s)
    → Good (advance f)
unfolding advance
Good-advance f good refused =
    Good-peek _ (λ t s h n. Live-bind step (λ _. f t s) Live-step (λ _. good t s h n))
      λ s. refused_eof (f Token.eof s) s (refused s)

at_none :
    {A B : Type 0} (o : Option A) (m : Parse B) (g : A → Parse B)
    → o ≡ none
    → Good m
    → Good (match_option o m g)
unfolding match_option
at_none none m g e gm = gm
at_none (some a) m g e gm = absurd (cc)

pub Good-take_token :
    {A : Type 0} (f : Token → Span → Option A)
    → ((s : Span) → f Token.eof s ≡ none)
    → Good (take_token f)
unfolding take_token
Good-take_token f refused =
    Good-peek _
      (λ t s h n.
        Live-option (f t s) _ _ (Live-Good _ (Good-fail s))
          λ a. Live-bind _ _ Live-step λ _. Good-pure a)
      λ s. at_none (f Token.eof s) (fail s) _ (refused s) (Good-fail s)

pub Good-take_opt :
    {A : Type 0} (f : Token → Span → Option A)
    → ((s : Span) → f Token.eof s ≡ none)
    → Good (take_opt f)
unfolding take_opt
Good-take_opt f refused =
    Good-peek _
      (λ t s h n.
        Live-option (f t s) _ _ (Live-Good _ (Good-pure none))
          λ a. Live-bind _ _ Live-step λ _. Good-pure (some a))
      λ s. at_none (f Token.eof s) (pure none) _ (refused s) (Good-pure none)

span_if-eof : (x : Token) → NotEof x → (s : Span) → span_if x Token.eof s ≡ none
unfolding kind
span_if-eof Token.eof n s = elim n [ ]
span_if-eof _ n s = refl

eat_if-eof : (x : Token) → NotEof x → (s : Span) → eat_if x Token.eof s ≡ none
unfolding tokens_match
eat_if-eof Token.eof n s = elim n [ ]
eat_if-eof _ n s = refl

pub Good-accept : (x : Token) → NotEof x → Good (accept x)
unfolding accept
Good-accept x n = Good-bind _ _ (Good-take_opt (span_if x) (span_if-eof x n)) λ o. Good-pure _

pub Good-eat : (x : Token) → NotEof x → Good (eat x)
unfolding eat
Good-eat x n = Good-take_token (eat_if x) (eat_if-eof x n)

pub Good-at_token : (x : Token) → Good (at_token x)
unfolding at_token
Good-at_token x = Good-tok _ (λ t h n. Live-Good _ (Good-pure _)) (Good-pure _)

pub Good-next_span : Good next_span
unfolding next_span
Good-next_span = Good-peek _ (λ t s h n. Live-Good _ (Good-pure _)) λ s. Good-pure _

pub Good-opt_semicolon : Good opt_semicolon
unfolding opt_semicolon
Good-opt_semicolon = Good-bind _ _ (Good-accept _ tt) λ b. Good-pure tt

pub Good-ident : Good ident
unfolding ident ident_name
Good-ident = Good-take_token _ λ s. refl

pub Good-field_ident : Good field_ident
unfolding field_ident field_name
Good-field_ident = Good-take_token _ λ s. refl
