-- ===== src/Syntax/Lexer/Spans.antt =====
-- `lex` ends, and the spans of its tokens are in order.
use yidika.Base.{ℕ, zero, suc, ◌+◌, ◌≤◌, ◌<◌, ◌≡◌, List, [], ◌∷◌, arith, length, Text}
use yidika.Base.{drop, length-drop}
use yidika.Diagnostics.{Span}
use yidika.Syntax.Token.{Token}
use yidika.Syntax.Lexer.{CharClasses, SkipMode, outside, line_comment, block_comment, Lexeme}
use yidika.Syntax.Lexer.Next.{
  Next, ended, panicked, token, Lexed, tokens, panics, out_of_fuel, prepend, lexed, skip, next_from,
  next, collect, lex,
}
use yidika.Syntax.Lexer.Bounds.{InBounds, no_token, within, token_at-InBounds}

-- Spans from `from` to `to`, each of one character or more, none beginning before the last one ended.
abbrev pub InOrder : ℕ → ℕ → List (Token × Span) → Type 0
InOrder from to [] = from ≤ to
InOrder from to ((t, s) ∷ r) = (from ≤ s.start) × (s.start < s.end) × InOrder s.end to r

abbrev pub Spans : ℕ → ℕ → Lexed → Type 0
Spans from to (tokens ts) = InOrder from to ts
Spans from to panics = Unit {0}
Spans from to out_of_fuel = ⊥

-- What one call of `next` leaves: it has moved on, by the characters that it has taken.
abbrev Advances : Text → ℕ → Next → Type 0
Advances s pos ended = Unit {0}
Advances s pos panicked = Unit {0}
Advances s pos (token t span rest end) =
    (pos ≤ span.start)
    × (span.start < span.end)
    × (span.end ≡ end)
    × (length rest + end ≡ length s + pos)

module _ (u : CharClasses) where
  skip-le : (mode : SkipMode) (s : Text) → skip u mode s ≤ length s
  unfolding skip
  skip-le outside [] = omega arith
  skip-le line_comment [] = omega arith
  skip-le block_comment [] = omega arith
  skip-le outside (c ∷ []) = ground arith
  skip-le outside (c ∷ d ∷ r) =
      ground (arith, skip-le outside (d ∷ r), skip-le line_comment r, skip-le block_comment r)
  skip-le line_comment (c ∷ r) = ground (arith, skip-le outside r, skip-le line_comment r)
  skip-le block_comment (c ∷ []) = omega arith
  skip-le block_comment (c ∷ d ∷ r) =
      ground (arith, skip-le outside r, skip-le block_comment (d ∷ r))

  lexed-Advances :
      (s : Text) (start : ℕ) {l : Lexeme} → InBounds s l → Advances s start (lexed l s start)
  unfolding lexed
  lexed-Advances s start no_token = tt
  lexed-Advances s start (within {t} {n} h) = omega (arith, length-drop n s)

  next_from-Advances : (s : Text) (start : ℕ) → Advances s start (next_from u s start)
  unfolding next_from
  next_from-Advances [] start = tt
  next_from-Advances (c ∷ r) start = lexed-Advances (c ∷ r) start (token_at-InBounds u c r)

  move_start :
      (s s' : Text) (pos k : ℕ) (n : Next)
      → length s' + k ≡ length s
      → Advances s' (pos + k) n
      → Advances s pos n
  move_start s s' pos k ended e h = tt
  move_start s s' pos k panicked e h = tt
  move_start s s' pos k (token t span rest end) e h = omega arith

  next-Advances : (s : Text) (pos : ℕ) → Advances s pos (next u s pos)
  unfolding next
  next-Advances s pos =
      move_start s (drop (skip u outside s) s) pos (skip u outside s) _
        (omega (arith, length-drop (skip u outside s) s, skip-le outside s))
        (next_from-Advances (drop (skip u outside s) s) (pos + skip u outside s))

  prepend-Spans :
      (from to : ℕ) (t : Token) (s : Span) (l : Lexed)
      → from ≤ s.start
      → s.start < s.end
      → Spans s.end to l
      → Spans from to (prepend (t, s) l)
  prepend-Spans from to t s (tokens ts) h k r = (h, k, r)
  prepend-Spans from to t s panics h k r = tt
  prepend-Spans from to t s out_of_fuel h k r = r

  after_next :
      (fuel : ℕ) (s : Text) (pos : ℕ)
      → ((rest : Text) (end : ℕ)
          → length rest < fuel
          → Spans end (end + length rest) (collect u fuel rest end))
      → length s < suc fuel
      → (n : Next) → Advances s pos n
      → Spans pos (pos + length s) (elim n [
        | ended ↦ tokens []
        | panicked ↦ panics
        | token t span rest end ↦ prepend (t, span) (collect u fuel rest end)
      ])
  after_next fuel s pos ih h ended a = omega arith
  after_next fuel s pos ih h panicked a = tt
  after_next fuel s pos ih h (token t span rest end) a =
      let e : end + length rest ≡ pos + length s = omega arith in
      prepend-Spans pos (pos + length s) t span (collect u fuel rest end) a.0 a.1
        (rw (a.2, ← e) (ih rest end (omega arith)))

  collect-Spans :
      (fuel : ℕ) (s : Text) (pos : ℕ)
      → length s < fuel
      → Spans pos (pos + length s) (collect u fuel s pos)
  unfolding collect
  collect-Spans zero s pos h = absurd (omega arith)
  collect-Spans (suc fuel) s pos h =
      after_next fuel s pos (λ rest end k. collect-Spans fuel rest end k) h (next u s pos)
        (next-Advances s pos)

  -- `lex` never runs out of fuel: it panics, or gives tokens whose spans hold one character or more
  -- each, lie within the source, and stand in the order of the tokens without overlapping.
  pub lex-Spans : (source : Text) → Spans 0 (length source) (lex u source)
  unfolding lex
  lex-Spans source =
      let e : 0 + length source ≡ length source = omega arith in
      rw e at (collect-Spans (suc (length source)) source 0 (omega arith))
