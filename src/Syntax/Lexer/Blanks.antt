-- ===== src/Syntax/Lexer/Blanks.antt =====
-- What `skip` consumes, as a grammar: blank space, comments to the end of the line, and comments in
-- `/*` and `*/`.
use yidika.Base.{
  ℕ, ◌≡◌, refl, inl, inr, Bool, true, false, ◌&&◌, ◌||◌, [], ◌∷◌, ◌++◌, ◌==◌, Bool-cases, Text,
  drop, All, arith,
}
use yidika.Syntax.Lexer.{CharClasses, SkipMode, outside, line_comment, block_comment}
use yidika.Syntax.Lexer.Next.{skip}

-- `c` and the text behind it close a comment.
abbrev pub closes : ℕ → Text → Bool
closes c [] = false
closes c (d ∷ r) = c == b'*' && d == b'/'

-- No `*/` anywhere.
abbrev pub NeverCloses : Text → Type 0
NeverCloses [] = Unit {0}
NeverCloses (c ∷ r) = (closes c r ≡ false) × NeverCloses r

module _ (u : CharClasses) where
  -- The end, or a character that is no blank space and begins no comment.
  abbrev pub BeginsToken : Text → Type 0
  BeginsToken [] = Unit {0}
  BeginsToken (c ∷ []) = u.is_whitespace c ≡ false
  BeginsToken (c ∷ d ∷ r) =
      (u.is_whitespace c ≡ false) × ((c == b'/' && (d == b'/' || d == b'*')) ≡ false)

  mutual
    -- Blank space and comments, and then the rest, which begins a token.
    pub data Blanks : Text → Text → Type 0 where
      at_token : (r : Text) → BeginsToken r → Blanks r r
      blank : (c : ℕ) (s r : Text) → u.is_whitespace c ≡ true → Blanks s r → Blanks (c ∷ s) r
      line :
          (s r : Text) → LineComment s r → u.is_whitespace b'/' ≡ false → Blanks (b'/' ∷ b'/' ∷ s) r
      block :
          (s r : Text)
          → BlockComment s r
          → u.is_whitespace b'/' ≡ false
          → Blanks (b'/' ∷ b'*' ∷ s) r

    -- Behind `//`: characters up to the first line feed, or to the end.
    pub data LineComment : Text → Text → Type 0 where
      line_closed :
          (body s r : Text)
          → All (λ c. (c == 10) ≡ false) body
          → Blanks s r
          → LineComment (body ++ (10 ∷ s)) r
      line_open : (body : Text) → All (λ c. (c == 10) ≡ false) body → LineComment body []

    -- Behind `/*`: characters up to the first `*/`, or to the end.
    pub data BlockComment : Text → Text → Type 0 where
      block_closed :
          (body s r : Text)
          → NeverCloses body
          → Blanks s r
          → BlockComment (body ++ (b'*' ∷ b'/' ∷ s)) r
      block_open : (body : Text) → NeverCloses body → BlockComment body []

  line_longer : (c : ℕ) (s r : Text) → (c == 10) ≡ false → LineComment s r → LineComment (c ∷ s) r
  line_longer c _ r h (line_closed body s _ k b) = line_closed (c ∷ body) s r (h, k) b
  line_longer c _ _ h (line_open body k) = line_open (c ∷ body) (h, k)

  block_longer :
      (c : ℕ) (s r : Text) → closes c s ≡ false → BlockComment s r → BlockComment (c ∷ s) r
  block_longer c _ r h (block_closed [] s _ k b) = block_closed (c ∷ []) s r (refl, tt) b
  block_longer c _ r h (block_closed (d ∷ body) s _ k b) = block_closed (c ∷ d ∷ body) s r (h, k) b
  block_longer c _ _ h (block_open body k) = block_open (c ∷ body) (h, k)

  -- What `skip` leaves behind, by the mode that it begins in.
  abbrev Leaves : SkipMode → Text → Text → Type 0
  Leaves outside s r = Blanks s r
  Leaves line_comment s r = LineComment s r
  Leaves block_comment s r = BlockComment s r

  both : (c d x y : ℕ) → (c == x && d == y) ≡ true → (c ≡ x) × (d ≡ y)
  both c d x y h = ground arith

  neither :
      (c d : ℕ)
      → (c == b'/' && d == b'/') ≡ false
      → (c == b'/' && d == b'*') ≡ false
      → (c == b'/' && (d == b'/' || d == b'*')) ≡ false
  neither c d h k = ground arith

  at_line :
      (c d : ℕ) (s r : Text)
      → (c == b'/' && d == b'/') ≡ true
      → u.is_whitespace c ≡ false
      → LineComment s r
      → Blanks (c ∷ d ∷ s) r
  at_line c d s r h k l =
      let (first, second) = both c d b'/' b'/' h in rw (first, second) (line s r l (rw first at k))

  at_block :
      (c d : ℕ) (s r : Text)
      → (c == b'/' && d == b'*') ≡ true
      → u.is_whitespace c ≡ false
      → BlockComment s r
      → Blanks (c ∷ d ∷ s) r
  at_block c d s r h k l =
      let (first, second) = both c d b'/' b'*' h in rw (first, second) (block s r l (rw first at k))

  at_line_end : (c : ℕ) (s r : Text) → (c == 10) ≡ true → Blanks s r → LineComment (c ∷ s) r
  at_line_end c s r h b = let e : c ≡ 10 = ground arith in rw e (line_closed [] s r tt b)

  at_block_end :
      (c d : ℕ) (s r : Text)
      → (c == b'*' && d == b'/') ≡ true
      → Blanks s r
      → BlockComment (c ∷ d ∷ s) r
  at_block_end c d s r h b =
      let (first, second) = both c d b'*' b'/' h in rw (first, second) (block_closed [] s r tt b)

  skip-Leaves : (mode : SkipMode) (s : Text) → Leaves mode s (drop (skip u mode s) s)
  unfolding skip
  skip-Leaves outside [] = at_token [] tt
  skip-Leaves line_comment [] = line_open [] tt
  skip-Leaves block_comment [] = block_open [] tt
  skip-Leaves outside (c ∷ []) = elim (Bool-cases (u.is_whitespace c)) [
    | inl e ↦ rw (e, skip) (blank c [] [] e (at_token [] tt))
    | inr e ↦ rw (e, skip) (at_token (c ∷ []) e)
  ]
  skip-Leaves outside (c ∷ d ∷ r) = elim (Bool-cases (u.is_whitespace c)) [
    | inl e ↦ rw (e, skip) (blank c (d ∷ r) _ e (skip-Leaves outside (d ∷ r)))
    | inr e ↦ elim (Bool-cases (c == b'/' && d == b'/')) [
      | inl f ↦ rw (e, skip) (rw (f, skip) (at_line c d r _ f e (skip-Leaves line_comment r)))
      | inr f ↦ elim (Bool-cases (c == b'/' && d == b'*')) [
        | inl g ↦
            rw (e, skip)
              (rw (f, skip) (rw (g, skip) (at_block c d r _ g e (skip-Leaves block_comment r))))
        | inr g ↦
            rw (e, skip) (rw (f, skip) (rw (g, skip) (at_token (c ∷ d ∷ r) (e, neither c d f g))))
      ]
    ]
  ]
  skip-Leaves line_comment (c ∷ r) = elim (Bool-cases (c == 10)) [
    | inl e ↦ rw (e, skip) (at_line_end c r _ e (skip-Leaves outside r))
    | inr e ↦ rw (e, skip) (line_longer c r _ e (skip-Leaves line_comment r))
  ]
  skip-Leaves block_comment (c ∷ []) = block_open (c ∷ []) (refl, tt)
  skip-Leaves block_comment (c ∷ d ∷ r) = elim (Bool-cases (c == b'*' && d == b'/')) [
    | inl e ↦ rw (e, skip) (at_block_end c d r _ e (skip-Leaves outside r))
    | inr e ↦ rw (e, skip) (block_longer c (d ∷ r) _ e (skip-Leaves block_comment (d ∷ r)))
  ]

  -- What `skip` consumes of a source is a sequence of blank characters, of comments from `//` to the
  -- first line feed, and of comments from `/*` to the first `*/` (or to the end of the source), and
  -- what it leaves is nothing or begins with a character that is no blank and begins no comment.
  pub skip-Blanks : (s : Text) → Blanks s (drop (skip u outside s) s)
  skip-Blanks s = skip-Leaves outside s
