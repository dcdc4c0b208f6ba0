-- ===== src/Syntax/Lexer/Tests.antt =====
-- The lexer on small sources.
use yidika.Base.{ℕ, ◌≡◌, refl, true, ◌&&◌, ◌||◌, leb, ◌==◌, [], ◌∷◌, ◌++◌, codes, drop}
use yidika.Diagnostics.{Span}
use yidika.Syntax.Token.{Token}
use yidika.Syntax.Lexer.{CharClasses, outside, count_while, lexeme, classify}
use yidika.Syntax.Lexer.Next.{token_at, skip, lex, tokens, panics}
use yidika.Syntax.Lexer.Spans.{Spans, lex-Spans}
use yidika.Syntax.Lexer.Panics.{is_panic, is_panic-token_at}
use yidika.Syntax.Lexer.Munch.{token_at-word}
use yidika.Syntax.Lexer.Blanks.{Blanks, skip-Blanks}

-- The classes of a source of ASCII characters.
abbrev pub ascii : CharClasses
ascii = record {
  is_whitespace = λ c. c == 32 || (leb 9 c && leb c 13);
  is_alphabetic = λ c. (leb b'a' c && leb c b'z') || (leb b'A' c && leb c b'Z');
  is_alphanumeric =
      λ c. (leb b'a' c && leb c b'z') || (leb b'A' c && leb c b'Z') || (leb b'0' c && leb c b'9');
  ascii_whitespace = λ c h. refl;
  ascii_alphabetic = λ c h. refl;
  ascii_alphanumeric = λ c h. refl;
}

abbrev span : ℕ → ℕ → Span
span a b = record { start = a; end = b }

-- A backtick that nothing follows.
lone_backtick : lex ascii (b'x' ∷ b'`' ∷ []) ≡ panics
unfolding lex
lone_backtick = refl

small_width : lex ascii (codes "int08") ≡ tokens ((Token.t_int 8, span 0 5) ∷ [])
unfolding lex
small_width = refl

lex-Spans_example : Spans 0 11 (lex ascii (codes "/* a */ x+1"))
lex-Spans_example = lex-Spans ascii (codes "/* a */ x+1")

is_panic-token_at_example : is_panic (token_at ascii b'f' (b'"' ∷ [])) ≡ true
is_panic-token_at_example = is_panic-token_at ascii b'f' (b'"' ∷ [])

-- A line comment and a block comment, with blanks around them.
skip-Blanks_example :
    Blanks ascii
      (codes " // a;\n /* b/ */ c")
      (drop (skip ascii outside (codes " // a;\n /* b/ */ c")) (codes " // a;\n /* b/ */ c"))
skip-Blanks_example = skip-Blanks ascii (codes " // a;\n /* b/ */ c")

skips_all :
    drop (skip ascii outside (codes " // a;\n /* b/ */ c")) (codes " // a;\n /* b/ */ c")
    ≡ codes "c"
unfolding skip
skips_all = refl

token_at-word_example :
    token_at ascii b'w' (codes "hile" ++ codes " x") ≡ lexeme (classify (codes "while")) 5
unfolding count_while
token_at-word_example =
    token_at-word ascii b'w' (codes "hile") (codes " x") refl (refl, (refl, (refl, (refl, tt))))
      refl refl
