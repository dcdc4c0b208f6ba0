-- ===== src/Syntax/Parser/Patterns.antt =====
use yidika.Syntax.Parser.Names.{unquoted, field_ident, parse_i64, or_panic, unescape_str, ident}
use yidika.Syntax.Ast.{Pattern, PatternFields, Patterns}
use yidika.Syntax.Parser.{
  kind, Parse, eat, stuck, peek, accept, ◌>>=◌, ◌>>◌, at_token, pure, take_opt, step, fail, is,
}
use yidika.Diagnostics.{Span}
use yidika.Syntax.Parser.Loops.{Parsers, when_accepted, braced_list, comma_list, closes}
use yidika.Syntax.Token.{Token}
use yidika.Base.{
  List, Option, text_eq, ℕ, [], Text, codes, some, ◌∷◌, suc, none, if◌then◌else◌, match_option,
  true, false, zero,
}

-- src/syntax/parser.rs: `parse_pattern` and `list_destruct_pattern`.

abbrev patterns_of : List Pattern → Patterns
patterns_of [] = Patterns.nil
patterns_of (p ∷ ps) = Patterns.cons p (patterns_of ps)

abbrev pub fields_of : List (Text × Pattern) → PatternFields
fields_of [] = PatternFields.end
fields_of (f ∷ fs) = PatternFields.field f.0 f.1 (fields_of fs)

-- The token of any name: `matches!(self.tok(), Token::Ident(_))`.
abbrev pub any_ident : Token
any_ident = Token.ident []

abbrev pub ident_text : Token → Span → Option Text
ident_text (Token.ident x) s = some x
ident_text _ s = none

abbrev pub or_underscore : Option Text → Text
or_underscore none = codes "_"
or_underscore (some x) = x

module _ (r : Parsers) where
  -- A type annotation, which is dropped.
  unfoldable pub drop_type : Parse (Unit {0})
  drop_type = when_accepted Token.colon r.type_ >> pure tt

  unfoldable pub pattern_field : Parse (Text × Pattern)
  pattern_field = field_ident >>= λ x. accept Token.colon >>= λ b.
      if b then (r.pattern >>= λ p. pure (x, p)) else pure (x, Pattern.ident x)

  unfoldable pub destruct_fields : Parse Pattern
  destruct_fields = braced_list Token.r_brace pattern_field r.fuel >>= λ fs.
      pure (Pattern.destruct (fields_of fs))

  -- The pattern after a name.
  unfoldable pub named_pattern : Text → Parse Pattern
  named_pattern x = accept Token.l_paren >>= λ call.
      if call
      then (comma_list closes r.pattern r.fuel >>= λ ps.
          eat Token.r_paren >> pure (Pattern.variant x (patterns_of ps)))
      else accept Token.dot_dot_dot >>= λ dots.
          if dots
          then pure (Pattern.rest x)
          else accept Token.l_brace >>= λ brace.
              if brace then destruct_fields else pure (Pattern.ident x)

  -- The elements up to `]`, which is passed.
  unfoldable pub elements : ℕ → Parse (List Pattern)
  elements zero = stuck
  elements (suc n) = accept Token.r_bracket >>= λ close.
      if close
      then pure []
      else accept Token.dot_dot_dot >>= λ dots.
          if dots
          then (take_opt ident_text >>= λ x.
              eat Token.r_bracket >> pure (Pattern.rest (or_underscore x) ∷ []))
          else r.pattern >>= λ p. accept Token.comma >> elements n >>= λ ps. pure (p ∷ ps)

  unfoldable pub pattern_of : Token → Span → Parse Pattern
  unfolding text_eq unquoted parse_i64
  pattern_of (Token.ident x) s =
      if text_eq x (codes "_") then step >> pure Pattern.ignore else step >> named_pattern x
  pattern_of (Token.int_lit x) s =
      match_option (parse_i64 10 x) (fail s) λ n. step >> pure (Pattern.lit_int n)
  pattern_of (Token.real_lit x) s =
      match_option (r.parse_f64 x) (fail s) λ n. step >> pure (Pattern.lit_real n)
  pattern_of (Token.str_lit x) s =
      or_panic (unquoted x) >>= λ v. step >> pure (Pattern.lit_str (unescape_str v))
  pattern_of Token.true_ s = step >> pure (Pattern.lit_bool true)
  pattern_of Token.false_ s = step >> pure (Pattern.lit_bool false)
  pattern_of Token.l_bracket s =
      step >> elements r.fuel >>= λ ps. pure (Pattern.list_destruct (patterns_of ps))
  pattern_of Token.l_brace s = step >> destruct_fields
  pattern_of _ s = fail s

  -- `parse_pattern`
  unfoldable pub parse_pattern : Parse Pattern
  unfolding pattern_of
  parse_pattern = peek >>= λ t. pattern_of t.0 t.1

  -- What stands before a comma or the end, or nothing.
  unfoldable pub destructured : Parse (Option Pattern)
  unfolding kind
  destructured = accept Token.dot_dot_dot >>= λ dots.
      if dots
      then (ident >>= λ x. drop_type >> pure (some (Pattern.rest x)))
      else peek >>= λ t.
          if is Token.comma t.0
          then pure (some Pattern.ignore)
          else if is any_ident t.0
          then (ident >>= λ x. drop_type >> pure (some (Pattern.ident x)))
          else pure none

  unfoldable pub destructured_list : ℕ → Parse (List Pattern)
  destructured_list zero = stuck
  destructured_list (suc n) = at_token Token.r_bracket >>= λ close.
      if close
      then pure []
      else destructured >>= λ o. match_option o (pure []) λ p. accept Token.comma >>= λ more.
          if more then (destructured_list n >>= λ ps. pure (p ∷ ps)) else pure (p ∷ [])

  unfoldable pub list_destruct_pattern : Parse Pattern
  list_destruct_pattern = eat Token.l_bracket >> destructured_list r.fuel >>= λ ps.
      eat Token.r_bracket >> pure (Pattern.list_destruct (patterns_of ps))
