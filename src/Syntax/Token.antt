-- ===== src/Syntax/Token.antt =====
-- src/syntax/token.rs: the tokens. Names that the source shares with a keyword of the model carry a
-- trailing underscore.
use yidika.Base.{ℕ, Text}

pub data Token : Type 0 where
  fn const if_ else_ for in_ while loop infiny return : Token
  struct class interface union enum object type use_ export as_ from : Token
  async await spawn try catch init open_ abstract data_ override final : Token
  true_ false_ null none_ mut ref match_ super ok_kw error_kw : Token
  t_int t_rint t_real : ℕ → Token
  t_complex t_bool t_str t_symbol t_vector t_matrix t_map : Token
  int_lit hex_lit real_lit imag_int imag_real str_lit symbol_lit : Text → Token
  char_lit : ℕ → Token
  backtick_str f_str_lit ident : Text → Token
  plus minus star slash percent star_star caret tilde eq eq_eq not_eq : Token
  lt gt lt_eq gt_eq shl shr bang and or pipe inc dec : Token
  plus_eq minus_eq star_eq slash_eq percent_eq star_star_eq : Token
  pipe_eq ref_eq caret_eq shl_eq shr_eq : Token
  question question_dot elvis arrow fat_arrow : Token
  l_paren r_paren l_brace r_brace l_bracket r_bracket : Token
  colon double_colon semicolon comma dot dot_dot dot_dot_dot at hash : Token
  error : ℕ → Token
  eof : Token
