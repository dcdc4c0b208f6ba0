-- ===== src/Syntax/Parser/Kinds.antt =====
-- src/syntax/parser.rs: `tokens_match`, and the equality of tokens.
use yidika.Base.{ℕ, Bool, true, false, ◌&&◌, not, ◌==◌}
use yidika.Syntax.Token.{Token}

-- The source's constructors are told apart by their place in the list.
unfoldable pub kind : Token → ℕ
kind Token.fn = 0
kind Token.const = 1
kind Token.if_ = 2
kind Token.else_ = 3
kind Token.for = 4
kind Token.in_ = 5
kind Token.while = 6
kind Token.loop = 7
kind Token.infiny = 8
kind Token.return = 9
kind Token.struct = 10
kind Token.class = 11
kind Token.interface = 12
kind Token.union = 13
kind Token.enum = 14
kind Token.object = 15
kind Token.type = 16
kind Token.use_ = 17
kind Token.export = 18
kind Token.as_ = 19
kind Token.from = 20
kind Token.async = 21
kind Token.await = 22
kind Token.spawn = 23
kind Token.try = 24
kind Token.catch = 25
kind Token.init = 26
kind Token.open_ = 27
kind Token.abstract = 28
kind Token.data_ = 29
kind Token.override = 30
kind Token.final = 31
kind Token.true_ = 32
kind Token.false_ = 33
kind Token.null = 34
kind Token.none_ = 35
kind Token.mut = 36
kind Token.ref = 37
kind Token.match_ = 38
kind Token.super = 39
kind Token.ok_kw = 40
kind Token.error_kw = 41
kind (Token.t_int x) = 42
kind (Token.t_rint x) = 43
kind (Token.t_real x) = 44
kind Token.t_complex = 45
kind Token.t_bool = 46
kind Token.t_str = 47
kind Token.t_symbol = 48
kind Token.t_vector = 49
kind Token.t_matrix = 50
kind Token.t_map = 51
kind (Token.int_lit x) = 52
kind (Token.hex_lit x) = 53
kind (Token.real_lit x) = 54
kind (Token.imag_int x) = 55
kind (Token.imag_real x) = 56
kind (Token.str_lit x) = 57
kind (Token.symbol_lit x) = 58
kind (Token.char_lit x) = 59
kind (Token.backtick_str x) = 60
kind (Token.f_str_lit x) = 61
kind (Token.ident x) = 62
kind Token.plus = 63
kind Token.minus = 64
kind Token.star = 65
kind Token.slash = 66
kind Token.percent = 67
kind Token.star_star = 68
kind Token.caret = 69
kind Token.tilde = 70
kind Token.eq = 71
kind Token.eq_eq = 72
kind Token.not_eq = 73
kind Token.lt = 74
kind Token.gt = 75
kind Token.lt_eq = 76
kind Token.gt_eq = 77
kind Token.shl = 78
kind Token.shr = 79
kind Token.bang = 80
kind Token.and = 81
kind Token.or = 82
kind Token.pipe = 83
kind Token.inc = 84
kind Token.dec = 85
kind Token.plus_eq = 86
kind Token.minus_eq = 87
kind Token.star_eq = 88
kind Token.slash_eq = 89
kind Token.percent_eq = 90
kind Token.star_star_eq = 91
kind Token.pipe_eq = 92
kind Token.ref_eq = 93
kind Token.caret_eq = 94
kind Token.shl_eq = 95
kind Token.shr_eq = 96
kind Token.question = 97
kind Token.question_dot = 98
kind Token.elvis = 99
kind Token.arrow = 100
kind Token.fat_arrow = 101
kind Token.l_paren = 102
kind Token.r_paren = 103
kind Token.l_brace = 104
kind Token.r_brace = 105
kind Token.l_bracket = 106
kind Token.r_bracket = 107
kind Token.colon = 108
kind Token.double_colon = 109
kind Token.semicolon = 110
kind Token.comma = 111
kind Token.dot = 112
kind Token.dot_dot = 113
kind Token.dot_dot_dot = 114
kind Token.at = 115
kind Token.hash = 116
kind (Token.error x) = 117
kind Token.eof = 118

-- `==` of tokens, of which one has no payload.
abbrev pub is : Token → Token → Bool
is x t = kind x == kind t

-- The constructors that `tokens_match` leaves out.
abbrev unlisted : Token → Bool
unlisted Token.object = true
unlisted (Token.imag_int x) = true
unlisted (Token.imag_real x) = true
unlisted _ = false

unfoldable pub tokens_match : Token → Token → Bool
unfolding kind
tokens_match x t = is x t && not (unlisted x)
