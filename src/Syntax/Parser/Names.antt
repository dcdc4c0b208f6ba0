-- ===== src/Syntax/Parser/Names.antt =====
-- src/syntax/parser.rs: the names that tokens stand for, numbers and strings of literals.
use yidika.Syntax.Parser.{Parse, take_token, panic, pure, ◌>>=◌}
use yidika.Base.{
  ℕ, Bool, Option, none, some, [], ◌∷◌, ◌++◌, Text, codes, if◌then◌else◌, ◌==◌, ltb, leb,
  match_option, zero, suc, ◌+◌, ◌*◌, ◌^◌, ◌&&◌, ◌-◌, ◌/◌, ◌%◌,
}
use Prim.Native.String.{String}
use yidika.Diagnostics.{Span}
use yidika.Syntax.Token.{Token}

-- A `u8` in decimal.
abbrev decimal : ℕ → Text
decimal w =
    if ltb w 10
    then (48 + w) ∷ []
    else if ltb w 100
    then (48 + w / 10) ∷ (48 + w % 10) ∷ []
    else (48 + w / 100) ∷ (48 + w / 10 % 10) ∷ (48 + w % 10) ∷ []

abbrev with_width : String → ℕ → Text
with_width x w = if w == 0 then codes x else codes x ++ decimal w

-- The names in `ident`.
unfoldable pub ident_name : Token → Option Text
ident_name (Token.ident x) = some x
ident_name (Token.t_int w) = some (with_width "int" w)
ident_name (Token.t_rint w) = some (with_width "rint" w)
ident_name (Token.t_real w) = some (with_width "real" w)
ident_name Token.t_complex = some (codes "complex")
ident_name Token.t_bool = some (codes "bool")
ident_name Token.t_str = some (codes "str")
ident_name Token.t_symbol = some (codes "symbol")
ident_name Token.t_vector = some (codes "vector")
ident_name Token.t_matrix = some (codes "matrix")
ident_name Token.t_map = some (codes "map")
ident_name Token.infiny = some (codes "infiny")
ident_name Token.data_ = some (codes "data")
ident_name Token.enum = some (codes "enum")
ident_name Token.object = some (codes "object")
ident_name Token.open_ = some (codes "open")
ident_name Token.abstract = some (codes "abstract")
ident_name Token.init = some (codes "init")
ident_name Token.super = some (codes "super")
ident_name Token.override = some (codes "override")
ident_name Token.final = some (codes "final")
ident_name Token.mut = some (codes "mut")
ident_name Token.ref = some (codes "ref")
ident_name Token.fn = some (codes "fn")
ident_name Token.if_ = some (codes "if")
ident_name Token.none_ = some (codes "None")
ident_name Token.true_ = some (codes "True")
ident_name Token.false_ = some (codes "False")
ident_name Token.null = some (codes "Null")
ident_name _ = none

unfoldable pub ident : Parse Text
unfolding ident_name
ident = take_token λ t s. ident_name t

-- The names in `field_ident`.
unfoldable pub field_name : Token → Option Text
field_name (Token.ident x) = some x
field_name (Token.int_lit x) = some x
field_name (Token.t_int w) = some (with_width "int" w)
field_name (Token.t_rint w) = some (with_width "rint" w)
field_name (Token.t_real w) = some (with_width "real" w)
field_name Token.match_ = some (codes "match")
field_name Token.fn = some (codes "fn")
field_name Token.if_ = some (codes "if")
field_name Token.else_ = some (codes "else")
field_name Token.for = some (codes "for")
field_name Token.in_ = some (codes "in")
field_name Token.while = some (codes "while")
field_name Token.loop = some (codes "loop")
field_name Token.return = some (codes "return")
field_name Token.struct = some (codes "struct")
field_name Token.class = some (codes "class")
field_name Token.interface = some (codes "interface")
field_name Token.union = some (codes "union")
field_name Token.type = some (codes "type")
field_name Token.use_ = some (codes "use")
field_name Token.export = some (codes "export")
field_name Token.as_ = some (codes "as")
field_name Token.from = some (codes "from")
field_name Token.async = some (codes "async")
field_name Token.await = some (codes "await")
field_name Token.spawn = some (codes "spawn")
field_name Token.try = some (codes "try")
field_name Token.catch = some (codes "catch")
field_name Token.init = some (codes "init")
field_name Token.open_ = some (codes "open")
field_name Token.abstract = some (codes "abstract")
field_name Token.data_ = some (codes "data")
field_name Token.override = some (codes "override")
field_name Token.final = some (codes "final")
field_name Token.super = some (codes "super")
field_name Token.mut = some (codes "mut")
field_name Token.ref = some (codes "ref")
field_name Token.true_ = some (codes "true")
field_name Token.false_ = some (codes "false")
field_name Token.none_ = some (codes "none")
field_name Token.null = some (codes "none")
field_name Token.ok_kw = some (codes "Ok")
field_name Token.error_kw = some (codes "Error")
field_name Token.const = some (codes "const")
field_name Token.t_complex = some (codes "complex")
field_name Token.t_bool = some (codes "bool")
field_name Token.t_str = some (codes "str")
field_name Token.t_symbol = some (codes "symbol")
field_name Token.t_vector = some (codes "vector")
field_name Token.t_matrix = some (codes "matrix")
field_name Token.t_map = some (codes "map")
field_name Token.infiny = some (codes "infiny")
field_name _ = none

unfoldable pub field_ident : Parse Text
unfolding field_name
field_ident = take_token λ t s. field_name t

-- `keyword_to_ident`, for the tokens that `prefix` gives it.
unfoldable pub keyword_to_ident : Token → Text
keyword_to_ident (Token.t_int w) = with_width "int" w
keyword_to_ident (Token.t_rint w) = with_width "rint" w
keyword_to_ident (Token.t_real w) = with_width "real" w
keyword_to_ident Token.t_complex = codes "complex"
keyword_to_ident Token.t_bool = codes "bool"
keyword_to_ident Token.t_str = codes "str"
keyword_to_ident Token.t_symbol = codes "symbol"
keyword_to_ident Token.t_vector = codes "vector"
keyword_to_ident Token.t_matrix = codes "matrix"
keyword_to_ident Token.t_map = codes "map"
keyword_to_ident Token.infiny = codes "infiny"
keyword_to_ident Token.super = codes "super"
keyword_to_ident Token.override = codes "override"
keyword_to_ident Token.final = codes "final"
keyword_to_ident Token.data_ = codes "data"
keyword_to_ident Token.enum = codes "enum"
keyword_to_ident Token.object = codes "object"
keyword_to_ident Token.open_ = codes "open"
keyword_to_ident Token.abstract = codes "abstract"
keyword_to_ident Token.init = codes "init"
keyword_to_ident _ = []

-- A digit below the base, of `from_str_radix`.
abbrev digit : ℕ → ℕ → Option ℕ
digit base c =
    if leb 48 c && ltb c 58
    then below (c - 48)
    else if leb 97 c && ltb c 123
    then below (c - 87)
    else if leb 65 c && ltb c 91
    then below (c - 55)
    else none
  where
    below : ℕ → Option ℕ
    below d = if ltb d base then some d else none

unfoldable pub digits : ℕ → ℕ → Text → Option ℕ
unfolding match_option
digits base n [] = some n
digits base n (c ∷ cs) = match_option (digit base c) none λ d. digits base (n * base + d) cs

abbrev up_to : ℕ → Option ℕ → Option ℕ
up_to bound none = none
up_to bound (some n) = if ltb n bound then some n else none

abbrev plus_sign : ℕ
plus_sign = 43

abbrev minus_sign : ℕ
minus_sign = 45

abbrev unsigned : ℕ → Text → Option ℕ
unsigned base [] = none
unsigned base (c ∷ cs) = digits base 0 (c ∷ cs)

abbrev negated : Option ℕ → Option ℕ
negated none = none
negated (some n) = if n == 0 then some 0 else if leb n (2 ^ 63) then some (2 ^ 64 - n) else none

-- `i64::from_str_radix`, as the 64-bit pattern of the number; `str::parse` is for the base 10.
unfoldable pub parse_i64 : ℕ → Text → Option ℕ
unfolding digits
parse_i64 base [] = none
parse_i64 base (c ∷ cs) =
    if c == plus_sign
    then up_to (2 ^ 63) (unsigned base cs)
    else if c == minus_sign
    then negated (unsigned base cs)
    else up_to (2 ^ 63) (unsigned base (c ∷ cs))

-- `parse::<u8>`
unfoldable pub parse_u8 : Text → Option ℕ
unfolding digits
parse_u8 [] = none
parse_u8 (c ∷ cs) =
    if c == plus_sign then up_to 256 (unsigned 10 cs) else up_to 256 (unsigned 10 (c ∷ cs))

abbrev pub or_number : Option ℕ → ℕ → ℕ
or_number none d = d
or_number (some n) d = n

abbrev is_ascii : ℕ → Bool
is_ascii c = ltb c 128

-- All but the last character, which has to be one byte long.
unfoldable pub without_last : Text → Option Text
unfolding match_option
without_last [] = none
without_last (c ∷ []) = if is_ascii c then some [] else none
without_last (c ∷ d ∷ cs) = match_option (without_last (d ∷ cs)) none λ r. some (c ∷ r)

-- The slice `s[1..s.len() - 1]` by bytes: there is none if it would end before it starts, or within a
-- character.
unfoldable pub unquoted : Text → Option Text
unfolding without_last
unquoted [] = none
unquoted (c ∷ cs) = if is_ascii c then without_last cs else none

-- The slice `s[n..]`, likewise.
unfoldable pub sliced : ℕ → Text → Option Text
sliced zero s = some s
sliced (suc n) [] = none
sliced (suc n) (c ∷ cs) = if is_ascii c then sliced n cs else none

abbrev pub or_panic : {A : Type 0} → Option A → Parse A
or_panic none = panic
or_panic (some a) = pure a

abbrev pub str_raw : Token → Span → Option Text
str_raw (Token.str_lit s) sp = some s
str_raw _ sp = none

-- `str_lit`
unfoldable pub str_lit : Parse Text
unfolding unquoted
str_lit = take_token str_raw >>= λ s. or_panic (unquoted s)

-- `unescape_str`
unfoldable pub unescape_str : Text → Text
unescape_str [] = []
unescape_str (c ∷ []) = c ∷ []
unescape_str (c ∷ d ∷ cs) =
    let rest = unescape_str cs in
    let rest1 = unescape_str (d ∷ cs) in if c == 92 then escaped d rest else c ∷ rest1
  where
    escaped : ℕ → Text → Text
    escaped d rest =
        if d == 34
        then 34 ∷ rest
        else if d == 92
        then 92 ∷ rest
        else if d == 110
        then 10 ∷ rest
        else if d == 116
        then 9 ∷ rest
        else if d == 114
        then 13 ∷ rest
        else if d == 48
        then 0 ∷ rest
        else 92 ∷ d ∷ rest
