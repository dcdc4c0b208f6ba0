-- ===== src/Syntax/Parser/Modules.antt =====
use yidika.Syntax.Parser.Patterns.{parse_pattern}
use yidika.Syntax.Parser.Stmts.{parse_block, parse_if}
use yidika.Syntax.Parser.Formats.{new_parser}
use yidika.Syntax.Parser.Infix.{parse_expr_range, parse_expr_inner}
use yidika.Syntax.Parser.Types.{parse_type}
use yidika.Syntax.Lexer.Next.{lex, Lexed, utf8_len}
use yidika.Syntax.Parser.Items.{decorated, parse_item}
use yidika.Syntax.Parser.Names.{ident, str_lit}
use yidika.Syntax.Token.{Token}
use yidika.Syntax.Parser.Loops.{Parsers, until_list, when_accepted, comma_list1}
use yidika.Syntax.Lexer.{CharClasses}
use yidika.Syntax.Parser.{
  Parse, advance, accept, stuck, ◌>>=◌, eat, Parsed, tok, pure, ◌>>◌, step, opt_semicolon, is,
}
use yidika.Syntax.Items.{ItemKind, Import, Module, ItemNode}
use yidika.Base.{
  ℕ, match_option, List, Text, Option, suc, none, Bool, if◌then◌else◌, some, codes, ◌∷◌, ◌==◌, true,
  false, [], map, zero,
}

-- src/syntax/parser.rs: `module`, `import`, `item_name`, `parse` and `parse_with_name`, and the
-- parsers that call each other, on fuel.

-- `item_name`: an item of any kind has one.
unfoldable pub item_name : ItemKind → Text
item_name (ItemKind.fn_item x ps t b is_async g fl) = x
item_name (ItemKind.struct_item x ps g) = x
item_name (ItemKind.class_item x e es is fs ms g ctor b fl) = x
item_name (ItemKind.interface_item x ms) = x
item_name (ItemKind.enum_item x vs) = x
item_name (ItemKind.object_item x fs ms b) = x
item_name (ItemKind.union_item x ps) = x
item_name (ItemKind.type_alias x t) = x
item_name (ItemKind.const_item x t e) = x

-- What stands before and after the first `:`, if there is one.
abbrev lang_split : Text → Option (Text × Text)
lang_split [] = none
lang_split (c ∷ cs) =
    let later = lang_split cs in
    if c == b':' then some ([], cs) else match_option later none λ s. some (c ∷ s.0, s.1)

abbrev lang_of : Text → Option Text
lang_of x = match_option (lang_split x) none λ s. some s.0

abbrev path_of : Text → Text
path_of x = match_option (lang_split x) x λ s. s.1

-- A name, its alias, and whether it stands `as const`.
pub record Imported : Type 0 where
  pub name : Text
  pub alias : Option Text
  pub constant : Bool

abbrev imported : Text → Option Text → Bool → Imported
imported x alias constant = record { name = x; alias = alias; constant = constant }

-- An entry of a module.
pub data Entry : Type 0 where
  import_entry : Import → Entry
  item_entry export_entry : ItemNode → Entry

abbrev imports_of : List Entry → List Import
imports_of [] = []
imports_of (import_entry i ∷ es) = i ∷ imports_of es
imports_of (_ ∷ es) = imports_of es

abbrev exports_of : List Entry → List Text
exports_of [] = []
exports_of (export_entry i ∷ es) = item_name i.value ∷ exports_of es
exports_of (_ ∷ es) = exports_of es

abbrev items_of : List Entry → List ItemNode
items_of [] = []
items_of (item_entry i ∷ es) = i ∷ items_of es
items_of (export_entry i ∷ es) = decorated i (codes "export") ∷ items_of es
items_of (_ ∷ es) = items_of es

unfoldable pub braced_import : Parse Imported
braced_import = ident >>= λ x. when_accepted Token.as_ ident >>= λ o. pure (imported x o false)

unfoldable pub single_import : Parse Imported
single_import = ident >>= λ x. accept Token.as_ >>= λ b.
    if b
    then (accept Token.const >>= λ constant.
        if constant
        then pure (imported x none true)
        else ident >>= λ y. pure (imported x (some y) false))
    else pure (imported x none false)

unfoldable pub import_names : ℕ → Parse (List Imported)
import_names n = accept Token.l_brace >>= λ b.
    if b
    then (comma_list1 braced_import n >>= λ xs. eat Token.r_brace >> pure xs)
    else single_import >>= λ x. pure (x ∷ [])

-- `import`
unfoldable pub import : ℕ → Parse Import
unfolding match_option
import n = advance λ _ s. import_names n >>= λ xs. eat Token.from >> str_lit >>= λ path.
    opt_semicolon
    >> pure (record {
      span = s;
      names = map (λ x. (x.name, x.alias)) xs;
      is_const = map (λ x. x.constant) xs;
      source = path_of path;
      lang = lang_of path;
    })

unfoldable pub entry_of : Parsers → Token → Parse Entry
entry_of r Token.use_ = import r.fuel >>= λ i. pure (import_entry i)
entry_of r Token.export = step >> r.item >>= λ i. pure (export_entry i)
entry_of r _ = r.item >>= λ i. pure (item_entry i)

-- `module`
unfoldable pub parse_module : Parsers → Text → Text → Parse Module
unfolding entry_of item_name
parse_module r source name = until_list Token.eof (tok >>= entry_of r) r.fuel >>= λ es.
    pure (record {
      name = name;
      span = record { start = 0; end = utf8_len source };
      imports = imports_of es;
      exports = exports_of es;
      items = items_of es;
    })

module _ (u : CharClasses) (f : Text → Option ℕ) where
  unfoldable pub no_parsers : Parsers
  no_parsers = record {
    fuel = 0;
    parse_f64 = f;
    classes = u;
    type_ = stuck;
    expr = λ min_prec. stuck;
    expr_inner = λ min_prec allow_as. stuck;
    block_stmts = stuck;
    if_stmt = stuck;
    pattern = stuck;
    item = stuck;
  }

  -- The parsers that call those of less fuel.
  unfoldable pub next_parsers : Parsers → Parsers
  next_parsers r = record {
    fuel = suc r.fuel;
    parse_f64 = f;
    classes = u;
    type_ = parse_type r;
    expr = parse_expr_range r;
    expr_inner = parse_expr_inner r;
    block_stmts = parse_block r;
    if_stmt = parse_if r;
    pattern = parse_pattern r;
    item = parse_item r;
  }

  unfoldable pub parsers : ℕ → Parsers
  unfolding next_parsers no_parsers
  parsers zero = no_parsers
  parsers (suc n) = next_parsers (parsers n)

  -- `parse_with_name`; `parse` gives the empty name.
  unfoldable pub parse_with_name : ℕ → Text → Text → ℕ → Parsed Module
  unfolding lex parsers
  parse_with_name fuel source name id = start (lex u source)
    where
      start : Lexed → Parsed Module
      start (Lexed.tokens ts) = parse_module (parsers fuel) source name (new_parser source ts id)
      start Lexed.panics = Parsed.panicked
      start Lexed.out_of_fuel = Parsed.out_of_fuel
