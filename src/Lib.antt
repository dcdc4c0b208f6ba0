-- ===== src/Lib.antt =====
-- The core logic of the compiler and its tools: the lexer, the parser, the substitution of type
-- arguments, the type checker, the borrow checker, the module loader, the arena allocator and the
-- package manager, modelled from the Rust sources.
--
-- The program reads a source into tokens (src/syntax/lexer.rs), the tokens into a syntax tree
-- (src/syntax/parser.rs, src/syntax/ast.rs), loads the modules that it imports
-- (src/module/mod.rs), instantiates generic functions by substituting type arguments in the tree,
-- checks it (src/semantic: types first, then borrows), and runs or compiles it; values at run time
-- live in an arena (src/memory/arena.rs). The package manager (src/package/mod.rs) stands by
-- itself.
--
-- Files and code:
--   Base               names of the libraries passed on; Boolean tests, lists and texts
--   Diagnostics        src/diagnostics/span.rs: Span, Span::merge
--   Syntax/Token       src/syntax/token.rs: Token
--   Syntax/Lexer       src/syntax/lexer.rs: Lexer, below Lexer/Next the iterator and lex. A method of
--                      the source that moves `pos` is a function from the characters ahead to the
--                      number that it consumes; positions count characters, as in the source
--   Syntax/Ast         src/syntax/ast.rs: Node, Expr, Stmt, Pattern, Param. A vector, option or pair
--                      of nodes is a type of the mutual block
--   Syntax/Types       src/syntax/ast.rs: TypeExpr, substitute_type
--   Syntax/Substitute  src/syntax/ast.rs: substitute_type_node, substitute_in_expr,
--                      substitute_in_stmt
--   Syntax/Items       src/syntax/ast.rs: ItemKind, Import, Module
--   Syntax/Parser      src/syntax/parser.rs: Parser and its methods on tokens, as a monad that passes the
--                      parser on and fails, panics or runs out of fuel. Below it Kinds
--                      (tokens_match), Names (names,
--                      numbers, strings), Loops (the loops that repeat), Types (type_), Patterns
--                      (parse_pattern), Stmts (stmt, block_stmts), Literals (calls and literals),
--                      Formats (parse_fstring), Prefix (prefix), Infix (expr, expr_inner), Items
--                      (item) and Modules (module, import, parse_with_name). A method takes the
--                      methods that it calls recursively as a record, Parsers; Modules.parsers ties
--                      the knot. An `i64` and an `f64` is its 64-bit pattern
--   Semantic/Compat    src/semantic/typeck.rs: types_compatible, wider_type, is_copy_type; below it
--                      the rules that types_compatible decides
--   Semantic/Infer     src/semantic/typeck.rs: infer_type_args
--   Semantic/Env       src/semantic/env.rs: Env, FnSig, ClassDef, StructDef
--   Semantic/Typeck    src/semantic/typeck.rs: TypeChecker. A check takes the scope, which it writes,
--                      and gives a result and the new scope, or fails; the context it only reads.
--                      Calls and Methods are the calls of check_expr, Values its other steps,
--                      Statements the steps of check_stmt, Check the recursion of both; Classes
--                      and Items are check_item, Modules is check_module
--   Stdlib             src/stdlib.rs: SUBMODULES and its look-ups
--   Semantic/Borrowck  src/semantic/borrowck.rs: BorrowChecker. A method takes the checker and
--                      returns the new one; an error is the span and the name of its message
--   Semantic/Borrowck/Events
--                      the specification's view of a body: uses, moves, bindings and nested
--                      functions, in the order of the walk
--   Memory/Arena       src/memory/arena.rs: ArenaBlock, Arena, recommended_arena_block_size. An
--                      address is a number, a block its base, capacity and offset; `usize` is 64 bits
--                      and wraps, as in a release build; the memory is a function from addresses to
--                      bytes
--   Memory/Pool        src/memory/arena.rs: ValuePool, without the capacities of its containers
--   Memory/Region      src/memory/mod.rs: MemoryRegion
--   Modules/Loader     src/module/mod.rs: ModuleLoader::load, resolve_import, canonicalize, on a host. A
--                      method returns the loader also when it fails
--   Package            src/package/mod.rs: parse_spec, below Package/Manifest load_manifest and
--                      save_manifest, below Package/Commands add and sync, on a host. A `BTreeMap` is
--                      a list of pairs in the order of the keys
--
-- Parameters: the file system, the parser and the compilers of foreign code that the module loader
-- calls (Modules.Loader.Host); the classes of characters in Unicode (Syntax.Lexer.CharClasses,
-- with what holds of ASCII); the reading of an `f64` (Syntax.Parser.Loops.Parsers); what the
-- system allocator gives to a request (an option of an address); the file system, the TOML
-- library and git (Package.Manifest.Host, with the laws Package.Manifest.Laws.HostLaws).
--
-- Fuel: `collect`, the iterator collected by `lex`, takes the length of the source and one more:
-- each token takes at least one character. The module loader's `load` takes fuel for the depth of
-- the imports: each call that goes deeper has added a path to the table, so one more than the
-- number of readable files is enough. The parser takes fuel for the depth of its recursive calls
-- and for the turns of each loop; to run out of it is a result of its own, and no bound is given.
--
-- Not modelled: the interpreter and the schedulers, which can be added on the same tree and
-- tokens; the release of memory; the texts of messages; code generation, the just-in-time
-- compilers, the network library, the detection of hardware and the command line, which are calls
-- of libraries and of the operating system.
pub mod Base
pub mod Diagnostics
pub mod Syntax
pub mod Semantic
pub mod Memory
pub mod Package
pub mod Modules
pub mod Stdlib
