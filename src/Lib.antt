-- ===== src/Lib.antt =====
-- The compiler of the language Plat and its runtime, as far as this library models them: the lexer,
-- the parser, the module resolver, and the arrays, sets and dictionaries of the runtime.
--
-- A source text goes through the lexer (crates/plat-lexer), which gives tokens with spans or a
-- diagnostic (crates/plat-diags); the parser (crates/plat-parser) makes them a syntax tree
-- (crates/plat-ast). A program of several files has a module resolver (crates/plat-modules) that
-- knows each module's file and imports and gives the order in which the modules are compiled.
-- Compiled code calls the runtime (crates/plat-runtime), whose arrays, sets and dictionaries are
-- buffers of the garbage-collected heap with a length and a capacity.
--
-- Base, with children: names of the libraries that all modules share, Boolean tests, lists over
--   native numbers, the type of results. `stuck` is a loop out of fuel, `panic` a panic.
-- Diags: the value `Diagnostic` and its builders in crates/plat-diags/src/lib.rs.
-- Lexer.Token: crates/plat-lexer/src/token.rs. Lexer.State, Lexer.Strings, Lexer.Numbers and
--   Lexer.Tokenize: the struct `Lexer` of crates/plat-lexer/src/lib.rs and its methods
--   `scan_string`, `scan_number`, `scan_identifier` and `tokenize`, under their names; a `&mut
--   self` method takes the state and returns the new one. The parts of a long method are functions
--   of their own. Lexer.Moves and the modules Progress follow the cursor; Lexer.Tokenize.Layout is
--   about the tokens as a whole, Lexer.Strings.Quoted and Lexer.Roundtrip about a string literal.
--   The text is a list of code points, as the source's Vec<char>; a column counts characters. A
--   floating-point number is the argument `parse_f64`, and an i64 literal is a number below 2 ^ 63.
--   The depth of an interpolation is an i32 that wraps, as without overflow checks.
-- Ast and Ast.Spans: crates/plat-ast/src/lib.rs and the spans of expressions.
-- Parser: the struct `Parser` of crates/plat-parser/src/lib.rs. A `&mut self` method is a function
--   from `current` to a result with the new `current`, in do blocks; the tokens and the file name
--   are the environment (Parser.State). Parser.Consume has the methods that take a token and the
--   loops that the rules share, with `match_token` as a test in `if_matched`, `when_matched` and
--   `match_tokens`. The rules stand under their names in Parser.Types, Parser.Literals,
--   Parser.Blocks, Parser.Primary, Parser.Operators, Parser.Statements, Parser.Declarations and
--   Parser.Classes; `new` and `parse` are in Parser.Program. Rules that call one another take the
--   calls as a record (`Calls`), which Parser.Statements ties to the rules. The `match_if` tests
--   and the tests of `match_token` in a row on one token are a match on it. Parser.Types.Grammar
--   says which tokens spell a type; Parser.Types.Found, Parser.Types.Complete, Parser.Types.Sound
--   and Parser.Types.Exact compare `parse_type` with it. Parser.Total follows the position through
--   every rule, Parser.Total.Lookahead says what `is_dict_literal` answers, and Parser.Total.Input
--   draws the conclusions for an input. `char::is_uppercase` and the `Debug` text of a token are
--   arguments.
-- Modules.Resolver, with Modules.Registration and Modules.Discovery about it, and Modules.Graph:
--   `ModuleResolver` of crates/plat-modules/src/lib.rs. A hash map is a list in some order of
--   iteration (Modules.Sets), a path a list of components (Modules.Paths, with lemmas on plain
--   names in Modules.Names), and whether a file exists is an argument. Modules.Graph.Spec says what
--   a cycle and an order of compilation are, Modules.Graph.Lockstep and Modules.Graph.Recursion
--   follow the search for cycles and the topological sort side by side, and Modules.Graph.Order
--   draws the conclusions.
-- Runtime.Buffer and Runtime.Shift: slots of the heap. Runtime.Array, with Queries and Exports, is
--   crates/plat-runtime/src/ffi/array.rs; Runtime.Set, with Algebra and Exports, is
--   crates/plat-runtime/src/ffi/set.rs, and Runtime.Dict, with Exports, is
--   crates/plat-runtime/src/ffi/dict.rs. A pointer is an `Option`, a mutated struct is returned. An
--   array slot holds the bits of an element, and an i64 is its bit pattern; the element size of an
--   array is that of its type. An i32 that is returned is its bit pattern, and a counter wraps, as
--   without overflow checks. The other children prove what the operations do to the sequence of
--   slots in use, to the members of a set, or to the map from keys to values.
--
-- Fuel: `tokenize` has one round more than the input has characters, and each round passes a
-- character; `scan_string` likewise; each loop of the parser has one round for each token, and each
-- round passes one; the rules that call one another are nested at most as deep as there are tokens,
-- and each nested call is behind one more; interpolations are nested at most as deep as the input
-- is long, and the text of each is shorter; the searches of a dependency graph have one call more
-- than there are names, and each call marks a name.
--
-- Not modelled: the type checker, the formatter and the green-thread runtime, each a large program
-- of its own; the code generator, the command line, the drawing of a diagnostic, the cache of the
-- standard library, and the file, network and process functions of the runtime, which are calls of
-- other libraries and I/O; the conversion of arrays, sets and dictionaries to text, and the arrays
-- of a dictionary's keys and values. Lengths and capacities are not bounded, as memory would bound
-- them.
pub mod Base
pub mod Diags
pub mod Lexer
pub mod Ast
pub mod Parser
pub mod Modules
pub mod Runtime
