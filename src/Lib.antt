-- ===== src/Lib.antt =====
-- Uinx: the front of the compiler and the optimiser of its intermediate representation.
--
-- The compiler reads a source with a lexer, parses and checks it, lowers it to an intermediate
-- representation (MIR), optimises that and prints LLVM text. Every part reports to one list of
-- diagnostics, and every part behind the parser speaks of types.
--
-- Prelude (with Prelude/Tests, Prelude/Lists and Prelude/Text) holds Boolean tests on numbers,
-- lists, and texts as lists of bytes; `find` and `contains` stand for the hashed maps and sets.
-- Diagnostic models include/uinx/common.hpp, include/uinx/diagnostic.hpp and src/diagnostic.cpp:
-- `report_error`, `report_warning` and `report_note` are `Diagnostics::error`, `warning`, `note`.
-- Token models include/uinx/token.hpp, Token/Names `token_name` of src/lexer.cpp.
-- Lexer models include/uinx/lexer.hpp and src/lexer.cpp, one module per group of members:
-- Lexer/Cursor (peek, eof, advance, match), Lexer/Words (identifiers, keywords, numbers),
-- Lexer/Literals (strings, characters, comments), Lexer/Layout (indentation and newlines),
-- Lexer/Operators (the switch over punctuation) and Lexer/Run (`Lexer::lex`). The members `pos_`,
-- `loc_` and what is left of `src_` are a `Cursor`; the others are the record `Lexer`. A member
-- that changes the position takes a cursor and returns the one behind.
-- Types models include/uinx/types.hpp and src/types.cpp, Types/FromAst `type_from_ast` with the
-- `TypeRef` of include/uinx/ast.hpp, Types/Printed `TypeRef::str` of src/parser.cpp; the shared
-- pointer to the pointee is a value, since no code changes a type behind such a pointer.
-- Parser models include/uinx/parser.hpp, src/parser.cpp and the structures of include/uinx/ast.hpp:
-- Parser/Monad the members that move over tokens and the blocks in braces or by indentation,
-- Parser/Syntax the tree, Parser/Types, Parser/Expressions (with Scan for the looks ahead, Atoms
-- for `parse_prefix`, Postfix for `parse_postfix`), Parser/Statements, Parser/Items and
-- Parser/Modules the members named like that. `toks_` and `pos_` are the token at the position and
-- those behind it, the last of which is an `End`; a member is a function from a state to a value
-- and a state, or to nothing, which stands for a loop that does not end within the fuel.
-- Mir models the data of include/uinx/mir.hpp.
-- Optimizer models src/mir_optimizer.cpp, a module per pass: Optimizer/Reachable
-- (`remove_unreachable`), Optimizer/Forward (`forward_local_loads`), Optimizer/Fold
-- (`constant_fold`, on the numbers of Optimizer/Numbers), Optimizer/Dead (`eliminate_dead_values`)
-- and Optimizer/Run (`MIROptimizer::run`). A pass takes the blocks of a function and returns the
-- new ones, `run` an outcome: a module, or that folding came to an undefined division, or that the
-- fuel of a pass ran out; a level below 1 is the level 0.
-- Borrow models the data of include/uinx/borrow.hpp, Borrow/Places the places of
-- src/borrow_internal.hpp with the tests for overlap of src/borrow_places.cpp, Borrow/Loans the
-- functions of src/borrow_places.cpp on loans and states that do not walk the syntax tree. A set of
-- the source is the list of its elements, the globals of the module are an argument. Borrow/Tree is
-- the syntax tree as that part reads it: a node is told from others by a number, its address, and
-- the tables of include/uinx/hir.hpp are lists of pairs. Borrow/Uses, Borrow/Liveness and
-- Borrow/Expire model src/borrow_liveness.cpp, where the two analyses, of roots and of places, are
-- one at a `Plane`, which holds what an expression uses and what a binding ends. Borrow/Uses/Parts
-- says what the parts of an expression are, Borrow/Liveness/Paths what ways control takes; a `loop`
-- is left only by `break` and `return` there, while the analysis takes it to end where a round does.
-- The output of an `asm` counts as used by its plain name, as in the source. A map from
-- statements to sets is the list of what is written to it, the last first.
--
-- Bounds: a line, a column and an offset wrap at 2 ^ 32; the numbers of constant folding are bit
-- patterns below 2 ^ 64, with the sign in the highest bit. Fuel: `lex` has a round for each byte
-- and one more, since each round moves the position or is the last; the search for blocks has three
-- rounds for each block and two more, since a block is taken once and pushes at most two others;
-- the removal of dead values has a round for each instruction and one more, since a round that goes
-- on removes one. In the parser a loop and a statement within another have a round for each token
-- that is left and one more, an expression twice as many; `parse_module` takes its fuel, since its
-- loop and those over fields and methods of traits need not end. `resolve` has the bound 32 of the
-- source, the loops of liveness its 4096 rounds, of which they need two.
--
-- Not modelled: the stream and the mutex of `Diagnostics`; the overflow of `std::size_t` and `int`
-- in positions, widths and the depth of brackets, which a source in memory does not reach; source
-- ranges in MIR and in the syntax tree. The character tests, `c_str`, `strtoll` and `to_string` of
-- the standard libraries are written out as documented, in the "C" locale; that they agree with a
-- given library is not shown. The quotient and the remainder of the least number by -1, which C++
-- leaves undefined, are an outcome of folding and of `run` in which no value is claimed. Semantic analysis, the rest of the borrow checker,
-- lowering, the code generator, the driver, the tools, the runtime in C and the library in Uinx are
-- left out: the last five print, call tools or are other languages, the others walk the whole
-- syntax tree.
pub mod Prelude
pub mod Diagnostic
pub mod Token
pub mod Lexer
pub mod Types
pub mod Parser
pub mod Mir
pub mod Optimizer
pub mod Borrow
