-- ===== src/Parser.antt =====
-- include/uinx/parser.hpp and src/parser.cpp: the parser, by the groups of its members.
pub mod Monad
pub mod Syntax
pub mod Types
pub mod Expressions
pub mod Statements
pub mod Items
pub mod Modules
mod Tests
