-- ===== src/Lexer.antt =====
-- src/lexer.cpp and include/uinx/lexer.hpp: from source text to tokens.
pub mod Cursor
pub mod Words
pub mod Literals
pub mod Operators
pub mod Located
pub mod Layout
pub mod Run
mod Tests
