-- ===== src/Parser/Monad/Total.antt =====
-- When the members of Parser end, on tokens of which the last is `End`: rules for what they are
-- built from.
pub mod Ending
pub mod Rules
pub mod Loops
pub mod Members
pub use Ending.*
pub use Rules.*
pub use Loops.*
pub use Members.*

-- What ends wherever it is run; a goal `Fine n m` follows the shape of `m`.
pub ruleset fine = (
  Fine-bind, Fine-if_both, Fine-pure, Fine-advance, Fine-current, Fine-error_at, Fine-unexpected,
  Fine-skip_newlines, Fine-finish_line, Fine-begin_suite, Fine-end_suite,
)
