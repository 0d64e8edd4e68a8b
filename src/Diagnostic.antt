-- ===== src/Diagnostic.antt =====
-- include/uinx/common.hpp (source positions) and include/uinx/diagnostic.hpp, src/diagnostic.cpp (the
-- list of diagnostics). The stream that `report` also prints to and the mutex are not modelled.
pub mod Counts
mod Tests
use uinx.Prelude.{ℕ, ◌+◌, Bool, true, false, ◌||◌, List, [], ◌∷◌, ◌++◌, Bytes, if◌then◌else◌}

-- `line`, `column` and `offset` are 32-bit numbers; what increments them wraps.
pub record SourceLoc : Type 0 where
  pub file : Bytes
  pub line : ℕ
  pub column : ℕ
  pub offset : ℕ

pub record SourceRange : Type 0 where
  pub begin : SourceLoc
  pub end : SourceLoc

pub data DiagLevel : Type 0 where
  note warning error : DiagLevel

pub record Diagnostic : Type 0 where
  pub level : DiagLevel
  pub range : SourceRange
  pub code : Bytes
  pub message : Bytes
  pub notes : List Bytes

abbrev pub Diagnostics : Type 0
Diagnostics = List Diagnostic

-- `Diagnostics::report`: the newest diagnostic comes last.
unfoldable pub report : Diagnostics → Diagnostic → Diagnostics
report ds d = ds ++ d ∷ []

unfoldable pub report_note : Diagnostics → SourceRange → Bytes → Bytes → Diagnostics
unfolding report
report_note ds r code msg =
    report ds (record { level = DiagLevel.note; range = r; code = code; message = msg; notes = [] })

unfoldable pub report_error : Diagnostics → SourceRange → Bytes → Bytes → Diagnostics
unfolding report
report_error ds r code msg =
    report ds
      (record { level = DiagLevel.error; range = r; code = code; message = msg; notes = [] })

unfoldable pub report_warning : Diagnostics → SourceRange → Bytes → Bytes → Diagnostics
unfolding report
report_warning ds r code msg =
    report ds
      (record { level = DiagLevel.warning; range = r; code = code; message = msg; notes = [] })

abbrev pub is_error : DiagLevel → Bool
is_error DiagLevel.note = false
is_error DiagLevel.warning = false
is_error DiagLevel.error = true

-- `Diagnostics::has_errors`
unfoldable pub has_errors : Diagnostics → Bool
has_errors [] = false
has_errors (d ∷ ds) = is_error d.level || has_errors ds

-- the loop of `Diagnostics::error_count`, on its counter `n`
unfoldable pub count_errors : ℕ → Diagnostics → ℕ
count_errors n [] = n
count_errors n (d ∷ ds) = count_errors (if is_error d.level then n + 1 else n) ds

unfoldable pub error_count : Diagnostics → ℕ
unfolding count_errors
error_count = count_errors 0
