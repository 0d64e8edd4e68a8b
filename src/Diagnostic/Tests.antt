-- ===== src/Diagnostic/Tests.antt =====
-- Reports behind a warning.
use uinx.Prelude.{codes, [], ◌∷◌, ◌≡◌, ◌+◌, ◌↔◌, ◌<◌, true}
use uinx.Diagnostic.{
  Diagnostics, DiagLevel, SourceLoc, SourceRange, report_error, report_warning, report_note,
  error_count, has_errors,
}
use uinx.Diagnostic.Counts.{report_counts}

abbrev start : SourceLoc
start = record { file = codes "a.ux"; line = 1; column = 1; offset = 0 }

abbrev here : SourceRange
here = record { begin = start; end = start }

abbrev warned : Diagnostics
warned =
    record { level = DiagLevel.warning; range = here; code = codes "W1"; message = []; notes = [] }
    ∷ []

report_counts_example :
    (error_count (report_error warned here (codes "E1") []) ≡ error_count warned + 1)
    × (error_count (report_warning warned here (codes "E1") []) ≡ error_count warned)
    × (error_count (report_note warned here (codes "E1") []) ≡ error_count warned)
    × ((has_errors warned ≡ true) ↔ (0 < error_count warned))
report_counts_example = report_counts warned here (codes "E1") []
