-- ===== src/Diagnostic/Counts.antt =====
-- The error count of a diagnostics list and the effect of each way to report.
use uinx.Prelude.{ℕ, ◌+◌, ◌<◌, true, [], ◌∷◌, ◌++◌, Bytes, ◌≡◌, ◌↔◌, arith}
use uinx.Diagnostic.{
  SourceRange, Diagnostics, report_note, report_error, report_warning, has_errors, count_errors,
  error_count,
}

count_errors-add : (n : ℕ) (ds : Diagnostics) → count_errors n ds ≡ n + count_errors 0 ds
unfolding count_errors
count_errors-add n [] = omega arith
count_errors-add n (d ∷ ds) = ground (
  arith,
  count_errors-add (n + 1) ds,
  count_errors-add n ds,
  count_errors-add 1 ds,
  count_errors-add (0 + 1) ds,
)

pub error_count-append :
    (ds es : Diagnostics) → error_count (ds ++ es) ≡ error_count ds + error_count es
unfolding error_count
error_count-append [] es = omega arith
error_count-append (d ∷ ds) es = ground (
  arith,
  count_errors-add (0 + 1) ds,
  count_errors-add (0 + 1) (ds ++ es),
  error_count-append ds es,
)

pub has_errors_iff : (ds : Diagnostics) → (has_errors ds ≡ true) ↔ (0 < error_count ds)
unfolding has_errors error_count
has_errors_iff [] = ground arith
has_errors_iff (d ∷ ds) = ground (arith, has_errors_iff ds, count_errors-add (0 + 1) ds)

-- An error raises the count by one and is the only kind of report that does; `has_errors` holds
-- exactly when the count is positive.
pub report_counts :
    (ds : Diagnostics) (r : SourceRange) (code msg : Bytes)
    → (error_count (report_error ds r code msg) ≡ error_count ds + 1)
      × (error_count (report_warning ds r code msg) ≡ error_count ds)
      × (error_count (report_note ds r code msg) ≡ error_count ds)
      × ((has_errors ds ≡ true) ↔ (0 < error_count ds))
unfolding report_error report_warning report_note error_count
report_counts ds r code msg = (
  omega (arith, error_count-append ds (_ ∷ [])),
  omega (arith, error_count-append ds (_ ∷ [])),
  omega (arith, error_count-append ds (_ ∷ [])),
  has_errors_iff ds,
)
