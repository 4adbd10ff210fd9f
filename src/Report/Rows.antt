-- ===== src/Report/Rows.antt =====
-- backend/srs/utils/AppReport.cpp: the rows of the tables.
use srs_control.Base.{
  ℕ, ◌+◌, ◌≡◌, refl, ap, ◌∙◌, List, [], ◌∷◌, length, length-append, total, arith, Bool-cases, inl,
  inr,
}
use srs_control.Report.{
  TaskStat, AppReport, Row, try_emplace, register_task_result, register_output_sink_result, rows_of,
  format_split, report_task_result, report_sink_file_result, task_row, sink_row,
}
use srs_control.Utils.Text.{eq_bytes, eq_bytes_refl}

try_emplace_twice {ℓ} :
    {A : Type ℓ} (records : List (List ℕ × A)) (name : List ℕ) (a b : A)
    → try_emplace (try_emplace records name a) name b ≡ try_emplace records name a
unfolding try_emplace
try_emplace_twice [] name a b = rw (eq_bytes_refl name) refl
try_emplace_twice ((n, c) ∷ records) name a b = elim (Bool-cases (eq_bytes n name)) [
  | inl e ↦ rw e (rw e refl)
  | inr e ↦ rw e (rw e (ap (λ xs. (n, c) ∷ xs) (try_emplace_twice records name a b)))
]

-- Of several tasks, or of several sinks, that register their results under one name, the report has
-- only the first one.
register_twice :
    (r : AppReport) (name : List ℕ) (times times' : List TaskStat) (bytes bytes' : List ℕ)
    → (report_task_result (register_task_result (register_task_result r name times) name times')
        ≡ report_task_result (register_task_result r name times))
      × (report_sink_file_result
            (register_output_sink_result (register_output_sink_result r name bytes) name bytes')
          ≡ report_sink_file_result (register_output_sink_result r name bytes))
unfolding report_task_result report_sink_file_result register_task_result
    register_output_sink_result
register_twice r name times times' bytes bytes' = (
  ap (format_split task_row) (try_emplace_twice r.task_records name times times'),
  ap (format_split sink_row) (try_emplace_twice r.sink_records name bytes bytes'),
)

length-rows_of {ℓ} :
    {A : Type ℓ} (f : ℕ → A → Row) (name : List ℕ) (n : ℕ) (xs : List A)
    → length (rows_of f name n xs) ≡ length xs
unfolding rows_of
length-rows_of f name n [] = refl
length-rows_of f name n (x ∷ xs) = omega (arith, length-rows_of f name (n + 1) xs)

length-format_split {ℓ} :
    {A : Type ℓ} (f : ℕ → A → Row) (records : List (List ℕ × List A))
    → length (format_split f records) ≡ total (λ (r : List ℕ × List A). length r.1) records
unfolding format_split
length-format_split f [] = refl
length-format_split f ((name, xs) ∷ records) =
    length-append (rows_of f name 0 xs) (format_split f records)
    ∙ rw (length-rows_of f name 0 xs, length-format_split f records) refl

-- The tables of the tasks and of the sinks have a row for every line of every task, or sink, that
-- registered.
pub length-report :
    (r : AppReport)
    → (length (report_task_result r)
        ≡ total (λ (t : List ℕ × List TaskStat). length t.1) r.task_records)
      × (length (report_sink_file_result r)
          ≡ total (λ (t : List ℕ × List ℕ). length t.1) r.sink_records)
unfolding report_task_result report_sink_file_result
length-report r =
    (length-format_split task_row r.task_records, length-format_split sink_row r.sink_records)
