-- ===== src/LogCheck/Reported.antt =====
-- backend/srs_check.cpp: what the program reports of the file.
use srs_control.Base.Int.{ℤ}
use srs_control.Base.{◌≡◌, refl, ap, ap₂, ◌∙◌, sym, Bool, true, false, not, List, [], ◌∷◌, ◌==◌}
use srs_control.LogCheck.Balance.{count_begins, count_ends, has_name-count_lines}
use srs_control.LogCheck.Counts.{has_name}
use srs_control.LogCheck.Instances.{last_instance, created, print_last_log-read, read-call_map}
use srs_control.LogCheck.{
  Text, Patterns, create, read, print_last_log, count_lines, filter_view, analysis, summarize,
  summary_of, run_opened, Printed, Summary, run, run_read, summarized, all_exited, not_exited,
  summarize_map, no_functions_recorded, last_log, exception_occurred,
}

-- The names that the program says did not exit.
abbrev pub names_of : Printed → List Text
names_of (summarized (not_exited names)) = names
names_of (summarized all_exited) = []
names_of (summarized no_functions_recorded) = []
names_of (last_log lines) = []
names_of exception_occurred = []

abbrev pub no_names : List Text → Bool
no_names [] = true
no_names (name ∷ names) = false

abbrev IsSummary : (names : List Text) → Bool × Summary → Type 0
IsSummary names r = (names_of (summarized r.1) ≡ names) × (r.0 ≡ no_names names)

summary_of-IsSummary : (names : List Text) → IsSummary names (summary_of names)
unfolding summary_of
summary_of-IsSummary [] = (refl, refl)
summary_of-IsSummary (name ∷ names) = (refl, refl)

summarize_map-IsSummary : (m : List (Text × ℤ)) → IsSummary (filter_view m) (summarize_map m)
unfolding summarize_map filter_view
summarize_map-IsSummary [] = (refl, refl)
summarize_map-IsSummary (entry ∷ m) = summary_of-IsSummary (filter_view (entry ∷ m))

module _ (p : Patterns) where
  call_map-analysis :
      (lines : List Text)
      → (analysis p (read p lines created)).call_map ≡ count_lines p (last_instance p lines) []
  unfolding analysis print_last_log
  call_map-analysis lines =
      ap₂ (count_lines p) (print_last_log-read p lines) (read-call_map p lines created)

-- Of an open file the program shows, with the option, exactly the lines after the last mark of a new
-- instance, or all lines if there is none. Without the option it reports exactly the names of which
-- these lines begin and end not equally often, and succeeds exactly if it reports none.
pub run-names_of :
    (p : Patterns) (lines : List Text) (name : Text)
    → (run p true true lines ≡ (true, last_log (last_instance p lines)))
      × (has_name name (names_of (run p false true lines).1)
          ≡ not (
              count_begins p name (last_instance p lines)
              == count_ends p name (last_instance p lines)))
      × ((run p false true lines).0 ≡ no_names (names_of (run p false true lines).1))
unfolding run run_opened run_read create summarize
run-names_of p lines name =
    let s = summarize_map-IsSummary (analysis p (read p lines created)).call_map in
    let c = ap filter_view (call_map-analysis p lines) in
    (
      ap (λ ls. (true, last_log ls)) (print_last_log-read p lines),
      ap (has_name name) (s.0 ∙ c) ∙ has_name-count_lines p name (last_instance p lines),
      s.1 ∙ ap no_names (sym s.0),
    )
