-- ===== src/LogCheck/Tests.antt =====
-- Runs of the log check on small logs.
use srs_control.Base.{
  ◌+◌, ◌≡◌, refl, true, false, not, ◌==◌, List, [], ◌∷◌, ◌++◌, Option, none, some, if◌then◌else◌,
  take, drop, length,
}
use srs_control.LogCheck.Instances.{has_mark, last_instance}
use srs_control.LogCheck.Balance.{count_begins, count_ends}
use srs_control.LogCheck.Reported.{run-names_of, names_of, no_names}
use srs_control.LogCheck.Scopes.{
  copied, destructed, IsFormatted, count_scopes, run-IsLogged, begun, constructed,
}
use mathlib.Core.List.{Memᴰ}
use srs_control.Base.Int.{◌+ℤ◌}
use srs_control.LogCheck.Counts.{has_name}
use srs_control.LogCheck.{
  Text, Patterns, run, last_log, run_opened, run_read, create, read, clear_line, with_room, grow_to,
  analysis, count_lines, count_line, count_end, add_to_entry, filter_view, summary_of,
  summarize_map, summarize,
}
use srs_control.Utils.ExitLogger.{
  exit_logger_begin, exit_logger_end, ExitLogger, construct, scope_name, begin_message, end_message,
  tag_or_default,
}
use srs_control.Utils.Text.{eq_bytes, ends_with}

unfoldable after_prefix : Text → Text → Option Text
unfolding eq_bytes
after_prefix prefix line =
    if eq_bytes (take (length prefix) line) prefix then some (drop (length prefix) line) else none

abbrev mark : Text
mark = b'n' ∷ b'e' ∷ b'w' ∷ []

abbrev patterns : Patterns
patterns = record {
  match_begin = after_prefix (exit_logger_begin ++ b' ' ∷ []);
  match_end = after_prefix (exit_logger_end ++ b' ' ∷ []);
  file_logger_new_instance_str = mark;
}

-- Without a time stamp.
abbrev format_line : Text → Text → Text
format_line time message = message

abbrev socket : ExitLogger
socket = construct [] (b's' ∷ [])

abbrev monitor : ExitLogger
monitor = construct (b'x' ∷ []) (b'm' ∷ [])

abbrev log_lines : List Text
log_lines =
    begin_message monitor
    ∷ mark
    ∷ begin_message socket
    ∷ begin_message monitor
    ∷ end_message monitor
    ∷ []

run-names_of_example :
    (run patterns true true log_lines ≡ (true, last_log (last_instance patterns log_lines)))
    × (has_name (scope_name socket) (names_of (run patterns false true log_lines).1)
        ≡ not (
            count_begins patterns (scope_name socket) (last_instance patterns log_lines)
            == count_ends patterns (scope_name socket) (last_instance patterns log_lines)))
    × ((run patterns false true log_lines).0
        ≡ no_names (names_of (run patterns false true log_lines).1))
run-names_of_example = run-names_of patterns log_lines (scope_name socket)

IsFormatted-socket : IsFormatted patterns format_line socket
unfolding construct tag_or_default begin_message end_message ends_with after_prefix eq_bytes
IsFormatted-socket = record {
  match_begin = λ time. refl;
  not_begin = λ time. refl;
  match_end = λ time. refl;
  begin_unmarked = λ time. refl;
  end_unmarked = λ time. refl;
}

run_names : names_of (run patterns false true log_lines).1 ≡ scope_name socket ∷ []
unfolding run run_opened run_read create read clear_line with_room grow_to analysis count_lines
    count_line count_end add_to_entry filter_view summary_of summarize_map summarize ◌+ℤ◌ construct
    tag_or_default begin_message end_message ends_with after_prefix eq_bytes
run_names = refl

is_mark : has_mark patterns mark ≡ true
unfolding ends_with eq_bytes
is_mark = refl

-- The object is copied, and both are destroyed.
abbrev copied_lines : List Text
copied_lines = begin_message socket ∷ end_message socket ∷ end_message socket ∷ []

run-IsLogged_example :
    has_name
      (scope_name socket)
      (names_of (run patterns false true ((begin_message monitor ∷ mark ∷ []) ++ copied_lines)).1)
    ≡ not (
        count_scopes (scope_name socket) [] + count_scopes (scope_name socket) []
        == count_scopes (scope_name socket) (socket ∷ []))
run-IsLogged_example =
    run-IsLogged patterns format_line (begin_message monitor ∷ []) mark [] (socket ∷ []) []
      copied_lines (scope_name socket) is_mark
      (destructed [] [] [] socket
        (destructed [] (socket ∷ []) [] socket
          (copied socket (Memᴰ.head refl) (constructed [] [] (b's' ∷ []) begun IsFormatted-socket))
          IsFormatted-socket)
        IsFormatted-socket)
