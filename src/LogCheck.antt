-- ===== src/LogCheck.antt =====
-- backend/srs_check.cpp: the program that reads the last log of srs-control and reports the scopes
-- that were not left, which backend/srs/utils/ExitLogger.hpp writes. The file is the list of its
-- lines. The matching of a line, by the library ctre, is a parameter, and printing is a list of what
-- is printed.
pub mod Lines
pub mod Counts
pub mod Instances
pub mod Balance
pub mod Reported
pub mod Scopes
mod Tests
use srs_control.Base.Int.{ℤ, pos, negsuc, ◌+ℤ◌}
use srs_control.Base.{
  ℕ, ◌-◌, ◌+◌, ◌*◌, Bool, true, false, List, [], ◌∷◌, ◌++◌, Option, none, some, leb, if◌then◌else◌,
  length, set, take, replicate,
}
use srs_control.Utils.Text.{eq_bytes, ends_with}

abbrev pub Text : Type 0
Text = List ℕ

-- What `ctre::match` finds in a line: the scope that begins, or that ends.
pub record Patterns : Type 0 where
  pub match_begin : Text → Option Text
  pub match_end : Text → Option Text
  pub file_logger_new_instance_str : Text

abbrev pub default_init_n_lines : ℕ
default_init_n_lines = 1000

pub record LogFile : Type 0 where
  pub line_counter : ℕ
  pub content : List Text
  pub call_map : List (Text × ℤ)

unfoldable pub grow_to : (n_lines : ℕ) → List Text → List Text
grow_to n_lines content =
    if leb n_lines (length content)
    then content
    else content ++ replicate (n_lines - length content) []

-- The constructor, with the file open; none where it throws.
unfoldable pub create : (is_open : Bool) → Option LogFile
create is_open =
    if is_open
    then some
        (record { line_counter = 0; content = grow_to default_init_n_lines []; call_map = [] })
    else none

-- The content with a place for the line.
unfoldable pub with_room : (line_counter : ℕ) → List Text → List Text
with_room line_counter content =
    if leb (length content) line_counter then grow_to (length content * 2) content else content

-- `content_[line_counter_].clear()`, after the content has grown.
unfoldable pub clear_line : LogFile → LogFile
clear_line f = record f { content = set (with_room f.line_counter f.content) f.line_counter [] }

-- The entry of the name, made with 0 if there is none, and then changed.
unfoldable pub add_to_entry : (name : Text) (change : ℤ) → List (Text × ℤ) → List (Text × ℤ)
add_to_entry name change [] = (name, pos 0 +ℤ change) ∷ []
add_to_entry name change ((key, n) ∷ call_map) =
    let others = add_to_entry name change call_map in
    if eq_bytes key name then (key, n +ℤ change) ∷ call_map else (key, n) ∷ others

abbrev pub is_zero : ℤ → Bool
is_zero (pos n) = leb n 0
is_zero (negsuc n) = false

-- The names whose entry is not 0.
unfoldable pub filter_view : List (Text × ℤ) → List Text
filter_view [] = []
filter_view ((key, n) ∷ call_map) =
    let others = filter_view call_map in if is_zero n then others else key ∷ others

-- What `summarize` prints: an error, that all is well, or names.
pub data Summary : Type 0 where
  no_functions_recorded all_exited : Summary
  not_exited : (names : List Text) → Summary

unfoldable pub summary_of : (names : List Text) → Bool × Summary
summary_of [] = (true, all_exited)
summary_of (name ∷ names) = (false, not_exited (name ∷ names))

unfoldable pub summarize_map : List (Text × ℤ) → Bool × Summary
summarize_map [] = (true, no_functions_recorded)
summarize_map (entry ∷ call_map) = summary_of (filter_view (entry ∷ call_map))

unfoldable pub summarize : LogFile → Bool × Summary
summarize f = summarize_map f.call_map

unfoldable pub print_last_log : LogFile → List Text
print_last_log f = take f.line_counter f.content

module _ (p : Patterns) where
  -- The loop of `read`: a line that cannot be read ends it.
  unfoldable pub read : (lines : List Text) → LogFile → LogFile
  read [] f = clear_line f
  read (line ∷ lines) f =
      let f = clear_line f in
      let f = record f { content = set f.content f.line_counter line } in
      read lines (record f {
        line_counter =
            if ends_with line p.file_logger_new_instance_str then 0 else f.line_counter + 1;
      })

  -- The body of the loop of `analysis`.
  unfoldable pub count_end : Option Text → List (Text × ℤ) → List (Text × ℤ)
  count_end none call_map = call_map
  count_end (some name) call_map = add_to_entry name (negsuc 0) call_map

  unfoldable pub count_line : Text → Option Text → List (Text × ℤ) → List (Text × ℤ)
  count_line line none call_map = count_end (p.match_end line) call_map
  count_line line (some name) call_map = add_to_entry name (pos 1) call_map

  unfoldable pub count_lines : List Text → List (Text × ℤ) → List (Text × ℤ)
  count_lines [] call_map = call_map
  count_lines (line ∷ lines) call_map =
      count_lines lines (count_line line (p.match_begin line) call_map)

  unfoldable pub analysis : LogFile → LogFile
  analysis f = record f { call_map = count_lines (take f.line_counter f.content) f.call_map }

-- What the program prints.
pub data Printed : Type 0 where
  exception_occurred : Printed
  last_log : (lines : List Text) → Printed
  summarized : Summary → Printed

module _ (p : Patterns) (is_show_last_log : Bool) where
  -- The program after its command line: whether it succeeds, and what it prints. On an exception it
  -- succeeds.
  unfoldable pub run_read : LogFile → Bool × Printed
  run_read f =
      if is_show_last_log
      then (true, last_log (print_last_log f))
      else (let (ok, summary) = summarize (analysis p f) in (ok, summarized summary))

  unfoldable pub run_opened : Option LogFile → (lines : List Text) → Bool × Printed
  run_opened none lines = (true, exception_occurred)
  run_opened (some f) lines = run_read (read p lines f)

  unfoldable pub run : (is_open : Bool) (lines : List Text) → Bool × Printed
  run is_open lines = run_opened (create is_open) lines
