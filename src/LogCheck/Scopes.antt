-- ===== src/LogCheck/Scopes.antt =====
-- backend/srs/utils/ExitLogger.hpp and backend/srs_check.cpp: the objects that log the begin and the
-- end of their scope, in the program whose log is read.
use mathlib.Core.List.{Memᴰ}
use srs_control.Base.{
  ℕ, All, ◌+◌, ◌≡◌, refl, ap, ◌∙◌, true, false, not, List, [], ◌∷◌, ◌++◌, none, some, arith, ◌==◌,
  if◌then◌else◌,
}
use srs_control.LogCheck.Counts.{has_name}
use srs_control.LogCheck.Instances.{has_mark, last_instance-append}
use srs_control.LogCheck.Lines.{All-append-line}
use srs_control.LogCheck.Balance.{
  count_begins, count_ends, counts-other_line, counts-begin_line, counts-end_line,
}
use srs_control.LogCheck.Reported.{names_of, run-names_of}
use srs_control.LogCheck.{Text, Patterns, run}
use srs_control.Utils.ExitLogger.{ExitLogger, scope_name, begin_message, end_message, construct}
use srs_control.Utils.Text.{eq_bytes}

-- How often the name is the name of one of the scopes.
abbrev pub count_scopes : Text → List ExitLogger → ℕ
count_scopes name [] = 0
count_scopes name (e ∷ scopes) =
    let others = count_scopes name scopes in
    if eq_bytes (scope_name e) name then 1 + others else others

count_scopes-insert :
    (name : Text) (before after : List ExitLogger) (e : ExitLogger)
    → count_scopes name (before ++ e ∷ after)
      ≡ count_scopes name (before ++ after) + (if eq_bytes (scope_name e) name then 1 else 0)
count_scopes-insert name [] after e = ground arith
count_scopes-insert name (x ∷ before) after e =
    ground (arith, count_scopes-insert name before after e)

-- The lines of the log are made by spdlog from a time stamp and the message.
module _ (p : Patterns) (format_line : Text → Text → Text) where
  -- What ctre finds in the lines of one scope: the patterns are followed by its name.
  pub record IsFormatted (e : ExitLogger) : Type 0 where
    pub match_begin :
        (time : Text) → p.match_begin (format_line time (begin_message e)) ≡ some (scope_name e)
    pub not_begin : (time : Text) → p.match_begin (format_line time (end_message e)) ≡ none
    pub match_end :
        (time : Text) → p.match_end (format_line time (end_message e)) ≡ some (scope_name e)
    pub begin_unmarked : (time : Text) → has_mark p (format_line time (begin_message e)) ≡ false
    pub end_unmarked : (time : Text) → has_mark p (format_line time (end_message e)) ≡ false

  -- The objects that live, those that were copied from another, those whose names were replaced by
  -- an assignment, and the lines logged since the start of the program.
  pub data IsLogged : (scopes copies replaced : List ExitLogger) (lines : List Text) → Type 0 where
    begun : IsLogged [] [] [] []
    other_line :
        {scopes copies replaced : List ExitLogger} {lines : List Text} (line : Text)
        → IsLogged scopes copies replaced lines
        → p.match_begin line ≡ none
        → p.match_end line ≡ none
        → has_mark p line ≡ false
        → IsLogged scopes copies replaced (lines ++ line ∷ [])
    constructed :
        {scopes copies replaced : List ExitLogger} {lines : List Text}
        (time tag function_name : Text)
        → IsLogged scopes copies replaced lines
        → IsFormatted (construct tag function_name)
        → IsLogged
            (construct tag function_name ∷ scopes)
            copies
            replaced
            (lines ++ format_line time (begin_message (construct tag function_name)) ∷ [])
    copied :
        {scopes copies replaced : List ExitLogger} {lines : List Text} (e : ExitLogger)
        → Memᴰ e scopes
        → IsLogged scopes copies replaced lines
        → IsLogged (e ∷ scopes) (e ∷ copies) replaced lines
    assigned :
        {copies replaced : List ExitLogger} {lines : List Text} (before after : List ExitLogger)
        (old e : ExitLogger)
        → Memᴰ e (before ++ old ∷ after)
        → IsLogged (before ++ old ∷ after) copies replaced lines
        → IsLogged (before ++ e ∷ after) (e ∷ copies) (old ∷ replaced) lines
    destructed :
        {copies replaced : List ExitLogger} {lines : List Text} (before after : List ExitLogger)
        (time : Text) (e : ExitLogger)
        → IsLogged (before ++ e ∷ after) copies replaced lines
        → IsFormatted e
        → IsLogged
            (before ++ after)
            copies
            replaced
            (lines ++ format_line time (end_message e) ∷ [])

  IsLogged-unmarked :
      (scopes copies replaced : List ExitLogger) (lines : List Text)
      → IsLogged scopes copies replaced lines
      → All (λ line. has_mark p line ≡ false) lines
  IsLogged-unmarked _ _ _ _ begun = tt
  IsLogged-unmarked scopes copies replaced _ (other_line {lines = lines} line l b e m) =
      All-append-line p lines line (IsLogged-unmarked scopes copies replaced lines l) m
  IsLogged-unmarked _ copies replaced _
        (constructed {scopes = scopes} {lines = lines} time tag function_name l f) =
      All-append-line p lines (format_line time (begin_message (construct tag function_name)))
        (IsLogged-unmarked scopes copies replaced lines l) (f.begin_unmarked time)
  IsLogged-unmarked _ _ replaced lines (copied {scopes = scopes} {copies = copies} e m l) =
      IsLogged-unmarked scopes copies replaced lines l
  IsLogged-unmarked _ _ _ lines
        (assigned {copies = copies} {replaced = replaced} before after old e m l) =
      IsLogged-unmarked (before ++ old ∷ after) copies replaced lines l
  IsLogged-unmarked _ copies replaced _ (destructed {lines = lines} before after time e l f) =
      All-append-line p lines (format_line time (end_message e))
        (IsLogged-unmarked (before ++ e ∷ after) copies replaced lines l) (f.end_unmarked time)

  module _ (name : Text) where
    -- What the lines and the objects count.
    abbrev IsBalanced : (scopes copies replaced : List ExitLogger) (lines : List Text) → Type 0
    IsBalanced scopes copies replaced lines =
        count_begins p name lines + count_scopes name copies
        ≡ count_ends p name lines + count_scopes name scopes + count_scopes name replaced

    IsLogged-IsBalanced :
        (scopes copies replaced : List ExitLogger) (lines : List Text)
        → IsLogged scopes copies replaced lines
        → IsBalanced scopes copies replaced lines
    IsLogged-IsBalanced _ _ _ _ begun = refl
    IsLogged-IsBalanced scopes copies replaced _ (other_line {lines = lines} line l b e m) =
        let c = counts-other_line p name lines line b e in
        omega (arith, c.0, c.1, IsLogged-IsBalanced scopes copies replaced lines l)
    IsLogged-IsBalanced _ copies replaced _
          (constructed {scopes = scopes} {lines = lines} time tag function_name l f) =
        let line = format_line time (begin_message (construct tag function_name)) in
        let n = scope_name (construct tag function_name) in
        let c = counts-begin_line p name lines line n (f.match_begin time) in
        ground (arith, c.0, c.1, IsLogged-IsBalanced scopes copies replaced lines l)
    IsLogged-IsBalanced _ _ replaced lines (copied {scopes = scopes} {copies = copies} e m l) =
        ground (arith, IsLogged-IsBalanced scopes copies replaced lines l)
    IsLogged-IsBalanced _ _ _ lines
          (assigned {copies = copies} {replaced = replaced} before after old e m l) =
        ground (
          arith,
          count_scopes-insert name before after old,
          count_scopes-insert name before after e,
          IsLogged-IsBalanced (before ++ old ∷ after) copies replaced lines l,
        )
    IsLogged-IsBalanced _ copies replaced _ (destructed {lines = lines} before after time e l f) =
        let line = format_line time (end_message e) in
        let c =
          counts-end_line p name lines line (scope_name e) (f.not_begin time) (f.match_end time) in
        ground (
          arith,
          c.0,
          c.1,
          count_scopes-insert name before after e,
          IsLogged-IsBalanced (before ++ e ∷ after) copies replaced lines l,
        )

-- Of the log of a program that has logged its start and then constructed, copied, assigned and
-- destroyed the objects in any order, between other lines that have no mark and match no pattern, a
-- name is reported exactly if the objects with this name that still live, together with those that
-- an assignment replaced, are not as many as those that were copied. The patterns find in each line
-- of an object its scope.
pub run-IsLogged :
    (p : Patterns) (format_line : Text → Text → Text) (earlier : List Text) (start : Text)
    (scopes copies replaced : List ExitLogger) (lines : List Text) (name : Text)
    → has_mark p start ≡ true
    → IsLogged p format_line scopes copies replaced lines
    → has_name name (names_of (run p false true ((earlier ++ start ∷ []) ++ lines)).1)
      ≡ not (count_scopes name scopes + count_scopes name replaced == count_scopes name copies)
run-IsLogged p format_line earlier start scopes copies replaced lines name s l =
    let last =
      last_instance-append p earlier lines start s
        (IsLogged-unmarked p format_line scopes copies replaced lines l) in
    (run-names_of p ((earlier ++ start ∷ []) ++ lines) name).1
    ∙ ap (λ ls. not (count_begins p name ls == count_ends p name ls)) last
    ∙ ground (arith, IsLogged-IsBalanced p format_line name scopes copies replaced lines l)
