-- ===== src/Utils/ExitLogger.antt =====
-- backend/srs/utils/ExitLogger.hpp: the object that logs when a scope begins and when it ends. A
-- text that is logged is a list of bytes; spdlog is a list of what was logged.
use srs_control.Base.{ℕ, List, [], ◌∷◌, ◌++◌, replicate}

abbrev pub exit_logger_begin : List ℕ
exit_logger_begin = replicate 7 b'-' ++ b'>' ∷ b'>' ∷ []

abbrev pub exit_logger_end : List ℕ
exit_logger_end = b'<' ∷ b'<' ∷ replicate 7 b'-'

abbrev pub default_tag : List ℕ
default_tag = b'f' ∷ b'u' ∷ b'n' ∷ b'c' ∷ b't' ∷ b'i' ∷ b'o' ∷ b'n' ∷ []

pub record ExitLogger : Type 0 where
  pub function_name : List ℕ
  pub tag : List ℕ

-- "{} ({})", of the function and the tag.
abbrev pub scope_name : ExitLogger → List ℕ
scope_name e = e.function_name ++ b' ' ∷ b'(' ∷ e.tag ++ b')' ∷ []

unfoldable pub tag_or_default : List ℕ → List ℕ
tag_or_default [] = default_tag
tag_or_default (c ∷ tag) = c ∷ tag

-- The constructor, and what it logs.
unfoldable pub construct : (tag function_name : List ℕ) → ExitLogger
construct tag function_name = record { function_name = function_name; tag = tag_or_default tag }

unfoldable pub begin_message : ExitLogger → List ℕ
begin_message e = exit_logger_begin ++ b' ' ∷ scope_name e

-- What the destructor logs.
unfoldable pub end_message : ExitLogger → List ℕ
end_message e = exit_logger_end ++ b' ' ∷ scope_name e
