-- ===== src/Sinks/BinaryFile/Tests.antt =====
-- The files of backend/srs/sinks/BinaryFileWriter.cpp for small names.
use srs_control.Base.{◌≡◌, refl, Bool, List, [], ◌∷◌, some, none, ℕ, not, if◌then◌else◌}
use srs_control.Sinks.BinaryFile.{create}
use srs_control.Sinks.BinaryFile.Files.{
  construct, construct-names_from, names_from, take_while, all_of, IsDistinct, full_filename,
}
use srs_control.Utils.Filename.{
  insert_index_to_filename, path_parts, with_directory, name_parts, parts_at, split_at_last,
  split_here, decimal, digits,
}
use srs_control.Utils.Text.{eq_bytes}

abbrev filename : List ℕ
filename = b'd' ∷ b'.' ∷ b'/' ∷ b'a' ∷ b'.' ∷ b'b' ∷ []

-- "d./a.b" and 12 to "d./a_12.b".
indexed :
    insert_index_to_filename filename 12
    ≡ b'd' ∷ b'.' ∷ b'/' ∷ b'a' ∷ b'_' ∷ b'1' ∷ b'2' ∷ b'.' ∷ b'b' ∷ []
unfolding insert_index_to_filename path_parts with_directory name_parts parts_at split_at_last
    split_here decimal digits eq_bytes
indexed = refl

hidden : path_parts (b'.' ∷ b'a' ∷ []) ≡ (b'.' ∷ b'a' ∷ [], [])
unfolding path_parts with_directory name_parts parts_at split_at_last split_here eq_bytes
hidden = refl

-- The second file cannot be opened.
abbrev is_open : List ℕ → Bool
is_open name = not (eq_bytes name (full_filename filename 3 1))

construct-names_from_example :
    IsDistinct (construct is_open filename 3).0
    × (construct is_open filename 3 ≡ (
      take_while is_open (names_from filename 3 3 0),
      if all_of is_open (names_from filename 3 3 0) then some (create 3) else none,
    ))
construct-names_from_example = construct-names_from is_open filename 3
