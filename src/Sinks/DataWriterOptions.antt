-- ===== src/Sinks/DataWriterOptions.antt =====
-- backend/srs/sinks/DataWriterOptions.hpp: the kind of an output and its conversion, by its name. A
-- text is the list of its bytes. `extension` is that of `std::filesystem::path`.
use srs_control.Base.{
  ℕ, suc, Bool, true, false, ◌&&◌, ◌||◌, List, [], ◌∷◌, Option, none, some, ◌==◌, if◌then◌else◌,
  drop,
}
use srs_control.Converters.DataConvertOptions.{
  DataConvertOptions, no_conversion, raw, raw_frame, structure, proto, proto_frame,
}

pub data DataWriterOption : Type 0 where
  no_output root json bin udp : DataWriterOption

abbrev pub same_text : List ℕ → List ℕ → Bool
same_text [] [] = true
same_text [] (y ∷ ys) = false
same_text (x ∷ xs) [] = false
same_text (x ∷ xs) (y ∷ ys) = (x == y) && same_text xs ys

-- `std::string_view::find`.
abbrev pub find : List ℕ → (char : ℕ) → Option ℕ
find [] char = none
find (x ∷ xs) char =
    if x == char then some 0 else elim (find xs char) [ none ↦ none | some pos ↦ some (suc pos) ]

-- The text from the last occurrence of a character on.
abbrev pub from_last : List ℕ → (char : ℕ) → Option (List ℕ)
from_last [] char = none
from_last (x ∷ xs) char = elim (from_last xs char) [
  | some rest ↦ some rest
  | none ↦ if x == char then some (x ∷ xs) else none
]

abbrev or_else {ℓ} : {A : Type ℓ} → Option A → A → A
or_else none d = d
or_else (some a) d = a

-- A dot at the beginning starts no extension.
abbrev name_extension : List ℕ → List ℕ
name_extension [] = []
name_extension (x ∷ xs) =
    if same_text (x ∷ xs) (b'.' ∷ b'.' ∷ []) then [] else or_else (from_last xs b'.') []

abbrev pub extension : List ℕ → List ℕ
extension path = elim (from_last path b'/') [
  | none ↦ name_extension path
  | some name ↦ name_extension (drop 1 name)
]

unfoldable pub contains : List ℕ → (char : ℕ) → Bool
contains text char = elim (find text char) [ none ↦ false | some pos ↦ true ]

unfoldable pub get_filetype_from_filename : List ℕ → DataWriterOption × DataConvertOptions
get_filetype_from_filename filename =
    let file_ext = extension filename in
    if contains filename b':'
    then if contains filename b'?' then (udp, raw) else (udp, proto)
    else if same_text file_ext (b'.' ∷ b'b' ∷ b'i' ∷ b'n' ∷ [])
        || same_text file_ext (b'.' ∷ b'l' ∷ b'm' ∷ b'd' ∷ [])
    then (bin, raw_frame)
    else if same_text file_ext (b'.' ∷ b'b' ∷ b'i' ∷ b'n' ∷ b'p' ∷ b'b' ∷ [])
    then (bin, proto_frame)
    else if same_text file_ext (b'.' ∷ b'r' ∷ b'o' ∷ b'o' ∷ b't' ∷ [])
    then (root, structure)
    else if same_text file_ext (b'.' ∷ b'j' ∷ b's' ∷ b'o' ∷ b'n' ∷ [])
    then (json, structure)
    else (no_output, no_conversion)
