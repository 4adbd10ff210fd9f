-- ===== src/ConfigHandler/Tests.antt =====
-- Runs of backend/srs/ConfigHandler.hpp, with files that hold numbers as configurations.
use srs_control.Base.{
  ℕ, ◌≡◌, refl, ap, ◌∙◌, sym, Bool, true, false, List, [], ◌∷◌, Option, none, some, if◌then◌else◌,
}
use srs_control.ConfigHandler.{
  resolve_filetype, Glaze, written, output_as, output_config_to_yaml, output_config_to_file,
  set_config_from_file, dot_yml,
}
use srs_control.ConfigHandler.Files.{IsWrittenBySuffix, set_config_from_file-output_config_to_file}
use srs_control.Utils.Text.{ends_with, eq_bytes, eq_bytes_refl}

abbrev Store : Type 0
Store = List (List ℕ × ℕ)

abbrev has : Store → List ℕ → Bool
has [] name = false
has ((n, c) ∷ s) name = if eq_bytes n name then true else has s name

abbrev get : Store → List ℕ → ℕ → ℕ
get [] name old = old
get ((n, c) ∷ s) name old = if eq_bytes n name then c else get s name old

abbrev write : ℕ → List ℕ → Store → Option ℕ × Store
write c name s = (none, (name, c) ∷ s)

abbrev read : ℕ → List ℕ → Store → Option ℕ × ℕ
read old name s = if has s name then (none, get s name old) else (some 1, old)

has-write : (c : ℕ) (name : List ℕ) (f g : Store) → write c name f ≡ (none, g) → has g name ≡ true
has-write c name f g h =
    ap (λ (p : Option ℕ × Store). has p.1 name) (sym h) ∙ rw (eq_bytes_refl name) refl

read-write :
    (c old : ℕ) (name : List ℕ) (f g : Store)
    → write c name f ≡ (none, g)
    → read old name g ≡ (none, c)
read-write c old name f g h =
    ap (λ (p : Option ℕ × Store). read old name p.1) (sym h) ∙ rw (eq_bytes_refl name) refl

abbrev store : Glaze
store = record {
  Config = ℕ;
  Files = Store;
  ErrorCode = ℕ;
  exists = has;
  create_parent = λ name f. f;
  write_file_json = write;
  read_file_json = read;
  write_file_yaml = write;
  read_file_yaml = read;
  exists-write_json = has-write;
  exists-write_yaml = has-write;
  read-write_json = read-write;
  read-write_yaml = read-write;
}

abbrev a_yml : List ℕ
a_yml = b'a' ∷ dot_yml

written_yml : output_config_to_file store 5 a_yml false [] ≡ (none, (a_yml, 5) ∷ [])
unfolding output_config_to_file resolve_filetype ends_with eq_bytes output_as output_config_to_yaml
    written
written_yml = refl

set_config_from_file-output_config_to_file_example :
    (set_config_from_file store 9 a_yml true ((a_yml, 5) ∷ []) ≡ (none, 5, (a_yml, 5) ∷ []))
    × IsWrittenBySuffix store 5 a_yml [] ((a_yml, 5) ∷ [])
set_config_from_file-output_config_to_file_example =
    set_config_from_file-output_config_to_file store 5 9 a_yml false true [] ((a_yml, 5) ∷ [])
      written_yml
