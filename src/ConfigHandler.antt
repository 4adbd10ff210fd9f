-- ===== src/ConfigHandler.antt =====
-- backend/srs/ConfigHandler.hpp: the configuration in files. The library glaze, which writes and
-- reads the formats, and the files with the functions of `std::filesystem` are a parameter; what the
-- program relies on are the fields whose names end in a law. The texts of the messages are left out
-- but for their cases, and the functions of the library that throw are taken not to.
pub mod Files
pub mod Tests
use srs_control.Base.{
  ℕ, ◌≡◌, Bool, true, false, not, ◌&&◌, ◌||◌, List, [], ◌∷◌, Option, none, some, if◌then◌else◌,
}
use srs_control.Utils.Text.{ends_with}

pub data ConfigFileType : Type 0 where
  json yaml invalid : ConfigFileType

abbrev pub dot_json : List ℕ
dot_json = b'.' ∷ b'j' ∷ b's' ∷ b'o' ∷ b'n' ∷ []

abbrev pub dot_yml : List ℕ
dot_yml = b'.' ∷ b'y' ∷ b'm' ∷ b'l' ∷ []

abbrev pub dot_yaml : List ℕ
dot_yaml = b'.' ∷ b'y' ∷ b'a' ∷ b'm' ∷ b'l' ∷ []

unfoldable pub resolve_filetype : (filename : List ℕ) → ConfigFileType
resolve_filetype filename =
    if ends_with filename dot_json
    then json
    else (if ends_with filename dot_yml || ends_with filename dot_yaml then yaml else invalid)

-- The messages: those of the library, and those of the program.
pub data Message (E : Type 0) : Type 0 where
  writing reading : E → Message E
  already_existed bad_suffix empty_filename not_existing : Message E

-- What is done to files of a format: an error code, if there is one, and the files or the
-- configuration afterwards.
pub record Glaze : Type 1 where
  pub Config : Type 0
  pub Files : Type 0
  pub ErrorCode : Type 0
  pub exists : Files → (filename : List ℕ) → Bool
  pub create_parent : (filename : List ℕ) → Files → Files
  pub write_file_json : Config → (filename : List ℕ) → Files → Option ErrorCode × Files
  pub read_file_json : Config → (filename : List ℕ) → Files → Option ErrorCode × Config
  pub write_file_yaml : Config → (filename : List ℕ) → Files → Option ErrorCode × Files
  pub read_file_yaml : Config → (filename : List ℕ) → Files → Option ErrorCode × Config
  -- What was written is there, and is read back over any configuration.
  pub exists-write_json :
      (c : Config) (name : List ℕ) (f g : Files)
      → write_file_json c name f ≡ (none, g)
      → exists g name ≡ true
  pub exists-write_yaml :
      (c : Config) (name : List ℕ) (f g : Files)
      → write_file_yaml c name f ≡ (none, g)
      → exists g name ≡ true
  pub read-write_json :
      (c old : Config) (name : List ℕ) (f g : Files)
      → write_file_json c name f ≡ (none, g)
      → read_file_json old name g ≡ (none, c)
  pub read-write_yaml :
      (c old : Config) (name : List ℕ) (f g : Files)
      → write_file_yaml c name f ≡ (none, g)
      → read_file_yaml old name g ≡ (none, c)

module _ (glz : Glaze) where
  open glz use {
    Config, Files, ErrorCode, exists, create_parent, write_file_json, read_file_json,
    write_file_yaml, read_file_yaml,
  }

  unfoldable pub written : {A : Type 0} → Option ErrorCode × A → Option (Message ErrorCode) × A
  written (none, f) = (none, f)
  written (some e, f) = (some (writing e), f)

  unfoldable pub was_read : {A : Type 0} → Option ErrorCode × A → Option (Message ErrorCode) × A
  was_read (none, c) = (none, c)
  was_read (some e, c) = (some (reading e), c)

  unfoldable pub output_config_to_json :
      Config → (json_filename : List ℕ) → Files → Option (Message ErrorCode) × Files
  output_config_to_json c json_filename f = written (write_file_json c json_filename f)

  unfoldable pub set_config_from_json :
      Config → (json_filename : List ℕ) → Files → Option (Message ErrorCode) × Config
  set_config_from_json c json_filename f = was_read (read_file_json c json_filename f)

  unfoldable pub output_config_to_yaml :
      Config → (filename : List ℕ) → Files → Option (Message ErrorCode) × Files
  output_config_to_yaml c filename f = written (write_file_yaml c filename f)

  unfoldable pub set_config_from_yaml :
      Config → (filename : List ℕ) → Files → Option (Message ErrorCode) × Config
  set_config_from_yaml c filename f = was_read (read_file_yaml c filename f)

  unfoldable pub output_as :
      ConfigFileType → Config → (filename : List ℕ) → Files → Option (Message ErrorCode) × Files
  output_as yaml c filename f = output_config_to_yaml c filename f
  output_as json c filename f = output_config_to_json c filename f
  output_as invalid c filename f = (some bad_suffix, f)

  unfoldable pub output_config_to_file :
      Config
      → (filename : List ℕ) (is_overwrite : Bool) → Files
      → Option (Message ErrorCode) × Files
  output_config_to_file c filename is_overwrite f =
      if not is_overwrite && exists f filename
      then (some already_existed, f)
      else output_as (resolve_filetype filename) c filename (create_parent filename f)

  unfoldable pub set_as :
      ConfigFileType → Config → (filename : List ℕ) → Files → Option (Message ErrorCode) × Config
  set_as yaml c filename f = set_config_from_yaml c filename f
  set_as json c filename f = set_config_from_json c filename f
  set_as invalid c filename f = (some bad_suffix, c)

  -- The result of writing the default file is dropped.
  unfoldable pub set_config_if :
      (is_there is_default_generated : Bool)
      → Config
      → (filename : List ℕ) → Files
      → Option (Message ErrorCode) × Config × Files
  set_config_if false true c filename f =
      let (_, g) = output_config_to_file c filename false f in (none, c, g)
  set_config_if false false c filename f = (some not_existing, c, f)
  set_config_if true is_default_generated c filename f =
      let (message, c') = set_as (resolve_filetype filename) c filename f in (message, c', f)

  unfoldable pub set_config_from_file :
      Config
      → (filename : List ℕ) (is_default_generated : Bool) → Files
      → Option (Message ErrorCode) × Config × Files
  set_config_from_file c [] is_default_generated f = (some empty_filename, c, f)
  set_config_from_file c (x ∷ xs) is_default_generated f =
      set_config_if (exists f (x ∷ xs)) is_default_generated c (x ∷ xs) f
