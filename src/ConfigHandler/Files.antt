-- ===== src/ConfigHandler/Files.antt =====
-- backend/srs/ConfigHandler.hpp: what is written to a file is read from it, and when nothing is
-- changed.
use srs_control.Base.{
  ℕ, ◌≡◌, refl, ap, Bool, true, false, not, ◌&&◌, List, [], ◌∷◌, ◌⊎◌, inl, inr, ◌||◌, ◌++◌, Option,
  none, some, if◌then◌else◌,
}
use srs_control.ConfigHandler.{
  dot_json, dot_yml, dot_yaml, ConfigFileType, json, yaml, invalid, resolve_filetype, Message,
  already_existed, bad_suffix, not_existing, Glaze, written, was_read, output_config_to_json,
  set_config_from_json, output_config_to_yaml, set_config_from_yaml, output_as,
  output_config_to_file, set_as, set_config_if, set_config_from_file,
}
use srs_control.Utils.Text.{ends_with, ends_with-split}

module _ (glz : Glaze) where
  open glz use {Config, Files, ErrorCode, exists, create_parent}

  written-none :
      {A : Type 0} (r : Option ErrorCode × A) (g : A) → written glz r ≡ (none, g) → r ≡ (none, g)
  unfolding written
  written-none (none, f) g h = ap (λ p. (none, p.1)) h
  written-none (some e, f) g h = cc

  -- A file that was written in its format is there, and is read in its format.
  set_as-output_as :
      (t : ConfigFileType) (c old : Config) (name : List ℕ) (f g : Files)
      → output_as glz t c name f ≡ (none, g)
      → (set_as glz t old name g ≡ (none, c)) × (exists g name ≡ true)
  unfolding output_as set_as output_config_to_json output_config_to_yaml set_config_from_json
      set_config_from_yaml was_read
  set_as-output_as json c old name f g h =
      let w = written-none (glz.write_file_json c name f) g h in
      (rw (glz.read-write_json c old name f g w) refl, glz.exists-write_json c name f g w)
  set_as-output_as yaml c old name f g h =
      let w = written-none (glz.write_file_yaml c name f) g h in
      (rw (glz.read-write_yaml c old name f g w) refl, glz.exists-write_yaml c name f g w)
  set_as-output_as invalid c old name f g h = cc

  -- What gets past the test of the file.
  past_test :
      (b : Bool) (f g : Files) (r : Option (Message ErrorCode) × Files)
      → (if b then (some already_existed, f) else r) ≡ (none, g)
      → r ≡ (none, g)
  past_test true f g r h = cc
  past_test false f g r h = h

  -- The files are those that the library makes when it writes the format of the name's suffix.
  abbrev pub IsWrittenBySuffix : Config → (name : List ℕ) → (f g : Files) → Type 0
  IsWrittenBySuffix c name f g =
      ((base : List ℕ) × (name ≡ base ++ dot_json)
        × (glz.write_file_json c name (create_parent name f) ≡ (none, g)))
      ⊎ ((base : List ℕ) × ((name ≡ base ++ dot_yml) ⊎ (name ≡ base ++ dot_yaml))
          × (glz.write_file_yaml c name (create_parent name f) ≡ (none, g)))

  either_suffix : (a b : Bool) → (a || b) ≡ true → (a ≡ true) ⊎ (b ≡ true)
  either_suffix true b e = inl refl
  either_suffix false b e = inr e

  written_by_suffix :
      (is_json is_yaml : Bool) (c : Config) (name : List ℕ) (f g : Files)
      → ends_with name dot_json ≡ is_json
      → (ends_with name dot_yml || ends_with name dot_yaml) ≡ is_yaml
      → output_as glz
          (if is_json then json else (if is_yaml then yaml else invalid))
          c
          name
          (create_parent name f)
        ≡ (none, g)
      → IsWrittenBySuffix c name f g
  unfolding output_as output_config_to_json output_config_to_yaml
  written_by_suffix true is_yaml c name f g j y h =
      let (base, e) = ends_with-split name dot_json j in
      inl (base, e, written-none (glz.write_file_json c name (create_parent name f)) g h)
  written_by_suffix false true c name f g j y h =
      let w = written-none (glz.write_file_yaml c name (create_parent name f)) g h in
      elim (either_suffix (ends_with name dot_yml) (ends_with name dot_yaml) y) [
        | inl fits ↦ let (base, e) = ends_with-split name dot_yml fits in inr (base, inl e, w)
        | inr fits ↦ let (base, e) = ends_with-split name dot_yaml fits in inr (base, inr e, w)
      ]
  written_by_suffix false false c name f g j y h = cc

  -- A configuration that was written without an error was written by the library in the format that
  -- the name's suffix stands for, `.json`, `.yml` or `.yaml`. It is what the file gives, whatever the
  -- configuration was before, and the files are as they were written.
  pub set_config_from_file-output_config_to_file :
      (c old : Config) (name : List ℕ) (is_overwrite is_default_generated : Bool) (f g : Files)
      → output_config_to_file glz c name is_overwrite f ≡ (none, g)
      → (set_config_from_file glz old name is_default_generated g ≡ (none, c, g))
        × IsWrittenBySuffix c name f g
  unfolding output_config_to_file set_config_from_file set_config_if output_as resolve_filetype
      ends_with
  set_config_from_file-output_config_to_file c old [] is_overwrite is_default_generated f g h =
      let h' =
        past_test (not is_overwrite && exists f []) f g (some bad_suffix, create_parent [] f) h in
      cc
  set_config_from_file-output_config_to_file c old (x ∷ xs) is_overwrite is_default_generated f g
        h =
      let name = x ∷ xs in
      let past =
        past_test (not is_overwrite && exists f name) f g
          (output_as glz (resolve_filetype name) c name (create_parent name f)) h in
      let (same, there) =
        set_as-output_as (resolve_filetype name) c old name (create_parent name f) g past in
      (
        rw (there, same) refl,
        written_by_suffix (ends_with name dot_json)
            (ends_with name dot_yml || ends_with name dot_yaml) c name f g refl refl past,
      )

  -- A file that is there is changed by nothing but a call that asks to overwrite it.
  pub output_config_to_file-exists :
      (c : Config) (name : List ℕ) (f : Files)
      → exists f name ≡ true
      → output_config_to_file glz c name false f ≡ (some already_existed, f)
  unfolding output_config_to_file
  output_config_to_file-exists c name f there = rw there refl

  -- A name without one of the suffixes: a file of this name is refused, but one that is not there is
  -- reported only when no default is asked for. With a default there is no error, though nothing but
  -- the folder is made.
  set_config_from_file_bad_suffix :
      (c : Config) (x : ℕ) (xs : List ℕ) (f : Files)
      → resolve_filetype (x ∷ xs) ≡ invalid
      → (exists f (x ∷ xs) ≡ true
          → (gen : Bool) → set_config_from_file glz c (x ∷ xs) gen f ≡ (some bad_suffix, c, f))
        × (exists f (x ∷ xs) ≡ false
            → (set_config_from_file glz c (x ∷ xs) false f ≡ (some not_existing, c, f))
              × (set_config_from_file glz c (x ∷ xs) true f ≡ (none, c, create_parent (x ∷ xs) f)))
  unfolding set_config_from_file set_config_if set_as output_config_to_file output_as
  set_config_from_file_bad_suffix c x xs f bad = (
    λ there gen. rw (there, bad) refl,
    λ missing. (rw missing refl, rw (missing, bad) (rw missing refl)),
  )
