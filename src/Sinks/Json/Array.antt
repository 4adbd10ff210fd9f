-- ===== src/Sinks/Json/Array.antt =====
-- backend/srs/sinks/JsonWriter.cpp: the file of a line is one array.
use mathlib.Core.List.{append-nil, append_assoc}
use srs_control.Base.Expected.{Expected, value}
use srs_control.Base.{ℕ, ◌≡◌, refl, ◌∙◌, true, false, List, [], ◌∷◌, ◌++◌, map}
use srs_control.Data.Structs.{StructData}
use srs_control.Sinks.Json.{
  CompactExportData, JsonLine, opening, closing, separator, create_line, close_line,
  write_separator, write_text, write_json,
}
use srs_control.Sinks.Json.Columns.{export_of, set_value-export_of}

-- The items of an array, with what stands between them.
abbrev pub later : List (List ℕ) → List ℕ
later [] = []
later (t ∷ ts) = separator ++ (t ++ later ts)

abbrev pub items : List (List ℕ) → List ℕ
items [] = []
items (t ∷ ts) = t ++ later ts

module _ {E : Type 0} (glz_write : CompactExportData → Expected E (List ℕ)) where
  abbrev pub write_all : JsonLine → List StructData → JsonLine
  write_all l [] = l
  write_all l (d ∷ ds) = write_all (write_json glz_write l d).0 ds

  module _ (text : StructData → List ℕ)
      (written : (d : StructData) → glz_write (export_of d) ≡ value (text d)) where
    write_json-first :
        (l : JsonLine) (d : StructData)
        → l.is_first_item ≡ true
        → ((write_json glz_write l d).0.file_stream ≡ l.file_stream ++ text d)
          × ((write_json glz_write l d).0.is_first_item ≡ false)
    unfolding write_json write_separator write_text
    write_json-first l d first =
        rw (first, set_value-export_of l.data_buffer d, written d) (refl, refl)

    write_json-later :
        (l : JsonLine) (d : StructData)
        → l.is_first_item ≡ false
        → ((write_json glz_write l d).0.file_stream ≡ l.file_stream ++ (separator ++ text d))
          × ((write_json glz_write l d).0.is_first_item ≡ false)
    unfolding write_json write_separator write_text
    write_json-later l d not_first =
        rw (not_first, set_value-export_of l.data_buffer d, written d)
          (append_assoc l.file_stream separator (text d), refl)

    write_all-later :
        (l : JsonLine) (ds : List StructData)
        → l.is_first_item ≡ false
        → (write_all l ds).file_stream ≡ l.file_stream ++ later (map text ds)
    write_all-later l [] not_first = simp append-nil
    write_all-later l (d ∷ ds) not_first =
        let (file, next) = write_json-later l d not_first in
        write_all-later (write_json glz_write l d).0 ds next ∙ rw file (simp append_assoc)

    write_all-items :
        (l : JsonLine) (ds : List StructData)
        → l.is_first_item ≡ true
        → (write_all l ds).file_stream ≡ l.file_stream ++ items (map text ds)
    write_all-items l [] first = simp append-nil
    write_all-items l (d ∷ ds) first =
        let (file, next) = write_json-first l d first in
        write_all-later (write_json glz_write l d).0 ds next ∙ rw file (simp append_assoc)

    -- If the library writes every structure, the closed file of a line is one array: the texts of the
    -- structures in their order, with a separator between each two, in brackets.
    pub close_line-write_all :
        (ds : List StructData)
        → close_line (write_all create_line ds) ≡ opening ++ (items (map text ds) ++ closing)
    unfolding close_line create_line
    close_line-write_all ds =
        rw (write_all-items create_line ds refl)
          (append_assoc opening (items (map text ds)) closing)
