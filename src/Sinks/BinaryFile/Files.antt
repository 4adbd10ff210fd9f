-- ===== src/Sinks/BinaryFile/Files.antt =====
-- backend/srs/sinks/BinaryFileWriter.cpp: the files of the lines, opened by the constructor and closed
-- by the destructor. Whether a file can be opened is a parameter.
use srs_control.Base.{
  ℕ, zero, suc, ◌<◌, ◌≡◌, refl, inl, inr, Bool, true, false, ◌&&◌, List, [], ◌∷◌, Option, none,
  some, arith, All, ◌==◌, if◌then◌else◌, Bool-cases,
}
use srs_control.Report.{AppReport, register_output_sink_result}
use srs_control.Sinks.BinaryFile.{BinaryFile, create}
use srs_control.Utils.Filename.{insert_index_to_filename, insert_index_to_filename-injective}

unfoldable pub full_filename : (filename : List ℕ) (n_lines idx : ℕ) → List ℕ
full_filename filename n_lines idx =
    if n_lines == 1 then filename else insert_index_to_filename filename idx

-- The destructor, without the closing of the streams: what is registered, if there is a report.
unfoldable pub destroy : (file_name : List ℕ) → BinaryFile → Option AppReport → Option AppReport
destroy file_name b none = none
destroy file_name b (some report) =
    some (register_output_sink_result report file_name b.output_data)

module _ (is_open : List ℕ → Bool) (filename : List ℕ) (n_lines : ℕ) where
  -- The loop over the lines from an index on: the files that were opened, and whether all were.
  unfoldable pub open_files : (rest idx : ℕ) → List (List ℕ) × Bool
  open_files zero idx = ([], true)
  open_files (suc rest) idx =
      let name = full_filename filename n_lines idx in
      let (names, all_open) = open_files rest (suc idx) in
      if is_open name then (name ∷ names, all_open) else ([], false)

  -- The constructor: the files that it opened, and the object, or none if it throws.
  unfoldable pub construct : List (List ℕ) × Option BinaryFile
  construct =
      let (names, all_open) = open_files n_lines 0 in
      (names, if all_open then some (create n_lines) else none)

abbrev pub IsDistinct : List (List ℕ) → Type 0
IsDistinct [] = Unit
IsDistinct (x ∷ xs) = All (λ y. ¬ (x ≡ y)) xs × IsDistinct xs

-- The names up to the first for which there is no file, and whether there is none.
abbrev pub take_while : (List ℕ → Bool) → List (List ℕ) → List (List ℕ)
take_while test [] = []
take_while test (x ∷ xs) = let others = take_while test xs in if test x then x ∷ others else []

abbrev pub all_of : (List ℕ → Bool) → List (List ℕ) → Bool
all_of test [] = true
all_of test (x ∷ xs) = test x && all_of test xs

module _ (filename : List ℕ) (n_lines : ℕ) where
  abbrev pub names_from : (rest idx : ℕ) → List (List ℕ)
  names_from zero idx = []
  names_from (suc rest) idx = full_filename filename n_lines idx ∷ names_from rest (suc idx)

  open_files-eq :
      (is_open : List ℕ → Bool) (rest idx : ℕ)
      → open_files is_open filename n_lines rest idx
        ≡ (take_while is_open (names_from rest idx), all_of is_open (names_from rest idx))
  unfolding open_files
  open_files-eq is_open zero idx = refl
  open_files-eq is_open (suc rest) idx =
      elim (Bool-cases (is_open (full_filename filename n_lines idx))) [
        | inl e ↦ rw (e, open_files-eq is_open rest (suc idx)) refl
        | inr e ↦ rw e refl
      ]

  module _ (several : (n_lines == 1) ≡ false) where
    names_from-other :
        (i rest idx : ℕ)
        → i < idx
        → All (λ y. ¬ (full_filename filename n_lines i ≡ y)) (names_from rest idx)
    unfolding full_filename
    names_from-other i zero idx h = tt
    names_from-other i (suc rest) idx h = (
      rw several (λ e. absurd (omega (arith, insert_index_to_filename-injective filename i idx e))),
      names_from-other i rest (suc idx) (omega arith),
    )

    names_from-IsDistinct : (rest idx : ℕ) → IsDistinct (names_from rest idx)
    names_from-IsDistinct zero idx = tt
    names_from-IsDistinct (suc rest) idx =
        (names_from-other idx rest (suc idx) (omega arith), names_from-IsDistinct rest (suc idx))

All-take_while :
    (test : List ℕ → Bool) (x : List ℕ) (xs : List (List ℕ))
    → All (λ y. ¬ (x ≡ y)) xs
    → All (λ y. ¬ (x ≡ y)) (take_while test xs)
All-take_while test x [] h = tt
All-take_while test x (y ∷ xs) h = elim (Bool-cases (test y)) [
  | inl e ↦ rw e (h.0, All-take_while test x xs h.1)
  | inr e ↦ rw e tt
]

IsDistinct-take_while :
    (test : List ℕ → Bool) (xs : List (List ℕ)) → IsDistinct xs → IsDistinct (take_while test xs)
IsDistinct-take_while test [] h = tt
IsDistinct-take_while test (x ∷ xs) h = elim (Bool-cases (test x)) [
  | inl e ↦ rw e (All-take_while test x xs h.0, IsDistinct-take_while test xs h.1)
  | inr e ↦ rw e tt
]

names-IsDistinct :
    (filename : List ℕ) (n_lines : ℕ) → IsDistinct (names_from filename n_lines n_lines 0)
names-IsDistinct filename zero = tt
names-IsDistinct filename (suc zero) = (tt, tt)
names-IsDistinct filename (suc (suc n)) =
    names_from-IsDistinct filename (suc (suc n)) (ground arith) (suc (suc n)) 0

-- The constructor opens the files of the lines in their order, up to the first that cannot be opened,
-- and no two of them have one name. It makes the object, with a stream for each line, exactly if all
-- can be opened, and throws otherwise.
pub construct-names_from :
    (is_open : List ℕ → Bool) (filename : List ℕ) (n_lines : ℕ)
    → IsDistinct (construct is_open filename n_lines).0
      × (construct is_open filename n_lines ≡ (
        take_while is_open (names_from filename n_lines n_lines 0),
        if all_of is_open (names_from filename n_lines n_lines 0)
            then some (create n_lines)
            else none,
      ))
unfolding construct
construct-names_from is_open filename n_lines =
    let e = open_files-eq filename n_lines is_open n_lines 0 in
    (
      rw e (
          IsDistinct-take_while is_open (names_from filename n_lines n_lines 0)
            (names-IsDistinct filename n_lines)),
      rw e refl,
    )
