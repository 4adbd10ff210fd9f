-- ===== src/LogCheck/Balance.antt =====
-- backend/srs_check.cpp: the begins and the ends of a name in some lines, and the entry that `analysis`
-- makes of them.
use srs_control.Base.Int.{ℤ, pos, negsuc, pos_part, neg_part, +ℤ_parts}
use srs_control.Base.{
  ℕ, ◌+◌, ◌≡◌, refl, ◌∙◌, Bool, false, not, List, [], ◌∷◌, ◌++◌, Option, none, some, arith, ◌==◌,
  if◌then◌else◌,
}
use srs_control.LogCheck.Counts.{
  count_of, count_of-add_to_entry, IsMap, IsMap-add_to_entry, has_name, has_name-filter_view,
}
use srs_control.LogCheck.{Text, Patterns, count_end, count_line, count_lines, filter_view, is_zero}
use srs_control.Utils.Text.{eq_bytes}

module _ (p : Patterns) (name : Text) where
  -- Whether a line says that the scope of the name begins, or ends: a line that begins a scope ends
  -- none.
  abbrev is_name : Option Text → Bool
  is_name none = false
  is_name (some n) = eq_bytes n name

  abbrev is_end_unless : Option Text → Text → Bool
  is_end_unless none line = is_name (p.match_end line)
  is_end_unless (some n) line = false

  abbrev pub count_begins : List Text → ℕ
  count_begins [] = 0
  count_begins (line ∷ lines) =
      let others = count_begins lines in if is_name (p.match_begin line) then 1 + others else others

  abbrev pub count_ends : List Text → ℕ
  count_ends [] = 0
  count_ends (line ∷ lines) =
      let others = count_ends lines in
      if is_end_unless (p.match_begin line) line then 1 + others else others

  -- What a line adds at the end.
  count_begins-append :
      (lines : List Text) (line : Text)
      → count_begins (lines ++ line ∷ [])
        ≡ count_begins lines + (if is_name (p.match_begin line) then 1 else 0)
  count_begins-append [] line = ground arith
  count_begins-append (l ∷ lines) line = ground (arith, count_begins-append lines line)

  count_ends-append :
      (lines : List Text) (line : Text)
      → count_ends (lines ++ line ∷ [])
        ≡ count_ends lines + (if is_end_unless (p.match_begin line) line then 1 else 0)
  count_ends-append [] line = ground arith
  count_ends-append (l ∷ lines) line = ground (arith, count_ends-append lines line)

  module _ (lines : List Text) (line : Text) where
    pub counts-other_line :
        p.match_begin line ≡ none
        → p.match_end line ≡ none
        → (count_begins (lines ++ line ∷ []) ≡ count_begins lines)
          × (count_ends (lines ++ line ∷ []) ≡ count_ends lines)
    counts-other_line b e = (
      rw (count_begins-append lines line, b) (omega arith),
      rw (count_ends-append lines line, b, e) (omega arith),
    )

    pub counts-begin_line :
        (n : Text)
        → p.match_begin line ≡ some n
        → (count_begins (lines ++ line ∷ [])
            ≡ count_begins lines + (if eq_bytes n name then 1 else 0))
          × (count_ends (lines ++ line ∷ []) ≡ count_ends lines)
    counts-begin_line n b = (
      rw (count_begins-append lines line, b) refl,
      rw (count_ends-append lines line, b) (omega arith),
    )

    pub counts-end_line :
        (n : Text)
        → p.match_begin line ≡ none
        → p.match_end line ≡ some n
        → (count_begins (lines ++ line ∷ []) ≡ count_begins lines)
          × (count_ends (lines ++ line ∷ [])
              ≡ count_ends lines + (if eq_bytes n name then 1 else 0))
    counts-end_line n b e = (
      rw (count_begins-append lines line, b) (omega arith),
      rw (count_ends-append lines line, b, e) refl,
    )

  -- What one line adds to the value.
  abbrev IsStep : (b e : Bool) (before after : ℤ) → Type 0
  IsStep b e before after =
      pos_part after + neg_part before + (if e then 1 else 0)
      ≡ pos_part before + neg_part after + (if b then 1 else 0)

  count_end-IsStep :
      (found : Option Text) (m : List (Text × ℤ))
      → IsStep false (is_name found) (count_of name m) (count_of name (count_end p found m))
  unfolding count_end
  count_end-IsStep none m = omega arith
  count_end-IsStep (some n) m =
      rw (count_of-add_to_entry name n (negsuc 0) m)
        (ground (arith, +ℤ_parts (count_of name m) (negsuc 0)))

  count_line-IsStep :
      (line : Text) (found : Option Text) (m : List (Text × ℤ))
      → IsStep
          (is_name found)
          (is_end_unless found line)
          (count_of name m)
          (count_of name (count_line p line found m))
  unfolding count_line
  count_line-IsStep line none m = count_end-IsStep (p.match_end line) m
  count_line-IsStep line (some n) m =
      rw (count_of-add_to_entry name n (pos 1) m)
        (ground (arith, +ℤ_parts (count_of name m) (pos 1)))

  count_of-count_lines :
      (lines : List Text) (m : List (Text × ℤ))
      → pos_part (count_of name (count_lines p lines m))
          + neg_part (count_of name m)
          + count_ends lines
        ≡ pos_part (count_of name m)
          + neg_part (count_of name (count_lines p lines m))
          + count_begins lines
  unfolding count_lines
  count_of-count_lines [] m = omega arith
  count_of-count_lines (line ∷ lines) m =
      let m' = count_line p line (p.match_begin line) m in
      ground (arith, count_line-IsStep line (p.match_begin line) m, count_of-count_lines lines m')

  not_zero_iff :
      (v : ℤ) (begins ends : ℕ)
      → pos_part v + ends ≡ neg_part v + begins
      → not (is_zero v) ≡ not (begins == ends)
  not_zero_iff (pos n) begins ends h = ground arith
  not_zero_iff (negsuc n) begins ends h = ground arith

module _ (p : Patterns) where
  IsMap-count_end :
      (found : Option Text) (m : List (Text × ℤ)) → IsMap m → IsMap (count_end p found m)
  unfolding count_end
  IsMap-count_end none m h = h
  IsMap-count_end (some n) m h = IsMap-add_to_entry n (negsuc 0) m h

  IsMap-count_line :
      (line : Text) (found : Option Text) (m : List (Text × ℤ))
      → IsMap m
      → IsMap (count_line p line found m)
  unfolding count_line
  IsMap-count_line line none m h = IsMap-count_end (p.match_end line) m h
  IsMap-count_line line (some n) m h = IsMap-add_to_entry n (pos 1) m h

  IsMap-count_lines :
      (lines : List Text) (m : List (Text × ℤ)) → IsMap m → IsMap (count_lines p lines m)
  unfolding count_lines
  IsMap-count_lines [] m h = h
  IsMap-count_lines (line ∷ lines) m h =
      IsMap-count_lines lines (count_line p line (p.match_begin line) m)
        (IsMap-count_line line (p.match_begin line) m h)

  -- The names that are left are those whose lines do not balance.
  pub has_name-count_lines :
      (name : Text) (lines : List Text)
      → has_name name (filter_view (count_lines p lines []))
        ≡ not (count_begins p name lines == count_ends p name lines)
  has_name-count_lines name lines =
      has_name-filter_view name (count_lines p lines []) (IsMap-count_lines lines [] tt)
      ∙ not_zero_iff p name (count_of name (count_lines p lines [])) (count_begins p name lines)
          (count_ends p name lines) (omega (arith, count_of-count_lines p name lines []))
