-- ===== src/LogCheck/Instances.antt =====
-- backend/srs_check.cpp: the last instance of the program that the file is about.
use srs_control.Base.{
  ◌≡◌, refl, ap, ◌∙◌, sym, inl, inr, Bool, true, false, ◌||◌, List, [], ◌∷◌, ◌++◌, All, arith, ◌+◌,
  set, if◌then◌else◌,
}
use srs_control.LogCheck.Lines.{IsReadFrom, IsLastInstance, read-IsReadFrom}
use srs_control.LogCheck.{
  Text, Patterns, LogFile, read, print_last_log, grow_to, default_init_n_lines, clear_line,
}
use srs_control.Utils.Text.{ends_with}

-- The file as the constructor leaves it.
abbrev pub created : LogFile
created = record { line_counter = 0; content = grow_to default_init_n_lines []; call_map = [] }

module _ (p : Patterns) where
  abbrev pub has_mark : Text → Bool
  has_mark line = ends_with line p.file_logger_new_instance_str

  abbrev pub any_mark : List Text → Bool
  any_mark [] = false
  any_mark (line ∷ lines) = has_mark line || any_mark lines

  -- The lines after the last mark of a new instance, or all of them.
  abbrev pub last_instance : List Text → List Text
  last_instance [] = []
  last_instance (line ∷ lines) =
      let later = last_instance lines in
      if any_mark lines then later else if has_mark line then lines else line ∷ lines

  any_mark-All :
      (kept : List Text)
      → All (λ line. ends_with line p.file_logger_new_instance_str ≡ false) kept
      → any_mark kept ≡ false
  any_mark-All [] h = refl
  any_mark-All (line ∷ kept) h = rw (h.0) (any_mark-All kept h.1)

  last_instance-All :
      (kept : List Text)
      → All (λ line. ends_with line p.file_logger_new_instance_str ≡ false) kept
      → last_instance kept ≡ kept
  last_instance-All [] h = refl
  last_instance-All (line ∷ kept) h = rw (any_mark-All kept h.1, h.0) refl

  any_mark-append :
      (earlier kept : List Text) (line : Text)
      → has_mark line ≡ true
      → any_mark ((earlier ++ line ∷ []) ++ kept) ≡ true
  any_mark-append [] kept line e = rw e refl
  any_mark-append (x ∷ earlier) kept line e = rw (any_mark-append earlier kept line e) (grind arith)

  pub last_instance-append :
      (earlier kept : List Text) (line : Text)
      → has_mark line ≡ true
      → All (λ l. ends_with l p.file_logger_new_instance_str ≡ false) kept
      → last_instance ((earlier ++ line ∷ []) ++ kept) ≡ kept
  last_instance-append [] kept line e h = rw (any_mark-All kept h, e) refl
  last_instance-append (x ∷ earlier) kept line e h =
      rw (any_mark-append earlier kept line e) (last_instance-append earlier kept line e h)

  last_instance-IsLastInstance :
      (lines kept : List Text) → IsLastInstance p lines kept → last_instance lines ≡ kept
  last_instance-IsLastInstance lines kept i = elim i.mark [
    | inl e ↦ ap last_instance (i.parts ∙ ap (λ b. b ++ kept) e) ∙ last_instance-All kept i.no_mark
    | inr m ↦
        ap last_instance (i.parts ∙ ap (λ b. b ++ kept) m.2)
        ∙ last_instance-append m.0 kept m.1 m.3 i.no_mark
  ]

  created-IsReadFrom : IsReadFrom p [] created
  unfolding grow_to
  created-IsReadFrom = record {
    kept = [];
    is_last = record { before = []; parts = refl; no_mark = tt; mark = inl refl };
    is_kept = record { lines = refl; line_counter = omega arith; room = omega arith };
  }

  pub print_last_log-read :
      (lines : List Text) → print_last_log (read p lines created) ≡ last_instance lines
  unfolding print_last_log
  print_last_log-read lines =
      let r = read-IsReadFrom p lines [] created created-IsReadFrom in
      r.is_kept.lines ∙ sym (last_instance-IsLastInstance lines r.kept r.is_last)

  pub read-call_map : (lines : List Text) (f : LogFile) → (read p lines f).call_map ≡ f.call_map
  unfolding read clear_line
  read-call_map [] f = refl
  read-call_map (line ∷ lines) f = read-call_map lines (record {
    line_counter = if has_mark line then 0 else f.line_counter + 1;
    content = set (clear_line f).content f.line_counter line;
    call_map = f.call_map;
  })
