-- ===== src/LogCheck/Lines.antt =====
-- backend/srs_check.cpp: which lines of the file are kept.
use native.Mathlib.Numerals.{add-one}
use mathlib.Core.List.{append_assoc, append-nil}
use srs_control.Base.{
  ℕ, zero, suc, ◌+◌, ◌*◌, ◌-◌, ◌≤◌, ◌<◌, ◌≡◌, refl, ap, ◌∙◌, sym, subst, ◌⊎◌, inl, inr, true, false,
  List, [], ◌∷◌, ◌++◌, All, arith, leb, Bool-cases, length, length-append, length-replicate, set,
  take, replicate,
}
use srs_control.Converters.Buffers.{length-set}
use srs_control.LogCheck.{Text, Patterns, LogFile, grow_to, with_room, clear_line, read}
use srs_control.Utils.Text.{ends_with}

take-set : (xs : List Text) (k : ℕ) (x : Text) → take k (set xs k x) ≡ take k xs
take-set [] k x = refl
take-set (y ∷ xs) zero x = refl
take-set (y ∷ xs) (suc k) x = ap (◌∷◌ y) (take-set xs k x)

take-set_next :
    (xs : List Text) (k : ℕ) (x : Text)
    → k < length xs
    → take (suc k) (set xs k x) ≡ take k xs ++ x ∷ []
take-set_next [] k x h = absurd (omega arith)
take-set_next (y ∷ xs) zero x h = refl
take-set_next (y ∷ xs) (suc k) x h = ap (◌∷◌ y) (take-set_next xs k x (omega arith))

take-append_le : (xs ys : List Text) (k : ℕ) → k ≤ length xs → take k (xs ++ ys) ≡ take k xs
take-append_le xs ys zero h = refl
take-append_le [] ys (suc k) h = absurd (omega arith)
take-append_le (x ∷ xs) ys (suc k) h = ap (◌∷◌ x) (take-append_le xs ys k (omega arith))

length-grow_to : (n : ℕ) (content : List Text) → n ≤ length (grow_to n content)
unfolding grow_to
length-grow_to n content = ground (
  arith,
  length-append content (replicate (n - length content) []),
  length-replicate {A = Text} (n - length content) [],
)

take-grow_to :
    (n k : ℕ) (content : List Text)
    → k ≤ length content
    → take k (grow_to n content) ≡ take k content
unfolding grow_to
take-grow_to n k content h = elim (Bool-cases (leb n (length content))) [
  | inl e ↦ rw e refl
  | inr e ↦ rw e (take-append_le content (replicate (n - length content) []) k h)
]

-- The lines kept so far, and room for them.
pub record IsKept (kept : List Text) (f : LogFile) : Type 0 where
  pub lines : take f.line_counter f.content ≡ kept
  pub line_counter : f.line_counter ≤ length f.content
  pub room : 0 < length f.content

module _ (k : ℕ) (content : List Text) (h : k ≤ length content) (r : 0 < length content) where
  take-with_room : take k (with_room k content) ≡ take k content
  unfolding with_room
  take-with_room = elim (Bool-cases (leb (length content) k)) [
    | inl e ↦ rw e (take-grow_to (length content * 2) k content h)
    | inr e ↦ rw e refl
  ]

  length-with_room : k < length (with_room k content)
  unfolding with_room
  length-with_room = ground (arith, length-grow_to (length content * 2) content)

-- Before a line is written there is a place for it.
module _ (kept : List Text) (f : LogFile) (i : IsKept kept f) where
  length-clear_line : f.line_counter < length (clear_line f).content
  unfolding clear_line
  length-clear_line = omega (
    arith,
    length-with_room f.line_counter f.content i.line_counter i.room,
    length-set (with_room f.line_counter f.content) f.line_counter [],
  )

  clear_line-IsKept : IsKept kept (clear_line f)
  unfolding clear_line
  clear_line-IsKept = record {
    lines =
        take-set (with_room f.line_counter f.content) f.line_counter []
        ∙ take-with_room f.line_counter f.content i.line_counter i.room
        ∙ i.lines;
    line_counter = omega (arith, length-clear_line);
    room = omega (arith, length-clear_line);
  }

-- A line that follows the kept ones, or a new start.
module _ (kept : List Text) (f : LogFile) (line : Text) (i : IsKept kept f)
    (place : f.line_counter < length f.content) where
  next_line-IsKept :
      IsKept (kept ++ line ∷ []) (record f {
        content = set f.content f.line_counter line;
        line_counter = f.line_counter + 1;
      })
  next_line-IsKept = record {
    lines =
        rw add-one
          (take-set_next f.content f.line_counter line place ∙ ap (λ xs. xs ++ line ∷ []) i.lines);
    line_counter = omega (arith, length-set f.content f.line_counter line);
    room = omega (arith, length-set f.content f.line_counter line);
  }

  restart-IsKept :
      IsKept [] (record f { content = set f.content f.line_counter line; line_counter = 0 })
  restart-IsKept = record {
    lines = refl;
    line_counter = omega (arith, length-set f.content f.line_counter line);
    room = omega (arith, length-set f.content f.line_counter line);
  }

module _ (p : Patterns) where
  -- The lines of the last instance: those after the last line with the mark of a new instance, or
  -- all of them.
  pub record IsLastInstance (lines kept : List Text) : Type 0 where
    pub before : List Text
    pub parts : lines ≡ before ++ kept
    pub no_mark : All (λ line. ends_with line p.file_logger_new_instance_str ≡ false) kept
    pub mark :
        (before ≡ [])
        ⊎ ((earlier : List Text) × (line : Text) × (before ≡ earlier ++ line ∷ [])
            × (ends_with line p.file_logger_new_instance_str ≡ true))

  pub All-append-line :
      (kept : List Text) (line : Text)
      → All (λ line. ends_with line p.file_logger_new_instance_str ≡ false) kept
      → ends_with line p.file_logger_new_instance_str ≡ false
      → All (λ line. ends_with line p.file_logger_new_instance_str ≡ false) (kept ++ line ∷ [])
  All-append-line [] line a e = (e, tt)
  All-append-line (x ∷ kept) line a e = (a.0, All-append-line kept line a.1 e)

  module _ (seen kept : List Text) (line : Text) (l : IsLastInstance seen kept) where
    IsLastInstance-next :
        ends_with line p.file_logger_new_instance_str ≡ false
        → IsLastInstance (seen ++ line ∷ []) (kept ++ line ∷ [])
    IsLastInstance-next e = record {
      before = l.before;
      parts = ap (λ xs. xs ++ line ∷ []) l.parts ∙ append_assoc l.before kept (line ∷ []);
      no_mark = All-append-line kept line l.no_mark e;
      mark = l.mark;
    }

    IsLastInstance-mark :
        ends_with line p.file_logger_new_instance_str ≡ true → IsLastInstance (seen ++ line ∷ []) []
    IsLastInstance-mark e = record {
      before = seen ++ line ∷ [];
      parts = sym (append-nil (seen ++ line ∷ []));
      no_mark = tt;
      mark = inr (seen, line, refl, e);
    }

  -- What `read` makes of a file of which some lines were read.
  pub record IsReadFrom (seen : List Text) (f : LogFile) : Type 0 where
    pub kept : List Text
    pub is_last : IsLastInstance seen kept
    pub is_kept : IsKept kept f

  pub read-IsReadFrom :
      (lines seen : List Text) (f : LogFile)
      → IsReadFrom seen f
      → IsReadFrom (seen ++ lines) (read p lines f)
  unfolding read clear_line
  read-IsReadFrom [] seen f i = rw (append-nil seen) (record {
    kept = i.kept;
    is_last = i.is_last;
    is_kept = clear_line-IsKept i.kept f i.is_kept;
  })
  read-IsReadFrom (line ∷ lines) seen f i =
      let c = clear_line-IsKept i.kept f i.is_kept in
      let place = length-clear_line i.kept f i.is_kept in
      let written = set (clear_line f).content f.line_counter line in
      elim (Bool-cases (ends_with line p.file_logger_new_instance_str)) [
        | inl e ↦
            let rest =
              read-IsReadFrom lines (seen ++ line ∷ [])
                (record (clear_line f) { content = written; line_counter = 0 })
                (record {
                  kept = [];
                  is_last = IsLastInstance-mark seen i.kept line i.is_last e;
                  is_kept = restart-IsKept i.kept (clear_line f) line c place;
                }) in
            rw e (
              subst
                (λ ls.
                  IsReadFrom ls
                    (read p lines (record (clear_line f) { content = written; line_counter = 0 })))
                (append_assoc seen (line ∷ []) lines) rest)
        | inr e ↦
            let rest =
              read-IsReadFrom lines (seen ++ line ∷ [])
                (record (clear_line f) { content = written; line_counter = f.line_counter + 1 })
                (record {
                  kept = i.kept ++ line ∷ [];
                  is_last = IsLastInstance-next seen i.kept line i.is_last e;
                  is_kept = next_line-IsKept i.kept (clear_line f) line c place;
                }) in
            rw e (
              subst
                (λ ls. IsReadFrom ls (
                  read p lines (record (clear_line f) {
                    content = written;
                    line_counter = f.line_counter + 1;
                  })))
                (append_assoc seen (line ∷ []) lines) rest)
      ]
