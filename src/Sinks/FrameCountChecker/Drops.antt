-- ===== src/Sinks/FrameCountChecker/Drops.antt =====
-- What the drop counter of backend/srs/sinks/FrameCountChecker.cpp comes to, in every interleaving
-- of the calls of `register_frame_counter`.
use mathlib.Core.Option.{some-injective}
use srs_control.Base.Int.{
  ℤ, pos, ◌+ℤ◌, ◌-ℤ◌, sub_ℕ, ltb_ℤ, -ℤ_parts, pos_part, neg_part, int_laws, eq_of_parts, +ℤ_parts,
}
use srs_control.Base.{
  ℕ, suc, zero, ◌+◌, ◌<◌, ◌≡◌, ◌≢◌, inl, inr, refl, ap, sym, subst, Bool, true, false, List, [],
  ◌∷◌, some, length, get_elem?, set, replicate, max, ◌==◌, if◌then◌else◌, arith, Bool-cases, ◌∙◌,
  ==_iff,
}
use srs_control.Sinks.FrameCountChecker.Schedule.{
  System, start, after, take_frame, call_step, Reach, here, next,
}
use srs_control.Sinks.FrameCountChecker.{
  Counters, Phase, called, loaded, swapped, returned, advance, exchange, drop_of,
}

-- What a call has still to add to the drop counter.
abbrev pub pending : Phase → ℤ
pending (swapped diff) = drop_of diff
pending _ = pos 0

abbrev pub all_pending : List Phase → ℤ
all_pending [] = pos 0
all_pending (phase ∷ lines) = pending phase +ℤ all_pending lines

-- The highest frame counter, and how many were the highest already.
abbrev pub highest : List ℕ → ℕ
highest [] = 0
highest (f ∷ fs) = max f (highest fs)

abbrev pub repeats : List ℕ → ℕ
repeats [] = 0
repeats (f ∷ fs) = (if f == highest fs then 1 else 0) + repeats fs

abbrev pub AllReturned : List Phase → Type 0
AllReturned [] = Unit
AllReturned (phase ∷ lines) = (phase ≡ returned) × AllReturned lines

-- Frame counters that are different and not 0, with which a detector begins after a reset.
abbrev pub NotIn : ℕ → List ℕ → Type 0
NotIn f [] = Unit
NotIn f (g ∷ fs) = (f ≢ g) × NotIn f fs

abbrev pub DistinctFrames : List ℕ → Type 0
DistinctFrames [] = Unit
DistinctFrames (f ∷ fs) = (0 < f) × NotIn f fs × DistinctFrames fs

-- The balance that every step keeps, on the parts of the integers.
abbrev Balanced : System → Type 0
Balanced s =
    (s.counters.last_frame_counter ≡ highest s.registered)
    × (s.counters.last_frame_counter
          + repeats s.registered
          + neg_part s.counters.frame_drop_counter
          + neg_part (all_pending s.lines)
        ≡ pos_part s.counters.frame_drop_counter
          + pos_part (all_pending s.lines)
          + length s.registered)

-- A line's phase replaces its share of what is pending.
all_pending-set :
    (lines : List Phase) (line : ℕ) (phase phase' : Phase)
    → get_elem? lines line ≡ some phase
    → pos_part (all_pending (set lines line phase'))
        + neg_part (all_pending lines)
        + pos_part (pending phase)
        + neg_part (pending phase')
      ≡ neg_part (all_pending (set lines line phase'))
        + pos_part (all_pending lines)
        + neg_part (pending phase)
        + pos_part (pending phase')
all_pending-set [] line phase phase' h = ground arith
all_pending-set (p ∷ lines) zero phase phase' h =
    subst
      (λ q.
        pos_part (pending phase' +ℤ all_pending lines)
          + neg_part (pending p +ℤ all_pending lines)
          + pos_part (pending q)
          + neg_part (pending phase')
        ≡ neg_part (pending phase' +ℤ all_pending lines)
          + pos_part (pending p +ℤ all_pending lines)
          + neg_part (pending q)
          + pos_part (pending phase'))
      (some-injective p phase h) (omega (arith, +ℤ_parts))
all_pending-set (p ∷ lines) (suc line) phase phase' h =
    omega (int_laws, all_pending-set lines line phase phase' h)

all_pending-AllReturned : (lines : List Phase) → AllReturned lines → all_pending lines ≡ pos 0
all_pending-AllReturned [] h = refl
all_pending-AllReturned (p ∷ lines) (hp, h) =
    rw (hp, all_pending-AllReturned lines h) (omega int_laws)

-- What a swap adds: to the counter or to the drops, one is left for the frame itself.
drop_of-swap :
    (frame_counter last_value : ℕ)
    → pos_part (drop_of (sub_ℕ frame_counter last_value)) + last_value + 1
      ≡ neg_part (drop_of (sub_ℕ frame_counter last_value))
        + max frame_counter last_value
        + (if frame_counter == last_value then 1 else 0)
unfolding drop_of ◌-ℤ◌
drop_of-swap frame_counter last_value = ground arith

all_pending-replicate : (n : ℕ) → all_pending (replicate n returned) ≡ pos 0
all_pending-replicate zero = refl
all_pending-replicate (suc n) = rw (all_pending-replicate n) (omega int_laws)

Balanced-start : (n_lines : ℕ) → Balanced (start n_lines)
Balanced-start n_lines = (refl, rw (all_pending-replicate n_lines) refl)

Balanced-take_frame :
    (s : System) (line frame_counter : ℕ)
    → get_elem? s.lines line ≡ some returned
    → Balanced s
    → Balanced (record s { lines = set s.lines line (called frame_counter) })
Balanced-take_frame s line frame_counter h b =
    omega (arith, all_pending-set s.lines line returned (called frame_counter) h)

insert_value_max :
    (frame_counter last_value : ℕ)
    → (if ltb_ℤ (pos 0) (sub_ℕ frame_counter last_value) then frame_counter else last_value)
      ≡ max frame_counter last_value
insert_value_max frame_counter last_value = ground arith

exchange_made :
    (c : Counters) (frame_counter last_value : ℕ)
    → (c.last_frame_counter == last_value) ≡ true
    → exchange false frame_counter last_value c ≡ (
      record c { last_frame_counter = max frame_counter last_value },
      swapped (sub_ℕ frame_counter last_value),
    )
unfolding exchange
exchange_made c frame_counter last_value h = rw (h, insert_value_max frame_counter last_value) refl

exchange_spurious :
    (c : Counters) (frame_counter last_value : ℕ)
    → exchange true frame_counter last_value c ≡ (c, loaded frame_counter c.last_frame_counter)
unfolding exchange
exchange_spurious c frame_counter last_value = refl

exchange_lost :
    (c : Counters) (frame_counter last_value : ℕ)
    → (c.last_frame_counter == last_value) ≡ false
    → exchange false frame_counter last_value c ≡ (c, loaded frame_counter c.last_frame_counter)
unfolding exchange
exchange_lost c frame_counter last_value h = rw h refl

-- The balance after a compare-and-swap that fails, and after one that succeeds.
Balanced-retry :
    (s : System) (line frame_counter last_value : ℕ)
    → get_elem? s.lines line ≡ some (loaded frame_counter last_value)
    → Balanced s
    → Balanced (
        after s line
          (loaded frame_counter last_value)
          (s.counters, loaded frame_counter s.counters.last_frame_counter))
Balanced-retry s line frame_counter last_value h b = omega (
  arith,
  all_pending-set s.lines line (loaded frame_counter last_value)
      (loaded frame_counter s.counters.last_frame_counter) h,
)

Balanced-swap :
    (s : System) (line frame_counter last_value : ℕ)
    → get_elem? s.lines line ≡ some (loaded frame_counter last_value)
    → s.counters.last_frame_counter ≡ last_value
    → Balanced s
    → Balanced (
        after s line (loaded frame_counter last_value) (
          record s.counters { last_frame_counter = max frame_counter last_value },
          swapped (sub_ℕ frame_counter last_value),
        ))
Balanced-swap s line frame_counter last_value h e b = (
  ap (max frame_counter) (sym e ∙ b.0),
  rw (sym b.0, e)
      (omega (
        arith,
        drop_of-swap frame_counter last_value,
        all_pending-set s.lines line (loaded frame_counter last_value)
            (swapped (sub_ℕ frame_counter last_value)) h,
      )),
)

Balanced-exchange :
    (s : System) (line : ℕ) (spurious : Bool) (frame_counter last_value : ℕ)
    → get_elem? s.lines line ≡ some (loaded frame_counter last_value)
    → Balanced s
    → Balanced (
        after s line
          (loaded frame_counter last_value)
          (exchange spurious frame_counter last_value s.counters))
Balanced-exchange s line true frame_counter last_value h b =
    rw (exchange_spurious s.counters frame_counter last_value)
      (Balanced-retry s line frame_counter last_value h b)
Balanced-exchange s line false frame_counter last_value h b =
    elim (Bool-cases (s.counters.last_frame_counter == last_value)) [
      | inl e ↦ rw (exchange_made s.counters frame_counter last_value e) (
          Balanced-swap s line frame_counter last_value h
            ((==_iff s.counters.last_frame_counter last_value).0 e) b)
      | inr e ↦
          rw (exchange_lost s.counters frame_counter last_value e)
            (Balanced-retry s line frame_counter last_value h b)
    ]

Balanced-call_step :
    (s : System) (line : ℕ) (spurious : Bool) (phase : Phase)
    → get_elem? s.lines line ≡ some phase
    → Balanced s
    → Balanced (after s line phase (advance spurious s.counters phase))
unfolding advance
Balanced-call_step s line spurious (called f) h b =
    omega
      (arith, all_pending-set s.lines line (called f) (loaded f s.counters.last_frame_counter) h)
Balanced-call_step s line spurious (loaded f l) h b = Balanced-exchange s line spurious f l h b
Balanced-call_step s line spurious (swapped diff) h b =
    omega (arith, +ℤ_parts, all_pending-set s.lines line (swapped diff) returned h)
Balanced-call_step s line spurious returned h b =
    omega (arith, all_pending-set s.lines line returned returned h)

Reach-Balanced : {n_lines : ℕ} {s : System} → Reach n_lines s → Balanced s
Reach-Balanced (here) = Balanced-start _
Reach-Balanced (next r (take_frame line frame_counter h)) =
    Balanced-take_frame _ line frame_counter h (Reach-Balanced r)
Reach-Balanced (next r (call_step line spurious phase h)) =
    Balanced-call_step _ line spurious phase h (Reach-Balanced r)

repeats-NotIn : (f : ℕ) (fs : List ℕ) → 0 < f → NotIn f fs → f ≢ highest fs
repeats-NotIn f [] hf h = omega arith
repeats-NotIn f (g ∷ fs) hf h = omega (arith, repeats-NotIn f fs hf h.1)

repeats-DistinctFrames : (fs : List ℕ) → DistinctFrames fs → repeats fs ≡ 0
repeats-DistinctFrames [] h = refl
repeats-DistinctFrames (f ∷ fs) h =
    ground (arith, repeats-NotIn f fs h.0 h.1, repeats-DistinctFrames fs h.2)

-- In every interleaving of the calls on any number of lines, failed and spuriously failed swaps
-- included: when all calls have returned, the drop counter and the number of registered frames add
-- up to the highest frame counter and the number of frames that repeated the highest one before.
pub drop_count_balance :
    (n_lines : ℕ) (s : System)
    → Reach n_lines s
    → AllReturned s.lines
    → s.counters.frame_drop_counter +ℤ pos (length s.registered)
      ≡ pos (highest s.registered + repeats s.registered)
drop_count_balance n_lines s r h =
    let b = Reach-Balanced r in
    let e = all_pending-AllReturned s.lines h in
    eq_of_parts _ _ (omega (arith, +ℤ_parts, ap pos_part e, ap neg_part e))

-- In every interleaving: when all calls have returned and the frames that were registered had
-- different counters, none of them 0, the drop counter is the highest frame counter less the number
-- of registered frames. The order in which the lines delivered them does not matter.
pub drop_count_missing :
    (n_lines : ℕ) (s : System)
    → Reach n_lines s
    → AllReturned s.lines
    → DistinctFrames s.registered
    → s.counters.frame_drop_counter ≡ pos (highest s.registered) -ℤ pos (length s.registered)
drop_count_missing n_lines s r h distinct =
    let b = drop_count_balance n_lines s r h in
    eq_of_parts _ _ (
      omega (
        arith,
        +ℤ_parts,
        -ℤ_parts,
        ap pos_part b,
        ap neg_part b,
        repeats-DistinctFrames s.registered distinct,
      ))
