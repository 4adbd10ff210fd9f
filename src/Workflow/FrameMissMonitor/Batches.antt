-- ===== src/Workflow/FrameMissMonitor/Batches.antt =====
-- backend/srs/workflow/FrameMissMonitor.hpp: which samples a report is about.
use mathlib.Core.List.{flatten, append_assoc, append-nil}
use srs_control.Base.Int.{ℤ, pos}
use srs_control.Base.{
  ◌<◌, ◌≡◌, refl, ap, ap₂, ◌∙◌, sym, subst, Bool, true, false, List, [], ◌∷◌, ◌++◌, length, arith,
  length-append, All, ◌==◌, Bool-cases, inl, inr, if◌then◌else◌, map, ==_iff,
}
use srs_control.Workflow.Floating.{Floating}
use srs_control.Workflow.FrameMissMonitor.{
  Config, Sample, FrameMissMonitor, create, average, report, sample, main_loop,
}

-- The counts that are read before the monitor is stopped.
abbrev pub counts_read : List Sample → List ℤ
counts_read [] = []
counts_read (s ∷ samples) =
    let rest = counts_read samples in if s.is_stopped then [] else s.frame_drop_count ∷ rest

flatten-append-one :
    (xss : List (List ℤ)) (xs : List ℤ) → flatten (xss ++ xs ∷ []) ≡ flatten xss ++ xs
unfolding flatten
flatten-append-one [] xs = append-nil xs
flatten-append-one (ys ∷ xss) xs =
    ap (◌++◌ ys) (flatten-append-one xss xs) ∙ sym (append_assoc ys (flatten xss) xs)

All-append-one :
    {A : Type 0} → (P : A → Type 0) (xs : List A) (x : A) → All P xs → P x → All P (xs ++ x ∷ [])
All-append-one P [] x h p = (p, tt)
All-append-one P (y ∷ xs) x h p = (h.0, All-append-one P xs x h.1 p)

module _ (f : Floating) where
  -- The warnings that averages cause, each against the one before it.
  abbrev pub warned : f.Double → List f.Double → List f.Double
  warned before [] = []
  warned before (a ∷ averages) =
      let rest = warned a averages in
      let diff = f.minus a before in
      if f.is_above diff (f.of_int (pos 1)) then diff ∷ rest else rest

  abbrev pub last_or : f.Double → List f.Double → f.Double
  last_or before [] = before
  last_or before (a ∷ averages) = last_or a averages

  last_or-append :
      (before : f.Double) (ds : List f.Double) (a : f.Double) → last_or before (ds ++ a ∷ []) ≡ a
  last_or-append before [] a = refl
  last_or-append before (b ∷ ds) a = last_or-append b ds a

  warned-append :
      (before : f.Double) (ds : List f.Double) (a : f.Double)
      → let diff = f.minus a (last_or before ds) in
        warned before (ds ++ a ∷ []) ≡ (
          if f.is_above diff (f.of_int (pos 1))
          then warned before ds ++ diff ∷ []
          else warned before ds)
  warned-append before [] a = refl
  warned-append before (b ∷ ds) a =
      let c = f.is_above (f.minus b before) (f.of_int (pos 1)) in
      let k = f.is_above (f.minus a (last_or b ds)) (f.of_int (pos 1)) in
      ap (λ rest. if c then f.minus b before ∷ rest else rest) (warned-append b ds a)
      ∙ swapped c k (f.minus b before) (warned b ds) (f.minus a (last_or b ds))
    where
      swapped :
          (c k : Bool) (x : f.Double) (xs : List f.Double) (y : f.Double)
          → (if c then x ∷ (if k then xs ++ y ∷ [] else xs) else if k then xs ++ y ∷ [] else xs)
            ≡ (if k then (if c then x ∷ xs else xs) ++ y ∷ [] else if c then x ∷ xs else xs)
      swapped true true x xs y = refl
      swapped true false x xs y = refl
      swapped false true x xs y = refl
      swapped false false x xs y = refl

  module _ (config : Config) where
    -- What a monitor that has read some counts has made of them.
    pub record IsBatched (counts : List ℤ) (m : FrameMissMonitor f config) : Type 0 where
      pub all_counts : flatten m.batches ++ m.samples ≡ counts
      pub lengths : All (λ (b : List ℤ). length b ≡ config.sample_size) m.batches
      pub short : length m.samples < config.sample_size
      pub last :
          m.last_average_drop_count ≡ last_or (f.of_int (pos 0)) (map (average f config) m.batches)
      pub warnings : m.warnings ≡ warned (f.of_int (pos 0)) (map (average f config) m.batches)

    map-append-one :
        (xs : List (List ℤ)) (x : List ℤ)
        → map (average f config) (xs ++ x ∷ [])
          ≡ map (average f config) xs ++ average f config x ∷ []
    map-append-one [] x = refl
    map-append-one (y ∷ xs) x = ap (◌∷◌ (average f config y)) (map-append-one xs x)

    module _ (counts : List ℤ) (m : FrameMissMonitor f config) (count : ℤ)
        (i : IsBatched counts m) where
      grown_counts : flatten m.batches ++ (m.samples ++ count ∷ []) ≡ counts ++ count ∷ []
      grown_counts =
          sym (append_assoc (flatten m.batches) m.samples (count ∷ []))
          ∙ ap (λ cs. cs ++ count ∷ []) i.all_counts

      report-IsBatched :
          length (m.samples ++ count ∷ []) ≡ config.sample_size
          → IsBatched
              (counts ++ count ∷ [])
              (report f config (record m { samples = m.samples ++ count ∷ [] }))
      unfolding report
      report-IsBatched full =
          let batch = m.samples ++ count ∷ [] in
          let before = f.of_int (pos 0) in
          let averages = map (average f config) m.batches in
          record {
            all_counts =
                append-nil (flatten (m.batches ++ batch ∷ []))
                ∙ flatten-append-one m.batches batch
                ∙ grown_counts;
            lengths =
                All-append-one (λ (b : List ℤ). length b ≡ config.sample_size) m.batches batch
                  i.lengths full;
            short = omega (arith, full, length-append m.samples (count ∷ []));
            last = sym (
                ap (last_or before) (map-append-one m.batches batch)
                ∙ last_or-append before averages (average f config batch));
            warnings =
                ap₂
                  (λ (l : f.Double) (ws : List f.Double).
                    if f.is_above (f.minus (average f config batch) l) (f.of_int (pos 1))
                    then ws ++ f.minus (average f config batch) l ∷ []
                    else ws)
                  i.last i.warnings
                ∙ sym (
                    ap (warned before) (map-append-one m.batches batch)
                    ∙ warned-append before averages (average f config batch));
          }

      keep-IsBatched :
          (length (m.samples ++ count ∷ []) == config.sample_size) ≡ false
          → IsBatched (counts ++ count ∷ []) (record m { samples = m.samples ++ count ∷ [] })
      keep-IsBatched e = record {
        all_counts = grown_counts;
        lengths = i.lengths;
        short = ground (arith, length-append m.samples (count ∷ []), i.short);
        last = i.last;
        warnings = i.warnings;
      }

      sample-IsBatched : IsBatched (counts ++ count ∷ []) (sample f config m count)
      unfolding sample
      sample-IsBatched =
          elim (Bool-cases (length (m.samples ++ count ∷ []) == config.sample_size)) [
            | inl e ↦ rw e (report-IsBatched ((==_iff _ _).0 e))
            | inr e ↦ rw e (keep-IsBatched e)
          ]

    main_loop_from :
        (samples : List Sample) (counts : List ℤ) (m : FrameMissMonitor f config)
        → IsBatched counts m
        → IsBatched (counts ++ counts_read samples) (main_loop f config m samples)
    unfolding main_loop
    main_loop_from [] counts m i = rw (append-nil counts) i
    main_loop_from (s ∷ samples) counts m i = elim (Bool-cases s.is_stopped) [
      | inl stop ↦ rw (stop, append-nil counts) i
      | inr go ↦
          let next = sample-IsBatched counts m s.frame_drop_count i in
          let rest =
            main_loop_from samples (counts ++ s.frame_drop_count ∷ [])
              (sample f config m s.frame_drop_count) next in
          rw go (
            subst
              (λ cs.
                IsBatched cs (main_loop f config (sample f config m s.frame_drop_count) samples))
              (append_assoc counts (s.frame_drop_count ∷ []) (counts_read samples)) rest)
    ]

    -- With a positive sample size, the counts that a monitor reads before it is stopped go in their
    -- order into reports of exactly this many, and fewer are left over. The last average is that of
    -- the last report, and the warnings are those of the averages that are more than one above the
    -- average before, the first one above 0.
    pub main_loop-IsBatched :
        (samples : List Sample)
        → 0 < config.sample_size
        → IsBatched (counts_read samples) (main_loop f config (create f config) samples)
    unfolding create flatten
    main_loop-IsBatched samples h =
        main_loop_from samples [] (create f config)
          (record { all_counts = refl; lengths = tt; short = h; last = refl; warnings = refl })
