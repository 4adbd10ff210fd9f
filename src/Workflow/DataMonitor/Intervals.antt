-- ===== src/Workflow/DataMonitor/Intervals.antt =====
-- backend/srs/workflow/DataMonitor.cpp: the intervals that the printed rates are about.
use mathlib.Core.List.{append_assoc, append-nil}
use srs_control.Base.{
  ◌-◌, ◌/◌, ap₂, Bool, map, ℕ, ◌+◌, ◌%◌, ◌^◌, ◌<◌, ◌≡◌, refl, ap, ◌∙◌, sym, subst, List, [], ◌∷◌,
  ◌++◌, All, arith, Bool-cases, inl, inr, ◌||◌, if◌then◌else◌,
}
use srs_control.Workflow.DataMonitor.{
  Totals, difference, differences, Cycle, Line, DataMonitor, create, frame_rate_of,
  set_speed_string, print_line, print_totals, print_cycle,
}
use srs_control.Workflow.Floating.{Floating}

pub record AreTotals (t : Totals) : Type 0 where
  pub read_data_bytes : t.read_data_bytes < 2 ^ 64
  pub write_data_bytes : t.write_data_bytes < 2 ^ 64
  pub drop_data_bytes : t.drop_data_bytes < 2 ^ 64
  pub processed_hit_num : t.processed_hit_num < 2 ^ 64
  pub frame_counts : t.frame_counts < 2 ^ 64

abbrev pub sum : {A : Type 0} → (A → ℕ) → List A → ℕ
sum field [] = 0
sum field (t ∷ ts) = field t + sum field ts

sum-append :
    {A : Type 0}
    → (field : A → ℕ) (ts : List A) (t : A) → sum field (ts ++ t ∷ []) ≡ sum field ts + field t
sum-append field [] t = omega arith
sum-append field (u ∷ ts) t = omega (arith, sum-append field ts t)

-- The turns in which a line is printed, up to the end of the loop.
abbrev pub printed : List Cycle → List Cycle
printed [] = []
printed (c ∷ cycles) =
    let rest = printed cycles in if c.is_cancelled || c.is_aborted then [] else c ∷ rest

difference-add :
    (s total last : ℕ)
    → s % 2 ^ 64 ≡ last
    → total < 2 ^ 64
    → (s + difference total last) % 2 ^ 64 ≡ total
unfolding difference
difference-add s total last e h = omega arith

sum-grown :
    {A : Type 0}
    → (field : A → ℕ) (ts : List A) (d : A) (total last : ℕ) → field d ≡ difference total last
    → sum field ts % 2 ^ 64 ≡ last
    → total < 2 ^ 64
    → sum field (ts ++ d ∷ []) % 2 ^ 64 ≡ total
sum-grown field ts d total last e s h =
    ap (λ n. n % 2 ^ 64) (sum-append field ts d ∙ ap (λ n. sum field ts + n) e)
    ∙ difference-add (sum field ts) total last s h

abbrev pub no_totals : Totals
no_totals = record {
  read_data_bytes = 0;
  write_data_bytes = 0;
  drop_data_bytes = 0;
  processed_hit_num = 0;
  frame_counts = 0;
}

abbrev pub last_or : Totals → List Cycle → Totals
last_or before [] = before
last_or before (c ∷ cycles) = last_or c.totals cycles

last_or-append :
    (before : Totals) (cs : List Cycle) (c : Cycle) → last_or before (cs ++ c ∷ []) ≡ c.totals
last_or-append before [] c = refl
last_or-append before (x ∷ cs) c = last_or-append x.totals cs c

-- The last time of printing, and the microseconds between each time and the one before.
abbrev pub last_time : (begin : ℕ) → List Cycle → ℕ
last_time begin [] = begin
last_time begin (c ∷ cycles) = last_time c.time_now cycles

abbrev pub durations : (begin : ℕ) → List Cycle → List ℕ
durations begin [] = []
durations begin (c ∷ cycles) = (c.time_now - begin) / 1000 ∷ durations c.time_now cycles

last_time-append :
    (begin : ℕ) (cs : List Cycle) (c : Cycle) → last_time begin (cs ++ c ∷ []) ≡ c.time_now
last_time-append begin [] c = refl
last_time-append begin (x ∷ cs) c = last_time-append x.time_now cs c

durations-append :
    (begin : ℕ) (cs : List Cycle) (c : Cycle)
    → durations begin (cs ++ c ∷ [])
      ≡ durations begin cs ++ (c.time_now - last_time begin cs) / 1000 ∷ []
durations-append begin [] c = refl
durations-append begin (x ∷ cs) c =
    ap (◌∷◌ ((x.time_now - begin) / 1000)) (durations-append x.time_now cs c)

map-append_one :
    {A B : Type 0} → (g : A → B) (xs : List A) (x : A) → map g (xs ++ x ∷ []) ≡ map g xs ++ g x ∷ []
map-append_one g [] x = refl
map-append_one g (y ∷ xs) x = ap (◌∷◌ (g y)) (map-append_one g xs x)

-- What was added to the totals in so many microseconds.
pub record Interval : Type 0 where
  pub duration_us : ℕ
  pub added : Totals

module _ (f : Floating) where
  -- A rate in megabytes per second, or in kilobytes per second.
  abbrev pub speed : (is_kilobytes : Bool) (bytes duration_us : ℕ) → f.Double
  speed is_kilobytes bytes duration_us =
      f.times (if is_kilobytes then f.of_unsigned 1000 else f.of_unsigned 1)
        (f.divide (f.of_unsigned bytes) (f.of_unsigned duration_us))

  -- The line about an interval: the rates of what was read, written and dropped in it, in kilobytes
  -- if less than a megabyte per second was read, and how far the frames fill the buffers.
  abbrev pub line_about : (buffer_size : ℕ) → Interval → Line f
  line_about buffer_size i =
      let is_slow =
        f.is_above (f.of_unsigned 1)
          (f.divide (f.of_unsigned i.added.read_data_bytes) (f.of_unsigned i.duration_us)) in
      record {
        read_speed = speed is_slow i.added.read_data_bytes i.duration_us;
        frame_rate = frame_rate_of f buffer_size i.added.read_data_bytes i.added.frame_counts;
        write_speed = speed is_slow i.added.write_data_bytes i.duration_us;
        drop_speed = speed is_slow i.added.drop_data_bytes i.duration_us;
        is_kilobytes = is_slow;
      }

  -- There are intervals between the turns, and each line is about one of them. For each total, what
  -- was added in them makes up the value that was read last, in the arithmetic of 64 bits.
  pub record IsCounted (buffer_size begin : ℕ) (seen : List Cycle) (m : DataMonitor f)
      : Type 0 where
    pub intervals : List Interval
    pub lines : m.lines ≡ map (line_about buffer_size) intervals
    pub durations : map (λ (i : Interval). i.duration_us) intervals ≡ durations begin seen
    pub read_data_bytes :
        sum (λ i. i.added.read_data_bytes) intervals % 2 ^ 64 ≡ m.last.read_data_bytes
    pub write_data_bytes :
        sum (λ i. i.added.write_data_bytes) intervals % 2 ^ 64 ≡ m.last.write_data_bytes
    pub drop_data_bytes :
        sum (λ i. i.added.drop_data_bytes) intervals % 2 ^ 64 ≡ m.last.drop_data_bytes
    pub processed_hit_num :
        sum (λ i. i.added.processed_hit_num) intervals % 2 ^ 64 ≡ m.last.processed_hit_num
    pub frame_counts : sum (λ i. i.added.frame_counts) intervals % 2 ^ 64 ≡ m.last.frame_counts
    pub last : m.last ≡ last_or no_totals seen
    pub last_print_time : m.last_print_time ≡ last_time begin seen

  print_totals-IsCounted :
      (buffer_size begin : ℕ) (seen : List Cycle) (m : DataMonitor f) (c : Cycle)
      → AreTotals c.totals
      → IsCounted buffer_size begin seen m
      → IsCounted buffer_size begin
          (seen ++ c ∷ [])
          (print_totals f buffer_size m c.totals c.time_now)
  unfolding print_totals print_line differences set_speed_string
  print_totals-IsCounted buffer_size begin seen m c h i =
      let t = c.totals in
      let d : Interval = record {
        duration_us = (c.time_now - m.last_print_time) / 1000;
        added = differences t m.last;
      } in
      record {
        intervals = i.intervals ++ d ∷ [];
        lines =
            ap (λ ls. ls ++ line_about buffer_size d ∷ []) i.lines
            ∙ sym (map-append_one (line_about buffer_size) i.intervals d);
        durations =
            map-append_one (λ (i : Interval). i.duration_us) i.intervals d
            ∙ ap₂ (λ ds b. ds ++ (c.time_now - b) / 1000 ∷ []) i.durations i.last_print_time
            ∙ sym (durations-append begin seen c);
        read_data_bytes =
            sum-grown (λ i. i.added.read_data_bytes) i.intervals d t.read_data_bytes
              m.last.read_data_bytes refl i.read_data_bytes h.read_data_bytes;
        write_data_bytes =
            sum-grown (λ i. i.added.write_data_bytes) i.intervals d t.write_data_bytes
              m.last.write_data_bytes refl i.write_data_bytes h.write_data_bytes;
        drop_data_bytes =
            sum-grown (λ i. i.added.drop_data_bytes) i.intervals d t.drop_data_bytes
              m.last.drop_data_bytes refl i.drop_data_bytes h.drop_data_bytes;
        processed_hit_num =
            sum-grown (λ i. i.added.processed_hit_num) i.intervals d t.processed_hit_num
              m.last.processed_hit_num refl i.processed_hit_num h.processed_hit_num;
        frame_counts =
            sum-grown (λ i. i.added.frame_counts) i.intervals d t.frame_counts m.last.frame_counts
              refl i.frame_counts h.frame_counts;
        last = sym (last_or-append no_totals seen c);
        last_print_time = sym (last_time-append begin seen c);
      }

  print_cycle_from :
      (buffer_size begin : ℕ) (cycles seen : List Cycle) (m : DataMonitor f)
      → All (λ (c : Cycle). AreTotals c.totals) cycles
      → IsCounted buffer_size begin seen m
      → IsCounted buffer_size begin (seen ++ printed cycles) (print_cycle f buffer_size m cycles)
  unfolding print_cycle
  print_cycle_from buffer_size begin [] seen m h i = rw (append-nil seen) i
  print_cycle_from buffer_size begin (c ∷ cycles) seen m h i =
      elim (Bool-cases (c.is_cancelled || c.is_aborted)) [
        | inl stop ↦ rw (stop, append-nil seen) i
        | inr go ↦
            let next = print_totals f buffer_size m c.totals c.time_now in
            let rest =
              print_cycle_from buffer_size begin cycles (seen ++ c ∷ []) next h.1
                (print_totals-IsCounted buffer_size begin seen m c h.0 i) in
            rw go (
              subst (λ cs. IsCounted buffer_size begin cs (print_cycle f buffer_size next cycles))
                (append_assoc seen (c ∷ []) (printed cycles)) rest)
      ]

  -- Up to its end, which a cancelled monitor or an aborted wait brings, the monitor prints a line for
  -- each turn: the rates at which data were read, written and dropped since the turn before, or since
  -- the begin, and how far its frames fill the buffers. Of each total, what these intervals count as
  -- added makes up the last value that was read, in the arithmetic of 64 bits.
  pub print_cycle-IsCounted :
      (buffer_size time_now : ℕ) (cycles : List Cycle)
      → All (λ (c : Cycle). AreTotals c.totals) cycles
      → IsCounted buffer_size time_now
          (printed cycles)
          (print_cycle f buffer_size (create f time_now) cycles)
  unfolding create
  print_cycle-IsCounted buffer_size time_now cycles h =
      print_cycle_from buffer_size time_now cycles [] (create f time_now) h (record {
        intervals = [];
        lines = refl;
        durations = refl;
        read_data_bytes = refl;
        write_data_bytes = refl;
        drop_data_bytes = refl;
        processed_hit_num = refl;
        frame_counts = refl;
        last = refl;
        last_print_time = refl;
      })
