-- ===== src/Report/Times.antt =====
-- backend/srs/utils/AppReport.cpp: the time stamps of a socket, in order and with their offsets.
use mathlib.Core.List.{Perm}
use mathlib.Core.List.Perm
use srs_control.Base.{
  ℕ, ◌+◌, ◌≤◌, ◌≡◌, refl, sym, ap, subst, true, false, List, [], ◌∷◌, map, ltb, All, All-imp, arith,
  Bool-cases, inl, inr,
}
use srs_control.Report.{
  FecSwitchStat, SocketTimes, AppReport, insert, sort, set_offset, set_offsets, sort_socket_result,
}

abbrev pub send_time_of : List ℕ × FecSwitchStat → ℕ
send_time_of (name, stat) = stat.send_time

abbrev pub IsSorted : SocketTimes → Type 0
IsSorted [] = Unit
IsSorted (s ∷ stats) = All (λ t. send_time_of s ≤ send_time_of t) stats × IsSorted stats

-- A time stamp without its offset.
abbrev pub stamp_of : List ℕ × FecSwitchStat → List ℕ × ℕ × ℕ × List ℕ
stamp_of (name, stat) = (name, stat.send_time, stat.receiv_time, stat.connection_name)

abbrev pub first_time : SocketTimes → ℕ
first_time [] = 0
first_time (s ∷ stats) = send_time_of s

insert-perm : (s : List ℕ × FecSwitchStat) (stats : SocketTimes) → Perm (insert s stats) (s ∷ stats)
unfolding insert
insert-perm s [] = Perm.refl (s ∷ [])
insert-perm s (t ∷ stats) = elim (Bool-cases (ltb t.1.send_time s.1.send_time)) [
  | inl h ↦ rw h (Perm.trans (Perm.cons t (insert-perm s stats)) (Perm.swap s t stats))
  | inr h ↦ rw h (Perm.refl (s ∷ t ∷ stats))
]

sort-perm : (stats : SocketTimes) → Perm (sort stats) stats
unfolding sort
sort-perm [] = Perm.refl []
sort-perm (s ∷ stats) = Perm.trans (insert-perm s (sort stats)) (Perm.cons s (sort-perm stats))

le_of_ltb : {a b : ℕ} → ltb a b ≡ true → a ≤ b
le_of_ltb h = ground arith

le_of_not_ltb : {a b : ℕ} → ltb a b ≡ false → b ≤ a
le_of_not_ltb h = ground arith

le_trans_ltb : {a b c : ℕ} → ltb a b ≡ false → a ≤ c → b ≤ c
le_trans_ltb h g = ground arith

All-insert :
    (n : ℕ) (s : List ℕ × FecSwitchStat) (stats : SocketTimes)
    → n ≤ send_time_of s
    → All (λ t. n ≤ send_time_of t) stats
    → All (λ t. n ≤ send_time_of t) (insert s stats)
unfolding insert
All-insert n s [] h a = (h, tt)
All-insert n s (t ∷ stats) h (b, a) = elim (Bool-cases (ltb t.1.send_time s.1.send_time)) [
  | inl e ↦ rw e (b, All-insert n s stats h a)
  | inr e ↦ rw e (h, (b, a))
]

insert-IsSorted :
    (s : List ℕ × FecSwitchStat) (stats : SocketTimes) → IsSorted stats → IsSorted (insert s stats)
unfolding insert
insert-IsSorted s [] h = (tt, tt)
insert-IsSorted s (t ∷ stats) (a, h) = elim (Bool-cases (ltb t.1.send_time s.1.send_time)) [
  | inl e ↦ rw e (All-insert t.1.send_time s stats (le_of_ltb e) a, insert-IsSorted s stats h)
  | inr e ↦ rw e (
    (
      le_of_not_ltb e,
      All-imp (λ u. send_time_of t ≤ send_time_of u) (λ u. send_time_of s ≤ send_time_of u) stats
          (λ u g. le_trans_ltb e g) a,
    ),
    (a, h),
  )
]

sort-IsSorted : (stats : SocketTimes) → IsSorted (sort stats)
unfolding sort
sort-IsSorted [] = tt
sort-IsSorted (s ∷ stats) = insert-IsSorted s (sort stats) (sort-IsSorted stats)

stamp_of-set_offset :
    (first : ℕ) (stats : SocketTimes)
    → map stamp_of (map (set_offset first) stats) ≡ map stamp_of stats
unfolding set_offset
stamp_of-set_offset first [] = refl
stamp_of-set_offset first ((name, stat) ∷ stats) =
    ap (λ xs. stamp_of (name, stat) ∷ xs) (stamp_of-set_offset first stats)

All-set_offset :
    (n first : ℕ) (stats : SocketTimes)
    → All (λ t. n ≤ send_time_of t) stats
    → All (λ t. n ≤ send_time_of t) (map (set_offset first) stats)
unfolding set_offset
All-set_offset n first [] a = tt
All-set_offset n first ((name, stat) ∷ stats) (h, a) = (h, All-set_offset n first stats a)

set_offset-IsSorted :
    (first : ℕ) (stats : SocketTimes) → IsSorted stats → IsSorted (map (set_offset first) stats)
unfolding set_offset
set_offset-IsSorted first [] h = tt
set_offset-IsSorted first ((name, stat) ∷ stats) (a, h) =
    (All-set_offset stat.send_time first stats a, set_offset-IsSorted first stats h)

set_offset_lem :
    (first : ℕ) (stats : SocketTimes)
    → All (λ t. first ≤ send_time_of t) stats
    → All (λ t. send_time_of t ≡ first + t.1.send_time_offset) (map (set_offset first) stats)
unfolding set_offset
set_offset_lem first [] a = tt
set_offset_lem first ((name, stat) ∷ stats) (h, a) = (omega arith, set_offset_lem first stats a)

-- The time stamps that a table of one socket shows are those that were registered, in the order of
-- their times of sending, and each offset is the time since the first sending.
abbrev pub IsReported : SocketTimes → SocketTimes → Type 0
IsReported registered shown =
    Perm (map stamp_of shown) (map stamp_of registered)
    × IsSorted shown
    × All (λ t. send_time_of t ≡ first_time shown + t.1.send_time_offset) shown

set_offsets-IsReported :
    (registered stats : SocketTimes)
    → Perm stats registered
    → IsSorted stats
    → IsReported registered (set_offsets stats)
unfolding set_offsets set_offset
set_offsets-IsReported registered [] p h = (Perm.map stamp_of p, tt, tt)
set_offsets-IsReported registered ((name, stat) ∷ stats) p (a, h) = (
  subst (λ xs. Perm xs (map stamp_of registered))
      (sym (stamp_of-set_offset stat.send_time ((name, stat) ∷ stats))) (Perm.map stamp_of p),
  set_offset-IsSorted stat.send_time ((name, stat) ∷ stats) (a, h),
  set_offset_lem stat.send_time ((name, stat) ∷ stats) (omega arith, a),
)

-- For every socket.
abbrev pub AllReported : List (List ℕ × SocketTimes) → List (List ℕ × SocketTimes) → Type 0
AllReported [] [] = Unit {0}
AllReported [] (_ ∷ _) = ⊥
AllReported (_ ∷ _) [] = ⊥
AllReported (r ∷ registered) (s ∷ shown) =
    ((s.0 ≡ r.0) × IsReported r.1 s.1) × AllReported registered shown

all_reported :
    (registered : List (List ℕ × SocketTimes))
    → AllReported registered (map (λ entry. (entry.0, set_offsets (sort entry.1))) registered)
all_reported [] = tt
all_reported ((name, stats) ∷ registered) = (
  (refl, set_offsets-IsReported stats (sort stats) (sort-perm stats) (sort-IsSorted stats)),
  all_reported registered,
)

-- The report of the sockets shows for each socket the time stamps that were registered, in the order of
-- their times of sending, and each offset is the time since the first sending from this socket.
pub sort_socket_result_lem :
    (r : AppReport)
    → AllReported r.switch_socket_records (sort_socket_result r).switch_socket_records
unfolding sort_socket_result
sort_socket_result_lem r = all_reported r.switch_socket_records
