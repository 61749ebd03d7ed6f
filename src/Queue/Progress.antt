-- ===== src/Queue/Progress.antt =====
-- That the threads of lab4-src/part1.c come to their end.
use cs.Common.{
  sum-append, sum, ℕ, zero, suc, ◌+◌, ◌*◌, ◌<◌, ◌≡◌, refl, subst, inl, inr, Bool-cases, List, [],
  ◌∷◌, ◌++◌, All, Option, none, some, ltb, ◌==◌, arith,
}
use cs.Queue.{
  Shared, Place, waiting, locking, working, unlocking, posting, exiting, Thread, next_round,
  producer, consumer, System, Step, produce, consume, threads, Reachable, start, step,
}
use cs.Queue.Counts.{at_place}
use cs.Queue.Invariant.{}

-- The calls that a thread has behind it: five in each of its thirteen rounds.
abbrev pub calls_at : Place → ℕ
calls_at waiting = 0
calls_at locking = 1
calls_at working = 2
calls_at unlocking = 3
calls_at posting = 4
calls_at exiting = 0

abbrev pub calls : Thread → ℕ
calls t = 5 * t.i + calls_at t.place

abbrev pub total_calls : System → ℕ
total_calls y = sum calls y.producers + sum calls y.consumers

-- A thread has rounds left, or has come to its end.
abbrev pub IsOnTimeAt : Place → ℕ → Type 0
IsOnTimeAt exiting i = i ≡ 13
IsOnTimeAt _ i = i < 13

abbrev pub IsOnTime : Thread → Type 0
IsOnTime t = IsOnTimeAt t.place t.i

abbrev pub Exits : Thread → Type 0
Exits t = t.place ≡ exiting

-- What a step leaves of these.
abbrev Advances : Thread → Option (Shared × Thread) → Type 0
Advances t none = Unit
Advances t (some (s', t')) = (calls t' ≡ calls t + 1) × IsOnTime t'

next_round-Advances :
    (id i : ℕ)
    → i < 13
    → (calls (next_round (at_place id i posting)) ≡ calls (at_place id i posting) + 1)
      × IsOnTime (next_round (at_place id i posting))
unfolding next_round
next_round-Advances id i h = elim (Bool-cases (ltb (i + 1) 13)) [
  | inl e ↦ rw e (omega arith, ground arith)
  | inr e ↦ rw e (omega arith, ground arith)
]

producer-Advances :
    (p : Place) (s : Shared) (id i : ℕ)
    → IsOnTimeAt p i
    → Advances (at_place id i p) (producer p s (at_place id i p))
unfolding producer
producer-Advances waiting s id i h = elim (Bool-cases (s.full_sem == 0)) [
  | inl e ↦ rw e tt
  | inr e ↦ rw e (omega arith, h)
]
producer-Advances locking s id i h = elim (Bool-cases s.locked) [
  | inl e ↦ rw e tt
  | inr e ↦ rw e (omega arith, h)
]
producer-Advances working s id i h = (omega arith, h)
producer-Advances unlocking s id i h = (omega arith, h)
producer-Advances posting s id i h = next_round-Advances id i h
producer-Advances exiting s id i h = tt

consumer-Advances :
    (p : Place) (s : Shared) (id i : ℕ)
    → IsOnTimeAt p i
    → Advances (at_place id i p) (consumer p s (at_place id i p))
unfolding consumer
consumer-Advances waiting s id i h = elim (Bool-cases (s.empty_sem == 0)) [
  | inl e ↦ rw e tt
  | inr e ↦ rw e (omega arith, h)
]
consumer-Advances locking s id i h = elim (Bool-cases s.locked) [
  | inl e ↦ rw e tt
  | inr e ↦ rw e (omega arith, h)
]
consumer-Advances working s id i h = (omega arith, h)
consumer-Advances unlocking s id i h = (omega arith, h)
consumer-Advances posting s id i h = next_round-Advances id i h
consumer-Advances exiting s id i h = tt

All-middle :
    (xs : List Thread) (t : Thread) (ys : List Thread) → All IsOnTime (xs ++ (t ∷ ys)) → IsOnTime t
All-middle [] t ys h = h.0
All-middle (x ∷ xs) t ys h = All-middle xs t ys h.1

All-replace :
    (xs : List Thread) (t t' : Thread) (ys : List Thread)
    → All IsOnTime (xs ++ (t ∷ ys))
    → IsOnTime t'
    → All IsOnTime (xs ++ (t' ∷ ys))
All-replace [] t t' ys h k = (k, h.1)
All-replace (x ∷ xs) t t' ys h k = (h.0, All-replace xs t t' ys h.1 k)

abbrev pub one : Thread → ℕ
one t = 1

-- The numbers of threads stay, and each of them is on time.
pub record IsTimely (n m : ℕ) (y : System) : Type 0 where
  pub producers : All IsOnTime y.producers
  pub consumers : All IsOnTime y.consumers
  pub count_producers : sum one y.producers ≡ n
  pub count_consumers : sum one y.consumers ≡ m

pub Step-IsTimely :
    (n m : ℕ) (y y' : System)
    → Step y y'
    → IsTimely n m y
    → (total_calls y' ≡ total_calls y + 1) × IsTimely n m y'
Step-IsTimely n m _ _ (produce s s' xs ys cs t t' e) h =
    let (more, timely) : Advances t (some (s', t')) =
      subst (Advances t) e
        (producer-Advances t.place s t.thread_id t.i (All-middle xs t ys h.producers)) in
    (
      omega (arith, more, sum-append calls xs t ys, sum-append calls xs t' ys),
      record {
        producers = All-replace xs t t' ys h.producers timely;
        consumers = h.consumers;
        count_producers =
            omega (arith, h.count_producers, sum-append one xs t ys, sum-append one xs t' ys);
        count_consumers = h.count_consumers;
      },
    )
Step-IsTimely n m _ _ (consume s s' ps xs ys t t' e) h =
    let (more, timely) : Advances t (some (s', t')) =
      subst (Advances t) e
        (consumer-Advances t.place s t.thread_id t.i (All-middle xs t ys h.consumers)) in
    (
      omega (arith, more, sum-append calls xs t ys, sum-append calls xs t' ys),
      record {
        producers = h.producers;
        consumers = All-replace xs t t' ys h.consumers timely;
        count_producers = h.count_producers;
        count_consumers =
            omega (arith, h.count_consumers, sum-append one xs t ys, sum-append one xs t' ys);
      },
    )

threads-IsOnTime : (n k : ℕ) → All IsOnTime (threads n k)
threads-IsOnTime zero k = tt
threads-IsOnTime (suc n) k = (omega arith, threads-IsOnTime n (k + 1))

count-threads : (n k : ℕ) → sum one (threads n k) ≡ n
count-threads zero k = refl
count-threads (suc n) k = omega (arith, count-threads n (k + 1))

pub Reachable-IsTimely : (n m : ℕ) (y : System) → Reachable n m y → IsTimely n m y
Reachable-IsTimely n m _ start = record {
  producers = threads-IsOnTime n 0;
  consumers = threads-IsOnTime m 0;
  count_producers = count-threads n 0;
  count_consumers = count-threads m 0;
}
Reachable-IsTimely n m _ (step y y' r e) = (Step-IsTimely n m y y' e (Reachable-IsTimely n m y r)).1
