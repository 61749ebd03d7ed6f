-- ===== src/Queue/Tests.antt =====
-- The theorems about lab4-src/part1.c at a state that one producer and one consumer reach.
use cs.Common.{sum, ◌*◌, ◌⊎◌, All, true, ◌+◌, ◌≤◌, ◌<◌, ◌≡◌, refl, List, [], ◌∷◌, ◌++◌}
use cs.Queue.{
  waiting, locking, working, Thread, System, Step, threads, started, producer, produce, Reachable,
  start, step,
}
use cs.Queue.Counts.{worked, inside, at_place}
use cs.Queue.Progress.{total_calls, Exits}
use cs.Queue.Liveness.{Reachable-ends}
use cs.Queue.Invariant.{IsBounded, Reachable-IsBounded, Reachable-safe}

-- The producer has passed sem_wait, and then the lock.
abbrev waited : System
waited = record (started 1 1) {
  shared = record (started 1 1).shared { full_sem = 31 };
  producers = at_place 0 0 locking ∷ [];
}

abbrev inside_lock : System
inside_lock = record waited {
  shared = record waited.shared { locked = true };
  producers = at_place 0 0 working ∷ [];
}

inside_lock-Reachable : Reachable 1 1 inside_lock
unfolding producer
inside_lock-Reachable =
    step waited inside_lock
      (step (started 1 1) waited start (
        produce (started 1 1).shared waited.shared [] [] (threads 1 0) (at_place 0 0 waiting)
          (at_place 0 0 locking) refl))
      (produce waited.shared inside_lock.shared [] [] (threads 1 0) (at_place 0 0 locking)
        (at_place 0 0 working) refl)

Reachable-IsBounded_example : IsBounded inside_lock
Reachable-IsBounded_example = Reachable-IsBounded 1 1 inside_lock inside_lock-Reachable

Reachable-safe_example :
    (sum worked inside_lock.consumers ≤ sum worked inside_lock.producers)
    × (sum worked inside_lock.producers ≤ sum worked inside_lock.consumers + 32)
    × ((xs ys : List Thread) (t : Thread)
        → inside_lock.producers ≡ xs ++ (t ∷ ys)
        → t.place ≡ working
        → sum worked inside_lock.producers < sum worked inside_lock.consumers + 32)
    × ((xs ys : List Thread) (t : Thread)
        → inside_lock.consumers ≡ xs ++ (t ∷ ys)
        → t.place ≡ working
        → sum worked inside_lock.consumers < sum worked inside_lock.producers)
    × (sum inside inside_lock.producers + sum inside inside_lock.consumers ≤ 1)
Reachable-safe_example = Reachable-safe 1 1 inside_lock inside_lock-Reachable

Reachable-ends_example :
    (total_calls inside_lock ≤ 130 * 1)
    × ((y' : System) → Step inside_lock y' → total_calls y' ≡ total_calls inside_lock + 1)
    × ((All Exits inside_lock.producers × All Exits inside_lock.consumers)
        ⊎ ((y' : System) × Step inside_lock y'))
Reachable-ends_example = Reachable-ends 1 inside_lock inside_lock-Reachable
