-- ===== src/Queue/Invariant.antt =====
-- The invariant of the threads of lab4-src/part1.c, in sums over them.
use cs.Common.{
  sum-append, sum, as_number, ℕ, zero, suc, ◌+◌, ◌%◌, ◌≤◌, ◌<◌, ◌≡◌, refl, ap, subst, ◌∙◌, Bool,
  true, false, List, ◌∷◌, ◌++◌, some, arith,
}
use cs.Queue.{
  waiting, working, Thread, System, Step, produce, consume, threads, started, Reachable, start,
  step,
}
use cs.Queue.Counts.{
  ready, after, inside, worked, is_inside, is_ready, Produces, Consumes, at_place,
  producer-Produces, consumer-Consumes,
}

-- The characters produced and consumed so far differ by at most the size of the buffer, the
-- semaphores count the rest of the slots, and one thread at most holds the mutex.
pub record IsBounded (y : System) : Type 0 where
  pub slots :
      y.shared.full_sem + sum ready y.producers + sum worked y.producers + sum after y.consumers
      ≡ 32 + sum worked y.consumers
  pub filled :
      y.shared.empty_sem + sum after y.producers + sum ready y.consumers + sum worked y.consumers
      ≡ sum worked y.producers
  pub mutex : sum inside y.producers + sum inside y.consumers ≡ as_number y.shared.locked
  pub at_tail : y.shared.tail ≡ sum worked y.producers % 32
  pub at_head : y.shared.head ≡ sum worked y.consumers % 32

held : (l : Bool) (n : ℕ) → n ≡ as_number l → 1 ≤ n → l ≡ true
held true n e h = refl
held false n e h = absurd (omega (arith, e))

sum-threads :
    (f : Thread → ℕ)
    → ((id : ℕ) → f (at_place id 0 waiting) ≡ 0)
    → (n k : ℕ) → sum f (threads n k) ≡ 0
sum-threads f h zero k = refl
sum-threads f h (suc n) k = omega (arith, h k, sum-threads f h n (k + 1))

pub started-IsBounded : (n m : ℕ) → IsBounded (started n m)
started-IsBounded n m =
    let zero_of = λ (f : Thread → ℕ) (h : (id : ℕ) → f (at_place id 0 waiting) ≡ 0) (n : ℕ).
      sum-threads f h n 0 in
    let r = λ (n : ℕ). zero_of ready (λ id. refl) n in
    let a = λ (n : ℕ). zero_of after (λ id. refl) n in
    let i = λ (n : ℕ). zero_of inside (λ id. refl) n in
    let w = λ (n : ℕ). zero_of worked (λ id. refl) n in
    record {
      slots = omega (arith, r n, w n, a m, w m);
      filled = omega (arith, a n, r m, w m, w n);
      mutex = omega (arith, i n, i m);
      at_tail = omega (arith, w n);
      at_head = omega (arith, w m);
    }

Step-IsBounded : (y y' : System) → Step y y' → IsBounded y → IsBounded y'
Step-IsBounded _ _ (produce s s' xs ys cs t t' e) h =
    let sums = λ (f : Thread → ℕ) (t : Thread). sum-append f xs t ys in
    let lock : is_inside t.place ≡ 1 → s.locked ≡ true =
      λ one. held s.locked _ h.mutex (omega (arith, sums inside t, one)) in
    let (moved, same) : Produces s t (some (s', t')) =
      subst (Produces s t) e (producer-Produces t.place s t.thread_id t.i lock) in
    record {
      slots =
          omega (
            arith,
            h.slots,
            moved.slots,
            sums ready t,
            sums ready t',
            sums worked t,
            sums worked t',
          );
      filled = omega (
        arith,
        h.filled,
        moved.posts,
        sums after t,
        sums after t',
        sums worked t,
        sums worked t',
      );
      mutex = omega (arith, h.mutex, moved.lock, sums inside t, sums inside t');
      at_tail = ground (arith, h.at_tail, moved.at, sums worked t, sums worked t');
      at_head = same ∙ h.at_head;
    }
Step-IsBounded _ _ (consume s s' ps xs ys t t' e) h =
    let sums = λ (f : Thread → ℕ) (t : Thread). sum-append f xs t ys in
    let lock : is_inside t.place ≡ 1 → s.locked ≡ true =
      λ one. held s.locked _ h.mutex (omega (arith, sums inside t, one)) in
    let (moved, same) : Consumes s t (some (s', t')) =
      subst (Consumes s t) e (consumer-Consumes t.place s t.thread_id t.i lock) in
    record {
      slots =
          omega (
            arith,
            h.slots,
            moved.posts,
            sums after t,
            sums after t',
            sums worked t,
            sums worked t',
          );
      filled = omega (
        arith,
        h.filled,
        moved.slots,
        sums ready t,
        sums ready t',
        sums worked t,
        sums worked t',
      );
      mutex = omega (arith, h.mutex, moved.lock, sums inside t, sums inside t');
      at_tail = same ∙ h.at_tail;
      at_head = ground (arith, h.at_head, moved.at, sums worked t, sums worked t');
    }

-- In every reachable state the semaphores count the free and the filled slots up to the threads that
-- are between waiting and posting, at most one thread holds the mutex, and head and tail are the
-- numbers of characters consumed and produced modulo the size of the buffer.
pub Reachable-IsBounded : (n m : ℕ) (y : System) → Reachable n m y → IsBounded y
Reachable-IsBounded n m _ start = started-IsBounded n m
Reachable-IsBounded n m _ (step y y' r e) = Step-IsBounded y y' e (Reachable-IsBounded n m y r)

-- A reachable state of `n` producers and `m` consumers never has more characters consumed than
-- produced, nor more than 32 produced and not consumed; a producer that holds the mutex to store has
-- a free slot and a consumer one that is filled; and no two threads are behind the lock.
pub Reachable-safe :
    (n m : ℕ) (y : System)
    → Reachable n m y
    → (sum worked y.consumers ≤ sum worked y.producers)
      × (sum worked y.producers ≤ sum worked y.consumers + 32)
      × ((xs ys : List Thread) (t : Thread)
          → y.producers ≡ xs ++ (t ∷ ys)
          → t.place ≡ working
          → sum worked y.producers < sum worked y.consumers + 32)
      × ((xs ys : List Thread) (t : Thread)
          → y.consumers ≡ xs ++ (t ∷ ys)
          → t.place ≡ working
          → sum worked y.consumers < sum worked y.producers)
      × (sum inside y.producers + sum inside y.consumers ≤ 1)
Reachable-safe n m y r =
    let h = Reachable-IsBounded n m y r in
    (
      omega (arith, h.filled),
      omega (arith, h.slots),
      λ xs ys t e p.
          omega (arith, h.slots, sum-append ready xs t ys, ap (sum ready) e, ap is_ready p),
      λ xs ys t e p.
          omega (arith, h.filled, sum-append ready xs t ys, ap (sum ready) e, ap is_ready p),
      ground (arith, h.mutex),
    )
