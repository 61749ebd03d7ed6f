-- ===== src/Queue/Start.antt =====
-- main of lab4-src/part1.c up to its joins. A thread's index is printed into malloc(sizeof(int)) bytes;
-- `faults` is a write past their end.
use cs.Common.{
  ◌>>=◌, ℕ, zero, suc, ◌+◌, ◌≤◌, ◌<◌, ◌≡◌, ap, ◌∙◌, ◌⊎◌, inl, inr, Bool-cases, ==_iff, refl, true,
  List, [], ◌∷◌, Option, none, some, length, decimal, length-decimal, ltb, ◌==◌, if◌then◌else◌,
  arith,
}
use cs.Queue.{waiting, Thread, System, threads, started}

-- What main comes to: it exits without two arguments, or runs.
pub data Launch : Type 0 where
  runs : System → Launch
  exits_at_once : Launch
  faults : Launch

unfoldable pub index_text : ℕ → Option (List ℕ)
index_text i = if ltb (length (decimal i)) 4 then some (decimal i) else none

-- The loop that creates `n` threads, from the index `k` on.
unfoldable pub create_threads : (n k : ℕ) → Option (List Thread)
create_threads zero k = some []
create_threads (suc n) k = index_text k >>= λ index. create_threads n (k + 1) >>= λ more.
    some (record { thread_id = k; i = 0; place = waiting } ∷ more)

abbrev pub with_threads : (n m : ℕ) → Option (List Thread) → Option (List Thread) → Launch
with_threads n m (some producers) (some consumers) =
    runs (record (started n m) { producers = producers; consumers = consumers })
with_threads n m _ _ = faults

-- `n` and `m` are what atoi makes of the two arguments.
unfoldable pub buffer_main : (argc n m : ℕ) → Launch
buffer_main argc n m =
    if argc == 3 then with_threads n m (create_threads n 0) (create_threads m 0) else exits_at_once

create_threads-some : (n k : ℕ) → n + k ≤ 1000 → create_threads n k ≡ some (threads n k)
unfolding create_threads index_text
create_threads-some zero k h = refl
create_threads-some (suc n) k h =
    let fits : ltb (length (decimal k)) 4 ≡ true = ground (arith, length-decimal k (omega arith)) in
    rw fits (rw (create_threads-some n (k + 1) (omega arith)) refl)

-- With two arguments of at most 1000 main starts all of the threads.
pub buffer_main-runs : (n m : ℕ) → n ≤ 1000 → m ≤ 1000 → buffer_main 3 n m ≡ runs (started n m)
unfolding buffer_main
buffer_main-runs n m hn hm =
    rw (create_threads-some n 0 (omega arith)) (rw (create_threads-some m 0 (omega arith)) refl)

index_text-none : index_text 1000 ≡ none
unfolding index_text decimal
index_text-none = refl

none_behind :
    (m : Option (List ℕ)) (f : List ℕ → Option (List Thread))
    → ((index : List ℕ) → f index ≡ none)
    → (m >>= f) ≡ none
none_behind none f h = refl
none_behind (some index) f h = h index

create_threads-none : (n k : ℕ) → k ≤ 1000 → 1000 < n + k → create_threads n k ≡ none
unfolding create_threads
create_threads-none zero k le h = absurd (omega arith)
create_threads-none (suc n) k le h = elim (Bool-cases (k == 1000)) [
  | inl e ↦
      let last : index_text k ≡ none = ap index_text ((==_iff k 1000).0 e) ∙ index_text-none in
      rw last refl
  | inr e ↦
      rw (create_threads-none n (k + 1) (ground arith) (omega arith))
        (none_behind (index_text k) _ (λ index. refl))
]

no_consumers : (n m : ℕ) (ps : Option (List Thread)) → with_threads n m ps none ≡ faults
no_consumers n m none = refl
no_consumers n m (some ps) = refl

-- With more than 1000 of either kind the index 1000 is printed past the end of its bytes.
pub buffer_main-faults : (n m : ℕ) → (1000 < n) ⊎ (1000 < m) → buffer_main 3 n m ≡ faults
unfolding buffer_main
buffer_main-faults n m (inl h) = rw (create_threads-none n 0 (omega arith) (omega arith)) refl
buffer_main-faults n m (inr h) =
    rw (create_threads-none m 0 (omega arith) (omega arith)) (no_consumers n m (create_threads n 0))
