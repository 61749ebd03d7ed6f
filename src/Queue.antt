-- ===== src/Queue.antt =====
-- Producers and consumers of a bounded buffer: lab4-src/part1.c. A thread is at one of the calls of
-- its loop; a step is one such call, or what it does while it holds the mutex, and it is blocked
-- where the call waits.
pub mod Counts
pub mod Invariant
pub mod Progress
pub mod Liveness
pub mod Start
mod Tests
use cs.Common.{
  ℕ, zero, suc, ◌+◌, ◌-◌, ◌%◌, ◌≡◌, Bool, true, false, List, [], ◌∷◌, ◌++◌, Option, none, some,
  codes, length, get_elem?, ltb, ◌==◌, if◌then◌else◌,
}

-- BUF_SIZE
abbrev pub buf_size : ℕ
buf_size = 32

abbrev pub prod_str : List ℕ
prod_str = codes "Hello, World!"

-- prod_str[i]; the null behind the last character
abbrev pub character : ℕ → ℕ
character i = elim (get_elem? prod_str i) [ none ↦ 0 | some c ↦ c ]

-- A line that a thread prints: its id and the character.
pub data Line : Type 0 where
  produced : (thread_id c : ℕ) → Line
  consumed : (thread_id c : ℕ) → Line

-- The global variables, and the lines printed so far, the last one first.
pub record Shared : Type 0 where
  pub buf : ℕ → ℕ
  pub head : ℕ
  pub tail : ℕ
  pub empty_sem : ℕ
  pub full_sem : ℕ
  pub locked : Bool
  pub lines : List Line

-- Where a thread stands: at sem_wait, at pthread_mutex_lock, behind it, at pthread_mutex_unlock, at
-- sem_post, or at pthread_exit.
pub data Place : Type 0 where
  waiting : Place
  locking : Place
  working : Place
  unlocking : Place
  posting : Place
  exiting : Place

-- A thread's id, its loop variable and its place.
pub record Thread : Type 0 where
  pub thread_id : ℕ
  pub i : ℕ
  pub place : Place

abbrev pub move : Thread → Place → Thread
move t place = record t { place = place }

-- The loop's increment and test.
unfoldable pub next_round : Thread → Thread
next_round t = record t {
  i = t.i + 1;
  place = if ltb (t.i + 1) (length prod_str) then waiting else exiting;
}

-- buffer.buf[buffer.tail] = c
abbrev pub store : (ℕ → ℕ) → ℕ → ℕ → (ℕ → ℕ)
store buf tail c k = if tail == k then c else buf k

-- What a thread at a place does; `none` where it is blocked or has come to its end.
unfoldable pub producer : Place → Shared → Thread → Option (Shared × Thread)
unfolding next_round
producer waiting s t =
    if s.full_sem == 0 then none else some (record s { full_sem = s.full_sem - 1 }, move t locking)
producer locking s t = if s.locked then none else some (record s { locked = true }, move t working)
producer working s t = some (
  record s {
    buf = store s.buf s.tail (character t.i);
    tail = (s.tail + 1) % buf_size;
    lines = produced t.thread_id (character t.i) ∷ s.lines;
  },
  move t unlocking,
)
producer unlocking s t = some (record s { locked = false }, move t posting)
producer posting s t = some (record s { empty_sem = s.empty_sem + 1 }, next_round t)
producer exiting s t = none

unfoldable pub consumer : Place → Shared → Thread → Option (Shared × Thread)
unfolding next_round
consumer waiting s t =
    if s.empty_sem == 0
    then none
    else some (record s { empty_sem = s.empty_sem - 1 }, move t locking)
consumer locking s t = if s.locked then none else some (record s { locked = true }, move t working)
consumer working s t = some (
  record s {
    head = (s.head + 1) % buf_size;
    lines = consumed t.thread_id (character t.i) ∷ s.lines;
  },
  move t unlocking,
)
consumer unlocking s t = some (record s { locked = false }, move t posting)
consumer posting s t = some (record s { full_sem = s.full_sem + 1 }, next_round t)
consumer exiting s t = none

pub record System : Type 0 where
  pub shared : Shared
  pub producers : List Thread
  pub consumers : List Thread

-- One step of any thread.
pub data Step : System → System → Type 0 where
  produce :
      (s s' : Shared) (xs ys cs : List Thread) (t t' : Thread)
      → producer t.place s t ≡ some (s', t')
      → Step
          (record { shared = s; producers = xs ++ (t ∷ ys); consumers = cs })
          (record { shared = s'; producers = xs ++ (t' ∷ ys); consumers = cs })
  consume :
      (s s' : Shared) (ps xs ys : List Thread) (t t' : Thread)
      → consumer t.place s t ≡ some (s', t')
      → Step
          (record { shared = s; producers = ps; consumers = xs ++ (t ∷ ys) })
          (record { shared = s'; producers = ps; consumers = xs ++ (t' ∷ ys) })

-- The threads that main creates: `n` of them, numbered from `k`.
abbrev pub threads : (n k : ℕ) → List Thread
threads zero k = []
threads (suc n) k = record { thread_id = k; i = 0; place = waiting } ∷ threads n (k + 1)

-- What main sets up for the numbers of its two arguments, if it has two and no index overruns its bytes,
-- as buffer_main of Queue/Start tests. A thread not yet created has made no step.
abbrev pub started : (n m : ℕ) → System
started n m = record {
  shared = record {
    buf = λ k. 0;
    head = 0;
    tail = 0;
    empty_sem = 0;
    full_sem = buf_size;
    locked = false;
    lines = [];
  };
  producers = threads n 0;
  consumers = threads m 0;
}

pub data Reachable (n m : ℕ) : System → Type 0 where
  start : Reachable n m (started n m)
  step : (s s' : System) → Reachable n m s → Step s s' → Reachable n m s'
