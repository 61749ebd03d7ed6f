-- ===== src/Queue/Counts.antt =====
-- What a step of a thread of lab4-src/part1.c does to the semaphores, in numbers.
use cs.Common.{
  as_number, sym, ap, ℕ, ◌+◌, ◌%◌, ◌≡◌, refl, ◌⊎◌, inl, inr, Bool, true, Bool-cases, Option, none,
  some, ◌==◌, arith,
}
use cs.Queue.{
  Shared, Place, waiting, locking, working, unlocking, posting, exiting, Thread, next_round,
  producer, consumer,
}

-- Has passed sem_wait and not yet worked.
abbrev pub is_ready : Place → ℕ
is_ready locking = 1
is_ready working = 1
is_ready _ = 0

-- Has worked and not yet passed sem_post.
abbrev pub is_after : Place → ℕ
is_after unlocking = 1
is_after posting = 1
is_after _ = 0

-- Holds the mutex.
abbrev pub is_inside : Place → ℕ
is_inside working = 1
is_inside unlocking = 1
is_inside _ = 0

abbrev pub ready : Thread → ℕ
ready t = is_ready t.place

abbrev pub after : Thread → ℕ
after t = is_after t.place

abbrev pub inside : Thread → ℕ
inside t = is_inside t.place

-- How often the thread has worked.
abbrev pub worked : Thread → ℕ
worked t = t.i + after t

-- What a step from `s`, `t` to `s'`, `t'` keeps. `taken` and `given` are the values of the semaphore
-- that the thread waits for and of the one that it posts; `index` is the end of the buffer it works at.
pub record IsMove (taken given index taken' given' index' : ℕ) (l l' : Bool) (t t' : Thread)
    : Type 0 where
  pub slots : taken + ready t + worked t ≡ taken' + ready t' + worked t'
  pub posts : given + after t + worked t' ≡ given' + after t' + worked t
  pub lock : inside t + as_number l' ≡ inside t' + as_number l
  pub at :
      ((worked t' ≡ worked t) × (index' ≡ index))
      ⊎ ((worked t' ≡ worked t + 1) × (index' ≡ (index + 1) % 32))

next_place : (t : Thread) → is_after (next_round t).place ≡ 0
unfolding next_round
next_place t = ground arith

-- The results of a producer's step, and of a consumer's.
abbrev pub Produces : Shared → Thread → Option (Shared × Thread) → Type 0
Produces s t none = Unit
Produces s t (some (s', t')) =
    IsMove s.full_sem s.empty_sem s.tail s'.full_sem s'.empty_sem s'.tail s.locked s'.locked t t'
    × (s'.head ≡ s.head)

abbrev pub Consumes : Shared → Thread → Option (Shared × Thread) → Type 0
Consumes s t none = Unit
Consumes s t (some (s', t')) =
    IsMove s.empty_sem s.full_sem s.head s'.empty_sem s'.full_sem s'.head s.locked s'.locked t t'
    × (s'.tail ≡ s.tail)

abbrev pub at_place : ℕ → ℕ → Place → Thread
at_place id i p = record { thread_id = id; i = i; place = p }

next_round-IsMove :
    (id i taken given index : ℕ) (l : Bool)
    → IsMove taken given index taken
        (given + 1)
        index
        l
        l
        (at_place id i posting)
        (next_round (at_place id i posting))
unfolding next_round
next_round-IsMove id i taken given index l = record {
  slots = ground arith;
  posts = ground arith;
  lock = ground arith;
  at = ground arith;
}

pub producer-Produces :
    (p : Place) (s : Shared) (id i : ℕ)
    → (is_inside p ≡ 1 → s.locked ≡ true)
    → Produces s (at_place id i p) (producer p s (at_place id i p))
unfolding producer
producer-Produces waiting s id i held = elim (Bool-cases (s.full_sem == 0)) [
  | inl e ↦ rw e tt
  | inr e ↦
      rw e (record { slots = ground arith; posts = refl; lock = refl; at = inl (refl, refl) }, refl)
]
producer-Produces locking s id i held = elim (Bool-cases s.locked) [
  | inl e ↦ rw e tt
  | inr e ↦ rw e (record { slots = refl; posts = refl; lock = refl; at = inl (refl, refl) }, refl)
]
producer-Produces working s id i held = (
  record { slots = omega arith; posts = omega arith; lock = refl; at = inr (omega arith, refl) },
  refl,
)
producer-Produces unlocking s id i held = (
  record {
    slots = omega arith;
    posts = refl;
    lock = ap (λ l. 0 + as_number l) (sym (held refl));
    at = inl (refl, refl);
  },
  refl,
)
producer-Produces posting s id i held =
    (next_round-IsMove id i s.full_sem s.empty_sem s.tail s.locked, refl)
producer-Produces exiting s id i held = tt

pub consumer-Consumes :
    (p : Place) (s : Shared) (id i : ℕ)
    → (is_inside p ≡ 1 → s.locked ≡ true)
    → Consumes s (at_place id i p) (consumer p s (at_place id i p))
unfolding consumer
consumer-Consumes waiting s id i held = elim (Bool-cases (s.empty_sem == 0)) [
  | inl e ↦ rw e tt
  | inr e ↦
      rw e (record { slots = ground arith; posts = refl; lock = refl; at = inl (refl, refl) }, refl)
]
consumer-Consumes locking s id i held = elim (Bool-cases s.locked) [
  | inl e ↦ rw e tt
  | inr e ↦ rw e (record { slots = refl; posts = refl; lock = refl; at = inl (refl, refl) }, refl)
]
consumer-Consumes working s id i held = (
  record { slots = omega arith; posts = omega arith; lock = refl; at = inr (omega arith, refl) },
  refl,
)
consumer-Consumes unlocking s id i held = (
  record {
    slots = omega arith;
    posts = refl;
    lock = ap (λ l. 0 + as_number l) (sym (held refl));
    at = inl (refl, refl);
  },
  refl,
)
consumer-Consumes posting s id i held =
    (next_round-IsMove id i s.empty_sem s.full_sem s.head s.locked, refl)
consumer-Consumes exiting s id i held = tt
