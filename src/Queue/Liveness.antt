-- ===== src/Queue/Liveness.antt =====
-- That no threads of lab4-src/part1.c wait for ever.
use cs.Common.{
  sum, as_number, ℕ, ◌+◌, ◌*◌, ◌≤◌, ◌≡◌, ◌≢◌, refl, sym, ap, subst, ◌⊎◌, inl, inr, Bool, true,
  false, Bool-cases, List, [], ◌∷◌, ◌++◌, All, Option, Option-cases, none, some, ◌==◌, arith,
}
use cs.Queue.{
  Shared, Place, waiting, locking, exiting, Thread, producer, consumer, System, Step, produce,
  consume, Reachable,
}
use cs.Queue.Counts.{ready, after, inside, worked}
use cs.Queue.Invariant.{IsBounded, Reachable-IsBounded}
use cs.Queue.Progress.{
  calls, total_calls, IsOnTime, Exits, one, IsTimely, Step-IsTimely, Reachable-IsTimely,
}

-- Cannot go on, given the semaphore that it waits for and the mutex.
abbrev IsStuck : ℕ → Bool → Thread → Type 0
IsStuck sem locked t =
    (t.place ≡ exiting)
    ⊎ ((t.place ≡ waiting) × (sem ≡ 0))
    ⊎ ((t.place ≡ locking) × (locked ≡ true))

producer-IsStuck :
    (p : Place) (s : Shared) (t : Thread)
    → t.place ≡ p
    → producer p s t ≡ none
    → IsStuck s.full_sem s.locked t
unfolding producer
producer-IsStuck p s t e h = ground arith

consumer-IsStuck :
    (p : Place) (s : Shared) (t : Thread)
    → t.place ≡ p
    → consumer p s t ≡ none
    → IsStuck s.empty_sem s.locked t
unfolding consumer
consumer-IsStuck p s t e h = ground arith

-- A thread of a list that can go on, or all of them are stuck.
abbrev Goes : (Shared → Thread → Option (Shared × Thread)) → Shared → List Thread → Type 0
Goes f s ts =
    (xs : List Thread) × (t : Thread) × (ys : List Thread) × (s' : Shared) × (t' : Thread) × (ts
      ≡ xs ++ (t ∷ ys))
    × (f s t ≡ some (s', t'))

find_Goes :
    (f : Shared → Thread → Option (Shared × Thread)) (s : Shared) (ts : List Thread)
    → Goes f s ts ⊎ All (λ t. f s t ≡ none) ts
find_Goes f s [] = inr tt
find_Goes f s (t ∷ ts) = elim (Option-cases (f s t)) [
  | inr ((s', t'), e) ↦ inl ([], t, ts, s', t', refl, e)
  | inl blocked ↦ elim (find_Goes f s ts) [
    | inl (xs, u, ys, s', u', split, e) ↦ inl (t ∷ xs, u, ys, s', u', ap (λ l. t ∷ l) split, e)
    | inr all ↦ inr (blocked, all)
  ]
]

-- What stuck threads add up to.
module _ (sem : ℕ) (locked : Bool) where
  Stuck-outside : (ts : List Thread) → All (IsStuck sem locked) ts → sum inside ts ≡ 0
  Stuck-outside [] h = refl
  Stuck-outside (t ∷ ts) h = ground (arith, Stuck-outside ts)

module _ (sem : ℕ) where
  Stuck-idle :
      (ts : List Thread) → All (IsStuck sem false) ts → (sum ready ts ≡ 0) × (sum after ts ≡ 0)
  Stuck-idle [] h = (refl, refl)
  Stuck-idle (t ∷ ts) h = ground (arith, Stuck-idle ts)

  Stuck-Exits :
      (ts : List Thread)
      → All IsOnTime ts
      → All (IsStuck sem false) ts
      → (sum worked ts ≤ 13 * sum one ts)
        × (((sem ≢ 0) ⊎ (13 * sum one ts ≤ sum worked ts)) → All Exits ts)
        × (All Exits ts → sum worked ts ≡ 13 * sum one ts)
  Stuck-Exits [] on h = (omega arith, λ h. tt, λ h. refl)
  Stuck-Exits (t ∷ ts) on h =
      let (bound, exits, whole) = Stuck-Exits ts on.1 h.1 in
      (
        ground arith,
        λ k. (ground (arith, bound, k), exits (ground (arith, bound, k))),
        λ k. ground (arith, whole k.1, k.0),
      )

calls-le : (ts : List Thread) → All IsOnTime ts → sum calls ts ≤ 65 * sum one ts
calls-le [] on = omega arith
calls-le (t ∷ ts) on = ground (arith, calls-le ts on.1)

-- All of a list's threads are stuck.
abbrev AllStuck : ℕ → Bool → List Thread → Type 0
AllStuck sem locked = All (IsStuck sem locked)

stuck_producers :
    (s : Shared) (ts : List Thread)
    → All (λ t. producer t.place s t ≡ none) ts
    → AllStuck s.full_sem s.locked ts
stuck_producers s [] h = tt
stuck_producers s (t ∷ ts) h = (producer-IsStuck t.place s t refl h.0, stuck_producers s ts h.1)

stuck_consumers :
    (s : Shared) (ts : List Thread)
    → All (λ t. consumer t.place s t ≡ none) ts
    → AllStuck s.empty_sem s.locked ts
stuck_consumers s [] h = tt
stuck_consumers s (t ∷ ts) h = (consumer-IsStuck t.place s t refl h.0, stuck_consumers s ts h.1)

-- As many producers as consumers cannot all be stuck but at their end.
stuck_at_end :
    (n : ℕ) (y : System)
    → IsBounded y
    → IsTimely n n y
    → AllStuck y.shared.full_sem y.shared.locked y.producers
    → AllStuck y.shared.empty_sem y.shared.locked y.consumers
    → All Exits y.producers × All Exits y.consumers
stuck_at_end n y b k ps cs =
    let s = y.shared in
    let none_inside : as_number s.locked ≡ 0 = omega (
      arith,
      b.mutex,
      Stuck-outside s.full_sem s.locked y.producers ps,
      Stuck-outside s.empty_sem s.locked y.consumers cs,
    ) in
    let free : s.locked ≡ false = ground (arith, none_inside) in
    let ps' : AllStuck s.full_sem false y.producers =
      subst (λ l. AllStuck s.full_sem l y.producers) free ps in
    let cs' : AllStuck s.empty_sem false y.consumers =
      subst (λ l. AllStuck s.empty_sem l y.consumers) free cs in
    let (p_ready, p_after) = Stuck-idle s.full_sem y.producers ps' in
    let (c_ready, c_after) = Stuck-idle s.empty_sem y.consumers cs' in
    let (p_bound, p_exits, p_whole) = Stuck-Exits s.full_sem y.producers k.producers ps' in
    let (c_bound, c_exits, c_whole) = Stuck-Exits s.empty_sem y.consumers k.consumers cs' in
    elim (Bool-cases (s.full_sem == 0)) [
      | inl zero_full ↦
          let some_empty : s.empty_sem ≢ 0 =
            ground (arith, b.slots, b.filled, p_ready, p_after, c_ready, c_after) in
          let all = c_exits (inl some_empty) in
          absurd (
            ground (
              arith,
              c_whole all,
              p_bound,
              b.slots,
              p_ready,
              c_after,
              k.count_producers,
              k.count_consumers,
            ))
      | inr some_full ↦
          let all = p_exits (inl (ground arith)) in
          elim (Bool-cases (s.empty_sem == 0)) [
            | inr some_empty ↦ (all, c_exits (inl (ground arith)))
            | inl zero_empty ↦ (
              all,
              c_exits (
                  inr (
                    ground (
                      arith,
                      p_whole all,
                      b.filled,
                      p_after,
                      c_ready,
                      k.count_producers,
                      k.count_consumers,
                    ))),
            )
          ]
    ]

-- With as many consumers as producers, `n` of each, in every reachable state all have come to their
-- end or some thread can go on; each step is one call more, and there are at most 130 n calls.
pub Reachable-ends :
    (n : ℕ) (y : System)
    → Reachable n n y
    → (total_calls y ≤ 130 * n)
      × ((y' : System) → Step y y' → total_calls y' ≡ total_calls y + 1)
      × ((All Exits y.producers × All Exits y.consumers) ⊎ ((y' : System) × Step y y'))
Reachable-ends n y r =
    let b = Reachable-IsBounded n n y r in
    let k = Reachable-IsTimely n n y r in
    (
      omega (
        arith,
        calls-le y.producers k.producers,
        calls-le y.consumers k.consumers,
        k.count_producers,
        k.count_consumers,
      ),
      λ y' e. (Step-IsTimely n n y y' e k).0,
      elim (find_Goes (λ s t. producer t.place s t) y.shared y.producers) [
        | inl (xs, t, ys, s', t', split, e) ↦ inr (
          record { shared = s'; producers = xs ++ (t' ∷ ys); consumers = y.consumers },
          subst
              (λ ps.
                Step (record y { producers = ps })
                  (record { shared = s'; producers = xs ++ (t' ∷ ys); consumers = y.consumers }))
              (sym split) (produce y.shared s' xs ys y.consumers t t' e),
        )
        | inr ps ↦ elim (find_Goes (λ s t. consumer t.place s t) y.shared y.consumers) [
          | inl (xs, t, ys, s', t', split, e) ↦ inr (
            record { shared = s'; producers = y.producers; consumers = xs ++ (t' ∷ ys) },
            subst
                (λ cs.
                  Step (record y { consumers = cs })
                    (record { shared = s'; producers = y.producers; consumers = xs ++ (t' ∷ ys) }))
                (sym split) (consume y.shared s' y.producers xs ys t t' e),
          )
          | inr cs ↦ inl (
              stuck_at_end n y b k (stuck_producers y.shared y.producers ps)
                (stuck_consumers y.shared y.consumers cs))
        ]
      ],
    )
