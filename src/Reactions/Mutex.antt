-- ===== src/Reactions/Mutex.antt =====
-- That one thread of lab4-src/part2.c at most holds the mutex.
use cs.Common.{ℕ, ◌+◌, ◌≡◌, refl, ap, subst, Option, none, some, sum, sum-append, as_number, arith}
use cs.Reactions.{
  Pot, Role, Stage, testing, waiting, locking, reading, working, unlocking, checking, posting,
  taking, storing, checking_o3, posting_o3, ended, Worker, loop_head, onward, check, posted, react,
  wait, waited, post, advance, Mixture, step, Reached, start, next,
}

-- Has locked the mutex and not yet unlocked it.
abbrev pub is_inside : Stage → ℕ
is_inside reading = 1
is_inside (working v) = 1
is_inside unlocking = 1
is_inside _ = 0

abbrev pub inside : Worker → ℕ
inside t = is_inside t.place

-- No thread is inside where its loop begins, behind the unlocking, and where a test leads.
loop_head_outside : (r : Role) (s : Pot) (i : ℕ) → is_inside (loop_head r s i) ≡ 0
loop_head_outside r s i = ground arith

onward_outside : (r : Role) → is_inside (onward r) ≡ 0
onward_outside r = ground arith

check_outside : (r : Role) (s : Pot) → is_inside (check r s) ≡ 0
check_outside r s = ground arith

posted_outside : (r : Role) → is_inside (posted r) ≡ 0
posted_outside r = ground arith

react-locked : (r : Role) (v : ℕ) (s : Pot) → (react r v s).locked ≡ s.locked
react-locked r v s = ground arith

post-locked : (r : Role) (s : Pot) → (post r s).locked ≡ s.locked
post-locked r s = ground arith

-- The threads inside are as many as hold the mutex, where `others` are inside besides this one.
abbrev Agrees : ℕ → Option (Pot × Worker) → Type 0
Agrees others none = Unit
Agrees others (some (s, t)) = inside t + others ≡ as_number s.locked

waited-Agrees :
    (r : Role) (s : Pot) (t : Worker) (others : ℕ)
    → others ≡ as_number s.locked
    → Agrees others (waited (wait r s) t)
waited-Agrees r s t others h = ground arith

advance-Agrees :
    (p : Stage) (s : Pot) (t : Worker) (others : ℕ)
    → is_inside p + others ≡ as_number s.locked
    → Agrees others (advance p s t)
unfolding advance
advance-Agrees testing s t others h = omega (arith, h, loop_head_outside t.role s t.i)
advance-Agrees waiting s t others h = waited-Agrees t.role s t others (omega (arith, h))
advance-Agrees locking s t others h = ground arith
advance-Agrees reading s t others h = h
advance-Agrees (working v) s t others h = omega (arith, h, ap as_number (react-locked t.role v s))
advance-Agrees unlocking s t others h = ground (arith, onward_outside t.role)
advance-Agrees checking s t others h = omega (arith, h, check_outside t.role s)
advance-Agrees posting s t others h =
    omega (arith, h, ap as_number (post-locked t.role s), posted_outside t.role)
advance-Agrees taking s t others h = h
advance-Agrees (storing v) s t others h = h
advance-Agrees checking_o3 s t others h = ground arith
advance-Agrees posting_o3 s t others h = h
advance-Agrees ended s t others h = tt

-- In every reachable state the mutex is locked just when a thread is between its lock and its unlock,
-- and no two threads are.
pub Reached-Exclusive :
    (oxy_num nit_num : ℕ) (y : Mixture)
    → Reached oxy_num nit_num y
    → sum inside y.threads ≡ as_number y.shared.locked
Reached-Exclusive oxy_num nit_num y start = refl
Reached-Exclusive oxy_num nit_num y (next y0 y' r (step s s' xs ys t t' e)) =
    let others = sum inside xs + sum inside ys in
    let before : inside t + others ≡ as_number s.locked =
      omega (arith, sum-append inside xs t ys, Reached-Exclusive oxy_num nit_num y0 r) in
    let after : inside t' + others ≡ as_number s'.locked =
      subst (Agrees others) e (advance-Agrees t.place s t others before) in
    omega (arith, sum-append inside xs t' ys, after)
