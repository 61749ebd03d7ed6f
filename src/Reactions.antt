-- ===== src/Reactions.antt =====
-- The reaction threads of lab4-src/part2.c, any number of them, interleaved step by step: a test, a
-- call on a semaphore or the mutex, or what is done with the mutex held. An int wraps at 2^32.
pub mod Atoms
pub mod Mutex
mod Tests
use cs.Common.{
  ℕ, ◌+◌, ◌-◌, ◌%◌, ◌≡◌, Bool, true, false, not, ◌&&◌, ◌||◌, List, [], ◌∷◌, ◌++◌, Option, none,
  some, ltb, leb, ◌==◌, if◌then◌else◌,
}

-- n + k and n - k on ints, and n < k for a small k.
abbrev pub plus : ℕ → ℕ → ℕ
plus n k = (n + k) % 4294967296

abbrev pub minus : ℕ → ℕ → ℕ
minus n k = ((n + 4294967296) - k) % 4294967296

abbrev pub less : ℕ → ℕ → Bool
less n k = ltb n k || leb 2147483648 n

-- The lines that are printed.
pub data Report : Type 0 where
  atom_of_oxygen : Report
  atom_of_nitrogen : Report
  molecule_of_n2 : Report
  molecule_of_o2 : Report
  molecules_of_no2 : Report
  molecules_of_o3 : Report

pub record Pot : Type 0 where
  pub num_oxygen : ℕ
  pub num_nitrogen : ℕ
  pub num_o2 : ℕ
  pub num_n2 : ℕ
  pub sig_o2 : ℕ
  pub sig_n2 : ℕ
  pub sig_no2 : ℕ
  pub sig_o3 : ℕ
  pub locked : Bool
  pub lines : List Report

pub data Role : Type 0 where
  create_oxygen : (how_many : ℕ) → Role
  create_nitrogen : (how_many : ℕ) → Role
  create_n2 : Role
  create_o2 : Role
  create_no2 : Role
  create_o3 : Role

-- Where a thread is. num_o2 is changed both with the mutex held and without, so its changes are a
-- read and a write; `storing` knows what was read.
pub data Stage : Type 0 where
  testing : Stage
  waiting : Stage
  locking : Stage
  reading : Stage
  working : (num_o2 : ℕ) → Stage
  unlocking : Stage
  checking : Stage
  posting : Stage
  taking : Stage
  storing : (num_o2 : ℕ) → Stage
  checking_o3 : Stage
  posting_o3 : Stage
  ended : Stage

pub record Worker : Type 0 where
  pub role : Role
  pub place : Stage
  pub i : ℕ

abbrev pub at_stage : Worker → Stage → Worker
at_stage t p = record t { place = p }

-- The test at the head of the loop.
abbrev pub loop_head : Role → Pot → ℕ → Stage
loop_head (create_oxygen how_many) s i = if ltb i how_many then locking else checking
loop_head (create_nitrogen how_many) s i = if ltb i how_many then locking else checking
loop_head create_n2 s i = if less s.num_nitrogen 2 then waiting else locking
loop_head create_o2 s i = if less s.num_oxygen 2 then waiting else locking
loop_head create_no2 s i = if less s.num_n2 1 || less s.num_o2 2 then waiting else locking
loop_head create_o3 s i = if less s.num_o2 3 then waiting else locking

-- sem_wait on the semaphore of a role.
abbrev pub wait : Role → Pot → Option Pot
wait create_n2 s = if s.sig_n2 == 0 then none else some (record s { sig_n2 = s.sig_n2 - 1 })
wait create_o2 s = if s.sig_o2 == 0 then none else some (record s { sig_o2 = s.sig_o2 - 1 })
wait create_no2 s = if s.sig_no2 == 0 then none else some (record s { sig_no2 = s.sig_no2 - 1 })
wait create_o3 s = if s.sig_o3 == 0 then none else some (record s { sig_o3 = s.sig_o3 - 1 })
wait _ s = none

-- What is done with the mutex held, with num_o2 as it was read.
abbrev pub react : Role → (num_o2 : ℕ) → Pot → Pot
react (create_oxygen n) v s = record s {
  num_oxygen = plus s.num_oxygen 1;
  lines = atom_of_oxygen ∷ s.lines;
}
react (create_nitrogen n) v s = record s {
  num_nitrogen = plus s.num_nitrogen 1;
  lines = atom_of_nitrogen ∷ s.lines;
}
react create_n2 v s = record s {
  num_nitrogen = minus s.num_nitrogen 2;
  num_n2 = plus s.num_n2 1;
  lines = molecule_of_n2 ∷ s.lines;
}
react create_o2 v s = record s {
  num_oxygen = minus s.num_oxygen 2;
  num_o2 = plus v 1;
  lines = molecule_of_o2 ∷ s.lines;
}
react create_no2 v s = record s { num_n2 = minus s.num_n2 1; lines = molecules_of_no2 ∷ s.lines }
react create_o3 v s = record s { num_o2 = minus v 3; lines = molecules_of_o3 ∷ s.lines }

-- Behind the unlocking, and behind the loop.
abbrev pub onward : Role → Stage
onward create_o2 = checking
onward _ = testing

abbrev pub check : Role → Pot → Stage
check (create_oxygen n) s = if less s.num_oxygen 2 then ended else posting
check (create_nitrogen n) s = if less s.num_nitrogen 2 then ended else posting
check create_o2 s = if less s.num_o2 2 || less s.num_n2 1 then checking_o3 else posting
check _ s = testing

abbrev pub post : Role → Pot → Pot
post (create_oxygen n) s = record s { sig_o2 = s.sig_o2 + 1 }
post (create_nitrogen n) s = record s { sig_n2 = s.sig_n2 + 1 }
post create_o2 s = record s { sig_no2 = s.sig_no2 + 1 }
post _ s = s

abbrev pub posted : Role → Stage
posted create_o2 = taking
posted _ = ended

abbrev pub waited : Option Pot → Worker → Option (Pot × Worker)
waited none t = none
waited (some s) t = some (s, at_stage t locking)

-- What a thread at a place does; `none` where it is blocked or has come to its end.
unfoldable pub advance : Stage → Pot → Worker → Option (Pot × Worker)
advance testing s t = some (s, at_stage t (loop_head t.role s t.i))
advance waiting s t = waited (wait t.role s) t
advance locking s t =
    if s.locked then none else some (record s { locked = true }, at_stage t reading)
advance reading s t = some (s, at_stage t (working s.num_o2))
advance (working v) s t = some (react t.role v s, at_stage t unlocking)
advance unlocking s t =
    some (record s { locked = false }, record t { place = onward t.role; i = t.i + 1 })
advance checking s t = some (s, at_stage t (check t.role s))
advance posting s t = some (post t.role s, at_stage t (posted t.role))
advance taking s t = some (s, at_stage t (storing s.num_o2))
advance (storing v) s t = some (record s { num_o2 = minus v 2 }, at_stage t checking_o3)
advance checking_o3 s t = some (s, at_stage t (if less s.num_o2 3 then testing else posting_o3))
advance posting_o3 s t = some (record s { sig_o3 = s.sig_o3 + 1 }, at_stage t testing)
advance ended s t = none

pub record Mixture : Type 0 where
  pub shared : Pot
  pub threads : List Worker

-- One step of any thread.
pub data Turn : Mixture → Mixture → Type 0 where
  step :
      (s s' : Pot) (xs ys : List Worker) (t t' : Worker)
      → advance t.place s t ≡ some (s', t')
      → Turn
          (record { shared = s; threads = xs ++ (t ∷ ys) })
          (record { shared = s'; threads = xs ++ (t' ∷ ys) })

abbrev pub worker : Role → Worker
worker r = record { role = r; place = testing; i = 0 }

-- What main sets up for its two arguments.
abbrev pub mixed : (oxy_num nit_num : ℕ) → Mixture
mixed oxy_num nit_num = record {
  shared = record {
    num_oxygen = 0;
    num_nitrogen = 0;
    num_o2 = 0;
    num_n2 = 0;
    sig_o2 = 0;
    sig_n2 = 0;
    sig_no2 = 0;
    sig_o3 = 0;
    locked = false;
    lines = [];
  };
  threads =
      worker (create_oxygen oxy_num)
      ∷ worker (create_nitrogen nit_num)
      ∷ worker create_o2
      ∷ worker create_n2
      ∷ worker create_no2
      ∷ worker create_o3
      ∷ [];
}

pub data Reached (oxy_num nit_num : ℕ) : Mixture → Type 0 where
  start : Reached oxy_num nit_num (mixed oxy_num nit_num)
  next : (y y' : Mixture) → Reached oxy_num nit_num y → Turn y y' → Reached oxy_num nit_num y'
