-- ===== src/Kern/Env/Sched.antt =====
-- The round of sched_yield of kern/sched.c.
use kludgeos.Base.{
  ℕ, zero, suc, ◌+◌, ◌-◌, ◌%◌, ◌≤◌, ◌<◌, ◌≡◌, refl, inl, inr, Bool, true, false, Bool-cases, arith,
}
use kludgeos.Kern.Machine.{Kern, Outcome, spins, runnable, nenv}
use kludgeos.Kern.Env.{is_status, next_pre, sched_loop, sched_yield, env_run}

-- The test of the loop.
abbrev is_ready : Kern → ℕ → Bool
is_ready k e = is_status (k.envs e).env_status runnable

-- The environment that round i of the loop looks at.
abbrev pub slot : ℕ → ℕ → ℕ
slot pre i = (pre + i) % 1023 + 1

next_pre_lem : (pre : ℕ) → pre < nenv → next_pre pre ≡ pre % 1023 + 1
unfolding next_pre
next_pre_lem pre h = ground arith

slot-next : (pre j : ℕ) → pre < nenv → slot (next_pre pre) j ≡ slot pre (suc j)
slot-next pre j h = omega (arith, next_pre_lem pre h)

slot-first : (pre : ℕ) → pre < nenv → next_pre pre ≡ slot pre 0
slot-first pre h = omega (arith, next_pre_lem pre h)

-- How a loop of `n` rounds ends: at the first environment that is ready, or past all of them.
pub data Round {A : Type 0} (n : ℕ) (k : Kern) (r : Outcome A) : Type 0 where
  chosen :
      (i : ℕ)
      → i < n
      → is_ready k (slot k.pre i) ≡ true
      → ((j : ℕ) → j < i → is_ready k (slot k.pre j) ≡ false)
      → r ≡ env_run (slot k.pre i) (record k { pre = slot k.pre i })
      → Round n k r
  idle :
      (p : ℕ)
      → ((j : ℕ) → j < n → is_ready k (slot k.pre j) ≡ false)
      → r ≡ elim (is_ready k 0) [
        | true ↦ env_run 0 (record k { pre = p })
        | false ↦ spins (record k { pre = p })
      ]
      → Round n k r

-- What the rounds after the first one find, seen from before the first.
later :
    {A : Type 0} (n : ℕ) (k : Kern) (r : Outcome A)
    → k.pre < nenv
    → is_ready k (next_pre k.pre) ≡ false
    → Round n (record k { pre = next_pre k.pre }) r
    → Round (suc n) k r
later n k r h no_first (chosen i lt hit misses e) =
    chosen (suc i) (omega arith) (rw (slot-next k.pre i h) at hit) (first_too i no_first misses)
      (rw (slot-next k.pre i h) at e)
  where
    first_too :
        (i : ℕ)
        → is_ready k (next_pre k.pre) ≡ false
        → ((j : ℕ) → j < i → is_ready k (slot (next_pre k.pre) j) ≡ false)
        → (j : ℕ) → j < suc i
        → is_ready k (slot k.pre j) ≡ false
    first_too i no_first' misses' zero lt' = rw (← slot-first k.pre h) no_first'
    first_too i no_first' misses' (suc j) lt' = rw (← slot-next k.pre j h) (misses' j (omega arith))
later n k r h no_first (idle p misses e) = idle p (first_too no_first misses) e
  where
    first_too :
        is_ready k (next_pre k.pre) ≡ false
        → ((j : ℕ) → j < n → is_ready k (slot (next_pre k.pre) j) ≡ false)
        → (j : ℕ) → j < suc n
        → is_ready k (slot k.pre j) ≡ false
    first_too no_first' misses' zero lt' = rw (← slot-first k.pre h) no_first'
    first_too no_first' misses' (suc j) lt' = rw (← slot-next k.pre j h) (misses' j (omega arith))

loop_take :
    {A : Type 0} (n : ℕ) (k : Kern)
    → is_ready k (next_pre k.pre) ≡ true
    → sched_loop {A = A} (suc n) k ≡ env_run (next_pre k.pre) (record k { pre = next_pre k.pre })
unfolding sched_loop
loop_take n k e = ground arith

loop_hit :
    {A : Type 0} (n : ℕ) (k : Kern)
    → k.pre < nenv
    → is_ready k (next_pre k.pre) ≡ true
    → Round {A = A} (suc n) k (sched_loop (suc n) k)
loop_hit {A} n k h e =
    chosen 0 (omega arith) (rw (← slot-first k.pre h) e) (λ j lt. absurd (omega arith))
      (rw (slot-first k.pre h) at (loop_take {A = A} n k e))

loop_miss :
    {A : Type 0} (n : ℕ) (k : Kern)
    → is_ready k (next_pre k.pre) ≡ false
    → sched_loop {A = A} (suc n) k ≡ sched_loop n (record k { pre = next_pre k.pre })
unfolding sched_loop
loop_miss n k e = ground arith

next_pre-lt : (pre : ℕ) → pre < nenv → next_pre pre < nenv
next_pre-lt pre h = omega (arith, next_pre_lem pre h)

sched_loop-Round :
    {A : Type 0} (n : ℕ) (k : Kern) → k.pre < nenv → Round {A = A} n k (sched_loop n k)
sched_loop-Round zero k h = idle k.pre (λ j lt. absurd (omega arith)) (unfold sched_loop in refl)
sched_loop-Round (suc n) k h = elim (Bool-cases (is_ready k (next_pre k.pre))) [
  | inl e ↦ loop_hit n k h e
  | inr e ↦ rw (loop_miss n k e) (
      later n k (sched_loop n (record k { pre = next_pre k.pre })) h e
        (sched_loop-Round n (record k { pre = next_pre k.pre }) (next_pre-lt k.pre h)))
]

-- The slots of a whole round are all the environments but 0, each once.
slot_covers : (pre e : ℕ) → pre < nenv → 1 ≤ e → e < nenv → (i : ℕ) × (i < 1023) × (slot pre i ≡ e)
slot_covers pre e h lo hi = ((e + 1022 + 1023 - pre % 1023) % 1023, omega arith, omega arith)

-- sched_yield looks at the environments 1 to 1023 once each, from the one after the last that it
-- chose, and runs the first that is runnable; it remembers that choice. If none is, it runs
-- environment 0 where that is runnable, and else waits for ever. It never panics or returns.
pub sched_yield-Round :
    {A : Type 0} (k : Kern)
    → k.pre < nenv
    → Round {A = A} 1023 k (sched_yield k)
      × ((e : ℕ) → 1 ≤ e → e < nenv → (i : ℕ) × (i < 1023) × (slot k.pre i ≡ e))
unfolding sched_yield
sched_yield-Round k h = (sched_loop-Round 1023 k h, λ e lo hi. slot_covers k.pre e h lo hi)
