-- ===== src/Kern/Tests/Processes.antt =====
-- The theorems on environments and the scheduler at the small machine.
use kludgeos.Base.{
  ℕ, ◌≤◌, ◌<◌, ◌≡◌, refl, ◌≢◌, [], ◌∷◌, Bool, true, false, some, ok, err, e_bad_env, arith,
}
use kludgeos.Kern.Machine.{Kern, returns, nenv, runnable}
use kludgeos.Kern.Env.{envx, envid2env, env_alloc, sched_yield}
use kludgeos.Kern.Env.Sched.{Round, slot, sched_yield-Round}
use kludgeos.Kern.Env.Alloc.{env_alloc_lem}
use kludgeos.Kern.Tests.{bare}

found_child : envid2env 0x1002 true bare ≡ returns (ok (some 2)) bare
unfolding envid2env
found_child = refl

sched_yield-Round_example :
    Round {A = ℕ} 1023 bare (sched_yield bare)
    × ((e : ℕ) → 1 ≤ e → e < nenv → (i : ℕ) × (i < 1023) × (slot bare.pre i ≡ e))
sched_yield-Round_example = sched_yield-Round {A = ℕ} bare (omega arith)

env_alloc_lem_example :
    (k' : Kern) × (env_alloc 0x1001 bare ≡ returns (ok 4) k')
    × (k'.env_free_list ≡ (5 ∷ []))
    × (k'.page_free_list ≡ (6 ∷ []))
    × ((k'.envs 4).env_status ≡ runnable)
    × ((k'.envs 4).env_parent_id ≡ 0x1001)
    × ((k'.envs 4).env_pgdir ≡ 5)
    × (envid2env ((k'.envs 4).env_id) false k' ≡ returns (ok (some 4)) k')
    × ((c : Bool)
        → (bare.envs 4).env_id ≢ 0
        → envx ((bare.envs 4).env_id) ≡ 4
        → envid2env ((bare.envs 4).env_id) c k' ≡ returns (err e_bad_env) k')
env_alloc_lem_example =
    env_alloc_lem bare 4 5 0x1001 (5 ∷ []) (6 ∷ []) refl refl (omega arith) (omega arith)
      (omega arith) (omega arith)
