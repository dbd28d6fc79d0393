-- ===== src/Kern/Syscall/Fork.antt =====
-- sys_exofork of kern/syscall.c.
use kludgeos.Base.{ℕ, ◌^◌, ◌≤◌, ◌<◌, ◌≡◌, ◌≢◌, List, ◌∷◌, some, ok, arith}
use kludgeos.Kern.Machine.{Kern, returns, not_runnable, set_env, nenv}
use kludgeos.Kern.Env.{fresh_env}
use kludgeos.Kern.Env.Alloc.{allocated, env_alloc_runs}
use kludgeos.Kern.Syscall.{current, sys_exofork, forked}

-- Where an environment and a page are free, sys_exofork makes a child of the caller: it returns the
-- child's id, the child is not runnable, has the caller for its parent and the caller's registers,
-- but 0 for the result of the call.
exofork_child :
    (k : Kern) (cur e p : ℕ) (envs rest : List ℕ)
    → k.curenv ≡ some cur
    → k.env_free_list ≡ e ∷ envs
    → k.page_free_list ≡ p ∷ rest
    → p < k.npage
    → k.npage ≤ 2 ^ 20
    → e < nenv
    → e ≢ cur
    → (k.envs e).env_id < 2 ^ 31
    → (k' : Kern) × (sys_exofork k ≡ returns (ok ((k'.envs e).env_id)) k')
      × ((k'.envs e).env_status ≡ not_runnable)
      × ((k'.envs e).env_parent_id ≡ (k.envs cur).env_id)
      × ((k'.envs e).env_tf ≡ record ((k.envs cur).env_tf) {
        tf_regs = record ((k.envs cur).env_tf.tf_regs) { reg_eax = 0 };
      })
      × ((c : ℕ) → c ≢ e → k'.envs c ≡ k.envs c)
unfolding sys_exofork current forked fresh_env
exofork_child k cur e p envs rest caller unused pages lt few in_table apart small =
    let parent : ℕ = (k.envs cur).env_id in
    let made : Kern = allocated k e envs p rest parent in
    (
      set_env e (λ v. forked v (made.envs cur)) made,
      ground (arith, env_alloc_runs k e p parent envs rest unused pages lt few),
      ground arith,
      ground arith,
      ground arith,
      λ c ne. ground arith,
    )
