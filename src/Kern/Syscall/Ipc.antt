-- ===== src/Kern/Syscall/Ipc.antt =====
-- Messages: sys_ipc_recv and sys_ipc_try_send of kern/syscall.c.
use kludgeos.Base.{ℕ, ◌≡◌, ◌≢◌, true, false, some, ok, err, e_inval, e_ipc_not_recv, arith}
use kludgeos.Kern.Machine.{Kern, returns, Env, runnable, not_runnable, running, set_env}
use kludgeos.Kern.Env.{envid2env, envx, sched_yield}
use kludgeos.Kern.Syscall.{
  find_env, current, sys_ipc_try_send, sys_ipc_recv, take_message, send_page, receiving, bad_va,
}

-- `envid` is the id of the environment `target`, which waits for a message; `cur` is the caller.
pub record Waiting (k : Kern) (cur envid target : ℕ) : Type 0 where
  pub caller : k.curenv ≡ some cur
  pub nonzero : envid ≢ 0
  pub index : envx envid ≡ target
  pub own_id : (k.envs target).env_id ≡ envid
  pub blocked : (k.envs target).env_status ≡ not_runnable
  pub wants : (k.envs target).env_ipc_recving ≡ true
  pub not_self : target ≢ cur

find_env_live :
    (k : Kern) (envid target : ℕ)
    → envid ≢ 0
    → envx envid ≡ target
    → (k.envs target).env_id ≡ envid
    → (k.envs target).env_status ≡ not_runnable
    → find_env envid false k ≡ returns (ok target) k
unfolding find_env envid2env
find_env_live k envid target nonzero at own st = ground arith

-- The receiver's record once a message without a page has come.
abbrev pub delivered : Env → ℕ → ℕ → Env
delivered e from value = record e {
  env_ipc_recving = false;
  env_ipc_from = from;
  env_ipc_value = value;
  env_ipc_perm = 0;
  env_status = runnable;
}

-- A message without a page to an environment that waits for one is delivered: the call returns 0,
-- the receiver has the value and the sender's id and no page, is runnable and receives no more, and
-- no other environment has changed.
pub send_delivers :
    (k : Kern) (cur envid target value perm : ℕ)
    → Waiting k cur envid target
    → (k' : Kern) × (sys_ipc_try_send envid value 0 perm k ≡ returns (ok 0) k')
      × (k'.envs target ≡ delivered (k.envs target) ((k.envs cur).env_id) value)
      × ((e : ℕ) → e ≢ target → k'.envs e ≡ k.envs e)
unfolding sys_ipc_try_send take_message
send_delivers k cur envid target value perm v = (
  set_env target (λ e. record e { env_status = runnable })
      (set_env target (take_message ((k.envs cur).env_id) value) k),
  ground
      (arith, find_env_live k envid target v.nonzero v.index v.own_id v.blocked, v.wants, v.caller),
  ground arith,
  λ e ne. ground arith,
)

-- The flaw of sys_ipc_try_send: it ends the receiver's wait before it checks the page to send. With
-- a bad address the call fails, and the receiver is left blocked but not receiving, so that every
-- later message to it is refused, and it sleeps on.
pub send_strands_receiver :
    (k : Kern) (cur envid target value srcva perm : ℕ)
    → Waiting k cur envid target
    → srcva ≢ 0
    → bad_va srcva ≡ true
    → (k' : Kern) × (sys_ipc_try_send envid value srcva perm k ≡ returns (err e_inval) k')
      × ((k'.envs target).env_status ≡ not_runnable)
      × ((value' srcva' perm' : ℕ)
          → sys_ipc_try_send envid value' srcva' perm' k' ≡ returns (err e_ipc_not_recv) k')
unfolding sys_ipc_try_send take_message send_page
send_strands_receiver k cur envid target value srcva perm v nonnull bad =
    let k' : Kern = set_env target (take_message ((k.envs cur).env_id) value) k in
    (
      k',
      ground (
        arith,
        find_env_live k envid target v.nonzero v.index v.own_id v.blocked,
        v.wants,
        v.caller,
      ),
      ground (arith, v.blocked),
      λ value' srcva' perm'. ground (
        arith,
        find_env_live k' envid target v.nonzero v.index (ground (arith, v.own_id))
            (ground (arith, v.blocked)),
      ),
    )

-- The flaw of sys_ipc_recv: called with a null address, which asks for no page, it leaves the address
-- of an earlier call in place. The caller blocks, and the next page that is sent to it is mapped
-- at the old address.
recv_keeps_dstva :
    (k : Kern) (cur : ℕ)
    → k.curenv ≡ some cur
    → (k.envs cur).env_status ≡ running
    → (k' : Kern) × (sys_ipc_recv 0 k ≡ sched_yield k')
      × ((k'.envs cur).env_ipc_recving ≡ true)
      × ((k'.envs cur).env_status ≡ not_runnable)
      × ((k'.envs cur).env_ipc_dstva ≡ (k.envs cur).env_ipc_dstva)
unfolding sys_ipc_recv current receiving
recv_keeps_dstva k cur is_cur' runs =
    (set_env cur (receiving 0) k, ground arith, ground arith, ground arith, ground arith)
