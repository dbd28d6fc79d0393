-- ===== src/Kern/Syscall.antt =====
-- The system calls: kern/syscall.c, and user_mem_assert of kern/pmap.c.
--
-- A call returns `ok r` for a result that is not negative and `err e` for `-e`. The calls that
-- only reach devices (cputs, cgetc, reboot, time_msec, nic_send, nic_recv) are `syscall`'s argument.
pub mod Isolation
pub mod Ipc
pub mod Fork
pub mod Memory
use kludgeos.Base.{
  ℕ, ◌+◌, ◌%◌, Bool, true, false, not, ◌&&◌, ◌||◌, Option, none, some, ◌==◌, ltb, leb,
  if◌then◌else◌, has, bit_or, Code, ok, err, e_no_free_env, e_inval, e_ipc_not_recv,
}
use kludgeos.Kern.Machine.{
  M, returns, panics, pure, ◌>>=◌, ◌>>◌, try, gets, modify, assert, panic, load, zero_page,
  curenv_field, set_env, Env, Status, runnable, not_runnable, running, Trapframe, pgsize, utop,
  pte_p, pte_w, pte_u,
}
use kludgeos.Kern.Page.{page2kva, page_alloc, page_free}
use kludgeos.Kern.PageTable.{page_insert, page_remove, page_lookup, user_mem_check}
use kludgeos.Kern.Env.{envid2env, env_alloc, env_destroy, sched_yield, is_status}

unfoldable pub user_mem_assert : ℕ → ℕ → ℕ → ℕ → M (Unit {0})
user_mem_assert env va len perm = do
  r ← user_mem_check env va len (bit_or perm pte_u)
  elim r [ ok _ ↦ pure tt | err _ ↦ env_destroy env ]

-- envid2env(envid, &e, checkperm), where the caller goes on to use `e`: a null one faults.
unfoldable pub find_env : ℕ → Bool → M (Code ℕ)
find_env envid checkperm =
    try (envid2env envid checkperm) λ o. elim o [ none ↦ panic | some e ↦ pure (ok e) ]

unfoldable sys_getenvid : M (Code ℕ)
sys_getenvid = do id ← curenv_field (λ e. e.env_id); pure (ok id)

pub sys_env_destroy : ℕ → M (Code ℕ)
sys_env_destroy envid = try (find_env envid true) λ e. do env_destroy e; pure (ok 0)

-- `curenv`, which faults where it is null.
pub current : M ℕ
current k = elim k.curenv [ none ↦ panics | some i ↦ returns i k ]

unfoldable sys_yield : M (Code ℕ)
sys_yield = do
  cur ← current
  status ← gets (λ k. (k.envs cur).env_status)
  assert (is_status status running)
  modify (set_env cur (λ e. record e { env_status = runnable }))
  sched_yield

-- The child's record, from its own and its parent's.
pub forked : Env → Env → Env
forked child parent = record child {
  env_status = not_runnable;
  env_tf = record (parent.env_tf) { tf_regs = record (parent.env_tf.tf_regs) { reg_eax = 0 } };
}

pub sys_exofork : M (Code ℕ)
sys_exofork = do
  cur ← current
  id ← curenv_field (λ e. e.env_id)
  r ← env_alloc id
  elim r [
    | err _ ↦ pure (err e_no_free_env)
    | ok e ↦ do
      status ← gets (λ k. (k.envs e).env_status)
      assert (is_status status runnable)
      modify (λ k. set_env e (λ v. forked v (k.envs cur)) k)
      new_id ← gets (λ k. (k.envs e).env_id)
      pure (ok new_id)
  ]

-- ENV_RUNNABLE is 1 and ENV_NOT_RUNNABLE is 2.
abbrev settable : ℕ → Option Status
settable status =
    if status == 1 then some runnable else if status == 2 then some not_runnable else none

pub sys_env_set_status : ℕ → ℕ → M (Code ℕ)
sys_env_set_status envid status = try (find_env envid true) λ e. elim (settable status) [
  | none ↦ pure (err e_inval)
  | some s ↦ do modify (set_env e (λ v. record v { env_status = s })); pure (ok 0)
]

-- `frame` is what `*tf` reads.
pub sys_env_set_trapframe : ℕ → ℕ → Trapframe → M (Code ℕ)
sys_env_set_trapframe envid tf frame = try (find_env envid true) λ e. do
  user_mem_assert e tf 0x44 0
  modify (set_env e (λ v. record v { env_tf = frame }))
  pure (ok 0)

pub sys_env_set_pgfault_upcall : ℕ → ℕ → M (Code ℕ)
sys_env_set_pgfault_upcall envid func =
    try (find_env envid true)
      λ e. do modify (set_env e (λ v. record v { env_pgfault_upcall = func })); pure (ok 0)

-- !(perm & PTE_U) || !(perm & PTE_P) || perm & ~PTE_USER
unfoldable pub bad_perm : ℕ → Bool
bad_perm perm = not (has perm pte_u) || not (has perm pte_p) || has perm 0xffff_f1f8

-- va >= UTOP || va % PGSIZE
unfoldable pub bad_va : ℕ → Bool
bad_va va = leb utop va || not (va % pgsize == 0)

pub sys_page_alloc : ℕ → ℕ → ℕ → M (Code ℕ)
sys_page_alloc envid va perm = try (find_env envid true) λ e.
    if bad_perm perm
    then pure (err e_inval)
    else if bad_va va
    then pure (err e_inval)
    else try page_alloc λ p. do
      kva ← page2kva p
      zero_page kva
      pgdir ← gets (λ k. (k.envs e).env_pgdir)
      r ← page_insert pgdir p va perm
      elim r [
        | ok _ ↦ pure (ok 0)
        | err c ↦ do ref ← gets (λ k. k.pp_ref p); assert (ref == 0); page_free p; pure (err c)
      ]

-- (!(perm & (PTE_U + PTE_P))) || perm & ~PTE_USER, which asks for one of the two bits only.
unfoldable bad_map_perm : ℕ → Bool
bad_map_perm perm = not (has perm (pte_u + pte_p)) || has perm 0xffff_f1f8

pub sys_page_map : ℕ → ℕ → ℕ → ℕ → ℕ → M (Code ℕ)
sys_page_map srcenvid srcva dstenvid dstva perm = try (find_env srcenvid true) λ es.
    try (find_env dstenvid true) λ ed.
      if bad_va srcva || bad_va dstva
      then pure (err e_inval)
      else if bad_map_perm perm
      then pure (err e_inval)
      else do
        srcdir ← gets (λ k. (k.envs es).env_pgdir)
        found ← page_lookup srcdir srcva
        elim found [
          | none ↦ pure (err e_inval)
          | some (p, (table, i)) ↦ do
            pte ← load table i
            if has perm pte_w && not (has pte pte_w) then pure (err e_inval) else do
              dstdir ← gets (λ k. (k.envs ed).env_pgdir)
              try (page_insert dstdir p dstva perm) λ _. pure (ok 0)
        ]

pub sys_page_unmap : ℕ → ℕ → M (Code ℕ)
sys_page_unmap envid va = try (find_env envid true) λ e.
    if bad_va va
    then pure (err e_inval)
    else do pgdir ← gets (λ k. (k.envs e).env_pgdir); page_remove pgdir va; pure (ok 0)

-- The writes of sys_ipc_try_send before it looks at `srcva`.
pub take_message : ℕ → ℕ → Env → Env
take_message from value e = record e {
  env_ipc_recving = false;
  env_ipc_from = from;
  env_ipc_value = value;
  env_ipc_perm = 0;
}

-- The wake-up of the receiver.
abbrev wake : ℕ → M (Unit {0})
wake target = modify (set_env target (λ e. record e { env_status = runnable }))

-- sys_ipc_try_send where `srcva` is not null.
pub send_page : ℕ → ℕ → ℕ → M (Code ℕ)
send_page target srcva perm =
    if bad_va srcva then pure (err e_inval) else if bad_perm perm then pure (err e_inval) else do
      srcdir ← curenv_field (λ e. e.env_pgdir)
      found ← page_lookup srcdir srcva
      elim found [
        | none ↦ pure (err e_inval)
        | some (p, _) ↦ do
          dstva ← gets (λ k. (k.envs target).env_ipc_dstva)
          dstdir ← gets (λ k. (k.envs target).env_pgdir)
          if dstva == 0
              then (do wake target; pure (ok 0))
              else try (page_insert dstdir p dstva perm) λ _. do
                modify (set_env target (λ e. record e { env_ipc_perm = perm }))
                wake target
                pure (ok 1)
      ]

pub sys_ipc_try_send : ℕ → ℕ → ℕ → ℕ → M (Code ℕ)
sys_ipc_try_send envid value srcva perm = try (find_env envid false) λ target. do
  recving ← gets (λ k. (k.envs target).env_ipc_recving)
  if not recving then pure (err e_ipc_not_recv) else do
    from ← curenv_field (λ e. e.env_id)
    modify (set_env target (take_message from value))
    if srcva == 0 then (do wake target; pure (ok 0)) else send_page target srcva perm

-- What sys_ipc_recv leaves in the caller's record: a null `dstva` is not stored.
pub receiving : ℕ → Env → Env
receiving dstva e = record e {
  env_ipc_dstva = if dstva == 0 then e.env_ipc_dstva else dstva;
  env_ipc_recving = true;
  env_status = not_runnable;
  env_tf = record (e.env_tf) { tf_regs = record (e.env_tf.tf_regs) { reg_eax = 0 } };
}

pub sys_ipc_recv : ℕ → M (Code ℕ)
sys_ipc_recv dstva = do
  cur ← current
  if not (dstva == 0) && bad_va dstva then pure (err e_inval) else do
    status ← gets (λ k. (k.envs cur).env_status)
    assert (is_status status running)
    modify (set_env cur (receiving dstva))
    sched_yield

-- The dispatcher. `frame` is the trap frame that SYS_env_set_trapframe reads at `a2`.
pub syscall : (ℕ → M (Code ℕ)) → Trapframe → ℕ → ℕ → ℕ → ℕ → ℕ → ℕ → M (Code ℕ)
syscall device frame number a1 a2 a3 a4 a5 =
    if number == 3
    then sys_getenvid
    else if number == 4
    then sys_env_destroy a1
    else if number == 5
    then sys_page_alloc a1 a2 a3
    else if number == 6
    then sys_page_map a1 a2 a3 a4 a5
    else if number == 7
    then sys_page_unmap a1 a2
    else if number == 8
    then sys_exofork
    else if number == 9
    then sys_env_set_status a1 a2
    else if number == 10
    then sys_env_set_trapframe a1 a2 frame
    else if number == 11
    then sys_env_set_pgfault_upcall a1 a2
    else if number == 12
    then sys_yield
    else if number == 13
    then sys_ipc_try_send a1 a2 a3 a4
    else if number == 14
    then sys_ipc_recv a1
    else if ltb number 18
    then device number
    else panic
