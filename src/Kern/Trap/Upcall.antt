-- ===== src/Kern/Trap/Upcall.antt =====
-- The page-fault upcall of kern/trap.c.
use kludgeos.Base.{
  ℕ, ◌+◌, ◌-◌, ◌%◌, ◌^◌, ◌≤◌, ◌<◌, ◌≡◌, ◌≢◌, true, Bool-cases, inl, inr, if◌then◌else◌, has, some,
  arith,
}
use kludgeos.Kern.Machine.{Kern, Env, Trapframe, M, returns, switches, running, pgsize, set_env}
use kludgeos.Kern.Syscall.{user_mem_assert}
use kludgeos.Kern.Trap.{
  UTrapframe, uxstacktop, utf_size, on_uxstack, utf_place, enter_upcall, page_fault_handler,
}

-- The frame lies inside the page of the exception stack: at its top or, where the fault came from
-- that stack, a word below the trap-time top of the stack.
utf_place-bounds :
    (esp utf : ℕ)
    → esp < 2 ^ 32
    → utf_place esp ≡ some utf
    → (uxstacktop - pgsize ≤ utf)
      × (utf + utf_size ≤ uxstacktop)
      × (utf + utf_size ≡ (if on_uxstack esp then esp - 4 else uxstacktop))
unfolding utf_place
utf_place-bounds esp utf word is = (ground (arith, is), ground (arith, is), ground (arith, is))

-- What the handler puts on the exception stack.
abbrev frame_of : ℕ → Trapframe → UTrapframe
frame_of fault_va tf = record {
  utf_fault_va = fault_va;
  utf_err = tf.tf_err;
  utf_regs = tf.tf_regs;
  utf_eip = tf.tf_eip;
  utf_eflags = tf.tf_eflags;
  utf_esp = tf.tf_esp;
}

abbrev moved : ℕ → Env → Env
moved utf e = record e { env_tf = record e.env_tf { tf_eip = e.env_pgfault_upcall; tf_esp = utf } }

abbrev counted : Env → Env
counted e = record e { env_runs = (e.env_runs + 1) % 2 ^ 32 }

-- The environment as it goes on at its upcall.
abbrev pub at_upcall : ℕ → Env → Env
at_upcall utf e = record e {
  env_tf = record e.env_tf { tf_eip = e.env_pgfault_upcall; tf_esp = utf };
  env_runs = (e.env_runs + 1) % 2 ^ 32;
}

module _ (store_utf : ℕ → UTrapframe → M (Unit {0})) (k k' : Kern) (i fault_va utf : ℕ) where
  enter_upcall_lem :
      k.curenv ≡ some i
      → (k.envs i).env_status ≡ running
      → store_utf utf (frame_of fault_va ((k.envs i).env_tf)) k ≡ returns tt k'
      → k'.curenv ≡ some i
      → k'.envs i ≡ k.envs i
      → (k'' : Kern) × (enter_upcall store_utf fault_va utf k ≡ switches k'')
        × (k''.envs i ≡ at_upcall utf (k.envs i))
        × (k''.curenv ≡ some i)
  unfolding enter_upcall
  enter_upcall_lem cur runs stored cur' same = (
    set_env i counted (set_env i (moved utf) k'),
    ground (arith, cur, runs, stored, cur', same),
    ground (arith, same),
    cur',
  )

  -- A page fault of an environment that has an upcall, where the checks of its memory pass and the
  -- exception stack has room: the environment goes on at its upcall, on the exception stack, below
  -- what the stack held, and all else of it is as it was.
  pub page_fault_handler_lem :
      k.curenv ≡ some i
      → (k.envs i).env_status ≡ running
      → has (k.envs i).env_tf.tf_cs 3 ≡ true
      → (k.envs i).env_pgfault_upcall ≢ 0
      → (k.envs i).env_tf.tf_esp < 2 ^ 32
      → user_mem_assert i (uxstacktop - 1) 1 0 k ≡ returns tt k
      → user_mem_assert i (k.envs i).env_tf.tf_eip 1 0 k ≡ returns tt k
      → utf_place (k.envs i).env_tf.tf_esp ≡ some utf
      → store_utf utf (frame_of fault_va ((k.envs i).env_tf)) k ≡ returns tt k'
      → k'.curenv ≡ some i
      → k'.envs i ≡ k.envs i
      → (k'' : Kern) × (page_fault_handler store_utf fault_va k ≡ switches k'')
        × (k''.envs i ≡ at_upcall utf (k.envs i))
        × (uxstacktop - pgsize ≤ utf)
        × (utf + utf_size ≡ (
            if on_uxstack ((k.envs i).env_tf.tf_esp)
            then (k.envs i).env_tf.tf_esp - 4
            else uxstacktop))
  unfolding page_fault_handler
  page_fault_handler_lem cur runs user upcall word stack_ok code_ok place stored cur' same =
      let (k'', run, at, _) = enter_upcall_lem cur runs stored cur' same in
      let (above, _, below) = utf_place-bounds ((k.envs i).env_tf.tf_esp) utf word place in
      (k'', handled run, at, above, below)
    where
      handled :
          {m : Kern}
          → enter_upcall store_utf fault_va utf k ≡ switches m
          → page_fault_handler store_utf fault_va k ≡ switches m
      handled run = elim (Bool-cases (on_uxstack (k.envs i).env_tf.tf_esp)) [
        | inl on ↦ ground (arith, cur, user, upcall, stack_ok, code_ok, place, run, on)
        | inr off ↦ ground (arith, cur, user, upcall, stack_ok, code_ok, place, run, off)
      ]
