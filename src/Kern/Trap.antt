-- ===== src/Kern/Trap.antt =====
-- Traps: trap_dispatch, trap and page_fault_handler of kern/trap.c, for a trap from user mode; the
-- handler works on the frame in `curenv`, where trap has copied it.
--
-- Code outside this model is a parameter: `store_utf` is the processor's store of a struct UTrapframe
-- through the page tables of `curenv`, `device` the interrupt of a device (the clock, the keyboard,
-- the network card), `device_call` the system calls on devices, `user_frame` the processor's load of
-- a struct Trapframe through the page tables of `curenv`.
pub mod Upcall
mod Tests
use kludgeos.Base.{
  ℕ, ◌+◌, ◌-◌, ◌%◌, ◌^◌, Bool, true, false, not, ◌&&◌, ◌||◌, ◌==◌, ltb, leb, if◌then◌else◌, has,
  Option, none, some, Code, ok, err, errno_code,
}
use kludgeos.Kern.Machine.{
  Kern, Env, Trapframe, PushRegs, Outcome, M, returns, switches, spins, panics, pure, ◌>>=◌, ◌>>◌,
  gets, modify, panic, assert, set_env, curenv_field, running, runnable, utop, pgsize,
}
use kludgeos.Kern.PageTable.{tlb_invalidate}
use kludgeos.Kern.Env.{env_destroy, sched_yield, is_status}
use kludgeos.Kern.Syscall.{user_mem_assert, syscall}

abbrev pub uxstacktop : ℕ
uxstacktop = utop

-- sizeof(struct UTrapframe)
abbrev pub utf_size : ℕ
utf_size = 52

pub record UTrapframe : Type 0 where
  pub utf_fault_va : ℕ
  pub utf_err : ℕ
  pub utf_regs : PushRegs
  pub utf_eip : ℕ
  pub utf_eflags : ℕ
  pub utf_esp : ℕ

-- Whether the trap-time stack is the exception stack.
abbrev pub on_uxstack : ℕ → Bool
on_uxstack esp = ltb esp uxstacktop && leb (uxstacktop - pgsize) esp

-- Where the frame is put, unless the exception stack overflows.
pub utf_place : ℕ → Option ℕ
utf_place esp =
    if on_uxstack esp
    then (let utf = (esp + 2 ^ 32 - utf_size - 4) % 2 ^ 32 in
        if ltb utf (uxstacktop - pgsize) then none else some utf)
    else some (uxstacktop - utf_size)

-- A write to `*curenv`.
abbrev set_cur : (Env → Env) → M (Unit {0})
set_cur f k = elim k.curenv [ none ↦ panics | some i ↦ returns tt (set_env i f k) ]

abbrev this_env : M ℕ
this_env k = elim k.curenv [ none ↦ panics | some i ↦ returns i k ]

-- curenv->env_runs++; env_pop_tf(&curenv->env_tf)
abbrev resume : {A : Type 0} → M A
resume = set_cur (λ e. record e { env_runs = (e.env_runs + 1) % 2 ^ 32 }) >>= λ _ k. switches k

module _ (store_utf : ℕ → UTrapframe → M (Unit {0})) where
  -- From the frame at `utf` on: it is filled in, and the environment goes on at its upcall.
  unfoldable pub enter_upcall : ℕ → ℕ → M (Unit {0})
  enter_upcall fault_va utf = curenv_field (λ e. e.env_tf) >>= λ tf.
      store_utf utf (record {
        utf_fault_va = fault_va;
        utf_err = tf.tf_err;
        utf_regs = tf.tf_regs;
        utf_eip = tf.tf_eip;
        utf_eflags = tf.tf_eflags;
        utf_esp = tf.tf_esp;
      })
      >>= λ _.
          set_cur (λ e. record e {
            env_tf = record e.env_tf { tf_eip = e.env_pgfault_upcall; tf_esp = utf };
          })
          >>= λ _. curenv_field (λ e. is_status e.env_status running) >>= λ runs.
              assert runs >>= λ _. resume

  unfoldable pub page_fault_handler : ℕ → M (Unit {0})
  page_fault_handler fault_va k =
      (this_env >>= λ cur. curenv_field (λ e. e.env_tf) >>= λ tf.
      curenv_field (λ e. e.env_pgfault_upcall) >>= λ upcall. elim (has tf.tf_cs 3) [
        | false ↦ panic
        | true ↦ elim (upcall == 0) [
          | true ↦ env_destroy cur
          | false ↦ user_mem_assert cur (uxstacktop - 1) 1 0 >>= λ _.
              (elim (on_uxstack tf.tf_esp) [
                | true ↦ user_mem_assert cur tf.tf_eip 1 0
                | false ↦ pure tt
              ])
              >>= λ _. elim (utf_place tf.tf_esp) [
                | none ↦ env_destroy cur
                | some utf ↦ enter_upcall fault_va utf
              ]
        ]
      ])
        k

  -- The word that a system call leaves in %eax.
  abbrev pub as_word : Code ℕ → ℕ
  as_word (ok n) = n % 2 ^ 32
  as_word (err e) = 2 ^ 32 - errno_code e

  -- `fault_va` is what rcr2() reads. A breakpoint stays in the monitor, which is a wait for ever.
  module _ (device : ℕ → M (Unit {0})) (device_call : ℕ → M (Code ℕ))
      (user_frame : Kern → ℕ → Trapframe) where
    -- The case of a system call; its second argument is where sys_env_set_trapframe reads a frame.
    unfoldable pub dispatch_syscall : M (Unit {0})
    dispatch_syscall = curenv_field (λ e. e.env_tf) >>= λ tf.
        gets (λ k. user_frame k tf.tf_regs.reg_ecx) >>= λ frame.
        syscall device_call frame tf.tf_regs.reg_eax tf.tf_regs.reg_edx tf.tf_regs.reg_ecx
          tf.tf_regs.reg_ebx tf.tf_regs.reg_edi tf.tf_regs.reg_esi
        >>= λ r. set_cur (λ e. record e {
          env_tf = record e.env_tf { tf_regs = record e.env_tf.tf_regs { reg_eax = as_word r } };
        })

    -- The case of the clock's interrupt.
    unfoldable pub dispatch_timer : M (Unit {0})
    dispatch_timer = device 32 >>= λ _.
        curenv_field (λ e. is_status e.env_status running) >>= λ runs.
        assert runs >>= λ _. set_cur (λ e. record e { env_status = runnable }) >>= λ _. sched_yield

    unfoldable pub trap_dispatch : ℕ → M (Unit {0})
    trap_dispatch fault_va k =
        (curenv_field (λ e. e.env_tf.tf_trapno) >>= λ no.
        if no == 49
        then (gets (λ s. s.tlb_va) >>= λ va. assert (not (va == 0)) >>= λ _.
            curenv_field (λ e. e.env_pgdir) >>= λ pgdir. tlb_invalidate pgdir va)
        else if (no == 50) || (no == 32 + 19)
        then pure tt
        else if no == 14
        then page_fault_handler fault_va
        else if (no == 3) || (no == 1)
        then (λ s. spins s)
        else if no == 48
        then dispatch_syscall
        else if no == 32
        then dispatch_timer
        else if no == 32 + 7
        then pure tt
        else if (no == 32 + 11) || (no == 32 + 1)
        then device no
        else (this_env >>= λ cur. env_destroy cur))
          k

    -- What trap does once trap_dispatch has returned.
    unfoldable pub return_to_user : M (Unit {0})
    return_to_user k = elim k.curenv [
      | none ↦ panics
      | some i ↦ elim (is_status (k.envs i).env_status running) [
        | true ↦ resume k
        | false ↦ sched_yield (set_env i (λ e. record e { env_status = runnable }) k)
      ]
    ]

    -- trap, of a frame from user mode.
    unfoldable pub trap : ℕ → Trapframe → M (Unit {0})
    trap fault_va tf k = elim k.curenv [
      | none ↦ panics
      | some i ↦
          (trap_dispatch fault_va >>= λ _. return_to_user)
            (set_env i (λ e. record e { env_tf = tf }) k)
    ]
