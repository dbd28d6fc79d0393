-- ===== src/Kern/Trap/Tests.antt =====
-- The page-fault upcall at a small machine.
use kludgeos.Base.{ℕ, ◌+◌, ◌*◌, ◌-◌, ◌≤◌, ◌≡◌, refl, ◌==◌, ◌&&◌, if◌then◌else◌, some, arith}
use kludgeos.Kern.Machine.{Kern, Env, M, returns, switches, running, pgsize}
use kludgeos.Kern.PageTable.{user_mem_check, check_loop, pgdir_walk, entry_of}
use kludgeos.Kern.Page.{kaddr}
use kludgeos.Kern.Syscall.{user_mem_assert}
use kludgeos.Kern.Trap.{UTrapframe, uxstacktop, utf_size, utf_place, page_fault_handler}
use kludgeos.Kern.Trap.Upcall.{at_upcall, page_fault_handler_lem}
use kludgeos.Kern.Tests.{bare, frame}

-- The code is at 4096; the page table in page 2 serves it and the exception stack.
abbrev words : ℕ → ℕ → ℕ
words p i =
    if (p == 1) && (i == 0)
    then 2 * 4096 + 7
    else if (p == 1) && (i == 954)
    then 2 * 4096 + 7
    else if (p == 2) && (i == 1)
    then 3 * 4096 + 7
    else if (p == 2) && (i == 1023)
    then 4 * 4096 + 7
    else 0

abbrev faulty : Env
faulty = record (bare.envs 1) {
  env_tf = record frame { tf_cs = 27; tf_eip = 4128; tf_esp = 0xeebf_dff0 };
  env_status = running;
  env_pgfault_upcall = 4200;
}

abbrev faulting : Kern
faulting = record bare { word = words; envs = λ i. faulty }

-- The stores are left out of the example's memory.
abbrev no_store : ℕ → UTrapframe → M (Unit {0})
no_store utf f k = returns tt k

stack_fine : user_mem_assert 1 (uxstacktop - 1) 1 0 faulting ≡ returns tt faulting
unfolding user_mem_assert user_mem_check check_loop pgdir_walk entry_of kaddr
stack_fine = refl

code_fine : user_mem_assert 1 4128 1 0 faulting ≡ returns tt faulting
unfolding user_mem_assert user_mem_check check_loop pgdir_walk entry_of kaddr
code_fine = refl

stack_top : utf_place 0xeebf_dff0 ≡ some (uxstacktop - 52)
unfolding utf_place
stack_top = refl

page_fault_handler_lem_example :
    (k'' : Kern) × (page_fault_handler no_store 8192 faulting ≡ switches k'')
    × (k''.envs 1 ≡ at_upcall (uxstacktop - 52) faulty)
    × (uxstacktop - pgsize ≤ uxstacktop - 52)
    × (uxstacktop - 52 + utf_size ≡ uxstacktop)
page_fault_handler_lem_example =
    page_fault_handler_lem no_store faulting faulting 1 8192 (uxstacktop - 52) refl refl refl
      (λ e. cc) (omega arith) stack_fine code_fine stack_top refl refl refl
