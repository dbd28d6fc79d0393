-- ===== src/Kern/Tests.antt =====
-- A small machine for the examples on the kernel: 16 pages, four environments, one CPU.
mod Paging
mod Processes
mod Calls
mod Memory
use kludgeos.Base.{ℕ, ◌+◌, ◌*◌, Bool, true, false, ◌==◌, ◌&&◌, if◌then◌else◌, none, some, [], ◌∷◌}
use kludgeos.Kern.Machine.{Kern, Env, Trapframe, Status, free, runnable, not_runnable, running}

abbrev pub frame : Trapframe
frame = record {
  tf_regs = record {
    reg_edi = 0;
    reg_esi = 0;
    reg_ebp = 0;
    reg_oesp = 0;
    reg_ebx = 0;
    reg_edx = 0;
    reg_ecx = 0;
    reg_eax = 13;
  };
  tf_es = 0;
  tf_ds = 0;
  tf_trapno = 48;
  tf_err = 0;
  tf_eip = 0x80_0020;
  tf_cs = 0;
  tf_eflags = 512;
  tf_esp = 0;
  tf_ss = 0;
}

abbrev process : ℕ → ℕ → Status → Bool → Env
process id parent status receiving = record {
  env_tf = frame;
  env_id = id;
  env_parent_id = parent;
  env_status = status;
  env_runs = 1;
  env_pgdir = 1;
  env_cr3 = 4096;
  env_pgfault_upcall = 0;
  env_ipc_recving = receiving;
  env_ipc_dstva = 0;
  env_ipc_value = 0;
  env_ipc_from = 0;
  env_ipc_perm = 0;
}

-- Environment 1 runs, 2 is its child and waits for a message, 3 is a stranger, 4 has ended.
abbrev processes : ℕ → Env
processes i =
    if i == 1
    then process 0x1001 0 running false
    else if i == 2
    then process 0x1002 0x1001 not_runnable true
    else if i == 3
    then process 0x1003 0 runnable false
    else if i == 4
    then process 0x1004 0 free false
    else process 0 0 free false

-- The directory in page 1 has the table in page 2 for the first 4 MB; `entry` is the table's
-- entry for the address 4096.
abbrev tables : ℕ → ℕ → ℕ → ℕ
tables entry p i =
    if (p == 1) && (i == 0) then 2 * 4096 + 7 else if (p == 2) && (i == 1) then entry else 0

abbrev machine : ℕ → Kern
machine entry = record {
  npage = 16;
  pp_ref = λ p. if p == 3 then 1 else 0;
  page_free_list = 5 ∷ 6 ∷ [];
  word = tables entry;
  boot_pgdir = 0;
  booted = true;
  ismp = false;
  tlb = [];
  tlb_va = 0;
  cr3 = 4096;
  user_mem_check_addr = 0;
  envs = processes;
  env_free_list = 4 ∷ 5 ∷ [];
  curenv = some 1;
  pre = 0;
}

-- Nothing at 4096, and page 3 there.
abbrev pub bare : Kern
bare = machine 0

abbrev pub full : Kern
full = machine (3 * 4096 + 7)
