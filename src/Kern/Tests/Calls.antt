-- ===== src/Kern/Tests/Calls.antt =====
-- The theorems on system calls at the small machine.
use kludgeos.Base.{ℕ, ◌≡◌, refl, ◌≢◌, true, ok, err, e_bad_env, e_inval, e_ipc_not_recv, arith}
use kludgeos.Kern.Machine.{Kern, returns, not_runnable}
use kludgeos.Kern.Syscall.{
  bad_va, sys_env_destroy, sys_env_set_status, sys_env_set_trapframe, sys_env_set_pgfault_upcall,
  sys_page_alloc, sys_page_map, sys_page_unmap, sys_ipc_try_send,
}
use kludgeos.Kern.Syscall.Isolation.{Stranger, Stranger-untouched}
use kludgeos.Kern.Syscall.Ipc.{Waiting, delivered, send_delivers, send_strands_receiver}
use kludgeos.Kern.Tests.{bare, frame}

third-Stranger : Stranger bare 1 0x1003
third-Stranger = record {
  current = refl;
  nonzero = omega arith;
  elsewhere = omega arith;
  no_child = omega arith;
}

child-Waiting : Waiting bare 1 0x1002 2
child-Waiting = record {
  caller = refl;
  nonzero = omega arith;
  index = refl;
  own_id = refl;
  blocked = refl;
  wants = refl;
  not_self = omega arith;
}

Stranger-untouched_example :
    (sys_env_destroy 0x1003 bare ≡ returns (err e_bad_env) bare)
    × (sys_env_set_status 0x1003 2 bare ≡ returns (err e_bad_env) bare)
    × (sys_env_set_trapframe 0x1003 2 frame bare ≡ returns (err e_bad_env) bare)
    × (sys_env_set_pgfault_upcall 0x1003 2 bare ≡ returns (err e_bad_env) bare)
    × (sys_page_alloc 0x1003 2 7 bare ≡ returns (err e_bad_env) bare)
    × (sys_page_map 0x1003 2 7 0x1003 4096 bare ≡ returns (err e_bad_env) bare)
    × ((src : ℕ) → sys_page_map src 2 0x1003 0x1003 4096 bare ≡ returns (err e_bad_env) bare)
    × (sys_page_unmap 0x1003 2 bare ≡ returns (err e_bad_env) bare)
Stranger-untouched_example = Stranger-untouched bare 1 0x1003 2 7 0x1003 4096 frame third-Stranger

send_delivers_example :
    (k' : Kern) × (sys_ipc_try_send 0x1002 42 0 0 bare ≡ returns (ok 0) k')
    × (k'.envs 2 ≡ delivered (bare.envs 2) ((bare.envs 1).env_id) 42)
    × ((e : ℕ) → e ≢ 2 → k'.envs e ≡ bare.envs e)
send_delivers_example = send_delivers bare 1 0x1002 2 42 0 child-Waiting

bad_va_odd : bad_va 4097 ≡ true
unfolding bad_va
bad_va_odd = refl

send_strands_receiver_example :
    (k' : Kern) × (sys_ipc_try_send 0x1002 42 4097 5 bare ≡ returns (err e_inval) k')
    × ((k'.envs 2).env_status ≡ not_runnable)
    × ((value' srcva' perm' : ℕ)
        → sys_ipc_try_send 0x1002 value' srcva' perm' k' ≡ returns (err e_ipc_not_recv) k')
send_strands_receiver_example =
    send_strands_receiver bare 1 0x1002 2 42 4097 5 child-Waiting (omega arith) bad_va_odd
