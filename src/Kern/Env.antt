-- ===== src/Kern/Env.antt =====
-- Environments: envid2env, env_init, env_setup_vm, env_alloc, segment_alloc, env_free,
-- env_destroy, env_run of kern/env.c, and sched_yield of kern/sched.c.
pub mod Ids
pub mod Sched
pub mod Alloc
use kludgeos.Base.{
  ℕ, zero, suc, ◌+◌, ◌-◌, ◌*◌, ◌/◌, ◌%◌, ◌^◌, Bool, true, false, not, ◌&&◌, ◌||◌, Option, none,
  some, List, [], ◌∷◌, ◌==◌, leb, if◌then◌else◌, update, has, bit_or, Code, ok, err, e_bad_env,
  e_no_free_env,
}
use kludgeos.Kern.Machine.{
  Kern, M, returns, panics, switches, spins, pure, ◌>>=◌, ◌>>◌, try, gets, modify, when, panic,
  load, store, copy_page, set_env, Env, Status, free, runnable, not_runnable, running, Trapframe,
  pgsize, utop, ustacktop, vpt, uvpt, nenv, pdx, pte_p, pte_w, pte_u, round_down, round_up,
}
use kludgeos.Kern.Page.{atomic_inc, page2pa, kaddr, pa2page, page2kva, page_alloc, page_decref}
use kludgeos.Kern.PageTable.{page_insert, page_remove}

abbrev pub is_status : Status → Status → Bool
is_status free free = true
is_status runnable runnable = true
is_status not_runnable not_runnable = true
is_status running running = true
is_status _ _ = false

-- ENVX(envid), a mask of the low LOG2NENV bits.
abbrev pub envx : ℕ → ℕ
envx envid = envid % nenv

-- `e == curenv`
abbrev pub is_cur : Option ℕ → ℕ → Bool
is_cur none e = false
is_cur (some c) e = c == e

-- With id 0 the result is `curenv`, which may be null.
unfoldable pub envid2env : ℕ → Bool → M (Code (Option ℕ))
envid2env envid checkperm k =
    let e = k.envs (envx envid) in
    elim (envid == 0) [
      | true ↦ returns (ok k.curenv) k
      | false ↦ elim (is_status e.env_status free || not (e.env_id == envid)) [
        | true ↦ returns (err e_bad_env) k
        | false ↦ elim (checkperm && not (is_cur k.curenv (envx envid))) [
          | false ↦ returns (ok (some (envx envid))) k
          | true ↦ elim k.curenv [
            | none ↦ panics
            | some c ↦ elim (e.env_parent_id == (k.envs c).env_id) [
              | true ↦ returns (ok (some (envx envid))) k
              | false ↦ returns (err e_bad_env) k
            ]
          ]
        ]
      ]
    ]

-- `n` rounds of the loop of env_init, down from `n - 1`.
unfoldable init_envs : ℕ → Kern → Kern
init_envs zero k = k
init_envs (suc i) k = init_envs i (record k {
  envs = update k.envs i (record (k.envs i) { env_status = free; env_id = 0 });
  env_free_list = i ∷ k.env_free_list;
})

unfoldable env_init : M (Unit {0})
env_init k = returns tt (init_envs nenv k)

pub env_setup_vm : ℕ → M (Code ℕ)
env_setup_vm e = try page_alloc λ p. do
  atomic_inc p
  kva ← page2kva p
  boot ← gets (λ k. k.boot_pgdir)
  copy_page kva boot
  modify (set_env e (λ v. record v { env_pgdir = kva; env_cr3 = page2pa p }))
  store kva (pdx vpt) (bit_or (bit_or (page2pa p) pte_p) pte_w)
  store kva (pdx uvpt) (bit_or (bit_or (page2pa p) pte_p) pte_u)
  pure (ok 0)

-- The id that env_alloc gives: int32_t arithmetic, so that a sum of 2^31 or more is negative.
pub next_env_id : ℕ → ℕ → ℕ
next_env_id old index =
    let raised = (old + 4096) / nenv * nenv in
    let generation = if leb (2 ^ 31) raised || raised == 0 then 4096 else raised in
    bit_or generation index

-- memset(&e->env_tf, 0, ...), and then the fields that env_alloc sets.
unfoldable pub fresh_trapframe : ℕ → Trapframe
fresh_trapframe index = record {
  tf_regs = record {
    reg_edi = 0;
    reg_esi = 0;
    reg_ebp = 0;
    reg_oesp = 0;
    reg_ebx = 0;
    reg_edx = 0;
    reg_ecx = 0;
    reg_eax = 0;
  };
  tf_es = bit_or 0x20 3;
  tf_ds = bit_or 0x20 3;
  tf_trapno = 0;
  tf_err = 0;
  tf_eip = 0;
  tf_cs = bit_or 0x18 3;
  tf_eflags = if index == 1 then bit_or (bit_or 0 0x200) 0x3000 else bit_or 0 0x200;
  tf_esp = ustacktop;
  tf_ss = bit_or 0x20 3;
}

-- The record that env_alloc leaves in `envs[index]`.
unfoldable pub fresh_env : ℕ → ℕ → Env → Env
fresh_env parent_id index e = record e {
  env_id = next_env_id e.env_id index;
  env_parent_id = parent_id;
  env_status = runnable;
  env_runs = 0;
  env_tf = fresh_trapframe index;
  env_pgfault_upcall = 0;
  env_ipc_recving = false;
}

-- LIST_REMOVE of the first entry of the free list.
abbrev unlink : List ℕ → List ℕ
unlink [] = []
unlink (e ∷ es) = es

pub env_alloc : ℕ → M (Code ℕ)
env_alloc parent_id = do
  unused ← gets (λ k. k.env_free_list)
  elim unused [
    | [] ↦ pure (err e_no_free_env)
    | e ∷ rest ↦ try (env_setup_vm e) λ _. do
      modify (set_env e (fresh_env parent_id e))
      modify (λ k. record k { env_free_list = unlink k.env_free_list })
      pure (ok e)
  ]

-- `n` pages from `v` on.
unfoldable alloc_rounds : ℕ → ℕ → ℕ → M (Unit {0})
alloc_rounds zero pgdir v = pure tt
alloc_rounds (suc n) pgdir v = page_alloc >>= λ r. elim r [
  | err e ↦ panic
  | ok p ↦ page_insert pgdir p v (bit_or (bit_or pte_u pte_w) pte_p) >>= λ _.
      alloc_rounds n pgdir ((v + pgsize) % 2 ^ 32)
]

unfoldable segment_alloc : ℕ → ℕ → ℕ → M (Unit {0})
segment_alloc e va len k =
    alloc_rounds (round_up len pgsize / pgsize) (k.envs e).env_pgdir (round_down va pgsize) k

-- for (j = i; j < i + n; j++) body(j)
abbrev pub for_range : ℕ → ℕ → (ℕ → M (Unit {0})) → M (Unit {0})
for_range zero i body = pure tt
for_range (suc n) i body = body i >>= λ _. for_range n (i + 1) body

-- The inner loop of env_free: unmaps the entry `pteno` of the table that `pdeno` names.
unfoldable pub free_entry : ℕ → ℕ → ℕ → ℕ → M (Unit {0})
free_entry pgdir table pdeno pteno = do
  pte ← load table pteno
  when (has pte pte_p) (page_remove pgdir (pdeno * 4194304 + pteno * 4096))

unfoldable pub free_table : ℕ → ℕ → M (Unit {0})
free_table pgdir pdeno = do
  pde ← load pgdir pdeno
  if has pde pte_p
      then (do
        table ← kaddr (round_down pde pgsize)
        for_range 1024 0 (free_entry pgdir table pdeno)
        store pgdir pdeno 0
        pp ← pa2page (round_down pde pgsize)
        page_decref pp)
      else pure tt

-- env_free, past its test of ENV_FREE.
unfoldable pub release_env : ℕ → M (Unit {0})
release_env e = do
  cur ← gets (λ k. k.curenv)
  when (is_cur cur e) (modify (λ k. record k { cr3 = k.boot_pgdir * pgsize }))
  pgdir ← gets (λ k. (k.envs e).env_pgdir)
  for_range (pdx utop) 0 (free_table pgdir)
  pa ← gets (λ k. (k.envs e).env_cr3)
  modify (set_env e (λ v. record v { env_pgdir = 0; env_cr3 = 0 }))
  pp ← pa2page pa
  page_decref pp
  modify (set_env e (λ v. record v { env_status = free }))
  modify (λ k. record k { env_free_list = e ∷ k.env_free_list })

unfoldable pub env_free : ℕ → M (Unit {0})
env_free e = do
  status ← gets (λ k. (k.envs e).env_status)
  when (not (is_status status free)) (release_env e)

unfoldable pub env_run : {A : Type 0} → ℕ → M A
env_run e k = switches (record k {
  curenv = some e;
  cr3 = (k.envs e).env_cr3;
  envs =
      update k.envs e
        (record (k.envs e) { env_runs = ((k.envs e).env_runs + 1) % 2 ^ 32; env_status = running });
})

-- The successor of `pre` in the round: 1 .. NENV - 1.
pub next_pre : ℕ → ℕ
next_pre pre = if not ((pre + 1) % nenv == 0) then (pre + 1) % nenv else 1

-- `n` rounds of the loop of sched_yield, and then the idle environment 0.
pub sched_loop : {A : Type 0} → ℕ → M A
sched_loop zero k = elim (is_status (k.envs 0).env_status runnable) [
  | true ↦ env_run 0 k
  | false ↦ spins k
]
sched_loop (suc n) k = elim (is_status (k.envs (next_pre k.pre)).env_status runnable) [
  | true ↦ env_run (next_pre k.pre) (record k { pre = next_pre k.pre })
  | false ↦ sched_loop n (record k { pre = next_pre k.pre })
]

pub sched_yield : {A : Type 0} → M A
sched_yield = sched_loop (nenv - 1)

unfoldable pub env_destroy : ℕ → M (Unit {0})
env_destroy e = do
  env_free e
  cur ← gets (λ k. k.curenv)
  if is_cur cur e then (do modify (λ k. record k { curenv = none }); sched_yield) else pure tt
