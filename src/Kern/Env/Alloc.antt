-- ===== src/Kern/Env/Alloc.antt =====
-- env_alloc of kern/env.c, and what a later envid2env makes of the new id and of the old one.
use kludgeos.Base.{
  ℕ, ◌+◌, ◌%◌, ◌^◌, ◌≤◌, ◌<◌, ◌≡◌, refl, ◌≢◌, Bool, false, update, some, List, ◌∷◌, ok, err,
  e_bad_env, bit_or, arith,
}
use kludgeos.Kern.Machine.{
  Kern, returns, free, runnable, nenv, pdx, vpt, uvpt, pte_p, pte_w, pte_u, set_env,
}
use kludgeos.Kern.Page.{page_alloc, atomic_inc, kaddr, page2pa, page2kva}
use kludgeos.Kern.Env.{envid2env, envx, is_status, next_env_id, env_setup_vm, env_alloc, fresh_env}
use kludgeos.Kern.Env.Ids.{next_env_id_lem}

abbrev pub stored : (ℕ → ℕ → ℕ) → ℕ → ℕ → ℕ → ℕ → ℕ → ℕ
stored w p i v = update w p (update (w p) i v)

-- The kernel after env_setup_vm of `e` with the page `p`, the first that was free.
abbrev vm_set : Kern → ℕ → ℕ → List ℕ → Kern
vm_set k e p rest = record k {
  page_free_list = rest;
  pp_ref = update k.pp_ref p ((k.pp_ref p + 1) % 2 ^ 32);
  word =
      stored
        (stored (update k.word p (k.word k.boot_pgdir)) p (pdx vpt)
          (bit_or (bit_or (page2pa p) pte_p) pte_w))
        p (pdx uvpt) (bit_or (bit_or (page2pa p) pte_p) pte_u);
  envs = update k.envs e (record (k.envs e) { env_pgdir = p; env_cr3 = page2pa p });
}

page2kva_lem : (k : Kern) (p : ℕ) → p < k.npage → k.npage ≤ 2 ^ 20 → page2kva p k ≡ returns p k
unfolding page2kva kaddr page2pa
page2kva_lem k p lt few = ground arith

env_setup_vm_lem :
    (k : Kern) (e p : ℕ) (rest : List ℕ)
    → k.page_free_list ≡ p ∷ rest
    → p < k.npage
    → k.npage ≤ 2 ^ 20
    → env_setup_vm e k ≡ returns (ok 0) (vm_set k e p rest)
unfolding env_setup_vm page_alloc atomic_inc
env_setup_vm_lem k e p rest pages lt few = ground (
  arith,
  page2kva_lem
      (record k { page_free_list = rest; pp_ref = update k.pp_ref p ((k.pp_ref p + 1) % 2 ^ 32) }) p
      lt few,
)

-- The kernel after env_alloc.
abbrev pub allocated : Kern → ℕ → List ℕ → ℕ → List ℕ → ℕ → Kern
allocated k e envs p rest parent_id =
    record (set_env e (fresh_env parent_id e) (vm_set k e p rest)) { env_free_list = envs }

pub env_alloc_runs :
    (k : Kern) (e p parent_id : ℕ) (envs rest : List ℕ)
    → k.env_free_list ≡ e ∷ envs
    → k.page_free_list ≡ p ∷ rest
    → p < k.npage
    → k.npage ≤ 2 ^ 20
    → env_alloc parent_id k ≡ returns (ok e) (allocated k e envs p rest parent_id)
unfolding env_alloc
env_alloc_runs k e p parent_id envs rest unused pages lt few =
    ground (arith, env_setup_vm_lem k e p rest pages lt few)

-- An id that envid2env accepts.
accepts :
    (k : Kern) (id e : ℕ)
    → id ≢ 0
    → envx id ≡ e
    → (k.envs e).env_id ≡ id
    → is_status (k.envs e).env_status free ≡ false
    → envid2env id false k ≡ returns (ok (some e)) k
unfolding envid2env
accepts k id e ne at own live = ground arith

-- One that it does not.
rejects :
    (k : Kern) (id e : ℕ) (checkperm : Bool)
    → id ≢ 0
    → envx id ≡ e
    → (k.envs e).env_id ≢ id
    → envid2env id checkperm k ≡ returns (err e_bad_env) k
unfolding envid2env
rejects k id e checkperm ne at other = ground arith

-- Where an environment and a page are free, env_alloc takes the first of each: the environment is
-- runnable under a new id, which envid2env finds, has `parent_id` for its parent and its own page
-- directory, and the id that this environment had before, if any, is no longer accepted.
pub env_alloc_lem :
    (k : Kern) (e p parent_id : ℕ) (envs rest : List ℕ)
    → k.env_free_list ≡ e ∷ envs
    → k.page_free_list ≡ p ∷ rest
    → p < k.npage
    → k.npage ≤ 2 ^ 20
    → e < nenv
    → (k.envs e).env_id < 2 ^ 31
    → (k' : Kern) × (env_alloc parent_id k ≡ returns (ok e) k')
      × (k'.env_free_list ≡ envs)
      × (k'.page_free_list ≡ rest)
      × ((k'.envs e).env_status ≡ runnable)
      × ((k'.envs e).env_parent_id ≡ parent_id)
      × ((k'.envs e).env_pgdir ≡ p)
      × (envid2env ((k'.envs e).env_id) false k' ≡ returns (ok (some e)) k')
      × ((c : Bool)
          → (k.envs e).env_id ≢ 0
          → envx ((k.envs e).env_id) ≡ e
          → envid2env ((k.envs e).env_id) c k' ≡ returns (err e_bad_env) k')
unfolding fresh_env
env_alloc_lem k e p parent_id envs rest unused pages lt few in_table small =
    let k' : Kern = allocated k e envs p rest parent_id in
    let id : ℕ = next_env_id ((k.envs e).env_id) e in
    let (positive, word, index, fresh) = next_env_id_lem ((k.envs e).env_id) e small in_table in
    let own : (k'.envs e).env_id ≡ id = ground arith in
    (
      k',
      env_alloc_runs k e p parent_id envs rest unused pages lt few,
      refl,
      refl,
      ground arith,
      ground arith,
      ground arith,
      accepts k' ((k'.envs e).env_id) e (ground (arith, own)) (ground (arith, own)) refl
          (ground arith),
      λ c nonzero at. rejects k' ((k.envs e).env_id) e c nonzero at (ground (arith, own)),
    )
