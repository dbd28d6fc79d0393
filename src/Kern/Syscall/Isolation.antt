-- ===== src/Kern/Syscall/Isolation.antt =====
-- Which environments a system call of kern/syscall.c may touch, and what mapping it may give.
use kludgeos.Base.{
  ℕ, zero, suc, ◌≡◌, ◌≢◌, ◌⊎◌, inl, inr, true, not, ◌||◌, ◌==◌, Bool-cases, some, Code, ok, err,
  e_bad_env, arith,
}
use kludgeos.Kern.Machine.{Kern, M, returns, try, free, Trapframe}
use kludgeos.Kern.Env.{envid2env, envx, is_status, is_cur}
use kludgeos.Kern.Syscall.{
  find_env, sys_env_destroy, sys_env_set_status, sys_env_set_trapframe, sys_env_set_pgfault_upcall,
  sys_page_alloc, sys_page_map, sys_page_unmap,
}

-- The environment of this id is neither the caller `cur` nor a child of it.
pub record Stranger (k : Kern) (cur envid : ℕ) : Type 0 where
  pub current : k.curenv ≡ some cur
  pub nonzero : envid ≢ 0
  pub elsewhere : envx envid ≢ cur
  pub no_child : (k.envs (envx envid)).env_parent_id ≢ (k.envs cur).env_id

find_env-Stranger :
    (k : Kern) (cur envid : ℕ)
    → Stranger k cur envid
    → find_env envid true k ≡ returns (err e_bad_env) k
unfolding find_env envid2env
find_env-Stranger k cur envid v = ground (arith, v.current, v.nonzero, v.elsewhere, v.no_child)

-- A call that begins by looking its environment up fails with that.
refused :
    {A B : Type 0} (m : M (Code A)) (f : A → M (Code B)) (k : Kern)
    → m k ≡ returns (err e_bad_env) k
    → try m f k ≡ returns (err e_bad_env) k
refused m f k e = ground arith

-- An id of an environment that the caller may act on, or of none: the lookup finds it, or fails.
abbrev Answers : Kern → ℕ → Type 0
Answers k envid =
    ((e : ℕ) × (find_env envid true k ≡ returns (ok e) k))
    ⊎ (find_env envid true k ≡ returns (err e_bad_env) k)

zero-Answers : (k : Kern) (cur : ℕ) → k.curenv ≡ some cur → Answers k 0
unfolding find_env envid2env
zero-Answers k cur e = inl (cur, ground (arith, e))

nonzero-Answers : (k : Kern) (cur envid : ℕ) → k.curenv ≡ some cur → envid ≢ 0 → Answers k envid
unfolding find_env envid2env
nonzero-Answers k cur envid e ne =
    let v = k.envs (envx envid) in
    elim (Bool-cases (is_status v.env_status free || not (v.env_id == envid))) [
      | inl bad ↦ inr (ground (arith, ne, bad))
      | inr good ↦ elim (Bool-cases (is_cur k.curenv (envx envid))) [
        | inl self ↦ inl (envx envid, ground (arith, ne, good, self))
        | inr other ↦ elim (Bool-cases (v.env_parent_id == (k.envs cur).env_id)) [
          | inl child ↦ inl (envx envid, ground (arith, ne, good, other, e, child))
          | inr not_child ↦ inr (ground (arith, ne, good, other, e, not_child))
        ]
      ]
    ]

id-Answers : (k : Kern) (cur envid : ℕ) → k.curenv ≡ some cur → Answers k envid
id-Answers k cur zero e = zero-Answers k cur e
id-Answers k cur (suc i) e = nonzero-Answers k cur (suc i) e (omega arith)

-- Whatever the source is, a stranger as the destination is refused.
refused_second :
    {B : Type 0} (k : Kern) (src dst : ℕ) (f : ℕ → ℕ → M (Code B))
    → Answers k src
    → find_env dst true k ≡ returns (err e_bad_env) k
    → try (find_env src true) (λ es. try (find_env dst true) (f es)) k ≡ returns (err e_bad_env) k
refused_second k src dst f (inl (es, found)) e = ground arith
refused_second k src dst f (inr missing) e = ground arith

-- An environment that is neither the caller nor its child cannot be destroyed, have its status, its
-- registers or its page-fault handler set, or have pages allocated, mapped from or unmapped by the
-- caller, and nothing can be mapped into it, whatever the source of the mapping is: each of these
-- calls returns -E_BAD_ENV and changes nothing.
pub Stranger-untouched :
    (k : Kern) (cur envid a b c d : ℕ) (frame : Trapframe)
    → Stranger k cur envid
    → (sys_env_destroy envid k ≡ returns (err e_bad_env) k)
      × (sys_env_set_status envid a k ≡ returns (err e_bad_env) k)
      × (sys_env_set_trapframe envid a frame k ≡ returns (err e_bad_env) k)
      × (sys_env_set_pgfault_upcall envid a k ≡ returns (err e_bad_env) k)
      × (sys_page_alloc envid a b k ≡ returns (err e_bad_env) k)
      × (sys_page_map envid a b c d k ≡ returns (err e_bad_env) k)
      × ((src : ℕ) → sys_page_map src a envid c d k ≡ returns (err e_bad_env) k)
      × (sys_page_unmap envid a k ≡ returns (err e_bad_env) k)
unfolding sys_env_destroy sys_env_set_status sys_env_set_trapframe sys_env_set_pgfault_upcall
    sys_page_alloc sys_page_map sys_page_unmap
Stranger-untouched k cur envid a b c d frame v =
    let e = find_env-Stranger k cur envid v in
    (
      refused (find_env envid true) _ k e,
      refused (find_env envid true) _ k e,
      refused (find_env envid true) _ k e,
      refused (find_env envid true) _ k e,
      refused (find_env envid true) _ k e,
      refused (find_env envid true) _ k e,
      λ src. refused_second k src envid _ (id-Answers k cur src v.current) e,
      refused (find_env envid true) _ k e,
    )
