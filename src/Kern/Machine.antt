-- ===== src/Kern/Machine.antt =====
-- The state that the kernel's functions share, and the monad that they run in: inc/env.h,
-- inc/trap.h, inc/memlayout.h, inc/mmu.h and the globals of kern/pmap.c, kern/env.c, kern/sched.c.
--
-- A `struct Page *` is the page's number, a `struct Env *` its index in `envs`, and the kernel
-- virtual address of a page is that page's number too (the kernel maps all physical memory). The
-- contents of physical memory are words, `word page index`. Locks are not state: one CPU runs.
use kludgeos.Base.{
  ℕ, ◌+◌, ◌-◌, ◌*◌, ◌/◌, ◌%◌, ◌^◌, Bool, true, false, Option, none, some, List, update, Code, ok,
  err,
}

abbrev pub pgsize : ℕ
pgsize = 4096

abbrev npdentries : ℕ
npdentries = 1024

abbrev pub ulim : ℕ
ulim = 0xef800000

abbrev pub utop : ℕ
utop = 0xeec00000

abbrev pub ustacktop : ℕ
ustacktop = utop - 2 * pgsize

abbrev pub vpt : ℕ
vpt = 0xefc00000

abbrev pub uvpt : ℕ
uvpt = 0xef400000

abbrev pub nenv : ℕ
nenv = 1024

abbrev pub pte_p : ℕ
pte_p = 1

abbrev pub pte_w : ℕ
pte_w = 2

abbrev pub pte_u : ℕ
pte_u = 4

abbrev pte_user : ℕ
pte_user = 0xe07

-- PDX, PTX and PPN of a linear address.
abbrev pub pdx : ℕ → ℕ
pdx la = la / 4194304 % 1024

abbrev pub ptx : ℕ → ℕ
ptx la = la / 4096 % 1024

abbrev pub ppn : ℕ → ℕ
ppn la = la / 4096

abbrev pub round_down : ℕ → ℕ → ℕ
round_down a n = a - a % n

-- On 32 bits.
abbrev pub round_up : ℕ → ℕ → ℕ
round_up a n = round_down ((a + n - 1) % 2 ^ 32) n

pub record PushRegs : Type 0 where
  pub reg_edi : ℕ
  pub reg_esi : ℕ
  pub reg_ebp : ℕ
  pub reg_oesp : ℕ
  pub reg_ebx : ℕ
  pub reg_edx : ℕ
  pub reg_ecx : ℕ
  pub reg_eax : ℕ

pub record Trapframe : Type 0 where
  pub tf_regs : PushRegs
  pub tf_es : ℕ
  pub tf_ds : ℕ
  pub tf_trapno : ℕ
  pub tf_err : ℕ
  pub tf_eip : ℕ
  pub tf_cs : ℕ
  pub tf_eflags : ℕ
  pub tf_esp : ℕ
  pub tf_ss : ℕ

pub data Status : Type 0 where
  free runnable not_runnable running : Status

pub record Env : Type 0 where
  pub env_tf : Trapframe
  pub env_id : ℕ
  pub env_parent_id : ℕ
  pub env_status : Status
  pub env_runs : ℕ
  pub env_pgdir : ℕ
  pub env_cr3 : ℕ
  pub env_pgfault_upcall : ℕ
  pub env_ipc_recving : Bool
  pub env_ipc_dstva : ℕ
  pub env_ipc_value : ℕ
  pub env_ipc_from : ℕ
  pub env_ipc_perm : ℕ

-- What the kernel asks of the TLBs.
pub data Tlb : Type 0 where
  invlpg : ℕ → Tlb
  ipi_broadcast : Tlb

pub record Kern : Type 0 where
  pub npage : ℕ
  pub pp_ref : ℕ → ℕ
  pub page_free_list : List ℕ
  pub word : ℕ → ℕ → ℕ
  pub boot_pgdir : ℕ
  pub booted : Bool
  pub ismp : Bool
  pub tlb : List Tlb
  pub tlb_va : ℕ
  pub cr3 : ℕ
  pub user_mem_check_addr : ℕ
  pub envs : ℕ → Env
  pub env_free_list : List ℕ
  pub curenv : Option ℕ
  pub pre : ℕ

-- How a kernel function ends: it returns; it leaves the kernel by `iret` into `curenv`; it waits
-- for ever for another CPU; it panics (a failed assertion or a fault of the kernel is a panic).
pub data Outcome (A : Type 0) : Type 0 where
  returns : A → Kern → Outcome A
  switches : Kern → Outcome A
  spins : Kern → Outcome A
  panics : Outcome A

abbrev pub M : Type 0 → Type 0
M A = Kern → Outcome A

abbrev pub pure : {A : Type 0} → A → M A
pure a k = returns a k

infixl 5 ◌>>=◌ ◌>>◌
abbrev pub ◌>>=◌ : {A B : Type 0} → M A → (A → M B) → M B
◌>>=◌ m f k = elim (m k) [
  | returns a k' ↦ f a k'
  | switches k' ↦ switches k'
  | spins k' ↦ spins k'
  | panics ↦ panics
]

abbrev pub ◌>>◌ : {B : Type 0} → M (Unit {0}) → M B → M B
m >> n = m >>= λ _. n

-- `if ((r = m) < 0) return r;`
abbrev pub try : {A B : Type 0} → M (Code A) → (A → M (Code B)) → M (Code B)
try m f = m >>= λ r. elim r [ ok a ↦ f a | err e ↦ pure (err e) ]

abbrev pub gets : {A : Type 0} → (Kern → A) → M A
gets f k = returns (f k) k

abbrev pub modify : (Kern → Kern) → M (Unit {0})
modify f k = returns tt (f k)

abbrev pub panic : {A : Type 0} → M A
panic k = panics

abbrev pub assert : Bool → M (Unit {0})
assert true k = returns tt k
assert false k = panics

abbrev pub when : Bool → M (Unit {0}) → M (Unit {0})
when b m k = elim b [ true ↦ m k | false ↦ returns tt k ]

abbrev pub load : ℕ → ℕ → M ℕ
load p i k = returns (k.word p i) k

abbrev pub store : ℕ → ℕ → ℕ → M (Unit {0})
store p i v k = returns tt (record k { word = update k.word p (update (k.word p) i v) })

-- memset(page2kva(p), 0, PGSIZE)
abbrev pub zero_page : ℕ → M (Unit {0})
zero_page p k = returns tt (record k { word = update k.word p (λ _. 0) })

-- memmove(page2kva(p), q, PGSIZE)
abbrev pub copy_page : ℕ → ℕ → M (Unit {0})
copy_page p q k = returns tt (record k { word = update k.word p (k.word q) })

-- A write to one environment's record.
abbrev pub set_env : ℕ → (Env → Env) → Kern → Kern
set_env i f k = record k { envs = update k.envs i (f (k.envs i)) }

-- A read through `curenv`, which faults where it is null.
abbrev pub curenv_field : {A : Type 0} → (Env → A) → M A
curenv_field f k = elim k.curenv [ none ↦ panics | some i ↦ returns (f (k.envs i)) k ]
