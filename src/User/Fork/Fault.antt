-- ===== src/User/Fork/Fault.antt =====
-- pgfault of lib/fork.c, the handler of page faults of a process that has forked.
--
-- `grants` is the frame that sys_page_alloc gives, if it gives one, and `refuses` whether the kernel
-- refuses the last call.
pub mod Private
use kludgeos.Base.{
  ℕ, ◌*◌, ◌/◌, ◌^◌, Bool, true, false, not, ◌&&◌, if◌then◌else◌, update, has, Option, none, some,
}
use kludgeos.User.Fork.{with_perm, pte_cow}

abbrev pub fec_wr : ℕ
fec_wr = 2

-- The page of PFTEMP.
abbrev pub pftemp : ℕ
pftemp = 0x7ff

-- PTE_W | PTE_U | PTE_P
abbrev pub perm_w : ℕ
perm_w = 7

-- The entries of the process, and the words of the frames of memory.
pub record Memory : Type 0 where
  pub entry : ℕ → ℕ
  pub word : ℕ → ℕ → ℕ

abbrev pub frame_at : Memory → ℕ → ℕ
frame_at m n = m.entry n / 2 ^ 12

pub data Handled : Type 0 where
  handled : Memory → Handled
  dies : Handled

-- The frame is mapped at PFTEMP, and is zero.
pub with_temp : ℕ → Memory → Memory
with_temp frame m = record {
  entry = update m.entry pftemp (with_perm (frame * 2 ^ 12) perm_w);
  word = update m.word frame (λ _. 0);
}

-- memmove(PFTEMP, addr, PGSIZE)
pub copy_to_temp : ℕ → Memory → Memory
copy_to_temp n m = record m { word = update m.word (frame_at m pftemp) (m.word (frame_at m n)) }

module _ (grants : Memory → Option ℕ) (refuses : Memory → Bool) where
  unfoldable pub pgfault : ℕ → ℕ → Memory → Handled
  pgfault fault_va err m =
      let n = fault_va / 2 ^ 12 in
      elim (has err fec_wr && has (m.entry n) pte_cow) [
        | false ↦ dies
        | true ↦ elim (grants m) [
          | none ↦ dies
          | some frame ↦
              let m' = copy_to_temp n (with_temp frame m) in
              elim (refuses m') [
                | true ↦ dies
                | false ↦
                    handled
                      (record m' { entry = update m'.entry n (with_perm (m'.entry pftemp) perm_w) })
              ]
        ]
      ]
