-- ===== src/User/Fork/Fault/Private.antt =====
-- After a page fault of lib/fork.c the process has a copy of its own.
use kludgeos.Base.{
  ℕ, ◌+◌, ◌*◌, ◌/◌, ◌^◌, ◌≡◌, ◌≢◌, Bool, true, false, update, has, Option, some, arith,
}
use kludgeos.User.Fork.{with_perm, pte_cow}
use kludgeos.User.Fork.Fault.{
  Memory, handled, frame_at, with_temp, copy_to_temp, pgfault, fec_wr, pftemp, perm_w,
}

module _ (grants : Memory → Option ℕ) (refuses : Memory → Bool) (fault_va err frame : ℕ)
    (m : Memory) where
  -- A write fault on a copy-on-write page, where the kernel gives a frame that the page does not lie
  -- in: the page becomes writable, in that frame, with the words that it had, and no other frame
  -- changes, nor any entry but that of PFTEMP.
  pub pgfault_lem :
      has err fec_wr ≡ true
      → has (m.entry (fault_va / 2 ^ 12)) pte_cow ≡ true
      → grants m ≡ some frame
      → refuses (copy_to_temp (fault_va / 2 ^ 12) (with_temp frame m)) ≡ false
      → fault_va / 2 ^ 12 ≢ pftemp
      → frame_at m (fault_va / 2 ^ 12) ≢ frame
      → (m' : Memory) × (pgfault grants refuses fault_va err m ≡ handled m')
        × (m'.entry (fault_va / 2 ^ 12) ≡ frame * 2 ^ 12 + perm_w)
        × ((w : ℕ) → m'.word frame w ≡ m.word (frame_at m (fault_va / 2 ^ 12)) w)
        × ((g w : ℕ) → (g ≢ frame) → m'.word g w ≡ m.word g w)
        × ((p : ℕ) → (p ≢ fault_va / 2 ^ 12) → (p ≢ pftemp) → m'.entry p ≡ m.entry p)
  unfolding pgfault copy_to_temp with_temp
  pgfault_lem write cow given taken apart fresh = (
    record copied {
      entry = update copied.entry (fault_va / 2 ^ 12) (with_perm (copied.entry pftemp) perm_w);
    },
    ground (arith, write, cow, given, taken),
    ground (arith, apart),
    λ w. ground (arith, fresh, apart, back),
    λ g w other. ground (arith, other, back),
    λ p other not_temp. ground (arith, other, not_temp),
  )
    where
      copied : Memory
      copied = copy_to_temp (fault_va / 2 ^ 12) (with_temp frame m)

      back : (frame * 2 ^ 12 / 2 ^ 12 * 2 ^ 12 + perm_w) / 2 ^ 12 ≡ frame
      back = omega arith
