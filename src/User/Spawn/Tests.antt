-- ===== src/User/Spawn/Tests.antt =====
-- The theorems on spawn at a program with two arguments, and at a parent with one shared page.
use kludgeos.Base.{ℕ, ◌*◌, ◌≤◌, ◌≢◌, ◌==◌, if◌then◌else◌, Option, none, List, [], ◌∷◌, Errno, arith}
use kludgeos.User.Fork.{Family, Target, vpd_utop, nptentries}
use kludgeos.User.Spawn.{init_stack}
use kludgeos.User.Spawn.Stack.{StackHolds, init_stack_lem}
use kludgeos.User.Spawn.Shared.{copy_shared_pages}
use kludgeos.User.Spawn.Inherited.{SharesEnd, copy_shared_pages_lem}

-- "ls", "-l"
abbrev argv : List (List ℕ)
argv = (b'l' ∷ b's' ∷ []) ∷ (b'-' ∷ b'l' ∷ []) ∷ []

no_null : (c : ℕ) → 1 ≤ c → c ≢ 0
no_null c pos e = omega arith

init_stack_lem_example : StackHolds argv (init_stack none none none argv (λ i. 0))
init_stack_lem_example =
    init_stack_lem argv (λ i. 0)
      (
        (no_null b'l' (omega arith), (no_null b's' (omega arith), tt)),
        ((no_null b'-' (omega arith), (no_null b'l' (omega arith), tt)), tt),
      )
      (omega arith, omega arith)

-- The page 5 is shared, the page 6 is private.
abbrev parent : Family
parent = record {
  own = λ p. if p == 5 then 0x7407 else if p == 6 then 0x8007 else 0;
  own_table = λ i. i == 0;
  child = λ p. 0;
}

abbrev grants : Target → ℕ → ℕ → Family → Option Errno
grants target pn perm s = none

copy_shared_pages_lem_example :
    SharesEnd grants 0 (vpd_utop * nptentries) parent (copy_shared_pages grants parent)
copy_shared_pages_lem_example = copy_shared_pages_lem grants parent
