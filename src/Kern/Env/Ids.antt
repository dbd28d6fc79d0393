-- ===== src/Kern/Env/Ids.antt =====
-- Environment ids: what env_alloc of kern/env.c gives, and what envid2env accepts.
use kludgeos.Base.{
  ℕ, zero, suc, ◌+◌, ◌*◌, ◌/◌, ◌^◌, ◌<◌, ◌≡◌, ◌∙◌, ap, ◌≢◌, ◌⊎◌, Bool, true, false, Option, none,
  some, ok, bit_or, bit_or_step, bit_or-zero, arith,
}
use native.Mathlib.Nat.{pow-suc}
use kludgeos.Kern.Machine.{Kern, returns, free, nenv}
use kludgeos.Kern.Env.{envid2env, envx, is_status, next_env_id}

-- `(q << k) | r` for a field `r` of k bits.
or_field : (k q r : ℕ) → r < 2 ^ k → bit_or (q * 2 ^ k) r ≡ q * 2 ^ k + r
or_field zero q r small =
    let none : r ≡ 0 = omega arith in ap (bit_or (q * 1)) none ∙ bit_or-zero (q * 1) ∙ omega arith
or_field (suc k) q r small =
    let halved : q * 2 ^ suc k ≡ 2 * (q * 2 ^ k) =
      omega (arith, ap (λ (t : ℕ). q * t) (pow-suc 2 k)) in
    let power : 2 ^ suc k ≡ 2 ^ k * 2 = pow-suc 2 k in
    ground (arith, halved, bit_or_step (q * 2 ^ suc k) r, or_field k q (r / 2) (omega arith))

or_index : (g index : ℕ) → index < 1024 → bit_or (g * 1024) index ≡ g * 1024 + index
or_index g index small = or_field 10 g index small

-- The id that env_alloc gives is positive as an int, its index is the environment's, and it is not
-- the id that the environment had before.
pub next_env_id_lem :
    (old index : ℕ)
    → old < 2 ^ 31
    → index < nenv
    → (0 < next_env_id old index)
      × (next_env_id old index < 2 ^ 31)
      × (envx (next_env_id old index) ≡ index)
      × (next_env_id old index ≢ old)
unfolding next_env_id
next_env_id_lem old index small in_table =
    ground (arith, or_index ((old + 4096) / 1024) index in_table, or_index 4 index in_table)

-- An environment that is allowed to the caller: `curenv` itself, or a child of it.
abbrev IsAllowed : Kern → ℕ → Option ℕ → Type 0
IsAllowed k e none = ⊥
IsAllowed k e (some c) = (c ≡ e) ⊎ ((k.envs e).env_parent_id ≡ (k.envs c).env_id)

-- What envid2env may return for an id.
abbrev pub Found : Kern → ℕ → Bool → Option ℕ → Type 0
Found k envid checkperm o =
    ((envid ≡ 0) × (o ≡ k.curenv))
    ⊎ ((envid ≢ 0)
        × (o ≡ some (envx envid))
        × ((k.envs (envx envid)).env_id ≡ envid)
        × (is_status (k.envs (envx envid)).env_status free ≡ false)
        × ((checkperm ≡ true) → IsAllowed k (envx envid) k.curenv))

-- envid2env changes nothing, and what it returns is `curenv` for the id 0, and else the environment
-- that has this id and is not free, with checkperm only if it is `curenv` or a child of it.
envid2env_sound :
    (k k' : Kern) (envid : ℕ) (checkperm : Bool) (o : Option ℕ)
    → envid2env envid checkperm k ≡ returns (ok o) k'
    → (k' ≡ k) × Found k envid checkperm o
unfolding envid2env
envid2env_sound k k' envid checkperm o e = ground arith
