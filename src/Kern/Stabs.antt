-- ===== src/Kern/Stabs.antt =====
-- The search of the debugging tables in kern/kdebug.c: stab_binsearch.
pub mod Search
pub mod Bracket
pub mod Found
pub mod Debug
pub mod Unique
pub mod Function
mod Tests
use kludgeos.Base.{
  ℕ, zero, suc, ◌+◌, ◌-◌, ◌*◌, ◌/◌, ◌%◌, ◌^◌, Bool, true, false, ◌==◌, ltb, if◌then◌else◌, Option,
  none, some,
}

pub record Stab : Type 0 where
  pub n_strx : ℕ
  pub n_type : ℕ
  pub n_other : ℕ
  pub n_desc : ℕ
  pub n_value : ℕ

-- The locals of stab_binsearch. The ints `r` and *region_right may be -1 and are kept as the index
-- behind them, `r + 1` and `*region_right + 1`.
pub record Bounds : Type 0 where
  pub l : ℕ
  pub r_end : ℕ
  pub region_left : ℕ
  pub region_end : ℕ
  pub any_matches : Bool
  pub addr : ℕ

-- What the search leaves: `*region_left + 1` and `*region_right + 1`.
pub record Region : Type 0 where
  pub left_end : ℕ
  pub right_end : ℕ

abbrev pub search_start : ℕ → ℕ → ℕ → Bounds
search_start left right_end addr = record {
  l = left;
  r_end = right_end;
  region_left = left;
  region_end = right_end;
  any_matches = false;
  addr = addr;
}

module _ (stabs : ℕ → Stab) (type : ℕ) where
  -- `stabs[m].n_type == type`
  abbrev pub matches : ℕ → Bool
  matches m = (stabs m).n_type == type

  -- while (m >= l && stabs[m].n_type != type) m--; from `m = l + count - 1`; `none` is `m < l`.
  unfoldable pub last_match : ℕ → ℕ → Option ℕ
  last_match l zero = none
  last_match l (suc count) =
      let rest = last_match l count in if matches (l + count) then some (l + count) else rest

  -- The rest of a round, when the scan down from `true_m` has ended.
  unfoldable pub search_scanned : Bounds → ℕ → Option ℕ → Bounds
  search_scanned b true_m none = record b { l = true_m + 1 }
  search_scanned b true_m (some m) =
      if ltb ((stabs m).n_value) b.addr
      then record b { any_matches = true; region_left = m; l = true_m + 1 }
      else if ltb b.addr ((stabs m).n_value)
      then record b { any_matches = true; region_end = m; r_end = m }
      else record b { any_matches = true; region_left = m; l = m; addr = (b.addr + 1) % 2 ^ 32 }

  -- A round of the loop, for `l <= r`.
  unfoldable pub search_round : Bounds → Bounds
  search_round b =
      let true_m = (b.l + (b.r_end - 1)) / 2 in
      search_scanned b true_m (last_match b.l (true_m + 1 - b.l))

  -- while (l <= r), with at most `fuel` rounds.
  unfoldable pub search_rounds : ℕ → Bounds → Option Bounds
  search_rounds zero b = if ltb b.l b.r_end then none else some b
  search_rounds (suc fuel) b =
      let rest = search_rounds fuel (search_round b) in if ltb b.l b.r_end then rest else some b

  -- for (l = left + count; l > left && stabs[l].n_type != type; l--);
  unfoldable pub settle : ℕ → ℕ → ℕ
  settle left zero = left
  settle left (suc count) =
      let rest = settle left count in if matches (left + suc count) then left + suc count else rest

  -- What follows the loop.
  unfoldable pub search_ends : Bounds → Region
  search_ends b =
      if b.any_matches
      then if ltb b.region_left b.region_end
        then record {
          left_end = settle b.region_left (b.region_end - 1 - b.region_left) + 1;
          right_end = b.region_end;
        }
        else record { left_end = b.region_end; right_end = b.region_end }
      else record { left_end = b.region_left + 1; right_end = b.region_left }

  -- The region from `left` on and below `right_end`. Two rounds for each entry are enough.
  unfoldable pub stab_binsearch : ℕ → ℕ → ℕ → Option Region
  stab_binsearch left right_end addr =
      elim (search_rounds (2 * right_end + 2) (search_start left right_end addr)) [
        | none ↦ none
        | some b ↦ some (search_ends b)
      ]
