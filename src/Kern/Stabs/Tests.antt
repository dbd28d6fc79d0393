-- ===== src/Kern/Stabs/Tests.antt =====
-- The search and debuginfo_eip on the tables of a kernel of two files.
use kludgeos.Base.{
  ℕ, ◌+◌, ◌≡◌, refl, Bool, true, not, ◌&&◌, ◌||◌, ◌==◌, ltb, if◌then◌else◌, some, [], ◌∷◌, get_or,
  holds_on, holds_on-true, arith,
}
use kludgeos.Kern.Stabs.{
  Region, Stab, matches, last_match, search_scanned, search_round, search_rounds, settle,
  search_ends, stab_binsearch,
}
use kludgeos.Kern.Stabs.Search.{IsBare, stab_binsearch_ends}
use kludgeos.Kern.Stabs.Bracket.{IsSpaced, at_end, at_next, Brackets}
use kludgeos.Kern.Stabs.Found.{stab_binsearch_finds, stab_binsearch_before}
use kludgeos.Kern.Stabs.Debug.{n_so, n_fun, n_sline, Tables, name_at, debug_search}
use kludgeos.Kern.Stabs.Function.{NamesFunction, debug_search_lem}

abbrev entry : ℕ → ℕ → ℕ → ℕ → Stab
entry strx type desc value = record {
  n_strx = strx;
  n_type = type;
  n_other = 0;
  n_desc = desc;
  n_value = value;
}

-- Two files; the second has two functions, the first with the lines 7 and 9.
abbrev kernel : ℕ → Stab
kernel i =
    get_or
      (entry 1 n_so 0 0x100
        ∷ entry 2 n_so 0 0x200
        ∷ entry 3 n_fun 0 0x200
        ∷ entry 0 n_sline 7 0
        ∷ entry 0 n_sline 9 0x20
        ∷ entry 4 n_fun 0 0x240
        ∷ entry 0 n_sline 12 0
        ∷ [])
      i (entry 0 0 0 0)

abbrev tables : Tables
tables = record {
  stabs = kernel;
  stab_count = 7;
  stabstr = λ i. if i == 7 then 0 else 0x61;
  stabstr_size = 8;
}

abbrev pair_test : ℕ → ℕ → ℕ → Bool
pair_test type i j =
    not (ltb i j && matches kernel type i && matches kernel type j)
    || ltb ((kernel i).n_value + 1) ((kernel j).n_value)

spaced :
    (type left right_end addr : ℕ)
    → holds_on (λ i. holds_on (pair_test type i) left right_end) left right_end ≡ true
    → IsSpaced kernel type left right_end addr
spaced type left right_end addr all i j low lt high is_i is_j = ground (
  arith,
  holds_on-true (pair_test type i) right_end left j
      (holds_on-true (λ k. holds_on (pair_test type k) left right_end) right_end left i all low
        (omega arith))
      (omega arith) (omega arith),
  is_i,
  is_j,
  lt,
)

bare :
    (type lo count : ℕ)
    → holds_on (λ i. not (matches kernel type i)) lo count ≡ true
    → IsBare kernel type lo (lo + count)
bare type lo count all i low high =
    ground (arith, holds_on-true (λ k. not (matches kernel type k)) count lo i all low high)

files_spaced : IsSpaced kernel n_so 0 7 0x210
unfolding holds_on
files_spaced = spaced n_so 0 7 0x210 refl

functions_spaced : IsSpaced kernel n_fun 1 7 0x210
unfolding holds_on
functions_spaced = spaced n_fun 1 7 0x210 refl

file : Brackets kernel n_so 0 7 0x210 1 7
unfolding holds_on
file = record {
  entry = record { low = omega arith; high = omega arith; match = refl };
  contains = omega arith;
  alone = bare n_so 2 5 refl;
  ends = at_end refl;
}

function : Brackets kernel n_fun 1 7 0x210 2 5
unfolding holds_on
function = record {
  entry = record { low = omega arith; high = omega arith; match = refl };
  contains = omega arith;
  alone = bare n_fun 3 2 refl;
  ends = at_next (record { low = omega arith; high = omega arith; match = refl }) (omega arith);
}

stab_binsearch_ends_example : (found : Region) × (stab_binsearch kernel n_so 0 7 0x210 ≡ some found)
stab_binsearch_ends_example = stab_binsearch_ends kernel n_so 0 7 0x210

stab_binsearch_finds_example :
    (found end : ℕ) × (stab_binsearch kernel n_fun 1 7 0x210
      ≡ some (record { left_end = found + 1; right_end = end }))
    × Brackets kernel n_fun 1 7 0x210 found end
stab_binsearch_finds_example =
    stab_binsearch_finds kernel n_fun 1 7 0x210 functions_spaced (omega arith) 2
      (record { low = omega arith; high = omega arith; match = refl }) (omega arith)

-- An address below the functions of a file: the entry of the file itself is reported.
stab_binsearch_before_example :
    stab_binsearch kernel n_fun 1 7 0x1f0 ≡ some (record { left_end = 2; right_end = 2 })
unfolding holds_on
stab_binsearch_before_example =
    stab_binsearch_before kernel n_fun 1 7 0x1f0 (spaced n_fun 1 7 0x1f0 refl) (omega arith) 2
      (record { low = omega arith; high = omega arith; match = refl }) (omega arith)
      (bare n_fun 1 1 refl)

debug_search_lem_example : NamesFunction (debug_search tables 0x210) 0x200 (some 3)
unfolding name_at
debug_search_lem_example =
    debug_search_lem tables 0x210 1 7 2 5 3 (omega arith) (omega arith, refl) files_spaced file
      (omega arith) functions_spaced function refl

-- Two functions whose starts are one address apart: the search for the first finds the second.
adjacent : ℕ → Stab
adjacent i = get_or (entry 1 n_fun 0 5 ∷ entry 2 n_fun 0 6 ∷ []) i (entry 0 0 0 0)

stab_binsearch-adjacent :
    stab_binsearch adjacent n_fun 0 2 5 ≡ some (record { left_end = 2; right_end = 2 })
unfolding adjacent stab_binsearch last_match search_scanned search_round search_rounds settle
    search_ends
stab_binsearch-adjacent = refl
