-- ===== src/Fs/Dir/Walk.antt =====
-- The loop of walk_path of fs/fs.c ends on every path.
use kludgeos.Base.{ℕ, zero, suc, ◌≤◌, ◌≡◌, refl, length, List, [], ◌∷◌, Option, none, some, arith}
use kludgeos.Fs.Disk.{Fs, s_root}
use kludgeos.Fs.Dir.{skip_slash, path_element, behind, walk_element, walk_rounds, walk_path}

skip_slash-length : (path : List ℕ) → length (skip_slash path) ≤ length path
unfolding skip_slash
skip_slash-length [] = omega arith
skip_slash-length (c ∷ path) = ground (arith, skip_slash-length path)

path_element-length : (path : List ℕ) → length (path_element path).1 ≤ length path
unfolding path_element
path_element-length [] = omega arith
path_element-length (c ∷ path) = ground (arith, path_element-length path)

-- A round takes a byte at least, also of a path that begins with a slash.
behind-length : (c : ℕ) (path : List ℕ) → length (behind (c ∷ path)) ≤ length path
unfolding behind path_element skip_slash
behind-length c path = ground (
  arith,
  skip_slash-length path,
  skip_slash-length (path_element path).1,
  path_element-length path,
)

walk_rounds_ends :
    (n k : ℕ) (path : List ℕ) (dir : Option ℕ) (f : ℕ) (s : Fs)
    → length path ≤ n
    → length path ≤ k
    → walk_rounds n path dir f s ≡ walk_rounds k path dir f s
unfolding walk_rounds
walk_rounds_ends n k [] dir f s p q = refl
walk_rounds_ends zero k (c ∷ path) dir f s p q = absurd (omega arith)
walk_rounds_ends (suc n) zero (c ∷ path) dir f s p q = absurd (omega arith)
walk_rounds_ends (suc n) (suc k) (c ∷ path) dir f s p q = λ i.
    walk_element (path_element (c ∷ path)).0 (behind (c ∷ path)) f
      (λ g t.
        walk_rounds_ends n k (behind (c ∷ path)) (some f) g t (omega (arith, behind-length c path))
          (omega (arith, behind-length c path)) i)
      s

-- The loop of walk_path ends on every path: more rounds than the path has bytes change nothing, in
-- any state, so that no result comes from the bound on the rounds.
walk_path_ends :
    (n : ℕ) (path : List ℕ) (s : Fs)
    → length path ≤ n
    → walk_rounds n (skip_slash path) none s_root s ≡ walk_path path s
unfolding walk_path
walk_path_ends n path s le =
    walk_rounds_ends n (length path) (skip_slash path) none s_root s
      (omega (arith, skip_slash-length path)) (skip_slash-length path)
