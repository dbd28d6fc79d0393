-- ===== src/Fs/Dir/Entries.antt =====
-- What a directory block holds: the search for a name in it.
use kludgeos.Base.{
  ℕ, zero, suc, ◌+◌, ◌*◌, ◌/◌, ◌%◌, ◌^◌, ◌<◌, ◌≡◌, refl, ◌==◌, if◌then◌else◌, Bool, true, ◌&&◌,
  length, List, [], ◌∷◌, Option, none, some, arith,
}
use kludgeos.Fs.Disk.{Fs, returns, blkwords}
use kludgeos.Fs.Dir.{name_byte, has_name, find_entry}

-- f_name[i] in the memory.
abbrev pub byte_of : Fs → ℕ → ℕ → ℕ
byte_of s f i = s.mem (f + i / 4) / 256 ^ (i % 4) % 256

-- The bytes `xs` and a 0 stand in f_name from byte `i` on.
unfoldable pub is_named : Fs → ℕ → ℕ → List ℕ → Bool
is_named s f i [] = byte_of s f i == 0
is_named s f i (x ∷ xs) = (byte_of s f i == x) && is_named s f (i + 1) xs

-- The 64 words of the entry are in memory.
abbrev pub InMemory : Fs → ℕ → Type 0
InMemory s f = (w : ℕ) → w < 64 → s.mapped ((f + w) / blkwords) ≡ true

name_byte_lem :
    (s : Fs) (f i : ℕ) → InMemory s f → i < 128 → name_byte f i s ≡ returns (byte_of s f i) s
unfolding name_byte
name_byte_lem s f i there lt = ground (arith, there (i / 4))

pub has_name_lem :
    (s : Fs) (f i : ℕ) (name : List ℕ)
    → InMemory s f
    → i + length name < 128
    → has_name f i name s ≡ returns (is_named s f i name) s
unfolding has_name is_named
has_name_lem s f i [] there lt = ground (arith, name_byte_lem s f i there)
has_name_lem s f i (x ∷ xs) there lt =
    ground (arith, name_byte_lem s f i there, has_name_lem s f (i + 1) xs there)

-- The first of the `n` entries from `f` on that has the name.
first_named : Fs → List ℕ → ℕ → ℕ → Option ℕ
first_named s name zero f = none
first_named s name (suc n) f =
    let more = first_named s name n (f + 64) in if is_named s f 0 name then some f else more

-- The inner loop of dir_lookup, on entries that are in memory and a name that a file may have, does
-- not fault, changes nothing, and gives the first entry with exactly this name.
find_entry_lem :
    (s : Fs) (name : List ℕ) (n f : ℕ)
    → ((j : ℕ) → j < n → InMemory s (f + 64 * j))
    → length name < 128
    → find_entry (λ g. has_name g 0 name) n f s ≡ returns (first_named s name n f) s
unfolding find_entry first_named
find_entry_lem s name zero f there lt = refl
find_entry_lem s name (suc n) f there lt =
    ground (
      arith,
      has_name_lem s f 0 name first (omega arith),
      find_entry_lem s name n (f + 64) others lt,
    )
  where
    first : InMemory s f
    first w h = ground (arith, there 0 (omega arith) w h)

    others : (j : ℕ) → j < n → InMemory s (f + 64 + 64 * j)
    others j h w h' = ground (arith, there (j + 1) (omega arith) w h')
