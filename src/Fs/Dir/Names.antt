-- ===== src/Fs/Dir/Names.antt =====
-- A name that is stored in a directory entry stands there.
use kludgeos.Base.{
  ℕ, zero, suc, ◌+◌, ◌-◌, ◌*◌, ◌/◌, ◌%◌, ◌^◌, ◌<◌, ◌≡◌, refl, ◌∙◌, ap, ◌==◌, if◌then◌else◌, Bool,
  true, update, List, [], ◌∷◌, length, arith,
}
use kludgeos.Fs.Disk.{Fs, returns, blkwords}
use kludgeos.Fs.Dir.{store_name_byte, store_name, has_name}
use kludgeos.Fs.Dir.Entries.{InMemory, byte_of, is_named, has_name_lem}

-- A word with its byte `k` replaced.
abbrev with_byte : ℕ → ℕ → ℕ → ℕ
with_byte w k c = w - w / 256 ^ k % 256 * 256 ^ k + c * 256 ^ k

with_byte_lem :
    (w c k j : ℕ)
    → c < 256
    → k < 4
    → j < 4
    → with_byte w k c / 256 ^ j % 256 ≡ (if j == k then c else w / 256 ^ j % 256)
with_byte_lem w c zero zero h p q = omega arith
with_byte_lem w c zero (suc zero) h p q = omega arith
with_byte_lem w c zero (suc (suc zero)) h p q = omega arith
with_byte_lem w c zero (suc (suc (suc zero))) h p q = omega arith
with_byte_lem w c (suc zero) zero h p q = omega arith
with_byte_lem w c (suc zero) (suc zero) h p q = omega arith
with_byte_lem w c (suc zero) (suc (suc zero)) h p q = omega arith
with_byte_lem w c (suc zero) (suc (suc (suc zero))) h p q = omega arith
with_byte_lem w c (suc (suc zero)) zero h p q = omega arith
with_byte_lem w c (suc (suc zero)) (suc zero) h p q = omega arith
with_byte_lem w c (suc (suc zero)) (suc (suc zero)) h p q = omega arith
with_byte_lem w c (suc (suc zero)) (suc (suc (suc zero))) h p q = omega arith
with_byte_lem w c (suc (suc (suc zero))) zero h p q = omega arith
with_byte_lem w c (suc (suc (suc zero))) (suc zero) h p q = omega arith
with_byte_lem w c (suc (suc (suc zero))) (suc (suc zero)) h p q = omega arith
with_byte_lem w c (suc (suc (suc zero))) (suc (suc (suc zero))) h p q = omega arith
with_byte_lem w c (suc (suc (suc (suc k)))) j h p q = absurd (omega arith)
with_byte_lem w c k (suc (suc (suc (suc j)))) h p q = absurd (omega arith)

-- The server once a byte of a name is written.
abbrev byte_stored : Fs → ℕ → ℕ → ℕ → Fs
byte_stored s f i c = record s {
  mem = update s.mem (f + i / 4) (with_byte (s.mem (f + i / 4)) (i % 4) c);
  dirty = update s.dirty ((f + i / 4) / blkwords) true;
}

store_name_byte_lem :
    (s : Fs) (f i c : ℕ)
    → InMemory s f
    → i < 128
    → store_name_byte f i c s ≡ returns tt (byte_stored s f i c)
unfolding store_name_byte
store_name_byte_lem s f i c there lt = ground (arith, there (i / 4))

byte_of-stored :
    (s : Fs) (f i c j : ℕ)
    → c < 256
    → byte_of (byte_stored s f i c) f j ≡ (if j == i then c else byte_of s f j)
byte_of-stored s f i c j small = ground (
  arith,
  with_byte_lem (s.mem (f + i / 4)) c (i % 4) (j % 4) small (omega arith) (omega arith),
  λ (e : j / 4 ≡ i / 4). ap (λ (w : ℕ). s.mem (f + w)) e,
  λ (e : j / 4 ≡ i / 4). ap (λ (w : ℕ). s.mem (f + w) / 256 ^ (j % 4) % 256) e,
)

-- Bytes that a name can have.
abbrev IsName : List ℕ → Type 0
IsName [] = Unit {0}
IsName (x ∷ xs) = (0 < x) × (x < 256) × IsName xs

-- What store_name has done from byte `i` on.
record Stored (s t : Fs) (f i : ℕ) (name : List ℕ) : Type 0 where
  pub named : is_named t f i name ≡ true
  pub before : (j : ℕ) → j < i → byte_of t f j ≡ byte_of s f j
  pub still_mapped : (b : ℕ) → t.mapped b ≡ s.mapped b

store_name-Stored :
    (s : Fs) (f i : ℕ) (name : List ℕ)
    → InMemory s f
    → i + length name < 128
    → IsName name
    → (t : Fs) × (store_name f i name s ≡ returns tt t) × Stored s t f i name
unfolding store_name is_named
store_name-Stored s f i [] there lt v = (
  byte_stored s f i 0,
  store_name_byte_lem s f i 0 there (omega arith),
  record {
    named = ground (arith, byte_of-stored s f i 0 i);
    before = λ j h. ground (arith, byte_of-stored s f i 0 j);
    still_mapped = λ b. refl;
  },
)
store_name-Stored s f i (x ∷ xs) there lt v =
    let (t, e, r) = store_name-Stored (byte_stored s f i x) f (i + 1) xs there (omega arith) v.2 in
    (
      t,
      ground (arith, store_name_byte_lem s f i x there (omega arith), e),
      record {
        named = ground (arith, r.named, r.before i (omega arith), byte_of-stored s f i x i v.1);
        before = λ j h. ground (arith, r.before j (omega arith), byte_of-stored s f i x j v.1);
        still_mapped = r.still_mapped;
      },
    )

-- Where an entry is in memory and the name fits it, store_name, as file_create calls it, ends
-- without a fault and changes no mapping, and afterwards has_name, as dir_lookup calls it, finds
-- this name in the entry.
has_name-store_name :
    (s : Fs) (f : ℕ) (name : List ℕ)
    → InMemory s f
    → length name < 128
    → IsName name
    → (t : Fs) × (store_name f 0 name s ≡ returns tt t)
      × ((b : ℕ) → t.mapped b ≡ s.mapped b)
      × (has_name f 0 name t ≡ returns true t)
has_name-store_name s f name there lt v =
    let (t, e, r) = store_name-Stored s f 0 name there (omega arith) v in
    (
      t,
      e,
      r.still_mapped,
      has_name_lem t f 0 name (λ w h. r.still_mapped ((f + w) / blkwords) ∙ there w h) (omega arith)
          ∙ ap (λ (b : Bool). returns b t) r.named,
    )
