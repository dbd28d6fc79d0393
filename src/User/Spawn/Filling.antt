-- ===== src/User/Spawn/Filling.antt =====
-- The loop of init_stack in lib/spawn.c stores every argument and a pointer to it.
use kludgeos.Base.{
  ℕ, ◌+◌, ◌*◌, ◌/◌, ◌%◌, ◌^◌, ◌≤◌, ◌<◌, ◌≡◌, ◌≢◌, refl, ◌∙◌, ◌⊎◌, inl, inr, update, List, [], ◌∷◌,
  length, arith,
}
use kludgeos.Clib.Str.{Mem}
use kludgeos.Clib.Str.Measure.{IsString}
use kludgeos.User.Spawn.{utemp2ustack, store_word, store_string, fill_args}

-- *(uintptr_t *) a
abbrev pub load_word : Mem → ℕ → ℕ
load_word m a = m a + m (a + 1) * 256 + m (a + 2) * 65536 + m (a + 3) * 16777216

pub load_word-store_word : (m : Mem) (a w : ℕ) → w < 2 ^ 32 → load_word (store_word m a w) a ≡ w
unfolding store_word
load_word-store_word m a w lt = omega (arith, b0, b1, b2, b3)
  where
    b0 : store_word m a w a ≡ w % 256
    b0 = ground arith

    b1 : store_word m a w (a + 1) ≡ w / 256 % 256
    b1 = ground arith

    b2 : store_word m a w (a + 2) ≡ w / 65536 % 256
    b2 = ground arith

    b3 : store_word m a w (a + 3) ≡ w / 16777216 % 256
    b3 = ground arith

pub store_word-kept : (m : Mem) (a w i : ℕ) → (i < a) ⊎ (a + 4 ≤ i) → store_word m a w i ≡ m i
unfolding store_word
store_word-kept m a w i (inl low) = ground (arith, low)
store_word-kept m a w i (inr high) = ground (arith, high)

pub load_word-kept :
    (m m' : Mem) (a : ℕ)
    → ((i : ℕ) → a ≤ i → i < a + 4 → m' i ≡ m i)
    → load_word m' a ≡ load_word m a
load_word-kept m m' a same = omega (
  arith,
  same a (omega arith) (omega arith),
  same (a + 1) (omega arith) (omega arith),
  same (a + 2) (omega arith) (omega arith),
  same (a + 3) (omega arith) (omega arith),
)

store_string-kept :
    (s : List ℕ) (m : Mem) (a i : ℕ) → (i < a) ⊎ (a + length s < i) → store_string m a s i ≡ m i
unfolding store_string
store_string-kept [] m a i outside = ground (arith, outside)
store_string-kept (x ∷ xs) m a i outside =
    store_string-kept xs (update m a x) (a + 1) i (omega (arith, outside)) ∙ ground (arith, outside)

-- No byte of a string is 0.
abbrev HasNoNull : List ℕ → Type 0
HasNoNull [] = Unit {0}
HasNoNull (x ∷ xs) = (x ≢ 0) × HasNoNull xs

store_string-IsString :
    (s : List ℕ) (m : Mem) (a : ℕ) → HasNoNull s → IsString (store_string m a s) a s
unfolding store_string
store_string-IsString [] m a h = ground arith
store_string-IsString (x ∷ xs) m a (ne, h) = (
  store_string-kept xs (update m a x) (a + 1) a (inl (omega arith)) ∙ ground arith,
  ne,
  store_string-IsString xs (update m a x) (a + 1) h,
)

IsString-kept :
    (s : List ℕ) (m m' : Mem) (a : ℕ)
    → ((i : ℕ) → a ≤ i → i ≤ a + length s → m' i ≡ m i)
    → IsString m a s
    → IsString m' a s
IsString-kept [] m m' a same h = same a (omega arith) (omega arith) ∙ h
IsString-kept (x ∷ xs) m m' a same (at, ne, h) = (
  same a (omega arith) (omega arith) ∙ at,
  ne,
  IsString-kept xs m m' (a + 1) (λ i low high. same i (omega arith) (omega arith)) h,
)

-- The bytes of the strings, with their nulls.
abbrev pub bytes_of : List (List ℕ) → ℕ
bytes_of [] = 0
bytes_of (s ∷ ss) = length s + 1 + bytes_of ss

abbrev pub HaveNoNull : List (List ℕ) → Type 0
HaveNoNull [] = Unit {0}
HaveNoNull (s ∷ ss) = HasNoNull s × HaveNoNull ss

-- The pointers from `a` on lead to the strings from `store` on, in the child's addresses.
abbrev pub AreFilled : Mem → ℕ → ℕ → List (List ℕ) → Type 0
AreFilled m a store [] = Unit {0}
AreFilled m a store (s ∷ ss) =
    (load_word m a ≡ utemp2ustack store)
    × IsString m store s
    × AreFilled m (a + 4) (store + length s + 1) ss

-- The places of the pointers and of the strings.
abbrev InArgs : ℕ → ℕ → List (List ℕ) → ℕ → Type 0
InArgs a store ss i =
    ((a ≤ i) × (i < a + 4 * length ss)) ⊎ ((store ≤ i) × (i < store + bytes_of ss))

pub AreFilled-kept :
    (ss : List (List ℕ)) (m m' : Mem) (a store : ℕ)
    → ((i : ℕ) → InArgs a store ss i → m' i ≡ m i)
    → AreFilled m a store ss
    → AreFilled m' a store ss
AreFilled-kept [] m m' a store same h = tt
AreFilled-kept (s ∷ ss) m m' a store same (pointer, string, rest) = (
  load_word-kept m m' a (λ i low high. same i (inl (omega arith, omega arith))) ∙ pointer,
  IsString-kept s m m' store (λ i low high. same i (inr (omega arith, omega arith))) string,
  AreFilled-kept ss m m' (a + 4) (store + length s + 1) (λ i within. same i (omega (arith, within)))
      rest,
)

pub record Fills (m : Mem) (a store : ℕ) (ss : List (List ℕ)) (m' : Mem) (end : ℕ) : Type 0 where
  pub ends : end ≡ store + bytes_of ss
  pub filled : AreFilled m' a store ss
  pub kept : (i : ℕ) → (i < a) ⊎ ((a + 4 * length ss ≤ i) × (i < store)) → m' i ≡ m i

pub fill_args_lem :
    (ss : List (List ℕ)) (m : Mem) (a store : ℕ)
    → HaveNoNull ss
    → a + 4 * length ss ≤ store
    → Fills m a store ss ((fill_args m a store ss).0) ((fill_args m a store ss).1)
unfolding fill_args
fill_args_lem [] m a store h room = record {
  ends = omega arith;
  filled = tt;
  kept = λ i outside. refl;
}
fill_args_lem (s ∷ ss) m a store (no_null, h) room =
    let m0 = store_word m a (utemp2ustack store) in
    let m1 = store_string m0 store s in
    let rest = fill_args_lem ss m1 (a + 4) (store + length s + 1) h (omega arith) in
    let m' = (fill_args m1 (a + 4) (store + length s + 1) ss).0 in
    record {
      ends = omega (arith, rest.ends);
      filled = (
        load_word-kept m0 m' a (λ i low high.
              rest.kept i (inl (omega arith)) ∙ store_string-kept s m0 store i (inl (omega arith)))
            ∙ load_word-store_word m a (utemp2ustack store) (omega arith),
        IsString-kept s m1 m' store (λ i low high. rest.kept i (inr (omega arith, omega arith)))
            (store_string-IsString s m0 store no_null),
        rest.filled,
      );
      kept = λ i outside.
          rest.kept i (omega (arith, outside))
          ∙ store_string-kept s m0 store i (inl (omega (arith, outside)))
          ∙ store_word-kept m a (utemp2ustack store) i (omega (arith, outside));
    }
