-- ===== src/Kern/Page/FreeList.antt =====
-- The free list of pages of kern/pmap.c: no page is on it twice or while it is referenced.
use kludgeos.Base.{
  ℕ, zero, suc, ◌+◌, ◌-◌, ◌/◌, ◌≤◌, ◌<◌, ◌≡◌, refl, ◌∙◌, ◌⊎◌, inl, inr, true, false, ◌||◌, ◌&&◌,
  ltb, leb, update, List, [], ◌∷◌, mem, ok, arith,
}
use kludgeos.Kern.Machine.{Kern, returns, pgsize}
use kludgeos.Kern.Page.{init_range, page_init, page_alloc}

abbrev IsDistinct : List ℕ → Type 0
IsDistinct [] = Unit {0}
IsDistinct (x ∷ xs) = (mem x xs ≡ false) × IsDistinct xs

pub record FreeListValid (k : Kern) : Type 0 where
  pub distinct : IsDistinct k.page_free_list
  pub unreferenced : (p : ℕ) → mem p k.page_free_list ≡ true → k.pp_ref p ≡ 0
  pub inside : (p : ℕ) → mem p k.page_free_list ≡ true → p < k.npage

-- Only the page array and the free list matter.
pub FreeListValid-same :
    (k k' : Kern)
    → FreeListValid k
    → k'.page_free_list ≡ k.page_free_list
    → k'.npage ≡ k.npage
    → ((p : ℕ) → mem p k.page_free_list ≡ true → k'.pp_ref p ≡ 0)
    → FreeListValid k'
FreeListValid-same k k' v same size none_used = record {
  distinct = rw same v.distinct;
  unreferenced = λ p h. ground (arith, none_used p);
  inside = λ p h. ground (arith, v.inside p);
}

-- A page with a reference is not on the list.
pub not_free :
    (k : Kern) (p : ℕ) → FreeListValid k → 0 < k.pp_ref p → mem p k.page_free_list ≡ false
not_free k p v h = ground (arith, v.unreferenced p)

-- page_alloc takes a page that nothing refers to, which is then no longer on the list.
pub page_alloc-FreeListValid :
    (k : Kern) (p : ℕ) (rest : List ℕ)
    → FreeListValid k
    → k.page_free_list ≡ p ∷ rest
    → (page_alloc k ≡ returns (ok p) (record k { page_free_list = rest }))
      × FreeListValid (record k { page_free_list = rest })
      × (k.pp_ref p ≡ 0)
      × (p < k.npage)
      × (mem p rest ≡ false)
unfolding page_alloc
page_alloc-FreeListValid k p rest v e = (
  ground arith,
  record {
    distinct = parts.1;
    unreferenced = λ q h. ground (arith, v.unreferenced q);
    inside = λ q h. ground (arith, v.inside q);
  },
  ground (arith, v.unreferenced p),
  ground (arith, v.inside p),
  parts.0,
)
  where
    parts : (mem p rest ≡ false) × IsDistinct rest
    parts = rw e at v.distinct

-- The list after a push of a page that was not on it.
pushed-FreeListValid :
    (k : Kern) (p : ℕ)
    → FreeListValid k
    → mem p k.page_free_list ≡ false
    → k.pp_ref p ≡ 0
    → p < k.npage
    → FreeListValid (record k { page_free_list = p ∷ k.page_free_list })
pushed-FreeListValid k p v absent unused lt = record {
  distinct = (absent, v.distinct);
  unreferenced = λ q h. ground (arith, v.unreferenced q);
  inside = λ q h. ground (arith, v.inside q);
}

-- init_range pushes each page of its range once, and no other.
init_range-FreeListValid :
    (n i : ℕ) (k : Kern)
    → FreeListValid k
    → ((p : ℕ) → i ≤ p → mem p k.page_free_list ≡ false)
    → i + n ≤ k.npage
    → FreeListValid (init_range n i k)
      × ((init_range n i k).npage ≡ k.npage)
      × ((p : ℕ)
          → (p < i) ⊎ (i + n ≤ p)
          → mem p (init_range n i k).page_free_list ≡ mem p k.page_free_list)
      × ((p : ℕ) → i ≤ p → p < i + n → mem p (init_range n i k).page_free_list ≡ true)
unfolding init_range
init_range-FreeListValid zero i k v fresh fits =
    (v, refl, λ p h. refl, λ p h h'. absurd (omega arith))
init_range-FreeListValid (suc n) i k v fresh fits =
    let (v', same, out, within) =
      init_range-FreeListValid n (i + 1) pushed pushed_valid (λ p h. ground (arith, fresh p))
        (omega arith) in
    (
      v',
      same,
      λ p h. out p (ground arith) ∙ ground arith,
      λ p h h'. elim (first p h) [
        | inl e ↦ out p (inl (omega arith)) ∙ ground arith
        | inr e ↦ within p e (omega arith)
      ],
    )
  where
    first : (p : ℕ) → i ≤ p → (p ≡ i) ⊎ (i + 1 ≤ p)
    first p h = omega arith

    pushed : Kern
    pushed = record k { pp_ref = update k.pp_ref i 0; page_free_list = i ∷ k.page_free_list }

    pushed_valid :
        FreeListValid
          (record k { pp_ref = update k.pp_ref i 0; page_free_list = i ∷ k.page_free_list })
    pushed_valid = record {
      distinct = (fresh i (omega arith), v.distinct);
      unreferenced = λ q h. ground (arith, v.unreferenced q);
      inside = λ q h. ground (arith, v.inside q);
    }

-- Where the kernel's image ends above the I/O hole and inside memory, page_init makes a valid free
-- list, which holds the pages below the hole but page 0, and those behind the image, and no other.
pub page_init-FreeListValid :
    (k : Kern) (first : ℕ)
    → 0xa0000 / pgsize ≤ first
    → first ≤ k.npage
    → (k' : Kern) × (page_init first k ≡ returns tt k')
      × FreeListValid k'
      × ((p : ℕ)
          → mem p k'.page_free_list
            ≡ (ltb 0 p && ltb p (0xa0000 / pgsize)) || (leb first p && ltb p k.npage))
unfolding page_init
page_init-FreeListValid k first above fits =
    let (v, same, out, within) = low in
    let (v', same', out', within') =
      init_range-FreeListValid (k.npage - first) first after v (λ p h. out p (inr (omega arith)))
        (ground (arith, same)) in
    (_, refl, v', λ p. ground (arith, out p, within p, out' p, within' p))
  where
    after : Kern
    after = init_range 159 1 (record k { page_free_list = [] })

    low :
        FreeListValid after
        × (after.npage ≡ k.npage)
        × ((p : ℕ) → (p < 1) ⊎ (1 + 159 ≤ p) → mem p after.page_free_list ≡ false)
        × ((p : ℕ) → 1 ≤ p → p < 1 + 159 → mem p after.page_free_list ≡ true)
    low =
        init_range-FreeListValid 159 1 (record k { page_free_list = [] })
          (record { distinct = tt; unreferenced = λ p h. cc; inside = λ p h. cc }) (λ p h. refl)
          (omega arith)
