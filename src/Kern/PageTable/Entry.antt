-- ===== src/Kern/PageTable/Entry.antt =====
-- The entries that page_insert and pgdir_walk of kern/pmap.c write, as numbers.
use kludgeos.Base.{
  ℕ, ◌/◌, ◌^◌, ◌<◌, ◌≡◌, ◌∙◌, ap, true, has, bit, bit_or, bit_or_step, bit_or-zero, bit_or-page,
  has_pow, arith,
}
use kludgeos.Kern.Machine.{pte_p}
use kludgeos.Kern.Page.{page2pa}
use kludgeos.Kern.PageTable.{pte_of}

-- An entry that ends in `| PTE_P` is present.
pub present : (x : ℕ) → has (bit_or x pte_p) pte_p ≡ true
unfolding bit
present x = ground (arith, has_pow (bit_or x 1) 0, bit_or_step x 1)

page-or : (x y : ℕ) → y < 4096 → bit_or x y / 4096 ≡ x / 4096
page-or x y h =
    let none : y / 4096 ≡ 0 = omega arith in
    bit_or-page x y ∙ ap (bit_or (x / 4096)) none ∙ bit_or-zero (x / 4096)

page2pa-div : (pp : ℕ) → pp < 2 ^ 20 → page2pa pp / 4096 ≡ pp
unfolding page2pa
page2pa-div pp h = omega arith

-- The page that an entry names is the one that was put in, if the permissions fit their 12 bits.
pub pte_of-page : (pp perm : ℕ) → pp < 2 ^ 20 → perm < 4096 → pte_of pp perm / 4096 ≡ pp
unfolding pte_of
pte_of-page pp perm h p =
    page-or (bit_or (page2pa pp) perm) 1 (omega arith)
    ∙ page-or (page2pa pp) perm p
    ∙ page2pa-div pp h

pub pte_of-present : (pp perm : ℕ) → has (pte_of pp perm) pte_p ≡ true
unfolding pte_of
pte_of-present pp perm = present (bit_or (page2pa pp) perm)

-- The directory entry for a page table.
unfoldable pub pde_of : ℕ → ℕ
pde_of pg = bit_or (bit_or (bit_or (page2pa pg) 4) 2) 1

pub pde_of-page : (pg : ℕ) → pg < 2 ^ 20 → pde_of pg / 4096 ≡ pg
unfolding pde_of
pde_of-page pg h =
    page-or (bit_or (bit_or (page2pa pg) 4) 2) 1 (omega arith)
    ∙ page-or (bit_or (page2pa pg) 4) 2 (omega arith)
    ∙ page-or (page2pa pg) 4 (omega arith)
    ∙ page2pa-div pg h

pub pde_of-present : (pg : ℕ) → has (pde_of pg) pte_p ≡ true
unfolding pde_of
pde_of-present pg = present (bit_or (bit_or (page2pa pg) 4) 2)
