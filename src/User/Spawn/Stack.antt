-- ===== src/User/Spawn/Stack.antt =====
-- What a process that init_stack of lib/spawn.c sets up finds on its stack.
use kludgeos.Base.{
  ℕ, ◌+◌, ◌-◌, ◌*◌, ◌/◌, ◌%◌, ◌^◌, ◌≤◌, ◌<◌, ◌≡◌, refl, ap, ◌∙◌, ◌⊎◌, inr, Option, none, Errno,
  e_no_mem, List, [], ◌∷◌, length, arith,
}
use kludgeos.Clib.Str.{Mem}
use kludgeos.Clib.Str.Measure.{IsString}
use kludgeos.User.Spawn.{
  pgsize, utemp, ustacktop, utemp2ustack, string_size, store_word, fill_args, Init, ready, fails,
  dies, fill_stack, init_stack,
}
use kludgeos.User.Spawn.Filling.{
  load_word, load_word-store_word, store_word-kept, load_word-kept, bytes_of, HaveNoNull, AreFilled,
  AreFilled-kept, fill_args_lem,
}

-- The memory as the child sees it: the page is mapped at USTACKTOP - PGSIZE.
abbrev as_child : Mem → Mem
as_child m a = m (a - (ustacktop - pgsize - utemp))

-- The `n` bytes from `p` on lie in the page that the child has as its stack.
abbrev InStack : ℕ → ℕ → Type 0
InStack p n = (ustacktop - pgsize ≤ p) × (p + n ≤ ustacktop)

-- The pointers from `p` on lead to the strings, with a null behind the last one, and pointers and
-- strings lie in the stack page.
abbrev HoldsArgv : Mem → ℕ → List (List ℕ) → Type 0
HoldsArgv m p [] = InStack p 4 × (load_word m p ≡ 0)
HoldsArgv m p (s ∷ ss) =
    InStack p 4
    × InStack (load_word m p) (length s + 1)
    × IsString m (load_word m p) s
    × HoldsArgv m (p + 4) ss

abbrev on_stack : ℕ → ℕ
on_stack a = a + (ustacktop - pgsize - utemp)

load_word-as_child : (m : Mem) (a : ℕ) → load_word (as_child m) (on_stack a) ≡ load_word m a
load_word-as_child m a = omega (
  arith,
  ap m {x = on_stack a - (ustacktop - pgsize - utemp)} {y = a} (omega arith),
  ap m {x = on_stack a + 1 - (ustacktop - pgsize - utemp)} {y = a + 1} (omega arith),
  ap m {x = on_stack a + 2 - (ustacktop - pgsize - utemp)} {y = a + 2} (omega arith),
  ap m {x = on_stack a + 3 - (ustacktop - pgsize - utemp)} {y = a + 3} (omega arith),
)

IsString-as_child :
    (s : List ℕ) (m : Mem) (a : ℕ) → IsString m a s → IsString (as_child m) (on_stack a) s
IsString-as_child [] m a h = ap m (omega arith) ∙ h
IsString-as_child (x ∷ xs) m a (at, ne, h) =
    (ap m (omega arith) ∙ at, ne, rw next at (IsString-as_child xs m (a + 1) h))
  where
    next : on_stack (a + 1) ≡ on_stack a + 1
    next = omega arith

AreFilled-HoldsArgv :
    (ss : List (List ℕ)) (m : Mem) (a store : ℕ)
    → AreFilled m a store ss
    → load_word m (a + 4 * length ss) ≡ 0
    → utemp ≤ a
    → a + 4 * length ss + 4 ≤ utemp + pgsize
    → utemp ≤ store
    → store + bytes_of ss ≤ utemp + pgsize
    → HoldsArgv (as_child m) (on_stack a) ss
AreFilled-HoldsArgv [] m a store filled end low high above room =
    ((omega arith, omega arith), load_word-as_child m a ∙ ap (load_word m) (omega arith) ∙ end)
AreFilled-HoldsArgv (s ∷ ss) m a store (pointer, string, rest) end low high above room =
    let to : load_word (as_child m) (on_stack a) ≡ on_stack store =
      omega (arith, load_word-as_child m a, pointer, room) in
    let next : on_stack (a + 4) ≡ on_stack a + 4 = omega arith in
    (
      (omega arith, omega arith),
      rw to (omega arith, omega arith),
      rw to (IsString-as_child s m store string),
      rw next at (
          AreFilled-HoldsArgv ss m (a + 4) (store + length s + 1) rest
            (ap (load_word m) (omega arith) ∙ end) (omega arith) (omega arith) (omega arith)
            (omega arith)),
    )

string_size-bytes_of : (ss : List (List ℕ)) → bytes_of ss < 2 ^ 32 → string_size ss ≡ bytes_of ss
unfolding string_size
string_size-bytes_of [] lt = refl
string_size-bytes_of (s ∷ ss) lt = omega (arith, string_size-bytes_of ss (omega arith))

-- What the child finds at its initial stack pointer.
abbrev pub StackHolds : List (List ℕ) → Init → Type 0
StackHolds argv (ready esp m) =
    InStack esp 8
    × (load_word (as_child m) esp ≡ length argv)
    × HoldsArgv (as_child m) (load_word (as_child m) (esp + 4)) argv
StackHolds argv (fails x) = ⊥
StackHolds argv dies = ⊥

-- The page has room for the strings, the pointers, the null and two words.
abbrev Fits : List (List ℕ) → Type 0
Fits argv =
    (bytes_of argv ≤ pgsize) × (4 * (length argv + 1) + 8 ≤ (pgsize - bytes_of argv) / 4 * 4)

fill_stack_lem :
    (argv : List (List ℕ)) (m : Mem) (store a : ℕ)
    → HaveNoNull argv
    → store + bytes_of argv ≡ utemp + pgsize
    → a + 4 * (length argv + 1) ≤ store
    → utemp + 8 ≤ a
    → StackHolds argv (fill_stack none none argv m store a)
unfolding fill_stack
fill_stack_lem argv m store a no_null whole room low =
    let filled = (fill_args m a store argv).0 in
    let fills = fill_args_lem argv m a store no_null (omega arith) in
    let m1 = store_word filled (a + 4 * length argv) 0 in
    let m2 = store_word m1 (a - 4) (utemp2ustack a) in
    let m3 = store_word m2 (a - 8) (length argv) in
    let end : (fill_args m a store argv).1 ≡ utemp + pgsize = fills.ends ∙ whole in
    let kept : (i : ℕ) → (a ≤ i) → (i < a + 4 * length argv) ⊎ (store ≤ i) → m3 i ≡ filled i =
      λ i above within.
        store_word-kept m2 (a - 8) (length argv) i (inr (omega arith))
        ∙ store_word-kept m1 (a - 4) (utemp2ustack a) i (inr (omega arith))
        ∙ store_word-kept filled (a + 4 * length argv) 0 i (omega (arith, within)) in
    let returns : fill_stack none none argv m store a ≡ ready (utemp2ustack (a - 8)) m3 =
      ground (arith, end) in
    let esp : utemp2ustack (a - 8) ≡ on_stack (a - 8) = omega arith in
    let argc : load_word (as_child m3) (on_stack (a - 8)) ≡ length argv =
      load_word-as_child m3 (a - 8) ∙ load_word-store_word m2 (a - 8) (length argv) (omega arith) in
    let pointer : load_word (as_child m3) (on_stack (a - 8) + 4) ≡ on_stack a =
      ap (load_word (as_child m3)) {x = on_stack (a - 8) + 4} {y = on_stack (a - 4)} (omega arith)
      ∙ load_word-as_child m3 (a - 4)
      ∙ load_word-kept m2 m3 (a - 4)
          (λ i lo hi. store_word-kept m2 (a - 8) (length argv) i (inr (omega arith)))
      ∙ load_word-store_word m1 (a - 4) (utemp2ustack a) (omega arith)
      ∙ omega arith in
    let last : load_word m3 (a + 4 * length argv) ≡ 0 =
      load_word-kept m1 m3 (a + 4 * length argv) (λ i lo hi.
        store_word-kept m2 (a - 8) (length argv) i (inr (omega arith))
        ∙ store_word-kept m1 (a - 4) (utemp2ustack a) i (inr (omega arith)))
      ∙ load_word-store_word filled (a + 4 * length argv) 0 (omega arith) in
    rw (returns, esp)
      ((
        (omega arith, omega arith),
        argc,
        rw pointer (
            AreFilled-HoldsArgv argv m3 a store
              (AreFilled-kept argv filled m3 a store
                (λ i within. kept i (omega (arith, within)) (omega (arith, within))) fills.filled)
              last (omega arith) (omega arith) (omega arith) (omega arith)),
      ))

-- Where the strings, their pointers and two words fit into a page, none of the calls is refused and
-- no string holds a null, init_stack returns a stack pointer at which the child finds the number of
-- its arguments and behind it the address of a null-terminated array of pointers to the strings; the
-- two words, the array and the strings with their nulls lie wholly in the child's stack page.
pub init_stack_lem :
    (argv : List (List ℕ)) (m : Mem)
    → HaveNoNull argv
    → Fits argv
    → StackHolds argv (init_stack none none none argv m)
unfolding init_stack
init_stack_lem argv m no_null (small, room) =
    let size = string_size-bytes_of argv (omega arith) in
    let store = utemp + pgsize - bytes_of argv in
    let a = store - store % 4 - 4 * (length argv + 1) in
    let runs : init_stack none none none argv m ≡ fill_stack none none argv m store a =
      ground (arith, size, small, room) in
    rw runs (fill_stack_lem argv m store a no_null (omega arith) (omega arith) (omega arith))

-- Where they do not fit, init_stack returns -E_NO_MEM, whatever the calls would answer.
init_stack_too_long :
    (alloc map unmap : Option Errno) (argv : List (List ℕ)) (m : Mem)
    → bytes_of argv + 4 * (length argv + 1) + 12 ≤ utemp
    → pgsize < bytes_of argv + 4 * (length argv + 1) + 8
    → init_stack alloc map unmap argv m ≡ fails e_no_mem
unfolding init_stack
init_stack_too_long alloc map unmap argv m small long =
    let size = string_size-bytes_of argv (omega arith) in ground (arith, size, small, long)
