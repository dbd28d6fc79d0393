-- ===== src/Kern/Stabs/Function.antt =====
-- debuginfo_eip names the function that contains the address.
use kludgeos.Base.{
  ℕ, zero, suc, ◌+◌, ◌-◌, ◌%◌, ◌^◌, ◌≤◌, ◌<◌, ◌≡◌, refl, ap, ◌∙◌, inl, inr, true, ltb, leb, Option,
  none, some, Bool-cases, arith,
}
use kludgeos.Kern.Stabs.{Region, stab_binsearch}
use kludgeos.Kern.Stabs.Bracket.{IsSpaced, Brackets, entry_before}
use kludgeos.Kern.Stabs.Unique.{stab_binsearch_within, stab_binsearch_brackets}
use kludgeos.Kern.Stabs.Debug.{
  n_so, n_fun, n_sline, Tables, Eipdebuginfo, Debug, found, missing, outside, no_info,
  binsearch_from, name_length, name_at, debug_args, debug_line, debug_line_found, debug_function,
  debug_search,
}

-- The function reads within the tables and answers, with 0 or -1; what it stores names the function
-- that starts at `start`, whose name is `name`.
abbrev pub NamesFunction : Debug → ℕ → Option ℕ → Type 0
NamesFunction (found i) start name = (i.eip_fn_addr ≡ start) × (i.eip_fn_name ≡ name)
NamesFunction (missing i) start name = (i.eip_fn_addr ≡ start) × (i.eip_fn_name ≡ name)
NamesFunction outside start name = ⊥

module _ (t : Tables) where
  -- The answer that `info` leads to names the function of `info`.
  abbrev Keeps : Debug → Eipdebuginfo → Type 0
  Keeps answer info = NamesFunction answer info.eip_fn_addr info.eip_fn_name

  debug_args-Keeps :
      (fun : Region) (lfile lline : ℕ) (info : Eipdebuginfo)
      → Keeps (debug_args t fun lfile lline info) info
  unfolding debug_args
  debug_args-Keeps fun lfile lline info = elim (Bool-cases (ltb fun.left_end fun.right_end)) [
    | inl lt ↦ rw lt (refl, refl)
    | inr ge ↦ rw ge (refl, refl)
  ]

  debug_line_found-Keeps :
      (fun : Region) (lfile left_end right_end : ℕ) (info : Eipdebuginfo)
      → 1 ≤ left_end
      → Keeps (debug_line_found t fun lfile left_end right_end info) info
  unfolding debug_line_found
  debug_line_found-Keeps fun lfile zero right_end info pos = absurd (omega arith)
  debug_line_found-Keeps fun lfile (suc lline) right_end info pos =
      elim (Bool-cases (leb (suc lline) right_end)) [
        | inl le ↦
            rw le
              (debug_args-Keeps fun lfile lline (record info { eip_line = (t.stabs lline).n_desc }))
        | inr gt ↦ rw gt (refl, refl)
      ]

  line_searched :
      (fun : Region) (lfile lfun right_end addr : ℕ) (info : Eipdebuginfo) (r : Region)
      → stab_binsearch t.stabs n_sline lfun right_end addr ≡ some r
      → debug_line t fun lfile (record { left_end = suc lfun; right_end = right_end }) addr info
        ≡ debug_line_found t fun lfile r.left_end r.right_end info
  unfolding debug_line binsearch_from
  line_searched fun lfile lfun right_end addr info r run =
      ap
        (λ o. elim o [
          | none ↦ outside
          | some line ↦ debug_line_found t fun lfile line.left_end line.right_end info
        ])
        run

  debug_line-Keeps :
      (fun : Region) (lfile lfun right_end addr : ℕ) (info : Eipdebuginfo)
      → 1 ≤ lfun
      → lfun ≤ right_end
      → Keeps
          (debug_line t fun lfile (record { left_end = suc lfun; right_end = right_end }) addr info)
          info
  debug_line-Keeps fun lfile lfun right_end addr info pos le =
      let (r, run, within) = stab_binsearch_within t.stabs n_sline lfun right_end addr le in
      rw (line_searched fun lfile lfun right_end addr info r run)
        (debug_line_found-Keeps fun lfile r.left_end r.right_end info (omega (arith, within)))

  debug_function_lem :
      (file : Region) (lfun right_end addr n : ℕ) (info : Eipdebuginfo)
      → 1 ≤ lfun
      → lfun < right_end
      → name_at t lfun ≡ some n
      → NamesFunction
          (debug_function t file (suc lfun) right_end addr info)
          ((t.stabs lfun).n_value)
          (some n)
  unfolding debug_function
  debug_function_lem file lfun right_end addr n info pos lt named =
      let le : leb (suc lfun) right_end ≡ true = ground (arith, lt) in
      rw (le, named)
        (debug_line-Keeps (record { left_end = suc lfun; right_end = right_end })
          (file.left_end - 1) lfun right_end ((addr + 2 ^ 32 - (t.stabs lfun).n_value) % 2 ^ 32)
          (record info {
            eip_fn_name = some n;
            eip_fn_addr = (t.stabs lfun).n_value;
            eip_fn_namelen = name_length t (some n);
          })
          pos (omega arith))

  -- The string table ends with a null.
  abbrev pub EndsWithNull : Type 0
  EndsWithNull = (1 ≤ t.stabstr_size) × (t.stabstr (t.stabstr_size - 1) ≡ 0)

  searched :
      (addr lfile rfile lfun rfun : ℕ)
      → EndsWithNull
      → 1 ≤ lfile
      → stab_binsearch t.stabs n_so 0 t.stab_count addr
        ≡ some (record { left_end = suc lfile; right_end = rfile })
      → stab_binsearch t.stabs n_fun lfile rfile addr
        ≡ some (record { left_end = suc lfun; right_end = rfun })
      → debug_search t addr
        ≡ debug_function t
            (record { left_end = suc lfile; right_end = rfile })
            (suc lfun)
            rfun
            addr
            (no_info addr)
  unfolding debug_search binsearch_from
  searched addr lfile rfile lfun rfun ends pos files funs = ground (arith, ends, files, funs, pos)

  -- Where the string table ends with a null, the address and the one behind it are below 2^32, the
  -- files of the table and the functions of the file that contains the address lie in order and
  -- more than one address apart, that file's entry is not the first of the table, and the name of
  -- the function that contains the address is in the string table: debuginfo_eip stores that name
  -- and the start of that function, reads no entry in front of the table, and answers with 0 or -1.
  pub debug_search_lem :
      (addr lfile rfile lfun rfun n : ℕ)
      → addr + 1 < 2 ^ 32
      → EndsWithNull
      → IsSpaced t.stabs n_so 0 t.stab_count addr
      → Brackets t.stabs n_so 0 t.stab_count addr lfile rfile
      → 1 ≤ lfile
      → IsSpaced t.stabs n_fun lfile rfile addr
      → Brackets t.stabs n_fun lfile rfile addr lfun rfun
      → name_at t lfun ≡ some n
      → NamesFunction (debug_search t addr) ((t.stabs lfun).n_value) (some n)
  debug_search_lem addr lfile rfile lfun rfun n fits ends files file pos funs fun named =
      rw
        (searched addr lfile rfile lfun rfun ends pos
          (stab_binsearch_brackets t.stabs n_so 0 t.stab_count addr files fits lfile rfile file
            ∙ ap (λ k. some (record { left_end = k; right_end = rfile })) (omega arith))
          (stab_binsearch_brackets t.stabs n_fun lfile rfile addr funs fits lfun rfun fun
            ∙ ap (λ k. some (record { left_end = k; right_end = rfun })) (omega arith)))
        (debug_function_lem (record { left_end = suc lfile; right_end = rfile }) lfun rfun addr n
          (no_info addr) (omega (arith, fun.entry.low))
          (entry_before t.stabs n_fun lfile rfile addr funs fits rfun lfun fun.entry fun.contains
            fun.ends)
          named)
