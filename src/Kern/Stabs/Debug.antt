-- ===== src/Kern/Stabs/Debug.antt =====
-- debuginfo_eip of kern/kdebug.c.
use kludgeos.Base.{
  ℕ, zero, suc, ◌+◌, ◌-◌, ◌%◌, ◌^◌, not, ◌&&◌, ◌||◌, ◌==◌, ltb, leb, if◌then◌else◌, Option, none,
  some,
}
use kludgeos.Clib.Str.{Mem, strfind}
use kludgeos.Kern.Stabs.{Stab, Region, stab_binsearch}

abbrev pub n_so : ℕ
n_so = 0x64

abbrev pub n_fun : ℕ
n_fun = 0x24

abbrev pub n_sline : ℕ
n_sline = 0x44

abbrev n_sol : ℕ
n_sol = 0x84

abbrev n_psym : ℕ
n_psym = 0xa0

abbrev pub ulim : ℕ
ulim = 0xef800000

-- The stabs and the string table, with the sizes `stab_end - stabs` and `stabstr_end - stabstr`.
pub record Tables : Type 0 where
  pub stabs : ℕ → Stab
  pub stab_count : ℕ
  pub stabstr : Mem
  pub stabstr_size : ℕ

-- `none` is the name "<unknown>", `some n` the string at `stabstr + n`.
pub record Eipdebuginfo : Type 0 where
  pub eip_file : Option ℕ
  pub eip_line : ℕ
  pub eip_fn_name : Option ℕ
  pub eip_fn_namelen : ℕ
  pub eip_fn_addr : ℕ
  pub eip_fn_narg : ℕ

pub data Debug : Type 0 where
  -- returns 0
  found : Eipdebuginfo → Debug
  -- returns -1, with what was stored until then
  missing : Eipdebuginfo → Debug
  -- reads in front of the table
  outside : Debug

abbrev pub no_info : ℕ → Eipdebuginfo
no_info addr = record {
  eip_file = none;
  eip_line = 0;
  eip_fn_name = none;
  eip_fn_namelen = 9;
  eip_fn_addr = addr;
  eip_fn_narg = 0;
}

module _ (t : Tables) where
  -- A search whose region starts at the index `left_end - 1`.
  unfoldable pub binsearch_from : ℕ → ℕ → ℕ → ℕ → Option Region
  binsearch_from zero right_end type addr = none
  binsearch_from (suc left) right_end type addr = stab_binsearch t.stabs type left right_end addr

  -- strfind(info->eip_fn_name, ':') - info->eip_fn_name; there is no ':' in "<unknown>".
  unfoldable pub name_length : Option ℕ → ℕ
  name_length none = 9
  name_length (some n) = elim (strfind t.stabstr_size t.stabstr n 0x3a) [
    | none ↦ 0
    | some p ↦ p - n
  ]

  -- `stabs[i].n_strx < stabstr_end - stabstr`, and the string there.
  unfoldable pub name_at : ℕ → Option ℕ
  name_at i = if ltb ((t.stabs i).n_strx) t.stabstr_size then some ((t.stabs i).n_strx) else none

  -- The loop that looks for the file of a line, down from `lfile + count - 1`.
  unfoldable pub file_of_line : ℕ → ℕ → Option ℕ
  file_of_line lfile zero = none
  file_of_line lfile (suc count) =
      let rest = file_of_line lfile count in
      let s = t.stabs (lfile + count) in
      if s.n_type == n_sol || (s.n_type == n_so && not (s.n_value == 0))
      then some (lfile + count)
      else rest

  -- The parameters from `i` on, at most `count`.
  unfoldable pub count_params : ℕ → ℕ → ℕ
  count_params i zero = 0
  count_params i (suc count) =
      let rest = count_params (i + 1) count in if (t.stabs i).n_type == n_psym then rest + 1 else 0

  -- The file name and the number of arguments; `fun` is the region of the function.
  unfoldable pub debug_args : Region → ℕ → ℕ → Eipdebuginfo → Debug
  debug_args fun lfile lline info =
      let named = record info {
        eip_file = elim (file_of_line lfile (lline + 1 - lfile)) [
          | none ↦ none
          | some i ↦ name_at i
        ];
      } in
      found (
        if ltb fun.left_end fun.right_end
        then record named {
          eip_fn_narg = count_params fun.left_end (fun.right_end - 1 - fun.left_end);
        }
        else named)

  -- The line that the search has left; `left_end` and `right_end` are its region.
  unfoldable pub debug_line_found : Region → ℕ → ℕ → ℕ → Eipdebuginfo → Debug
  debug_line_found fun lfile zero right_end info = outside
  debug_line_found fun lfile (suc lline) right_end info =
      if leb (suc lline) right_end
      then debug_args fun lfile lline (record info { eip_line = (t.stabs lline).n_desc })
      else missing info

  -- The search for the line within `lines`.
  unfoldable pub debug_line : Region → ℕ → Region → ℕ → Eipdebuginfo → Debug
  debug_line fun lfile lines addr info =
      elim (binsearch_from lines.left_end lines.right_end n_sline addr) [
        | none ↦ outside
        | some line ↦ debug_line_found fun lfile line.left_end line.right_end info
      ]

  -- The function that the search has left, within the region of a file.
  unfoldable pub debug_function : Region → ℕ → ℕ → ℕ → Eipdebuginfo → Debug
  debug_function file zero right_end addr info = outside
  debug_function file (suc lfun) right_end addr info =
      let lfile = file.left_end - 1 in
      let fun : Region = record { left_end = suc lfun; right_end = right_end } in
      let name : Option ℕ = elim (name_at lfun) [ none ↦ info.eip_fn_name | some n ↦ some n ] in
      let start = (t.stabs lfun).n_value in
      if leb (suc lfun) right_end
      then debug_line fun lfile fun ((addr + 2 ^ 32 - start) % 2 ^ 32) (record info {
        eip_fn_name = name;
        eip_fn_addr = start;
        eip_fn_namelen = name_length name;
      })
      else debug_line fun lfile file addr
          (record info { eip_fn_addr = addr; eip_fn_namelen = name_length info.eip_fn_name })

  -- The part after the choice of the tables.
  unfoldable pub debug_search : ℕ → Debug
  debug_search addr =
      let info = no_info addr in
      if t.stabstr_size == 0 || not (t.stabstr (t.stabstr_size - 1) == 0)
      then missing info
      else elim (stab_binsearch t.stabs n_so 0 t.stab_count addr) [
        | none ↦ outside
        | some file ↦
            if file.left_end == 1
            then missing info
            else elim (binsearch_from file.left_end file.right_end n_fun addr) [
              | none ↦ outside
              | some fun ↦ debug_function file fun.left_end fun.right_end addr info
            ]
      ]

-- `user` holds the tables that the current environment names at USTABDATA.
unfoldable debuginfo_eip : Tables → Tables → ℕ → Debug
debuginfo_eip kern user addr =
    if leb ulim addr then debug_search kern addr else debug_search user addr
