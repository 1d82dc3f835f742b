-- ===== src/Debug/Info.antt =====
-- kern/kdebug.c: debuginfo_eip, on the kernel's tables: `stabs`, and `stabstr`, the bytes from
-- __STABSTR_BEGIN__ to __STABSTR_END__.
pub mod Parts
pub mod Total
pub mod Search
pub mod Function
mod Tests
use tp_prom.Prelude.{
  ℕ, zero, suc, ◌+◌, ◌-◌, ◌^◌, ◌%◌, Bool, true, false, not, ◌&&◌, ◌||◌, Option, none, some, List,
  [], ◌∷◌, ltb, leb, ◌==◌, if◌then◌else◌, ◌>>=◌, get_elem?, length, drop,
}
use tp_prom.Prelude.Int.{ℤ, pos, negsuc, pos_part, neg_part, sub_ℕ}
use tp_prom.Strings.Scan.{strfind}
use tp_prom.Paging.Address.{ulim}
use tp_prom.Debug.{Stab, Region, stab_binsearch}
use tp_prom.Debug.First.{stop_of}

-- The types N_FUN, N_SLINE, N_SO, N_SOL and N_PSYM.
abbrev pub n_fun : ℕ
n_fun = 0x24

abbrev pub n_sline : ℕ
n_sline = 0x44

abbrev pub n_so : ℕ
n_so = 0x64

abbrev pub n_sol : ℕ
n_sol = 0x84

abbrev pub n_psym : ℕ
n_psym = 0xa0

-- `struct Eipdebuginfo`. A name is the bytes from its pointer to the end of its object.
pub record Info : Type 0 where
  pub eip_file : List ℕ
  pub eip_line : ℕ
  pub eip_fn_name : List ℕ
  pub eip_fn_namelen : ℕ
  pub eip_fn_addr : ℕ
  pub eip_fn_narg : ℕ

-- The result and `*info`, or the panic for an address of a user.
pub data Outcome : Type 0 where
  user_address : Outcome
  returned : ℤ → Info → Outcome

-- "<unknown>"
abbrev pub unknown : List ℕ
unknown = b'<' ∷ b'u' ∷ b'n' ∷ b'k' ∷ b'n' ∷ b'o' ∷ b'w' ∷ b'n' ∷ b'>' ∷ 0 ∷ []

abbrev pub initial : ℕ → Info
initial addr = record {
  eip_file = unknown;
  eip_line = 0;
  eip_fn_name = unknown;
  eip_fn_namelen = 9;
  eip_fn_addr = addr;
  eip_fn_narg = 0;
}

-- `stabstr < stabstr_end && stabstr_end[-1] == 0`
abbrev pub ends_in_nul : List ℕ → Bool
ends_in_nul [] = false
ends_in_nul (c ∷ []) = c == 0
ends_in_nul (c ∷ d ∷ s) = ends_in_nul (d ∷ s)

-- `lower <= upper` for the ends of a region.
abbrev pub is_region : Region → Bool
is_region r = leb (pos_part r.left + neg_part r.right) (pos_part r.right + neg_part r.left)

-- The number of indices from `lower` to `upper`.
abbrev pub indices : ℤ → ℤ → ℕ
indices lower upper = stop_of upper - pos_part lower

-- A call of stab_binsearch. A left end of -1 comes with a right end of -1 only: the search then
-- reads stabs[-1].
unfoldable pub binsearch : List Stab → Region → ℕ → ℕ → Option Region
binsearch stabs r type addr = elim r.left [
  | pos l ↦ stab_binsearch stabs l (stop_of r.right) type addr
  | negsuc n ↦ none
]

abbrev pub stab_at : List Stab → ℤ → Option Stab
stab_at stabs (pos i) = get_elem? stabs i
stab_at stabs (negsuc i) = none

-- `stabstr + strx`, if the bounds check allows it.
abbrev pub name_at : List ℕ → ℕ → List ℕ → List ℕ
name_at stabstr strx name = if ltb strx (length stabstr) then drop strx stabstr else name

-- What the function's search leaves: `info`, `addr`, and the region of the lines.
pub record Place : Type 0 where
  pub info : Info
  pub addr : ℕ
  pub lines : Region

unfoldable pub place_function : List Stab → List ℕ → ℕ → Region → Region → Option Place
place_function stabs stabstr addr file fn =
    if is_region fn
    then (do
      stab ← stab_at stabs fn.left
      some (record {
        info = record (initial addr) {
          eip_fn_name = name_at stabstr stab.n_strx unknown;
          eip_fn_addr = stab.n_value;
        };
        addr = (addr + 2 ^ 32 - stab.n_value) % 2 ^ 32;
        lines = fn;
      }))
    else some (record { info = initial addr; addr = addr; lines = file })

-- `strfind(info->eip_fn_name, ':') - info->eip_fn_name`
unfoldable pub name_length : List ℕ → Option ℕ
name_length name = do colon ← strfind name b':'; some (length name - length colon)

unfoldable pub line_number : List Stab → Region → Option ℕ
line_number stabs lines =
    if is_region lines then (do stab ← stab_at stabs lines.left; some stab.n_desc) else some 0

-- Whether the search backwards for the file's name goes on.
abbrev pub is_file : Stab → Bool
is_file s = s.n_type == n_sol || (s.n_type == n_so && not (s.n_value == 0))

-- The loop over the `k` entries from `lfile` on, the last first; the inner `none` is
-- `lline < lfile`.
unfoldable pub file_back : List Stab → ℕ → ℕ → Option (Option Stab)
file_back stabs lfile zero = some none
file_back stabs lfile (suc k) = get_elem? stabs (lfile + k) >>= λ stab. elim (is_file stab) [
  | true ↦ some (some stab)
  | false ↦ file_back stabs lfile k
]

abbrev pub file_name : List ℕ → Option Stab → List ℕ
file_name stabstr none = unknown
file_name stabstr (some stab) = name_at stabstr stab.n_strx unknown

-- The loop that counts the parameters, over at most `k` entries from `i` on.
unfoldable pub parameters : List Stab → ℕ → ℕ → Option ℕ
parameters stabs i zero = some 0
parameters stabs i (suc k) = get_elem? stabs i >>= λ stab. elim (stab.n_type == n_psym) [
  | true ↦ parameters stabs (i + 1) k >>= λ n. some (n + 1)
  | false ↦ some 0
]

-- The part behind the search for the function.
unfoldable pub describe : List Stab → List ℕ → ℕ → Region → Region → Option Outcome
describe stabs stabstr addr file fn = do
  place ← place_function stabs stabstr addr file fn
  namelen ← name_length place.info.eip_fn_name
  lines ← binsearch stabs place.lines n_sline place.addr
  line ← line_number stabs lines
  source ← file_back stabs (pos_part file.left) (indices file.left lines.left)
  narg ← parameters stabs (pos_part fn.left + 1) (indices fn.left fn.right - 2)
  some (
      returned (pos 0) (record place.info {
        eip_fn_namelen = namelen;
        eip_line = line;
        eip_file = file_name stabstr source;
        eip_fn_narg = narg;
      }))

abbrev pub is_first : ℤ → Bool
is_first (pos i) = i == 0
is_first (negsuc i) = false

abbrev pub whole : List Stab → Region
whole stabs = record { left = pos 0; right = sub_ℕ (length stabs) 1 }

unfoldable pub debuginfo_eip : List Stab → List ℕ → ℕ → Option Outcome
debuginfo_eip stabs stabstr addr =
    if ltb addr ulim
    then some user_address
    else if not (ends_in_nul stabstr)
    then some (returned (negsuc 0) (initial addr))
    else (do
      file ← binsearch stabs (whole stabs) n_so addr
      (if is_first file.left
          then some (returned (negsuc 0) (initial addr))
          else (do fn ← binsearch stabs file n_fun addr; describe stabs stabstr addr file fn)))
