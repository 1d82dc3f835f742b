-- ===== src/Format/Convert.antt =====
-- lib/printfmt.c: the conversions of `vprintfmt`, with `getuint`, `getint` and the error strings
-- (inc/error.h).
pub mod Text
use Prim.Native.Char.{code}
use Prim.Native.String.{String}
use tp_prom.Prelude.{
  ℕ, zero, suc, ◌+◌, ◌-◌, ◌*◌, ◌%◌, ◌^◌, Bool, true, false, ◌&&◌, ◌||◌, not, Option, none, some,
  List, [], ◌∷◌, ◌++◌, ltb, leb, ◌==◌, if◌then◌else◌, ◌>>=◌, get_elem?, length, replicate,
}
use tp_prom.Prelude.Int.{ℤ, pos, negsuc, pos_part, neg_part, is_neg, minus, pred, sub_ℕ}
use tp_prom.Strings.Scan.{strnlen}
use tp_prom.Format.Flags.{Arg, word, wide, text, Spec, Found}
use tp_prom.Format.Number.{printnum}

-- The bytes of a text of ASCII characters.
abbrev pub codes : String → List ℕ
codes String.[] = []
codes (String.◌∷◌ c s) = code c ∷ codes s

-- The bytes with the NUL behind them.
abbrev pub literal : String → List ℕ
literal s = codes s ++ (0 ∷ [])

-- `error_string`, where the entry of 0 is null.
abbrev pub error_string : List (Option (List ℕ))
error_string =
    none
    ∷ some (literal "unspecified error")
    ∷ some (literal "bad environment")
    ∷ some (literal "invalid parameter")
    ∷ some (literal "out of memory")
    ∷ some (literal "out of environments")
    ∷ some (literal "segmentation fault")
    ∷ []

-- MAXERROR
abbrev pub max_error : ℕ
max_error = 7

unfoldable pub getuint : List Arg → ℕ → Option (ℕ × List Arg)
getuint (wide n ∷ args) lflag = if ltb 1 lflag then some (n, args) else none
getuint (word n ∷ args) lflag = if ltb 1 lflag then none else some (n, args)
getuint _ lflag = none

-- The bit pattern of the `long long`: an `int` or `long` is extended by its sign.
unfoldable pub getint : List Arg → ℕ → Option (ℕ × List Arg)
getint (wide n ∷ args) lflag = if ltb 1 lflag then some (n, args) else none
getint (word n ∷ args) lflag =
    if ltb 1 lflag then none else some (if ltb n (2 ^ 31) then n else 2 ^ 64 - 2 ^ 32 + n, args)
getint _ lflag = none

-- A `char` as an `int`: bytes of 0x80 and above are negative.
abbrev pub extend : ℕ → ℕ
extend c = if ltb c 0x80 then c else 2 ^ 32 - 256 + c

-- One character of a string, under the `#` flag.
abbrev pub shown : Bool → ℕ → ℕ
shown alt c = if alt && (ltb c b' ' || ltb b'~' c) then b'?' else extend c

-- `for (; (ch = *p++) != '\0' && (precision < 0 || --precision >= 0); width--)`
unfoldable pub print_chars : Bool → ℤ → List ℕ → Option (List ℕ)
print_chars alt precision [] = none
print_chars alt precision (c ∷ p) =
    let rest = print_chars alt (if is_neg precision then precision else pred precision) p in
    if c == 0
    then some []
    else if not (is_neg precision) && is_neg (pred precision)
    then some []
    else (do out ← rest; some (shown alt c ∷ out))

-- The bound of `strnlen`, a `size_t`.
abbrev pub as_size : ℤ → ℕ
as_size a = (2 ^ 32 + pos_part a - neg_part a) % 2 ^ 32

-- The blanks in front of a string, and the width that is left.
unfoldable pub pad_left : Spec → List ℕ → Option (List ℕ × ℤ)
pad_left spec p =
    if not (leb (pos_part spec.width) 0) && not (spec.padc == b'-')
    then (do
      n ← strnlen p (as_size spec.precision)
      let rest = minus spec.width n
      some (replicate (pos_part rest) spec.padc, if is_neg rest then rest else pos 0))
    else some ([], spec.width)

unfoldable pub print_string : Spec → List ℕ → Option (List ℕ)
print_string spec p = do
  (front, width) ← pad_left spec p
  out ← print_chars spec.altflag spec.precision p
  some (front ++ (out ++ replicate (pos_part (minus width (length out))) b' '))

abbrev or_null : Option (List ℕ) → List ℕ
or_null none = literal "(null)"
or_null (some p) = p

-- What a conversion prints, and the arguments behind it.
abbrev pub Out : Type 0
Out = Option (List ℕ × List Arg)

abbrev pub done : List ℕ → List Arg → Option (List ℕ) → Out
done front args none = none
done front args (some out) = some (front ++ out, args)

print_word : List Arg → Out
print_word (word w ∷ args) = some (w ∷ [], args)
print_word _ = none

-- `%e`: the call of `printfmt` for an error code. `err = -err` overflows for the least `int`.
pub data ErrorCall : Type 0 where
  overflow : ErrorCall
  unknown : ℕ → ErrorCall
  known : List ℕ → ErrorCall

unfoldable pub error_call : ℕ → ErrorCall
error_call w =
    let err = if ltb w (2 ^ 31) then w else 2 ^ 32 - w in
    if err == 2 ^ 31
    then overflow
    else if leb max_error err
    then unknown err
    else elim (get_elem? error_string err) [ some (some p) ↦ known p | _ ↦ unknown err ]

abbrev pub make_call : (List ℕ → List Arg → Option (List ℕ)) → ErrorCall → Option (List ℕ)
make_call print overflow = none
make_call print (unknown err) = print (codes "error %d") (word err ∷ [])
make_call print (known p) = print (codes "%s") (text (some p) ∷ [])

-- `print` is `printfmt`.
unfoldable pub print_error : (List ℕ → List Arg → Option (List ℕ)) → List Arg → Out
print_error print (word w ∷ args) = done [] args (make_call print (error_call w))
print_error print _ = none

print_text : Spec → List Arg → Out
print_text spec (text p ∷ args) = done [] args (print_string spec (or_null p))
print_text spec _ = none

-- `number:`, after the sign or the prefix.
print_number : Spec → List ℕ → ℕ → ℕ × List Arg → Out
print_number spec front base (num, args) = done front args (printnum num base spec.width spec.padc)

-- `-(long long) num` overflows for the least one.
print_signed : Spec → ℕ × List Arg → Out
print_signed spec (num, args) =
    if ltb num (2 ^ 63)
    then print_number spec [] 10 (num, args)
    else if num == 2 ^ 63
    then none
    else print_number spec (b'-' ∷ []) 10 ((2 ^ 64 - num) % 2 ^ 64, args)

print_pointer : Spec → List Arg → Out
print_pointer spec (word w ∷ args) = print_number spec (b'0' ∷ b'x' ∷ []) 16 (w, args)
print_pointer spec _ = none

-- The cases of the `switch` that print; `none` is the default case, the inner one no result.
unfoldable pub convert : (List ℕ → List Arg → Option (List ℕ)) → Found → Option Out
unfolding getuint getint print_word print_text print_number print_signed print_pointer
convert print f =
    let spec = f.spec in
    if f.ch == b'c'
    then some (print_word f.args)
    else if f.ch == b'e'
    then some (print_error print f.args)
    else if f.ch == b's'
    then some (print_text spec f.args)
    else if f.ch == b'd'
    then some (getint f.args spec.lflag >>= print_signed spec)
    else if f.ch == b'u'
    then some (getuint f.args spec.lflag >>= print_number spec [] 10)
    else if f.ch == b'o'
    then some (getuint f.args spec.lflag >>= print_number spec [] 8)
    else if f.ch == b'p'
    then some (print_pointer spec f.args)
    else if f.ch == b'x'
    then some (getuint f.args spec.lflag >>= print_number spec [] 16)
    else if f.ch == b'%'
    then some (some (f.ch ∷ [], f.args))
    else none
