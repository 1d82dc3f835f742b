-- ===== src/Format/Print.antt =====
-- lib/printfmt.c: vprintfmt.
pub mod Fuel
pub mod Unbounded
pub mod Laws
pub mod Hex
use tp_prom.Prelude.{
  ℕ, zero, suc, Bool, true, false, Option, none, some, List, [], ◌∷◌, ◌++◌, ◌==◌, ◌+◌, length,
  ◌>>=◌,
}
use tp_prom.Format.Flags.{Arg, Found, plain, scan}
use tp_prom.Format.Convert.{convert, Out}

abbrev pub prefixed : List ℕ → Option (List ℕ) → Option (List ℕ)
prefixed front none = none
prefixed front (some out) = some (front ++ out)

-- Behind a %-escape sequence `print` does the rest. An unknown sequence prints its '%' and goes
-- on with the character behind that; the arguments taken by its flags stay taken.
unfoldable pub resume :
    (List ℕ → List Arg → Option (List ℕ)) → List ℕ → Found → Option Out → Option (List ℕ)
resume print fmt f none = prefixed (b'%' ∷ []) (print fmt f.args)
resume print fmt f (some none) = none
resume print fmt f (some (some (out, args))) = prefixed out (print f.rest args)

-- The format without its NUL, which is its end.
unfoldable pub vprintfmt : ℕ → List ℕ → List Arg → Option (List ℕ)
vprintfmt zero fmt args = none
vprintfmt (suc fuel) [] args = some []
vprintfmt (suc fuel) (c ∷ fmt) args = elim (c == b'%') [
  | false ↦ prefixed (c ∷ []) (vprintfmt fuel fmt args)
  | true ↦
      scan plain none fmt args >>= λ f. resume (vprintfmt fuel) fmt f (convert (vprintfmt fuel) f)
]

-- The fuel: see Format/Print/Unbounded.
unfoldable pub print : List ℕ → List Arg → Option (List ℕ)
print fmt args = vprintfmt (length fmt + 9) fmt args
