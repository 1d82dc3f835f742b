-- ===== src/Format/Print/Unbounded.antt =====
-- `vprintfmt` without fuel.
use tp_prom.Prelude.{ℕ, ◌≡◌, Option, none, some, List, [], ◌∷◌, ◌++◌, ◌≢◌}
use tp_prom.Format.Flags.{Arg, Found, plain, scan}
use tp_prom.Format.Convert.{convert}
use tp_prom.Format.Print.{print}

-- vprintfmt without fuel, one constructor for each way on: the end of the format, a character other
-- than '%', a sequence whose conversion prints `front` and leaves `args'`, and an unknown sequence,
-- of which the '%' is printed before vprintfmt goes on behind it.
pub data Prints : List ℕ → List Arg → List ℕ → Type 0 where
  at_end : (args : List Arg) → Prints [] args []
  plain_char :
      (c : ℕ) (fmt : List ℕ) (args : List Arg) (out : List ℕ)
      → c ≢ b'%'
      → Prints fmt args out
      → Prints (c ∷ fmt) args (c ∷ out)
  sequence :
      (fmt : List ℕ) (args : List Arg) (f : Found) (front : List ℕ) (args' : List Arg)
      (out : List ℕ)
      → scan plain none fmt args ≡ some f
      → convert print f ≡ some (some (front, args'))
      → Prints f.rest args' out
      → Prints (b'%' ∷ fmt) args (front ++ out)
  unknown_sequence :
      (fmt : List ℕ) (args : List Arg) (f : Found) (out : List ℕ)
      → scan plain none fmt args ≡ some f
      → convert print f ≡ none
      → Prints fmt f.args out
      → Prints (b'%' ∷ fmt) args (b'%' ∷ out)

text_of : Option (List ℕ) → List ℕ
text_of none = []
text_of (some out) = out
