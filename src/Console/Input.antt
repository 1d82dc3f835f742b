-- ===== src/Console/Input.antt =====
-- kern/console.c: getchar, which polls until a character comes.
mod Tests
use tp_prom.Prelude.{
  ℕ, zero, suc, ◌+◌, ◌%◌, ◌<◌, ◌≡◌, ◌≢◌, refl, sym, ap, ◌∙◌, Bool, Option, none, some, List, [],
  ◌∷◌, ◌++◌, ◌==◌, true, false, ne→==, if◌then◌else◌, length, All, Returns, arith, subst,
}
use tp_prom.Console.Buffer.{Cons, buffer_size, cons_getc}
use tp_prom.Console.Buffer.Queue.{IsValid, characters, pending, first, cons_getc-first}

-- What one poll of the two devices returns.
pub record Poll : Type 0 where
  pub received : List ℕ
  pub typed : List ℕ

pub record Got : Type 0 where
  pub character : ℕ
  pub console : Cons
  pub later : List Poll

-- Over the polls in their order; `none` is a wait that does not end with them.
unfoldable pub getchar : Bool → List Poll → Cons → Option Got
getchar serial_exists [] s = none
getchar serial_exists (p ∷ ps) s =
    let (c, s') = cons_getc serial_exists p.received p.typed s in
    let rest = getchar serial_exists ps s' in
    if c == 0 then rest else some (record { character = c; console = s'; later = ps })

-- The characters that a poll brings.
abbrev pub brought : Bool → Poll → List ℕ
brought serial_exists p =
    characters (if serial_exists then p.received else []) ++ characters p.typed

pub record IsGot (c : ℕ) (cs : List ℕ) (ps : List Poll) (g : Got) : Type 0 where
  pub gives : g.character ≡ c
  pub keeps : pending g.console ≡ cs
  pub leaves : g.later ≡ ps
  pub valid : IsValid g.console

module _ (serial_exists : Bool) where
  -- One poll with nothing pending.
  poll_lem :
      (q : Poll) (s : Cons) (xs : List ℕ)
      → IsValid s
      → pending s ≡ []
      → brought serial_exists q ≡ xs
      → length xs < buffer_size
      → IsValid (cons_getc serial_exists q.received q.typed s).1
        × ((cons_getc serial_exists q.received q.typed s).0 ≡ (first xs).0)
        × (pending (cons_getc serial_exists q.received q.typed s).1 ≡ (first xs).1)
  poll_lem q s xs v empty comes fits =
      let whole =
        ap (λ z. z ++ characters (if serial_exists then q.received else []) ++ characters q.typed)
          empty
        ∙ comes in
      let h =
        cons_getc-first serial_exists q.received q.typed s v
          (subst (λ z. length z < buffer_size) (sym whole) fits) in
      let e = h.1 ∙ ap first whole in
      (h.0, ap (λ (z : ℕ × List ℕ). z.0) e, ap (λ (z : ℕ × List ℕ). z.1) e)

  -- With nothing pending: after polls that bring nothing, the first one that brings characters, less
  -- than 512 of them and the first not 0, ends getchar with the first; the others stay pending, and
  -- no poll behind it is made.
  pub getchar_lem :
      (silent : List Poll) (p : Poll) (ps : List Poll) (s : Cons) (c : ℕ) (cs : List ℕ)
      → IsValid s
      → pending s ≡ []
      → All (λ q. brought serial_exists q ≡ []) silent
      → brought serial_exists p ≡ c ∷ cs
      → c ≢ 0
      → length (c ∷ cs) < buffer_size
      → Returns (getchar serial_exists (silent ++ (p ∷ ps)) s) (IsGot c cs ps)
  unfolding getchar
  getchar_lem [] p ps s c cs v empty quiet comes some_character fits =
      let h = poll_lem p s (c ∷ cs) v empty comes fits in
      let other : (cons_getc serial_exists p.received p.typed s).0 == 0 ≡ false =
        ap (λ z. z == 0) h.1 ∙ ne→== c 0 some_character in
      rw other (record { gives = h.1; keeps = h.2; leaves = refl; valid = h.0 })
  getchar_lem (q ∷ silent) p ps s c cs v empty quiet comes some_character fits =
      let h = poll_lem q s [] v empty quiet.0 (omega arith) in
      let nothing : (cons_getc serial_exists q.received q.typed s).0 == 0 ≡ true =
        ap (λ z. z == 0) h.1 in
      rw nothing (
        getchar_lem silent p ps (cons_getc serial_exists q.received q.typed s).1 c cs h.0 h.2
          quiet.1 comes some_character fits)
