-- ===== src/Format/Buffer.antt =====
-- lib/printfmt.c: sprintbuf, sprintputch and vsnprintf.
use tp_prom.Prelude.{
  ℕ, zero, suc, ◌+◌, ◌-◌, ◌%◌, ◌≤◌, ◌<◌, ◌≡◌, refl, Option, none, some, List, [], ◌∷◌, ◌++◌, map,
  ltb, if◌then◌else◌, ◌>>=◌, arith, length, take, drop, set, ap, ◌∙◌, length-append, length-take,
  length-drop, sym, take-nil, lt→ltb, le→ltb, dec_lt,
}
use mathlib.Core.List.{append_assoc, append-nil}
use tp_prom.Prelude.Int.{ℤ, pos, negsuc}
use tp_prom.Format.Flags.{Arg}
use tp_prom.Format.Print.{print}

-- `buf` and `ebuf` are offsets into the object that the caller gave, whose bytes are `bytes`.
pub record SprintBuf : Type 0 where
  pub bytes : List ℕ
  pub buf : ℕ
  pub ebuf : ℕ
  pub cnt : ℕ

-- `*p = c` stores the low byte, and only inside the object.
pub store : List ℕ → ℕ → ℕ → Option (List ℕ)
store bytes p c = if ltb p (length bytes) then some (set bytes p (c % 256)) else none

pub sprintputch : ℕ → SprintBuf → Option SprintBuf
sprintputch ch b =
    if ltb b.buf b.ebuf
    then (do
      bytes ← store b.bytes b.buf ch
      some (record { bytes = bytes; buf = b.buf + 1; ebuf = b.ebuf; cnt = b.cnt + 1 }))
    else some (record b { cnt = b.cnt + 1 })

-- The calls that `vprintfmt` makes, in order.
pub put_all : List ℕ → SprintBuf → Option SprintBuf
put_all [] b = some b
put_all (ch ∷ out) b = sprintputch ch b >>= put_all out

-- The result, and the object after the call. A null `buf` is `none`.
pub vsnprintf : Option (List ℕ) → ℤ → List ℕ → List Arg → Option (ℤ × Option (List ℕ))
vsnprintf none n fmt args = some (negsuc 2, none)
vsnprintf (some bytes) (negsuc n) fmt args = some (negsuc 2, some bytes)
vsnprintf (some bytes) (pos zero) fmt args = some (negsuc 2, some bytes)
vsnprintf (some bytes) (pos (suc n)) fmt args = do
  out ← print fmt args
  b ← put_all out (record { bytes = bytes; buf = 0; ebuf = n; cnt = 0 })
  after ← store b.bytes b.buf 0
  some (pos b.cnt, some after)

no_less : (n : ℕ) → n - 0 ≡ n
no_less n = omega arith

no_more : (n : ℕ) → 0 + n ≡ n
no_more n = omega arith

-- `front` stands in place of the first bytes of the object.
abbrev pub overwrite : List ℕ → List ℕ → List ℕ
overwrite front bytes = front ++ drop (length front) bytes

abbrev low_bytes : List ℕ → List ℕ
low_bytes out = map (λ c. c % 256) out

length-overwrite :
    (front bytes : List ℕ)
    → length front ≤ length bytes
    → length (overwrite front bytes) ≡ length bytes
length-overwrite front bytes h =
    omega (arith, length-append front (drop (length front) bytes), length-drop (length front) bytes)

-- A store right behind the front makes it one longer.
set-overwrite :
    (front bytes : List ℕ) (v : ℕ)
    → length front < length bytes
    → set (overwrite front bytes) (length front) v ≡ overwrite (front ++ (v ∷ [])) bytes
set-overwrite [] [] v h = absurd (omega arith)
set-overwrite [] (b ∷ bytes) v h = refl
set-overwrite (x ∷ front) [] v h = absurd (omega arith)
set-overwrite (x ∷ front) (b ∷ bytes) v h = ap (◌∷◌ x) (set-overwrite front bytes v (omega arith))

store-overwrite :
    (front bytes : List ℕ) (c : ℕ)
    → length front < length bytes
    → store (overwrite front bytes) (length front) c
      ≡ some (overwrite (front ++ ((c % 256) ∷ [])) bytes)
unfolding store
store-overwrite front bytes c h =
    rw
      (lt→ltb (length front) (length (overwrite front bytes))
        (omega (arith, length-overwrite front bytes)))
      (ap some (set-overwrite front bytes (c % 256) h))

-- A buffer that holds `front`, after `k` characters.
abbrev holding : List ℕ → List ℕ → ℕ → ℕ → SprintBuf
holding front bytes n k = record {
  bytes = overwrite front bytes;
  buf = length front;
  ebuf = n;
  cnt = k;
}

module _ (bytes : List ℕ) (n : ℕ) (room : n < length bytes) where
  put_full :
      (front : List ℕ) (c k : ℕ)
      → n ≤ length front
      → sprintputch c (holding front bytes n k) ≡ some (holding front bytes n (k + 1))
  unfolding sprintputch
  put_full front c k h = rw (le→ltb (length front) n h)

  put_room :
      (front : List ℕ) (c k : ℕ)
      → length front < n
      → sprintputch c (holding front bytes n k)
        ≡ some (holding (front ++ ((c % 256) ∷ [])) bytes n (k + 1))
  unfolding sprintputch
  put_room front c k h =
      rw (lt→ltb (length front) n h, store-overwrite front bytes c (omega arith))
        (ap
          (λ m. some (record {
            bytes = overwrite (front ++ ((c % 256) ∷ [])) bytes;
            buf = m;
            ebuf = n;
            cnt = k + 1;
          }))
          (omega (arith, length-append front ((c % 256) ∷ []))))

  kept : List ℕ → List ℕ → List ℕ
  kept front out = front ++ take (n - length front) (low_bytes out)

  kept_full :
      (front : List ℕ) (c : ℕ) (out : List ℕ)
      → n ≤ length front
      → kept front out ≡ kept front (c ∷ out)
  unfolding kept
  kept_full front c out h = let none_left : n - length front ≡ 0 = omega arith in rw none_left

  kept_room :
      (front : List ℕ) (c : ℕ) (out : List ℕ)
      → length front < n
      → kept (front ++ ((c % 256) ∷ [])) out ≡ kept front (c ∷ out)
  unfolding kept
  kept_room front c out h =
      let one_left : n - length front ≡ suc (n - length (front ++ ((c % 256) ∷ []))) =
        omega (arith, length-append front ((c % 256) ∷ [])) in
      rw one_left (append_assoc front ((c % 256) ∷ []) _)

  kept_nil : (front : List ℕ) → kept front [] ≡ front
  unfolding kept
  kept_nil front = ap (λ t. front ++ t) (take-nil ℕ (n - length front)) ∙ append-nil front

  state_eq :
      (f g : List ℕ) (j k : ℕ)
      → f ≡ g
      → j ≡ k
      → ◌≡◌ {A = Option SprintBuf} (some (holding f bytes n j)) (some (holding g bytes n k))
  state_eq f g j k p q = λ i. some (holding (p i) bytes n (q i))

  put_all-kept :
      (out front : List ℕ) (k : ℕ)
      → length front ≤ n
      → put_all out (holding front bytes n k)
        ≡ some (holding (kept front out) bytes n (k + length out))
  unfolding put_all
  put_all-kept [] front k h =
      state_eq front (kept front []) k (k + 0) (sym (kept_nil front)) (omega arith)
  put_all-kept (c ∷ out) front k h = elim (dec_lt (length front) n) [
    | no full ↦
        rw (put_full front c k (omega arith), put_all-kept out front (k + 1) h)
          (state_eq _ _ _ _ (kept_full front c out (omega arith)) (omega arith))
    | yes room_left ↦
        rw
          (
            put_room front c k room_left,
            put_all-kept out (front ++ ((c % 256) ∷ [])) (k + 1)
                (omega (arith, length-append front ((c % 256) ∷ []))),
          )
          (state_eq _ _ _ _ (kept_room front c out room_left) (omega arith))
  ]

  length-kept : (front out : List ℕ) → length front ≤ n → length (kept front out) ≤ n
  unfolding kept
  length-kept front out h = omega (
    arith,
    length-append front (take (n - length front) (low_bytes out)),
    length-take (n - length front) (low_bytes out),
  )

  overwrite_nul :
      (front : List ℕ)
      → length front ≤ n
      → store (overwrite front bytes) (length front) 0
        ≡ some (front ++ (0 ∷ drop (length front + 1) bytes))
  overwrite_nul front h =
      store-overwrite front bytes 0 (omega arith)
      ∙ ap some (
          append_assoc front (0 ∷ []) _
          ∙ ap (λ k. front ++ (0 ∷ drop k bytes)) (length-append front (0 ∷ [])))

  kept_start : (out : List ℕ) → kept [] out ≡ take n (low_bytes out)
  unfolding kept
  kept_start out = ap (λ k. take k (low_bytes out)) (no_less n)

  -- For an object of more than `n` bytes, and a format that prints `out`, `vsnprintf` with the
  -- size `n + 1` returns the number of characters in `out`. The object then holds the first `n` of
  -- them, or all if they are fewer, and a NUL; no byte behind that has changed.
  pub vsnprintf_lem :
      (fmt : List ℕ) (args : List Arg) (out : List ℕ)
      → print fmt args ≡ some out
      → let front = take n (map (λ c. c % 256) out) in
        vsnprintf (some bytes) (pos (suc n)) fmt args
        ≡ some (pos (length out), some (front ++ (0 ∷ drop (length front + 1) bytes)))
  unfolding vsnprintf
  vsnprintf_lem fmt args out e = rw e (
      rw (put_all-kept out [] 0 (omega arith)) (
        rw (overwrite_nul (kept [] out) (length-kept [] out (omega arith))) (λ i. some (
          pos (no_more (length out) i),
          some (kept_start out i ++ (0 ∷ drop (length (kept_start out i) + 1) bytes)),
        ))))
