-- ===== src/Console/Buffer/Queue.antt =====
-- The circular buffer as a queue of characters.
use mathlib.Core.List.{append_assoc, append-nil}
use tp_prom.Prelude.{
  inl, inr, ne→==, ℕ, zero, suc, ◌+◌, ◌-◌, ◌%◌, ◌≤◌, ◌<◌, ◌≡◌, ◌≢◌, refl, sym, ap, ◌∙◌, List, [],
  ◌∷◌, ◌++◌, ◌==◌, set, get_or, get_or-set_self, get_or-set_ne, length-set, length, length-append,
  Bool, true, false, Bool-cases, ℕ_discrete, if◌then◌else◌, arith,
}
use tp_prom.Console.Buffer.{
  Cons, buffer_size, advance, put, cons_intr, take_pending, serial_intr, cons_getc,
}

-- `n` characters of the buffer, from `pos` on.
abbrev pub collect : List ℕ → ℕ → ℕ → List ℕ
collect buf pos zero = []
collect buf pos (suc n) = get_or buf pos 0 ∷ collect buf (advance pos) n

abbrev pub count : Cons → ℕ
count s = (s.wpos + buffer_size - s.rpos) % buffer_size

-- The characters that wait to be read, the oldest first.
abbrev pub pending : Cons → List ℕ
pending s = collect s.buf s.rpos (count s)

pub record IsValid (s : Cons) : Type 0 where
  pub size : length s.buf ≡ buffer_size
  pub reads : s.rpos < buffer_size
  pub writes : s.wpos < buffer_size

-- The characters among the results of a device.
abbrev pub characters : List ℕ → List ℕ
characters [] = []
characters (c ∷ cs) = if c == 0 then characters cs else c % 256 ∷ characters cs

length-collect : (buf : List ℕ) (pos n : ℕ) → length (collect buf pos n) ≡ n
length-collect buf pos zero = refl
length-collect buf pos (suc n) = ap suc (length-collect buf (advance pos) n)

collect-set :
    (buf : List ℕ) (pos w v n : ℕ)
    → pos < buffer_size
    → w < buffer_size
    → n ≤ (w + buffer_size - pos) % buffer_size
    → collect (set buf w v) pos n ≡ collect buf pos n
collect-set buf pos w v zero hp hw h = refl
collect-set buf pos w v (suc n) hp hw h =
    let apart : w ≢ pos = λ e. absurd (omega (arith, e, h)) in
    let rest : collect (set buf w v) (advance pos) n ≡ collect buf (advance pos) n =
      collect-set buf (advance pos) w v n (ground arith) hw (ground arith) in
    rw (get_or-set_ne buf v 0 apart, rest) refl

collect-snoc :
    (buf : List ℕ) (pos n : ℕ)
    → pos < buffer_size
    → collect buf pos (suc n) ≡ collect buf pos n ++ (get_or buf ((pos + n) % buffer_size) 0 ∷ [])
collect-snoc buf pos zero h = ap (λ i. get_or buf i 0 ∷ []) (omega arith)
collect-snoc buf pos (suc n) h =
    let same : (advance pos + n) % buffer_size ≡ (pos + suc n) % buffer_size = ground arith in
    let rest = collect-snoc buf (advance pos) n (ground arith) in rw (rest, same) refl

-- A character is put behind those that wait, if fewer than 511 do.
put-IsValid : (c : ℕ) (s : Cons) → IsValid s → IsValid (put c s)
put-IsValid c s v =
    let writes = v.writes in
    record {
      size = length-set s.buf s.wpos (c % 256) ∙ v.size;
      reads = v.reads;
      writes = ground (arith, writes);
    }

pending-put :
    (c : ℕ) (s : Cons) → IsValid s → count s < 511 → pending (put c s) ≡ pending s ++ (c % 256 ∷ [])
pending-put c s v room =
    let reads = v.reads in
    let writes = v.writes in
    let size = v.size in
    let buf = set s.buf s.wpos (c % 256) in
    let more : count (put c s) ≡ suc (count s) = ground (arith, reads, writes, room) in
    let kept : collect buf s.rpos (count s) ≡ pending s =
      collect-set s.buf s.rpos s.wpos (c % 256) (count s) reads writes (omega arith) in
    let place : (s.rpos + count s) % buffer_size ≡ s.wpos = omega (arith, reads, writes) in
    let written : get_or buf s.wpos 0 ≡ c % 256 =
      get_or-set_self s.buf s.wpos (c % 256) 0 (omega (arith, size, writes)) in
    ap (collect buf s.rpos) more
    ∙ collect-snoc buf s.rpos (count s) reads
    ∙ rw (kept, place, written) refl

-- One more character than 511 makes the buffer look empty.
pending-put_full : (c : ℕ) (s : Cons) → IsValid s → count s ≡ 511 → pending (put c s) ≡ []
pending-put_full c s v full =
    let reads = v.reads in
    let writes = v.writes in
    let none_left : count (put c s) ≡ 0 = ground (arith, reads, writes, full) in
    ap (collect (set s.buf s.wpos (c % 256)) s.rpos) none_left

cons_intr-IsValid : (cs : List ℕ) (s : Cons) → IsValid s → IsValid (cons_intr cs s)
unfolding cons_intr
cons_intr-IsValid [] s v = v
cons_intr-IsValid (c ∷ cs) s v = elim (Bool-cases (c == 0)) [
  | inl e ↦ rw e (cons_intr-IsValid cs s v)
  | inr e ↦ rw e (cons_intr-IsValid cs (put c s) (put-IsValid c s v))
]

cons_intr-zero :
    (c : ℕ) (cs : List ℕ) (s : Cons) → (c == 0) ≡ true → cons_intr (c ∷ cs) s ≡ cons_intr cs s
unfolding cons_intr
cons_intr-zero c cs s e = rw e refl

cons_intr-put :
    (c : ℕ) (cs : List ℕ) (s : Cons)
    → (c == 0) ≡ false
    → cons_intr (c ∷ cs) s ≡ cons_intr cs (put c s)
unfolding cons_intr
cons_intr-put c cs s e = rw e refl

length-pending : (s : Cons) → length (pending s) ≡ count s
length-pending s = length-collect s.buf s.rpos (count s)

pending-cons_intr :
    (cs : List ℕ) (s : Cons)
    → IsValid s
    → count s + length (characters cs) < buffer_size
    → pending (cons_intr cs s) ≡ pending s ++ characters cs
unfolding cons_intr
pending-cons_intr [] s v room = sym (append-nil (pending s))
pending-cons_intr (c ∷ cs) s v room = elim (Bool-cases (c == 0)) [
  | inl e ↦
      let same : characters (c ∷ cs) ≡ characters cs = rw e refl in
      ap pending (cons_intr-zero c cs s e)
      ∙ pending-cons_intr cs s v (omega (arith, room, ap length same))
      ∙ ap (λ l. pending s ++ l) (sym same)
  | inr e ↦
      let more : characters (c ∷ cs) ≡ c % 256 ∷ characters cs = rw e refl in
      let here = pending-put c s v (omega (arith, room, ap length more)) in
      let longer = ap length here ∙ length-append (pending s) (c % 256 ∷ []) in
      let fits : count (put c s) + length (characters cs) < buffer_size =
        omega (arith, room, ap length more, longer, length-pending (put c s), length-pending s) in
      ap pending (cons_intr-put c cs s e)
      ∙ pending-cons_intr cs (put c s) (put-IsValid c s v) fits
      ∙ rw (here, more) (append_assoc (pending s) (c % 256 ∷ []) (characters cs))
]

-- The first of the characters that wait and those behind it; 0 if none waits.
abbrev pub first : List ℕ → ℕ × List ℕ
first [] = (0, [])
first (c ∷ cs) = (c, cs)

take_pending-first :
    (s : Cons)
    → IsValid s
    → IsValid (take_pending s).1
      × (((take_pending s).0, pending (take_pending s).1) ≡ first (pending s))
take_pending-first s v =
    let reads = v.reads in
    let writes = v.writes in
    elim (ℕ_discrete s.rpos s.wpos) [
      | yes e ↦
          let empty : count s ≡ 0 = omega (arith, e, writes) in
          let test : (s.rpos == s.wpos) ≡ true = ground (arith, e) in
          let nothing : pending s ≡ [] = ap (collect s.buf s.rpos) empty in
          rw test (v, rw nothing refl)
      | no d ↦
          let test : (s.rpos == s.wpos) ≡ false = ne→== s.rpos s.wpos d in
          let n = count s - 1 in
          let more : count s ≡ suc n = omega (arith, d, reads, writes) in
          let left : (s.wpos + buffer_size - advance s.rpos) % buffer_size ≡ n =
            ground (arith, d, reads, writes) in
          let head : pending s ≡ collect s.buf s.rpos (suc n) = ap (collect s.buf s.rpos) more in
          rw test (
            record { size = v.size; reads = ground (arith, reads); writes = writes },
            ap (λ k. (get_or s.buf s.rpos 0, collect s.buf (advance s.rpos) k)) left
                ∙ ap first (sym head),
          )
    ]

polled-first :
    (received typed : List ℕ) (s : Cons)
    → IsValid s
    → length (pending s ++ characters received ++ characters typed) < buffer_size
    → (IsValid (take_pending (cons_intr typed (cons_intr received s))).1)
      × ((
        (take_pending (cons_intr typed (cons_intr received s))).0,
        pending (take_pending (cons_intr typed (cons_intr received s))).1,
      )
          ≡ first (pending s ++ characters received ++ characters typed))
polled-first received typed s v room =
    let s₁ = cons_intr received s in
    let v₁ = cons_intr-IsValid received s v in
    let total = length-append (pending s ++ characters received) (characters typed) in
    let part = length-append (pending s) (characters received) in
    let waiting = length-pending s in
    let e₁ = pending-cons_intr received s v (omega (arith, room, total, part, waiting)) in
    let now = ap length e₁ in
    let waiting₁ = length-pending s₁ in
    let e₂ = pending-cons_intr typed s₁ v₁ (omega (arith, room, total, part, now, waiting₁)) in
    let (valid, taken) = take_pending-first (cons_intr typed s₁) (cons_intr-IsValid typed s₁ v₁) in
    (valid, taken ∙ ap first (e₂ ∙ ap (λ l. l ++ characters typed) e₁))

-- For a buffer whose positions are in range, while fewer than 512 characters wait together with
-- those that the devices return, cons_getc takes the first one of: those that waited, those of the
-- serial port if it exists, those of the keyboard, zeros left out. The others wait, in this order.
-- If there is none, it returns 0. The positions stay in range.
pub cons_getc-first :
    (serial_exists : Bool) (received typed : List ℕ) (s : Cons)
    → IsValid s
    → length (pending s ++ characters (if serial_exists then received else []) ++ characters typed)
      < buffer_size
    → (IsValid (cons_getc serial_exists received typed s).1)
      × ((
        (cons_getc serial_exists received typed s).0,
        pending (cons_getc serial_exists received typed s).1,
      )
          ≡ first (
              pending s ++ characters (if serial_exists then received else []) ++ characters typed))
unfolding cons_getc serial_intr cons_intr
cons_getc-first true received typed s v room = polled-first received typed s v room
cons_getc-first false received typed s v room = polled-first [] typed s v room

-- While 511 characters wait in a buffer whose positions are in range, one that is not 0 makes the
-- buffer look empty: all of them are lost.
pub cons_intr_overflow :
    (c : ℕ) (s : Cons)
    → IsValid s
    → count s ≡ buffer_size - 1
    → c ≢ 0
    → pending (cons_intr (c ∷ []) s) ≡ []
unfolding cons_intr
cons_intr_overflow c s v full some_character =
    ap pending (cons_intr-put c [] s (ne→== c 0 some_character)) ∙ pending-put_full c s v full
