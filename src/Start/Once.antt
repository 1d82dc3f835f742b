-- ===== src/Start/Once.antt =====
-- kern/init.c and kern/monitor.c: panics, and what happens between them.
use tp_prom.Prelude.{ℕ, ◌≡◌, refl, ap, ◌∙◌, Option, none, some, List, [], ◌∷◌, ◌++◌, ◌>>=◌}
use tp_prom.Format.Flags.{word, text}
use tp_prom.Format.Print.{print, vprintfmt}
use tp_prom.Console.Screen.{Terminal}
use tp_prom.Console.Screen.Bounds.{OnScreen}
use tp_prom.Console.Screen.Text.{put_text, put_text-append}
use tp_prom.Console.Output.{cprintf, cprintf-put_text, put_text-OnScreen}
use tp_prom.Start.{System, Report, banner, trailer, print_report, panic}

-- "Welcome to the JOS kernel monitor!\n" and "Type 'help' for a list of commands.\n"
abbrev pub welcome_line : List ℕ
welcome_line =
    b'W' ∷ b'e' ∷ b'l' ∷ b'c' ∷ b'o' ∷ b'm' ∷ b'e' ∷ b' ' ∷ b't' ∷ b'o' ∷ b' ' ∷ b't' ∷ b'h' ∷ b'e'
    ∷ b' ' ∷ b'J' ∷ b'O' ∷ b'S' ∷ b' ' ∷ b'k' ∷ b'e' ∷ b'r' ∷ b'n' ∷ b'e' ∷ b'l' ∷ b' ' ∷ b'm'
    ∷ b'o' ∷ b'n' ∷ b'i' ∷ b't' ∷ b'o' ∷ b'r' ∷ b'!' ∷ 10 ∷ []

abbrev pub help_hint : List ℕ
help_hint =
    b'T' ∷ b'y' ∷ b'p' ∷ b'e' ∷ b' ' ∷ 39 ∷ b'h' ∷ b'e' ∷ b'l' ∷ b'p' ∷ 39 ∷ b' ' ∷ b'f' ∷ b'o'
    ∷ b'r' ∷ b' ' ∷ b'a' ∷ b' ' ∷ b'l' ∷ b'i' ∷ b's' ∷ b't' ∷ b' ' ∷ b'o' ∷ b'f' ∷ b' ' ∷ b'c'
    ∷ b'o' ∷ b'm' ∷ b'm' ∷ b'a' ∷ b'n' ∷ b'd' ∷ b's' ∷ b'.' ∷ 10 ∷ []

-- monitor up to its loop.
unfoldable pub enter_monitor : System → Option System
enter_monitor s = do
  p ← cprintf welcome_line [] s.terminal
  q ← cprintf help_hint [] p.1
  some (record s { terminal = q.1 })

-- What happens once the kernel runs: a panic, which enters the monitor, or text that is written, by
-- the loop of the monitor or by the code that it runs.
pub data Event : Type 0 where
  panics : Report → Event
  writes : List ℕ → Event

unfoldable pub happens : Event → System → Option System
happens (panics r) s = panic r s >>= enter_monitor
happens (writes out) s = some (record s { terminal = put_text out s.terminal })

unfoldable pub history : List Event → System → Option System
history [] s = some s
history (e ∷ es) s = happens e s >>= history es

-- What is on the console of events after a panic: of a panic, the lines of the monitor alone.
abbrev pub written : List Event → List ℕ
written [] = []
written (panics r ∷ es) = (welcome_line ++ help_hint) ++ written es
written (writes out ∷ es) = out ++ written es

welcome_printed : print welcome_line [] ≡ some welcome_line
unfolding print vprintfmt
welcome_printed = refl

hint_printed : print help_hint [] ≡ some help_hint
unfolding print vprintfmt
hint_printed = refl

enter_monitor_lem :
    (o : Option (List ℕ)) (t : Terminal)
    → OnScreen t
    → enter_monitor (record { panicstr = o; terminal = t })
      ≡ some (record { panicstr = o; terminal = put_text (welcome_line ++ help_hint) t })
unfolding enter_monitor
enter_monitor_lem o t v =
    let a = cprintf-put_text welcome_line [] welcome_line t welcome_printed v in
    let b = cprintf-put_text help_hint [] help_hint (put_text welcome_line t) hint_printed a.1 in
    rw a.0 (
      rw b.0 (
        ap (λ z. some (record { panicstr = o; terminal = z }))
          (put_text-append welcome_line help_hint t)))

history_after :
    (es : List Event) (fmt : List ℕ) (t : Terminal)
    → OnScreen t
    → history es (record { panicstr = some fmt; terminal = t })
      ≡ some (record { panicstr = some fmt; terminal = put_text (written es) t })
unfolding history happens panic
history_after [] fmt t v = refl
history_after (panics r ∷ es) fmt t v =
    let w = welcome_line ++ help_hint in
    rw (enter_monitor_lem (some fmt) t v) (
      history_after es fmt (put_text w t) (put_text-OnScreen w t v)
      ∙ ap (λ z. some (record { panicstr = some fmt; terminal = z }))
          (put_text-append w (written es) t))
history_after (writes out ∷ es) fmt t v =
    history_after es fmt (put_text out t) (put_text-OnScreen out t v)
    ∙ ap (λ z. some (record { panicstr = some fmt; terminal = z }))
        (put_text-append out (written es) t)

module _ (r : Report) (front out back : List ℕ) where
  print_report_lem :
      (head tail : List ℕ) (t : Terminal)
      → print head (text (some (r.file ++ (0 ∷ []))) ∷ word r.line ∷ []) ≡ some front
      → print r.fmt r.args ≡ some out
      → print tail [] ≡ some back
      → OnScreen t
      → print_report head tail r t ≡ some (put_text (front ++ out ++ back) t)
  unfolding print_report
  print_report_lem head tail t e e' e'' v =
      let a =
        cprintf-put_text head (text (some (r.file ++ (0 ∷ []))) ∷ word r.line ∷ []) front t e v in
      let b = cprintf-put_text r.fmt r.args out (put_text front t) e' a.1 in
      let c = cprintf-put_text tail [] back (put_text out (put_text front t)) e'' b.1 in
      rw a.0 (
        rw b.0 (
          rw c.0 (
            ap some (
              ap (put_text back) (put_text-append front out t)
              ∙ put_text-append (front ++ out) back t))))

  pub panic_first :
      (t : Terminal)
      → print banner (text (some (r.file ++ (0 ∷ []))) ∷ word r.line ∷ []) ≡ some front
      → print r.fmt r.args ≡ some out
      → print trailer [] ≡ some back
      → OnScreen t
      → panic r (record { panicstr = none; terminal = t })
        ≡ some (record { panicstr = some r.fmt; terminal = put_text (front ++ out ++ back) t })
  unfolding panic
  panic_first t e e' e'' v = rw (print_report_lem banner trailer t e e' e'' v) refl

  -- Where the three formats of a first panic print `front`, `out` and `back`, and the position is on
  -- the display: the kernel prints these, keeps the format in `panicstr`, and enters the monitor. Of
  -- everything that happens after that, the text that is written stands on the console, and of each
  -- further panic the lines of the monitor alone; `panicstr` stays.
  pub panics_once :
      (es : List Event) (t : Terminal)
      → print banner (text (some (r.file ++ (0 ∷ []))) ∷ word r.line ∷ []) ≡ some front
      → print r.fmt r.args ≡ some out
      → print trailer [] ≡ some back
      → OnScreen t
      → history (panics r ∷ es) (record { panicstr = none; terminal = t })
        ≡ some (record {
          panicstr = some r.fmt;
          terminal = put_text (front ++ out ++ back ++ written (panics r ∷ es)) t;
        })
  unfolding history happens
  panics_once es t e e' e'' v =
      let report = front ++ out ++ back in
      let w = welcome_line ++ help_hint in
      let shown = put_text-OnScreen report t v in
      rw (panic_first t e e' e'' v) (
        rw (enter_monitor_lem (some r.fmt) (put_text report t) shown) (
          history_after es r.fmt (put_text w (put_text report t))
            (put_text-OnScreen w (put_text report t) shown)
          ∙ ap (λ z. some (record { panicstr = some r.fmt; terminal = z }))
              (put_text-append w (written es) (put_text report t)
                ∙ put_text-append report (w ++ written es) t)))
