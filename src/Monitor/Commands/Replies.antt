-- ===== src/Monitor/Commands/Replies.antt =====
-- What a command prints and returns.
use tp_prom.Prelude.{
  ℕ, zero, suc, ◌+◌, ◌<◌, ◌≡◌, refl, true, Option, none, some, List, [], ◌∷◌, ◌++◌, map, length,
}
use tp_prom.Prelude.Int.{pos}
use tp_prom.Strings.Scan.{c_string}
use tp_prom.Format.Flags.{text}
use tp_prom.Format.Convert.{extend}
use tp_prom.Console.Screen.{Terminal}
use tp_prom.Console.Screen.Bounds.{OnScreen}
use tp_prom.Console.Screen.Text.{put_text}
use tp_prom.Console.Output.{cprintf-put_text}
use tp_prom.Monitor.{call, unknown_command, maxargs, runcmd}
use tp_prom.Monitor.Parse.{Piece, Separated, Blanks, Points, render, words}
use tp_prom.Monitor.Dispatch.{IsFirst, names, runcmd-Runs, word-NoNul}
use tp_prom.Monitor.Commands.{Symbols, unknown_line, func, perform, run_command}
use tp_prom.Monitor.Commands.Texts.{IsLinked, help_line_1, help_line_2, unknown_text, Replies}
use tp_prom.Monitor.Commands.Printed.{
  print_string-c_string, print-unknown_line, mon_help_lem, mon_kerninfo_lem,
}

-- A command of 1 to 15 words, on a console whose position is on its display, returns 0. Where the
-- first word is "help" it prints the two commands; where it is "kerninfo", the addresses of the
-- kernel's symbols with eight hexadecimal digits, and the size of the kernel in kilobytes, rounded
-- up; and else that the command is unknown.
pub run_command-Replies :
    (s : Symbols) (bs w : List ℕ) (ps : List Piece) (trail rest : List ℕ) (t : Terminal)
    → IsLinked s
    → Separated true ((bs, w) ∷ ps)
    → Blanks trail
    → length ps + 1 < maxargs
    → OnScreen t
    → (found : Option ℕ) × (out : List ℕ) × IsFirst names w found
      × Replies s w found out
      × (run_command s (render ((bs, w) ∷ ps) (trail ++ (0 ∷ rest))) t
          ≡ some (pos 0, put_text out t))
unfolding run_command perform func
run_command-Replies s bs w ps trail rest t linked sep blanks few v =
    let (o, os, buf, found, (points, first, e)) = runcmd-Runs bs w ps trail rest sep blanks few in
    answer o os buf found points first e
  where
    answer :
        (o : ℕ) (os buf : List ℕ) (found : Option ℕ)
        → Points buf (o ∷ os) (w ∷ words ps)
        → IsFirst names w found
        → runcmd (render ((bs, w) ∷ ps) (trail ++ (0 ∷ rest)))
          ≡ some (elim found [ none ↦ unknown_command o buf | some k ↦ call k (o ∷ os) buf ])
        → (found : Option ℕ) × (out : List ℕ) × IsFirst names w found
          × Replies s w found out
          × (run_command s (render ((bs, w) ∷ ps) (trail ++ (0 ∷ rest))) t
              ≡ some (pos 0, put_text out t))
    answer o os buf none ((u, at), others) first e =
        let p =
          print-unknown_line (c_string w u) (map extend w)
            (print_string-c_string w u (word-NoNul w sep.2.1)) in
        let h =
          cprintf-put_text unknown_line (text (some (c_string w u)) ∷ []) (unknown_text w) t p v in
        (none, unknown_text w, first, refl, rw (e, at, h.0) refl)
    answer o os buf (some zero) points first e =
        (some 0, help_line_1 ++ help_line_2, first, refl, rw e (mon_help_lem t v))
    answer o os buf (some (suc zero)) points first e =
        let (out, r, p) = mon_kerninfo_lem s linked t v in (some 1, out, first, r, rw e p)
    answer o os buf (some (suc (suc k))) points (bad, before) e = absurd (cc)
