-- ===== src/Monitor/Commands/Tests.antt =====
-- Tests of the commands.
use tp_prom.Prelude.{
  ℕ, ◌≡◌, ◌≢◌, refl, true, Option, some, List, [], ◌∷◌, ◌++◌, ap, length, length-replicate,
  replicate, inl, arith,
}
use tp_prom.Prelude.Int.{pos}
use tp_prom.Console.Screen.{Terminal}
use tp_prom.Console.Screen.Text.{put_text}
use tp_prom.Console.Screen.Bounds.{OnScreen}
use tp_prom.Monitor.Parse.{Separated, render}
use tp_prom.Monitor.Dispatch.{IsFirst, names}
use tp_prom.Monitor.Commands.{Symbols, run_command}
use tp_prom.Monitor.Commands.Texts.{IsLinked, Replies}
use tp_prom.Monitor.Commands.Replies.{run_command-Replies}

abbrev display : Terminal
display = record {
  serial = [];
  parallel = [];
  crt_buf = replicate 2000 0x0720;
  crt_pos = 0;
  cursor = 0;
}

display-OnScreen : OnScreen display
display-OnScreen = record {
  size = length-replicate {A = ℕ} 2000 0x0720;
  position = omega arith;
  shown = refl;
}

abbrev symbols : Symbols
symbols = record {
  start = 0x0010_000C;
  entry = 0xF010_000C;
  etext = 0xF010_1A75;
  edata = 0xF011_2300;
  end = 0xF011_2960;
}

symbols-IsLinked : IsLinked symbols
symbols-IsLinked = record {
  start = omega arith;
  low = omega arith;
  ordered = omega arith;
  top = omega arith;
  text_end = (omega arith, omega arith);
  data_end = (omega arith, omega arith);
}

filled : {x : ℕ} {xs : List ℕ} → (x ∷ xs) ≢ []
filled e = absurd (omega (arith, ap length e))

-- "kerninfo"
abbrev word : List ℕ
word = b'k' ∷ b'e' ∷ b'r' ∷ b'n' ∷ b'i' ∷ b'n' ∷ b'f' ∷ b'o' ∷ []

word-Separated : Separated true (([], word) ∷ [])
word-Separated =
    (inl refl, tt, (filled, (refl, (refl, (refl, (refl, (refl, (refl, (refl, (refl, tt))))))))), tt)

run_command-Replies_example :
    (found : Option ℕ) × (out : List ℕ) × IsFirst names word found
    × Replies symbols word found out
    × (run_command symbols (render (([], word) ∷ []) ([] ++ (0 ∷ []))) display
        ≡ some (pos 0, put_text out display))
run_command-Replies_example =
    run_command-Replies symbols [] word [] [] [] display symbols-IsLinked word-Separated tt
      (omega arith) display-OnScreen
