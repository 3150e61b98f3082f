-- ===== src/Terminal/Tests.antt =====
-- A terminal that is put into raw mode, and a driver that obeys.
use unix_system_programming.Prelude.{◌≡◌, refl, true, false, [], ◌∷◌, none, some, arith}
use unix_system_programming.Terminal.{
  Termios, reset, Tty, Driver, success, cs8, tty_raw, tty_reset, set_mode, verify, tcsetattr,
  is_reset, is_raw, raw_of, is_cs8,
}
use unix_system_programming.Terminal.Modes.{shows}
use unix_system_programming.Terminal.Runs.{call_raw, call_cbreak, run, run_restores}

abbrev cooked : Termios
cooked = record {
  echo = true;
  icanon = true;
  iexten = true;
  isig = true;
  brkint = false;
  icrnl = true;
  inpck = false;
  istrip = false;
  ixon = true;
  size = cs8;
  parenb = false;
  opost = true;
  vmin = 4;
  vtime = 0;
  others = 38400;
}

abbrev obedient : Driver
obedient = record { gets = λ n. true; sets = λ n now t. some t }

abbrev console : Tty
console = record { terminal = λ f. cooked; saved = cooked; savefd = none; state = reset; calls = 0 }

becomes_raw : (tty_raw obedient 0 console).0 ≡ success
unfolding tty_raw set_mode verify tcsetattr is_reset is_raw raw_of is_cs8
becomes_raw = refl

run_restores_example :
    (shows
        (run obedient (call_raw ∷ call_cbreak ∷ []) 0 console).state
        ((run obedient (call_raw ∷ call_cbreak ∷ []) 0 console).terminal 0)
      ≡ true)
    × ((tty_reset obedient 0 (run obedient (call_raw ∷ call_cbreak ∷ []) 0 console)).0 ≡ success)
    × ((tty_reset obedient 0 (run obedient (call_raw ∷ call_cbreak ∷ []) 0 console)).1.terminal 0
        ≡ cooked)
    × ((tty_reset obedient 0 (run obedient (call_raw ∷ call_cbreak ∷ []) 0 console)).1.terminal 1
        ≡ cooked)
run_restores_example =
    run_restores obedient (call_raw ∷ call_cbreak ∷ []) 0 1 console (λ n now. refl) refl refl
      (omega arith)
