-- ===== src/Terminal/Runs.antt =====
-- Any sequence of calls of apue.3e/lib/ttymodes.c with one terminal.
use unix_system_programming.Prelude.{
  subst, ℕ, ◌≡◌, ◌≢◌, ◌⊎◌, inl, inr, refl, sym, true, List, [], ◌∷◌, Option, none, some, arith,
}
use unix_system_programming.Terminal.{
  Termios, reset, raw, cbreak, Tty, Driver, success, is_reset, is_raw, is_cbreak, cbreak_of, raw_of,
  tty_cbreak, tty_raw, tty_reset, reset_saved, tty_atexit,
}
use unix_system_programming.Terminal.Modes.{
  shows, Restores, Inv, set_mode-Inv, reset-Inv, reset_back,
}

-- A call of the library.
pub data Call : Type 0 where
  call_cbreak : Call
  call_raw : Call
  call_reset : Call
  call_atexit : Call

unfoldable pub call : Driver → Call → ℕ → Tty → Tty
call d call_cbreak fd w = (tty_cbreak d fd w).1
call d call_raw fd w = (tty_raw d fd w).1
call d call_reset fd w = (tty_reset d fd w).1
call d call_atexit fd w = tty_atexit d w

unfoldable pub run : Driver → List Call → ℕ → Tty → Tty
run d [] fd w = w
run d (c ∷ cs) fd w = run d cs fd (call d c fd w)

module _ (d : Driver) (o : Termios) (before : ℕ → Termios) (fd : ℕ) where
  atexit-Inv :
      Restores d o before fd
      → (w : Tty) → Inv d o before fd w
      → (f : Option ℕ) → (f ≡ none) ⊎ (f ≡ some fd)
      → Inv d o before fd (reset_saved d f w)
  unfolding reset_saved
  atexit-Inv restores w v none mine = v
  atexit-Inv restores w v (some f) (inl e) = ground arith
  atexit-Inv restores w v (some f) (inr e) =
      subst (λ (g : Option ℕ). Inv d o before fd (reset_saved d g w)) (sym e)
        (reset-Inv d o before fd restores w v)

  call-Inv :
      Restores d o before fd
      → (c : Call) (w : Tty) → Inv d o before fd w
      → Inv d o before fd (call d c fd w)
  unfolding call tty_cbreak tty_raw tty_atexit is_reset shows
  call-Inv restores call_cbreak w v =
      set_mode-Inv d o before fd restores cbreak_of is_cbreak cbreak w refl (λ t e. e) v
  call-Inv restores call_raw w v =
      set_mode-Inv d o before fd restores raw_of is_raw raw w refl (λ t e. e) v
  call-Inv restores call_reset w v = reset-Inv d o before fd restores w v
  call-Inv restores call_atexit w v = atexit-Inv restores w v w.savefd v.mine

  run-Inv :
      Restores d o before fd
      → (cs : List Call) (w : Tty) → Inv d o before fd w
      → Inv d o before fd (run d cs fd w)
  unfolding run
  run-Inv restores [] w v = v
  run-Inv restores (c ∷ cs) w v = run-Inv restores cs (call d c fd w) (call-Inv restores c w v)

-- The driver gives a terminal the settings back that it had at first. From the reset state, after any calls of the
-- library with this terminal, its settings fit the state; a tty_reset then succeeds, and the settings are those at
-- first. No other terminal has changed.
pub run_restores :
    (d : Driver) (cs : List Call) (fd f : ℕ) (w : Tty)
    → Restores d (w.terminal fd) w.terminal fd
    → w.state ≡ reset
    → w.savefd ≡ none
    → f ≢ fd
    → (shows (run d cs fd w).state ((run d cs fd w).terminal fd) ≡ true)
      × ((tty_reset d fd (run d cs fd w)).0 ≡ success)
      × ((tty_reset d fd (run d cs fd w)).1.terminal fd ≡ w.terminal fd)
      × ((tty_reset d fd (run d cs fd w)).1.terminal f ≡ w.terminal f)
unfolding is_reset shows
run_restores d cs fd f w restores at_reset nothing ne =
    let v0 : Inv d (w.terminal fd) w.terminal fd w = record {
      back = λ h. refl;
      kept = λ h. ground (arith, h, at_reset);
      shown = rw at_reset refl;
      mine = inl nothing;
      others = λ g other. refl;
    } in
    let v = run-Inv d (w.terminal fd) w.terminal fd restores cs w v0 in
    let (done, back) = reset_back d (w.terminal fd) w.terminal fd restores (run d cs fd w) v in
    let v2 = reset-Inv d (w.terminal fd) w.terminal fd restores (run d cs fd w) v in
    (v.shown, done, v2.back back, v2.others f ne)
