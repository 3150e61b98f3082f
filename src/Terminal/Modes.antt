-- ===== src/Terminal/Modes.antt =====
-- A terminal gets its settings back, whatever calls of apue.3e/lib/ttymodes.c were made.
use unix_system_programming.Prelude.{
  ℕ, suc, ◌≡◌, ◌≢◌, ◌⊎◌, inl, inr, refl, sym, ap, subst, ◌∙◌, Bool, true, false, none, some, ◌==◌,
  if◌then◌else◌, Bool-cases, Option-cases, arith,
}
use unix_system_programming.Terminal.{
  Termios, State, reset, raw, cbreak, Tty, Driver, success, failure, is_reset, is_raw, is_cbreak,
  tcsetattr, undo, verify, set_mode, tty_reset,
}

-- What the settings of a terminal in a state satisfy.
unfoldable pub shows : State → Termios → Bool
shows reset t = true
shows raw t = is_raw t
shows cbreak t = is_cbreak t

-- The settings of one terminal at first, `o`, those of all of them, `before`, and a driver that accepts `o`.
module _ (d : Driver) (o : Termios) (before : ℕ → Termios) (fd : ℕ) where
  -- tcsetattr makes the settings that the terminal had at first, from any others.
  abbrev pub Restores : Type 0
  Restores = (n : ℕ) (now : Termios) → Driver.sets d n now o ≡ some o

  pub record Inv (w : Tty) : Type 0 where
    pub back : is_reset w.state ≡ true → w.terminal fd ≡ o
    pub kept : is_reset w.state ≡ false → w.saved ≡ o
    pub shown : shows w.state (w.terminal fd) ≡ true
    pub mine : (w.savefd ≡ none) ⊎ (w.savefd ≡ some fd)
    pub others : (f : ℕ) → f ≢ fd → w.terminal f ≡ before f

  -- The terminal with other settings.
  abbrev put : Termios → Tty → Tty
  put u w = record w { terminal = λ f. if f == fd then u else w.terminal f; calls = suc w.calls }

  put_same : (u : Termios) (w : Tty) → (put u w).terminal fd ≡ u
  put_same u w = ground arith

  put_other : (u : Termios) (w : Tty) (f : ℕ) → f ≢ fd → (put u w).terminal f ≡ w.terminal f
  put_other u w f ne = ground arith

  set_run :
      (t u : Termios) (w : Tty)
      → Driver.sets d w.calls (w.terminal fd) t ≡ some u
      → tcsetattr d fd t w ≡ (success, put u w)
  unfolding tcsetattr
  set_run t u w e = rw (e, tcsetattr) refl

  unset_run :
      (t : Termios) (w : Tty)
      → Driver.sets d w.calls (w.terminal fd) t ≡ none
      → tcsetattr d fd t w ≡ (failure, record w { calls = suc w.calls })
  unfolding tcsetattr
  unset_run t w e = rw (e, tcsetattr) refl

  restore_run : Restores → (w : Tty) → w.saved ≡ o → tcsetattr d fd w.saved w ≡ (success, put o w)
  restore_run restores w same = set_run w.saved o w (
      ap (λ (t : Termios). Driver.sets d w.calls (w.terminal fd) t) same
      ∙ restores w.calls (w.terminal fd))

  -- A terminal that has its settings again.
  restored-Inv :
      (w : Tty) (s : State)
      → is_reset s ≡ true
      → (w.savefd ≡ none) ⊎ (w.savefd ≡ some fd)
      → ((f : ℕ) → f ≢ fd → w.terminal f ≡ before f)
      → Inv (record (put o w) { state = s })
  unfolding shows is_reset
  restored-Inv w reset at_reset mine others = record {
    back = λ h. put_same o w;
    kept = λ h. ground arith;
    shown = refl;
    mine = mine;
    others = λ f ne. put_other o w f ne ∙ others f ne;
  }
  restored-Inv w raw at_reset mine others = ground arith
  restored-Inv w cbreak at_reset mine others = ground arith

  undo-Inv :
      Restores
      → (w : Tty) → w.saved ≡ o
      → is_reset w.state ≡ true
      → (w.savefd ≡ none) ⊎ (w.savefd ≡ some fd)
      → ((f : ℕ) → f ≢ fd → w.terminal f ≡ before f)
      → Inv (undo d fd w).1
  unfolding undo
  undo-Inv restores w same at_reset mine others =
      subst (λ (m : Bool × Tty). Inv m.1) (sym (restore_run restores w same))
        (restored-Inv w w.state at_reset mine others)

  -- From the check on: the terminal has new settings, and those that it had are saved.
  verify-Inv :
      Restores
      → (stuck : Termios → Bool) (mode : State) (w : Tty) → is_reset mode ≡ false
      → ((t : Termios) → stuck t ≡ true → shows mode t ≡ true)
      → w.saved ≡ o
      → is_reset w.state ≡ true
      → (w.savefd ≡ none) ⊎ (w.savefd ≡ some fd)
      → ((f : ℕ) → f ≢ fd → w.terminal f ≡ before f)
      → Inv (verify d stuck mode fd w).1
  unfolding verify
  verify-Inv restores stuck mode w other right same at_reset mine others =
      elim (Bool-cases (Driver.gets d w.calls)) [
        | inr e ↦
            rw e (undo-Inv restores (record w { calls = suc w.calls }) same at_reset mine others)
        | inl e ↦ elim (Bool-cases (stuck (w.terminal fd))) [
          | inr e2 ↦
              rw (e, e2)
                (undo-Inv restores (record w { calls = suc w.calls }) same at_reset mine others)
          | inl e2 ↦
              rw (e, e2)
                (record {
                  back = λ h. ground arith;
                  kept = λ h. same;
                  shown = right (w.terminal fd) e2;
                  mine = inr refl;
                  others = others;
                })
        ]
      ]

  -- The same settings and variables; and the same but for what is saved, in the reset state.
  idle-Inv :
      (w w2 : Tty)
      → is_reset w.state ≡ true
      → Inv w
      → w2.terminal ≡ w.terminal
      → w2.state ≡ w.state
      → w2.savefd ≡ w.savefd
      → Inv w2
  idle-Inv w w2 at_reset v terminals states savefds = record {
    back = λ h. ap (λ (t : ℕ → Termios). t fd) terminals ∙ v.back at_reset;
    kept = λ h. ground (arith, ap is_reset states);
    shown = rw (states, terminals) v.shown;
    mine = rw savefds v.mine;
    others = λ f ne. ap (λ (t : ℕ → Termios). t f) terminals ∙ v.others f ne;
  }

  pub set_mode-Inv :
      Restores
      → (change : Termios → Termios) (stuck : Termios → Bool) (mode : State) (w : Tty)
      → is_reset mode ≡ false
      → ((t : Termios) → stuck t ≡ true → shows mode t ≡ true)
      → Inv w
      → Inv (set_mode d change stuck mode fd w).1
  unfolding set_mode
  set_mode-Inv restores change stuck mode w other right v = elim (Bool-cases (is_reset w.state)) [
    | inr busy ↦ rw busy v
    | inl at_reset ↦ elim (Bool-cases (Driver.gets d w.calls)) [
      | inr e ↦
          rw (at_reset, e) (idle-Inv w (record w { calls = suc w.calls }) at_reset v refl refl refl)
      | inl e ↦
          let w2 : Tty = record w { calls = suc w.calls; saved = w.terminal fd } in
          let kept : w2.saved ≡ o = v.back at_reset in
          elim (Option-cases (Driver.sets d w2.calls (w2.terminal fd) (change (w.terminal fd)))) [
            | inl unset ↦
                rw (at_reset, e, unset_run (change (w.terminal fd)) w2 unset)
                  (idle-Inv w (record w2 { calls = suc w2.calls }) at_reset v refl refl refl)
            | inr (u, set) ↦
                rw (at_reset, e, set_run (change (w.terminal fd)) u w2 set)
                  (verify-Inv restores stuck mode (put u w2) other right kept at_reset v.mine
                    (λ f ne. put_other u w2 f ne ∙ v.others f ne))
          ]
    ]
  ]

  pub reset-Inv : Restores → (w : Tty) → Inv w → Inv (tty_reset d fd w).1
  unfolding tty_reset is_reset
  reset-Inv restores w v = elim (Bool-cases (is_reset w.state)) [
    | inl at_reset ↦ rw at_reset v
    | inr busy ↦
        rw (busy, restore_run restores w (v.kept busy)) (restored-Inv w reset refl v.mine v.others)
  ]

  pub reset_back :
      Restores
      → (w : Tty) → Inv w
      → ((tty_reset d fd w).0 ≡ success) × (is_reset (tty_reset d fd w).1.state ≡ true)
  unfolding tty_reset is_reset
  reset_back restores w v = elim (Bool-cases (is_reset w.state)) [
    | inl at_reset ↦ (rw at_reset refl, rw at_reset at_reset)
    | inr busy ↦ (
      rw (busy, restore_run restores w (v.kept busy)) refl,
      rw (busy, restore_run restores w (v.kept busy)) refl,
    )
  ]
