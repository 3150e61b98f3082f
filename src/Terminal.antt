-- ===== src/Terminal.antt =====
-- Terminal modes (apue.3e/lib/ttymodes.c).
pub mod Modes
pub mod Runs
mod Tests
use unix_system_programming.Prelude.{
  ℕ, suc, ◌+◌, Bool, true, false, ◌&&◌, ◌||◌, not, Option, none, some, ◌==◌, if◌then◌else◌,
}

-- The size bits of c_cflag: CS8, or another value.
pub data Size : Type 0 where
  cs8 : Size
  fewer : ℕ → Size

-- struct termios: the flags that the functions change, c_cc[VMIN] and c_cc[VTIME], and all the rest.
pub record Termios : Type 0 where
  pub echo : Bool
  pub icanon : Bool
  pub iexten : Bool
  pub isig : Bool
  pub brkint : Bool
  pub icrnl : Bool
  pub inpck : Bool
  pub istrip : Bool
  pub ixon : Bool
  pub size : Size
  pub parenb : Bool
  pub opost : Bool
  pub vmin : ℕ
  pub vtime : ℕ
  pub others : ℕ

pub data State : Type 0 where
  reset : State
  raw : State
  cbreak : State

-- The settings of each terminal, the three static variables, and the number of calls of the system that were made.
pub record Tty : Type 0 where
  pub terminal : ℕ → Termios
  pub saved : Termios
  pub savefd : Option ℕ
  pub state : State
  pub calls : ℕ

-- The system: whether a tcgetattr succeeds, and what a tcsetattr that is asked for some settings makes of those that
-- the terminal has; none is its -1, which leaves them.
pub record Driver : Type 0 where
  pub gets : ℕ → Bool
  pub sets : ℕ → Termios → Termios → Option Termios

-- The value returned is 0 or -1.
abbrev pub success : Bool
success = true

abbrev pub failure : Bool
failure = false

unfoldable pub is_reset : State → Bool
is_reset reset = true
is_reset raw = false
is_reset cbreak = false

unfoldable pub is_cs8 : Size → Bool
is_cs8 cs8 = true
is_cs8 (fewer n) = false

unfoldable pub cbreak_of : Termios → Termios
cbreak_of t = record t { echo = false; icanon = false; vmin = 1; vtime = 0 }

unfoldable pub raw_of : Termios → Termios
raw_of t = record t {
  echo = false;
  icanon = false;
  iexten = false;
  isig = false;
  brkint = false;
  icrnl = false;
  inpck = false;
  istrip = false;
  ixon = false;
  size = cs8;
  parenb = false;
  opost = false;
  vmin = 1;
  vtime = 0;
}

-- The tests that the changes stuck.
unfoldable pub is_cbreak : Termios → Bool
is_cbreak t = not (t.echo || t.icanon) && (t.vmin == 1 && t.vtime == 0)

unfoldable pub is_raw : Termios → Bool
is_raw t =
    not (t.echo || (t.icanon || (t.iexten || t.isig)))
    && (not (t.brkint || (t.icrnl || (t.inpck || (t.istrip || t.ixon))))
        && (is_cs8 t.size && (not t.parenb && (not t.opost && (t.vmin == 1 && t.vtime == 0)))))

module _ (d : Driver) where
  -- tcsetattr, with whether it succeeds.
  unfoldable pub tcsetattr : ℕ → Termios → Tty → Bool × Tty
  tcsetattr fd t w = elim (Driver.sets d w.calls (w.terminal fd) t) [
    | none ↦ (failure, record w { calls = suc w.calls })
    | some u ↦ (
      success,
      record w { terminal = λ f. if f == fd then u else w.terminal f; calls = suc w.calls },
    )
  ]

  -- The return when the changes did not stick or cannot be seen: the settings are put back.
  unfoldable pub undo : ℕ → Tty → Bool × Tty
  undo fd w = (failure, (tcsetattr fd w.saved w).1)

  -- From the check that the changes stuck.
  unfoldable pub verify : (Termios → Bool) → State → ℕ → Tty → Bool × Tty
  verify stuck mode fd w =
      let w2 = record w { calls = suc w.calls } in
      if not (Driver.gets d w.calls)
      then undo fd w2
      else if not (stuck (w.terminal fd))
      then undo fd w2
      else (success, record w2 { state = mode; savefd = some fd })

  -- tty_cbreak and tty_raw differ in what they change, in how they check it, and in the state they lead to.
  unfoldable pub set_mode : (Termios → Termios) → (Termios → Bool) → State → ℕ → Tty → Bool × Tty
  set_mode change stuck mode fd w =
      if not (is_reset w.state)
      then (failure, w)
      else if not (Driver.gets d w.calls)
      then (failure, record w { calls = suc w.calls })
      else (let w2 = record w { calls = suc w.calls; saved = w.terminal fd } in
          let (done, w3) = tcsetattr fd (change (w.terminal fd)) w2 in
          if done then verify stuck mode fd w3 else (failure, w3))

  unfoldable pub tty_cbreak : ℕ → Tty → Bool × Tty
  tty_cbreak fd w = set_mode cbreak_of is_cbreak cbreak fd w

  unfoldable pub tty_raw : ℕ → Tty → Bool × Tty
  tty_raw fd w = set_mode raw_of is_raw raw fd w

  unfoldable pub tty_reset : ℕ → Tty → Bool × Tty
  tty_reset fd w =
      if is_reset w.state
      then (success, w)
      else (let (done, w2) = tcsetattr fd w.saved w in
          if done then (success, record w2 { state = reset }) else (failure, w2))

  unfoldable pub reset_saved : Option ℕ → Tty → Tty
  reset_saved none w = w
  reset_saved (some fd) w = (tty_reset fd w).1

  unfoldable pub tty_atexit : Tty → Tty
  tty_atexit w = reset_saved w.savefd w
