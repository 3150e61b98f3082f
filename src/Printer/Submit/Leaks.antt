-- ===== src/Printer/Submit/Leaks.antt =====
-- What submit_file of print.c sends to the server when a read of the file fails.
use unix_system_programming.Prelude.{[], ◌∷◌}
use unix_system_programming.Printer.Submit.{FileRead, read_bytes, read_failed}

-- A read that gives some bytes.
abbrev pub Fills : FileRead → Type 0
Fills (read_bytes []) = ⊥
Fills (read_bytes (b ∷ buf)) = Unit
Fills (read_failed memory) = ⊥
