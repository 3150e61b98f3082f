-- ===== src/Clib/Pieces.antt =====
-- A text cut at every separator: the description that the tokenising loops are held against.
use unix_system_programming.Prelude.{ℕ, Bool, List, [], ◌∷◌, if◌then◌else◌}
use unix_system_programming.Clib.{Text}

-- The first piece, and the others. Two separators side by side enclose an empty piece.
unfoldable pub pieces : (ℕ → Bool) → Text → Text × List Text
pieces sep [] = ([], [])
pieces sep (c ∷ cs) = let (w, ws) = pieces sep cs in if sep c then ([], w ∷ ws) else (c ∷ w, ws)

-- The pieces that are not empty.
unfoldable pub non_empty : List Text → List Text
non_empty [] = []
non_empty ([] ∷ ws) = non_empty ws
non_empty ((c ∷ w) ∷ ws) = (c ∷ w) ∷ non_empty ws

abbrev pub all_pieces : (ℕ → Bool) → Text → List Text
all_pieces sep s = let (w, ws) = pieces sep s in w ∷ ws
