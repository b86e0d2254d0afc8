-- ===== src/FilePatterns/Ignorefile.antt =====
-- `read_ignorefile` of modal/_utils/pattern_utils.py, on the lines that the reader gives.
use modal_client.Prelude.{
  ℕ, Bool, false, ◌||◌, ◌==◌, Option, none, some, List, [], ◌∷◌, map, if◌then◌else◌,
}
use modal_client.FilePatterns.Text.{Text, is_space, strip, rstrip, normpath}

abbrev pub is_line_end : ℕ → Bool
is_line_end c = (c == b'\n') || (c == b'\r')

-- `pattern.replace(os.sep, "/")`
abbrev pub to_slashes : ℕ → ℕ → ℕ
to_slashes sep c = if c == sep then b'/' else c

abbrev pub drop_slash : Text → Text
drop_slash (c ∷ d ∷ rest) = if c == b'/' then d ∷ rest else c ∷ d ∷ rest
drop_slash path = path

abbrev pub cleaned : ℕ → Text → Text
cleaned sep [] = []
cleaned sep (c ∷ cs) = drop_slash (map (to_slashes sep) (normpath sep (c ∷ cs)))

-- a stripped line: nothing if it is empty
abbrev pub entry : ℕ → Text → Option Text
entry sep [] = none
entry sep (c ∷ cs) =
    if c == b'!' then some (b'!' ∷ cleaned sep (strip is_space cs)) else some (cleaned sep (c ∷ cs))

abbrev pub starts_with_hash : Text → Bool
starts_with_hash [] = false
starts_with_hash (c ∷ cs) = c == b'#'

unfoldable pub read_line : ℕ → Text → Option Text
read_line sep line =
    let pattern = rstrip is_line_end line in
    if starts_with_hash pattern then none else entry sep (strip is_space pattern)

abbrev pub cons_some : Option Text → List Text → List Text
cons_some none excludes = excludes
cons_some (some pattern) excludes = pattern ∷ excludes

unfoldable pub read_ignorefile : ℕ → Option (List Text) → List Text
unfolding read_line
read_ignorefile sep none = []
read_ignorefile sep (some []) = []
read_ignorefile sep (some (line ∷ lines)) =
    cons_some (read_line sep line) (read_ignorefile sep (some lines))
