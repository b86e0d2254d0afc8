-- ===== src/FilePatterns/Text.antt =====
-- What modal/_utils/pattern_utils.py and modal/file_pattern_matcher.py use of Python's str and of
-- posixpath, on lists of code points.
use modal_client.Prelude.{
  ◌≡◌, refl, arith, Bool-cases, inl, inr, ℕ, Bool, true, false, not, ◌&&◌, ◌||◌, ◌==◌, leb,
  is_empty, List, [], ◌∷◌, ◌++◌, if◌then◌else◌,
}

abbrev pub Text : Type 0
Text = List ℕ

abbrev pub text_eq : Text → Text → Bool
text_eq [] [] = true
text_eq [] (d ∷ ds) = false
text_eq (c ∷ cs) [] = false
text_eq (c ∷ cs) (d ∷ ds) = (c == d) && text_eq cs ds

pub text_eq→eq : (s t : Text) → text_eq s t ≡ true → s ≡ t
text_eq→eq [] [] e = refl
text_eq→eq [] (d ∷ t) e = absurd (ground (arith, e))
text_eq→eq (c ∷ s) [] e = absurd (ground (arith, e))
text_eq→eq (c ∷ s) (d ∷ t) e = elim (Bool-cases (text_eq s t)) [
  | inl same ↦ let tail : s ≡ t = text_eq→eq s t same in ground (arith, e, tail)
  | inr other ↦ absurd (ground (arith, e, other))
]

pub text_eq_refl : (s : Text) → text_eq s s ≡ true
text_eq_refl [] = refl
text_eq_refl (c ∷ s) = ground (arith, text_eq_refl s)

-- `s.startswith(p)`
abbrev pub startswith : Text → Text → Bool
startswith s [] = true
startswith [] (d ∷ ds) = false
startswith (c ∷ cs) (d ∷ ds) = (c == d) && startswith cs ds

-- `s.endswith(p)`
abbrev pub endswith : Text → Text → Bool
endswith [] p = text_eq [] p
endswith (c ∷ cs) p = text_eq (c ∷ cs) p || endswith cs p

-- the characters that `str.strip` takes off
abbrev pub is_space : ℕ → Bool
is_space c =
    (leb 9 c && leb c 13)
    || (leb 28 c && leb c 32)
    || (c == 133)
    || (c == 160)
    || (c == 5760)
    || (leb 8192 c && leb c 8202)
    || (c == 8232)
    || (c == 8233)
    || (c == 8239)
    || (c == 8287)
    || (c == 12_288)

-- `s.lstrip(chars)`, `s.rstrip(chars)` and `s.strip(chars)`
abbrev pub lstrip : (ℕ → Bool) → Text → Text
lstrip p [] = []
lstrip p (c ∷ cs) = let rest = lstrip p cs in if p c then rest else c ∷ cs

abbrev pub rstrip : (ℕ → Bool) → Text → Text
rstrip p [] = []
rstrip p (c ∷ cs) = let rest = rstrip p cs in if p c && is_empty rest then [] else c ∷ rest

abbrev pub strip : (ℕ → Bool) → Text → Text
strip p s = rstrip p (lstrip p s)

abbrev pub to_front : ℕ → List Text → List Text
to_front c [] = (c ∷ []) ∷ []
to_front c (part ∷ parts) = (c ∷ part) ∷ parts

-- `s.split(sep)`
unfoldable pub split : ℕ → Text → List Text
split sep [] = [] ∷ []
split sep (c ∷ cs) = let parts = split sep cs in if c == sep then [] ∷ parts else to_front c parts

-- `sep.join(parts)`
unfoldable pub join : ℕ → List Text → Text
join sep [] = []
join sep (part ∷ []) = part
join sep (part ∷ next ∷ parts) = part ++ sep ∷ join sep (next ∷ parts)

abbrev dot : Text
dot = b'.' ∷ []

abbrev dots : Text
dots = b'.' ∷ b'.' ∷ []

-- one component in the loop of `normpath`, after those that were kept, the last of them first
abbrev pub keep : Bool → Text → List Text → List Text
keep absolute comp [] =
    if text_eq comp [] || text_eq comp dot
    then []
    else if text_eq comp dots && absolute
    then []
    else comp ∷ []
keep absolute comp (last ∷ kept) =
    if text_eq comp [] || text_eq comp dot
    then last ∷ kept
    else if text_eq comp dots && not (text_eq last dots)
    then kept
    else comp ∷ last ∷ kept

unfoldable pub keep_all : Bool → List Text → List Text → List Text
keep_all absolute [] kept = kept
keep_all absolute (comp ∷ comps) kept = keep_all absolute comps (keep absolute comp kept)

abbrev pub reversed : List Text → List Text → List Text
reversed [] ys = ys
reversed (x ∷ xs) ys = reversed xs (x ∷ ys)

-- one slash, or two where the path starts with exactly two
abbrev pub initial_slashes : ℕ → Text → Text
initial_slashes sep path =
    if startswith path (sep ∷ sep ∷ []) && not (startswith path (sep ∷ sep ∷ sep ∷ []))
    then sep ∷ sep ∷ []
    else if startswith path (sep ∷ [])
    then sep ∷ []
    else []

abbrev pub or_dot : Text → Text
or_dot [] = dot
or_dot (c ∷ cs) = c ∷ cs

-- `posixpath.normpath`
unfoldable pub normpath : ℕ → Text → Text
normpath sep [] = dot
normpath sep (c ∷ cs) =
    let slashes = initial_slashes sep (c ∷ cs) in
    or_dot (
      slashes ++ join sep (reversed (keep_all (not (is_empty slashes)) (split sep (c ∷ cs)) []) []))

abbrev pub before_last : List Text → List Text
before_last [] = []
before_last (part ∷ []) = []
before_last (part ∷ next ∷ parts) = part ∷ before_last (next ∷ parts)

abbrev pub head_of : ℕ → List Text → Text
head_of sep ([] ∷ []) = sep ∷ []
head_of sep parts = join sep parts

-- `posixpath.dirname`, but for the slashes that end the head of a path with a double slash: its
-- argument here is a normal path
unfoldable pub dirname : ℕ → Text → Text
dirname sep path = head_of sep (before_last (split sep path))
