-- ===== src/FilePatterns/Paths.antt =====
-- Normal paths, as modal/file_pattern_matcher.py takes them apart.
use modal_client.Prelude.{
  ℕ, ◌≡◌, refl, sym, ◌∙◌, ap, Bool, false, ◌==◌, List, [], ◌∷◌, ◌++◌, arith, All,
}
use modal_client.FilePatterns.Text.{
  Text, text_eq, split, join, keep, keep_all, reversed, normpath, dirname, before_last, head_of,
}

module _ (sep : ℕ) where
  abbrev IsNoSep : ℕ → Type 0
  IsNoSep c = (c == sep) ≡ false

  -- a name of a file or directory: not empty, no `.` or `..`, and without a separator
  pub record IsName (name : Text) : Type 0 where
    pub no_sep : All IsNoSep name
    pub some_text : text_eq name [] ≡ false
    pub no_dot : text_eq name (b'.' ∷ []) ≡ false
    pub no_dots : text_eq name (b'.' ∷ b'.' ∷ []) ≡ false

  split-append :
      (name rest : Text) → All IsNoSep name → split sep (name ++ sep ∷ rest) ≡ name ∷ split sep rest
  unfolding split
  split-append [] rest h = ground arith
  split-append (c ∷ cs) rest (now, later) = rw (now, split-append cs rest later) refl

  split_name : (name : Text) → All IsNoSep name → split sep name ≡ name ∷ []
  unfolding split
  split_name [] h = refl
  split_name (c ∷ cs) (now, later) = rw (now, split_name cs later) refl

  -- names joined and split again are the names
  pub split-join :
      (name : Text) (names : List Text)
      → IsName name
      → All IsName names
      → split sep (join sep (name ∷ names)) ≡ name ∷ names
  unfolding join
  split-join name [] n h = split_name name n.no_sep
  split-join name (next ∷ names) n (now, later) =
      split-append name (join sep (next ∷ names)) n.no_sep
      ∙ ap (λ s. name ∷ s) (split-join next names now later)

  keep-IsName :
      (absolute : Bool) (name : Text) (kept : List Text)
      → IsName name
      → keep absolute name kept ≡ name ∷ kept
  keep-IsName absolute name [] n = rw (n.some_text, n.no_dot, n.no_dots) refl
  keep-IsName absolute name (last ∷ kept) n = rw (n.some_text, n.no_dot, n.no_dots) refl

  keep_all-IsName :
      (absolute : Bool) (names kept : List Text)
      → All IsName names
      → keep_all absolute names kept ≡ reversed names kept
  unfolding keep_all
  keep_all-IsName absolute [] kept h = refl
  keep_all-IsName absolute (name ∷ names) kept (now, later) =
      rw (keep-IsName absolute name kept now) (keep_all-IsName absolute names (name ∷ kept) later)

  reversed-reversed : (xs ys : List Text) → reversed (reversed xs ys) [] ≡ reversed ys xs
  reversed-reversed [] ys = refl
  reversed-reversed (x ∷ xs) ys = reversed-reversed xs (x ∷ ys)

  -- a path of names starts with the first character of the first name
  pub join_head :
      (c : ℕ) (cs : Text) (names : List Text)
      → (rest : Text) × (join sep ((c ∷ cs) ∷ names) ≡ c ∷ rest)
  unfolding join
  join_head c cs [] = (cs, refl)
  join_head c cs (next ∷ names) = (cs ++ sep ∷ join sep (next ∷ names), refl)

  normpath_relative :
      (c : ℕ) (rest : Text) (names : List Text)
      → (c == sep) ≡ false
      → All IsName names
      → split sep (c ∷ rest) ≡ names
      → join sep names ≡ c ∷ rest
      → normpath sep (c ∷ rest) ≡ c ∷ rest
  unfolding normpath
  normpath_relative c rest names other all parts whole =
      rw (other, parts, keep_all-IsName false names [] all, reversed-reversed names [], whole) refl

  -- a path of names is normal
  pub normpath-join :
      (name : Text) (names : List Text)
      → IsName name
      → All IsName names
      → normpath sep (join sep (name ∷ names)) ≡ join sep (name ∷ names)
  normpath-join [] names n h = absurd (ground (arith, n.some_text))
  normpath-join (c ∷ cs) names n h =
      let (rest, e) = join_head c cs names in
      ap (normpath sep) e
      ∙ normpath_relative c rest ((c ∷ cs) ∷ names) n.no_sep.0 (n, h)
          (sym (ap (split sep) e) ∙ split-join (c ∷ cs) names n h) e
      ∙ sym e

  pub dirname-join :
      (name : Text) (names : List Text)
      → IsName name
      → All IsName names
      → dirname sep (join sep (name ∷ names)) ≡ join sep (before_last (name ∷ names))
  unfolding dirname
  dirname-join name names n h = rw (split-join name names n h) (go name names n)
    where
      go :
          (name : Text) (names : List Text)
          → IsName name
          → head_of sep (before_last (name ∷ names)) ≡ join sep (before_last (name ∷ names))
      go [] names n = absurd (ground (arith, n.some_text))
      go (c ∷ cs) [] n = refl
      go (c ∷ cs) (next ∷ names) n = refl

  -- a path of names is not the root
  pub join-ne-dot :
      (name : Text) (names : List Text)
      → IsName name
      → text_eq (join sep (name ∷ names)) (b'.' ∷ []) ≡ false
  unfolding join
  join-ne-dot name [] n = n.no_dot
  join-ne-dot [] (next ∷ names) n = absurd (ground (arith, n.some_text))
  join-ne-dot (c ∷ []) (next ∷ names) n = ground arith
  join-ne-dot (c ∷ d ∷ cs) (next ∷ names) n = ground arith

  pub All-before_last : (names : List Text) → All IsName names → All IsName (before_last names)
  All-before_last [] h = tt
  All-before_last (name ∷ []) h = tt
  All-before_last (name ∷ next ∷ names) (now, later) = (now, All-before_last (next ∷ names) later)

  pub before_last-append :
      (names : List Text) (next : Text) (more : List Text)
      → before_last (names ++ next ∷ more) ≡ names ++ before_last (next ∷ more)
  before_last-append [] next more = refl
  before_last-append (name ∷ []) next more = refl
  before_last-append (name ∷ second ∷ names) next more =
      ap (λ s. name ∷ s) (before_last-append (second ∷ names) next more)
