-- ===== src/FilePatterns/Pruning.antt =====
-- Skipping a directory that `FilePatternMatcher` (modal/file_pattern_matcher.py) selects.
use modal_client.Prelude.{
  ℕ, ◌≡◌, refl, sym, ◌∙◌, ap, Bool, true, false, not, ◌||◌, Bool-cases, inl, inr, ◌⊎◌, Option, ok,
  List, [], ◌∷◌, ◌++◌, append_assoc, append-nil, if◌then◌else◌, arith, All, All-append,
}
use modal_client.FilePatterns.Text.{Text, text_eq, split, join, normpath, before_last}
use modal_client.FilePatterns.Pattern.{Pattern, match_path}
use modal_client.FilePatterns.Matcher.{
  hits, any_matches, ancestors_from, parent_of, matches, any_exclusion, can_prune_directories,
}
use modal_client.FilePatterns.Paths.{
  IsName, normpath-join, dirname-join, join_head, join-ne-dot, All-before_last, before_last-append,
  split-join,
}
use modal_client.FilePatterns.LastWins.{Decides, last_decides, matches-last_decides}

module _ (sep : ℕ) (re_compile : Text → Option (Text → Bool)) (found : Pattern → Text → Bool) where
  -- the pattern compiles, and `found` says what it matches
  abbrev pub Finds : Pattern → Type 0
  Finds p = (path : Text) → match_path re_compile sep p path ≡ ok (found p path)

  abbrev any_found : Pattern → List Text → Bool
  any_found p [] = false
  any_found p (path ∷ paths) = found p path || any_found p paths

  any_matches-any_found :
      (p : Pattern) (paths : List Text)
      → Finds p
      → any_matches sep re_compile p paths ≡ ok (any_found p paths)
  unfolding any_matches
  any_matches-any_found p [] h = refl
  any_matches-any_found p (path ∷ paths) h = elim (Bool-cases (found p path)) [
    | inl now ↦ rw (h path, now) refl
    | inr later ↦ rw (h path, later) (any_matches-any_found p paths h)
  ]

  any_found-append :
      (p : Pattern) (xs ys : List Text)
      → any_found p (xs ++ ys) ≡ (any_found p xs || any_found p ys)
  any_found-append p [] ys = refl
  any_found-append p (x ∷ xs) ys = ground (arith, any_found-append p xs ys)

  -- the path and its parents
  abbrev applies : List Text → Pattern → Bool
  applies names p =
      found p (join sep names) || any_found p (ancestors_from sep [] (before_last names))

  parent_of-one : (name : Text) → IsName sep name → parent_of sep (join sep (name ∷ [])) ≡ b'.' ∷ []
  unfolding parent_of join
  parent_of-one name n = rw (dirname-join sep name [] n tt) refl

  parent_of-more :
      (name next : Text) (more : List Text)
      → IsName sep name
      → All (IsName sep) (next ∷ more)
      → parent_of sep (join sep (name ∷ next ∷ more)) ≡ join sep (name ∷ before_last (next ∷ more))
  unfolding parent_of join
  parent_of-more [] next more n h = absurd (ground (arith, n.some_text))
  parent_of-more (c ∷ cs) next more n h =
      let (rest, e) = join_head sep c cs (before_last (next ∷ more)) in
      rw (dirname-join sep (c ∷ cs) (next ∷ more) n h, e) refl

  hits-applies :
      (name : Text) (names : List Text) (p : Pattern)
      → IsName sep name
      → All (IsName sep) names
      → Finds p
      → hits sep re_compile p (join sep (name ∷ names)) ≡ ok (applies (name ∷ names) p)
  unfolding hits
  hits-applies name names p n h finds = elim (Bool-cases (found p (join sep (name ∷ names)))) [
    | inl now ↦ rw (finds (join sep (name ∷ names)), now) refl
    | inr later ↦ rw (finds (join sep (name ∷ names)), later) (parents name names n h)
  ]
    where
      parents :
          (name : Text) (names : List Text)
          → IsName sep name
          → All (IsName sep) names
          → (if text_eq (parent_of sep (join sep (name ∷ names))) (b'.' ∷ [])
              then ok false
              else any_matches sep re_compile p
                  (ancestors_from sep [] (split sep (parent_of sep (join sep (name ∷ names))))))
            ≡ ok (any_found p (ancestors_from sep [] (before_last (name ∷ names))))
      parents name [] n h = rw (parent_of-one name n) refl
      parents name (next ∷ more) n h =
          let front : All (IsName sep) (before_last (next ∷ more)) =
            All-before_last sep (next ∷ more) h in
          rw
            (
              parent_of-more name next more n h,
              join-ne-dot sep name (before_last (next ∷ more)) n,
              split-join sep name (before_last (next ∷ more)) n front,
            )
            (any_matches-any_found p (ancestors_from sep [] (name ∷ before_last (next ∷ more)))
              finds)

  ancestors_from-append :
      (front xs ys : List Text)
      → ancestors_from sep front (xs ++ ys)
        ≡ ancestors_from sep front xs ++ ancestors_from sep (front ++ xs) ys
  unfolding ancestors_from
  ancestors_from-append front [] ys = ap (λ s. ancestors_from sep s ys) (sym (append-nil front))
  ancestors_from-append front (x ∷ xs) ys =
      ap (λ s. join sep (front ++ x ∷ []) ∷ s)
        (ancestors_from-append (front ++ x ∷ []) xs ys
          ∙ ap (λ s. ancestors_from sep (front ++ x ∷ []) xs ++ ancestors_from sep s ys)
              (append_assoc front (x ∷ []) xs))

  -- the parents and the path itself, in order
  ancestors_from_self :
      (front : List Text) (x : Text) (xs : List Text)
      → ancestors_from sep front (x ∷ xs)
        ≡ ancestors_from sep front (before_last (x ∷ xs)) ++ join sep (front ++ x ∷ xs) ∷ []
  unfolding ancestors_from
  ancestors_from_self front x [] = refl
  ancestors_from_self front x (y ∷ ys) =
      ap (λ s. join sep (front ++ x ∷ []) ∷ s)
        (ancestors_from_self (front ++ x ∷ []) y ys
          ∙ ap (λ s. ancestors_from sep (front ++ x ∷ []) (before_last (y ∷ ys)) ++ join sep s ∷ [])
              (append_assoc front (x ∷ []) (y ∷ ys)))

  -- what applies to a directory applies to all below it
  applies_below :
      (p : Pattern) (d : Text) (ds : List Text) (x : Text) (xs : List Text)
      → applies (d ∷ ds) p ≡ true
      → applies (d ∷ ds ++ x ∷ xs) p ≡ true
  applies_below p d ds x xs h =
      let dir : List Text = d ∷ ds in
      let more : List Text = before_last (x ∷ xs) in
      let ancestors : any_found p (ancestors_from sep [] (before_last (dir ++ x ∷ xs)))
          ≡ (any_found p (ancestors_from sep [] dir) || any_found p (ancestors_from sep dir more)) =
        ap (λ s. any_found p (ancestors_from sep [] s)) (before_last-append sep dir x xs)
        ∙ ap (any_found p) (ancestors_from-append [] dir more)
        ∙ any_found-append p (ancestors_from sep [] dir) (ancestors_from sep dir more) in
      let here : any_found p (ancestors_from sep [] dir) ≡ (
          any_found p (ancestors_from sep [] (before_last dir))
          || (found p (join sep dir) || false)) =
        ap (any_found p) (ancestors_from_self [] d ds)
        ∙ any_found-append p (ancestors_from sep [] (before_last dir)) (join sep dir ∷ []) in
      any_of (found p (join sep dir)) (any_found p (ancestors_from sep [] (before_last dir)))
        (found p (join sep (dir ++ x ∷ xs))) (any_found p (ancestors_from sep dir more))
        (any_found p (ancestors_from sep [] (before_last (dir ++ x ∷ xs))))
        (any_found p (ancestors_from sep [] dir)) h ancestors here
    where
      any_of :
          (a b c e l k : Bool)
          → (a || b) ≡ true
          → l ≡ (k || e)
          → k ≡ (b || (a || false))
          → (c || l) ≡ true
      any_of a b c e l k h l_is k_is = ground (arith, h, l_is, k_is)

  last_decides_mono :
      (before after : Pattern → Bool) (ps : List Pattern) (v w : Bool)
      → any_exclusion ps ≡ false
      → All (λ p. (before p ≡ false) ⊎ (after p ≡ true)) ps
      → (v ≡ false) ⊎ (w ≡ true)
      → last_decides sep re_compile before ps v ≡ true
      → last_decides sep re_compile after ps w ≡ true
  unfolding last_decides
  last_decides_mono before after [] v w none_there each (inl off) h =
      absurd (ground (arith, off, h))
  last_decides_mono before after [] v w none_there each (inr on) h = on
  last_decides_mono before after (p ∷ ps) v w none_there each start h =
      last_decides_mono before after ps (if before p then not p.exclusion else v)
        (if after p then not p.exclusion else w) (ground (arith, none_there)) each.1
        (ground (arith, none_there, each.0, start)) h

  All-Decides :
      (name : Text) (names : List Text) (ps : List Pattern)
      → IsName sep name
      → All (IsName sep) names
      → All Finds ps
      → All
          (Decides sep re_compile (applies (name ∷ names)) (normpath sep (join sep (name ∷ names))))
          ps
  All-Decides name names [] n h finds = tt
  All-Decides name names (p ∷ ps) n h (now, later) = (
    ap (hits sep re_compile p) (normpath-join sep name names n h)
        ∙ hits-applies name names p n h now,
    All-Decides name names ps n h later,
  )

  matches-applies :
      (name : Text) (names : List Text) (ps : List Pattern)
      → IsName sep name
      → All (IsName sep) names
      → All Finds ps
      → matches sep re_compile ps (join sep (name ∷ names))
        ≡ ok (last_decides sep re_compile (applies (name ∷ names)) ps false)
  matches-applies name names ps n h finds =
      matches-last_decides sep re_compile (applies (name ∷ names)) (join sep (name ∷ names)) ps
        (ap (λ path. text_eq path (b'.' ∷ [])) (normpath-join sep name names n h)
          ∙ join-ne-dot sep name names n)
        (All-Decides name names ps n h finds)

  All-below :
      (d : Text) (ds : List Text) (x : Text) (xs : List Text) (ps : List Pattern)
      → All (λ p. (applies (d ∷ ds) p ≡ false) ⊎ (applies (d ∷ ds ++ x ∷ xs) p ≡ true)) ps
  All-below d ds x xs [] = tt
  All-below d ds x xs (p ∷ ps) = (
    elim (Bool-cases (applies (d ∷ ds) p)) [
      | inl on ↦ inr (applies_below p d ds x xs on)
      | inr off ↦ inl off
    ],
    All-below d ds x xs ps,
  )

  -- If `can_prune_directories` holds and every pattern compiles, then whatever lies below a directory that
  -- is selected is selected too, at any depth, so the directory can be skipped.
  pub prune_selected :
      (ps : List Pattern) (d : Text) (ds : List Text) (x : Text) (xs : List Text)
      → IsName sep d
      → All (IsName sep) ds
      → All (IsName sep) (x ∷ xs)
      → All Finds ps
      → can_prune_directories ps ≡ true
      → matches sep re_compile ps (join sep (d ∷ ds)) ≡ ok true
      → matches sep re_compile ps (join sep (d ∷ ds ++ x ∷ xs)) ≡ ok true
  prune_selected ps d ds x xs n h below finds prunes selected =
      let on : last_decides sep re_compile (applies (d ∷ ds)) ps false ≡ true =
        cc (matches-applies d ds ps n h finds, selected) in
      matches-applies d (ds ++ x ∷ xs) ps n (All-append (IsName sep) ds (x ∷ xs) h below) finds
      ∙ ap ok (
          last_decides_mono (applies (d ∷ ds)) (applies (d ∷ ds ++ x ∷ xs)) ps false false
            (ground (arith, prunes)) (All-below d ds x xs ps) (inl refl) on)
