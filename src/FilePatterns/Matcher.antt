-- ===== src/FilePatterns/Matcher.antt =====
-- `FilePatternMatcher` of modal/file_pattern_matcher.py.
use modal_client.Prelude.{
  ℕ, Bool, true, false, not, ◌||◌, ◌==◌, Option, Result, ok, err, ◌>>=◌, List, [], ◌∷◌, ◌++◌,
  is_empty, if◌then◌else◌,
}
use modal_client.FilePatterns.Text.{Text, text_eq, is_space, strip, split, join, normpath, dirname}
use modal_client.FilePatterns.Pattern.{
  Pattern, PatternError, illegal_exclusion, new_pattern, match_path,
}

abbrev pub same_bool : Bool → Bool → Bool
same_bool true b = b
same_bool false b = not b

module _ (sep : ℕ) where
  abbrev pub with_text : Text → Pattern → Pattern
  with_text pattern p = record p { cleaned_pattern = pattern; dirs = split sep pattern }

  -- a pattern that is not empty, after `normpath`
  abbrev pub new_exclusion : Text → Result PatternError Pattern
  new_exclusion [] = err illegal_exclusion
  new_exclusion (c ∷ cs) = ok (with_text (c ∷ cs) (record new_pattern { exclusion = true }))

  abbrev pub parse_pattern : Text → Result PatternError Pattern
  parse_pattern [] = ok (with_text [] new_pattern)
  parse_pattern (c ∷ cs) =
      if c == b'!' then new_exclusion cs else ok (with_text (c ∷ cs) new_pattern)

  abbrev pub with_pattern :
      Text → Result PatternError (List Pattern) → Result PatternError (List Pattern)
  with_pattern [] rest = rest
  with_pattern (c ∷ cs) rest =
      parse_pattern (normpath sep (c ∷ cs)) >>= λ p. rest >>= λ ps. ok (p ∷ ps)

  unfoldable pub set_patterns : List Text → Result PatternError (List Pattern)
  set_patterns [] = ok []
  set_patterns (pattern ∷ patterns) =
      with_pattern (strip (λ c. c == sep) (strip is_space pattern)) (set_patterns patterns)

  -- `sep.join(parent_path_dirs[: i + 1])` for each i
  unfoldable pub ancestors_from : List Text → List Text → List Text
  ancestors_from front [] = []
  ancestors_from front (part ∷ parts) =
      join sep (front ++ part ∷ []) ∷ ancestors_from (front ++ part ∷ []) parts

  unfoldable pub parent_of : Text → Text
  unfolding dirname
  parent_of path = let parent = dirname sep path in if is_empty parent then b'.' ∷ [] else parent

  module _ (re_compile : Text → Option (Text → Bool)) where
    -- the loop over the parents, which ends at the first that matches
    unfoldable pub any_matches : Pattern → List Text → Result PatternError Bool
    any_matches p [] = ok false
    any_matches p (path ∷ paths) =
        let rest = any_matches p paths in
        match_path re_compile sep p path >>= λ found. if found then ok true else rest

    -- whether the pattern matches the path or one of its parents
    unfoldable pub hits : Pattern → Text → Result PatternError Bool
    unfolding ancestors_from any_matches
    hits p path = match_path re_compile sep p path >>= λ found.
        if found
        then ok true
        else if text_eq (parent_of path) (b'.' ∷ [])
        then ok false
        else any_matches p (ancestors_from [] (split sep (parent_of path)))

    unfoldable pub matches_from : Text → List Pattern → Bool → Result PatternError Bool
    matches_from path [] matched = ok matched
    matches_from path (p ∷ ps) matched =
        let skipped = matches_from path ps matched in
        let tried = hits p path >>= λ found.
        matches_from path ps (if found then not p.exclusion else matched) in
        if same_bool p.exclusion matched then tried else skipped

    -- `_matches`
    unfoldable pub matches : List Pattern → Text → Result PatternError Bool
    unfolding matches_from
    matches patterns file_path =
        let path = normpath sep file_path in
        if text_eq path (b'.' ∷ []) then ok false else matches_from path patterns false

abbrev pub any_exclusion : List Pattern → Bool
any_exclusion [] = false
any_exclusion (p ∷ ps) = p.exclusion || any_exclusion ps

abbrev pub can_prune_directories : List Pattern → Bool
can_prune_directories patterns = not (any_exclusion patterns)
