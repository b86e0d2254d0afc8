-- ===== src/FilePatterns/LastWins.antt =====
-- The order of patterns in `FilePatternMatcher` (modal/file_pattern_matcher.py): the last that applies
-- decides.
use modal_client.Prelude.{
  ℕ, ◌≡◌, refl, Bool, true, false, not, Bool-cases, inl, inr, Option, ok, List, [], ◌∷◌,
  if◌then◌else◌, All,
}
use modal_client.FilePatterns.Text.{Text, text_eq, normpath}
use modal_client.FilePatterns.Pattern.{Pattern}
use modal_client.FilePatterns.Matcher.{hits, matches_from, matches, same_bool}

module _ (sep : ℕ) (re_compile : Text → Option (Text → Bool)) where
  -- a test that says which patterns match the path or one of its parents, as `hits` finds it
  abbrev pub Decides : (Pattern → Bool) → Text → Pattern → Type 0
  Decides applies path p = hits sep re_compile p path ≡ ok (applies p)

  -- whether the last pattern that applies, if any, is no exclusion
  unfoldable pub last_decides : (Pattern → Bool) → List Pattern → Bool → Bool
  last_decides applies [] verdict = verdict
  last_decides applies (p ∷ ps) verdict =
      last_decides applies ps (if applies p then not p.exclusion else verdict)

  skipped_is_same :
      (applies exclusion matched : Bool)
      → same_bool exclusion matched ≡ false
      → (if applies then not exclusion else matched) ≡ matched
  skipped_is_same true true false h = refl
  skipped_is_same true false true h = refl
  skipped_is_same false e m h = refl
  skipped_is_same true true true h = cc
  skipped_is_same true false false h = cc

  pub matches_from-last_decides :
      (applies : Pattern → Bool) (path : Text) (ps : List Pattern) (matched : Bool)
      → All (Decides applies path) ps
      → matches_from sep re_compile path ps matched ≡ ok (last_decides applies ps matched)
  unfolding matches_from last_decides
  matches_from-last_decides applies path [] matched h = refl
  matches_from-last_decides applies path (p ∷ ps) matched (now, later) =
      elim (Bool-cases (same_bool p.exclusion matched)) [
        | inl tried ↦ rw (tried, now) (matches_from-last_decides applies path ps _ later)
        | inr skipped ↦
            rw (skipped, skipped_is_same (applies p) p.exclusion matched skipped)
              (matches_from-last_decides applies path ps matched later)
      ]

  -- If every pattern compiles, a path other than the root is selected exactly if the last pattern that
  -- matches it or one of its parents is no exclusion, although patterns that cannot change the answer are
  -- not tried.
  pub matches-last_decides :
      (applies : Pattern → Bool) (path : Text) (ps : List Pattern)
      → text_eq (normpath sep path) (b'.' ∷ []) ≡ false
      → All (Decides applies (normpath sep path)) ps
      → matches sep re_compile ps path ≡ ok (last_decides applies ps false)
  unfolding matches
  matches-last_decides applies path ps inside h =
      rw inside (matches_from-last_decides applies (normpath sep path) ps false h)
