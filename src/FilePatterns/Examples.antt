-- ===== src/FilePatterns/Examples.antt =====
-- Tests and concrete runs of the file patterns (modal/_utils/pattern_utils.py and
-- modal/file_pattern_matcher.py), with `/` as the separator.
use Prim.Native.Char.{code}
use Prim.Native.String.{String}
use modal_client.Prelude.{ℕ, ◌≡◌, refl, Bool, true, false, Option, some, ok, List, [], ◌∷◌, ◌++◌}
use modal_client.FilePatterns.Text.{Text, text_eq, join, normpath, split, keep_all, dirname}
use modal_client.FilePatterns.Pattern.{Pattern, new_pattern, match_path, compile, scan_all, scan}
use modal_client.FilePatterns.Ignorefile.{read_ignorefile}
use modal_client.FilePatterns.Matcher.{
  set_patterns, matches, matches_from, hits, any_matches, ancestors_from, parent_of,
}
use modal_client.FilePatterns.Paths.{IsName}
use modal_client.FilePatterns.LastWins.{last_decides, matches-last_decides}
use modal_client.FilePatterns.Pruning.{prune_selected}

abbrev codes : String → Text
codes String.[] = []
codes (String.◌∷◌ c s) = code c ∷ codes s

abbrev no_regexps : Text → Option (Text → Bool)
no_regexps _ = some (λ _. false)

abbrev slash : ℕ
slash = b'/'

ignorefile-read :
    read_ignorefile slash
      (some (codes "# note\n" ∷ codes " /a//b/../c \n" ∷ codes "\n" ∷ codes "! /d\n" ∷ []))
    ≡ codes "a/c" ∷ codes "!d" ∷ []
unfolding read_ignorefile normpath split keep_all join
ignorefile-read = refl

abbrev named : Text → Bool → Pattern
named text exclusion = record new_pattern {
  cleaned_pattern = text;
  dirs = text ∷ [];
  exclusion = exclusion;
}

patterns-read :
    set_patterns slash (codes " src/ " ∷ codes "" ∷ codes "!lib" ∷ [])
    ≡ ok (named (codes "src") false ∷ named (codes "lib") true ∷ [])
unfolding set_patterns normpath split keep_all join
patterns-read = refl

abbrev is_text : Pattern → Text → Bool
is_text p path = text_eq path p.cleaned_pattern

abbrev applies : Pattern → Bool
applies p = text_eq p.cleaned_pattern (codes "src")

abbrev both : List Pattern
both = named (codes "src") false ∷ named (codes "src/a") true ∷ []

matches-last_decides_example :
    matches slash no_regexps both (codes "src/b")
    ≡ ok (last_decides slash no_regexps applies both false)
unfolding normpath split keep_all join hits any_matches ancestors_from parent_of dirname match_path
    compile scan_all scan
matches-last_decides_example =
    matches-last_decides slash no_regexps applies (codes "src/b") both refl (refl, (refl, tt))

src-IsName : IsName slash (codes "src")
src-IsName = record {
  no_sep = (refl, (refl, (refl, tt)));
  some_text = refl;
  no_dot = refl;
  no_dots = refl;
}

file-IsName : IsName slash (codes "b")
file-IsName = record { no_sep = (refl, tt); some_text = refl; no_dot = refl; no_dots = refl }

prune_selected_example :
    matches slash no_regexps
      (named (codes "src") false ∷ [])
      (join slash (codes "src" ∷ [] ++ codes "b" ∷ []))
    ≡ ok true
unfolding normpath split keep_all join hits any_matches ancestors_from parent_of dirname match_path
    compile scan_all scan matches matches_from
prune_selected_example =
    prune_selected slash no_regexps is_text (named (codes "src") false ∷ []) (codes "src") []
      (codes "b") [] src-IsName tt (file-IsName, tt) ((λ path. refl), tt) refl refl
