-- ===== src/FilePatterns/Pattern.antt =====
-- `Pattern` of modal/_utils/pattern_utils.py. `re.compile` is a parameter: a text gives a test of paths, or
-- is refused.
use modal_client.Prelude.{
  ℕ, zero, suc, ◌+◌, Bool, true, false, ◌&&◌, ◌||◌, ◌==◌, length, Option, none, some, Result, ok,
  err, ◌>>=◌, List, [], ◌∷◌, ◌++◌, if◌then◌else◌,
}
use modal_client.FilePatterns.Text.{Text, text_eq, startswith, endswith}

pub data MatchType : Type 0 where
  unknown exact prefix suffix regexp : MatchType

pub data PatternError : Type 0 where
  bad_pattern illegal_exclusion index_error : PatternError

abbrev pub is_escape_char : ℕ → Bool
is_escape_char c =
    (c == b'.')
    || (c == b'+')
    || (c == b'(')
    || (c == b')')
    || (c == b'|')
    || (c == b'{')
    || (c == b'}')
    || (c == b'$')

abbrev pub backslash : ℕ
backslash = 92

abbrev pub esc_separator : ℕ → Text
esc_separator sep = if sep == backslash then backslash ∷ backslash ∷ [] else sep ∷ []

-- The variables of the loop: the text that is left and its index, the expression so far, the type.
pub record Scan : Type 0 where
  pub rest : Text
  pub index : ℕ
  pub reg_str : Text
  pub match_type : MatchType

-- `**`: the rest stands after the second star and a separator that follows it, and the index at the last
-- of these characters
abbrev pub after_stars : ℕ → Text → ℕ → Text → MatchType → Scan
after_stars sep [] i reg exact = record {
  rest = [];
  index = i + 1;
  reg_str = reg;
  match_type = if i == 1 then suffix else prefix;
}
after_stars sep [] i reg t = record {
  rest = [];
  index = i + 1;
  reg_str = reg ++ b'.' ∷ b'*' ∷ [];
  match_type = if i == 1 then suffix else regexp;
}
after_stars sep (c ∷ rest) i reg t = record {
  rest = c ∷ rest;
  index = i + 1;
  reg_str = reg ++ (b'(' ∷ b'.' ∷ b'*' ∷ esc_separator sep) ++ b')' ∷ b'?' ∷ [];
  match_type = if i == 1 then suffix else regexp;
}

abbrev pub stars : ℕ → Text → ℕ → Text → MatchType → Scan
stars sep [] i reg t = after_stars sep [] i reg t
stars sep (c ∷ rest) i reg t =
    if c == sep then after_stars sep rest (i + 1) reg t else after_stars sep (c ∷ rest) i reg t

abbrev pub one_star : ℕ → Text → ℕ → Text → Scan
one_star sep rest i reg = record {
  rest = rest;
  index = i + 1;
  reg_str = reg ++ (b'[' ∷ b'^' ∷ esc_separator sep) ++ b']' ∷ b'*' ∷ [];
  match_type = regexp;
}

abbrev pub star : ℕ → Text → ℕ → Text → MatchType → Scan
star sep [] i reg t = one_star sep [] i reg
star sep (c ∷ rest) i reg t =
    if c == b'*' then stars sep rest (i + 1) reg t else one_star sep (c ∷ rest) i reg

abbrev pub escape : ℕ → Text → ℕ → Text → MatchType → Scan
escape sep [] i reg t = record {
  rest = [];
  index = i + 1;
  reg_str = if sep == backslash then reg ++ esc_separator sep else reg ++ backslash ∷ [];
  match_type = t;
}
escape sep (c ∷ rest) i reg t =
    if sep == backslash
    then record {
      rest = c ∷ rest;
      index = i + 1;
      reg_str = reg ++ esc_separator sep;
      match_type = t;
    }
    else record {
      rest = rest;
      index = i + 2;
      reg_str = reg ++ backslash ∷ c ∷ [];
      match_type = regexp;
    }

abbrev pub plain : Text → ℕ → Text → MatchType → Scan
plain rest i reg t = record { rest = rest; index = i + 1; reg_str = reg; match_type = t }

-- one round of the loop, at the character `c`
unfoldable pub scan : ℕ → ℕ → Text → ℕ → Text → MatchType → Scan
scan sep c rest i reg t =
    if c == b'*'
    then star sep rest i reg t
    else if c == b'?'
    then plain rest i (reg ++ (b'[' ∷ b'^' ∷ esc_separator sep) ++ b']' ∷ []) regexp
    else if is_escape_char c
    then plain rest i (reg ++ backslash ∷ c ∷ []) t
    else if c == backslash
    then escape sep rest i reg t
    else if (c == b'[') || (c == b']')
    then plain rest i (reg ++ c ∷ []) regexp
    else plain rest i (reg ++ c ∷ []) t

-- The loop, with fuel: a round takes a character at least.
unfoldable pub scan_all : ℕ → ℕ → Text → ℕ → Text → MatchType → Text × MatchType
scan_all zero sep rest i reg t = (reg, t)
scan_all (suc fuel) sep [] i reg t = (reg, t)
scan_all (suc fuel) sep (c ∷ rest) i reg t =
    let s = scan sep c rest i reg t in scan_all fuel sep s.rest s.index s.reg_str s.match_type

pub record Pattern : Type 0 where
  pub match_type : MatchType
  pub cleaned_pattern : Text
  pub dirs : List Text
  pub test : Option (Text → Bool)
  pub exclusion : Bool

abbrev pub new_pattern : Pattern
new_pattern = record {
  match_type = unknown;
  cleaned_pattern = [];
  dirs = [];
  test = none;
  exclusion = false;
}

abbrev pub but_last_two : Text → Text
but_last_two (c ∷ d ∷ e ∷ rest) = c ∷ but_last_two (d ∷ e ∷ rest)
but_last_two _ = []

abbrev pub but_first_two : Text → Text
but_first_two (c ∷ d ∷ rest) = rest
but_first_two _ = []

module _ (re_compile : Text → Option (Text → Bool)) (sep : ℕ) where
  -- what follows the loop: an expression only where it is needed
  abbrev pub finish : Pattern → Text → MatchType → Result PatternError Pattern
  finish p reg regexp = elim (re_compile (reg ++ b'$' ∷ [])) [
    | none ↦ err bad_pattern
    | some test ↦ ok (record p { match_type = regexp; test = some test })
  ]
  finish p reg t = ok (record p { match_type = t })

  unfoldable pub compile : Pattern → Result PatternError Pattern
  unfolding scan scan_all
  compile p =
      let (reg, t) =
        scan_all (length p.cleaned_pattern) sep p.cleaned_pattern 0 (b'^' ∷ []) exact in
      finish p reg t

  -- the suffix without its separator, if it has one; an empty suffix has no first character
  abbrev pub tail_match : Text → Text → Result PatternError Bool
  tail_match [] path = err index_error
  tail_match (c ∷ rest) path = ok ((c == sep) && text_eq path rest)

  abbrev pub match_suffix : Text → Text → Result PatternError Bool
  match_suffix ending path = if endswith path ending then ok true else tail_match ending path

  abbrev pub run_test : Option (Text → Bool) → Text → Bool
  run_test none path = false
  run_test (some test) path = test path

  -- `match` on a compiled pattern
  abbrev pub match_as : MatchType → Pattern → Text → Result PatternError Bool
  match_as unknown p path = ok false
  match_as exact p path = ok (text_eq path p.cleaned_pattern)
  match_as prefix p path = ok (startswith path (but_last_two p.cleaned_pattern))
  match_as suffix p path = match_suffix (but_first_two p.cleaned_pattern) path
  match_as regexp p path = ok (run_test p.test path)

  abbrev pub compiled : MatchType → Pattern → Result PatternError Pattern
  compiled unknown p = compile p
  compiled _ p = ok p

  -- The first call compiles the pattern. The compiled pattern is the same at each call, so it is not
  -- kept here.
  unfoldable pub match_path : Pattern → Text → Result PatternError Bool
  match_path p path = compiled p.match_type p >>= λ q. match_as q.match_type q path
