-- ===== src/FilePatterns/Kinds.antt =====
-- What the kinds of pattern in modal/_utils/pattern_utils.py match.
use modal_client.Prelude.{
  ℕ, zero, suc, ◌+◌, ◌≤◌, ◌<◌, ◌≡◌, refl, sym, ◌∙◌, ap, Bool, true, false, ◌&&◌, ◌||◌, ◌==◌,
  Bool-cases, inl, inr, length, Option, Result, ok, [], ◌∷◌, ◌++◌, append-nil, if◌then◌else◌, arith,
  All,
}
use modal_client.FilePatterns.Text.{Text, text_eq, startswith, endswith}
use modal_client.FilePatterns.Pattern.{
  MatchType, exact, prefix, suffix, PatternError, Pattern, new_pattern, Scan, scan, scan_all,
  compile, match_path, backslash, esc_separator, finish, but_last_two,
}

-- a character that stands for itself
abbrev pub is_special : ℕ → Bool
is_special c = (c == b'*') || (c == b'?') || (c == backslash) || (c == b'[') || (c == b']')

abbrev pub IsPlain : ℕ → Type 0
IsPlain c = is_special c ≡ false

scan-plain :
    (sep c : ℕ) (rest : Text) (i : ℕ) (reg : Text) (t : MatchType)
    → IsPlain c
    → ((scan sep c rest i reg t).rest ≡ rest)
      × ((scan sep c rest i reg t).index ≡ i + 1)
      × ((scan sep c rest i reg t).match_type ≡ t)
unfolding scan
scan-plain sep c rest i reg t h = ground (arith, h)

scan_all-end :
    (fuel sep i : ℕ) (reg : Text) (t : MatchType) → scan_all fuel sep [] i reg t ≡ (reg, t)
unfolding scan_all
scan_all-end zero sep i reg t = refl
scan_all-end (suc fuel) sep i reg t = refl

-- a plain text keeps the type, and the loop goes on at what follows it
scan_all-plain :
    (fuel sep : ℕ) (front back : Text) (i : ℕ) (reg : Text) (t : MatchType)
    → All IsPlain front
    → length (front ++ back) ≤ fuel
    → (fuel' : ℕ) × (reg' : Text) × (j : ℕ) × (length back ≤ fuel')
      × (j ≡ i + length front)
      × (scan_all fuel sep (front ++ back) i reg t ≡ scan_all fuel' sep back j reg' t)
unfolding scan_all
scan_all-plain fuel sep [] back i reg t h le = (fuel, reg, i, le, omega arith, refl)
scan_all-plain zero sep (c ∷ front) back i reg t h le = absurd (omega (arith, le))
scan_all-plain (suc fuel) sep (c ∷ front) back i reg t (now, later) le =
    let s = scan sep c (front ++ back) i reg t in
    let (rest, index, type) = scan-plain sep c (front ++ back) i reg t now in
    let (fuel', reg', j, enough, at, e) =
      scan_all-plain fuel sep front back (i + 1) s.reg_str t later (omega (arith, le)) in
    (fuel', reg', j, enough, omega (arith, at), rw (rest, index, type) e)

scan_all-plain_end :
    (fuel sep : ℕ) (text : Text) (i : ℕ) (reg : Text) (t : MatchType)
    → All IsPlain text
    → length text ≤ fuel
    → (reg' : Text) × (scan_all fuel sep text i reg t ≡ (reg', t))
scan_all-plain_end fuel sep text i reg t h le =
    let (fuel', reg', j, enough, at, e) =
      scan_all-plain fuel sep text [] i reg t h (rw (append-nil text) le) in
    (
      reg',
      sym (ap (λ s. scan_all fuel sep s i reg t) (append-nil text))
          ∙ e
          ∙ scan_all-end fuel' sep j reg' t,
    )

scan_all-stars :
    (fuel sep j : ℕ) (reg : Text)
    → 2 ≤ fuel
    → 0 < j
    → scan_all fuel sep (b'*' ∷ b'*' ∷ []) j reg exact ≡ (reg, prefix)
unfolding scan_all scan
scan_all-stars zero sep j reg le pos = absurd (omega (arith, le))
scan_all-stars (suc fuel) sep j reg le pos = elim (Bool-cases (j + 1 == 1)) [
  | inl first ↦ absurd (ground (arith, first, pos))
  | inr later ↦ rw later (scan_all-end fuel sep (j + 1 + 1) reg prefix)
]

scan-suffix :
    (sep c : ℕ) (text reg : Text)
    → (c == sep) ≡ false
    → scan sep b'*' (b'*' ∷ c ∷ text) 0 reg exact ≡ record {
      rest = c ∷ text;
      index = 2;
      reg_str = reg ++ (b'(' ∷ b'.' ∷ b'*' ∷ esc_separator sep) ++ b')' ∷ b'?' ∷ [];
      match_type = suffix;
    }
unfolding scan
scan-suffix sep c text reg other = ground (arith, other)

scan_all-scan :
    (fuel sep c : ℕ) (rest : Text) (i : ℕ) (reg : Text) (t : MatchType) (s : Scan)
    → scan sep c rest i reg t ≡ s
    → scan_all (suc fuel) sep (c ∷ rest) i reg t
      ≡ scan_all fuel sep s.rest s.index s.reg_str s.match_type
unfolding scan_all
scan_all-scan fuel sep c rest i reg t s e =
    ap (λ (s : Scan). scan_all fuel sep s.rest s.index s.reg_str s.match_type) e

module _ (re_compile : Text → Option (Text → Bool)) (sep : ℕ) where
  abbrev with_text : Text → Pattern
  with_text text = record new_pattern { cleaned_pattern = text }

  abbrev CompiledAs : Text → MatchType → Type 0
  CompiledAs text t =
      compile re_compile sep (with_text text) ≡ ok (record (with_text text) { match_type = t })

  finish-compile :
      (text reg : Text) (t : MatchType)
      → scan_all (length text) sep text 0 (b'^' ∷ []) exact ≡ (reg, t)
      → compile re_compile sep (with_text text) ≡ finish re_compile sep (with_text text) reg t
  unfolding compile
  finish-compile text reg t e = rw e refl

  compile-plain : (text : Text) → All IsPlain text → CompiledAs text exact
  compile-plain text h =
      let (reg, e) =
        scan_all-plain_end (length text) sep text 0 (b'^' ∷ []) exact h (omega arith) in
      finish-compile text reg exact e

  compile-prefix :
      (c : ℕ) (text : Text)
      → All IsPlain (c ∷ text)
      → CompiledAs ((c ∷ text) ++ b'*' ∷ b'*' ∷ []) prefix
  compile-prefix c text h =
      let pattern : Text = (c ∷ text) ++ b'*' ∷ b'*' ∷ [] in
      let (fuel, reg, j, enough, at, e) =
        scan_all-plain (length pattern) sep (c ∷ text) (b'*' ∷ b'*' ∷ []) 0 (b'^' ∷ []) exact h
          (omega arith) in
      finish-compile pattern reg prefix
        (e ∙ scan_all-stars fuel sep j reg enough (omega (arith, at)))

  compile-suffix :
      (c : ℕ) (text : Text)
      → All IsPlain (c ∷ text)
      → (c == sep) ≡ false
      → CompiledAs (b'*' ∷ b'*' ∷ c ∷ text) suffix
  compile-suffix c text h other =
      let r : Text = b'^' ∷ b'(' ∷ b'.' ∷ b'*' ∷ (esc_separator sep ++ b')' ∷ b'?' ∷ []) in
      let (reg, e) =
        scan_all-plain_end (suc (suc (length text))) sep (c ∷ text) 2 r suffix h (omega arith) in
      finish-compile (b'*' ∷ b'*' ∷ c ∷ text) reg suffix (
        scan_all-scan (suc (suc (length text))) sep b'*' (b'*' ∷ c ∷ text) 0 (b'^' ∷ []) exact _
          (scan-suffix sep c text (b'^' ∷ []) other)
        ∙ e)

  but_last_two-append : (text : Text) → but_last_two (text ++ b'*' ∷ b'*' ∷ []) ≡ text
  but_last_two-append [] = refl
  but_last_two-append (c ∷ []) = refl
  but_last_two-append (c ∷ d ∷ []) = refl
  but_last_two-append (c ∷ d ∷ e ∷ text) = ap (λ s. c ∷ s) (but_last_two-append (d ∷ e ∷ text))

  -- A pattern of plain characters matches the path that is the same text; followed by `**`, the paths that
  -- start with it; and after `**`, unless it starts with a separator, the paths that end with it.
  pub match_path-plain :
      (c : ℕ) (text path : Text)
      → All IsPlain (c ∷ text)
      → (c == sep) ≡ false
      → (match_path re_compile sep (with_text (c ∷ text)) path ≡ ok (text_eq path (c ∷ text)))
        × (match_path re_compile sep (with_text ((c ∷ text) ++ b'*' ∷ b'*' ∷ [])) path
            ≡ ok (startswith path (c ∷ text)))
        × (match_path re_compile sep (with_text (b'*' ∷ b'*' ∷ c ∷ text)) path
            ≡ ok (endswith path (c ∷ text)))
  unfolding match_path
  match_path-plain c text path h other = (
    rw (compile-plain (c ∷ text) h) refl,
    rw (compile-prefix c text h) (rw (but_last_two-append (c ∷ text)) refl),
    rw (compile-suffix c text h other) (ends (endswith path (c ∷ text)) other),
  )
    where
      ends :
          (b : Bool)
          → (c == sep) ≡ false
          → ◌≡◌ {A = Result PatternError Bool}
              (if b then ok true else ok ((c == sep) && text_eq path text))
              (ok b)
      ends true _ = refl
      ends false e = rw e refl
