-- ===== src/Streams/LinesLaws.antt =====
-- However a stream is cut into messages, modal/io_streams.py yields its lines.
use modal_client.Prelude.{
  ℕ, zero, suc, ◌≤◌, ◌<◌, ◌≡◌, refl, false, ◌==◌, Bool-cases, ==→eq, inl, inr, length, Option, none,
  some, List, [], ◌∷◌, ◌++◌, map, concat, arith, ap, ◌∙◌, sym, append-nil, append_assoc,
  if◌then◌else◌,
}
use mathlib.Core.List.{map-append}
use modal_client.Streams.Lines.{
  Bytes, newline, before, split_once, take_lines, on_message, get_logs_by_line,
}

-- a byte put in front of the first line, or of the rest if no line is complete
abbrev pub in_front : ℕ → List Bytes × Bytes → List Bytes × Bytes
in_front c ([], left) = ([], c ∷ left)
in_front c (line ∷ lines, left) = ((c ∷ line) ∷ lines, left)

abbrev pub line_end : List Bytes × Bytes → List Bytes × Bytes
line_end (lines, left) = ((newline ∷ []) ∷ lines, left)

-- The complete lines of a text, each with its newline, and what follows the last newline.
unfoldable pub lines_of : Bytes → List Bytes × Bytes
lines_of [] = ([], [])
lines_of (c ∷ cs) = let r = lines_of cs in if c == newline then line_end r else in_front c r

abbrev Splits : Bytes → Option (Bytes × Bytes) → Type 0
Splits text none = lines_of text ≡ ([], text)
Splits text (some (line, rest)) =
    let (lines, left) = lines_of rest in
    (lines_of text ≡ ((line ++ newline ∷ []) ∷ lines, left)) × (length rest < length text)

split_once-Splits : (text : Bytes) → Splits text (split_once text)
unfolding split_once lines_of
split_once-Splits [] = refl
split_once-Splits (c ∷ cs) = elim (Bool-cases (c == newline)) [
  | inl ends ↦
      rw (ends, split_once) (rw (ends, lines_of) (at_newline (==→eq c newline ends)), omega arith)
  | inr goes ↦ rw (goes, split_once) (go goes (split_once cs) (split_once-Splits cs))
]
  where
    at_newline :
        c ≡ newline
        → line_end (lines_of cs) ≡ (([] ++ newline ∷ []) ∷ (lines_of cs).0, (lines_of cs).1)
    at_newline _ = refl

    go :
        (c == newline) ≡ false
        → (r : Option (Bytes × Bytes)) → Splits cs r
        → Splits (c ∷ cs) (before c r)
    go goes none h = rw (goes, lines_of, h) refl
    go goes (some (line, rest)) (h, less) = (rw (goes, lines_of, h) refl, omega (arith, less))

-- Enough fuel takes every complete line.
take_lines-lines_of :
    (fuel : ℕ) (text : Bytes) → length text ≤ fuel → take_lines fuel text ≡ lines_of text
unfolding take_lines lines_of
take_lines-lines_of zero [] _ = refl
take_lines-lines_of zero (c ∷ cs) le = absurd (omega (arith, le))
take_lines-lines_of (suc fuel) text le =
    go (split_once text) refl (split_once-Splits text) (λ rest. take_lines-lines_of fuel rest)
  where
    go :
        (r : Option (Bytes × Bytes))
        → split_once text ≡ r
        → Splits text r
        → ((rest : Bytes) → length rest ≤ fuel → take_lines fuel rest ≡ lines_of rest)
        → take_lines (suc fuel) text ≡ lines_of text
    go none eq h _ = rw (eq, take_lines) (sym h)
    go (some (line, rest)) eq (h, less) smaller =
        rw (eq, take_lines, smaller rest (omega (arith, le, less)), h) refl

-- Reading a text in two parts is reading the whole.
abbrev pub continue_with : List Bytes × Bytes → Bytes → List Bytes × Bytes
continue_with (lines, left) ys = let (more, last) = lines_of (left ++ ys) in (lines ++ more, last)

lines_of-append : (xs ys : Bytes) → lines_of (xs ++ ys) ≡ continue_with (lines_of xs) ys
unfolding lines_of
lines_of-append [] ys = refl
lines_of-append (c ∷ cs) ys = elim (Bool-cases (c == newline)) [
  | inl ends ↦ rw (ends, lines_of, lines_of-append cs ys) refl
  | inr goes ↦ rw (goes, lines_of, lines_of-append cs ys) (go goes (lines_of cs))
]
  where
    go :
        (c == newline) ≡ false
        → (r : List Bytes × Bytes)
        → in_front c (continue_with r ys) ≡ continue_with (in_front c r) ys
    go goes ([], left) = rw (goes, lines_of) refl
    go _ (line ∷ lines, left) = refl

-- what is left has no newline
rest_alone : (xs : Bytes) → lines_of (lines_of xs).1 ≡ ([], (lines_of xs).1)
unfolding lines_of
rest_alone [] = refl
rest_alone (c ∷ cs) = elim (Bool-cases (c == newline)) [
  | inl ends ↦ rw (ends, lines_of) (rest_alone cs)
  | inr goes ↦ rw (goes, lines_of) (go goes (lines_of cs) (rest_alone cs))
]
  where
    go :
        (c == newline) ≡ false
        → (r : List Bytes × Bytes) → lines_of r.1 ≡ ([], r.1)
        → lines_of (in_front c r).1 ≡ ([], (in_front c r).1)
    go goes ([], left) h = rw (goes, lines_of, h) refl
    go _ (line ∷ lines, left) h = h

-- The end of a stream after a text: its last line if there is one, and the end.
abbrev pub at_end : Bytes → List (Option Bytes)
at_end [] = none ∷ []
at_end (c ∷ cs) = some (c ∷ cs) ∷ none ∷ []

abbrev pub ended : List Bytes × Bytes → List (Option Bytes) × Bytes
ended (lines, left) = (map some lines ++ at_end left, [])

ended-continue_with :
    (r : List Bytes × Bytes) (more : Bytes)
    → ended (continue_with r more) ≡ (map some r.0 ++ (ended (lines_of (r.1 ++ more))).0, [])
ended-continue_with (lines, left) more =
    ap (λ ys. (ys, []))
      (ap (λ ys. ys ++ at_end m.1) (map-append some lines m.0)
        ∙ append_assoc (map some lines) (map some m.0) (at_end m.1))
  where
    m : List Bytes × Bytes
    m = lines_of (left ++ more)

continues :
    (messages : List Bytes) (buffer : Bytes)
    → lines_of buffer ≡ ([], buffer)
    → get_logs_by_line (map some messages ++ none ∷ []) buffer
      ≡ ended (lines_of (buffer ++ concat messages))
unfolding get_logs_by_line on_message
continues [] [] alone = rw alone refl
continues [] (c ∷ cs) alone = rw (append-nil cs, alone) refl
continues (message ∷ messages) buffer _ =
    rw
      (
        take_lines-lines_of (length text) text (omega arith),
        continues messages (lines_of text).1 (rest_alone text),
        sym (append_assoc buffer message (concat messages)),
        lines_of-append text (concat messages),
        ended-continue_with (lines_of text) (concat messages),
      )
      refl
  where
    text : Bytes
    text = buffer ++ message

-- A stream that ends is read as the lines of its whole text, each with its newline, then what follows
-- the last newline if that is not empty, then `None`: where the messages are cut does not matter.
pub get_logs_by_line-lines_of :
    (messages : List Bytes)
    → get_logs_by_line (map some messages ++ none ∷ []) [] ≡ ended (lines_of (concat messages))
unfolding lines_of
get_logs_by_line-lines_of messages = continues messages [] refl
