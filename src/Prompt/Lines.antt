-- ===== src/Prompt/Lines.antt =====
-- `splitLines` and `joinLines` of internal/analyzer/detector/llm_client.go.
use an_lf.Base.{
  ℕ, ◌+◌, ◌<◌, ◌≡◌, refl, sym, ap, ◌∙◌, false, List, [], ◌∷◌, ◌++◌, arith, Bytes, ltb, ◌==◌,
  if◌then◌else◌, length, length-append, append-nil, append_assoc, All,
}
use an_lf.Prompt.{rune_string, is_nil, split_from, split_lines, join_lines}

-- ASCII bytes that are no newline.
abbrev pub IsPlain : Bytes → Type 0
IsPlain = All (λ c. ((c == 10) ≡ false) × (c < 128))

-- The last line, if there is one, has a byte.
abbrev pub LastIsFull : List Bytes → Type 0
LastIsFull [] = Unit {0}
LastIsFull (line ∷ []) = 0 < length line
LastIsFull (line ∷ next ∷ rest) = LastIsFull (next ∷ rest)

split_from-append :
    (current line rest : Bytes)
    → IsPlain line
    → split_from current (line ++ rest) ≡ split_from (current ++ line) rest
split_from-append current [] rest h = ap (λ t. split_from t rest) (sym (append-nil current))
split_from-append current (c ∷ line) rest h =
    step
    ∙ split_from-append (current ++ c ∷ []) line rest h.1
    ∙ ap (λ t. split_from t rest) (append_assoc current (c ∷ []) line)
  where
    step : split_from current (c ∷ (line ++ rest)) ≡ split_from (current ++ c ∷ []) (line ++ rest)
    step = unfold split_from rune_string in ground (arith, h.0.0, h.0.1)

last_line : (line : Bytes) → 0 < length line → split_from line [] ≡ line ∷ []
unfolding split_from is_nil
last_line [] h = elim h [ ]
last_line (c ∷ line) h = refl

newline : (current text : Bytes) → split_from current (10 ∷ text) ≡ current ∷ split_from [] text
unfolding split_from
newline current text = refl

-- Lines of ASCII bytes, of which the last is not empty, come back from `joinLines` by `splitLines`.
pub split_lines-join_lines :
    (ls : List Bytes) → All IsPlain ls → LastIsFull ls → split_lines (join_lines ls) ≡ ls
unfolding split_lines join_lines
split_lines-join_lines [] h f = refl
split_lines-join_lines (line ∷ []) h f =
    ap (split_from []) (sym (append-nil line)) ∙ split_from-append [] line [] h.0 ∙ last_line line f
split_lines-join_lines (line ∷ next ∷ rest) h f =
    split_from-append [] line (10 ∷ join_lines (next ∷ rest)) h.0
    ∙ newline line (join_lines (next ∷ rest))
    ∙ ap (λ t. line ∷ t) (split_lines-join_lines (next ∷ rest) h.1 f)

-- How many bytes are not ASCII.
pub high_bytes : Bytes → ℕ
high_bytes [] = 0
high_bytes (c ∷ s) = high_bytes s + (if ltb c 128 then 0 else 1)

abbrev pub HasNoNewline : Bytes → Type 0
HasNoNewline = All (λ c. (c == 10) ≡ false)

split_from-widens :
    (current text : Bytes)
    → HasNoNewline text
    → 0 < length current + length text
    → (line : Bytes) × (split_from current text ≡ line ∷ [])
      × (length line ≡ length current + length text + high_bytes text)
unfolding high_bytes
split_from-widens current [] h p = (current, last_line current (omega arith), omega arith)
split_from-widens current (c ∷ text) h p =
    let longer = current ++ rune_string c in
    let wide = width c in
    let more = length-append current (rune_string c) in
    let (line, e, n) = split_from-widens longer text h.1 (omega (arith, wide, more)) in
    (line, step ∙ e, omega (arith, n, wide, more))
  where
    width : (c : ℕ) → length (rune_string c) ≡ 1 + (if ltb c 128 then 0 else 1)
    width c = unfold rune_string in ground arith

    step : split_from current (c ∷ text) ≡ split_from (current ++ rune_string c) text
    step = unfold split_from in ground (arith, h.0)

-- A text without a newline comes back from `splitLines` as one line, and from `joinLines` longer
-- than it was by one byte for each byte that is not ASCII.
pub split_lines_widens :
    (text : Bytes)
    → HasNoNewline text
    → 0 < length text
    → (line : Bytes) × (split_lines text ≡ line ∷ [])
      × (length (join_lines (split_lines text)) ≡ length text + high_bytes text)
unfolding split_lines join_lines
split_lines_widens text h p =
    let (line, e, n) = split_from-widens [] text h (omega arith) in
    (line, e, ap (λ t. length (join_lines t)) e ∙ n ∙ omega arith)
