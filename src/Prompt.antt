-- ===== src/Prompt.antt =====
-- internal/analyzer/detector/llm_client.go, the text of a request: the string helpers and
-- `BuildSingleUEPrompt`. Text is a list of bytes.
pub mod Replace
pub mod Build
pub mod Lines
use an_lf.Base.{
  ℕ, zero, suc, ◌+◌, ◌-◌, ◌/◌, ◌%◌, ◌<◌, Bool, true, false, ◌&&◌, Option, none, some, List, [], ◌∷◌,
  ◌++◌, Bytes, bytes, ltb, ◌==◌, if◌then◌else◌, length, take, drop,
}

-- `s[i:i+len(substr)] == substr` at i = 0; false where the text is too short.
unfoldable pub starts_with : Bytes → Bytes → Bool
starts_with [] s = true
starts_with (p ∷ prefix) [] = false
starts_with (p ∷ prefix) (c ∷ s) = p == c && starts_with prefix s

shift : Option ℕ → Option ℕ
shift none = none
shift (some i) = some (suc i)

-- `indexOf`; `none` is -1.
unfoldable pub index_of : Bytes → Bytes → Option ℕ
unfolding starts_with shift
index_of [] substr = if starts_with substr [] then some 0 else none
index_of (c ∷ s) substr = if starts_with substr (c ∷ s) then some 0 else shift (index_of s substr)

-- The loop of `replaceAll`, on fuel: `none` means that the fuel ran out.
pub replace_loop : ℕ → Bytes → Bytes → Bytes → Bytes → Option Bytes
unfolding index_of
replace_loop zero s old new result = none
replace_loop (suc fuel) s old new result = elim (index_of s old) [
  | none ↦ some (result ++ s)
  | some i ↦ replace_loop fuel (drop (i + length old) s) old new (result ++ (take i s ++ new))
]

-- One round for each byte of the text, and one more, are enough where `old` is not empty.
unfoldable pub replace_all : Bytes → Bytes → Bytes → Option Bytes
unfolding replace_loop
replace_all s old new = replace_loop (suc (length s)) s old new []

-- `string(text[i])`: the byte as a code point, in UTF-8.
pub rune_string : ℕ → Bytes
rune_string c = if ltb c 128 then c ∷ [] else (192 + c / 64) ∷ (128 + c % 64) ∷ []

is_nil : Bytes → Bool
is_nil [] = true
is_nil (c ∷ s) = false

-- The loop of `splitLines` with the line that is being read.
pub split_from : Bytes → Bytes → List Bytes
unfolding rune_string is_nil
split_from current [] = if is_nil current then [] else current ∷ []
split_from current (c ∷ text) =
    let line_end = current ∷ split_from [] text in
    let more = split_from (current ++ rune_string c) text in if c == 10 then line_end else more

unfoldable pub split_lines : Bytes → List Bytes
unfolding split_from
split_lines text = split_from [] text

-- `joinLines`: a newline after every line but the last.
unfoldable pub join_lines : List Bytes → Bytes
join_lines [] = []
join_lines (line ∷ []) = line
join_lines (line ∷ next ∷ rest) = line ++ 10 ∷ join_lines (next ∷ rest)
