-- ===== src/Regex.antt =====
-- The part of Go's regexp package that internal/analyzer/detector/llm_client.go uses. The first
-- match of `matches` is the one that Go prefers: alternatives from left to right, and as many
-- repetitions as possible. Text is read by bytes: in the patterns of the program a class that holds
-- non-ASCII runes stands outside the group and at the end only.
pub mod Laws
pub mod Groups
use an_lf.Base.{
  ℕ, Bool, true, false, ◌&&◌, ◌||◌, Option, none, some, List, [], ◌∷◌, ◌++◌, map, Bytes, ◌==◌, leb,
  if◌then◌else◌,
}

pub data Regex : Type 0 where
  -- A byte of a class, and as many as possible of one.
  one many : (ℕ → Bool) → Regex
  seq alt : Regex → Regex → Regex
  -- `^`, `$`, and the group that `FindStringSubmatch` returns.
  text_start text_end : Regex
  group : Regex → Regex

-- What a match has taken, what is behind it, and the text of the group.
pub record Match : Type 0 where
  pub taken : Bytes
  pub rest : Bytes
  pub captured : Option Bytes

-- `\s` and `\d`.
abbrev pub is_space : ℕ → Bool
is_space c = c == 32 || c == 9 || c == 10 || c == 12 || c == 13

abbrev pub is_digit : ℕ → Bool
is_digit c = leb 48 c && leb c 57

unfoldable pub no_text : Bytes → Bool
no_text [] = true
no_text (c ∷ s) = false

abbrev pub put_front : ℕ → Match → Match
put_front c m = record m { taken = c ∷ m.taken }

-- The match of nothing at the front of a text.
abbrev pub nothing : Bytes → Match
nothing s = record { taken = []; rest = s; captured = none }

abbrev pub capture : Match → Match
capture m = record m { captured = some m.taken }

-- The longest run first, then the shorter ones.
unfoldable pub runs : (ℕ → Bool) → Bytes → List Match
runs p [] = nothing [] ∷ []
runs p (c ∷ s) =
    if p c then map (put_front c) (runs p s) ++ nothing (c ∷ s) ∷ [] else nothing (c ∷ s) ∷ []

unfoldable pub or_later : Option Bytes → Option Bytes → Option Bytes
or_later none later = later
or_later (some g) none = some g
or_later (some g) (some later) = some later

unfoldable pub behind : Match → Match → Match
unfolding or_later
behind m n = record {
  taken = m.taken ++ n.taken;
  rest = n.rest;
  captured = or_later m.captured n.captured;
}

unfoldable pub join_matches : (Match → List Match) → List Match → List Match
unfolding behind
join_matches f [] = []
join_matches f (m ∷ ms) = map (behind m) (f m) ++ join_matches f ms

unfoldable pub one_byte : (ℕ → Bool) → Bytes → List Match
one_byte p [] = []
one_byte p (c ∷ s) = if p c then record { taken = c ∷ []; rest = s; captured = none } ∷ [] else []

-- All matches at the front of a text, best first; the flag says that the text begins there.
unfoldable pub matches : Regex → Bool → Bytes → List Match
unfolding runs join_matches one_byte no_text
matches (one p) start s = one_byte p s
matches (many p) start s = runs p s
matches (seq r t) start s =
    join_matches (λ m. matches t (start && no_text m.taken) m.rest) (matches r start s)
matches (alt r t) start s = matches r start s ++ matches t start s
matches text_start start s = if start then nothing s ∷ [] else []
matches text_end start s = if no_text s then nothing s ∷ [] else []
matches (group r) start s = map capture (matches r start s)

unfoldable pub first_match : List Match → Option Match
first_match [] = none
first_match (m ∷ ms) = some m

-- `FindStringSubmatch`: the best match at the first place that has one.
unfoldable pub find : Regex → Bool → Bytes → Option Match
unfolding first_match matches
find r start [] = first_match (matches r start [])
find r start (c ∷ s) = elim (first_match (matches r start (c ∷ s))) [
  | some m ↦ some m
  | none ↦ find r false s
]
