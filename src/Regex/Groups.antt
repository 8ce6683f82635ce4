-- ===== src/Regex/Groups.antt =====
-- The group of a match of a regular expression: there is one, and its text is a text of the group.
use an_lf.Base.{
  All-map, All-weaken, ℕ, ◌≡◌, refl, sym, ◌∙◌, Bool, true, false, ◌&&◌, ◌||◌, Option, none, some,
  List, [], ◌∷◌, Bytes, All, All-append, Option-cases, Bool-cases, inl, inr, arith, subst,
}
use an_lf.Regex.{
  Regex, one, many, seq, alt, text_start, text_end, group, Match, no_text, put_front, capture, runs,
  or_later, behind, one_byte, matches, first_match, find,
}
use an_lf.Regex.Laws.{Accepts, join_matches-All, matches-IsMatch}

-- Every way to match has a group.
unfoldable pub has_group : Regex → Bool
has_group (group r) = true
has_group (seq r q) = has_group r || has_group q
has_group (alt r q) = has_group r && has_group q
has_group (one p) = false
has_group (many p) = false
has_group text_start = false
has_group text_end = false

-- Every group of the expression has only texts with the property.
unfoldable pub Groups : (Bytes → Type 0) → Regex → Type 0
Groups P (group r) = (t : Bytes) → Accepts r t → P t
Groups P (seq r q) = Groups P r × Groups P q
Groups P (alt r q) = Groups P r × Groups P q
Groups P (one p) = Unit {0}
Groups P (many p) = Unit {0}
Groups P text_start = Unit {0}
Groups P text_end = Unit {0}

unfoldable pub Captured : (Bytes → Type 0) → Option Bytes → Type 0
Captured P none = Unit {0}
Captured P (some t) = P t

abbrev pub is_some : Option Bytes → Bool
is_some none = false
is_some (some t) = true

Captured-or_later :
    (P : Bytes → Type 0) (a b : Option Bytes)
    → Captured P a
    → Captured P b
    → Captured P (or_later a b)
unfolding Captured or_later
Captured-or_later P none b h k = k
Captured-or_later P (some a) none h k = h
Captured-or_later P (some a) (some b) h k = k

is_some-or_later : (a b : Option Bytes) → is_some (or_later a b) ≡ (is_some a || is_some b)
unfolding or_later
is_some-or_later none b = refl
is_some-or_later (some a) none = refl
is_some-or_later (some a) (some b) = refl

-- What is known of the group of a match.
pub record IsCaptured (P : Bytes → Type 0) (r : Regex) (m : Match) : Type 0 where
  pub good : Captured P m.captured
  pub present : has_group r ≡ true → is_some m.captured ≡ true

runs-captured : (p : ℕ → Bool) (s : Bytes) → All (λ m. m.captured ≡ none) (runs p s)
unfolding runs
runs-captured p [] = (refl, tt)
runs-captured p (c ∷ s) = elim (Bool-cases (p c)) [
  | inl h ↦
      rw h (All-append _ _ _ (All-map _ (put_front c) (runs p s) (runs-captured p s)) (refl, tt))
  | inr h ↦ rw h (refl, tt)
]

one_byte-captured : (p : ℕ → Bool) (s : Bytes) → All (λ m. m.captured ≡ none) (one_byte p s)
unfolding one_byte
one_byte-captured p [] = tt
one_byte-captured p (c ∷ s) = elim (Bool-cases (p c)) [ inl h ↦ rw h (refl, tt) | inr h ↦ rw h tt ]

module _ (P : Bytes → Type 0) where
  no_group :
      (r : Regex) (ms : List Match)
      → has_group r ≡ false
      → All (λ m. m.captured ≡ none) ms
      → All (IsCaptured P r) ms
  no_group r ms h all = All-weaken _ _ ms step all
    where
      step : (m : Match) → m.captured ≡ none → IsCaptured P r m
      step m e = record {
        good = subst (Captured P) (sym e) (unfold Captured in tt);
        present = λ k. absurd (clash h k);
      }
        where
          clash : {b : Bool} → b ≡ false → b ≡ true → ⊥
          clash p q = cc

  pair :
      (r q : Regex) (m n : Match)
      → IsCaptured P r m
      → IsCaptured P q n
      → IsCaptured P (seq r q) (behind m n)
  unfolding behind has_group
  pair r q m n h k = record {
    good = Captured-or_later P m.captured n.captured h.good k.good;
    present = λ e. ground (arith, is_some-or_later m.captured n.captured, h.present, k.present);
  }

  left : (r q : Regex) (m : Match) → IsCaptured P r m → IsCaptured P (alt r q) m
  unfolding has_group
  left r q m h = record { good = h.good; present = λ e. ground (arith, h.present) }

  right : (r q : Regex) (m : Match) → IsCaptured P q m → IsCaptured P (alt r q) m
  unfolding has_group
  right r q m h = record { good = h.good; present = λ e. ground (arith, h.present) }

  -- Every match has a group with the property, if every group of the expression has.
  pub matches-IsCaptured :
      (r : Regex) (start : Bool) (s : Bytes) → Groups P r → All (IsCaptured P r) (matches r start s)
  unfolding matches Groups has_group no_text
  matches-IsCaptured (one p) start s g = no_group (one p) _ refl (one_byte-captured p s)
  matches-IsCaptured (many p) start s g = no_group (many p) _ refl (runs-captured p s)
  matches-IsCaptured (seq r q) start s g =
      join_matches-All (IsCaptured P r) (IsCaptured P (seq r q))
        (λ m. matches q (start && no_text m.taken) m.rest)
        (λ m h. All-weaken _ _ _ (λ n k. pair r q m n h k) (matches-IsCaptured q _ m.rest g.1))
        (matches r start s) (matches-IsCaptured r start s g.0)
  matches-IsCaptured (alt r q) start s g =
      All-append _ _ _ (All-weaken _ _ _ (left r q) (matches-IsCaptured r start s g.0))
        (All-weaken _ _ _ (right r q) (matches-IsCaptured q start s g.1))
  matches-IsCaptured text_start true s g =
      no_group text_start (matches text_start true s) refl (refl, tt)
  matches-IsCaptured text_start false s g = tt
  matches-IsCaptured text_end start [] g =
      no_group text_end (matches text_end start []) refl (refl, tt)
  matches-IsCaptured text_end start (c ∷ s) g = tt
  matches-IsCaptured (group r) start s g = All-map _ capture (matches r start s) (
      All-weaken _ _ _
        (λ m h. record { good = unfold Captured in g m.taken h.accepted; present = λ _. refl })
        (matches-IsMatch r start s))

  first_good :
      (Q : Match → Type 0) (ms : List Match) (m : Match) → All Q ms → first_match ms ≡ some m → Q m
  unfolding first_match
  first_good Q [] m h e = absurd (none_some e)
    where
      none_some : none ≡ some m → ⊥
      none_some e = cc
  first_good Q (n ∷ ms) m h e = subst Q same h.0
    where
      same : n ≡ m
      same = ground arith

  -- What `find` returns has a group with the property.
  pub find-IsCaptured :
      (r : Regex) (start : Bool) (s : Bytes) (m : Match)
      → Groups P r
      → find r start s ≡ some m
      → IsCaptured P r m
  unfolding find
  find-IsCaptured r start [] m g e = first_good _ _ m (matches-IsCaptured r start [] g) e
  find-IsCaptured r start (c ∷ s) m g e =
      elim (Option-cases (first_match (matches r start (c ∷ s)))) [
        | inl absent ↦ find-IsCaptured r false s m g (rw (absent, find) at e)
        | inr (n, found) ↦
            first_good _ _ m (matches-IsCaptured r start (c ∷ s) g)
              (found ∙ (rw (found, find) at e))
      ]
