-- ===== src/Regex/Laws.antt =====
-- What a match of a regular expression is, by its language and by its group.
use an_lf.Base.{
  All-map, All-weaken, ℕ, ◌≡◌, refl, ap, ◌∙◌, ◌⊎◌, inl, inr, Bool, true, false, ◌&&◌, List, [], ◌∷◌,
  ◌++◌, Bytes, All, All-append, Bool-cases, append_assoc,
}
use an_lf.Regex.{
  Regex, one, many, seq, alt, text_start, text_end, group, Match, no_text, put_front, capture, runs,
  behind, join_matches, one_byte, matches,
}

-- The texts of a regular expression, by its structure.
unfoldable pub Accepts : Regex → Bytes → Type 0
Accepts (one p) t = (c : ℕ) × (t ≡ c ∷ []) × (p c ≡ true)
Accepts (many p) t = All (λ c. p c ≡ true) t
Accepts (seq r q) t = (u : Bytes) × (v : Bytes) × (t ≡ u ++ v) × Accepts r u × Accepts q v
Accepts (alt r q) t = Accepts r t ⊎ Accepts q t
Accepts text_start t = t ≡ []
Accepts text_end t = t ≡ []
Accepts (group r) t = Accepts r t

-- A match takes a text of the expression, and leaves what is behind it.
pub record IsMatch (r : Regex) (s : Bytes) (m : Match) : Type 0 where
  pub accepted : Accepts r m.taken
  pub whole : m.taken ++ m.rest ≡ s

pub join_matches-All :
    (P Q : Match → Type 0) (f : Match → List Match)
    → ((m : Match) → P m → All (λ n. Q (behind m n)) (f m))
    → (ms : List Match) → All P ms
    → All Q (join_matches f ms)
unfolding join_matches
join_matches-All P Q f step [] h = tt
join_matches-All P Q f step (m ∷ ms) h =
    All-append Q _ _ (All-map Q (behind m) (f m) (step m h.0)) (join_matches-All P Q f step ms h.1)

runs-IsMatch : (p : ℕ → Bool) (s : Bytes) → All (IsMatch (many p) s) (runs p s)
unfolding runs Accepts
runs-IsMatch p [] = (record { accepted = tt; whole = refl }, tt)
runs-IsMatch p (c ∷ s) = elim (Bool-cases (p c)) [
  | inl h ↦ rw h (
      All-append (IsMatch (many p) (c ∷ s)) _ _
        (All-map _ (put_front c) (runs p s) (
          All-weaken _ _ (runs p s)
            (λ m k. record { accepted = (h, k.accepted); whole = ap (◌∷◌ c) k.whole })
            (runs-IsMatch p s)))
        (record { accepted = tt; whole = refl }, tt))
  | inr h ↦ rw h (record { accepted = tt; whole = refl }, tt)
]

one_byte-IsMatch : (p : ℕ → Bool) (s : Bytes) → All (IsMatch (one p) s) (one_byte p s)
unfolding one_byte Accepts
one_byte-IsMatch p [] = tt
one_byte-IsMatch p (c ∷ s) = elim (Bool-cases (p c)) [
  | inl h ↦ rw h (record { accepted = (c, refl, h); whole = refl }, tt)
  | inr h ↦ rw h tt
]

-- Every match that the search considers takes a text of the expression from the front of its input.
pub matches-IsMatch : (r : Regex) (start : Bool) (s : Bytes) → All (IsMatch r s) (matches r start s)
unfolding matches Accepts behind
matches-IsMatch (one p) start s = one_byte-IsMatch p s
matches-IsMatch (many p) start s = runs-IsMatch p s
matches-IsMatch (seq r q) start s =
    join_matches-All (IsMatch r s) (IsMatch (seq r q) s)
      (λ m. matches q (start && no_text m.taken) m.rest)
      (λ m h. All-weaken _ _ _ (pair m h) (matches-IsMatch q _ m.rest)) (matches r start s)
      (matches-IsMatch r start s)
  where
    pair :
        (m : Match)
        → IsMatch r s m
        → (n : Match) → IsMatch q m.rest n
        → IsMatch (seq r q) s (behind m n)
    pair m h n k = record {
      accepted = (m.taken, n.taken, refl, h.accepted, k.accepted);
      whole = append_assoc m.taken n.taken n.rest ∙ ap (λ t. m.taken ++ t) k.whole ∙ h.whole;
    }
matches-IsMatch (alt r q) start s =
    All-append _ _ _
      (All-weaken _ _ _ (λ m h. record { accepted = inl h.accepted; whole = h.whole })
        (matches-IsMatch r start s))
      (All-weaken _ _ _ (λ m h. record { accepted = inr h.accepted; whole = h.whole })
        (matches-IsMatch q start s))
matches-IsMatch text_start true s = (record { accepted = refl; whole = refl }, tt)
matches-IsMatch text_start false s = tt
matches-IsMatch text_end start [] = unfold no_text in (record { accepted = refl; whole = refl }, tt)
matches-IsMatch text_end start (c ∷ s) = unfold no_text in tt
matches-IsMatch (group r) start s = All-map _ capture (matches r start s) (
    All-weaken _ _ _ (λ m h. record { accepted = h.accepted; whole = h.whole })
      (matches-IsMatch r start s))
