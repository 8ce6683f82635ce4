-- ===== src/Nrf/Uri.antt =====
-- The last segment of a URI: `s[strings.LastIndex(s, "/")+1:]`, which is all of it without a slash.
use an_lf.Base.{
  ℕ, ◌≡◌, refl, ap, false, Option, none, some, [], ◌∷◌, ◌++◌, Bytes, All, ◌==◌, if◌then◌else◌,
}

abbrev slash : ℕ
slash = b'/'

-- What stands behind the last slash, if there is one.
pub segment : Bytes → Option Bytes
segment [] = none
segment (c ∷ s) = elim (segment s) [ some t ↦ some t | none ↦ if c == slash then some s else none ]

abbrev whole_unless : Bytes → Option Bytes → Bytes
whole_unless s none = s
whole_unless s (some t) = t

unfoldable pub after_last_slash : Bytes → Bytes
unfolding segment
after_last_slash s = whole_unless s (segment s)

abbrev pub HasNoSlash : Bytes → Type 0
HasNoSlash s = All (λ c. (c == slash) ≡ false) s

segment-none : (s : Bytes) → HasNoSlash s → segment s ≡ none
unfolding segment
segment-none [] h = refl
segment-none (c ∷ s) h = rw (segment-none s h.1) (rw h.0 refl)

segment_found : (s id : Bytes) → HasNoSlash id → segment (s ++ slash ∷ id) ≡ some id
unfolding segment
segment_found [] id h = rw (segment-none id h) refl
segment_found (c ∷ s) id h = rw (segment_found s id h) refl

pub after_last_slash_lem : (s id : Bytes) → HasNoSlash id → after_last_slash (s ++ slash ∷ id) ≡ id
unfolding after_last_slash
after_last_slash_lem s id h = ap (whole_unless (s ++ slash ∷ id)) (segment_found s id h)
