-- ===== src/Client/Laws.antt =====
-- What `PredictSingleUE` of internal/analyzer/detector/llm_client.go reads from an answer.
use an_lf.Base.{
  ℕ, ◌≡◌, refl, ap, ◌∙◌, ◌⊎◌, inl, inr, true, false, Option, none, some, List, [], ◌∷◌, ◌++◌, Bytes,
  bytes, All, Option-cases, arith, subst,
}
use an_lf.Regex.{Regex, one, many, seq, is_digit, find}
use an_lf.Regex.Laws.{Accepts}
use an_lf.Regex.Groups.{Groups, has_group, Captured, is_some, find-IsCaptured}
use an_lf.Client.{
  json_key, literal, score_regex, score_regexes, after_json, after_score, quote_space_colon,
  score_text, group_text,
}

-- A score as the patterns want it: 0, 1, 1.0, or 0. with at least one digit behind it.
pub IsScore : Bytes → Type 0
IsScore t =
    (t ≡ bytes "0")
    ⊎ (t ≡ bytes "1")
    ⊎ (t ≡ bytes "1.0")
    ⊎ ((d : ℕ) × (ds : Bytes) × (t ≡ bytes "0." ++ d ∷ ds) × All (λ c. is_digit c ≡ true) (d ∷ ds))

literal-Accepts : (s t : Bytes) → Accepts (literal s) t → t ≡ s
unfolding literal Accepts
literal-Accepts [] [] h = refl
literal-Accepts [] (c ∷ t) h = absurd (clash h.0)
  where
    clash : false ≡ true → ⊥
    clash e = cc
literal-Accepts (c ∷ s) t (u, v, e, (d, ud, dc), av) =
    e ∙ (ap (λ x. x ++ v) ud ∙ (ap (λ x. x ∷ v) same ∙ ap (◌∷◌ c) (literal-Accepts s v av)))
  where
    same : d ≡ c
    same = ground arith

fraction-IsScore :
    (t : Bytes)
    → Accepts (seq (literal (bytes "0.")) (seq (one is_digit) (many is_digit))) t
    → IsScore t
unfolding Accepts IsScore
fraction-IsScore t (u, v, e, au, (u', v', e', (d, ud, dd), av)) =
    inr (inr (inr (d, v', whole, (dd, av))))
  where
    whole : t ≡ bytes "0." ++ d ∷ v'
    whole =
        e
        ∙ (ap (λ x. x ++ v) (literal-Accepts (bytes "0.") u au)
            ∙ ap (λ x. bytes "0." ++ x) (e' ∙ ap (λ x. x ++ v') ud))

score_regex-IsScore : (t : Bytes) → Accepts score_regex t → IsScore t
unfolding score_regex Accepts IsScore
score_regex-IsScore t (inl h) = fraction-IsScore t h
score_regex-IsScore t (inr (inl h)) = inr (inr (inl (literal-Accepts (bytes "1.0") t h)))
score_regex-IsScore t (inr (inr (inl h))) = inl (literal-Accepts (bytes "0") t h)
score_regex-IsScore t (inr (inr (inr h))) = inr (inl (literal-Accepts (bytes "1") t h))

literal-Groups : (s : Bytes) → Groups IsScore (literal s)
unfolding literal Groups
literal-Groups [] = tt
literal-Groups (c ∷ s) = (tt, literal-Groups s)

-- A pattern with a group that holds a score.
pub record IsScorePattern (r : Regex) : Type 0 where
  pub groups : Groups IsScore r
  pub present : has_group r ≡ true

score_regexes-IsScorePattern : All IsScorePattern score_regexes
unfolding score_regexes Groups has_group literal after_json after_score quote_space_colon
score_regexes-IsScorePattern =
    let g = score_regex-IsScore in
    (
      record {
        groups = (literal-Groups (bytes "Risk Score:"), (tt, (g, (tt, tt))));
        present = refl;
      },
      (
        record { groups = (literal-Groups json_key, (tt, (g, (tt, tt)))); present = refl },
        (
          record {
            groups = (
              literal-Groups json_key,
              (tt, (literal-Groups (34 ∷ []), (g, (literal-Groups (34 ∷ []), (tt, tt))))),
            );
            present = refl;
          },
          (
            record {
              groups = (literal-Groups (bytes "risk_score"), ((tt, tt), (tt, (g, (tt, tt)))));
              present = refl;
            },
            (
              record {
                groups = (literal-Groups (bytes "Response:"), (tt, (g, (tt, tt))));
                present = refl;
              },
              (record { groups = (tt, (tt, (g, (tt, tt)))); present = refl }, tt),
            ),
          ),
        ),
      ),
    )

group_text-IsScore :
    (o : Option Bytes) → Captured IsScore o → is_some o ≡ true → IsScore (group_text o)
unfolding Captured
group_text-IsScore none c p = absurd (clash p)
  where
    clash : false ≡ true → ⊥
    clash e = cc
group_text-IsScore (some t) c p = c

text_of_patterns :
    (rs : List Regex) (raw t : Bytes)
    → All IsScorePattern rs
    → score_text rs raw ≡ some t
    → IsScore t
unfolding score_text
text_of_patterns [] raw t h e = absurd (none_some e)
  where
    none_some : none ≡ some t → ⊥
    none_some e = cc
text_of_patterns (r ∷ rs) raw t h e = elim (Option-cases (find r true raw)) [
  | inl absent ↦ text_of_patterns rs raw t h.1 (rw (absent, score_text) at e)
  | inr (m, found) ↦
      let c = find-IsCaptured IsScore r true raw m h.0.groups found in
      let same : group_text m.captured ≡ t = cc (rw (found, score_text) at e) in
      subst IsScore same (group_text-IsScore m.captured c.good (c.present h.0.present))
]

-- Whatever the language model answers: a text that one of the six patterns finds in it is 0, 1, 1.0
-- or 0. followed by digits.
pub score_text-IsScore : (raw t : Bytes) → score_text score_regexes raw ≡ some t → IsScore t
score_text-IsScore raw t e = text_of_patterns score_regexes raw t score_regexes-IsScorePattern e
