-- ===== src/Prompt/Replace.antt =====
-- `replaceAll` of internal/analyzer/detector/llm_client.go ends, and replaces the occurrences from
-- left to right.
use an_lf.Base.{
  ℕ, zero, suc, ◌+◌, ◌-◌, ◌<◌, ◌≡◌, ◌⊎◌, subst, refl, sym, ap, ◌∙◌, true, false, none, some, [],
  ◌∷◌, ◌++◌, arith, Bytes, if◌then◌else◌, Bool-cases, Option-cases, inl, inr, length, length-drop,
  take, drop, append_assoc,
}
use an_lf.Prompt.{starts_with, index_of, replace_loop, replace_all}

-- The reference: read the text once, skipping what an occurrence covers.
unfoldable pub substitute : ℕ → Bytes → Bytes → Bytes → Bytes
unfolding starts_with
substitute skip [] old new = []
substitute (suc skip) (c ∷ s) old new = substitute skip s old new
substitute zero (c ∷ s) old new =
    let found = new ++ substitute (length old - 1) s old new in
    let passed = c ∷ substitute zero s old new in if starts_with old (c ∷ s) then found else passed

-- A text without the searched one stays as it is.
substitute_absent : (s old new : Bytes) → index_of s old ≡ none → substitute zero s old new ≡ s
unfolding substitute index_of
substitute_absent [] old new h = refl
substitute_absent (c ∷ s) old new h = ground (arith, substitute_absent s old new)

substitute_skip :
    (k : ℕ) (s old new : Bytes) → substitute k s old new ≡ substitute zero (drop k s) old new
unfolding substitute
substitute_skip zero s old new = refl
substitute_skip (suc k) [] old new = refl
substitute_skip (suc k) (c ∷ s) old new = substitute_skip k s old new

drop-suc : (j k c : ℕ) (s : Bytes) → drop (suc j + k) (c ∷ s) ≡ drop (j + k) s
drop-suc j k c s = ap (λ (n : ℕ). drop n (c ∷ s)) sum
  where
    sum : suc j + k ≡ suc (j + k)
    sum = omega arith

-- Where `indexOf` finds the searched text in a text that begins with c.
index_of_cases :
    (c : ℕ) (s old : Bytes) (i : ℕ)
    → index_of (c ∷ s) old ≡ some i
    → ((starts_with old (c ∷ s) ≡ true) × (i ≡ 0))
      ⊎ ((j : ℕ) × (starts_with old (c ∷ s) ≡ false) × (i ≡ suc j) × (index_of s old ≡ some j))
unfolding index_of
index_of_cases c s old i h = elim (Bool-cases (starts_with old (c ∷ s))) [
  | inl here ↦ inl (here, ground arith)
  | inr later ↦ elim (Option-cases (index_of s old)) [
    | inl none_found ↦ absurd (ground arith)
    | inr (j, found) ↦ inr (j, later, ground arith, found)
  ]
]

at_front :
    (c : ℕ) (s : Bytes) (o : ℕ) (os new : Bytes)
    → starts_with (o ∷ os) (c ∷ s) ≡ true
    → substitute zero (c ∷ s) (o ∷ os) new
      ≡ new ++ substitute zero (drop (0 + suc (length os)) (c ∷ s)) (o ∷ os) new
at_front c s o os new h =
    head
    ∙ ap (λ t. new ++ t)
        (substitute_skip (suc (length os) - 1) s (o ∷ os) new
          ∙ ap (λ t. substitute zero t (o ∷ os) new) same)
  where
    head :
        substitute zero (c ∷ s) (o ∷ os) new
        ≡ new ++ substitute (suc (length os) - 1) s (o ∷ os) new
    head = unfold substitute in rw (h, substitute)

    same : drop (suc (length os) - 1) s ≡ drop (0 + suc (length os)) (c ∷ s)
    same = ap (λ (n : ℕ). drop n (c ∷ s)) sum
      where
        sum : suc (suc (length os) - 1) ≡ 0 + suc (length os)
        sum = omega arith

behind :
    (c : ℕ) (s : Bytes) (o : ℕ) (os new : Bytes) (j : ℕ)
    → starts_with (o ∷ os) (c ∷ s) ≡ false
    → substitute zero s (o ∷ os) new
      ≡ take j s ++ (new ++ substitute zero (drop (j + suc (length os)) s) (o ∷ os) new)
    → substitute zero (c ∷ s) (o ∷ os) new
      ≡ c ∷ take j s
        ++ (new ++ substitute zero (drop (suc j + suc (length os)) (c ∷ s)) (o ∷ os) new)
behind c s o os new j h e =
    head
    ∙ ap (λ t. c ∷ t) e
    ∙ ap (λ t. c ∷ (take j s ++ (new ++ substitute zero t (o ∷ os) new)))
        (sym (drop-suc j (suc (length os)) c s))
  where
    head : substitute zero (c ∷ s) (o ∷ os) new ≡ c ∷ substitute zero s (o ∷ os) new
    head = unfold substitute in rw (h, substitute)

-- Up to the first occurrence the text is copied, and the occurrence is replaced.
substitute_first :
    (s old new : Bytes) (i : ℕ)
    → 0 < length old
    → index_of s old ≡ some i
    → substitute zero s old new
      ≡ take i s ++ (new ++ substitute zero (drop (i + length old) s) old new)
substitute_first s [] new i p h = elim p [ ]
substitute_first [] (o ∷ os) new i p h = absurd (unfold index_of starts_with in cc)
substitute_first (c ∷ s) (o ∷ os) new i p h = elim (index_of_cases c s (o ∷ os) i h) [
  | inl (here, at_once) ↦
      subst
        (λ i.
          substitute zero (c ∷ s) (o ∷ os) new
          ≡ take i (c ∷ s)
            ++ (new ++ substitute zero (drop (i + suc (length os)) (c ∷ s)) (o ∷ os) new))
        (sym at_once) (at_front c s o os new here)
  | inr (j, later, next, found) ↦
      subst
        (λ i.
          substitute zero (c ∷ s) (o ∷ os) new
          ≡ take i (c ∷ s)
            ++ (new ++ substitute zero (drop (i + suc (length os)) (c ∷ s)) (o ∷ os) new))
        (sym next) (behind c s o os new j later (substitute_first s (o ∷ os) new j p found))
]

length-drop-lt :
    (i k : ℕ) (s old : Bytes)
    → 0 < k
    → 0 < length old
    → index_of s old ≡ some i
    → length (drop (i + k) s) < length s
length-drop-lt i k [] [] p q h = elim q [ ]
length-drop-lt i k [] (o ∷ os) p q h = absurd (unfold index_of starts_with in cc)
length-drop-lt i k (c ∷ s) old p q h = omega (arith, length-drop (i + k) (c ∷ s))

-- With more fuel than the text has bytes the loop ends, and puts out the reference substitution
-- behind what it has already.
replace_loop-substitute :
    (fuel : ℕ) (s old new result : Bytes)
    → 0 < length old
    → length s < fuel
    → replace_loop fuel s old new result ≡ some (result ++ substitute zero s old new)
unfolding replace_loop
replace_loop-substitute zero s old new result p h = elim h [ ]
replace_loop-substitute (suc fuel) s old new result p h = elim (Option-cases (index_of s old)) [
  | inl absent ↦
      rw (absent, replace_loop)
        (ap (λ t. some (result ++ t)) (sym (substitute_absent s old new absent)))
  | inr (i, found) ↦
      let rest = drop (i + length old) s in
      let tail = substitute zero rest old new in
      rw (found, replace_loop)
        (replace_loop-substitute fuel rest old new (result ++ (take i s ++ new)) p
            (omega (arith, length-drop-lt i (length old) s old p p found))
          ∙ ap some (
              append_assoc result (take i s ++ new) tail
              ∙ ap (λ t. result ++ t)
                  (append_assoc (take i s) new tail ∙ sym (substitute_first s old new i p found))))
]

-- `replaceAll` ends for every searched text that is not empty, and replaces its occurrences from
-- left to right, each where the one before it ends, in one reading of the text.
pub replace_all-substitute :
    (s old new : Bytes) → 0 < length old → replace_all s old new ≡ some (substitute zero s old new)
unfolding replace_all
replace_all-substitute s old new p =
    replace_loop-substitute (suc (length s)) s old new [] p (omega arith)
