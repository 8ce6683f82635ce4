-- ===== src/Sort/Laws.antt =====
-- The exchange sort rearranges its input, and leaves no entry behind one that it belongs before.
use mathlib.Core.List.{Perm, Pairwise}
use mathlib.Core.List.Perm
use mathlib.Core.Bool.{Bool-set}
use an_lf.Base.{
  ℕ, zero, suc, ◌≤◌, ◌≡◌, refl, inl, inr, Bool, true, false, List, [], ◌∷◌, arith, Bool-cases,
  if◌then◌else◌, length, All,
}
use an_lf.Sort.Members.{All-mem}
use an_lf.Sort.{exchange_from, exchange_rounds, exchange_sort}

module _ {ℓ} {A : Type ℓ} (before : A → A → Bool) where
  -- One comparison of the loop over j, as an equation for each outcome.
  exchange_from_swap :
      (x y : A) (ys : List A)
      → before y x ≡ true
      → exchange_from before x (y ∷ ys)
        ≡ ((exchange_from before y ys).0, x ∷ (exchange_from before y ys).1)
  unfolding exchange_from
  exchange_from_swap x y ys h = rw h

  exchange_from_keep :
      (x y : A) (ys : List A)
      → before y x ≡ false
      → exchange_from before x (y ∷ ys)
        ≡ ((exchange_from before x ys).0, y ∷ (exchange_from before x ys).1)
  unfolding exchange_from
  exchange_from_keep x y ys h = rw h

  exchange_from-perm :
      (x : A) (ys : List A)
      → Perm ((exchange_from before x ys).0 ∷ (exchange_from before x ys).1) (x ∷ ys)
  exchange_from-perm x [] = unfold exchange_from in Perm.rfl
  exchange_from-perm x (y ∷ ys) = elim (Bool-cases (before y x)) [
    | inl swap ↦
        rw (exchange_from_swap x y ys swap)
          (Perm.trans (Perm.swap x _ _) (Perm.cons x (exchange_from-perm y ys)))
    | inr keep ↦ rw (exchange_from_keep x y ys keep) (
        Perm.trans (Perm.swap y _ _)
          (Perm.trans (Perm.cons y (exchange_from-perm x ys)) (Perm.swap x y ys)))
  ]

  exchange_rounds-perm : (n : ℕ) (xs : List A) → Perm (exchange_rounds before n xs) xs
  unfolding exchange_rounds
  exchange_rounds-perm zero xs = Perm.rfl
  exchange_rounds-perm (suc n) [] = Perm.rfl
  exchange_rounds-perm (suc n) (x ∷ xs) =
      Perm.trans (Perm.cons _ (exchange_rounds-perm n (exchange_from before x xs).1))
        (exchange_from-perm x xs)

  -- The sort loses no entry and makes none up.
  pub exchange_sort-perm : (xs : List A) → Perm (exchange_sort before xs) xs
  unfolding exchange_sort
  exchange_sort-perm xs = exchange_rounds-perm (length xs) xs

  length-exchange_from : (x : A) (ys : List A) → length (exchange_from before x ys).1 ≡ length ys
  unfolding exchange_from
  length-exchange_from x [] = refl
  length-exchange_from x (y ∷ ys) =
      omega (arith, length-exchange_from (if before y x then y else x) ys)

-- `Upto x y`: the entry `y` does not belong before `x`.
abbrev pub Upto {ℓ} : {A : Type ℓ} → (A → A → Bool) → A → A → Type 0
Upto before x y = before y x ≡ false

-- What a sort needs of `before`: it is asymmetric, and its negation is transitive.
pub record IsWeakOrder {ℓ} {A : Type ℓ} (before : A → A → Bool) : Type ℓ where
  pub asym : (x y : A) → before x y ≡ true → before y x ≡ false
  pub trans : (x y z : A) → before y x ≡ false → before z y ≡ false → before z x ≡ false

module _ {ℓ} {A : Type ℓ} {before : A → A → Bool} (w : IsWeakOrder before) where
  upto_refl : (x : A) → before x x ≡ false
  upto_refl x = elim (Bool-cases (before x x)) [ inl h ↦ w.asym x x h | inr h ↦ h ]

  -- The entry that ends up at i is not behind the one that stood there, nor behind any other.
  exchange_from-Upto :
      (x : A) (ys : List A)
      → (before x (exchange_from before x ys).0 ≡ false)
        × All (Upto before (exchange_from before x ys).0) (exchange_from before x ys).1
  exchange_from-Upto x [] = unfold exchange_from in (upto_refl x, tt)
  exchange_from-Upto x (y ∷ ys) = elim (Bool-cases (before y x)) [
    | inl swap ↦
        let (le, rest) = exchange_from-Upto y ys in
        let below = w.trans _ y x le (w.asym y x swap) in
        rw (exchange_from_swap before x y ys swap) (below, (below, rest))
    | inr keep ↦
        let (le, rest) = exchange_from-Upto x ys in
        rw (exchange_from_keep before x y ys keep) (le, (w.trans _ x y le keep, rest))
  ]

  exchange_rounds-sorted :
      (n : ℕ) (xs : List A) → length xs ≤ n → Pairwise (Upto before) (exchange_rounds before n xs)
  unfolding exchange_rounds
  exchange_rounds-sorted zero [] h = Pairwise.nil
  exchange_rounds-sorted zero (x ∷ xs) h = absurd (omega arith)
  exchange_rounds-sorted (suc n) [] h = Pairwise.nil
  exchange_rounds-sorted (suc n) (x ∷ xs) h =
      let rest = (exchange_from before x xs).1 in
      let sorted =
        exchange_rounds-sorted n rest (omega (arith, length-exchange_from before x xs)) in
      let below = (exchange_from-Upto x xs).1 in
      Pairwise.cons
        (λ a m.
          All-mem (λ _. Bool-set _ _) rest below a
            ((Perm.mem_iff (exchange_rounds-perm before n rest)).0 m))
        sorted

  -- In the result no entry belongs before one that stands in front of it.
  pub exchange_sort-sorted : (xs : List A) → Pairwise (Upto before) (exchange_sort before xs)
  unfolding exchange_sort
  exchange_sort-sorted xs = exchange_rounds-sorted (length xs) xs (omega arith)
