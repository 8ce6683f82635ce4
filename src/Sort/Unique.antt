-- ===== src/Sort/Unique.antt =====
-- Where the order tells different entries apart, a sorted list is determined by what it holds.
use mathlib.Core.List.{Perm, Pairwise, Mem, mem-cons, mem-cons_self, mem-cons_of_mem}
use mathlib.Core.List.{Pairwise-cons}
use mathlib.Core.List.Perm
use mathlib.Core.Logic.Or
use an_lf.Base.{◌≡◌, sym, subst, Bool, false, List, [], ◌∷◌}
use an_lf.Sort.{exchange_sort}
use an_lf.Sort.Laws.{Upto, IsWeakOrder, exchange_sort-perm, exchange_sort-sorted}

-- Different entries of `l` are strictly ordered by `before`.
abbrev pub Separates {ℓ} : {A : Type ℓ} → (A → A → Bool) → List A → Type ℓ
Separates {A = A} before l =
    (a b : A) → Mem a l → Mem b l → before a b ≡ false → before b a ≡ false → a ≡ b

module _ {ℓ} {A : Type ℓ} {before : A → A → Bool} (set : IsSet A) where
  heads-eq :
      (x y : A) (xs ys : List A)
      → Separates before (x ∷ xs)
      → Pairwise (Upto before) (x ∷ xs)
      → Pairwise (Upto before) (y ∷ ys)
      → Perm (x ∷ xs) (y ∷ ys)
      → x ≡ y
  heads-eq x y xs ys sep sx sy p =
      let y_in : Mem y (x ∷ xs) = (Perm.mem_iff p).1 mem-cons_self in
      let x_in : Mem x (y ∷ ys) = (Perm.mem_iff p).0 mem-cons_self in
      Or.elim (set x y) (mem-cons.0 x_in) (λ e. e)
        λ m.
          Or.elim (set x y) (mem-cons.0 y_in) (λ e. sym e)
            λ n.
              sep x y mem-cons_self y_in ((Pairwise-cons.0 sy).0 x m) ((Pairwise-cons.0 sx).0 y n)

  pub Pairwise-unique :
      (xs ys : List A)
      → Separates before xs
      → Pairwise (Upto before) xs
      → Pairwise (Upto before) ys
      → Perm xs ys
      → xs ≡ ys
  Pairwise-unique [] ys sep sx sy p = Perm.nil-eq p
  Pairwise-unique (x ∷ xs) [] sep sx sy p = Perm.eq-nil p
  Pairwise-unique (x ∷ xs) (y ∷ ys) sep sx sy p =
      let e : x ≡ y = heads-eq x y xs ys sep sx sy p in
      let p' : Perm (y ∷ xs) (y ∷ ys) = subst (λ z. Perm (z ∷ xs) (y ∷ ys)) e p in
      let rest =
        Pairwise-unique xs ys (λ a b m n. sep a b (mem-cons_of_mem x m) (mem-cons_of_mem x n))
          (Pairwise-cons.0 sx).1 (Pairwise-cons.0 sy).1 (Perm.cons_inv p') in
      λ i. e i ∷ rest i

  -- The result does not depend on the order in which the entries arrive.
  pub exchange_sort-order :
      IsWeakOrder before
      → (xs ys : List A) → Separates before xs
      → Perm xs ys
      → exchange_sort before xs ≡ exchange_sort before ys
  exchange_sort-order w xs ys sep p =
      Pairwise-unique (exchange_sort before xs) (exchange_sort before ys)
        (λ a b m n. sep a b (member a m) (member b n)) (exchange_sort-sorted w xs)
        (exchange_sort-sorted w ys)
        (Perm.trans (exchange_sort-perm before xs)
          (Perm.trans p (Perm.symm (exchange_sort-perm before ys))))
    where
      member : (a : A) → Mem a (exchange_sort before xs) → Mem a xs
      member a m = (Perm.mem_iff (exchange_sort-perm before xs)).0 m
