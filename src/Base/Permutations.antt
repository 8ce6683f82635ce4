-- ===== src/Base/Permutations.antt =====
-- Permutations of lists, and of what their elements are worth.
use mathlib.Core.Logic.{∥∥₁_elim, ∥∥₁_prop}
use mathlib.Core.List.{Perm, Permᴰ, perm_append_comm}
use mathlib.Core.List.Perm
use an_lf.Base.{◌≡◌, refl, sym, ap, ◌∙◌, subst, List, [], ◌∷◌, ◌++◌, map, append_assoc}

module _ {A : Type 0} where
  pub to_front : (l r : List A) (m : A) → Perm (l ++ m ∷ r) (m ∷ (l ++ r))
  to_front [] r m = Perm.rfl
  to_front (x ∷ l) r m = Perm.trans (Perm.cons x (to_front l r m)) (Perm.swap m x (l ++ r))

module _ {A B : Type 0} (f : A → List B) where
  unfoldable pub gather : List A → List B
  gather [] = []
  gather (x ∷ xs) = f x ++ gather xs

  pub gather-append : (xs ys : List A) → gather (xs ++ ys) ≡ gather xs ++ gather ys
  unfolding gather
  gather-append [] ys = refl
  gather-append (x ∷ xs) ys =
      ap (◌++◌ (f x)) (gather-append xs ys) ∙ sym (append_assoc (f x) (gather xs) (gather ys))

  swapped : (k l r : List B) → Perm (k ++ (l ++ r)) (l ++ (k ++ r))
  swapped k l r =
      subst (λ s. Perm s (l ++ (k ++ r))) (append_assoc k l r)
        (subst (Perm ((k ++ l) ++ r)) (append_assoc l k r)
          (Perm.append_right r (perm_append_comm k l)))

  gather-Permᴰ : {xs ys : List A} → Permᴰ xs ys → Perm (gather xs) (gather ys)
  unfolding gather
  gather-Permᴰ Permᴰ.nil = Perm.rfl
  gather-Permᴰ (Permᴰ.cons {a = a} {l₁ = xs} {l₂ = ys} e d) =
      subst (λ x. Perm (f a ++ gather xs) (f x ++ gather ys)) e
        (Perm.append_left (f a) (gather-Permᴰ d))
  gather-Permᴰ (Permᴰ.swap {a = a} {b = b} {b' = b'} {l = l} e1 e2) =
      subst (λ x. Perm (gather (a ∷ b ∷ l)) (f x ++ gather (b' ∷ l))) e2
        (subst (λ x. Perm (gather (a ∷ b ∷ l)) (f b ++ gather (x ∷ l))) e1
          (swapped (f a) (f b) (gather l)))
  gather-Permᴰ (Permᴰ.trans d1 d2) = Perm.trans (gather-Permᴰ d1) (gather-Permᴰ d2)

  -- A permutation of the elements is one of what they are worth.
  pub gather-perm : {xs ys : List A} → Perm xs ys → Perm (gather xs) (gather ys)
  gather-perm p = ∥∥₁_elim p ∥∥₁_prop gather-Permᴰ

module _ {A B C : Type 0} (f : B → List C) (g : A → B) where
  pub gather-map_nil : ((x : A) → f (g x) ≡ []) → (xs : List A) → gather f (map g xs) ≡ []
  unfolding gather
  gather-map_nil h [] = refl
  gather-map_nil h (x ∷ xs) = rw (h x) (gather-map_nil h xs)
