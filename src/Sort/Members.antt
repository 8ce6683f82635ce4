-- ===== src/Sort/Members.antt =====
-- A property of all entries of a list, by membership and up to their order.
use mathlib.Core.List.{Perm, Mem, mem-cons, mem-cons_self, mem-cons_of_mem, not-mem-nil}
use mathlib.Core.List.Perm
use mathlib.Core.Logic.Or
use an_lf.Base.{List, [], ◌∷◌, All}

module _ {ℓ κ} {A : Type ℓ} {P : A → Type κ} where
  pub All-mem : ((a : A) → IsProp (P a)) → (xs : List A) → All P xs → (a : A) → Mem a xs → P a
  All-mem prop [] h a m = absurd (not-mem-nil m)
  All-mem prop (x ∷ xs) h a m =
      Or.elim (prop a) (mem-cons.0 m) (λ e. rw e h.0) (All-mem prop xs h.1 a)

  mem-All : (xs : List A) → ((a : A) → Mem a xs → P a) → All P xs
  mem-All [] f = tt
  mem-All (x ∷ xs) f = (f x mem-cons_self, mem-All xs (λ a m. f a (mem-cons_of_mem x m)))

  pub All-perm : ((a : A) → IsProp (P a)) → (xs ys : List A) → Perm xs ys → All P xs → All P ys
  All-perm prop xs ys p h = mem-All ys (λ a m. All-mem prop xs h a ((Perm.mem_iff p).1 m))
