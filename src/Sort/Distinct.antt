-- ===== src/Sort/Distinct.antt =====
-- Entries with different keys: the sort by the key has one result only.
use mathlib.Core.List.{Mem, mem-cons, not-mem-nil, mem-map_of_mem}
use mathlib.Core.Logic.Or
use mathlib.Core.Bool.{Bool-set}
use an_lf.Base.{
  ◌≡◌, sym, ap, ◌∙◌, false, List, [], ◌∷◌, map, arith, Bytes, All, bytes_eq, bytes_eq_refl,
  bytes_lt,
}
use an_lf.Sort.Members.{All-mem}
use an_lf.Sort.Unique.{Separates}
use an_lf.Sort.Keys.{bytes_lt_antisym}

-- No string stands twice in the list.
abbrev pub Distinct : List Bytes → Type 0
Distinct [] = Unit
Distinct (k ∷ ks) = All (λ j. bytes_eq k j ≡ false) ks × Distinct ks

module _ {A : Type 0} (set : IsSet A) (key : A → Bytes) where
  not_among :
      (x : A) (xs : List A) (b : A)
      → All (λ j. bytes_eq (key x) j ≡ false) (map key xs)
      → Mem b xs
      → key x ≡ key b
      → ⊥
  not_among x xs b h m e =
      clash (key x) (key b) e
        (All-mem (λ j. Bool-set _ _) (map key xs) h (key b) (mem-map_of_mem key m))
    where
      clash : (s t : Bytes) → s ≡ t → bytes_eq s t ≡ false → ⊥
      clash s t e n = ground (arith, bytes_eq_refl s)

  -- Entries with the same key are the same.
  same_key :
      (xs : List A) (a b : A) → Distinct (map key xs) → Mem a xs → Mem b xs → key a ≡ key b → a ≡ b
  same_key [] a b d m n e = absurd (not-mem-nil m)
  same_key (x ∷ xs) a b d m n e =
      Or.elim (set a b) (mem-cons.0 m)
        (λ ax.
          Or.elim (set a b) (mem-cons.0 n) (λ bx. ax ∙ sym bx)
            (λ nb. absurd (not_among x xs b d.0 nb (ap key (sym ax) ∙ e))))
        (λ ma.
          Or.elim (set a b) (mem-cons.0 n)
            (λ bx. absurd (not_among x xs a d.0 ma (ap key (sym bx) ∙ sym e)))
            (λ nb. same_key xs a b d.1 ma nb e))

  pub Distinct-Separates :
      (xs : List A) → Distinct (map key xs) → Separates (λ (a b : A). bytes_lt (key a) (key b)) xs
  Distinct-Separates xs d a b m n up down =
      same_key xs a b d m n (bytes_lt_antisym (key a) (key b) up down)
