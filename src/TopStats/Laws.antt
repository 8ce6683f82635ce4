-- ===== src/TopStats/Laws.antt =====
-- `getTop3` of pkg/ebpf/manager.go returns the three largest entries.
use mathlib.Core.List.{Perm, Pairwise}
use an_lf.Base.{
  inl, inr, ◌⊎◌, ◌≤◌, ◌≡◌, refl, List, [], ◌∷◌, ◌++◌, arith, ltb, take, length, if◌then◌else◌,
}
use an_lf.Sort.{exchange_sort}
use an_lf.Sort.Laws.{Upto, IsWeakOrder, exchange_sort-perm, exchange_sort-sorted}
use an_lf.TopStats.{TopStat, more_bytes, get_top3}

more_bytes-IsWeakOrder : IsWeakOrder more_bytes
more_bytes-IsWeakOrder = record { asym = λ x y h. ground arith; trans = λ x y z h k. ground arith }

-- A list cut after three entries is a part in front of the rest, which is empty or comes after
-- three.
cut_front :
    (xs : List TopStat)
    → let top = if ltb 3 (length xs) then take 3 xs else xs in
      (rest : List TopStat) × (xs ≡ top ++ rest)
      × (((rest ≡ []) × (length top ≤ 3)) ⊎ (length top ≡ 3))
cut_front [] = ([], refl, inl (refl, omega arith))
cut_front (a ∷ []) = ([], refl, inl (refl, omega arith))
cut_front (a ∷ b ∷ []) = ([], refl, inl (refl, omega arith))
cut_front (a ∷ b ∷ c ∷ []) = ([], refl, inl (refl, omega arith))
cut_front (a ∷ b ∷ c ∷ d ∷ xs) = (d ∷ xs, ground arith, inr (ground arith))

-- `getTop3` rearranges its input and loses nothing of it, so that it falls by bytes, and returns
-- the front of that: all entries where there are at most three, and three otherwise. The entries
-- that it leaves out stand behind, so none of them has more bytes than one that it returns.
pub get_top3_lem :
    (stats : List TopStat)
    → let (sorted, top) = get_top3 stats in
      (rest : List TopStat) × Perm sorted stats
      × Pairwise (Upto more_bytes) sorted
      × (sorted ≡ top ++ rest)
      × (((rest ≡ []) × (length top ≤ 3)) ⊎ (length top ≡ 3))
unfolding get_top3
get_top3_lem stats =
    let (rest, split, few) = cut_front (exchange_sort more_bytes stats) in
    (
      rest,
      exchange_sort-perm more_bytes stats,
      exchange_sort-sorted more_bytes-IsWeakOrder stats,
      split,
      few,
    )
