-- ===== src/Sort.antt =====
-- The exchange sort that the program writes out three times: `exportBatch` of
-- internal/analyzer/exporter/csv_exporter.go, `sortResultsBySUPI` of
-- internal/analyzer/detector/anomaly_detector.go and `getTop3` of pkg/ebpf/manager.go.
-- For each position i the entries behind it are compared with entry i in turn, and swapped with it
-- if `before` says that they belong in front of it.
pub mod Members
pub mod Laws
pub mod Unique
pub mod Keys
pub mod Distinct
use an_lf.Base.{ℕ, zero, suc, Bool, List, [], ◌∷◌, if◌then◌else◌, length}

module _ {ℓ} {A : Type ℓ} (before : A → A → Bool) where
  -- The loop over j for one i: the entry at i in the end, and what stands behind it.
  pub exchange_from : A → List A → A × List A
  exchange_from x [] = (x, [])
  exchange_from x (y ∷ ys) =
      let (m, rest) = exchange_from (if before y x then y else x) ys in
      (m, (if before y x then x else y) ∷ rest)

  -- The loop over i, as many rounds as there are entries.
  pub exchange_rounds : ℕ → List A → List A
  unfolding exchange_from
  exchange_rounds zero xs = xs
  exchange_rounds (suc n) [] = []
  exchange_rounds (suc n) (x ∷ xs) =
      let (m, rest) = exchange_from x xs in m ∷ exchange_rounds n rest

  unfoldable pub exchange_sort : List A → List A
  unfolding exchange_rounds
  exchange_sort xs = exchange_rounds (length xs) xs
