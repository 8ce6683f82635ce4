-- ===== src/Counters.antt =====
-- The counters of pkg/ebpf/manager.go: `ReadMetrics`, `ResetMetrics`, `ReadAndReset` and
-- `ReadAndResetTopStats`. A
-- map of the kernel is a list of entries; the kernel program keeps counting packets while these
-- methods run, so they get the packets that arrive before each of their deletes.
pub mod Laws
pub mod TopRead
use an_lf.Base.{
  ℕ, zero, suc, ◌+◌, ◌%◌, ◌^◌, Bool, true, false, ◌||◌, ◌&&◌, not, Option, none, some, List, [],
  ◌∷◌, ◌==◌, map, if◌then◌else◌,
}
use an_lf.Features.{UeMetrics}
use an_lf.TopStats.{TopStat, TopStats, get_top3}

module _ {ℓ} {V : Type ℓ} where
  unfoldable pub find : ℕ → List (ℕ × V) → Option V
  find k [] = none
  find k ((j, v) ∷ t) = if j == k then some v else find k t

  -- `metrics[key] = value`, and an update of a map of the kernel.
  unfoldable pub write : ℕ → V → List (ℕ × V) → List (ℕ × V)
  write k v [] = (k, v) ∷ []
  write k v ((j, w) ∷ t) = if j == k then (k, v) ∷ t else (j, w) ∷ write k v t

  -- A delete of a key that is not there changes nothing; that error is not looked at.
  unfoldable pub delete : ℕ → List (ℕ × V) → List (ℕ × V)
  delete k [] = []
  delete k ((j, w) ∷ t) = let rest = delete k t in if j == k then rest else (j, w) ∷ rest

  -- The entries of an iteration, collected into a map of Go.
  unfoldable pub collect : List (ℕ × V) → List (ℕ × V) → List (ℕ × V)
  unfolding write
  collect [] metrics = metrics
  collect ((k, v) ∷ seen) metrics = collect seen (write k v metrics)

abbrev pub key_of {ℓ} : {V : Type ℓ} → ℕ × V → ℕ
key_of e = e.0

-- What an iteration over a map gives: the entries that it reads, and whether it ends with an error.
pub record Scan {ℓ} (V : Type ℓ) : Type ℓ where
  pub entries : List (ℕ × V)
  pub failed : Bool

-- `count p o` is the entry that the kernel program stores for a packet p on its key's entry o.
module _ {ℓ κ} {V : Type ℓ} {P : Type κ} (count : P → Option V → V) where
  unfoldable pub arrive : List (ℕ × P) → List (ℕ × V) → List (ℕ × V)
  unfolding write find
  arrive [] t = t
  arrive ((k, p) ∷ ps) t = arrive ps (write k (count p (find k t)) t)

  -- The deletes of `keys`. Before each of them come the packets of one entry of `arrivals`; what is
  -- left of `arrivals` comes after the last delete.
  unfoldable pub delete_all : List ℕ → List (List (ℕ × P)) → List (ℕ × V) → List (ℕ × V)
  unfolding arrive delete
  delete_all [] [] t = t
  delete_all [] (ps ∷ arrivals) t = delete_all [] arrivals (arrive ps t)
  delete_all (k ∷ keys) [] t = delete_all keys [] (delete k t)
  delete_all (k ∷ keys) (ps ∷ arrivals) t = delete_all keys arrivals (delete k (arrive ps t))

  -- `ReadAndReset`, generic in the entries: what it returns, `none` for an error, and the map after
  -- it. The map is the one at the end of the iteration.
  unfoldable pub read_and_reset :
      Bool → Scan V → List (List (ℕ × P)) → List (ℕ × V) → Option (List (ℕ × V)) × List (ℕ × V)
  unfolding delete_all collect
  read_and_reset loaded scan arrivals t = elim loaded [
    | false ↦ (none, t)
    | true ↦ elim scan.failed [
      | true ↦ (none, t)
      | false ↦ (some (collect scan.entries []), delete_all (map key_of scan.entries) arrivals t)
    ]
  ]

-- `ResetMetrics` deletes each entry when its iteration reads it, and ends at the first delete that
-- fails. `deletes` says which succeed.
module _ {ℓ} {V : Type ℓ} (deletes : ℕ → Bool) where
  unfoldable pub reset_loop : List (ℕ × V) → List (ℕ × V) → Bool × List (ℕ × V)
  unfolding delete
  reset_loop [] t = (true, t)
  reset_loop ((k, v) ∷ seen) t =
      let rest = reset_loop seen (delete k t) in if deletes k then rest else (false, t)

  -- Whether it returned no error, and the map after it.
  unfoldable pub reset_metrics : Bool → Scan V → List (ℕ × V) → Bool × List (ℕ × V)
  unfolding reset_loop
  reset_metrics loaded scan t = elim loaded [
    | false ↦ (false, t)
    | true ↦ let (ok, t') = reset_loop scan.entries t in (ok && not scan.failed, t')
  ]

-- `ReadMetrics`.
pub read_metrics : Bool → Scan UeMetrics → Option (List (ℕ × UeMetrics))
unfolding collect
read_metrics loaded scan = elim loaded [
  | false ↦ none
  | true ↦ elim scan.failed [ true ↦ none | false ↦ some (collect scan.entries []) ]
]

-- The update of a counter of bytes in bpf/anlf.c, 64 bits wide, for a packet of a length.
abbrev pub count_bytes : ℕ → Option ℕ → ℕ
count_bytes len none = len % 2 ^ 64
count_bytes len (some n) = (n + len) % 2 ^ 64
