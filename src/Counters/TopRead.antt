-- ===== src/Counters/TopRead.antt =====
-- `ReadAndResetTopStats` of pkg/ebpf/manager.go. `getTop3` sorts its argument in place, so the
-- resets go through the entries in the order of the sort.
use an_lf.Base.{
  ℕ, ◌≡◌, ◌<◌, refl, subst, ◌∙◌, ◌%◌, ◌^◌, ◌==◌, ==_iff, ◌⊎◌, inl, inr, Bool, true, false, ◌||◌,
  Option, none, some, List, [], ◌∷◌, map, All, Bool-cases, arith,
}
use an_lf.Sort.Members.{All-perm}
use an_lf.TopStats.{TopStat, TopStats, get_top3}
use an_lf.TopStats.Laws.{get_top3_lem}
use an_lf.Counters.{find, delete, Scan, count_bytes, delete_all}
use an_lf.Counters.Laws.{find-delete, find-delete_self}

pub record TopMaps : Type 0 where
  pub subnets : List (ℕ × ℕ)
  pub ports : List (ℕ × ℕ)
  pub ips : List (ℕ × ℕ)

pub record TopScans : Type 0 where
  pub subnets : Scan ℕ
  pub ports : Scan ℕ
  pub ips : Scan ℕ

-- The lengths of the packets that arrive before each delete of a map, by their keys.
pub record TopArrivals : Type 0 where
  pub subnets : List (List (ℕ × ℕ))
  pub ports : List (List (ℕ × ℕ))
  pub ips : List (List (ℕ × ℕ))

abbrev pub stat_of : ℕ × ℕ → TopStat
stat_of e = record { key = e.0; traffic = e.1 }

abbrev pub wide : ℕ → ℕ
wide k = k

-- `uint16(s.Key)`.
abbrev pub port_of : ℕ → ℕ
port_of k = k % 2 ^ 16

-- The deletes of one map, of the keys of the statistics that were read from it.
abbrev pub reset_map : (ℕ → ℕ) → List TopStat → List (List (ℕ × ℕ)) → List (ℕ × ℕ) → List (ℕ × ℕ)
reset_map narrow stats arrivals t =
    delete_all count_bytes (map (λ s. narrow s.key) stats) arrivals t

abbrev pub top_and_reset : TopScans → TopArrivals → TopMaps → TopStats × TopMaps
top_and_reset scans arrivals maps =
    let subnets = get_top3 (map stat_of scans.subnets.entries) in
    let ports = get_top3 (map stat_of scans.ports.entries) in
    let ips = get_top3 (map stat_of scans.ips.entries) in
    (
      record { top_subnets = subnets.1; top_ports = ports.1; top_ips = ips.1 },
      record {
        subnets = reset_map wide subnets.0 arrivals.subnets maps.subnets;
        ports = reset_map port_of ports.0 arrivals.ports maps.ports;
        ips = reset_map wide ips.0 arrivals.ips maps.ips;
      },
    )

-- `ReadAndResetTopStats`: an error in one of the three iterations ends it before any reset.
unfoldable pub read_and_reset_top_stats :
    Bool → TopScans → TopArrivals → TopMaps → Option TopStats × TopMaps
read_and_reset_top_stats loaded scans arrivals maps = elim loaded [
  | false ↦ (none, maps)
  | true ↦ elim (scans.subnets.failed || scans.ports.failed || scans.ips.failed) [
    | true ↦ (none, maps)
    | false ↦ let done = top_and_reset scans arrivals maps in (some done.0, done.1)
  ]
]

still_missing :
    (k : ℕ) (narrow : ℕ → ℕ) (stats : List TopStat) (t : List (ℕ × ℕ))
    → find k t ≡ none
    → find k (reset_map narrow stats [] t) ≡ none
unfolding delete_all
still_missing k narrow [] t h = h
still_missing k narrow (s ∷ stats) t h =
    still_missing k narrow stats (delete (narrow s.key) t)
      (ground (arith, find-delete (narrow s.key) k t, h))

reset_map-All :
    (narrow : ℕ → ℕ) (stats : List TopStat) (t : List (ℕ × ℕ))
    → All (λ s. find (narrow s.key) (reset_map narrow stats [] t) ≡ none) stats
unfolding delete_all
reset_map-All narrow [] t = tt
reset_map-All narrow (s ∷ stats) t = (
  still_missing (narrow s.key) narrow stats (delete (narrow s.key) t)
      (find-delete_self (narrow s.key) t),
  reset_map-All narrow stats (delete (narrow s.key) t),
)

-- What holds for all keys that were read holds for a key that the map has.
read_or_missing :
    (P : ℕ → Type 0) (narrow : ℕ → ℕ) (k : ℕ) (t : List (ℕ × ℕ))
    → All (λ s. P (narrow s.key)) (map stat_of t)
    → All (λ e. narrow e.0 ≡ e.0) t
    → (find k t ≡ none) ⊎ P k
unfolding find
read_or_missing P narrow k [] h n = inl refl
read_or_missing P narrow k ((j, v) ∷ t) h n = elim (Bool-cases (j == k)) [
  | inl e ↦ inr (subst P (n.0 ∙ (==_iff j k).0 e) h.0)
  | inr e ↦ rw e (read_or_missing P narrow k t h.1 n.1)
]

reset_map_empties :
    (narrow : ℕ → ℕ) (k : ℕ) (t : List (ℕ × ℕ))
    → All (λ e. narrow e.0 ≡ e.0) t
    → find k (reset_map narrow (get_top3 (map stat_of t)).0 [] t) ≡ none
reset_map_empties narrow k t n =
    let sorted = (get_top3 (map stat_of t)).0 in
    let left = reset_map narrow sorted [] t in
    let gone =
      All-perm (λ s. hlevel) sorted (map stat_of t) (get_top3_lem (map stat_of t)).1
        (reset_map-All narrow sorted t) in
    elim (read_or_missing (λ j. find j left ≡ none) narrow k t gone n) [
      | inl m ↦ still_missing k narrow sorted t m
      | inr m ↦ m
    ]

-- The maps whose entries are what the iterations read.
abbrev pub scanned : TopScans → TopMaps
scanned scans = record {
  subnets = scans.subnets.entries;
  ports = scans.ports.entries;
  ips = scans.ips.entries;
}

abbrev pub no_arrivals : TopArrivals
no_arrivals = record { subnets = []; ports = []; ips = [] }

wide-All : (t : List (ℕ × ℕ)) → All (λ e. wide e.0 ≡ e.0) t
wide-All [] = tt
wide-All (e ∷ t) = (refl, wide-All t)

port_of-All : (t : List (ℕ × ℕ)) → All (λ e. e.0 < 2 ^ 16) t → All (λ e. port_of e.0 ≡ e.0) t
port_of-All [] h = tt
port_of-All (e ∷ t) h = (omega (arith, h.0), port_of-All t h.1)

-- Without packets during the call, `ReadAndResetTopStats` of maps whose entries it reads returns
-- statistics and leaves the three maps empty: also the counters behind the first three are reset.
-- Keys of ports are below 2^16.
pub read_and_reset_top_stats_empties :
    (k : ℕ) (scans : TopScans)
    → scans.subnets.failed ≡ false
    → scans.ports.failed ≡ false
    → scans.ips.failed ≡ false
    → All (λ e. e.0 < 2 ^ 16) scans.ports.entries
    → let (result, left) = read_and_reset_top_stats true scans no_arrivals (scanned scans) in
      (stats : TopStats) × (result ≡ some stats)
      × (find k left.subnets ≡ none)
      × (find k left.ports ≡ none)
      × (find k left.ips ≡ none)
unfolding read_and_reset_top_stats
read_and_reset_top_stats_empties k scans f g h b =
    rw (f, g, h)
      ((
        (top_and_reset scans no_arrivals (scanned scans)).0,
        refl,
        reset_map_empties wide k scans.subnets.entries (wide-All scans.subnets.entries),
        reset_map_empties port_of k scans.ports.entries (port_of-All scans.ports.entries b),
        reset_map_empties wide k scans.ips.entries (wide-All scans.ips.entries),
      ))
