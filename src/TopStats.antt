-- ===== src/TopStats.antt =====
-- The top-N statistics of pkg/ebpf/manager.go: `TopStat`, `TopStats` and `getTop3`.
pub mod Laws
use an_lf.Base.{ℕ, Bool, List, ltb, take, length, if◌then◌else◌}
use an_lf.Sort.{exchange_sort}

pub record TopStat : Type 0 where
  pub key : ℕ
  pub traffic : ℕ

pub record TopStats : Type 0 where
  pub top_subnets : List TopStat
  pub top_ports : List TopStat
  pub top_ips : List TopStat

-- `stats[j].Bytes > stats[i].Bytes`: entry j belongs before entry i.
abbrev pub more_bytes : TopStat → TopStat → Bool
more_bytes sj si = ltb si.traffic sj.traffic

-- `getTop3` sorts its argument in place: the sorted slice, and the part that it returns.
unfoldable pub get_top3 : List TopStat → List TopStat × List TopStat
get_top3 stats =
    let sorted = exchange_sort more_bytes stats in
    (sorted, if ltb 3 (length sorted) then take 3 sorted else sorted)
