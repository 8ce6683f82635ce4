-- ===== src/Tests/Kernel.antt =====
-- Runs of the reads of the kernel's counters (pkg/ebpf/manager.go).
use an_lf.Base.{ℕ, ◌≡◌, refl, true, false, some, none, List, [], arith, ◌∷◌}
use an_lf.Counters.{find, Scan, collect, count_bytes, read_and_reset}
use an_lf.Counters.Laws.{counted_all, counted, read_and_reset_loses}
use an_lf.Counters.TopRead.{TopScans}

-- Four keys with their bytes.
abbrev scan : Scan ℕ
scan = record { entries = (1, 100) ∷ (2, 50) ∷ (3, 70) ∷ (4, 20) ∷ []; failed = false }

-- 7 bytes for key 2 before its delete, and 9 bytes after it.
abbrev early : List (List (ℕ × ℕ))
early = [] ∷ ((2, 7) ∷ []) ∷ []

abbrev late : List (List (ℕ × ℕ))
late = ((2, 9) ∷ []) ∷ []

read_and_reset_loses_example :
    ((read_and_reset count_bytes true scan ([] ∷ ((2, 7) ∷ []) ∷ ((2, 9) ∷ []) ∷ []) scan.entries).0
      ≡ some (collect scan.entries []))
    × (find 2
          (read_and_reset count_bytes true scan
            ([] ∷ ((2, 7) ∷ []) ∷ ((2, 9) ∷ []) ∷ [])
            scan.entries).1
        ≡ counted_all count_bytes 2 late none)
read_and_reset_loses_example =
    read_and_reset_loses count_bytes 2 scan (1 ∷ []) (3 ∷ 4 ∷ []) early late scan.entries refl refl
      (omega arith, (omega arith, tt)) refl

nine_bytes_left : counted_all count_bytes 2 late none ≡ some 9
unfolding counted_all counted
nine_bytes_left = refl

abbrev scans : TopScans
scans = record { subnets = scan; ports = scan; ips = scan }
