-- ===== src/Counters/Laws.antt =====
-- What a read with a reset keeps and what it loses (pkg/ebpf/manager.go).
use an_lf.Base.{
  ℕ, suc, ◌≡◌, ◌≢◌, ◌⊎◌, inr, refl, ap, subst, ◌∙◌, ◌==◌, ==_iff, true, false, Option, none, some,
  List, [], ◌∷◌, ◌++◌, map, length, All, if◌then◌else◌, arith,
}
use an_lf.Counters.{find, write, delete, collect, key_of, Scan, arrive, delete_all, read_and_reset}

module _ {ℓ} {V : Type ℓ} where
  find-write :
      (k j : ℕ) (v : V) (t : List (ℕ × V))
      → find j (write k v t) ≡ (if k == j then some v else find j t)
  unfolding find write
  find-write k j v [] = refl
  find-write k j v ((i, w) ∷ t) = ground (arith, find-write k j v t)

  pub find-delete :
      (k j : ℕ) (t : List (ℕ × V)) → find j (delete k t) ≡ (if k == j then none else find j t)
  unfolding find delete
  find-delete k j [] = ground arith
  find-delete k j ((i, w) ∷ t) = ground (arith, find-delete k j t)

  find-delete_other : (k j : ℕ) (t : List (ℕ × V)) → k ≢ j → find j (delete k t) ≡ find j t
  find-delete_other k j t h = ground (arith, find-delete k j t, ==_iff k j)

  pub find-delete_self : (k : ℕ) (t : List (ℕ × V)) → find k (delete k t) ≡ none
  find-delete_self k t = ground (arith, find-delete k k t, ==_iff k k)

module _ {ℓ κ} {V : Type ℓ} {P : Type κ} (count : P → Option V → V) where
  -- The entry of key k after packets that find the entry `o`.
  unfoldable pub counted : ℕ → List (ℕ × P) → Option V → Option V
  counted k [] o = o
  counted k ((j, p) ∷ ps) o = counted k ps (if j == k then some (count p o) else o)

  -- The same for groups of packets.
  unfoldable pub counted_all : ℕ → List (List (ℕ × P)) → Option V → Option V
  unfolding counted
  counted_all k [] o = o
  counted_all k (ps ∷ pss) o = counted_all k pss (counted k ps o)

  same_entry :
      (k j : ℕ) (p : P) (t : List (ℕ × V))
      → (if j == k then some (count p (find j t)) else find k t)
        ≡ (if j == k then some (count p (find k t)) else find k t)
  same_entry k j p t = ground (arith, ==_iff j k)

  find-arrive :
      (k : ℕ) (ps : List (ℕ × P)) (t : List (ℕ × V))
      → find k (arrive count ps t) ≡ counted k ps (find k t)
  unfolding arrive counted
  find-arrive k [] t = refl
  find-arrive k ((j, p) ∷ ps) t =
      find-arrive k ps (write j (count p (find j t)) t)
      ∙ ap (counted k ps) (find-write j k (count p (find j t)) t ∙ same_entry k j p t)

  find-delete_all :
      (k : ℕ) (keys : List ℕ) (arrivals : List (List (ℕ × P))) (t : List (ℕ × V))
      → All (λ j. j ≢ k) keys
      → find k (delete_all count keys arrivals t) ≡ counted_all k arrivals (find k t)
  unfolding delete_all counted_all
  find-delete_all k [] [] t h = refl
  find-delete_all k [] (ps ∷ arrivals) t h =
      find-delete_all k [] arrivals (arrive count ps t) h
      ∙ ap (counted_all k arrivals) (find-arrive k ps t)
  find-delete_all k (j ∷ keys) [] t h =
      find-delete_all k keys [] (delete j t) h.1 ∙ find-delete_other j k t h.0
  find-delete_all k (j ∷ keys) (ps ∷ arrivals) t h =
      find-delete_all k keys arrivals (delete j (arrive count ps t)) h.1
      ∙ ap (counted_all k arrivals)
          (find-delete_other j k (arrive count ps t) h.0 ∙ find-arrive k ps t)

  find-delete_all_seen :
      (k : ℕ) (before after : List ℕ) (lost rest : List (List (ℕ × P))) (t : List (ℕ × V))
      → All (λ j. j ≢ k) after
      → length lost ≡ suc (length before)
      → find k (delete_all count (before ++ k ∷ after) (lost ++ rest) t) ≡ counted_all k rest none
  unfolding delete_all
  find-delete_all_seen k [] after [] rest t h e = absurd (omega (arith, e))
  find-delete_all_seen k [] after (ps ∷ []) rest t h e =
      find-delete_all k after rest (delete k (arrive count ps t)) h
      ∙ ap (counted_all k rest) (find-delete_self k (arrive count ps t))
  find-delete_all_seen k [] after (ps ∷ qs ∷ lost) rest t h e = absurd (omega (arith, e))
  find-delete_all_seen k (j ∷ before) after [] rest t h e = absurd (omega (arith, e))
  find-delete_all_seen k (j ∷ before) after (ps ∷ lost) rest t h e =
      find-delete_all_seen k before after lost rest (delete j (arrive count ps t)) h
        (omega (arith, e))

  -- `ReadAndReset` loses packets: let an iteration end without an error, and let its last sight of
  -- the key k be the one between `before` and `after`. After the reset the entry of k holds the
  -- packets that arrive after the delete of k, and no others: those between its read and its delete
  -- (in `lost`, one group for each delete up to that of k) are in no result.
  pub read_and_reset_loses :
      (k : ℕ) (scan : Scan V) (before after : List ℕ) (lost rest : List (List (ℕ × P)))
      (t : List (ℕ × V))
      → scan.failed ≡ false
      → map key_of scan.entries ≡ before ++ k ∷ after
      → All (λ j. j ≢ k) after
      → length lost ≡ suc (length before)
      → ((read_and_reset count true scan (lost ++ rest) t).0 ≡ some (collect scan.entries []))
        × (find k (read_and_reset count true scan (lost ++ rest) t).1 ≡ counted_all k rest none)
  unfolding read_and_reset
  read_and_reset_loses k scan before after lost rest t f e h n = rw f (
      (
        refl,
        ap (λ keys. find k (delete_all count keys (lost ++ rest) t)) e
            ∙ find-delete_all_seen k before after lost rest t h n,
      ))

module _ {ℓ} {V : Type ℓ} where
  abbrev pub DistinctKeys : List (ℕ × V) → Type 0
  DistinctKeys [] = Unit
  DistinctKeys (e ∷ t) = All (λ d. d.0 ≢ e.0) t × DistinctKeys t

  abbrev first_of : Option V → Option V → Option V
  first_of none o = o
  first_of (some v) o = some v

  find-fresh : (k : ℕ) (t : List (ℕ × V)) → All (λ d. d.0 ≢ k) t → find k t ≡ none
  unfolding find
  find-fresh k [] h = refl
  find-fresh k ((j, v) ∷ t) h = ground (arith, find-fresh k t h.1, ==_iff j k)

  find-collect :
      (k : ℕ) (seen metrics : List (ℕ × V))
      → DistinctKeys seen
      → find k (collect seen metrics) ≡ first_of (find k seen) (find k metrics)
  unfolding collect find
  find-collect k [] metrics d = refl
  find-collect k ((j, v) ∷ seen) metrics d =
      find-collect k seen (write j v metrics) d.1
      ∙ ground (
        arith,
        find-write j k v metrics,
        λ (e : j ≡ k). subst (λ i. find i seen ≡ none) e (find-fresh j seen d.0),
        ==_iff j k,
      )

module _ {ℓ κ} {V : Type ℓ} {P : Type κ} (count : P → Option V → V) where
  all_gone :
      (k : ℕ) (seen t : List (ℕ × V))
      → (find k t ≡ none) ⊎ (find k t ≡ find k seen)
      → find k (delete_all count (map key_of seen) [] t) ≡ none
  unfolding delete_all find
  all_gone k [] t h = ground (arith, h)
  all_gone k ((j, v) ∷ seen) t h =
      all_gone k seen (delete j t) (ground (arith, find-delete j k t, h))

  -- Without packets during the call, `ReadAndReset` of a map whose entries it reads returns a map
  -- with the same entries and leaves an empty one.
  pub read_and_reset_quiet :
      (k : ℕ) (scan : Scan V)
      → scan.failed ≡ false
      → DistinctKeys scan.entries
      → (metrics : List (ℕ × V)) × ((read_and_reset count true scan [] scan.entries).0
          ≡ some metrics)
        × (find k metrics ≡ find k scan.entries)
        × (find k (read_and_reset count true scan [] scan.entries).1 ≡ none)
  unfolding read_and_reset
  read_and_reset_quiet k scan f d = rw f (
      (
        collect scan.entries [],
        refl,
        ground (arith, find-collect k scan.entries [] d),
        all_gone k scan.entries scan.entries (inr refl),
      ))
