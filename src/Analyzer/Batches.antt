-- ===== src/Analyzer/Batches.antt =====
-- The numbers and the recipients of the batches of `FlowAnalyzer` (internal/analyzer/analyzer.go).
use an_lf.Base.{
  sym, subst, ap, ◌∙◌, Bool, Option, true, false, arith, length, refl, ℕ, zero, suc, ◌+◌, ◌≡◌, refl,
  ap, ◌∙◌, Bool, true, false, Option, none, some, List, [], ◌∷◌, ◌++◌, map, length, arith,
  if◌then◌else◌, Bool-cases, inl, inr,
}
use an_lf.Float.{Float64}
use an_lf.Models.{UeTrafficRecord, GlobalNetworkStats, BatchUeTrafficRecords}
use an_lf.Message.{as_batch_traffic_records, new_batch_traffic_records_message}
use an_lf.Analyzer.{
  FlowAnalyzer, Sent, exported, enqueued, global_stats, fill, process_batch, process_batches,
}

abbrev consed :
    {F : Type 0}
    → Option (BatchUeTrafficRecords F)
    → List (BatchUeTrafficRecords F)
    → List (BatchUeTrafficRecords F)
consed none bs = bs
consed (some b) bs = b ∷ bs

-- The batches that went to the export queue, and to the detector.
unfoldable pub exported_batches : {F : Type 0} → List (Sent F) → List (BatchUeTrafficRecords F)
exported_batches [] = []
exported_batches (exported m ∷ rest) = consed (as_batch_traffic_records m) (exported_batches rest)
exported_batches (enqueued b ∷ rest) = exported_batches rest

pub enqueued_batches : {F : Type 0} → List (Sent F) → List (BatchUeTrafficRecords F)
enqueued_batches [] = []
enqueued_batches (exported m ∷ rest) = enqueued_batches rest
enqueued_batches (enqueued b ∷ rest) = b ∷ enqueued_batches rest

-- n, n + 1, ..., k numbers.
abbrev pub count_up : ℕ → ℕ → List ℕ
count_up n zero = []
count_up n (suc k) = n ∷ count_up (suc n) k

-- Two lists of the same length, related one for one.
pub Pairwise : {A B : Type 0} → (A → B → Type 0) → List A → List B → Type 0
Pairwise R [] [] = Unit
Pairwise R [] (y ∷ ys) = ⊥
Pairwise R (x ∷ xs) [] = ⊥
Pairwise R (x ∷ xs) (y ∷ ys) = R x y × Pairwise R xs ys

module _ {F : Type 0} (fl : Float64 F) where
  -- What is sent for a batch.
  abbrev pub filled : FlowAnalyzer → BatchUeTrafficRecords F → BatchUeTrafficRecords F
  filled a b = record b {
    poll_id = suc a.poll_counter;
    global_stats = global_stats fl b;
    records = map (fill fl (suc a.poll_counter) (global_stats fl b)) b.records;
  }

  -- A record as it is passed on: with the number of its batch, and what the monitor said of its UE.
  pub record IsNumbered (poll : ℕ) (r r' : UeTrafficRecord F) : Type 0 where
    pub number : r'.poll_id ≡ poll
    pub supi : r'.supi ≡ r.supi
    pub ip : r'.ue_ip ≡ r.ue_ip
    pub features : r'.features ≡ r.features
    pub has_sample : r'.has_tls_sample ≡ r.has_tls_sample
    pub sample : r'.tls_hello_hex ≡ r.tls_hello_hex

  fill-IsNumbered :
      (poll : ℕ) (stats : Option (GlobalNetworkStats F)) (r : UeTrafficRecord F)
      → IsNumbered poll r (fill fl poll stats r)
  unfolding fill
  fill-IsNumbered poll none r = record {
    number = refl;
    supi = refl;
    ip = refl;
    features = refl;
    has_sample = refl;
    sample = refl;
  }
  fill-IsNumbered poll (some g) r = record {
    number = refl;
    supi = refl;
    ip = refl;
    features = refl;
    has_sample = refl;
    sample = refl;
  }

  fill-Pairwise :
      (poll : ℕ) (stats : Option (GlobalNetworkStats F)) (rs : List (UeTrafficRecord F))
      → Pairwise (IsNumbered poll) rs (map (fill fl poll stats) rs)
  unfolding Pairwise
  fill-Pairwise poll stats [] = tt
  fill-Pairwise poll stats (r ∷ rs) = (fill-IsNumbered poll stats r, fill-Pairwise poll stats rs)

  -- A batch as it is passed on: the same records in the same order, each with the batch's number.
  pub record IsPassedOn (b b' : BatchUeTrafficRecords F) : Type 0 where
    pub records : Pairwise (IsNumbered b'.poll_id) b.records b'.records
    pub timestamp : b'.timestamp ≡ b.timestamp
    pub size : b'.batch_size ≡ b.batch_size

  filled-IsPassedOn : (a : FlowAnalyzer) (b : BatchUeTrafficRecords F) → IsPassedOn b (filled a b)
  filled-IsPassedOn a b = record {
    records = fill-Pairwise (suc a.poll_counter) (global_stats fl b) b.records;
    timestamp = refl;
    size = refl;
  }

  pub one_batch_exported :
      (a : FlowAnalyzer) (b : BatchUeTrafficRecords F) (rest : List (Sent F))
      → exported_batches ((process_batch fl a b).1 ++ rest) ≡ filled a b ∷ exported_batches rest
  unfolding process_batch exported_batches as_batch_traffic_records
      new_batch_traffic_records_message
  one_batch_exported a b rest = elim (Bool-cases a.detector_enabled) [
    | inl on ↦ rw on refl
    | inr off ↦ rw off refl
  ]

  one_batch_enqueued :
      (a : FlowAnalyzer) (b : BatchUeTrafficRecords F) (rest : List (Sent F))
      → enqueued_batches ((process_batch fl a b).1 ++ rest)
        ≡ (if a.detector_enabled then filled a b ∷ enqueued_batches rest else enqueued_batches rest)
  unfolding process_batch enqueued_batches
  one_batch_enqueued a b rest = elim (Bool-cases a.detector_enabled) [
    | inl on ↦ rw on refl
    | inr off ↦ rw off refl
  ]

  -- What holds of the analyzer and what it sent after some batches.
  pub record IsServed (a : FlowAnalyzer) (bs : List (BatchUeTrafficRecords F)) (a' : FlowAnalyzer)
      (sent : List (Sent F)) : Type 0 where
    pub passed_on : Pairwise IsPassedOn bs (exported_batches sent)
    pub numbers :
        map (λ b. b.poll_id) (exported_batches sent) ≡ count_up (suc a.poll_counter) (length bs)
    pub recipients :
        enqueued_batches sent ≡ (if a.detector_enabled then exported_batches sent else [])
    pub counter : a'.poll_counter ≡ a.poll_counter + length bs
    pub same_detector : a'.detector_enabled ≡ a.detector_enabled

  IsServed-cons :
      (a : FlowAnalyzer) (b : BatchUeTrafficRecords F) (bs : List (BatchUeTrafficRecords F))
      (a' : FlowAnalyzer) (rest : List (Sent F))
      → IsServed (process_batch fl a b).0 bs a' rest
      → IsServed a (b ∷ bs) a' ((process_batch fl a b).1 ++ rest)
  IsServed-cons a b bs a' rest h = record {
    passed_on =
        subst (Pairwise IsPassedOn (b ∷ bs)) (sym (one_batch_exported a b rest))
          (unfold Pairwise in (filled-IsPassedOn a b, h.passed_on));
    numbers =
        ap (map (λ b. b.poll_id)) (one_batch_exported a b rest)
        ∙ ap (◌∷◌ (suc a.poll_counter)) (unfold process_batch in h.numbers);
    recipients =
        both a.detector_enabled _ _ _ _ _ (one_batch_exported a b rest)
          (one_batch_enqueued a b rest) (unfold process_batch in h.recipients);
    counter = unfold process_batch in omega (arith, h.counter);
    same_detector = unfold process_batch in h.same_detector;
  }
    where
      both :
          (on : Bool) (x : BatchUeTrafficRecords F) (ex en exs ens : List (BatchUeTrafficRecords F))
          → ex ≡ x ∷ exs
          → en ≡ (if on then x ∷ ens else ens)
          → ens ≡ (if on then exs else [])
          → en ≡ (if on then ex else [])
      both true x ex en exs ens p q r = q ∙ ap (◌∷◌ x) r ∙ sym p
      both false x ex en exs ens p q r = q ∙ r

  -- The batches are exported one for one and in their order, each with all its records, their UEs,
  -- features and TLS samples, its time and its size; they are numbered without a gap from the
  -- counter on, and each record carries the number of its batch. The counter moves on by their
  -- number, and the detector gets the same batches in the same order if it is enabled, and none
  -- otherwise.
  pub process_batches_lem :
      (a : FlowAnalyzer) (bs : List (BatchUeTrafficRecords F))
      → IsServed a bs (process_batches fl a bs).0 (process_batches fl a bs).1
  unfolding process_batches
  process_batches_lem a [] = record {
    passed_on = unfold exported_batches Pairwise in tt;
    numbers = unfold exported_batches in refl;
    recipients = unfold exported_batches enqueued_batches in ground arith;
    counter = omega arith;
    same_detector = refl;
  }
  process_batches_lem a (b ∷ bs) =
      IsServed-cons a b bs _ _ (process_batches_lem (process_batch fl a b).0 bs)
