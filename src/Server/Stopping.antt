-- ===== src/Server/Stopping.antt =====
-- What the stop of internal/sbi/server.go tells the NRF after a registration.
use an_lf.Base.{
  ℕ, ℕ_discrete, ltb, ◌≡◌, ◌≤◌, ◌<◌, ◌≢◌, refl, sym, ap, subst, ◌∙◌, ◌⊎◌, inl, inr, true, false,
  Option, none, some, List, [], ◌∷◌, Bytes, lookup, arith, Bool-cases,
}
use an_lf.NfContext.{NfService, build_nf_profile}
use an_lf.Nrf.{
  NnrfService, Attempt, Reply, not_registered, sent, send_deregister_nf_instance,
  get_nf_management_client,
}
use an_lf.Nrf.Uri.{after_last_slash}
use an_lf.Nrf.Laws.{Fails, Ends, client_for, register_loop-Ends, register_nf_instance-client_for}
use an_lf.Server.{run, stop}
use an_lf.Server.Laws.{accepted, run-nrf_uri}

-- The reply of round i registers the server: the rounds before it fail, its own is not cancelled,
-- and the reply has a location.
pub record Registers (rounds : ℕ → Attempt) (i : ℕ) (r : Reply) : Type 0 where
  pub before : (j : ℕ) → j < i → Fails (rounds j)
  pub in_time : i < 3
  pub live : (rounds i).cancelled ≡ false
  pub replied : (rounds i).answer ≡ some r
  pub located : r.location ≢ []

-- A round that does not fail, behind rounds that do, is the only one that can register.
only_round :
    (rounds : ℕ → Attempt) (i k : ℕ) (r : Reply)
    → Registers rounds i r
    → ((j : ℕ) → 0 ≤ j → j < k → Fails (rounds j))
    → (Fails (rounds k) → ⊥)
    → i ≡ k
only_round rounds i k r a fails decides = elim (ℕ_discrete i k) [
  | yes e ↦ e
  | no ne ↦ elim (Bool-cases (ltb i k)) [
    | inl low ↦
        let (go, silent) = fails i (omega arith) (ground arith) in
        absurd (answered (rounds i).answer r a.replied silent)
    | inr high ↦ absurd (decides (a.before k (ground (arith, ne))))
  ]
]
  where
    answered : (o : Option Reply) (r : Reply) → o ≡ some r → o ≡ none → ⊥
    answered o r h g = cc

-- A round in which the context is done, or whose reply has no location, does not register.
not_registering :
    (rounds : ℕ → Attempt) (k : ℕ)
    → ((j : ℕ) → 0 ≤ j → j < k → Fails (rounds j))
    → ((rounds k).cancelled ≡ true)
      ⊎ ((r : Reply) × ((rounds k).answer ≡ some r) × (r.location ≡ []))
    → (i : ℕ) (r : Reply) → Registers rounds i r
    → ⊥
not_registering rounds k fails (inl cancel) i r a =
    let e = only_round rounds i k r a fails (λ f. clash f.0) in
    clash (subst (λ n. (rounds n).cancelled ≡ false) e a.live)
  where
    clash : (rounds k).cancelled ≡ false → ⊥
    clash h = cc
not_registering rounds k fails (inr (q, reply, empty)) i r a =
    let e = only_round rounds i k r a fails (λ f. clash f.1) in
    a.located (same (subst (λ n. (rounds n).answer ≡ some r) e a.replied))
  where
    clash : (rounds k).answer ≡ none → ⊥
    clash h = cc

    same : (rounds k).answer ≡ some r → r.location ≡ []
    same h = cc

module _ {C : Type 0} (client_of : Bytes → C) where
  -- After `Run`: registered by a round, or not registered, and then no round registers.
  run-Registers :
      (services : List NfService) (world : C → ℕ → Attempt) (s : NnrfService C) (x : ℕ)
      (uri : Bytes)
      → s.context.nrf_uri ≡ x ∷ uri
      → s.context.is_registered ≡ false
      → let s' = (run client_of services world s).0 in
        let k = client_for client_of s (x ∷ uri) in
        (lookup (x ∷ uri) s'.nf_mngmnt_clients ≡ some k)
        × (((i : ℕ) × (r : Reply) × Registers (world k) i r
              × (s'.context.is_registered ≡ true)
              × (s'.context.nf_id ≡ after_last_slash r.location))
            ⊎ (((i : ℕ) (r : Reply) → Registers (world k) i r → ⊥)
                × (s'.context.is_registered ≡ false)))
  unfolding run build_nf_profile
  run-Registers services world s x uri e u =
      let built = build_nf_profile services s.context in
      let k = client_for client_of s (x ∷ uri) in
      let (loop, kept) = register_nf_instance-client_for client_of services world s x uri e in
      let ends =
        subst (Ends 0 3 (world k) built) (sym loop)
          (register_loop-Ends 0 3 3 (world k) built refl) in
      (
        kept,
        elim ends [
          | inl (i, low, high, fails, inl (cancel, same)) ↦
              inr (
                not_registering (world k) i fails (inl cancel),
                ap (λ p. p.0.is_registered) same ∙ u,
              )
          | inl (i, low, high, fails, inr (r, go, reply, same)) ↦ elim (accepted r built _ u same) [
            | inl (full, on, id) ↦ inl (
              i,
              r,
              record {
                before = λ j l. fails j (omega arith) l;
                in_time = high;
                live = go;
                replied = reply;
                located = full;
              },
              on,
              id,
            )
            | inr (empty, off, none_left) ↦
                inr (not_registering (world k) i fails (inr (r, reply, empty)), off)
          ]
          | inr (fails, same) ↦ inr (
            λ i r a. silent (world k i).answer r a.replied (fails i (omega arith) a.in_time).1,
            ap (λ p. p.0.is_registered) same ∙ u,
          )
        ],
      )
    where
      silent : (o : Option Reply) (r : Reply) → o ≡ some r → o ≡ none → ⊥
      silent o r h g = cc

  stop_registered :
      {E : Type 0} (token : Bytes → Bytes → Option E) (answer : C → Bytes → Option E)
      (shutting closing : Option E) (s : NnrfService C) (x : ℕ) (uri : Bytes) (k : C)
      → s.context.is_registered ≡ true
      → s.context.nrf_uri ≡ x ∷ uri
      → lookup (x ∷ uri) s.nf_mngmnt_clients ≡ some k
      → token s.context.nf_id s.context.nrf_uri ≡ none
      → (stop client_of token answer shutting closing s).1
        ≡ sent s.context.nf_id (answer k s.context.nf_id)
  unfolding stop send_deregister_nf_instance get_nf_management_client
  stop_registered token answer shutting closing s x uri k on e h t = ground (arith, e, h, on, t)

  stop_unregistered :
      {E : Type 0} (token : Bytes → Bytes → Option E) (answer : C → Bytes → Option E)
      (shutting closing : Option E) (s : NnrfService C)
      → s.context.is_registered ≡ false
      → (stop client_of token answer shutting closing s).1 ≡ not_registered
  unfolding stop send_deregister_nf_instance
  stop_unregistered token answer shutting closing s off = ground (arith, off)

  -- A server that was not registered, with a URI of the NRF and where no token is refused, runs and
  -- stops. If a round of the registration registers it (the first of at most three in which the NRF
  -- replies, not cancelled, and with a location), then the stop sends the deregistration of the
  -- identifier behind the last slash of that location, to the same client. If no round does, the
  -- stop sends nothing.
  pub run-stop :
      {E : Type 0} (services : List NfService) (world : C → ℕ → Attempt) (s : NnrfService C) (x : ℕ)
      (uri : Bytes) (token : Bytes → Bytes → Option E) (answer : C → Bytes → Option E)
      (shutting closing : Option E)
      → s.context.nrf_uri ≡ x ∷ uri
      → s.context.is_registered ≡ false
      → ((i j : Bytes) → token i j ≡ none)
      → let sends =
          (stop client_of token answer shutting closing (run client_of services world s).0).1 in
        let k = client_for client_of s (x ∷ uri) in
        ((i : ℕ) × (r : Reply) × Registers (world k) i r
          × (sends ≡ sent (after_last_slash r.location) (answer k (after_last_slash r.location))))
        ⊎ (((i : ℕ) (r : Reply) → Registers (world k) i r → ⊥) × (sends ≡ not_registered))
  run-stop services world s x uri token answer shutting closing e u t =
      let s' = (run client_of services world s).0 in
      let k = client_for client_of s (x ∷ uri) in
      let (kept, registered) = run-Registers services world s x uri e u in
      elim registered [
        | inl (i, r, a, on, id) ↦
            let sends =
              stop_registered token answer shutting closing s' x uri k on
                (run-nrf_uri client_of services world s x uri e) kept
                (t s'.context.nf_id s'.context.nrf_uri) in
            inl (i, r, a, sends ∙ ap (λ n. sent n (answer k n)) id)
        | inr (never, off) ↦ inr (never, stop_unregistered token answer shutting closing s' off)
      ]
