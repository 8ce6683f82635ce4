-- ===== src/Server/Laws.antt =====
-- What the registration of internal/sbi/server.go leaves in the context, and what its stop sends.
use an_lf.Base.{
  ℕ, ◌≡◌, ◌<◌, ◌≢◌, refl, ap, ◌∙◌, ◌⊎◌, inl, inr, true, false, some, List, [], ◌∷◌, Bytes,
}
use an_lf.NfContext.{AnlfContext, NfService, build_nf_profile}
use an_lf.Nrf.{NnrfService, Attempt, Reply, Registration, accept, accept_at}
use an_lf.Nrf.Uri.{after_last_slash}
use an_lf.Nrf.Laws.{register_nf_instance-Ends}
use an_lf.Server.{run}

accept_at_cases :
    (s : Bytes) (r : Reply) (c : AnlfContext)
    → c.is_registered ≡ false
    → ((s ≡ []) × ((accept_at s r c).0.is_registered ≡ false) × ((accept_at s r c).1.nf_id ≡ []))
      ⊎ (((accept_at s r c).0.is_registered ≡ true)
          × (s ≢ [])
          × ((accept_at s r c).1.nf_id ≡ after_last_slash s))
accept_at_cases [] r c h = inl (refl, h, refl)
accept_at_cases (x ∷ s) r c h = inr (refl, (λ e. cc), refl)

accept_at-nrf_uri :
    (s : Bytes) (r : Reply) (c : AnlfContext) → (accept_at s r c).0.nrf_uri ≡ c.nrf_uri
accept_at-nrf_uri [] r c = refl
accept_at-nrf_uri (x ∷ s) r c = refl

abbrev pub IsLeft : AnlfContext → Reply → Type 0
IsLeft c r = (r.location ≢ []) × (c.is_registered ≡ true) × (c.nf_id ≡ after_last_slash r.location)

pub accepted :
    (r : Reply) (c : AnlfContext) (result : AnlfContext × Registration)
    → c.is_registered ≡ false
    → result ≡ accept r c
    → let left = record result.0 { nf_id = result.1.nf_id } in
      IsLeft left r ⊎ ((r.location ≡ []) × (left.is_registered ≡ false) × (left.nf_id ≡ []))
unfolding accept
accepted r c result h e = elim (accept_at_cases r.location r c h) [
  | inl (empty, off, none_left) ↦
      inr (empty, ap (λ p. p.0.is_registered) e ∙ off, ap (λ p. p.1.nf_id) e ∙ none_left)
  | inr (on, full, id) ↦ inl (full, ap (λ p. p.0.is_registered) e ∙ on, ap (λ p. p.1.nf_id) e ∙ id)
]

module _ {C : Type 0} (client_of : Bytes → C) where
  -- After `Run` a server that was not registered either is registered, under the last segment of a
  -- location that the NRF sent in one of three rounds, or it is not registered and has no
  -- identifier left: the one that it was given at its start is overwritten by the empty text.
  pub run_cases :
      (services : List NfService) (world : C → ℕ → Attempt) (s : NnrfService C) (x : ℕ)
      (uri : Bytes)
      → s.context.nrf_uri ≡ x ∷ uri
      → s.context.is_registered ≡ false
      → let c = (run client_of services world s).0.context in
        ((k : C) × (i : ℕ) × (r : Reply) × (i < 3)
          × ((world k i).answer ≡ some r)
          × (r.location ≢ [])
          × (c.is_registered ≡ true)
          × (c.nf_id ≡ after_last_slash r.location))
        ⊎ ((c.is_registered ≡ false) × (c.nf_id ≡ []))
  unfolding run build_nf_profile
  run_cases services world s x uri e u =
      let built = build_nf_profile services s.context in
      let (k, ends) = register_nf_instance-Ends client_of services world s x uri e in
      elim ends [
        | inl (i, low, high, fails, inl (cancel, same)) ↦
            inr (ap (λ p. p.0.is_registered) same ∙ u, ap (λ p. p.1.nf_id) same)
        | inl (i, low, high, fails, inr (r, go, reply, same)) ↦ elim (accepted r built _ u same) [
          | inl (full, on, id) ↦ inl (k, i, r, high, reply, full, on, id)
          | inr (empty, off, none_left) ↦ inr (off, none_left)
        ]
        | inr (fails, same) ↦ inr (ap (λ p. p.0.is_registered) same ∙ u, ap (λ p. p.1.nf_id) same)
      ]

  pub run-nrf_uri :
      (services : List NfService) (world : C → ℕ → Attempt) (s : NnrfService C) (x : ℕ)
      (uri : Bytes)
      → s.context.nrf_uri ≡ x ∷ uri
      → (run client_of services world s).0.context.nrf_uri ≡ x ∷ uri
  unfolding run build_nf_profile accept
  run-nrf_uri services world s x uri e =
      let built = build_nf_profile services s.context in
      let (k, ends) = register_nf_instance-Ends client_of services world s x uri e in
      elim ends [
        | inl (i, low, high, fails, inl (cancel, same)) ↦ ap (λ p. p.0.nrf_uri) same ∙ e
        | inl (i, low, high, fails, inr (r, go, reply, same)) ↦
            ap (λ p. p.0.nrf_uri) same ∙ accept_at-nrf_uri r.location r built ∙ e
        | inr (fails, same) ↦ ap (λ p. p.0.nrf_uri) same ∙ e
      ]
