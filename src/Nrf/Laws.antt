-- ===== src/Nrf/Laws.antt =====
-- How a registration at the NRF can end (internal/sbi/consumer/nrf_service.go).
use an_lf.Base.{
  ℕ, ap, subst, sym, ℕ_discrete, zero, suc, ◌+◌, ◌≤◌, ◌<◌, ◌≡◌, refl, ◌⊎◌, inl, inr, true, false,
  List, ◌∷◌, lookup, lookup-insert_self, Bytes, none, some, arith, Bool-cases, Option-cases,
}
use an_lf.NfContext.{AnlfContext, NfService, build_nf_profile}
use an_lf.Nrf.{
  Reply, Attempt, Registration, failed_with, stopped, max_retry, accept, register_loop, NnrfService,
  get_nf_management_client, register_nf_instance,
}

-- A round that goes on to the next one.
abbrev pub Fails : Attempt → Type 0
Fails a = (a.cancelled ≡ false) × (a.answer ≡ none)

-- A round ends the loop with a result: the context is done, or the NRF has replied.
abbrev pub Decides : AnlfContext → ℕ → Attempt → AnlfContext × Registration → Type 0
Decides c k a result =
    ((a.cancelled ≡ true) × (result ≡ (c, failed_with (stopped k))))
    ⊎ ((r : Reply) × (a.cancelled ≡ false) × (a.answer ≡ some r) × (result ≡ accept r c))

one_more :
    (i k : ℕ) (world : ℕ → Attempt)
    → Fails (world i)
    → ((j : ℕ) → suc i ≤ j → j < k → Fails (world j))
    → (j : ℕ) → i ≤ j
    → j < k
    → Fails (world j)
one_more i k world here later j h l = elim (ℕ_discrete i j) [
  | yes e ↦ subst (λ n. Fails (world n)) e here
  | no ne ↦ later j (omega (arith, ne)) l
]

-- The first round from `i` on that does not fail decides, or all rounds before `n` fail.
abbrev pub Ends : ℕ → ℕ → (ℕ → Attempt) → AnlfContext → AnlfContext × Registration → Type 0
Ends i n world c result =
    ((k : ℕ) × (i ≤ k)
      × (k < n)
      × ((j : ℕ) → i ≤ j → j < k → Fails (world j))
      × Decides c k (world k) result)
    ⊎ (((j : ℕ) → i ≤ j → j < n → Fails (world j)) × (result ≡ (c, failed_with (max_retry n))))

Ends-later :
    (i n : ℕ) (world : ℕ → Attempt) (c : AnlfContext) (result : AnlfContext × Registration)
    → Fails (world i)
    → Ends (suc i) n world c result
    → Ends i n world c result
Ends-later i n world c result here (inl (k, low, high, fails, ends)) =
    inl (k, omega (arith, low), high, one_more i k world here fails, ends)
Ends-later i n world c result here (inr (fails, ends)) = inr (one_more i n world here fails, ends)

nothing_before : (i : ℕ) (world : ℕ → Attempt) (j : ℕ) → i ≤ j → j < i → Fails (world j)
nothing_before i world j h l = absurd (omega (arith, h, l))

pub register_loop-Ends :
    (i left n : ℕ) (world : ℕ → Attempt) (c : AnlfContext)
    → i + left ≡ n
    → Ends i n world c (register_loop i left world c)
unfolding register_loop
register_loop-Ends i zero n world c e = inr (
  λ j h l. absurd (omega (arith, e, h, l)),
  ap (λ m. (c, failed_with (max_retry m))) (omega (arith, e)),
)
register_loop-Ends i (suc left) n world c e = elim (Bool-cases (world i).cancelled) [
  | inl cancel ↦ inl (
    i,
    omega arith,
    omega (arith, e),
    nothing_before i world,
    inl (cancel, rw (cancel, register_loop) refl),
  )
  | inr go ↦ elim (Option-cases (world i).answer) [
    | inl fail ↦
        Ends-later i n world c (register_loop i (suc left) world c) (go, fail)
          (rw (go, fail, register_loop)
            (register_loop-Ends (suc i) left n world c (omega (arith, e))))
    | inr (r, reply) ↦ inl (
      i,
      omega arith,
      omega (arith, e),
      nothing_before i world,
      inr (r, go, reply, rw (go, reply, register_loop) refl),
    )
  ]
]

module _ {C : Type 0} (client_of : Bytes → C) where
  -- The client that a service uses for a URI: the one that it has, or a new one.
  pub client_for : NnrfService C → Bytes → C
  client_for s uri = elim (lookup uri s.nf_mngmnt_clients) [ none ↦ client_of uri | some k ↦ k ]

  -- With a URI, a registration is the loop with that client, which the service has afterwards.
  pub register_nf_instance-client_for :
      (services : List NfService) (world : C → ℕ → Attempt) (s : NnrfService C) (x : ℕ)
      (uri : Bytes)
      → s.context.nrf_uri ≡ x ∷ uri
      → let (s', r) = register_nf_instance client_of services world s in
        let k = client_for s (x ∷ uri) in
        ((s'.context, r) ≡ register_loop 0 3 (world k) (build_nf_profile services s.context))
        × (lookup (x ∷ uri) s'.nf_mngmnt_clients ≡ some k)
  unfolding client_for register_nf_instance build_nf_profile get_nf_management_client
  register_nf_instance-client_for services world s x uri e =
      elim (Option-cases (lookup (x ∷ uri) s.nf_mngmnt_clients)) [
        | inl h ↦
            ground
              (arith, e, h, lookup-insert_self (x ∷ uri) (client_of (x ∷ uri)) s.nf_mngmnt_clients)
        | inr (k, h) ↦ ground (arith, e, h)
      ]

  -- With a URI, a registration is the loop with some client on the context with the new profile.
  pub register_nf_instance-loop :
      (services : List NfService) (world : C → ℕ → Attempt) (s : NnrfService C) (x : ℕ)
      (uri : Bytes)
      → s.context.nrf_uri ≡ x ∷ uri
      → let (s', r) = register_nf_instance client_of services world s in
        (k : C) × ((s'.context, r)
          ≡ register_loop 0 3 (world k) (build_nf_profile services s.context))
  unfolding register_nf_instance build_nf_profile get_nf_management_client
  register_nf_instance-loop services world s x uri e =
      elim (Option-cases (lookup (x ∷ uri) s.nf_mngmnt_clients)) [
        | inl h ↦ (client_of (x ∷ uri), ground (arith, e, h))
        | inr (k, h) ↦ (k, ground (arith, e, h))
      ]

  -- With a URI of the NRF, `RegisterNFInstance` makes at most three rounds. The first one in which
  -- the context is done or the NRF replies decides: the error for the end of the context with the
  -- number of the round, or what the reply says. If all three fail, it returns the error for that.
  -- Rounds that fail change nothing.
  pub register_nf_instance-Ends :
      (services : List NfService) (world : C → ℕ → Attempt) (s : NnrfService C) (x : ℕ)
      (uri : Bytes)
      → s.context.nrf_uri ≡ x ∷ uri
      → let (s', r) = register_nf_instance client_of services world s in
        (k : C) × Ends 0 3 (world k) (build_nf_profile services s.context) (s'.context, r)
  register_nf_instance-Ends services world s x uri e =
      let built = build_nf_profile services s.context in
      let (k, same) = register_nf_instance-loop services world s x uri e in
      (
        k,
        subst (Ends 0 3 (world k) built) (sym same) (register_loop-Ends 0 3 3 (world k) built refl),
      )
