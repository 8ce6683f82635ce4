-- ===== src/Nrf.antt =====
-- internal/sbi/consumer/nrf_service.go: the registration of the ANLF at the NRF. The NRF, the end
-- of the application's context, and the token service are parameters.
pub mod Uri
pub mod Laws
use an_lf.Base.{
  ℕ, zero, suc, ◌≡◌, Bool, true, false, Option, none, some, List, [], ◌∷◌, Dict, lookup, insert,
  Bytes, bytes, take, if◌then◌else◌, not,
}
use an_lf.Prompt.{index_of}
use an_lf.NfContext.{AnlfContext, NfProfile, NfService, build_nf_profile}
use an_lf.Nrf.Uri.{after_last_slash}

-- A reply of the NRF: `Location`, and `CustomInfo["oauth2"]` if it is there and a Boolean.
pub record Reply : Type 0 where
  pub location : Bytes
  pub oauth2 : Option Bool

-- What one round of the loop meets: whether the context is done, and what the request gives, `none`
-- for an error or no response.
pub record Attempt : Type 0 where
  pub cancelled : Bool
  pub answer : Option Reply

pub data RegisterError : Type 0 where
  no_client : Bytes → RegisterError
  stopped : ℕ → RegisterError
  max_retry : ℕ → RegisterError

-- `resouceNrfUri`, `retrieveNfInstanceID` and the error that `RegisterNFInstance` returns.
pub record Registration : Type 0 where
  pub nrf_uri : Bytes
  pub nf_id : Bytes
  pub error : Option RegisterError

abbrev pub failed_with : RegisterError → Registration
failed_with e = record { nrf_uri = []; nf_id = []; error = some e }

-- `resourceUri[:idx]`, or nothing if there is no such part.
abbrev pub prefix_at : Bytes → Option ℕ → Bytes
prefix_at s none = []
prefix_at s (some i) = take i s

unfoldable pub nrf_of_location : Bytes → Bytes
unfolding index_of
nrf_of_location s = prefix_at s (index_of s (bytes "/nnrf-nfm/"))

abbrev pub is_true : Option Bool → Bool
is_true none = false
is_true (some b) = b

-- A reply ends the loop. One without a location changes nothing.
abbrev pub accept_at : Bytes → Reply → AnlfContext → AnlfContext × Registration
accept_at [] r c = (c, record { nrf_uri = []; nf_id = []; error = none })
accept_at (x ∷ s) r c = (
  record c { oauth2_required = is_true r.oauth2; is_registered = true },
  record { nrf_uri = nrf_of_location (x ∷ s); nf_id = after_last_slash (x ∷ s); error = none },
)

unfoldable pub accept : Reply → AnlfContext → AnlfContext × Registration
unfolding nrf_of_location after_last_slash
accept r c = accept_at r.location r c

-- The loop of `RegisterNFInstance`: round `i`, with so many rounds left.
unfoldable pub register_loop : ℕ → ℕ → (ℕ → Attempt) → AnlfContext → AnlfContext × Registration
unfolding accept
register_loop i zero world c = (c, failed_with (max_retry i))
register_loop i (suc left) world c = elim (world i).cancelled [
  | true ↦ (c, failed_with (stopped i))
  | false ↦ elim (world i).answer [
    | none ↦ register_loop (suc i) left world c
    | some r ↦ accept r c
  ]
]

-- `C` is the type of the clients that the library makes from a URI.
pub record NnrfService (C : Type 0) : Type 0 where
  pub context : AnlfContext
  pub nf_mngmnt_clients : Dict C

-- What became of a deregistration: the code returned an error before it sent a request, it met a
-- client that is nil, or it sent the request for an identifier and got an error or none.
pub data Deregistration (E : Type 0) : Type 0 where
  not_registered : Deregistration E
  no_token : E → Deregistration E
  panics : Deregistration E
  sent : Bytes → Option E → Deregistration E

-- `GetTokenCtx`: a token is asked for only where the NRF wants one.
abbrev pub get_token_ctx : {E : Type 0} → (Bytes → Bytes → Option E) → AnlfContext → Option E
get_token_ctx token c = if c.oauth2_required then token c.nf_id c.nrf_uri else none

module _ {C : Type 0} where
  abbrev cached : (Bytes → C) → Bytes → Option C → NnrfService C → NnrfService C × Option C
  cached client_of uri (some client) s = (s, some client)
  cached client_of uri none s = (
    record s { nf_mngmnt_clients = insert uri (client_of uri) s.nf_mngmnt_clients },
    some (client_of uri),
  )

  unfoldable pub get_nf_management_client :
      (Bytes → C) → Bytes → NnrfService C → NnrfService C × Option C
  get_nf_management_client client_of [] s = (s, none)
  get_nf_management_client client_of (x ∷ uri) s =
      cached client_of (x ∷ uri) (lookup (x ∷ uri) s.nf_mngmnt_clients) s

  -- `RegisterNFInstance`; the rounds use the client.
  unfoldable pub register_nf_instance :
      (Bytes → C)
      → List NfService
      → (C → ℕ → Attempt)
      → NnrfService C
      → NnrfService C × Registration
  unfolding get_nf_management_client register_loop build_nf_profile
  register_nf_instance client_of services world s =
      let built = record s { context = build_nf_profile services s.context } in
      let (s', client) = get_nf_management_client client_of built.context.nrf_uri built in
      elim client [
        | none ↦ (s', failed_with (no_client s'.context.nrf_uri))
        | some k ↦
            let (c, r) = register_loop 0 3 (world k) s'.context in (record s' { context = c }, r)
      ]

  -- `SendDeregisterNFInstance`; `answer` is the NRF's to a request for an identifier.
  unfoldable pub send_deregister_nf_instance :
      {E : Type 0}
      → (Bytes → C)
      → (Bytes → Bytes → Option E)
      → (C → Bytes → Option E)
      → NnrfService C
      → NnrfService C × Deregistration E
  unfolding get_nf_management_client
  send_deregister_nf_instance client_of token answer s = elim s.context.is_registered [
    | false ↦ (s, not_registered)
    | true ↦ elim (get_token_ctx token s.context) [
      | some e ↦ (s, no_token e)
      | none ↦
          let (s', client) = get_nf_management_client client_of s.context.nrf_uri s in
          elim client [
            | none ↦ (s', panics)
            | some k ↦ (s', sent s'.context.nf_id (answer k s'.context.nf_id))
          ]
    ]
  ]
