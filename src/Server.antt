-- ===== src/Server.antt =====
-- internal/sbi/server.go and routes.go: the server of the ANLF, which registers at the NRF when it
-- starts and takes that back when it stops. HTTP is a parameter.
pub mod Laws
pub mod Stopping
pub mod Routes
use an_lf.Base.{
  ℕ, Bool, true, false, Option, none, some, List, [], ◌∷◌, ◌++◌, Bytes, bytes, bytes_eq, map,
  if◌then◌else◌,
}
use an_lf.NfContext.{AnlfContext, NfService}
use an_lf.Nrf.{
  NnrfService, Attempt, Registration, Deregistration, register_nf_instance,
  send_deregister_nf_instance,
}
use an_lf.Settings.{Config}
use an_lf.Settings.Getters.{
  get_sbi_scheme, get_sbi_binding_addr, get_cert_pem_path, get_cert_key_path,
}

pub data Method : Type 0 where
  get post put delete patch : Method

-- The two handlers of the routes.
pub data ApiFunc : Type 0 where
  handle_get_analytics handle_create_subscription : ApiFunc

-- What a handler answers: the status, and the text under `message`.
unfoldable pub answer : ApiFunc → ℕ × Bytes
answer handle_get_analytics = (200, bytes "ANLF Analytics Info")
answer handle_create_subscription = (201, bytes "Subscription created")

pub record Route : Type 0 where
  pub method : Method
  pub pattern : Bytes
  pub api_func : ApiFunc

-- `getAnalyticsInfoRoutes` and `getEventSubscriptionRoutes`.
abbrev pub analytics_info_routes : List Route
analytics_info_routes =
    record { method = get; pattern = bytes "/analytics"; api_func = handle_get_analytics } ∷ []

abbrev pub event_subscription_routes : List Route
event_subscription_routes =
    record {
      method = post;
      pattern = bytes "/subscriptions";
      api_func = handle_create_subscription;
    }
    ∷ []

-- `applyRoutes`: the routes of a group have its prefix in front of their patterns.
unfoldable pub apply_routes : Bytes → List Route → List Route
apply_routes group routes = map {A = Route} (λ r. record r { pattern = group ++ r.pattern }) routes

-- The routes of one service; any other name gets none.
unfoldable pub service_routes : Bytes → List Route
unfolding apply_routes
service_routes name =
    if bytes_eq name (bytes "nnwdaf-analyticsinfo")
    then apply_routes (bytes "/nnwdaf-analyticsinfo/v1") analytics_info_routes
    else if bytes_eq name (bytes "nnwdaf-eventssubscription")
    then apply_routes (bytes "/nnwdaf-eventssubscription/v1") event_subscription_routes
    else []

-- `ApplyServices`, on the names in the order in which the map is read: the routes that the router
-- gets.
unfoldable pub apply_services : List Bytes → List Route
unfolding service_routes
apply_services [] = []
apply_services (name ∷ names) = service_routes name ++ apply_services names

-- `NewServer`: the routes, and the address and the time for a header in seconds. Whether the
-- library makes the HTTP server is a parameter; `none` is its error.
pub record Server : Type 0 where
  pub routes : List Route
  pub bind_addr : Bytes
  pub read_header_timeout : ℕ

unfoldable pub new_server :
    {F : Type 0} → Bool → (Bytes → Bytes) → List Bytes → Config F → Option Server
unfolding apply_services get_sbi_binding_addr
new_server made env names c =
    if made
    then some (record {
      routes = apply_services names;
      bind_addr = get_sbi_binding_addr env c;
      read_header_timeout = 3;
    })
    else none

-- How `startServer` serves: `none` for a certificate is a panic.
pub data Serving : Type 0 where
  http : Serving
  https : Bytes → Bytes → Serving
  no_support : Bytes → Serving
  panics : Serving

abbrev pub with_certificate : Option Bytes → Option Bytes → Serving
with_certificate (some pem) (some key) = https pem key
with_certificate _ _ = panics

unfoldable pub start_server : {F : Type 0} → Config F → Serving
unfolding get_sbi_scheme get_cert_pem_path get_cert_key_path
start_server c =
    let scheme = get_sbi_scheme c in
    if bytes_eq scheme (bytes "http")
    then http
    else if bytes_eq scheme (bytes "https")
    then with_certificate (get_cert_pem_path c) (get_cert_key_path c)
    else no_support scheme

-- How the HTTP server ends in `Stop`: it shuts down, or it is closed by force, with an error or
-- not.
pub data HttpEnd (E : Type 0) : Type 0 where
  graceful : HttpEnd E
  forced : E → Option E → HttpEnd E

module _ {C : Type 0} (client_of : Bytes → C) where
  -- `Run`: whatever the registration returns as the identifier becomes that of the context; its
  -- error is ignored.
  unfoldable pub run :
      List NfService → (C → ℕ → Attempt) → NnrfService C → NnrfService C × Registration
  unfolding register_nf_instance
  run services world s =
      let (s', r) = register_nf_instance client_of services world s in
      (record s' { context = record s'.context { nf_id = r.nf_id } }, r)

  abbrev pub http_end : {E : Type 0} → Option E → Option E → HttpEnd E
  http_end none closing = graceful
  http_end (some e) closing = forced e closing

  -- `Stop`: the deregistration, and then the HTTP server, by force if it does not shut down.
  unfoldable pub stop :
      {E : Type 0}
      → (Bytes → Bytes → Option E)
      → (C → Bytes → Option E)
      → Option E
      → Option E
      → NnrfService C
      → NnrfService C × Deregistration E × HttpEnd E
  unfolding send_deregister_nf_instance
  stop token answer shutting closing s =
      let (s', d) = send_deregister_nf_instance client_of token answer s in
      (s', d, http_end shutting closing)
