-- ===== src/Server/Routes.antt =====
-- Which requests the router of internal/sbi/server.go has a handler for.
use an_lf.Base.{
  ◌≡◌, refl, sym, ap, ◌∙◌, Bool, true, false, ◌&&◌, List, [], ◌∷◌, ◌++◌, Bytes, bytes, bytes_eq,
  bytes_eq_sound, arith, if◌then◌else◌, Bool-cases, inl, inr,
}
use an_lf.Server.{
  Method, get, post, put, delete, patch, ApiFunc, handle_get_analytics, handle_create_subscription,
  Route, apply_routes, service_routes, apply_services,
}

abbrev pub same_method : Method → Method → Bool
same_method get get = true
same_method post post = true
same_method put put = true
same_method delete delete = true
same_method patch patch = true
same_method _ _ = false

-- The handlers that are registered for a method and a path.
unfoldable pub handlers_for : Method → Bytes → List Route → List ApiFunc
handlers_for m path [] = []
handlers_for m path (r ∷ routes) =
    let rest = handlers_for m path routes in
    if same_method r.method m && bytes_eq r.pattern path then r.api_func ∷ rest else rest

-- One entry for each time that a name stands in the list.
unfoldable pub for_each : Bytes → ApiFunc → List Bytes → List ApiFunc
for_each service f [] = []
for_each service f (name ∷ names) =
    let rest = for_each service f names in if bytes_eq name service then f ∷ rest else rest

-- What an ANLF with these services offers.
unfoldable pub offered : Method → Bytes → List Bytes → List ApiFunc
offered get path names =
    if bytes_eq (bytes "/nnwdaf-analyticsinfo/v1/analytics") path
    then for_each (bytes "nnwdaf-analyticsinfo") handle_get_analytics names
    else []
offered post path names =
    if bytes_eq (bytes "/nnwdaf-eventssubscription/v1/subscriptions") path
    then for_each (bytes "nnwdaf-eventssubscription") handle_create_subscription names
    else []
offered _ path names = []

handlers_for-append :
    (m : Method) (path : Bytes) (rs qs : List Route)
    → handlers_for m path (rs ++ qs) ≡ handlers_for m path rs ++ handlers_for m path qs
unfolding handlers_for
handlers_for-append m path [] qs = refl
handlers_for-append m path (r ∷ rs) qs =
    elim (Bool-cases (same_method r.method m && bytes_eq r.pattern path)) [
      | inl h ↦ rw h (ap (◌∷◌ r.api_func) (handlers_for-append m path rs qs))
      | inr h ↦ rw h (handlers_for-append m path rs qs)
    ]

abbrev analytics : Bytes
analytics = bytes "nnwdaf-analyticsinfo"

abbrev subscription : Bytes
subscription = bytes "nnwdaf-eventssubscription"

abbrev analytics_path : Bytes
analytics_path = bytes "/nnwdaf-analyticsinfo/v1/analytics"

abbrev subscription_path : Bytes
subscription_path = bytes "/nnwdaf-eventssubscription/v1/subscriptions"

no_subscription :
    (name : Bytes) → bytes_eq name analytics ≡ true → bytes_eq name subscription ≡ false
no_subscription name h = rw (bytes_eq_sound name analytics h) (unfold bytes_eq in refl)

no_handlers :
    (m : Method) (path name : Bytes)
    → same_method get m ≡ false
    → same_method post m ≡ false
    → handlers_for m path (service_routes name) ≡ []
unfolding handlers_for service_routes apply_routes
no_handlers m path name g p = elim (Bool-cases (bytes_eq name analytics)) [
  | inl a ↦ rw (a, g) refl
  | inr a ↦ elim (Bool-cases (bytes_eq name subscription)) [
    | inl e ↦ rw (a, e, p) refl
    | inr e ↦ rw (a, e) refl
  ]
]

service_routes-offered :
    (m : Method) (path name : Bytes) (names : List Bytes)
    → handlers_for m path (service_routes name) ++ offered m path names
      ≡ offered m path (name ∷ names)
unfolding handlers_for offered service_routes apply_routes for_each
service_routes-offered get path name names = elim (Bool-cases (bytes_eq name analytics)) [
  | inl a ↦ elim (Bool-cases (bytes_eq analytics_path path)) [
    | inl p ↦ rw (a, p) refl
    | inr p ↦ rw (a, p) refl
  ]
  | inr a ↦ elim (Bool-cases (bytes_eq name subscription)) [
    | inl e ↦ rw (a, e) refl
    | inr e ↦ rw (a, e) refl
  ]
]
service_routes-offered post path name names = elim (Bool-cases (bytes_eq name analytics)) [
  | inl a ↦ rw (a, no_subscription name a) refl
  | inr a ↦ elim (Bool-cases (bytes_eq name subscription)) [
    | inl e ↦ elim (Bool-cases (bytes_eq subscription_path path)) [
      | inl p ↦ rw (a, e, p) refl
      | inr p ↦ rw (a, e, p) refl
    ]
    | inr e ↦ rw (a, e) refl
  ]
]
service_routes-offered put path name names = ap (λ l. l ++ []) (no_handlers put path name refl refl)
service_routes-offered delete path name names =
    ap (λ l. l ++ []) (no_handlers delete path name refl refl)
service_routes-offered patch path name names =
    ap (λ l. l ++ []) (no_handlers patch path name refl refl)

nothing_offered : (m : Method) (path : Bytes) → offered m path [] ≡ []
unfolding offered for_each
nothing_offered get path = ground arith
nothing_offered post path = ground arith
nothing_offered put path = refl
nothing_offered delete path = refl
nothing_offered patch path = refl

-- For any names of services, the handlers that the server registers for a method and a path are
-- those that the names offer: `GET` of the analytics for each time that the analytics service is
-- named, `POST` of the subscriptions for the subscription service, and nothing for any other
-- request.
pub apply_services-offered :
    (m : Method) (path : Bytes) (names : List Bytes)
    → handlers_for m path (apply_services names) ≡ offered m path names
unfolding apply_services handlers_for
apply_services-offered m path [] = sym (nothing_offered m path)
apply_services-offered m path (name ∷ names) =
    handlers_for-append m path (service_routes name) (apply_services names)
    ∙ ap (◌++◌ (handlers_for m path (service_routes name))) (apply_services-offered m path names)
    ∙ service_routes-offered m path name names
