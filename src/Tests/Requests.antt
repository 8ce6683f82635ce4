-- ===== src/Tests/Requests.antt =====
-- The requests to a server with one service (internal/sbi/server.go).
use an_lf.Base.{◌≡◌, List, [], ◌∷◌, Bytes, bytes, bytes_eq, refl}
use an_lf.Server.{get, handle_get_analytics, apply_services}
use an_lf.Server.Routes.{handlers_for, for_each, offered, apply_services-offered}

abbrev names : List Bytes
names = bytes "nnwdaf-analyticsinfo" ∷ []

apply_services-offered_example :
    handlers_for get (bytes "/nnwdaf-analyticsinfo/v1/analytics") (apply_services names)
    ≡ offered get (bytes "/nnwdaf-analyticsinfo/v1/analytics") names
apply_services-offered_example =
    apply_services-offered get (bytes "/nnwdaf-analyticsinfo/v1/analytics") names

one_handler :
    offered get (bytes "/nnwdaf-analyticsinfo/v1/analytics") names ≡ handle_get_analytics ∷ []
unfolding offered for_each bytes_eq
one_handler = refl
