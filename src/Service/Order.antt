-- ===== src/Service/Order.antt =====
-- The order in which pkg/service/init.go registers, starts and stops the parts of the application.
use an_lf.Base.{◌≡◌, ◌||◌, Bool, true, false, Option, none, some, List, [], ◌∷◌, ◌++◌, map, All}
use an_lf.Lifecycle.{Component, LifecycleManager}
use an_lf.Service.{
  Part, ebpf_component, smf_client, export_queue, anomaly_detector, flow_analyzer, traffic_monitor,
  Pipeline,
}

abbrev pub is_part : Part → Part → Bool
is_part ebpf_component ebpf_component = true
is_part smf_client smf_client = true
is_part export_queue export_queue = true
is_part anomaly_detector anomaly_detector = true
is_part flow_analyzer flow_analyzer = true
is_part traffic_monitor traffic_monitor = true
is_part _ _ = false

abbrev pub is_in : Part → List Part → Bool
is_in p [] = false
is_in p (q ∷ ps) = is_part p q || is_in p ps

-- The parts that a part reads from or puts messages into; the analyzer only uses a detector that is
-- enabled.
abbrev pub needs : Bool → Part → List Part
needs detecting traffic_monitor = ebpf_component ∷ smf_client ∷ flow_analyzer ∷ []
needs true flow_analyzer = export_queue ∷ anomaly_detector ∷ []
needs false flow_analyzer = export_queue ∷ []
needs detecting anomaly_detector = export_queue ∷ []
needs detecting _ = []

pub uses : Part → Part → Bool
uses p q = is_in q (needs true p)

-- Each part stands behind all parts that it needs, which are there.
abbrev pub InOrder : Bool → List Part → List Part → Type 0
InOrder detecting before [] = Unit
InOrder detecting before (p ∷ ps) =
    All (λ q. is_in q before ≡ true) (needs detecting p) × InOrder detecting (p ∷ before) ps

-- No part uses one that stands behind it.
abbrev UsesNoLater : List Part → Type 0
UsesNoLater [] = Unit
UsesNoLater (p ∷ ps) = All (λ q. uses p q ≡ false) ps × UsesNoLater ps

abbrev pub is_built : Option Pipeline → Bool
is_built none = false
is_built (some p) = true

-- No part is used by one that stands behind it.
abbrev pub InStopOrder : List Part → Type 0
InStopOrder [] = Unit
InStopOrder (p ∷ ps) = All (λ q. uses q p ≡ false) ps × InStopOrder ps

pub backwards : List Part → List Part
backwards [] = []
backwards (p ∷ ps) = backwards ps ++ p ∷ []

-- What a run of the application does, in its order.
pub data Deed : Type 0 where
  part_started part_stopped : Part → Deed
  server_ran server_stopped dispatcher_shut : Deed

-- A part that starts without an error, and records what is done to it.
abbrev pub recorded : Part → Component (List Deed) (Unit {0})
recorded p = record {
  start = λ s. (s ++ part_started p ∷ [], none);
  stop = λ s. s ++ part_stopped p ∷ [];
}

abbrev pub managed : List Part → LifecycleManager (List Deed) (Unit {0})
managed ps = record { components = map recorded ps; tasks = 0; cancelled = false }

abbrev pub note : Deed → List Deed → List Deed
note d s = s ++ d ∷ []

abbrev pub shuts : Option Pipeline → List Deed
shuts none = []
shuts (some p) = dispatcher_shut ∷ []

abbrev pub shutdown_of : Option Pipeline → Option (List Deed → List Deed)
shutdown_of none = none
shutdown_of (some p) = some (note dispatcher_shut)
