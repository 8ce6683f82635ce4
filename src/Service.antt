-- ===== src/Service.antt =====
-- pkg/service/init.go: how the application is put together from its parts, started and terminated.
-- Whether the constructors that touch files, sockets and the kernel succeed is a parameter.
pub mod Logs
pub mod Order
pub mod Termination
pub mod Waiting
use an_lf.Base.{
  Bool, true, false, ◌&&◌, Option, none, some, List, [], ◌∷◌, ◌++◌, Bytes, if◌then◌else◌,
}
use an_lf.Settings.{Config}
use an_lf.Settings.Getters.{
  get_ebpf_enabled, get_ebpf_interface, get_monitoring_enabled, get_recording_status,
  get_recording_output_dir, get_anomaly_detection_enabled,
}
use an_lf.Lifecycle.{LifecycleManager, start_all, stop_all}

-- The parts that are registered with the lifecycle manager.
pub data Part : Type 0 where
  ebpf_component smf_client export_queue anomaly_detector flow_analyzer traffic_monitor : Part

-- Which constructors succeed. Those that are not here return no error.
pub record Made : Type 0 where
  pub ebpf : Bool
  pub server : Bool
  pub csv_exporter : Bool
  pub inference_exporter : Bool

pub data AppError : Type 0 where
  ebpf_failed server_failed exporter_failed : AppError

-- The exporter of the traffic: to a directory, or a stub.
pub data TrafficExporter : Type 0 where
  csv : Bytes → TrafficExporter
  stub : TrafficExporter

-- `ExportDispatcher`, by what its exporters write to, and whether the detector is enabled.
pub record Pipeline : Type 0 where
  pub traffic : TrafficExporter
  pub inference : Option Bytes
  pub detecting : Bool

pub record AnlfApp : Type 0 where
  pub registered : List Part
  -- The interface of the eBPF component, unless there is none.
  pub ebpf : Option Bytes
  pub server : Bool
  pub pipeline : Option Pipeline

unfoldable pub register_part : AnlfApp → Part → AnlfApp
register_part a p = record a { registered = a.registered ++ p ∷ [] }

abbrev pub traffic_exporter : Made → Bool → Bytes → Option TrafficExporter
traffic_exporter made recording dir =
    if recording then (if made.csv_exporter then some (csv dir) else none) else some stub

abbrev pub inference_exporter : Made → Bool → Bytes → Option Bytes
inference_exporter made detecting dir =
    if detecting && made.inference_exporter then some dir else none

-- The rest of `initMonitoringPipeline` once there is an exporter for the traffic. The detector is
-- registered if it is enabled.
unfoldable pub connect : TrafficExporter → Option Bytes → Bool → AnlfApp → AnlfApp
unfolding register_part
connect traffic inference detecting a =
    let built = record a {
      pipeline = some (record { traffic = traffic; inference = inference; detecting = detecting });
    } in
    let queued = register_part built export_queue in
    let detector = if detecting then register_part queued anomaly_detector else queued in
    register_part (register_part detector flow_analyzer) traffic_monitor

abbrev pub empty_app : AnlfApp
empty_app = record { registered = []; ebpf = none; server = false; pipeline = none }

module _ {F : Type 0} where
  -- `initMonitoringPipeline`.
  unfoldable pub init_monitoring_pipeline : Made → Config F → AnlfApp → AnlfApp × Option AppError
  unfolding connect register_part get_recording_status get_recording_output_dir
      get_anomaly_detection_enabled
  init_monitoring_pipeline made c a =
      let fetching = register_part a smf_client in
      let dir = get_recording_output_dir c in
      let detecting = get_anomaly_detection_enabled c in
      elim (traffic_exporter made (get_recording_status c) dir) [
        | none ↦ (fetching, some exporter_failed)
        | some traffic ↦
            (connect traffic (inference_exporter made detecting dir) detecting fetching, none)
      ]

  -- The server, and the pipeline if monitoring is enabled and there is an eBPF component.
  unfoldable pub with_server : Made → Config F → AnlfApp → AnlfApp × Option AppError
  unfolding init_monitoring_pipeline get_monitoring_enabled
  with_server made c a =
      let served = record a { server = true } in
      let piped = init_monitoring_pipeline made c served in
      if made.server
      then (elim a.ebpf [
        | none ↦ (served, none)
        | some iface ↦ if get_monitoring_enabled c then piped else (served, none)
      ])
      else (a, some server_failed)

  -- `NewApp`.
  unfoldable pub new_app : Made → Config F → AnlfApp × Option AppError
  unfolding with_server get_ebpf_enabled get_ebpf_interface register_part
  new_app made c =
      let started =
        register_part (record empty_app { ebpf = some (get_ebpf_interface c) }) ebpf_component in
      if get_ebpf_enabled c
      then (if made.ebpf then with_server made c started else (empty_app, some ebpf_failed))
      else with_server made c empty_app

-- What `Start` comes to: a fatal error when the components start, or the application runs.
pub data Startup (E : Type 0) : Type 0 where
  fatal : E → Startup E
  running : Startup E

module _ {S E : Type 0} where
  -- `Start` up to the wait: the components, and then the server, which returns no error.
  unfoldable pub start_app : LifecycleManager S E → (S → S) → S → S × Startup E
  unfolding start_all
  start_app lm run_server s =
      let (s', failed) = start_all lm s in
      elim failed [ some e ↦ (s', fatal e) | none ↦ (run_server s', running) ]

  -- The goroutine of `terminateProcedure`, if no timeout cuts it short: the server, the components
  -- and the dispatcher, if there is one.
  unfoldable pub terminate_procedure : LifecycleManager S E → (S → S) → Option (S → S) → S → S
  unfolding stop_all
  terminate_procedure lm stop_server shutdown_dispatcher s =
      let stopped = stop_all lm (stop_server s) in
      elim shutdown_dispatcher [ none ↦ stopped | some shut ↦ shut stopped ]
