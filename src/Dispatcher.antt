-- ===== src/Dispatcher.antt =====
-- internal/analyzer/dispatcher/dispatcher.go: export messages to the exporter for their type.
-- The exporters are a parameter, with a state each; `inference` is `none` where the source has nil.
pub mod Laws
use an_lf.Base.{Option, none, some, List, [], ◌∷◌, Bytes}
use an_lf.Message.{
  MessageType, traffic_record, batch_traffic_records, inference_result, enhanced_inference_result,
  other_type, Payload, record_data, batch_data, result_data, enhanced_data, ExportMessage,
  as_traffic_record, as_batch_traffic_records, as_inference_result, as_enhanced_inference_result,
}
use an_lf.Exporter.{Exporter, ExportError}

pub data DispatchError : Type 0 where
  unknown_message_type : Bytes → DispatchError
  -- The payload does not have the type that the message names.
  not_traffic_record not_batch not_inference_result not_enhanced_result : DispatchError
  traffic_failed inference_failed : ExportError → DispatchError
  shutdown_errors : List ExportError → DispatchError

-- The exporters' states: of the traffic exporter, and of the inference exporter.
pub record ExportDispatcher (F S T : Type 0) : Type 0 where
  pub traffic_exporter : Exporter F S
  pub inference_exporter : Option (Exporter F T)
  pub traffic : S
  pub inference : T

unfoldable pub wrap : {E : Type 0} → (ExportError → E) → Option ExportError → Option E
wrap f none = none
wrap f (some e) = some (f e)

abbrev pub Outcome : Type 0 → Type 0 → Type 0 → Type 0
Outcome F S T = ExportDispatcher F S T × Option DispatchError

collect : Option ExportError → List ExportError → List ExportError
collect none errs = errs
collect (some e) errs = e ∷ errs

shutdown_result : List ExportError → Option DispatchError
shutdown_result [] = none
shutdown_result (e ∷ errs) = some (shutdown_errors (e ∷ errs))

module _ {F S T : Type 0} where
  -- `trafficExporter.Export`, with its error wrapped.
  unfoldable pub to_traffic : ExportDispatcher F S T → Payload F → Outcome F S T
  unfolding wrap
  to_traffic d p =
      let (s, e) = d.traffic_exporter.export p d.traffic in
      (record d { traffic = s }, wrap traffic_failed e)

  -- `inferenceExporter.Export`, unless there is none.
  unfoldable pub to_inference : ExportDispatcher F S T → Payload F → Outcome F S T
  unfolding wrap
  to_inference d p = elim d.inference_exporter [
    | none ↦ (d, none)
    | some x ↦
        let (t, e) = x.export p d.inference in (record d { inference = t }, wrap inference_failed e)
  ]

  unfoldable pub handle_traffic_record : ExportDispatcher F S T → ExportMessage F → Outcome F S T
  handle_traffic_record d m = elim (as_traffic_record m) [
    | none ↦ (d, some not_traffic_record)
    | some r ↦ to_traffic d (record_data r)
  ]

  unfoldable pub handle_batch_traffic_records :
      ExportDispatcher F S T → ExportMessage F → Outcome F S T
  handle_batch_traffic_records d m = elim (as_batch_traffic_records m) [
    | none ↦ (d, some not_batch)
    | some b ↦ to_traffic d (batch_data b)
  ]

  unfoldable pub handle_inference_result : ExportDispatcher F S T → ExportMessage F → Outcome F S T
  handle_inference_result d m = elim (as_inference_result m) [
    | none ↦ (d, some not_inference_result)
    | some r ↦ to_inference d (result_data r)
  ]

  unfoldable pub handle_enhanced_inference_result :
      ExportDispatcher F S T → ExportMessage F → Outcome F S T
  handle_enhanced_inference_result d m = elim (as_enhanced_inference_result m) [
    | none ↦ (d, some not_enhanced_result)
    | some r ↦ to_inference d (enhanced_data r)
  ]

  unfoldable pub by_type : MessageType → ExportDispatcher F S T → ExportMessage F → Outcome F S T
  by_type traffic_record d m = handle_traffic_record d m
  by_type batch_traffic_records d m = handle_batch_traffic_records d m
  by_type inference_result d m = handle_inference_result d m
  by_type enhanced_inference_result d m = handle_enhanced_inference_result d m
  by_type (other_type name) d m = (d, some (unknown_message_type name))

  unfoldable pub handle : ExportDispatcher F S T → ExportMessage F → Outcome F S T
  unfolding by_type
  handle d m = by_type m.kind d m

  -- `Shutdown` shuts both exporters down, whatever the first one returns.
  pub shutdown : ExportDispatcher F S T → Outcome F S T
  unfolding collect shutdown_result
  shutdown d =
      let (s, e) = d.traffic_exporter.shutdown d.traffic in
      elim d.inference_exporter [
        | none ↦ (record d { traffic = s }, shutdown_result (collect e []))
        | some x ↦
            let (t, e') = x.shutdown d.inference in
            (record d { traffic = s; inference = t }, shutdown_result (collect e (collect e' [])))
      ]

  pub set_traffic_exporter : ExportDispatcher F S T → Exporter F S → S → ExportDispatcher F S T
  set_traffic_exporter d x s = record d { traffic_exporter = x; traffic = s }
