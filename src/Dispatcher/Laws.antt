-- ===== src/Dispatcher/Laws.antt =====
-- What the export dispatcher (internal/analyzer/dispatcher/dispatcher.go) promises.
use an_lf.Base.{◌≡◌, refl, ◌⊎◌, ◌↔◌, inl, inr, none, some, arith}
use an_lf.Models.{UeTrafficRecord, BatchUeTrafficRecords, InferenceResult, EnhancedInferenceResult}
use an_lf.Message.{
  MessageType, traffic_record, batch_traffic_records, inference_result, enhanced_inference_result,
  other_type, Payload, record_data, batch_data, result_data, enhanced_data, ExportMessage,
  new_traffic_record_message, new_batch_traffic_records_message, new_inference_result_message,
  new_enhanced_inference_result_message, as_traffic_record, as_batch_traffic_records,
  as_inference_result, as_enhanced_inference_result,
}
use an_lf.Exporter.{Exporter}
use an_lf.Dispatcher.{
  ExportDispatcher, DispatchError, unknown_message_type, not_traffic_record, not_batch,
  not_inference_result, not_enhanced_result, to_traffic, to_inference, handle_traffic_record,
  handle_batch_traffic_records, handle_inference_result, handle_enhanced_inference_result, handle,
  shutdown,
}

module _ {F S T : Type 0} (d : ExportDispatcher F S T) where
  -- A message made by one of the four constructors goes, with its record as payload, to the
  -- exporter for its kind: the two traffic kinds to the traffic exporter, the two result kinds to
  -- the inference exporter.
  pub handle_routes :
      (r : UeTrafficRecord F) (b : BatchUeTrafficRecords F) (i : InferenceResult F)
      (e : EnhancedInferenceResult F)
      → (handle d (new_traffic_record_message r) ≡ to_traffic d (record_data r))
        × (handle d (new_batch_traffic_records_message b) ≡ to_traffic d (batch_data b))
        × (handle d (new_inference_result_message i) ≡ to_inference d (result_data i))
        × (handle d (new_enhanced_inference_result_message e) ≡ to_inference d (enhanced_data e))
  unfolding handle new_traffic_record_message new_batch_traffic_records_message
      new_inference_result_message new_enhanced_inference_result_message as_traffic_record
      as_batch_traffic_records as_inference_result as_enhanced_inference_result
      handle_traffic_record handle_batch_traffic_records handle_inference_result
      handle_enhanced_inference_result
  handle_routes r b i e = (refl, refl, refl, refl)

  Handled : MessageType → Payload F → Type 0
  Handled k p =
      let m : ExportMessage F = record { kind = k; payload = p } in
      (((handle d m).0 ≡ d) × ((e : DispatchError) × ((handle d m).1 ≡ some e)))
      ⊎ (handle d m ≡ to_traffic d p)
      ⊎ (handle d m ≡ to_inference d p)

  handled_record : (p : Payload F) → Handled traffic_record p
  unfolding Handled handle as_traffic_record handle_traffic_record
  handled_record (record_data r) = inr (inl refl)
  handled_record _ = inl (refl, (not_traffic_record, refl))

  handled_batch : (p : Payload F) → Handled batch_traffic_records p
  unfolding Handled handle as_batch_traffic_records handle_batch_traffic_records
  handled_batch (batch_data b) = inr (inl refl)
  handled_batch _ = inl (refl, (not_batch, refl))

  handled_result : (p : Payload F) → Handled inference_result p
  unfolding Handled handle as_inference_result handle_inference_result
  handled_result (result_data r) = inr (inr refl)
  handled_result _ = inl (refl, (not_inference_result, refl))

  handled_enhanced : (p : Payload F) → Handled enhanced_inference_result p
  unfolding Handled handle as_enhanced_inference_result handle_enhanced_inference_result
  handled_enhanced (enhanced_data e) = inr (inr refl)
  handled_enhanced _ = inl (refl, (not_enhanced_result, refl))

  handled : (k : MessageType) (p : Payload F) → Handled k p
  handled traffic_record p = handled_record p
  handled batch_traffic_records p = handled_batch p
  handled inference_result p = handled_result p
  handled enhanced_inference_result p = handled_enhanced p
  handled (other_type name) p =
      unfold Handled handle in inl (refl, (unknown_message_type name, refl))

  -- Every message is rejected with an error that leaves both exporters alone, because its type is
  -- unknown or its payload is of another type, or it is one call of one exporter with its payload.
  pub handle_cases :
      (m : ExportMessage F)
      → (((handle d m).0 ≡ d) × ((e : DispatchError) × ((handle d m).1 ≡ some e)))
        ⊎ (handle d m ≡ to_traffic d m.payload)
        ⊎ (handle d m ≡ to_inference d m.payload)
  unfolding Handled
  handle_cases m = handled m.kind m.payload

  -- With an inference exporter, `Shutdown` shuts down both exporters, the second one also when the
  -- first one fails, and reports an error exactly when one of them does.
  pub shutdown_both :
      (x : Exporter F T)
      → d.inference_exporter ≡ some x
      → ((shutdown d).0.traffic ≡ (d.traffic_exporter.shutdown d.traffic).0)
        × ((shutdown d).0.inference ≡ (x.shutdown d.inference).0)
        × (((shutdown d).1 ≡ none) ↔ (
            ((d.traffic_exporter.shutdown d.traffic).1 ≡ none)
            × ((x.shutdown d.inference).1 ≡ none)))
  unfolding shutdown
  shutdown_both x e = (ground arith, ground arith, (λ h. ground arith, λ h. ground arith))
