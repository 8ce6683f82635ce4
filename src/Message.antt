-- ===== src/Message.antt =====
-- internal/analyzer/queue/message.go, export_queue.go and inference_queue.go: the messages of the
-- two queues and the adapters that take the queue's `interface{}` values apart.
use an_lf.Base.{Option, none, some, Bytes}
use an_lf.Models.{UeTrafficRecord, BatchUeTrafficRecords, InferenceResult, EnhancedInferenceResult}
use an_lf.TopStats.{TopStats}

pub data MessageType : Type 0 where
  traffic_record batch_traffic_records inference_result enhanced_inference_result : MessageType
  other_type : Bytes → MessageType

-- A value of type `interface{}`: a pointer to one of the program's records, or something else.
pub data Payload (F : Type 0) : Type 0 where
  record_data : UeTrafficRecord F → Payload F
  batch_data : BatchUeTrafficRecords F → Payload F
  result_data : InferenceResult F → Payload F
  enhanced_data : EnhancedInferenceResult F → Payload F
  top_data : TopStats → Payload F
  other_data : Payload F

pub record ExportMessage (F : Type 0) : Type 0 where
  pub kind : MessageType
  pub payload : Payload F

module _ {F : Type 0} where
  unfoldable pub new_traffic_record_message : UeTrafficRecord F → ExportMessage F
  new_traffic_record_message r = record { kind = traffic_record; payload = record_data r }

  unfoldable pub new_batch_traffic_records_message : BatchUeTrafficRecords F → ExportMessage F
  new_batch_traffic_records_message b = record {
    kind = batch_traffic_records;
    payload = batch_data b;
  }

  unfoldable pub new_inference_result_message : InferenceResult F → ExportMessage F
  new_inference_result_message r = record { kind = inference_result; payload = result_data r }

  unfoldable pub new_enhanced_inference_result_message : EnhancedInferenceResult F → ExportMessage F
  new_enhanced_inference_result_message r = record {
    kind = enhanced_inference_result;
    payload = enhanced_data r;
  }

  unfoldable pub payload_record : Payload F → Option (UeTrafficRecord F)
  payload_record (record_data r) = some r
  payload_record _ = none

  unfoldable pub payload_batch : Payload F → Option (BatchUeTrafficRecords F)
  payload_batch (batch_data b) = some b
  payload_batch _ = none

  unfoldable pub payload_result : Payload F → Option (InferenceResult F)
  payload_result (result_data r) = some r
  payload_result _ = none

  unfoldable pub payload_enhanced : Payload F → Option (EnhancedInferenceResult F)
  payload_enhanced (enhanced_data r) = some r
  payload_enhanced _ = none

  unfoldable pub as_traffic_record : ExportMessage F → Option (UeTrafficRecord F)
  unfolding payload_record
  as_traffic_record m = payload_record m.payload

  unfoldable pub as_batch_traffic_records : ExportMessage F → Option (BatchUeTrafficRecords F)
  unfolding payload_batch
  as_batch_traffic_records m = payload_batch m.payload

  unfoldable pub as_inference_result : ExportMessage F → Option (InferenceResult F)
  unfolding payload_result
  as_inference_result m = payload_result m.payload

  unfoldable pub as_enhanced_inference_result : ExportMessage F → Option (EnhancedInferenceResult F)
  unfolding payload_enhanced
  as_enhanced_inference_result m = payload_enhanced m.payload

-- What the channel of a `BaseQueue` carries: export messages, batches, or other values.
pub data QueueItem (F : Type 0) : Type 0 where
  export_item : ExportMessage F → QueueItem F
  batch_item : BatchUeTrafficRecords F → QueueItem F
  other_item : QueueItem F

-- The handler of an `ExportQueue`: a state with an error, or success. The adapter skips items that
-- are no export messages.
unfoldable pub export_adapter :
    {F S E : Type 0} → (ExportMessage F → S → S × Option E) → QueueItem F → S → S × Option E
export_adapter handle (export_item m) s = handle m s
export_adapter handle (batch_item b) s = (s, none)
export_adapter handle other_item s = (s, none)

unfoldable pub batch_adapter :
    {F S E : Type 0} → (BatchUeTrafficRecords F → S → S × Option E) → QueueItem F → S → S × Option E
batch_adapter handle_batch (batch_item b) s = handle_batch b s
batch_adapter handle_batch (export_item m) s = (s, none)
batch_adapter handle_batch other_item s = (s, none)
