-- ===== src/UeTable.antt =====
-- internal/sbi/consumer/smf_client.go and mock_smf.go: the table from the IP address of a UE to its
-- SUPI, as `SMFClient` fetches it and as `MockSMF` reads it from a file. What HTTP and JSON make of
-- a reply is a parameter. Go leaves open in which order a map is read: a reply lists its contexts
-- in the order in which the loop meets them. `sort.Slice` leaves open how equal entries are
-- ordered, so the sort is a parameter too, with what it promises in `IsSort`.
pub mod Laws
pub mod Polling
use an_lf.Base.{
  ℕ, suc, Bool, true, false, ◌&&◌, Option, none, some, List, [], ◌∷◌, map, ◌==◌, Bytes, bytes,
  bytes_lt, Dict, lookup, insert, length, if◌then◌else◌,
}

pub record PduSessionInfo : Type 0 where
  pub supi : Bytes
  pub pdu_session_id : Bytes
  pub pdu_address : Bytes

pub record SmfClient : Type 0 where
  pub ue_table : Dict Bytes
  pub poll_counter : ℕ
  -- Whether the context of the client is done.
  pub cancelled : Bool

-- What became of the request: it cannot be built or sent, its body cannot be read, or there is a
-- status, with the contexts if the body is the JSON of a reply.
pub data SmfReply : Type 0 where
  not_created not_sent not_read : SmfReply
  replied : ℕ → Option (List PduSessionInfo) → SmfReply

pub data FetchError : Type 0 where
  request_failed http_failed read_failed parse_failed : FetchError
  unexpected_status : ℕ → FetchError

unfoldable pub new_smf_client : SmfClient
new_smf_client = record { ue_table = []; poll_counter = 0; cancelled = false }

abbrev pub is_given : Bytes → Bool
is_given [] = false
is_given (c ∷ s) = true

-- A context with an address and a SUPI goes into the table.
unfoldable pub add_context : Dict Bytes → PduSessionInfo → Dict Bytes
add_context table c =
    if is_given c.pdu_address && is_given c.supi then insert c.pdu_address c.supi table else table

unfoldable pub add_contexts : Dict Bytes → List PduSessionInfo → Dict Bytes
add_contexts table [] = table
add_contexts table (c ∷ cs) = add_contexts (add_context table c) cs

abbrev pub take_contexts : SmfClient → Option (List PduSessionInfo) → SmfClient × Option FetchError
take_contexts s none = (s, some parse_failed)
take_contexts s (some cs) =
    (record s { ue_table = add_contexts [] cs; poll_counter = suc s.poll_counter }, none)

-- `fetchUeData`.
unfoldable pub fetch_ue_data : SmfClient → SmfReply → SmfClient × Option FetchError
fetch_ue_data s not_created = (s, some request_failed)
fetch_ue_data s not_sent = (s, some http_failed)
fetch_ue_data s not_read = (s, some read_failed)
fetch_ue_data s (replied code contexts) =
    if code == 404
    then (record s { ue_table = [] }, none)
    else if code == 200
    then take_contexts s contexts
    else (s, some (unexpected_status code))

-- `Start` logs an error of the first fetch only.
unfoldable pub start_smf_client : SmfClient → SmfReply → SmfClient
start_smf_client s reply = (fetch_ue_data s reply).0

unfoldable pub stop_smf_client : SmfClient → SmfClient
stop_smf_client s = record s { cancelled = true }

pub data LoadError : Type 0 where
  file_unreadable table_unparsable : LoadError

-- `LoadUeTable` of `MockSMF`, over the content of the file and what JSON makes of it.
pub load_ue_table :
    Dict Bytes → Option Bytes → (Bytes → Option (Dict Bytes)) → Dict Bytes × Option LoadError
load_ue_table table none parse = (table, some file_unreadable)
load_ue_table table (some text) parse = elim (parse text) [
  | none ↦ (table, some table_unparsable)
  | some new ↦ (new, none)
]

-- `GetSupi`, `GetUeCount` and `GetAllUeIps` of both.
unfoldable pub get_supi : Dict Bytes → Bytes → Bytes
get_supi table ip = elim (lookup ip table) [ none ↦ bytes "unknown" | some supi ↦ supi ]

pub get_ue_count : Dict Bytes → ℕ
get_ue_count table = length table

-- `entries[i].supi < entries[j].supi`.
abbrev pub supi_before : Bytes × Bytes → Bytes × Bytes → Bool
supi_before i j = bytes_lt i.1 j.1

unfoldable pub get_all_ue_ips :
    (List (Bytes × Bytes) → List (Bytes × Bytes)) → Dict Bytes → List Bytes
get_all_ue_ips sort table = map (λ e. e.0) (sort table)
