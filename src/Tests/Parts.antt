-- ===== src/Tests/Parts.antt =====
-- Runs of the monitor, the UE table, the analyzer and the lifecycle manager.
use mathlib.Core.List.Perm
use an_lf.Base.{
  ◌≡◌, ◌≤◌, ◌<◌, ◌^◌, ◌++◌, refl, true, false, some, none, List, [], ◌∷◌, Bytes, bytes, bytes_eq,
  ◌&&◌, Dict, if◌then◌else◌, arith, ltb, length,
}
use an_lf.Base.Int.{ℤ, pos}
use an_lf.Base.Decimal.{format_ip}
use an_lf.Float.Fixed.{fixed}
use an_lf.Sort.{exchange_sort}
use an_lf.Sort.Laws.{exchange_sort-perm, exchange_sort-sorted}
use an_lf.Sort.Keys.{by_key-IsWeakOrder}
use an_lf.Analyzer.{FlowAnalyzer, global_stats, process_batches}
use an_lf.Analyzer.Averages.{active, active_averages, global_stats-active_averages}
use an_lf.Analyzer.Batches.{IsServed, process_batches_lem}
use an_lf.Lifecycle.{start_all}
use an_lf.Lifecycle.Laws.{started, stopped, manager, stops, start_all_fails}
use an_lf.UeTable.{
  PduSessionInfo, new_smf_client, replied, is_given, fetch_ue_data, get_supi, supi_before,
  get_all_ue_ips,
}
use an_lf.UeTable.Laws.{IsSort, fetch_ue_data_last, get_all_ue_ips-order}
use an_lf.Features.{ones_count, count_bits}
use an_lf.Features.Bits.{count_bits-ones_count}
use an_lf.Rows.{ip_string}
use an_lf.Address.{
  Ipv4, parse_ip, parse_as, parse_ipv4, parse_ipv6, groups_loop, hex_group, hex_value, zeros,
  fill_groups, fields_from, octet, digits_value,
}
use an_lf.Monitor.{
  TrafficMonitor, Poll, parse_and_cache, ip_to_uint32, cache_add, hex, event_payload,
}
use an_lf.Monitor.Addresses.{ip_to_uint32-ip_string}
use an_lf.Tests.Exports.{batch}

abbrev analyzer : FlowAnalyzer
analyzer = record { poll_counter = 6; detector_enabled = true }

global_stats-active_averages_example : global_stats fixed batch ≡ (
    if ltb 0 batch.batch_size && ltb 0 (length (active fixed batch.records))
    then some (active_averages fixed batch.records)
    else batch.global_stats)
global_stats-active_averages_example = global_stats-active_averages fixed batch

process_batches_lem_example :
    IsServed fixed analyzer
      (batch ∷ batch ∷ [])
      (process_batches fixed analyzer (batch ∷ batch ∷ [])).0
      (process_batches fixed analyzer (batch ∷ batch ∷ [])).1
process_batches_lem_example = process_batches_lem fixed analyzer (batch ∷ batch ∷ [])

start_all_fails_example :
    start_all (manager ((false, 1) ∷ (true, 2) ∷ (false, 3) ∷ [])) []
    ≡ ((started 1 ∷ started 2 ∷ []) ++ stops ((false, 1) ∷ (true, 2) ∷ (false, 3) ∷ []), some 2)
start_all_fails_example = start_all_fails ((false, 1) ∷ []) ((false, 3) ∷ []) 2 (refl, tt)

-- The third component is stopped although it was never started.
stopped_unstarted :
    stops ((false, 1) ∷ (true, 2) ∷ (false, 3) ∷ []) ≡ stopped 3 ∷ stopped 2 ∷ stopped 1 ∷ []
unfolding stops
stopped_unstarted = refl

abbrev session : PduSessionInfo
session = record {
  supi = bytes "imsi-1";
  pdu_session_id = bytes "1";
  pdu_address = bytes "10.60.0.1";
}

fetch_ue_data_last_example :
    let table = λ (l : List PduSessionInfo).
      (fetch_ue_data new_smf_client (replied 200 (some l))).0.ue_table in
    (get_supi (table []) (bytes "10.60.0.1") ≡ bytes "unknown")
    × (get_supi (table (session ∷ [])) (bytes "10.60.0.1") ≡ (
        if (is_given session.pdu_address && is_given session.supi)
          && bytes_eq session.pdu_address (bytes "10.60.0.1")
        then session.supi
        else get_supi (table []) (bytes "10.60.0.1")))
fetch_ue_data_last_example = fetch_ue_data_last new_smf_client [] session (bytes "10.60.0.1")

abbrev ues : Dict Bytes
ues = (bytes "10.60.0.2", bytes "imsi-2") ∷ (bytes "10.60.0.1", bytes "imsi-1") ∷ []

abbrev ues_swapped : Dict Bytes
ues_swapped = (bytes "10.60.0.1", bytes "imsi-1") ∷ (bytes "10.60.0.2", bytes "imsi-2") ∷ []

exchange_sort-IsSort : IsSort (exchange_sort supi_before)
exchange_sort-IsSort = record {
  perm = exchange_sort-perm supi_before;
  sorted = exchange_sort-sorted (by_key-IsWeakOrder (λ (e : Bytes × Bytes). e.1));
}

get_all_ue_ips-order_example :
    get_all_ue_ips (exchange_sort supi_before) ues
    ≡ get_all_ue_ips (exchange_sort supi_before) ues_swapped
get_all_ue_ips-order_example =
    get_all_ue_ips-order (exchange_sort supi_before) (exchange_sort supi_before) ues ues_swapped
      exchange_sort-IsSort exchange_sort-IsSort (unfold bytes_eq in ((refl, tt), (tt, tt)))
      (Perm.swap _ _ _)

count_bits-ones_count_example : (count_bits 11 ≡ some (ones_count 64 11)) × (ones_count 64 11 ≤ 64)
count_bits-ones_count_example = count_bits-ones_count 11 (omega arith)

abbrev address : Ipv4
address = record { first = 10; second = 60; third = 0; fourth = 1 }

address_read : parse_ip (bytes "10.60.0.1") ≡ some address
unfolding parse_ip parse_as parse_ipv4 fields_from octet digits_value
address_read = refl

-- The same address in two IPv6 forms, and texts that are no IPv4 address.
mapped_read : parse_ip (bytes "::ffff:10.60.0.1") ≡ some address
unfolding parse_ip parse_as parse_ipv4 parse_ipv6 groups_loop hex_group hex_value zeros fill_groups
    fields_from octet digits_value
mapped_read = refl

hex_read : parse_ip (bytes "0:0:0:0:0:FFFF:a3c:1") ≡ some address
unfolding parse_ip parse_as parse_ipv6 groups_loop hex_group hex_value zeros fill_groups
hex_read = refl

ipv6_refused : parse_ip (bytes "fe80::1") ≡ none
unfolding parse_ip parse_as parse_ipv6 groups_loop hex_group hex_value zeros fill_groups
ipv6_refused = refl

two_ellipses_refused : parse_ip (bytes "::1::2") ≡ none
unfolding parse_ip parse_as parse_ipv6 groups_loop hex_group hex_value zeros fill_groups
two_ellipses_refused = refl

ip_to_uint32-ip_string_example :
    (ip_to_uint32 (bytes "10.60.0.1") < 2 ^ 32)
    × (ip_string (ip_to_uint32 (bytes "10.60.0.1")) ≡ format_ip 10 60 0 1)
ip_to_uint32-ip_string_example = ip_to_uint32-ip_string (bytes "10.60.0.1") address address_read

-- An event of 10.60.0.1 that says that it has 300 bytes of payload.
abbrev sample : Bytes
sample =
    8 ∷ 8 ∷ 8 ∷ 8 ∷ 0 ∷ 1 ∷ 187 ∷ 1 ∷ 44 ∷ 1 ∷ 0 ∷ 0 ∷ 22 ∷ 3 ∷ 1 ∷ 2 ∷ 0 ∷ 1 ∷ 0 ∷ 1 ∷ 252 ∷ 3 ∷ []

abbrev cached : Dict Bytes
cached = cache_add [] (ip_string 16792586) (hex (event_payload (10 ∷ 60 ∷ 0 ∷ 1 ∷ sample)))

sample_parses : parse_and_cache [] (10 ∷ 60 ∷ 0 ∷ 1 ∷ sample) ≡ some cached
unfolding parse_and_cache
sample_parses = refl

abbrev monitor : TrafficMonitor ℤ (Unit {0})
monitor = record {
  tls_cache = [];
  feature_chan = batch ∷ [];
  feature_capacity = 2;
  top_n_exporter = none;
  top_n_state = tt;
}

abbrev poll : Poll
poll = record {
  metrics = some [];
  top_stats = none;
  ue_ips = bytes "10.60.0.1" ∷ bytes "10.60.0.2" ∷ [];
  supi_of = λ ip. bytes "imsi";
  now = pos 20;
  convert_now = λ ip. pos 20;
}
