-- ===== src/UeTable/Laws.antt =====
-- The UE table of internal/sbi/consumer: what a fetch does to it, and the list of addresses.
use mathlib.Core.List.{Perm, Pairwise, Mem}
use mathlib.Core.List.Perm
use an_lf.Base.{
  ◌≡◌, refl, ap, ◌∙◌, ◌&&◌, some, List, [], ◌∷◌, ◌++◌, map, arith, Bytes, bytes, bytes_eq, Dict,
  lookup, lookup-insert, if◌then◌else◌,
}
use an_lf.Sort.Laws.{Upto}
use an_lf.Sort.Distinct.{Distinct, Distinct-Separates}
use an_lf.Sort.Unique.{Pairwise-unique}
use an_lf.UeTable.{
  PduSessionInfo, SmfClient, SmfReply, FetchError, replied, is_given, add_context, add_contexts,
  fetch_ue_data, get_supi, supi_before, get_all_ue_ips,
}

-- What `sort.Slice` promises: it rearranges the entries, and leaves none behind one that it belongs
-- before.
pub record IsSort (sort : List (Bytes × Bytes) → List (Bytes × Bytes)) : Type 0 where
  pub perm : (xs : List (Bytes × Bytes)) → Perm (sort xs) xs
  pub sorted : (xs : List (Bytes × Bytes)) → Pairwise (Upto supi_before) (sort xs)

add_contexts-append :
    (table : Dict Bytes) (cs : List PduSessionInfo) (c : PduSessionInfo)
    → add_contexts table (cs ++ c ∷ []) ≡ add_context (add_contexts table cs) c
unfolding add_contexts
add_contexts-append table [] c = refl
add_contexts-append table (d ∷ cs) c = add_contexts-append (add_context table d) cs c

get_supi-add_context :
    (table : Dict Bytes) (c : PduSessionInfo) (ip : Bytes)
    → get_supi (add_context table c) ip ≡ (
        if (is_given c.pdu_address && is_given c.supi) && bytes_eq c.pdu_address ip
        then c.supi
        else get_supi table ip)
unfolding get_supi add_context
get_supi-add_context table c ip = ground (arith, lookup-insert c.pdu_address ip c.supi table)

-- After a reply with status 200 the table has what the contexts of this reply say and nothing
-- older: an address has the SUPI of the last context that names both, and without one it is
-- unknown.
pub fetch_ue_data_last :
    (s : SmfClient) (cs : List PduSessionInfo) (c : PduSessionInfo) (ip : Bytes)
    → let table =
        λ (l : List PduSessionInfo). (fetch_ue_data s (replied 200 (some l))).0.ue_table in
      (get_supi (table []) ip ≡ bytes "unknown")
      × (get_supi (table (cs ++ c ∷ [])) ip ≡ (
          if (is_given c.pdu_address && is_given c.supi) && bytes_eq c.pdu_address ip
          then c.supi
          else get_supi (table cs) ip))
unfolding fetch_ue_data
fetch_ue_data_last s cs c ip = (
  unfold add_contexts get_supi lookup in refl,
  ap (λ t. get_supi t ip) (add_contexts-append [] cs c)
      ∙ get_supi-add_context (add_contexts [] cs) c ip,
)

-- A fetch that fails leaves the table and the counter as they are, whatever failed.
pub fetch_ue_data_fails :
    (s : SmfClient) (reply : SmfReply) (e : FetchError)
    → (fetch_ue_data s reply).1 ≡ some e
    → (fetch_ue_data s reply).0 ≡ s
unfolding fetch_ue_data
fetch_ue_data_fails s reply e h = ground arith

entry_set : IsSet (Bytes × Bytes)
entry_set = hlevel

-- `GetAllUeIps` does not depend on the order in which the map is read, nor on the sort, if no two
-- UEs have the same SUPI.
pub get_all_ue_ips-order :
    (sort sort' : List (Bytes × Bytes) → List (Bytes × Bytes)) (table table' : Dict Bytes)
    → IsSort sort
    → IsSort sort'
    → Distinct (map (λ e. e.1) table)
    → Perm table table'
    → get_all_ue_ips sort table ≡ get_all_ue_ips sort' table'
unfolding get_all_ue_ips
get_all_ue_ips-order sort sort' table table' h k d p = ap (map (λ (e : Bytes × Bytes). e.0)) (
    Pairwise-unique entry_set (sort table) (sort' table')
      (λ a b m n.
        Distinct-Separates entry_set (λ (e : Bytes × Bytes). e.1) table d a b (member a m)
          (member b n))
      (h.sorted table) (k.sorted table')
      (Perm.trans (h.perm table) (Perm.trans p (Perm.symm (k.perm table')))))
  where
    member : (a : Bytes × Bytes) → Mem a (sort table) → Mem a table
    member a m = (Perm.mem_iff (h.perm table)).0 m
