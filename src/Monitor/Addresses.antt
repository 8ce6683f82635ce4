-- ===== src/Monitor/Addresses.antt =====
-- IP addresses of UEs as text and as 32-bit keys (internal/monitor, `IPFromNetByteOrder` of
-- pkg/ebpf/manager.go).
use an_lf.Base.{
  lookup, insert, lookup-insert, drop, ltb, subst, zero, suc, ◌*◌, length, take, Dict,
  if◌then◌else◌, bytes_eq, ◌≤◌, ℕ, zero, suc, ◌*◌, ◌/◌, ◌%◌, ◌^◌, ◌<◌, ◌≤◌, ◌≡◌, refl, sym, ap, ◌∙◌,
  Option, none, some, List, [], ◌∷◌, Bytes, Dict, lookup-insert, bytes_eq, ltb, if◌then◌else◌,
  arith, length, take,
}
use an_lf.Base.Decimal.{format_ip}
use an_lf.Rows.{ip_string}
use an_lf.Monitor.{
  event_payload, uint32_at, cache_add, little_endian, hex, cache_get, parse_and_cache, cache_add,
  cache_get, hex, little_endian, parse_and_cache, ip_to_uint32,
}
use an_lf.Address.{
  Ipv4, octet, four_octets, digits_value, fields_from, of_fields, small, parse_ipv4, parse_ipv6,
  mapped_ipv4, to4, parse_as, parse_ip,
}

-- The four bytes of a key come back in the order in which the address is written.
ip_string-little_endian :
    (a b c d : ℕ)
    → a < 256
    → b < 256
    → c < 256
    → d < 256
    → ip_string (little_endian a b c d) ≡ format_ip a b c d
unfolding ip_string
ip_string-little_endian a b c d ha hb hc hd = λ i. format_ip (e0 i) (e1 i) (e2 i) (e3 i)
  where
    e0 : little_endian a b c d % 256 ≡ a
    e0 = omega arith

    e1 : little_endian a b c d / 2 ^ 8 % 256 ≡ b
    e1 = omega arith

    e2 : little_endian a b c d / 2 ^ 16 % 256 ≡ c
    e2 = omega arith

    e3 : little_endian a b c d / 2 ^ 24 % 256 ≡ d
    e3 = omega arith

small_lt : (o : Option ℕ) (n : ℕ) → small o ≡ some n → n < 256
small_lt none n h = absurd (cc h)
small_lt (some m) n h = ground arith

octet_lt : (s : Bytes) (n : ℕ) → octet s ≡ some n → n < 256
unfolding octet
octet_lt [] n h = absurd (cc h)
octet_lt (c ∷ []) n h = small_lt (digits_value 0 (c ∷ [])) n h
octet_lt (c ∷ d ∷ s) n h = ground (arith, small_lt (digits_value 0 (c ∷ d ∷ s)) n)

pub record IsIpv4 (ip : Ipv4) : Type 0 where
  pub first_lt : ip.first < 256
  pub second_lt : ip.second < 256
  pub third_lt : ip.third < 256
  pub fourth_lt : ip.fourth < 256

four_octets_lt :
    (a b c d : Option ℕ) (ip : Ipv4)
    → ((n : ℕ) → a ≡ some n → n < 256)
    → ((n : ℕ) → b ≡ some n → n < 256)
    → ((n : ℕ) → c ≡ some n → n < 256)
    → ((n : ℕ) → d ≡ some n → n < 256)
    → four_octets a b c d ≡ some ip
    → IsIpv4 ip
four_octets_lt none b c d ip ha hb hc hd h = absurd (cc h)
four_octets_lt (some a) none c d ip ha hb hc hd h = absurd (cc h)
four_octets_lt (some a) (some b) none d ip ha hb hc hd h = absurd (cc h)
four_octets_lt (some a) (some b) (some c) none ip ha hb hc hd h = absurd (cc h)
four_octets_lt (some a) (some b) (some c) (some d) ip ha hb hc hd h =
    let p = ha a refl in let q = hb b refl in let r = hc c refl in let s = hd d refl in ground arith

of_fields_lt : (fs : List Bytes) (ip : Ipv4) → of_fields fs ≡ some ip → IsIpv4 ip
of_fields_lt [] ip h = absurd (cc h)
of_fields_lt (a ∷ []) ip h = absurd (cc h)
of_fields_lt (a ∷ b ∷ []) ip h = absurd (cc h)
of_fields_lt (a ∷ b ∷ c ∷ []) ip h = absurd (cc h)
of_fields_lt (a ∷ b ∷ c ∷ d ∷ []) ip h =
    four_octets_lt (octet a) (octet b) (octet c) (octet d) ip (octet_lt a) (octet_lt b) (octet_lt c)
      (octet_lt d) h
of_fields_lt (a ∷ b ∷ c ∷ d ∷ e ∷ rest) ip h = absurd (cc h)

mapped_lt : (gs : List ℕ) (ip : Ipv4) → mapped_ipv4 gs ≡ some ip → IsIpv4 ip
mapped_lt (a ∷ b ∷ c ∷ d ∷ e ∷ f ∷ g ∷ h ∷ []) ip q =
    ground (arith, rest_lt (g / 256), rest_lt g, rest_lt (h / 256), rest_lt h)
  where
    rest_lt : (n : ℕ) → n % 256 < 256
    rest_lt n = omega arith
mapped_lt _ ip q = absurd (cc q)

to4_lt : (o : Option (List ℕ)) (ip : Ipv4) → to4 o ≡ some ip → IsIpv4 ip
to4_lt none ip h = absurd (cc h)
to4_lt (some gs) ip h = mapped_lt gs ip h

parse_as_lt : (whole s : Bytes) (ip : Ipv4) → parse_as whole s ≡ some ip → IsIpv4 ip
unfolding parse_as parse_ipv4
parse_as_lt whole [] ip h = absurd (cc h)
parse_as_lt whole (c ∷ s) ip h = ground (
  arith,
  of_fields_lt (fields_from [] whole) ip,
  to4_lt (parse_ipv6 whole) ip,
  parse_as_lt whole s ip,
)

parse_ip_lt : (s : Bytes) (ip : Ipv4) → parse_ip s ≡ some ip → IsIpv4 ip
unfolding parse_ip
parse_ip_lt s ip h = parse_as_lt s s ip h

key_of :
    (s : Bytes) (ip : Ipv4)
    → parse_ip s ≡ some ip
    → ip_to_uint32 s ≡ little_endian ip.first ip.second ip.third ip.fourth
unfolding ip_to_uint32
key_of s ip h = rw (h, ip_to_uint32) refl

-- The key of an address that can be read is a 32-bit number, and `IPFromNetByteOrder` makes the
-- same four numbers of it, in the same order.
pub ip_to_uint32-ip_string :
    (s : Bytes) (ip : Ipv4)
    → parse_ip s ≡ some ip
    → (ip_to_uint32 s < 2 ^ 32)
      × (ip_string (ip_to_uint32 s) ≡ format_ip ip.first ip.second ip.third ip.fourth)
ip_to_uint32-ip_string s ip h =
    let v : IsIpv4 ip = parse_ip_lt s ip h in
    (
      subst (λ k. k < 2 ^ 32) (sym key)
          (omega (arith, v.first_lt, v.second_lt, v.third_lt, v.fourth_lt)),
      ap ip_string key
          ∙ ip_string-little_endian ip.first ip.second ip.third ip.fourth v.first_lt v.second_lt
              v.third_lt v.fourth_lt,
    )
  where
    key : ip_to_uint32 s ≡ little_endian ip.first ip.second ip.third ip.fourth
    key = key_of s ip h

hex_le : (s : Bytes) (n : ℕ) → length s ≤ n → length (hex s) ≤ 2 * n
unfolding hex
hex_le [] n h = omega arith
hex_le (c ∷ s) zero h = absurd (omega arith)
hex_le (c ∷ s) (suc n) h = omega (arith, hex_le s n (omega arith))

length-take_le : (n : ℕ) (s : Bytes) → length (take n s) ≤ n
length-take_le zero s = omega arith
length-take_le (suc n) [] = omega arith
length-take_le (suc n) (c ∷ s) = omega (arith, length-take_le n s)

payload_hex : (raw : Bytes) → length (hex (event_payload raw)) ≤ 20
payload_hex raw = hex_le (event_payload raw) 10 (unfold event_payload in short)
  where
    short :
        length (
          take (if ltb 10 (uint32_at 12 raw) then 10 else uint32_at 12 raw) (take 10 (drop 16 raw)))
        ≤ 10
    short = ground (
      arith,
      length-take_le (uint32_at 12 raw) (take 10 (drop 16 raw)),
      length-take_le 10 (take 10 (drop 16 raw)),
    )

-- A sample that is long enough is cached under the address that its first four bytes are, as at
-- most 20 hexadecimal digits, and no other address changes.
pub parse_and_cache_lem :
    (cache cache' : Dict Bytes) (a b c d : ℕ) (sample k : Bytes)
    → a < 256
    → b < 256
    → c < 256
    → d < 256
    → parse_and_cache cache (a ∷ b ∷ c ∷ d ∷ sample) ≡ some cache'
    → (h : Bytes) × (length h ≤ 20)
      × (cache_get cache' k
          ≡ (if bytes_eq (format_ip a b c d) k then some h else cache_get cache k))
unfolding parse_and_cache cache_add cache_get
parse_and_cache_lem cache cache' a b c d sample k ha hb hc hd e =
    let raw = a ∷ b ∷ c ∷ d ∷ sample in
    let h = hex (event_payload raw) in
    (
      h,
      payload_hex raw,
      ap (λ t. lookup k t) stored
          ∙ lookup-insert (ip_string (little_endian a b c d)) k h cache
          ∙ ap (λ t. if bytes_eq t k then some h else lookup k cache)
              (ip_string-little_endian a b c d ha hb hc hd),
    )
  where
    stored :
        cache'
        ≡ insert
            (ip_string (little_endian a b c d))
            (hex (event_payload (a ∷ b ∷ c ∷ d ∷ sample)))
            cache
    stored = ground arith
