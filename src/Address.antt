-- ===== src/Address.antt =====
-- `net.ParseIP` and `To4` of Go's library, as `ipToUint32` of internal/monitor/monitor.go calls
-- them: the dotted form, and the IPv6 forms that stand for an IPv4 address.
use an_lf.Base.{
  ℕ, zero, suc, ◌+◌, ◌*◌, ◌-◌, ◌/◌, ◌%◌, Bool, true, false, ◌&&◌, ◌||◌, Option, none, some, List,
  [], ◌∷◌, ◌++◌, Bytes, ltb, leb, ◌==◌, if◌then◌else◌, length, take, drop,
}

-- The dotted form: four numbers up to 255 of digits without a leading 0.
abbrev is_digit : ℕ → Bool
is_digit c = leb 48 c && leb c 57

unfoldable pub digits_value : ℕ → Bytes → Option ℕ
digits_value n [] = some n
digits_value n (c ∷ s) = if is_digit c then digits_value (n * 10 + (c - 48)) s else none

abbrev pub small : Option ℕ → Option ℕ
small none = none
small (some n) = if ltb n 256 then some n else none

unfoldable pub octet : Bytes → Option ℕ
unfolding digits_value
octet [] = none
octet (c ∷ []) = small (digits_value 0 (c ∷ []))
octet (c ∷ d ∷ s) = if c == 48 then none else small (digits_value 0 (c ∷ d ∷ s))

unfoldable pub fields_from : Bytes → Bytes → List Bytes
fields_from current [] = current ∷ []
fields_from current (c ∷ s) =
    let next = current ∷ fields_from [] s in
    let more = fields_from (current ++ c ∷ []) s in if c == 46 then next else more

pub record Ipv4 : Type 0 where
  pub first : ℕ
  pub second : ℕ
  pub third : ℕ
  pub fourth : ℕ

abbrev pub four_octets : Option ℕ → Option ℕ → Option ℕ → Option ℕ → Option Ipv4
four_octets (some a) (some b) (some c) (some d) =
    some (record { first = a; second = b; third = c; fourth = d })
four_octets _ _ _ _ = none

abbrev pub of_fields : List Bytes → Option Ipv4
of_fields (a ∷ b ∷ c ∷ d ∷ []) = four_octets (octet a) (octet b) (octet c) (octet d)
of_fields _ = none

unfoldable pub parse_ipv4 : Bytes → Option Ipv4
unfolding fields_from
parse_ipv4 s = of_fields (fields_from [] s)

-- The IPv6 form: groups of up to four hexadecimal digits between colons, 58.
unfoldable pub hex_value : ℕ → Option ℕ
hex_value c =
    if is_digit c
    then some (c - 48)
    else if leb 97 c && leb c 102
    then some (c - 87)
    else if leb 65 c && leb c 70
    then some (c - 55)
    else none

-- The digits of a group: how many there are, their value, and the text behind them.
pub record Group : Type 0 where
  pub digits : ℕ
  pub value : ℕ
  pub rest : Bytes

unfoldable pub hex_group : ℕ → ℕ → Bytes → Option Group
unfolding hex_value
hex_group n v [] = some (record { digits = n; value = v; rest = [] })
hex_group n v (c ∷ s) = elim (hex_value c) [
  | none ↦ some (record { digits = n; value = v; rest = c ∷ s })
  | some d ↦ elim (ltb 3 n) [ true ↦ none | false ↦ hex_group (suc n) (v * 16 + d) s ]
]

unfoldable pub zeros : ℕ → List ℕ
zeros zero = []
zeros (suc n) = 0 ∷ zeros n

-- The end of the loop. The ellipsis, at the number of groups before it, stands for at least one
-- group of zeros, and makes eight of them.
unfoldable pub fill_groups : List ℕ → Option ℕ → Option (List ℕ)
unfolding zeros
fill_groups groups none = if length groups == 8 then some groups else none
fill_groups groups (some e) =
    if ltb (length groups) 8
    then some (take e groups ++ (zeros (8 - length groups) ++ drop e groups))
    else none

abbrev pub is_given : Option ℕ → Bool
is_given none = false
is_given (some e) = true

-- Four numbers at the end, which take the place of the last two groups.
abbrev pub with_ipv4 : List ℕ → Option ℕ → Option Ipv4 → Option (List ℕ)
with_ipv4 groups e none = none
with_ipv4 groups e (some ip) =
    if (is_given e || length groups == 6) && leb (length groups) 6
    then fill_groups (groups ++ (ip.first * 256 + ip.second) ∷ (ip.third * 256 + ip.fourth) ∷ []) e
    else none

-- What follows a group: the end, more groups, or an ellipsis.
pub data Next : Type 0 where
  at_end : Next
  goes_on : Bytes → Next
  ellipsis : Bytes → Next
  ipv4_here : Next
  wrong : Next

abbrev pub after_colon : Bytes → Next
after_colon [] = wrong
after_colon (c ∷ s) = if c == 58 then ellipsis s else goes_on (c ∷ s)

abbrev pub next_of : Bytes → Next
next_of [] = at_end
next_of (c ∷ s) = if c == 46 then ipv4_here else if c == 58 then after_colon s else wrong

-- The loop, with so many groups left.
unfoldable pub groups_loop : ℕ → List ℕ → Option ℕ → Bytes → Option (List ℕ)
unfolding hex_group fill_groups parse_ipv4
groups_loop zero groups e s = none
groups_loop (suc left) groups e s = elim (hex_group 0 0 s) [
  | none ↦ none
  | some g ↦
      let more = groups ++ g.value ∷ [] in
      elim (g.digits == 0) [
        | true ↦ none
        | false ↦ elim (next_of g.rest) [
          | at_end ↦ fill_groups more e
          | goes_on t ↦ groups_loop left more e t
          | ellipsis [] ↦ if is_given e then none else fill_groups more (some (length more))
          | ellipsis (c ∷ t) ↦ elim (is_given e) [
            | true ↦ none
            | false ↦ groups_loop left more (some (length more)) (c ∷ t)
          ]
          | ipv4_here ↦ with_ipv4 groups e (parse_ipv4 s)
          | wrong ↦ none
        ]
      ]
]

-- An ellipsis may stand in front.
unfoldable pub parse_ipv6 : Bytes → Option (List ℕ)
unfolding groups_loop zeros
parse_ipv6 (c ∷ d ∷ []) =
    if c == 58 && d == 58 then some (zeros 8) else groups_loop 8 [] none (c ∷ d ∷ [])
parse_ipv6 (c ∷ d ∷ s) = elim (c == 58 && d == 58) [
  | true ↦ groups_loop 8 [] (some 0) s
  | false ↦ groups_loop 8 [] none (c ∷ d ∷ s)
]
parse_ipv6 s = groups_loop 8 [] none s

-- `To4`: five groups of zeros and one of ones stand before an IPv4 address.
abbrev pub mapped_ipv4 : List ℕ → Option Ipv4
mapped_ipv4 (a ∷ b ∷ c ∷ d ∷ e ∷ f ∷ g ∷ h ∷ []) =
    if a == 0 && b == 0 && c == 0 && d == 0 && e == 0 && f == 65535
    then some (record {
      first = g / 256 % 256;
      second = g % 256;
      third = h / 256 % 256;
      fourth = h % 256;
    })
    else none
mapped_ipv4 _ = none

abbrev pub to4 : Option (List ℕ) → Option Ipv4
to4 none = none
to4 (some groups) = mapped_ipv4 groups

-- The first of a dot, a colon and a percent sign says which form it is, and a zone is refused.
unfoldable pub parse_as : Bytes → Bytes → Option Ipv4
unfolding parse_ipv4 parse_ipv6
parse_as whole [] = none
parse_as whole (c ∷ s) = elim (c == 46) [
  | true ↦ parse_ipv4 whole
  | false ↦ elim (c == 58) [
    | true ↦ to4 (parse_ipv6 whole)
    | false ↦ elim (c == 37) [ true ↦ none | false ↦ parse_as whole s ]
  ]
]

unfoldable pub parse_ip : Bytes → Option Ipv4
unfolding parse_as
parse_ip s = parse_as s s
