-- ===== src/Prompt/Build.antt =====
-- `replacePlaceholder` and `BuildSingleUEPrompt` of internal/analyzer/detector/llm_client.go.
use an_lf.Base.{Bool, Option, none, some, List, [], ◌∷◌, ◌++◌, Bytes, bytes, if◌then◌else◌}
use an_lf.Float.{Float64}
use an_lf.Models.{UeFeatureVector, UeTrafficRecord, GlobalNetworkStats}
use an_lf.Prompt.{starts_with, replace_all, split_lines, join_lines}
use an_lf.Prompt.Replace.{substitute}

infixl 5 ◌>>=◌
abbrev ◌>>=◌ : {A B : Type 0} → Option A → (A → Option B) → Option B
none >>= f = none
some a >>= f = f a

pub placeholder : Bytes → Bytes
placeholder key = 123 ∷ (key ++ 125 ∷ [])

-- `none` would mean that a replacement does not end.
pub replace_placeholder : Bytes → Bytes → Bytes → Option Bytes
unfolding placeholder
replace_placeholder text key value = replace_all text (placeholder key) value

-- A sequence of replacements, each in the result of the one before.
pub replace_each : List (Bytes × Bytes) → Bytes → Option Bytes
replace_each [] text = some text
replace_each ((key, value) ∷ rest) text = replace_placeholder text key value >>= replace_each rest

module _ {F : Type 0} (fl : Float64 F) where
  -- The eight global values, or "N/A" for each.
  pub global_values : Option (GlobalNetworkStats F) → List (Bytes × Bytes)
  global_values (some g) =
      (bytes "global_ul_log_pps", fl.format 2 g.avg_ul_log_pps)
      ∷ (bytes "global_new_flow_rate", fl.format 2 g.avg_new_flow_rate)
      ∷ (bytes "global_ul_avg_len", fl.format 2 g.avg_ul_len)
      ∷ (bytes "global_fan_out", fl.format 2 g.avg_fan_out)
      ∷ (bytes "global_dl_log_pps", fl.format 2 g.avg_dl_log_pps)
      ∷ (bytes "global_dl_avg_len", fl.format 2 g.avg_dl_len)
      ∷ (bytes "global_pps_ratio", fl.format 2 g.avg_pps_ratio)
      ∷ (bytes "global_byte_ratio", fl.format 2 g.avg_byte_ratio)
      ∷ []
  global_values none =
      (bytes "global_ul_log_pps", bytes "N/A")
      ∷ (bytes "global_new_flow_rate", bytes "N/A")
      ∷ (bytes "global_ul_avg_len", bytes "N/A")
      ∷ (bytes "global_fan_out", bytes "N/A")
      ∷ (bytes "global_dl_log_pps", bytes "N/A")
      ∷ (bytes "global_dl_avg_len", bytes "N/A")
      ∷ (bytes "global_pps_ratio", bytes "N/A")
      ∷ (bytes "global_byte_ratio", bytes "N/A")
      ∷ []

  -- The values of the UE, in the order of the replacements in the system prompt.
  pub system_values : UeFeatureVector F → List (Bytes × Bytes)
  system_values v =
      (bytes "ul_log_pps", fl.format 2 v.ul_log_pps)
      ∷ (bytes "dl_log_pps", fl.format 2 v.dl_log_pps)
      ∷ (bytes "ul_avg_len", fl.format 2 v.avg_len)
      ∷ (bytes "dl_avg_len", fl.format 2 v.dl_avg_len)
      ∷ (bytes "new_flow_rate", fl.format 2 v.new_flow_rate)
      ∷ (bytes "fan_out", fl.format 2 v.fan_out)
      ∷ (bytes "pps_ratio", fl.format 2 v.pps_ratio)
      ∷ (bytes "byte_ratio", fl.format 2 v.byte_ratio)
      ∷ (bytes "ack_ratio", fl.format 2 v.ack_ratio)
      ∷ (bytes "tcp_ratio", fl.format 2 v.tcp_ratio)
      ∷ (bytes "udp_ratio", fl.format 2 v.udp_ratio)
      ∷ (bytes "icmp_ratio", fl.format 2 v.icmp_ratio)
      ∷ (bytes "syn_ratio", fl.format 2 v.syn_ratio)
      ∷ (bytes "rst_ratio", fl.format 2 v.rst_ratio)
      ∷ []

  -- The same values, in the order of the replacements in the user content.
  pub user_values : UeFeatureVector F → List (Bytes × Bytes)
  user_values v =
      (bytes "ul_log_pps", fl.format 2 v.ul_log_pps)
      ∷ (bytes "ul_avg_len", fl.format 2 v.avg_len)
      ∷ (bytes "new_flow_rate", fl.format 2 v.new_flow_rate)
      ∷ (bytes "fan_out", fl.format 2 v.fan_out)
      ∷ (bytes "tcp_ratio", fl.format 2 v.tcp_ratio)
      ∷ (bytes "syn_ratio", fl.format 2 v.syn_ratio)
      ∷ (bytes "rst_ratio", fl.format 2 v.rst_ratio)
      ∷ (bytes "dl_log_pps", fl.format 2 v.dl_log_pps)
      ∷ (bytes "dl_avg_len", fl.format 2 v.dl_avg_len)
      ∷ (bytes "pps_ratio", fl.format 2 v.pps_ratio)
      ∷ (bytes "byte_ratio", fl.format 2 v.byte_ratio)
      ∷ (bytes "ack_ratio", fl.format 2 v.ack_ratio)
      ∷ (bytes "udp_ratio", fl.format 2 v.udp_ratio)
      ∷ (bytes "icmp_ratio", fl.format 2 v.icmp_ratio)
      ∷ []

pub is_template : Bytes → Bool
unfolding starts_with
is_template line = starts_with (bytes "User Data:") line

-- The loop over the lines: the last line that is a template, and the other lines.
pub extract_template : List Bytes → Bytes → Bytes × List Bytes
extract_template [] template = (template, [])
extract_template (line ∷ lines) template =
    let (last, others) = extract_template lines (if is_template line then line else template) in
    (last, if is_template line then others else line ∷ others)

fallback : Bytes
fallback =
    bytes
      "User Data: PPS:{ul_log_pps}, UL_Len:{ul_avg_len}, Flow:{new_flow_rate}, Fan:{fan_out}, TCP:{tcp_ratio}, SYN:{syn_ratio}, RST:{rst_ratio}"

pub or_fallback : Bytes → Bytes
unfolding fallback
or_fallback [] = fallback
or_fallback (c ∷ template) = c ∷ template

-- The system content and the user content for a UE.
unfoldable pub build_single_ue_prompt :
    {F : Type 0}
    → Float64 F
    → Bytes
    → UeTrafficRecord F
    → Option (GlobalNetworkStats F)
    → Option (Bytes × Bytes)
unfolding replace_each global_values system_values user_values extract_template or_fallback
build_single_ue_prompt fl prompt r stats = do
  global_filled ← replace_each (global_values fl stats) prompt
  filled ← replace_each (system_values fl r.features) global_filled
  let split = extract_template (split_lines filled) []
  user ← replace_each (user_values fl r.features) (or_fallback split.0)
  some (join_lines split.1, user)

-- The reference for a sequence of replacements: each reads the text once.
pub substitute_each : List (Bytes × Bytes) → Bytes → Bytes
substitute_each [] text = text
substitute_each ((key, value) ∷ rest) text =
    substitute_each rest (substitute 0 text (placeholder key) value)

-- The last line that is a template, or the given one.
pub last_template : List Bytes → Bytes → Bytes
last_template [] template = template
last_template (line ∷ lines) template =
    last_template lines (if is_template line then line else template)

-- The text with the global values and the values of the UE in place of their names.
pub filled_prompt :
    {F : Type 0} → Float64 F → Bytes → UeTrafficRecord F → Option (GlobalNetworkStats F) → Bytes
filled_prompt fl prompt r stats =
    substitute_each (system_values fl r.features) (substitute_each (global_values fl stats) prompt)
