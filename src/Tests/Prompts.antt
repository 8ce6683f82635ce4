-- ===== src/Tests/Prompts.antt =====
-- Runs of the text of a request (internal/analyzer/detector/llm_client.go).
use an_lf.Base.{◌≡◌, refl, Bytes, bytes}
use an_lf.Prompt.{starts_with}
use an_lf.Prompt.Replace.{substitute}

substituted : substitute 0 (bytes "a{k}b{k}") (bytes "{k}") (bytes "7") ≡ bytes "a7b7"
unfolding substitute starts_with
substituted = refl

abbrev prompt : Bytes
prompt = bytes "Rate {new_flow_rate} User Data: {fan_out}"
