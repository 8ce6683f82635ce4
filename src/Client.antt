-- ===== src/Client.antt =====
-- internal/analyzer/detector/llm_client.go, the client of the language model: its defaults, the
-- request for one UE, and the score that is read from the answer. The server, with the JSON of a
-- request and of an answer, is a parameter.
pub mod Laws
pub mod Predict
use an_lf.Base.{
  ℕ, Bool, true, false, ◌||◌, not, Option, none, some, List, [], ◌∷◌, ◌++◌, Bytes, bytes, ◌==◌,
  bytes_eq, if◌then◌else◌,
}
use an_lf.Base.Int.{ℤ, pos, eqb_ℤ}
use an_lf.Float.{Float64}
use an_lf.Models.{UeTrafficRecord, GlobalNetworkStats, InferenceResult}
use an_lf.Regex.{Regex, one, many, seq, alt, text_start, text_end, group, is_space, is_digit, find}
use an_lf.Prompt.Build.{build_single_ue_prompt}

-- A literal text.
unfoldable pub literal : Bytes → Regex
literal [] = many (λ _. false)
literal (c ∷ s) = seq (one (λ d. d == c)) (literal s)

-- `(?:0\.\d+|1\.0|0|1)`, and the group around it.
unfoldable pub score_regex : Regex
unfolding literal
score_regex =
    alt (seq (literal (bytes "0.")) (seq (one is_digit) (many is_digit)))
      (alt (literal (bytes "1.0")) (alt (literal (bytes "0")) (literal (bytes "1"))))

abbrev any_space : Regex
any_space = many is_space

-- `[,}\s]|$` and `[^\d]|$`.
unfoldable pub after_json : Regex
after_json = alt (one (λ c. c == 44 || c == 125 || is_space c)) text_end

unfoldable pub after_score : Regex
after_score = alt (one (λ c. not (is_digit c))) text_end

unfoldable pub quote_space_colon : Regex
quote_space_colon = let p = λ (c : ℕ). c == 34 || is_space c || c == 58 in seq (one p) (many p)

-- `"risk_score":`, where 34 is the quotation mark and 58 the colon.
abbrev pub json_key : Bytes
json_key = 34 ∷ bytes "risk_score" ++ 34 ∷ 58 ∷ []

-- The six patterns, in the order in which they are tried.
unfoldable pub score_regexes : List Regex
unfolding literal score_regex after_json after_score quote_space_colon
score_regexes =
    seq (literal (bytes "Risk Score:")) (seq any_space (seq (group score_regex) after_score))
    ∷ seq (literal json_key) (seq any_space (seq (group score_regex) after_json))
    ∷ seq (literal json_key) (
        seq any_space
          (seq (literal (34 ∷ [])) (seq (group score_regex) (seq (literal (34 ∷ [])) after_json))))
    ∷ seq (literal (bytes "risk_score"))
        (seq quote_space_colon (seq any_space (seq (group score_regex) after_json)))
    ∷ seq (literal (bytes "Response:")) (seq any_space (seq (group score_regex) after_score))
    ∷ seq text_start (seq any_space (seq (group score_regex) (seq any_space text_end)))
    ∷ []

abbrev group_text : Option Bytes → Bytes
group_text none = []
group_text (some t) = t

-- The loop over the patterns: the group of the first one that matches.
unfoldable pub score_text : List Regex → Bytes → Option Bytes
score_text [] raw = none
score_text (r ∷ rs) raw = elim (find r true raw) [
  | none ↦ score_text rs raw
  | some m ↦ some (group_text m.captured)
]

pub record LlmClientConfig (F : Type 0) : Type 0 where
  pub server_url : Bytes
  pub timeout : ℤ
  pub system_prompt_path : Bytes
  pub max_concurrent : ℤ
  pub temperature : F
  pub max_tokens : ℤ

pub record LlmClient (F : Type 0) : Type 0 where
  pub server_url : Bytes
  pub timeout : ℤ
  pub system_prompt : Bytes
  pub max_concurrent : ℤ
  pub temperature : F
  pub max_tokens : ℤ

-- The system prompt: empty without a path, and where the file cannot be read.
abbrev load_prompt : (Bytes → Option Bytes) → Bytes → Bytes
load_prompt read_file [] = []
load_prompt read_file (c ∷ path) = elim (read_file (c ∷ path)) [ none ↦ [] | some text ↦ text ]

-- `NewLLMClient`, over the content of the files. A `time.Duration` is in nanoseconds.
unfoldable pub new_llm_client :
    {F : Type 0} → Float64 F → (Bytes → Option Bytes) → LlmClientConfig F → LlmClient F
new_llm_client fl read_file cfg = record {
  server_url = cfg.server_url;
  timeout = if eqb_ℤ cfg.timeout (pos 0) then pos 10000000000 else cfg.timeout;
  system_prompt = load_prompt read_file cfg.system_prompt_path;
  max_concurrent = if eqb_ℤ cfg.max_concurrent (pos 0) then pos 100 else cfg.max_concurrent;
  temperature = if fl.eq cfg.temperature (fl.lit 0 0) then fl.lit 1 1 else cfg.temperature;
  max_tokens = if eqb_ℤ cfg.max_tokens (pos 0) then pos 50 else cfg.max_tokens;
}

pub record HttpReply : Type 0 where
  pub status_code : ℕ
  -- `none` where reading the body fails.
  pub body : Option Bytes

-- The calls of other code in `PredictSingleUE`; `none` is an error.
pub record LlmServer (F : Type 0) : Type 0 where
  -- The body for a system content, a user content, a temperature and a number of tokens.
  pub marshal : Bytes → Bytes → F → ℤ → Option Bytes
  -- `http.NewRequestWithContext` for the address and the body.
  pub new_request : Bytes → Bytes → Option Bytes
  pub send : Bytes → Option HttpReply
  -- The contents of the choices in an answer.
  pub choices : Bytes → Option (List Bytes)

pub data PredictError : Type 0 where
  marshal_failed request_failed send_failed read_failed parse_failed empty_response : PredictError
  http_status : ℕ → Bytes → PredictError

pub data Predicted (F : Type 0) : Type 0 where
  failed : PredictError → Predicted F
  predicted : InferenceResult F → Predicted F

module _ {F : Type 0} (fl : Float64 F) where
  -- The score of an answer: 0.1 where no pattern matches or the number cannot be read.
  unfoldable pub answer_score : Bytes → F
  answer_score raw = elim (score_text score_regexes raw) [
    | none ↦ fl.lit 1 1
    | some t ↦ elim (fl.parse t) [ none ↦ fl.lit 1 1 | some score ↦ score ]
  ]

  abbrev pub from_choices : Bytes → ℤ → Option (List Bytes) → Predicted F
  from_choices supi now none = failed parse_failed
  from_choices supi now (some []) = failed empty_response
  from_choices supi now (some (raw ∷ rest)) =
      predicted (record { supi = supi; anomaly_score = answer_score raw; timestamp = now })

  abbrev pub from_body : LlmServer F → Bytes → ℤ → ℕ → Option Bytes → Predicted F
  from_body server supi now code none = failed read_failed
  from_body server supi now code (some body) =
      if code == 200
      then from_choices supi now (server.choices body)
      else failed (http_status code body)

  abbrev pub from_reply : LlmServer F → Bytes → ℤ → Option HttpReply → Predicted F
  from_reply server supi now none = failed send_failed
  from_reply server supi now (some reply) = from_body server supi now reply.status_code reply.body

  abbrev pub from_request : LlmServer F → Bytes → ℤ → Option Bytes → Predicted F
  from_request server supi now none = failed request_failed
  from_request server supi now (some request) = from_reply server supi now (server.send request)

  abbrev pub from_json : LlmClient F → LlmServer F → Bytes → ℤ → Option Bytes → Predicted F
  from_json client server supi now none = failed marshal_failed
  from_json client server supi now (some json) =
      from_request server supi now
        (server.new_request (client.server_url ++ bytes "/v1/chat/completions") json)

  -- A prompt is always built, so `none` does not occur.
  abbrev pub contents : Option (Bytes × Bytes) → Bytes × Bytes
  contents none = ([], [])
  contents (some p) = p

  unfoldable pub predict_single_ue :
      LlmClient F
      → LlmServer F
      → UeTrafficRecord F
      → Option (GlobalNetworkStats F)
      → ℤ
      → Predicted F
  predict_single_ue client server r stats now =
      let (system, user) = contents (build_single_ue_prompt fl client.system_prompt r stats) in
      from_json client server r.supi now
        (server.marshal system user client.temperature client.max_tokens)

-- `HealthCheck`, over the answer to the GET request.
pub data HealthError : Type 0 where
  bad_request unreachable : HealthError
  unhealthy : ℕ → HealthError

abbrev health_reply : Option ℕ → Option HealthError
health_reply none = some unreachable
health_reply (some code) = if code == 200 then none else some (unhealthy code)

unfoldable pub health_check :
    {F : Type 0} → LlmClient F → (Bytes → Option Bytes) → (Bytes → Option ℕ) → Option HealthError
health_check client new_request send = elim (new_request (client.server_url ++ bytes "/health")) [
  | none ↦ some bad_request
  | some request ↦ health_reply (send request)
]
