-- ===== src/Client/Predict.antt =====
-- The result of `PredictSingleUE` (internal/analyzer/detector/llm_client.go), for any server.
use an_lf.Base.{
  ℕ, ◌≡◌, refl, ◌⊎◌, inl, inr, true, false, Option, none, some, List, [], ◌∷◌, Bytes, arith,
  Option-cases, ◌==◌, Bool-cases, ◌++◌, bytes,
}
use an_lf.Base.Int.{ℤ}
use an_lf.Float.{Float64, IsIeee}
use an_lf.Models.{UeTrafficRecord, GlobalNetworkStats}
use an_lf.Prompt.Build.{build_single_ue_prompt}
use an_lf.Client.{
  LlmClient, LlmServer, HttpReply, PredictError, Predicted, failed, predicted, marshal_failed,
  request_failed, send_failed, read_failed, parse_failed, empty_response, http_status, score_text,
  score_regexes, answer_score, from_choices, from_body, from_reply, from_request, from_json,
  contents, predict_single_ue,
}
use an_lf.Client.Laws.{IsScore, score_text-IsScore}

-- Between 0 and 1.
abbrev pub InUnit : {F : Type 0} → Float64 F → F → Type 0
InUnit fl x = (fl.le (fl.lit 0 0) x ≡ true) × (fl.le x (fl.lit 10 1) ≡ true)

-- What `strconv.ParseFloat` makes of 0, 1, 1.0 and 0. followed by digits lies between 0 and 1.
pub record ReadsScores {F : Type 0} (fl : Float64 F) : Type 0 where
  pub reads : (t : Bytes) (x : F) → IsScore t → fl.parse t ≡ some x → InUnit fl x

module _ {F : Type 0} {fl : Float64 F} (w : IsIeee fl) (p : ReadsScores fl) where
  pub default_score-InUnit : InUnit fl (fl.lit 1 1)
  default_score-InUnit = (
    w.lt_le _ _
        (w.lit_lt 0 0 1 1 (omega arith) (omega arith) (omega arith) (omega arith) (omega arith)),
    w.lt_le _ _
        (w.lit_lt 1 1 10 1 (omega arith) (omega arith) (omega arith) (omega arith) (omega arith)),
  )

  pub answer_score-InUnit : (raw : Bytes) → InUnit fl (answer_score fl raw)
  unfolding answer_score
  answer_score-InUnit raw = elim (Option-cases (score_text score_regexes raw)) [
    | inl absent ↦ rw (absent, answer_score) default_score-InUnit
    | inr (t, found) ↦ elim (Option-cases (fl.parse t)) [
      | inl bad ↦ rw (found, bad, answer_score) default_score-InUnit
      | inr (x, good) ↦
          rw (found, good, answer_score) (p.reads t x (score_text-IsScore raw t found) good)
    ]
  ]

-- What holds of the value, if there is one.
pub IfSome : {A : Type 0} → Option A → (A → Type 0) → Type 0
IfSome none p = ⊥
IfSome (some x) p = p x

pub IsFirst : Bytes → List Bytes → Type 0
IsFirst raw [] = ⊥
IsFirst raw (first ∷ rest) = first ≡ raw

module _ {F : Type 0} (fl : Float64 F) where
  -- The score that was read from a text: the number behind the first pattern that matches, or 0.1
  -- if none matches or the number cannot be read.
  pub IsRead : Bytes → F → Type 0
  IsRead raw x =
      ((t : Bytes) × (score_text score_regexes raw ≡ some t) × IsScore t × (fl.parse t ≡ some x))
      ⊎ (((t : Bytes) → score_text score_regexes raw ≡ some t → fl.parse t ≡ none)
          × (x ≡ fl.lit 1 1))

  answer_score-IsRead : (raw : Bytes) → IsRead raw (answer_score fl raw)
  unfolding answer_score IsRead
  answer_score-IsRead raw = elim (Option-cases (score_text score_regexes raw)) [
    | inl absent ↦ rw (absent, answer_score) (inr ((λ t h. cc), refl))
    | inr (t, found) ↦ elim (Option-cases (fl.parse t)) [
      | inl bad ↦ rw (found, bad, answer_score) (inr ((λ u h. same u h bad), refl))
      | inr (x, good) ↦
          rw (found, good, answer_score) (inl (t, refl, score_text-IsScore raw t found, good))
    ]
  ]
    where
      same : {t : Bytes} (u : Bytes) → some t ≡ some u → fl.parse t ≡ none → fl.parse u ≡ none
      same u h bad = cc

  module _ (server : LlmServer F) where
    -- The text is the first choice of the answer, step by step from the end of the call.
    pub InChoices : Option (List Bytes) → Bytes → Type 0
    InChoices o raw = IfSome o (IsFirst raw)

    pub InBody : ℕ → Option Bytes → Bytes → Type 0
    InBody code o raw = IfSome o (λ body. (code ≡ 200) × InChoices (server.choices body) raw)

    pub InReply : Option HttpReply → Bytes → Type 0
    InReply o raw = IfSome o (λ reply. InBody reply.status_code reply.body raw)

    pub InRequest : Option Bytes → Bytes → Type 0
    InRequest o raw = IfSome o (λ request. InReply (server.send request) raw)

    pub InJson : LlmClient F → Option Bytes → Bytes → Type 0
    InJson client o raw = IfSome o (λ json.
        InRequest (server.new_request (client.server_url ++ bytes "/v1/chat/completions") json) raw)

    -- The server answers the request for the record with status 200, and the text is the first
    -- choice of its answer.
    pub Answers : LlmClient F → UeTrafficRecord F → Option (GlobalNetworkStats F) → Bytes → Type 0
    Answers client r stats raw =
        let (system, user) = contents fl (build_single_ue_prompt fl client.system_prompt r stats) in
        InJson client (server.marshal system user client.temperature client.max_tokens) raw

    -- A failure without an answer, or the score of the answer for the UE, at the time.
    pub Outcome : (Bytes → Type 0) → Bytes → ℤ → Predicted F → Type 0
    Outcome answered supi now o =
        ((e : PredictError) × (o ≡ failed e) × ((raw : Bytes) → answered raw → ⊥))
        ⊎ ((raw : Bytes) × answered raw
            × (o
                ≡ predicted
                    (record { supi = supi; anomaly_score = answer_score fl raw; timestamp = now })))

    module _ (supi : Bytes) (now : ℤ) where
      choices_cases :
          (o : Option (List Bytes)) → Outcome (InChoices o) supi now (from_choices fl supi now o)
      unfolding Outcome InChoices IfSome IsFirst
      choices_cases none = inl (parse_failed, refl, λ raw h. h)
      choices_cases (some []) = inl (empty_response, refl, λ raw h. h)
      choices_cases (some (raw ∷ rest)) = inr (raw, refl, refl)

      body_cases :
          (code : ℕ) (o : Option Bytes)
          → Outcome (InBody code o) supi now (from_body fl server supi now code o)
      unfolding Outcome InBody IfSome
      body_cases code none = inl (read_failed, refl, λ raw h. h)
      body_cases code (some body) = elim (Bool-cases (code == 200)) [
        | inl ok ↦ elim (choices_cases (server.choices body)) [
          | inl (e, same, never) ↦ inl (e, rw ok same, λ raw h. never raw h.1)
          | inr (raw, first, same) ↦ inr (raw, (ground arith, first), rw ok same)
        ]
        | inr bad ↦ inl (http_status code body, rw bad refl, λ raw h. clash h.0 bad)
      ]
        where
          clash : code ≡ 200 → (code == 200) ≡ false → ⊥
          clash e b = ground arith

      reply_cases :
          (o : Option HttpReply) → Outcome (InReply o) supi now (from_reply fl server supi now o)
      unfolding InReply IfSome
      reply_cases none = unfold Outcome in inl (send_failed, refl, λ raw h. h)
      reply_cases (some reply) = body_cases reply.status_code reply.body

      request_cases :
          (o : Option Bytes) → Outcome (InRequest o) supi now (from_request fl server supi now o)
      unfolding InRequest IfSome
      request_cases none = unfold Outcome in inl (request_failed, refl, λ raw h. h)
      request_cases (some request) = reply_cases (server.send request)

      json_cases :
          (client : LlmClient F) (o : Option Bytes)
          → Outcome (InJson client o) supi now (from_json fl client server supi now o)
      unfolding InJson IfSome
      json_cases client none = unfold Outcome in inl (marshal_failed, refl, λ raw h. h)
      json_cases client (some json) =
          request_cases
            (server.new_request (client.server_url ++ bytes "/v1/chat/completions") json)

-- Whatever the server does: `PredictSingleUE` fails, and then the server has not answered its
-- request with status 200 and a choice; or it returns a result for the UE that it was asked about,
-- with the time and the score that was read from the first choice of the answer, 0.1 if no score
-- can be read there. The score is between 0 and 1.
pub predict_single_ue_cases :
    {F : Type 0} {fl : Float64 F}
    → IsIeee fl
    → ReadsScores fl
    → (client : LlmClient F) (server : LlmServer F) (r : UeTrafficRecord F)
      (stats : Option (GlobalNetworkStats F)) (now : ℤ)
    → ((e : PredictError) × (predict_single_ue fl client server r stats now ≡ failed e)
        × ((raw : Bytes) → Answers fl server client r stats raw → ⊥))
      ⊎ ((raw : Bytes) × (x : F) × Answers fl server client r stats raw
          × IsRead fl raw x
          × InUnit fl x
          × (predict_single_ue fl client server r stats now
              ≡ predicted (record { supi = r.supi; anomaly_score = x; timestamp = now })))
unfolding predict_single_ue Outcome Answers
predict_single_ue_cases {fl = fl} w p client server r stats now =
    let built = contents fl (build_single_ue_prompt fl client.system_prompt r stats) in
    elim (json_cases fl server r.supi now client
      (server.marshal built.0 built.1 client.temperature client.max_tokens)) [
        | inl fails ↦ inl fails
        | inr (raw, answers, h) ↦ inr (
          raw,
          answer_score fl raw,
          answers,
          answer_score-IsRead fl raw,
          answer_score-InUnit w p raw,
          h,
        )
      ]
