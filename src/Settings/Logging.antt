-- ===== src/Settings/Logging.antt =====
-- The setters and getters of the section Logger in pkg/factory/config.go.
use an_lf.Base.{
  ◌≡◌, refl, ap, ◌∙◌, Bool, false, Option, none, some, List, [], ◌∷◌, Bytes, bytes, arith,
}
use an_lf.Settings.{Config, Logger}

abbrev set_enable : Bool → Option Logger → Logger
set_enable enable none = record { enable = enable; level = bytes "info"; report_caller = false }
set_enable enable (some l) = record l { enable = enable }

abbrev set_level : Bytes → Option Logger → Logger
set_level level none = record { enable = false; level = level; report_caller = false }
set_level level (some l) = record l { level = level }

abbrev set_caller : Bool → Option Logger → Logger
set_caller caller none = record { enable = false; level = bytes "info"; report_caller = caller }
set_caller caller (some l) = record l { report_caller = caller }

abbrev enable_of : Option Logger → Bool
enable_of none = false
enable_of (some l) = l.enable

abbrev level_of : Option Logger → Bytes
level_of none = bytes "info"
level_of (some l) = l.level

abbrev caller_of : Option Logger → Bool
caller_of none = false
caller_of (some l) = l.report_caller

module _ {F : Type 0} where
  unfoldable pub set_log_enable : Config F → Bool → Config F
  set_log_enable c enable = record c { logger = some (set_enable enable c.logger) }

  unfoldable pub set_log_level : Config F → Bytes → Config F
  set_log_level c level = record c { logger = some (set_level level c.logger) }

  unfoldable pub set_log_report_caller : Config F → Bool → Config F
  set_log_report_caller c caller = record c { logger = some (set_caller caller c.logger) }

  unfoldable pub get_log_enable : Config F → Bool
  get_log_enable c = enable_of c.logger

  unfoldable pub get_log_level : Config F → Bytes
  get_log_level c = level_of c.logger

  unfoldable pub get_log_report_caller : Config F → Bool
  get_log_report_caller c = caller_of c.logger

  -- What a client sees of the log settings.
  abbrev pub seen : Config F → Bool × Bytes × Bool
  seen c = (get_log_enable c, get_log_level c, get_log_report_caller c)

-- A call of a setter.
pub data Call : Type 0 where
  enable caller : Bool → Call
  level : Bytes → Call

module _ {F : Type 0} where
  unfoldable pub run_calls : List Call → Config F → Config F
  unfolding set_log_enable set_log_level set_log_report_caller
  run_calls [] c = c
  run_calls (enable b ∷ calls) c = run_calls calls (set_log_enable c b)
  run_calls (caller b ∷ calls) c = run_calls calls (set_log_report_caller c b)
  run_calls (level l ∷ calls) c = run_calls calls (set_log_level c l)

-- The calls on three independent variables.
unfoldable pub replay : List Call → Bool × Bytes × Bool → Bool × Bytes × Bool
replay [] v = v
replay (enable b ∷ calls) (e, l, r) = replay calls (b, l, r)
replay (caller b ∷ calls) (e, l, r) = replay calls (e, l, b)
replay (level l' ∷ calls) (e, l, r) = replay calls (e, l', r)

module _ {F : Type 0} where
  pub step_enable :
      (c : Config F) (b : Bool)
      → seen (set_log_enable c b) ≡ (b, get_log_level c, get_log_report_caller c)
  unfolding set_log_enable get_log_enable get_log_level get_log_report_caller
  step_enable c b = ground arith

  pub step_caller :
      (c : Config F) (b : Bool)
      → seen (set_log_report_caller c b) ≡ (get_log_enable c, get_log_level c, b)
  unfolding set_log_report_caller get_log_enable get_log_level get_log_report_caller
  step_caller c b = ground arith

  pub step_level :
      (c : Config F) (l : Bytes)
      → seen (set_log_level c l) ≡ (get_log_enable c, l, get_log_report_caller c)
  unfolding set_log_level get_log_enable get_log_level get_log_report_caller
  step_level c l = ground arith

  -- Whether the section Logger is there or not, after any calls of the three setters the three
  -- getters read what the same calls leave in three independent variables.
  pub run_calls_refines :
      (calls : List Call) (c : Config F) → seen (run_calls calls c) ≡ replay calls (seen c)
  unfolding run_calls replay
  run_calls_refines [] c = refl
  run_calls_refines (enable b ∷ calls) c =
      run_calls_refines calls (set_log_enable c b) ∙ ap (replay calls) (step_enable c b)
  run_calls_refines (caller b ∷ calls) c =
      run_calls_refines calls (set_log_report_caller c b) ∙ ap (replay calls) (step_caller c b)
  run_calls_refines (level l ∷ calls) c =
      run_calls_refines calls (set_log_level c l) ∙ ap (replay calls) (step_level c l)
