-- ===== src/Service/Logs.antt =====
-- The log settings in pkg/service/init.go. The levels of the log library, and how it reads one, are
-- parameters.
use an_lf.Base.{
  ◌≡◌, refl, ap, ◌∙◌, ◌↔◌, inl, inr, Bool, true, false, Option, none, some, Bytes, arith,
  Option-cases, if◌then◌else◌, not, ◌&&◌,
}
use mathlib.Core.Path.{ap₂}
use an_lf.Settings.{Config}
use an_lf.Settings.Logging.{
  set_log_enable, set_log_level, set_log_report_caller, get_log_enable, get_log_level,
  get_log_report_caller, seen, step_enable, step_level, step_caller,
}

-- Where the log is written: to the standard error, nowhere, or elsewhere.
pub data LogOut : Type 0 where
  stderr discard elsewhere : LogOut

-- `logger.Log`.
pub record Log (L : Type 0) : Type 0 where
  pub out : LogOut
  pub level : L
  pub report_caller : Bool

abbrev pub is_stderr : LogOut → Bool
is_stderr stderr = true
is_stderr _ = false

abbrev pub is_discard : LogOut → Bool
is_discard discard = true
is_discard _ = false

-- The library's reading of the name of a level, and its equality of levels.
pub record Levels (L : Type 0) : Type 0 where
  pub parse : Bytes → Option L
  pub same : L → L → Bool
  pub same_iff : (a b : L) → (same a b ≡ true) ↔ (a ≡ b)

-- The level after the name of one, which may be none.
abbrev pub level_or : {L : Type 0} → L → Option L → L
level_or current none = current
level_or current (some l) = l

module _ {F L : Type 0} where
  -- `SetLogEnable`, on the configuration of the application and the log.
  unfoldable pub enable_log : Bool → Config F × Log L → Config F × Log L
  enable_log enable (c, log) =
      let target = if enable then stderr else discard in
      if (enable && is_stderr log.out)
      then (c, log)
      else if (not enable && is_discard log.out)
      then (c, log)
      else (set_log_enable c enable, record log { out = target })

  -- `SetReportCaller`.
  unfoldable pub report_caller : Bool → Config F × Log L → Config F × Log L
  report_caller caller (c, log) =
      if (if caller then log.report_caller else not log.report_caller)
      then (c, log)
      else (set_log_report_caller c caller, record log { report_caller = caller })

  enable_log_lem :
      (c : Config F) (log : Log L)
      → let (c', log') = enable_log (get_log_enable c) (c, log) in
        (seen c' ≡ seen c)
        × (log'.out ≡ (if get_log_enable c then stderr else discard))
        × (log'.level ≡ log.level)
        × (log'.report_caller ≡ log.report_caller)
  unfolding enable_log
  enable_log_lem c log = ground (arith, step_enable c (get_log_enable c))

  report_caller_lem :
      (c : Config F) (log : Log L)
      → let (c', log') = report_caller (get_log_report_caller c) (c, log) in
        (seen c' ≡ seen c)
        × (log'.out ≡ log.out)
        × (log'.level ≡ log.level)
        × (log'.report_caller ≡ get_log_report_caller c)
  unfolding report_caller
  report_caller_lem c log = ground (arith, step_caller c (get_log_report_caller c))

module _ {F L : Type 0} (levels : Levels L) where
  abbrev take_level : Bytes → Option L → Config F × Log L → Config F × Log L
  take_level level none (c, log) = (c, log)
  take_level level (some l) (c, log) =
      if levels.same l log.level
      then (c, log)
      else (set_log_level c level, record log { level = l })

  -- `SetLogLevel`: a name that is no level changes nothing.
  unfoldable pub log_level : Bytes → Config F × Log L → Config F × Log L
  log_level level s = take_level level (levels.parse level) s

  log_level_lem :
      (c : Config F) (log : Log L)
      → let (c', log') = log_level (get_log_level c) (c, log) in
        (seen c' ≡ seen c)
        × (log'.out ≡ log.out)
        × (log'.level ≡ level_or log.level (levels.parse (get_log_level c)))
        × (log'.report_caller ≡ log.report_caller)
  unfolding log_level
  log_level_lem c log = elim (Option-cases (levels.parse (get_log_level c))) [
    | inl e ↦ rw e (refl, refl, refl, refl)
    | inr (l, e) ↦
        rw e (ground (arith, step_level c (get_log_level c), levels.same_iff l log.level))
  ]

  -- The three calls of `NewApp`.
  unfoldable pub apply_log_settings : Config F → Log L → Config F × Log L
  unfolding enable_log report_caller log_level
  apply_log_settings c log =
      let s1 = enable_log (get_log_enable c) (c, log) in
      let s2 = log_level (get_log_level s1.0) s1 in report_caller (get_log_report_caller s2.0) s2

  -- After the calls of `NewApp` the log is as the configuration says: it is written to the standard
  -- error if it is enabled and nowhere otherwise, it reports callers or not, and it has the level
  -- of that name, or its own one if there is none. What the getters of the configuration return
  -- stays.
  pub apply_log_settings_lem :
      (c : Config F) (log : Log L)
      → let (c', log') = apply_log_settings c log in
        (log'.out ≡ (if get_log_enable c then stderr else discard))
        × (log'.report_caller ≡ get_log_report_caller c)
        × (log'.level ≡ level_or log.level (levels.parse (get_log_level c)))
        × (seen c' ≡ seen c)
  unfolding apply_log_settings
  apply_log_settings_lem c log =
      let s1 = enable_log (get_log_enable c) (c, log) in
      let s2 = log_level (get_log_level s1.0) s1 in
      let (e1, o1, l1, r1) = enable_log_lem c log in
      let (e2, o2, l2, r2) = log_level_lem s1.0 s1.1 in
      let (e3, o3, l3, r3) = report_caller_lem s2.0 s2.1 in
      (
        o3 ∙ o2 ∙ o1,
        r3 ∙ ap (λ v. v.2) (e2 ∙ e1),
        l3 ∙ l2 ∙ ap₂ (λ m n. level_or m (levels.parse n)) l1 (ap (λ v. v.1) e1),
        e3 ∙ e2 ∙ e1,
      )
