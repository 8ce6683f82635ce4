-- ===== src/Settings/Validation/Laws.antt =====
-- Which configurations pkg/factory reads.
use an_lf.Base.{
  ℕ, suc, ◌≡◌, refl, inl, inr, ◌↔◌, ap, sym, subst, true, false, Option, none, some, List, [], ◌∷◌,
  ◌++◌, Bytes, All, arith, Bool-cases, Option-cases,
}
use an_lf.Settings.{Config, Configuration, Sbi}
use an_lf.Settings.Validation.{
  Validator, ConfigError, invalid_fields, invalid_service_name, is_service_name, validate_names,
  validate_cert, optional_cert, validate_sbi, optional_sbi, validate_configuration, validate,
  loaded, panics, reading_of, read_config,
}

abbrev pub IfPresent {ℓ κ} : {A : Type ℓ} → (A → Type κ) → Option A → Type κ
IfPresent P none = Unit
IfPresent P (some a) = P a

validate_names-All :
    (i : ℕ) (names : List Bytes)
    → (validate_names i names ≡ none) ↔ All (λ n. is_service_name n ≡ true) names
unfolding validate_names
validate_names-All i [] = (λ _. tt, λ _. refl)
validate_names-All i (n ∷ names) = elim (Bool-cases (is_service_name n)) [
  | inl h ↦ rw h (
    (λ e. (refl, (validate_names-All (suc i) names).0 e)),
    λ a. (validate_names-All (suc i) names).1 a.1,
  )
  | inr h ↦ rw h ((λ e. cc), λ a. cc)
]

validate_names_bad :
    (i : ℕ) (front rest : List Bytes) (bad : Bytes)
    → All (λ n. is_service_name n ≡ true) front
    → is_service_name bad ≡ false
    → (j : ℕ) × (validate_names i (front ++ bad ∷ rest) ≡ some (invalid_service_name j bad))
unfolding validate_names
validate_names_bad i [] rest bad h b = (i, rw b refl)
validate_names_bad i (n ∷ front) rest bad h b =
    rw h.0 (validate_names_bad (suc i) front rest bad h.1 b)

module _ {F : Type 0} (v : Validator F) where
  abbrev pub AcceptedSbi : Sbi → Type 0
  AcceptedSbi s = ((v.of_sbi s).1 ≡ none) × IfPresent (λ t. (v.of_cert t).1 ≡ none) s.cert

  -- The library finds no error in any section, and every name is one of the two services.
  abbrev pub Accepted : Config F → Type 0
  Accepted c =
      ((v.of_config c).1 ≡ none)
      × IfPresent
          (λ k.
            ((v.of_configuration k).1 ≡ none)
            × All (λ n. is_service_name n ≡ true) k.service_name_list
            × IfPresent AcceptedSbi k.sbi)
          c.configuration

  validate_sbi-Accepted : (s : Sbi) → ((validate_sbi v s).1 ≡ none) ↔ AcceptedSbi s
  unfolding validate_sbi optional_cert validate_cert
  validate_sbi-Accepted s = elim (Option-cases s.cert) [
    | inl e ↦ rw e (ground arith)
    | inr (t, e) ↦ rw e (ground arith)
  ]

  validate_configuration-Accepted :
      (k : Configuration F)
      → ((validate_configuration v k).1 ≡ none) ↔ (
          ((v.of_configuration k).1 ≡ none)
          × All (λ n. is_service_name n ≡ true) k.service_name_list
          × IfPresent AcceptedSbi k.sbi)
  unfolding validate_configuration
  validate_configuration-Accepted k = elim (Option-cases k.sbi) [
    | inl e ↦ rw e (ground (arith, validate_names-All 0 k.service_name_list))
    | inr (s, e) ↦
        rw e (ground (arith, validate_names-All 0 k.service_name_list, validate_sbi-Accepted s))
  ]

  validate-Accepted : (c : Config F) → ((validate v c).1 ≡ none) ↔ Accepted c
  unfolding validate
  validate-Accepted c = elim (Option-cases c.configuration) [
    | inl e ↦ rw e (ground arith)
    | inr (k, e) ↦ rw e (ground (arith, validate_configuration-Accepted k))
  ]

  reading_loaded :
      (c d : Config F) (e : Option ConfigError)
      → (reading_of v c e ≡ loaded d) ↔ ((e ≡ none) × (c ≡ d))
  reading_loaded c d none = ground arith
  reading_loaded c d (some (invalid_fields es)) = ground arith
  reading_loaded c d (some (invalid_service_name i n)) = ground arith

  -- `ReadConfig` returns a configuration exactly when the file has it, the library finds no error
  -- in any of its sections, and every name in its list is one of the two services of an ANLF.
  pub read_config_loaded :
      (file : Option (Config F)) (c : Config F)
      → (read_config v file ≡ loaded c) ↔ ((file ≡ some c) × Accepted c)
  unfolding read_config
  read_config_loaded none c = ground arith
  read_config_loaded (some d) c = (
    (λ h.
        let (e, q) = (reading_loaded d c (validate v d).1).0 h in
        (ap some q, subst Accepted q ((validate-Accepted d).0 e))),
    (λ h.
        let q : d ≡ c = cc h.0 in
        (reading_loaded d c (validate v d).1).1
          ((validate-Accepted d).1 (subst Accepted (sym q) h.1), q)),
  )

  optional_sbi-Accepted : (o : Option Sbi) → IfPresent AcceptedSbi o → (optional_sbi v o).1 ≡ none
  optional_sbi-Accepted none h = refl
  optional_sbi-Accepted (some s) h = (validate_sbi-Accepted s).1 h

  -- A file with the name of another service is never reported as such: if the section Sbi is
  -- accepted, `ReadConfig` panics.
  pub read_config_panics :
      (c : Config F) (k : Configuration F) (front rest : List Bytes) (bad : Bytes)
      → c.configuration ≡ some k
      → k.service_name_list ≡ front ++ bad ∷ rest
      → All (λ n. is_service_name n ≡ true) front
      → is_service_name bad ≡ false
      → IfPresent AcceptedSbi k.sbi
      → read_config v (some c) ≡ panics
  unfolding read_config validate validate_configuration
  read_config_panics c k front rest bad e n h b s =
      let (j, q) = validate_names_bad 0 front rest bad h b in
      let found : validate_names 0 k.service_name_list ≡ some (invalid_service_name j bad) =
        rw n q in
      ground (arith, e, found, optional_sbi-Accepted k.sbi s)
