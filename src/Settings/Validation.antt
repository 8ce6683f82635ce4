-- ===== src/Settings/Validation.antt =====
-- pkg/factory/config.go and pkg/factory/factory.go: the validation of a configuration, and how it
-- is read. The library govalidator, the file and YAML are parameters.
pub mod Laws
use an_lf.Base.{
  ℕ, zero, suc, ◌≡◌, refl, ◌↔◌, ◌∙◌, ap, Bool, true, false, ◌||◌, Option, none, some, List, [], ◌∷◌,
  ◌++◌, Bytes, bytes, bytes_eq, All, map, arith, if◌then◌else◌, Bool-cases, Option-cases,
}
use an_lf.Settings.{Config, Configuration, Sbi, Cert}

-- `govalidator.ValidateStruct` on each type: its result, and its errors if there are any.
pub record Validator (F : Type 0) : Type 0 where
  pub of_config : Config F → Bool × Option (List Bytes)
  pub of_configuration : Configuration F → Bool × Option (List Bytes)
  pub of_sbi : Sbi → Bool × Option (List Bytes)
  pub of_cert : Cert → Bool × Option (List Bytes)

-- An error is of the type `govalidator.Errors`, or made by `errors.New` for a name of a service.
pub data ConfigError : Type 0 where
  invalid_fields : List Bytes → ConfigError
  invalid_service_name : ℕ → Bytes → ConfigError

-- `appendInvalid` names each error.
abbrev pub append_invalid : Option (List Bytes) → Option ConfigError
append_invalid none = none
append_invalid (some es) = some (invalid_fields (map (λ e. bytes "Invalid " ++ e) es))

abbrev pub as_errors : Option (List Bytes) → Option ConfigError
as_errors none = none
as_errors (some es) = some (invalid_fields es)

-- A step that returns early with an error.
abbrev pub unless_failed :
    Bool × Option ConfigError → Bool × Option ConfigError → Bool × Option ConfigError
unless_failed (result, none) next = next
unless_failed (result, some e) next = (result, some e)

abbrev pub is_service_name : Bytes → Bool
is_service_name name =
    bytes_eq name (bytes "nnwdaf-analyticsinfo")
    || bytes_eq name (bytes "nnwdaf-eventssubscription")

-- The loop over the names, from an index on.
pub validate_names : ℕ → List Bytes → Option ConfigError
validate_names i [] = none
validate_names i (name ∷ names) =
    let rest = validate_names (suc i) names in
    if is_service_name name then rest else some (invalid_service_name i name)

module _ {F : Type 0} (v : Validator F) where
  pub validate_cert : Cert → Bool × Option ConfigError
  validate_cert t = ((v.of_cert t).0, as_errors (v.of_cert t).1)

  abbrev pub optional_cert : Option Cert → Bool × Option ConfigError
  unfolding validate_cert
  optional_cert none = (true, none)
  optional_cert (some t) = validate_cert t

  unfoldable pub validate_sbi : Sbi → Bool × Option ConfigError
  unfolding optional_cert validate_cert
  validate_sbi s =
      unless_failed (optional_cert s.cert) ((v.of_sbi s).0, append_invalid (v.of_sbi s).1)

  abbrev pub optional_sbi : Option Sbi → Bool × Option ConfigError
  optional_sbi none = (true, none)
  optional_sbi (some s) = validate_sbi s

  pub validate_configuration : Configuration F → Bool × Option ConfigError
  validate_configuration c = unless_failed (optional_sbi c.sbi) (
      unless_failed (false, validate_names 0 c.service_name_list)
        ((v.of_configuration c).0, append_invalid (v.of_configuration c).1))

  abbrev optional_configuration : Option (Configuration F) → Bool × Option ConfigError
  optional_configuration none = (true, none)
  optional_configuration (some c) = validate_configuration c

  -- `Validate`.
  pub validate : Config F → Bool × Option ConfigError
  validate c =
      unless_failed (optional_configuration c.configuration)
        ((v.of_config c).0, append_invalid (v.of_config c).1)

  -- What `ReadConfig` does: it returns a configuration or an error, or it panics.
  pub data Reading : Type 0 where
    loaded : Config F → Reading
    unreadable : Reading
    rejected : List Bytes → Reading
    panics : Reading

  abbrev pub reading_of : Config F → Option ConfigError → Reading
  reading_of c none = loaded c
  reading_of c (some (invalid_fields es)) = rejected es
  reading_of c (some (invalid_service_name i name)) = panics

  -- `ReadConfig`, on what reading the file and YAML give. It takes every error for one of the type
  -- `govalidator.Errors`, and panics at any other.
  unfoldable pub read_config : Option (Config F) → Reading
  unfolding validate validate_configuration
  read_config none = unreadable
  read_config (some c) = reading_of c (validate c).1
