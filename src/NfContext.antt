-- ===== src/NfContext.antt =====
-- internal/context/context.go: what the ANLF knows about itself, and the profile that it sends to
-- the NRF. The identifier that the uuid package makes, the environment, and the order in which a Go
-- map is read are parameters.
pub mod Laws
use an_lf.Base.{
  ℕ, zero, suc, Bool, false, Option, none, some, List, [], ◌∷◌, ◌++◌, Bytes, bytes, Dict, insert,
  map, ◌==◌, if◌then◌else◌,
}
use an_lf.Base.Int.{ℤ, int32}
use an_lf.Base.Decimal.{format_nat, format_int}
use an_lf.Settings.{Configuration, Config, Sbi, Recording}
use an_lf.Settings.Getters.{text_or}

-- The fields that the code fills in of the types of the openapi library.
pub record NfServiceVersion : Type 0 where
  pub api_full_version : Bytes
  pub api_version_in_uri : Bytes

pub record IpEndPoint : Type 0 where
  pub ipv4_address : Bytes
  pub transport : Bytes
  pub port : ℤ

pub record NfService : Type 0 where
  pub service_instance_id : Bytes
  pub service_name : Bytes
  pub versions : List NfServiceVersion
  pub scheme : Bytes
  pub nf_service_status : Bytes
  pub api_prefix : Bytes
  pub ip_end_points : List IpEndPoint

pub record NfProfile : Type 0 where
  pub nf_instance_id : Bytes
  pub nf_type : Bytes
  pub nf_status : Bytes
  pub ipv4_addresses : List Bytes
  pub nf_services : List NfService
  pub nwdaf_events : List Bytes

pub record AnlfContext : Type 0 where
  pub nf_id : Bytes
  pub nf_profile : Option NfProfile
  pub name : Bytes
  pub uri_scheme : Bytes
  pub binding_ipv4 : Bytes
  pub register_ipv4 : Bytes
  pub sbi_port : ℤ
  pub nf_service : Dict NfService
  pub nrf_uri : Bytes
  pub nrf_cert_pem : Bytes
  pub is_registered : Bool
  pub oauth2_required : Bool
  pub enable_recording : Bool
  pub recording_output : Bytes

-- `GetIPv4Uri`.
unfoldable pub get_ipv4_uri : AnlfContext → Bytes
get_ipv4_uri c =
    c.uri_scheme ++ bytes "://" ++ c.register_ipv4 ++ bytes ":" ++ format_int c.sbi_port

-- `strings.Split(version, ".")[0]`.
pub before_dot : Bytes → Bytes
before_dot [] = []
before_dot (c ∷ s) = let rest = before_dot s in if c == b'.' then [] else c ∷ rest

-- An entry of the map of services.
unfoldable pub nf_service_entry : AnlfContext → ℕ → Bytes → Bytes → NfService
unfolding get_ipv4_uri before_dot
nf_service_entry c i name version = record {
  service_instance_id = format_nat i;
  service_name = name;
  versions =
      record { api_full_version = version; api_version_in_uri = bytes "v" ++ before_dot version }
      ∷ [];
  scheme = c.uri_scheme;
  nf_service_status = bytes "REGISTERED";
  api_prefix = get_ipv4_uri c;
  ip_end_points =
      record { ipv4_address = c.register_ipv4; transport = bytes "TCP"; port = int32 c.sbi_port }
      ∷ [];
}

-- The loop of `initNfService`, from an index on.
unfoldable pub add_services : AnlfContext → ℕ → List Bytes → Bytes → Dict NfService → Dict NfService
unfolding nf_service_entry
add_services c i [] version services = services
add_services c i (name ∷ names) version services =
    add_services c (suc i) names version (insert name (nf_service_entry c i name version) services)

unfoldable pub init_nf_service : AnlfContext → List Bytes → Bytes → Dict NfService
unfolding add_services
init_nf_service c names version = add_services c 0 names version []

abbrev pub recording_enable : Option Recording → Bool
recording_enable none = false
recording_enable (some r) = r.enable

abbrev pub recording_dir : Option Recording → Bytes
recording_dir none = []
recording_dir (some r) = r.output_dir

-- The variable of the environment that the address names, the address, or all interfaces.
abbrev pub bind_address : (Bytes → Bytes) → Bytes → Bytes
bind_address env address = text_or (text_or (bytes "0.0.0.0") address) (env address)

module _ {F : Type 0} where
  -- The context before its services are filled in.
  abbrev pub bare_context : Bytes → (Bytes → Bytes) → Configuration F → Sbi → AnlfContext
  bare_context uuid env k s = record {
    nf_id = uuid;
    nf_profile = none;
    name = bytes "ANLF";
    uri_scheme = s.scheme;
    binding_ipv4 = bind_address env s.binding_ipv4;
    register_ipv4 = s.register_ipv4;
    sbi_port = s.port;
    nf_service = [];
    nrf_uri = text_or (s.scheme ++ bytes "://127.0.0.1:29510") k.nrf_uri;
    nrf_cert_pem = k.nrf_cert_pem;
    is_registered = false;
    oauth2_required = false;
    enable_recording = recording_enable k.recording;
    recording_output = recording_dir k.recording;
  }

  pub with_services : Configuration F → AnlfContext → AnlfContext
  unfolding init_nf_service
  with_services k c = record c {
    nf_service = init_nf_service c k.service_name_list (bytes "1.0.0");
  }

  abbrev of_configuration : Bytes → (Bytes → Bytes) → Option (Configuration F) → Option AnlfContext
  unfolding with_services
  of_configuration uuid env none = none
  of_configuration uuid env (some k) = elim k.sbi [
    | none ↦ none
    | some s ↦ some (with_services k (bare_context uuid env k s))
  ]

  -- `InitNfContext`, when the program starts; `none` is a panic at a section that is nil.
  unfoldable pub init_nf_context : Bytes → (Bytes → Bytes) → Config F → Option AnlfContext
  unfolding of_configuration with_services
  init_nf_context uuid env c = of_configuration uuid env c.configuration

-- `BuildNfProfile`; `services` is what reading the map gives.
unfoldable pub build_nf_profile : List NfService → AnlfContext → AnlfContext
build_nf_profile services c = record c {
  nf_profile = some (record {
    nf_instance_id = c.nf_id;
    nf_type = bytes "NWDAF";
    nf_status = bytes "REGISTERED";
    ipv4_addresses = c.register_ipv4 ∷ [];
    nf_services = services;
    nwdaf_events = bytes "NF_LOAD" ∷ [];
  });
}
