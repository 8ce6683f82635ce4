-- ===== src/Tests/Startup.antt =====
-- Runs of the configuration, the registration and the application.
use an_lf.Base.{
  ℕ, ◌≡◌, ◌<◌, ◌≢◌, ◌↔◌, ◌⊎◌, refl, true, false, Option, none, some, [], ◌∷◌, Bytes, bytes,
  bytes_eq, zero, suc,
}
use an_lf.Base.Int.{pos, negsuc}
use an_lf.Settings.{Config, Configuration}
use an_lf.Settings.Validation.{Validator, loaded, panics, read_config}
use an_lf.Settings.Validation.Laws.{Accepted, read_config_loaded, read_config_panics}
use an_lf.NfContext.{AnlfContext}
use an_lf.Nrf.{NnrfService, Attempt, Reply, sent, not_registered}
use an_lf.Nrf.Uri.{after_last_slash}
use an_lf.Server.{run, stop}
use an_lf.Server.Laws.{run_cases}
use an_lf.Server.Stopping.{Registers, run-stop}
use an_lf.Nrf.Laws.{client_for}
use an_lf.Service.{Made}

-- An SMF with a negative interval, no section for the monitor, and no log settings.
abbrev sparse : Configuration ℕ
sparse = record {
  nf_name = bytes "ANLF";
  sbi = some (record {
    scheme = bytes "http";
    binding_ipv4 = bytes "127.0.0.1";
    register_ipv4 = bytes "127.0.0.1";
    port = pos 8000;
    cert = none;
  });
  service_name_list = bytes "nnwdaf-analyticsinfo" ∷ [];
  nrf_uri = bytes "http://n";
  nrf_cert_pem = [];
  recording = some (record { enable = true; output_dir = bytes "out" });
  ebpf = some (record { enable = true; interface = [] });
  monitoring = some (record { enable = true; poll_interval = pos 0; ue_table_path = [] });
  smf = some (record { url = []; poll_interval = negsuc 2 });
  anomaly_detection = none;
}

abbrev config : Config ℕ
config = record { info = none; configuration = some sparse; logger = none }

-- A library that finds no errors.
abbrev content : Validator ℕ
content = record {
  of_config = λ _. (true, none);
  of_configuration = λ _. (true, none);
  of_sbi = λ _. (true, none);
  of_cert = λ _. (true, none);
}

read_config_loaded_example :
    (read_config content (some config) ≡ loaded config)
    ↔ ((some config ≡ some config) × Accepted content config)
read_config_loaded_example = read_config_loaded content (some config) config

abbrev misspelt : Configuration ℕ
misspelt = record sparse { service_name_list = bytes "nnwdaf-analyticsinfo" ∷ bytes "nnwdaf" ∷ [] }

read_config_panics_example :
    read_config content (some (record config { configuration = some misspelt })) ≡ panics
unfolding bytes_eq
read_config_panics_example =
    read_config_panics content (record config { configuration = some misspelt }) misspelt
      (bytes "nnwdaf-analyticsinfo" ∷ []) [] (bytes "nnwdaf") refl refl (refl, tt) refl (refl, tt)

abbrev context : AnlfContext
context = record {
  nf_id = bytes "uuid";
  nf_profile = none;
  name = bytes "ANLF";
  uri_scheme = bytes "http";
  binding_ipv4 = bytes "127.0.0.1";
  register_ipv4 = bytes "127.0.0.1";
  sbi_port = pos 8000;
  nf_service = [];
  nrf_uri = bytes "http://n";
  nrf_cert_pem = [];
  is_registered = false;
  oauth2_required = false;
  enable_recording = false;
  recording_output = [];
}

abbrev service : NnrfService Bytes
service = record { context = context; nf_mngmnt_clients = [] }

-- The first request fails, and the second one is replied to with a location.
abbrev world : Bytes → ℕ → Attempt
world k zero = record { cancelled = false; answer = none }
world k (suc i) = record {
  cancelled = false;
  answer =
      some
        (record { location = bytes "http://n/nnrf-nfm/v1/nf-instances/id7"; oauth2 = some true });
}

run_cases_example :
    let c = (run (λ uri. uri) [] world service).0.context in
    ((k : Bytes) × (i : ℕ) × (r : Reply) × (i < 3)
      × ((world k i).answer ≡ some r)
      × (r.location ≢ [])
      × (c.is_registered ≡ true)
      × (c.nf_id ≡ after_last_slash r.location))
    ⊎ ((c.is_registered ≡ false) × (c.nf_id ≡ []))
run_cases_example = run_cases (λ uri. uri) [] world service b'h' (bytes "ttp://n") refl refl

abbrev no_token : Bytes → Bytes → Option ℕ
no_token _ _ = none

abbrev gone : Bytes → Bytes → Option ℕ
gone _ _ = some 404

run-stop_example :
    let sends =
      (stop (λ uri. uri) no_token gone none none (run (λ uri. uri) [] world service).0).1 in
    let k = client_for (λ uri. uri) service (bytes "http://n") in
    ((i : ℕ) × (r : Reply) × Registers (world k) i r
      × (sends ≡ sent (after_last_slash r.location) (gone k (after_last_slash r.location))))
    ⊎ (((i : ℕ) (r : Reply) → Registers (world k) i r → ⊥) × (sends ≡ not_registered))
run-stop_example =
    run-stop (λ uri. uri) [] world service b'h' (bytes "ttp://n") no_token gone none none refl refl
      (λ _ _. refl)

abbrev made : Made
made = record { ebpf = true; server = true; csv_exporter = true; inference_exporter = false }
