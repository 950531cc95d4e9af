-- ===== src/Tests/Options.antt =====
-- Command lines and lighthouses.
use nebula_mnemosina.Prelude.{
  true, false, List, [], ◌∷◌, ◌++◌, map, some, arith, ◌≡◌, ◌≢◌, ◌↔◌, refl,
}
use nebula_mnemosina.Prelude.Int.{pos}
use nebula_mnemosina.Text.{
  Text, codes, cut, trim_space, cut_last, has_byte, elem, text_eq, trim_brackets, is_space,
  has_prefix,
}
use nebula_mnemosina.Errors.{Result, ok}
use nebula_mnemosina.Net.{split_host_port, join_host_port, open_bracket}
use nebula_mnemosina.Model.{Lighthouse, target}
use nebula_mnemosina.Config.{finite, Cli, Config, PrometheusSdConfig, RetentionConfig}
use nebula_mnemosina.Config.Lighthouses.{
  parse_lighthouses, parse_entry, name_and_target, split_host_port_default,
}
use nebula_mnemosina.Config.Lighthouses.Spec.{entries, NodupNames, parse_lighthouses_iff}
use nebula_mnemosina.Config.Lighthouses.RoundTrip.{
  IsWritable, print_lighthouse, parse_lighthouses-print,
}
use nebula_mnemosina.Config.Lighthouses.Address.{parse_entry_stray_bracket}
use nebula_mnemosina.Config.Validate.{
  validate_prometheus_sd, validate_retention, require_key, validate_ratio,
}
use nebula_mnemosina.Config.Parse.{parse, apply_debug, IsAccepted, parse_iff}

abbrev two_values : List Text
two_values = codes "west = nebula@10.0.0.1" ∷ codes "ops@[::1]:22" ∷ []

abbrev pub west : Lighthouse
west = record { name = codes "west"; user = codes "nebula"; address = codes "10.0.0.1:4222" }

abbrev loopback : Lighthouse
loopback = record { name = codes "::1"; user = codes "ops"; address = codes "[::1]:22" }

abbrev pub two_lighthouses : List Lighthouse
two_lighthouses = west ∷ loopback ∷ []

two_values_parsed : parse_lighthouses two_values ≡ ok two_lighthouses
unfolding parse_lighthouses trim_space parse_entry cut split_host_port_default split_host_port
    cut_last has_byte elem text_eq trim_brackets join_host_port
two_values_parsed = refl

parse_lighthouses_iff_example : (parse_lighthouses two_values ≡ ok two_lighthouses) ↔ (
    (entries two_values ≡ ok two_lighthouses) × (two_lighthouses ≢ []) × NodupNames two_lighthouses)
parse_lighthouses_iff_example = parse_lighthouses_iff two_values two_lighthouses

west-IsWritable : IsWritable west
unfolding join_host_port has_byte is_space target
west-IsWritable = record {
  host = codes "10.0.0.1";
  port = codes "4222";
  host_ok = omega arith;
  port_ok = omega arith;
  address_eq = refl;
  name_full = refl;
  user_full = refl;
  name_lacks = omega arith;
  user_lacks = omega arith;
  name_keeps = ground arith;
  target_keeps = ground arith;
}

parse_lighthouses-print_example :
    parse_lighthouses (map print_lighthouse (west ∷ [])) ≡ ok (west ∷ [])
parse_lighthouses-print_example =
    parse_lighthouses-print (west ∷ []) (λ h. ground arith) (tt, tt) (west-IsWritable, tt)

abbrev west_value : Text
west_value = codes "west = nebula@10.0.0.1"

west_cut : cut b'@' (name_and_target west_value).1 ≡ some (codes "nebula", codes "10.0.0.1")
unfolding name_and_target trim_space cut
west_cut = refl

west_parsed : parse_entry west_value ≡ ok west
unfolding trim_space parse_entry cut split_host_port_default split_host_port cut_last has_byte elem
    text_eq trim_brackets join_host_port
west_parsed = refl

parse_entry_stray_bracket_example :
    (l : Lighthouse) × (parse_entry (codes "user" ++ b'@' ∷ open_bracket ∷ codes "s") ≡ ok l)
    × ((x : Text × Text) → split_host_port l.address ≢ ok x)
parse_entry_stray_bracket_example =
    parse_entry_stray_bracket (codes "user") (codes "s") refl (omega arith) (omega arith)
      (omega arith) (omega arith)

abbrev pub scraping : PrometheusSdConfig
scraping = record { port = pos 9100; metrics_path = codes "/metrics" }

abbrev keeping : RetentionConfig
keeping = record { period = pos 720; raw_period = pos 0; interval = pos 1 }

abbrev cli : Cli
cli = record {
  database_url = codes "postgres://db";
  database_enable_timescale = false;
  migrate = false;
  refresh_views = true;
  data_dir = codes "data";
  lighthouses = two_values;
  poll_interval = pos 60;
  poll_timeout = pos 10;
  poll_jitter = pos 0;
  once = false;
  debug = true;
  log_level = codes "info";
  ssh = record {
    key_file = codes "id";
    private_key = [];
    key_passphrase = [];
    known_hosts_path = [];
    host_key_mode = codes "strict";
    timeout = pos 5;
  };
  http = record { enabled = true; address = codes ":9090" };
  otel = record {
    enabled = false;
    service_name = [];
    endpoint = [];
    sample_ratio = finite false 1 1;
  };
  prometheus_sd = scraping;
  retention = keeping;
}

abbrev kong : List Text → Result Cli
kong args = ok cli

abbrev pub config : Config
config = record {
  cli = record cli { log_level = codes "debug" };
  lighthouse_targets = two_lighthouses;
}

config_parsed : parse kong [] ≡ ok config
unfolding parse parse_lighthouses validate_prometheus_sd validate_retention require_key
    validate_ratio has_prefix trim_space parse_entry cut split_host_port_default split_host_port
    cut_last has_byte elem text_eq trim_brackets join_host_port
config_parsed = refl

parse_iff_example :
    (parse kong [] ≡ ok config)
    ↔ ((c : Cli) × (kong [] ≡ ok c) × (config.cli ≡ apply_debug c) × IsAccepted config)
parse_iff_example = parse_iff kong [] config
