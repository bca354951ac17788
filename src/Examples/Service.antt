-- ===== src/Examples/Service.antt =====
-- The service as a whole at concrete inputs.
use Prim.Native.String.{String}
use text.Mathlib.Text.{◌==◌ as str_eq}
use nightshift_opi.Prelude.{
  ℕ, ◌≤◌, ◌≡◌, refl, true, false, none, some, [], ◌∷◌, if◌then◌else◌, Result, Error, ok, err, ◌⊎◌,
}
use nightshift_opi.Prelude.Int.{ℤ, pos}
use nightshift_opi.Uart.Session.Invariant.{IsValid}
use nightshift_opi.Services.Orchestrator.Invariant.{Inv}
use nightshift_opi.Mqtt.Topics
use nightshift_opi.Mqtt.Topics.{TopicBuilder}
use nightshift_opi.Persistence.{Disk, new_file}
use nightshift_opi.Persistence.Recovery.{complete, cut_offs, IsUsable, Refuses}
use nightshift_opi.Config.{
  Environ, AppConfig, load_config, from_env, getenv, is_true, rstrip_slash, strip_cons,
  adapter_config, client_connection, adapter_connection,
}
use nightshift_opi.Config.Broker.{SharesBroker, load_config-SharesBroker}
use nightshift_opi.System.Boot.{main, main_comes_up}
use nightshift_opi.System.World.{Outside, World, Reaches, here, after, frame, tick, command, start}
use nightshift_opi.System.World.Reachable.{reachable-Inv}
use nightshift_opi.Examples.Desk.{quiet, quiet-Relies, one_open, one_row-IsValid, heartbeat_bytes}
use nightshift_opi.Examples.Desk
use nightshift_opi.Examples.Orders.{decode, loads, order_bytes, at_1200, no_hash}
use nightshift_opi.Examples.Sensor

abbrev outside : Outside
outside = record {
  env = quiet;
  sha256_hex = Desk.no_hash;
  hash_json = no_hash;
  decode = decode;
  loads = loads;
  loads_bytes = Sensor.loads;
  base_topic = "sensor";
}

abbrev topics : TopicBuilder
topics = record { root = "home/opi/one" }

abbrev begun : World
begun = start 7 (some one_open) 3000 10000 0 topics "pressure-01"

-- A frame and a command that confirms the task, and a tick behind them.
abbrev morning : (w : World) × Reaches outside begun w
morning =
    (_, after _ _ (after begun _ here (frame 1 2 3 heartbeat_bytes)) (command order_bytes at_1200))

abbrev noon : (u : World) × Reaches outside morning.0 u
noon = (_, after morning.0 _ here (tick 5))

reachable-Inv_example :
    Inv morning.0.gateway.app
    × IsValid morning.0.gateway.session
    × (morning.0.gateway.app.state.revision ≤ noon.0.gateway.app.state.revision)
reachable-Inv_example =
    reachable-Inv outside quiet-Relies 7 (some one_open) 3000 10000 0 topics "pressure-01" morning.0
      noon.0 one_row-IsValid morning.1 noon.1

-- An environment that only enables MQTT, and a parser of numbers that knows one.
abbrev environ : Environ
environ name = if str_eq name "NIGHTSHIFT_MQTT_ENABLED" then some "True" else none

abbrev int_of : String → Result ℤ
int_of s = ok (pos 30)

abbrev float_of : String → Result ℕ
float_of s = ok 2

abbrev loaded : AppConfig ℕ
loaded = record {
  node_id = "opi3b01";
  pressure = record { client_id = "pressure-01"; stale_ms = pos 30; dwell_ms = pos 30 };
  uart = record { device = "/dev/ttyS3"; baudrate = pos 30; heartbeat_seconds = 2 };
  mqtt = record {
    enabled = true;
    host = "127.0.0.1";
    port = pos 30;
    username = "";
    password = "";
    node_id = "opi3b01";
    base_topic = "nightshift/v1";
    keepalive = pos 30;
    tls_enabled = false;
    ca_file = "";
  };
}

loaded_eq : load_config int_of environ float_of ≡ ok loaded
unfolding load_config from_env getenv is_true rstrip_slash strip_cons
loaded_eq = refl

load_config-SharesBroker_example :
    ((t : TopicBuilder) × (Topics.init "nightshift/v1" "opi3b01" ≡ ok t)
      × (t.root ≡ "nightshift/v1/opi/opi3b01"))
    × SharesBroker
        (client_connection loaded.mqtt)
        (adapter_connection (adapter_config loaded))
        loaded.mqtt
load_config-SharesBroker_example = load_config-SharesBroker int_of float_of environ loaded loaded_eq

-- Two starts were cut off, after two and after four statements. The directory of the file is gone.
abbrev disks : String → Disk
disks path = record {
  has_parent = false;
  creates = ok tt;
  connects = ok tt;
  pragmas = ok tt;
  file = cut_offs (2 ∷ 4 ∷ []) new_file;
}

main_comes_up_example :
    let d = disks "/var/lib/nightshift/nightshift.db" in
    (IsUsable d
      × ((t : TopicBuilder) × (main int_of float_of environ disks
            ≡ ok (record {
              config = loaded;
              db = record {
                disk = record d { has_parent = true; file = complete };
                is_open = true;
              };
              adapter = some (adapter_config loaded);
              topics = some t;
            }))))
    ⊎ ((e : Error) × Refuses d e × (main int_of float_of environ disks ≡ err e))
main_comes_up_example =
    main_comes_up int_of float_of environ disks (2 ∷ 4 ∷ []) loaded loaded_eq refl
