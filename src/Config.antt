-- ===== src/Config.antt =====
-- The configuration (nightshift/config.py and nightshift/integrations/mqtt/config.py), and the
-- connections to the broker that apps/backend/main.py and the two MQTT clients make from it.
pub mod Broker
use Prim.Native.Char.{Char, code}
use Prim.Native.String.{String, [], ◌∷◌, ◌++◌}
use nightshift_opi.Prelude.{
  ℕ, ◌+◌, Bool, true, false, ◌&&◌, ◌||◌, ◌==◌, Option, none, some, if◌then◌else◌, Result, ok, err,
  ◌>>=◌,
}
use nightshift_opi.Prelude.Int.{ℤ}

-- The environment of the process, after `load_dotenv`.
abbrev pub Environ : Type 0
Environ = String → Option String

-- `os.getenv(name, default)`
unfoldable pub getenv : Environ → String → String → String
getenv environ name default = elim (environ name) [ none ↦ default | some value ↦ value ]

-- `c.lower()` is the letter with this code.
abbrev pub is_letter : ℕ → ℕ → Bool
is_letter c letter = c == letter || c + 32 == letter

-- `value.lower() == "true"`. Only the letters T, R, U and E have those as lower case.
unfoldable pub is_true : String → Bool
is_true (t ∷ r ∷ u ∷ e ∷ []) =
    is_letter (code t) 116
    && is_letter (code r) 114
    && is_letter (code u) 117
    && is_letter (code e) 101
is_true value = false

-- A character before what is left of the rest: a slash is stripped if nothing is left.
unfoldable pub strip_cons : Char → String → String
strip_cons c [] = if code c == 47 then [] else c ∷ []
strip_cons c (d ∷ rest) = c ∷ d ∷ rest

-- `value.rstrip("/")`
unfoldable pub rstrip_slash : String → String
rstrip_slash [] = []
rstrip_slash (c ∷ rest) = strip_cons c (rstrip_slash rest)

pub record PressureConfig : Type 0 where
  pub client_id : String
  pub stale_ms : ℤ
  pub dwell_ms : ℤ

-- The fields that `load_config` sets; the others keep their defaults.
pub record UartConfig (Float : Type 0) : Type 0 where
  pub device : String
  pub baudrate : ℤ
  pub heartbeat_seconds : Float

pub record MqttConfig : Type 0 where
  pub enabled : Bool
  pub host : String
  pub port : ℤ
  pub username : String
  pub password : String
  pub node_id : String
  pub base_topic : String
  pub keepalive : ℤ
  pub tls_enabled : Bool
  pub ca_file : String

pub record AppConfig (Float : Type 0) : Type 0 where
  pub node_id : String
  pub pressure : PressureConfig
  pub uart : UartConfig Float
  pub mqtt : MqttConfig

-- `int_of` and `float_of` are `int` and `float` on a string; both raise a ValueError on one that
-- they do not take.
module _ (int_of : String → Result ℤ) (environ : Environ) where
  abbrev env : String → String → String
  env = getenv environ

  unfoldable pub from_env : String → Result MqttConfig
  from_env node_id = do
    port ← int_of (env "NIGHTSHIFT_MQTT_PORT" "1883")
    keepalive ← int_of (env "NIGHTSHIFT_MQTT_KEEPALIVE" "30")
    ok (record {
      enabled = is_true (env "NIGHTSHIFT_MQTT_ENABLED" "false");
      host = env "NIGHTSHIFT_MQTT_HOST" "127.0.0.1";
      port = port;
      username = env "NIGHTSHIFT_MQTT_USERNAME" "";
      password = env "NIGHTSHIFT_MQTT_PASSWORD" "";
      node_id = env "NIGHTSHIFT_MQTT_NODE_ID" node_id;
      base_topic = rstrip_slash (env "NIGHTSHIFT_MQTT_BASE_TOPIC" "nightshift/v1");
      keepalive = keepalive;
      tls_enabled = is_true (env "NIGHTSHIFT_MQTT_TLS_ENABLED" "false");
      ca_file = env "NIGHTSHIFT_MQTT_CA_FILE" "";
    })

  unfoldable pub load_config : {Float : Type 0} → (String → Result Float) → Result (AppConfig Float)
  load_config float_of = do
    let node_id = env "NIGHTSHIFT_NODE_ID" "opi3b01"
    stale_ms ← int_of (env "NIGHTSHIFT_PRESSURE_STALE_MS" "10000")
    dwell_ms ← int_of (env "NIGHTSHIFT_PRESSURE_DWELL_MS" "3000")
    baudrate ← int_of (env "NIGHTSHIFT_UART_BAUDRATE" "460800")
    heartbeat_seconds ← float_of (env "NIGHTSHIFT_UART_HEARTBEAT_SECONDS" "2.0")
    mqtt ← from_env node_id
    ok (record {
      node_id = node_id;
      pressure = record {
        client_id = env "NIGHTSHIFT_PRESSURE_CLIENT_ID" "pressure-01";
        stale_ms = stale_ms;
        dwell_ms = dwell_ms;
      };
      uart = record {
        device = env "NIGHTSHIFT_UART_DEVICE" "/dev/ttyS3";
        baudrate = baudrate;
        heartbeat_seconds = heartbeat_seconds;
      };
      mqtt = mqtt;
    })

pub record PressureAdapterConfig : Type 0 where
  pub device_id : String
  pub broker_host : String
  pub broker_port : ℤ
  pub username : String
  pub password : String
  pub base_topic : String
  pub keepalive : ℤ

-- `main` leaves the base topic at its default.
unfoldable pub adapter_config : {Float : Type 0} → AppConfig Float → PressureAdapterConfig
adapter_config c = record {
  device_id = c.pressure.client_id;
  broker_host = c.mqtt.host;
  broker_port = c.mqtt.port;
  username = c.mqtt.username;
  password = c.mqtt.password;
  base_topic = "nightshift/v1/sensor/pressure";
  keepalive = c.mqtt.keepalive;
}

-- The arguments of `aiomqtt.Client` but the will; `ca_certs` is `none` for `tls_params=None`.
pub record Connection : Type 0 where
  pub hostname : String
  pub port : ℤ
  pub username : Option String
  pub password : Option String
  pub identifier : String
  pub keepalive : ℤ
  pub ca_certs : Option String

-- `value or None`
unfoldable pub or_none : String → Option String
or_none [] = none
or_none (c ∷ rest) = some (c ∷ rest)

-- `if self._config.tls_enabled and self._config.ca_file`
unfoldable pub tls_params : MqttConfig → Option String
tls_params m = if m.tls_enabled then or_none m.ca_file else none

-- The connection of the client, and that of the adapter.
unfoldable pub client_connection : MqttConfig → Connection
client_connection m = record {
  hostname = m.host;
  port = m.port;
  username = or_none m.username;
  password = or_none m.password;
  identifier = "nightshift-opi-" ++ m.node_id;
  keepalive = m.keepalive;
  ca_certs = tls_params m;
}

unfoldable pub adapter_connection : PressureAdapterConfig → Connection
adapter_connection a = record {
  hostname = a.broker_host;
  port = a.broker_port;
  username = or_none a.username;
  password = or_none a.password;
  identifier = "nightshift-pressure-sub-" ++ a.device_id;
  keepalive = a.keepalive;
  ca_certs = none;
}
