-- ===== src/Config/Broker.antt =====
-- What a configuration that loads means for the topics and for the broker.
use Prim.Native.Char.{Char, code}
use Prim.Native.String.{String, [], ◌∷◌, ◌++◌}
use text.Mathlib.TextLemmas.{cons-append}
use nightshift_opi.Prelude.{
  ℕ, zero, suc, Bool, true, false, Bool-cases, ap, sym, ◌∙◌, ◌==◌, ◌≡◌, ◌≢◌, ◌⊎◌, inl, inr, refl,
  none, Result, Result-cases, ok, arith,
}
use nightshift_opi.Prelude.Int.{ℤ}
use nightshift_opi.Mqtt.Topics
use nightshift_opi.Mqtt.Topics.{TopicBuilder, ends_with_slash}
use nightshift_opi.Config.{
  Environ, getenv, strip_cons, rstrip_slash, from_env, load_config, AppConfig, MqttConfig,
  adapter_config, Connection, or_none, tls_params, client_connection, adapter_connection,
}

strip_cons_lem :
    (c : Char) (rest : String)
    → ends_with_slash rest ≡ false
    → ends_with_slash (strip_cons c rest) ≡ false
unfolding ends_with_slash strip_cons
strip_cons_lem c [] h = elim (Bool-cases (code c == 47)) [
  | inl slash ↦ rw (slash) refl
  | inr other ↦ rw (other) other
]
strip_cons_lem c (d ∷ rest) h = h

rstrip_slash_lem : (value : String) → ends_with_slash (rstrip_slash value) ≡ false
unfolding rstrip_slash ends_with_slash
rstrip_slash_lem [] = refl
rstrip_slash_lem (c ∷ rest) = strip_cons_lem c (rstrip_slash rest) (rstrip_slash_lem rest)

module _ (int_of : String → Result ℤ) (environ : Environ) where
  base_topic_from_env :
      (node_id : String) (m : MqttConfig)
      → from_env int_of environ node_id ≡ ok m
      → ends_with_slash m.base_topic ≡ false
  unfolding from_env
  base_topic_from_env node_id m h =
      let base = getenv environ "NIGHTSHIFT_MQTT_BASE_TOPIC" "nightshift/v1" in
      elim (Result-cases (int_of (getenv environ "NIGHTSHIFT_MQTT_PORT" "1883"))) [
        | inr (x, e) ↦ absurd (ground arith)
        | inl (port, e) ↦
            elim (Result-cases (int_of (getenv environ "NIGHTSHIFT_MQTT_KEEPALIVE" "30"))) [
              | inr (x, f) ↦ absurd (ground arith)
              | inl (keepalive, f) ↦ ground (arith, rstrip_slash_lem base)
            ]
      ]

  mqtt-load_config :
      {Float : Type 0} (float_of : String → Result Float) (c : AppConfig Float)
      → load_config int_of environ float_of ≡ ok c
      → from_env int_of environ c.node_id ≡ ok c.mqtt
  unfolding load_config
  mqtt-load_config float_of c h =
      let env = getenv environ in
      elim (Result-cases (int_of (env "NIGHTSHIFT_PRESSURE_STALE_MS" "10000"))) [
        | inr (x, e) ↦ absurd (ground arith)
        | inl (stale_ms, e) ↦
            elim (Result-cases (int_of (env "NIGHTSHIFT_PRESSURE_DWELL_MS" "3000"))) [
              | inr (x, f) ↦ absurd (ground arith)
              | inl (dwell_ms, f) ↦
                  elim (Result-cases (int_of (env "NIGHTSHIFT_UART_BAUDRATE" "460800"))) [
                    | inr (x, g) ↦ absurd (ground arith)
                    | inl (baudrate, g) ↦
                        elim (Result-cases
                          (float_of (env "NIGHTSHIFT_UART_HEARTBEAT_SECONDS" "2.0"))) [
                            | inr (x, k) ↦ absurd (ground arith)
                            | inl (seconds, k) ↦
                                elim (Result-cases
                                  (from_env int_of environ (env "NIGHTSHIFT_NODE_ID" "opi3b01"))) [
                                    | inr (x, l) ↦ absurd (ground arith)
                                    | inl (mqtt, l) ↦ ground arith
                                  ]
                          ]
                  ]
            ]
      ]

-- The pressure adapter connects where the client does, as the same user, under another identifier,
-- and without TLS; the client uses TLS exactly if it is enabled and a CA file is named.
pub record SharesBroker (client adapter : Connection) (m : MqttConfig) : Type 0 where
  pub hostname : adapter.hostname ≡ client.hostname
  pub port : adapter.port ≡ client.port
  pub username : adapter.username ≡ client.username
  pub password : adapter.password ≡ client.password
  pub keepalive : adapter.keepalive ≡ client.keepalive
  pub identifier : adapter.identifier ≢ client.identifier
  pub plain : adapter.ca_certs ≡ none
  pub secured :
      ((m.tls_enabled ≡ true) × (client.ca_certs ≡ or_none m.ca_file))
      ⊎ ((m.tls_enabled ≡ false) × (client.ca_certs ≡ none))

-- The code of a character, from 0.
unfoldable code_at : ℕ → String → ℕ
code_at n [] = 0
code_at zero (c ∷ rest) = code c
code_at (suc n) (c ∷ rest) = code_at n rest

unfoldable is_within : ℕ → String → Bool
is_within n [] = false
is_within zero (c ∷ rest) = true
is_within (suc n) (c ∷ rest) = is_within n rest

code_at-append : (n : ℕ) (s t : String) → is_within n s ≡ true → code_at n (s ++ t) ≡ code_at n s
unfolding code_at is_within
code_at-append n [] t h = absurd (ground arith)
code_at-append zero (c ∷ rest) t h = ap (code_at zero) (cons-append c rest t)
code_at-append (suc n) (c ∷ rest) t h =
    ap (code_at (suc n)) (cons-append c rest t) ∙ code_at-append n rest t h

identifiers-ne :
    (node_id device_id : String)
    → ("nightshift-pressure-sub-" ++ device_id) ≢ ("nightshift-opi-" ++ node_id)
unfolding code_at is_within
identifiers-ne node_id device_id e =
    let same : ◌≡◌ {A = ℕ} 112 111 =
      sym (code_at-append 11 "nightshift-pressure-sub-" device_id refl)
      ∙ ap (code_at 11) e
      ∙ code_at-append 11 "nightshift-opi-" node_id refl in
    absurd (omega arith)

connections-SharesBroker :
    {Float : Type 0} (c : AppConfig Float)
    → SharesBroker (client_connection c.mqtt) (adapter_connection (adapter_config c)) c.mqtt
unfolding client_connection adapter_connection adapter_config tls_params
connections-SharesBroker c = record {
  hostname = refl;
  port = refl;
  username = refl;
  password = refl;
  keepalive = refl;
  identifier = identifiers-ne c.mqtt.node_id c.pressure.client_id;
  plain = refl;
  secured = ground arith;
}

-- Whatever the environment: if the configuration loads, then the topics of the client can be built,
-- below the base topic that was configured without the slashes at its end, and the two connections to
-- the broker that `main` makes share host, port, user, password and keepalive under two different
-- identifiers; the adapter's is without TLS, and the client's has the configured CA file exactly if
-- TLS is enabled and the file is named.
pub load_config-SharesBroker :
    {Float : Type 0} (int_of : String → Result ℤ) (float_of : String → Result Float)
    (environ : Environ) (c : AppConfig Float)
    → load_config int_of environ float_of ≡ ok c
    → ((t : TopicBuilder) × (Topics.init c.mqtt.base_topic c.mqtt.node_id ≡ ok t)
        × (t.root ≡ c.mqtt.base_topic ++ "/opi/" ++ c.mqtt.node_id))
      × SharesBroker (client_connection c.mqtt) (adapter_connection (adapter_config c)) c.mqtt
unfolding Topics.init
load_config-SharesBroker int_of float_of environ c h =
    let base =
      base_topic_from_env int_of environ c.node_id c.mqtt
        (mqtt-load_config int_of environ float_of c h) in
    (
      (record { root = c.mqtt.base_topic ++ "/opi/" ++ c.mqtt.node_id }, ground arith, refl),
      connections-SharesBroker c,
    )
