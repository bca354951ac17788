-- ===== src/System/Boot.antt =====
-- How the service comes up (apps/backend/main.py, `main`, up to the start of its tasks).
use Prim.Native.String.{String}
use nightshift_opi.Prelude.{
  ℕ, ◌≡◌, refl, inl, inr, ap, ◌∙◌, Bool-cases, true, false, Option, none, some, List, if◌then◌else◌,
  Result, Error, ok, err, ◌>>=◌, arith, ◌⊎◌,
}
use nightshift_opi.Prelude.Int.{ℤ}
use nightshift_opi.Persistence.{new_file, Disk, Database, open_file}
use nightshift_opi.Persistence.Recovery.{complete, cut_offs, IsUsable, Refuses, reopen}
use nightshift_opi.Config.{
  Environ, getenv, AppConfig, MqttConfig, PressureAdapterConfig, load_config, adapter_config,
}
use nightshift_opi.Config.Broker.{load_config-SharesBroker}
use nightshift_opi.Mqtt.Topics
use nightshift_opi.Mqtt.Topics.{TopicBuilder}

-- What `main` has put together. Without an adapter the pressure source is the mock, and without
-- topics there is no MQTT client.
pub record Service (Float : Type 0) : Type 0 where
  pub config : AppConfig Float
  pub db : Database
  pub adapter : Option PressureAdapterConfig
  pub topics : Option TopicBuilder

-- `if config.mqtt.enabled: mqtt_client = MqttClient(config.mqtt, orchestrator)`
unfoldable pub client_topics : MqttConfig → Result (Option TopicBuilder)
client_topics m =
    if m.enabled
    then (do topics ← Topics.init m.base_topic m.node_id; ok (some topics))
    else ok none

-- The result of `db.open()` with the database behind it
unfoldable pub opened : Result (Unit {0}) × Database → Result Database
opened (err e, db) = err e
opened (ok u, db) = ok db

-- `disks` is what the system and the library do with a path.
unfoldable pub main :
    {Float : Type 0}
    → (String → Result ℤ)
    → (String → Result Float)
    → Environ
    → (String → Disk)
    → Result (Service Float)
main int_of float_of environ disks = do
  config ← load_config int_of environ float_of
  let db_path = getenv environ "NIGHTSHIFT_DB_PATH" "/var/lib/nightshift/nightshift.db"
  db ← opened (open_file (record { disk = disks db_path; is_open = false }))
  topics ← client_topics config.mqtt
  ok (record {
    config = config;
    db = db;
    adapter = if config.mqtt.enabled then some (adapter_config config) else none;
    topics = topics;
  })

opened-ok : (db : Database) → opened (ok tt, db) ≡ ok db
unfolding opened
opened-ok db = refl

opened-err : (e : Error) (x : Result (Unit {0}) × Database) → x.0 ≡ err e → opened x ≡ err e
unfolding opened
opened-err e (r, db) h = ground arith

client_topics-ok :
    (m : MqttConfig) (t : TopicBuilder)
    → Topics.init m.base_topic m.node_id ≡ ok t
    → client_topics m ≡ ok (if m.enabled then some t else none)
unfolding client_topics
client_topics-ok m t h = elim (Bool-cases m.enabled) [
  | inl on ↦ ground arith
  | inr off ↦ ground arith
]

-- Whatever the environment, if the configuration loads, and however many earlier starts were cut off
-- while they created the database file, each after any number of its statements. If the directory of
-- the file is there or can be created, and the library connects and runs the pragmas, the service comes
-- up, with the loaded configuration, an open database with the complete schema, and, exactly if MQTT
-- is enabled, a pressure adapter and a client. If not, it ends with the exception of the first of these
-- calls that fails.
pub main_comes_up :
    {Float : Type 0} (int_of : String → Result ℤ) (float_of : String → Result Float)
    (environ : Environ) (disks : String → Disk) (ks : List ℕ) (c : AppConfig Float)
    → load_config int_of environ float_of ≡ ok c
    → (disks (getenv environ "NIGHTSHIFT_DB_PATH" "/var/lib/nightshift/nightshift.db")).file
      ≡ cut_offs ks new_file
    → let d = disks (getenv environ "NIGHTSHIFT_DB_PATH" "/var/lib/nightshift/nightshift.db") in
      (IsUsable d
        × ((t : TopicBuilder) × (main int_of float_of environ disks
              ≡ ok (record {
                config = c;
                db = record {
                  disk = record d { has_parent = true; file = complete };
                  is_open = true;
                };
                adapter = if c.mqtt.enabled then some (adapter_config c) else none;
                topics = if c.mqtt.enabled then some t else none;
              }))))
      ⊎ ((e : Error) × Refuses d e × (main int_of float_of environ disks ≡ err e))
unfolding main
main_comes_up int_of float_of environ disks ks c h f =
    let ((t, built, root), shared) = load_config-SharesBroker int_of float_of environ c h in
    let path = getenv environ "NIGHTSHIFT_DB_PATH" "/var/lib/nightshift/nightshift.db" in
    let made = client_topics-ok c.mqtt t built in
    elim (reopen ks false (disks path) f) [
      | inl (usable, opens) ↦
          let at = ap opened opens ∙ opened-ok _ in inl (usable, (t, ground arith))
      | inr (e, fails, raises) ↦
          let at =
            opened-err e (open_file (record { disk = disks path; is_open = false })) raises in
          inr (e, fails, ground arith)
    ]
