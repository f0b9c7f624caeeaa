-- ===== src/Config/Apply.antt =====
-- include/config.h and src/config.c: the record of settings, and how keys, lines and the environment fill it.
use beaver_mq.Prelude.{
  ℕ, Bool, true, false, Option, none, some, List, [], ◌∷◌, Bytes, codes, str_eq, length, take, ltb,
  ◌==◌, if◌then◌else◌,
}
use beaver_mq.Config.Number.{case_eq}
use beaver_mq.Config.Value.{
  trimmed, LogLevel, info, max_threads, parse_log_level, parse_threads, parse_int, parse_size,
  parse_length, parse_bool, cluster_entries,
}

-- beaver_config_t; `cluster_nodes` are the first cluster_nnodes entries. The watermark is in millionths.
pub record Config : Type 0 where
  pub threads : ℕ
  pub amqp_port : ℕ
  pub http_port : ℕ
  pub bind_addr : Bytes
  pub log_level : LogLevel
  pub web_root : Bytes
  pub max_connections : ℕ
  pub max_message_size : ℕ
  pub http_max_body_bytes : ℕ
  pub http_max_connections : ℕ
  pub http_request_timeout_ms : ℕ
  pub queue_max_length : ℕ
  pub queue_max_bytes : ℕ
  pub memory_high_watermark : ℕ
  pub cluster_enabled : Bool
  pub cluster_explicit : Bool
  pub node_id : ℕ
  pub cluster_nodes : List Bytes
  pub data_dir : Bytes
  pub election_timeout_ms : ℕ
  pub heartbeat_ms : ℕ
  pub cluster_secret : Bytes
  pub cluster_durable_commit : Bool

abbrev pub config_defaults : Config
config_defaults = record {
  threads = 0;
  amqp_port = 5672;
  http_port = 15672;
  bind_addr = codes "127.0.0.1";
  log_level = info;
  web_root = [];
  max_connections = 0;
  max_message_size = 16777216;
  http_max_body_bytes = 16777216;
  http_max_connections = 512;
  http_request_timeout_ms = 30000;
  queue_max_length = 0;
  queue_max_bytes = 0;
  memory_high_watermark = 400000;
  cluster_enabled = false;
  cluster_explicit = false;
  node_id = 0;
  cluster_nodes = [];
  data_dir = [];
  election_timeout_ms = 0;
  heartbeat_ms = 0;
  cluster_secret = [];
  cluster_durable_commit = true;
}

-- The keys that apply_kv knows.
pub data Key : Type 0 where
  threads amqp_port http_port bind log_level web_root max_connections max_message_size : Key
  http_max_body_bytes http_max_connections http_request_timeout_ms queue_max_length
        queue_max_bytes :
      Key
  memory_high_watermark cluster node_id cluster_nodes data_dir election_timeout_ms heartbeat_ms :
      Key
  cluster_secret cluster_sync_policy : Key

-- The names, in the order in which apply_kv compares them.
abbrev pub keys : List (Bytes × Key)
keys =
    (codes "threads", threads)
    ∷ (codes "amqp_port", amqp_port)
    ∷ (codes "http_port", http_port)
    ∷ (codes "bind", bind)
    ∷ (codes "bind_addr", bind)
    ∷ (codes "log_level", log_level)
    ∷ (codes "web_root", web_root)
    ∷ (codes "max_connections", max_connections)
    ∷ (codes "max_message_size", max_message_size)
    ∷ (codes "http_max_body_bytes", http_max_body_bytes)
    ∷ (codes "http_max_connections", http_max_connections)
    ∷ (codes "http_request_timeout_ms", http_request_timeout_ms)
    ∷ (codes "queue_max_length", queue_max_length)
    ∷ (codes "queue_max_bytes", queue_max_bytes)
    ∷ (codes "memory_high_watermark", memory_high_watermark)
    ∷ (codes "cluster", cluster)
    ∷ (codes "node_id", node_id)
    ∷ (codes "cluster_nodes", cluster_nodes)
    ∷ (codes "data_dir", data_dir)
    ∷ (codes "election_timeout_ms", election_timeout_ms)
    ∷ (codes "heartbeat_ms", heartbeat_ms)
    ∷ (codes "cluster_secret", cluster_secret)
    ∷ (codes "cluster_sync_policy", cluster_sync_policy)
    ∷ []

unfoldable pub key_of : Bytes → List (Bytes × Key) → Option Key
unfolding str_eq
key_of k [] = none
key_of k ((name, key) ∷ more) = let rest = key_of k more in if str_eq k name then some key else rest

abbrev pub or_keep {ℓ} : {A : Type ℓ} → A → Option A → A
or_keep a none = a
or_keep a (some b) = b

-- snprintf into an array of `n` bytes
abbrev pub fitted : ℕ → Bytes → Bytes
fitted n v = take n v

abbrev pub set_cluster : Config → Option Bool → Config
set_cluster c none = c
set_cluster c (some b) = record c { cluster_enabled = b; cluster_explicit = true }

unfoldable pub parse_cluster_nodes : Config → Bytes → Config
unfolding cluster_entries
parse_cluster_nodes c v =
    let ns = cluster_entries v in
    record c {
      cluster_nodes = ns;
      cluster_enabled = if c.cluster_explicit then c.cluster_enabled else ltb 0 (length ns);
    }

unfoldable pub sync_policy : Bool → Bytes → Bool
unfolding case_eq
sync_policy old v =
    if case_eq v (codes "durable") then true else if case_eq v (codes "fast") then false else old

-- The text before the first byte `x`.
unfoldable pub before : ℕ → Bytes → Bytes
before x [] = []
before x (b ∷ bs) = let rest = before x bs in if b == x then [] else b ∷ rest

-- The text around the first byte `x`, if there is one.
unfoldable pub split_once : ℕ → Bytes → Option (Bytes × Bytes)
split_once x [] = none
split_once x (b ∷ bs) =
    let rest = split_once x bs in
    if b == x then some ([], bs) else elim rest [ none ↦ none | some p ↦ some (b ∷ p.0, p.1) ]

-- strtod, as far as it goes: the number from 0 to 1 that the whole text writes, in millionths.
module _ (strtod : Bytes → Option ℕ) where
  unfoldable pub set_key : Config → Key → Bytes → Config
  unfolding parse_threads parse_int parse_log_level parse_size parse_length parse_bool
      parse_cluster_nodes sync_policy
  set_key c threads v = record c { threads = or_keep c.threads (parse_threads v) }
  set_key c amqp_port v = record c { amqp_port = or_keep c.amqp_port (parse_int 1 65535 v) }
  set_key c http_port v = record c { http_port = or_keep c.http_port (parse_int 1 65535 v) }
  set_key c bind v = record c { bind_addr = fitted 63 v }
  set_key c log_level v = record c { log_level = or_keep c.log_level (parse_log_level v) }
  set_key c web_root v = record c { web_root = fitted 511 v }
  set_key c max_connections v = record c {
    max_connections = or_keep c.max_connections (parse_int 0 10000000 v);
  }
  set_key c max_message_size v = record c {
    max_message_size = or_keep c.max_message_size (parse_size v);
  }
  set_key c http_max_body_bytes v = record c {
    http_max_body_bytes = or_keep c.http_max_body_bytes (parse_size v);
  }
  set_key c http_max_connections v = record c {
    http_max_connections = or_keep c.http_max_connections (parse_int 0 10000000 v);
  }
  set_key c http_request_timeout_ms v = record c {
    http_request_timeout_ms = or_keep c.http_request_timeout_ms (parse_int 1000 600000 v);
  }
  set_key c queue_max_length v = record c {
    queue_max_length = or_keep c.queue_max_length (parse_length v);
  }
  set_key c queue_max_bytes v = record c {
    queue_max_bytes = or_keep c.queue_max_bytes (parse_size v);
  }
  set_key c memory_high_watermark v = record c {
    memory_high_watermark = or_keep c.memory_high_watermark (strtod v);
  }
  set_key c cluster v = set_cluster c (parse_bool v)
  set_key c node_id v = record c { node_id = or_keep c.node_id (parse_int 0 4 v) }
  set_key c cluster_nodes v = parse_cluster_nodes c v
  set_key c data_dir v = record c { data_dir = fitted 255 v }
  set_key c election_timeout_ms v = record c {
    election_timeout_ms = or_keep c.election_timeout_ms (parse_int 0 600000 v);
  }
  set_key c heartbeat_ms v = record c {
    heartbeat_ms = or_keep c.heartbeat_ms (parse_int 0 600000 v);
  }
  set_key c cluster_secret v = record c { cluster_secret = fitted 127 v }
  set_key c cluster_sync_policy v = record c {
    cluster_durable_commit = sync_policy c.cluster_durable_commit v;
  }

  abbrev pub set_known : Config → Option Key → Bytes → Config
  set_known c none v = c
  set_known c (some k) v = set_key c k v

  unfoldable pub apply_kv : Config → Bytes → Bytes → Config
  unfolding set_key key_of
  apply_kv c key v = set_known c (key_of key keys) v

  abbrev pub apply_split : Config → Option (Bytes × Bytes) → Config
  apply_split c none = c
  apply_split c (some (k, v)) = apply_kv c (trimmed k) (trimmed v)

  -- One round of the loop over what fgets returns. An empty line has no `=` either.
  unfoldable pub apply_line : Config → Bytes → Config
  unfolding trimmed apply_kv before split_once
  apply_line c line = apply_split c (split_once 61 (trimmed (before 35 line)))

  unfoldable pub config_load_lines : Config → List Bytes → Config
  unfolding apply_line
  config_load_lines c [] = c
  config_load_lines c (l ∷ ls) = config_load_lines (apply_line c l) ls

  -- The variables that are set, as pairs of a key and a value.
  unfoldable pub config_apply_env : Config → List (Bytes × Bytes) → Config
  unfolding apply_kv
  config_apply_env c [] = c
  config_apply_env c ((k, v) ∷ more) = config_apply_env (apply_kv c k v) more

unfoldable pub config_resolve_threads : ℕ → Config → Config
config_resolve_threads cores c =
    let n = if c.threads == 0 then cores else c.threads in
    let m = if ltb n 1 then 1 else n in
    record c { threads = if ltb max_threads m then max_threads else m }
