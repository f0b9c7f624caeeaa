-- ===== src/Config/Bounds.antt =====
-- src/config.c: the ranges of the settings, and what a size is read as.
use beaver_mq.Prelude.{
  ℕ, zero, suc, ◌+◌, ◌≤◌, ◌<◌, ◌≡◌, refl, Bool, Option, none, some, List, [], ◌∷◌, Bytes, length,
  take, All, leb, Bool-cases, inl, inr, arith,
}
use beaver_mq.Config.Number.{is_nil}
use beaver_mq.Config.Value.{
  skip_blanks, has_byte, parse_threads, parse_int, parse_size, parse_length, parse_bool,
  max_threads, max_cluster_nodes, node_entries, cluster_entries, split_commas, trimmed,
}
use beaver_mq.Config.Apply.{
  Config, config_defaults, Key, or_keep, fitted, set_cluster, parse_cluster_nodes, set_key,
  set_known, apply_kv, key_of, keys, apply_split, split_once, before, apply_line, config_load_lines,
  config_apply_env, config_resolve_threads,
}

parse_int_range : (lo hi : ℕ) (v : Bytes) (n : ℕ) → parse_int lo hi v ≡ some n → (lo ≤ n) × (n ≤ hi)
unfolding parse_int
parse_int_range lo hi v n h = ground arith

parse_size_range : (v : Bytes) (n : ℕ) → parse_size v ≡ some n → n < 4294967296
unfolding parse_size
parse_size_range v n h = ground arith

parse_threads_range : (v : Bytes) (n : ℕ) → parse_threads v ≡ some n → n ≤ max_threads
unfolding parse_threads
parse_threads_range v n h = ground arith

node_entries-length :
    (n : ℕ) (ts : List Bytes)
    → n ≤ max_cluster_nodes
    → n + length (node_entries n ts) ≤ max_cluster_nodes
unfolding node_entries
node_entries-length n [] h = omega arith
node_entries-length n (t ∷ ts) h =
    let a = node_entries-length n ts h in let b = node_entries-length (n + 1) ts in ground arith

length-take_most : (n : ℕ) (v : Bytes) → length (take n v) ≤ n
length-take_most zero v = omega arith
length-take_most (suc n) [] = omega arith
length-take_most (suc n) (x ∷ xs) = let ih = length-take_most n xs in omega arith

node_entries-All : (n : ℕ) (ts : List Bytes) → All (λ t. length t < 72) (node_entries n ts)
unfolding node_entries
node_entries-All n [] = tt
node_entries-All n (t ∷ ts) =
    let skip = node_entries-All n ts in
    let more = node_entries-All (n + 1) ts in
    elim (Bool-cases (is_nil (skip_blanks t))) [
      | inl blank ↦ rw blank skip
      | inr some_text ↦ elim (Bool-cases (leb max_cluster_nodes n)) [
        | inl full ↦ rw (some_text, full) tt
        | inr room ↦ elim (Bool-cases (has_byte 58 (skip_blanks t))) [
          | inr bare ↦ rw (some_text, room, bare) skip
          | inl colon ↦
              let l = length-take_most 71 (skip_blanks t) in
              rw (some_text, room, colon) (omega arith, more)
        ]
      ]
    ]

length-fitted : (n : ℕ) (v : Bytes) → length (fitted n v) ≤ n
length-fitted zero v = omega arith
length-fitted (suc n) [] = omega arith
length-fitted (suc n) (x ∷ xs) = let ih = length-fitted n xs in omega arith

-- The ranges of the settings that later code relies on.
pub record IsConfig (c : Config) : Type 0 where
  pub threads : c.threads ≤ max_threads
  pub amqp_low : 1 ≤ c.amqp_port
  pub amqp_high : c.amqp_port ≤ 65535
  pub http_low : 1 ≤ c.http_port
  pub http_high : c.http_port ≤ 65535
  pub message : c.max_message_size < 4294967296
  pub body : c.http_max_body_bytes < 4294967296
  pub bytes : c.queue_max_bytes < 4294967296
  pub timeout_low : 1000 ≤ c.http_request_timeout_ms
  pub timeout_high : c.http_request_timeout_ms ≤ 600000
  pub node : c.node_id < max_cluster_nodes
  pub nodes : length c.cluster_nodes ≤ max_cluster_nodes
  pub texts : All (λ t. length t < 72) c.cluster_nodes
  pub election : c.election_timeout_ms ≤ 600000
  pub heartbeat : c.heartbeat_ms ≤ 600000
  pub bind : length c.bind_addr < 64
  pub web : length c.web_root < 512
  pub dir : length c.data_dir < 256
  pub secret : length c.cluster_secret < 128

config_defaults-IsConfig : IsConfig config_defaults
config_defaults-IsConfig = ground arith

-- A setting that is kept, or set to a value that keeps the ranges.
kept :
    (f : ℕ → Config) (old : ℕ) (o : Option ℕ)
    → IsConfig (f old)
    → ((n : ℕ) → o ≡ some n → IsConfig (f n))
    → IsConfig (f (or_keep old o))
kept f old none h g = h
kept f old (some n) h g = g n refl

set_cluster-IsConfig : (c : Config) (o : Option Bool) → IsConfig c → IsConfig (set_cluster c o)
set_cluster-IsConfig c none h = h
set_cluster-IsConfig c (some b) h = ground arith

parse_cluster_nodes-IsConfig :
    (c : Config) (v : Bytes) → IsConfig c → IsConfig (parse_cluster_nodes c v)
unfolding parse_cluster_nodes cluster_entries
parse_cluster_nodes-IsConfig c v h =
    let (piece, more) = split_commas (take 359 v) in
    let l = node_entries-length 0 (piece ∷ more) (omega arith) in
    let whole = node_entries-All 0 (piece ∷ more) in ground arith

set_key-IsConfig :
    (strtod : Bytes → Option ℕ) (c : Config) (k : Key) (v : Bytes)
    → IsConfig c
    → IsConfig (set_key strtod c k v)
unfolding set_key
set_key-IsConfig strtod c Key.threads v h =
    kept (λ x. record c { threads = x }) c.threads (parse_threads v) h
      (λ n e. (let r = parse_threads_range v n e in ground arith))
set_key-IsConfig strtod c Key.amqp_port v h =
    kept (λ x. record c { amqp_port = x }) c.amqp_port (parse_int 1 65535 v) h
      (λ n e. (let r = parse_int_range 1 65535 v n e in ground arith))
set_key-IsConfig strtod c Key.http_port v h =
    kept (λ x. record c { http_port = x }) c.http_port (parse_int 1 65535 v) h
      (λ n e. (let r = parse_int_range 1 65535 v n e in ground arith))
set_key-IsConfig strtod c Key.bind v h = let l = length-fitted 63 v in ground arith
set_key-IsConfig strtod c Key.log_level v h = ground arith
set_key-IsConfig strtod c Key.web_root v h = let l = length-fitted 511 v in ground arith
set_key-IsConfig strtod c Key.max_connections v h =
    kept (λ x. record c { max_connections = x }) c.max_connections (parse_int 0 10000000 v) h
      (λ n e. ground arith)
set_key-IsConfig strtod c Key.max_message_size v h =
    kept (λ x. record c { max_message_size = x }) c.max_message_size (parse_size v) h
      (λ n e. (let r = parse_size_range v n e in ground arith))
set_key-IsConfig strtod c Key.http_max_body_bytes v h =
    kept (λ x. record c { http_max_body_bytes = x }) c.http_max_body_bytes (parse_size v) h
      (λ n e. (let r = parse_size_range v n e in ground arith))
set_key-IsConfig strtod c Key.http_max_connections v h =
    kept (λ x. record c { http_max_connections = x }) c.http_max_connections
      (parse_int 0 10000000 v) h (λ n e. ground arith)
set_key-IsConfig strtod c Key.http_request_timeout_ms v h =
    kept (λ x. record c { http_request_timeout_ms = x }) c.http_request_timeout_ms
      (parse_int 1000 600000 v) h
      (λ n e. (let r = parse_int_range 1000 600000 v n e in ground arith))
set_key-IsConfig strtod c Key.queue_max_length v h =
    kept (λ x. record c { queue_max_length = x }) c.queue_max_length (parse_length v) h
      (λ n e. ground arith)
set_key-IsConfig strtod c Key.queue_max_bytes v h =
    kept (λ x. record c { queue_max_bytes = x }) c.queue_max_bytes (parse_size v) h
      (λ n e. (let r = parse_size_range v n e in ground arith))
set_key-IsConfig strtod c Key.memory_high_watermark v h =
    kept (λ x. record c { memory_high_watermark = x }) c.memory_high_watermark (strtod v) h
      (λ n e. ground arith)
set_key-IsConfig strtod c Key.cluster v h = set_cluster-IsConfig c (parse_bool v) h
set_key-IsConfig strtod c Key.node_id v h =
    kept (λ x. record c { node_id = x }) c.node_id (parse_int 0 4 v) h
      (λ n e. (let r = parse_int_range 0 4 v n e in ground arith))
set_key-IsConfig strtod c Key.cluster_nodes v h = parse_cluster_nodes-IsConfig c v h
set_key-IsConfig strtod c Key.data_dir v h = let l = length-fitted 255 v in ground arith
set_key-IsConfig strtod c Key.election_timeout_ms v h =
    kept (λ x. record c { election_timeout_ms = x }) c.election_timeout_ms (parse_int 0 600000 v) h
      (λ n e. (let r = parse_int_range 0 600000 v n e in ground arith))
set_key-IsConfig strtod c Key.heartbeat_ms v h =
    kept (λ x. record c { heartbeat_ms = x }) c.heartbeat_ms (parse_int 0 600000 v) h
      (λ n e. (let r = parse_int_range 0 600000 v n e in ground arith))
set_key-IsConfig strtod c Key.cluster_secret v h = let l = length-fitted 127 v in ground arith
set_key-IsConfig strtod c Key.cluster_sync_policy v h = ground arith

apply_kv-IsConfig :
    (strtod : Bytes → Option ℕ) (c : Config) (k v : Bytes)
    → IsConfig c
    → IsConfig (apply_kv strtod c k v)
unfolding apply_kv
apply_kv-IsConfig strtod c k v h = known (key_of k keys)
  where
    known : (o : Option Key) → IsConfig (set_known strtod c o v)
    known none = h
    known (some key) = set_key-IsConfig strtod c key v h

load_lines-IsConfig :
    (strtod : Bytes → Option ℕ) (c : Config) (ls : List Bytes)
    → IsConfig c
    → IsConfig (config_load_lines strtod c ls)
unfolding config_load_lines apply_line
load_lines-IsConfig strtod c [] h = h
load_lines-IsConfig strtod c (l ∷ ls) h =
    load_lines-IsConfig strtod (apply_line strtod c l) ls
      (go (split_once 61 (trimmed (before 35 l))))
  where
    go : (o : Option (Bytes × Bytes)) → IsConfig (apply_split strtod c o)
    go none = h
    go (some (k, v)) = apply_kv-IsConfig strtod c (trimmed k) (trimmed v) h

apply_env-IsConfig :
    (strtod : Bytes → Option ℕ) (c : Config) (vs : List (Bytes × Bytes))
    → IsConfig c
    → IsConfig (config_apply_env strtod c vs)
unfolding config_apply_env
apply_env-IsConfig strtod c [] h = h
apply_env-IsConfig strtod c ((k, v) ∷ more) h =
    apply_env-IsConfig strtod (apply_kv strtod c k v) more (apply_kv-IsConfig strtod c k v h)

resolve-IsConfig :
    (cores : ℕ) (c : Config)
    → IsConfig c
    → IsConfig (config_resolve_threads cores c) × (1 ≤ (config_resolve_threads cores c).threads)
unfolding config_resolve_threads
resolve-IsConfig cores c h = (ground arith, ground arith)

-- Whatever lines the file has, whatever variables are set and however many cores there are, the settings
-- are in range: from 1 to 64 threads, ports from 1 to 65535, sizes of 32 bits, a timeout from 1 to 600
-- seconds, a node id and a node table for at most five nodes, and every text within its array.
pub config-IsConfig :
    (strtod : Bytes → Option ℕ) (lines : List Bytes) (vars : List (Bytes × Bytes)) (cores : ℕ)
    → let c =
        config_resolve_threads cores
          (config_apply_env strtod (config_load_lines strtod config_defaults lines) vars) in
      IsConfig c × (1 ≤ c.threads)
config-IsConfig strtod lines vars cores =
    resolve-IsConfig cores
      (config_apply_env strtod (config_load_lines strtod config_defaults lines) vars)
      (apply_env-IsConfig strtod (config_load_lines strtod config_defaults lines) vars
        (load_lines-IsConfig strtod config_defaults lines config_defaults-IsConfig))
