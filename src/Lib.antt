-- ===== src/Lib.antt =====
-- BeaverMQ, a message broker written in C. This library models the parts of it that decide which
-- messages exist and where they go, and proves what these parts promise.
--
-- The program's parts. Clients speak AMQP over sockets (src/net.c, src/protocol.c); frames and
-- their fields are cut and built by the codec (src/frame.c). A published message (src/message.c)
-- goes to an exchange, which finds the queues whose bindings suit its routing key
-- (src/exchange.c); each queue stores it within its limits (src/queue.c), and the dispatcher
-- (src/dispatch.c) hands it to consumers. In a cluster the queue also tracks which deliveries have
-- been acknowledged (src/queue.c), and a follower discards what the leader has consumed; the nodes
-- agree on a log of operations, of which each node applies what is committed (src/cluster.c).
-- The broker's registry owns the queues and the exchanges, routes what is published, and routes
-- again what a queue evicts to its dead-letter exchange (src/broker.c). Users, virtual hosts and
-- permissions are kept in a store that every mutation writes to a file (src/authstore.c), with
-- passwords as salted hashes (src/crypto.c); the management API and the command line exchange
-- credentials in Base64 (src/http.c, src/main.c). Logins are slowed down after failures
-- (src/authlimit.c), names are kept in a hash map (src/hashmap.c), and the settings come from a file
-- and the environment (src/config.c).
--
-- Which file models which part:
--   Message: include/message.h and src/message.c. A message is a value; its reference count is
--     stepped by message_ref and message_unref.
--   Frame: include/frame.h and src/frame.c. Reader is bmqp_reader_t with bmqp_read_*; Buffer is
--     bmqp_buf_t with buf_reserve and bmqp_buf_put_*; Envelope is bmqp_frame_parse,
--     bmqp_frame_write, bmqp_frame_begin and bmqp_frame_finish. Codec names the wire format of
--     fields; Capacity, Cursor, RoundTrip, Parse and Write hold the proofs.
--   Queue: include/queue.h and src/queue.c. Ring is the array of slots (queue_grow, and the store
--     and the take that queue_enqueue and queue_dequeue do); State is struct beaver_queue, the
--     file's globals and the setters; Flow the limits and the congestion flag; Ops queue_enqueue,
--     queue_requeue_internal, queue_dequeue, queue_purge and queue_drain_consumed; Track the
--     functions queue_consume_*; Lifetime the references, waiters, snapshot and getters. Spec says
--     what a queue promises of sequences of messages; RingFifo, Refine, Enqueue, Leave, Bounds,
--     Insertion, Watermark, Snapshot and Refcount hold the proofs.
--   Exchange: include/exchange.h and src/exchange.c. Bindings is struct beaver_exchange with
--     exchange_bind and exchange_unbind_queue; Topic is split_words, match_tokens and
--     exchange_topic_match; Routing is exchange_route. TopicSpec says what a topic pattern means;
--     Bind, Unbind, TopicMatch and Route hold the proofs.
--   HashMap: include/hashmap.h and src/hashmap.c. SipHash is hash_str; Chained is the table, over
--     any hash; Lookup holds the proofs.
--   AuthLimit: include/authlimit.h and src/authlimit.c. Table is the whole file; Backoff and
--     Retry hold the proofs.
--   Dispatch: src/dispatch.c. State is struct beaver_dispatcher with its pending list and the
--     queues that it works on; Settle is settle_unacked with dispatcher_ack and dispatcher_nack;
--     Service is service_group and on_async; Registry is dispatcher_add_consumer, consumer_destroy
--     and what calls them. Settled, Acks, Window, Serving and Interest hold the proofs.
--   Cluster: include/cluster.h and src/cluster.c, the consensus. State is cluster_node_t as far as
--     the consensus reads it; Header the header of a frame; Log the log in memory and what the files
--     record of it; Commit is advance_commit; Message the frames, taken apart; Replicate the leader's
--     side of replication (send_append, pump_peer, the APPEND_RESP handler); Election the terms, votes
--     and elections; Follower the APPEND handler, cl_dispatch and the heartbeat; Events what can
--     happen to a node. Votes, Ballots, Terms, Slice, Majority, Accept, Matching, Batch, Replica and Backup
--     hold the proofs.
--   Config: include/config.h and src/config.c. Number is what it uses of the C library's strtol and
--     strtoul; Value the parsers of values; Apply the settings with apply_kv, config_load_file and
--     config_apply_env. Bounds and Size hold the proofs.
--   Broker: include/broker.h and src/broker.c, over the models of Queue, Exchange and HashMap.
--     Registry is struct beaver_broker with broker_new, broker_declare_queue,
--     broker_declare_exchange and broker_bind; Deletion is broker_delete_queue; Stats the look-ups
--     and totals; Publish is broker_route, broker_publish and broker_dead_letter_cb. Unbound,
--     Declared, Enqueues and Routed hold the proofs.
--   AuthStore: include/authstore.h and src/authstore.c. Password is the stored form of a password;
--     State is struct authstore with find_* and drop_perms_matching; File the writing and the reading
--     of the file's parts with authstore_save_locked; Store every operation on the store; Load is
--     authstore_load. Rows, Reads, Invariant, Keeps, Grants, History, Access, Codec, RoundTrip, Restart
--     and Verify hold the proofs.
--   Crypto: src/crypto.c. SHA-256, HMAC-SHA256 and crypto_ct_memcmp; Compare holds the proof.
--   Http: Base64 is b64_encode of src/main.c and b64_decode of src/http.c; RoundTrip the proof.
--   Prelude: lists, C strings, Boolean tests and 64-bit sums that these share; Swap is the removal
--     from an array by moving its last element into the gap.
--
-- How the code is read. A C function is a function of the state that it reads to the state that it
-- leaves; a lock held from the first read to the last write makes it one step. Memory is asked for
-- through an argument that answers whether the request is granted, so every theorem that takes
-- one covers every pattern of failures that its statement does not exclude. Sizes and counters
-- keep their width: a sum or a difference of size_t or uint64_t is taken modulo 2 ^ 64. Strings
-- are lists of bytes without the final zero. A queue is named by its address where only its
-- identity matters.
--
-- Loops are recursion on the list that they walk, or on a number of rounds that is enough: 64
-- doublings of the buffer's capacity reach any size_t; the evictions, the purge and the drain take
-- at most as many rounds as there are messages; the topic matcher moves on by one pattern word
-- with each call; the sweep of exchange_unbind_queue shortens its array or moves on in each round,
-- and so does that of settle_unacked; a pump moves next_index on in each round but the last, so the entries left are
-- enough; a batch takes at most 512 rounds; service_group takes a message off the queue in each
-- round but the last. The sweep of drop_perms_matching shortens the table or moves on in each
-- round, so its rows are enough; authstore_load takes the counts that the file names; PBKDF2 takes
-- the iterations of the stored form, and SHA-256 the blocks of its input; Base64 walks its text.
--
-- What a node sends, applies and hands on is a list of effects beside its state. A frame on a link may be
-- lost; what is received is any frame. A consumer, a connection and a queue are numbers in Dispatch,
-- and the queues' reference counts are not kept there. Terms and indices of the cluster do not
-- reach 2 ^ 64, so their sums are not wrapped; where the code subtracts, it wraps. The fraction
-- that strtod reads is a parameter of Config, in millionths. Of AuthStore, regcomp and regexec are
-- parameters (whether a pattern compiles, and whether the compiled one matches a name), and so are
-- the answers of realloc and of the file system and the bytes drawn for a salt; of HashMap and
-- Broker, the hash of a name. Routing and dead-lettering call each other through queue_enqueue: in
-- Broker each takes the other as a parameter, and a theorem on one holds whatever the other does,
-- unless it says more.
--
-- Not modelled: the sockets, threads, timers and files of src/net.c, src/supervisor.c and
-- src/logger.c; src/protocol.c; src/http.c and src/main.c but for Base64; of src/broker.c the
-- visitors that call back their caller, the release of the broker, and the recursion of routing and
-- dead-lettering tied together, which no bound on its depth ends; of src/crypto.c the random
-- source; of src/cluster.c the HELLO exchange, the frames' checksum, the files' layout and
-- recovery, state transfer and compaction of the log's prefix, the forwarding of proposals, the
-- operations on the broker and the status; of src/dispatch.c the bytes of a delivery; of
-- src/hashmap.c the drawing of the secret.
pub mod AuthLimit
pub mod AuthStore
pub mod Broker
pub mod Cluster
pub mod Config
pub mod Crypto
pub mod Dispatch
pub mod Exchange
pub mod Frame
pub mod HashMap
pub mod Http
pub mod Message
pub mod Prelude
pub mod Queue
