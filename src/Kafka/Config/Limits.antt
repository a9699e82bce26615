-- ===== src/Kafka/Config/Limits.antt =====
-- What a fetch and a publish may do to a cluster.
use offset_explorer_oxide.Common.{ℕ, ◌*◌, ◌/◌, ◌≤◌, max, String, Option, some, ◌∷◌, ◌≡◌, arith}
use offset_explorer_oxide.Common.Digits.{to_string}
use offset_explorer_oxide.Core.Connection.{Connection}
use offset_explorer_oxide.Kafka.Config.{prefetch_kbytes, fetch_consumer_config, publish_config}
use offset_explorer_oxide.Kafka.Config.Settings.{
  get, Table, value, Says, set-Says, client_table, client_config-Says,
}

module _ (app_client_id bundle : Option String) (c : Connection) (max_message_size_bytes : ℕ) where
  abbrev pub fetch_table : Table
  fetch_table =
      ("enable.partition.eof", some "true")
      ∷ ("fetch.wait.max.ms", some "50")
      ∷ ("fetch.queue.backoff.ms", some "10")
      ∷ ("queued.max.messages.kbytes", some (to_string (prefetch_kbytes max_message_size_bytes)))
      ∷ ("max.partition.fetch.bytes", some (to_string max_message_size_bytes))
      ∷ ("enable.auto.commit", some "false")
      ∷ ("group.id", some "salty-message-browser")
      ∷ client_table app_client_id bundle c

  fetch_consumer_config-Says :
      Says (fetch_consumer_config app_client_id bundle c max_message_size_bytes) fetch_table
  unfolding fetch_consumer_config
  fetch_consumer_config-Says =
      let group =
        set-Says "group.id" "salty-message-browser" _ _
          (client_config-Says app_client_id bundle c) in
      let commit = set-Says "enable.auto.commit" "false" _ _ group in
      let bytes =
        set-Says "max.partition.fetch.bytes" (to_string max_message_size_bytes) _ _ commit in
      let queue =
        set-Says "queued.max.messages.kbytes" (to_string (prefetch_kbytes max_message_size_bytes)) _
          _ bytes in
      let backoff = set-Says "fetch.queue.backoff.ms" "10" _ _ queue in
      let wait = set-Says "fetch.wait.max.ms" "50" _ _ backoff in
      set-Says "enable.partition.eof" "true" _ _ wait

  abbrev pub publish_table : ℕ → Table
  publish_table write_timeout =
      ("linger.ms", some "0")
      ∷ ("message.timeout.ms", some (to_string (max write_timeout 1)))
      ∷ ("message.max.bytes", some (to_string max_message_size_bytes))
      ∷ ("enable.idempotence", some "false")
      ∷ ("acks", some "all")
      ∷ client_table app_client_id bundle c

  publish_config-Says :
      (write_timeout : ℕ)
      → Says
          (publish_config app_client_id bundle c max_message_size_bytes write_timeout)
          (publish_table write_timeout)
  unfolding publish_config
  publish_config-Says write_timeout =
      let acks = set-Says "acks" "all" _ _ (client_config-Says app_client_id bundle c) in
      let once = set-Says "enable.idempotence" "false" _ _ acks in
      let bytes = set-Says "message.max.bytes" (to_string max_message_size_bytes) _ _ once in
      let timeout = set-Says "message.timeout.ms" (to_string (max write_timeout 1)) _ _ bytes in
      set-Says "linger.ms" "0" _ _ timeout

prefetch_kbytes_bounds :
    (n : ℕ)
    → (n ≤ prefetch_kbytes n * 1024)
      × (8192 ≤ prefetch_kbytes n)
      × (prefetch_kbytes n ≤ max 8192 (n / 512))
unfolding prefetch_kbytes
prefetch_kbytes_bounds n = (omega arith, omega arith, omega arith)

-- The queue of a fetch holds a message of the largest size, eight megabytes at least, and no more
-- than twice that size beyond it; a wait for room in it is ten milliseconds.
pub fetch_consumer_config_queue :
    (app_client_id bundle : Option String) (c : Connection) (max_message_size_bytes : ℕ)
    → let config = fetch_consumer_config app_client_id bundle c max_message_size_bytes in
      (kbytes : ℕ) × (get config "queued.max.messages.kbytes" ≡ some (to_string kbytes))
      × (get config "max.partition.fetch.bytes" ≡ some (to_string max_message_size_bytes))
      × (get config "fetch.queue.backoff.ms" ≡ some "10")
      × (max_message_size_bytes ≤ kbytes * 1024)
      × (8192 ≤ kbytes)
      × (kbytes ≤ max 8192 (max_message_size_bytes / 512))
fetch_consumer_config_queue app_client_id bundle c n =
    let said = fetch_consumer_config-Says app_client_id bundle c n in
    let (holds, least, most) = prefetch_kbytes_bounds n in
    (
      prefetch_kbytes n,
      said.says "queued.max.messages.kbytes",
      said.says "max.partition.fetch.bytes",
      said.says "fetch.queue.backoff.ms",
      holds,
      least,
      most,
    )

-- Neither a fetch nor a publish creates a topic; a fetch commits no offsets, and is told when a
-- partition ends; a publish waits for all replicas, and for a millisecond at least; and both keep
-- every property of the connection's clients that they do not set themselves.
pub configs_keep_cluster :
    (app_client_id bundle : Option String) (c : Connection)
    (max_message_size_bytes write_timeout : ℕ)
    → let fetch = fetch_consumer_config app_client_id bundle c max_message_size_bytes in
      let publish = publish_config app_client_id bundle c max_message_size_bytes write_timeout in
      (get fetch "allow.auto.create.topics" ≡ some "false")
      × (get publish "allow.auto.create.topics" ≡ some "false")
      × (get fetch "enable.auto.commit" ≡ some "false")
      × (get fetch "enable.partition.eof" ≡ some "true")
      × (get publish "acks" ≡ some "all")
      × (get publish "message.timeout.ms" ≡ some (to_string (max write_timeout 1)))
      × ((key : String)
          → get fetch key ≡ value (fetch_table app_client_id bundle c max_message_size_bytes) key)
      × ((key : String)
          → get publish key
            ≡ value (publish_table app_client_id bundle c max_message_size_bytes write_timeout) key)
configs_keep_cluster app_client_id bundle c n write_timeout =
    let fetch = fetch_consumer_config-Says app_client_id bundle c n in
    let publish = publish_config-Says app_client_id bundle c n write_timeout in
    (
      fetch.says "allow.auto.create.topics",
      publish.says "allow.auto.create.topics",
      fetch.says "enable.auto.commit",
      fetch.says "enable.partition.eof",
      publish.says "acks",
      publish.says "message.timeout.ms",
      fetch.says,
      publish.says,
    )
