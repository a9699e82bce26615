-- ===== src/Kafka/Pool/Versions.antt =====
-- A client is handed out only while the connection has the version that the client was built from.
use offset_explorer_oxide.Common.{String, List, [], ◌∷◌, All, Option, ◌≡◌, sym, ◌∙◌, arith}
use offset_explorer_oxide.Common.Equality.{string_eq}
use offset_explorer_oxide.Common.Dict.{lookup, lookup-nil}
use offset_explorer_oxide.Core.Errors.{AppError}
use offset_explorer_oxide.Core.Connection.{Connection}
use offset_explorer_oxide.Kafka.Config.{ClientConfig}
use offset_explorer_oxide.Kafka.Pool.{
  PooledClient, Heap, current, pooled_or_created, Clients, metadata_client, admin_client, Call,
  metadata, admin, releasing, call_pools, after_calls, no_clients,
}
use offset_explorer_oxide.Kafka.Pool.Built.{
  Answered, AreBuilt, AreBuilt-remove, IsServed, current-some, served,
}

module _ (config : Connection → ClientConfig)
    (refuses_consumer refuses_admin : ClientConfig → Option AppError)
    (settings : String → String → ClientConfig) where
  -- The id and the version of the connection that a call is about determine its configuration.
  abbrev pub AsSaved : Call → Type 0
  AsSaved (metadata c) = config c ≡ settings c.id c.updated_at
  AsSaved (admin c) = config c ≡ settings c.id c.updated_at
  AsSaved (releasing id) = Unit

  record IsCurrent (s : Clients) : Type 0 where
    metadata_built : AreBuilt settings s.heap s.pool.metadata_clients
    admin_built : AreBuilt settings s.heap s.pool.admin_clients

  asked_metadata :
      (s : Clients) (c : Connection)
      → config c ≡ settings c.id c.updated_at
      → IsCurrent s
      → IsServed settings s.heap (config c) (refuses_consumer (config c)) (
          pooled_or_created s.pool.metadata_clients s.heap c
            (config c)
            (current (lookup c.id s.pool.metadata_clients) c)
            (refuses_consumer (config c)))
  asked_metadata s c saved ok =
      served settings s.heap c (config c) s.pool.metadata_clients
        (current (lookup c.id s.pool.metadata_clients) c) (refuses_consumer (config c)) saved
        ok.metadata_built
        (λ client kept.
          current-some settings s.heap c (lookup c.id s.pool.metadata_clients) client
            (ok.metadata_built c.id) kept
          ∙ sym saved)

  asked_admin :
      (s : Clients) (c : Connection)
      → config c ≡ settings c.id c.updated_at
      → IsCurrent s
      → IsServed settings s.heap (config c) (refuses_admin (config c)) (
          pooled_or_created s.pool.admin_clients s.heap c
            (config c)
            (current (lookup c.id s.pool.admin_clients) c)
            (refuses_admin (config c)))
  asked_admin s c saved ok =
      served settings s.heap c (config c) s.pool.admin_clients
        (current (lookup c.id s.pool.admin_clients) c) (refuses_admin (config c)) saved
        ok.admin_built
        (λ client kept.
          current-some settings s.heap c (lookup c.id s.pool.admin_clients) client
            (ok.admin_built c.id) kept
          ∙ sym saved)

  call_pools-IsCurrent :
      (s : Clients) (call : Call)
      → AsSaved call
      → IsCurrent s
      → IsCurrent (call_pools config refuses_consumer refuses_admin s call)
  unfolding call_pools
  call_pools-IsCurrent s (metadata c) saved ok =
      let made = asked_metadata s c saved ok in
      record {
        metadata_built = made.pooled_built;
        admin_built = made.others_built s.pool.admin_clients ok.admin_built;
      }
  call_pools-IsCurrent s (admin c) saved ok =
      let made = asked_admin s c saved ok in
      record {
        metadata_built = made.others_built s.pool.metadata_clients ok.metadata_built;
        admin_built = made.pooled_built;
      }
  call_pools-IsCurrent s (releasing id) saved ok = record {
    metadata_built = AreBuilt-remove settings s.heap id s.pool.metadata_clients ok.metadata_built;
    admin_built = AreBuilt-remove settings s.heap id s.pool.admin_clients ok.admin_built;
  }

  after_calls-IsCurrent :
      (s : Clients) (calls : List Call)
      → All AsSaved calls
      → IsCurrent s
      → IsCurrent (after_calls config refuses_consumer refuses_admin s calls)
  unfolding after_calls
  after_calls-IsCurrent s [] saved ok = ok
  after_calls-IsCurrent s (call ∷ calls) saved ok =
      after_calls-IsCurrent (call_pools config refuses_consumer refuses_admin s call) calls saved.1
        (call_pools-IsCurrent s call saved.0 ok)

-- Where the id and the version of a saved connection determine its configuration, after any calls of
-- the pools, which start empty, a request for either client of a connection is answered with a client
-- that was built with the connection's present configuration, or building one fails and the request
-- fails with that error: a connection that was edited is never served by a client of its old settings.
pub client_of_version :
    (config : Connection → ClientConfig)
    (refuses_consumer refuses_admin : ClientConfig → Option AppError)
    (settings : String → String → ClientConfig) (heap : Heap) (calls : List Call) (c : Connection)
    → All (AsSaved config refuses_consumer refuses_admin settings) calls
    → config c ≡ settings c.id c.updated_at
    → let s = after_calls config refuses_consumer refuses_admin (no_clients heap) calls in
      let (left, answer) = metadata_client config refuses_consumer s c in
      let (admin_left, admin_answer) = admin_client config refuses_admin s c in
      Answered (config c) (refuses_consumer (config c)) left.heap answer
      × Answered (config c) (refuses_admin (config c)) admin_left.heap admin_answer
unfolding metadata_client admin_client no_clients
client_of_version config refuses_consumer refuses_admin settings heap calls c saved present =
    let ok =
      after_calls-IsCurrent config refuses_consumer refuses_admin settings (no_clients heap) calls
        saved
        (record {
          metadata_built = λ id pooled h. ground (arith, lookup-nil {V = PooledClient} id, h);
          admin_built = λ id pooled h. ground (arith, lookup-nil {V = PooledClient} id, h);
        }) in
    let s = after_calls config refuses_consumer refuses_admin (no_clients heap) calls in
    (
      (asked_metadata config refuses_consumer refuses_admin settings s c present ok).answered,
      (asked_admin config refuses_consumer refuses_admin settings s c present ok).answered,
    )
