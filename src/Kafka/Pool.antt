-- ===== src/Kafka/Pool.antt =====
-- backend/kafka/src/client.rs: the clients that are pooled for the saved connections. A client is the
-- number of its allocation, the heap holds the configuration that each was built with. The locks of
-- the pools make each call one step. That librdkafka builds a client is a parameter: none, or the error.
mod Built
mod Versions
mod Reuse
mod Examples
use offset_explorer_oxide.Common.{
  ℕ, ◌==◌, suc, String, List, [], ◌∷◌, Option, none, some, ◌⊎◌, inl, inr, if◌then◌else◌,
}
use offset_explorer_oxide.Common.Equality.{◌==◌ as key_eq, string_eq}
use offset_explorer_oxide.Common.Dict.{remove, lookup, insert}
use offset_explorer_oxide.Core.Errors.{AppError}
use offset_explorer_oxide.Core.Connection.{Connection}
use offset_explorer_oxide.Kafka.Config.{ClientConfig, client_config}

pub record PooledClient : Type 0 where
  pub updated_at : String
  pub client : ℕ

pub record Pool : Type 0 where
  pub metadata_clients : List (String × PooledClient)
  pub admin_clients : List (String × PooledClient)

unfoldable pub release : Pool → String → Pool
release p connection_id = record {
  metadata_clients = remove connection_id p.metadata_clients;
  admin_clients = remove connection_id p.admin_clients;
}

pub record Heap : Type 0 where
  pub built_with : ℕ → ClientConfig
  pub next : ℕ

abbrev pub allocated : Heap → ClientConfig → Heap
allocated heap config = record {
  built_with = λ client. if client == heap.next then config else heap.built_with client;
  next = suc heap.next;
}

-- The pooled client, unless the connection was edited since.
abbrev pub current : Option PooledClient → Connection → Option ℕ
current none connection = none
current (some pooled) connection =
    if key_eq pooled.updated_at connection.updated_at then some pooled.client else none

pub record Pooled : Type 0 where
  pub pool : List (String × PooledClient)
  pub heap : Heap
  pub answer : AppError ⊎ ℕ

unfoldable pub pooled_or_created :
    List (String × PooledClient)
    → Heap
    → Connection
    → ClientConfig
    → Option ℕ
    → Option AppError
    → Pooled
pooled_or_created pool heap connection config (some client) refusal = record {
  pool = pool;
  heap = heap;
  answer = inr client;
}
pooled_or_created pool heap connection config none (some e) = record {
  pool = pool;
  heap = heap;
  answer = inl e;
}
pooled_or_created pool heap connection config none none = record {
  pool =
      insert connection.id (record { updated_at = connection.updated_at; client = heap.next }) pool;
  heap = allocated heap config;
  answer = inr heap.next;
}

pub record Clients : Type 0 where
  pub pool : Pool
  pub heap : Heap

-- The pools start empty.
unfoldable pub no_clients : Heap → Clients
no_clients heap = record {
  pool = record { metadata_clients = []; admin_clients = [] };
  heap = heap;
}

module _ (config : Connection → ClientConfig) (refuses : ClientConfig → Option AppError) where
  unfoldable pub metadata_client : Clients → Connection → Clients × (AppError ⊎ ℕ)
  unfolding pooled_or_created
  metadata_client s connection =
      let made =
        pooled_or_created s.pool.metadata_clients s.heap connection (config connection)
          (current (lookup connection.id s.pool.metadata_clients) connection)
          (refuses (config connection)) in
      (
        record {
          pool = record { metadata_clients = made.pool; admin_clients = s.pool.admin_clients };
          heap = made.heap;
        },
        made.answer,
      )

  unfoldable pub admin_client : Clients → Connection → Clients × (AppError ⊎ ℕ)
  unfolding pooled_or_created
  admin_client s connection =
      let made =
        pooled_or_created s.pool.admin_clients s.heap connection (config connection)
          (current (lookup connection.id s.pool.admin_clients) connection)
          (refuses (config connection)) in
      (
        record {
          pool = record { metadata_clients = s.pool.metadata_clients; admin_clients = made.pool };
          heap = made.heap;
        },
        made.answer,
      )

-- What the requests and the commands ask of the pools.
pub data Call : Type 0 where
  metadata admin : Connection → Call
  releasing : String → Call

module _ (config : Connection → ClientConfig)
    (refuses_consumer refuses_admin : ClientConfig → Option AppError) where
  unfoldable pub call_pools : Clients → Call → Clients
  unfolding metadata_client admin_client release
  call_pools s (metadata connection) = (metadata_client config refuses_consumer s connection).0
  call_pools s (admin connection) = (admin_client config refuses_admin s connection).0
  call_pools s (releasing id) = record { pool = release s.pool id; heap = s.heap }

  unfoldable pub after_calls : Clients → List Call → Clients
  unfolding call_pools
  after_calls s [] = s
  after_calls s (call ∷ calls) = after_calls (call_pools s call) calls
