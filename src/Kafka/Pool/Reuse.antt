-- ===== src/Kafka/Pool/Reuse.antt =====
-- A pooled client serves every later request for the same version of its connection.
use offset_explorer_oxide.Common.{
  ℕ, String, List, [], ◌∷◌, All, Option, none, some, inl, inr, ◌≡◌, refl, sym, ap, ◌∙◌, false,
  Bool-cases, arith,
}
use offset_explorer_oxide.Common.Equality.{◌==◌ as key_eq, string_eq}
use offset_explorer_oxide.Common.Dict.{lookup, lookup-insert, lookup-remove, beq_refl}
use offset_explorer_oxide.Core.Errors.{AppError}
use offset_explorer_oxide.Core.Connection.{Connection}
use offset_explorer_oxide.Kafka.Config.{ClientConfig}
use offset_explorer_oxide.Kafka.Pool.{
  PooledClient, Heap, current, pooled_or_created, Clients, metadata_client, Call, metadata, admin,
  releasing, call_pools, after_calls,
}

-- A call that neither asks for the metadata client in another version nor releases the clients.
abbrev pub Keeps : Connection → Call → Type 0
Keeps c (metadata d) = c.id ≡ d.id → c.updated_at ≡ d.updated_at
Keeps c (admin d) = Unit
Keeps c (releasing id) = ¬ (id ≡ c.id)

module _ (c : Connection) (client : ℕ) where
  abbrev held : PooledClient
  held = record { updated_at = c.updated_at; client = client }

  abbrev IsHeld : List (String × PooledClient) → Type 0
  IsHeld pool = lookup c.id pool ≡ some held

  current_found : (found : Option PooledClient) → current found c ≡ some client → found ≡ some held
  current_found none kept = ground (arith, kept)
  current_found (some pooled) kept = elim (Bool-cases (key_eq pooled.updated_at c.updated_at)) [
    | inl same ↦
        let version = (string_eq.agrees pooled.updated_at c.updated_at).0 same in
        ground (arith, same, kept, version)
    | inr other ↦ ground (arith, other, kept)
  ]

  answered-IsHeld :
      (pool : List (String × PooledClient)) (heap : Heap) (config : ClientConfig) (kept : Option ℕ)
      (refusal : Option AppError)
      → (kept ≡ some client → IsHeld pool)
      → (pooled_or_created pool heap c config kept refusal).answer ≡ inr client
      → IsHeld (pooled_or_created pool heap c config kept refusal).pool
  unfolding pooled_or_created
  answered-IsHeld pool heap config (some other) refusal right answer =
      right (ground (arith, answer))
  answered-IsHeld pool heap config none (some e) right answer = ground (arith, answer)
  answered-IsHeld pool heap config none none right answer = ground (
    arith,
    answer,
    beq_refl c.id,
    lookup-insert c.id c.id (record { updated_at = c.updated_at; client = heap.next }) pool,
  )

  other-IsHeld :
      (pool : List (String × PooledClient)) (heap : Heap) (d : Connection) (config : ClientConfig)
      (kept : Option ℕ) (refusal : Option AppError)
      → key_eq d.id c.id ≡ false
      → IsHeld pool
      → IsHeld (pooled_or_created pool heap d config kept refusal).pool
  unfolding pooled_or_created
  other-IsHeld pool heap d config (some kept) refusal other h = h
  other-IsHeld pool heap d config none (some e) other h = h
  other-IsHeld pool heap d config none none other h = ground (
    arith,
    other,
    h,
    lookup-insert d.id c.id (record { updated_at = d.updated_at; client = heap.next }) pool,
  )

  same_held :
      (pool : List (String × PooledClient)) (heap : Heap) (d : Connection) (config : ClientConfig)
      (refusal : Option AppError)
      → c.id ≡ d.id
      → c.updated_at ≡ d.updated_at
      → IsHeld pool
      → pooled_or_created pool heap d config (current (lookup d.id pool) d) refusal
        ≡ record { pool = pool; heap = heap; answer = inr client }
  unfolding pooled_or_created
  same_held pool heap d config refusal named version h =
      let kept : current (lookup d.id pool) d ≡ some client =
        ap (λ i. current (lookup i pool) d) (sym named)
        ∙ ap (λ o. current o d) h
        ∙ ground (arith, version, beq_refl c.updated_at) in
      ap (λ k. pooled_or_created pool heap d config k refusal) kept

  module _ (config : Connection → ClientConfig)
      (refuses_consumer refuses_admin : ClientConfig → Option AppError) where
    call_pools-IsHeld :
        (s : Clients) (call : Call)
        → Keeps c call
        → IsHeld s.pool.metadata_clients
        → IsHeld (call_pools config refuses_consumer refuses_admin s call).pool.metadata_clients
    unfolding call_pools
    call_pools-IsHeld s (metadata d) keeps h = elim (Bool-cases (key_eq d.id c.id)) [
      | inl same ↦
          let named = sym ((string_eq.agrees d.id c.id).0 same) in
          ap (λ made. lookup c.id made.pool)
            (same_held s.pool.metadata_clients s.heap d (config d) (refuses_consumer (config d))
              named (keeps named) h)
          ∙ h
      | inr other ↦
          other-IsHeld s.pool.metadata_clients s.heap d (config d)
            (current (lookup d.id s.pool.metadata_clients) d) (refuses_consumer (config d)) other h
    ]
    call_pools-IsHeld s (admin d) keeps h = h
    call_pools-IsHeld s (releasing id) keeps h =
        ground
          (arith, lookup-remove id c.id s.pool.metadata_clients, string_eq.agrees id c.id, h, keeps)

    after_calls-IsHeld :
        (s : Clients) (calls : List Call)
        → All (Keeps c) calls
        → IsHeld s.pool.metadata_clients
        → IsHeld (after_calls config refuses_consumer refuses_admin s calls).pool.metadata_clients
    unfolding after_calls
    after_calls-IsHeld s [] keeps h = h
    after_calls-IsHeld s (call ∷ calls) keeps h =
        after_calls-IsHeld (call_pools config refuses_consumer refuses_admin s call) calls keeps.1
          (call_pools-IsHeld s call keeps.0 h)

    metadata_client-IsHeld :
        (s : Clients)
        → (metadata_client config refuses_consumer s c).1 ≡ inr client
        → IsHeld (metadata_client config refuses_consumer s c).0.pool.metadata_clients
    unfolding metadata_client
    metadata_client-IsHeld s answer =
        answered-IsHeld s.pool.metadata_clients s.heap (config c)
          (current (lookup c.id s.pool.metadata_clients) c) (refuses_consumer (config c))
          (current_found (lookup c.id s.pool.metadata_clients)) answer

    metadata_client_held :
        (s : Clients)
        → IsHeld s.pool.metadata_clients
        → metadata_client config refuses_consumer s c ≡ (s, inr client)
    unfolding metadata_client
    metadata_client_held s h =
        ap
          (λ made. (
            record {
              pool = record { metadata_clients = made.pool; admin_clients = s.pool.admin_clients };
              heap = made.heap;
            },
            made.answer,
          ))
          (same_held s.pool.metadata_clients s.heap c (config c) (refuses_consumer (config c)) refl
            refl h)

-- After a request for the metadata client of a connection is answered with a client, and any calls
-- that neither ask for that client in another version of the connection nor release its clients, the
-- same request is answered with the same client and changes nothing: no second client is built.
pub metadata_client_reused :
    (config : Connection → ClientConfig)
    (refuses_consumer refuses_admin : ClientConfig → Option AppError) (s : Clients) (c : Connection)
    (client : ℕ) (calls : List Call)
    → (metadata_client config refuses_consumer s c).1 ≡ inr client
    → All (Keeps c) calls
    → let left =
        after_calls config refuses_consumer refuses_admin
          (metadata_client config refuses_consumer s c).0
          calls in
      metadata_client config refuses_consumer left c ≡ (left, inr client)
metadata_client_reused config refuses_consumer refuses_admin s c client calls answer keeps =
    metadata_client_held c client config refuses_consumer refuses_admin
      (after_calls config refuses_consumer refuses_admin
        (metadata_client config refuses_consumer s c).0 calls)
      (after_calls-IsHeld c client config refuses_consumer refuses_admin
        (metadata_client config refuses_consumer s c).0 calls keeps
        (metadata_client-IsHeld c client config refuses_consumer refuses_admin s answer))
