-- ===== src/Kafka/Pool/Built.antt =====
-- What one request leaves in a pool of clients that were built from the versions they stand for.
use offset_explorer_oxide.Common.{
  ℕ, ◌<◌, String, List, Option, none, some, ◌⊎◌, inl, inr, ◌≡◌, refl, Bool-cases, arith,
}
use mathlib.Core.Path.{subst}
use offset_explorer_oxide.Common.Equality.{◌==◌ as key_eq, string_eq}
use offset_explorer_oxide.Common.Dict.{remove, lookup, insert, lookup-insert, lookup-remove}
use offset_explorer_oxide.Core.Errors.{AppError}
use offset_explorer_oxide.Core.Connection.{Connection}
use offset_explorer_oxide.Kafka.Config.{ClientConfig}
use offset_explorer_oxide.Kafka.Pool.{
  PooledClient, Heap, allocated, current, Pooled, pooled_or_created,
}

-- A client is handed out that was built with the configuration, or building it fails with the error.
abbrev pub Answered : ClientConfig → Option AppError → Heap → AppError ⊎ ℕ → Type 0
Answered config refusal heap answer =
    ((client : ℕ) × (answer ≡ inr client) × (heap.built_with client ≡ config))
    ⊎ ((e : AppError) × (refusal ≡ some e) × (answer ≡ inl e))

module _ (settings : String → String → ClientConfig) where
  -- Every pooled client was allocated, from the settings of the version that it stands for.
  pub record IsBuilt (heap : Heap) (id : String) (pooled : PooledClient) : Type 0 where
    pub allocated_before : pooled.client < heap.next
    pub from_version : heap.built_with pooled.client ≡ settings id pooled.updated_at

  abbrev pub AreBuilt : Heap → List (String × PooledClient) → Type 0
  AreBuilt heap pool =
      (id : String) (pooled : PooledClient) → lookup id pool ≡ some pooled → IsBuilt heap id pooled

  IsBuilt-allocated :
      (heap : Heap) (config : ClientConfig) (id : String) (pooled : PooledClient)
      → IsBuilt heap id pooled
      → IsBuilt (allocated heap config) id pooled
  IsBuilt-allocated heap config id pooled old = record {
    allocated_before = omega (arith, old.allocated_before);
    from_version = ground (arith, old.allocated_before, old.from_version);
  }

  pub AreBuilt-remove :
      (heap : Heap) (gone : String) (pool : List (String × PooledClient))
      → AreBuilt heap pool
      → AreBuilt heap (remove gone pool)
  AreBuilt-remove heap gone pool built id pooled h = elim (Bool-cases (key_eq gone id)) [
    | inl same ↦ ground (arith, same, lookup-remove gone id pool, h)
    | inr other ↦ built id pooled (ground (arith, other, lookup-remove gone id pool, h))
  ]

  IsBuilt-new :
      (heap : Heap) (id updated_at : String) (config : ClientConfig)
      → config ≡ settings id updated_at
      → IsBuilt (allocated heap config) id (record { updated_at = updated_at; client = heap.next })
  IsBuilt-new heap id updated_at config saved = record {
    allocated_before = omega arith;
    from_version = ground (arith, saved);
  }

  AreBuilt-insert :
      (heap : Heap) (connection : Connection) (config : ClientConfig)
      (pool : List (String × PooledClient))
      → config ≡ settings connection.id connection.updated_at
      → AreBuilt heap pool
      → AreBuilt (allocated heap config) (
          insert connection.id
            (record { updated_at = connection.updated_at; client = heap.next })
            pool)
  AreBuilt-insert heap connection config pool saved built id pooled h =
      let added : PooledClient = record {
        updated_at = connection.updated_at;
        client = heap.next;
      } in
      elim (Bool-cases (key_eq connection.id id)) [
        | inl same ↦
            let named : connection.id ≡ id = (string_eq.agrees connection.id id).0 same in
            let found : added ≡ pooled =
              ground (arith, same, lookup-insert connection.id id added pool, h) in
            subst (λ i. IsBuilt (allocated heap config) i pooled) named
              (subst (IsBuilt (allocated heap config) connection.id) found
                (IsBuilt-new heap connection.id connection.updated_at config saved))
        | inr other ↦
            IsBuilt-allocated heap config id pooled (
              built id pooled (ground (arith, other, lookup-insert connection.id id added pool, h)))
      ]

  -- What one request leaves and answers, from pools of clients that were built from their versions.
  pub record IsServed (heap : Heap) (config : ClientConfig) (refusal : Option AppError)
      (made : Pooled) : Type 0 where
    pub pooled_built : AreBuilt made.heap made.pool
    pub others_built :
        (pool : List (String × PooledClient)) → AreBuilt heap pool → AreBuilt made.heap pool
    pub answered : Answered config refusal made.heap made.answer

  pub current-some :
      (heap : Heap) (connection : Connection) (found : Option PooledClient) (client : ℕ)
      → ((pooled : PooledClient) → found ≡ some pooled → IsBuilt heap connection.id pooled)
      → current found connection ≡ some client
      → heap.built_with client ≡ settings connection.id connection.updated_at
  current-some heap connection none client built h = ground (arith, h)
  current-some heap connection (some pooled) client built h =
      let here = built pooled refl in
      elim (Bool-cases (key_eq pooled.updated_at connection.updated_at)) [
        | inl same ↦
            let version : pooled.updated_at ≡ connection.updated_at =
              (string_eq.agrees pooled.updated_at connection.updated_at).0 same in
            ground (arith, same, h, version, here.from_version)
        | inr other ↦ ground (arith, other, h)
      ]

  pub served :
      (heap : Heap) (connection : Connection) (config : ClientConfig)
      (pool : List (String × PooledClient)) (kept : Option ℕ) (refusal : Option AppError)
      → config ≡ settings connection.id connection.updated_at
      → AreBuilt heap pool
      → ((client : ℕ) → kept ≡ some client → heap.built_with client ≡ config)
      → IsServed heap config refusal (pooled_or_created pool heap connection config kept refusal)
  unfolding pooled_or_created
  served heap connection config pool (some client) refusal saved built right = record {
    pooled_built = built;
    others_built = λ other h. h;
    answered = inl (client, refl, right client refl);
  }
  served heap connection config pool none (some e) saved built right = record {
    pooled_built = built;
    others_built = λ other h. h;
    answered = inr (e, refl, refl);
  }
  served heap connection config pool none none saved built right = record {
    pooled_built = AreBuilt-insert heap connection config pool saved built;
    others_built =
        λ other h id pooled known. IsBuilt-allocated heap config id pooled (h id pooled known);
    answered = inl (heap.next, refl, ground arith);
  }
