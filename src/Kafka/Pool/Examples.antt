-- ===== src/Kafka/Pool/Examples.antt =====
-- A connection that is edited to name other servers, and its clients.
use offset_explorer_oxide.Common.{
  String, List, [], ◌∷◌, none, inr, ◌≡◌, refl, true, false, if◌then◌else◌, arith,
}
use offset_explorer_oxide.Common.Equality.{◌==◌ as key_eq, string_eq}
use offset_explorer_oxide.Common.Dict.{lookup}
use offset_explorer_oxide.Core.Connection.{Connection}
use offset_explorer_oxide.Kafka.Config.{ClientConfig, client_config}
use offset_explorer_oxide.Kafka.Config.Examples.{cluster}
use offset_explorer_oxide.Kafka.Pool.{
  Heap, Call, metadata, admin, releasing, metadata_client, admin_client, after_calls, no_clients,
  pooled_or_created,
}
use offset_explorer_oxide.Kafka.Pool.Built.{Answered}
use offset_explorer_oxide.Kafka.Pool.Versions.{client_of_version}
use offset_explorer_oxide.Kafka.Pool.Reuse.{metadata_client_reused}

abbrev edited : Connection
edited = record cluster { bootstrap_servers = "moved"; updated_at = "later" }

abbrev config : Connection → ClientConfig
config = client_config none none

abbrev settings : String → String → ClientConfig
settings id updated_at = if key_eq updated_at "x" then config cluster else config edited

abbrev empty : Heap
empty = record { built_with = λ _. []; next = 0 }

abbrev before_edit : List Call
before_edit = metadata cluster ∷ admin cluster ∷ []

abbrev others : List Call
others = admin edited ∷ releasing "y" ∷ metadata cluster ∷ []

client_of_version_example :
    let s = after_calls config (λ _. none) (λ _. none) (no_clients empty) before_edit in
    let (left, answer) = metadata_client config (λ _. none) s edited in
    let (admin_left, admin_answer) = admin_client config (λ _. none) s edited in
    Answered (config edited) none left.heap answer
    × Answered (config edited) none admin_left.heap admin_answer
client_of_version_example =
    client_of_version config (λ _. none) (λ _. none) settings empty before_edit edited
      (refl, (refl, tt)) refl

metadata_client_reused_example :
    let s = (metadata_client config (λ _. none) (no_clients empty) cluster).0 in
    let left = after_calls config (λ _. none) (λ _. none) s others in
    metadata_client config (λ _. none) left cluster ≡ (left, inr 0)
unfolding metadata_client pooled_or_created no_clients lookup
metadata_client_reused_example =
    metadata_client_reused config (λ _. none) (λ _. none) (no_clients empty) cluster 0 others refl
      (
        tt,
        (
          λ same. let no : false ≡ true = (string_eq.agrees "y" "x").1 same in ground (arith, no),
          (λ _. refl, tt),
        ),
      )
