-- ===== src/Replica/Tests.antt =====
-- The theorems on replicas, at one replica.
use advo_cache.Base.{◌≡◌, refl, true, false, not, ◌||◌, [], ◌∷◌, none, text_key}
use advo_cache.Config.{default_config}
use advo_cache.Sheet.{Sheet}
use advo_cache.Sheet.Tenancy.{new_lem}
use advo_cache.Replica.{Client, dial_failed, reconnect}
use advo_cache.Base.{ℕ, ◌∷◌, List, some, String, eq_iff, arith}
use advo_cache.Base.Dict.{Dict, lookup, has_key}
use advo_cache.Value.{Value, text}
use advo_cache.Config.{cache_ttl}
use advo_cache.Cache.{Entry, default_capacity}
use advo_cache.Cache.Lru
use advo_cache.Message.{replicate}
use advo_cache.Replica.{Reads, handle_message, apply_full_state}
use advo_cache.Replica.Follow.{Follows}
use advo_cache.Replica.Storing.{Overlays}
use advo_cache.Replica.Load.{apply_full_state_again}
use advo_cache.Replica.Race.{
  Running, listening, Step, dropped, resumed, ticked, advance_all, some_promotes, close, finished,
}
use advo_cache.Replica.Race.Promotion.{
  late_connection, advance_all-promotes, promoted_and_connected, last_tries, closed_and_promoted,
}
use advo_cache.Replica.Failover.{any_succeeds, reconnect-promotes}

abbrev sheet_there : Sheet
sheet_there = record { id = "shop"; password_hash = none; cache = new_lem.0; collaborators = [] }

abbrev client : Client
client = record {
  has_conn = true;
  sheets = record { cells = λ _. sheet_there; fresh = 1; by_id = ("shop", 0) ∷ [] };
  last_heartbeat = 100;
  is_promoted = false;
}

reconnect-promotes_example :
    ((reconnect 3 (λ _. dial_failed) client).is_promoted ≡ not (any_succeeds 3 (λ _. dial_failed)))
    × ((reconnect 3 (λ _. dial_failed) client).has_conn ≡ any_succeeds 3 (λ _. dial_failed))
reconnect-promotes_example = reconnect-promotes 3 (λ _. dial_failed) client refl

abbrev running : Running
running = record { client = client; stage = listening; closed = false }

abbrev late : ℕ
late = 20000000000

-- The connection is lost, an attempt fails, and a tick finds the heartbeat overdue.
abbrev outage : List Step
outage = dropped ∷ resumed dial_failed ∷ ticked late ∷ []

advance_all-promotes_example :
    (advance_all default_config outage running).client.is_promoted
    ≡ (running.client.is_promoted || some_promotes default_config outage running)
advance_all-promotes_example = advance_all-promotes default_config outage running

abbrev reads : Reads
reads = record { now = 105; set_at = λ _ _. 105; int63n = λ n. 0; order = λ _. [] }

client-Follows : Follows "shop" [] client
unfolding lookup
client-Follows = (0, refl, new_lem.2, new_lem.3)

promoted_and_connected_example :
    (s' : Running) × (c' : Client) × (advance_all default_config
        (late_connection default_config late late)
        running
      ≡ s')
    × (s'.client.is_promoted ≡ true)
    × (s'.client.has_conn ≡ true)
    × (s'.stage ≡ listening)
    × (handle_message default_config reads (replicate "shop" "k" (text "v") false) s'.client
        ≡ some c')
    × Follows "shop"
        (Lru.set default_capacity "k" (text "v") (cache_ttl default_config) 105 []).0
        c'
promoted_and_connected_example =
    promoted_and_connected default_config reads running late late "shop" "k" (text "v") [] refl refl
      refl client-Follows

abbrev state : Dict String Value
state = ("k", text "v") ∷ []

apply_full_state_again_example :
    (c' : Client) × (es' : List Entry) × (apply_full_state default_config reads
        (("shop", state) ∷ [])
        client
      ≡ some c')
    × Follows "shop" es' c'
    × Overlays state [] es'
unfolding lookup has_key
apply_full_state_again_example =
    apply_full_state_again default_config reads "shop" state [] client client-Follows
      (λ id p at. (ground arith, ground (arith, eq_iff "shop" id))) (refl, tt) (omega arith)

closed_and_promoted_example :
    (s' : Running) × (close running ≡ some s')
    × ((advance_all default_config
          (last_tries default_config dial_failed dial_failed dial_failed dial_failed)
          s').closed
        ≡ true)
    × ((advance_all default_config
          (last_tries default_config dial_failed dial_failed dial_failed dial_failed)
          s').client.is_promoted
        ≡ true)
    × ((advance_all default_config
          (last_tries default_config dial_failed dial_failed dial_failed dial_failed)
          s').stage
        ≡ finished)
closed_and_promoted_example =
    closed_and_promoted default_config running dial_failed dial_failed dial_failed dial_failed refl
      refl refl refl
