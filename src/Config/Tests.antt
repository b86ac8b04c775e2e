-- ===== src/Config/Tests.antt =====
-- The theorem on roles, at a role that is not documented.
use advo_cache.Base.{◌≡◌, ◌↔◌, true, ◌==◌, text_key, if◌then◌else◌}
use advo_cache.Config.{Config, default_config, is_replica, get_role}
use advo_cache.Config.Role.{is_known, is_replica-get_role}

abbrev misspelt : Config
misspelt = record default_config { role = "Replica"; leader_address = "ws://leader" }

is_replica-get_role_example :
    (is_replica misspelt ≡ (get_role misspelt == "replica"))
    ↔ ((if is_known misspelt.role then true else misspelt.leader_address == "") ≡ true)
is_replica-get_role_example = is_replica-get_role misspelt
