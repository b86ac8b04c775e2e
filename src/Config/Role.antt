-- ===== src/Config/Role.antt =====
-- The role of a process, as config/config.go tells it in two ways.
use advo_cache.Base.{
  ◌≡◌, ◌↔◌, inl, inr, Bool, true, false, not, String, arith, ◌==◌, text_key, if◌then◌else◌, eq_iff,
  refl, Bool-cases,
}
use advo_cache.Config.{Config, is_replica, get_role}

-- A role that the documentation names, or none.
abbrev pub is_known : String → Bool
is_known r = if r == "" then true else if r == "leader" then true else r == "replica"

replica_lem :
    (c : Config)
    → is_replica c ≡ (
        if c.role == "replica"
        then true
        else if c.role == "leader"
        then false
        else not (c.leader_address == ""))
unfolding is_replica
replica_lem c = refl

role_lem :
    (c : Config)
    → (get_role c == "replica")
      ≡ (if c.role == "" then not (c.leader_address == "") else c.role == "replica")
unfolding get_role
role_lem c = elim (Bool-cases (c.role == "")) [
  | inr filled ↦ rw filled refl
  | inl blank ↦ elim (Bool-cases (c.leader_address == "")) [
    | inl alone ↦ rw (blank, alone) (ground (arith, eq_iff "leader" "replica"))
    | inr led ↦ rw (blank, led) (ground (arith, eq_iff "replica" "replica"))
  ]
]

-- For the roles leader and replica and for none, IsReplica holds exactly if GetRole is replica. For
-- any other role, the two agree in this way exactly if no leader address is given.
pub is_replica-get_role :
    (c : Config)
    → (is_replica c ≡ (get_role c == "replica"))
      ↔ ((if is_known c.role then true else c.leader_address == "") ≡ true)
is_replica-get_role c =
    rw (replica_lem c, role_lem c)
      (ground (
        arith,
        eq_iff c.role "",
        eq_iff c.role "leader",
        eq_iff c.role "replica",
        eq_iff "leader" "replica",
        eq_iff "" "replica",
        eq_iff "" "leader",
      ))
