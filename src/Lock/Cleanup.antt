-- ===== src/Lock/Cleanup.antt =====
-- The loops of lock.go over the whole map, whatever the order in which `Range` visits it.
use advo_cache.Base.{
  ◌≡◌, refl, Bool, false, ◌||◌, List, [], ◌∷◌, Option, none, some, String, ◌==◌, text_key,
  if◌then◌else◌, length, arith, eq_iff, count,
}
use advo_cache.Base.Dict.{
  Dict, lookup, remove, lookup-remove, Enumerates, DistinctKeys, lookup-none_of_has_key,
}
use advo_cache.Time.{Time}
use advo_cache.Lock.{
  Lock, Manager, is_expired, collect, delete_keys, delete_collected, release_all_by_owner,
  cleanup_expired,
}

abbrev pub contains : String → List String → Bool
contains k [] = false
contains k (j ∷ js) = (j == k) || contains k js

lookup-delete_keys :
    (k : String) (ks : List String) (m : Manager)
    → lookup k (delete_keys ks m) ≡ (if contains k ks then none else lookup k m)
unfolding delete_keys
lookup-delete_keys k [] m = refl
lookup-delete_keys k (j ∷ js) m =
    ground (arith, lookup-delete_keys k js (remove j m), lookup-remove j k m)

-- The entries that a test picks, as the map has them.
abbrev pub picked : (String → Lock → Bool) → String → Option Lock → Bool
picked test k none = false
picked test k (some l) = test k l

contains-collect :
    (test : String → Lock → Bool) (k : String) (order : Dict String Lock)
    → DistinctKeys order
    → contains k (collect test order) ≡ picked test k (lookup k order)
unfolding collect lookup
contains-collect test k [] d = refl
contains-collect test k ((j, l) ∷ rest) d =
    ground (arith, contains-collect test k rest d.1, eq_iff j k, lookup-none_of_has_key j rest d.0)

length-collect :
    (test : String → Lock → Bool) (order : Dict String Lock)
    → length (collect test order) ≡ count (λ entry. test entry.0 entry.1) order
unfolding collect count
length-collect test [] = refl
length-collect test ((k, l) ∷ rest) = ground (arith, length-collect test rest)

delete_collected_lem :
    (test : String → Lock → Bool) (order : Dict String Lock) (m : Manager) (k : String)
    → Enumerates order m
    → (lookup k (delete_collected test order m).0
        ≡ (if picked test k (lookup k m) then none else lookup k m))
      × ((delete_collected test order m).1 ≡ count (λ entry. test entry.0 entry.1) order)
unfolding delete_collected
delete_collected_lem test order m k visit = (
  ground (
    arith,
    lookup-delete_keys k (collect test order) m,
    contains-collect test k order visit.once,
    visit.same k,
  ),
  length-collect test order,
)

-- When a client goes, all locks that it owns go, and are counted; no other lock does.
pub release_all_by_owner_lem :
    (owner : String) (order : Dict String Lock) (m : Manager) (k : String)
    → Enumerates order m
    → (lookup k (release_all_by_owner owner order m).0
        ≡ (if picked (λ _ l. l.owner == owner) k (lookup k m) then none else lookup k m))
      × ((release_all_by_owner owner order m).1 ≡ count (λ entry. entry.1.owner == owner) order)
unfolding release_all_by_owner
release_all_by_owner_lem owner order m k visit =
    delete_collected_lem (λ _ l. l.owner == owner) order m k visit

-- The cleanup removes and counts the locks that have expired when it looks at them, and no other.
cleanup_expired_lem :
    (clock : String → Time) (order : Dict String Lock) (m : Manager) (k : String)
    → Enumerates order m
    → (lookup k (cleanup_expired clock order m).0
        ≡ (if picked (λ j l. is_expired l (clock j)) k (lookup k m) then none else lookup k m))
      × ((cleanup_expired clock order m).1
          ≡ count (λ entry. is_expired entry.1 (clock entry.0)) order)
unfolding cleanup_expired
cleanup_expired_lem clock order m k visit =
    delete_collected_lem (λ j l. is_expired l (clock j)) order m k visit
