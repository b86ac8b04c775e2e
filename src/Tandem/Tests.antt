-- ===== src/Tandem/Tests.antt =====
-- Two clients of one sheet: the second reads what the first writes.
use advo_cache.Base.{
  ℕ, ◌≡◌, refl, true, false, [], ◌∷◌, Option, none, some, List, arith, text_key, conn_key, eq_iff,
  ◌=?◌, if◌then◌else◌,
}
use advo_cache.Base.Dict.{lookup, has_key}
use advo_cache.Value.{text}
use advo_cache.Config.{default_config, cache_ttl}
use advo_cache.Cache.{update, jitter_bound}
use advo_cache.Cache.Lru
use advo_cache.Cache.Lru.{seek, forget}
use advo_cache.Message.{Request, Message}
use advo_cache.Sheet.{Sheet, Sheets, Conn, ok, get_or_create_sheet}
use advo_cache.Sheet
use advo_cache.Sheet.Tenancy.{new_lem}
use advo_cache.Server.{Outside, Reads, Handler, handle_open}
use advo_cache.Server.System.Caches.{empty_Enumerates}
use advo_cache.Server.Writes.{Stores}
use advo_cache.Reader.{Reader, get, connect_to}
use advo_cache.Reader.Sync.{InSync}
use advo_cache.Tandem.{inbox}
use advo_cache.Tandem.Entering.{attempt, handle_open-InSync}
use advo_cache.Replica
use advo_cache.Replica.{Client}
use advo_cache.Sheet.{audience}
use mathlib.Core.Path.{subst}
use advo_cache.Cache.{Cache, Entry}
use advo_cache.Cache.Methods.{set-Implements}
use advo_cache.Cache.Rep.{Holds}
use advo_cache.Cache.Lru.{value_of}
use advo_cache.Value.{null_placeholder}
use advo_cache.Reader.{hear}
use advo_cache.Server.{handle_set_null}
use advo_cache.Tandem.Stale.{handle_set_null-unheard}
use advo_cache.Tandem.Session.{Paired, Call, serve, Told, Serves, serve-Paired}
use advo_cache.Server.{dispatch, handle_lock, handle_register_replica}
use advo_cache.Tandem.Copying.{Exchange, AreCopied, Standing, copy, copy-Standing}
use advo_cache.Tandem.Crossing.{both, crossed_sets}
use advo_cache.Reader.{set_value}
use advo_cache.Server.System.Members.{occurrences}
use advo_cache.Server.{keys}
use advo_cache.Base.{length, ◌≤◌}
use advo_cache.Tandem.Joining.{Registers, handle_register_replica-Standing}
use advo_cache.Server.{dump_sheets}
use advo_cache.Tandem.CatchUp.{SameValues, handle_register_replica-SameValues}
use advo_cache.Replica.Follow
use advo_cache.Base.Dict.{Enumerates-self}
use advo_cache.Base.{true}
use advo_cache.Lock.{try_acquire}
use advo_cache.Base.{ap, ◌∙◌, inl, inr, Bool-cases}
use advo_cache.Cache.{dump, new, new_with_capacity}
use advo_cache.Sheet.{new_replica_sheet}
use advo_cache.Base.Dict.{Enumerates}

abbrev outside : Outside
outside = record {
  bcrypt = record { generate = λ _ p. some p; compare = λ hash q. true };
  format_pointer = λ _. "0x1";
  parse_time = λ _. none;
  format_time = λ _. "";
}

abbrev reads : Reads
reads = record {
  now = 100;
  seen = 100;
  again = 100;
  later = 100;
  salt = 0;
  int63n = λ n. 0;
  order = λ _. [];
  visit = [];
  lock_order = [];
}

abbrev shop : Sheet
shop = record {
  id = "shop";
  password_hash = some "pw";
  cache = new_lem.0;
  collaborators = 1 ∷ 2 ∷ [];
}

abbrev place : Conn → Option ℕ
place c = if c =? 3 then none else some 0

abbrev server : Handler
server = record {
  sheets = record { cells = λ _. shop; fresh = 1; by_id = ("shop", 0) ∷ [] };
  locks = [];
  clients = (1, 1) ∷ (2, 2) ∷ (3, 3) ∷ [];
  joined = place;
  replicas = [];
  closed = [];
  outbox = [];
}

abbrev request : Request
request = record {
  action = "set";
  sheet = "shop";
  password = "pw";
  key = "k";
  value = text "v";
  ttl = 0;
  prefix = "";
  suffix = "";
  jitter = false;
  instance_id = "";
  started_at = "";
  lock_ttl = 0;
}

abbrev reader : Reader
reader = record {
  config = record {
    leader_addr = "a";
    backup_addr = "";
    sheet = "shop";
    password = "pw";
    max_reconnect_attempts = 3;
    reconnect_delay = 1;
  };
  has_conn = true;
  cache = [];
  connected = true;
  closed = false;
  current_addr = "a";
  sent = [];
}

in_sync : InSync [] reader
unfolding get lookup seek
in_sync k = refl

abbrev entered : Sheets
entered = record server.sheets { cells = update server.sheets.cells 0 shop }

shop_found : get_or_create_sheet outside.bcrypt "shop" "pw" 0 server.sheets ≡ some (entered, ok 0)
unfolding get_or_create_sheet Sheet.enter Sheet.validate_password lookup
shop_found = ground (arith, eq_iff "shop" "", eq_iff "pw" "", eq_iff "shop" "shop")

handle_open-InSync_example :
    (h' : Handler) × (sent : List (Conn × Message)) × (r' : Reader) × (handle_open default_config
        outside reads 3 request server
      ≡ some h')
    × (h'.outbox ≡ sent)
    × (h'.joined 3 ≡ some 0)
    × Stores 0 [] h'
    × (connect_to "a" (attempt (inbox 3 sent)) reader ≡ (r', none))
    × (r'.connected ≡ true)
    × InSync [] r'
unfolding get_or_create_sheet
handle_open-InSync_example =
    handle_open-InSync default_config outside reads 3 request server "a" reader entered 0 [] refl
      (ground (arith, eq_iff "shop" "", eq_iff "pw" "")) shop_found new_lem.2
      (empty_Enumerates new_lem.0 new_lem.2)

abbrev leader : Handler
leader = record server { replicas = (4, record { instance_id = "r"; started_at = 50 }) ∷ [] }

abbrev follower : Client
follower = record {
  has_conn = true;
  sheets = record { cells = λ _. shop; fresh = 1; by_id = ("shop", 0) ∷ [] };
  last_heartbeat = 100;
  is_promoted = false;
}

abbrev later : ℕ → Replica.Reads
later n = record { now = 105; set_at = λ _ _. 105; int63n = λ n. 0; order = λ _. [] }

-- The key "k" is in the cache, and in the copy of the reader.
abbrev item : Entry
item = record { key = "k"; value = text "v"; expires_at = 950 }

abbrev stocked : Cache
stocked = (set-Implements new_lem.0 [] "k" (text "v") 900 50 new_lem.2).0

one_item : (Lru.set new_lem.0.capacity "k" (text "v") 900 50 []).0 ≡ item ∷ []
unfolding Lru.set Lru.make_room seek
one_item = rw new_lem.3 refl

stocked-Holds : Holds stocked (item ∷ [])
stocked-Holds =
    subst (Holds stocked) one_item (set-Implements new_lem.0 [] "k" (text "v") 900 50 new_lem.2).2

abbrev stocked_server : Handler
stocked_server = record server {
  sheets = record server.sheets { cells = λ _. record shop { cache = stocked } };
}

abbrev stocked_reader : Reader
stocked_reader = record reader { cache = ("k", text "v") ∷ [] }

stocked-InSync : InSync (item ∷ []) stocked_reader
unfolding get lookup seek
stocked-InSync k = ground arith

handle_set_null-unheard_example :
    (h' : Handler) × (sent : List (Conn × Message)) × (handle_set_null default_config outside reads
        1 0 request stocked_server
      ≡ some h')
    × (h'.outbox ≡ sent)
    × Stores 0
        (Lru.set stocked.capacity "k"
          (text null_placeholder)
          (cache_ttl default_config)
          100
          (item ∷ [])).0
        h'
    × (value_of (
          seek "k"
            (Lru.set stocked.capacity "k"
              (text null_placeholder)
              (cache_ttl default_config)
              100
              (item ∷ [])).0)
        ≡ some (text null_placeholder))
    × (get "k" (hear (inbox 2 sent) stocked_reader) ≡ some (text "v"))
unfolding has_key seek
handle_set_null-unheard_example =
    handle_set_null-unheard default_config outside reads 1 2 0 request stocked_server stocked_reader
      (item ∷ []) item stocked-Holds (ground (arith, eq_iff "k" "k")) refl refl stocked-InSync

-- Another client locks a key, and then sets it.
abbrev calls : List Call
calls =
    record { conn = 1; given = reads; req = record request { action = "lock" } }
    ∷ record { conn = 1; given = reads; req = request }
    ∷ []

paired : Paired 0 2 server reader
unfolding seek has_key
paired = ([], new_lem.2, in_sync, refl, refl, refl, (refl, refl))

abbrev sheets_of : Option Handler → Sheets
sheets_of none = server.sheets
sheets_of (some h) = h.sheets

same_visit : (m : Sheets) → server.sheets ≡ m → Enumerates (reads.order 0) (m.cells 0).cache.nodes
same_visit m same =
    subst (λ m. Enumerates (reads.order 0) (m.cells 0).cache.nodes) same
      (empty_Enumerates new_lem.0 new_lem.2)

calls-Told : Told default_config outside 0 2 calls server
unfolding dispatch handle_lock try_acquire lookup
calls-Told = (
  refl,
  same_visit server.sheets refl,
  λ es holds. refl,
  λ h' ran. (refl, same_visit h'.sheets (ap sheets_of ran), λ es holds. refl, λ h'' ran'. tt),
)

serve-Paired_example : Serves 0 2 server reader (serve default_config outside 0 calls server)
unfolding jitter_bound
serve-Paired_example =
    serve-Paired default_config outside 0 2 refl calls server reader paired calls-Told

abbrev registering : Outside
registering = record outside { parse_time = λ _. some 50 }

abbrev all_sheets : Reads
all_sheets = record reads { visit = ("shop", 0) ∷ [] }

abbrev registration : Request
registration = record request { instance_id = "r" }

abbrev new_follower : Client
new_follower = record follower { sheets = record { cells = λ _. shop; fresh = 0; by_id = [] } }

handle_register_replica-SameValues_example :
    (h' : Handler) × (sent : List (Conn × Message)) × (c' : Client) × (es' : List Entry)
    × (handle_register_replica default_config registering all_sheets 3 registration server
        ≡ some h')
    × (h'.outbox ≡ sent)
    × (h'.sheets ≡ server.sheets)
    × (occurrences 3 (keys h'.replicas) ≡ 1)
    × (Replica.hear default_config later 0 (inbox 3 sent) new_follower ≡ some c')
    × (c'.has_conn ≡ true)
    × Follow.Follows "shop" es' c'
    × SameValues [] es'
    × (length es' ≤ 0)
unfolding lookup has_key
handle_register_replica-SameValues_example =
    handle_register_replica-SameValues default_config registering all_sheets 3 registration server
      50 default_config later 0 new_follower "shop" 0 [] refl refl
      (Enumerates-self (("shop", 0) ∷ []) (refl, tt))
      (λ id p at. (([], new_lem.2), empty_Enumerates new_lem.0 new_lem.2, omega arith)) refl
      (λ j. refl) refl new_lem.2

-- A client sets a key with jitter.
abbrev exchanges : List Exchange
exchanges =
    record { conn = 1; given = reads; req = record request { jitter = true }; heard = later } ∷ []

standing : Standing default_config outside default_config 0 "shop" 4 1 leader follower
unfolding lookup seek
standing = (
  ([], [], new_lem.2, (0, refl, new_lem.2, new_lem.3), (λ k. refl), refl, omega arith),
  refl,
  refl,
  refl,
  refl,
)

exchanges-AreCopied :
    AreCopied default_config outside default_config 0 "shop" 4 exchanges leader follower
exchanges-AreCopied = (
  refl,
  empty_Enumerates new_lem.0 new_lem.2,
  (λ q at. empty_Enumerates new_lem.0 new_lem.2),
  (λ es holds. refl),
  (λ h' c' ran heard. tt),
)

copy-Standing_example :
    (h' : Handler) × (c' : Client) × (copy default_config outside default_config 0 "shop" 4
        exchanges leader follower
      ≡ some (h', c'))
    × Standing default_config outside default_config 0 "shop" 4 0 h' c'
unfolding jitter_bound
copy-Standing_example =
    copy-Standing default_config outside default_config 0 "shop" 4 refl refl exchanges leader
      follower standing exchanges-AreCopied

abbrev own_request : Request
own_request = record request { value = text "w" }

crossed_sets_example :
    (h₂ : Handler) × (sent : List (Conn × Message)) × (es₂ : List Entry) × (both default_config
        outside reads reads 1 2 0 request own_request server
      ≡ some h₂)
    × (h₂.outbox ≡ sent)
    × Stores 0 es₂ h₂
    × (value_of (seek "k" es₂) ≡ some (text "w"))
    × (get "k" (hear (inbox 2 sent) (set_value "k" (text "w") true reader).0) ≡ some (text "v"))
unfolding jitter_bound has_key
crossed_sets_example =
    crossed_sets default_config outside reads reads 1 2 0 request own_request server reader [] refl
      new_lem.2 refl refl refl (refl, refl) refl

abbrev sheets_beside : Option Client → Sheets
sheets_beside none = server.sheets
sheets_beside (some c) = c.sheets

abbrev written_by : Option Handler → List (Conn × Message)
written_by none = []
written_by (some h) = h.outbox

module _ (h' : Handler) (c' : Client)
    (joined : Registers default_config registering all_sheets 3 registration server default_config
      later new_follower "shop" 0 [] h' c') where
  visit_after : Enumerates [] (h'.sheets.cells 0).cache.nodes
  unfolding handle_register_replica dump_sheets dump
  visit_after = let (sent, ran, wrote, heard) = joined in same_visit h'.sheets (ap sheets_of ran)

  follower_after :
      sheets_beside (
        Replica.hear default_config later 0
          (inbox 3 (
            written_by (
              handle_register_replica default_config registering all_sheets 3 registration server)))
          new_follower)
      ≡ c'.sheets
  follower_after =
      let (sent, ran, wrote, heard) = joined in
      ap
        (λ run.
          sheets_beside
            (Replica.hear default_config later 0 (inbox 3 (written_by run)) new_follower))
        ran
      ∙ ap (λ ms. sheets_beside (Replica.hear default_config later 0 (inbox 3 ms) new_follower))
          wrote
      ∙ ap sheets_beside heard

  follower_visit : (q : ℕ) → Enumerates [] (c'.sheets.cells q).cache.nodes
  unfolding handle_register_replica dump_sheets dump Replica.hear Replica.handle_message
      Replica.apply_full_state Replica.find_or_add Replica.set_all new_replica_sheet new
      new_with_capacity lookup inbox
  follower_visit q =
      subst (λ m. Enumerates [] (m.cells q).cache.nodes) follower_after
        (elim (Bool-cases (0 =? q)) [
          | inl here ↦ rw here (record { once = tt; same = λ k. refl })
          | inr other ↦ rw other (empty_Enumerates new_lem.0 new_lem.2)
        ])

handle_register_replica-Standing_example :
    (h₁ h₂ : Handler) × (c₁ c₂ : Client) × Registers default_config registering all_sheets 3
      registration server default_config later new_follower "shop" 0 [] h₁ c₁
    × (copy default_config registering default_config 0 "shop" 3 exchanges h₁ c₁ ≡ some (h₂, c₂))
    × Standing default_config registering default_config 0 "shop" 3 0 h₂ c₂
unfolding lookup jitter_bound seek has_key
handle_register_replica-Standing_example =
    handle_register_replica-Standing default_config registering all_sheets 3 registration server
      default_config later new_follower "shop" 0 [] 50 refl refl
      (Enumerates-self (("shop", 0) ∷ []) (refl, tt))
      (λ id p at. (([], new_lem.2), empty_Enumerates new_lem.0 new_lem.2, omega arith)) refl
      (λ j. refl) refl new_lem.2 refl refl refl exchanges refl refl (omega arith)
      (λ h' c' joined. (
        refl,
        visit_after h' c' joined,
        (λ q at. follower_visit h' c' joined q),
        (λ es holds. refl),
        (λ h'' c'' ran heard. tt),
      ))
