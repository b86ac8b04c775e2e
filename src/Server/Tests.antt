-- ===== src/Server/Tests.antt =====
-- The theorems on the handlers, and runs of them, for a server with one sheet and two clients.
use advo_cache.Base.{
  ℕ, ◌≡◌, refl, false, true, not, ◌&&◌, [], ◌∷◌, Option, none, some, String, arith, ◌==◌, text_key,
  conn_key, eq_iff, if◌then◌else◌, ◌=?◌, keep, length,
}
use advo_cache.Base.Dict.{lookup, has_key, Enumerates-self}
use advo_cache.Value.{text}
use advo_cache.Config.{default_config}
use advo_cache.Lock.Cleanup.{picked}
use advo_cache.Message.{Request}
use advo_cache.Sheet.{Sheet, Conn}
use advo_cache.Sheet.Tenancy.{new_lem}
use advo_cache.Server.{Outside, Reads, Handler, dispatch, on_disconnect}
use advo_cache.Server.Depart.{on_disconnect-leaves}
use advo_cache.Server.Isolation.{SameBut, Safely, dispatch-SameBut}
use advo_cache.Server.Race.{find_sheet, join_sheet, orphaned}
use advo_cache.Server.System.Caches.{empty_Enumerates}
use advo_cache.Server.System.Members.{is_member}
use advo_cache.Sheet.{ok}

abbrev pointer_text : Conn → String
pointer_text c = if c =? 1 then "0x1" else "0x2"

abbrev outside : Outside
outside = record {
  bcrypt = record { generate = λ _ p. some p; compare = λ hash q. hash == q };
  format_pointer = pointer_text;
  parse_time = λ _. none;
  format_time = λ _. "";
}

abbrev reads : Reads
reads = record {
  now = 100;
  seen = 100;
  again = 100;
  later = 100;
  salt = 0;
  int63n = λ n. 0;
  order = λ _. [];
  visit = [];
  lock_order = [];
}

abbrev shop : Sheet
shop = record {
  id = "shop";
  password_hash = some "pw";
  cache = new_lem.0;
  collaborators = 1 ∷ 2 ∷ [];
}

abbrev clients_of : Conn → Option ℕ
clients_of c = if c =? 3 then none else some 0

abbrev server : Handler
server = record {
  sheets = record { cells = λ _. shop; fresh = 1; by_id = ("shop", 0) ∷ [] };
  locks = [];
  clients = (1, 1) ∷ (2, 2) ∷ [];
  joined = clients_of;
  replicas = (3, record { instance_id = "r"; started_at = 50 }) ∷ [];
  closed = [];
  outbox = [];
}

abbrev request : Request
request = record {
  action = "set";
  sheet = "";
  password = "";
  key = "k";
  value = text "v";
  ttl = 0;
  prefix = "";
  suffix = "";
  jitter = false;
  instance_id = "";
  started_at = "";
  lock_ttl = 0;
}

dispatch-SameBut_example :
    Safely (SameBut 0 server) (dispatch default_config outside reads 1 0 request server)
dispatch-SameBut_example = dispatch-SameBut default_config outside reads 1 0 request server

abbrev shop_key : String
shop_key = "shop"

on_disconnect-leaves_example :
    (lookup "shop:k" (on_disconnect default_config outside reads 1 server).locks
      ≡ (if picked (λ _ l. l.owner == "0x1") "shop:k" none then none else none))
    × (((on_disconnect default_config outside reads 1 server).sheets.cells 0).collaborators
        ≡ keep (λ c. not (c =? 1)) shop.collaborators)
    × (lookup "shop" (on_disconnect default_config outside reads 1 server).sheets.by_id ≡ (
        if (length (keep (λ c. not (c =? 1)) shop.collaborators) =? 0) && (shop_key == "shop")
        then none
        else lookup "shop" server.sheets.by_id))
    × (lookup 1 (on_disconnect default_config outside reads 1 server).clients ≡ none)
unfolding lookup has_key
on_disconnect-leaves_example =
    on_disconnect-leaves default_config outside reads 1 0 server "shop:k" "shop" refl refl
      (Enumerates-self [] tt)

abbrev one_left : Handler
one_left = record {
  sheets = record {
    cells = λ _. record shop { collaborators = 1 ∷ [] };
    fresh = 1;
    by_id = ("shop", 0) ∷ [];
  };
  locks = [];
  clients = (1, 1) ∷ (5, 5) ∷ [];
  joined = λ c. if c =? 5 then none else some 0;
  replicas = [];
  closed = [];
  outbox = [];
}

abbrev opening : Request
opening = record request { action = "open"; sheet = "shop"; password = "pw" }

orphaned_example :
    (h' : Handler) × (find_sheet default_config outside reads 5 opening one_left
      ≡ some (one_left, ok 0))
    × (join_sheet default_config outside reads 5 opening 0
          (on_disconnect default_config outside reads 1 one_left)
        ≡ some h')
    × (h'.joined 5 ≡ some 0)
    × (is_member 5 (h'.sheets.cells 0).collaborators ≡ true)
    × (lookup "shop" h'.sheets.by_id ≡ none)
unfolding lookup
orphaned_example =
    orphaned default_config outside reads 5 opening one_left 1 0 "pw" reads []
      (ground (arith, eq_iff "shop" "", eq_iff "pw" "")) (ground (arith, eq_iff "shop" "shop")) refl
      refl (ground (arith, eq_iff "pw" "pw")) refl refl refl new_lem.2
      (empty_Enumerates new_lem.0 new_lem.2)
