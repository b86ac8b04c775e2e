-- ===== src/Server/System/Tests.antt =====
-- The first connection to a server, and what it may send.
use advo_cache.Base.{ℕ, ◌≡◌, refl, [], none, some, arith, conn_key, text_key, true, false}
use advo_cache.Base.Dict.{lookup, insert, has_key, Enumerates-self}
use advo_cache.Value.{text}
use advo_cache.Config.{default_config}
use advo_cache.Cache.{jitter_bound}
use advo_cache.Message.{Request}
use advo_cache.Sheet.{Sheet}
use advo_cache.Sheet.Tenancy.{new_lem}
use advo_cache.Server.{Outside, Reads, Handler, connect}
use advo_cache.Server.Session.{request}
use advo_cache.Server.System.{accepted, received, perform}
use advo_cache.Server.System.Reach.{
  Reach, begins, goes_on, started, IsSane, Reach-IsSane, Reach-total,
}

abbrev outside : Outside
outside = record {
  bcrypt = record { generate = λ _ p. some p; compare = λ hash q. true };
  format_pointer = λ _. "0x1";
  parse_time = λ _. none;
  format_time = λ _. "";
}

abbrev reads : Reads
reads = record {
  now = 100;
  seen = 100;
  again = 100;
  later = 100;
  salt = 0;
  int63n = λ n. 0;
  order = λ _. [];
  visit = [];
  lock_order = [];
}

abbrev opening : Request
opening = record {
  action = "open";
  sheet = "shop";
  password = "pw";
  key = "";
  value = text "";
  ttl = 0;
  prefix = "";
  suffix = "";
  jitter = false;
  instance_id = "";
  started_at = "";
  lock_ttl = 0;
}

abbrev memory : ℕ → Sheet
memory _ = record { id = ""; password_hash = none; cache = new_lem.0; collaborators = [] }

abbrev one_client : Handler
one_client = connect 1 (started memory)

first : Reach default_config outside one_client
unfolding perform
first = goes_on (accepted 1) (begins memory) tt refl

Reach-IsSane_example : IsSane one_client
unfolding jitter_bound
Reach-IsSane_example = Reach-IsSane default_config outside refl first

Reach-total_example :
    (h' : Handler) × (perform default_config outside (received 1 reads (request opening)) one_client
      ≡ some h')
    × Reach default_config outside h'
unfolding jitter_bound connect has_key lookup insert
Reach-total_example =
    Reach-total default_config outside refl first (received 1 reads (request opening)) (
      refl,
      record {
        caches = λ q below. absurd (omega arith);
        unmade = refl;
        sheets = Enumerates-self [] tt;
      },
    )
