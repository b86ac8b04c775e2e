-- ===== src/Message.antt =====
-- What travels over the sockets: the requests and responses of ws/handler.go, the broadcasts of
-- sheet/sheet.go and the replication messages of replica/replica.go. encoding/json is outside: a
-- message is the value that a struct stands for, with the `type` field as its constructor, and a
-- missing field as the empty text, `nil`, `false` or 0.
use advo_cache.Base.{ℕ, Bool, true, false, String}
use advo_cache.Base.Dict.{Dict}
use advo_cache.Value.{Value, nil}

-- `ttl` is read by no handler. `lock_ttl` is the 64-bit pattern of the number.
pub record Request : Type 0 where
  pub action : String
  pub sheet : String
  pub password : String
  pub key : String
  pub value : Value
  pub ttl : ℕ
  pub prefix : String
  pub suffix : String
  pub jitter : Bool
  pub instance_id : String
  pub started_at : String
  pub lock_ttl : ℕ

pub record Response : Type 0 where
  pub success : Bool
  pub sheet : String
  pub key : String
  pub value : Value
  pub deleted : ℕ
  pub error : String
  pub count : ℕ

-- Response{Success: true} and Response{Success: false, Error: msg}.
abbrev pub success_response : Response
success_response = record {
  success = true;
  sheet = "";
  key = "";
  value = nil;
  deleted = 0;
  error = "";
  count = 0;
}

abbrev pub error_response : String → Response
error_response msg = record success_response { success = false; error = msg }

pub data Message : Type 0 where
  response : Response → Message
  -- sheet_state, full_state
  sheet_state : Dict String Value → Message
  full_state : Dict String (Dict String Value) → Message
  -- BroadcastSet{"replicate"}: key and value
  broadcast_set : String → Value → Message
  -- Broadcast{"invalidate"}: key, prefix, suffix
  invalidate : String → String → String → Message
  -- ReplicateMsg{"replicate"}: sheet, key, value, jitter
  replicate : String → String → Value → Bool → Message
  -- sheet and key, prefix or suffix
  replicate_delete replicate_delete_prefix replicate_delete_suffix : String → String → Message
  replicate_unlock replicate_evict : String → String → Message
  -- sheet, key, owner, expiry
  replicate_lock : String → String → String → String → Message
  heartbeat : Message
