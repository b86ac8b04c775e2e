-- ===== src/Sheet.antt =====
-- sheet/sheet.go and sheet/manager.go: tenants, each with a cache of its own, a password hash and the
-- connections that joined. Sheets are shared through pointers, so they live in a memory, and the
-- manager's `sync.Map` leads from IDs to addresses. A call here runs alone. bcrypt is a parameter:
-- `generate` takes the salt that it draws, and may fail.
pub mod Entry
pub mod Promoted
pub mod Race
pub mod Tenancy
mod Tests
use advo_cache.Base.{
  ℕ, ◌+◌, Bool, true, false, not, ◌||◌, List, [], ◌∷◌, Option, none, some, String, ◌==◌, text_key,
  conn_key, if◌then◌else◌, ◌>>=◌, length, keep, ◌=?◌,
}
use advo_cache.Base.Dict.{Dict, lookup, insert, remove}
use advo_cache.Cache
use advo_cache.Cache.{Cache, update}

pub record Bcrypt : Type 0 where
  pub generate : ℕ → String → Option String
  pub compare : String → String → Bool

-- A websocket connection, by its address.
abbrev pub Conn : Type 0
Conn = ℕ

-- `cache` is the embedded `*cache.Cache`; of `Collaborators` the keys are kept, each once.
pub record Sheet : Type 0 where
  pub id : String
  pub password_hash : Option String
  pub cache : Cache
  pub collaborators : List Conn

pub data SheetError : Type 0 where
  input_required invalid_password hash_failed : SheetError

pub data Result {ℓ} (A : Type ℓ) : Type ℓ where
  ok : A → Result A
  err : SheetError → Result A

unfoldable pub new_replica_sheet : String → Option Sheet
new_replica_sheet id = do
  c ← Cache.new
  some (record { id = id; password_hash = none; cache = c; collaborators = [] })

unfoldable pub add_collaborator : Conn → Sheet → Sheet
add_collaborator conn s = record s {
  collaborators = conn ∷ keep (λ c. not (c =? conn)) s.collaborators;
}

-- The count of those who stay comes back too.
unfoldable pub remove_collaborator : Conn → Sheet → Sheet × ℕ
remove_collaborator conn s =
    let rest = keep (λ c. not (c =? conn)) s.collaborators in
    (record s { collaborators = rest }, length rest)

abbrev pub collaborator_count : Sheet → ℕ
collaborator_count s = length s.collaborators

-- Those to whom Broadcast and BroadcastSetMsg write.
unfoldable pub audience : Conn → Sheet → List Conn
audience sender s = keep (λ c. not (c =? sender)) s.collaborators

-- The sheets in memory, the next address, and the manager's map.
pub record Sheets : Type 0 where
  pub cells : ℕ → Sheet
  pub fresh : ℕ
  pub by_id : Dict String ℕ

-- NewManager: no address is handed out, whatever the memory holds.
abbrev pub new_manager : (ℕ → Sheet) → Sheets
new_manager memory = record { cells = memory; fresh = 0; by_id = [] }

abbrev pub get_sheet : String → Sheets → Option ℕ
get_sheet id m = lookup id m.by_id

-- &Sheet{…} in memory, not yet in the map.
abbrev pub allocate : Sheet → Sheets → Sheets
allocate s m = record m { cells = update m.cells m.fresh s; fresh = m.fresh + 1 }

-- A sheet that is put in the map under an ID.
abbrev pub add_sheet : String → ℕ → Sheets → Sheets
add_sheet id p m = record m { by_id = insert id p m.by_id }

unfoldable pub delete_sheet : String → Sheets → Sheets
delete_sheet id m = record m { by_id = remove id m.by_id }

abbrev pub sheet_count : Dict String ℕ → ℕ
sheet_count visit = length visit

module _ (bcrypt : Bcrypt) where
  unfoldable pub new_sheet : String → String → ℕ → Option (Result Sheet)
  new_sheet id password salt = elim (bcrypt.generate salt password) [
    | none ↦ some (err hash_failed)
    | some hash ↦ do
      c ← Cache.new
      some (ok (record { id = id; password_hash = some hash; cache = c; collaborators = [] }))
  ]

  -- A sheet of a replica has no hash, takes any password and keeps it.
  unfoldable pub validate_password : String → ℕ → Sheet → Sheet × Bool
  validate_password password salt s = elim s.password_hash [
    | none ↦ elim (bcrypt.generate salt password) [
      | none ↦ (s, false)
      | some hash ↦ (record s { password_hash = some hash }, true)
    ]
    | some hash ↦ (s, bcrypt.compare hash password)
  ]

  -- Validation against the sheet at an address.
  unfoldable pub enter : ℕ → String → ℕ → Sheets → Sheets × Result ℕ
  unfolding validate_password
  enter p password salt m =
      let (s, valid) = validate_password password salt (m.cells p) in
      let m' = record m { cells = update m.cells p s } in
      if valid then (m', ok p) else (m', err invalid_password)

  unfoldable pub get_or_create_sheet : String → String → ℕ → Sheets → Option (Sheets × Result ℕ)
  unfolding new_sheet enter
  get_or_create_sheet id password salt m =
      if id == "" || password == "" then some (m, err input_required) else elim (get_sheet id m) [
        | some p ↦ some (enter p password salt m)
        | none ↦ do
          created ← new_sheet id password salt
          elim created [
            | err e ↦ some (m, err e)
            | ok s ↦
                let m' = allocate s m in
                elim (get_sheet id m') [
                  | some p ↦ some (enter p password salt m')
                  | none ↦ some (add_sheet id m.fresh m', ok m.fresh)
                ]
          ]
      ]
