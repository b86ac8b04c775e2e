-- ===== src/Sheet/Tenancy.antt =====
-- Who gets into a sheet of sheet/manager.go.
use mathlib.Core.Path.{subst}
use advo_cache.Base.{
  sym, ℕ, ◌+◌, ◌≡◌, ◌≢◌, refl, [], none, some, String, arith, ◌==◌, text_key, conn_key,
  if◌then◌else◌, eq_iff,
}
use advo_cache.Base.Dict.{lookup, insert, lookup-insert}
use advo_cache.Cache
use advo_cache.Cache.{Cache, update, default_capacity}
use advo_cache.Cache.Methods.{new_with_capacity_lem}
use advo_cache.Cache.Rep.{Holds}
use advo_cache.Sheet.{Bcrypt, Sheet, Sheets, ok, err, invalid_password, get_or_create_sheet}

-- The documented behaviour of bcrypt, for passwords of at most 72 bytes: a hash that was generated
-- from a password matches that password, and no other.
abbrev pub Verifies : Bcrypt → Type 0
Verifies b =
    (salt : ℕ) (p q hash : String) → b.generate salt p ≡ some hash → b.compare hash q ≡ (p == q)

pub new_lem : (c : Cache) × (Cache.new ≡ some c) × Holds c [] × (c.capacity ≡ default_capacity)
unfolding Cache.new
new_lem = new_with_capacity_lem default_capacity

module _ (b : Bcrypt) (m : Sheets) (id p : String) (salt : ℕ) (hash : String) where
  -- The first to open an ID creates its sheet, empty, with the hash of the password; no other ID
  -- changes.
  get_or_create_sheet_new :
      (other : String)
      → id ≢ ""
      → p ≢ ""
      → lookup id m.by_id ≡ none
      → b.generate salt p ≡ some hash
      → (m' : Sheets) × (get_or_create_sheet b id p salt m ≡ some (m', ok m.fresh))
        × (lookup other m'.by_id ≡ (if id == other then some m.fresh else lookup other m.by_id))
        × ((m'.cells m.fresh).password_hash ≡ some hash)
        × ((m'.cells m.fresh).id ≡ id)
        × ((m'.cells m.fresh).collaborators ≡ [])
        × Holds (m'.cells m.fresh).cache []
  unfolding get_or_create_sheet
  get_or_create_sheet_new other given given' absent generated =
      let (c, made, holds, cap) = new_lem in
      let s : Sheet = record {
        id = id;
        password_hash = some hash;
        cache = c;
        collaborators = [];
      } in
      (
        record m {
          cells = update m.cells m.fresh s;
          fresh = m.fresh + 1;
          by_id = insert id m.fresh m.by_id;
        },
        ground (arith, eq_iff id "", eq_iff p "", made),
        lookup-insert id other m.fresh m.by_id,
        ground arith,
        ground arith,
        ground arith,
        subst (λ (x : Sheet). Holds x.cache []) (sym (kept c)) holds,
      )
    where
      kept :
          (c : Cache)
          → (let s : Sheet = record {
            id = id;
            password_hash = some hash;
            cache = c;
            collaborators = [];
          } in
              update m.cells m.fresh s m.fresh ≡ s)
      kept c = ground arith

-- What a later opener of an existing sheet with a hash gets: the sheet, exactly if the password is
-- the one that was hashed. Nothing changes.
open_existing :
    (b : Bcrypt) (m : Sheets) (id p q : String) (salt salt' cell : ℕ) (hash : String)
    → Verifies b
    → id ≢ ""
    → q ≢ ""
    → lookup id m.by_id ≡ some cell
    → (m.cells cell).password_hash ≡ some hash
    → b.generate salt p ≡ some hash
    → (m' : Sheets) × (get_or_create_sheet b id q salt' m
        ≡ some (m', if p == q then ok cell else err invalid_password))
      × (m'.by_id ≡ m.by_id)
      × ((k : ℕ) → m'.cells k ≡ m.cells k)
unfolding get_or_create_sheet
open_existing b m id p q salt salt' cell hash verifies given given' found hashed generated = (
  record m { cells = update m.cells cell (m.cells cell) },
  ground (arith, eq_iff id "", eq_iff q "", verifies salt p q hash),
  refl,
  λ k. ground arith,
)

-- After the first opener of an ID that has no sheet, of whose password bcrypt makes a hash, a later
-- one gets the same sheet exactly if it gives the same password, and is refused otherwise. The ID
-- and both passwords are not empty. bcrypt is taken to match a hash with the password that it was
-- made of, and with no other, as it does for passwords of at most 72 bytes.
pub open-open :
    (b : Bcrypt) (m : Sheets) (id p q : String) (salt salt' : ℕ) (hash : String)
    → Verifies b
    → id ≢ ""
    → p ≢ ""
    → q ≢ ""
    → lookup id m.by_id ≡ none
    → b.generate salt p ≡ some hash
    → (m₁ m₂ : Sheets) × (get_or_create_sheet b id p salt m ≡ some (m₁, ok m.fresh))
      × (get_or_create_sheet b id q salt' m₁
          ≡ some (m₂, if p == q then ok m.fresh else err invalid_password))
      × (m₂.by_id ≡ m₁.by_id)
open-open b m id p q salt salt' hash verifies given given' given'' absent generated =
    let (m₁, run, there, hashed, named, nobody, empty) =
      get_or_create_sheet_new b m id p salt hash id given given' absent generated in
    let (m₂, run', same, cells) =
      open_existing b m₁ id p q salt salt' m.fresh hash verifies given given''
        (ground (arith, there, eq_iff id id)) hashed generated in
    (m₁, m₂, run, run', same)

-- A sheet that a replica made has no password: whoever opens it first sets it, and from then on only
-- that password opens it.
open_promoted :
    (b : Bcrypt) (m : Sheets) (id p q : String) (salt salt' cell : ℕ) (hash : String)
    → Verifies b
    → id ≢ ""
    → p ≢ ""
    → q ≢ ""
    → lookup id m.by_id ≡ some cell
    → (m.cells cell).password_hash ≡ none
    → b.generate salt p ≡ some hash
    → (m₁ m₂ : Sheets) × (get_or_create_sheet b id p salt m ≡ some (m₁, ok cell))
      × (get_or_create_sheet b id q salt' m₁
          ≡ some (m₂, if p == q then ok cell else err invalid_password))
unfolding get_or_create_sheet
open_promoted b m id p q salt salt' cell hash verifies given given' given'' found unset generated =
    let m₁ = record m {
      cells = update m.cells cell (record (m.cells cell) { password_hash = some hash });
    } in
    let (m₂, run, same, cells) =
      open_existing b m₁ id p q salt salt' cell hash verifies given given'' found (ground arith)
        generated in
    (m₁, m₂, ground (arith, eq_iff id "", eq_iff p ""), run)
