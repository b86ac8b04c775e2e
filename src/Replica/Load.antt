-- ===== src/Replica/Load.antt =====
-- The full state that a replica of replica/client.go loads, sheet after sheet.
use mathlib.Core.Path.{subst}
use advo_cache.Base.{
  ℕ, ◌+◌, ◌<◌, ◌≤◌, ◌≡◌, refl, ◌∙◌, inl, inr, true, false, List, [], ◌∷◌, none, some, String, arith,
  ◌==◌, text_key, length, ◌=?◌, =?_iff, eq_iff, Bool-cases,
}
use advo_cache.Base.Dict.{
  Dict, lookup, has_key, DistinctKeys, lookup-insert, lookup-insert_self, lookup-none_of_has_key,
}
use advo_cache.Value.{Value}
use advo_cache.Config.{Config, cache_ttl}
use advo_cache.Cache.{Cache, Entry, default_capacity}
use advo_cache.Cache.Dump.{Shows}
use advo_cache.Cache.Lru.{seek}
use advo_cache.Cache.Rep.{Holds}
use advo_cache.Sheet.{Sheets, get_sheet, new_replica_sheet, add_sheet, allocate}
use advo_cache.Sheet.Tenancy.{new_lem}
use advo_cache.Replica.{Client, Reads, find_or_add, put_cache, apply_full_state}
use advo_cache.Replica.Follow.{Follows}
use advo_cache.Replica.Storing.{Overlays, set_all_lem}

-- Sheets at addresses of their own, with caches that are not used up.
abbrev pub IsTidy : Sheets → Type 0
IsTidy m = (id : String) (p : ℕ) → get_sheet id m ≡ some p → (p < m.fresh) × ((m.cells p).id ≡ id)

module _ (id : String) (c : Client) where
  -- The sheet that find_or_add makes.
  abbrev made : Sheets
  made = add_sheet id c.sheets.fresh (
      allocate (record { id = id; password_hash = none; cache = new_lem.0; collaborators = [] })
        c.sheets)

  find_or_add_new :
      (p : ℕ)
      → get_sheet id c.sheets ≡ none
      → get_sheet id made ≡ some p
      → find_or_add id c.sheets ≡ some (made, p)
  unfolding find_or_add new_replica_sheet
  find_or_add_new p absent at =
      ground (arith, new_lem.1, lookup-insert_self id c.sheets.fresh c.sheets.by_id)

  find_or_add_old :
      (p : ℕ) → get_sheet id c.sheets ≡ some p → find_or_add id c.sheets ≡ some (c.sheets, p)
  unfolding find_or_add
  find_or_add_old p found = ground arith

-- The sheet of an ID, its entries, and that the other sheets of the client are there as before.
pub record Found (id : String) (es : List Entry) (c c' : Client) : Type 0 where
  pub follows : Follows id es c'
  pub tidy : IsTidy c'.sheets
  pub online : c'.has_conn ≡ c.has_conn
  pub names : (j : String) → (id == j) ≡ false → get_sheet j c'.sheets ≡ get_sheet j c.sheets
  pub rest : (j : String) (fs : List Entry) → (id == j) ≡ false → Follows j fs c → Follows j fs c'

abbrev with_sheets : Client → Sheets → Client
with_sheets c m = record c { sheets = m }

made-Found :
    (id : String) (c : Client)
    → get_sheet id c.sheets ≡ none
    → IsTidy c.sheets
    → Found id [] c (with_sheets c (made id c))
made-Found id c absent tidy = record {
  follows = (
    c.sheets.fresh,
    lookup-insert_self id c.sheets.fresh c.sheets.by_id,
    rw ((=?_iff c.sheets.fresh c.sheets.fresh).1 refl) new_lem.2,
    rw ((=?_iff c.sheets.fresh c.sheets.fresh).1 refl) new_lem.3,
  );
  tidy = λ j p at. elim (Bool-cases (id == j)) [
    | inl same ↦ (
      ground (arith, lookup-insert id j c.sheets.fresh c.sheets.by_id),
      ground (arith, lookup-insert id j c.sheets.fresh c.sheets.by_id, eq_iff id j),
    )
    | inr other ↦
        let old : get_sheet j c.sheets ≡ some p =
          ground (arith, lookup-insert id j c.sheets.fresh c.sheets.by_id) in
        let (below, named) = tidy j p old in (omega arith, ground arith)
  ];
  online = refl;
  names = λ j other. ground (arith, lookup-insert id j c.sheets.fresh c.sheets.by_id);
  rest = λ j fs other (p, at, holds, size).
      let below = (tidy j p at).0 in
      let apart : (c.sheets.fresh =? p) ≡ false = ground arith in
      (
        p,
        ground (arith, lookup-insert id j c.sheets.fresh c.sheets.by_id),
        rw apart holds,
        rw apart size,
      );
}

-- A new cache for the sheet of the ID.
put_cache-Found :
    (id : String) (es : List Entry) (c c₁ : Client) (p : ℕ) (cache : Cache)
    → Found id es c c₁
    → get_sheet id c₁.sheets ≡ some p
    → (es' : List Entry) → Holds cache es'
    → cache.capacity ≡ default_capacity
    → Found id es' c (with_sheets c₁ (put_cache p cache c₁.sheets))
put_cache-Found id es c c₁ p cache f at es' holds size = record {
  follows = (p, at, rw ((=?_iff p p).1 refl) holds, rw ((=?_iff p p).1 refl) size);
  tidy = λ j q there. let (below, named) = f.tidy j q there in (below, ground arith);
  online = f.online;
  names = f.names;
  rest = λ j fs other g.
      let (q, there, held, size') = f.rest j fs other g in
      let apart : (p =? q) ≡ false =
        ground (arith, (f.tidy id p at).1, (f.tidy j q there).1, eq_iff id j) in
      (q, there, rw apart held, rw apart size');
}

old-Found :
    (id : String) (es : List Entry) (c : Client)
    → Follows id es c
    → IsTidy c.sheets
    → Found id es c c
old-Found id es c follows tidy = record {
  follows = follows;
  tidy = tidy;
  online = refl;
  names = λ j other. refl;
  rest = λ j fs other g. g;
}

-- Maps with distinct keys that fit into a cache.
abbrev pub AllFit : Dict String (Dict String Value) → Type 0
AllFit [] = Unit
AllFit ((id, d) ∷ rest) = DistinctKeys d × (length d ≤ default_capacity) × AllFit rest

Overlays-Shows :
    (d : Dict String Value) (es : List Entry) → DistinctKeys d → Overlays d [] es → Shows es d
unfolding seek
Overlays-Shows d es once over = (λ k. ground (arith, over k, lookup-none_of_has_key k d), once)

module _ (cfg : Config) (r : Reads) where
  -- One sheet of the message.
  load_one :
      (id : String) (d : Dict String Value) (es : List Entry) (c : Client) (m : Sheets)
      → Found id es c (with_sheets c m)
      → ((p : ℕ) → get_sheet id m ≡ some p → find_or_add id c.sheets ≡ some (m, p))
      → DistinctKeys d
      → length es + length d ≤ default_capacity
      → (c' : Client) × (es' : List Entry) × Found id es' c c'
        × Overlays d es es'
        × (length es' ≤ length es + length d)
        × ((rest : Dict String (Dict String Value))
            → apply_full_state cfg r ((id, d) ∷ rest) c ≡ apply_full_state cfg r rest c')
  unfolding apply_full_state
  load_one id d es c m f found once room =
      let (p, at, holds, size) = f.follows in
      let (cache, es', run, holds', size', over, grown) =
        set_all_lem (cache_ttl cfg) (r.set_at id) d (m.cells p).cache es holds once
          (rw size room) in
      (
        with_sheets c (put_cache p cache m),
        es',
        put_cache-Found id es c (with_sheets c m) p cache f at es' holds' (size' ∙ size),
        over,
        grown,
        λ rest. rw (found p at, run) refl,
      )

  -- A full state that comes to a replica with none of its sheets is loaded without a panic, and each
  -- sheet then shows what the message has.
  pub apply_full_state_new :
      (sheets : Dict String (Dict String Value)) (c : Client)
      → DistinctKeys sheets
      → IsTidy c.sheets
      → AllFit sheets
      → ((j : String) → has_key j sheets ≡ true → get_sheet j c.sheets ≡ none)
      → (c' : Client) × (apply_full_state cfg r sheets c ≡ some c')
        × (c'.has_conn ≡ c.has_conn)
        × ((j : String) (fs : List Entry)
            → has_key j sheets ≡ false
            → Follows j fs c
            → Follows j fs c')
        × ((id : String) (d : Dict String Value)
            → lookup id sheets ≡ some d
            → (es : List Entry) × Follows id es c' × Shows es d × (length es ≤ length d))
  unfolding has_key lookup apply_full_state
  apply_full_state_new [] c once tidy fit free =
      (c, refl, refl, λ j fs other g. g, λ id d at. absurd (ground arith))
  apply_full_state_new ((id, d) ∷ sheets) c (new, once) tidy (keys, room, fit) free =
      let absent = free id (ground (arith, eq_iff id id)) in
      let (c₁, es₁, f, over, grown, run₁) =
        load_one id d [] c (made id c) (made-Found id c absent tidy)
          (λ p. find_or_add_new id c p absent) keys (omega arith) in
      let (c', run, online, others, shown) =
        apply_full_state_new sheets c₁ once f.tidy fit λ j there.
          let apart : (id == j) ≡ false = ground (arith, eq_iff id j) in
          f.names j apart ∙ free j (ground arith) in
      (
        c',
        run₁ sheets ∙ run,
        online ∙ f.online,
        λ j fs other g. others j fs (ground arith) (f.rest j fs (ground arith) g),
        λ j d' at. elim (Bool-cases (id == j)) [
          | inl same ↦
              let here : d ≡ d' = ground arith in
              let few : length es₁ ≤ length d' =
                subst (λ x. length es₁ ≤ length x) here (omega (arith, grown)) in
              (
                es₁,
                subst (λ i. Follows i es₁ c') ((eq_iff id j).0 same) (others id es₁ new f.follows),
                subst (Shows es₁) here (Overlays-Shows d es₁ keys over),
                few,
              )
          | inr other ↦ shown j d' (ground arith)
        ],
      )

  -- A full state comes for one sheet that the replica already has, with distinct keys and room for all
  -- entries, while each ID leads to an address in use of a sheet with that ID: what the message has is
  -- stored over what is there, and a key that the message does not have stays.
  pub apply_full_state_again :
      (id : String) (d : Dict String Value) (es : List Entry) (c : Client)
      → Follows id es c
      → IsTidy c.sheets
      → DistinctKeys d
      → length es + length d ≤ default_capacity
      → (c' : Client) × (es' : List Entry) × (apply_full_state cfg r ((id, d) ∷ []) c ≡ some c')
        × Follows id es' c'
        × Overlays d es es'
  unfolding apply_full_state
  apply_full_state_again id d es c follows tidy once room =
      let (c', es', f, over, grown, run) =
        load_one id d es c c.sheets (old-Found id es c follows tidy) (find_or_add_old id c) once
          room in
      (c', es', run [], f.follows, over)
