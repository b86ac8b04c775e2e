-- ===== src/Value.antt =====
-- The values that a cache stores (`interface{}` throughout): what encoding/json decodes into. A
-- number is kept as its literal, since no code computes with it.
use advo_cache.Base.{Bool, String, [], ◌∷◌, false, ◌==◌, text_key}
use advo_cache.Base.Dict.{Dict}

mutual
  pub data Members : Type 0 where
    no_members : Members
    member : String → Value → Members → Members

  pub data Elements : Type 0 where
    no_elements : Elements
    element : Value → Elements → Elements

  pub data Value : Type 0 where
    text number : String → Value
    boolean : Bool → Value
    nil : Value
    object : Members → Value
    slice : Elements → Value

-- map[string]interface{} as a value.
abbrev pub members : Dict String Value → Members
members [] = no_members
members ((k, v) ∷ m) = member k v (members m)

-- cache.NullPlaceholder
abbrev pub null_placeholder : String
null_placeholder = "__NULL__"

-- `str, ok := value.(string); return ok && str == NullPlaceholder`
unfoldable pub is_null : Value → Bool
is_null (text s) = s == null_placeholder
is_null _ = false
