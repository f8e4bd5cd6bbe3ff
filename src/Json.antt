-- ===== src/Json.antt =====
-- `serde_json::Value`, as the code takes it apart. `Number` stands for `serde_json::Number`.
use mooncache.Prelude.{Bool, true, false, Option, none, some, ◌==◌, if◌then◌else◌, Text, text_eq}

mutual
  pub data Json (Number : Type 0) : Type 0 where
    null : Json Number
    boolean : Bool → Json Number
    number : Number → Json Number
    string : Text → Json Number
    array : Items Number → Json Number
    object : Members Number → Json Number

  pub data Items (Number : Type 0) : Type 0 where
    no_items : Items Number
    item : Json Number → Items Number → Items Number

  pub data Members (Number : Type 0) : Type 0 where
    no_members : Members Number
    member : Text → Json Number → Members Number → Members Number

module _ {Number : Type 0} where
  -- `Map::get`
  unfoldable pub get_member : Text → Members Number → Option (Json Number)
  get_member key no_members = none
  get_member key (member name value rest) = if name == key then some value else get_member key rest

  -- `Map::remove`
  unfoldable pub remove_member : Text → Members Number → Members Number
  remove_member key no_members = no_members
  remove_member key (member name value rest) =
      if name == key then rest else member name value (remove_member key rest)

  -- `Map::contains_key`
  unfoldable pub has_member : Text → Members Number → Bool
  has_member key members = elim (get_member key members) [ none ↦ false | some _ ↦ true ]

  -- `Value::get` with a name: nothing but an object has members.
  unfoldable pub get : Text → Json Number → Option (Json Number)
  get key (object members) = get_member key members
  get key _ = none

  -- `Value::as_bool`
  unfoldable pub as_bool : Json Number → Option Bool
  as_bool (boolean b) = some b
  as_bool _ = none

  -- `Value::as_str`
  unfoldable pub as_str : Json Number → Option Text
  as_str (string s) = some s
  as_str _ = none
