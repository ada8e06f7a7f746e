-- ===== src/Nop/Json.antt =====
-- What the protocol code sees of a cJSON value: components/nop/src/base/nop_json.c.
use nt.Prelude.{ℕ, suc, Option, none, some, if◌then◌else◌}
use nt.Prelude.Text.{Str, str_eq}

-- A whole number, a text, an array, an object with its members in order, and what is none of these.
mutual
  pub data Json : Type 0 where
    j_other : Json
    j_num : ℕ → Json
    j_str : Str → Json
    j_arr : Items → Json
    j_obj : Members → Json

  pub data Items : Type 0 where
    no_items : Items
    item : Json → Items → Items

  pub data Members : Type 0 where
    no_members : Members
    member : Str → Json → Members → Members

unfoldable pub member_find : Members → Str → Option Json
member_find no_members key = none
member_find (member k v ms) key = if str_eq k key then some v else member_find ms key

-- `nop_json_get`: the first member of an object with the key.
unfoldable pub json_get : Json → Str → Option Json
unfolding member_find
json_get (j_obj ms) key = member_find ms key
json_get j_other key = none
json_get (j_num n) key = none
json_get (j_str s) key = none
json_get (j_arr js) key = none

-- The text of a value that is one.
unfoldable pub as_str : Json → Option Str
as_str (j_str s) = some s
as_str j_other = none
as_str (j_num n) = none
as_str (j_arr js) = none
as_str (j_obj ms) = none

unfoldable pub as_items : Json → Option Items
as_items (j_arr js) = some js
as_items j_other = none
as_items (j_num n) = none
as_items (j_str s) = none
as_items (j_obj ms) = none

unfoldable pub items_length : Items → ℕ
items_length no_items = 0
items_length (item j js) = suc (items_length js)
