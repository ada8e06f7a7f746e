-- ===== src/Nop/Router.antt =====
-- components/nop/src/nop/nop_router.c and nop_envelope.c, with nop_status_to_http of
-- src/base/nop_err.c: commands by name, gated by capabilities, alone or in a batch. The handlers share
-- a state `S`; the text of a request is parsed by cJSON, which is the parameter `parse`.
pub mod Dispatch
pub mod Batch
use nt.Prelude.{ℕ, List, [], ◌∷◌, Bool, true, false, Option, none, some, ◌==◌, if◌then◌else◌}
use nt.Prelude.Int.{ℤ}
use nt.Prelude.Text.{Str, str_eq, is_empty}
use nt.Nop.Json.{
  Json, Items, Members, j_num, j_str, j_arr, j_obj, no_items, item, no_members, member, json_get,
  as_str, as_items,
}
use nt.Nop.Map.{HashMap, map_create, map_get, map_put}
use nt.Nop.Capability.{CapRegistry, is_enabled}

pub data NopStatus : Type 0 where
  nop_ok err_param err_notimpl err_io err_nomem err_timeout err_auth err_notfound err_state
        err_internal err_conflict err_storage_full :
      NopStatus

unfoldable pub status_to_http : NopStatus → ℕ
status_to_http nop_ok = 200
status_to_http err_param = 400
status_to_http err_conflict = 409
status_to_http err_notimpl = 501
status_to_http err_notfound = 501
status_to_http err_storage_full = 507
status_to_http err_io = 400
status_to_http err_nomem = 400
status_to_http err_timeout = 400
status_to_http err_auth = 400
status_to_http err_state = 400
status_to_http err_internal = 400

-- "OK", "Bad Request", "Conflict", "Not Implemented", "Insufficient Storage" and "Error".
abbrev pub msg_ok : Str
msg_ok = b'O' ∷ b'K' ∷ []

unfoldable pub status_msg : ℕ → Str
status_msg code =
    if code == 200
    then msg_ok
    else if code == 400
    then b'B' ∷ b'a' ∷ b'd' ∷ b' ' ∷ b'R' ∷ b'e' ∷ b'q' ∷ b'u' ∷ b'e' ∷ b's' ∷ b't' ∷ []
    else if code == 409
    then b'C' ∷ b'o' ∷ b'n' ∷ b'f' ∷ b'l' ∷ b'i' ∷ b'c' ∷ b't' ∷ []
    else if code == 501
    then b'N' ∷ b'o' ∷ b't' ∷ b' ' ∷ b'I' ∷ b'm' ∷ b'p' ∷ b'l' ∷ b'e' ∷ b'm' ∷ b'e' ∷ b'n' ∷ b't'
      ∷ b'e' ∷ b'd' ∷ []
    else if code == 507
    then b'I' ∷ b'n' ∷ b's' ∷ b'u' ∷ b'f' ∷ b'f' ∷ b'i' ∷ b'c' ∷ b'i' ∷ b'e' ∷ b'n' ∷ b't' ∷ b' '
      ∷ b'S' ∷ b't' ∷ b'o' ∷ b'r' ∷ b'a' ∷ b'g' ∷ b'e' ∷ []
    else b'E' ∷ b'r' ∷ b'r' ∷ b'o' ∷ b'r' ∷ []

pub record Response : Type 0 where
  pub status : ℕ
  pub msg : Option Str
  pub content : Option Json

abbrev pub response_init : Response
response_init = record { status = 200; msg = some msg_ok; content = none }

abbrev pub failed : ℕ → Response
failed code = record { status = code; msg = some (status_msg code); content = none }

-- The name of the command, its arguments if there are any, the response so far and the state.
abbrev pub Handler : Type 0 → Type 0
Handler S = Str → Option Json → Response → S → NopStatus × Response × S

pub record Route (S : Type 0) : Type 0 where
  pub capability : ℤ
  pub handler : Handler S

pub record Router (S : Type 0) : Type 0 where
  pub routes : HashMap (Route S)
  pub caps : CapRegistry

abbrev pub key_func : Str
key_func = b'f' ∷ b'u' ∷ b'n' ∷ b'c' ∷ []

abbrev pub key_args : Str
key_args = b'a' ∷ b'r' ∷ b'g' ∷ b's' ∷ []

abbrev pub key_cmds : Str
key_cmds = b'c' ∷ b'm' ∷ b'd' ∷ b's' ∷ []

abbrev pub key_content : Str
key_content = b'c' ∷ b'o' ∷ b'n' ∷ b't' ∷ b'e' ∷ b'n' ∷ b't' ∷ []

abbrev pub key_status : Str
key_status = b's' ∷ b't' ∷ b'a' ∷ b't' ∷ b'u' ∷ b's' ∷ b'C' ∷ b'o' ∷ b'd' ∷ b'e' ∷ []

abbrev pub key_msg : Str
key_msg = b's' ∷ b't' ∷ b'a' ∷ b't' ∷ b'u' ∷ b's' ∷ b'M' ∷ b's' ∷ b'g' ∷ []

abbrev pub key_results : Str
key_results = b'r' ∷ b'e' ∷ b's' ∷ b'u' ∷ b'l' ∷ b't' ∷ b's' ∷ []

abbrev pub batch_func : Str
batch_func = b'b' ∷ b'a' ∷ b't' ∷ b'c' ∷ b'h' ∷ b'C' ∷ b'm' ∷ b'd' ∷ []

abbrev pub with_content : Option Json → Members
with_content none = no_members
with_content (some c) = member key_content c no_members

unfoldable pub envelope_build : Response → Json
envelope_build r = j_obj (
    member key_status (j_num r.status) (
      member key_msg (j_str (elim r.msg [ some m ↦ m | none ↦ status_msg r.status ]))
        (with_content r.content)))

-- The name and the arguments of a request.
unfoldable pub envelope_parse : (Str → Option Json) → Str → Option (Str × Option Json)
envelope_parse parse text = elim (parse text) [
  | none ↦ none
  | some root ↦ elim (json_get root key_func) [
    | none ↦ none
    | some f ↦ elim (as_str f) [
      | none ↦ none
      | some func ↦ if is_empty func then none else some (func, json_get root key_args)
    ]
  ]
]

abbrev pub result_of : Str → Response → Json
result_of func r =
    j_obj
      (member key_func (j_str func) (member key_status (j_num r.status) (with_content r.content)))

abbrev pub refused : Str → Json
refused func = j_obj (member key_func (j_str func) (member key_status (j_num 400) no_members))

abbrev pub command_func : Json → Option Str
command_func c = elim (json_get c key_func) [ none ↦ none | some f ↦ as_str f ]

abbrev pub batch_items : Option Json → Option Items
batch_items none = none
batch_items (some args) = elim (json_get args key_cmds) [ none ↦ none | some c ↦ as_items c ]

module _ {S : Type 0} where
  unfoldable pub router_create : CapRegistry → Router S
  router_create caps = record { routes = map_create 256; caps = caps }

  -- A second registration of a name writes over the route that is there.
  unfoldable pub router_register : Router S → Str → Route S → Router S
  router_register r func route = record r { routes = map_put r.routes func route }

  -- The response of a handler.
  abbrev pub settle : NopStatus × Response × S → Response × S
  settle (nop_ok, response, s) = (response, s)
  settle (st, response, s) = (failed (status_to_http st), s)

  unfoldable pub dispatch_one : Router S → Str → Option Json → S → Response × S
  dispatch_one r func args s = elim (map_get r.routes func) [
    | none ↦ (failed 501, s)
    | some route ↦
        if is_enabled r.caps route.capability
        then settle (route.handler func args response_init s)
        else (failed 501, s)
  ]

  -- One command of a batch: batches do not nest.
  unfoldable pub batch_command : Router S → Json → S → Json × S
  unfolding dispatch_one
  batch_command r c s = elim (command_func c) [
    | none ↦ (refused [], s)
    | some func ↦
        let (response, s') = dispatch_one r func (json_get c key_args) s in
        if str_eq func batch_func then (refused func, s) else (result_of func response, s')
  ]

  unfoldable pub batch_loop : Router S → Items → S → Items × S
  batch_loop r no_items s = (no_items, s)
  batch_loop r (item c cs) s =
      let (result, s1) = batch_command r c s in
      let (results, s2) = batch_loop r cs s1 in (item result results, s2)

  unfoldable pub dispatch_batch : Router S → Option Json → S → Response × S
  unfolding batch_loop
  dispatch_batch r args s = elim (batch_items args) [
    | none ↦ (failed 400, s)
    | some cs ↦
        let (results, s') = batch_loop r cs s in
        (
          record response_init {
            content = some (j_obj (member key_results (j_arr results) no_members));
          },
          s',
        )
  ]

  -- The envelope that is printed, and the state.
  unfoldable pub router_dispatch : (Str → Option Json) → Router S → Str → S → Json × S
  unfolding dispatch_one dispatch_batch
  router_dispatch parse r text s = elim (envelope_parse parse text) [
    | none ↦ (envelope_build (failed 400), s)
    | some (func, args) ↦
        let (response, s') =
          if str_eq func batch_func then dispatch_batch r args s else dispatch_one r func args s in
        (envelope_build response, s')
  ]
