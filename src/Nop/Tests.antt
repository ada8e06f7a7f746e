-- ===== src/Nop/Tests.antt =====
-- Events and sinks, chimes and switches, and each theorem of the device side at them.
use nt.Prelude.{
  ℕ, ◌+◌, false, if◌then◌else◌, ◌≡◌, refl, ◌↔◌, List, [], ◌∷◌, Option, none, some, take,
}
use nt.Prelude.Text.{Str, str_eq}
use nt.Nop.Json.{
  Json, Items, j_num, j_str, j_arr, j_obj, no_items, item, no_members, member, json_get, as_str,
}
use nt.Nop.Map.{map_get, map_put, map_create, node_find, hash_djb2}
use nt.Nop.Map.Refine.{stored, assoc, distinct, stored-lem}
use nt.Nop.Router.{
  Router, Route, Handler, nop_ok, err_storage_full, response_init, key_func, key_args, key_cmds,
  key_results, batch_func, envelope_build, dispatch_one, router_dispatch, command_func,
  envelope_parse, router_register, router_create,
}
use nt.Nop.Router.Dispatch.{registered, allowed, dispatch_one-registered}
use nt.Nop.Router.Batch.{
  Command, alone, nested, nameless, each, IsBatch, batch_end, batch_alone, batch_nested,
  batch_nameless, router_dispatch-batch,
}
use nt.Nop.Event.{
  Hub, EventRec, hub_create, subscribe, publish_begin, recent, wait_idle, unsubscribe, store_size,
}
use nt.Nop.Event.Recent.{published, recent-published}
use nt.Nop.Event.Threads.{
  Shared, Reach, start, onward, subscribed, began, wait_idle-drained, unsubscribe-inside_publish,
}
use nt.Prelude.Int.{pos}
use nt.Nop.Capability.{registry_create, is_enabled, enable_all, last_switch}
use nt.Nop.Chime.{Chime, ChimeEntry, pairing}
use nt.Nop.Chime.Counted.{IsCounted, run_chime, op_offer, run_chime-IsCounted}

abbrev entry0 : ChimeEntry
entry0 = record { id = 65 ∷ []; name = []; volume = 3; tone_id = 1 }

-- Two slots and an open window.
abbrev chime0 : Chime
chime0 = record {
  slots = none ∷ none ∷ [];
  count = 0;
  state = pairing;
  added_count = 0;
  window_start_ms = 0;
  window_ms = 60000;
}

run_chime-IsCounted_example : IsCounted (run_chime (op_offer 500 entry0) chime0)
run_chime-IsCounted_example =
    run_chime-IsCounted (op_offer 500 entry0) chime0 (record { counted = refl })

abbrev event0 : EventRec
event0 = record { channel = 1; kind = 2; timestamp_ms = 1000 }

abbrev event1 : EventRec
event1 = record { channel = 3; kind = 1; timestamp_ms = 2000 }

abbrev hub0 : Hub
hub0 = (subscribe (subscribe hub_create 11 12).1 21 22).1

abbrev idle0 : Shared
idle0 = record { hub = hub_create; flying = [] }

abbrev shared0 : Shared
shared0 = record { hub = (subscribe hub_create 11 12).1; flying = [] }

abbrev shared1 : Shared
shared1 = record {
  hub = (publish_begin (subscribe hub_create 11 12).1 event0).1;
  flying = (publish_begin (subscribe hub_create 11 12).1 event0).0 ∷ [];
}

recent-published_example :
    recent (published (event1 ∷ event0 ∷ event1 ∷ [])) 2
    ≡ take 2 (take store_size (event1 ∷ event0 ∷ event1 ∷ []))
recent-published_example = recent-published (event1 ∷ event0 ∷ event1 ∷ []) 2

shared1-Reach : Reach shared1
shared1-Reach =
    onward shared0 shared1 (onward idle0 shared0 start (subscribed idle0 11 12))
      (began shared0 event0)

wait_idle-drained_example :
    (wait_idle (λ h. h) 1 shared1.hub ≡ some shared1.hub) ↔ (shared1.flying ≡ [])
wait_idle-drained_example = wait_idle-drained shared1 (λ h. h) shared1-Reach

unsubscribe-inside_publish_example :
    unsubscribe (λ h. h) 1000 (publish_begin hub0 event0).1 0 ≡ none
unsubscribe-inside_publish_example =
    unsubscribe-inside_publish (λ h. h) 1000 hub0 event0 0 (λ x p. p)

-- Names that two handlers go by, and the texts of three requests.
abbrev name_add : Str
name_add = 97 ∷ 100 ∷ 100 ∷ []

abbrev name_fail : Str
name_fail = 102 ∷ []

abbrev command_add : Json
command_add = j_obj (member key_func (j_str name_add) (member key_args (j_num 5) no_members))

abbrev command_fail : Json
command_fail = j_obj (member key_func (j_str name_fail) no_members)

abbrev command_batch : Json
command_batch = j_obj (member key_func (j_str batch_func) no_members)

abbrev items0 : Items
items0 =
    item command_add
      (item command_batch (item (j_num 3) (item command_fail (item command_add no_items))))

abbrev args0 : Json
args0 = j_obj (member key_cmds (j_arr items0) no_members)

abbrev message0 : Json
message0 = j_obj (member key_func (j_str batch_func) (member key_args args0 no_members))

abbrev parse0 : Str → Option Json
parse0 text =
    if str_eq text (1 ∷ [])
    then some command_add
    else if str_eq text (2 ∷ [])
    then some command_fail
    else if str_eq text (3 ∷ [])
    then some message0
    else none

abbrev handler_add : Handler ℕ
handler_add func args response n = (nop_ok, record response { content = args }, n + 1)

abbrev handler_fail : Handler ℕ
handler_fail func args response n = (err_storage_full, response, n + 100)

abbrev routes0 : List (Str × Route ℕ)
routes0 =
    (name_add, record { capability = pos 2; handler = handler_add })
    ∷ (name_fail, record { capability = pos 0; handler = handler_fail })
    ∷ (name_add, record { capability = pos 2; handler = handler_fail })
    ∷ []

abbrev router0 : Router ℕ
router0 = registered registry_create routes0

abbrev commands0 : List Command
commands0 =
    alone name_add (1 ∷ [])
    ∷ nested
    ∷ nameless
    ∷ alone name_fail (2 ∷ [])
    ∷ alone name_add (1 ∷ [])
    ∷ []

commands0-IsBatch : IsBatch parse0 commands0 items0
unfolding json_get command_func
commands0-IsBatch = batch_alone name_add (1 ∷ []) command_add refl refl refl refl (
    batch_nested command_batch refl (
      batch_nameless (j_num 3) refl (
        batch_alone name_fail (2 ∷ []) command_fail refl refl refl refl
          (batch_alone name_add (1 ∷ []) command_add refl refl refl refl batch_end))))

router_dispatch-batch_example : router_dispatch parse0 router0 (3 ∷ []) 0 ≡ (
  envelope_build (record response_init {
    content =
        some (j_obj (member key_results (j_arr (each parse0 router0 commands0 0).0) no_members));
  }),
  (each parse0 router0 commands0 0).1,
)
unfolding json_get
router_dispatch-batch_example =
    router_dispatch-batch parse0 router0 (3 ∷ []) message0 args0 commands0 items0 0 refl refl refl
      refl commands0-IsBatch

-- The two of its commands that succeed add one each, the one that fails a hundred.
each_test : (each parse0 router0 commands0 0).1 ≡ 102
unfolding each router_dispatch registered envelope_parse json_get as_str map_get node_find
    router_register map_put router_create map_create hash_djb2 dispatch_one registry_create
    is_enabled
each_test = refl

dispatch_one-registered_example :
    dispatch_one
      (registered (enable_all ((pos 2, false) ∷ []) registry_create) routes0)
      name_add
      none
      7
    ≡ (response_init, 8)
unfolding assoc allowed last_switch
dispatch_one-registered_example =
    dispatch_one-registered ((pos 2, false) ∷ []) routes0 name_add none 7

stored-lem_example :
    (map_get {V = ℕ} (stored 2 ((name_add, 1) ∷ (name_fail, 2) ∷ (name_add, 3) ∷ [])) name_add
      ≡ some 1)
    × ((stored {V = ℕ} 2 ((name_add, 1) ∷ (name_fail, 2) ∷ (name_add, 3) ∷ [])).entry_count ≡ 2)
unfolding assoc distinct
stored-lem_example = stored-lem 2 ((name_add, 1) ∷ (name_fail, 2) ∷ (name_add, 3) ∷ []) name_add
