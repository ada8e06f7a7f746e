-- ===== src/Nop/Router/Batch.antt =====
-- components/nop/src/nop/nop_router.c: a batch against its commands, sent one by one.
use nt.Prelude.{
  ◌≡◌, refl, ap, sym, ◌∙◌, List, [], ◌∷◌, false, Option, none, some, Option-cases, inl, inr,
  if◌then◌else◌,
}
use nt.Prelude.Text.{Str, str_eq, is_empty}
use nt.Nop.Json.{
  Json, Items, Members, j_num, j_str, j_arr, j_obj, j_other, no_items, item, no_members, member,
  json_get, as_str, as_items,
}
use nt.Nop.Router.{
  Router, Response, response_init, key_func, key_args, key_cmds, key_msg, key_results, batch_func,
  result_of, refused, command_func, envelope_build, envelope_parse, dispatch_one, batch_command,
  batch_loop, dispatch_batch, router_dispatch, batch_items,
}

-- An answer without its text, under the command's name.
unfoldable drop_msg : Members → Members
drop_msg no_members = no_members
drop_msg (member k v ms) = if str_eq k key_msg then drop_msg ms else member k v (drop_msg ms)

unfoldable brief : Str → Json → Json
unfolding drop_msg
brief func (j_obj ms) = j_obj (member key_func (j_str func) (drop_msg ms))
brief func (j_num n) = j_num n
brief func (j_str s) = j_str s
brief func (j_arr js) = j_arr js
brief func j_other = j_other

-- What the sender does with each command in turn: those that may stand alone are sent. A command with
-- the empty name, which the envelope refuses when it stands alone, goes straight to its route.
pub data Command : Type 0 where
  alone : Str → Str → Command
  nested nameless : Command
  empty_name : Option Json → Command

-- The answers and the state when the commands go to the router one by one.
unfoldable pub each : {S : Type 0} → (Str → Option Json) → Router S → List Command → S → Items × S
unfolding brief
each parse r [] s = (no_items, s)
each parse r (alone func text ∷ cs) s =
    let (answer, s1) = router_dispatch parse r text s in
    let (results, s2) = each parse r cs s1 in (item (brief func answer) results, s2)
each parse r (empty_name args ∷ cs) s =
    let (response, s1) = dispatch_one r [] args s in
    let (results, s2) = each parse r cs s1 in (item (result_of [] response) results, s2)
each parse r (nested ∷ cs) s =
    let (results, s') = each parse r cs s in (item (refused batch_func) results, s')
each parse r (nameless ∷ cs) s =
    let (results, s') = each parse r cs s in (item (refused []) results, s')

-- The items of a batch that hold these commands: one that may stand alone has a name that is not
-- empty and not the batch's own, and the text is one that cJSON reads as the item.
pub data IsBatch (parse : Str → Option Json) : List Command → Items → Type 0 where
  batch_end : IsBatch parse [] no_items
  batch_alone :
      {cs : List Command} {js : Items} (func text : Str) (c : Json)
      → parse text ≡ some c
      → json_get c key_func ≡ some (j_str func)
      → is_empty func ≡ false
      → str_eq func batch_func ≡ false
      → IsBatch parse cs js
      → IsBatch parse (alone func text ∷ cs) (item c js)
  batch_empty_name :
      {cs : List Command} {js : Items} (c : Json)
      → json_get c key_func ≡ some (j_str [])
      → IsBatch parse cs js
      → IsBatch parse (empty_name (json_get c key_args) ∷ cs) (item c js)
  batch_nested :
      {cs : List Command} {js : Items} (c : Json)
      → json_get c key_func ≡ some (j_str batch_func)
      → IsBatch parse cs js
      → IsBatch parse (nested ∷ cs) (item c js)
  batch_nameless :
      {cs : List Command} {js : Items} (c : Json)
      → command_func c ≡ none
      → IsBatch parse cs js
      → IsBatch parse (nameless ∷ cs) (item c js)

module _ {S : Type 0} (parse : Str → Option Json) (r : Router S) where
  brief-envelope_build :
      (func : Str) (response : Response)
      → brief func (envelope_build response) ≡ result_of func response
  unfolding brief drop_msg envelope_build
  brief-envelope_build func response = elim (Option-cases response.content) [
    | inl e ↦ rw (e) refl
    | inr (c, e) ↦ rw (e) refl
  ]

  router_dispatch-alone :
      (func text : Str) (c : Json) (s : S)
      → parse text ≡ some c
      → json_get c key_func ≡ some (j_str func)
      → is_empty func ≡ false
      → str_eq func batch_func ≡ false
      → router_dispatch parse r text s ≡ (
        envelope_build (dispatch_one r func (json_get c key_args) s).0,
        (dispatch_one r func (json_get c key_args) s).1,
      )
  unfolding router_dispatch envelope_parse as_str
  router_dispatch-alone func text c s p f e b =
      rw (router_dispatch, envelope_parse, p, f, e, b) refl

  batch_command-alone :
      (func text : Str) (c : Json) (s : S)
      → parse text ≡ some c
      → json_get c key_func ≡ some (j_str func)
      → is_empty func ≡ false
      → str_eq func batch_func ≡ false
      → batch_command r c s
        ≡ (brief func (router_dispatch parse r text s).0, (router_dispatch parse r text s).1)
  unfolding batch_command command_func as_str
  batch_command-alone func text c s p f e b =
      let (response, s') = dispatch_one r func (json_get c key_args) s in
      let direct : batch_command r c s ≡ (result_of func response, s') =
        rw (batch_command, command_func, f, b) refl in
      direct
      ∙ ap (λ j. (j, s')) (sym (brief-envelope_build func response))
      ∙ ap (λ (j, t). (brief func j, t)) (sym (router_dispatch-alone func text c s p f e b))

  batch_loop-item :
      (c j : Json) (js : Items) (s s' : S) (results : Items × S)
      → batch_command r c s ≡ (j, s')
      → batch_loop r js s' ≡ results
      → batch_loop r (item c js) s ≡ (item j results.0, results.1)
  unfolding batch_loop
  batch_loop-item c j js s s' results h rest = rw (h, rest) refl

  batch_loop-each :
      {cs : List Command} {js : Items} (s : S)
      → IsBatch parse cs js
      → batch_loop r js s ≡ each parse r cs s
  unfolding batch_loop each batch_command as_str
  batch_loop-each s batch_end = refl
  batch_loop-each {cs} s (batch_alone {cs = cs'} {js = js'} func text c p f e b rest) =
      let s1 = (router_dispatch parse r text s).1 in
      batch_loop-item c _ js' s s1 (each parse r cs' s1) (batch_command-alone func text c s p f e b)
        (batch_loop-each s1 rest)
  batch_loop-each s (batch_empty_name {cs = cs'} {js = js'} c f rest) =
      let (response, s1) = dispatch_one r [] (json_get c key_args) s in
      let same : batch_command r c s ≡ (result_of [] response, s1) =
        rw (batch_command, command_func, f) refl in
      batch_loop-item c _ js' s s1 (each parse r cs' s1) same (batch_loop-each s1 rest)
  batch_loop-each s (batch_nested {cs = cs'} {js = js'} c f rest) =
      let same : batch_command r c s ≡ (refused batch_func, s) =
        rw (batch_command, command_func, f) refl in
      batch_loop-item c _ js' s s (each parse r cs' s) same (batch_loop-each s rest)
  batch_loop-each s (batch_nameless {cs = cs'} {js = js'} c f rest) =
      let same : batch_command r c s ≡ (refused [], s) = rw (batch_command, f) refl in
      batch_loop-item c _ js' s s (each parse r cs' s) same (batch_loop-each s rest)

-- A batch of commands, in a text that cJSON reads as one, answers 200 with the answers, in order,
-- that its commands get when they are sent one by one, each with its name and without its text, and
-- leaves the state that they leave. A batch inside the batch and a command without a name are
-- answered 400 in their places and change nothing. A command with the empty name, which alone is
-- answered 400, is answered in a batch by its route, or 501 where there is none.
pub router_dispatch-batch :
    {S : Type 0} (parse : Str → Option Json) (r : Router S) (text : Str) (c args : Json)
    (cs : List Command) (js : Items) (s : S)
    → parse text ≡ some c
    → json_get c key_func ≡ some (j_str batch_func)
    → json_get c key_args ≡ some args
    → json_get args key_cmds ≡ some (j_arr js)
    → IsBatch parse cs js
    → router_dispatch parse r text s ≡ (
      envelope_build (record response_init {
        content = some (j_obj (member key_results (j_arr (each parse r cs s).0) no_members));
      }),
      (each parse r cs s).1,
    )
unfolding router_dispatch envelope_parse dispatch_batch as_items as_str
router_dispatch-batch parse r text c args cs js s p f a l h =
    rw
      (
        router_dispatch,
        envelope_parse,
        p,
        f,
        a,
        dispatch_batch,
        batch_items,
        l,
        batch_loop-each parse r s h,
      )
      refl
