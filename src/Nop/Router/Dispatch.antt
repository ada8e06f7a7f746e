-- ===== src/Nop/Router/Dispatch.antt =====
-- components/nop/src/nop/nop_router.c: what one command is answered.
use nt.Prelude.{
  ◌≡◌, refl, ap, ◌∙◌, inl, inr, arith, List, [], ◌∷◌, Bool, true, false, Option, none, some,
  Option-cases, Bool-cases, ltb, ◌&&◌, if◌then◌else◌,
}
use nt.Prelude.Int.{ℤ, pos, negsuc}
use nt.Prelude.Text.{Str}
use nt.Nop.Json.{Json}
use nt.Nop.Map.{map_get}
use nt.Nop.Map.Refine.{stored, assoc, stored-lem}
use nt.Nop.Capability.{
  CapRegistry, cap_max, always_on, registry_create, is_enabled, enable_all, last_switch,
  enable_all-last,
}
use nt.Nop.Router.{
  Router, Route, Response, response_init, failed, settle, router_create, router_register,
  dispatch_one,
}

-- The router after the registrations of the list, which begins with the last.
unfoldable pub registered : {S : Type 0} → CapRegistry → List (Str × Route S) → Router S
registered caps [] = router_create caps
registered caps ((f, route) ∷ es) = router_register (registered caps es) f route

-- Whether the switches leave a capability on.
unfoldable pub allowed : List (ℤ × Bool) → ℤ → Bool
allowed cs (negsuc k) = false
allowed cs (pos k) = ltb k cap_max && (if always_on k then true else last_switch cs k false)

module _ {S : Type 0} where
  registered-stored :
      (caps : CapRegistry) (es : List (Str × Route S))
      → registered caps es ≡ record { routes = stored 256 es; caps = caps }
  unfolding registered router_create router_register stored
  registered-stored caps [] = refl
  registered-stored caps ((f, route) ∷ es) =
      ap (λ r. router_register r f route) (registered-stored caps es)

is_enabled-allowed :
    (cs : List (ℤ × Bool)) (c : ℤ) → is_enabled (enable_all cs registry_create) c ≡ allowed cs c
unfolding allowed
is_enabled-allowed cs (negsuc k) = unfold is_enabled in refl
is_enabled-allowed cs (pos k) = elim (Bool-cases (ltb k cap_max)) [
  | inl e ↦ rw (e) (enable_all-last cs k (ground (arith, e)))
  | inr e ↦ unfold is_enabled in rw (e) refl
]

-- After any registrations and any switches of capabilities, a command that was never registered is
-- answered 501, and so is one whose capability is off by the last switch of it; neither touches the
-- state. Otherwise the handler that was registered last under the name runs: its response stands
-- where it succeeds, and else the code of its error is answered with no content.
pub dispatch_one-registered :
    {S : Type 0} (cs : List (ℤ × Bool)) (es : List (Str × Route S)) (func : Str)
    (args : Option Json) (s : S)
    → dispatch_one (registered (enable_all cs registry_create) es) func args s
      ≡ elim (assoc es func) as (λ o. Response × S) [
        | none ↦ (failed 501, s)
        | some route ↦
            if allowed cs route.capability
            then settle (route.handler func args response_init s)
            else (failed 501, s)
      ]
unfolding dispatch_one is_enabled
dispatch_one-registered {S} cs es func args s =
    let caps = enable_all cs registry_create in
    let found : map_get (registered caps es).routes func ≡ assoc es func =
      ap (λ r. map_get r.routes func) (registered-stored caps es) ∙ (stored-lem 256 es func).0 in
    let same : (registered caps es).caps ≡ caps = ap (λ r. r.caps) (registered-stored caps es) in
    elim (Option-cases (assoc es func)) [
      | inl e ↦ rw (dispatch_one, found, e) refl
      | inr (route, e) ↦
          rw (dispatch_one, found, e, same, is_enabled-allowed cs route.capability) refl
    ]
