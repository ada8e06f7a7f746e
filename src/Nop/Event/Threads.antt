-- ===== src/Nop/Event/Threads.antt =====
-- The threads around the hub: the critical sections in any order, with the deliveries between them.
use nt.Prelude.{
  ℕ, zero, suc, ◌<◌, ◌≡◌, refl, sym, ap, ◌∙◌, inl, inr, arith, List, [], ◌∷◌, ◌++◌, none, some, ltb,
  length, length-append, Bool-cases, Option-cases, ◌↔◌,
}
use nt.Nop.Event.{
  Hub, EventRec, free_sink, hub_create, subscribe, clear_sink, wait_idle, unsubscribe,
  publish_begin, publish_end,
}

-- The hub and the sinks that each publish in flight is still to call.
pub record Shared : Type 0 where
  pub hub : Hub
  pub flying : List (List (ℕ × ℕ))

pub data Step : Shared → Shared → Type 0 where
  subscribed :
      (s : Shared) (sink ctx : ℕ) → Step s (record s { hub = (subscribe s.hub sink ctx).1 })
  cleared : (s : Shared) (i : ℕ) → Step s (record s { hub = clear_sink s.hub i })
  began :
      (s : Shared) (e : EventRec)
      → Step s (record {
        hub = (publish_begin s.hub e).1;
        flying = (publish_begin s.hub e).0 ∷ s.flying;
      })
  delivered :
      (h : Hub) (before after : List (List (ℕ × ℕ))) (k : ℕ × ℕ) (ks : List (ℕ × ℕ))
      → Step
          (record { hub = h; flying = before ++ (k ∷ ks) ∷ after })
          (record { hub = h; flying = before ++ ks ∷ after })
  ended :
      (h : Hub) (before after : List (List (ℕ × ℕ)))
      → Step
          (record { hub = h; flying = before ++ [] ∷ after })
          (record { hub = publish_end h; flying = before ++ after })

pub data Reach : Shared → Type 0 where
  start : Reach (record { hub = hub_create; flying = [] })
  onward : (s t : Shared) → Reach s → Step s t → Reach t

Step-count :
    (s t : Shared)
    → Step s t
    → s.hub.publishing ≡ length s.flying
    → t.hub.publishing ≡ length t.flying
unfolding subscribe publish_begin
Step-count s t (subscribed r sink ctx) h = elim (Option-cases (free_sink s.hub 0 8)) [
  | inl e ↦ rw (subscribe, e) h
  | inr (i, e) ↦ rw (subscribe, e) h
]
Step-count s t (cleared r i) h = h
Step-count s t (began r e) h = omega arith
Step-count s t (delivered k b a x xs) h = h ∙ length-append b _ ∙ sym (length-append b (xs ∷ a))
Step-count s t (ended k b a) h = omega (arith, length-append b ([] ∷ a), length-append b a)

Reach-count : (s : Shared) → Reach s → s.hub.publishing ≡ length s.flying
Reach-count s start = refl
Reach-count s (onward r t k st) = Step-count r s st (Reach-count r k)

none_flying : (fs : List (List (ℕ × ℕ))) → length fs ≡ 0 → fs ≡ []
none_flying [] h = refl
none_flying (f ∷ fs) h = absurd (omega arith)

wait_idle-one :
    (others : Hub → Hub) (h : Hub) → (wait_idle others 1 h ≡ some h) ↔ (h.publishing ≡ 0)
unfolding wait_idle
wait_idle-one others h = elim (Bool-cases (ltb 0 h.publishing)) [
  | inl e ↦ ((λ x. absurd (ground (arith, e, x))), (λ x. absurd (ground (arith, e, x))))
  | inr e ↦ ((λ x. ground (arith, e)), (λ x. ground (arith, e)))
]

-- Whatever the threads did before, the wait of an unsubscription lets its thread through exactly when
-- no publish has sinks left to call or an end still to come.
pub wait_idle-drained :
    (s : Shared) (others : Hub → Hub)
    → Reach s
    → (wait_idle others 1 s.hub ≡ some s.hub) ↔ (s.flying ≡ [])
wait_idle-drained s others r = (
  (λ h. none_flying s.flying (sym (Reach-count s r) ∙ (wait_idle-one others s.hub).0 h)),
  (λ h. (wait_idle-one others s.hub).1 (Reach-count s r ∙ ap length h)),
)

-- An unsubscription made while a publish is in flight does not return, in any number of rounds, as
-- long as the other threads leave that publish in flight: a sink that unsubscribes from within its own
-- call waits for itself.
pub unsubscribe-inside_publish :
    (others : Hub → Hub) (fuel : ℕ) (h : Hub) (e : EventRec) (i : ℕ)
    → ((x : Hub) → 0 < x.publishing → 0 < (others x).publishing)
    → unsubscribe others fuel (publish_begin h e).1 i ≡ none
unfolding unsubscribe publish_begin wait_idle
unsubscribe-inside_publish others fuel h e i keep =
    stuck fuel (clear_sink (publish_begin h e).1 i) (omega arith)
  where
    stuck : (fuel : ℕ) (x : Hub) → 0 < x.publishing → wait_idle others fuel x ≡ none
    stuck zero x p = refl
    stuck (suc fuel) x p = let rest = stuck fuel (others x) (keep x p) in ground (arith, p, rest)
