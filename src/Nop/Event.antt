-- ===== src/Nop/Event.antt =====
-- components/nop/src/services/svc_event.c: the hub of detection events.
-- A critical section is one function; a publish is its two sections with the deliveries between them.
pub mod Recent
pub mod Threads
use nt.Prelude.{
  ℕ, zero, suc, ◌+◌, ◌-◌, ◌%◌, List, [], ◌∷◌, ◌++◌, Bool, true, false, Option, none, some, ltb, leb,
  ◌==◌, ◌&&◌, if◌then◌else◌,
}

abbrev pub max_sinks : ℕ
max_sinks = 8

abbrev pub store_size : ℕ
store_size = 64

-- The sink's function and context as numbers.
pub record Sink : Type 0 where
  pub sink : ℕ
  pub ctx : ℕ
  pub active : Bool

-- nop_event_record_t, the part of an event that is kept.
pub record EventRec : Type 0 where
  pub channel : ℕ
  pub kind : ℕ
  pub timestamp_ms : ℕ

pub record Hub : Type 0 where
  pub sinks : ℕ → Sink
  pub store : ℕ → EventRec
  pub store_count : ℕ
  pub store_head : ℕ
  pub publishing : ℕ

abbrev pub no_sink : Sink
no_sink = record { sink = 0; ctx = 0; active = false }

abbrev pub no_event : EventRec
no_event = record { channel = 0; kind = 0; timestamp_ms = 0 }

abbrev pub hub_create : Hub
hub_create = record {
  sinks = λ i. no_sink;
  store = λ i. no_event;
  store_count = 0;
  store_head = 0;
  publishing = 0;
}

abbrev pub put_sink : Hub → ℕ → Sink → Hub
put_sink h i s = record h { sinks = λ j. if i == j then s else h.sinks j }

-- The first slot from `i` on that is not active, of `n`.
unfoldable pub free_sink : Hub → ℕ → ℕ → Option ℕ
free_sink h i zero = none
free_sink h i (suc n) = if (h.sinks i).active then free_sink h (i + 1) n else some i

unfoldable pub subscribe : Hub → ℕ → ℕ → Option ℕ × Hub
unfolding free_sink
subscribe h sink ctx = elim (free_sink h 0 max_sinks) [
  | none ↦ (none, h)
  | some i ↦ (some i, put_sink h i (record { sink = sink; ctx = ctx; active = true }))
]

-- The first section of an unsubscription.
abbrev pub clear_sink : Hub → ℕ → Hub
clear_sink h i = put_sink h i no_sink

-- The wait behind it, for `fuel` rounds, each with what the other threads do to the hub meanwhile:
-- `none` where it has not come to an end.
unfoldable pub wait_idle : (Hub → Hub) → ℕ → Hub → Option Hub
wait_idle others zero h = none
wait_idle others (suc fuel) h =
    if ltb 0 h.publishing then wait_idle others fuel (others h) else some h

unfoldable pub unsubscribe : (Hub → Hub) → ℕ → Hub → ℕ → Option Hub
unfolding wait_idle
unsubscribe others fuel h i = wait_idle others fuel (clear_sink h i)

-- The active sinks from `i` on, of `n`.
unfoldable pub active_sinks : Hub → ℕ → ℕ → List (ℕ × ℕ)
active_sinks h i zero = []
active_sinks h i (suc n) =
    let rest = active_sinks h (i + 1) n in
    if (h.sinks i).active then ((h.sinks i).sink, (h.sinks i).ctx) ∷ rest else rest

-- The first section of a publish: the event is kept, the sinks to call are copied.
unfoldable pub publish_begin : Hub → EventRec → List (ℕ × ℕ) × Hub
unfolding active_sinks
publish_begin h e = (
  active_sinks h 0 max_sinks,
  record h {
    store = λ j. if h.store_head == j then e else h.store j;
    store_head = (h.store_head + 1) % store_size;
    store_count = if ltb h.store_count store_size then h.store_count + 1 else h.store_count;
    publishing = h.publishing + 1;
  },
)

abbrev pub publish_end : Hub → Hub
publish_end h = record h { publishing = h.publishing - 1 }

-- The calls of the sinks, and the hub afterwards where no other thread came between.
unfoldable pub publish : Hub → EventRec → List (ℕ × ℕ) × Hub
unfolding publish_begin
publish h e = let (called, h') = publish_begin h e in (called, publish_end h')

unfoldable pub count_active : Hub → ℕ → ℕ → ℕ
count_active h i zero = 0
count_active h i (suc n) =
    let rest = count_active h (i + 1) n in if (h.sinks i).active then rest + 1 else rest

unfoldable pub subscriber_count : Hub → ℕ
unfolding count_active
subscriber_count h = count_active h 0 max_sinks

-- From the `i`-th newest on, `n` events and room for `max`.
unfoldable pub recent_from : Hub → ℕ → ℕ → ℕ → List EventRec
recent_from h i zero max = []
recent_from h i (suc n) zero = []
recent_from h i (suc n) (suc max) =
    h.store ((h.store_head + store_size - 1 - i) % store_size) ∷ recent_from h (i + 1) n max

unfoldable pub recent : Hub → ℕ → List EventRec
unfolding recent_from
recent h max = recent_from h 0 h.store_count max
