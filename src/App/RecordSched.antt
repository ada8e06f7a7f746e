-- ===== src/App/RecordSched.antt =====
-- app/record_sched/nvr_record_sched.c: the events of the channels, their post-record windows, and the
-- stop on a full disk. `begun` are the cloud events registered, newest first.
pub mod Burst
use nt.Prelude.{
  ℕ, zero, suc, ◌+◌, ◌*◌, ◌%◌, List, [], ◌∷◌, Bool, true, false, Option, none, some, ltb, leb, ◌==◌,
  ◌&&◌, not, if◌then◌else◌, u32,
}
use nt.Prelude.Int.{ℤ, pos, negsuc}

abbrev pub rec_max_ch : ℕ
rec_max_ch = 32

pub record RecChn : Type 0 where
  pub in_use : Bool
  pub codec : ℕ
  pub evt_active : Bool
  pub evt_rectype : ℕ
  pub evt_id : ℕ
  pub evt_start : ℕ
  pub evt_until : ℕ

-- rsdk_cloud_event_t, the fields that are set; its state is PENDING.
pub record CloudEvent : Type 0 where
  pub event_id : ℕ
  pub chn : ℕ
  pub rectype : ℕ
  pub starttime : ℕ

pub record Sched : Type 0 where
  pub post_record_s : ℕ
  pub has_meta : Bool
  pub has_group : Bool
  pub stop_policy : Bool
  pub ch : ℕ → RecChn
  pub stopped : Bool
  pub begun : List CloudEvent

abbrev pub no_rec : RecChn
no_rec = record {
  in_use = false;
  codec = 0;
  evt_active = false;
  evt_rectype = 0;
  evt_id = 0;
  evt_start = 0;
  evt_until = 0;
}

abbrev pub post_or_default : ℤ → ℕ
post_or_default (pos zero) = 10
post_or_default (pos (suc n)) = suc n
post_or_default (negsuc n) = 10

unfoldable pub sched_init : ℤ → Bool → Bool → Bool → Sched
sched_init post has_meta has_group stop_policy = record {
  post_record_s = post_or_default post;
  has_meta = has_meta;
  has_group = has_group;
  stop_policy = stop_policy;
  ch = λ i. no_rec;
  stopped = false;
  begun = [];
}

abbrev pub ch_of : ℤ → Option ℕ
ch_of (pos n) = if ltb n rec_max_ch then some n else none
ch_of (negsuc n) = none

abbrev pub put_ch : Sched → ℕ → RecChn → Sched
put_ch r i c = record r { ch = λ j. if i == j then c else r.ch j }

unfoldable pub channel_up : Sched → ℤ → ℕ → Bool × Sched
channel_up r chn codec = elim (ch_of chn) [
  | none ↦ (false, r)
  | some i ↦ (true, put_ch r i (record (r.ch i) { in_use = true; codec = codec }))
]

unfoldable pub channel_down : Sched → ℤ → Bool × Sched
channel_down r chn = elim (ch_of chn) [
  | none ↦ (false, r)
  | some i ↦ (true, put_ch r i (record (r.ch i) { in_use = false; evt_active = false }))
]

-- rsdk_cloud_make_event_id of components/recorder/src/rsdk_cloud.c.
unfoldable pub make_event_id : ℕ → ℕ → ℕ → ℕ → ℕ
make_event_id chn start rectype salt =
    chn % 256 * 72057594037927936
    + rectype % 256 * 281474976710656
    + salt % 65536 * 4294967296
    + u32 start

-- The event goes to the cloud's table where there is one and recording was not stopped.
abbrev pub register : Sched → CloudEvent → Sched
register r e =
    if r.has_meta && r.has_group && not r.stopped then record r { begun = e ∷ r.begun } else r

-- A trigger of channel `i`, in use, at time `now`.
unfoldable pub trigger_chn : ℕ → Sched → ℕ → ℕ → ℕ → ℕ × Sched
trigger_chn now r i rectype start_epoch =
    let c = r.ch i in
    let start = if start_epoch == 0 then u32 now else start_epoch in
    let id = make_event_id i start rectype (now % 65536) in
    let r1 = register r (record { event_id = id; chn = i; rectype = rectype; starttime = start }) in
    if c.evt_active && c.evt_rectype == rectype
    then (c.evt_id, put_ch r i (record c { evt_until = now + r.post_record_s }))
    else (
      id,
      put_ch r1 i (record c {
        evt_active = true;
        evt_rectype = rectype;
        evt_id = id;
        evt_start = start;
        evt_until = now + r.post_record_s;
      }),
    )

unfoldable pub trigger_event : ℕ → Sched → ℤ → ℕ → ℕ → ℕ × Sched
unfolding trigger_chn
trigger_event now r chn rectype start_epoch = elim (ch_of chn) [
  | none ↦ (0, r)
  | some i ↦ if (r.ch i).in_use then trigger_chn now r i rectype start_epoch else (0, r)
]

unfoldable pub on_storage_full : Sched → Sched
on_storage_full r = if r.stop_policy then record r { stopped = true } else r

abbrev pub expire : ℕ → RecChn → RecChn
expire now c =
    if c.evt_active && leb c.evt_until now then record c { evt_active = false; evt_id = 0 } else c

-- Each channel on its own, so the loop is a map.
unfoldable pub sched_tick : ℕ → Sched → Sched
sched_tick now r = record r { ch = λ i. if ltb i rec_max_ch then expire now (r.ch i) else r.ch i }

unfoldable pub is_recording : Sched → ℤ → Bool
is_recording r chn = elim (ch_of chn) [
  | none ↦ false
  | some i ↦ (r.ch i).in_use && r.has_group && not r.stopped
]
