-- ===== src/App/Channel/Notices.antt =====
-- What the two callbacks were told, and the invariant of the channel table about it.
use nt.Prelude.{
  ℕ, ◌≡◌, ◌∙◌, arith, List, [], ◌∷◌, Bool, true, false, ◌==◌, ◌&&◌, not, if◌then◌else◌, ℕ_discrete,
}
use nt.Prelude.Int.{ℤ, pos, negsuc}
use nt.App.Channel.{ChanSlot, Mgr, Call, on_online, on_offline, put_slot, call}

unfoldable pub is_chn : ℤ → ℕ → Bool
is_chn (pos k) c = k == c
is_chn (negsuc k) c = false

-- Whether the last that the callbacks were told of channel `c` is that it is online.
unfoldable pub told : ℕ → List Call → Bool
told c [] = false
told c (on_online k ∷ r) = if is_chn k c then true else told c r
told c (on_offline k ∷ r) = if is_chn k c then false else told c r
told c (_ ∷ r) = told c r

-- Online and offline take turns, and online comes first.
unfoldable pub alternates : ℕ → List Call → Bool
alternates c [] = true
alternates c (on_online k ∷ r) = (if is_chn k c then not (told c r) else true) && alternates c r
alternates c (on_offline k ∷ r) = (if is_chn k c then told c r else true) && alternates c r
alternates c (_ ∷ r) = alternates c r

-- A channel's slot stands under its own number, and its flag is what the callbacks were told.
pub record Told (m : Mgr) (c : ℕ) : Type 0 where
  pub turns : alternates c m.calls ≡ true
  pub flag : told c m.calls ≡ (m.slots c).notified
  pub placed : (m.slots c).in_use ≡ true → (m.slots c).d.chn ≡ pos c
  pub free : (m.slots c).in_use ≡ false → (m.slots c).notified ≡ false

pub record IsTold (m : Mgr) : Type 0 where
  pub online : m.has_online ≡ true
  pub offline : m.has_offline ≡ true
  pub each : (c : ℕ) → Told m c

-- A slot that may stand under number `i`.
pub record IsPlaced (i : ℕ) (s : ChanSlot) : Type 0 where
  pub placed : s.in_use ≡ true → s.d.chn ≡ pos i
  pub free : s.in_use ≡ false → s.notified ≡ false

pub put_slot-IsTold :
    (m : Mgr) (i : ℕ) (s : ChanSlot)
    → IsTold m
    → IsPlaced i s
    → s.notified ≡ (m.slots i).notified
    → IsTold (put_slot m i s)
put_slot-IsTold m i s v p n = record { online = v.online; offline = v.offline; each = λ c. at c }
  where
    at : (c : ℕ) → Told (put_slot m i s) c
    at c = elim (ℕ_discrete i c) [
      | yes e ↦ record {
        turns = (v.each c).turns;
        flag = (v.each c).flag ∙ ground (arith, e, n);
        placed = ground (arith, e, p.placed);
        free = ground (arith, e, p.free);
      }
      | no e ↦ record {
        turns = (v.each c).turns;
        flag = (v.each c).flag ∙ ground (arith, e);
        placed = ground (arith, e, (v.each c).placed);
        free = ground (arith, e, (v.each c).free);
      }
    ]

-- A call that the callbacks do not see.
unfoldable pub is_quiet : Call → Bool
is_quiet (on_online k) = false
is_quiet (on_offline k) = false
is_quiet _ = true

told-quiet : (c : ℕ) (k : Call) (r : List Call) → is_quiet k ≡ true → told c (k ∷ r) ≡ told c r
unfolding told is_quiet
told-quiet c k r q = ground arith

alternates-quiet :
    (c : ℕ) (k : Call) (r : List Call) → is_quiet k ≡ true → alternates c (k ∷ r) ≡ alternates c r
unfolding alternates is_quiet
alternates-quiet c k r q = ground arith

pub call-IsTold : (m : Mgr) (k : Call) → IsTold m → is_quiet k ≡ true → IsTold (call m k)
call-IsTold m k v q = record {
  online = v.online;
  offline = v.offline;
  each = λ c. record {
    turns = alternates-quiet c k m.calls q ∙ (v.each c).turns;
    flag = told-quiet c k m.calls q ∙ (v.each c).flag;
    placed = (v.each c).placed;
    free = (v.each c).free;
  };
}

-- A slot goes online, and the callback is told.
pub online-IsTold :
    (m : Mgr) (i : ℕ) (s : ChanSlot)
    → IsTold m
    → IsPlaced i s
    → (m.slots i).notified ≡ false
    → s.notified ≡ true
    → IsTold (call (put_slot m i s) (on_online (pos i)))
unfolding told alternates is_chn
online-IsTold m i s v p was now = record {
  online = v.online;
  offline = v.offline;
  each = λ c. at c;
}
  where
    at : (c : ℕ) → Told (call (put_slot m i s) (on_online (pos i))) c
    at c = elim (ℕ_discrete i c) [
      | yes e ↦ record {
        turns = ground (arith, e, was, (v.each c).turns, (v.each c).flag);
        flag = ground (arith, e, now);
        placed = ground (arith, e, p.placed);
        free = ground (arith, e, p.free);
      }
      | no e ↦ record {
        turns = ground (arith, e, (v.each c).turns);
        flag = ground (arith, e, (v.each c).flag);
        placed = ground (arith, e, (v.each c).placed);
        free = ground (arith, e, (v.each c).free);
      }
    ]

-- A slot that was online goes offline, and the callback is told.
pub offline-IsTold :
    (m : Mgr) (i : ℕ) (s : ChanSlot)
    → IsTold m
    → IsPlaced i s
    → (m.slots i).notified ≡ true
    → s.notified ≡ false
    → IsTold (call (put_slot m i s) (on_offline (pos i)))
unfolding told alternates is_chn
offline-IsTold m i s v p was now = record {
  online = v.online;
  offline = v.offline;
  each = λ c. at c;
}
  where
    at : (c : ℕ) → Told (call (put_slot m i s) (on_offline (pos i))) c
    at c = elim (ℕ_discrete i c) [
      | yes e ↦ record {
        turns = ground (arith, e, was, (v.each c).turns, (v.each c).flag);
        flag = ground (arith, e, now);
        placed = ground (arith, e, p.placed);
        free = ground (arith, e, p.free);
      }
      | no e ↦ record {
        turns = ground (arith, e, (v.each c).turns);
        flag = ground (arith, e, (v.each c).flag);
        placed = ground (arith, e, (v.each c).placed);
        free = ground (arith, e, (v.each c).free);
      }
    ]
