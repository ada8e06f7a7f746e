-- ===== src/App/Channel/Bind.antt =====
-- app/channel/nvr_channel.c: PoE ports, discovery, and the queries.
use nt.Prelude.{
  ℕ, zero, suc, ◌+◌, ◌-◌, List, [], ◌∷◌, Bool, Option, none, some, ltb, leb, ◌==◌, ◌&&◌, not,
  if◌then◌else◌,
}
use nt.Prelude.Text.{Str, is_empty, str_eq}
use nt.Prelude.Int.{ℤ, pos, negsuc}
use nt.App.Channel.{
  Desc, Status, empty, bound, ChanSlot, Mgr, stream_start_all, stream_stop_all, max_ch, poe_ports,
  blank_desc, slot_of, put_slot, call, chan_add, is_installed,
}

-- `text` prints "Camera %d" and `admin` is the default user; a missing string is empty, but the user.
unfoldable pub bind_poe :
    (Desc → Option Str) → (ℕ → Str) → Str → Mgr → ℤ → Option Str → Option Str → Option Str → ℤ × Mgr
bind_poe get_url text admin m (negsuc p) ip user pass = (negsuc 0, m)
bind_poe get_url text admin m (pos p) ip user pass =
    if leb 1 p && leb p poe_ports
    then chan_add get_url m (record blank_desc {
      chn = pos (p - 1);
      enabled = 1;
      rec = 1;
      poe_port = pos p;
      onvif_auto = 1;
      onvif_port = pos 80;
      vout_win = pos (p - 1);
      name = text p;
      onvif_ip = elim ip [ none ↦ [] | some s ↦ s ];
      user = elim user [ none ↦ admin | some s ↦ s ];
      pass = elim pass [ none ↦ [] | some s ↦ s ];
    })
    else (negsuc 0, m)

-- `cls` is the answer of nvr_dev_classify: the kind and the backend, or none.
unfoldable pub apply_discovery : Mgr → ℤ → Option (ℕ × ℕ) → ℤ × Mgr
apply_discovery m chn cls = elim (slot_of chn) [
  | none ↦ (negsuc 0, m)
  | some i ↦
      let s = m.slots i in
      if s.in_use
      then (elim cls [
        | none ↦ (negsuc 0, m)
        | some c ↦ (pos 0, put_slot m i (record s { d = record s.d { kind = c.0; backend = c.1 } }))
      ])
      else (negsuc 0, m)
]

-- The first `i` from `i` on, of `n` slots, that passes the test.
unfoldable pub first_slot : (ChanSlot → Bool) → Mgr → ℕ → ℕ → Option ℕ
first_slot test m i zero = none
first_slot test m i (suc n) = if test (m.slots i) then some i else first_slot test m (i + 1) n

unfoldable pub chn_by_host : Mgr → Str → Option ℕ
unfolding first_slot
chn_by_host m host = first_slot (λ s. s.in_use && str_eq s.d.onvif_ip host) m 0 max_ch

unfoldable pub free_ip_chn : Mgr → Option ℕ
unfolding first_slot
free_ip_chn m = first_slot (λ s. not s.in_use) m poe_ports (max_ch - poe_ports)

-- nvr_onvif_cam_t with what libc and nvr_dev_classify read from it: the four numbers of the host and the class.
pub record Cam : Type 0 where
  pub host : Str
  pub port : ℤ
  pub octets : Option (ℤ × ℤ × ℤ × ℤ)
  pub kind : ℕ
  pub backend : ℕ

-- The PoE port of 198.18.<port>.x, less one.
abbrev pub poe_chn : Option (ℤ × ℤ × ℤ × ℤ) → Option ℕ
poe_chn none = none
poe_chn (some (pos a, pos b, pos c, d)) =
    if a == 198 && b == 18 && leb 1 c && leb c poe_ports then some (c - 1) else none
poe_chn (some (_, _, _, _)) = none

abbrev pub port_or : ℤ → ℕ → ℤ
port_or (pos zero) dflt = pos dflt
port_or (pos (suc n)) dflt = pos (suc n)
port_or (negsuc n) dflt = pos dflt

abbrev pub pick_chn : Mgr → Cam → Option ℕ
pick_chn m cam = elim (poe_chn cam.octets) [ some i ↦ some i | none ↦ free_ip_chn m ]

abbrev pub cam_desc : (ℕ → Str) → Str → Cam → ℕ → Desc
cam_desc text admin cam i = record blank_desc {
  chn = pos i;
  enabled = 1;
  rec = 1;
  poe_port = if ltb i poe_ports then pos (i + 1) else pos 0;
  onvif_auto = 1;
  onvif_port = port_or cam.port 80;
  vout_win = pos i;
  kind = cam.kind;
  backend = cam.backend;
  onvif_ip = cam.host;
  user = admin;
  name = text (i + 1);
}

-- The callback of the discovery: one more bound, or none.
unfoldable pub on_discovered : (Desc → Option Str) → (ℕ → Str) → Str → ℕ × Mgr → Cam → ℕ × Mgr
unfolding free_ip_chn
on_discovered get_url text admin (n, m) cam =
    if is_empty cam.host then (n, m) else (elim (chn_by_host m cam.host) [
      | some i ↦
          let s = m.slots i in
          (n, put_slot m i (record s { d = record s.d { kind = cam.kind; backend = cam.backend } }))
      | none ↦ elim (pick_chn m cam) [
        | none ↦ (n, m)
        | some i ↦
            let (r, m') = chan_add get_url m (cam_desc text admin cam i) in
            if (m.slots i).in_use then (n, m) else (if is_installed r then n + 1 else n, m')
      ]
    ])

-- The cameras that the discovery reports, in order.
unfoldable pub run_discovery : (Desc → Option Str) → (ℕ → Str) → Str → ℕ × Mgr → List Cam → ℕ × Mgr
run_discovery get_url text admin r [] = r
run_discovery get_url text admin r (cam ∷ cams) =
    run_discovery get_url text admin (on_discovered get_url text admin r cam) cams

-- The calls alone; the stream manager's answer is not kept.
abbrev pub start_all : Mgr → Mgr
start_all m = call m stream_start_all

unfoldable pub stop_all : Mgr → Mgr
stop_all m =
    let m1 = call m stream_stop_all in
    record m1 {
      slots = λ i.
          if ltb i max_ch && (m.slots i).in_use
          then record (m.slots i) { status = bound }
          else m.slots i;
    }

unfoldable pub chan_get : Mgr → ℤ → Option Desc
chan_get m chn = elim (slot_of chn) [
  | none ↦ none
  | some i ↦ if (m.slots i).in_use then some (m.slots i).d else none
]

-- From slot `i` on, `n` slots and room for `cap`.
unfoldable pub chan_list : Mgr → ℕ → ℕ → ℕ → List Desc
chan_list m i zero cap = []
chan_list m i (suc n) zero = []
chan_list m i (suc n) (suc cap) =
    let rest = chan_list m (i + 1) n cap in
    if (m.slots i).in_use then (m.slots i).d ∷ rest else chan_list m (i + 1) n (suc cap)

unfoldable pub chan_status : Mgr → ℤ → Status
chan_status m chn = elim (slot_of chn) [
  | none ↦ empty
  | some i ↦ if (m.slots i).in_use then (m.slots i).status else empty
]
