-- ===== src/App/Preview.antt =====
-- app/preview/nvr_preview.c: which channel each window of the split screen shows.
-- The calls of the video output and of the stream manager are kept in `calls`, newest first. The video
-- output's answer to a layout is the parameter `accepts`.
pub mod Windows
pub mod Distinct
use nt.Prelude.{
  ℕ, zero, suc, ◌+◌, ◌-◌, ◌*◌, List, [], ◌∷◌, ◌++◌, Bool, true, false, Option, none, some, ltb, leb,
  ◌==◌, ◌&&◌, not, if◌then◌else◌, has_bit,
}
use nt.Prelude.Int.{ℤ, pos, negsuc}
use nt.Prelude.Text.{Str, is_empty}

abbrev pub max_win : ℕ
max_win = 16

abbrev pub max_chn : ℕ
max_chn = 32

pub data PvLayout : Type 0 where
  l1 l4 l6 l9 l12 l16 : PvLayout

pub data VoutCall : Type 0 where
  vout_bind : ℕ → ℕ → VoutCall
  vout_osd : ℕ → Str → VoutCall
  switch_main : ℕ → VoutCall
  switch_sub : ℕ → VoutCall

pub record Preview : Type 0 where
  pub osd_name : Bool
  pub osd_datetime : Bool
  pub has_sm : Bool
  pub layout : PvLayout
  pub page : ℕ
  pub win_count : ℕ
  pub zoom_chn : Option ℕ
  pub win2chn : ℕ → Option ℕ
  pub icons : ℕ → ℕ
  pub name : ℕ → Str
  pub calls : List VoutCall

-- The number of windows, and the grid of the output.
unfoldable pub to_mhal : PvLayout → ℕ × ℕ
to_mhal l1 = (1, 1)
to_mhal l4 = (4, 4)
to_mhal l6 = (6, 9)
to_mhal l9 = (9, 9)
to_mhal l12 = (12, 16)
to_mhal l16 = (16, 16)

abbrev pub preview_init : Bool → Bool → Bool → Preview
preview_init osd_name osd_datetime has_sm = record {
  osd_name = osd_name;
  osd_datetime = osd_datetime;
  has_sm = has_sm;
  layout = l16;
  page = 0;
  win_count = 16;
  zoom_chn = none;
  win2chn = λ w. none;
  icons = λ c. 0;
  name = λ c. [];
  calls = [];
}

abbrev pub emit : Preview → VoutCall → Preview
emit p c = record p { calls = c ∷ p.calls }

abbrev pub put_win : Preview → ℕ → Option ℕ → Preview
put_win p w c = record p { win2chn = λ v. if w == v then c else p.win2chn v }

abbrev pub mark : Bool → ℕ → Str
mark b c = if b then c ∷ [] else []

-- The marks of the icons: " [MHFR]", each where its bit is set.
abbrev pub icon_tag : ℕ → Str
icon_tag ic =
    32
    ∷ 91
    ∷ (mark (has_bit ic 0) 77
        ++ mark (has_bit ic 1) 72
        ++ mark (has_bit ic 2) 70
        ++ mark (has_bit ic 3) 82
        ++ 93 ∷ [])

unfoldable pub compose_osd : Preview → ℕ → Preview
compose_osd p w = elim (p.win2chn w) [
  | none ↦ p
  | some c ↦
      let line : Str = if p.osd_name then p.name c else [] in
      emit p (vout_osd w (if p.icons c == 0 then line else line ++ icon_tag (p.icons c)))
]

-- The windows from `w` on, `n` of them, in a layout of `wc`.
unfoldable pub fill_page : Preview → ℕ → ℕ → ℕ → Preview
unfolding compose_osd
fill_page p wc w zero = p
fill_page p wc w (suc n) =
    let c = p.page * wc + w in
    fill_page
      (if ltb c max_chn then compose_osd (emit (put_win p w (some c)) (vout_bind w c)) w else p) wc
      (w + 1) n

unfoldable pub set_layout : (ℕ → Bool) → Preview → PvLayout → Bool × Preview
unfolding fill_page
set_layout accepts p l =
    let (wc, grid) = to_mhal l in
    let cleared = record p { layout = l; win_count = wc; win2chn = λ w. none } in
    if accepts grid then (true, fill_page cleared wc 0 wc) else (false, p)

unfoldable pub set_page : (ℕ → Bool) → Preview → ℤ → Bool × Preview
unfolding set_layout
set_page accepts p (pos n) = set_layout accepts (record p { page = n }) p.layout
set_page accepts p (negsuc n) = (false, p)

unfoldable pub map_win : Preview → ℤ → ℤ → Bool × Preview
unfolding compose_osd
map_win p (pos w) (pos c) =
    if ltb w p.win_count && ltb c max_chn
    then (true, compose_osd (emit (put_win p w (some c)) (vout_bind w c)) w)
    else (false, p)
map_win p (pos w) (negsuc c) = (false, p)
map_win p (negsuc w) c = (false, p)

unfoldable pub unmap_win : Preview → ℤ → Bool × Preview
unmap_win p (pos w) =
    if ltb w max_win then (true, emit (put_win p w none) (vout_osd w [])) else (false, p)
unmap_win p (negsuc w) = (false, p)

-- Whether a window shows the channel; `none` is -1, the mark of an empty window.
abbrev pub shows : Option ℕ → Option ℕ → Bool
shows none none = true
shows none (some c) = false
shows (some d) none = false
shows (some d) (some c) = d == c

-- The first window from `w` on, of `n`, that shows the channel.
unfoldable pub win_from : Preview → Option ℕ → ℕ → ℕ → Option ℕ
win_from p c w zero = none
win_from p c w (suc n) = if shows (p.win2chn w) c then some w else win_from p c (w + 1) n

unfoldable pub win_of_chn : Preview → Option ℕ → Option ℕ
unfolding win_from
win_of_chn p c = win_from p c 0 p.win_count

unfoldable pub on_channel_online : Preview → ℤ → Bool × Preview
unfolding win_of_chn compose_osd
on_channel_online p (negsuc c) = (false, p)
on_channel_online p (pos c) =
    let w = c - p.page * p.win_count in
    if ltb c max_chn
    then (elim (win_of_chn p (some c)) [
      | some v ↦ (true, compose_osd p v)
      | none ↦
          if leb (p.page * p.win_count) c && ltb w p.win_count
          then (true, compose_osd (emit (put_win p w (some c)) (vout_bind w c)) w)
          else (true, p)
    ])
    else (false, p)

-- `text` is "NO SIGNAL". There is no test of the number: -1 finds the first empty window.
unfoldable pub on_channel_offline : Str → Preview → ℤ → Preview
unfolding win_of_chn
on_channel_offline text p (negsuc zero) = elim (win_of_chn p none) [
  | none ↦ p
  | some w ↦ emit p (vout_osd w text)
]
on_channel_offline text p (negsuc (suc c)) = p
on_channel_offline text p (pos c) = elim (win_of_chn p (some c)) [
  | none ↦ p
  | some w ↦ emit p (vout_osd w text)
]

unfoldable pub fullscreen : (ℕ → Bool) → Preview → ℤ → Bool × Preview
unfolding set_layout compose_osd
fullscreen accepts p (negsuc c) = (false, p)
fullscreen accepts p (pos c) =
    let p1 = (set_layout accepts p l1).1 in
    let p2 = compose_osd (emit (put_win p1 0 (some c)) (vout_bind 0 c)) 0 in
    let p3 = if p.has_sm then emit p2 (switch_main c) else p2 in
    (true, record p3 { zoom_chn = some c })

unfoldable pub single_zoom : (ℕ → Bool) → Preview → ℤ → Bool → Bool × Preview
unfolding fullscreen set_layout
single_zoom accepts p chn true = fullscreen accepts p chn
single_zoom accepts p chn false =
    let p1 : Preview = elim p.zoom_chn [
      | none ↦ p
      | some c ↦ if p.has_sm then emit p (switch_sub c) else p
    ] in
    set_layout accepts (record p1 { zoom_chn = none }) l16

unfoldable pub set_icons : Preview → ℤ → ℕ → Preview
unfolding win_of_chn compose_osd
set_icons p (negsuc c) bits = p
set_icons p (pos c) bits =
    let p1 = record p { icons = λ d. if c == d then bits else p.icons d } in
    if ltb c max_chn
    then (elim (win_of_chn p (some c)) [ none ↦ p1 | some w ↦ compose_osd p1 w ])
    else p

-- `text` is the local time.
unfoldable pub preview_tick : Str → Preview → Preview
preview_tick text p = if p.osd_datetime then emit p (vout_osd 0 text) else p
