-- ===== src/App/Preview/Windows.antt =====
-- app/preview/nvr_preview.c: the windows of a page, and that no channel is shown twice.
use nt.Prelude.{
  ℕ, zero, suc, ◌+◌, ◌*◌, ◌≤◌, ◌<◌, ◌≡◌, ◌≢◌, refl, sym, ap, ◌∙◌, inl, inr, arith, Bool, true,
  false, Option, none, some, Option-cases, Bool-cases, ltb, leb, ◌==◌, ◌&&◌, if◌then◌else◌,
  ℕ_discrete,
}
use nt.App.Preview.{
  Preview, PvLayout, max_chn, to_mhal, compose_osd, fill_page, set_layout, win_from, shows, emit,
  put_win, vout_bind,
}

-- What an overlay leaves.
pub compose_osd-keeps :
    (p : Preview) (w : ℕ)
    → ((compose_osd p w).win2chn ≡ p.win2chn)
      × ((compose_osd p w).page ≡ p.page)
      × ((compose_osd p w).win_count ≡ p.win_count)
unfolding compose_osd
compose_osd-keeps p w = elim (Option-cases (p.win2chn w)) [
  | inl e ↦ rw (compose_osd, e) (refl, refl, refl)
  | inr (c, e) ↦ rw (compose_osd, e) (refl, refl, refl)
]

-- One round of the loop over the windows.
abbrev filled : Preview → ℕ → ℕ → Preview
filled p wc w =
    let c = p.page * wc + w in
    if ltb c max_chn then compose_osd (emit (put_win p w (some c)) (vout_bind w c)) w else p

filled-keeps :
    (p : Preview) (wc w v : ℕ)
    → ((filled p wc w).win2chn v
        ≡ (if (w == v) && ltb (p.page * wc + w) 32 then some (p.page * wc + v) else p.win2chn v))
      × ((filled p wc w).page ≡ p.page)
      × ((filled p wc w).win_count ≡ p.win_count)
filled-keeps p wc w v = elim (Bool-cases (ltb (p.page * wc + w) 32)) [
  | inr e ↦ rw (e) (ground arith, refl, refl)
  | inl e ↦
      let k =
        compose_osd-keeps
          (emit (put_win p w (some (p.page * wc + w))) (vout_bind w (p.page * wc + w))) w in
      rw (e) (ap (λ f. f v) k.0 ∙ ground arith, k.1, k.2)
]

join :
    (b wc w n v : ℕ) (x y : Option ℕ)
    → x ≡ (if (w == v) && ltb (b + w) 32 then some (b + v) else y)
    → (if leb (w + 1) v && ltb v (w + 1 + n) && ltb (b + v) 32 then some (b + v) else x)
      ≡ (if leb w v && ltb v (w + suc n) && ltb (b + v) 32 then some (b + v) else y)
join b wc w n v x y e = elim (ℕ_discrete w v) [
  | yes k ↦ ground (arith, e, k)
  | no k ↦ ground (arith, e, k)
]

same_page :
    (b b' v : ℕ) (c d : Bool) (x : Option ℕ)
    → b ≡ b'
    → (if c && d && ltb (b + v) 32 then some (b + v) else x)
      ≡ (if c && d && ltb (b' + v) 32 then some (b' + v) else x)
same_page b b' v c d x e = rw (e) refl

fill_page-windows :
    (n : ℕ) (p : Preview) (wc w v : ℕ)
    → ((fill_page p wc w n).win2chn v ≡ (
        if leb w v && ltb v (w + n) && ltb (p.page * wc + v) 32
        then some (p.page * wc + v)
        else p.win2chn v))
      × ((fill_page p wc w n).page ≡ p.page)
      × ((fill_page p wc w n).win_count ≡ p.win_count)
unfolding fill_page
fill_page-windows zero p wc w v = (ground arith, refl, refl)
fill_page-windows (suc n) p wc w v =
    let one = filled-keeps p wc w v in
    let r = fill_page-windows n (filled p wc w) wc (w + 1) v in
    (
      r.0
          ∙ same_page _ _ v (leb (w + 1) v) (ltb v (w + 1 + n)) ((filled p wc w).win2chn v)
              (ap (λ q. q * wc) one.1)
          ∙ join (p.page * wc) wc w n v _ _ one.0,
      r.1 ∙ one.1,
      r.2 ∙ one.2,
    )

-- A layout that the video output takes: window `v` shows channel page * windows + v, where there is
-- such a window and such a channel, and nothing otherwise. A layout that it refuses changes nothing.
pub set_layout-windows :
    (accepts : ℕ → Bool) (p : Preview) (l : PvLayout) (v : ℕ)
    → (if accepts (to_mhal l).1
        then ((set_layout accepts p l).0 ≡ true)
          × ((set_layout accepts p l).1.win2chn v ≡ (
              if ltb v (to_mhal l).0 && ltb (p.page * (to_mhal l).0 + v) 32
              then some (p.page * (to_mhal l).0 + v)
              else none))
          × ((set_layout accepts p l).1.win_count ≡ (to_mhal l).0)
        else (set_layout accepts p l ≡ (false, p)))
unfolding set_layout
set_layout-windows accepts p l v = elim (Bool-cases (accepts (to_mhal l).1)) [
  | inr e ↦ rw (set_layout, e) refl
  | inl e ↦
      let r =
        fill_page-windows (to_mhal l).0
          (record p { layout = l; win_count = (to_mhal l).0; win2chn = λ w. none }) (to_mhal l).0 0
          v in
      rw (set_layout, e) (refl, r.0 ∙ ground arith, r.2)
]

pub some-inj : {m n : ℕ} → some m ≡ some n → m ≡ n
some-inj {m} e = ap (λ o. elim o [ none ↦ m | some k ↦ k ]) e

-- No channel is in two windows, and no window behind the last shows one.
pub record IsDistinct (p : Preview) : Type 0 where
  pub once : (v w c : ℕ) → p.win2chn v ≡ some c → p.win2chn w ≡ some c → v ≡ w
  pub within : (v : ℕ) → p.win_count ≤ v → p.win2chn v ≡ none

shown : (t : Bool) (x : Option ℕ) (n c : ℕ) → x ≡ (if t then some n else none) → x ≡ some c → n ≡ c
shown true x n c e h = some-inj (sym e ∙ h)
shown false x n c e h = absurd (ground (arith, e, h))

-- Windows that show what a page shows are distinct.
page-IsDistinct :
    (p : Preview) (b : ℕ)
    → ((v : ℕ) → p.win2chn v ≡ (if ltb v p.win_count && ltb (b + v) 32 then some (b + v) else none))
    → IsDistinct p
page-IsDistinct p b h = record {
  once = λ v w c x y. omega (arith, shown _ _ (b + v) c (h v) x, shown _ _ (b + w) c (h w) y);
  within = λ v le. h v ∙ ground (arith, le);
}

pub set_layout-taken :
    (accepts : ℕ → Bool) (p : Preview) (l : PvLayout) (v : ℕ)
    → accepts (to_mhal l).1 ≡ true
    → ((set_layout accepts p l).0 ≡ true)
      × ((set_layout accepts p l).1.win2chn v ≡ (
          if ltb v (to_mhal l).0 && ltb (p.page * (to_mhal l).0 + v) 32
          then some (p.page * (to_mhal l).0 + v)
          else none))
      × ((set_layout accepts p l).1.win_count ≡ (to_mhal l).0)
set_layout-taken accepts p l v e = rw (e) at (set_layout-windows accepts p l v)

pub set_layout-IsDistinct :
    (accepts : ℕ → Bool) (p : Preview) (l : PvLayout)
    → IsDistinct p
    → IsDistinct (set_layout accepts p l).1
set_layout-IsDistinct accepts p l d = elim (Bool-cases (accepts (to_mhal l).1)) [
  | inr e ↦ rw (refused e) d
  | inl e ↦ page-IsDistinct _ (p.page * (to_mhal l).0) (λ v.
      (set_layout-taken accepts p l v e).1
      ∙ ap
          (λ n.
            if ltb v n && ltb (p.page * (to_mhal l).0 + v) 32
            then some (p.page * (to_mhal l).0 + v)
            else none)
          (sym (set_layout-taken accepts p l v e).2))
]
  where
    refused : accepts (to_mhal l).1 ≡ false → set_layout accepts p l ≡ (false, p)
    refused e = rw (e) at (set_layout-windows accepts p l 0)

-- A search that fails has looked at each window.
pub win_from-none :
    (n : ℕ) (p : Preview) (c w v : ℕ)
    → win_from p (some c) w n ≡ none
    → w ≤ v
    → v < w + n
    → p.win2chn v ≢ some c
unfolding win_from
win_from-none zero p c w v h le lt = absurd (omega arith)
win_from-none (suc n) p c w v h le lt = elim (Bool-cases (shows (p.win2chn w) (some c))) [
  | inl e ↦ absurd (ground (arith, h, e))
  | inr e ↦ elim (ℕ_discrete w v) [
    | yes k ↦ λ x. ground (arith, e, k, x)
    | no k ↦ win_from-none n p c (w + 1) v (ground (arith, h, e)) (omega arith) (omega arith)
  ]
]
