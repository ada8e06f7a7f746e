-- ===== src/App/Preview/Distinct.antt =====
-- app/preview/nvr_preview.c: operations of the preview that never show one channel twice.
use nt.Prelude.{
  ℕ, ◌+◌, ◌-◌, ◌*◌, ◌<◌, ◌≡◌, ◌≢◌, refl, sym, ap, ◌∙◌, inl, inr, arith, Bool, true, false, none,
  some, Option-cases, Bool-cases, ltb, leb, ◌&&◌, if◌then◌else◌, ℕ_discrete,
}
use nt.Prelude.Int.{ℤ, pos, negsuc}
use nt.App.Preview.{
  Preview, l1, l16, max_chn, to_mhal, compose_osd, set_layout, set_page, unmap_win, win_of_chn,
  on_channel_online, fullscreen, single_zoom, emit, put_win, vout_bind, switch_main,
}
use nt.App.Preview.Windows.{
  IsDistinct, set_layout-IsDistinct, set_layout-taken, win_from-none, compose_osd-keeps, some-inj,
}

-- Only the windows and their number matter.
same_windows :
    (p q : Preview)
    → q.win2chn ≡ p.win2chn
    → q.win_count ≡ p.win_count
    → IsDistinct p
    → IsDistinct q
same_windows p q e n d = record {
  once = λ v w c x y. d.once v w c (sym (ap (λ f. f v) e) ∙ x) (sym (ap (λ f. f w) e) ∙ y);
  within = λ v le. ap (λ f. f v) e ∙ d.within v (omega (arith, n, le));
}

compose_osd-IsDistinct : (p : Preview) (w : ℕ) → IsDistinct p → IsDistinct (compose_osd p w)
compose_osd-IsDistinct p w d =
    let k = compose_osd-keeps p w in same_windows p (compose_osd p w) k.0 k.2 d

put_win-IsDistinct :
    (p : Preview) (w c : ℕ)
    → IsDistinct p
    → w < p.win_count
    → ((v : ℕ) → v ≢ w → p.win2chn v ≢ some c)
    → IsDistinct (put_win p w (some c))
put_win-IsDistinct p w c d lt free = record {
  once = λ u v b x y. once u v b x y;
  within = λ v le. ground (arith, d.within v le, le, lt);
}
  where
    once :
        (u v b : ℕ)
        → (put_win p w (some c)).win2chn u ≡ some b
        → (put_win p w (some c)).win2chn v ≡ some b
        → u ≡ v
    once u v b x y = elim (ℕ_discrete w u) [
      | yes i ↦ elim (ℕ_discrete w v) [
        | yes j ↦ omega arith
        | no j ↦ absurd (free v (λ e. j (sym e)) (old v j y ∙ ap some (sym (new u i x))))
      ]
      | no i ↦ elim (ℕ_discrete w v) [
        | yes j ↦ absurd (free u (λ e. i (sym e)) (old u i x ∙ ap some (sym (new v j y))))
        | no j ↦ d.once u v b (old u i x) (old v j y)
      ]
    ]
      where
        old : (k : ℕ) → w ≢ k → (put_win p w (some c)).win2chn k ≡ some b → p.win2chn k ≡ some b
        old k ne h = ground (arith, ne, h)

        new : (k : ℕ) → w ≡ k → (put_win p w (some c)).win2chn k ≡ some b → c ≡ b
        new k e h = some-inj (ground (arith, e, h))

put_none-IsDistinct : (p : Preview) (w : ℕ) → IsDistinct p → IsDistinct (put_win p w none)
put_none-IsDistinct p w d = record {
  once = λ u v b x y. d.once u v b (old u b x) (old v b y);
  within = λ v le. ground (arith, d.within v le);
}
  where
    old : (k b : ℕ) → (put_win p w none).win2chn k ≡ some b → p.win2chn k ≡ some b
    old k b h = ground (arith, h)

-- An operation that is not a mapping by hand.
pub data PvOp : Type 0 where
  pv_page : ℤ → PvOp
  pv_unmap : ℤ → PvOp
  pv_online : ℤ → PvOp
  pv_zoom : ℤ → Bool → PvOp

unfoldable pub run_pv : (ℕ → Bool) → PvOp → Preview → Preview
run_pv accepts (pv_page n) p = (set_page accepts p n).1
run_pv accepts (pv_unmap w) p = (unmap_win p w).1
run_pv accepts (pv_online c) p = (on_channel_online p c).1
run_pv accepts (pv_zoom c on) p = (single_zoom accepts p c on).1

online-IsDistinct : (p : Preview) (c : ℤ) → IsDistinct p → IsDistinct (on_channel_online p c).1
unfolding on_channel_online
online-IsDistinct p (negsuc c) d = d
online-IsDistinct p (pos c) d = elim (Bool-cases (ltb c max_chn)) [
  | inr e ↦ rw (on_channel_online, e) d
  | inl e ↦ elim (Option-cases (win_of_chn p (some c))) [
    | inr (v, f) ↦ rw (on_channel_online, e, f) (compose_osd-IsDistinct p v d)
    | inl f ↦
        elim (Bool-cases
          (leb (p.page * p.win_count) c && ltb (c - p.page * p.win_count) p.win_count)) [
            | inr g ↦ rw (on_channel_online, e, f, g) d
            | inl g ↦
                rw (on_channel_online, e, f, g)
                  (compose_osd-IsDistinct _ _ (
                    same_windows (put_win p (c - p.page * p.win_count) (some c)) _ refl refl (
                      put_win-IsDistinct p (c - p.page * p.win_count) c d (ground (arith, g))
                        (λ v ne. not_shown f v))))
          ]
  ]
]
  where
    not_shown : win_of_chn p (some c) ≡ none → (v : ℕ) → p.win2chn v ≢ some c
    not_shown f v = elim (Bool-cases (ltb v p.win_count)) [
      | inl lt ↦
          unfold win_of_chn in
          win_from-none p.win_count p c 0 v f (omega arith) (ground (arith, lt))
      | inr ge ↦ λ x. absurd (ground (arith, sym (d.within v (ground (arith, ge))) ∙ x))
    ]

fullscreen-IsDistinct :
    (accepts : ℕ → Bool) (p : Preview) (c : ℤ)
    → accepts 1 ≡ true
    → IsDistinct p
    → IsDistinct (fullscreen accepts p c).1
unfolding fullscreen to_mhal
fullscreen-IsDistinct accepts p (negsuc c) ok1 d = d
fullscreen-IsDistinct accepts p (pos c) ok1 d =
    same_windows (compose_osd (emit (put_win p1 0 (some c)) (vout_bind 0 c)) 0) _ (shown p.has_sm)
      (counted p.has_sm)
      (compose_osd-IsDistinct _ 0 (
        same_windows (put_win p1 0 (some c)) _ refl refl (
          put_win-IsDistinct p1 0 c (set_layout-IsDistinct accepts p l1 d)
            (omega (arith, (taken 0).2)) other)))
  where
    p1 : Preview
    p1 = (set_layout accepts p l1).1

    p2 : Preview
    p2 = compose_osd (emit (put_win p1 0 (some c)) (vout_bind 0 c)) 0

    taken :
        (v : ℕ)
        → ((set_layout accepts p l1).0 ≡ true)
          × (p1.win2chn v
              ≡ (if ltb v 1 && ltb (p.page * 1 + v) 32 then some (p.page * 1 + v) else none))
          × (p1.win_count ≡ 1)
    taken v = set_layout-taken accepts p l1 v ok1

    other : (v : ℕ) → v ≢ 0 → p1.win2chn v ≢ some c
    other v ne x = ground (arith, ne, (taken v).1, x)

    shown : (b : Bool) → (if b then emit p2 (switch_main c) else p2).win2chn ≡ p2.win2chn
    shown true = refl
    shown false = refl

    counted : (b : Bool) → (if b then emit p2 (switch_main c) else p2).win_count ≡ p2.win_count
    counted true = refl
    counted false = refl

single_zoom-IsDistinct :
    (accepts : ℕ → Bool) (p : Preview) (c : ℤ) (on : Bool)
    → accepts 1 ≡ true
    → IsDistinct p
    → IsDistinct (single_zoom accepts p c on).1
unfolding single_zoom
single_zoom-IsDistinct accepts p c true ok1 d = fullscreen-IsDistinct accepts p c ok1 d
single_zoom-IsDistinct accepts p c false ok1 d = elim (Option-cases p.zoom_chn) [
  | inl e ↦ rw (single_zoom, e) (set_layout-IsDistinct accepts _ l16 (same_windows p _ refl refl d))
  | inr (z, e) ↦ elim (Bool-cases p.has_sm) [
    | inl s ↦
        rw (single_zoom, e, s) (set_layout-IsDistinct accepts _ l16 (same_windows p _ refl refl d))
    | inr s ↦
        rw (single_zoom, e, s) (set_layout-IsDistinct accepts _ l16 (same_windows p _ refl refl d))
  ]
]

-- Paging, unmapping, a channel that comes online and the single zoom keep it true that no channel is
-- in two windows and that no window behind the last shows one, where the video output takes the grid
-- of a single window. (A mapping by hand is not among these operations.)
pub run_pv-IsDistinct :
    (accepts : ℕ → Bool) (o : PvOp) (p : Preview)
    → accepts 1 ≡ true
    → IsDistinct p
    → IsDistinct (run_pv accepts o p)
unfolding run_pv set_page unmap_win
run_pv-IsDistinct accepts (pv_page (pos n)) p ok1 d =
    set_layout-IsDistinct accepts (record p { page = n }) p.layout (same_windows p _ refl refl d)
run_pv-IsDistinct accepts (pv_page (negsuc n)) p ok1 d = d
run_pv-IsDistinct accepts (pv_unmap (pos w)) p ok1 d = elim (Bool-cases (ltb w 16)) [
  | inl e ↦
      rw (run_pv, unmap_win, e)
        (same_windows (put_win p w none) _ refl refl (put_none-IsDistinct p w d))
  | inr e ↦ rw (run_pv, unmap_win, e) d
]
run_pv-IsDistinct accepts (pv_unmap (negsuc w)) p ok1 d = d
run_pv-IsDistinct accepts (pv_online c) p ok1 d = online-IsDistinct p c d
run_pv-IsDistinct accepts (pv_zoom c on) p ok1 d = single_zoom-IsDistinct accepts p c on ok1 d
