-- ===== src/Cloud/Uploader/Settled.antt =====
-- What an event that was taken up comes to.
use nt.Prelude.{
  ◌*◌, ◌≢◌, drop, u32, All, ℕ, ◌+◌, ◌≡◌, refl, ◌↔◌, arith, List, [], ◌∷◌, Bool, true, false, Option,
  none, some, ltb, leb, ◌==◌, ◌&&◌, ◌||◌, not, if◌then◌else◌, length, if_split, if_both,
}
use nt.Prelude.Int.{ℤ, pos, negsuc}
use nt.Cloud.Uploader.{
  World, Post, Url, AccessUnit, CloudEvent, done, failed, Slicer, slicer0, pts_ms, slice_post, cut,
  take_unit, slices, Outcome, CloudState, uploading, is_refusal, upload, with_url, with_player,
  process_event, start_embedded, event_id_code, tags_of,
}

-- The verdict over all posts, none of which is the event's end.
record IsGoing (s : Slicer) : Type 0 where
  pub judged : (s.rc_all ≡ true) ↔ All (λ p. p.1 ≡ true) s.posts
  pub not_ended : All (λ p. p.0.event_end ≡ false) s.posts

-- The same at the end, where the newest post may be the end; nothing waits to be posted.
record IsOver (s : Slicer) : Type 0 where
  pub judged : (s.rc_all ≡ true) ↔ All (λ p. p.1 ≡ true) s.posts
  pub not_ended : All (λ p. p.0.event_end ≡ false) (drop 1 s.posts)
  pub posted : length s.mux.buf ≡ 0

cut-IsGoing :
    (w : World) (slice_ms base_ms : ℕ) (s : Slicer)
    → IsGoing s
    → IsGoing (cut w slice_ms base_ms s false)
unfolding cut slice_post
cut-IsGoing w slice_ms base_ms s v =
    if_both IsGoing
      ((leb slice_ms (if s.have_first then pts_ms s.hdr_pts s.slice_base_pts else 0) || false)
        && ltb 0 (length s.mux.buf))
      (record { judged = grind (arith, v.judged); not_ended = (refl, v.not_ended) }) v

All-drop :
    (ps : List (Post × Bool))
    → All (λ p. p.0.event_end ≡ false) ps
    → All (λ p. p.0.event_end ≡ false) (drop 1 ps)
All-drop [] a = tt
All-drop (p ∷ ps) a = a.1

cut-IsOver :
    (w : World) (slice_ms base_ms : ℕ) (s : Slicer)
    → IsGoing s
    → IsOver (cut w slice_ms base_ms s true)
unfolding cut slice_post
cut-IsOver w slice_ms base_ms s v =
    if_split IsOver
      ((leb slice_ms (if s.have_first then pts_ms s.hdr_pts s.slice_base_pts else 0) || true)
        && ltb 0 (length s.mux.buf))
      (λ full. record { judged = grind (arith, v.judged); not_ended = v.not_ended; posted = refl })
      (λ empty. record {
        judged = v.judged;
        not_ended = All-drop s.posts v.not_ended;
        posted = ground (arith, empty);
      })

slices-IsOver :
    (w : World) (slice_ms base_ms : ℕ) (us : List AccessUnit) (s : Slicer)
    → IsGoing s
    → IsOver (slices w slice_ms base_ms us s)
unfolding slices take_unit
slices-IsOver w slice_ms base_ms [] s v = cut-IsOver w slice_ms base_ms s v
slices-IsOver w slice_ms base_ms (u ∷ us) s v = slices-IsOver w slice_ms base_ms us _ (
    cut-IsGoing w slice_ms base_ms (take_unit s u)
      (record { judged = v.judged; not_ended = v.not_ended }))

-- What an event can come to. The calls that set its state are the last one and uploading before it:
-- it is done, and no post was refused; a post was refused and it failed; or it failed and there was no
-- post. Only the newest post may be marked as the event's end.
pub data Settled (ev : CloudEvent) : Outcome → Type 0 where
  uploaded :
      (posts : List (Post × Bool))
      → All (λ p. p.1 ≡ true) posts
      → All (λ p. p.0.event_end ≡ false) (drop 1 posts)
      → Settled ev (record {
        rc = pos 0;
        states = (ev.event_id, done, pos 0) ∷ (ev.event_id, uploading, pos 0) ∷ [];
        posts = posts;
      })
  not_taken :
      (posts : List (Post × Bool))
      → ¬ All (λ p. p.1 ≡ true) posts
      → All (λ p. p.0.event_end ≡ false) (drop 1 posts)
      → Settled ev (record {
        rc = negsuc 0;
        states = (ev.event_id, failed, negsuc 4) ∷ (ev.event_id, uploading, pos 0) ∷ [];
        posts = posts;
      })
  not_sent :
      (rc err : ℤ)
      → rc ≢ pos 0
      → Settled ev (record {
        rc = rc;
        states = (ev.event_id, failed, err) ∷ (ev.event_id, uploading, pos 0) ∷ [];
        posts = [];
      })

-- The calls before the last.
abbrev begun : CloudEvent → List (ℕ × CloudState × ℤ)
begun ev = (ev.event_id, uploading, pos 0) ∷ []

upload-Settled :
    (w : World) (slice_ms : ℕ) (ev : CloudEvent) (us : List AccessUnit)
    → Settled ev (upload w slice_ms ev (begun ev) us)
unfolding upload
upload-Settled w slice_ms ev us =
    let s = slices w slice_ms (start_embedded ev * 1000) us slicer0 in
    let fresh : IsGoing slicer0 = record { judged = grind arith; not_ended = tt } in
    let v = slices-IsOver w slice_ms (start_embedded ev * 1000) us slicer0 fresh in
    if_split (Settled ev) s.rc_all (λ good. uploaded s.posts (v.judged.0 good) v.not_ended)
      (λ bad. not_taken s.posts (λ a. grind (arith, v.judged.1 a, bad)) v.not_ended)

with_url-Settled :
    (w : World) (slice_ms : ℕ) (ev : CloudEvent) (us : List AccessUnit) (o : Option Url)
    → Settled ev (with_url w slice_ms ev (begun ev) us o)
unfolding with_url
with_url-Settled w slice_ms ev us none = not_sent (negsuc 0) (negsuc 2) (λ e. grind (arith, e))
with_url-Settled w slice_ms ev us (some url) =
    if_both (Settled ev) (is_refusal url.err_code)
      (not_sent (negsuc 999) url.err_code (λ e. grind (arith, e)))
      (if_both (Settled ev) (not url.http_ok)
        (not_sent (negsuc 0) (negsuc 3) (λ e. grind (arith, e))) (upload-Settled w slice_ms ev us))

with_player-Settled :
    (w : World) (slice_ms : ℕ) (ev : CloudEvent) (o : Option (List AccessUnit))
    → Settled ev (with_player w slice_ms ev (begun ev) o)
unfolding with_player
with_player-Settled w slice_ms ev none = not_sent (negsuc 0) (negsuc 1) (λ e. grind (arith, e))
with_player-Settled w slice_ms ev (some us) =
    with_url-Settled w slice_ms ev us
      (w.get_url (start_embedded ev) (event_id_code ev.rectype) (tags_of ev))

-- Whatever the disks and the server answer, an event that is taken up is set to uploading and then
-- exactly once more: to done, with the result 0, and no post was refused by the server, which is so too
-- where the player gives nothing to post; to failed, with another result, and a post was refused or
-- there was none. No post but the last is marked as the end of the event.
pub process_event-Settled :
    (w : World) (slice_ms : ℕ) (ev : CloudEvent) → Settled ev (process_event w slice_ms ev)
unfolding process_event
process_event-Settled w slice_ms ev =
    if_both (Settled ev)
      (length (w.group_query ev.starttime (u32 (ev.starttime + 300)) ev.chn) == 0)
      (not_sent (negsuc 0) (negsuc 0) (λ e. grind (arith, e))) (with_player-Settled w slice_ms ev _)
