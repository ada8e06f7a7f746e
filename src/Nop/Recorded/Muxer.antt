-- ===== src/Nop/Recorded/Muxer.antt =====
-- What the muxer and the disk see of the recording engine, over every run of frames and detections:
-- the containers one after the other, and the files that were closed, kept and removed.
use nt.Prelude.{
  subst, ℕ, suc, ◌-◌, ◌≡◌, sym, ap, ◌∙◌, arith, List, [], ◌∷◌, map, true, false, Option, none, some,
  ◌==◌, ◌&&◌, drop, drop_short, if◌then◌else◌, if_split, if_both,
}
use nt.Prelude.Int.{ℤ}
use nt.Prelude.Text.{Str}
use nt.Nop.Ring.{Ring, Holds, ring_put, ring_put-Holds, head-Holds}
use nt.Nop.Record.{
  Recorder, event, Segment, Call, opened, wrote, closed, removed, Video, no_segment, closed_segment,
  index_add, closing,
}

-- A HAL with all of its mux hooks.
abbrev pub Hook : Type 0
Hook = List Call → ℤ → ℤ → Str → Option ℕ

abbrev pub hooked : Hook → Video
hooked h = record { mux_open = some h; mux_write = true; mux_close = true }

-- The muxer between two calls: no container, one that is still empty, or one that has frames.
pub data Phase : Type 0 where
  idle : Phase
  started writing : ℕ → Str → Phase

-- What the muxer may be told: a container is opened where none is open, its first frame is a key
-- frame, it is closed with a frame in it, and all under its handle.
unfoldable pub tell : Call → Option Phase → Option Phase
tell c none = none
tell (opened p m) (some idle) = some (started m p)
tell (opened p m) (some (started n q)) = none
tell (opened p m) (some (writing n q)) = none
tell (wrote m f) (some idle) = none
tell (wrote m f) (some (started n q)) = if m == n && f.is_keyframe then some (writing n q) else none
tell (wrote m f) (some (writing n q)) = if m == n then some (writing n q) else none
tell (closed m) (some idle) = none
tell (closed m) (some (started n q)) = none
tell (closed m) (some (writing n q)) = if m == n then some idle else none
tell (removed p) (some x) = some x

-- The muxer after the calls of a log; `none` where one of them was not allowed.
unfoldable pub phase : List Call → Option Phase
unfolding tell
phase [] = some idle
phase (c ∷ log) = tell c (phase log)

abbrev file_closed : Option Phase → List Str → List Str
file_closed none files = files
file_closed (some idle) files = files
file_closed (some (started m p)) files = p ∷ files
file_closed (some (writing m p)) files = p ∷ files

-- The files of the containers that were closed, the last one first.
unfoldable pub closed_files : List Call → List Str
unfolding phase
closed_files [] = []
closed_files (opened p m ∷ log) = closed_files log
closed_files (wrote m f ∷ log) = closed_files log
closed_files (closed m ∷ log) = file_closed (phase log) (closed_files log)
closed_files (removed p ∷ log) = closed_files log

unfoldable pub removed_files : List Call → List Str
removed_files [] = []
removed_files (opened p m ∷ log) = removed_files log
removed_files (wrote m f ∷ log) = removed_files log
removed_files (closed m ∷ log) = removed_files log
removed_files (removed p ∷ log) = p ∷ removed_files log

-- The muxer where the engine believes it to be.
abbrev pub phase_of : Recorder → Phase
phase_of r = if r.segment_open then writing r.mux r.segment_path else idle

-- The files closed are those of the segments put in the ring; the ones that gave way were removed.
pub record Filed (kept : ℕ) (log : List Call) (ring : Ring Segment) : Type 0 where
  pub all : List Segment
  pub sized : ring.capacity ≡ kept
  pub held : Holds no_segment ring all
  pub files_closed : closed_files log ≡ map (λ s. s.path) all
  pub files_removed : removed_files log ≡ map (λ s. s.path) (drop kept all)

pub record IsRecorded (kept : ℕ) (r : Recorder) : Type 0 where
  pub phased : phase r.log ≡ some (phase_of r)
  pub filed : Filed kept r.log r.segments
  pub clip : r.config.mode ≡ event → r.event_recording ≡ r.segment_open

-- A segment that is put in a full ring leaves out what stands at its head, and nothing else does.
drop-put :
    (ring : Ring Segment) (s : Segment) (all : List Segment)
    → Holds no_segment ring all
    → ring.count ≡ ring.capacity
    → drop ring.capacity (s ∷ all) ≡ ring.slots ring.head ∷ drop ring.capacity all
drop-put ring s all v full =
    let e : ring.capacity ≡ suc (ring.capacity - 1) = omega (arith, v.room) in
    ap (λ n. drop n (s ∷ all)) e ∙ head-Holds no_segment ring all v full

drop-put_room :
    (ring : Ring Segment) (s : Segment) (all : List Segment)
    → Holds no_segment ring all
    → (ring.count == ring.capacity) ≡ false
    → drop ring.capacity (s ∷ all) ≡ drop ring.capacity all
drop-put_room ring s all v room =
    drop_short ring.capacity (s ∷ all) (ground (arith, v.counted, room))
    ∙ sym (drop_short ring.capacity all (ground (arith, v.counted, room)))

-- The closing of a segment of the phase `writing`.
pub closing-phase :
    (h : Hook) (r : Recorder)
    → phase r.log ≡ some (writing r.mux r.segment_path)
    → phase (closing (hooked h) r).log ≡ some idle
unfolding closing index_add phase tell
closing-phase h r e =
    if_both (λ (l : List Call). phase l ≡ some idle) (r.segments.count == r.segments.capacity)
      (ground (arith, e)) (ground (arith, e))

closing-removed :
    (h : Hook) (r : Recorder) (all : List Segment)
    → Holds no_segment r.segments all
    → removed_files r.log ≡ map (λ s. s.path) (drop r.segments.capacity all)
    → removed_files (closing (hooked h) r).log
      ≡ map (λ s. s.path) (drop r.segments.capacity (closed_segment r ∷ all))
unfolding closing index_add removed_files
closing-removed h r all held gone =
    let s = closed_segment r in
    if_split
      (λ (l : List Call). removed_files l ≡ map (λ s. s.path) (drop r.segments.capacity (s ∷ all)))
      (r.segments.count == r.segments.capacity)
      (λ full.
        ap (λ l. (r.segments.slots r.segments.head).path ∷ l) gone
        ∙ sym (ap (map (λ s. s.path)) (drop-put r.segments s all held (ground (arith, full)))))
      (λ room. gone ∙ sym (ap (map (λ s. s.path)) (drop-put_room r.segments s all held room)))

pub closing-Filed :
    (h : Hook) (kept : ℕ) (r : Recorder)
    → phase r.log ≡ some (writing r.mux r.segment_path)
    → Filed kept r.log r.segments
    → Filed kept (closing (hooked h) r).log (closing (hooked h) r).segments
unfolding closing index_add closed_files removed_files ring_put
closing-Filed h kept r e x = record {
  all = closed_segment r ∷ x.all;
  sized = x.sized;
  held = ring_put-Holds no_segment r.segments (closed_segment r) x.all x.held;
  files_closed =
      if_both (λ (l : List Call). closed_files l ≡ r.segment_path ∷ map (λ s. s.path) x.all)
        (r.segments.count == r.segments.capacity)
        (ap (λ p. file_closed p (closed_files r.log)) e
          ∙ ap (λ l. r.segment_path ∷ l) x.files_closed)
        (ap (λ p. file_closed p (closed_files r.log)) e
          ∙ ap (λ l. r.segment_path ∷ l) x.files_closed);
  files_removed =
      subst
        (λ n.
          removed_files (closing (hooked h) r).log
          ≡ map (λ s. s.path) (drop n (closed_segment r ∷ x.all)))
        x.sized
        (closing-removed h r x.all x.held
          (x.files_removed ∙ ap (λ n. map (λ s. s.path) (drop n x.all)) (sym x.sized)));
}
