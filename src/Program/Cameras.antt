-- ===== src/Program/Cameras.antt =====
-- src/video_manager.c with src/camhttp.c: an event of a camera, whose frame goes to the connections.
use camlite.Base.{
  ℕ, ◌≡◌, ◌≢◌, refl, ap, subst, ◌∙◌, not, Option, none, some, arith, ltb, ◌==◌, if_split, inl, inr,
  Bool-cases, length, set-beyond,
}
use camlite.Kernel.{
  Kernel, Log, IsPosix, IoctlData, IoctlReply, done, refused, dqbuf, qbuf, clear_errno,
}
use camlite.Kernel.Quiet.{Quiet, Quiet-refl, misc-Quiet}
use camlite.Pevent.{Pevent, Status, pevent_read}
use camlite.Pevent.Apart.{free_no_close-Quiet}
use camlite.Server.{Server, keeplive_delay_iter}
use camlite.Server.Neighbours.{AllGood, AllGood-left}
use camlite.Server.Frames.{IsDelayCallback, keeplive_delay_iter-AllGood}
use camlite.V4l2.{Port, ReqBuffer, Mapping, xioctl, blame}
use camlite.V4l2.Capture.{
  ReadCallback, read, after_dqbuf, with_buffer, buffer_at, after_callback, after_requeue,
}
use camlite.V4l2.Apart.{xioctl-Quiet, stream_off-Calm}
use camlite.VideoManager.{VideoManage, VideoData, slot, put, set_check_time}
use camlite.VideoManager.Slots.{slot-put_same}
use camlite.VideoManager.Times.{TimesOnly, TimesOnly-refl, set_check_time-times}
use camlite.VideoManager.Apart.{ApartManager, ApartPort, ApartPevent, put-ApartManager}
use camlite.VideoManager.Events.{
  stop, is_expired, expire, with_app, after_read, frame, on_video_event,
}
use camlite.Camhttp.Frames.{VideoReadData, Memory, on_send_jpeg, on_video_read, frame_data}

on_send_jpeg-IsDelayCallback :
    {B : Type 0} (frame : VideoReadData) → IsDelayCallback {B = B} (on_send_jpeg frame)
unfolding on_send_jpeg
on_send_jpeg-IsDelayCallback frame = record { makes_no_call = λ c ptr b log. ground arith }

-- The cameras and the listening socket keep apart from a descriptor.
abbrev pub ApartRest : ℕ → VideoManage → ℕ → Type 0
ApartRest l m fd = ApartManager fd m × (l ≢ fd)

-- The listening pevent is on the descriptor, or it is gone.
abbrev pub Listens : ℕ → Option Pevent → Type 0
Listens l none = Unit
Listens l (some p) = p.fd ≡ l

TimesOnly-ApartManager :
    (m m' : VideoManage) (fd : ℕ) → TimesOnly m m' → ApartManager fd m → ApartManager fd m'
TimesOnly-ApartManager m m' fd t h = record {
  above = h.above;
  apart = λ i. rw (t.same_video i, t.same_pevent i) (h.apart i);
}

-- The connections are sound, and the cameras and the listening socket keep apart from them.
abbrev pub Fine : ℕ → VideoManage × Server → Log → Type 0
Fine l (m, s) log = AllGood (ApartRest l) s.clients log m × Listens l s.pevent

module _ (k : Kernel) (mem : Memory) (posix : IsPosix k) (l : ℕ) where
  left-Fine :
      (a : VideoManage × Server) (log log' : Log)
      → ((f : ℕ) → Quiet f log log')
      → Fine l a log
      → Fine l a log'
  left-Fine (m, s) log log' q h =
      (AllGood-left (ApartRest l) s.clients log log' m m (λ f held x. (q f, x)) h.0, h.1)

  xioctl-Fine :
      (a : VideoManage × Server) (f : ℕ) (r : _) (log : Log)
      → Fine l a log
      → Fine l a ((xioctl k f r log).1)
  xioctl-Fine a f r log h =
      left-Fine a log _ (λ g. xioctl-Quiet k g log f r log (Quiet-refl g log)) h

  -- A frame's callback
  abbrev pub Read : VideoManage → (VideoManage × Server) × Log → Type 0
  Read m (a, log) = Fine l a log × TimesOnly m a.0

  on_video_read-Read :
      (i : ℕ) (place : Mapping) (size : ℕ) (m : VideoManage) (s : Server) (log : Log)
      → Fine l (m, s) log
      → Read m (on_video_read k mem i place size (m, s) log)
  unfolding on_video_read
  on_video_read-Read i place size m s log h =
      let data' = on_send_jpeg-IsDelayCallback (frame_data k mem i place size m log) in
      let o = keeplive_delay_iter k (on_send_jpeg (frame_data k mem i place size m log)) s tt log in
      let g =
        keeplive_delay_iter-AllGood k (ApartRest l) m
          (on_send_jpeg (frame_data k mem i place size m log)) posix data' s tt log h.0 in
      if_split (Read m) (ltb 0 o.0.1) _ _
        (λ _.
          let t = set_check_time-times k m i o.2 in
          (
            (
              AllGood-left (ApartRest l) o.0.0.clients o.2 o.2 m (set_check_time k m i o.2)
                  (λ f held x. (Quiet-refl f o.2, (TimesOnly-ApartManager m _ f t x.0, x.1))) g.0,
              rw g.1 h.1,
            ),
            t,
          ))
        (λ _. ((g.0, rw g.1 h.1), TimesOnly-refl m))

  -- No connection is on the descriptor of the port.
  abbrev pub Clear : VideoManage → Port → Type 0
  Clear m v = (f : ℕ) → ApartManager f m → v.fd ≢ f

  -- What v4l2port_read leaves, if it stays within its arrays
  abbrev pub Seen :
      Port → VideoManage → Option (Status × Port × (VideoManage × Server) × Log) → Type 0
  Seen v m none = Unit
  Seen v m (some (status, w, a, log)) = Read m (a, log) × (w.fd ≡ v.fd)

  after_requeue-Seen :
      (callback : ReadCallback (VideoManage × Server)) (v : Port) (m : VideoManage)
      (a : VideoManage × Server) (r : IoctlReply) (log : Log)
      → Read m (a, log)
      → Seen v m (some (after_requeue k callback v a (r, log)))
  unfolding after_requeue blame
  after_requeue-Seen callback v m a refused log h = (h, refl)
  after_requeue-Seen callback v m a (done d) log h = (h, refl)

  with_buffer-Seen :
      (i : ℕ) (v : Port) (d : IoctlData) (o : Option ReqBuffer) (m : VideoManage) (s : Server)
      (log : Log)
      → Fine l (m, s) log
      → Seen v m (with_buffer k (on_video_read k mem i) v d o (m, s) log)
  unfolding with_buffer after_callback
  with_buffer-Seen i v d none m s log h = tt
  with_buffer-Seen i v d (some b) m s log h =
      let x = on_video_read k mem i b.start d.size (m, s) log in
      let g = on_video_read-Read i b.start d.size m s log h in
      after_requeue-Seen (on_video_read k mem i) v m x.0 ((xioctl k v.fd (qbuf d.index) x.1).0)
        ((xioctl k v.fd (qbuf d.index) x.1).1) (xioctl-Fine x.0 v.fd (qbuf d.index) x.1 g.0, g.1)

  after_dqbuf-Seen :
      (i : ℕ) (v : Port) (r : IoctlReply) (m : VideoManage) (s : Server) (log : Log)
      → Fine l (m, s) log
      → Seen v m (after_dqbuf k (on_video_read k mem i) v (m, s) (r, log))
  unfolding after_dqbuf blame
  after_dqbuf-Seen i v refused m s log h = ((h, TimesOnly-refl m), refl)
  after_dqbuf-Seen i v (done d) m s log h =
      with_buffer-Seen i v d (buffer_at v.reqbufs d.index) m s log h

  read-Seen :
      (i : ℕ) (v : Port) (m : VideoManage) (s : Server) (log : Log)
      → Fine l (m, s) log
      → Seen v m (read k (on_video_read k mem i) v (m, s) log)
  unfolding read
  read-Seen i v m s log h =
      if_split (Seen v m) (not v.stream_flag) _ _
        (λ _. (
          (
            left-Fine (m, s) log _ (λ f. misc-Quiet f log log clear_errno (Quiet-refl f log)) h,
            TimesOnly-refl m,
          ),
          refl,
        ))
        (λ _.
          after_dqbuf-Seen i v ((xioctl k v.fd dqbuf log).0) m s ((xioctl k v.fd dqbuf log).1)
            (xioctl-Fine (m, s) v.fd dqbuf log h))

  abbrev FineAfter : Server → VideoManage × Log → Type 0
  FineAfter s (m, log) = Fine l (m, s) log

  stop-Fine :
      (m : VideoManage) (s : Server) (i : ℕ) (v : Port) (event : Option Pevent) (log : Log)
      → Fine l (m, s) log
      → Clear m v
      → ((f : ℕ) → ApartManager f m → ApartPevent f event)
      → FineAfter s (stop k m i v event log)
  unfolding stop
  stop-Fine m s i v none log h n e = h
  stop-Fine m s i v (some p) log h n e = (
    AllGood-left (ApartRest l) s.clients log _ m _
        (λ f held x.
          let off = stream_off-Calm k f log v log (n f x.0) (Quiet-refl f log) in
          (
            free_no_close-Quiet k f log p _ (e f x.0) off.0,
            (put-ApartManager f m i _ x.0 (off.1, tt), x.1),
          ))
        h.0,
    h.1,
  )

  expire-Fine :
      (m : VideoManage) (s : Server) (i : ℕ) (v : Port) (log : Log)
      → Fine l (m, s) log
      → Clear m v
      → FineAfter s (expire k m i v log)
  unfolding expire
  expire-Fine m s i v log h n =
      if_split (FineAfter s) (is_expired k m i log) _ _
        (λ _. stop-Fine m s i v (slot m i).pevent log h n (λ f x. (x.apart i).1)) (λ _. h)

  -- What an event of a camera leaves
  abbrev pub MayFine : Option (VideoManage × Server × Log) → Type 0
  MayFine none = Unit
  MayFine (some (m, s, log)) = Fine l (m, s) log

  with_app-MayFine :
      (s : Server) (x : VideoManage × Log) → FineAfter s x → MayFine (some (with_app k s x))
  unfolding with_app
  with_app-MayFine s (m, log) h = h

  ported-Clear :
      (m : VideoManage) (i : ℕ) (v w : Port) → (slot m i).video ≡ some v → w.fd ≡ v.fd → Clear m w
  ported-Clear m i v w e same f x = rw same (subst (ApartPort f) e (x.apart i).0)

  after_read-MayFine :
      (i : ℕ) (v : Port) (m : VideoManage)
      (o : Option (Status × Port × (VideoManage × Server) × Log))
      → (slot m i).video ≡ some v
      → Seen v m o
      → MayFine (after_read k i o)
  unfolding after_read
  after_read-MayFine i v m none e h = tt
  after_read-MayFine i v m (some (status, w, (m', s), log)) e h =
      let kept = ported-Clear m' i v w (h.0.1.same_video i ∙ e) h.1 in
      with_app-MayFine s _ (
        expire-Fine (put m' i (record (slot m' i) { video = some w })) s i w log
          (
            AllGood-left (ApartRest l) s.clients log log m' _
                (λ f held x. (
                  Quiet-refl f log,
                  (put-ApartManager f m' i _ x.0 (kept f x.0, (x.0.apart i).1), x.1),
                ))
                h.0.0.0,
            h.0.0.1,
          )
          (λ f x. elim (Bool-cases (ltb i (length m'.videos))) [
            | inl room ↦
                ported-Clear (put m' i (record (slot m' i) { video = some w })) i w w
                  (ap VideoData.video (slot-put_same m' i _ (ground arith))) refl f x
            | inr out ↦ kept f record {
              above = x.above;
              apart =
                  rw
                    (← set-beyond m'.videos i (record (slot m' i) { video = some w })
                      (ground arith))
                    x.apart;
            }
          ]))

  frame-MayFine :
      (m : VideoManage) (s : Server) (i : ℕ) (video : Option Port) (log : Log)
      → (slot m i).video ≡ video
      → Fine l (m, s) log
      → MayFine (frame k (on_video_read k mem) m i video s log)
  unfolding frame
  frame-MayFine m s i none log e h = tt
  frame-MayFine m s i (some v) log e h = after_read-MayFine i v m _ e (read-Seen i v m s log h)

  -- on_video_event with camhttp_on_video_read for its callback: whatever the driver hands back, and whether the stream
  -- is stopped or not, every connection stays sound on a descriptor of its own, with no camera on it, if the run does
  -- not leave its arrays.
  pub on_video_event-MayFine :
      (m : VideoManage) (s : Server) (i event : ℕ) (log : Log)
      → Fine l (m, s) log
      → MayFine (on_video_event k (on_video_read k mem) m i event s log)
  unfolding on_video_event
  on_video_event-MayFine m s i event log h =
      if_split MayFine (event == pevent_read) _ _
        (λ _. frame-MayFine m s i (slot m i).video log refl h) (λ _. h)
