-- ===== src/Camhttp/Pages/Serving.antt =====
-- src/camhttp.c, on_reuqest: what the pages leave of the cameras, and who is made to wait.
use camlite.Base.{
  ℕ, ◌≡◌, ◌≢◌, refl, true, Option, none, some, Text, codes, leb, ◌==◌, if_split, length, arith, ℤ,
  pos, negsuc, ◌⊎◌, inl, inr,
}
use camlite.Kernel.{Kernel, Log}
use camlite.Libc.{text_eq}
use camlite.Libc.Numbers.{atoi}
use camlite.Pevent.{Status, ok, failed}
use camlite.Http.{Client}
use camlite.Http.Read.{Reply}
use camlite.Http.Response.{Response}
use camlite.V4l2.{Port}
use camlite.V4l2.Buffers.{IsFrugal}
use camlite.VideoManager
use camlite.VideoManager.{VideoManage, slot, stream_start, init_video, get_at, max_video_count}
use camlite.VideoManager.Slots.{inside-within}
use camlite.VideoManager.Slots.{IsManager}
use camlite.VideoManager.Start.{StartsAt, stream_start-StartsAt}
use camlite.VideoManager.Init.{Inits, init_video-Inits}
use camlite.Camhttp.Digests.{Digests, Outside, on_check_digest}
use camlite.Camhttp.Pages.{
  App, System, delay_of, after_start, after_reinit, scan_control, snapshot_with, stream_with,
  status_with, control_with, control_for, on_get_root, on_get_snapshot, on_get_stream,
  on_get_status, on_get_control, run_command, after_digest, on_reuqest, page, wait,
  request_type_snapshort, request_type_stream,
}

-- The number of a page
abbrev pub NotNegative : ℤ → Type 0
NotNegative (pos n) = Unit
NotNegative (negsuc n) = ⊥

abbrev pub number_of : Option (ℤ × Text) → ℤ
number_of none = pos 0
number_of (some (n, control)) = n

-- What the path of a request makes its client wait for: one frame, or a frame after the other.
abbrev pub Asks : Text → ℕ → Type 0
Asks path type =
    ((text_eq path (codes "/snapshot") ≡ true) × (type ≡ request_type_snapshort))
    ⊎ ((text_eq path (codes "/stream") ≡ true) × (type ≡ request_type_stream))

-- The delay of a client that waits for what its request asks for: frames of the video of that number, whose stream is
-- on.
abbrev pub Waits : Text → Text → VideoManage → ℕ → Type 0
Waits path param m delay =
    (type i : ℕ) × Asks path type
    × (atoi param ≡ pos i)
    × (delay ≡ delay_of type (pos i))
    × ((slot m i).pevent ≢ none)

-- An answer was found within the arrays. The table of cameras is sound; the client's delay is as it was, or the client
-- waits for what its request asks for.
abbrev pub ServedAt : Text → Client → Option (Reply App) → Type 0
ServedAt path c none = ⊥
ServedAt path c (some r) =
    IsManager r.app.manager
    × ((r.delay ≡ c.delay_ptr) ⊎ Waits path c.request.param r.app.manager r.delay)

abbrev pub Served : Client → Option (Reply App) → Type 0
Served c = ServedAt c.request.path c

module _ (k : Kernel) (o : Outside) (sys : System) where
  after_start-Served :
      (path : Text) (response : Option Response) (type i : ℕ) (c : Client) (a : App)
      (r : Option (Status × VideoManage × Log))
      → Asks path type
      → atoi c.request.param ≡ pos i
      → StartsAt a.manager i r
      → ServedAt path c (after_start response type (pos i) c a r)
  unfolding after_start wait page
  after_start-Served path response type i c a none t e s = s
  after_start-Served path response type i c a (some (ok, m, log)) t e s =
      (s.0, inr (type, i, t, e, refl, s.1))
  after_start-Served path response type i c a (some (failed, m, log)) t e s = (s.0, inl refl)

  after_reinit-Served :
      (path : Text) (i : ℕ) (c : Client) (a : App) (log : Log)
      (r : Option (Status × VideoManage × Log))
      → Inits k a.manager i log r
      → ServedAt path c (after_reinit (pos i) c a r)
  unfolding after_reinit page
  after_reinit-Served path i c a begun none s = s
  after_reinit-Served path i c a begun (some (ok, m, log)) s = (s.0, inl refl)
  after_reinit-Served path i c a begun (some (failed, m, log)) s = (s.0, inl refl)

  get-some : (m : VideoManage) (i : ℕ) → IsManager m → VideoManager.get m (pos i) ≢ none
  unfolding VideoManager.get
  get-some m i h =
      if_split (λ x. get_at m x ≢ none) (leb max_video_count i) _ _ (λ _. λ e. cc)
        (λ below. inside-within (λ x. x ≢ none) m i _ h (ground arith) (λ e. cc))

  -- What video_manager_get gives for a number that is not negative is not out of its array.
  by_number :
      (P : ℤ → Option (Option Port) → Type 0) (m : VideoManage) (n : ℤ)
      → NotNegative n
      → IsManager m
      → ((i : ℕ) (found : Option (Option Port)) → n ≡ pos i → found ≢ none → P (pos i) found)
      → P n (VideoManager.get m n)
  by_number P m (pos i) p h f = f i (VideoManager.get m (pos i)) refl (get-some m i h)
  by_number P m (negsuc i) p h f = absurd p

  snapshot_with-Served :
      (path : Text) (i : ℕ) (c : Client) (a : App) (log : Log) (found : Option (Option Port))
      → IsManager a.manager
      → IsFrugal k
      → text_eq path (codes "/snapshot") ≡ true
      → atoi c.request.param ≡ pos i
      → found ≢ none
      → ServedAt path c (snapshot_with k o sys (pos i) c a log found)
  unfolding snapshot_with page
  snapshot_with-Served path i c a log none h frugal t e f = absurd (f refl)
  snapshot_with-Served path i c a log (some none) h frugal t e f = (h, inl refl)
  snapshot_with-Served path i c a log (some (some v)) h frugal t e f =
      after_start-Served path none request_type_snapshort i c a _ (inl (t, refl)) e
        (stream_start-StartsAt k a.manager i log h frugal)

  stream_with-Served :
      (path : Text) (i : ℕ) (c : Client) (a : App) (log : Log) (found : Option (Option Port))
      → IsManager a.manager
      → IsFrugal k
      → text_eq path (codes "/stream") ≡ true
      → atoi c.request.param ≡ pos i
      → found ≢ none
      → ServedAt path c (stream_with k o sys (pos i) c a log found)
  unfolding stream_with page
  stream_with-Served path i c a log none h frugal t e f = absurd (f refl)
  stream_with-Served path i c a log (some none) h frugal t e f = (h, inl refl)
  stream_with-Served path i c a log (some (some v)) h frugal t e f =
      after_start-Served path _ request_type_stream i c a _ (inr (t, refl)) e
        (stream_start-StartsAt k a.manager i log h frugal)

  status_with-Served :
      (path : Text) (i : ℕ) (c : Client) (a : App) (log : Log) (found : Option (Option Port))
      → IsManager a.manager
      → found ≢ none
      → ServedAt path c (status_with k o sys (pos i) c a log found)
  unfolding status_with page
  status_with-Served path i c a log none h f = absurd (f refl)
  status_with-Served path i c a log (some none) h f = (h, inl refl)
  status_with-Served path i c a log (some (some v)) h f = (h, inl refl)

  control_with-Served :
      (path : Text) (i : ℕ) (control : Text) (c : Client) (a : App) (log : Log)
      (found : Option (Option Port))
      → IsManager a.manager
      → found ≢ none
      → ServedAt path c (control_with k o sys (pos i) control c a log found)
  unfolding control_with page
  control_with-Served path i control c a log none h f = absurd (f refl)
  control_with-Served path i control c a log (some none) h f = (h, inl refl)
  control_with-Served path i control c a log (some (some v)) h f =
      if_split (ServedAt path c) (text_eq control (codes "reinit")) _ _
        (λ _. after_reinit-Served path i c a log _ (init_video-Inits k a.manager i log h))
        (λ _. (h, inl refl))

  control_for-Served :
      (path : Text) (control : Option (ℤ × Text)) (c : Client) (a : App) (log : Log)
      → IsManager a.manager
      → NotNegative (number_of control)
      → ServedAt path c (control_for k o sys control c a log)
  unfolding control_for page
  control_for-Served path none c a log h p = (h, inl refl)
  control_for-Served path (some (n, control)) c a log h p =
      by_number (λ m found. ServedAt path c (control_with k o sys m control c a log found))
        a.manager n p h (λ i found e f. control_with-Served path i control c a log found h f)

  run_command-Served :
      (path : Text) (c : Client) (a : App) (log : Log)
      → IsManager a.manager
      → IsFrugal k
      → NotNegative (atoi c.request.param)
      → NotNegative (number_of (scan_control c.request.param))
      → ServedAt path c (run_command k o sys path c a log)
  unfolding page run_command on_get_root on_get_snapshot on_get_stream on_get_status on_get_control
  run_command-Served path c a log h frugal p q =
      let S = ServedAt path c in
      if_split S (text_eq path (codes "/")) _ _ (λ _. (h, inl refl))
        (λ _.
          if_split S (text_eq path (codes "/snapshot")) _ _
            (λ t.
              by_number (λ m found. ServedAt path c (snapshot_with k o sys m c a log found))
                a.manager (atoi c.request.param) p h
                (λ i found e f. snapshot_with-Served path i c a log found h frugal t e f))
            (λ _.
              if_split S (text_eq path (codes "/stream")) _ _
                (λ t.
                  if_split S (length c.request.param == 0) _ _ (λ _. (h, inl refl))
                    (λ _.
                      by_number (λ m found. ServedAt path c (stream_with k o sys m c a log found))
                        a.manager (atoi c.request.param) p h
                        (λ i found e f. stream_with-Served path i c a log found h frugal t e f)))
                (λ _.
                  if_split S (text_eq path (codes "/status")) _ _
                    (λ _.
                      by_number (λ m found. ServedAt path c (status_with k o sys m c a log found))
                        a.manager (atoi c.request.param) p h
                        (λ i found e f. status_with-Served path i c a log found h f))
                    (λ _.
                      if_split S (text_eq path (codes "/control")) _ _
                        (λ _. control_for-Served path (scan_control c.request.param) c a log h q)
                        (λ _. (h, inl refl))))))

  after_digest-Served :
      (c : Client) (a : App) (log : Log) (checked : Option Response × Digests)
      → IsManager a.manager
      → IsFrugal k
      → NotNegative (atoi c.request.param)
      → NotNegative (number_of (scan_control c.request.param))
      → Served c (after_digest k o sys c a log checked)
  unfolding after_digest
  after_digest-Served c a log (some r, g) h frugal p q = (h, inl refl)
  after_digest-Served c a log (none, g) h frugal p q =
      run_command-Served c.request.path c (record a { digests = g }) log h frugal p q

  -- on_reuqest for a sound table of cameras, a driver that grants no more buffers than it is asked for, and numbers
  -- that are not negative in the request: an answer is found within the arrays, whatever the page and the digest
  -- check's answer, and whatever fails on the way. The table is sound afterwards. The client's delay is as it was,
  -- or the client waits: for one frame after /snapshot, for one after the other after /stream, and in both cases of the
  -- video whose number the request gives and whose stream is on, so that no client is left waiting for a stream that
  -- did not start.
  pub on_reuqest-Served :
      (c : Client) (a : App) (log : Log)
      → IsManager a.manager
      → IsFrugal k
      → NotNegative (atoi c.request.param)
      → NotNegative (number_of (scan_control c.request.param))
      → Served c (on_reuqest k o sys c a log)
  unfolding on_reuqest
  on_reuqest-Served c a log h frugal p q =
      after_digest-Served c a log (on_check_digest k o a.digests c log) h frugal p q
