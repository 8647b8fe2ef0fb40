-- ===== src/Camhttp/Pages/Isolation.antt =====
-- src/camhttp.c: the pages are a request callback as the server asks for.
use camlite.Base.{ℕ, ◌<◌, Option, none, some, Text, codes, ◌==◌, if_split, length, ℤ}
use camlite.Kernel.{Kernel, Log}
use camlite.Kernel.Quiet.{Quiet, Quiet-refl, IsHeld, IsOpener}
use camlite.Libc.{text_eq}
use camlite.Libc.Numbers.{atoi}
use camlite.Pevent.{Status, ok, failed}
use camlite.Http.{Client}
use camlite.Http.Read.{Reply}
use camlite.Http.Read.Session.{IsCallback}
use camlite.Http.Response.{Response}
use camlite.V4l2.{Port}
use camlite.VideoManager
use camlite.VideoManager.{VideoManage, stream_start, init_video}
use camlite.VideoManager.Apart.{
  ApartManager, CalmManager, stream_start-CalmManager, init_video-CalmManager,
}
use camlite.Camhttp.Digests.{Digests, Outside, on_check_digest}
use camlite.Camhttp.Pages.{
  App, System, after_start, after_reinit, scan_control, snapshot_with, stream_with, status_with,
  control_with, control_for, on_get_root, on_get_snapshot, on_get_stream, on_get_status,
  on_get_control, run_command, after_digest, on_reuqest, page, wait, request_callback,
  request_type_snapshort, request_type_stream, lift_reply,
}

-- No camera is on the descriptor.
abbrev pub ApartApp : Option App → ℕ → Type 0
ApartApp none fd = Unit
ApartApp (some a) fd = ApartManager fd a.manager

abbrev pub CalmReply : ℕ → Log → Option (Reply App) → Type 0
CalmReply fd begun none = Unit
CalmReply fd begun (some r) = Quiet fd begun r.log × ApartManager fd r.app.manager

module _ (k : Kernel) (o : Outside) (sys : System) (fd : ℕ) (begun : Log) (law : IsOpener k)
    (held : IsHeld fd begun) (pos : 0 < fd) where
  after_start-CalmReply :
      (response : Option Response) (type : ℕ) (n : ℤ) (c : Client) (a : App)
      (r : Option (Status × VideoManage × Log))
      → CalmManager fd begun r
      → CalmReply fd begun (after_start response type n c a r)
  unfolding after_start wait page
  after_start-CalmReply response type n c a none h = tt
  after_start-CalmReply response type n c a (some (ok, m, log)) h = h
  after_start-CalmReply response type n c a (some (failed, m, log)) h = h

  after_reinit-CalmReply :
      (n : ℤ) (c : Client) (a : App) (r : Option (Status × VideoManage × Log))
      → CalmManager fd begun r
      → CalmReply fd begun (after_reinit n c a r)
  unfolding after_reinit page
  after_reinit-CalmReply n c a none h = tt
  after_reinit-CalmReply n c a (some (ok, m, log)) h = h
  after_reinit-CalmReply n c a (some (failed, m, log)) h = h

  module _ (c : Client) (a : App) (log : Log) (quiet : Quiet fd begun log)
      (apart : ApartManager fd a.manager) where
    started : (n : ℤ) → CalmManager fd begun (stream_start k a.manager n log)
    started n = stream_start-CalmManager k fd begun law held pos a.manager n log apart quiet

    snapshot_with-CalmReply :
        (n : ℤ) (found : Option (Option Port))
        → CalmReply fd begun (snapshot_with k o sys n c a log found)
    unfolding snapshot_with page
    snapshot_with-CalmReply n none = tt
    snapshot_with-CalmReply n (some none) = (quiet, apart)
    snapshot_with-CalmReply n (some (some v)) =
        after_start-CalmReply none request_type_snapshort n c a _ (started n)

    stream_with-CalmReply :
        (n : ℤ) (found : Option (Option Port))
        → CalmReply fd begun (stream_with k o sys n c a log found)
    unfolding stream_with page
    stream_with-CalmReply n none = tt
    stream_with-CalmReply n (some none) = (quiet, apart)
    stream_with-CalmReply n (some (some v)) =
        after_start-CalmReply _ request_type_stream n c a _ (started n)

    status_with-CalmReply :
        (n : ℤ) (found : Option (Option Port))
        → CalmReply fd begun (status_with k o sys n c a log found)
    unfolding status_with page
    status_with-CalmReply n none = tt
    status_with-CalmReply n (some none) = (quiet, apart)
    status_with-CalmReply n (some (some v)) = (quiet, apart)

    control_with-CalmReply :
        (n : ℤ) (control : Text) (found : Option (Option Port))
        → CalmReply fd begun (control_with k o sys n control c a log found)
    unfolding control_with page
    control_with-CalmReply n control none = tt
    control_with-CalmReply n control (some none) = (quiet, apart)
    control_with-CalmReply n control (some (some v)) =
        if_split (CalmReply fd begun) (text_eq control (codes "reinit")) _ _
          (λ _.
            after_reinit-CalmReply n c a _
              (init_video-CalmManager k fd begun law held pos a.manager n log apart quiet))
          (λ _. (quiet, apart))

    control_for-CalmReply :
        (control : Option (ℤ × Text)) → CalmReply fd begun (control_for k o sys control c a log)
    unfolding control_for page
    control_for-CalmReply none = (quiet, apart)
    control_for-CalmReply (some (n, control)) =
        control_with-CalmReply n control (VideoManager.get a.manager n)

    run_command-CalmReply : (path : Text) → CalmReply fd begun (run_command k o sys path c a log)
    unfolding page run_command on_get_root on_get_snapshot on_get_stream on_get_status
        on_get_control
    run_command-CalmReply path =
        let S = CalmReply fd begun in
        let n = atoi c.request.param in
        if_split S (text_eq path (codes "/")) _ _ (λ _. (quiet, apart))
          (λ _.
            if_split S (text_eq path (codes "/snapshot")) _ _
              (λ _. snapshot_with-CalmReply n (VideoManager.get a.manager n))
              (λ _.
                if_split S (text_eq path (codes "/stream")) _ _
                  (λ _.
                    if_split S (length c.request.param == 0) _ _ (λ _. (quiet, apart))
                      (λ _. stream_with-CalmReply n (VideoManager.get a.manager n)))
                  (λ _.
                    if_split S (text_eq path (codes "/status")) _ _
                      (λ _. status_with-CalmReply n (VideoManager.get a.manager n))
                      (λ _.
                        if_split S (text_eq path (codes "/control")) _ _
                          (λ _. control_for-CalmReply (scan_control c.request.param))
                          (λ _. (quiet, apart))))))

  after_digest-CalmReply :
      (c : Client) (a : App) (log : Log) (checked : Option Response × Digests)
      → Quiet fd begun log
      → ApartManager fd a.manager
      → CalmReply fd begun (after_digest k o sys c a log checked)
  unfolding after_digest
  after_digest-CalmReply c a log (some r, g) q h = (q, h)
  after_digest-CalmReply c a log (none, g) q h =
      run_command-CalmReply c (record a { digests = g }) log q h c.request.path

module _ (k : Kernel) (o : Outside) (sys : System) where
  lifted :
      (c : Client) (log : Log) (fd : ℕ) (r : Option (Reply App))
      → CalmReply fd log r
      → Quiet fd log (lift_reply k o sys c log r).log × ApartApp (lift_reply k o sys c log r).app fd
  lifted c log fd none h = (Quiet-refl fd log, tt)
  lifted c log fd (some r) h = h

  calm :
      (c : Client) (a : Option App) (log : Log) (fd : ℕ)
      → IsOpener k
      → IsHeld fd log
      → ApartApp a fd
      → Quiet fd log (request_callback k o sys c a log).log
        × ApartApp (request_callback k o sys c a log).app fd
  unfolding request_callback on_reuqest
  calm c none log fd law held h = (Quiet-refl fd log, tt)
  calm c (some a) log fd law held h = lifted c log fd (on_reuqest k o sys c a log) (
      after_digest-CalmReply k o sys fd log law held h.above c a log
        (on_check_digest k o a.digests c log) (Quiet-refl fd log) h)

  -- The pages are a request callback as on_read asks for, whatever the request and the devices: a descriptor that
  -- epoll watches and that no camera is on is left alone, so that nothing is written to it and epoll watches it as
  -- before; and no camera is on it afterwards, since open gives a descriptor that is not in use.
  pub request_callback-IsCallback : IsOpener k → IsCallback (request_callback k o sys) ApartApp
  request_callback-IsCallback law = record {
    leaves_alone = λ c a log fd held h. calm c a log fd law held h;
  }
