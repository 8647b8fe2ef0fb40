-- ===== src/Camhttp/Pages.antt =====
-- src/camhttp.c: the pages, and on_reuqest, which answers a request.
-- An outer `none` of a result stands for a read or a write out of the bounds of an array, as in VideoManager.
pub mod Serving
pub mod Isolation
use camlite.Base.{
  ℕ, ◌+◌, ◌*◌, ◌%◌, ◌^◌, not, Bool, true, false, Option, none, some, List, [], ◌∷◌, ◌++◌, Text,
  codes, ◌==◌, if◌then◌else◌, length, get_or, ℤ, pos, negsuc,
}
use camlite.Kernel.{Kernel, Log}
use camlite.Libc.{text_eq, skip_space, is_space, span, decimal}
use camlite.Libc.Numbers.{atoi, scan_int, decimal_int, as_unsigned}
use camlite.Util.{read_memory_status, read_cpu_jiffies}
use camlite.Pevent.{Status, ok, failed}
use camlite.Http.{Client, Request}
use camlite.Http.Read.{Reply, RequestCallback}
use camlite.Http.Response.{Response, addheader}
use camlite.Http.Response
use camlite.V4l2.{Port, req_buffer_max}
use camlite.V4l2.Errors.{strerror}
use camlite.VideoManager
use camlite.VideoManager.{VideoManage, stream_start, init_video, get_timeout}
use camlite.Camhttp.Digests.{Digests, Outside, on_check_digest}

abbrev pub request_type_snapshort : ℕ
request_type_snapshort = 1

abbrev pub request_type_stream : ℕ
request_type_stream = 2

-- The static variables that a request works on: g_video_manage, and those of the digest table.
pub record App : Type 0 where
  pub manager : VideoManage
  pub digests : Digests

-- What the status page reads besides: strerror, and the contents of /proc/self/statm and /proc/self/stat.
pub record System : Type 0 where
  pub strerror : ℕ → Text
  pub statm : Log → Option Text
  pub stat : Log → Option Text

-- A page in one piece; the client's delay is left as it is.
unfoldable pub page : Text → Client → App → Log → Reply App
page text c a log = record {
  response = some (Response.new 200 (some text));
  delay = c.delay_ptr;
  app = a;
  log = log;
}

abbrev pub in_html : Text → Text
in_html text = codes "<html><body>" ++ (text ++ codes "</body></html>")

abbrev pub no_device : ℤ → Text
no_device n = in_html (codes "can not find device:" ++ decimal_int n)

abbrev pub start_failure : ℤ → Text
start_failure n = in_html (codes "start stream failure:" ++ decimal_int n)

abbrev pub root_text : Text
root_text = in_html (
    codes "<a href='/snapshot'>snapshot</a><br>"
    ++ (codes "<a href='/stream'>stream</a><br>" ++ codes "<a href='/status'>status</a><br>"))

unfoldable pub on_get_root : Client → App → Log → Option (Reply App)
unfolding page
on_get_root c a log = some (page root_text c a log)

-- A negative index does not get past video_manager_get.
abbrev index : ℤ → ℕ
index (pos n) = n
index (negsuc n) = 0

-- type << 16 | n, for an index of the table, which has four bits
unfoldable pub delay_of : ℕ → ℤ → ℕ
delay_of type n = type * 2 ^ 16 + index n

-- The client waits for a frame: http_client_set_delay.
unfoldable pub wait : Option Response → ℕ → ℤ → App → Log → Reply App
unfolding delay_of
wait response type n a log = record {
  response = response;
  delay = delay_of type n;
  app = a;
  log = log;
}

unfoldable pub after_start :
    Option Response
    → ℕ
    → ℤ
    → Client
    → App
    → Option (Status × VideoManage × Log)
    → Option (Reply App)
unfolding wait page
after_start response type n c a none = none
after_start response type n c a (some (failed, m, log)) =
    some (page (start_failure n) c (record a { manager = m }) log)
after_start response type n c a (some (ok, m, log)) =
    some (wait response type n (record a { manager = m }) log)

-- The header of a stream without end
abbrev pub stream_head : Response
stream_head =
    (addheader
      (addheader (addheader (Response.new 200 none) (codes "Pragma: no-cache")).0 (
        codes
          "Cache-Control: no-store, no-cache, must-revalidate, pre-check=0, post-check=0, max-age=0")).0
      (codes "Content-Type: multipart/x-mixed-replace;boundary=[data-boundary-data]")).0

abbrev pub flag_text : Bool → Text → Text → Text
flag_text b on off = if b then on else off

abbrev pub join : List Text → Text
join [] = []
join (t ∷ ts) = t ++ join ts

-- "n=%d&c=%24s": both conversions, or `none`.
unfoldable pub strip : Text → Text → Option Text
strip [] s = some s
strip (c ∷ p) [] = none
strip (c ∷ p) (x ∷ s) = let rest = strip p s in if x == c then rest else none

abbrev control_word : ℤ → Option Text → Option (ℤ × Text)
control_word n none = none
control_word n (some s) =
    let control = span 24 (λ c. not (is_space c)) (skip_space s) in
    if length control == 0 then none else some (n, control)

abbrev control_behind : Option (ℤ × Text) → Option (ℤ × Text)
control_behind none = none
control_behind (some (n, s)) = control_word n (strip (codes "&c=") s)

abbrev control_from : Option Text → Option (ℤ × Text)
control_from none = none
control_from (some s) = control_behind (scan_int s)

unfoldable pub scan_control : Text → Option (ℤ × Text)
unfolding strip scan_int skip_space is_space
scan_control param = control_from (strip (codes "n=") param)

unfoldable pub after_reinit :
    ℤ → Client → App → Option (Status × VideoManage × Log) → Option (Reply App)
unfolding page
after_reinit n c a none = none
after_reinit n c a (some (failed, m, log)) = some (
    page
      (in_html (codes "reinit failure(" ++ (decimal_int n ++ codes ")<br/><a href='/'>back</a>"))) c
      (record a { manager = m }) log)
after_reinit n c a (some (ok, m, log)) = some (
    page
      (in_html (codes "reinit success(" ++ (decimal_int n ++ codes ")<br/><a href='/'>back</a>"))) c
      (record a { manager = m }) log)

abbrev pub status_line : Text → Text → Text
status_line name value = codes "<p>" ++ (name ++ (codes ":" ++ (value ++ codes "</p>")))

module _ (k : Kernel) (o : Outside) (sys : System) where
  unfoldable pub status_text : ℤ → Port → App → Log → Text
  unfolding decimal_int decimal strerror get_timeout read_memory_status read_cpu_jiffies as_unsigned
  status_text n v a log = in_html (
      join (
        codes "<p>init:<a href='/control?n="
        ∷ decimal_int n
        ∷ codes "&c=reinit'>"
        ∷ flag_text v.init_flag (codes "true") (codes "false")
        ∷ codes "</a></p>"
        ∷ status_line (codes "stream") (flag_text v.stream_flag (codes "on") (codes "off"))
        ∷ status_line (codes "card") v.card
        ∷ status_line (codes "path") v.device
        ∷ status_line (codes "width") (decimal v.width)
        ∷ status_line (codes "height") (decimal v.height)
        ∷ status_line (codes "timeperframe")
            (join (decimal v.numerator ∷ codes "/" ∷ decimal v.denominator ∷ []))
        ∷ status_line (codes "support") (
            join (
              get_or v.fmtdesc 0 []
              ∷ codes "&nbsp;"
              ∷ get_or v.fmtdesc 1 []
              ∷ codes "&nbsp;"
              ∷ get_or v.fmtdesc 2 []
              ∷ []))
        ∷ status_line (codes "timeout") (decimal (get_timeout a.manager))
        ∷ status_line (codes "error") (strerror v)
        ∷ status_line (codes "errno") (sys.strerror v.last_errno)
        ∷ status_line (codes "cache") (decimal req_buffer_max)
        ∷ status_line (codes "memory")
            (decimal (as_unsigned (read_memory_status (sys.statm log))) ++ codes "k")
        ∷ status_line (codes "jiffies") (decimal (read_cpu_jiffies (sys.stat log) % 2 ^ 32))
        ∷ status_line (codes "digest") (decimal (length a.digests.list))
        ∷ codes "<a href='/'>back</a><br/>"
        ∷ []))

  -- The answers that start with video_manager_get; each is given its result.
  unfoldable pub snapshot_with : ℤ → Client → App → Log → Option (Option Port) → Option (Reply App)
  unfolding page after_start
  snapshot_with n c a log none = none
  snapshot_with n c a log (some none) = some (page (no_device n) c a log)
  snapshot_with n c a log (some (some v)) =
      after_start none request_type_snapshort n c a (stream_start k a.manager n log)

  unfoldable pub on_get_snapshot : Client → App → Log → Option (Reply App)
  unfolding snapshot_with
  on_get_snapshot c a log =
      snapshot_with (atoi c.request.param) c a log
        (VideoManager.get a.manager (atoi c.request.param))

  unfoldable pub stream_with : ℤ → Client → App → Log → Option (Option Port) → Option (Reply App)
  unfolding page after_start
  stream_with n c a log none = none
  stream_with n c a log (some none) = some (page (no_device n) c a log)
  stream_with n c a log (some (some v)) =
      after_start (some stream_head) request_type_stream n c a (stream_start k a.manager n log)

  unfoldable pub on_get_stream : Client → App → Log → Option (Reply App)
  unfolding stream_with page
  on_get_stream c a log =
      if length c.request.param == 0
      then some (page (in_html (codes "<img src='/stream?0'/>")) c a log)
      else stream_with (atoi c.request.param) c a log
          (VideoManager.get a.manager (atoi c.request.param))

  unfoldable pub status_with : ℤ → Client → App → Log → Option (Option Port) → Option (Reply App)
  unfolding page status_text
  status_with n c a log none = none
  status_with n c a log (some none) = some (page (no_device n) c a log)
  status_with n c a log (some (some v)) = some (page (status_text n v a log) c a log)

  unfoldable pub on_get_status : Client → App → Log → Option (Reply App)
  unfolding status_with
  on_get_status c a log =
      status_with (atoi c.request.param) c a log (VideoManager.get a.manager (atoi c.request.param))

  unfoldable pub control_with :
      ℤ → Text → Client → App → Log → Option (Option Port) → Option (Reply App)
  unfolding page after_reinit
  control_with n control c a log none = none
  control_with n control c a log (some none) = some (page (no_device n) c a log)
  control_with n control c a log (some (some v)) =
      if text_eq control (codes "reinit")
      then after_reinit n c a (init_video k a.manager n log)
      else some (page (in_html (codes "unknow control:" ++ control)) c a log)

  unfoldable pub control_for : Option (ℤ × Text) → Client → App → Log → Option (Reply App)
  unfolding control_with page
  control_for none c a log =
      some (page (in_html (codes "param erro(" ++ (c.request.param ++ codes ")"))) c a log)
  control_for (some (n, control)) c a log =
      control_with n control c a log (VideoManager.get a.manager n)

  unfoldable pub on_get_control : Client → App → Log → Option (Reply App)
  unfolding control_for scan_control
  on_get_control c a log = control_for (scan_control c.request.param) c a log

  -- comond_list, and the loop over it
  unfoldable pub run_command : Text → Client → App → Log → Option (Reply App)
  unfolding on_get_root on_get_snapshot on_get_stream on_get_status on_get_control
  run_command path c a log =
      if text_eq path (codes "/")
      then on_get_root c a log
      else if text_eq path (codes "/snapshot")
      then on_get_snapshot c a log
      else if text_eq path (codes "/stream")
      then on_get_stream c a log
      else if text_eq path (codes "/status")
      then on_get_status c a log
      else if text_eq path (codes "/control")
      then on_get_control c a log
      else some record {
        response = some (Response.new 404 none);
        delay = c.delay_ptr;
        app = a;
        log = log;
      }

  unfoldable pub after_digest : Client → App → Log → Option Response × Digests → Option (Reply App)
  unfolding run_command
  after_digest c a log (some r, g) =
      some
        record { response = some r; delay = c.delay_ptr; app = record a { digests = g }; log = log }
  after_digest c a log (none, g) = run_command c.request.path c (record a { digests = g }) log

  unfoldable pub on_reuqest : Client → App → Log → Option (Reply App)
  unfolding after_digest on_check_digest
  on_reuqest c a log = after_digest c a log (on_check_digest k o a.digests c log)

  -- As the callback of the server: once the program has left its arrays, nothing is known of its state.
  abbrev pub lift_reply : Client → Log → Option (Reply App) → Reply (Option App)
  lift_reply c log none = record { response = none; delay = c.delay_ptr; app = none; log = log }
  lift_reply c log (some r) = record {
    response = r.response;
    delay = r.delay;
    app = some r.app;
    log = r.log;
  }

  unfoldable pub request_callback : RequestCallback (Option App)
  unfolding on_reuqest
  request_callback c none log = lift_reply c log none
  request_callback c (some a) log = lift_reply c log (on_reuqest c a log)
