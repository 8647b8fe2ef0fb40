-- ===== src/Http/Read.antt =====
-- src/http.c, on_read: taking in a request, line by line, and answering it.
pub mod Lines
pub mod Chunks
pub mod Arrays
pub mod Session
pub mod Neighbours
use camlite.Base.{
  ℕ, zero, suc, ◌+◌, ◌-◌, Bool, true, false, not, ◌&&◌, Option, none, some, [], ◌++◌, Text, leb,
  ◌==◌, if◌then◌else◌, length, get_or, set, drop,
}
use camlite.Kernel.{Kernel, Log}
use camlite.Libc.{c_str}
use camlite.Pevent
use camlite.Pevent.{Status, ok, failed}
use camlite.Http
use camlite.Http.{Client, Request, http_method_get, http_max_string_size, clear_request, set_delay}
use camlite.Http.Parse.{parse_line}
use camlite.Http.Response.{Response, compile}

-- How the loop over the buffer ends: the empty line was met, a line was refused, or the bytes ran
-- out, with `wrap_pos` at the start of the line that is not complete and the buffer as it is now.
pub data Scan : Type 0 where
  complete : Request → Scan
  refused : Request → Scan
  partial : Request → ℕ → Text → Scan

-- After a line is parsed the loop goes on behind it.
unfoldable pub after_line : (Request → Scan) → Status × Request → Scan
after_line go (ok, r) = go r
after_line go (failed, r) = refused r

-- `for (i = 1; i < request_buf_cur; ++i)`, with the rounds that are left. The NUL that ends a line
-- is written over its CR.
unfoldable pub scan_from : ℕ → ℕ → ℕ → Text → Request → Scan
unfolding after_line
scan_from zero i wrap_pos buf r = partial r wrap_pos buf
scan_from (suc rounds) i wrap_pos buf r =
    let cut = set buf (i - 1) 0 in
    let line =
      after_line (scan_from rounds (i + 1) (i + 1) cut)
        (parse_line r (c_str (drop wrap_pos cut))) in
    let next = scan_from rounds (i + 1) wrap_pos buf r in
    if get_or buf i 0 == 10 && get_or buf (i - 1) 0 == 13
    then if wrap_pos == i - 1 then complete r else line
    else next

unfoldable pub scan : Text → Request → Scan
scan buf r = scan_from (length buf - 1) 1 0 buf r

-- What the server's `request_callback` is given and gives: it may set the client's delay pointer,
-- by http_client_set_delay, and has a state of its own and calls of its own.
pub record Reply (A : Type 0) : Type 0 where
  pub response : Option Response
  pub delay : ℕ
  pub app : A
  pub log : Log

abbrev pub RequestCallback : Type 0 → Type 0
RequestCallback A = Client → A → Log → Reply A

module _ (k : Kernel) where
  -- What follows a read of the loop: hang up, stop reading (EAGAIN), or read on.
  unfoldable pub after_read :
      (Client → Log → Option (Option Client × Log))
      → Client
      → Option Text × Log
      → Option (Option Client × Log)
  after_read again c (none, log) = some (none, Http.free k c log)
  after_read again c (some b, log) =
      let more = again (record c { request_buf = c.request_buf ++ b }) log in
      if length b == 0 then some (some c, log) else more

  -- The first loop of on_read. The outer `none` means that the fuel ran out.
  unfoldable pub read_loop : ℕ → Client → Log → Option (Option Client × Log)
  read_loop zero c log = none
  read_loop (suc fuel) c log =
      let more =
        after_read (read_loop fuel) c
          (Pevent.read k c.pevent (http_max_string_size - length c.request_buf) log) in
      if leb http_max_string_size (length c.request_buf)
      then some (none, Http.free k c log)
      else more

  -- The end of on_read: the connection is ready for the next request, or hangs up.
  unfoldable pub finish : Client → Log → Option Client × Log
  finish c log =
      let c' = clear_request (record c { request_header_compile = false; reading = false }) in
      if not c'.writing && c'.delay_ptr == 0 then (none, Http.free k c' log) else (some c', log)

  unfoldable pub respond : Option Response → Client → Log → Option Client × Log
  respond none c log = (some c, log)
  respond (some r) c log = compile k r c log

  unfoldable pub finish_with : Option Client × Log → Option Client × Log
  finish_with (none, log) = (none, log)
  finish_with (some c, log) = finish c log

  module _ {A : Type 0} (callback : RequestCallback A) where
    -- From "header compile" on. Each request that is not a GET ends the connection.
    unfoldable pub answer : Client → Log → A → (Option Client × Log) × A
    answer c log a =
        if not (c.request.method == http_method_get)
        then ((none, Http.free k c log), a)
        else let reply = callback c a log in
          (finish_with (respond reply.response (set_delay c reply.delay) reply.log), reply.app)

    -- What on_read does with the lines in the buffer.
    unfoldable pub after_scan : Client → Log → A → Scan → (Option Client × Log) × A
    after_scan c log a (complete r) =
        answer (record c { request = r; request_buf = []; request_header_compile = true }) log a
    after_scan c log a (refused r) = ((none, Http.free k (record c { request = r }) log), a)
    after_scan c log a (partial r wrap_pos buf) =
        if not c.request_header_compile
        then (
          (some (record c { request = r; request_buf = drop wrap_pos buf; reading = true }), log),
          a,
        )
        else answer (record c { request = r; request_buf = buf }) log a

    unfoldable pub after_reading :
        A → Option (Option Client × Log) → Option ((Option Client × Log) × A)
    after_reading a none = none
    after_reading a (some (none, log)) = some ((none, log), a)
    after_reading a (some (some c, log)) = some (after_scan c log a (scan c.request_buf c.request))

    -- Each round but the last reads a byte or more, so this fuel is enough.
    unfoldable pub on_read : Client → Log → A → Option ((Option Client × Log) × A)
    on_read c log a =
        after_reading a (read_loop (suc (http_max_string_size - length c.request_buf)) c log)
