-- ===== src/Http/Send.antt =====
-- src/http.c: http_client_send and on_write, the two ends of a connection's write buffer.
-- A result `none` for the connection means that it has been freed.
pub mod Buffer
pub mod Connection
pub mod Stream
pub mod Drain
pub mod Holding
use camlite.Base.{
  ℕ, zero, suc, ◌+◌, ◌-◌, ◌*◌, ◌/◌, true, false, Option, none, some, [], Text, ltb, leb, ◌==◌,
  if◌then◌else◌, length, take, drop,
}
use camlite.Kernel.{Kernel, Log}
use camlite.Memory.{fmalloc, frealloc, memcpy}
use camlite.Pevent
use camlite.Pevent.{Pevent, Status, ok, failed, pevent_read, pevent_write}
use camlite.Http
use camlite.Http.{IoBuffer, Client, http_max_send_buffer}

abbrev pub contents : Option Text → Text
contents none = []
contents (some block) = block

abbrev alloc_size : ℕ → ℕ
alloc_size need = (need / 4096 + 1) * 4096

-- Makes room for `need` bytes: the buffer's first block, or a larger one.
reserve_with : Kernel → IoBuffer → Option Text → ℕ → IoBuffer
reserve_with k b none need = record b {
  buf = some (fmalloc k (alloc_size need));
  max = alloc_size need;
}
reserve_with k b (some block) need =
    if ltb b.max need
    then record b { buf = some (frealloc k block (alloc_size need)); max = alloc_size need }
    else b

unfoldable pub reserve : Kernel → IoBuffer → ℕ → IoBuffer
unfolding reserve_with
reserve k b need = reserve_with k b b.buf need

-- The memcpy behind what the buffer holds.
unfoldable pub append : Kernel → IoBuffer → Text → IoBuffer
append k b rest =
    let b' = reserve k b (b.size + length rest) in
    record b' { buf = some (memcpy (contents b'.buf) b.size rest); size = b.size + length rest }

-- The bytes that are left to send, from `cur` to `size`.
abbrev pub pending : Client → Text
pending c = drop c.write_buf.cur (take c.write_buf.size (contents c.write_buf.buf))

unfoldable pub advance : Client → ℕ → Client
advance c n = record c { write_buf = record (c.write_buf) { cur = c.write_buf.cur + n } }

module _ (k : Kernel) where
  -- pevent_set is asked for a mode; the connection does not survive a refusal.
  unfoldable pub settle : Client → Status × Pevent × Log → Option Client × Log
  settle c (ok, p, log) = (some (record c { pevent = p }), log)
  settle c (failed, p, log) = (none, Http.free k (record c { pevent = p }) log)

  unfoldable pub set_mode : Client → ℕ → Log → Option Client × Log
  unfolding settle
  set_mode c mode log = settle c (Pevent.set k c.pevent mode log)

  -- What the socket did not take goes into the buffer, and the connection waits to write.
  unfoldable pub enqueue : Client → Text → Log → Option Client × Log
  enqueue c rest log =
      if length rest == 0
      then (some c, log)
      else if ltb http_max_send_buffer (c.write_buf.size + length rest)
      then (none, Http.free k c log)
      else let c' = record c { write_buf = append k c.write_buf rest } in
        if c.writing
        then (some c', log)
        else set_mode (record c' { writing = true }) pevent_write log

  -- After the write at the head of http_client_send.
  unfoldable pub after_write : Client → Text → Option ℕ × Log → Option Client × Log
  after_write c buf (none, log) = (none, Http.free k c log)
  after_write c buf (some n, log) = enqueue c (drop n buf) log

  -- http_client_send
  unfoldable pub send : Client → Text → Log → Option Client × Log
  unfolding after_write
  send c buf log =
      if c.writing then enqueue c buf log else after_write c buf (Pevent.write k c.pevent buf log)

  -- The buffer is empty: wait for a request, or hang up.
  unfoldable pub drained : Client → Log → Option Client × Log
  drained c log =
      let b = record (c.write_buf) { cur = 0; size = 0 } in
      let c' = record c { write_buf = b; writing = false } in
      if c.delay_ptr == 0 then (none, Http.free k c' log) else set_mode c' pevent_read log

  -- What follows a write of the loop: hang up, wait (EAGAIN), or go round again.
  unfoldable pub after_round :
      (Client → Log → Option (Option Client × Log))
      → Client
      → Option ℕ × Log
      → Option (Option Client × Log)
  after_round again c (none, log) = some (none, Http.free k c log)
  after_round again c (some n, log) =
      let more = again (advance c n) log in if n == 0 then some (some c, log) else more

  -- The loop of on_write. The outer `none` means that the fuel ran out.
  unfoldable pub write_loop : ℕ → Client → Log → Option (Option Client × Log)
  write_loop zero c log = none
  write_loop (suc fuel) c log =
      let more = after_round (write_loop fuel) c (Pevent.write k c.pevent (pending c) log) in
      if leb c.write_buf.size c.write_buf.cur then some (drained c log) else more

  -- Each round but the last sends a byte or more, so this fuel is enough.
  unfoldable pub on_write : Client → Log → Option (Option Client × Log)
  on_write c log =
      if c.writing
      then write_loop (suc (c.write_buf.size - c.write_buf.cur)) c log
      else some (none, Http.free k c log)
