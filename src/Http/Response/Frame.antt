-- ===== src/Http/Response/Frame.antt =====
-- src/http.c: sending leaves what a connection reads into alone.
use camlite.Base.{
  ℕ, ◌≡◌, refl, true, Option, none, some, Text, ◌==◌, ltb, if_split, length, drop, ◌+◌,
}
use camlite.Kernel.{Kernel, Log}
use camlite.Pevent
use camlite.Pevent.{Status, Pevent, ok, failed}
use camlite.Http.{Client, http_max_send_buffer}
use camlite.Http.Send.{send, enqueue, after_write, set_mode, settle, append}
use camlite.Http.Response.{Response, compile, send_extra, compose}

-- The bytes read so far and the delay pointer are as they were, in a connection that lives on.
abbrev pub Keeps : Text → ℕ → Option Client × Log → Type 0
Keeps buf delay (none, log) = Unit
Keeps buf delay (some c, log) = (c.request_buf ≡ buf) × (c.delay_ptr ≡ delay)

module _ (k : Kernel) where
  settle-Keeps :
      (c : Client) (s : Status × Pevent × Log) → Keeps c.request_buf c.delay_ptr (settle k c s)
  unfolding settle
  settle-Keeps c (ok, p, log) = (refl, refl)
  settle-Keeps c (failed, p, log) = tt

  enqueue-Keeps :
      (c : Client) (rest : Text) (log : Log)
      → Keeps c.request_buf c.delay_ptr (enqueue k c rest log)
  unfolding enqueue set_mode
  enqueue-Keeps c rest log =
      if_split (Keeps c.request_buf c.delay_ptr) (length rest == 0) _ _ (λ _. (refl, refl))
        (λ _.
          if_split (Keeps c.request_buf c.delay_ptr)
            (ltb http_max_send_buffer (c.write_buf.size + length rest)) _ _ (λ _. tt)
            (λ _.
              if_split (Keeps c.request_buf c.delay_ptr) c.writing _ _ (λ _. (refl, refl))
                (λ _.
                  settle-Keeps (record c { write_buf = append k c.write_buf rest; writing = true })
                    _)))

  after_write-Keeps :
      (c : Client) (buf : Text) (w : Option ℕ × Log)
      → Keeps c.request_buf c.delay_ptr (after_write k c buf w)
  unfolding after_write
  after_write-Keeps c buf (none, log) = tt
  after_write-Keeps c buf (some n, log) = enqueue-Keeps c (drop n buf) log

  pub send-Keeps :
      (c : Client) (buf : Text) (log : Log) → Keeps c.request_buf c.delay_ptr (send k c buf log)
  unfolding send
  send-Keeps c buf log =
      if_split (Keeps c.request_buf c.delay_ptr) c.writing _ _ (λ _. enqueue-Keeps c buf log)
        (λ _. after_write-Keeps c buf (Pevent.write k c.pevent buf log))

  send_extra-Keeps :
      (extra buf : Text) (delay : ℕ) (o : Option Client × Log)
      → Keeps buf delay o
      → Keeps buf delay (send_extra k extra o)
  unfolding send_extra
  send_extra-Keeps extra buf delay (none, log) h = tt
  send_extra-Keeps extra buf delay (some c, log) h =
      if_split (Keeps buf delay) (length extra == 0) _ _ (λ _. h)
        (λ _. rw (← h.0, ← h.1) (send-Keeps c extra log))

  pub compile-Keeps :
      (r : Response) (c : Client) (log : Log) → Keeps c.request_buf c.delay_ptr (compile k r c log)
  unfolding compile
  compile-Keeps r c log =
      send_extra-Keeps r.extra c.request_buf c.delay_ptr _ (send-Keeps c (compose r) log)
