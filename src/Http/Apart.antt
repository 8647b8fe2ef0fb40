-- ===== src/Http/Apart.antt =====
-- src/http.c: what a connection does leaves other descriptors, and so other connections, alone.
use camlite.Base.{
  ℕ, zero, suc, ◌+◌, ◌≡◌, ◌≢◌, ap, sym, ◌∙◌, Bool, true, false, Option, none, some, Text, ltb, leb,
  ◌==◌, if_split, length, drop,
}
use camlite.Kernel.{Kernel, Log, epoll_in, epoll_out, watched}
use camlite.Kernel.Quiet.{Quiet, IsHeld, hash_del-Quiet, writing-Quiet}
use camlite.Pevent
use camlite.Pevent.{Status, Pevent, ok, failed, pevent_read, pevent_write}
use camlite.Pevent.Watch.{IsWatched, interest}
use camlite.Pevent.Apart.{SetQuiet, set-SetQuiet, free-Quiet}
use camlite.Http
use camlite.Http.{Client, http_max_send_buffer}
use camlite.Http.Response.{Response, compile, send_extra, compose}
use camlite.Http.Send.{
  settle, set_mode, enqueue, after_write, send, drained, after_round, write_loop, on_write, advance,
  pending,
}
use camlite.Http.Send.Connection.{IsClient, waits_for}

-- epoll watches a sound connection for reading or for writing.
pub client-IsHeld : (c : Client) (log : Log) → IsClient c log → IsHeld c.fd log
client-IsHeld c log v = by_mode c.writing v.mode
  where
    by_mode : (writing : Bool) → c.pevent.state ≡ waits_for writing → IsHeld c.fd log
    by_mode false e = (
      c.pevent.base,
      epoll_in,
      rw (← v.sound.same_fd) (v.sound.watch ∙ ap (λ (n : ℕ). interest n) e),
    )
    by_mode true e = (
      c.pevent.base,
      epoll_out,
      rw (← v.sound.same_fd) (v.sound.watch ∙ ap (λ (n : ℕ). interest n) e),
    )

pub Quiet-IsWatched :
    (c : Client) (log log' : Log) → IsClient c log → Quiet c.fd log log' → IsWatched c.pevent log'
Quiet-IsWatched c log log' v q =
    ap (λ (n : ℕ). watched c.pevent.base n log') v.sound.same_fd
    ∙ (q.same_watch c.pevent.base
        ∙ (ap (λ (n : ℕ). watched c.pevent.base n log) (sym v.sound.same_fd) ∙ v.sound.watch))

-- A connection whose descriptor is left alone stays sound.
pub Quiet-IsClient :
    (c : Client) (log log' : Log) → IsClient c log → Quiet c.fd log log' → IsClient c log'
Quiet-IsClient c log log' v q = record {
  sound = record {
    same_fd = v.sound.same_fd;
    watch = Quiet-IsWatched c log log' v q;
    buffer = v.sound.buffer;
    limit = v.sound.limit;
    idle = v.sound.idle;
    busy = v.sound.busy;
  };
  mode = v.mode;
}

-- A handler left the descriptor alone, and the connection, if it lives on, is still on another one.
abbrev pub Away : ℕ → Log → Option Client × Log → Type 0
Away fd before (none, log) = Quiet fd before log
Away fd before (some c, log) = Quiet fd before log × (c.pevent.fd ≢ fd)

abbrev pub MayAway : ℕ → Log → Option (Option Client × Log) → Type 0
MayAway fd before none = Unit
MayAway fd before (some o) = Away fd before o

module _ (k : Kernel) (fd : ℕ) (before : Log) where
  pub client_free-Quiet :
      (c : Client) (log : Log)
      → c.pevent.fd ≢ fd
      → Quiet fd before log
      → Quiet fd before (Http.free k c log)
  unfolding Http.free
  client_free-Quiet c log n h =
      free-Quiet k fd before c.pevent _ n (hash_del-Quiet fd c.fd before log h)

  settle-Away :
      (c : Client) (t : Status × Pevent × Log)
      → c.pevent.fd ≢ fd
      → SetQuiet c.pevent.fd fd before t
      → Away fd before (settle k c t)
  unfolding settle
  settle-Away c (ok, p, log) n h = (h.1, λ e. n (sym h.0 ∙ e))
  settle-Away c (failed, p, log) n h =
      client_free-Quiet (record c { pevent = p }) log (λ e. n (sym h.0 ∙ e)) h.1

  set_mode-Away :
      (c : Client) (mode : ℕ) (log : Log)
      → c.pevent.fd ≢ fd
      → Quiet fd before log
      → Away fd before (set_mode k c mode log)
  unfolding set_mode
  set_mode-Away c mode log n h = settle-Away c _ n (set-SetQuiet k fd before c.pevent mode log n h)

  enqueue-Away :
      (c : Client) (rest : Text) (log : Log)
      → c.pevent.fd ≢ fd
      → Quiet fd before log
      → Away fd before (enqueue k c rest log)
  unfolding enqueue
  enqueue-Away c rest log n h =
      if_split (Away fd before) (length rest == 0) _ _ (λ _. (h, n))
        (λ _.
          if_split (Away fd before) (ltb http_max_send_buffer (c.write_buf.size + length rest)) _ _
            (λ _. client_free-Quiet c log n h)
            (λ _.
              if_split (Away fd before) c.writing _ _ (λ _. (h, n))
                (λ _. set_mode-Away _ pevent_write log n h)))

  after_write-Away :
      (c : Client) (buf : Text) (r : Option ℕ × Log)
      → c.pevent.fd ≢ fd
      → Quiet fd before (r.1)
      → Away fd before (after_write k c buf r)
  unfolding after_write
  after_write-Away c buf (none, log) n h = client_free-Quiet c log n h
  after_write-Away c buf (some m, log) n h = enqueue-Away c (drop m buf) log n h

  write-Quiet :
      (p : Pevent) (buf : Text) (log : Log)
      → p.fd ≢ fd
      → Quiet fd before log
      → Quiet fd before ((Pevent.write k p buf log).1)
  unfolding Pevent.write
  write-Quiet p buf log n h = writing-Quiet fd p.fd buf _ before log n h

  pub send-Away :
      (c : Client) (buf : Text) (log : Log)
      → c.pevent.fd ≢ fd
      → Quiet fd before log
      → Away fd before (send k c buf log)
  unfolding send
  send-Away c buf log n h =
      if_split (Away fd before) c.writing _ _ (λ _. enqueue-Away c buf log n h)
        (λ _.
          after_write-Away c buf (Pevent.write k c.pevent buf log) n
            (write-Quiet c.pevent buf log n h))

  send_extra-Away :
      (extra : Text) (o : Option Client × Log)
      → Away fd before o
      → Away fd before (send_extra k extra o)
  unfolding send_extra
  send_extra-Away extra (none, log) h = h
  send_extra-Away extra (some c, log) h =
      if_split (Away fd before) (length extra == 0) _ _ (λ _. h)
        (λ _. send-Away c extra log h.1 h.0)

  pub compile-Away :
      (r : Response) (c : Client) (log : Log)
      → c.pevent.fd ≢ fd
      → Quiet fd before log
      → Away fd before (compile k r c log)
  unfolding compile
  compile-Away r c log n h =
      send_extra-Away r.extra (send k c (compose r) log) (send-Away c (compose r) log n h)

  drained-Away :
      (c : Client) (log : Log)
      → c.pevent.fd ≢ fd
      → Quiet fd before log
      → Away fd before (drained k c log)
  unfolding drained
  drained-Away c log n h =
      if_split (Away fd before) (c.delay_ptr == 0) _ _ (λ _. client_free-Quiet _ log n h)
        (λ _. set_mode-Away _ pevent_read log n h)

  after_round-Away :
      (again : Client → Log → Option (Option Client × Log)) (c : Client) (r : Option ℕ × Log)
      → c.pevent.fd ≢ fd
      → Quiet fd before (r.1)
      → ((d : Client) (log : Log)
          → d.pevent.fd ≢ fd
          → Quiet fd before log
          → MayAway fd before (again d log))
      → MayAway fd before (after_round k again c r)
  unfolding after_round advance
  after_round-Away again c (none, log) n h g = client_free-Quiet c log n h
  after_round-Away again c (some m, log) n h g =
      if_split (MayAway fd before) (m == 0) _ _ (λ _. (h, n)) (λ _. g (advance c m) log n h)

  write_loop-Away :
      (fuel : ℕ) (c : Client) (log : Log)
      → c.pevent.fd ≢ fd
      → Quiet fd before log
      → MayAway fd before (write_loop k fuel c log)
  unfolding write_loop
  write_loop-Away zero c log n h = tt
  write_loop-Away (suc fuel) c log n h =
      if_split (MayAway fd before) (leb c.write_buf.size c.write_buf.cur) _ _
        (λ _. drained-Away c log n h)
        (λ _.
          after_round-Away (write_loop k fuel) c (Pevent.write k c.pevent (pending c) log) n
            (write-Quiet c.pevent (pending c) log n h) (write_loop-Away fuel))

  pub on_write-Away :
      (c : Client) (log : Log)
      → c.pevent.fd ≢ fd
      → Quiet fd before log
      → MayAway fd before (on_write k c log)
  unfolding on_write
  on_write-Away c log n h =
      if_split (MayAway fd before) c.writing _ _ (λ _. write_loop-Away _ c log n h)
        (λ _. client_free-Quiet c log n h)
