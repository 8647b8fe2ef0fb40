-- ===== src/Http/Send/Holding.antt =====
-- src/http.c, http_client_send and on_write: what a connection has taken in stays.
use camlite.Base.{
  ℕ, zero, suc, ◌+◌, ◌≡◌, refl, true, false, Option, none, some, leb, ltb, ◌==◌, if_split, Text,
  length, drop,
}
use camlite.Kernel.{Kernel, Log}
use camlite.Pevent
use camlite.Pevent.{Status, Pevent, ok, failed}
use camlite.Http.{Client, http_max_send_buffer}
use camlite.Http.Response.{Response, compile, send_extra, compose}
use camlite.Http.Send.{
  on_write, write_loop, after_round, drained, set_mode, settle, advance, pending, enqueue,
  after_write, send, append,
}

-- What a connection has taken in is as it was.
abbrev pub Holds : Client → Option Client × Log → Type 0
Holds c (none, log) = Unit
Holds c (some d, log) = (d.request_buf ≡ c.request_buf) × (d.request ≡ c.request)

abbrev pub MayHold : Client → Option (Option Client × Log) → Type 0
MayHold c none = Unit
MayHold c (some o) = Holds c o

module _ (k : Kernel) (c : Client) where
  settle-Holds :
      (d : Client) (t : Status × Pevent × Log) → Holds c (some d, t.2) → Holds c (settle k d t)
  unfolding settle
  settle-Holds d (ok, p, log) h = h
  settle-Holds d (failed, p, log) h = tt

  drained-Holds : (d : Client) (log : Log) → Holds c (some d, log) → Holds c (drained k d log)
  unfolding drained set_mode
  drained-Holds d log h =
      if_split (Holds c) (d.delay_ptr == 0) _ _ (λ _. tt)
        (λ _.
          settle-Holds
            (record d { write_buf = record (d.write_buf) { cur = 0; size = 0 }; writing = false }) _
            h)

  after_round-Holds :
      (again : Client → Log → Option (Option Client × Log)) (d : Client) (r : Option ℕ × Log)
      → Holds c (some d, r.1)
      → ((e : Client) (log : Log) → Holds c (some e, log) → MayHold c (again e log))
      → MayHold c (after_round k again d r)
  unfolding after_round advance
  after_round-Holds again d (none, log) h g = tt
  after_round-Holds again d (some n, log) h g =
      if_split (MayHold c) (n == 0) _ _ (λ _. h) (λ _. g (advance d n) log h)

  write_loop-Holds :
      (fuel : ℕ) (d : Client) (log : Log)
      → Holds c (some d, log)
      → MayHold c (write_loop k fuel d log)
  unfolding write_loop
  write_loop-Holds zero d log h = tt
  write_loop-Holds (suc fuel) d log h =
      if_split (MayHold c) (leb d.write_buf.size d.write_buf.cur) _ _ (λ _. drained-Holds d log h)
        (λ _.
          after_round-Holds (write_loop k fuel) d (Pevent.write k d.pevent (pending d) log) h
            (write_loop-Holds fuel))

  pub on_write-Holds : (log : Log) → MayHold c (on_write k c log)
  unfolding on_write
  on_write-Holds log =
      if_split (MayHold c) c.writing _ _ (λ _. write_loop-Holds _ c log (refl, refl)) (λ _. tt)

module _ (k : Kernel) (c : Client) where
  enqueue-Holds :
      (d : Client) (rest : Text) (log : Log)
      → Holds c (some d, log)
      → Holds c (enqueue k d rest log)
  unfolding enqueue set_mode
  enqueue-Holds d rest log h =
      if_split (Holds c) (length rest == 0) _ _ (λ _. h)
        (λ _.
          if_split (Holds c) (ltb http_max_send_buffer (d.write_buf.size + length rest)) _ _
            (λ _. tt)
            (λ _.
              if_split (Holds c) d.writing _ _ (λ _. h)
                (λ _.
                  settle-Holds k c
                    (record d { write_buf = append k d.write_buf rest; writing = true }) _ h)))

  after_write-Holds :
      (d : Client) (buf : Text) (r : Option ℕ × Log)
      → Holds c (some d, r.1)
      → Holds c (after_write k d buf r)
  unfolding after_write
  after_write-Holds d buf (none, log) h = tt
  after_write-Holds d buf (some n, log) h = enqueue-Holds d (drop n buf) log h

  send-Holds :
      (d : Client) (buf : Text) (log : Log) → Holds c (some d, log) → Holds c (send k d buf log)
  unfolding send
  send-Holds d buf log h =
      if_split (Holds c) d.writing _ _ (λ _. enqueue-Holds d buf log h)
        (λ _. after_write-Holds d buf (Pevent.write k d.pevent buf log) h)

  send_extra-Holds :
      (extra : Text) (o : Option Client × Log) → Holds c o → Holds c (send_extra k extra o)
  unfolding send_extra
  send_extra-Holds extra (none, log) h = tt
  send_extra-Holds extra (some d, log) h =
      if_split (Holds c) (length extra == 0) _ _ (λ _. h) (λ _. send-Holds d extra log h)

  pub compile-Holds :
      (r : Response) (d : Client) (log : Log) → Holds c (some d, log) → Holds c (compile k r d log)
  unfolding compile
  compile-Holds r d log h =
      send_extra-Holds r.extra (send k d (compose r) log) (send-Holds d (compose r) log h)
