-- ===== src/Http/Read/Neighbours.antt =====
-- src/http.c, on_read: other connections are left alone.
use camlite.Base.{
  ℕ, zero, suc, ◌-◌, ◌≢◌, not, ◌&&◌, Option, none, some, Text, leb, ◌==◌, if_split, length,
}
use camlite.Kernel.{Kernel, Log}
use camlite.Kernel.Quiet.{Quiet, Quiet-trans, Quiet-IsHeld, IsHeld, reading-Quiet}
use camlite.Pevent
use camlite.Http.{Client, clear_request, set_delay, http_method_get, http_max_string_size}
use camlite.Http.Response.{Response}
use camlite.Http.Apart.{Away, MayAway, client_free-Quiet, compile-Away}
use camlite.Http.Read.{
  Scan, complete, refused, partial, scan, RequestCallback, read_loop, after_read, finish, respond,
  finish_with, answer, after_scan, after_reading, on_read,
}
use camlite.Http.Read.Session.{IsCallback}

module _ (k : Kernel) (fd : ℕ) (before : Log) where
  read-Quiet :
      (c : Client) (size : ℕ) (log : Log)
      → Quiet fd before log
      → Quiet fd before ((Pevent.read k c.pevent size log).1)
  unfolding Pevent.read
  read-Quiet c size log h = reading-Quiet fd c.pevent.fd size _ before log h

  after_read-Away :
      (again : Client → Log → Option (Option Client × Log)) (c : Client) (r : Option Text × Log)
      → c.pevent.fd ≢ fd
      → Quiet fd before (r.1)
      → ((d : Client) (log : Log)
          → d.pevent.fd ≢ fd
          → Quiet fd before log
          → MayAway fd before (again d log))
      → MayAway fd before (after_read k again c r)
  unfolding after_read
  after_read-Away again c (none, log) n h g = client_free-Quiet k fd before c log n h
  after_read-Away again c (some b, log) n h g =
      if_split (MayAway fd before) (length b == 0) _ _ (λ _. (h, n)) (λ _. g _ log n h)

  read_loop-Away :
      (fuel : ℕ) (c : Client) (log : Log)
      → c.pevent.fd ≢ fd
      → Quiet fd before log
      → MayAway fd before (read_loop k fuel c log)
  unfolding read_loop
  read_loop-Away zero c log n h = tt
  read_loop-Away (suc fuel) c log n h =
      let size = http_max_string_size - length c.request_buf in
      if_split (MayAway fd before) (leb http_max_string_size (length c.request_buf)) _ _
        (λ _. client_free-Quiet k fd before c log n h)
        (λ _.
          after_read-Away (read_loop k fuel) c (Pevent.read k c.pevent size log) n
            (read-Quiet c size log h) (read_loop-Away fuel))

  finish-Away :
      (c : Client) (log : Log)
      → c.pevent.fd ≢ fd
      → Quiet fd before log
      → Away fd before (finish k c log)
  unfolding finish clear_request
  finish-Away c log n h =
      if_split (Away fd before) (not c.writing && c.delay_ptr == 0) _ _
        (λ _. client_free-Quiet k fd before _ log n h) (λ _. (h, n))

  respond-Away :
      (r : Option Response) (c : Client) (log : Log)
      → c.pevent.fd ≢ fd
      → Quiet fd before log
      → Away fd before (respond k r c log)
  unfolding respond
  respond-Away none c log n h = (h, n)
  respond-Away (some r) c log n h = compile-Away k fd before r c log n h

  finish_with-Away : (o : Option Client × Log) → Away fd before o → Away fd before (finish_with k o)
  unfolding finish_with
  finish_with-Away (none, log) h = h
  finish_with-Away (some c, log) h = finish-Away c log h.1 h.0

  module _ {A : Type 0} (callback : RequestCallback A) (Apart : A → ℕ → Type 0)
      (law : IsCallback callback Apart) (held : IsHeld fd before) where
    -- The descriptor is left alone, and the callback's state is still apart from it.
    abbrev pub Passes : (Option Client × Log) × A → Type 0
    Passes (o, a) = Away fd before o × Apart a fd

    answer-Passes :
        (c : Client) (log : Log) (a : A)
        → c.pevent.fd ≢ fd
        → Quiet fd before log
        → Apart a fd
        → Passes (answer k callback c log a)
    unfolding answer set_delay
    answer-Passes c log a n h apart =
        if_split Passes (not (c.request.method == http_method_get)) _ _
          (λ _. (client_free-Quiet k fd before c log n h, apart))
          (λ _.
            let alone = law.leaves_alone c a log fd (Quiet-IsHeld fd before log h held) apart in
            let reply = callback c a log in
            (
              finish_with-Away _ (
                  respond-Away reply.response (record c { delay_ptr = reply.delay }) reply.log n
                    (Quiet-trans fd before log reply.log h alone.0)),
              alone.1,
            ))

    after_scan-Passes :
        (s : Scan) (c : Client) (log : Log) (a : A)
        → c.pevent.fd ≢ fd
        → Quiet fd before log
        → Apart a fd
        → Passes (after_scan k callback c log a s)
    unfolding after_scan
    after_scan-Passes (complete r) c log a n h apart = answer-Passes _ log a n h apart
    after_scan-Passes (refused r) c log a n h apart =
        (client_free-Quiet k fd before _ log n h, apart)
    after_scan-Passes (partial r wrap_pos buf) c log a n h apart =
        if_split Passes (not c.request_header_compile) _ _ (λ _. ((h, n), apart))
          (λ _. answer-Passes _ log a n h apart)

    abbrev pub MayPass : Option ((Option Client × Log) × A) → Type 0
    MayPass none = Unit
    MayPass (some o) = Passes o

    after_reading-Passes :
        (o : Option (Option Client × Log)) (a : A)
        → MayAway fd before o
        → Apart a fd
        → MayPass (after_reading k callback a o)
    unfolding after_reading
    after_reading-Passes none a h apart = tt
    after_reading-Passes (some (none, log)) a h apart = (h, apart)
    after_reading-Passes (some (some c, log)) a h apart =
        after_scan-Passes (scan c.request_buf c.request) c log a h.1 h.0 apart

    pub on_read-Passes :
        (c : Client) (log : Log) (a : A)
        → c.pevent.fd ≢ fd
        → Quiet fd before log
        → Apart a fd
        → MayPass (on_read k callback c log a)
    unfolding on_read
    on_read-Passes c log a n h apart = after_reading-Passes _ a (read_loop-Away _ c log n h) apart
