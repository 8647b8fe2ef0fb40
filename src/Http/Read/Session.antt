-- ===== src/Http/Read/Session.antt =====
-- src/http.c, on_read: what one readable event does to a connection.
use camlite.Base.{
  ℕ, zero, suc, ◌-◌, ◌≤◌, ◌<◌, ◌≡◌, refl, sym, ap, ◌∙◌, Bool, true, false, not, ◌&&◌, Option, none,
  some, [], ◌++◌, Text, arith, ◌==◌, leb, if_split, length, append-nil, append_assoc, drop,
  length-drop, length-append, ◌⊎◌, inl, inr,
}
use camlite.Kernel.{Kernel, Log, IsPosix, sent, watched}
use camlite.Pevent
use camlite.Pevent.{Status, ok, failed}
use camlite.Pevent.Transfer.{sent-read, watched-read, read_within}
use camlite.Http.{Client, Request, clear_request, set_delay, http_method_get}
use camlite.Http.Response.{Response, compose}
use camlite.Http.Response.Delivery.{compile-Outcome}
use camlite.Http.Response.Frame.{Keeps, compile-Keeps}
use camlite.Http.Send.Buffer.{queued}
use camlite.Kernel.Quiet.{Quiet, IsHeld}
use camlite.Http.Apart.{client-IsHeld, Quiet-IsWatched}
use camlite.Http.Send.Connection.{IsClient, Outcome, free-Outcome}
use camlite.Http.Read.Arrays.{IsInput, ScanFits, scan_from-ScanFits}
use camlite.Http.Read.{
  Scan, complete, refused, partial, scan, RequestCallback, read_loop, after_read, finish, respond,
  finish_with, answer, after_scan, after_reading, on_read,
}

-- What a connection that lives on satisfies besides.
abbrev pub InputKept : Option Client × Log → Type 0
InputKept (some c, log) = IsInput c
InputKept (none, log) = Unit

-- The handler returned, the arrays are intact, and `total` is accounted for.
abbrev pub Reads : Text → ℕ → ℕ → Option (Option Client × Log) → Type 0
Reads total base fd none = ⊥
Reads total base fd (some o) = Outcome total base fd o × InputKept o

-- What a request callback may do to the calls: nothing that concerns a descriptor that epoll watches, as long as what
-- the callback has of its own keeps apart from it; and that still does so afterwards.
pub record IsCallback {A : Type 0} (callback : RequestCallback A) (Apart : A → ℕ → Type 0)
    : Type 0 where
  pub leaves_alone :
      (c : Client) (a : A) (log : Log) (fd : ℕ)
      → IsHeld fd log
      → Apart a fd
      → Quiet fd log (callback c a log).log × Apart ((callback c a log).app) fd

module _ (k : Kernel) where
  move-IsClient :
      {c : Client} {log log' : Log}
      → IsClient c log
      → watched c.pevent.base c.pevent.fd log' ≡ watched c.pevent.base c.pevent.fd log
      → IsClient c log'
  move-IsClient {c} v e = record {
    sound = record {
      same_fd = v.sound.same_fd;
      watch = e ∙ v.sound.watch;
      buffer = v.sound.buffer;
      limit = v.sound.limit;
      idle = v.sound.idle;
      busy = v.sound.busy;
    };
    mode = v.mode;
  }

  -- The parts of a connection that on_read sets besides the write buffer.
  relabel-IsClient :
      {c : Client} {log : Log} (r : Request) (buf : Text) (compiled reading : Bool) (delay : ℕ)
      → IsClient c log
      → IsClient
          (record c {
            delay_ptr = delay;
            reading = reading;
            request_buf = buf;
            request_header_compile = compiled;
            request = r;
          })
          log
  relabel-IsClient r buf compiled reading delay v = record {
    sound = record {
      same_fd = v.sound.same_fd;
      watch = v.sound.watch;
      buffer = v.sound.buffer;
      limit = v.sound.limit;
      idle = v.sound.idle;
      busy = v.sound.busy;
    };
    mode = v.mode;
  }

  after_read-Reads :
      (c : Client) (log log' : Log) (total : Text) (r : Option Text)
      (again : Client → Log → Option (Option Client × Log))
      → IsClient c log'
      → IsInput c
      → sent c.fd log' ++ queued c.write_buf ≡ total
      → ((b : Text) → r ≡ some b → length b ≤ 2048 - length c.request_buf)
      → ((b : Text)
          → 0 < length b
          → IsInput (record c { request_buf = c.request_buf ++ b })
          → Reads total c.pevent.base c.fd
              (again (record c { request_buf = c.request_buf ++ b }) log'))
      → Reads total c.pevent.base c.fd (after_read k again c (r, log'))
  unfolding after_read
  after_read-Reads c log log' total none again v i h f g =
      (free-Outcome k c log' (queued c.write_buf) total c.fd v.sound.same_fd h, tt)
  after_read-Reads c log log' total (some b) again v i h f g =
      if_split (Reads total c.pevent.base c.fd) (length b == 0) _ _ (λ _. ((v, refl, refl, h), i))
        (λ more. g b (ground arith) (record {
          request_fits = i.request_fits;
          buf_fits = omega (arith, length-append c.request_buf b, f b refl, i.buf_fits);
        }))

  read_loop-Reads :
      (fuel : ℕ) (c : Client) (log : Log) (total : Text)
      → IsPosix k
      → IsClient c log
      → IsInput c
      → 2048 - length c.request_buf < fuel
      → sent c.fd log ++ queued c.write_buf ≡ total
      → Reads total c.pevent.base c.fd (read_loop k fuel c log)
  unfolding read_loop
  read_loop-Reads zero c log total posix v i lt h = absurd (omega arith)
  read_loop-Reads (suc fuel) c log total posix v i lt h =
      let size = 2048 - length c.request_buf in
      let log' = (Pevent.read k c.pevent size log).1 in
      if_split (Reads total c.pevent.base c.fd) (leb 2048 (length c.request_buf)) _ _
        (λ full. (free-Outcome k c log (queued c.write_buf) total c.fd v.sound.same_fd h, tt))
        (λ room.
          let v' : IsClient c log' =
            move-IsClient v (watched-read k c.pevent size log c.pevent.base c.pevent.fd) in
          let h' : sent c.fd log' ++ queued c.write_buf ≡ total =
            ap (λ (s : Text). s ++ queued c.write_buf) (sent-read k c.pevent size log c.fd) ∙ h in
          after_read-Reads c log log' total (Pevent.read k c.pevent size log).0 (read_loop k fuel)
            v' i h' (λ b e. read_within k c.pevent size log b posix e)
            (λ b pos i'.
              read_loop-Reads fuel (record c { request_buf = c.request_buf ++ b }) log' total posix
                (relabel-IsClient c.request (c.request_buf ++ b) c.request_header_compile c.reading
                  c.delay_ptr v')
                i' (omega (arith, length-append c.request_buf b, i'.buf_fits, i.buf_fits)) h'))

  finish-Outcome :
      (c : Client) (log : Log) (total : Text)
      → IsClient c log
      → sent c.fd log ++ queued c.write_buf ≡ total
      → length c.request_buf ≤ 2048
      → Reads total c.pevent.base c.fd (some (finish k c log))
  unfolding finish clear_request
  finish-Outcome c log total v h i =
      if_split (λ (o : Option Client × Log). Reads total c.pevent.base c.fd (some o))
        (not c.writing && c.delay_ptr == 0) _ _
        (λ gone. (free-Outcome k _ log (queued c.write_buf) total c.fd v.sound.same_fd h, tt))
        (λ stays. (
          (relabel-IsClient _ c.request_buf false false c.delay_ptr v, refl, refl, h),
          record {
            request_fits = record {
              path_fits = omega arith;
              param_fits = omega arith;
              host_fits = omega arith;
              digest_fits = omega arith;
            };
            buf_fits = i;
          },
        ))

  finish_with-Reads :
      (o : Option Client × Log) (total buf : Text) (base fd delay : ℕ)
      → Outcome total base fd o
      → Keeps buf delay o
      → length buf ≤ 2048
      → Reads total base fd (some (finish_with k o))
  unfolding finish_with
  finish_with-Reads (none, log) total buf base fd delay h kept n = (h, tt)
  finish_with-Reads (some c, log) total buf base fd delay h kept n =
      rw (← h.1, ← h.2)
        (finish-Outcome c log total h.0 (ap (λ (n : ℕ). sent n log ++ queued c.write_buf) h.1 ∙ h.3)
          (omega (arith, ap length kept.0)))

  -- What an answer puts behind what the peer is owed.
  abbrev pub answer_text : Option Response → Text
  answer_text none = []
  answer_text (some r) = compose r ++ r.extra

  respond-Outcome :
      (r : Option Response) (c : Client) (log : Log) (total : Text)
      → IsPosix k
      → IsClient c log
      → sent c.fd log ++ queued c.write_buf ≡ total
      → Outcome (total ++ answer_text r) c.pevent.base c.fd (respond k r c log)
        × Keeps c.request_buf c.delay_ptr (respond k r c log)
  unfolding respond
  respond-Outcome none c log total posix v h =
      ((v, refl, refl, h ∙ sym (append-nil total)), (refl, refl))
  respond-Outcome (some r) c log total posix v h =
      (rw whole (compile-Outcome k r c log posix v), compile-Keeps k r c log)
    where
      whole :
          total ++ (compose r ++ r.extra)
          ≡ sent c.fd log ++ (queued c.write_buf ++ compose r) ++ r.extra
      whole =
          sym (append_assoc total (compose r) r.extra)
          ∙ ap (λ (s : Text). s ++ compose r ++ r.extra) (sym h)
          ∙ ap (λ (s : Text). s ++ r.extra)
              (append_assoc (sent c.fd log) (queued c.write_buf) (compose r))

  module _ {A : Type 0} (callback : RequestCallback A) (Apart : A → ℕ → Type 0) where
    -- What a readable event adds to what the peer is owed: nothing, or the callback's answer to a GET.
    abbrev pub Answers : A → Text → Type 0
    Answers a text =
        (text ≡ [])
        ⊎ ((c : Client) × (log : Log) × (c.request.method ≡ http_method_get)
            × (text ≡ answer_text (callback c a log).response))

    abbrev pub Serves : A → Text → ℕ → ℕ → (Option Client × Log) × A → Type 0
    Serves a total base fd o =
        (text : Text) × Answers a text
        × Outcome (total ++ text) base fd o.0
        × InputKept o.0
        × Apart (o.1) fd

    answer-Serves :
        (c : Client) (log : Log) (a : A)
        → IsPosix k
        → IsCallback callback Apart
        → IsClient c log
        → Apart a c.fd
        → length c.request_buf ≤ 2048
        → Serves a
            (sent c.fd log ++ queued c.write_buf)
            c.pevent.base
            c.fd
            (answer k callback c log a)
    unfolding answer set_delay
    answer-Serves c log a posix law v apart n =
        let total = sent c.fd log ++ queued c.write_buf in
        if_split (Serves a total c.pevent.base c.fd) (not (c.request.method == http_method_get)) _ _
          (λ _. (
            [],
            inl refl,
            free-Outcome k c log (queued c.write_buf) _ c.fd v.sound.same_fd
                (sym (append-nil total)),
            tt,
            apart,
          ))
          (λ get.
            let reply = callback c a log in
            let alone = law.leaves_alone c a log c.fd (client-IsHeld c log v) apart in
            let quiet : Quiet c.fd log reply.log = alone.0 in
            let v' : IsClient (record c { delay_ptr = reply.delay }) reply.log =
              relabel-IsClient c.request c.request_buf c.request_header_compile c.reading
                reply.delay
                (move-IsClient v (Quiet-IsWatched c log reply.log v quiet ∙ sym v.sound.watch)) in
            let r =
              respond-Outcome reply.response (record c { delay_ptr = reply.delay }) reply.log total
                posix v' (ap (λ (s : Text). s ++ queued c.write_buf) quiet.same_sent) in
            let f =
              finish_with-Reads
                (respond k reply.response (record c { delay_ptr = reply.delay }) reply.log)
                (total ++ answer_text reply.response) c.request_buf c.pevent.base c.fd reply.delay
                r.0 r.1 n in
            (answer_text reply.response, inr (c, log, ground arith, refl), f.0, f.1, alone.1))

    after_scan-Serves :
        (s : Scan) (c : Client) (log : Log) (a : A)
        → IsPosix k
        → IsCallback callback Apart
        → IsClient c log
        → Apart a c.fd
        → ScanFits 2048 s
        → Serves a
            (sent c.fd log ++ queued c.write_buf)
            c.pevent.base
            c.fd
            (after_scan k callback c log a s)
    unfolding after_scan ScanFits
    after_scan-Serves (complete r) c log a posix law v apart f =
        answer-Serves (record c { request = r; request_buf = []; request_header_compile = true })
          log a posix law (relabel-IsClient r [] true c.reading c.delay_ptr v) apart (omega arith)
    after_scan-Serves (refused r) c log a posix law v apart f = (
      [],
      inl refl,
      free-Outcome k (record c { request = r }) log (queued c.write_buf) _ c.fd v.sound.same_fd
          (sym (append-nil (sent c.fd log ++ queued c.write_buf))),
      tt,
      apart,
    )
    after_scan-Serves (partial r wrap_pos buf) c log a posix law v apart f =
        let total = sent c.fd log ++ queued c.write_buf in
        if_split (Serves a total c.pevent.base c.fd) (not c.request_header_compile) _ _
          (λ _. (
            [],
            inl refl,
            (
              relabel-IsClient r (drop wrap_pos buf) c.request_header_compile true c.delay_ptr v,
              refl,
              refl,
              sym (append-nil total),
            ),
            record { request_fits = f.0; buf_fits = omega (arith, length-drop wrap_pos buf, f.1) },
            apart,
          ))
          (λ _.
            answer-Serves (record c { request = r; request_buf = buf }) log a posix law
              (relabel-IsClient r buf c.request_header_compile c.reading c.delay_ptr v) apart f.1)

    -- The handler returned, and served the connection.
    abbrev pub ReadServes : A → Text → ℕ → ℕ → Option ((Option Client × Log) × A) → Type 0
    ReadServes a total base fd none = ⊥
    ReadServes a total base fd (some o) = Serves a total base fd o

    after_reading-Serves :
        (o : Option (Option Client × Log)) (a : A) (total : Text) (base fd : ℕ)
        → IsPosix k
        → IsCallback callback Apart
        → Apart a fd
        → Reads total base fd o
        → ReadServes a total base fd (after_reading k callback a o)
    unfolding after_reading scan
    after_reading-Serves none a total base fd posix law apart h = h
    after_reading-Serves (some (none, log)) a total base fd posix law apart h =
        ([], inl refl, rw (append-nil total) h.0, tt, apart)
    after_reading-Serves (some (some c, log)) a total base fd posix law apart h =
        let kept = h.1 in
        rw (← h.0.3, ← h.0.2, ← h.0.1)
          (after_scan-Serves (scan c.request_buf c.request) c log a posix law h.0.0 (rw h.0.1 apart)
            (scan_from-ScanFits (length c.request_buf - 1) 1 0 c.request_buf 2048 c.request
              kept.request_fits kept.buf_fits))

    pub on_read-Serves :
        (c : Client) (log : Log) (a : A)
        → IsPosix k
        → IsCallback callback Apart
        → IsClient c log
        → IsInput c
        → Apart a c.fd
        → ReadServes a
            (sent c.fd log ++ queued c.write_buf)
            c.pevent.base
            c.fd
            (on_read k callback c log a)
    unfolding on_read
    on_read-Serves c log a posix law v i apart =
        after_reading-Serves _ a _ c.pevent.base c.fd posix law apart
          (read_loop-Reads (suc (2048 - length c.request_buf)) c log _ posix v i (omega arith) refl)
