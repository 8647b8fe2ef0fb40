-- ===== src/Http/Response/Delivery.antt =====
-- src/http.c, http_response_compile: the answer and its data reach the peer as one stream.
use camlite.Base.{
  nil_of_length, ℕ, ◌≡◌, sym, ap, ◌∙◌, Option, none, some, ◌++◌, Text, arith, ◌==◌, length,
  append_assoc, append-nil, if_split,
}
use camlite.Kernel.{Kernel, Log, IsPosix, sent}
use camlite.Http.{Client}
use camlite.Http.Send.{send}
use camlite.Http.Send.Buffer.{queued}
use camlite.Http.Send.Connection.{IsClient, Outcome}
use camlite.Http.Send.Stream.{send-Outcome}
use camlite.Http.Response.{Response, compose, compile, send_extra}

module _ (k : Kernel) where
  send_extra-Outcome :
      (extra : Text) (base fd : ℕ) (o : Option Client × Log) (total : Text)
      → IsPosix k
      → Outcome total base fd o
      → Outcome (total ++ extra) base fd (send_extra k extra o)
  unfolding send_extra
  send_extra-Outcome extra base fd (none, log) total posix (gone, rest, h) = (
    gone,
    rest ++ extra,
    sym (append_assoc (sent fd log) rest extra) ∙ ap (λ (s : Text). s ++ extra) h,
  )
  send_extra-Outcome extra base fd (some c, log) total posix (v, f, b, h) =
      if_split (Outcome (total ++ extra) base fd) (length extra == 0) _ _
        (λ nothing. (
          v,
          f,
          b,
          h
              ∙ sym (append-nil total)
              ∙ ap (λ (s : Text). total ++ s) (sym (nil_of_length extra (ground arith))),
        ))
        (λ more. rw (← f, ← b, ← whole) (send-Outcome k c extra log posix v))
    where
      whole : sent c.fd log ++ (queued c.write_buf ++ extra) ≡ total ++ extra
      whole =
          sym (append_assoc (sent c.fd log) (queued c.write_buf) extra)
          ∙ ap (λ (s : Text). s ++ extra) (ap (λ (n : ℕ). sent n log ++ queued c.write_buf) f ∙ h)

  -- http_response_compile on a sound connection: behind what the connection owed, the peer receives or
  -- the connection holds the composed answer and then the extra data, in order. If a send fails, the
  -- connection is freed, what went out is the front of that, and epoll has forgotten the descriptor.
  pub compile-Outcome :
      (r : Response) (c : Client) (log : Log)
      → IsPosix k
      → IsClient c log
      → Outcome
          (sent c.fd log ++ (queued c.write_buf ++ compose r) ++ r.extra)
          c.pevent.base
          c.fd
          (compile k r c log)
  unfolding compile
  compile-Outcome r c log posix v =
      send_extra-Outcome r.extra c.pevent.base c.fd (send k c (compose r) log) _ posix
        (send-Outcome k c (compose r) log posix v)
