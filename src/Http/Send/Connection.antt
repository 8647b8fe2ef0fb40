-- ===== src/Http/Send/Connection.antt =====
-- src/http.c: what holds of a connection between two events, and how it ends.
use camlite.Base.{
  ℕ, ◌≤◌, ◌<◌, ◌≡◌, refl, ap, ◌∙◌, Bool, true, false, Option, none, some, ◌∷◌, ◌++◌, Text,
}
use camlite.Kernel.{Kernel, Log, sent, watched, hash_del}
use camlite.Pevent
use camlite.Pevent.{Pevent, Status, ok, failed}
use camlite.Pevent.Watch.{IsWatched, IsMode, set-IsWatched, free-unwatched}
use camlite.Pevent.Transfer.{sent-set, sent-free, set-fd}
use camlite.Http
use camlite.Http.{Client, http_max_send_buffer}
use camlite.Http.Send.{set_mode, settle}
use camlite.Http.Send.Buffer.{IsBuffer, queued}

-- A connection waits to write exactly while its buffer holds bytes.
pub record IsSound (c : Client) (log : Log) : Type 0 where
  pub same_fd : c.pevent.fd ≡ c.fd
  pub watch : IsWatched c.pevent log
  pub buffer : IsBuffer c.write_buf
  pub limit : c.write_buf.size ≤ http_max_send_buffer
  pub idle : c.writing ≡ false → c.write_buf.size ≡ 0
  pub busy : c.writing ≡ true → c.write_buf.cur < c.write_buf.size

-- The event that a connection waits for.
abbrev pub waits_for : Bool → ℕ
waits_for true = 2
waits_for false = 1

pub record IsClient (c : Client) (log : Log) : Type 0 where
  pub sound : IsSound c log
  pub mode : c.pevent.state ≡ waits_for c.writing

-- `total` is all that the peer is to receive. A connection that lives on has sent or holds all of
-- it, in order. One that has been freed has sent the front of it, and epoll has forgotten it.
abbrev pub Outcome : Text → ℕ → ℕ → Option Client × Log → Type 0
Outcome total base fd (some c, log) =
    IsClient c log
    × (c.fd ≡ fd)
    × (c.pevent.base ≡ base)
    × (sent fd log ++ queued c.write_buf ≡ total)
Outcome total base fd (none, log) =
    (watched base fd log ≡ none) × (rest : Text) × (sent fd log ++ rest ≡ total)

module _ (k : Kernel) where
  pub free-Outcome :
      (c : Client) (log : Log) (rest total : Text) (fd : ℕ)
      → c.pevent.fd ≡ fd
      → sent fd log ++ rest ≡ total
      → Outcome total c.pevent.base fd (none, Http.free k c log)
  unfolding Http.free
  free-Outcome c log rest total fd e h = (
    rw (← e) (free-unwatched k c.pevent (hash_del c.fd ∷ log)).0,
    rest,
    ap (λ (s : Text). s ++ rest) (sent-free k c.pevent (hash_del c.fd ∷ log) fd) ∙ h,
  )

  settle-Outcome :
      (c : Client) (r : Status) (p : Pevent) (log log' : Log) (total : Text)
      → IsSound c log
      → IsWatched p log'
      → (r ≡ ok → p.state ≡ waits_for c.writing)
      → p.fd ≡ c.pevent.fd
      → p.base ≡ c.pevent.base
      → sent c.fd log' ++ queued c.write_buf ≡ total
      → Outcome total c.pevent.base c.fd (settle k c (r, p, log'))
  unfolding settle
  settle-Outcome c ok p log log' total s w m f b h = (
    record {
      sound = record {
        same_fd = f ∙ s.same_fd;
        watch = w;
        buffer = s.buffer;
        limit = s.limit;
        idle = s.idle;
        busy = s.busy;
      };
      mode = m refl;
    },
    refl,
    b,
    h,
  )
  settle-Outcome c failed p log log' total s w m f b h = rw (← b) (
      free-Outcome (record c { pevent = p }) log' (queued c.write_buf) total c.fd (f ∙ s.same_fd) h)

  -- Waiting for the mode of the `writing` flag.
  pub set_mode-Outcome :
      (c : Client) (mode : ℕ) (log : Log) (total : Text)
      → IsSound c log
      → IsMode mode
      → mode ≡ waits_for c.writing
      → sent c.fd log ++ queued c.write_buf ≡ total
      → Outcome total c.pevent.base c.fd (set_mode k c mode log)
  unfolding set_mode
  set_mode-Outcome c mode log total s m e h =
      let (r, p, log') = Pevent.set k c.pevent mode log in
      let w = set-IsWatched k c.pevent mode log m s.watch in
      settle-Outcome c r p log log' total s w.0 (λ good. (w.1 good).0 ∙ e)
        (set-fd k c.pevent mode log).0 (set-fd k c.pevent mode log).1
        (ap (λ (t : Text). t ++ queued c.write_buf) (sent-set k c.pevent mode log c.fd) ∙ h)
