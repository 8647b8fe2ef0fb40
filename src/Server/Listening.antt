-- ===== src/Server/Listening.antt =====
-- src/http.c, http_server_start: the listening socket.
use camlite.Base.{ℕ, ◌≡◌, refl, Bool, true, false, ◌&&◌, Option, none, some, ◌∷◌, inl}
use camlite.Kernel.{Kernel, Log, misc, socket_made, bound, listening, watched}
use camlite.Pevent
use camlite.Pevent.{Pevent, Status, ok, failed, pevent_read}
use camlite.Pevent.Watch.{IsWatched, set-IsWatched}
use camlite.Server.{
  Server, start, start_with, after_socket, after_bind, after_listen, after_nonblocking, after_set,
  start_error, set_nonblocking,
}

-- Whether the kernel grants the socket, its address, its queue and its mode.
abbrev pub granted : Kernel → Log → Option ℕ → Bool
granted k log none = false
granted k log (some fd) =
    let log1 = misc (socket_made (some fd)) ∷ log in
    let log2 = misc (bound fd true) ∷ log1 in
    let log3 = misc (listening fd true) ∷ log2 in
    k.on_bind log1 fd && (k.on_listen log2 fd && k.on_set_flags log3 fd)

abbrev pub Listens : Option Pevent → Log → Type 0
Listens none log = ⊥
Listens (some p) log = IsWatched p log × (p.state ≡ pevent_read)

-- What http_server_start leaves, by what the kernel granted; `none` is the use of a NULL pointer.
abbrev pub Starts : Bool → Server → Option (Status × Server × Log) → Type 0
Starts up s none = up ≡ false
Starts up s (some (ok, s', log)) = (up ≡ true) × Listens s'.pevent log
Starts up s (some (failed, s', log)) = (up ≡ true) × (s' ≡ s)

module _ (k : Kernel) (s : Server) where
  new-set :
      (fd : ℕ) (log : Log)
      → watched s.base fd log ≡ none
      → let (r, p, log') =
          Pevent.set k (Pevent.new s.base fd Pevent.on_accept s.addr) pevent_read log in
        IsWatched p log' × (r ≡ ok → p.state ≡ pevent_read)
  unfolding Pevent.new
  new-set fd log w =
      let h =
        set-IsWatched k (Pevent.new s.base fd Pevent.on_accept s.addr) pevent_read log (inl refl)
          w in
      (h.0, λ e. (h.1 e).0)

  after_set-Starts :
      (fd : ℕ) (t : Status × Pevent × Log)
      → IsWatched t.1 t.2 × (t.0 ≡ ok → t.1.state ≡ pevent_read)
      → Starts true s (after_set k s fd t)
  unfolding after_set start_error
  after_set-Starts fd (ok, p, log) h = (refl, (h.0, h.1 refl))
  after_set-Starts fd (failed, p, log) h = (refl, refl)

  after_nonblocking-Starts :
      (fd : ℕ) (answer : Bool) (log : Log)
      → watched s.base fd log ≡ none
      → Starts answer s (after_nonblocking k s fd (answer, log))
  unfolding after_nonblocking start_error
  after_nonblocking-Starts fd false log w = refl
  after_nonblocking-Starts fd true log w = after_set-Starts fd _ (new-set fd log w)

  after_listen-Starts :
      (fd : ℕ) (answer : Bool) (log : Log)
      → watched s.base fd log ≡ none
      → Starts (answer && k.on_set_flags log fd) s (after_listen k s fd answer log)
  unfolding after_listen set_nonblocking start_error
  after_listen-Starts fd false log w = refl
  after_listen-Starts fd true log w = after_nonblocking-Starts fd (k.on_set_flags log fd) _ w

  listen-Starts :
      (fd : ℕ) (answer : Bool) (log : Log)
      → watched s.base fd log ≡ none
      → Starts
          (answer && k.on_set_flags (misc (listening fd true) ∷ log) fd)
          s
          (after_listen k s fd answer (misc (listening fd answer) ∷ log))
  listen-Starts fd false log w = after_listen-Starts fd false (misc (listening fd false) ∷ log) w
  listen-Starts fd true log w = after_listen-Starts fd true (misc (listening fd true) ∷ log) w

  bind-Starts :
      (fd : ℕ) (answer : Bool) (log : Log)
      → watched s.base fd log ≡ none
      → let log2 = misc (bound fd true) ∷ log in
        Starts
          (answer && (k.on_listen log2 fd && k.on_set_flags (misc (listening fd true) ∷ log2) fd))
          s
          (after_bind k s fd answer (misc (bound fd answer) ∷ log))
  unfolding after_bind start_error
  bind-Starts fd false log w = refl
  bind-Starts fd true log w =
      listen-Starts fd (k.on_listen (misc (bound fd true) ∷ log) fd) (misc (bound fd true) ∷ log) w

  -- http_server_start of a server that does not listen, where a new socket is not watched yet: if the kernel
  -- refuses the socket, bind, listen or the mode, the function uses a NULL pointer. Otherwise a result of 0
  -- means that the server listens, with epoll watching its socket for reading, and -1 that the server is
  -- as it was.
  pub start-Starts :
      (log : Log)
      → s.pevent ≡ none
      → ((fd : ℕ) → k.on_socket log ≡ some fd → watched s.base fd log ≡ none)
      → Starts (granted k log (k.on_socket log)) s (start k s log)
  unfolding start start_with after_socket start_error
  start-Starts log e fresh = begun s.pevent e
    where
      made :
          (answer : Option ℕ)
          → ((fd : ℕ) → answer ≡ some fd → watched s.base fd log ≡ none)
          → Starts
              (granted k log answer)
              s
              (after_socket k s answer (misc (socket_made answer) ∷ log))
      made none f = refl
      made (some fd) f =
          bind-Starts fd (k.on_bind (misc (socket_made (some fd)) ∷ log) fd)
            (misc (socket_made (some fd)) ∷ log) (f fd refl)

      begun :
          (event : Option Pevent)
          → event ≡ none
          → Starts (granted k log (k.on_socket log)) s (start_with k s event log)
      begun none e' = made (k.on_socket log) fresh
      begun (some p) e' = cc
