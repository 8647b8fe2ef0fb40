-- ===== src/Server.antt =====
-- src/http.c: the listening socket, the connections that it takes, and those that wait for a frame.
pub mod Listening
pub mod Accepting
pub mod Waiting
pub mod Dispatch
pub mod Neighbours
pub mod Serving
pub mod Frames
pub mod Arrivals
use camlite.Base.{
  ℕ, suc, Bool, true, false, not, ◌&&◌, Option, none, some, List, [], ◌∷◌, ◌++◌, Text, ltb, ◌==◌,
  if◌then◌else◌,
}
use camlite.Kernel.{
  Kernel, Log, misc, closed, set_flags, accepted_fd, accept_ends, socket_made, bound, listening,
}
use camlite.Pevent
use camlite.Pevent.{Pevent, Status, ok, failed, pevent_read}
use camlite.Http
use camlite.Http.{Client, set_delay}
use camlite.Http.Response.{Response, compile}

-- `http_server_t`. `addr` stands for the address of its block, and `clients` are the connections of its hash
-- table, in the order of HASH_ITER; its request_callback is a parameter of the code that uses it.
pub record Server : Type 0 where
  pub base : ℕ
  pub ip : Text
  pub port : ℕ
  pub addr : ℕ
  pub pevent : Option Pevent
  pub clients : List Client

-- http_server_create
unfoldable pub create : ℕ → Text → ℕ → ℕ → Server
create base ip port addr = record {
  base = base;
  ip = ip;
  port = port;
  addr = addr;
  pevent = none;
  clients = [];
}

-- What accept takes from the queue of connections: a descriptor with the peer's address and port, and where
-- malloc puts the client; or an error other than EAGAIN.
pub data Arrival : Type 0 where
  peer : ℕ → Text → ℕ → ℕ → Arrival
  broken : Arrival

-- `http_delay_callback`: it may set the client's delay pointer, and has a state and calls of its own.
pub record DelayReply (B : Type 0) : Type 0 where
  pub response : Option Response
  pub delay : ℕ
  pub app : B
  pub log : Log

abbrev pub DelayCallback : Type 0 → Type 0
DelayCallback B = Client → ℕ → B → Log → DelayReply B

-- A connection that waits for a frame.
unfoldable pub is_waiting : Client → Bool
is_waiting c = not (c.delay_ptr == 0) && (not c.writing && not c.reading)

unfoldable pub keep : Option Client → List Client → List Client
keep none cs = cs
keep (some c) cs = c ∷ cs

unfoldable pub count_in : Bool → ℕ → ℕ
count_in true n = suc n
count_in false n = n

module _ (k : Kernel) where
  unfoldable pub set_nonblocking : ℕ → Log → Bool × Log
  set_nonblocking fd log =
      let answer = k.on_set_flags log fd in (answer, misc (set_flags fd answer) ∷ log)

  -- The label __error of http_server_start. An outer `none` is its pevent_free of a NULL pointer.
  unfoldable pub start_error : Server → ℕ → Option Pevent → Log → Option (Status × Server × Log)
  start_error s fd none log = none
  start_error s fd (some p) log = some (failed, s, if ltb 0 fd then closed fd ∷ log else log)

  unfoldable pub after_set : Server → ℕ → Status × Pevent × Log → Option (Status × Server × Log)
  unfolding start_error
  after_set s fd (ok, p, log) = some (ok, record s { pevent = some p }, log)
  after_set s fd (failed, p, log) = start_error s fd (some p) log

  unfoldable pub after_nonblocking : Server → ℕ → Bool × Log → Option (Status × Server × Log)
  unfolding start_error after_set
  after_nonblocking s fd (false, log) = start_error s fd none log
  after_nonblocking s fd (true, log) =
      after_set s fd (Pevent.set k (Pevent.new s.base fd Pevent.on_accept s.addr) pevent_read log)

  unfoldable pub after_listen : Server → ℕ → Bool → Log → Option (Status × Server × Log)
  unfolding start_error after_nonblocking
  after_listen s fd false log = start_error s fd none log
  after_listen s fd true log = after_nonblocking s fd (set_nonblocking fd log)

  unfoldable pub after_bind : Server → ℕ → Bool → Log → Option (Status × Server × Log)
  unfolding start_error after_listen
  after_bind s fd false log = start_error s fd none log
  after_bind s fd true log =
      let answer = k.on_listen log fd in after_listen s fd answer (misc (listening fd answer) ∷ log)

  unfoldable pub after_socket : Server → Option ℕ → Log → Option (Status × Server × Log)
  unfolding start_error after_bind
  after_socket s none log = start_error s 0 none log
  after_socket s (some fd) log =
      let answer = k.on_bind log fd in after_bind s fd answer (misc (bound fd answer) ∷ log)

  unfoldable pub start_with : Server → Option Pevent → Log → Option (Status × Server × Log)
  unfolding after_socket
  start_with s (some p) log = some (failed, s, log)
  start_with s none log =
      let answer = k.on_socket log in after_socket s answer (misc (socket_made answer) ∷ log)

  -- http_server_start
  unfoldable pub start : Server → Log → Option (Status × Server × Log)
  unfolding start_with
  start s log = start_with s s.pevent log

  unfoldable pub stop_with : Server → Option Pevent → Log → Server × Log
  stop_with s none log = (s, log)
  stop_with s (some p) log = (record s { pevent = none }, Pevent.free k p log)

  -- http_server_stop
  unfoldable pub stop : Server → Log → Server × Log
  unfolding stop_with
  stop s log = stop_with s s.pevent log

  -- After http_client_new: a connection that could not be made is closed here as well.
  unfoldable pub after_new : Server → ℕ → Text → ℕ → Option Client × Log → Server × Log
  after_new s fd ip port (none, log) = (s, closed fd ∷ log)
  after_new s fd ip port (some c, log) =
      (record s { clients = s.clients ++ (record c { ip = ip; port = port } ∷ []) }, log)

  -- One connection that accept gave.
  unfoldable pub take_in : Server → ℕ → Text → ℕ → ℕ → Bool × Log → Server × Log
  unfolding after_new
  take_in s fd ip port addr (false, log) = (s, closed fd ∷ log)
  take_in s fd ip port addr (true, log) = after_new s fd ip port (Http.new k s.base fd addr log)

  -- The loop of on_accept, on the connections that are in the queue; then accept says EAGAIN.
  unfoldable pub accept_from : Pevent → List Arrival → Server → Log → Server × Log
  unfolding take_in set_nonblocking
  accept_from p [] s log = (s, misc (accept_ends p.fd) ∷ log)
  accept_from p (broken ∷ queue) s log = (s, misc (accept_ends p.fd) ∷ log)
  accept_from p (peer fd ip port addr ∷ queue) s log =
      let (s', log') =
        take_in s fd ip port addr (set_nonblocking fd (misc (accepted_fd p.fd fd) ∷ log)) in
      accept_from p queue s' log'

  -- on_accept. Any event but PEVENT_READ ends the listening pevent; the server keeps its pointer to it.
  unfoldable pub on_accept : Server → Pevent → ℕ → List Arrival → Log → Server × Log
  unfolding accept_from
  on_accept s p event queue log =
      let taken = accept_from p queue s log in
      if event == pevent_read then taken else (s, Pevent.free k p log)

  -- After the answer is sent: what has neither anything to send nor a delay is hung up. The result says
  -- whether the connection is counted.
  unfoldable pub settle : Option Client × Log → Option Client × Bool × Log
  settle (none, log) = (none, false, log)
  settle (some c, log) =
      if not c.writing && c.delay_ptr == 0
      then (none, true, Http.free k c log)
      else (some c, true, log)

  unfoldable pub deliver : Client → Option Response → Log → Option Client × Bool × Log
  unfolding settle
  deliver c none log = settle (some c, log)
  deliver c (some r) log = settle (compile k r c log)

  module _ {B : Type 0} (callback : DelayCallback B) where
    unfoldable pub serve : Client → DelayReply B → (Option Client × Bool × Log) × B
    unfolding deliver
    serve c reply = (deliver (set_delay c reply.delay) reply.response reply.log, reply.app)

    -- HASH_ITER over the connections, with the count
    unfoldable pub iter : List Client → B → Log → List Client × ℕ × B × Log
    unfolding serve keep count_in
    iter [] b log = ([], 0, b, log)
    iter (c ∷ cs) b log =
        let ((o, counted, log'), b') =
          if is_waiting c
          then serve c (callback c c.delay_ptr b log)
          else ((some c, false, log), b) in
        let (rest, n, b'', log'') = iter cs b' log' in (keep o rest, count_in counted n, b'', log'')

    -- http_server_keeplive_delay_iter
    unfoldable pub keeplive_delay_iter : Server → B → Log → (Server × ℕ) × B × Log
    unfolding iter
    keeplive_delay_iter s b log =
        let (clients, n, b', log') = iter s.clients b log in
        ((record s { clients = clients }, n), b', log')
