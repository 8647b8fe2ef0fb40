-- ===== src/Tests/Servers.antt =====
-- src/http.c: the server
use camlite.Base.{ℕ, suc, ◌≡◌, ◌≤◌, refl, true, false, some, none, [], ◌∷◌, codes, arith, length}
use camlite.Kernel.{Kernel, Log, closings, epoll_ctl, ctl_add, epoll_in}
use camlite.Kernel.Quiet.{Quiet-refl, epoll_ctl-Quiet}
use camlite.Http.{Client}
use camlite.Http.Apart.{Quiet-IsClient}
use camlite.Server.Neighbours.{Good, AllGood}
use camlite.Server.Arrivals.{on_accept-AllGood}
use camlite.Server.Serving.{AllServed, on_event-AllServed}
use camlite.Http
use camlite.Server.{
  Server, peer, broken, start, accept_from, take_in, DelayCallback, keeplive_delay_iter, on_accept,
}
use camlite.Pevent
use camlite.Pevent.{Pevent}
use camlite.Server.Listening.{granted, Starts, start-Starts}
use camlite.Server.Accepting.{Grown, accept_from-Grown, take_in-closings}
use camlite.Server.Waiting.{Iterates, keeplive_delay_iter-Iterates}
use camlite.Server.Dispatch.{on_event}
use camlite.Tests.Sample.{
  Free, greeter, slow_kernel-IsPosix, greeter-IsCallback, client-IsClient, client-IsInput,
  slow_kernel, start_log, client, pevent, greeting,
}

abbrev pub server : Server
server = record {
  base = 3;
  ip = codes "0.0.0.0";
  port = 80;
  addr = 7;
  pevent = none;
  clients = client ∷ [];
}

start-Starts_example :
    Starts (granted slow_kernel start_log (some 4)) server (start slow_kernel server start_log)
start-Starts_example = start-Starts slow_kernel server start_log refl (λ fd e. ground arith)

accept_from-Grown_example :
    Grown server
      (accept_from slow_kernel pevent
        (peer 6 (codes "10.0.0.2") 99 8 ∷ broken ∷ [])
        server
        start_log).0
accept_from-Grown_example =
    accept_from-Grown slow_kernel pevent (peer 6 (codes "10.0.0.2") 99 8 ∷ broken ∷ []) server
      start_log

-- epoll_ctl refuses, as it does where the limit of watches is reached.
abbrev full_kernel : Kernel
full_kernel = record slow_kernel { on_epoll_ctl = λ _ _ _ _ _. false }

take_in-closings_example :
    closings 6 (take_in full_kernel server 6 (codes "10.0.0.2") 99 8 (true, start_log)).1 ≡ 2
unfolding Http.new Http.new_with Pevent.set Pevent.signal Pevent.new
take_in-closings_example =
    take_in-closings full_kernel server 6 (codes "10.0.0.2") 99 8 start_log refl

-- A callback that greets and ends the delay.
abbrev greet : DelayCallback ℕ
greet c ptr n log = record { response = some greeting; delay = 0; app = suc n; log = log }

abbrev waiting_server : Server
waiting_server = record server { clients = record client { delay_ptr = 65536 } ∷ client ∷ [] }

keeplive_delay_iter-Iterates_example :
    let ((s', n), b, log) = keeplive_delay_iter slow_kernel greet waiting_server 0 start_log in
    Iterates slow_kernel greet waiting_server.clients 0 start_log s'.clients n b log
    × (length s'.clients ≤ 2)
    × (n ≤ 2)
    × (s'.pevent ≡ none)
keeplive_delay_iter-Iterates_example =
    keeplive_delay_iter-Iterates slow_kernel greet waiting_server 0 start_log

-- A second connection, on descriptor 6
abbrev neighbour : Client
neighbour = record client { fd = 6; pevent = record pevent { fd = 6; ptr = 2 } }

abbrev two_log : Log
two_log = epoll_ctl 3 ctl_add 6 epoll_in true ∷ start_log

abbrev two_clients : Server
two_clients = record server { clients = client ∷ neighbour ∷ [] }

client-Good : Good Free client two_log 0
client-Good = (
  Quiet-IsClient client start_log two_log client-IsClient (
      epoll_ctl-Quiet 5 3 6 ctl_add epoll_in true start_log start_log (λ e. omega (arith, e))
        (Quiet-refl 5 start_log)),
  client-IsInput,
  tt,
)

neighbour-Good : Good Free neighbour two_log 0
neighbour-Good = (
  record {
    sound = record {
      same_fd = refl;
      watch = refl;
      buffer = client-IsClient.sound.buffer;
      limit = client-IsClient.sound.limit;
      idle = client-IsClient.sound.idle;
      busy = client-IsClient.sound.busy;
    };
    mode = refl;
  },
  record { request_fits = client-IsInput.request_fits; buf_fits = client-IsInput.buf_fits },
  tt,
)

-- The first connection's request arrives.
on_event-AllServed_example :
    AllServed slow_kernel greeter Free two_clients
      (on_event slow_kernel greeter two_clients client 1 two_log 0)
on_event-AllServed_example =
    on_event-AllServed slow_kernel greeter Free two_clients client 1 two_log 0 slow_kernel-IsPosix
      greeter-IsCallback client-Good
      (client-Good, ((λ e. omega (arith, e)), tt), (neighbour-Good, tt, tt))

abbrev pub listening : Pevent
listening = record {
  fd = 4;
  state = 1;
  pending = 0;
  base = 3;
  ptr = 7;
  event_callback = Pevent.on_accept;
}

-- A third connection arrives, on descriptor 8.
on_accept-AllGood_example :
    let (s, log) =
      on_accept slow_kernel two_clients listening 1 (peer 8 (codes "10.0.0.2") 99 8 ∷ []) two_log in
    AllGood Free s.clients log 0
on_accept-AllGood_example =
    on_accept-AllGood slow_kernel Free 0 two_clients listening 1
      (peer 8 (codes "10.0.0.2") 99 8 ∷ []) two_log (tt, (λ base. ground arith), tt)
      ((λ e. omega (arith, e)), ((λ e. omega (arith, e)), tt))
      (client-Good, ((λ e. omega (arith, e)), tt), (neighbour-Good, tt, tt))
