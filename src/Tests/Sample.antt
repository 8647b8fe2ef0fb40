-- ===== src/Tests/Sample.antt =====
-- A kernel, a connection and requests to run the code on.
use camlite.Base.{
  ℕ, suc, ◌≤◌, ◌≡◌, refl, true, false, some, [], ◌∷◌, ◌++◌, Text, codes, arith, length, take, min,
  length-take,
}
use camlite.Kernel.{
  IoctlData, IoctlReply, Kernel, Log, IsPosix, Received, Written, epoll_ctl, ctl_add, ctl_mod,
  epoll_in, epoll_out, reading,
}
use camlite.Kernel.Quiet.{Quiet-refl}
use camlite.Pevent.{Pevent, on_event}
use camlite.Http.{Client, empty_request, empty_buffer}
use camlite.Http.Send.Connection.{IsClient}
use camlite.Http.Read.{RequestCallback}
use camlite.Http.Read.Session.{IsCallback}
use camlite.Http.Read.Arrays.{IsInput}
use camlite.Http.Response.{Response}

abbrev pub request_text : Text
request_text = codes "GET /stream?0 HTTP/1.1" ++ (13 ∷ 10 ∷ 13 ∷ 10 ∷ [])

-- The request arrives at the first read, and nothing after it.
abbrev pub arriving : Log → ℕ → Received
arriving (reading fd size answer ∷ log) n = Received.again
arriving [] n = Received.bytes (take n request_text)
arriving (call ∷ log) n = Received.bytes (take n request_text)

-- What a driver with one buffer fills in.
abbrev pub reply : IoctlData
reply = record {
  streaming = true;
  text = codes "MJPG";
  count = 1;
  size = 8;
  offset = 0;
  index = 0;
  numerator = 1;
  denominator = 25;
}

-- Each write takes up to four bytes; epoll_ctl works.
abbrev pub slow_kernel : Kernel
slow_kernel = record {
  on_epoll_ctl = λ _ _ _ _ _. true;
  on_read = λ log _ size. arriving log size;
  on_write = λ _ _ b. Written.taken (min 4 (length b));
  noise = λ _. 170;
  errno = λ _. 0;
  on_open = λ _ _. some 9;
  on_ioctl = λ _ _ _. (0, IoctlReply.done reply);
  on_mmap = λ _ _ _ _. some 4096;
  on_time = λ _. 100;
  on_set_flags = λ _ _. true;
  on_socket = λ _. some 4;
  on_bind = λ _ _. true;
  on_listen = λ _ _. true;
}

arriving_within : (log : Log) (n : ℕ) (b : Text) → arriving log n ≡ Received.bytes b → length b ≤ n
arriving_within [] n b e = ground (arith, length-take n request_text)
arriving_within (reading fd size answer ∷ log) n b e = cc
arriving_within (call ∷ log) n b e = ground (arith, length-take n request_text)

pub slow_kernel-IsPosix : IsPosix slow_kernel
slow_kernel-IsPosix = record {
  write_within = λ log fd b n e. ground arith;
  read_within = λ log fd size b e. arriving_within log size b e;
}

abbrev pub start_log : Log
start_log = epoll_ctl 3 ctl_add 5 epoll_in true ∷ []

abbrev pub pevent : Pevent
pevent = record { fd = 5; state = 1; pending = 0; base = 3; ptr = 1; event_callback = on_event }

abbrev pub client : Client
client = record {
  fd = 5;
  pevent = pevent;
  ip = codes "10.0.0.1";
  port = 80;
  delay_ptr = 0;
  reading = false;
  writing = false;
  write_buf = empty_buffer;
  request_buf = [];
  request_header_compile = false;
  request = empty_request;
}

pub client-IsClient : IsClient client start_log
client-IsClient = record {
  sound = record {
    same_fd = refl;
    watch = refl;
    buffer = record { block = refl; cur_size = omega arith; size_max = omega arith };
    limit = omega arith;
    idle = λ _. refl;
    busy = λ e. cc;
  };
  mode = refl;
}

pub client-IsInput : IsInput client
client-IsInput = record {
  request_fits = record {
    path_fits = omega arith;
    param_fits = omega arith;
    host_fits = omega arith;
    digest_fits = omega arith;
  };
  buf_fits = omega arith;
}

abbrev pub greeting : Response
greeting = record { code = 200; headers = []; body = codes "hello"; extra = 1 ∷ 2 ∷ [] }

-- A callback that greets, and counts its calls.
abbrev pub greeter : RequestCallback ℕ
greeter c n log = record { response = some greeting; delay = c.delay_ptr; app = suc n; log = log }

-- The greeter has nothing on a descriptor.
abbrev pub Free : ℕ → ℕ → Type 0
Free n fd = Unit

pub greeter-IsCallback : IsCallback greeter Free
greeter-IsCallback = record { leaves_alone = λ c a log fd held h. (Quiet-refl fd log, tt) }

abbrev pub write_log : Log
write_log = epoll_ctl 3 ctl_mod 5 epoll_out true ∷ start_log

-- A connection with six bytes left of eight.
abbrev pub busy_client : Client
busy_client = record client {
  pevent = record pevent { state = 2 };
  writing = true;
  write_buf = record {
    buf = some (1 ∷ 2 ∷ 3 ∷ 4 ∷ 5 ∷ 6 ∷ 7 ∷ 8 ∷ 0 ∷ 0 ∷ []);
    size = 8;
    max = 10;
    cur = 2;
  };
}

pub busy_client-IsClient : IsClient busy_client write_log
busy_client-IsClient = record {
  sound = record {
    same_fd = refl;
    watch = refl;
    buffer = record { block = refl; cur_size = omega arith; size_max = omega arith };
    limit = omega arith;
    idle = λ e. cc;
    busy = λ _. omega arith;
  };
  mode = refl;
}
