-- ===== src/Tests/Programs.antt =====
-- src/camhttp.c, src/util.c, src/camlite.c
use camlite.Base.{
  ℕ, ◌≡◌, refl, Bool, true, not, ◌&&◌, none, some, [], ◌∷◌, ◌++◌, codes, arith, Text, take, pos,
  ◌==◌, if◌then◌else◌,
}
use camlite.Kernel.{
  Kernel, Log, epoll_ctl, closed, reading, writing, hash_add, hash_del, misc, watched,
}
use camlite.Kernel.Quiet.{IsOpener}
use camlite.Http.{Client}
use camlite.Http.Read.Session.{IsCallback}
use camlite.Util.Allocations.{AllocInfo, meminfo_del, meminfo_del-without}
use camlite.Libc.Numbers.{atoi}
use camlite.VideoManager
use camlite.Camhttp.Digests.{Outside}
use camlite.Camhttp.Pages.{App, System, on_reuqest, request_callback, delay_of, scan_control}
use camlite.Camhttp.Pages.Serving.{Served, on_reuqest-Served}
use camlite.Camhttp.Pages.Isolation.{ApartApp, request_callback-IsCallback}
use camlite.Camhttp.Frames.{VideoReadData, Memory, on_send_jpeg}
use camlite.Camhttp.Frames.Delivery.{snapshot, due, reply, on_send_jpeg-due}
use camlite.Program.Main.{Config, Boot, no_digests}
use camlite.Tests.Sample.{slow_kernel, start_log, client}
use camlite.Tests.Cameras.{camera-IsPort, slow_kernel-IsFrugal}
use camlite.Tests.Videos.{table, idle_data, table-IsManager}
use camlite.Tests.Digests.{front}

abbrev pub linux : System
linux = record {
  strerror = λ _. codes "Success";
  statm = λ _. some (codes "250 100");
  stat = λ _. none;
}

abbrev pub app : App
app = record { manager = table idle_data; digests = no_digests }

abbrev asking : Text → Text → Client
asking path param = record client {
  request = record { method = 1; path = path; param = param; host = []; digest = [] };
}

on_reuqest-Served_example :
    Served
      (asking (codes "/snapshot") (codes "0"))
      (on_reuqest slow_kernel front linux (asking (codes "/snapshot") (codes "0")) app start_log)
unfolding scan_control atoi
on_reuqest-Served_example =
    on_reuqest-Served slow_kernel front linux (asking (codes "/snapshot") (codes "0")) app start_log
      (table-IsManager idle_data camera-IsPort) slow_kernel-IsFrugal tt tt

-- A negative number is read before the table.
negative_run :
    on_reuqest slow_kernel front linux (asking (codes "/snapshot") (codes "-1")) app start_log
    ≡ none
unfolding on_reuqest VideoManager.get atoi
negative_run = refl

-- epoll_ctl has not been called on a descriptor.
abbrev unused : ℕ → Log → Bool
unused fd [] = true
unused fd (epoll_ctl b op f ev answer ∷ log) = not (f == fd) && unused fd log
unused fd (closed f ∷ log) = unused fd log
unused fd (reading _ _ _ ∷ log) = unused fd log
unused fd (writing _ _ _ ∷ log) = unused fd log
unused fd (hash_add _ ∷ log) = unused fd log
unused fd (hash_del _ ∷ log) = unused fd log
unused fd (misc _ ∷ log) = unused fd log

unused-watched : (log : Log) (fd base : ℕ) → unused fd log ≡ true → watched base fd log ≡ none
unused-watched [] fd base h = refl
unused-watched (epoll_ctl b op f ev answer ∷ log) fd base h =
    ground (arith, unused-watched log fd base)
unused-watched (closed f ∷ log) fd base h = ground (arith, unused-watched log fd base)
unused-watched (reading _ _ _ ∷ log) fd base h = unused-watched log fd base h
unused-watched (writing _ _ _ ∷ log) fd base h = unused-watched log fd base h
unused-watched (hash_add _ ∷ log) fd base h = unused-watched log fd base h
unused-watched (hash_del _ ∷ log) fd base h = unused-watched log fd base h
unused-watched (misc _ ∷ log) fd base h = unused-watched log fd base h

-- It opens descriptor 9, once.
abbrev pub opening_kernel : Kernel
opening_kernel = record slow_kernel { on_open = λ log _. if unused 9 log then some 9 else none }

pub opening_kernel-IsOpener : IsOpener opening_kernel
opening_kernel-IsOpener = record {
  fresh = λ log path f base e. ground (arith, unused-watched log 9 base);
}

request_callback-IsCallback_example :
    IsCallback (request_callback opening_kernel front linux) ApartApp
request_callback-IsCallback_example =
    request_callback-IsCallback opening_kernel front linux opening_kernel-IsOpener

abbrev frame : VideoReadData
frame = record {
  buf = 255 ∷ 216 ∷ [];
  size = 2;
  timestamp = record { tv_sec = 1; tv_usec = 5 };
  index = 0;
}

on_send_jpeg-due_example :
    on_send_jpeg frame client (delay_of 1 (pos 0)) start_log start_log
    ≡ reply (due snapshot true frame client) start_log start_log
on_send_jpeg-due_example =
    on_send_jpeg-due snapshot frame client 0 start_log start_log (omega arith)

abbrev pub frames : Memory
frames = record {
  bytes = λ _ _ _. 255 ∷ 216 ∷ [];
  timestamp = λ _. record { tv_sec = 1; tv_usec = 5 };
}

abbrev block : ℕ → AllocInfo
block ptr = record { ptr = ptr; size = 8; file = codes "http.c"; function = codes "f"; line = 1 }

meminfo_del-without_example :
    meminfo_del 2 (block 1 ∷ block 2 ∷ block 3 ∷ []) ≡ some (block 1 ∷ block 3 ∷ [])
meminfo_del-without_example = meminfo_del-without 2 (block 1 ∷ block 2 ∷ block 3 ∷ [])

-- The last of three is deleted.
last_run : meminfo_del 3 (block 1 ∷ block 2 ∷ block 3 ∷ []) ≡ none
unfolding meminfo_del
last_run = refl

abbrev sixteen : Outside
sixteen = record { md5 = λ s. take 16 (s ++ codes "................"); inet_addr = λ _. 1 }

abbrev config : Config
config = record {
  device = codes "/dev/video0";
  width = 640;
  height = 480;
  fps = 25;
  timeout = 30;
  port = 8080;
  username = codes "admin";
  password = codes "admin";
}

abbrev boot : Boot
boot = record { signal_works = true; epoll_create = some 3; addr = 7 }
