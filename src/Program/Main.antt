-- ===== src/Program/Main.antt =====
-- src/camlite.c: main and signal_handler.
use camlite.Base.{ℕ, ◌%◌, ◌^◌, not, Bool, Option, none, some, List, [], ◌∷◌, Text, if◌then◌else◌}
use camlite.Kernel.{Kernel, Log}
use camlite.Libc.Numbers.{atoi, as_unsigned}
use camlite.Pevent.{Status, ok, failed}
use camlite.Pevent.Loop.{Waited, run, base_cleanup}
use camlite.Server.{Server}
use camlite.VideoManager.{VideoManage, blank, manager_init, add, cleanup}
use camlite.Camhttp.Digests.{Digests, Outside}
use camlite.Camhttp.Pages.{System}
use camlite.Camhttp.Frames.{Memory}
use camlite.Camhttp.Service.{camhttp_start, camhttp_stop}
use camlite.Program.{World, Queue, callback}

-- The variables of main. A negative number goes on as the unsigned one that the driver is given.
pub record Config : Type 0 where
  pub device : Text
  pub width : ℕ
  pub height : ℕ
  pub fps : ℕ
  pub timeout : ℕ
  pub port : ℕ
  pub username : Text
  pub password : Text

-- `argc != 9`, and the eight arguments behind the name of the program; the port is an unsigned short.
unfoldable pub parse_args : List Text → Option Config
unfolding atoi as_unsigned
parse_args (name ∷ device ∷ width ∷ height ∷ fps ∷ timeout ∷ port ∷ username ∷ password ∷ []) =
    some record {
      device = device;
      width = as_unsigned (atoi width);
      height = as_unsigned (atoi height);
      fps = as_unsigned (atoi fps);
      timeout = as_unsigned (atoi timeout);
      port = as_unsigned (atoi port) % 2 ^ 16;
      username = username;
      password = password;
    }
parse_args other = none

-- Whether signal works, what epoll_create1 gives, and the address of the server's block
pub record Boot : Type 0 where
  pub signal_works : Bool
  pub epoll_create : Option ℕ
  pub addr : ℕ

-- g_digest_ha1, g_digest_list and digest_count before they are set
abbrev pub no_digests : Digests
no_digests = record { ha1 = []; list = []; digest_count = 0 }

pub data Started : Type 0 where
  exit_failure : Log → Started
  running : ℕ → World → Started

pub data Ended : Type 0 where
  usage : Ended
  failure : Log → Ended
  success : Log → Ended

module _ (k : Kernel) (o : Outside) where
  unfoldable pub after_add :
      ℕ → Server → Digests → Option (Status × VideoManage × Log) → Option Started
  after_add base s g none = none
  after_add base s g (some (r, m, log)) =
      some
        (running base record { server = s; app = record { manager = m; digests = g }; log = log })

  unfoldable pub after_camhttp :
      ℕ → Config → Option (Status × Server × Digests × Log) → Option Started
  unfolding after_add manager_init
  after_camhttp base c none = none
  after_camhttp base c (some (failed, s, g, log)) = some (exit_failure log)
  after_camhttp base c (some (ok, s, g, log)) =
      after_add base s g
        (add k (manager_init blank base c.timeout) c.device c.width c.height c.fps log)

  unfoldable pub with_base : Option ℕ → ℕ → Config → Log → Option Started
  unfolding after_camhttp
  with_base none addr c log = some (exit_failure log)
  with_base (some base) addr c log =
      after_camhttp base c
        (camhttp_start k o base addr c.port (some c.username) (some c.password) no_digests log)

  -- main, up to its loop. As in Server and VideoManager, an outer `none` is a use of NULL or of a place out of the
  -- table.
  unfoldable pub start_program : Boot → Config → Log → Option Started
  unfolding with_base
  start_program boot c log =
      if not boot.signal_works
      then some (exit_failure log)
      else with_base boot.epoll_create boot.addr c log

  -- signal_handler: it frees the service and the ports, which the variables still point to.
  unfoldable pub signal_handler : World → Log
  signal_handler w = cleanup k w.app.manager (camhttp_stop k o w.server w.log)

  module _ (sys : System) (mem : Memory) (queue : Queue) where
    unfoldable pub after_run : ℕ → Option World → Option Ended
    unfolding base_cleanup
    after_run base none = none
    after_run base (some w) = some (success (base_cleanup base w.log))

    unfoldable pub loop : List Waited → Option Started → Option Ended
    unfolding after_run
    loop waits none = none
    loop waits (some (exit_failure log)) = some (failure log)
    loop waits (some (running base w)) = after_run base (run (callback k o sys mem queue) waits w)

    unfoldable pub run_config : Boot → List Waited → Log → Option Config → Option Ended
    unfolding loop start_program
    run_config boot waits log none = some usage
    run_config boot waits log (some c) = loop waits (start_program boot c log)

    -- main, over what epoll_wait gives
    unfoldable pub main : List Text → Boot → List Waited → Log → Option Ended
    unfolding run_config parse_args
    main argv boot waits log = run_config boot waits log (parse_args argv)
