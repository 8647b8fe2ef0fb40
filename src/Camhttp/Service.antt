-- ===== src/Camhttp/Service.antt =====
-- src/camhttp.c: the service is started with a login, and stopped.
use camlite.Base.{ℕ, Option, none, some, Text, codes, ◌++◌}
use camlite.Kernel.{Kernel, Log}
use camlite.Pevent.{Status, ok, failed}
use camlite.Server
use camlite.Server.{Server, start, stop}
use camlite.Camhttp.{hex2string}
use camlite.Camhttp.Digests.{Digests, Outside}

-- MD5 of "username:camlite:password", in hexadecimal digits
unfoldable pub login_text : Outside → Text → Text → Text
unfolding hex2string
login_text o username password = hex2string (o.md5 (username ++ (codes ":camlite:" ++ password))) 64

-- Of two strings; a NULL one sets no login.
unfoldable pub set_login : Outside → Option Text → Option Text → Digests → Digests
unfolding login_text
set_login o none password g = g
set_login o (some u) none g = g
set_login o (some u) (some p) g = record g { ha1 = login_text o u p }

module _ (k : Kernel) (o : Outside) where
  unfoldable pub after_server_start :
      Option Text
      → Option Text
      → Digests
      → Option (Status × Server × Log)
      → Option (Status × Server × Digests × Log)
  unfolding set_login
  after_server_start username password g none = none
  after_server_start username password g (some (failed, s, log)) = some (failed, s, g, log)
  after_server_start username password g (some (ok, s, log)) =
      some (ok, s, set_login o username password g, log)

  -- camhttp_start, with the address of the server's block. As in Server, an outer `none` is a free of NULL.
  unfoldable pub camhttp_start :
      ℕ
      → ℕ
      → ℕ
      → Option Text
      → Option Text
      → Digests
      → Log
      → Option (Status × Server × Digests × Log)
  unfolding after_server_start
  camhttp_start base addr port username password g log =
      after_server_start username password g
        (start k (Server.create base (codes "0.0.0.0") port addr) log)

  -- camhttp_stop; http_server_cleanup only frees the block.
  unfoldable pub camhttp_stop : Server → Log → Log
  unfolding stop
  camhttp_stop s log = (stop k s log).1
