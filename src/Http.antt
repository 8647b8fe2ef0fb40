-- ===== src/Http.antt =====
-- src/http.c, src/http.h: a connection of the HTTP server, and its life.
-- A client's `service` and `hh` are the server's table, which is the log's hash_add and hash_del.
pub mod Send
pub mod Response
pub mod Parse
pub mod Read
pub mod Apart
pub mod Making
use camlite.Base.{
  ℕ, Bool, true, false, Option, none, some, [], ◌∷◌, Text, if◌then◌else◌, length, ◌*◌,
}
use camlite.Kernel.{Kernel, Log, hash_add, hash_del}
use camlite.Pevent
use camlite.Pevent.{Pevent, Status, ok, failed, pevent_read, Callback, on_event}

abbrev pub http_method_get : ℕ
http_method_get = 1

abbrev pub http_method_post : ℕ
http_method_post = 2

abbrev pub http_max_string_size : ℕ
http_max_string_size = 2048

abbrev pub http_max_header : ℕ
http_max_header = 10

abbrev pub http_max_send_buffer : ℕ
http_max_send_buffer = 200 * 1024

-- `http_request_t`: its arrays as C strings; `client` is the connection that holds it.
pub record Request : Type 0 where
  pub method : ℕ
  pub path : Text
  pub param : Text
  pub host : Text
  pub digest : Text

-- `io_buffer_t`: `buf` is NULL or a block of `max` bytes.
pub record IoBuffer : Type 0 where
  pub buf : Option Text
  pub size : ℕ
  pub max : ℕ
  pub cur : ℕ

-- `http_client_t`. `request_buf` is the part of the array before `request_buf_cur`, which is its
-- length. A `delay_ptr` of 0 is NULL.
pub record Client : Type 0 where
  pub fd : ℕ
  pub pevent : Pevent
  pub ip : Text
  pub port : ℕ
  pub delay_ptr : ℕ
  pub reading : Bool
  pub writing : Bool
  pub write_buf : IoBuffer
  pub request_buf : Text
  pub request_header_compile : Bool
  pub request : Request

abbrev pub empty_request : Request
empty_request = record { method = 0; path = []; param = []; host = []; digest = [] }

abbrev pub empty_buffer : IoBuffer
empty_buffer = record { buf = none; size = 0; max = 0; cur = 0 }

unfoldable pub clear_request : Client → Client
clear_request c = record c { request = empty_request }

-- http_client_set_delay
unfoldable pub set_delay : Client → ℕ → Client
set_delay c ptr = record c { delay_ptr = ptr }

-- http_client_getip and http_client_getport
unfoldable pub getip : Client → Text
getip c = c.ip

unfoldable pub getport : Client → ℕ
getport c = c.port

-- fcalloc
unfoldable pub calloc_client : ℕ → Pevent → Client
calloc_client fd p = record {
  fd = fd;
  pevent = p;
  ip = [];
  port = 0;
  delay_ptr = 0;
  reading = false;
  writing = false;
  write_buf = empty_buffer;
  request_buf = [];
  request_header_compile = false;
  request = empty_request;
}

-- http_client_new: `none` is NULL. `base` is the server's, `addr` the block's address.
unfoldable pub new_with : ℕ → Status × Pevent × Log → Kernel → Option Client × Log
unfolding calloc_client clear_request
new_with fd (ok, p, log) k = (some (clear_request (calloc_client fd p)), hash_add fd ∷ log)
new_with fd (failed, p, log) k = (none, Pevent.free k p log)

unfoldable pub new : Kernel → ℕ → ℕ → ℕ → Log → Option Client × Log
unfolding new_with
new k base fd addr log =
    new_with fd (Pevent.set k (Pevent.new base fd on_event addr) pevent_read log) k

-- http_client_free: the blocks go with the record.
unfoldable pub free : Kernel → Client → Log → Log
free k c log = Pevent.free k c.pevent (hash_del c.fd ∷ log)
