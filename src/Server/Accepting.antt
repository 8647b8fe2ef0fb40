-- ===== src/Server/Accepting.antt =====
-- src/http.c, on_accept: the connections that a server takes.
use camlite.Base.{
  ℕ, suc, ◌+◌, ◌≡◌, refl, ap, sym, ◌∙◌, Bool, true, false, Option, none, some, List, [], ◌∷◌, ◌++◌,
  append-nil, append_assoc, Text, arith,
}
use camlite.Kernel.{Kernel, Log, closings, misc, accepted_fd}
use camlite.Pevent
use camlite.Pevent.{Pevent, Status, ok, failed, pevent_read}
use camlite.Pevent.Watch.{free-unwatched}
use camlite.Http
use camlite.Http.{Client, clear_request, calloc_client, new_with}
use camlite.Server.{Server, Arrival, peer, broken, take_in, after_new, accept_from, set_nonblocking}

-- A connection that was just taken: it waits to read a request.
pub record IsNew (c : Client) : Type 0 where
  pub same_fd : c.pevent.fd ≡ c.fd
  pub reads : c.pevent.state ≡ pevent_read
  pub quiet : c.writing ≡ false
  pub no_delay : c.delay_ptr ≡ 0
  pub no_bytes : c.request_buf ≡ []

abbrev pub AllNew : List Client → Type 0
AllNew [] = Unit
AllNew (c ∷ cs) = IsNew c × AllNew cs

-- The table has grown by new connections at its end.
abbrev pub Grown : Server → Server → Type 0
Grown s s' = (cs : List Client) × (s'.clients ≡ s.clients ++ cs) × AllNew cs

-- What http_client_new gives.
abbrev NewClient : Option Client → Type 0
NewClient none = Unit
NewClient (some c) = IsNew c

abbrev Reads : ℕ → Status × Pevent × Log → Type 0
Reads fd (ok, p, log) = (p.fd ≡ fd) × (p.state ≡ pevent_read)
Reads fd (failed, p, log) = Unit

Grown-refl : (s : Server) → Grown s s
Grown-refl s = ([], sym (append-nil s.clients), tt)

AllNew-append : (cs ds : List Client) → AllNew cs → AllNew ds → AllNew (cs ++ ds)
AllNew-append [] ds a b = b
AllNew-append (c ∷ cs) ds a b = (a.0, AllNew-append cs ds a.1 b)

Grown-trans : (s t u : Server) → Grown s t → Grown t u → Grown s u
Grown-trans s t u (cs, e, a) (ds, f, b) =
    (cs ++ ds, f ∙ ap (λ xs. xs ++ ds) e ∙ append_assoc s.clients cs ds, AllNew-append cs ds a b)

module _ (k : Kernel) where
  set-Reads :
      (base fd addr : ℕ) (log : Log)
      → Reads fd (Pevent.set k (Pevent.new base fd Pevent.on_event addr) pevent_read log)
  unfolding Pevent.set Pevent.new Pevent.signal
  set-Reads base fd addr log = ground arith

  new_with-NewClient :
      (fd : ℕ) (t : Status × Pevent × Log) → Reads fd t → NewClient (new_with fd t k).0
  unfolding new_with calloc_client clear_request
  new_with-NewClient fd (failed, p, log) h = tt
  new_with-NewClient fd (ok, p, log) h = record {
    same_fd = h.0;
    reads = h.1;
    quiet = refl;
    no_delay = refl;
    no_bytes = refl;
  }

  after_new-Grown :
      (s : Server) (fd : ℕ) (ip : Text) (port : ℕ) (o : Option Client × Log)
      → NewClient o.0
      → Grown s (after_new k s fd ip port o).0
  unfolding after_new
  after_new-Grown s fd ip port (none, log) h = Grown-refl s
  after_new-Grown s fd ip port (some c, log) h =
      let c' : Client = record c { ip = ip; port = port } in
      let n : IsNew c' = record {
        same_fd = h.same_fd;
        reads = h.reads;
        quiet = h.quiet;
        no_delay = h.no_delay;
        no_bytes = h.no_bytes;
      } in
      (c' ∷ [], refl, (n, tt))

  take_in-Grown :
      (s : Server) (fd : ℕ) (ip : Text) (port addr : ℕ) (answer : Bool) (log : Log)
      → Grown s (take_in k s fd ip port addr (answer, log)).0
  unfolding take_in Http.new
  take_in-Grown s fd ip port addr false log = Grown-refl s
  take_in-Grown s fd ip port addr true log =
      after_new-Grown s fd ip port (Http.new k s.base fd addr log)
        (new_with-NewClient fd _ (set-Reads s.base fd addr log))

  -- The loop of on_accept, on each queue of connections and whatever fails, leaves the connections of the
  -- server as they are and adds to them only connections that wait to read a request and have nothing to send.
  pub accept_from-Grown :
      (p : Pevent) (queue : List Arrival) (s : Server) (log : Log)
      → Grown s (accept_from k p queue s log).0
  unfolding accept_from set_nonblocking
  accept_from-Grown p [] s log = Grown-refl s
  accept_from-Grown p (broken ∷ queue) s log = Grown-refl s
  accept_from-Grown p (peer fd ip port addr ∷ queue) s log =
      let (answer, log1) = set_nonblocking k fd (misc (accepted_fd p.fd fd) ∷ log) in
      let (s', log') = take_in k s fd ip port addr (answer, log1) in
      Grown-trans s s' (accept_from k p queue s' log').0
        (take_in-Grown s fd ip port addr answer log1) (accept_from-Grown p queue s' log')

  -- Setting a new pevent closes nothing, whatever comes of it.
  set-closings :
      (base fd addr : ℕ) (log : Log)
      → let t = Pevent.set k (Pevent.new base fd Pevent.on_event addr) pevent_read log in
        (t.1.fd ≡ fd) × (closings fd t.2 ≡ closings fd log)
  unfolding Pevent.set Pevent.new Pevent.signal
  set-closings base fd addr log = ground arith

  new_with-closings :
      (fd : ℕ) (t : Status × Pevent × Log)
      → t.1.fd ≡ fd
      → (new_with fd t k).0 ≡ none
      → closings fd (new_with fd t k).1 ≡ suc (closings fd t.2)
  unfolding new_with
  new_with-closings fd (ok, p, log) e n = cc
  new_with-closings fd (failed, p, log) e n =
      ap (λ f. closings f (Pevent.free k p log)) (sym e)
      ∙ (free-unwatched k p log).1
      ∙ ap (λ f. suc (closings f log)) e

  after_new-closings :
      (s : Server) (fd : ℕ) (ip : Text) (port : ℕ) (o : Option Client × Log)
      → o.0 ≡ none
      → closings fd (after_new k s fd ip port o).1 ≡ suc (closings fd o.1)
  unfolding after_new
  after_new-closings s fd ip port (none, log) e = ground arith
  after_new-closings s fd ip port (some c, log) e = cc

  -- A connection that pevent_set refuses is closed twice: by http_client_new, and by on_accept again.
  pub take_in-closings :
      (s : Server) (fd : ℕ) (ip : Text) (port addr : ℕ) (log : Log)
      → (Http.new k s.base fd addr log).0 ≡ none
      → closings fd (take_in k s fd ip port addr (true, log)).1 ≡ closings fd log + 2
  unfolding take_in Http.new
  take_in-closings s fd ip port addr log e =
      let set = set-closings s.base fd addr log in
      let t = Pevent.set k (Pevent.new s.base fd Pevent.on_event addr) pevent_read log in
      let once = new_with-closings fd t set.0 e in
      let twice = after_new-closings s fd ip port (new_with fd t k) e in
      omega (arith, set.1, once, twice)
