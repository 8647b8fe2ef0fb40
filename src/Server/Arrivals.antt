-- ===== src/Server/Arrivals.antt =====
-- src/http.c, on_accept: the connections that are taken leave the whole table sound.
use camlite.Base.{
  ℕ, ◌≡◌, ◌≢◌, refl, ◌∙◌, Bool, true, false, Option, none, some, List, [], ◌∷◌, Text, ◌==◌,
  if_split,
}
use camlite.Kernel.{Kernel, Log, Misc, misc, closed, accepted_fd, accept_ends, watched}
use camlite.Kernel.Quiet.{Quiet, Quiet-refl, misc-Quiet, closed-Quiet}
use camlite.Pevent
use camlite.Pevent.{Pevent, Status, ok, failed, pevent_read}
use camlite.Pevent.Apart.{set-SetQuiet, free-Quiet}
use camlite.Http
use camlite.Http.{Client, calloc_client, clear_request, empty_request, new_with}
use camlite.Http.Making.{Made, set-Armed, new_with-Made, new_with-Quiet}
use camlite.Server.{
  Server, Arrival, peer, broken, take_in, after_new, accept_from, on_accept, set_nonblocking,
}
use camlite.Server.Neighbours.{
  AllGood, AllGood-left, AllGood-moved, Good, Others, append-AllGood, unwatched-Others,
}

module _ (k : Kernel) where
  after_new-pevent :
      (s : Server) (fd : ℕ) (ip : Text) (port : ℕ) (o : Option Client × Log)
      → (after_new k s fd ip port o).0.pevent ≡ s.pevent
  unfolding after_new
  after_new-pevent s fd ip port (none, log) = refl
  after_new-pevent s fd ip port (some c, log) = refl

  take_in-pevent :
      (s : Server) (fd : ℕ) (ip : Text) (port addr : ℕ) (answer : Bool) (log : Log)
      → (take_in k s fd ip port addr (answer, log)).0.pevent ≡ s.pevent
  unfolding take_in
  take_in-pevent s fd ip port addr false log = refl
  take_in-pevent s fd ip port addr true log =
      after_new-pevent s fd ip port (Http.new k s.base fd addr log)

  accept_from-pevent :
      (p : Pevent) (queue : List Arrival) (s : Server) (log : Log)
      → (accept_from k p queue s log).0.pevent ≡ s.pevent
  unfolding accept_from
  accept_from-pevent p [] s log = refl
  accept_from-pevent p (broken ∷ queue) s log = refl
  accept_from-pevent p (peer fd ip port addr ∷ queue) s log =
      accept_from-pevent p queue _ _ ∙ take_in-pevent s fd ip port addr _ _

  -- on_accept leaves the server its pointer to the listening pevent.
  pub on_accept-pevent :
      (s : Server) (p : Pevent) (event : ℕ) (queue : List Arrival) (log : Log)
      → (on_accept k s p event queue log).0.pevent ≡ s.pevent
  unfolding on_accept
  on_accept-pevent s p event queue log =
      if_split (λ (x : Server × Log). x.0.pevent ≡ s.pevent) (event == pevent_read) _ _
        (λ _. accept_from-pevent p queue s log) (λ _. refl)

  module _ {A : Type 0} (Apart : A → ℕ → Type 0) (a : A) where
    named-Good :
        (c : Client) (ip : Text) (port : ℕ) (log : Log)
        → Good Apart c log a
        → Good Apart (record c { ip = ip; port = port }) log a
    named-Good c ip port log g = (
      record {
        sound = record {
          same_fd = g.0.sound.same_fd;
          watch = g.0.sound.watch;
          buffer = g.0.sound.buffer;
          limit = g.0.sound.limit;
          idle = g.0.sound.idle;
          busy = g.0.sound.busy;
        };
        mode = g.0.mode;
      },
      record { request_fits = g.1.request_fits; buf_fits = g.1.buf_fits },
      g.2,
    )

    -- Only the descriptor that was given is touched.
    abbrev Touches : ℕ → Log → Server × Log → Type 0
    Touches fd log (s, log') =
        AllGood Apart s.clients log' a × ((f : ℕ) → fd ≢ f → Quiet f log log')

    closed-Touches :
        (s : Server) (fd : ℕ) (log log' : Log)
        → AllGood Apart s.clients log a
        → Others fd s.clients
        → ((f : ℕ) → fd ≢ f → Quiet f log log')
        → Touches fd log (s, closed fd ∷ log')
    closed-Touches s fd log log' h n q =
        let q' : (f : ℕ) → fd ≢ f → Quiet f log (closed fd ∷ log') =
          λ f m. closed-Quiet f fd log log' m (q f m) in
        (AllGood-moved Apart fd s.clients log _ a a (λ f m held x. (q' f m, x)) n h, q')

    after_new-Touches :
        (s : Server) (fd : ℕ) (ip : Text) (port : ℕ) (log : Log) (o : Option Client × Log)
        → Apart a fd
        → Made fd o
        → ((f : ℕ) → fd ≢ f → Quiet f log o.1)
        → AllGood Apart s.clients log a
        → Others fd s.clients
        → Touches fd log (after_new k s fd ip port o)
    unfolding after_new
    after_new-Touches s fd ip port log (none, log') apart m q h n =
        closed-Touches s fd log log' h n q
    after_new-Touches s fd ip port log (some c, log') apart m q h n = (
      append-AllGood Apart a s.clients (record c { ip = ip; port = port }) log'
          (AllGood-moved Apart fd s.clients log log' a a (λ f l held x. (q f l, x)) n h)
          (named-Good c ip port log' (m.0, m.1, rw m.2 apart)) (rw m.2 n),
      q,
    )

    take_in-Touches :
        (s : Server) (fd : ℕ) (ip : Text) (port addr : ℕ) (answer : Bool) (log : Log)
        → Apart a fd
        → ((base : ℕ) → watched base fd log ≡ none)
        → AllGood Apart s.clients log a
        → Touches fd log (take_in k s fd ip port addr (answer, log))
    unfolding take_in Http.new Pevent.new
    take_in-Touches s fd ip port addr false log apart free h =
        closed-Touches s fd log log h (unwatched-Others Apart a fd s.clients log free h)
          (λ f m. Quiet-refl f log)
    take_in-Touches s fd ip port addr true log apart free h =
        let p = Pevent.new s.base fd Pevent.on_event addr in
        after_new-Touches s fd ip port log (Http.new k s.base fd addr log) apart
          (new_with-Made k fd _ (set-Armed k s.base fd addr log (free s.base)))
          (λ f m.
            new_with-Quiet k fd f log _ m
              (set-SetQuiet k f log p pevent_read log m (Quiet-refl f log)))
          h (unwatched-Others Apart a fd s.clients log free h)

    -- The calls before http_client_new
    abbrev pub prepared : Pevent → ℕ → Log → Bool × Log
    prepared p fd log = set_nonblocking k fd (misc (accepted_fd p.fd fd) ∷ log)

    -- What the manual page of accept promises of a queue of connections: each descriptor that it gives is not in use,
    -- so that epoll does not watch it and nothing of the rest of the state is on it.
    abbrev pub AreFresh : Pevent → List Arrival → Server → Log → Type 0
    AreFresh p [] s log = Unit
    AreFresh p (broken ∷ queue) s log = Unit
    AreFresh p (peer fd ip port addr ∷ queue) s log =
        Apart a fd
        × ((base : ℕ) → watched base fd log ≡ none)
        × AreFresh p queue ((take_in k s fd ip port addr (prepared p fd log)).0)
            ((take_in k s fd ip port addr (prepared p fd log)).1)

    logged :
        (cs : List Client) (log : Log) (m : Misc)
        → AllGood Apart cs log a
        → AllGood Apart cs (misc m ∷ log) a
    logged cs log m h =
        AllGood-left Apart cs log _ a a (λ f held x. (misc-Quiet f log log m (Quiet-refl f log), x))
          h

    entered :
        (p : Pevent) (s : Server) (fd : ℕ) (ip : Text) (port addr : ℕ) (log : Log)
        → Apart a fd
        → ((base : ℕ) → watched base fd log ≡ none)
        → AllGood Apart s.clients log a
        → let (s', log') = take_in k s fd ip port addr (prepared p fd log) in
          AllGood Apart s'.clients log' a
    unfolding set_nonblocking
    entered p s fd ip port addr log apart free h =
        (take_in-Touches s fd ip port addr ((prepared p fd log).0) ((prepared p fd log).1) apart
          free (logged s.clients _ _ (logged s.clients log _ h))).0

    accept_from-AllGood :
        (p : Pevent) (queue : List Arrival) (s : Server) (log : Log)
        → AreFresh p queue s log
        → AllGood Apart s.clients log a
        → let (s', log') = accept_from k p queue s log in AllGood Apart s'.clients log' a
    unfolding accept_from
    accept_from-AllGood p [] s log fresh h = logged s.clients log (accept_ends p.fd) h
    accept_from-AllGood p (broken ∷ queue) s log fresh h = logged s.clients log (accept_ends p.fd) h
    accept_from-AllGood p (peer fd ip port addr ∷ queue) s log fresh h =
        accept_from-AllGood p queue _ _ fresh.2 (entered p s fd ip port addr log fresh.0 fresh.1 h)

    -- on_accept with descriptors that are not in use keeps the whole table sound: every connection that it had and every
    -- one that it takes, whatever fails on the way. On any other event than PEVENT_READ it frees the listening pevent,
    -- which is on none of the connections' descriptors.
    pub on_accept-AllGood :
        (s : Server) (p : Pevent) (event : ℕ) (queue : List Arrival) (log : Log)
        → AreFresh p queue s log
        → Others p.fd s.clients
        → AllGood Apart s.clients log a
        → let (s', log') = on_accept k s p event queue log in AllGood Apart s'.clients log' a
    unfolding on_accept
    on_accept-AllGood s p event queue log fresh n h =
        if_split (λ (x : Server × Log). AllGood Apart x.0.clients x.1 a) (event == pevent_read) _ _
          (λ _. accept_from-AllGood p queue s log fresh h)
          (λ _.
            AllGood-moved Apart p.fd s.clients log _ a a
              (λ f m held x. (free-Quiet k f log p log m (Quiet-refl f log), x)) n h)
