-- ===== src/Server/Dispatch.antt =====
-- src/http.c, on_event: an event goes to its connection, and the table follows what becomes of it.
use camlite.Base.{
  ℕ, ◌≡◌, refl, Bool, true, false, Option, none, some, List, [], ◌∷◌, ◌++◌, Text, arith, ◌==◌,
  if◌then◌else◌, if_split,
}
use camlite.Kernel.{Kernel, Log, IsPosix, watched, sent}
use camlite.Pevent.{pevent_read, pevent_write, pevent_error}
use camlite.Http
use camlite.Http.{Client}
use camlite.Http.Send.{on_write}
use camlite.Http.Send.Buffer.{queued}
use camlite.Http.Send.Connection.{IsClient, Outcome, free-Outcome}
use camlite.Http.Send.Drain.{Returned, on_write-Returned}
use camlite.Http.Read.{RequestCallback, on_read}
use camlite.Http.Read.Arrays.{IsInput}
use camlite.Http.Read.Session.{IsCallback, ReadServes, on_read-Serves}
use camlite.Server.{Server, keep}

-- The connection's place in the table, after a handler.
unfoldable pub replace : ℕ → Option Client → List Client → List Client
unfolding keep
replace fd o [] = []
replace fd o (c ∷ cs) = let rest = replace fd o cs in if c.fd == fd then keep o cs else c ∷ rest

unfoldable pub with_app :
    {A : Type 0} → A → Option (Option Client × Log) → Option ((Option Client × Log) × A)
with_app a none = none
with_app a (some o) = some (o, a)

unfoldable pub after_client :
    {A : Type 0} → Server → ℕ → Option ((Option Client × Log) × A) → Option ((Server × Log) × A)
unfolding replace
after_client s fd none = none
after_client s fd (some ((o, log), a)) =
    some ((record s { clients = replace fd o s.clients }, log), a)

module _ (k : Kernel) {A : Type 0} (callback : RequestCallback A) where
  -- The switch over the event.
  unfoldable pub on_client : Client → ℕ → Log → A → Option ((Option Client × Log) × A)
  unfolding with_app
  on_client c event log a =
      if event == pevent_error
      then some ((none, Http.free k c log), a)
      else if event == pevent_read
      then on_read k callback c log a
      else if event == pevent_write
      then with_app a (on_write k c log)
      else some ((some c, log), a)

  -- on_event for a connection of the table
  unfoldable pub on_event : Server → Client → ℕ → Log → A → Option ((Server × Log) × A)
  unfolding after_client
  on_event s c event log a = after_client s c.fd (on_client c event log a)

-- What became of the connection: it is sound, on its descriptor, or epoll has forgotten the descriptor.
abbrev pub Fate : ℕ → ℕ → Option Client → Log → Type 0
Fate base fd (some c) log = IsClient c log × (c.fd ≡ fd)
Fate base fd none log = watched base fd log ≡ none

-- The connections on other descriptors.
abbrev pub without : ℕ → List Client → List Client
without fd [] = []
without fd (c ∷ cs) = let rest = without fd cs in if c.fd == fd then rest else c ∷ rest

abbrev Settles : {A : Type 0} → ℕ → ℕ → Option ((Option Client × Log) × A) → Type 0
Settles base fd none = ⊥
Settles base fd (some ((o, log), a)) = Fate base fd o log

-- After on_event: the connection has its fate, the table holds what it has become, and the others stay.
abbrev pub Dispatched : {A : Type 0} → Server → ℕ → ℕ → Option ((Server × Log) × A) → Type 0
Dispatched s base fd none = ⊥
Dispatched s base fd (some ((s', log), a)) =
    (o : Option Client) × Fate base fd o log
    × (s'.clients ≡ replace fd o s.clients)
    × (without fd s'.clients ≡ without fd s.clients)
    × (s'.pevent ≡ s.pevent)

Outcome-Fate :
    (total : Text) (base fd : ℕ) (o : Option Client) (log : Log)
    → Outcome total base fd (o, log)
    → Fate base fd o log
Outcome-Fate total base fd (some c) log h = (h.0, h.1)
Outcome-Fate total base fd none log h = h.0

keep-without :
    (fd : ℕ) (o : Option Client) (cs : List Client) (base : ℕ) (log : Log)
    → Fate base fd o log
    → without fd (keep o cs) ≡ without fd cs
unfolding keep
keep-without fd none cs base log h = refl
keep-without fd (some c) cs base log h =
    if_split (λ (x : List Client). x ≡ without fd cs) (c.fd == fd) _ _ (λ _. refl)
      (λ e. absurd (ground (arith, h.1)))

without-replace :
    (fd : ℕ) (o : Option Client) (cs : List Client) (base : ℕ) (log : Log)
    → Fate base fd o log
    → without fd (replace fd o cs) ≡ without fd cs
unfolding replace
without-replace fd o [] base log h = refl
without-replace fd o (c ∷ cs) base log h =
    split (c.fd == fd) refl (without-replace fd o cs base log h)
  where
    split :
        (b : Bool)
        → (c.fd == fd) ≡ b
        → without fd (replace fd o cs) ≡ without fd cs
        → without fd (if b then keep o cs else c ∷ replace fd o cs)
          ≡ (if b then without fd cs else c ∷ without fd cs)
    split true e rest = keep-without fd o cs base log h
    split false e rest = rw (e, rest) refl

module _ (k : Kernel) {A : Type 0} (callback : RequestCallback A) (Apart : A → ℕ → Type 0) where
  after_client-Dispatched :
      (s : Server) (base fd : ℕ) (o : Option ((Option Client × Log) × A))
      → Settles base fd o
      → Dispatched s base fd (after_client s fd o)
  unfolding after_client
  after_client-Dispatched s base fd none h = h
  after_client-Dispatched s base fd (some ((o, log), a)) h =
      (o, h, refl, without-replace fd o s.clients base log h, refl)

  read-Settles :
      (a : A) (total : Text) (base fd : ℕ) (o : Option ((Option Client × Log) × A))
      → ReadServes k callback Apart a total base fd o
      → Settles base fd o
  read-Settles a total base fd none h = h
  read-Settles a total base fd (some ((o, log), a')) h =
      Outcome-Fate (total ++ h.0) base fd o log h.2

  write-Settles :
      (a : A) (total : Text) (base fd : ℕ) (o : Option (Option Client × Log))
      → Returned total base fd o
      → Settles base fd (with_app a o)
  unfolding with_app
  write-Settles a total base fd none h = h
  write-Settles a total base fd (some (o, log)) h = Outcome-Fate total base fd o log h

  on_client-Settles :
      (c : Client) (event : ℕ) (log : Log) (a : A)
      → IsPosix k
      → IsCallback callback Apart
      → IsClient c log
      → IsInput c
      → Apart a c.fd
      → Settles c.pevent.base c.fd (on_client k callback c event log a)
  unfolding on_client
  on_client-Settles c event log a posix law v i apart =
      let total = sent c.fd log ++ queued c.write_buf in
      let S = Settles {A = A} c.pevent.base c.fd in
      if_split S (event == pevent_error) _ _
        (λ _.
          Outcome-Fate total c.pevent.base c.fd none (Http.free k c log)
            (free-Outcome k c log (queued c.write_buf) total c.fd v.sound.same_fd refl))
        (λ _.
          if_split S (event == pevent_read) _ _
            (λ _.
              read-Settles a total c.pevent.base c.fd _
                (on_read-Serves k callback Apart c log a posix law v i apart))
            (λ _.
              if_split S (event == pevent_write) _ _
                (λ _.
                  write-Settles a total c.pevent.base c.fd _ (on_write-Returned k c log posix v))
                (λ _. (v, refl))))

  -- on_event for a sound connection, with a request callback that leaves the connection's descriptor alone,
  -- returns, whatever the event, the peer and the answers of the kernel.
  -- The connection is sound afterwards and in its place in the table, or epoll has forgotten its
  -- descriptor and it is taken out of the table; the connections on other descriptors stay in the table
  -- as they are, in order, and the listening pevent stays.
  pub on_event-Dispatched :
      (s : Server) (c : Client) (event : ℕ) (log : Log) (a : A)
      → IsPosix k
      → IsCallback callback Apart
      → IsClient c log
      → IsInput c
      → Apart a c.fd
      → Dispatched s c.pevent.base c.fd (on_event k callback s c event log a)
  unfolding on_event
  on_event-Dispatched s c event log a posix law v i apart =
      after_client-Dispatched s c.pevent.base c.fd (on_client k callback c event log a)
        (on_client-Settles c event log a posix law v i apart)
