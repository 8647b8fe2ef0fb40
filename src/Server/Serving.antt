-- ===== src/Server/Serving.antt =====
-- src/http.c, on_event: an event keeps the whole table of connections sound.
use camlite.Base.{ℕ, ◌≡◌, ◌≢◌, refl, sym, ◌∙◌, Option, none, some, ◌++◌, Text, ◌==◌, if_split}
use camlite.Kernel.{Kernel, Log, IsPosix, sent}
use camlite.Kernel.Quiet.{Quiet-refl, IsHeld}
use camlite.Pevent.{pevent_read, pevent_write, pevent_error}
use camlite.Http.{Client}
use camlite.Http.Apart.{MayAway, client_free-Quiet, on_write-Away}
use camlite.Http.Send.{on_write}
use camlite.Http.Send.Holding.{MayHold, on_write-Holds}
use camlite.Http.Send.Buffer.{queued}
use camlite.Http.Send.Drain.{Returned, on_write-Returned}
use camlite.Http.Read.{RequestCallback, on_read}
use camlite.Http.Read.Arrays.{IsInput}
use camlite.Http.Read.Session.{IsCallback, ReadServes, on_read-Serves}
use camlite.Http.Read.Neighbours.{MayPass, on_read-Passes}
use camlite.Server.{Server}
use camlite.Server.Dispatch.{with_app, after_client, on_client, on_event}
use camlite.Server.Neighbours.{AllGood, Good, Leaves, Lives, replace-AllGood}

module _ (k : Kernel) {A : Type 0} (callback : RequestCallback A) (Apart : A → ℕ → Type 0) where
  -- The handler returned; the connection is sound or gone, and other descriptors were left alone.
  abbrev pub Became : ℕ → Log → A → Option ((Option Client × Log) × A) → Type 0
  Became fd log a none = ⊥
  Became fd log a (some ((o, log'), a')) = Lives Apart fd o log' a' × Leaves Apart fd log a log' a'

  read-Became :
      (total : Text) (base fd : ℕ) (log : Log) (a : A) (o : Option ((Option Client × Log) × A))
      (law : IsCallback callback Apart)
      → ReadServes k callback Apart a total base fd o
      → ((f : ℕ)
          → fd ≢ f
          → (held : IsHeld f log) → Apart a f
          → MayPass k f log callback Apart law held o)
      → Became fd log a o
  read-Became total base fd log a none law h g = h
  read-Became total base fd log a (some ((none, log'), a')) law h g =
      (tt, λ f n held apart. g f n held apart)
  read-Became total base fd log a (some ((some c, log'), a')) law h g =
      let (text, answers, out, input, apart') = h in
      (
        ((out.0, input, rw out.1 apart'), out.1),
        λ f n held apart. ((g f n held apart).0.0, (g f n held apart).1),
      )

  write-Became :
      (total : Text) (c : Client) (log : Log) (a : A) (o : Option (Option Client × Log))
      → Apart a c.fd
      → IsInput c
      → Returned total c.pevent.base c.fd o
      → MayHold c o
      → ((f : ℕ) → c.fd ≢ f → MayAway f log o)
      → Became c.fd log a (with_app a o)
  unfolding with_app
  write-Became total c log a none apart i h held g = h
  write-Became total c log a (some (none, log')) apart i h held g = (tt, λ f n s x. (g f n, x))
  write-Became total c log a (some (some d, log')) apart i h held g =
      (((h.0, kept, rw h.1 apart), h.1), λ f n s x. ((g f n).0, x))
    where
      kept : IsInput d
      kept = record { request_fits = rw held.1 i.request_fits; buf_fits = rw held.0 i.buf_fits }

  on_client-Became :
      (c : Client) (event : ℕ) (log : Log) (a : A)
      → IsPosix k
      → IsCallback callback Apart
      → Good Apart c log a
      → Became c.fd log a (on_client k callback c event log a)
  unfolding on_client
  on_client-Became c event log a posix law good =
      let S = Became c.fd log a in
      let (v, i, apart) = good in
      let away : (f : ℕ) → c.fd ≢ f → c.pevent.fd ≢ f = λ f n e. n (sym v.sound.same_fd ∙ e) in
      if_split S (event == pevent_error) _ _
        (λ _.
          (tt, λ f n held x. (client_free-Quiet k f log c log (away f n) (Quiet-refl f log), x)))
        (λ _.
          if_split S (event == pevent_read) _ _
            (λ _.
              read-Became (sent c.fd log ++ queued c.write_buf) c.pevent.base c.fd log a
                (on_read k callback c log a) law
                (on_read-Serves k callback Apart c log a posix law v i apart)
                (λ f n held x.
                  on_read-Passes k f log callback Apart law held c log a (away f n)
                    (Quiet-refl f log) x))
            (λ _.
              if_split S (event == pevent_write) _ _
                (λ _.
                  write-Became (sent c.fd log ++ queued c.write_buf) c log a (on_write k c log)
                    apart i (on_write-Returned k c log posix v) (on_write-Holds k c log)
                    (λ f n. on_write-Away k f log c log (away f n) (Quiet-refl f log)))
                (λ _. ((good, refl), λ f n held x. (Quiet-refl f log, x)))))

  -- The table after an event
  abbrev pub AllServed : Server → Option ((Server × Log) × A) → Type 0
  AllServed s none = ⊥
  AllServed s (some ((s', log), a)) = AllGood Apart s'.clients log a × (s'.pevent ≡ s.pevent)

  after_client-AllServed :
      (s : Server) (fd : ℕ) (log : Log) (a : A) (o : Option ((Option Client × Log) × A))
      → Became fd log a o
      → AllGood Apart s.clients log a
      → AllServed s (after_client s fd o)
  unfolding after_client
  after_client-AllServed s fd log a none h g = h
  after_client-AllServed s fd log a (some ((o, log'), a')) h g =
      (replace-AllGood Apart fd o s.clients log log' a a' h.1 h.0 g, refl)

  -- on_event for a sound connection returns, whatever the event, the peers and the answers of the kernel, and keeps the
  -- whole table sound, when the request callback leaves descriptors alone that its own state keeps apart from: every
  -- connection of the table, the one that was handled and all others, has its state in agreement with what epoll
  -- watches, its buffers and request within their arrays, and a descriptor of its own, from which the callback's
  -- state keeps apart. The listening pevent stays.
  pub on_event-AllServed :
      (s : Server) (c : Client) (event : ℕ) (log : Log) (a : A)
      → IsPosix k
      → IsCallback callback Apart
      → Good Apart c log a
      → AllGood Apart s.clients log a
      → AllServed s (on_event k callback s c event log a)
  unfolding on_event
  on_event-AllServed s c event log a posix law good all =
      after_client-AllServed s c.fd log a (on_client k callback c event log a)
        (on_client-Became c event log a posix law good) all
