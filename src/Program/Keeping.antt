-- ===== src/Program/Keeping.antt =====
-- src/camlite.c with the callbacks of src/http.c, src/camhttp.c and src/video_manager.c: what the whole program keeps
-- from one event to the next.
use camlite.Base.{ℕ, ◌≡◌, ◌≢◌, refl, sym, subst, Option, none, some, List, [], ◌∷◌, ◌==◌, if_split}
use camlite.Kernel.{Kernel, Log, IsPosix}
use camlite.Kernel.Quiet.{IsOpener}
use camlite.Pevent.{Pevent, Callback, on_event, on_accept, on_video_event}
use camlite.Pevent.Rounds.{Then}
use camlite.Http.{Client}
use camlite.Http.Read.Session.{IsCallback}
use camlite.Server.{Server}
use camlite.Server.Neighbours.{AllGood, AllGood-renamed, Good, Others}
use camlite.Server.Serving.{AllServed, on_event-AllServed}
use camlite.Server.Arrivals.{AreFresh, on_accept-AllGood, on_accept-pevent}
use camlite.VideoManager.{VideoManage, slot}
use camlite.Camhttp.Digests.{Outside}
use camlite.Camhttp.Pages.{App, System, request_callback}
use camlite.Camhttp.Pages.Isolation.{ApartApp, request_callback-IsCallback}
use camlite.Camhttp.Frames.{Memory}
use camlite.Program.{
  World, Queue, client_at, with_answer, with_frame, client_event, server_event, video_event,
  callback,
}
use camlite.Program.Cameras.{ApartRest, Listens, Fine, MayFine, on_video_event-MayFine}

-- Neither the cameras nor the listening socket are on the descriptor.
abbrev ApartAll : ℕ → Option App → ℕ → Type 0
ApartAll l a fd = ApartApp a fd × (l ≢ fd)

-- The program between two events, with its listening socket on a descriptor: every connection is sound, on a
-- descriptor of its own that no camera is on, nor the listening socket.
abbrev pub Sound : ℕ → World → Type 0
Sound l w = Fine l (w.app.manager, w.server) w.log

-- After an event, if the program stayed within its arrays and its blocks
abbrev pub MaySound : ℕ → Option World → Type 0
MaySound l = Then (Sound l)

listens-Others :
    (l : ℕ) (m : VideoManage) (cs : List Client) (log : Log)
    → AllGood (ApartRest l) cs log m
    → Others l cs
listens-Others l m [] log h = tt
listens-Others l m (c ∷ cs) log h = ((λ e. h.0.2.1 (sym e)), listens-Others l m cs log h.2)

abbrev Found : {A : Type 0} → (A → ℕ → Type 0) → Log → A → Option Client → Type 0
Found Apart log a none = Unit
Found Apart log a (some c) = Good Apart c log a

-- The connection at an address is one of the table.
client_at-Found :
    {A : Type 0} (Apart : A → ℕ → Type 0) (ptr : ℕ) (cs : List Client) (log : Log) (a : A)
    → AllGood Apart cs log a
    → Found Apart log a (client_at ptr cs)
unfolding client_at
client_at-Found Apart ptr [] log a h = tt
client_at-Found Apart ptr (c ∷ cs) log a h =
    if_split (Found Apart log a) (c.pevent.ptr == ptr) _ _ (λ _. h.0)
      (λ _. client_at-Found Apart ptr cs log a h.2)

pages-IsCallback :
    (k : Kernel) (o : Outside) (sys : System) (l : ℕ)
    → IsOpener k
    → IsCallback (request_callback k o sys) (ApartAll l)
pages-IsCallback k o sys l law = record {
  leaves_alone = λ c a log fd held h.
      let q = (request_callback-IsCallback k o sys law).leaves_alone c a log fd held h.0 in
      (q.0, (q.1, h.1));
}

module _ (k : Kernel) (o : Outside) (sys : System) (mem : Memory) (queue : Queue)
    (posix : IsPosix k) (opener : IsOpener k) (l : ℕ) where
  with_answer-MaySound :
      (s : Server) (r : Option ((Server × Log) × Option App))
      → Listens l s.pevent
      → AllServed k (request_callback k o sys) (ApartAll l) s r
      → MaySound l (with_answer r)
  with_answer-MaySound s none n h = tt
  with_answer-MaySound s (some ((s', log), none)) n h = tt
  with_answer-MaySound s (some ((s', log), some a)) n h = (
    AllGood-renamed (ApartAll l) (ApartRest l) s'.clients log (some a) a.manager (λ f x. x) h.0,
    rw h.1 n,
  )

  client_event-MaySound :
      (w : World) (event : ℕ) (found : Option Client)
      → Sound l w
      → Found (ApartAll l) w.log (some w.app) found
      → MaySound l (client_event k o sys mem queue w event found)
  unfolding client_event
  client_event-MaySound w event none h g = tt
  client_event-MaySound w event (some c) h g = with_answer-MaySound w.server _ h.1 (
      on_event-AllServed k (request_callback k o sys) (ApartAll l) w.server c event w.log
        (some w.app) posix (pages-IsCallback k o sys l opener) g
        (AllGood-renamed (ApartRest l) (ApartAll l) w.server.clients w.log w.app.manager
          (some w.app) (λ f x. x) h.0))

  -- The descriptors that accept gives at an event are not in use.
  abbrev pub Takes : World → Option Pevent → Type 0
  Takes w none = Unit
  Takes w (some p) = AreFresh k (ApartRest l) w.app.manager p (queue w.log) w.server w.log

  server_event-MaySound :
      (w : World) (event : ℕ) (listening : Option Pevent)
      → Sound l w
      → w.server.pevent ≡ listening
      → Takes w listening
      → MaySound l (server_event k o sys mem queue w event listening)
  unfolding server_event
  server_event-MaySound w event none h e fresh = tt
  server_event-MaySound w event (some p) h e fresh =
      let on_l : p.fd ≡ l = subst (Listens l) e h.1 in
      (
        on_accept-AllGood k (ApartRest l) w.app.manager w.server p event (queue w.log) w.log fresh
            (rw on_l (listens-Others l w.app.manager w.server.clients w.log h.0)) h.0,
        rw (on_accept-pevent k w.server p event (queue w.log) w.log) h.1,
      )

  with_frame-MaySound :
      (w : World) (r : Option (VideoManage × Server × Log))
      → MayFine k mem posix l r
      → MaySound l (with_frame w r)
  with_frame-MaySound w none h = tt
  with_frame-MaySound w (some (m, s, log)) h = h

  video_event-MaySound :
      (w : World) (i event : ℕ) (watching : Option Pevent)
      → Sound l w
      → MaySound l (video_event k o sys mem queue w i event watching)
  unfolding video_event
  video_event-MaySound w i event none h = tt
  video_event-MaySound w i event (some p) h =
      with_frame-MaySound w _
        (on_video_event-MayFine k mem posix l w.app.manager w.server i event w.log h)

  -- Every callback of the program, for whatever pevent and event, keeps the connections sound, each on a descriptor of
  -- its own, and the cameras and the listening socket off them, if the descriptors that accept gives are not in use.
  pub callback-MaySound :
      (f : Callback) (ptr event : ℕ) (w : World)
      → Sound l w
      → Takes w w.server.pevent
      → MaySound l (callback k o sys mem queue f ptr event w)
  unfolding callback
  callback-MaySound on_event ptr event w h fresh =
      client_event-MaySound w event (client_at ptr w.server.clients) h (
        client_at-Found (ApartAll l) ptr w.server.clients w.log (some w.app) (
          AllGood-renamed (ApartRest l) (ApartAll l) w.server.clients w.log w.app.manager
            (some w.app) (λ f x. x) h.0))
  callback-MaySound on_accept ptr event w h fresh =
      server_event-MaySound w event w.server.pevent h refl fresh
  callback-MaySound on_video_event ptr event w h fresh =
      video_event-MaySound w ptr event (slot w.app.manager ptr).pevent h
