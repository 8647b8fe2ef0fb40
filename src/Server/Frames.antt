-- ===== src/Server/Frames.antt =====
-- src/http.c, http_server_keeplive_delay_iter: the whole table of connections stays sound.
use camlite.Base.{
  ℕ, ◌≡◌, ◌≢◌, refl, sym, ◌∙◌, Bool, false, not, ◌&&◌, Option, none, some, List, [], ◌∷◌, Text,
  ◌==◌, if_split,
}
use camlite.Kernel.{Kernel, Log, IsPosix}
use camlite.Kernel.Quiet.{Quiet, Quiet-refl, Quiet-trans}
use camlite.Http
use camlite.Http.{Client}
use camlite.Http.Response.{Response, compile}
use camlite.Http.Response.Delivery.{compile-Outcome}
use camlite.Http.Apart.{Away, client_free-Quiet, compile-Away, Quiet-IsClient}
use camlite.Http.Send.Holding.{Holds, compile-Holds}
use camlite.Http.Send.Connection.{IsClient, Outcome}
use camlite.Http.Read.Arrays.{IsInput}
use camlite.Server.{
  Server, DelayCallback, is_waiting, settle, deliver, serve, keep, count_in, iter,
  keeplive_delay_iter,
}
use camlite.Server.Neighbours.{AllGood-moved, AllGood, Good, Lives, Others}

-- A delay callback makes no call that concerns a descriptor.
pub record IsDelayCallback {B : Type 0} (callback : DelayCallback B) : Type 0 where
  pub makes_no_call : (c : Client) (ptr : ℕ) (b : B) (log : Log) → (callback c ptr b log).log ≡ log

delay-IsClient :
    (c : Client) (delay : ℕ) (log : Log) → IsClient c log → IsClient (Http.set_delay c delay) log
unfolding Http.set_delay
delay-IsClient c delay log v = record {
  sound = record {
    same_fd = v.sound.same_fd;
    watch = v.sound.watch;
    buffer = v.sound.buffer;
    limit = v.sound.limit;
    idle = v.sound.idle;
    busy = v.sound.busy;
  };
  mode = v.mode;
}

held-IsInput :
    (c d : Client)
    → IsInput c
    → (d.request_buf ≡ c.request_buf) × (d.request ≡ c.request)
    → IsInput d
held-IsInput c d i h = record { request_fits = rw h.1 i.request_fits; buf_fits = rw h.0 i.buf_fits }

module _ (k : Kernel) {A : Type 0} (Apart : A → ℕ → Type 0) (a : A) where
  -- What became of a connection, and that other descriptors were left alone
  abbrev pub Stepped : ℕ → Log → Option Client × Bool × Log → Type 0
  Stepped fd log (o, counted, log') =
      Lives Apart fd o log' a × ((f : ℕ) → fd ≢ f → Quiet f log log')

  settle-Stepped :
      (fd : ℕ) (begun : Log) (o : Option Client) (log : Log)
      → Lives Apart fd o log a
      → ((f : ℕ) → fd ≢ f → Quiet f begun log)
      → Stepped fd begun (settle k (o, log))
  unfolding settle
  settle-Stepped fd begun none log l q = (tt, q)
  settle-Stepped fd begun (some c) log l q =
      if_split (Stepped fd begun) (not c.writing && c.delay_ptr == 0) _ _
        (λ _. (
          tt,
          λ f n.
              client_free-Quiet k f begun c log (λ e. n (sym (l.0.0.sound.same_fd ∙ l.1) ∙ e))
                (q f n),
        ))
        (λ _. (l, q))

  compiled :
      (fd : ℕ) (c : Client) (begun : Log) (total : Text) (base : ℕ) (o : Option Client × Log)
      → IsInput c
      → Apart a fd
      → Outcome total base fd o
      → Holds c o
      → ((f : ℕ) → fd ≢ f → Away f begun o)
      → Stepped fd begun (settle k o)
  compiled fd c begun total base (none, log) i apart out held q =
      settle-Stepped fd begun none log tt q
  compiled fd c begun total base (some d, log) i apart out held q =
      settle-Stepped fd begun (some d) log ((out.0, held-IsInput c d i held, rw out.1 apart), out.1)
        (λ f n. (q f n).0)

  deliver-Stepped :
      (c : Client) (r : Option Response) (log : Log)
      → IsPosix k
      → Good Apart c log a
      → Stepped c.fd log (deliver k c r log)
  unfolding deliver
  deliver-Stepped c none log posix g =
      settle-Stepped c.fd log (some c) log (g, refl) (λ f n. Quiet-refl f log)
  deliver-Stepped c (some r) log posix g =
      compiled c.fd c log _ c.pevent.base (compile k r c log) g.1 g.2
        (compile-Outcome k r c log posix g.0) (compile-Holds k c r c log (refl, refl))
        (λ f n.
          compile-Away k f log r c log (λ e. n (sym g.0.sound.same_fd ∙ e)) (Quiet-refl f log))

  -- What an iteration over connections leaves of them
  abbrev pub Iterated : {B : Type 0} → List Client → Log → List Client × ℕ × B × Log → Type 0
  Iterated cs log (cs', n, b, log') =
      AllGood Apart cs' log' a
      × ((f : ℕ) → Others f cs → Quiet f log log')
      × ((f : ℕ) → Others f cs → Others f cs')

  kept :
      (fd : ℕ) (o : Option Client) (rest : List Client) (log log' : Log)
      → Lives Apart fd o log a
      → Quiet fd log log'
      → Others fd rest
      → AllGood Apart rest log' a
      → AllGood Apart (keep o rest) log' a
  unfolding keep
  kept fd none rest log log' l q n g = g
  kept fd (some c) rest log log' l q n g =
      ((Quiet-IsClient c log log' l.0.0 (rw l.1 q), l.0.1, l.0.2), rw l.1 n, g)

  kept-Others :
      (fd f : ℕ) (o : Option Client) (rest : List Client) (log : Log)
      → Lives Apart fd o log a
      → fd ≢ f
      → Others f rest
      → Others f (keep o rest)
  unfolding keep
  kept-Others fd f none rest log l n g = g
  kept-Others fd f (some c) rest log l n g = ((λ e. n (sym l.1 ∙ e)), g)

  module _ {B : Type 0} (callback : DelayCallback B) (posix : IsPosix k)
      (law : IsDelayCallback callback) where
    serve-Stepped :
        (c : Client) (b : B) (log : Log)
        → Good Apart c log a
        → Stepped c.fd log ((serve k callback c (callback c c.delay_ptr b log)).0)
    unfolding serve Http.set_delay
    serve-Stepped c b log g =
        let reply = callback c c.delay_ptr b log in
        rw (law.makes_no_call c c.delay_ptr b log) (
          deliver-Stepped (Http.set_delay c reply.delay) reply.response log posix (
            delay-IsClient c reply.delay log g.0,
            held-IsInput c (Http.set_delay c reply.delay) g.1 (refl, refl),
            g.2,
          ))

    iter-Iterated :
        (cs : List Client) (b : B) (log : Log)
        → AllGood Apart cs log a
        → Iterated cs log (iter k callback cs b log)
    unfolding iter
    iter-Iterated [] b log g = (tt, (λ f n. Quiet-refl f log), λ f n. n)
    iter-Iterated (c ∷ cs) b log g =
        if_split
          (λ (x : (Option Client × Bool × Log) × B). Iterated (c ∷ cs) log (
            keep x.0.0 (iter k callback cs x.1 x.0.2).0,
            count_in x.0.1 (iter k callback cs x.1 x.0.2).1,
            (iter k callback cs x.1 x.0.2).2,
            (iter k callback cs x.1 x.0.2).3,
          ))
          (is_waiting c) (serve k callback c (callback c c.delay_ptr b log))
          ((some c, false, log), b)
          (λ _.
            let x = serve k callback c (callback c c.delay_ptr b log) in
            let s = serve-Stepped c b log g.0 in
            after (x.0.0) (x.0.1) (x.0.2) (x.1) s (
              iter-Iterated cs x.1 x.0.2
                (AllGood-moved Apart c.fd cs log x.0.2 a a (λ f n held h. (s.1 f n, h)) g.1 g.2)))
          (λ _.
            after (some c) false log b ((g.0, refl), λ f n. Quiet-refl f log)
              (iter-Iterated cs b log g.2))
      where
        after :
            (o : Option Client) (counted : Bool) (log1 : Log) (b1 : B)
            → Stepped c.fd log (o, counted, log1)
            → Iterated cs log1 (iter k callback cs b1 log1)
            → Iterated (c ∷ cs) log (
              keep o (iter k callback cs b1 log1).0,
              count_in counted (iter k callback cs b1 log1).1,
              (iter k callback cs b1 log1).2,
              (iter k callback cs b1 log1).3,
            )
        after o counted log1 b1 s h = (
          kept c.fd o _ log1 _ s.0 (h.1 c.fd g.1) (h.2 c.fd g.1) h.0,
          (λ f n. Quiet-trans f log log1 _ (s.1 f n.0) (h.1 f n.1)),
          λ f n. kept-Others c.fd f o _ log1 s.0 n.0 (h.2 f n.1),
        )

    -- http_server_keeplive_delay_iter, with a callback that makes no call, keeps the whole table of connections sound,
    -- each on a descriptor of its own, and leaves every descriptor alone that is not a connection's.
    pub keeplive_delay_iter-AllGood :
        (s : Server) (b : B) (log : Log)
        → AllGood Apart s.clients log a
        → let ((s', n), b', log') = keeplive_delay_iter k callback s b log in
          AllGood Apart s'.clients log' a
          × (s'.pevent ≡ s.pevent)
          × ((f : ℕ) → Others f s.clients → Quiet f log log' × Others f s'.clients)
    unfolding keeplive_delay_iter
    keeplive_delay_iter-AllGood s b log g =
        let h = iter-Iterated s.clients b log g in (h.0, refl, λ f n. (h.1 f n, h.2 f n))
