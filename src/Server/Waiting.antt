-- ===== src/Server/Waiting.antt =====
-- src/http.c, http_server_keeplive_delay_iter: the connections that wait for a frame, and what each is sent.
use camlite.Base.{
  ℕ, suc, ◌≡◌, refl, sym, subst, Bool, true, false, not, ◌&&◌, Option, none, some, List, [], ◌∷◌,
  arith, ◌==◌, if_split, ◌≤◌, length,
}
use camlite.Kernel.{Kernel, Log}
use camlite.Http
use camlite.Http.{Client}
use camlite.Http.Response.{Response, compile}
use camlite.Server.{
  DelayCallback, DelayReply, is_waiting, settle, deliver, serve, keep, count_in, iter, Server,
  keeplive_delay_iter,
}

-- Something is left to do for the connection.
abbrev pub IsBusy : Client → Type 0
IsBusy c = (not c.writing && c.delay_ptr == 0) ≡ false

-- With no response nothing is sent; a response is sent by http_response_compile, which gives `none` where the
-- connection is lost.
abbrev pub Sends : Kernel → Client → Option Response → Log → Option Client × Log → Type 0
Sends k c none log o = o ≡ (some c, log)
Sends k c (some r) log o = o ≡ compile k r c log

-- What becomes of a connection when the callback has answered, with the delay that the callback set.
abbrev pub Answered : {B : Type 0} → Kernel → Client → DelayReply B → Option Client × Log → Type 0
Answered k c reply = Sends k (Http.set_delay c reply.delay) reply.response reply.log

-- How an iteration goes through the connections, with the callback's state and the calls before it, and the
-- connections that it leaves, its count, and the state and the calls after it. A connection that does not wait is
-- passed over as it is, with no call. For one that waits the callback is asked once, with its delay, and its answer is
-- sent; the connection is then kept and counted, if something is left to do for it, or hung up and counted, if not;
-- one that was lost while it was sent its answer is not counted.
pub data Iterates (k : Kernel) {B : Type 0} (callback : DelayCallback B)
    : List Client → B → Log → List Client → ℕ → B → Log → Type 0 where
  finished : {b : B} {log : Log} → Iterates k callback [] b log [] 0 b log
  passed :
      {c : Client} {cs cs' : List Client} {n : ℕ} {b b' : B} {log log' : Log}
      → is_waiting c ≡ false
      → Iterates k callback cs b log cs' n b' log'
      → Iterates k callback (c ∷ cs) b log (c ∷ cs') n b' log'
  kept :
      {c c' : Client} {cs cs' : List Client} {n : ℕ} {b b' : B} {log log' : Log} (log1 : Log)
      → is_waiting c ≡ true
      → Answered k c (callback c c.delay_ptr b log) (some c', log1)
      → IsBusy c'
      → Iterates k callback cs ((callback c c.delay_ptr b log).app) log1 cs' n b' log'
      → Iterates k callback (c ∷ cs) b log (c' ∷ cs') (suc n) b' log'
  ended :
      {c : Client} {cs cs' : List Client} {n : ℕ} {b b' : B} {log log' : Log} (c' : Client)
      (log1 : Log)
      → is_waiting c ≡ true
      → Answered k c (callback c c.delay_ptr b log) (some c', log1)
      → c'.writing ≡ false
      → c'.delay_ptr ≡ 0
      → Iterates k callback cs
          ((callback c c.delay_ptr b log).app)
          (Http.free k c' log1)
          cs'
          n
          b'
          log'
      → Iterates k callback (c ∷ cs) b log cs' (suc n) b' log'
  lost :
      {c : Client} {cs cs' : List Client} {n : ℕ} {b b' : B} {log log' : Log} (log1 : Log)
      → is_waiting c ≡ true
      → Answered k c (callback c c.delay_ptr b log) (none, log1)
      → Iterates k callback cs ((callback c c.delay_ptr b log).app) log1 cs' n b' log'
      → Iterates k callback (c ∷ cs) b log cs' n b' log'

module _ (k : Kernel) {B : Type 0} (callback : DelayCallback B) where
  -- An iteration over connections, as the code makes it
  abbrev Goes : List Client → B → Log → Type 0
  Goes cs b log =
      Iterates k callback cs b log ((iter k callback cs b log).0) ((iter k callback cs b log).1)
        ((iter k callback cs b log).2) ((iter k callback cs b log).3)

  -- A connection that was served, and the iteration over the rest
  abbrev Continues : Client → List Client → B → Log → (Option Client × Bool × Log) × B → Type 0
  Continues c cs b log ((o, counted, log1), b1) =
      Iterates k callback (c ∷ cs) b log (keep o ((iter k callback cs b1 log1).0))
        (count_in counted ((iter k callback cs b1 log1).1)) ((iter k callback cs b1 log1).2)
        ((iter k callback cs b1 log1).3)

  answered :
      (c : Client) (reply : DelayReply B) (response : Option Response) (o : Option Client × Log)
      → reply.response ≡ response
      → Sends k (Http.set_delay c reply.delay) response reply.log o
      → Answered k c reply o
  answered c reply response o e s =
      subst (λ r. Sends k (Http.set_delay c reply.delay) r reply.log o) (sym e) s

  settle-Continues :
      (c : Client) (cs : List Client) (b : B) (log : Log) (o : Option Client × Log)
      → is_waiting c ≡ true
      → Answered k c (callback c c.delay_ptr b log) o
      → ((b1 : B) (log1 : Log) → Goes cs b1 log1)
      → Continues c cs b log (settle k o, (callback c c.delay_ptr b log).app)
  unfolding settle keep count_in
  settle-Continues c cs b log (none, log1) w a go = lost log1 w a (go _ log1)
  settle-Continues c cs b log (some d, log1) w a go =
      if_split (λ x. Continues c cs b log (x, (callback c c.delay_ptr b log).app))
        (not d.writing && d.delay_ptr == 0) _ _
        (λ e. ended d log1 w a (ground arith) (ground arith) (go _ _))
        (λ e. kept log1 w a e (go _ log1))

  deliver-Continues :
      (c : Client) (cs : List Client) (b : B) (log : Log) (response : Option Response)
      → is_waiting c ≡ true
      → (callback c c.delay_ptr b log).response ≡ response
      → ((b1 : B) (log1 : Log) → Goes cs b1 log1)
      → let reply = callback c c.delay_ptr b log in
        Continues c cs b log
          (deliver k (Http.set_delay c reply.delay) response reply.log, reply.app)
  unfolding deliver
  deliver-Continues c cs b log none w e go =
      let reply = callback c c.delay_ptr b log in
      settle-Continues c cs b log (some (Http.set_delay c reply.delay), reply.log) w
        (answered c reply none _ e refl) go
  deliver-Continues c cs b log (some r) w e go =
      let reply = callback c c.delay_ptr b log in
      settle-Continues c cs b log (compile k r (Http.set_delay c reply.delay) reply.log) w
        (answered c reply (some r) _ e refl) go

  iter-Iterates : (cs : List Client) (b : B) (log : Log) → Goes cs b log
  unfolding iter serve keep count_in
  iter-Iterates [] b log = finished
  iter-Iterates (c ∷ cs) b log =
      if_split (Continues c cs b log) (is_waiting c) _ _
        (λ w. deliver-Continues c cs b log _ w refl (λ b1 log1. iter-Iterates cs b1 log1))
        (λ w. passed w (iter-Iterates cs b log))

  Iterates-length :
      (cs : List Client) (b : B) (log : Log) (cs' : List Client) (n : ℕ) (b' : B) (log' : Log)
      → Iterates k callback cs b log cs' n b' log'
      → (length cs' ≤ length cs) × (n ≤ length cs)
  Iterates-length _ _ _ _ _ _ _ finished = (omega arith, omega arith)
  Iterates-length _ _ _ _ _ _ _ (passed w it) =
      let h = Iterates-length _ _ _ _ _ _ _ it in (omega (arith, h), omega (arith, h))
  Iterates-length _ _ _ _ _ _ _ (kept log1 w a e it) =
      let h = Iterates-length _ _ _ _ _ _ _ it in (omega (arith, h), omega (arith, h))
  Iterates-length _ _ _ _ _ _ _ (ended c1 log1 w a e d it) =
      let h = Iterates-length _ _ _ _ _ _ _ it in (omega (arith, h), omega (arith, h))
  Iterates-length _ _ _ _ _ _ _ (lost log1 w a it) =
      let h = Iterates-length _ _ _ _ _ _ _ it in (omega (arith, h), omega (arith, h))

  -- http_server_keeplive_delay_iter, for each callback and whatever the sockets take: the connections are gone through
  -- in order. One that does not wait is passed over unchanged and with no call. For each that waits the callback is
  -- asked once with its delay, in the state that the callback was left in before; its response, if it gives one, is
  -- sent by http_response_compile to the connection with the delay that it set. A connection that then has data to send
  -- or a delay stays and is counted; one that has neither is hung up and counted; one that was lost in sending is not
  -- counted. No connection is added, the count is at most their number, and the listening socket stays.
  pub keeplive_delay_iter-Iterates :
      (s : Server) (b : B) (log : Log)
      → let ((s', n), b', log') = keeplive_delay_iter k callback s b log in
        Iterates k callback s.clients b log s'.clients n b' log'
        × (length s'.clients ≤ length s.clients)
        × (n ≤ length s.clients)
        × (s'.pevent ≡ s.pevent)
  unfolding keeplive_delay_iter
  keeplive_delay_iter-Iterates s b log =
      let it = iter-Iterates s.clients b log in
      let bounds = Iterates-length _ _ _ _ _ _ _ it in (it, bounds.0, bounds.1, refl)
