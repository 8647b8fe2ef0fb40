-- ===== src/Http/Send/Stream.antt =====
-- src/http.c, http_client_send and on_write: the peer receives what was sent, in order.
use camlite.Base.{
  nil_of_length, ℕ, ◌+◌, ◌≤◌, ◌≡◌, ◌≢◌, refl, sym, ap, ◌∙◌, Bool, true, false, Option, none, some,
  [], ◌++◌, Text, arith, ◌==◌, ltb, inr, if_split, append-nil, append_assoc, length, take, drop,
  take-append-drop, drop_all,
}
use camlite.Kernel.{Kernel, Log, IsPosix, sent}
use camlite.Pevent
use camlite.Pevent.Transfer.{write_sends, watched-write}
use camlite.Http.{Client, http_max_send_buffer}
use camlite.Http.Send.{send, enqueue, after_write, append}
use camlite.Http.Send.Buffer.{queued, append-IsBuffer}
use camlite.Http.Send.Connection.{IsSound, IsClient, Outcome, free-Outcome, set_mode-Outcome}

-- A connection that does not wait to write holds nothing.
pub queued_idle :
    {c : Client} {log : Log} → IsSound c log → c.writing ≡ false → queued c.write_buf ≡ []
queued_idle {c} {log} s e = rw (s.idle e) (drop_all c.write_buf.cur [] (omega arith))

module _ (k : Kernel) where
  IsClient-write :
      {c : Client} {log : Log} (p : Pevent.Pevent) (buf : Text)
      → IsClient c log
      → IsClient c (Pevent.write k p buf log).1
  IsClient-write {c} {log} p buf v = record {
    sound = record {
      same_fd = v.sound.same_fd;
      watch = watched-write k p buf log c.pevent.base c.pevent.fd ∙ v.sound.watch;
      buffer = v.sound.buffer;
      limit = v.sound.limit;
      idle = v.sound.idle;
      busy = v.sound.busy;
    };
    mode = v.mode;
  }

  -- The buffer with the rest behind it, in a connection that waits to write.
  append-IsSound :
      {c : Client} {log : Log} (rest : Text) (w : Bool)
      → IsClient c log
      → w ≡ true
      → length rest ≢ 0
      → c.write_buf.size + length rest ≤ http_max_send_buffer
      → IsSound (record c { write_buf = append k c.write_buf rest; writing = w }) log
  append-IsSound {c} {log} rest w v e more fits =
      let a = append-IsBuffer k c.write_buf rest v.sound.buffer in
      record {
        same_fd = v.sound.same_fd;
        watch = v.sound.watch;
        buffer = a.0;
        limit = omega (arith, a.2);
        idle = λ e'. cc;
        busy = λ e'. omega (arith, a.2, a.3, v.sound.buffer.cur_size);
      }

  appended :
      {c : Client} {log : Log} (rest total : Text)
      → IsClient c log
      → sent c.fd log ++ (queued c.write_buf ++ rest) ≡ total
      → sent c.fd log ++ queued (append k c.write_buf rest) ≡ total
  appended {c} {log} rest total v h = rw (append-IsBuffer k c.write_buf rest v.sound.buffer).1 h

  nothing_left :
      (c : Client) (log : Log) (rest total : Text)
      → length rest ≡ 0
      → sent c.fd log ++ (queued c.write_buf ++ rest) ≡ total
      → sent c.fd log ++ queued c.write_buf ≡ total
  nothing_left c log rest total e h =
      ap (λ (s : Text). sent c.fd log ++ s) (sym (append-nil (queued c.write_buf)))
      ∙ ap (λ (s : Text). sent c.fd log ++ (queued c.write_buf ++ s)) (sym (nil_of_length rest e))
      ∙ h

  pub enqueue-Outcome :
      (c : Client) (rest : Text) (log : Log) (total : Text)
      → IsClient c log
      → sent c.fd log ++ (queued c.write_buf ++ rest) ≡ total
      → Outcome total c.pevent.base c.fd (enqueue k c rest log)
  unfolding enqueue
  enqueue-Outcome c rest log total v h =
      if_split Owed (length rest == 0) _ _
        (λ all. (v, refl, refl, nothing_left c log rest total (ground arith) h))
        (λ more.
          if_split Owed (ltb http_max_send_buffer (c.write_buf.size + length rest)) _ _
            (λ over. free-Outcome k c log _ total c.fd v.sound.same_fd h)
            (λ fits.
              if_split Owed c.writing _ _
                (λ w. (
                  record {
                    sound = append-IsSound rest c.writing v w (ground arith) (ground arith);
                    mode = v.mode;
                  },
                  refl,
                  refl,
                  appended rest total v h,
                ))
                (λ w.
                  set_mode-Outcome k
                    (record c { write_buf = append k c.write_buf rest; writing = true }) _ log total
                    (append-IsSound rest true v refl (ground arith) (ground arith)) (inr refl) refl
                    (appended rest total v h))))
    where
      Owed : Option Client × Log → Type 0
      Owed = Outcome total c.pevent.base c.fd

  -- The first write of an idle connection, which holds nothing.
  write_first :
      (c : Client) (log : Log) (buf : Text) (n : ℕ) (log' : Log)
      → IsClient c log
      → c.writing ≡ false
      → sent c.fd log' ≡ sent c.fd log ++ take n buf
      → sent c.fd log' ++ (queued c.write_buf ++ drop n buf)
        ≡ sent c.fd log ++ (queued c.write_buf ++ buf)
  write_first c log buf n log' v idle e =
      rw (queued_idle v.sound idle, e)
        (append_assoc (sent c.fd log) (take n buf) (drop n buf)
          ∙ ap (λ (s : Text). sent c.fd log ++ s) (take-append-drop n buf))

  after_write-Outcome :
      (c : Client) (buf : Text) (log log' : Log) (r : Option ℕ)
      → IsClient c log
      → IsClient c log'
      → c.writing ≡ false
      → (r ≡ none → sent c.fd log' ≡ sent c.fd log)
      → ((n : ℕ) → r ≡ some n → sent c.fd log' ≡ sent c.fd log ++ take n buf)
      → Outcome
          (sent c.fd log ++ (queued c.write_buf ++ buf))
          c.pevent.base
          c.fd
          (after_write k c buf (r, log'))
  unfolding after_write
  after_write-Outcome c buf log log' none v v' idle e f =
      free-Outcome k c log' (queued c.write_buf ++ buf) _ c.fd v.sound.same_fd
        (ap (λ (s : Text). s ++ (queued c.write_buf ++ buf)) (e refl))
  after_write-Outcome c buf log log' (some n) v v' idle e f =
      enqueue-Outcome c (drop n buf) log' _ v' (write_first c log buf n log' v idle (f n refl))

  -- http_client_send on a sound connection: the peer has received, or the connection holds, what it
  -- had and then the new bytes, in order and each once. If the connection is freed, by a write error,
  -- a full buffer or a refused epoll_ctl, what went out is the front of that, and epoll has
  -- forgotten the descriptor.
  pub send-Outcome :
      (c : Client) (buf : Text) (log : Log)
      → IsPosix k
      → IsClient c log
      → Outcome (sent c.fd log ++ (queued c.write_buf ++ buf)) c.pevent.base c.fd (send k c buf log)
  unfolding send
  send-Outcome c buf log posix v =
      let w = write_sends k c.pevent buf log posix in
      if_split (Outcome (sent c.fd log ++ (queued c.write_buf ++ buf)) c.pevent.base c.fd) c.writing
        _ _ (λ busy. enqueue-Outcome c buf log _ v refl)
        (λ idle.
          after_write-Outcome c buf log (Pevent.write k c.pevent buf log).1
            (Pevent.write k c.pevent buf log).0 v (IsClient-write c.pevent buf v) idle
            (λ e. rw (← v.sound.same_fd) (w.0 e)) (λ n e. rw (← v.sound.same_fd) (w.1 n e).1))
