-- ===== src/Http/Send/Drain.antt =====
-- src/http.c, on_write: the loop ends, and loses and repeats nothing.
use camlite.Base.{
  ℕ, zero, suc, ◌-◌, ◌≤◌, ◌<◌, ◌≡◌, refl, sym, ap, ◌∙◌, true, Option, none, some, [], false≢true,
  ◌++◌, Text, arith, ◌==◌, leb, inl, if_split, append-nil, append_assoc, length, take, drop,
  take-append-drop, drop-drop, drop_all, length-take, length-drop,
}
use camlite.Kernel.{Kernel, Log, IsPosix, sent}
use camlite.Pevent
use camlite.Pevent.Watch.{IsWatched}
use camlite.Pevent.Transfer.{write_sends, watched-write}
use camlite.Http.{Client, http_max_send_buffer}
use camlite.Http.Send.{on_write, write_loop, after_round, advance, drained, pending, contents}
use camlite.Http.Send.Buffer.{IsBuffer, queued}
use camlite.Http.Send.Connection.{IsClient, Outcome, free-Outcome, set_mode-Outcome, waits_for}

-- What holds in the loop: the connection waits to write, and may have nothing left.
record IsDraining (c : Client) (log : Log) : Type 0 where
  same_fd : c.pevent.fd ≡ c.fd
  watch : IsWatched c.pevent log
  buffer : IsBuffer c.write_buf
  limit : c.write_buf.size ≤ http_max_send_buffer
  writes : c.writing ≡ true
  mode : c.pevent.state ≡ 2

-- The handler returned, with an outcome that accounts for `total`.
abbrev pub Returned : Text → ℕ → ℕ → Option (Option Client × Log) → Type 0
Returned total base fd none = ⊥
Returned total base fd (some o) = Outcome total base fd o

module _ (k : Kernel) where
  length-pending :
      (c : Client) → IsBuffer c.write_buf → length (pending c) ≡ c.write_buf.size - c.write_buf.cur
  length-pending c b = omega (
    arith,
    length-drop c.write_buf.cur (take c.write_buf.size (contents c.write_buf.buf)),
    length-take c.write_buf.size (contents c.write_buf.buf),
    b.block,
    b.size_max,
  )

  still_waits :
      {c : Client} {log : Log}
      → IsDraining c log
      → c.write_buf.cur < c.write_buf.size
      → IsClient c log
  still_waits {c} d lt = record {
    sound = record {
      same_fd = d.same_fd;
      watch = d.watch;
      buffer = d.buffer;
      limit = d.limit;
      idle = λ e. absurd (false≢true (sym e ∙ d.writes));
      busy = λ e. lt;
    };
    mode = rw d.writes d.mode;
  }

  advanced :
      (c : Client) (log log' : Log) (n : ℕ)
      → sent c.fd log' ≡ sent c.fd log ++ take n (pending c)
      → sent c.fd log' ++ queued (advance c n).write_buf ≡ sent c.fd log ++ queued c.write_buf
  unfolding advance
  advanced c log log' n e =
      rw (e, ← drop-drop n c.write_buf.cur (take c.write_buf.size (contents c.write_buf.buf)))
        (append_assoc (sent c.fd log) (take n (pending c)) (drop n (pending c))
          ∙ ap (λ (s : Text). sent c.fd log ++ s) (take-append-drop n (pending c)))

  advance-IsDraining :
      (c : Client) (log : Log) (n : ℕ)
      → IsDraining c log
      → n ≤ c.write_buf.size - c.write_buf.cur
      → IsDraining (advance c n) log
  unfolding advance
  advance-IsDraining c log n d h = record {
    same_fd = d.same_fd;
    watch = d.watch;
    buffer = record {
      block = d.buffer.block;
      cur_size = omega (arith, d.buffer.cur_size);
      size_max = d.buffer.size_max;
    };
    limit = d.limit;
    writes = d.writes;
    mode = d.mode;
  }

  all_sent :
      (c : Client) {log : Log}
      → IsDraining c log
      → c.write_buf.size ≤ c.write_buf.cur
      → queued c.write_buf ≡ []
  all_sent c d e =
      drop_all c.write_buf.cur (take c.write_buf.size (contents c.write_buf.buf))
        (omega (arith, length-take c.write_buf.size (contents c.write_buf.buf)))

  drained-Outcome :
      (c : Client) (log : Log) (total : Text)
      → IsDraining c log
      → c.write_buf.size ≤ c.write_buf.cur
      → sent c.fd log ++ queued c.write_buf ≡ total
      → Outcome total c.pevent.base c.fd (drained k c log)
  unfolding drained
  drained-Outcome c log total d e h =
      if_split (Outcome total c.pevent.base c.fd) (c.delay_ptr == 0) _ _
        (λ gone. free-Outcome k _ log (queued c.write_buf) total c.fd d.same_fd h)
        (λ waits.
          set_mode-Outcome k _ _ log total
            (record {
              same_fd = d.same_fd;
              watch = d.watch;
              buffer = record {
                block = d.buffer.block;
                cur_size = omega arith;
                size_max = omega arith;
              };
              limit = omega arith;
              idle = λ _. refl;
              busy = λ f. absurd (false≢true f);
            })
            (inl refl) refl (ap (λ (s : Text). sent c.fd log ++ s) (sym (all_sent c d e)) ∙ h))

  round :
      (c : Client) (log log' : Log) (total : Text) (r : Option ℕ)
      (again : Client → Log → Option (Option Client × Log))
      → IsDraining c log'
      → c.write_buf.cur < c.write_buf.size
      → (r ≡ none → sent c.fd log' ≡ sent c.fd log)
      → ((n : ℕ)
          → r ≡ some n
          → (n ≤ length (pending c)) × (sent c.fd log' ≡ sent c.fd log ++ take n (pending c)))
      → ((n : ℕ)
          → IsDraining (advance c n) log'
          → 0 < n
          → sent c.fd log' ++ queued (advance c n).write_buf ≡ total
          → Returned total c.pevent.base c.fd (again (advance c n) log'))
      → sent c.fd log ++ queued c.write_buf ≡ total
      → Returned total c.pevent.base c.fd (after_round k again c (r, log'))
  unfolding after_round
  round c log log' total none again d lt e f g h =
      free-Outcome k c log' (queued c.write_buf) total c.fd d.same_fd
        (ap (λ (s : Text). s ++ queued c.write_buf) (e refl) ∙ h)
  round c log log' total (some n) again d lt e f g h =
      if_split (Returned total c.pevent.base c.fd) (n == 0) _ _
        (λ blocked. (
          still_waits d lt,
          refl,
          refl,
          ap (λ (s : Text). s ++ queued c.write_buf) (none_sent blocked) ∙ h,
        ))
        (λ more.
          g n
            (advance-IsDraining c log' n d (omega (arith, (f n refl).0, length-pending c d.buffer)))
            (ground arith) (advanced c log log' n (f n refl).1 ∙ h))
    where
      none_sent : (n == 0) ≡ true → sent c.fd log' ≡ sent c.fd log
      none_sent z =
          let n_zero : n ≡ 0 = ground arith in
          (f n refl).1
          ∙ ap (λ (m : ℕ). sent c.fd log ++ take m (pending c)) n_zero
          ∙ append-nil (sent c.fd log)

  write-IsDraining :
      {c : Client} {log : Log}
      → IsDraining c log
      → IsDraining c (Pevent.write k c.pevent (pending c) log).1
  write-IsDraining {c} {log} d = record {
    same_fd = d.same_fd;
    watch = watched-write k c.pevent (pending c) log c.pevent.base c.pevent.fd ∙ d.watch;
    buffer = d.buffer;
    limit = d.limit;
    writes = d.writes;
    mode = d.mode;
  }

  write_loop-Returned :
      (fuel : ℕ) (c : Client) (log : Log) (total : Text)
      → IsPosix k
      → IsDraining c log
      → c.write_buf.size - c.write_buf.cur < fuel
      → sent c.fd log ++ queued c.write_buf ≡ total
      → Returned total c.pevent.base c.fd (write_loop k fuel c log)
  unfolding write_loop advance
  write_loop-Returned zero c log total posix d lt h = absurd (omega arith)
  write_loop-Returned (suc fuel) c log total posix d lt h =
      let w = write_sends k c.pevent (pending c) log posix in
      if_split (Returned total c.pevent.base c.fd) (leb c.write_buf.size c.write_buf.cur) _ _
        (λ done. drained-Outcome c log total d (ground arith) h)
        (λ more.
          round c log (Pevent.write k c.pevent (pending c) log).1 total
            (Pevent.write k c.pevent (pending c) log).0 (write_loop k fuel) (write-IsDraining d)
            (ground arith) (λ e. rw (← d.same_fd) (w.0 e))
            (λ n e. ((w.1 n e).0, rw (← d.same_fd) (w.1 n e).1))
            (λ n d' pos h'.
              write_loop-Returned fuel (advance c n) _ total posix d'
                (shorter c fuel n pos lt (ground arith)) h')
            h)
    where
      shorter :
          (c : Client) (fuel n : ℕ)
          → 0 < n
          → c.write_buf.size - c.write_buf.cur < suc fuel
          → c.write_buf.cur < c.write_buf.size
          → (advance c n).write_buf.size - (advance c n).write_buf.cur < fuel
      shorter c fuel n pos lt more = omega arith

  -- on_write on a sound connection returns, within the fuel given, whatever the peer takes in each
  -- round. What it sent and what the connection still holds make up what it held before, in order and
  -- each byte once; a connection that is freed has sent the front of that, and epoll has forgotten
  -- the descriptor.
  pub on_write-Returned :
      (c : Client) (log : Log)
      → IsPosix k
      → IsClient c log
      → Returned (sent c.fd log ++ queued c.write_buf) c.pevent.base c.fd (on_write k c log)
  unfolding on_write
  on_write-Returned c log posix v =
      if_split (Returned (sent c.fd log ++ queued c.write_buf) c.pevent.base c.fd) c.writing _ _
        (λ w. write_loop-Returned _ c log _ posix (waiting v w) (omega arith) refl)
        (λ idle. free-Outcome k c log (queued c.write_buf) _ c.fd v.sound.same_fd refl)
    where
      waiting : IsClient c log → c.writing ≡ true → IsDraining c log
      waiting v w = record {
        same_fd = v.sound.same_fd;
        watch = v.sound.watch;
        buffer = v.sound.buffer;
        limit = v.sound.limit;
        writes = w;
        mode = v.mode ∙ ap waits_for w;
      }
