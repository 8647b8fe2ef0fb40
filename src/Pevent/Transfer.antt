-- ===== src/Pevent/Transfer.antt =====
-- src/pevent.c: what pevent_read and pevent_write report, and which calls leave what alone.
use camlite.Base.{ℕ, ◌≤◌, none, some, ◌++◌, ◌≡◌, refl, arith, append-nil, Text, length, take}
use camlite.Kernel.{Kernel, Log, IsPosix, sent, watched}
use camlite.Pevent.{Pevent, set, free, read, write}

module _ (k : Kernel) where
  -- What a write reports is what the peer receives: `some n` means that the first n bytes went out,
  -- -1 and 0 that none did.
  pub write_sends :
      (p : Pevent) (buf : Text) (log : Log)
      → IsPosix k
      → let (r, log') = write k p buf log in
        (r ≡ none → sent p.fd log' ≡ sent p.fd log)
        × ((n : ℕ) → r ≡ some n → (n ≤ length buf) × (sent p.fd log' ≡ sent p.fd log ++ take n buf))
  unfolding write
  write_sends p buf log h = ground (arith, h.write_within log p.fd buf, append-nil (sent p.fd log))

  -- A read returns what arrived, never more than was asked for; an empty text is EAGAIN.
  pub read_within :
      (p : Pevent) (size : ℕ) (log : Log) (b : Text)
      → IsPosix k
      → (read k p size log).0 ≡ some b
      → length b ≤ size
  unfolding read
  read_within p size log b h e = ground (arith, h.read_within log p.fd size b)

  pub sent-set :
      (p : Pevent) (state : ℕ) (log : Log) (fd : ℕ) → sent fd (set k p state log).2 ≡ sent fd log
  unfolding set
  sent-set p state log fd = ground arith

  pub sent-free : (p : Pevent) (log : Log) (fd : ℕ) → sent fd (free k p log) ≡ sent fd log
  unfolding free
  sent-free p log fd = ground arith

  pub set-fd :
      (p : Pevent) (state : ℕ) (log : Log)
      → ((set k p state log).1.fd ≡ p.fd) × ((set k p state log).1.base ≡ p.base)
  unfolding set
  set-fd p state log = ground arith

  pub watched-write :
      (p : Pevent) (buf : Text) (log : Log) (base fd : ℕ)
      → watched base fd (write k p buf log).1 ≡ watched base fd log
  unfolding write
  watched-write p buf log base fd = refl

  pub watched-read :
      (p : Pevent) (size : ℕ) (log : Log) (base fd : ℕ)
      → watched base fd (read k p size log).1 ≡ watched base fd log
  unfolding read
  watched-read p size log base fd = refl

  pub sent-read :
      (p : Pevent) (size : ℕ) (log : Log) (fd : ℕ) → sent fd (read k p size log).1 ≡ sent fd log
  unfolding read
  sent-read p size log fd = refl
