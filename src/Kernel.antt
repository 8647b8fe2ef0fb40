-- ===== src/Kernel.antt =====
-- The calls that the program makes of code that is not its own, and the kernel's answers.
-- src/pevent.c, src/http.c: epoll_ctl, read, write, close, and the hash table macros of uthash.h.
-- A run is the log of its calls, newest first, each with the answer that it got.
pub mod Quiet
use camlite.Base.{
  ℕ, suc, ◌≤◌, ◌≡◌, Bool, ◌&&◌, Option, none, some, List, [], ◌∷◌, ◌++◌, ◌==◌, if◌then◌else◌,
  length, Text, take,
}

-- EPOLL_CTL_ADD, EPOLL_CTL_MOD, EPOLL_CTL_DEL
pub data Ctl : Type 0 where
  ctl_add ctl_mod ctl_del : Ctl

-- `event.events`: EPOLLIN | EPOLLET, EPOLLOUT | EPOLLET, or what a deletion leaves unset
pub data Interest : Type 0 where
  epoll_in epoll_out unset : Interest

-- read: some bytes (none at the end of the stream), EAGAIN or EWOULDBLOCK, any other error
pub data Received : Type 0 where
  bytes : Text → Received
  again : Received
  broken : Received

-- write: how many bytes were taken, EAGAIN or EWOULDBLOCK, any other error
pub data Written : Type 0 where
  taken : ℕ → Written
  again : Written
  broken : Written

-- The requests of V4L2 that the program makes, with what it fills in.
pub data Ioctl : Type 0 where
  querycap : Ioctl
  enum_fmt : ℕ → Ioctl
  s_fmt : ℕ → ℕ → Ioctl
  s_parm : ℕ → Ioctl
  g_parm : Ioctl
  reqbufs : ℕ → Ioctl
  querybuf : ℕ → Ioctl
  qbuf : ℕ → Ioctl
  dqbuf : Ioctl
  streamon : Ioctl
  streamoff : Ioctl

-- What a driver fills in: the fields that the program reads, as the request has them.
pub record IoctlData : Type 0 where
  pub streaming : Bool
  pub text : Text
  pub count : ℕ
  pub size : ℕ
  pub offset : ℕ
  pub index : ℕ
  pub numerator : ℕ
  pub denominator : ℕ

pub data IoctlReply : Type 0 where
  done : IoctlData → IoctlReply
  refused : IoctlReply

-- Calls that leave sockets and what epoll watches alone.
pub data Misc : Type 0 where
  clear_errno : Misc
  set_flags : ℕ → Bool → Misc
  accepted_fd : ℕ → ℕ → Misc
  accept_ends : ℕ → Misc
  socket_made : Option ℕ → Misc
  bound : ℕ → Bool → Misc
  listening : ℕ → Bool → Misc
  opened : Text → Option ℕ → Misc
  interrupted : ℕ → Ioctl → Misc
  ioctl : ℕ → Ioctl → IoctlReply → Misc
  mapped : ℕ → ℕ → ℕ → Option ℕ → Misc
  unmapped : Option ℕ → ℕ → Misc

pub data Call : Type 0 where
  epoll_ctl : ℕ → Ctl → ℕ → Interest → Bool → Call
  closed : ℕ → Call
  reading : ℕ → ℕ → Received → Call
  writing : ℕ → Text → Written → Call
  hash_add : ℕ → Call
  hash_del : ℕ → Call
  misc : Misc → Call

abbrev pub Log : Type 0
Log = List Call

-- An answer may depend on the whole history.
pub record Kernel : Type 0 where
  pub on_epoll_ctl : Log → ℕ → Ctl → ℕ → Interest → Bool
  pub on_read : Log → ℕ → ℕ → Received
  pub on_write : Log → ℕ → Text → Written
  -- the bytes that a block from malloc happens to hold
  pub noise : ℕ → ℕ
  -- what the calls so far, and `errno = 0` of the program, left in errno
  pub errno : Log → ℕ
  pub on_open : Log → Text → Option ℕ
  -- how often a request is interrupted before it is answered, and the answer
  pub on_ioctl : Log → ℕ → Ioctl → ℕ × IoctlReply
  pub on_mmap : Log → ℕ → ℕ → ℕ → Option ℕ
  -- time(NULL), an unsigned int
  pub on_time : Log → ℕ
  -- both calls of fcntl that set O_NONBLOCK
  pub on_set_flags : Log → ℕ → Bool
  pub on_socket : Log → Option ℕ
  pub on_bind : Log → ℕ → Bool
  pub on_listen : Log → ℕ → Bool

-- What the manual pages of read and write promise of the counts.
pub record IsPosix (k : Kernel) : Type 0 where
  pub write_within :
      (log : Log) (fd : ℕ) (b : Text) (n : ℕ) → k.on_write log fd b ≡ Written.taken n → n ≤ length b
  pub read_within :
      (log : Log) (fd size : ℕ) (b : Text)
      → k.on_read log fd size ≡ Received.bytes b
      → length b ≤ size

-- What epoll watches for on a descriptor, as epoll(7) describes it: the last successful change,
-- and a descriptor that is closed leaves the set.
abbrev pub after_ctl : Ctl → Interest → Option Interest
after_ctl ctl_add ev = some ev
after_ctl ctl_mod ev = some ev
after_ctl ctl_del ev = none

abbrev pub watched : ℕ → ℕ → Log → Option Interest
watched base fd [] = none
watched base fd (epoll_ctl b op f ev answer ∷ log) =
    if answer && (b == base && f == fd) then after_ctl op ev else watched base fd log
watched base fd (closed f ∷ log) = if f == fd then none else watched base fd log
watched base fd (reading _ _ _ ∷ log) = watched base fd log
watched base fd (writing _ _ _ ∷ log) = watched base fd log
watched base fd (hash_add _ ∷ log) = watched base fd log
watched base fd (hash_del _ ∷ log) = watched base fd log
watched base fd (misc _ ∷ log) = watched base fd log

-- The bytes that the peer of a descriptor has been sent, in order.
abbrev pub accepted : Text → Written → Text
accepted b (Written.taken n) = take n b
accepted b Written.again = []
accepted b Written.broken = []

abbrev pub sent : ℕ → Log → Text
sent fd [] = []
sent fd (writing f b answer ∷ log) =
    let earlier = sent fd log in if f == fd then earlier ++ accepted b answer else earlier
sent fd (epoll_ctl _ _ _ _ _ ∷ log) = sent fd log
sent fd (closed _ ∷ log) = sent fd log
sent fd (reading _ _ _ ∷ log) = sent fd log
sent fd (hash_add _ ∷ log) = sent fd log
sent fd (hash_del _ ∷ log) = sent fd log
sent fd (misc _ ∷ log) = sent fd log

-- How often a descriptor was closed.
abbrev pub closings : ℕ → Log → ℕ
closings fd [] = 0
closings fd (closed f ∷ log) = let n = closings fd log in if f == fd then suc n else n
closings fd (epoll_ctl _ _ _ _ _ ∷ log) = closings fd log
closings fd (reading _ _ _ ∷ log) = closings fd log
closings fd (writing _ _ _ ∷ log) = closings fd log
closings fd (hash_add _ ∷ log) = closings fd log
closings fd (hash_del _ ∷ log) = closings fd log
closings fd (misc _ ∷ log) = closings fd log
