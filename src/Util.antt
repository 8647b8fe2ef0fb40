-- ===== src/Util.antt =====
-- src/util.c: the readers of /proc, the clocks, and the list of allocations that MEMORY_ALLOC_REPORT keeps.
pub mod Allocations
use camlite.Base.{
  ℕ, zero, suc, ◌≤◌, ◌<◌, ◌≡◌, arith, ◌+◌, ◌-◌, ◌*◌, ◌/◌, ◌%◌, ◌^◌, Option, none, some, List, [],
  ◌∷◌, Text, ℤ, pos, negsuc,
}
use camlite.Libc.Numbers.{scan_int, scan_ulong, skip_word, to_int, negate}

abbrev times_four : ℤ → ℤ
times_four (pos n) = pos (n * 4)
times_four (negsuc n) = negate ((n + 1) * 4)

unfoldable pub memory_of : Option (ℤ × Text) → ℤ
memory_of none = negsuc 0
memory_of (some (n, rest)) = times_four n

-- read_memory_status, from what fopen and fscanf find in /proc/self/statm; `none` is a file that is not there.
unfoldable pub read_memory_status : Option Text → ℤ
unfolding memory_of scan_int
read_memory_status none = negsuc 0
read_memory_status (some contents) = memory_of (scan_int contents)

-- %*d and %*s
pub data Field : Type 0 where
  number word : Field

abbrev after_int : Option (ℤ × Text) → Option Text
after_int none = none
after_int (some (n, rest)) = some rest

abbrev skip_field : Field → Text → Option Text
skip_field number s = after_int (scan_int s)
skip_field word s = skip_word s

abbrev go_on : (Text → List ℕ) → Option Text → List ℕ
go_on go none = []
go_on go (some s) = go s

abbrev keep_number : (Text → List ℕ) → Option (ℕ × Text) → List ℕ
keep_number go none = []
keep_number go (some (n, s)) = n ∷ go s

-- The numbers of `n` conversions %lu, as far as they succeed.
unfoldable pub scan_ulongs : ℕ → Text → List ℕ
unfolding scan_ulong
scan_ulongs zero s = []
scan_ulongs (suc n) s = keep_number (scan_ulongs n) (scan_ulong s)

unfoldable pub scan_behind : List Field → ℕ → Text → List ℕ
unfolding scan_int skip_word scan_ulongs
scan_behind [] n s = scan_ulongs n s
scan_behind (f ∷ fs) n s = go_on (scan_behind fs n) (skip_field f s)

abbrev pub stat_fields : List Field
stat_fields =
    number ∷ word ∷ word ∷ number ∷ number ∷ number ∷ number ∷ number ∷ number ∷ number ∷ number
    ∷ number ∷ number ∷ []

unfoldable pub sum_of : List ℕ → ℕ
sum_of (user ∷ sys ∷ current ∷ cs ∷ []) = (user + sys + current + cs) % 2 ^ 64
sum_of other = 0

-- read_cpu_jiffies, from /proc/self/stat
unfoldable pub read_cpu_jiffies : Option Text → ℕ
unfolding scan_behind sum_of
read_cpu_jiffies none = 0
read_cpu_jiffies (some contents) = sum_of (scan_behind stat_fields 4 contents)

-- `struct timeval`
pub record Timeval : Type 0 where
  pub tv_sec : ℕ
  pub tv_usec : ℕ

abbrev micros : Timeval → ℕ
micros t = (t.tv_sec * 1000000 + t.tv_usec) % 2 ^ 64

-- time_diff: unsigned numbers of 64 bits, and then an int
unfoldable pub time_diff : Timeval → Timeval → ℤ
unfolding to_int
time_diff start end = to_int (pos ((micros end + 2 ^ 64 - micros start) % 2 ^ 64 / 1000))

-- gettickcount, of a clock with nanoseconds
unfoldable pub gettickcount : ℕ → ℕ → ℕ
gettickcount tv_sec tv_nsec = (tv_sec * 1000 + tv_nsec / 1000000) % 2 ^ 64

small_int : (n : ℕ) → n < 2 ^ 31 → to_int (pos n) ≡ pos n
unfolding to_int
small_int n h = ground arith

micros-diff :
    (start end : Timeval)
    → start.tv_sec * 1000000 + start.tv_usec ≤ end.tv_sec * 1000000 + end.tv_usec
    → end.tv_sec * 1000000 + end.tv_usec < 2 ^ 64
    → (micros end + 2 ^ 64 - micros start) % 2 ^ 64
      ≡ (end.tv_sec * 1000000 + end.tv_usec) - (start.tv_sec * 1000000 + start.tv_usec)
micros-diff start end h b = omega arith

-- For times in order, less than 2 ^ 64 microseconds and less than 2 ^ 31 milliseconds apart, time_diff is the number
-- of whole milliseconds between them.
pub time_diff_between :
    (start end : Timeval)
    → start.tv_sec * 1000000 + start.tv_usec ≤ end.tv_sec * 1000000 + end.tv_usec
    → end.tv_sec * 1000000 + end.tv_usec < 2 ^ 64
    → ((end.tv_sec * 1000000 + end.tv_usec) - (start.tv_sec * 1000000 + start.tv_usec)) / 1000
      < 2 ^ 31
    → time_diff start end
      ≡ pos
          (((end.tv_sec * 1000000 + end.tv_usec) - (start.tv_sec * 1000000 + start.tv_usec)) / 1000)
unfolding time_diff to_int
time_diff_between start end h b d = rw (micros-diff start end h b) (small_int _ d)
