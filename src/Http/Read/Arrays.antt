-- ===== src/Http/Read/Arrays.antt =====
-- src/http.c, on_read: the loop over the buffer keeps to the arrays.
use camlite.Base.{
  ℕ, zero, suc, ◌+◌, ◌-◌, ◌≤◌, ◌≡◌, refl, ap, ◌&&◌, [], ◌∷◌, Text, arith, ◌==◌, if_split, length,
  set, drop, get_or,
}
use camlite.Libc.{c_str}
use camlite.Pevent.{Status, ok, failed}
use camlite.Http.{Client, Request}
use camlite.Http.Parse.{parse_line, IsRequest, parse_line-IsRequest}
use camlite.Http.Read.{Scan, complete, refused, partial, scan_from, after_line}

-- The arrays that a request is read into are not overrun.
pub record IsInput (c : Client) : Type 0 where
  pub request_fits : IsRequest c.request
  pub buf_fits : length c.request_buf ≤ 2048

-- A scan keeps the request within its arrays, and leaves no more bytes than it was given.
unfoldable pub ScanFits : ℕ → Scan → Type 0
ScanFits n (complete r) = IsRequest r
ScanFits n (refused r) = IsRequest r
ScanFits n (partial r wrap_pos buf) = IsRequest r × (length buf ≤ n)

length-set : (xs : Text) (i v : ℕ) → length (set xs i v) ≡ length xs
length-set [] i v = refl
length-set (x ∷ xs) zero v = refl
length-set (x ∷ xs) (suc i) v = ap suc (length-set xs i v)

after_line-ScanFits :
    (n : ℕ) (go : Request → Scan) (s : Status) (r : Request)
    → IsRequest r
    → ScanFits n (go r)
    → ScanFits n (after_line go (s, r))
unfolding after_line ScanFits
after_line-ScanFits n go ok r v h = h
after_line-ScanFits n go failed r v h = v

complete-ScanFits : (n : ℕ) (r : Request) → IsRequest r → ScanFits n (complete r)
unfolding ScanFits
complete-ScanFits n r v = v

partial-ScanFits :
    (n : ℕ) (r : Request) (wrap_pos : ℕ) (buf : Text)
    → IsRequest r
    → length buf ≤ n
    → ScanFits n (partial r wrap_pos buf)
unfolding ScanFits
partial-ScanFits n r wrap_pos buf v h = (v, h)

pub scan_from-ScanFits :
    (rounds i wrap_pos : ℕ) (buf : Text) (n : ℕ) (r : Request)
    → IsRequest r
    → length buf ≤ n
    → ScanFits n (scan_from rounds i wrap_pos buf r)
unfolding scan_from
scan_from-ScanFits zero i wrap_pos buf n r v h = partial-ScanFits n r wrap_pos buf v h
scan_from-ScanFits (suc rounds) i wrap_pos buf n r v h =
    let cut = set buf (i - 1) 0 in
    let line = parse_line r (c_str (drop wrap_pos cut)) in
    if_split (ScanFits n) (get_or buf i 0 == 10 && get_or buf (i - 1) 0 == 13) _ _
      (λ _.
        if_split (ScanFits n) (wrap_pos == i - 1) _ _ (λ _. complete-ScanFits n r v)
          (λ _.
            after_line-ScanFits n (scan_from rounds (i + 1) (i + 1) cut) line.0 line.1
              (parse_line-IsRequest r _ v)
              (scan_from-ScanFits rounds (i + 1) (i + 1) cut n line.1 (parse_line-IsRequest r _ v)
                (omega (arith, length-set buf (i - 1) 0)))))
      (λ _. scan_from-ScanFits rounds (i + 1) wrap_pos buf n r v h)
