-- ===== src/Server/Neighbours.antt =====
-- src/http.c, on_event: the whole table of connections stays sound.
use camlite.Base.{
  ℕ, ◌≡◌, ◌≢◌, sym, ◌∙◌, Option, none, some, List, [], ◌∷◌, ◌++◌, arith, ◌==◌, if_split,
}
use camlite.Kernel.{Log, Interest, watched}
use camlite.Kernel.Quiet.{Quiet, IsHeld}
use camlite.Http.{Client}
use camlite.Http.Apart.{client-IsHeld, Quiet-IsClient}
use camlite.Http.Send.Connection.{IsClient}
use camlite.Http.Read.Arrays.{IsInput}
use camlite.Server.{keep}
use camlite.Server.Dispatch.{replace}

-- No connection of the list is on the descriptor.
abbrev pub Others : ℕ → List Client → Type 0
Others fd [] = Unit
Others fd (c ∷ cs) = (c.fd ≢ fd) × Others fd cs

module _ {A : Type 0} (Apart : A → ℕ → Type 0) where
  -- A sound connection, which the callback's state keeps apart from.
  abbrev pub Good : Client → Log → A → Type 0
  Good c log a = IsClient c log × IsInput c × Apart a c.fd

  -- All are sound, each on a descriptor of its own.
  abbrev pub AllGood : List Client → Log → A → Type 0
  AllGood [] log a = Unit
  AllGood (c ∷ cs) log a = Good c log a × Others c.fd cs × AllGood cs log a

  -- Each descriptor but one that epoll watches and the state is apart from is left alone.
  abbrev pub Leaves : ℕ → Log → A → Log → A → Type 0
  Leaves fd log a log' a' =
      (f : ℕ) → fd ≢ f → IsHeld f log → Apart a f → Quiet f log log' × Apart a' f

  abbrev pub Lives : ℕ → Option Client → Log → A → Type 0
  Lives fd none log a = Unit
  Lives fd (some c) log a = Good c log a × (c.fd ≡ fd)

  Good-moved :
      (fd : ℕ) (c : Client) (log log' : Log) (a a' : A)
      → Leaves fd log a log' a'
      → c.fd ≢ fd
      → Good c log a
      → Good c log' a'
  Good-moved fd c log log' a a' alone n h =
      let q = alone c.fd (λ e. n (sym e)) (client-IsHeld c log h.0) h.2 in
      (Quiet-IsClient c log log' h.0 q.0, h.1, q.1)

  pub AllGood-moved :
      (fd : ℕ) (cs : List Client) (log log' : Log) (a a' : A)
      → Leaves fd log a log' a'
      → Others fd cs
      → AllGood cs log a
      → AllGood cs log' a'
  AllGood-moved fd [] log log' a a' alone n h = tt
  AllGood-moved fd (c ∷ cs) log log' a a' alone n h = (
    Good-moved fd c log log' a a' alone n.0 h.0,
    h.1,
    AllGood-moved fd cs log log' a a' alone n.1 h.2,
  )

  -- The connection that is replaced in the table, and the others, which moved on.
  Others-replace :
      (fd f : ℕ) (o : Option Client) (cs : List Client) (log : Log) (a : A)
      → f ≢ fd
      → Lives fd o log a
      → Others f cs
      → Others f (replace fd o cs)
  unfolding replace keep
  Others-replace fd f o [] log a n l h = tt
  Others-replace fd f none (c ∷ cs) log a n l h =
      if_split (Others f) (c.fd == fd) _ _ (λ _. h.1)
        (λ _. (h.0, Others-replace fd f none cs log a n l h.1))
  Others-replace fd f (some d) (c ∷ cs) log a n l h =
      if_split (Others f) (c.fd == fd) _ _ (λ _. ((λ e. n (sym e ∙ l.1)), h.1))
        (λ _. (h.0, Others-replace fd f (some d) cs log a n l h.1))

  keep-AllGood :
      (fd f : ℕ) (o : Option Client) (cs : List Client) (log log' : Log) (a a' : A)
      → Leaves fd log a log' a'
      → f ≡ fd
      → Lives fd o log' a'
      → Others f cs
      → AllGood cs log a
      → AllGood (keep o cs) log' a'
  unfolding keep
  keep-AllGood fd f none cs log log' a a' alone e l n h =
      AllGood-moved fd cs log log' a a' alone (rw (sym e) n) h
  keep-AllGood fd f (some d) cs log log' a a' alone e l n h =
      (l.0, rw (l.1 ∙ sym e) n, AllGood-moved fd cs log log' a a' alone (rw (sym e) n) h)

  pub replace-AllGood :
      (fd : ℕ) (o : Option Client) (cs : List Client) (log log' : Log) (a a' : A)
      → Leaves fd log a log' a'
      → Lives fd o log' a'
      → AllGood cs log a
      → AllGood (replace fd o cs) log' a'
  unfolding replace
  replace-AllGood fd o [] log log' a a' alone l h = tt
  replace-AllGood fd o (c ∷ cs) log log' a a' alone l h =
      if_split (λ x. AllGood x log' a') (c.fd == fd) _ _
        (λ e. keep-AllGood fd c.fd o cs log log' a a' alone (ground arith) l h.1 h.2)
        (λ e.
          let n : c.fd ≢ fd = λ same. ground arith in
          (
            Good-moved fd c log log' a a' alone n h.0,
            Others-replace fd c.fd o cs log' a' n l h.1,
            replace-AllGood fd o cs log log' a a' alone l h.2,
          ))

  -- Nothing that the table holds is touched, but the state may have changed.
  pub AllGood-left :
      (cs : List Client) (log log' : Log) (a a' : A)
      → ((f : ℕ) → IsHeld f log → Apart a f → Quiet f log log' × Apart a' f)
      → AllGood cs log a
      → AllGood cs log' a'
  AllGood-left [] log log' a a' alone h = tt
  AllGood-left (c ∷ cs) log log' a a' alone h =
      let q = alone c.fd (client-IsHeld c log h.0.0) h.0.2 in
      (
        (Quiet-IsClient c log log' h.0.0 q.0, h.0.1, q.1),
        h.1,
        AllGood-left cs log log' a a' alone h.2,
      )

-- The connections do not depend on how the rest of the state keeps apart.
pub AllGood-renamed :
    {A B : Type 0} (Apart : A → ℕ → Type 0) (Beside : B → ℕ → Type 0) (cs : List Client) (log : Log)
    (a : A) (b : B)
    → ((f : ℕ) → Apart a f → Beside b f)
    → AllGood Apart cs log a
    → AllGood Beside cs log b
AllGood-renamed Apart Beside [] log a b g h = tt
AllGood-renamed Apart Beside (c ∷ cs) log a b g h =
    ((h.0.0, h.0.1, g c.fd h.0.2), h.1, AllGood-renamed Apart Beside cs log a b g h.2)

-- A table with one more connection
module _ {A : Type 0} (Apart : A → ℕ → Type 0) (a : A) where
  Others-append :
      (f : ℕ) (cs : List Client) (c : Client) → Others f cs → c.fd ≢ f → Others f (cs ++ (c ∷ []))
  Others-append f [] c h n = (n, tt)
  Others-append f (d ∷ cs) c h n = (h.0, Others-append f cs c h.1 n)

  pub append-AllGood :
      (cs : List Client) (c : Client) (log : Log)
      → AllGood Apart cs log a
      → Good Apart c log a
      → Others c.fd cs
      → AllGood Apart (cs ++ (c ∷ [])) log a
  append-AllGood [] c log h g n = (g, tt, tt)
  append-AllGood (d ∷ cs) c log h g n =
      (h.0, Others-append d.fd cs c h.1 (λ e. n.0 (sym e)), append-AllGood cs c log h.2 g n.1)

  -- A descriptor that epoll does not watch is no connection's.
  pub unwatched-Others :
      (fd : ℕ) (cs : List Client) (log : Log)
      → ((base : ℕ) → watched base fd log ≡ none)
      → AllGood Apart cs log a
      → Others fd cs
  unwatched-Others fd [] log free h = tt
  unwatched-Others fd (c ∷ cs) log free h =
      (differs (client-IsHeld c log h.0.0), unwatched-Others fd cs log free h.2)
    where
      differs : IsHeld c.fd log → c.fd ≢ fd
      differs (base, ev, w) e = some_none ev (sym w ∙ rw e (free base))
        where
          some_none : (ev : Interest) → some ev ≡ none → ⊥
          some_none ev e = cc
