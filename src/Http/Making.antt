-- ===== src/Http/Making.antt =====
-- src/http.c, http_client_new: the connection that it gives is sound.
use camlite.Base.{ℕ, ◌≡◌, ◌≢◌, refl, sym, ◌∙◌, true, false, Option, none, some, arith, inl}
use camlite.Kernel.{Kernel, Log, watched}
use camlite.Kernel.Quiet.{Quiet, hash_add-Quiet}
use camlite.Pevent
use camlite.Pevent.{Pevent, Status, ok, failed, pevent_read}
use camlite.Pevent.Watch.{IsWatched, set-IsWatched}
use camlite.Pevent.Transfer.{set-fd}
use camlite.Pevent.Apart.{SetQuiet, free-Quiet}
use camlite.Http.{Client, calloc_client, clear_request, empty_request, new_with}
use camlite.Http.Send.Connection.{IsClient}
use camlite.Http.Parse.{IsRequest}
use camlite.Http.Read.Arrays.{IsInput}

-- What http_client_new gives
abbrev pub Made : ℕ → Option Client × Log → Type 0
Made fd (none, log) = Unit
Made fd (some c, log) = IsClient c log × IsInput c × (c.fd ≡ fd)

-- The pevent that a connection is made with, as pevent_set leaves it
abbrev pub Armed : ℕ → Status × Pevent × Log → Type 0
Armed fd (failed, p, log) = p.fd ≡ fd
Armed fd (ok, p, log) = (p.fd ≡ fd) × IsWatched p log × (p.state ≡ pevent_read)

empty_request-IsRequest : IsRequest empty_request
empty_request-IsRequest = record {
  path_fits = omega arith;
  param_fits = omega arith;
  host_fits = omega arith;
  digest_fits = omega arith;
}

module _ (k : Kernel) where
  pub set-Armed :
      (base fd addr : ℕ) (log : Log)
      → watched base fd log ≡ none
      → Armed fd (Pevent.set k (Pevent.new base fd Pevent.on_event addr) pevent_read log)
  unfolding Pevent.new
  set-Armed base fd addr log free =
      let p = Pevent.new base fd Pevent.on_event addr in
      gathered (Pevent.set k p pevent_read log) (set-fd k p pevent_read log).0
        (set-IsWatched k p pevent_read log (inl refl) free)
    where
      gathered :
          (t : Status × Pevent × Log)
          → t.1.fd ≡ fd
          → IsWatched t.1 t.2
            × (t.0 ≡ ok → (t.1.state ≡ pevent_read) × (0 ≢ pevent_read))
            × (t.0 ≡ failed → t.1 ≡ Pevent.new base fd Pevent.on_event addr)
            × (0 ≡ pevent_read → t.2 ≡ log)
          → Armed fd t
      gathered (failed, p, log') e h = e
      gathered (ok, p, log') e h = (e, h.0, (h.1 refl).0)

  pub new_with-Made : (fd : ℕ) (t : Status × Pevent × Log) → Armed fd t → Made fd (new_with fd t k)
  unfolding new_with calloc_client clear_request
  new_with-Made fd (failed, p, log) h = tt
  new_with-Made fd (ok, p, log) h = (
    record {
      sound = record {
        same_fd = h.0;
        watch = h.1;
        buffer = record { block = refl; cur_size = omega arith; size_max = omega arith };
        limit = omega arith;
        idle = λ _. refl;
        busy = λ (e : false ≡ true). cc;
      };
      mode = h.2;
    },
    record { request_fits = empty_request-IsRequest; buf_fits = omega arith },
    refl,
  )

  pub new_with-Quiet :
      (fd f : ℕ) (begun : Log) (t : Status × Pevent × Log)
      → fd ≢ f
      → SetQuiet fd f begun t
      → Quiet f begun ((new_with fd t k).1)
  unfolding new_with
  new_with-Quiet fd f begun (ok, p, log) n h = hash_add-Quiet f fd begun log h.1
  new_with-Quiet fd f begun (failed, p, log) n h =
      free-Quiet k f begun p log (λ e. n (sym h.0 ∙ e)) h.1
