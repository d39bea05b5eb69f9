-- ===== src/Router/Close.antt =====
-- `Router::close`: on which states of a handler it can return.
use shm_ipc.Base.{
  ℕ, ◌≡◌, ◌≢◌, refl, ◌↔◌, Option, none, some, arith, if◌then◌else◌, ◌==◌, ==_false, ==_true,
}
use shm_ipc.Base.Outcome.{returns, throws, internal_error}
use shm_ipc.Channel
use shm_ipc.Router.{Router, RouterHandler, find, assign, erase, with_close, close, throw_error}
use shm_ipc.Router.Handlers.{find-assign, find-erase}

with_close-ne-zero : (id : ℕ) → with_close id ≢ 0
with_close-ne-zero id = ground arith

null_write :
    (ch : Channel.Channel) (id : ℕ)
    → Channel.write ch (with_close id) 0 none
      ≡ (ch, throws (internal_error "Channel::write() data is null"))
unfolding Channel.write
null_write ch id = rw (==_false (with_close id) 0 (with_close-ne-zero id))

-- What `close` does, by what the map holds.
close-missing :
    (r : Router) (id : ℕ)
    → find id r.handlers ≡ none
    → close r id ≡ throw_error r "Router::close(): id not found"
unfolding close
close-missing r id e = rw (e, close)

close-closed :
    (r : Router) (id : ℕ) (x : Option ℕ)
    → find id r.handlers ≡ some (record { on_read = x; on_error = none })
    → close r id ≡ throw_error r "Router::close(): handler already closed for write"
unfolding close
close-closed r id x e = rw (e, close)

close-half :
    (r : Router) (id g : ℕ)
    → find id r.handlers ≡ some (record { on_read = none; on_error = some g })
    → close r id ≡ (record r { handlers = erase id r.handlers }, returns tt)
unfolding close
close-half r id g e = rw (e, close)

abbrev pub marked : Router → ℕ → ℕ → Router
marked r id f = record r {
  handlers = assign id (record { on_read = some f; on_error = none }) r.handlers;
}

close-whole :
    (r : Router) (id f g : ℕ)
    → find id r.handlers ≡ some (record { on_read = some f; on_error = some g })
    → close r id ≡ throw_error (marked r id f) "Channel::write() data is null"
unfolding close
close-whole r id f g e = rw (e, close, null_write r.write_channel id)

-- Closing a handler that neither side has closed always throws: the write of the close message has
-- no data, which `Channel::write` refuses. The handler is marked as closed all the same, no message
-- is sent, and the second `close` throws too.
pub close-open :
    (r : Router) (id f g : ℕ)
    → find id r.handlers ≡ some (record { on_read = some f; on_error = some g })
    → (close r id ≡ (marked r id f, throws (internal_error "Channel::write() data is null")))
      × (close (marked r id f) id ≡ (
        marked r id f,
        throws (internal_error "Router::close(): handler already closed for write"),
      ))
close-open r id f g e = (
  close-whole r id f g e,
  close-closed (marked r id f) id (some f) (
      rw (find-assign id id (record { on_read = some f; on_error = none }) r.handlers)
        (rw (==_true id id refl) refl)),
)

-- The state of a handler that `close` accepts: closed by the other side, and not yet by this one.
abbrev pub IsHalfClosed : Router → ℕ → Type 0
IsHalfClosed r id =
    (g : ℕ) × (find id r.handlers ≡ some (record { on_read = none; on_error = some g }))

close-Returns :
    (r : Router) (id : ℕ) (o : Option RouterHandler)
    → find id r.handlers ≡ o
    → (((close r id).1 ≡ returns tt) ↔ IsHalfClosed r id)
close-Returns r id none e = rw (close-missing r id e, e) (λ h. cc, λ h. cc)
close-Returns r id (some h) e = go h.on_read h.on_error e
  where
    go :
        (x y : Option ℕ)
        → find id r.handlers ≡ some (record { on_read = x; on_error = y })
        → (((close r id).1 ≡ returns tt) ↔ IsHalfClosed r id)
    go x none q = rw (close-closed r id x q, q) (λ h. cc, λ h. cc)
    go none (some g) q = rw (close-half r id g q) (λ _. (g, q), λ _. refl)
    go (some f) (some g) q = rw (close-whole r id f g q, q) (λ h. cc, λ h. cc)

-- `close` returns exactly for a handler that the other side has closed and this side has not.
pub close-returns : (r : Router) (id : ℕ) → (((close r id).1 ≡ returns tt) ↔ IsHalfClosed r id)
close-returns r id = close-Returns r id (find id r.handlers) refl

-- When `close` returns, the handler is gone, every other one is as it was, and nothing has been
-- written.
pub close-erases :
    (r : Router) (id j : ℕ)
    → (close r id).1 ≡ returns tt
    → (find j (close r id).0.handlers ≡ (if id == j then none else find j r.handlers))
      × ((close r id).0.write_channel ≡ r.write_channel)
close-erases r id j e =
    let (g, q) = (close-returns r id).0 e in
    rw (close-half r id g q) (find-erase id j r.handlers, refl)
