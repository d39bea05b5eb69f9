-- ===== src/Router/Register.antt =====
-- `Router::register_handler` and its search for a free id.
use shm_ipc.Base.{
  ℕ, zero, suc, ◌+◌, ◌/◌, ◌%◌, ◌^◌, ◌≤◌, ◌<◌, ◌≡◌, ◌≢◌, inl, inr, true, false, Option, none, some,
  arith, ==_true, ==_false, lt-cases, eq-cases, Option-cases,
}
use shm_ipc.Base.Outcome.{Outcome, returns, throws, internal_error}
use shm_ipc.Router.{
  Router, RouterHandler, find, assign, try_register_handler, register_handler_at, register_from,
  register_handler, register_fuel,
}

abbrev pub IsTaken : Router → ℕ → ℕ → Type 0
IsTaken r a b = (j : ℕ) → a ≤ j → j < b → find j r.handlers ≢ none

-- What a search for a free id from `id` on comes to.
pub data Registered (r : Router) (id f g : ℕ) (out : Option (Router × Outcome ℕ)) : Type 0 where
  found :
      (n : ℕ)
      → id ≤ n
      → n < 2 ^ 28
      → IsTaken r id n
      → find n r.handlers ≡ none
      → out
        ≡ some (
          record r {
            next_id = n + 1;
            handlers = assign n (record { on_read = some f; on_error = some g }) r.handlers;
          },
          returns n,
        )
      → Registered r id f g out
  exhausted :
      IsTaken r id (2 ^ 28)
      → out
        ≡ some
            (r, throws (internal_error "Router::try_register_handler(): id has reserved bits set"))
      → Registered r id f g out

try-flags :
    (r : Router) (id f g : ℕ)
    → 2 ^ 28 ≤ id
    → try_register_handler r id (some f) (some g)
      ≡ (r, throws (internal_error "Router::try_register_handler(): id has reserved bits set"))
unfolding try_register_handler
try-flags r id f g h = rw (==_false (id / 2 ^ 28) 0 (omega arith))

try-none :
    (r : Router) (id f g : ℕ)
    → id < 2 ^ 28
    → find id r.handlers ≡ none
    → try_register_handler r id (some f) (some g) ≡ (
      record r { handlers = assign id (record { on_read = some f; on_error = some g }) r.handlers },
      returns true,
    )
unfolding try_register_handler
try-none r id f g h e = rw (==_true (id / 2 ^ 28) 0 (omega arith), e)

try-some :
    (r : Router) (id f g : ℕ) {k : RouterHandler}
    → id < 2 ^ 28
    → find id r.handlers ≡ some k
    → try_register_handler r id (some f) (some g) ≡ (r, returns false)
unfolding try_register_handler
try-some r id f g h e = rw (==_true (id / 2 ^ 28) 0 (omega arith), e)

-- One round on an id that is taken goes on with the next one.
register_from-taken :
    (fuel : ℕ) (r : Router) (id f g : ℕ) {k : RouterHandler}
    → id < 2 ^ 28
    → find id r.handlers ≡ some k
    → register_from (suc fuel) r id (some f) (some g)
      ≡ register_from fuel r (id + 1) (some f) (some g)
unfolding register_from
register_from-taken fuel r id f g small e =
    let next : (id + 1) % 2 ^ 32 ≡ id + 1 = omega arith in
    rw (try-some r id f g small e, register_from, next, ==_false (id + 1) 0 (omega arith))

register_from-free :
    (fuel : ℕ) (r : Router) (id f g : ℕ)
    → id < 2 ^ 28
    → find id r.handlers ≡ none
    → register_from (suc fuel) r id (some f) (some g)
      ≡ some (
        record r {
          next_id = id + 1;
          handlers = assign id (record { on_read = some f; on_error = some g }) r.handlers;
        },
        returns id,
      )
unfolding register_from
register_from-free fuel r id f g small e =
    let next : (id + 1) % 2 ^ 32 ≡ id + 1 = omega arith in
    rw (try-none r id f g small e, register_from, next, try-none r id f g small e)

register_from-flags :
    (fuel : ℕ) (r : Router) (id f g : ℕ)
    → 2 ^ 28 ≤ id
    → register_from (suc fuel) r id (some f) (some g)
      ≡ some (r, throws (internal_error "Router::try_register_handler(): id has reserved bits set"))
unfolding register_from
register_from-flags fuel r id f g h = rw (try-flags r id f g h, register_from, try-flags r id f g h)

-- A taken id in front of a range that is taken.
IsTaken-cons :
    (r : Router) (a b : ℕ) {k : RouterHandler}
    → find a r.handlers ≡ some k
    → IsTaken r (a + 1) b
    → IsTaken r a b
IsTaken-cons r a b e rest j lo hi free = elim (eq-cases a j) [
  | inl same ↦ absurd (let e' : find a r.handlers ≡ none = rw same free in cc (e', e))
  | inr other ↦ rest j (omega arith) hi free
]

Registered-next :
    (r : Router) (id f g : ℕ) {k : RouterHandler} {out : Option (Router × Outcome ℕ)}
    → find id r.handlers ≡ some k
    → Registered r (id + 1) f g out
    → Registered r id f g out
Registered-next r id f g e (found n lo hi taken free q) =
    found n (omega arith) hi (IsTaken-cons r id n e taken) free q
Registered-next r id f g e (exhausted taken q) = exhausted (IsTaken-cons r id (2 ^ 28) e taken) q

register_from-Registered :
    (fuel : ℕ) (r : Router) (id f g : ℕ)
    → 0 < fuel
    → 2 ^ 28 < id + fuel
    → Registered r id f g (register_from fuel r id (some f) (some g))
register_from-Registered zero r id f g pos enough = absurd (omega arith)
register_from-Registered (suc fuel) r id f g pos enough = elim (lt-cases id (2 ^ 28)) [
  | inl small ↦ elim (Option-cases (find id r.handlers)) [
    | inl free ↦
        found id (omega arith) small (λ j lo hi. absurd (omega arith)) free
          (register_from-free fuel r id f g small free)
    | inr (k, taken) ↦ rw (register_from-taken fuel r id f g small taken) (
        Registered-next r id f g taken
          (register_from-Registered fuel r (id + 1) f g (omega arith) (omega arith)))
  ]
  | inr big ↦ exhausted (λ j lo hi. absurd (omega arith)) (register_from-flags fuel r id f g big)
]

-- A given id that is free is taken.
pub register_handler_at-free :
    (r : Router) (id f g : ℕ)
    → id < 2 ^ 28
    → find id r.handlers ≡ none
    → register_handler_at r id (some f) (some g) ≡ (
      record r { handlers = assign id (record { on_read = some f; on_error = some g }) r.handlers },
      returns tt,
    )
unfolding register_handler_at
register_handler_at-free r id f g small free =
    rw (try-none r id f g small free, register_handler_at, try-none r id f g small free)

-- `register_handler` with both functions given always comes to an end. Either it returns the least
-- id from `next_id` on that has no handler, below 2 ^ 28, adds the handler under it, and goes on
-- behind it the next time; or every id from `next_id` up to 2 ^ 28 has a handler, and it throws and
-- changes nothing.
pub register_handler-Registered :
    (r : Router) (f g : ℕ) → Registered r r.next_id f g (register_handler r (some f) (some g))
unfolding register_handler
register_handler-Registered r f g =
    register_from-Registered register_fuel r r.next_id f g (omega arith) (omega arith)

-- So the least free id from `next_id` on is the one that it takes.
pub register_handler-least :
    (r : Router) (n f g : ℕ)
    → r.next_id ≤ n
    → n < 2 ^ 28
    → IsTaken r r.next_id n
    → find n r.handlers ≡ none
    → register_handler r (some f) (some g)
      ≡ some (
        record r {
          next_id = n + 1;
          handlers = assign n (record { on_read = some f; on_error = some g }) r.handlers;
        },
        returns n,
      )
register_handler-least r n f g lo small taken free = elim (register_handler-Registered r f g) [
  | found m lo' hi taken' free' q ↦ elim (lt-cases m n) [
    | inl below ↦ absurd (taken m lo' below free')
    | inr above ↦ elim (eq-cases m n) [
      | inl same ↦ rw same at q
      | inr other ↦ absurd (taken' n lo (omega arith) free)
    ]
  ]
  | exhausted taken' q ↦ absurd (taken' n lo small free)
]
