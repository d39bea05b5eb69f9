-- ===== src/Router.antt =====
-- torrent/system/ipc/router.h and router.cc: handlers by id over two channels, one to read and one
-- to write. A `std::function` is a number that names it; calling it is a parameter of the model.
pub mod Handlers
pub mod Reading
pub mod Register
pub mod Close
pub mod Deliver
pub mod Drain
pub mod Thrown
pub mod Wakeup
pub mod Polling
pub mod Awake
pub mod Fds
pub mod Closing
pub mod Ours
pub mod Opening
mod Tests
use shm_ipc.Base.{
  ℕ, zero, suc, ◌+◌, ◌-◌, ◌*◌, ◌/◌, ◌%◌, ◌^◌, ◌≡◌, Bool, true, false, not, ◌&&◌, Option, none, some,
  List, [], ◌∷◌, ◌++◌, if◌then◌else◌, ltb, ◌==◌, String,
}
use shm_ipc.Base.Outcome.{Outcome, returns, throws, Exception, internal_error, assertion, undefined}
use shm_ipc.Memory.{load32, read_bytes}
use shm_ipc.Channel
use shm_ipc.Channel.{Channel, WriteResult, wrote, again, header_size, read_header, consume_header}

-- `on_read` and `on_error`; `none` is a null function.
pub record RouterHandler : Type 0 where
  pub on_read : Option ℕ
  pub on_error : Option ℕ

abbrev pub is_null : Option ℕ → Bool
is_null none = true
is_null (some f) = false

abbrev pub is_closed_read : RouterHandler → Bool
is_closed_read h = is_null h.on_read

abbrev pub is_closed_write : RouterHandler → Bool
is_closed_write h = is_null h.on_error

-- `std::map<uint32_t, RouterHandler>`: only found, added and erased by key.
abbrev pub HandlerMap : Type 0
HandlerMap = List (ℕ × RouterHandler)

unfoldable pub find : ℕ → HandlerMap → Option RouterHandler
find id [] = none
find id ((k, h) ∷ m) = if k == id then some h else find id m

-- Sets the handler of an id that is there; an id that is not there is added.
unfoldable pub assign : ℕ → RouterHandler → HandlerMap → HandlerMap
assign id h [] = (id, h) ∷ []
assign id h ((k, g) ∷ m) = if k == id then (id, h) ∷ m else (k, g) ∷ assign id h m

unfoldable pub erase : ℕ → HandlerMap → HandlerMap
erase id [] = []
erase id ((k, h) ∷ m) = if k == id then erase id m else (k, h) ∷ erase id m

pub record Router : Type 0 where
  pub read_channel : Channel
  pub write_channel : Channel
  pub next_id : ℕ
  pub handlers : HandlerMap

-- `flag_mask` is the top four bits and `flag_close` the top one, on 32-bit ids.
abbrev pub has_flags : ℕ → Bool
has_flags id = not (id / 2 ^ 28 == 0)

abbrev pub without_flags : ℕ → ℕ
without_flags id = id % 2 ^ 28

abbrev pub has_close : ℕ → Bool
has_close id = id / 2 ^ 31 % 2 == 1

abbrev pub with_close : ℕ → ℕ
with_close id = if has_close id then id else id + 2 ^ 31

abbrev pub flag_polling : ℕ
flag_polling = 1

abbrev pub flag_interrupted : ℕ
flag_interrupted = 2

abbrev pub throw_error {ℓ} : {A : Type ℓ} → Router → String → Router × Outcome A
throw_error r msg = (r, throws (internal_error msg))

unfoldable pub try_register_handler : Router → ℕ → Option ℕ → Option ℕ → Router × Outcome Bool
try_register_handler r id on_read on_error =
    if has_flags id
    then throw_error r "Router::try_register_handler(): id has reserved bits set"
    else elim (find id r.handlers) [
      | some _ ↦ (r, returns false)
      | none ↦
          if is_null on_read
          then throw_error r "Router::try_register_handler(): on_read handler is required"
          else if is_null on_error
          then throw_error r "Router::try_register_handler(): on_error handler is required"
          else (
            record r {
              handlers = assign id (record { on_read = on_read; on_error = on_error }) r.handlers;
            },
            returns true,
          )
    ]

-- `register_handler` with a given id.
unfoldable pub register_handler_at : Router → ℕ → Option ℕ → Option ℕ → Router × Outcome (Unit {0})
unfolding try_register_handler
register_handler_at r id on_read on_error =
    let (r', result) = try_register_handler r id on_read on_error in
    elim result [
      | throws e ↦ (r', throws e)
      | returns true ↦ (r', returns tt)
      | returns false ↦ throw_error r' "Router::register_handler(): id already in use"
    ]

-- The search for a free id, from `id` on. `none` means that the fuel ran out.
unfoldable pub register_from : ℕ → Router → ℕ → Option ℕ → Option ℕ → Option (Router × Outcome ℕ)
register_from zero r id on_read on_error = none
register_from (suc fuel) r id on_read on_error =
    let next = (id + 1) % 2 ^ 32 in
    let rest = register_from fuel r next on_read on_error in
    let (r', result) = try_register_handler r id on_read on_error in
    elim result [
      | throws e ↦ some (r', throws e)
      | returns true ↦ some (record r' { next_id = next }, returns id)
      | returns false ↦
          if next == 0
          then some (throw_error r "Router::register_handler(): no available ids")
          else rest
    ]

-- An id of 2 ^ 28 is refused, so that there are no more rounds than this.
abbrev pub register_fuel : ℕ
register_fuel = 2 ^ 28 + 1

unfoldable pub register_handler : Router → Option ℕ → Option ℕ → Option (Router × Outcome ℕ)
register_handler r on_read on_error = register_from register_fuel r r.next_id on_read on_error

-- What `close` does with the outcome of its write: anything but 0 throws.
abbrev pub close_written : Router → Channel × Outcome WriteResult → Router × Outcome (Unit {0})
close_written r (ch, throws e) = (record r { write_channel = ch }, throws e)
close_written r (ch, returns (wrote n)) =
    if n == 0
    then (record r { write_channel = ch }, returns tt)
    else throw_error (record r { write_channel = ch })
        "Router::close(): failed to write close event to channel"
close_written r (ch, returns again) =
    throw_error (record r { write_channel = ch })
      "Router::close(): failed to write close event to channel"

unfoldable pub close : Router → ℕ → Router × Outcome (Unit {0})
close r id = elim (find id r.handlers) [
  | none ↦ throw_error r "Router::close(): id not found"
  | some h ↦
      if is_closed_write h
      then throw_error r "Router::close(): handler already closed for write"
      else if is_closed_read h
      then (record r { handlers = erase id r.handlers }, returns tt)
      else close_written
          (record r { handlers = assign id (record h { on_error = none }) r.handlers })
          (Channel.write r.write_channel (with_close id) 0 none)
]

-- The compare-and-exchange of `consumer_state`: whether the reader is polling and has to be woken.
unfoldable pub mark_interrupted : Channel → Channel × Bool
mark_interrupted ch =
    if ch.consumer_state == flag_polling
    then (record ch { consumer_state = flag_polling + flag_interrupted }, true)
    else (ch, false)

-- `interrupt` is what `m_wakeup_fd->send_interrupt()` does; the flag says whether it was called.
unfoldable pub write :
    Outcome (Unit {0}) → Router → ℕ → ℕ → Option (List ℕ) → Router × Outcome WriteResult × Bool
write interrupt r id size bytes = elim (find id r.handlers) [
  | none ↦ (r, throws (assertion "m_handlers.find(id) != m_handlers.end()"), false)
  | some _ ↦
      let (ch, result) = Channel.write r.write_channel id size bytes in
      elim result [
        | throws e ↦ (record r { write_channel = ch }, throws e, false)
        | returns again ↦ (record r { write_channel = ch }, returns again, false)
        | returns (wrote n) ↦
            let (ch', should_interrupt) = mark_interrupted ch in
            if should_interrupt
            then elim interrupt [
              | throws e ↦ (record r { write_channel = ch' }, throws e, true)
              | returns _ ↦ (record r { write_channel = ch' }, returns (wrote n), true)
            ]
            else (record r { write_channel = ch' }, returns (wrote n), false)
      ]
]
