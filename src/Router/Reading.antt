-- ===== src/Router/Reading.antt =====
-- `Router::process_reads` of torrent/system/ipc/router.cc, and its two callers around a poll.
use shm_ipc.Base.{
  ℕ, zero, suc, ◌+◌, not, Option, none, some, List, [], ◌∷◌, ◌++◌, if◌then◌else◌, ◌==◌,
}
use shm_ipc.Base.Outcome.{Outcome, returns, throws, internal_error, undefined}
use shm_ipc.Memory.{load32, read_bytes}
use shm_ipc.Channel.{header_size, read_header, consume_header}
use shm_ipc.Router.{
  Router, RouterHandler, assign, erase, find, flag_polling, has_close, is_closed_read,
  without_flags,
}

-- A call of a handler: the function, and the bytes that it is given.
pub record Delivery : Type 0 where
  pub handler : ℕ
  pub payload : List ℕ

-- What the handlers do: client code, which may use the router.
abbrev pub Invoke : Type 0
Invoke = Delivery → Router → Router × Outcome (Unit {0})

-- What a part of `process_reads` leaves: the router, whether it threw, and the calls that it made.
abbrev pub Round : Type 0
Round = Router × Outcome (Unit {0}) × List Delivery

-- `consume_header` at the end of a round.
unfoldable pub finish_round : Router → ℕ → List Delivery → Round
finish_round r header calls =
    let (ch, result) = consume_header r.read_channel header in
    (record r { read_channel = ch }, result, calls)

-- The second half of a round: `itr` is the handler's place in the map.
unfoldable pub close_round : Router → ℕ → ℕ → RouterHandler → List Delivery → Round
close_round r key header h calls =
    if has_close (load32 r.read_channel.mem (header + 4))
    then (if is_closed_read h
        then finish_round (record r { handlers = erase key r.handlers }) header calls
        else if not (load32 r.read_channel.mem header == 0)
        then (
          r,
          throws (internal_error "Router::process_reads(): close message with non-zero size"),
          calls,
        )
        else finish_round
            (record r { handlers = assign key (record h { on_read = none }) r.handlers }) header
            calls)
    else finish_round r header calls

-- Behind the call of the handler, which may have changed the map, `itr` is looked at again.
unfoldable pub after_call : Router × Outcome (Unit {0}) → ℕ → ℕ → List Delivery → Round
after_call (r, throws e) key header calls = (r, throws e, calls)
after_call (r, returns _) key header calls = elim (find key r.handlers) [
  | none ↦ (r, throws (undefined "the handler erased itself"), calls)
  | some h ↦ close_round r key header h calls
]

-- One round, for the header that `read_header` has handed out.
unfoldable pub read_round : Invoke → Router → ℕ → Round
read_round invoke r header =
    let key = without_flags (load32 r.read_channel.mem (header + 4)) in
    let size = load32 r.read_channel.mem header in
    elim (find key r.handlers) [
      | none ↦ (
        r,
        throws (internal_error "Router::process_reads(): received data for unknown handler id"),
        [],
      )
      | some h ↦ elim h.on_read [
        | none ↦ close_round r key header h []
        | some f ↦
            if size == 0
            then close_round r key header h []
            else (let call : Delivery = record {
              handler = f;
              payload = read_bytes r.read_channel.mem (header + header_size) size;
            } in
                after_call (invoke call r) key header (call ∷ []))
      ]
    ]

-- The calls of a later part stand behind those of an earlier one.
abbrev pub prepend : List Delivery → Option Round → Option Round
prepend calls none = none
prepend calls (some (r, result, more)) = some (r, result, calls ++ more)

-- The loop; `none` means that the fuel ran out.
unfoldable pub process_reads : ℕ → Invoke → Router → Option Round
process_reads zero invoke r = none
process_reads (suc fuel) invoke r =
    let (ch, result) = read_header r.read_channel in
    let r' : Router = record r { read_channel = ch } in
    elim result [
      | throws e ↦ some (r', throws e, [])
      | returns none ↦ some (r', returns tt, [])
      | returns (some header) ↦
          let (r'', round, calls) = read_round invoke r' header in
          elim round [
            | throws e ↦ some (r'', throws e, calls)
            | returns _ ↦ prepend calls (process_reads fuel invoke r'')
          ]
    ]

abbrev pub set_consumer_state : Router → ℕ → Router
set_consumer_state r v = record r { read_channel = record r.read_channel { consumer_state = v } }

-- Reads, stores `state` for the writer to see, and reads again.
unfoldable pub process_around : ℕ → ℕ → Invoke → Router → Option Round
process_around state fuel invoke r = elim (process_reads fuel invoke r) [
  | none ↦ none
  | some (r', throws e, calls) ↦ some (r', throws e, calls)
  | some (r', returns _, calls) ↦
      prepend calls (process_reads fuel invoke (set_consumer_state r' state))
]

unfoldable pub process_reads_pre_polling : ℕ → Invoke → Router → Option Round
process_reads_pre_polling = process_around flag_polling

unfoldable pub process_reads_post_polling : ℕ → Invoke → Router → Option Round
process_reads_post_polling = process_around 0
