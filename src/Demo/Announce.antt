-- ===== src/Demo/Announce.antt =====
-- `ChildHandler::on_read` of child.cc under `Router::process_reads`: the child opens the channels that
-- the parent has announced.
use shm_ipc.Base.{
  ℕ, zero, suc, ◌^◌, ◌<◌, ◌≡◌, ◌≢◌, refl, ◌∙◌, ap, none, some, List, [], ◌∷◌, ◌++◌, length, arith,
  append_assoc, append-nil, u32_mod, Option,
}
use shm_ipc.Base.Outcome.{returns}
use shm_ipc.Memory.{store32, load32-store32}
use shm_ipc.Channel.{Channel}
use shm_ipc.Channel.Layout.{Message, Holds, IsValid}
use shm_ipc.Channel.Read.{Holds-Front, advanced, advanced-Holds, advanced-IsValid}
use shm_ipc.Router.{Router, RouterHandler, HandlerMap, find, assign}
use shm_ipc.Router.Reading.{Delivery, Round, prepend, process_reads}
use shm_ipc.Router.Handlers.{find-assign}
use shm_ipc.Router.Register.{register_handler_at-free}
use shm_ipc.Router.Deliver.{GoesTo, delivery, with_read, process_reads-called}
use shm_ipc.Router.Drain.{process_reads-empty}
use shm_ipc.Demo.{
  own_read, own_error, test_read, test_error, new_channel_message, message_id, ChildHandler,
  child_on_read, child_invoke, child_calls,
}

abbrev pub announcement : ℕ → Message
announcement id = record { id = 1; payload = new_channel_message id }

abbrev pub own_handler : RouterHandler
own_handler = record { on_read = some own_read; on_error = some own_error }

abbrev pub test_handler : ℕ → RouterHandler
test_handler k = record { on_read = some (test_read k); on_error = some (test_error k) }

abbrev pub announcements : List ℕ → List Message
announcements [] = []
announcements (id ∷ ids) = announcement id ∷ announcements ids

abbrev pub own_calls : List ℕ → List Delivery
own_calls [] = []
own_calls (id ∷ ids) = delivery own_read (announcement id) ∷ own_calls ids

abbrev pub with_test : Router → ℕ → Router
with_test r id = record r { handlers = assign id (test_handler id) r.handlers }

abbrev pub with_tests : Router → List ℕ → Router
with_tests r [] = r
with_tests r (id ∷ ids) = with_tests (with_test r id) ids

-- Ids without reserved bits that have no handler, each different from those before it.
abbrev pub AllFree : HandlerMap → List ℕ → Type 0
AllFree m [] = Unit {0}
AllFree m (id ∷ ids) =
    (id < 2 ^ 28) × (find id m ≡ none) × AllFree (assign id (test_handler id) m) ids

message_id_lem : (id : ℕ) → id < u32_mod → message_id (new_channel_message id) ≡ id
unfolding message_id store32
message_id_lem id h = load32-store32 (λ _. 0) 0 id h

-- One announcement is one more handler.
child_invoke-announcement :
    (h : ChildHandler) (r : Router) (id : ℕ)
    → id < 2 ^ 28
    → find id r.handlers ≡ none
    → child_invoke h (delivery own_read (announcement id)) r ≡ (with_test r id, returns tt)
unfolding child_invoke child_on_read
child_invoke-announcement h r id small free = rw (
  message_id_lem id (omega arith),
  register_handler_at-free r id (test_read id) (test_error id) small free,
)

-- What is left when every announcement has been read.
pub record Opened (r : Router) (ids : List ℕ) (out : Option Round) : Type 0 where
  pub channel : Channel
  pub outcome : out ≡ some (with_read (with_tests r ids) channel, returns tt, own_calls ids)
  pub valid : IsValid channel
  pub empty : Holds channel []
  pub still : channel.write_offset ≡ r.read_channel.write_offset

find-with_test :
    (r : Router) (id j : ℕ) {k : RouterHandler}
    → find id r.handlers ≡ none
    → find j r.handlers ≡ some k
    → find j (with_test r id).handlers ≡ some k
find-with_test r id j free there = ground (arith, find-assign id j (test_handler id) r.handlers)

with_tests-read :
    (r : Router) (ch : Channel) (ids : List ℕ)
    → with_tests (with_read r ch) ids ≡ with_read (with_tests r ids) ch
with_tests-read r ch [] = refl
with_tests-read r ch (id ∷ ids) = with_tests-read (with_test r id) ch ids

Opened-next :
    (r : Router) (ch : Channel) (id : ℕ) (ids : List ℕ) {out : Option Round}
    → ch.write_offset ≡ r.read_channel.write_offset
    → Opened (with_read (with_test r id) ch) ids out
    → Opened r (id ∷ ids) (prepend (delivery own_read (announcement id) ∷ []) out)
Opened-next r ch id ids e o = record {
  channel = o.channel;
  outcome = rw (o.outcome, with_tests-read (with_test r id) ch ids) refl;
  valid = o.valid;
  empty = o.empty;
  still = o.still ∙ e;
}

-- With announcements of free ids on its read channel, and the handler of ChildHandler open, the
-- child's `process_reads` comes to an end in one round more than there are announcements: it calls
-- that handler once for each, which registers a TestHandler under the id, and leaves the channel
-- empty. The writer must not stand at the very end of the buffer.
pub process_reads-Opened :
    (fuel : ℕ) (h : ChildHandler) (r : Router) (ids : List ℕ)
    → find 1 r.handlers ≡ some own_handler
    → AllFree r.handlers ids
    → IsValid r.read_channel
    → Holds r.read_channel (announcements ids)
    → r.read_channel.write_offset ≢ r.read_channel.size
    → length ids < fuel
    → Opened r ids (process_reads fuel (child_invoke h) r)
process_reads-Opened zero h r ids own free v hs inside enough = absurd (omega arith)
process_reads-Opened (suc fuel) h r [] own free v hs inside enough = record {
  channel = r.read_channel;
  outcome = process_reads-empty fuel (child_invoke h) r v hs;
  valid = v;
  empty = hs;
  still = refl;
}
process_reads-Opened (suc fuel) h r (id ∷ ids) own free v hs inside enough =
    let front = Holds-Front v hs in
    let to : GoesTo r.handlers (announcement id) own_read = record {
      no_flags = omega arith;
      some_bytes = omega arith;
      handler = own_handler;
      found = own;
      reads = refl;
    } in
    let own' = find-with_test r id 1 free.1 own in
    rw
      (process_reads-called (child_invoke h) r (with_test r id) (announcement id) own_read v front
        to (child_invoke-announcement h r id free.0 free.1) refl own_handler own' fuel)
      (Opened-next r (advanced r.read_channel 4) id ids refl (
        process_reads-Opened fuel h (with_read (with_test r id) (advanced r.read_channel 4)) ids
          own' free.2 (advanced-IsValid v front) (advanced-Holds v hs (λ e _. inside e)) inside
          (omega arith)))

child_on_read-announcement :
    (h : ChildHandler) (r : Router) (id : ℕ)
    → id < u32_mod
    → (child_on_read h (new_channel_message id) r).0 ≡ record h { channels = h.channels ++ id ∷ [] }
unfolding child_on_read
child_on_read-announcement h r id small = rw (message_id_lem id small) refl

-- The calls put the ids into the vector of the ChildHandler, in order.
pub child_calls-own_calls :
    (r : Router) (m : HandlerMap) (ids : List ℕ) (h : ChildHandler)
    → AllFree m ids
    → child_calls r (own_calls ids) h ≡ record h { channels = h.channels ++ ids }
unfolding child_calls child_on_read
child_calls-own_calls r m [] h free = rw (append-nil h.channels) refl
child_calls-own_calls r m (id ∷ ids) h free =
    ap (child_calls r (own_calls ids)) (child_on_read-announcement h r id (omega arith))
    ∙ (child_calls-own_calls r (assign id (test_handler id) m) ids
          (record h { channels = h.channels ++ id ∷ [] }) free.2
        ∙ ap (λ (l : List ℕ). record h { channels = l }) (append_assoc h.channels (id ∷ []) ids))

-- A handler that is there stays.
pub find-with_tests :
    (r : Router) (ids : List ℕ) (j : ℕ) {k : RouterHandler}
    → AllFree r.handlers ids
    → find j r.handlers ≡ some k
    → find j (with_tests r ids).handlers ≡ some k
find-with_tests r [] j free there = there
find-with_tests r (id ∷ ids) j free there =
    find-with_tests (with_test r id) ids j free.2 (find-with_test r id j free.1 there)

-- The ids that have a TestHandler of their own.
abbrev pub AllOpen : Router → List ℕ → Type 0
AllOpen r [] = Unit {0}
AllOpen r (id ∷ ids) = (find id r.handlers ≡ some (test_handler id)) × AllOpen r ids

pub with_tests-AllOpen :
    (r : Router) (ids : List ℕ) → AllFree r.handlers ids → AllOpen (with_tests r ids) ids
with_tests-AllOpen r [] free = tt
with_tests-AllOpen r (id ∷ ids) free = (
  find-with_tests (with_test r id) ids id free.2
      (ground (arith, find-assign id id (test_handler id) r.handlers)),
  with_tests-AllOpen (with_test r id) ids free.2,
)
