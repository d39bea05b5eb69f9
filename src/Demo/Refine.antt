-- ===== src/Demo/Refine.antt =====
-- What a turn of `parent_process` or `child_process` that goes on changes of what the protocol in
-- Shutdown/Protocol sees.
use shm_ipc.Base.{
  if◌then◌else◌, ℕ, ◌≡◌, inl, inr, refl, ◌∙◌, ap, Bool, true, false, Option, none, some, List, ◌++◌,
  ◌≢◌, ltb, Option-cases, Bool-cases,
}
use shm_ipc.Base.Outcome.{Outcome, Exception, returns, throws}
use shm_ipc.Channel.{WriteResult, wrote, again}
use shm_ipc.Router.{Router}
use shm_ipc.Router.Reading.{Invoke, Round, process_reads_pre_polling, process_reads_post_polling}
use shm_ipc.Control.{Sent, frame}
use shm_ipc.Control.Send.{Cut, SendsAll, shutdown_text, send_shutdown_message-SendsAll}
use shm_ipc.Shutdown.{is_due}
use shm_ipc.Shutdown.Protocol.{Who, Note, Side}
use shm_ipc.Demo.Loop.{
  Process, Env, M, ◌>>◌, pure, control_is_open, behind_write, target, interval, invoke, called,
  ◌>>=◌, hear_all, message, reads, poll_events, process_again, go_on, send_shutdown,
}

-- A process that is in its loop, as the protocol sees it.
abbrev pub side_of : Process → Side
side_of p = record { globals = p.globals; shutdown_timestamp = p.shutdown_timestamp; left = false }

-- With the bytes that it has sent.
abbrev pub View : Type 0
View = Side × List ℕ

abbrev pub view : Process → View
view p = (side_of p, p.outgoing)

-- What holds of a result, if there is one.
abbrev pub Ends :
    {A : Type 0} → (Process → Outcome A → Type 0) → Option (Process × Outcome A) → Type 0
Ends P none = Unit {0}
Ends P (some (p, o)) = P p o

pub Ends-bind :
    {A B : Type 0} (P : Process → Outcome A → Type 0) (Q : Process → Outcome B → Type 0) (m : M A)
    (f : A → M B) (p : Process)
    → Ends P (m p)
    → ((p' : Process) (a : A) → P p' (returns a) → Ends Q (f a p'))
    → ((p' : Process) (e : Exception) → P p' (throws e) → Q p' (throws e))
    → Ends Q ((m >>= f) p)
Ends-bind P Q m f p h k t = split (m p) h
  where
    split :
        (r : _)
        → Ends P r
        → Ends Q (elim r [
          | none ↦ none
          | some (p', throws e) ↦ some (p', throws e)
          | some (p', returns a) ↦ f a p'
        ])
    split none h = tt
    split (some (p', throws e)) h = t p' e h
    split (some (p', returns a)) h = k p' a h

pub Ends-map :
    {A : Type 0} {P Q : Process → Outcome A → Type 0}
    → ((p : Process) (o : Outcome A) → P p o → Q p o)
    → (r : Option (Process × Outcome A)) → Ends P r
    → Ends Q r
Ends-map f none h = tt
Ends-map f (some (p, o)) h = f p o h

-- An action that changes nothing that the protocol sees.
abbrev pub IsUnseen : {A : Type 0} → M A → Type 0
IsUnseen m = (p : Process) → Ends (λ p' o. view p' ≡ view p) (m p)

behind_write-unseen :
    (env : Env) (p : Process) (x : Router × Outcome WriteResult × Bool)
    → Ends (λ p' o. view p' ≡ view p) (behind_write env p x)
behind_write-unseen env p (r, throws e, woken) = refl
behind_write-unseen env p (r, returns again, woken) = refl
behind_write-unseen env p (r, returns (wrote n), woken) = refl

message-IsUnseen : (w : Who) (env : Env) → IsUnseen (message w env)
unfolding message
message-IsUnseen w env p = elim (Bool-cases (is_due (interval w) p.loop env.now_due)) [
  | inl due ↦ elim (Option-cases (target w p.handler.channels p.loop.i)) [
    | inl no_one ↦ rw (due, no_one) refl
    | inr (id, someone) ↦ rw (due, someone) (behind_write-unseen env p _)
  ]
  | inr early ↦ rw early refl
]

reads-IsUnseen : (w : Who) (f : Invoke → Router → Option Round) → IsUnseen (reads w f)
unfolding reads
reads-IsUnseen w f p =
    elim (f (invoke w p) p.router)
      as (λ x.
        Ends (λ p' o. view p' ≡ view p)
          (elim x [
            | none ↦ none
            | some (r, result, calls) ↦
                some (record p { router = r; handler = called w r calls p.handler }, result)
          ])) [ none ↦ tt | some (r, result, calls) ↦ refl ]

process_again-IsUnseen : (env : Env) (count : ℕ) → IsUnseen (process_again env count)
unfolding process_again
process_again-IsUnseen env count p = elim (Bool-cases (ltb 0 count)) [
  | inl more ↦ rw more refl
  | inr none_left ↦ rw none_left refl
]

-- A call that returns has sent the whole message, and one that throws has not.
abbrev pub SentShutdown : Bool → Process → Process → Outcome (Unit {0}) → Type 0
SentShutdown graceful p p' (throws e) =
    (side_of p' ≡ side_of p)
    × (bytes : List ℕ) × (p'.outgoing ≡ p.outgoing ++ bytes)
    × Cut (frame (shutdown_text graceful)) bytes
SentShutdown graceful p p' (returns _) =
    (side_of p' ≡ side_of p) × (p'.outgoing ≡ p.outgoing ++ frame (shutdown_text graceful))

pub send_shutdown-sends :
    (sends : List Sent) (graceful : Bool) (p : Process)
    → Ends (SentShutdown graceful p) (send_shutdown sends graceful p)
unfolding send_shutdown
send_shutdown-sends sends graceful p =
    split _ (send_shutdown_message-SendsAll sends (control_is_open p) graceful)
  where
    split :
        (r : _)
        → SendsAll (frame (shutdown_text graceful)) r
        → Ends (SentShutdown graceful p) (elim r as (λ _. Option (Process × Outcome (Unit {0}))) [
          | none ↦ none
          | some (result, bytes) ↦ some (record p { outgoing = p.outgoing ++ bytes }, result)
        ])
    split none h = tt
    split (some (throws e, bytes)) h = (refl, bytes, refl, h)
    split (some (returns _, bytes)) h = (refl, ap (λ l. p.outgoing ++ l) h)

-- The side behind the messages that a poll has read.
abbrev pub heard : List Note → Side → Side
heard ns x = record x { globals = hear_all ns x.globals }

abbrev pub heard_view : List Note → View → View
heard_view ns v = (heard ns v.0, v.1)

poll_events-heard :
    (w : Who) (env : Env) (p : Process)
    → Ends (λ p' o. view p' ≡ heard_view env.notes (view p)) (poll_events w env p)
unfolding poll_events
poll_events-heard w env p = refl

-- Whether an action comes to its end and what stands behind it comes to the poll.
abbrev pub then_polls : {A : Type 0} → Option (Process × Outcome A) → (Process → Bool) → Bool
then_polls none k = false
then_polls (some (p, throws e)) k = false
then_polls (some (p, returns a)) k = k p

-- Whether a turn that goes on comes to its poll.
abbrev pub polls : Who → Env → Process → Bool
polls w env p =
    then_polls (message w env p)
      (λ p1. then_polls (reads w (process_reads_pre_polling env.fuel) p1) (λ _. true))

-- Up to the poll, what holds of the result may depend on whether the poll is reached.
Ends-polls :
    {A B : Type 0} (P : Process → Outcome A → Type 0) (Q : Bool → Process → Outcome B → Type 0)
    (k : Process → Bool) (m : M A) (f : A → M B) (p : Process)
    → Ends P (m p)
    → ((p' : Process) (a : A) → P p' (returns a) → Ends (Q (k p')) (f a p'))
    → ((p' : Process) (e : Exception) → P p' (throws e) → Q false p' (throws e))
    → Ends (Q (then_polls (m p) k)) ((m >>= f) p)
Ends-polls P Q k m f p h g t = split (m p) h
  where
    split :
        (r : _)
        → Ends P r
        → Ends (Q (then_polls r k)) (elim r [
          | none ↦ none
          | some (p', throws e) ↦ some (p', throws e)
          | some (p', returns a) ↦ f a p'
        ])
    split none h = tt
    split (some (p', throws e)) h = t p' e h
    split (some (p', returns a)) h = g p' a h

-- A turn that goes on does not leave the loop, and has read the messages if it came to its poll.
abbrev pub GoesOn : Env → View → Bool → Process → Outcome Bool → Type 0
GoesOn env x polled p' o =
    (view p' ≡ (if polled then heard_view env.notes x else x)) × (o ≢ returns true)

-- The part behind the poll.
settle-GoesOn :
    (w : Who) (env : Env) (count : ℕ) (x : View) (p : Process)
    → view p ≡ heard_view env.notes x
    → Ends (GoesOn env x true) (
        (reads w (process_reads_post_polling env.fuel) >> (process_again env count >> pure false))
          p)
settle-GoesOn w env count x p e =
    Ends-bind (λ p' o. view p' ≡ view p) (GoesOn env x true)
      (reads w (process_reads_post_polling env.fuel)) _ p
      (reads-IsUnseen w (process_reads_post_polling env.fuel) p)
      (λ p1 _ e1.
        Ends-bind (λ p' o. view p' ≡ view p1) (GoesOn env x true) (process_again env count) _ p1
          (process_again-IsUnseen env count p1) (λ p2 _ e2. (e2 ∙ e1 ∙ e, λ h. cc))
          (λ p2 x2 e2. (e2 ∙ e1 ∙ e, λ h. cc)))
      (λ p1 x1 e1. (e1 ∙ e, λ h. cc))

pub go_on-GoesOn :
    (w : Who) (env : Env) (p : Process) → Ends (GoesOn env (view p) (polls w env p)) (go_on w env p)
unfolding go_on
go_on-GoesOn w env p =
    Ends-polls (λ p' o. view p' ≡ view p) (GoesOn env (view p))
      (λ p1. then_polls (reads w (process_reads_pre_polling env.fuel) p1) (λ _. true))
      (message w env) _ p (message-IsUnseen w env p)
      (λ p1 _ e1.
        Ends-polls (λ p' o. view p' ≡ view p1) (GoesOn env (view p)) (λ _. true)
          (reads w (process_reads_pre_polling env.fuel)) _ p1
          (reads-IsUnseen w (process_reads_pre_polling env.fuel) p1)
          (λ p2 _ e2.
            Ends-bind (λ p' o. view p' ≡ heard_view env.notes (view p2)) (GoesOn env (view p) true)
              (poll_events w env) _ p2 (poll_events-heard w env p2)
              (λ p3 count e3.
                settle-GoesOn w env count (view p) p3 (e3 ∙ ap (heard_view env.notes) (e2 ∙ e1)))
              (λ p3 x3 e3. (e3 ∙ ap (heard_view env.notes) (e2 ∙ e1), λ h. cc)))
          (λ p2 x2 e2. (e2 ∙ e1, λ h. cc)))
      (λ p1 x1 e1. (e1, λ h. cc))
