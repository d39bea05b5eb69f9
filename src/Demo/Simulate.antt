-- ===== src/Demo/Simulate.antt =====
-- Each turn of `parent_process` and `child_process` is some steps of the protocol.
use shm_ipc.Base.{
  ℕ, ◌∷◌, length, drop, drop-first, drop-whole, ◌≡◌, refl, sym, ◌∙◌, ap, Bool, true, false, some,
  List, [], ◌++◌, if◌then◌else◌, subst,
}
use shm_ipc.Base.Outcome.{Outcome, returns, throws}
use shm_ipc.Shutdown.{skipped, Verdict, announces, leaves, leaves_forcefully, goes_on}
use shm_ipc.Shutdown.Protocol.{
  Who, parent, child, other, Note, shutdown, closed, Side, System, set, verdict, becomes, apply,
  take_turn, read_note, Step, fail, deliver,
}
use shm_ipc.Shutdown.Protocol as Protocol
use shm_ipc.Shutdown.Leaving.{set-same}
use shm_ipc.Demo.Loop.{Process, Env, ◌>>◌, pure, act, go_on, turn, stamp, send_shutdown}
use shm_ipc.Control.{frame}
use shm_ipc.Control.Send.{Cut, shutdown_text}
use shm_ipc.Demo.Wire.{notes_in, notes_in-nil, notes_in-frame, notes_in-Cut}
use shm_ipc.Demo.Refine.{
  side_of, Ends, Ends-bind, Ends-map, heard, polls, GoesOn, go_on-GoesOn, SentShutdown,
  send_shutdown-sends, View, view, heard_view,
}
use shm_ipc.Demo.Moves.{Moved, Moved-becomes, Moved-fail, Moved-here, Moved-read, Simulated, unread}

-- The notes in what has been sent: of nothing, of a whole message and of a part of one.
module _ (before after : List ℕ) where
  mute : after ≡ before → notes_in (drop (length before) after) ≡ []
  mute e = ap notes_in (rw e (drop-whole before)) ∙ notes_in-nil

  added : (bytes : List ℕ) → after ≡ before ++ bytes → drop (length before) after ≡ bytes
  added bytes e = rw e (drop-first (length before) before bytes refl)

  whole :
      (graceful : Bool)
      → after ≡ before ++ frame (shutdown_text graceful)
      → notes_in (drop (length before) after) ≡ shutdown graceful ∷ []
  whole graceful e = ap notes_in (added _ e) ∙ notes_in-frame graceful

  short :
      (graceful : Bool) (bytes : List ℕ)
      → after ≡ before ++ bytes
      → Cut (frame (shutdown_text graceful)) bytes
      → notes_in (drop (length before) after) ≡ []
  short graceful bytes e cut = ap notes_in (added bytes e) ∙ notes_in-Cut graceful bytes cut

parts :
    (ns : List Note) (polled : Bool) (v u : View)
    → v ≡ (if polled then heard_view ns u else u)
    → (v.0 ≡ (if polled then heard ns u.0 else u.0)) × (v.1 ≡ u.1)
parts ns true v u e = (ap (λ x. x.0) e, ap (λ x. x.1) e)
parts ns false v u e = (ap (λ x. x.0) e, ap (λ x. x.1) e)

module _ (w : Who) (env : Env) (p : Process) (s : System) (rest : List Note)
    (same : s.side w ≡ side_of p) (time : s.now ≡ env.now)
    (there : s.notes w ≡ env.notes ++ rest) where
  in_loop : (s.side w).left ≡ false
  in_loop = ap (λ (x : Side). x.left) same

  -- The top of the loop, where it comes to `v`.
  top : (v : Verdict) → verdict w p.globals p.shutdown_timestamp env.now ≡ v → Step s (apply w v s)
  top v e = Protocol.turn w in_loop (ap (λ (v : Verdict). apply w v s) (sym (rw (same, time) e)))

  -- The protocol up to the end of a turn that goes on.
  seen :
      (polled : Bool)
      → (t : System) × Moved w (if polled then rest else s.notes w) [] s t
        × (t.side w ≡ (if polled then heard env.notes (side_of p) else side_of p))
  seen false = (s, Moved-here w s, same)
  seen true =
      let (t, m, e) =
        Moved-read w env.notes rest (subst (λ ns. Moved w ns [] s s) there (Moved-here w s)) in
      (t, m, e ∙ ap (heard env.notes) same)

  going_on :
      (polled : Bool) (p' : Process) (o : Outcome Bool)
      → GoesOn env (view p) polled p' o
      → Simulated w s p (if polled then rest else s.notes w) p' o
  going_on polled p' (returns true) (e, stay) = absurd (stay refl)
  going_on polled p' (returns false) (e, stay) =
      let (e', none_sent) = parts env.notes polled (view p') (view p) e in
      let (t, m, q) = seen polled in (t, rw (mute p.outgoing p'.outgoing none_sent) m, q ∙ sym e')
  going_on polled p' (throws x) (e, stay) =
      let (e', none_sent) = parts env.notes polled (view p') (view p) e in
      let (t, m, q) = seen polled in
      Moved-fail w p p' _ m (ap (λ (x : Side). x.left) (q ∙ sym e'))
        (ap (λ (x : Side). x.globals) (q ∙ sym e')) (mute p.outgoing p'.outgoing none_sent) x

  leaving :
      verdict w p.globals p.shutdown_timestamp env.now ≡ leaves
      → Simulated w s p (s.notes w) p (returns true)
  leaving v = (
    apply w leaves s,
    rw (mute p.outgoing p.outgoing refl) (Moved-becomes w _ _ _ (Moved-here w s) (top leaves v)),
    (rw set-same refl, rw (set-same, same) refl),
  )

  leaving_forcefully :
      verdict w p.globals p.shutdown_timestamp env.now ≡ leaves_forcefully
      → Ends (Simulated w s p (s.notes w)) ((send_shutdown env.sends false >> pure true) p)
  leaving_forcefully v =
      Ends-bind (SentShutdown false p) (Simulated w s p (s.notes w)) (send_shutdown env.sends false)
        _ p (send_shutdown-sends env.sends false p)
        (λ p' _ (e, all). (
          apply w leaves_forcefully s,
          rw (whole p.outgoing p'.outgoing false all)
              (Moved-becomes w _ _ _ (Moved-here w s) (top leaves_forcefully v)),
          (rw set-same refl, rw (set-same, same) (ap (λ (x : Side). x.globals) (sym e))),
        ))
        (λ p' x (e, bytes, more, cut).
          Moved-fail w p p' _ (Moved-here w s) in_loop (ap (λ (x : Side). x.globals) (same ∙ sym e))
            (short p.outgoing p'.outgoing false bytes more cut) x)

  announced-side :
      (apply w announces s).side w ≡ side_of (record p { shutdown_timestamp = some env.now })
  announced-side = rw (set-same, same, time) refl

  announcing :
      verdict w p.globals p.shutdown_timestamp env.now ≡ announces
      → Ends
          (Simulated w s p (s.notes w))
          ((stamp env.now >> (send_shutdown env.sends true >> pure false)) p)
  announcing v =
      let p1 : Process = record p { shutdown_timestamp = some env.now; loop = skipped p.loop } in
      Ends-bind (SentShutdown true p1) (Simulated w s p (s.notes w)) (send_shutdown env.sends true)
        _ p1 (send_shutdown-sends env.sends true p1)
        (λ p' _ (e, all). (
          apply w announces s,
          rw (whole p.outgoing p'.outgoing true all)
              (Moved-becomes w _ _ _ (Moved-here w s) (top announces v)),
          announced-side ∙ sym e,
        ))
        (λ p' x (e, bytes, more, cut).
          Moved-fail w p p' _ (Moved-here w s) in_loop
            (ap (λ (x : Side). x.globals) same ∙ ap (λ (x : Side). x.globals) (sym e))
            (short p.outgoing p'.outgoing true bytes more cut) x)

  act-Simulated :
      (v : Verdict)
      → verdict w p.globals p.shutdown_timestamp env.now ≡ v
      → Ends (Simulated w s p (unread w env p v rest (s.notes w))) (act w env v p)
  act-Simulated goes_on v =
      Ends-map (going_on (polls w env p)) (go_on w env p) (go_on-GoesOn w env p)
  act-Simulated leaves v = leaving v
  act-Simulated leaves_forcefully v = leaving_forcefully v
  act-Simulated announces v = announcing v

-- A turn of `parent_process` or `child_process` is some steps of the protocol, whatever the system
-- does in it: where the protocol sees the process in its loop at the time of the turn, with the
-- messages that its control descriptor reads in front of its unread ones, it comes by its steps to
-- what it sees behind the turn. A process that leaves its loop, or is thrown out of it, has left in
-- the protocol with the same flags, and one that goes on is the same side of it; the messages are read
-- if the turn came to its poll; and the other process has the notes that it reads of what was sent.
pub turn-Simulated :
    (w : Who) (env : Env) (p : Process) (s : System) (rest : List Note)
    → s.side w ≡ side_of p
    → s.now ≡ env.now
    → s.notes w ≡ env.notes ++ rest
    → let v = verdict w p.globals p.shutdown_timestamp env.now in
      Ends (Simulated w s p (unread w env p v rest (s.notes w))) (turn w env p)
unfolding turn
turn-Simulated w env p s rest same time there =
    act-Simulated w env p s rest same time there (verdict w p.globals p.shutdown_timestamp env.now)
      refl
