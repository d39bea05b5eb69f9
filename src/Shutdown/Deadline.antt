-- ===== src/Shutdown/Deadline.antt =====
-- How long a process of parent.cc or child.cc stays in its loop when it has announced its shutdown.
use shm_ipc.Base.{
  ℕ, ◌+◌, ◌*◌, ◌<◌, ◌≤◌, ◌^◌, ◌≡◌, ◌⊎◌, inl, inr, refl, Bool, true, Option, none, some, arith,
}
use shm_ipc.Shutdown.{
  Globals, do_signal_shutdown, handle_control_closed, handle_control_shutdown, Verdict, announces,
  leaves, leaves_forcefully, goes_on, parent_verdict, child_verdict, second, Loop, poll_timeout,
  child_interval,
}
use shm_ipc.Shutdown.Protocol.{
  Who, parent, child, Note, shutdown, closed, Side, System, set, verdict, apply, take_turn,
  read_note, Step, tick, signal, turn, fail, deliver, Reach, start, next,
}

-- Who has announced its shutdown shuts down.
abbrev is_sound : Side → Bool
is_sound x = elim x.shutdown_timestamp [ none ↦ true | some t ↦ x.globals.should_shutdown ]

abbrev Kept : System → Type 0
Kept s = (w : Who) → is_sound (s.side w) ≡ true

set_sound :
    (f : Who → Side) (w : Who) (x : Side)
    → is_sound x ≡ true
    → ((v : Who) → is_sound (f v) ≡ true)
    → (v : Who) → is_sound (set f w x v) ≡ true
set_sound f parent x h k parent = h
set_sound f parent x h k child = k child
set_sound f child x h k parent = k parent
set_sound f child x h k child = h

read_note_sound : (n : Note) (x : Side) → is_sound x ≡ true → is_sound (read_note n x) ≡ true
unfolding handle_control_closed handle_control_shutdown
read_note_sound closed x h = ground (arith, h)
read_note_sound (shutdown g) x h = ground (arith, h)

announces-shutdown :
    (w : Who) (g : Globals) (stamp : Option ℕ) (now : ℕ)
    → verdict w g stamp now ≡ announces
    → g.should_shutdown ≡ true
unfolding parent_verdict child_verdict
announces-shutdown parent g stamp now e = ground (arith, e)
announces-shutdown child g stamp now e = ground (arith, e)

apply-Kept :
    (w : Who) (v : Verdict) (s : System)
    → (v ≡ announces → (s.side w).globals.should_shutdown ≡ true)
    → Kept s
    → Kept (apply w v s)
apply-Kept w goes_on s h k = k
apply-Kept w announces s h k = set_sound s.side w _ (h refl) k
apply-Kept w leaves s h k = set_sound s.side w _ (k w) k
apply-Kept w leaves_forcefully s h k = set_sound s.side w _ (k w) k

signal_sound :
    (x : Side)
    → is_sound x ≡ true
    → is_sound (record x { globals = do_signal_shutdown x.globals }) ≡ true
unfolding do_signal_shutdown
signal_sound x h = ground (arith, h)

step-Kept : {s t : System} → Step s t → Kept s → Kept t
step-Kept (tick n e) k = rw e k
step-Kept {s} (signal w at e) k = rw e (set_sound s.side w _ (signal_sound (s.side w) (k w)) k)
step-Kept {s} (turn w at e) k = rw e (
    apply-Kept w _ s (announces-shutdown w (s.side w).globals (s.side w).shutdown_timestamp s.now)
      k)
step-Kept {s} (fail w at e) k = rw e (apply-Kept w leaves s (λ q. absurd (ground (arith, q))) k)
step-Kept {s} (deliver w n ns there e) k =
    rw e (set_sound s.side w _ (read_note_sound n (s.side w) (k w)) k)

Reach-Kept : {s : System} → Reach s → Kept s
Reach-Kept start w = refl
Reach-Kept (next r step) w = step-Kept step (Reach-Kept r) w

verdict-late :
    (w : Who) (g : Globals) (t now : ℕ)
    → g.should_shutdown ≡ true
    → t + 5 * second < now
    → (verdict w g (some t) now ≡ leaves) ⊎ (verdict w g (some t) now ≡ leaves_forcefully)
unfolding parent_verdict child_verdict
verdict-late parent g t now h late = ground (arith, h)
verdict-late child g t now h late = ground (arith, h)

set-left : (f : Who → Side) (w : Who) (x : Side) → x.left ≡ true → (set f w x w).left ≡ true
set-left f parent x h = h
set-left f child x h = h

-- However the steps of both processes interleave: a process that has announced its shutdown and is
-- still in its loop leaves it with its first turn more than five seconds later.
pub Reach-deadline :
    {s : System} (w : Who) (t : ℕ)
    → Reach s
    → (s.side w).shutdown_timestamp ≡ some t
    → t + 5 * second < s.now
    → ((take_turn w s).side w).left ≡ true
Reach-deadline {s} w t r announced late =
    let sound : (s.side w).globals.should_shutdown ≡ true =
      ground (arith, announced, Reach-Kept r w) in
    elim (verdict-late w (s.side w).globals t s.now sound late) [
      | inl v ↦ rw (announced, v) (set-left s.side w _ refl)
      | inr v ↦ rw (announced, v) (set-left s.side w _ refl)
    ]

-- The time-out that a loop of either process gives to do_poll fits an int.
pub poll_timeout-small :
    (interval : ℕ) (l : Loop) (now : ℕ)
    → interval ≤ child_interval
    → poll_timeout interval l now < 2 ^ 31
unfolding poll_timeout
poll_timeout-small interval l now h = omega arith
