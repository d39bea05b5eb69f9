-- ===== src/Shutdown/Leaving.antt =====
-- That neither process of parent.cc and child.cc is left behind by the other.
use shm_ipc.Base.{
  ℕ, ◌≡◌, refl, sym, ◌∙◌, ap, Bool, true, false, ◌&&◌, ◌||◌, Option, List, [], ◌∷◌, ◌++◌, arith,
}
use shm_ipc.Shutdown.{
  Globals, do_signal_shutdown, handle_control_closed, handle_control_shutdown, Verdict, announces,
  leaves, leaves_forcefully, goes_on, parent_verdict, child_verdict,
}
use shm_ipc.Shutdown.Protocol.{
  Who, parent, child, other, Note, shutdown, closed, Side, System, set, verdict, becomes, apply,
  take_turn, read_note, read_all, deliver_all, Step, tick, signal, turn, fail, deliver, Reach,
  start, next,
}

abbrev pub ends : List Note → Bool
ends [] = false
ends (closed ∷ ns) = true
ends (shutdown g ∷ ns) = ends ns

ends-append : (ns ms : List Note) → ends (ns ++ ms) ≡ (ends ns || ends ms)
ends-append [] ms = refl
ends-append (closed ∷ ns) ms = refl
ends-append (shutdown g ∷ ns) ms = ends-append ns ms

abbrev pub knows : Globals → Bool
knows g = g.should_shutdown && g.control_fd_closed

-- The process has left, or knows of the end of the descriptor, or will read of it.
abbrev pub is_told : Side → List Note → Bool
is_told x ns = x.left || (knows x.globals || ends ns)

abbrev pub told : Who → System → Bool
told w s = is_told (s.side w) (s.notes w)

-- Where one has left, the other is told.
abbrev pub Kept : System → Type 0
Kept s = (w : Who) → (s.side (other w)).left ≡ true → told w s ≡ true

read_note-told :
    (n : Note) (x : Side) (ns : List Note)
    → is_told x (n ∷ ns) ≡ true
    → is_told (read_note n x) ns ≡ true
unfolding handle_control_closed handle_control_shutdown
read_note-told closed x ns h = ground (arith, h)
read_note-told (shutdown g) x ns h = ground (arith, h)

becomes-Kept :
    (w : Who) (x : Side) (sent : List Note) (s : System)
    → (s.side w).left ≡ false
    → x.globals ≡ (s.side w).globals
    → (x.left ≡ true → ends sent ≡ true)
    → Kept s
    → Kept (becomes w x sent s)
becomes-Kept parent x sent s at same ending k parent h =
    ground (arith, h, at, same, k parent, ends-append (s.notes child) sent)
becomes-Kept parent x sent s at same ending k child h =
    ground (arith, h, at, same, ending h, k child, ends-append (s.notes child) sent)
becomes-Kept child x sent s at same ending k parent h =
    ground (arith, h, at, same, ending h, k parent, ends-append (s.notes parent) sent)
becomes-Kept child x sent s at same ending k child h =
    ground (arith, h, at, same, k child, ends-append (s.notes parent) sent)

apply-Kept :
    (w : Who) (v : Verdict) (s : System) → (s.side w).left ≡ false → Kept s → Kept (apply w v s)
apply-Kept w goes_on s at k = k
apply-Kept w announces s at k = becomes-Kept w _ _ s at refl (λ h. ground (arith, h, at)) k
apply-Kept w leaves s at k = becomes-Kept w _ _ s at refl (λ _. refl) k
apply-Kept w leaves_forcefully s at k = becomes-Kept w _ _ s at refl (λ _. refl) k

read_note-left : (n : Note) (x : Side) → (read_note n x).left ≡ x.left
read_note-left closed x = refl
read_note-left (shutdown g) x = refl

deliver-Kept :
    (w : Who) (n : Note) (ns : List Note) (s : System)
    → s.notes w ≡ n ∷ ns
    → Kept s
    → Kept (record s { side = set s.side w (read_note n (s.side w)); notes = set s.notes w ns })
deliver-Kept parent n ns s e k parent h =
    read_note-told n (s.side parent) ns (ap (is_told (s.side parent)) (sym e) ∙ k parent h)
deliver-Kept parent n ns s e k child h = k child (sym (read_note-left n (s.side parent)) ∙ h)
deliver-Kept child n ns s e k child h =
    read_note-told n (s.side child) ns (ap (is_told (s.side child)) (sym e) ∙ k child h)
deliver-Kept child n ns s e k parent h = k parent (sym (read_note-left n (s.side child)) ∙ h)

signal-Kept :
    (w : Who) (s : System)
    → Kept s
    → Kept (record s {
      side = set s.side w (record (s.side w) { globals = do_signal_shutdown (s.side w).globals });
    })
unfolding do_signal_shutdown
signal-Kept parent s k parent h = ground (arith, h, k parent)
signal-Kept parent s k child h = ground (arith, h, k child)
signal-Kept child s k parent h = ground (arith, h, k parent)
signal-Kept child s k child h = ground (arith, h, k child)

step-Kept : {s t : System} → Step s t → Kept s → Kept t
step-Kept (tick n e) k = rw e k
step-Kept {s} (signal w at e) k = rw e (signal-Kept w s k)
step-Kept {s} (turn w at e) k = rw e (apply-Kept w _ s at k)
step-Kept {s} (fail w at e) k = rw e (apply-Kept w leaves s at k)
step-Kept {s} (deliver w n ns there e) k = rw e (deliver-Kept w n ns s there k)

pub Reach-Kept : {s : System} → Reach s → Kept s
Reach-Kept start parent h = absurd (ground (arith, h))
Reach-Kept start child h = absurd (ground (arith, h))
Reach-Kept (next r step) w h = step-Kept step (Reach-Kept r) w h

read_all-told :
    (ns : List Note) (x : Side)
    → is_told x ns ≡ true
    → (x.left ≡ false → knows (read_all ns x).globals ≡ true)
read_all-told [] x h at = ground (arith, h, at)
read_all-told (n ∷ ns) x h at =
    read_all-told ns (read_note n x) (read_note-told n x ns h) (read_note-left n x ∙ at)

read_all-left : (ns : List Note) (x : Side) → (read_all ns x).left ≡ x.left
read_all-left [] x = refl
read_all-left (n ∷ ns) x = read_all-left ns (read_note n x) ∙ read_note-left n x

pub verdict-knows :
    (w : Who) (g : Globals) (stamp : Option ℕ) (now : ℕ)
    → knows g ≡ true
    → verdict w g stamp now ≡ leaves
unfolding parent_verdict child_verdict
verdict-knows parent g stamp now h = ground (arith, h)
verdict-knows child g stamp now h = ground (arith, h)

pub set-same {ℓ} : {A : Type ℓ} (f : Who → A) (w : Who) (a : A) → set f w a w ≡ a
set-same f parent a = refl
set-same f child a = refl

pub set-other {ℓ} : {A : Type ℓ} (f : Who → A) (w : Who) (a : A) → set f w a (other w) ≡ f (other w)
set-other f parent a = refl
set-other f child a = refl

pub set-of-other {ℓ} : {A : Type ℓ} (f : Who → A) (w : Who) (a : A) → set f (other w) a w ≡ f w
set-of-other f parent a = refl
set-of-other f child a = refl

-- From the start of both processes, however signals, exceptions, messages and turns of the loops
-- interleave: where one process has left its loop, the other leaves it too, with the first turn that
-- it takes when it has read what is on its control descriptor.
pub Reach-leaves :
    {s : System} (w : Who)
    → Reach s
    → (s.side (other w)).left ≡ true
    → (s.side w).left ≡ false
    → ((take_turn w (deliver_all w s)).side w).left ≡ true
Reach-leaves {s} w r gone here =
    let x = read_all (s.notes w) (s.side w) in
    let known = read_all-told (s.notes w) (s.side w) (Reach-Kept r w gone) here in
    let v = verdict-knows w x.globals x.shutdown_timestamp s.now known in
    rw (set-same s.side w x, v, set-same) refl
