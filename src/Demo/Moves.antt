-- ===== src/Demo/Moves.antt =====
-- What `parent_process` or `child_process` does in a turn, as moves of the protocol.
use shm_ipc.Base.{
  ◌≡◌, refl, sym, ◌∙◌, ap, Bool, true, false, List, [], ◌∷◌, ◌++◌, if◌then◌else◌, append-nil,
  length, drop,
}
use shm_ipc.Base.Outcome.{Outcome, returns, throws}
use shm_ipc.Shutdown.{Verdict, announces, leaves, leaves_forcefully, goes_on}
use shm_ipc.Shutdown.Protocol.{
  Who, other, Note, shutdown, closed, Side, System, set, becomes, apply, read_note, Step, fail,
  deliver,
}
use shm_ipc.Shutdown.Leaving.{set-same, set-other, set-of-other}
use shm_ipc.Demo.Loop.{Process, Env}
use shm_ipc.Demo.Wire.{notes_in}
use shm_ipc.Demo.Refine.{side_of, heard, polls}

pub data Steps (s : System) : System → Type 0 where
  here : Steps s s
  and_then : {t u : System} → Steps s t → Step t u → Steps s u

-- A side of the protocol and a process behind a turn. Out of the loop, the time of the announcement
-- does not matter any more.
abbrev pub Matches : Side → Process → Outcome Bool → Type 0
Matches x p (returns false) = x ≡ side_of p
Matches x p (returns true) = (x.left ≡ true) × (x.globals ≡ p.globals)
Matches x p (throws e) = (x.left ≡ true) × (x.globals ≡ p.globals)

-- What the other process finds on its control descriptor behind a turn from `p` to `p'`: what it reads
-- of the bytes that were sent, and the end of the descriptor where the turn is the last one.
abbrev pub is_out : Outcome Bool → Bool
is_out (throws e) = true
is_out (returns b) = b

abbrev pub posted : Process → Process → Outcome Bool → List Note
posted p p' o =
    notes_in (drop (length p.outgoing) p'.outgoing) ++ (if is_out o then closed ∷ [] else [])

-- What a turn leaves on the own control descriptor: it reads only in its poll.
abbrev pub unread : Who → Env → Process → Verdict → List Note → List Note → List Note
unread w env p goes_on rest all = if polls w env p then rest else all
unread w env p announces rest all = all
unread w env p leaves rest all = all
unread w env p leaves_forcefully rest all = all

-- The protocol goes from `s` to `t`, where only `w` does something.
pub record Moved (w : Who) (after sent : List Note) (s t : System) : Type 0 where
  pub steps : Steps s t
  pub other_side : t.side (other w) ≡ s.side (other w)
  pub own_notes : t.notes w ≡ after
  pub other_notes : t.notes (other w) ≡ s.notes (other w) ++ sent
  pub same_now : t.now ≡ s.now

-- What a turn from `p` is in the protocol.
abbrev pub Simulated : Who → System → Process → List Note → Process → Outcome Bool → Type 0
Simulated w s p after p' o =
    (t : System) × Moved w after (posted p p' o) s t × Matches (t.side w) p' o

-- A step that posts some notes, behind a move that posted none.
pub Moved-becomes :
    (w : Who) (x : Side) (sent after : List Note) {s t : System}
    → Moved w after [] s t
    → Step t (becomes w x sent t)
    → Moved w after sent s (becomes w x sent t)
Moved-becomes w x sent after {s} {t} m step = record {
  steps = and_then m.steps step;
  other_side = set-other t.side w x ∙ m.other_side;
  own_notes = set-of-other t.notes w (t.notes (other w) ++ sent) ∙ m.own_notes;
  other_notes =
      set-same t.notes (other w) (t.notes (other w) ++ sent)
      ∙ ap (λ ns. ns ++ sent) (m.other_notes ∙ append-nil (s.notes (other w)));
  same_now = m.same_now;
}

pub Moved-here : (w : Who) (s : System) → Moved w (s.notes w) [] s s
Moved-here w s = record {
  steps = here;
  other_side = refl;
  own_notes = refl;
  other_notes = sym (append-nil (s.notes (other w)));
  same_now = refl;
}

heard-read_note :
    (n : Note) (ns : List Note) (x : Side) → heard ns (read_note n x) ≡ heard (n ∷ ns) x
heard-read_note closed ns x = refl
heard-read_note (shutdown g) ns x = refl

-- The messages in front are read one by one.
pub Moved-read :
    (w : Who) (ns rest : List Note) {s t : System}
    → Moved w (ns ++ rest) [] s t
    → (u : System) × Moved w rest [] s u × (u.side w ≡ heard ns (t.side w))
Moved-read w [] rest {s} {t} m = (t, m, refl)
Moved-read w (n ∷ ns) rest {s} {t} m =
    let next : System = record t {
      side = set t.side w (read_note n (t.side w));
      notes = set t.notes w (ns ++ rest);
    } in
    let (u, m', e') = Moved-read w ns rest {s = s} {t = next} (record {
      steps = and_then m.steps (deliver w n (ns ++ rest) m.own_notes refl);
      other_side = set-other t.side w (read_note n (t.side w)) ∙ m.other_side;
      own_notes = set-same t.notes w (ns ++ rest);
      other_notes = set-other t.notes w (ns ++ rest) ∙ m.other_notes;
      same_now = m.same_now;
    }) in
    (
      u,
      m',
      e'
          ∙ ap (heard ns) (set-same t.side w (read_note n (t.side w)))
          ∙ heard-read_note n ns (t.side w),
    )

-- A process that is thrown out of its loop, with nothing sent that can be read.
pub Moved-fail :
    (w : Who) (p p' : Process) (after : List Note) {s t : System}
    → Moved w after [] s t
    → (t.side w).left ≡ false
    → (t.side w).globals ≡ p'.globals
    → notes_in (drop (length p.outgoing) p'.outgoing) ≡ []
    → (e : _) → Simulated w s p after p' (throws e)
Moved-fail w p p' after {s} {t} m stays same mute e = (
  apply w leaves t,
  rw mute (Moved-becomes w _ (closed ∷ []) after m (fail w stays refl)),
  (rw set-same refl, rw (set-same, same) refl),
)
