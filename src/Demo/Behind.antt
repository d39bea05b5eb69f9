-- ===== src/Demo/Behind.antt =====
-- That neither of `parent_process` and `child_process` is left behind by the other, from their loops as
-- they are in Demo/Loop: what both do is some steps of Shutdown/Protocol.
mod Tests
use shm_ipc.Base.{
  ◌≡◌, ◌+◌, refl, sym, ◌∙◌, ap, subst, Bool, true, false, some, List, [], ◌++◌, arith,
}
use shm_ipc.Base.Outcome.{Outcome, returns, throws}
use shm_ipc.Shutdown.{do_signal_shutdown}
use shm_ipc.Shutdown.Protocol.{
  Who, parent, child, other, Side, System, set, verdict, Reach, started,
}
use shm_ipc.Shutdown.Protocol as Protocol
use shm_ipc.Shutdown.Leaving.{
  set-same, set-other, set-of-other, is_told, knows, Reach-Kept, verdict-knows,
}
use shm_ipc.Demo.Loop.{Process, Env, turn, act}
use shm_ipc.Demo.Refine.{side_of, Ends}
use shm_ipc.Demo.Simulate.{turn-Simulated}
use shm_ipc.Demo.Moves.{Steps, here, and_then, Matches, Moved, Simulated, is_out, posted, unread}
use shm_ipc.Demo.Both.{
  Both, behind_turn, signalled, Move, tick, signal, turns, Begins, Runs, begin, next,
}

-- What the protocol sees of both processes.
pub record Seen (b : Both) (s : System) : Type 0 where
  pub sides : (w : Who) → Matches (s.side w) (b.process w) (returns (b.out w))
  pub notes : (w : Who) → s.notes w ≡ b.notes w
  pub time : s.now ≡ b.now

for_both : (P : Who → Type 0) (w : Who) → P w → P (other w) → (x : Who) → P x
for_both P parent p q parent = p
for_both P parent p q child = q
for_both P child p q child = p
for_both P child p q parent = q

Matches-set :
    (w : Who) (x : Who → Side) (q : Who → Process) (p : Process) (out : Who → Bool)
    → Matches (x w) p (returns (out w))
    → Matches (x (other w)) (q (other w)) (returns (out (other w)))
    → (v : Who) → Matches (x v) (set q w p v) (returns (out v))
Matches-set parent x q p out m k parent = m
Matches-set parent x q p out m k child = k
Matches-set child x q p out m k child = m
Matches-set child x q p out m k parent = k

Matches-same :
    (p : Process) {x y : Side} {a b : Bool}
    → x ≡ y
    → a ≡ b
    → Matches y p (returns b)
    → Matches x p (returns a)
Matches-same p {x} {y} {a} {b} e f m =
    subst (λ x. Matches x p (returns a)) (sym e) (subst (λ b. Matches y p (returns b)) (sym f) m)

Matches-out :
    (x : Side) (p : Process) (o : Outcome Bool) → Matches x p o → Matches x p (returns (is_out o))
Matches-out x p (throws e) m = m
Matches-out x p (returns true) m = m
Matches-out x p (returns false) m = m

Seen-started : {b : Both} → Begins b → Seen b started
Seen-started {b} i = record {
  sides = λ w. rw (i.in_loop w) (sym (rw (i.no_flags w, i.no_stamp w) refl));
  notes = λ w. sym (i.no_notes w);
  time = sym i.at_start;
}

-- A process that is in its loop is seen as it is.
Seen-side :
    {b : Both} {s : System} (w : Who)
    → Seen b s
    → b.out w ≡ false
    → s.side w ≡ side_of (b.process w)
Seen-side {b} {s} w k at = subst (λ x. Matches (s.side w) (b.process w) (returns x)) at (k.sides w)

Seen-turn :
    {b : Both} {s t : System} (w : Who) (env : Env) (rest : List _) (p : Process) (o : Outcome Bool)
    → Seen b s
    → let q = b.process w in
      let v = verdict w q.globals q.shutdown_timestamp env.now in
      Moved w (unread w env q v rest (s.notes w)) (posted q p o) s t
      → Matches (t.side w) p o
      → Seen (behind_turn w env rest p o b) t
Seen-turn {b} {s} {t} w env rest p o k m e =
    let q = b.process w in
    let v = verdict w q.globals q.shutdown_timestamp env.now in
    let kept = set b.notes w (unread w env q v rest (b.notes w)) in
    let sent = b.notes (other w) ++ posted q p o in
    record {
      sides =
          Matches-set w t.side b.process p (set b.out w (is_out o))
            (Matches-same p refl (set-same b.out w (is_out o)) (Matches-out (t.side w) p o e))
            (Matches-same (b.process (other w)) m.other_side (set-other b.out w (is_out o))
              (k.sides (other w)));
      notes =
          for_both _ w
            (m.own_notes
              ∙ ap (unread w env q v rest) (k.notes w)
              ∙ sym (set-of-other kept w sent ∙ set-same b.notes w _))
            (m.other_notes
              ∙ ap (λ ns. ns ++ posted q p o) (k.notes (other w))
              ∙ sym (set-same kept (other w) sent));
      time = m.same_now ∙ k.time;
    }

-- A move of both is some steps of the protocol.
Move-Steps :
    {b b' : Both} {s : System} → Move b b' → Seen b s → (t : System) × Steps s t × Seen b' t
Move-Steps {b} {s = s} (tick n e) k = (
  record s { now = s.now + n },
  and_then here (Protocol.tick n refl),
  rw e (record { sides = k.sides; notes = k.notes; time = ap (λ x. x + n) k.time }),
)
Move-Steps {b} {s = s} (signal w at e) k =
    let same = Seen-side w k at in
    let x : Side = record (s.side w) { globals = do_signal_shutdown (s.side w).globals } in
    (
      record s { side = set s.side w x },
      and_then here (Protocol.signal w (ap (λ (x : Side). x.left) same) refl),
      rw e (record {
        sides =
            Matches-set w (set s.side w x) b.process _ b.out
              (Matches-same
                (record (b.process w) { globals = do_signal_shutdown (b.process w).globals })
                (set-same s.side w x) at
                (ap (λ (x : Side). record x { globals = do_signal_shutdown x.globals }) same))
              (Matches-same (b.process (other w)) (set-other s.side w x) refl (k.sides (other w)));
        notes = k.notes;
        time = k.time;
      }),
    )
Move-Steps {b} {s = s} (turns w env rest p o at now there ends e) k =
    let (t, m, q) = subst (Ends (Simulated w s (b.process w) _)) ends (
      turn-Simulated w env (b.process w) s rest (Seen-side w k at) (k.time ∙ now)
        (k.notes w ∙ there)) in
    (t, m.steps, rw e (Seen-turn w env rest p o k m q))

Reach-Steps : {s t : System} → Reach s → Steps s t → Reach t
Reach-Steps r here = r
Reach-Steps r (and_then steps step) = Protocol.next (Reach-Steps r steps) step

-- Whatever both processes do from the start of their loops, in any order of their turns, is what the
-- protocol does: it comes to a state with the same flags, notes and time, in which the same
-- processes have left. The notes of a process, behind each turn of the other one, are those that
-- `event_read` reads in the bytes that the turn has sent, and the end of the descriptor where it was
-- the last one.
pub Runs-Reach : {b : Both} → Runs b → (s : System) × Reach s × Seen b s
Runs-Reach (begin i) = (started, Protocol.start, Seen-started i)
Runs-Reach (next r move) =
    let (s, reach, k) = Runs-Reach r in
    let (t, steps, k') = Move-Steps move k in (t, Reach-Steps reach steps, k')

-- However the turns of `parent_process` and `child_process`, signals and time interleave from the
-- start of their loops: where one process has left its loop, also by an exception, and the other has
-- read what is on its control descriptor, the next turn of the other leaves its loop, at any time.
pub Runs-leaves :
    {b : Both} (w : Who)
    → Runs b
    → b.out (other w) ≡ true
    → b.out w ≡ false
    → b.notes w ≡ []
    → (env : Env) → turn w env (b.process w) ≡ some (b.process w, returns true)
unfolding turn
Runs-leaves {b} w r gone at empty env =
    let (s, reach, k) = Runs-Reach r in
    let same = Seen-side w k at in
    let left : (s.side (other w)).left ≡ true =
      (subst (λ x. Matches (s.side (other w)) (b.process (other w)) (returns x)) gone
        (k.sides (other w))).0 in
    let told : is_told (side_of (b.process w)) [] ≡ true =
      subst (λ ns. is_told (side_of (b.process w)) ns ≡ true) (k.notes w ∙ empty)
        (subst (λ x. is_told x (s.notes w) ≡ true) same (Reach-Kept reach w left)) in
    let known : knows (b.process w).globals ≡ true = ground (arith, told) in
    ap (λ v. act w env v (b.process w))
      (verdict-knows w (b.process w).globals (b.process w).shutdown_timestamp env.now known)
