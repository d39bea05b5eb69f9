-- ===== src/Channel/Stream/Replay.antt =====
-- The reader's way through the records that it has consumed since the writer loaded its offset.
use shm_ipc.Base.{ℕ, ◌+◌, ◌≡◌, ◌≢◌, refl, List, [], ◌∷◌, ◌++◌, length, if◌then◌else◌, ◌==◌}
use shm_ipc.Channel.{Channel}
use shm_ipc.Channel.Layout.{Message, span, Holds, IsValid}
use shm_ipc.Channel.Read.{Holds-Front, advanced-Holds, advanced-IsValid}
use shm_ipc.Channel.Stale.{at_read}

-- Where the reader is, from offset `o` on, after some records of a buffer of `size` bytes.
abbrev pub next_from : ℕ → ℕ → ℕ → ℕ
next_from size o n = if o + span n == size then 0 else o + span n

unfoldable pub skip : ℕ → ℕ → List Message → ℕ
skip size o [] = o
skip size o (r ∷ rs) = skip size (next_from size o (length r.payload)) rs

pub skip-append :
    (size o : ℕ) (rs ss : List Message) → skip size o (rs ++ ss) ≡ skip size (skip size o rs) ss
unfolding skip
skip-append size o [] ss = refl
skip-append size o (r ∷ rs) ss = skip-append size (next_from size o (length r.payload)) rs ss

pub append-ne-nil : (rs ss : List Message) → ss ≢ [] → rs ++ ss ≢ []
append-ne-nil [] ss h e = h e
append-ne-nil (r ∷ rs) ss h e = cc

-- Behind any of its records but the last a valid channel holds the rest.
pub replay :
    (ch : Channel) (o : ℕ) (gone rest : List Message)
    → IsValid (at_read o ch)
    → Holds (at_read o ch) (gone ++ rest)
    → rest ≢ []
    → IsValid (at_read (skip ch.size o gone) ch) × Holds (at_read (skip ch.size o gone) ch) rest
unfolding skip
replay ch o [] rest v h more = (v, h)
replay ch o (r ∷ gone) rest v h more =
    replay ch (next_from ch.size o (length r.payload)) gone rest
      (advanced-IsValid v (Holds-Front v h))
      (advanced-Holds v h (λ _. append-ne-nil gone rest more)) more
