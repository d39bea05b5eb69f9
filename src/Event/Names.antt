-- ===== src/Event/Names.antt =====
-- The names of errors in torrent/system/event.cc.
use Prim.Native.String.{String}
use shm_ipc.Base.{
  ℕ, suc, ◌<◌, ◌≡◌, ◌≢◌, refl, ==_true, ==_false, some, List, [], ◌∷◌, arith, ◌⊎◌, inl, inr, ap,
  sym, ◌-◌,
}
use shm_ipc.Poll.Waiting.{ℤ, pos}
use shm_ipc.Event.{errno_names, find_name, errno_enum}

-- What makes two labels of a `switch` different.
abbrev Differs : (String → ℕ) → String → List String → Type 0
Differs number n [] = Unit {0}
Differs number n (m ∷ ms) = (number n ≢ number m) × Differs number n ms

abbrev pub AllDiffer : (String → ℕ) → List String → Type 0
AllDiffer number [] = Unit {0}
AllDiffer number (n ∷ ns) = Differs number n ns × AllDiffer number ns

abbrev pub Among : String → List String → Type 0
Among n [] = ⊥
Among n (m ∷ ms) = (n ≡ m) ⊎ Among n ms

Differs-ne :
    (number : String → ℕ) (n m : String) (ms : List String)
    → Differs number m ms
    → Among n ms
    → number m ≢ number n
Differs-ne number n m [] d a = elim a [ ]
Differs-ne number n m (k ∷ ms) d (inl e) = rw e d.0
Differs-ne number n m (k ∷ ms) d (inr a) = Differs-ne number n m ms d.1 a

find_name-number :
    (number : String → ℕ) (n : String) (ns : List String)
    → AllDiffer number ns
    → Among n ns
    → find_name number (number n) ns ≡ some n
unfolding find_name
find_name-number number n [] d a = elim a [ ]
find_name-number number n (m ∷ ms) d (inl e) =
    rw (==_true (number m) (number n) (ap number (sym e))) (ap (λ (k : String). some k) (sym e))
find_name-number number n (m ∷ ms) d (inr a) =
    rw (==_false (number m) (number n) (Differs-ne number n m ms d.0 a))
      (find_name-number number n ms d.1 a)

named :
    (number : String → ℕ) (decimal : ℤ → String) (n : String) (k : ℕ)
    → number n ≡ suc k
    → AllDiffer number errno_names
    → Among n errno_names
    → errno_enum number decimal (pos (suc k)) ≡ n
unfolding errno_enum
named number decimal n k e d a =
    let found : find_name number (suc k) errno_names ≡ some n =
      rw e at (find_name-number number n errno_names d a) in
    rw (found, errno_enum) refl

-- Where the numbers of errno.h are positive, and different as the labels of the first `switch` have to
-- be: the number of each label has that label's name, and a label of the second `switch` with a number
-- of the first has the name of the latter.
pub errno_enum-number :
    (number : String → ℕ) (decimal : ℤ → String) (n m : String)
    → AllDiffer number errno_names
    → Among n errno_names
    → 0 < number n
    → number m ≡ number n
    → errno_enum number decimal (pos (number m)) ≡ n
errno_enum-number number decimal n m d a positive same =
    let e : number n ≡ suc (number n - 1) = omega arith in
    rw (same, e) (named number decimal n (number n - 1) e d a)
