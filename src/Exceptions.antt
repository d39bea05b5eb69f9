-- ===== src/Exceptions.antt =====
-- exceptions.cc: what an internal_error holds. The rest of the model has exceptions as values of
-- Base/Outcome, with the message alone. `backtrace` is what the library function of that name and
-- `backtrace_symbols` give: nothing without HAVE_BACKTRACE, and behind it a null pointer or the names,
-- `none` for a name that is null or at an address up to 0x1000.
use shm_ipc.Base.{◌≡◌, refl, Option, none, some, List, [], ◌∷◌, String, take}

-- `m_backtrace` is the pieces that are written to it, in order.
pub record InternalError : Type 0 where
  pub msg : String
  pub backtrace : List String

abbrev pub name_of : Option String → String
name_of none = "stack_symbol: nullptr"
name_of (some name) = name

abbrev pub print_names : List (Option String) → List String
print_names [] = []
print_names (x ∷ xs) = name_of x ∷ "\n" ∷ print_names xs

abbrev pub print_backtrace : Option (Option (List (Option String))) → List String
print_backtrace none = "stack dump not enabled" ∷ []
print_backtrace (some none) = "backtrace_symbols failed" ∷ []
print_backtrace (some (some names)) = print_names (take 20 names)

unfoldable pub initialize : String → Option (Option (List (Option String))) → InternalError
initialize message backtrace = record { msg = message; backtrace = print_backtrace backtrace }

unfoldable pub what : InternalError → String
what e = e.msg

-- The message comes back, whatever the stack is.
what-initialize :
    (message : String) (backtrace : Option (Option (List (Option String))))
    → what (initialize message backtrace) ≡ message
unfolding what initialize
what-initialize message backtrace = refl
