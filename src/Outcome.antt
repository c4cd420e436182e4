-- ===== src/Outcome.antt =====
-- Python code that may raise: a result, and actions that carry a mutable object. What was written
-- before a raise stays written, so the state comes back beside an error too.
use tristar.Base.{Bool}

pub data Result (E A : Type 0) : Type 0 where
  ok : A → Result E A
  err : E → Result E A

abbrev pub Action : Type 0 → Type 0 → Type 0 → Type 0
Action S E A = S → Result E A × S

-- `except` clauses that turn one kind of error into another.
abbrev pub map_err : {E F A : Type 0} → (E → F) → Result E A → Result F A
map_err f (ok a) = ok a
map_err f (err e) = err (f e)

-- Any error becomes a value.
abbrev pub is_ok : {E A : Type 0} → Result E A → Bool
is_ok (ok _) = Bool.true
is_ok (err _) = Bool.false
