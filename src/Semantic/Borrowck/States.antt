-- ===== src/Semantic/Borrowck/States.antt =====
-- What the states of the checker can be, which names it can report, and what it makes of branches and
-- loops.
use yidika.Base.{
  ◌≡◌, ◌≢◌, ◌⊎◌, inl, inr, Bool, true, false, Option, none, some, List, [], ◌∷◌, arith,
  if◌then◌else◌, Bool-cases, Text, text_eq, text_eq_iff,
}
use yidika.Syntax.Ast.{Param, StmtList}
use yidika.Semantic.Borrowck.{
  VarState, live, moved, borrowed, BorrowError, BorrowChecker, new, check_function,
}
use yidika.Semantic.Borrowck.Events.{
  uses, moves, binds, encloses, done, then_, Event, Events, names, of_stmts, insert_names, step,
  run,
}
use yidika.Semantic.Borrowck.Runs.{check_stmts-run, insert_params-insert_names}
use yidika.Semantic.Borrowck.Sound.{
  UseAfterMove, UsedHere, become, moved_state, param_state, step-vars, param_start,
}

abbrev pub NotBorrowed : Option VarState → Type 0
NotBorrowed (some (borrowed n)) = ⊥
NotBorrowed _ = Unit {0}

moved_state-NotBorrowed : (st : Option VarState) → NotBorrowed st → NotBorrowed (moved_state st)
moved_state-NotBorrowed none h = tt
moved_state-NotBorrowed (some live) h = tt
moved_state-NotBorrowed (some moved) h = tt
moved_state-NotBorrowed (some (borrowed n)) h = absurd h

if-NotBorrowed :
    (b : Bool) (s t : Option VarState)
    → NotBorrowed s
    → NotBorrowed t
    → NotBorrowed (if b then s else t)
if-NotBorrowed true s t hs ht = hs
if-NotBorrowed false s t hs ht = ht

become-NotBorrowed :
    (e : Event) (x : Text) (st : Option VarState) → NotBorrowed st → NotBorrowed (become e x st)
become-NotBorrowed (uses y span) x st h = h
become-NotBorrowed (moves y) x st h =
    if-NotBorrowed (text_eq y x) _ _ (moved_state-NotBorrowed st h) h
become-NotBorrowed (binds y) x st h = if-NotBorrowed (text_eq y x) _ _ tt h
become-NotBorrowed (encloses xs body) x st h = h

run-NotBorrowed :
    (r : Events) (c : BorrowChecker) (x : Text)
    → NotBorrowed (c.vars x)
    → NotBorrowed ((run r c).vars x)
unfolding run
run-NotBorrowed done c x h = h
run-NotBorrowed (then_ e r) c x h =
    run-NotBorrowed r (step e c) x (rw step-vars (become-NotBorrowed e x (c.vars x) h))

param_state-NotBorrowed : (xs : List Text) (x : Text) → NotBorrowed (param_state xs x)
param_state-NotBorrowed [] x = tt
param_state-NotBorrowed (y ∷ ys) x = keep (param_state ys x) (param_state-NotBorrowed ys x)
  where
    keep :
        (o : Option VarState)
        → NotBorrowed o
        → NotBorrowed (elim o [ none ↦ if text_eq y x then some live else none | some s ↦ some s ])
    keep none h = if-NotBorrowed (text_eq y x) _ _ tt tt
    keep (some s) h = h

-- After `check_function` no variable is in state `Borrowed`, whatever the function.
pub check_function-NotBorrowed :
    (ps : List Param) (body : StmtList) (c : BorrowChecker) (x : Text)
    → NotBorrowed ((check_function ps body c).0.vars x)
unfolding check_function
check_function-NotBorrowed ps body c x =
    rw (check_stmts-run, insert_params-insert_names)
      (run-NotBorrowed (of_stmts body done) (insert_names (names ps) new) x
        (rw param_start (param_state-NotBorrowed (names ps) x)))

-- The name is passed to a call as a bare argument somewhere among the events.
abbrev mutual
  pub Passed : Text → Events → Type 0
  Passed x done = ⊥
  Passed x (then_ e r) = PassedHere x e ⊎ Passed x r

  pub PassedHere : Text → Event → Type 0
  PassedHere x (uses y span) = ⊥
  PassedHere x (moves y) = y ≡ x
  PassedHere x (binds y) = ⊥
  PassedHere x (encloses xs body) = Passed x body

abbrev NotMoved : Option VarState → Type 0
NotMoved st = st ≢ some moved

pub param_state-NotMoved : (xs : List Text) (x : Text) → NotMoved (param_state xs x)
param_state-NotMoved [] x = cc
param_state-NotMoved (y ∷ ys) x = ground (arith, param_state-NotMoved ys x)

become-NotMoved :
    (e : Event) (x : Text) (st : Option VarState)
    → NotMoved st
    → PassedHere x e ⊎ NotMoved (become e x st)
become-NotMoved (uses y span) x st n = inr n
become-NotMoved (moves y) x st n = elim (Bool-cases (text_eq y x)) [
  | inl same ↦ inl ((text_eq_iff y x).0 same)
  | inr other ↦ inr (rw other n)
]
become-NotMoved (binds y) x st n = inr (ground arith)
become-NotMoved (encloses xs body) x st n = inr n

then_-Passed :
    (x : Text) (st : Option VarState) (e : Event) (r : Events)
    → NotMoved st
    → (NotMoved (become e x st) → Passed x r)
    → PassedHere x e ⊎ Passed x r
then_-Passed x st e r n later = elim (become-NotMoved e x st n) [
  | inl here ↦ inl here
  | inr m ↦ inr (later m)
]

mutual
  UseAfterMove-Passed :
      (b : BorrowError) (st : Option VarState) (r : Events)
      → NotMoved st
      → UseAfterMove b st r
      → Passed b.name r
  UseAfterMove-Passed b st done n h = h
  UseAfterMove-Passed b st (then_ e r) n h = elim h [
    | inl used ↦ inl (UsedHere-PassedHere b st e n used)
    | inr later ↦
        then_-Passed b.name st e r n (λ m. UseAfterMove-Passed b (become e b.name st) r m later)
  ]

  UsedHere-PassedHere :
      (b : BorrowError) (st : Option VarState) (e : Event)
      → NotMoved st
      → UsedHere b st e
      → PassedHere b.name e
  UsedHere-PassedHere b st (uses y span) n h = absurd (n h.0)
  UsedHere-PassedHere b st (moves y) n h = absurd h
  UsedHere-PassedHere b st (binds y) n h = absurd h
  UsedHere-PassedHere b st (encloses xs body) n h =
      UseAfterMove-Passed b (param_state xs b.name) body (param_state-NotMoved xs b.name) h
