-- ===== src/Semantic/Borrowck/Sound.antt =====
-- Exactly which errors the checker reports: the uses of a name after it was moved.
use yidika.Base.{
  ◌≡◌, refl, sym, ◌∙◌, ◌≢◌, ◌↔◌, ◌⊎◌, inl, inr, Option, none, some, List, [], ◌∷◌, ◌++◌, arith,
  ◌==◌, if◌then◌else◌, Text, text_eq, text_eq_iff, subst,
}
use yidika.Diagnostics.{Span}
use yidika.Semantic.Borrowck.{
  VarState, live, moved, borrowed, BorrowError, BorrowChecker, insert, new, set_var, is_movable,
  check_use, move_ident, insert_params, extend_errors, check_stmts, check_function,
}
use yidika.Semantic.Borrowck.Events.{
  uses, moves, binds, encloses, done, then_, Event, Events, names, of_stmts, insert_names, step,
  run,
}
use yidika.Semantic.Borrowck.Runs.{check_stmts-run, insert_params-insert_names}
use yidika.Syntax.Ast.{Param, StmtList}

abbrev pub In : BorrowError → List BorrowError → Type 0
In b [] = ⊥
In b (x ∷ xs) = (b ≡ x) ⊎ In b xs

In-append : (b : BorrowError) (xs ys : List BorrowError) → In b (xs ++ ys) → In b xs ⊎ In b ys
In-append b [] ys h = inr h
In-append b (x ∷ xs) ys (inl e) = inl (inl e)
In-append b (x ∷ xs) ys (inr h) = elim (In-append b xs ys h) [ inl l ↦ inl (inr l) | inr r ↦ inr r ]

In-append_left : (b : BorrowError) (xs ys : List BorrowError) → In b xs → In b (xs ++ ys)
In-append_left b [] ys h = absurd h
In-append_left b (x ∷ xs) ys (inl e) = inl e
In-append_left b (x ∷ xs) ys (inr h) = inr (In-append_left b xs ys h)

In-append_right : (b : BorrowError) (xs ys : List BorrowError) → In b ys → In b (xs ++ ys)
In-append_right b [] ys h = h
In-append_right b (x ∷ xs) ys h = inr (In-append_right b xs ys h)

-- What an event makes of the state of one name. A moved or unknown name stays so when it is moved.
abbrev pub moved_state : Option VarState → Option VarState
moved_state none = none
moved_state (some live) = some moved
moved_state (some moved) = some moved
moved_state (some (borrowed n)) = if n == 0 then some moved else some (borrowed n)

abbrev pub become : Event → Text → Option VarState → Option VarState
become (uses y span) x st = st
become (binds y) x st = if text_eq y x then some live else st
become (moves y) x st = if text_eq y x then moved_state st else st
become (encloses xs body) x st = st

-- In the body of a nested function its parameters are live and no other name is known.
abbrev pub param_state : List Text → Text → Option VarState
param_state [] x = none
param_state (y ∷ ys) x = elim (param_state ys x) [
  | none ↦ if text_eq y x then some live else none
  | some s ↦ some s
]

-- `b` is the use of a name that has been moved and not assigned since, read off the events; the
-- name starts in state `st`.
abbrev mutual
  pub UseAfterMove : BorrowError → Option VarState → Events → Type 0
  UseAfterMove b st done = ⊥
  UseAfterMove b st (then_ e r) = UsedHere b st e ⊎ UseAfterMove b (become e b.name st) r

  pub UsedHere : BorrowError → Option VarState → Event → Type 0
  UsedHere b st (uses y span) = (st ≡ some moved) × (y ≡ b.name) × (span ≡ b.span)
  UsedHere b st (encloses xs body) = UseAfterMove b (param_state xs b.name) body
  UsedHere b st (moves y) = ⊥
  UsedHere b st (binds y) = ⊥

pub step-vars :
    (e : Event) (c : BorrowChecker) (x : Text) → (step e c).vars x ≡ become e x (c.vars x)
unfolding step check_use move_ident insert is_movable
step-vars (uses y span) c x = ground arith
step-vars (moves y) c x = ground (arith, text_eq_iff y x)
step-vars (binds y) c x = refl
step-vars (encloses xs body) c x = refl

or_state : Option VarState → Option VarState → Option VarState
or_state none d = d
or_state (some s) d = some s

insert_names-vars :
    (xs : List Text) (c : BorrowChecker) (x : Text)
    → (insert_names xs c).vars x ≡ or_state (param_state xs x) (c.vars x)
unfolding insert_names insert or_state
insert_names-vars [] c x = refl
insert_names-vars (y ∷ ys) c x = insert_names-vars ys (set_var y live c) x ∙ ground arith

insert_names-errors : (xs : List Text) (c : BorrowChecker) → (insert_names xs c).errors ≡ c.errors
unfolding insert_names
insert_names-errors [] c = refl
insert_names-errors (y ∷ ys) c = insert_names-errors ys (set_var y live c)

moved_cases : (o : Option VarState) → (o ≡ some moved) ⊎ (o ≢ some moved)
moved_cases none = inr cc
moved_cases (some moved) = inl refl
moved_cases (some live) = inr (ground arith)
moved_cases (some (borrowed n)) = inr (ground arith)

use_of_moved :
    (y : Text) (span : Span) (c : BorrowChecker)
    → c.vars y ≡ some moved
    → (check_use y span c).errors ≡ c.errors ++ (record { span = span; name = y } ∷ [])
unfolding check_use
use_of_moved y span c h = ground arith

use_of_other :
    (y : Text) (span : Span) (c : BorrowChecker) → c.vars y ≢ some moved → check_use y span c ≡ c
unfolding check_use
use_of_other y span c h = ground arith

use_reported :
    (b : BorrowError) (y : Text) (span : Span) (c : BorrowChecker)
    → In b (check_use y span c).errors
    → In b c.errors ⊎ UsedHere b (c.vars b.name) (uses y span)
use_reported b y span c h = elim (moved_cases (c.vars y)) [
  | inl m ↦ elim (In-append b c.errors _ (rw (use_of_moved y span c m) at h)) [
    | inl old ↦ inl old
    | inr new ↦ elim new [
      | inl e ↦ inr (
          subst (λ (z : BorrowError). (c.vars z.name ≡ some moved) × (y ≡ z.name) × (span ≡ z.span))
            (sym e) (m, refl, refl))
      | inr n ↦ absurd n
    ]
  ]
  | inr n ↦ inl (rw (use_of_other y span c n) at h)
]

use_reports :
    (b : BorrowError) (y : Text) (span : Span) (c : BorrowChecker)
    → In b c.errors ⊎ UsedHere b (c.vars b.name) (uses y span)
    → In b (check_use y span c).errors
use_reports b y span c (inl old) = elim (moved_cases (c.vars y)) [
  | inl m ↦ rw (use_of_moved y span c m) (In-append_left b c.errors _ old)
  | inr n ↦ rw (use_of_other y span c n) old
]
use_reports b y span c (inr (m, ey, es)) =
    rw (use_of_moved y span c (rw ey m))
      (In-append_right b c.errors _ (inl (λ i. record { span = sym es i; name = sym ey i })))

move_ident-errors : (y : Text) (c : BorrowChecker) → (move_ident y c).errors ≡ c.errors
unfolding move_ident
move_ident-errors y c = ground arith

pub param_start : (xs : List Text) (x : Text) → (insert_names xs new).vars x ≡ param_state xs x
unfolding or_state
param_start xs x = insert_names-vars xs new x ∙ or_none (param_state xs x)
  where
    or_none : (o : Option VarState) → or_state o none ≡ o
    or_none none = refl
    or_none (some s) = refl

nested_reported :
    (b : BorrowError) (xs : List Text) (body : Events) (c : BorrowChecker)
    → (In b (run body (insert_names xs new)).errors
        → In b (insert_names xs new).errors
          ⊎ UseAfterMove b ((insert_names xs new).vars b.name) body)
    → In b (extend_errors (run body (insert_names xs new)) c).errors
    → In b c.errors ⊎ UseAfterMove b (param_state xs b.name) body
nested_reported b xs body c ih h = elim (In-append b c.errors _ h) [
  | inl old ↦ inl old
  | inr new_one ↦ elim (ih new_one) [
    | inl start ↦ absurd (rw (insert_names-errors xs new) at start)
    | inr used ↦ inr (rw (param_start xs b.name) at used)
  ]
]

later_reported :
    (b : BorrowError) (e : Event) (r : Events) (c : BorrowChecker)
    → (In b (step e c).errors → In b c.errors ⊎ UsedHere b (c.vars b.name) e)
    → In b (step e c).errors ⊎ UseAfterMove b ((step e c).vars b.name) r
    → In b c.errors ⊎ UseAfterMove b (c.vars b.name) (then_ e r)
later_reported b e r c ih (inl now) = elim (ih now) [
  | inl old ↦ inl old
  | inr used ↦ inr (inl used)
]
later_reported b e r c ih (inr later) = inr (inr (rw (step-vars e c b.name) at later))

mutual
  unfolding run

  step_reported :
      (b : BorrowError) (e : Event) (c : BorrowChecker)
      → In b (step e c).errors
      → In b c.errors ⊎ UsedHere b (c.vars b.name) e
  step_reported b (uses y span) c h = use_reported b y span c h
  step_reported b (moves y) c h = inl (rw (move_ident-errors y c) at h)
  step_reported b (binds y) c h = inl h
  step_reported b (encloses xs body) c h =
      nested_reported b xs body c (λ k. run_reported b body (insert_names xs new) k) h

  run_reported :
      (b : BorrowError) (r : Events) (c : BorrowChecker)
      → In b (run r c).errors
      → In b c.errors ⊎ UseAfterMove b (c.vars b.name) r
  run_reported b done c h = inl h
  run_reported b (then_ e r) c h =
      later_reported b e r c (step_reported b e c) (run_reported b r (step e c) h)

nested_reports :
    (b : BorrowError) (xs : List Text) (body : Events) (c : BorrowChecker)
    → (In b (insert_names xs new).errors ⊎ UseAfterMove b ((insert_names xs new).vars b.name) body
        → In b (run body (insert_names xs new)).errors)
    → In b c.errors ⊎ UseAfterMove b (param_state xs b.name) body
    → In b (extend_errors (run body (insert_names xs new)) c).errors
nested_reports b xs body c ih (inl old) = In-append_left b c.errors _ old
nested_reports b xs body c ih (inr used) =
    In-append_right b c.errors _ (ih (inr (rw (param_start xs b.name) used)))

later_reports :
    (b : BorrowError) (e : Event) (r : Events) (c : BorrowChecker)
    → (In b c.errors ⊎ UsedHere b (c.vars b.name) e → In b (step e c).errors)
    → In b c.errors ⊎ UseAfterMove b (c.vars b.name) (then_ e r)
    → In b (step e c).errors ⊎ UseAfterMove b ((step e c).vars b.name) r
later_reports b e r c ih (inl old) = inl (ih (inl old))
later_reports b e r c ih (inr (inl used)) = inl (ih (inr used))
later_reports b e r c ih (inr (inr later)) = inr (rw (step-vars e c b.name) later)

mutual
  unfolding run

  step_reports :
      (b : BorrowError) (e : Event) (c : BorrowChecker)
      → In b c.errors ⊎ UsedHere b (c.vars b.name) e
      → In b (step e c).errors
  step_reports b (uses y span) c h = use_reports b y span c h
  step_reports b (moves y) c h =
      rw (move_ident-errors y c) (elim h [ inl old ↦ old | inr n ↦ absurd n ])
  step_reports b (binds y) c h = elim h [ inl old ↦ old | inr n ↦ absurd n ]
  step_reports b (encloses xs body) c h =
      nested_reports b xs body c (λ k. run_reports b body (insert_names xs new) k) h

  run_reports :
      (b : BorrowError) (r : Events) (c : BorrowChecker)
      → In b c.errors ⊎ UseAfterMove b (c.vars b.name) r
      → In b (run r c).errors
  run_reports b done c h = elim h [ inl old ↦ old | inr n ↦ absurd n ]
  run_reports b (then_ e r) c h =
      run_reports b r (step e c) (later_reports b e r c (step_reports b e c) h)

params_start :
    (ps : List Param) (x : Text)
    → (insert_params ps (record { vars = λ y. none; errors = [] })).vars x
      ≡ param_state (names ps) x
params_start ps x = rw insert_params-insert_names (param_start (names ps) x)

params_errors : (ps : List Param) → (insert_params ps new).errors ≡ []
params_errors ps = rw insert_params-insert_names (insert_names-errors (names ps) new)

pub In-check_function :
    (ps : List Param) (body : StmtList) (c : BorrowChecker) (b : BorrowError)
    → In b (check_function ps body c).1
      ↔ UseAfterMove b (param_state (names ps) b.name) (of_stmts body done)
unfolding check_function
In-check_function ps body c b = (sound, complete)
  where
    start : BorrowChecker
    start = insert_params ps new

    sound :
        In b (check_stmts body start).errors
        → UseAfterMove b (param_state (names ps) b.name) (of_stmts body done)
    sound h = elim (run_reported b (of_stmts body done) start (rw check_stmts-run at h)) [
      | inl old ↦ absurd (rw (params_errors ps) at old)
      | inr used ↦ rw (params_start ps b.name) at used
    ]

    complete :
        UseAfterMove b (param_state (names ps) b.name) (of_stmts body done)
        → In b (check_stmts body start).errors
    complete h =
        rw check_stmts-run
          (run_reports b (of_stmts body done) start (inr (rw (params_start ps b.name) h)))
