-- ===== src/Io/Completion/Persistent.antt =====
-- src/io/completion.rs: the results of an operation that completes more than once.
use mathlib.Core.List.{append-nil, append_assoc}
use cl_async.Base.{
  ◌≡◌, refl, sym, ap, ◌∙◌, true, Option, none, some, List, [], ◌∷◌, ◌++◌, map, arith,
}
use cl_async.Base.Int.{ℤ}
use cl_async.OsError.{Libc}
use cl_async.Io.Completion.{
  Completable, IoOperation, IoCompletionResult, IoCompletionState, multi,
  MultiCompletionResultState, running, draining, stays, into_result, complete_op, drains,
  complete_multi, complete_state,
}

module _ (T : Completable) where
  -- Taking a result as often as a list is long: what comes out. A state that is gone gives nothing.
  unfoldable pub take_each :
      List (IoCompletionResult T)
      → Option (IoCompletionState T)
      → List (Option (IoCompletionResult T))
  take_each [] st = []
  take_each (x ∷ xs) none = none ∷ take_each xs none
  take_each (x ∷ xs) (some st) = (into_result T st).0 ∷ take_each xs (into_result T st).1

  abbrev holding :
      List (IoCompletionResult T) → IoOperation T → MultiCompletionResultState → IoCompletionState T
  holding xs op state = multi (record { inner = xs; op = op; state = state })

  -- A state with a further result stays, draining or not.
  stays-two :
      (state : MultiCompletionResultState) (x y : IoCompletionResult T)
      (rest : List (IoCompletionResult T))
      → stays T state (x ∷ y ∷ rest) ≡ true
  unfolding stays
  stays-two running x y rest = refl
  stays-two draining x y rest = ground arith

  take_each-holding :
      (xs : List (IoCompletionResult T)) (op : IoOperation T) (state : MultiCompletionResultState)
      → take_each xs (some (holding xs op state)) ≡ map some xs
  unfolding take_each into_result
  take_each-holding [] op state = refl
  take_each-holding (x ∷ []) op state = refl
  take_each-holding (x ∷ y ∷ rest) op state =
      rw (stays-two state x y rest) (ap (λ l. some x ∷ l) (take_each-holding (y ∷ rest) op state))

  module _ (L : Libc) where
    -- The results that an operation's completions are read as, in their order.
    unfoldable pub results_of : List ℤ → IoOperation T → List (IoCompletionResult T)
    results_of [] op = []
    results_of (r ∷ rs) op = (complete_op T L r op).0 ∷ results_of rs (complete_op T L r op).1

    -- The completions of a list, the first one first.
    unfoldable pub complete_list : List ℤ → IoCompletionState T → Option (IoCompletionState T)
    complete_list [] st = some st
    complete_list (r ∷ rs) st = elim (complete_state T L r st) [
      | none ↦ none
      | some st' ↦ complete_list rs st'
    ]

    complete_list-holding :
        (rs : List ℤ) (xs : List (IoCompletionResult T)) (op : IoOperation T)
        (state : MultiCompletionResultState)
        → (op' : IoOperation T) × (state' : MultiCompletionResultState) × (complete_list rs
              (holding xs op state)
            ≡ some (holding (xs ++ results_of rs op) op' state'))
    unfolding complete_list complete_state complete_multi results_of
    complete_list-holding [] xs op state =
        (op, state, ap (λ l. some (holding l op state)) (sym (append-nil xs)))
    complete_list-holding (r ∷ rs) xs op state =
        let c = complete_op T L r op in
        let (op', state', e) =
          complete_list-holding rs (xs ++ c.0 ∷ []) c.1 (drains T L c.0 state) in
        (
          op',
          state',
          e
              ∙ ap (λ l. some (holding l op' state'))
                  (append_assoc xs (c.0 ∷ []) (results_of rs c.1)),
        )

    -- Whatever completions come in, cancellations among them, polls take out the results that were
    -- there and then those of the completions, in the order of their arrival: none is lost, none comes
    -- twice.
    pub results_in_order :
        (rs : List ℤ) (xs : List (IoCompletionResult T)) (op : IoOperation T)
        (state : MultiCompletionResultState)
        → take_each
            (xs ++ results_of rs op)
            (complete_list rs (multi (record { inner = xs; op = op; state = state })))
          ≡ map some (xs ++ results_of rs op)
    results_in_order rs xs op state =
        let (op', state', e) = complete_list-holding rs xs op state in
        ap (take_each (xs ++ results_of rs op)) e
        ∙ take_each-holding (xs ++ results_of rs op) op' state'
