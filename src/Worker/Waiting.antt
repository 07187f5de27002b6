-- ===== src/Worker/Waiting.antt =====
-- src/worker/mod.rs: the submissions that wait for room in the ring, after the loop.
use cl_async.Base.{
  ◌+◌, ◌≤◌, ◌≡◌, refl, sym, ap₂, ◌∙◌, false, Option, none, some, List, [], ◌∷◌, ◌++◌, arith,
}
use mathlib.Core.List.{append-nil, append_assoc}
use cl_async.Io.Context.{IoContext, prepare_submission}
use cl_async.Worker.{
  Parts, Bits, Message, Worker, Flow, Submission, emit, backed_up, prepare_io_submission,
  shared_arm, is_kill, arm, receive_stopping,
}
use cl_async.Worker.Messages.{has_kill, arriving, arriving_all, ready_count, arm-ready, neither}

module _ (P : Parts) (B : Bits) where
  -- The submission of a message for which the ring has no room, and the context after it.
  abbrev pub turned_away :
      Message P B → IoContext P.T P.R P.slots → List (Submission P B) × IoContext P.T P.R P.slots
  turned_away (Message.submit_io s) c =
      let (back, c') = prepare_submission P.T P.R P.slots s c in
      (elim back [ none ↦ [] | some s' ↦ s' ∷ [] ], c')
  turned_away other c = ([], c)

  -- The submissions of messages for which the ring has no room, in order.
  abbrev pub all_turned_away :
      List (Message P B) → IoContext P.T P.R P.slots → List (Submission P B)
  all_turned_away [] c = []
  all_turned_away (m ∷ ms) c = let (here, c') = turned_away m c in here ++ all_turned_away ms c'

  -- What preparing a submission does to those that wait.
  backed_up-waiting :
      (r : Option (Submission P B) × IoContext P.T P.R P.slots) (w : Worker P B)
      → ((backed_up P B r w).waiting_submissions
          ≡ w.waiting_submissions ++ (elim r.0 [ none ↦ [] | some s ↦ s ∷ [] ]))
        × ((backed_up P B r w).io_context ≡ r.1)
  unfolding backed_up
  backed_up-waiting (none, c) w = (sym (append-nil w.waiting_submissions), refl)
  backed_up-waiting (some s, c) w = (refl, refl)

  abbrev none_more : (w : Worker P B) → w.waiting_submissions ≡ w.waiting_submissions ++ []
  none_more w = sym (append-nil w.waiting_submissions)

  -- What a message does after the loop to the ready tasks, to the submissions that wait and to the ring.
  shared_arm-kept :
      (m : Message P B) (w : Worker P B)
      → (ready_count P B (shared_arm P B m w) ≤ ready_count P B w + arriving P B m)
        × ((shared_arm P B m w).waiting_submissions
            ≡ w.waiting_submissions ++ (turned_away m w.io_context).0)
        × ((shared_arm P B m w).io_context ≡ (turned_away m w.io_context).1)
  unfolding shared_arm arm prepare_io_submission emit
  shared_arm-kept (Message.task_spawner task) w =
      (arm-ready P B (Message.task_spawner task) w, none_more w, refl)
  shared_arm-kept (Message.spawn_task task) w =
      (arm-ready P B (Message.spawn_task task) w, none_more w, refl)
  shared_arm-kept (Message.spawn_tasks tasks) w =
      (arm-ready P B (Message.spawn_tasks tasks) w, none_more w, refl)
  shared_arm-kept (Message.wake_task id) w =
      (arm-ready P B (Message.wake_task id) w, none_more w, refl)
  shared_arm-kept (Message.submit_io s) w =
      let (waiting, ring) = backed_up-waiting _ w in
      (arm-ready P B (Message.submit_io s) w, waiting, ring)
  shared_arm-kept (Message.go_on waker) w =
      (arm-ready P B (Message.go_on waker) w, none_more w, refl)
  shared_arm-kept Message.repair_message_channel w = (omega arith, none_more w, refl)
  shared_arm-kept Message.shutdown w = (omega arith, none_more w, refl)
  shared_arm-kept Message.kill w = (omega arith, none_more w, refl)

  -- After the loop, messages without a kill are all taken, and the submissions that find no room line up
  -- behind those that wait.
  pub receive_stopping-next :
      (ms : List (Message P B)) (w : Worker P B)
      → has_kill P B ms ≡ false
      → (v : Worker P B) × (receive_stopping P B ms w ≡ Flow.next v)
        × (ready_count P B v ≤ ready_count P B w + arriving_all P B ms)
        × (v.waiting_submissions ≡ w.waiting_submissions ++ all_turned_away ms w.io_context)
  unfolding receive_stopping
  receive_stopping-next [] w h = (w, refl, omega arith, none_more w)
  receive_stopping-next (m ∷ ms) w h =
      let (here, rest) = neither P B (is_kill P B m) (has_kill P B ms) h in
      let (count, kept, ring) = shared_arm-kept m w in
      let (first, c) = turned_away m w.io_context in
      let (v, e, counts, keeps) = receive_stopping-next ms (shared_arm P B m w) rest in
      (
        v,
        rw (here, receive_stopping) e,
        omega arith,
        keeps
            ∙ ap₂ (λ l x. l ++ all_turned_away ms x) kept ring
            ∙ append_assoc w.waiting_submissions first (all_turned_away ms c),
      )
