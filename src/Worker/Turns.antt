-- ===== src/Worker/Turns.antt =====
-- src/worker/mod.rs: a whole turn of the loop, from its events to its end.
use cl_async.Base.{
  ℕ, ◌+◌, ◌<◌, ◌≡◌, ◌≢◌, refl, ap, subst, ◌∙◌, ◌==◌, inl, inr, Bool, Bool-cases, true, false, ◌||◌,
  Option, none, some, List, length, [], ◌∷◌, ◌++◌, arith,
}
use cl_async.Base.Int.{ℤ}
use cl_async.Events.Queue.{Event}
use cl_async.Notifications.Signal.{LibcSignal, from}
use cl_async.Notifications.Reaction.{
  Notification, notification_of, Reaction, react, handleable_reactions,
}
use cl_async.Pool.{WorkerState}
use cl_async.Worker.{Parts, Bits, Effect, Message, Worker, emit, set_state}
use cl_async.Worker.Loop.{
  Polled, Marks, Turn, broadcast, reacted, pushed_event, each_event, wake_each, complete_io, marked,
  turn,
}
use cl_async.Worker.Messages.{has_kill, has_shutdown, arriving_all, ready_count, tasks_after_all}
use cl_async.Worker.Shutdown.{HasRun, received-shutdown}

module _ (P : Parts) (B : Bits) (S : LibcSignal) (io_channel_key sfd_key fuel : ℕ) where
  -- The tasks, the key of the message channel and what the futures know are the same.
  IsAlike : Worker P B → Worker P B → Type 0
  IsAlike w v =
      (v.executor ≡ w.executor)
      × (v.message_channel_key ≡ w.message_channel_key)
      × (v.world ≡ w.world)

  reacted-IsAlike :
      (r : Reaction) (w : Worker P B)
      → r ≢ Reaction.ends
      → ((reacted P B S io_channel_key sfd_key fuel r w).1 ≡ false)
        × IsAlike w (reacted P B S io_channel_key sfd_key fuel r w).0
  unfolding reacted broadcast set_state emit IsAlike
  reacted-IsAlike Reaction.stops w h = (refl, (refl, refl, refl))
  reacted-IsAlike Reaction.ends w h = absurd (h refl)
  reacted-IsAlike Reaction.ignores w h = (refl, (refl, refl, refl))
  reacted-IsAlike (Reaction.broadcasts n) w h = (refl, (refl, refl, refl))

  abbrev pub any_of : ℕ → List (Event × Option ℤ) → Bool
  any_of key [] = false
  any_of key (e ∷ rest) = e.0.key == key || any_of key rest

  -- No event makes the loop return, since no signal is a kill.
  each_event-lem :
      (evs : List (Event × Option ℤ)) (w : Worker P B)
      (marks : Marks P B S io_channel_key sfd_key fuel)
      → (v : Worker P B) × (marks' : Marks P B S io_channel_key sfd_key fuel) × (each_event P B S
            io_channel_key sfd_key fuel evs w marks
          ≡ (v, marks', false))
        × IsAlike w v
        × (marks'.should_recv ≡ (marks.should_recv || any_of w.message_channel_key evs))
  unfolding each_event IsAlike pushed_event
  each_event-lem [] w marks = (w, marks, refl, (refl, refl, refl), ground arith)
  each_event-lem ((event, none) ∷ rest) w marks =
      elim (Bool-cases (event.key == w.message_channel_key)) [
        | inl message ↦
            let (v, m, e, same, recv) =
              each_event-lem rest w (record marks { should_recv = true }) in
            (v, m, rw (message, each_event) e, same, rw (message) (recv ∙ ground arith))
        | inr other ↦ elim (Bool-cases (event.key == io_channel_key)) [
          | inl io ↦
              let (v, m, e, same, recv) =
                each_event-lem rest w (record marks { should_complete_io = true }) in
              (v, m, rw (other, io, each_event) e, same, rw (other) recv)
          | inr no_io ↦ elim (Bool-cases (event.key == sfd_key)) [
            | inl signal ↦
                let (v, m, e, same, recv) = each_event-lem rest w marks in
                (v, m, rw (other, no_io, signal, each_event) e, same, rw (other) recv)
            | inr plain ↦
                let (w1, m1) = pushed_event P B S io_channel_key sfd_key fuel event w marks in
                let (v, m, e, same, recv) = each_event-lem rest w1 m1 in
                (v, m, rw (other, no_io, plain, each_event) e, same, rw (other) recv)
          ]
        ]
      ]
  each_event-lem ((event, some number) ∷ rest) w marks =
      elim (Bool-cases (event.key == w.message_channel_key)) [
        | inl message ↦
            let (v, m, e, same, recv) =
              each_event-lem rest w (record marks { should_recv = true }) in
            (v, m, rw (message, each_event) e, same, rw (message) (recv ∙ ground arith))
        | inr other ↦ elim (Bool-cases (event.key == io_channel_key)) [
          | inl io ↦
              let (v, m, e, same, recv) =
                each_event-lem rest w (record marks { should_complete_io = true }) in
              (v, m, rw (other, io, each_event) e, same, rw (other) recv)
          | inr no_io ↦ elim (Bool-cases (event.key == sfd_key)) [
            | inl signal ↦
                let r = react (notification_of (from S number)) in
                let (live, (tasks, key, world)) =
                  reacted-IsAlike r w (handleable_reactions S (from S number)).0 in
                let (w1, m1) =
                  pushed_event P B S io_channel_key sfd_key fuel event
                    (reacted P B S io_channel_key sfd_key fuel r w).0 marks in
                let (v, m, e, (tasks', key', world'), recv) = each_event-lem rest w1 m1 in
                (
                  v,
                  m,
                  rw (other, no_io, signal, live, each_event) e,
                  (tasks' ∙ tasks, key' ∙ key, world' ∙ world),
                  rw (other) (recv ∙ ap (λ k. marks.should_recv || any_of k rest) key),
                )
            | inr plain ↦
                let (w1, m1) = pushed_event P B S io_channel_key sfd_key fuel event w marks in
                let (v, m, e, same, recv) = each_event-lem rest w1 m1 in
                (v, m, rw (other, no_io, plain, each_event) e, same, rw (other) recv)
          ]
        ]
      ]

  wake_each-IsAlike :
      (keys : List ℕ) (w : Worker P B)
      → IsAlike w (wake_each P B S io_channel_key sfd_key fuel keys w)
  unfolding wake_each emit IsAlike
  wake_each-IsAlike [] w = (refl, refl, refl)
  wake_each-IsAlike (key ∷ keys) w = wake_each-IsAlike keys _

  complete_io-IsAlike :
      (b : Bool) (w : Worker P B) → IsAlike w (complete_io P B S io_channel_key sfd_key fuel b w).0
  unfolding complete_io IsAlike
  complete_io-IsAlike false w = (refl, refl, refl)
  complete_io-IsAlike true w = (refl, refl, refl)

  -- A turn in which the message channel has an event, with any other events and signals, and whose messages
  -- hold a shutdown and no kill, on more fuel than there are ready tasks and tasks that the messages name,
  -- ends the loop. The tasks that are ready after the messages, those that the messages spawn and wake
  -- among them, are polled once each, oldest first, and none is ready after it; and the last of its effects
  -- tells the subscribers of the shutdown.
  pub turn-shutdown :
      (evs : List (Event × Option ℤ)) (ms : List (Message P B)) (w : Worker P B)
      → any_of w.message_channel_key evs ≡ true
      → has_kill P B ms ≡ false
      → has_shutdown P B ms ≡ true
      → ready_count P B w + arriving_all P B ms < fuel
      → (v : Worker P B) × (es : List Effect) × (turn P B S io_channel_key sfd_key fuel
            (Polled.events evs)
            ms
            w
          ≡ some (Turn.stops v))
        × (v.effects ≡ es ++ Effect.notifies Notification.shutdown ∷ [])
        × HasRun P B S io_channel_key sfd_key fuel (tasks_after_all P B ms w.executor) w.world v
  unfolding turn marked IsAlike set_state
  turn-shutdown evs ms w called alive told enough =
      let none_yet : Marks P B S io_channel_key sfd_key fuel = record {
        should_recv = false;
        should_complete_io = false;
        queues_to_wake = [];
      } in
      let (v1, m, e, (tasks1, key1, world1), recv) =
        each_event-lem evs (set_state P B WorkerState.busy w) none_yet in
      let receives : m.should_recv ≡ true = recv ∙ called in
      let v2 = wake_each P B S io_channel_key sfd_key fuel m.queues_to_wake v1 in
      let (v3, submit) = complete_io P B S io_channel_key sfd_key fuel m.should_complete_io v2 in
      let tasks3 : v3.executor ≡ w.executor =
        (complete_io-IsAlike m.should_complete_io v2).0
        ∙ (wake_each-IsAlike m.queues_to_wake v1).0
        ∙ tasks1 in
      let world3 : v3.world ≡ w.world =
        (complete_io-IsAlike m.should_complete_io v2).2
        ∙ (wake_each-IsAlike m.queues_to_wake v1).2
        ∙ world1 in
      let count : ready_count P B v3 ≡ ready_count P B w =
        ap (λ x. length (P.ready.contents x.ready_tasks)) tasks3 in
      let (v, es, ends, last, has_run) =
        received-shutdown P B S io_channel_key sfd_key fuel ms v3 submit alive told (omega arith) in
      (
        v,
        es,
        rw (e, receives) ends,
        last,
        subst (λ x. HasRun P B S io_channel_key sfd_key fuel (tasks_after_all P B ms x) w.world v)
            tasks3
            (subst
              (λ x.
                HasRun P B S io_channel_key sfd_key fuel (tasks_after_all P B ms v3.executor) x v)
              world3 has_run),
      )
