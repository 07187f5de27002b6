-- ===== src/Events/Queue.antt =====
-- src/events/queue/mod.rs, src/events/queue/registry.rs and
-- src/events/queue/futures: the queue of one source's events, and the future
-- that waits for the next one, and the queues of
-- all sources.
--
-- An `EventQueue` is shared by reference; the model passes its contents, and a waker is a number. The
-- registry's map (`DashMap`) is a parameter.
pub mod Delivery
use cl_async.Base.{ℕ, Bool, true, false, Option, none, some, List, [], ◌∷◌, ◌++◌, Dict}

-- `Event`: the bits of an `EventType`, and the key of the source.
pub record Event : Type 0 where
  pub event_type : ℕ
  pub key : ℕ

pub record EventQueue : Type 0 where
  pub queue : List Event
  pub waker_queue : List ℕ

-- `EventQueue::new`.
pub new : EventQueue
new = record { queue = []; waker_queue = [] }

pub push : Event → EventQueue → EventQueue
push event q = record q { queue = q.queue ++ event ∷ [] }

-- The loop of `wake` calls the wakers from the oldest: they are the second result.
pub wake : EventQueue → EventQueue × List ℕ
wake q = (record q { waker_queue = [] }, q.waker_queue)

pub pop : EventQueue → Option Event × EventQueue
pop q = elim q.queue [ [] ↦ (none, q) | event ∷ rest ↦ (some event, record q { queue = rest }) ]

pub register_waker : ℕ → EventQueue → EventQueue
register_waker waker q = record q { waker_queue = q.waker_queue ++ waker ∷ [] }

-- `NextEventFuture::poll`: `none` is `Pending`.
pub next_event : ℕ → EventQueue → Option Event × EventQueue
unfolding pop register_waker
next_event waker q = elim (pop q).0 [
  | some event ↦ (some event, (pop q).1)
  | none ↦ (none, register_waker waker (pop q).1)
]

module _ (D : Dict EventQueue) where
  -- `EventQueueRegistry::wake`.
  pub wake_key : ℕ → D.Map → D.Map × List ℕ
  unfolding wake
  wake_key key m = elim (D.get m key) [
    | none ↦ (m, [])
    | some q ↦ (D.insert m key (wake q).0, (wake q).1)
  ]

  -- `push_event`.
  pub push_event : Event → D.Map → D.Map × Bool
  unfolding push
  push_event event m = elim (D.get m event.key) [
    | none ↦ (m, false)
    | some q ↦ (D.insert m event.key (push event q), true)
  ]

  -- `push_and_wake`: the queues, the answer, and the wakers that it calls.
  pub push_and_wake : Event → D.Map → D.Map × Bool × List ℕ
  unfolding push wake
  push_and_wake event m = elim (D.get m event.key) [
    | none ↦ (m, false, [])
    | some q ↦ (D.insert m event.key (wake (push event q)).0, true, (wake (push event q)).1)
  ]

  -- `broadcast`, over the keys that the map's iterator gives.
  pub broadcast : ℕ → List ℕ → D.Map → D.Map
  unfolding push_event
  broadcast event_type [] m = m
  broadcast event_type (key ∷ keys) m =
      broadcast event_type keys (push_event (record { event_type = event_type; key = key }) m).0

  -- `broadcast_and_wake`, likewise, with the wakers that it calls.
  pub broadcast_and_wake : ℕ → List ℕ → D.Map → D.Map × List ℕ
  unfolding push_and_wake
  broadcast_and_wake event_type [] m = (m, [])
  broadcast_and_wake event_type (key ∷ keys) m =
      let (m', answer, called) = push_and_wake (record { event_type = event_type; key = key }) m in
      let (m'', later) = broadcast_and_wake event_type keys m' in (m'', called ++ later)
