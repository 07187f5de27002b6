-- ===== src/Events/Queue/Delivery.antt =====
-- src/events/queue: an event reaches the task that waits for it, in its turn.
use mathlib.Core.Option
use mathlib.Core.List.{append-nil, append_assoc}
use cl_async.Base.{
  ℕ, ◌≡◌, refl, sym, ap, ◌∙◌, inl, inr, ◌==◌, ==_iff, if◌then◌else◌, true, false, Bool-cases,
  Option, none, some, List, [], ◌∷◌, ◌++◌, Dict, contains, map, Option-cases, arith,
}
use cl_async.Events.Queue.{
  Event, EventQueue, push, wake, pop, register_waker, next_event, push_event, push_and_wake,
  broadcast,
}

-- Pushing the events of a list, the first one first.
pub push_all : List Event → EventQueue → EventQueue
push_all [] q = q
push_all (e ∷ es) q = push_all es (push e q)

-- Popping as often as a list is long: what comes out.
pub pop_all : List Event → EventQueue → List (Option Event)
pop_all [] q = []
pop_all (e ∷ es) q = (pop q).0 ∷ pop_all es (pop q).1

push_all-queue : (es : List Event) (q : EventQueue) → (push_all es q).queue ≡ q.queue ++ es
unfolding push_all push
push_all-queue [] q = sym (append-nil q.queue)
push_all-queue (e ∷ es) q = push_all-queue es (push e q) ∙ append_assoc q.queue (e ∷ []) es

pop_all-queue : (es : List Event) (q : EventQueue) → q.queue ≡ es → pop_all es q ≡ map some es
unfolding pop_all pop
pop_all-queue [] q h = refl
pop_all-queue (e ∷ es) q h =
    let popped : pop q ≡ (some e, record q { queue = es }) = rw (h, pop) refl in
    rw popped (ap (λ l. some e ∷ l) (pop_all-queue es (record q { queue = es }) refl))

-- Events pushed on an empty queue are popped in the order in which they were pushed, each once.
pop_all-push_all :
    (es : List Event) (q : EventQueue) → q.queue ≡ [] → pop_all es (push_all es q) ≡ map some es
pop_all-push_all es q h =
    pop_all-queue es (push_all es q) (push_all-queue es q ∙ ap (λ l. l ++ es) h)

module _ (D : Dict EventQueue) where
  get-insert_same : (m : D.Map) (k : ℕ) (q : EventQueue) → D.get (D.insert m k q) k ≡ some q
  get-insert_same m k q =
      D.get-insert m k k q ∙ ap (λ b. if b then some q else D.get m k) ((==_iff k k).1 refl)

  push_and_wake-some :
      (m : D.Map) (event : Event) (q : EventQueue)
      → D.get m event.key ≡ some q
      → push_and_wake D event m
        ≡ (D.insert m event.key (record (push event q) { waker_queue = [] }), true, q.waker_queue)
  unfolding push_and_wake wake push
  push_and_wake-some m event q h = rw (h, push_and_wake)

  -- A task that finds its queue empty leaves its waker; the next event for that key calls it, last of
  -- those that wait; and the poll after that is `Ready` with the event.
  pub next_event_delivery :
      (m : D.Map) (event : Event) (wakers : List ℕ) (me : ℕ)
      → let (before, parked) = next_event me (record { queue = []; waker_queue = wakers }) in
        let (m', known, called) = push_and_wake D event (D.insert m event.key parked) in
        (before ≡ none)
        × (known ≡ true)
        × (called ≡ wakers ++ me ∷ [])
        × (q : EventQueue) × (D.get m' event.key ≡ some q)
        × ((next_event me q).0 ≡ some event)
  unfolding next_event pop register_waker push
  next_event_delivery m event wakers me =
      let parked : EventQueue = record { queue = []; waker_queue = wakers ++ me ∷ [] } in
      let m1 = D.insert m event.key parked in
      rw (push_and_wake-some m1 event parked (get-insert_same m event.key parked)) (
        refl,
        refl,
        refl,
        record { queue = event ∷ []; waker_queue = [] },
        get-insert_same m1 event.key _,
        refl,
      )

  push_event-get :
      (m : D.Map) (event : Event) (k : ℕ)
      → D.get (push_event D event m).0 k
        ≡ (if event.key == k then Option.map (push event) (D.get m k) else D.get m k)
  unfolding push_event
  push_event-get m event k = elim (Option-cases (D.get m event.key)) [
    | inl absent ↦ missing absent
    | inr (q, known) ↦ found q known
  ]
    where
      missing :
          D.get m event.key ≡ none
          → D.get (push_event D event m).0 k
            ≡ (if event.key == k then Option.map (push event) (D.get m k) else D.get m k)
      missing absent = elim (Bool-cases (event.key == k)) [
        | inl same ↦
            let at_k : D.get m k ≡ none = ap (D.get m) (sym ((==_iff _ _).0 same)) ∙ absent in
            rw (absent, push_event, same, at_k) refl
        | inr other ↦ rw (absent, push_event, other) refl
      ]

      found :
          (q : EventQueue)
          → D.get m event.key ≡ some q
          → D.get (push_event D event m).0 k
            ≡ (if event.key == k then Option.map (push event) (D.get m k) else D.get m k)
      found q known = elim (Bool-cases (event.key == k)) [
        | inl same ↦
            let at_k : D.get m k ≡ some q = ap (D.get m) (sym ((==_iff _ _).0 same)) ∙ known in
            rw (known, push_event, D.get-insert m event.key k (push event q), same, at_k) refl
        | inr other ↦ rw (known, push_event, D.get-insert m event.key k (push event q), other) refl
      ]

  -- The keys of a list are all different.
  abbrev pub Distinct : List ℕ → Type 0
  Distinct [] = Unit
  Distinct (k ∷ ks) = (contains k ks ≡ false) × Distinct ks

  -- A broadcast over the keys of the registry pushes the event once on the queue of each of them, under
  -- that queue's own key, and on no other.
  broadcast-get :
      (event_type : ℕ) (keys : List ℕ) (m : D.Map) (k : ℕ)
      → Distinct keys
      → D.get (broadcast D event_type keys m) k ≡ (
          if contains k keys
          then Option.map (push (record { event_type = event_type; key = k })) (D.get m k)
          else D.get m k)
  unfolding broadcast
  broadcast-get event_type [] m k h = refl
  broadcast-get event_type (key ∷ keys) m k h =
      let event : Event = record { event_type = event_type; key = key } in
      broadcast-get event_type keys (push_event D event m).0 k h.1 ∙ elim (Bool-cases (key == k)) [
        | inl same ↦
            let e : key ≡ k = (==_iff _ _).0 same in
            let same' : (k == key) ≡ true = (==_iff _ _).1 (sym e) in
            let last : contains k keys ≡ false = ap (λ i. contains i keys) (sym e) ∙ h.0 in
            rw (last, same', push_event-get m event k, same)
              (ap (λ i. Option.map (push (record { event_type = event_type; key = i })) (D.get m k))
                e)
        | inr other ↦
            let other' : (k == key) ≡ false = ground arith in
            rw (other', push_event-get m event k, other) refl
      ]
