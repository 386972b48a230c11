-- ===== src/Server/Slots.antt =====
-- internal/server.go: the semaphore of ServeHTTP. A request waits for a slot, and gets one, is left
-- by its client, or gives up after the longest wait; one that has a slot gives it back when it
-- ends, also by a panic. Any of these may come next.
use cifera.Base.{
  length, length-append, IsIn, ℕ, suc, ◌+◌, ◌*◌, ◌≤◌, ◌<◌, ◌≡◌, refl, ap, subst, ◌∙◌, inl, List, [],
  ◌∷◌, ◌++◌, arith,
}

-- A request that waits, with the time at which it began to.
pub record Waiting : Type 0 where
  pub request : ℕ
  pub since : ℕ

-- The number of elements in the channel, and the requests before and behind the select.
pub record Slots : Type 0 where
  pub in_use : ℕ
  pub waiting : List Waiting
  pub running : List ℕ
  pub now : ℕ

abbrev pub sem_capacity : ℕ
sem_capacity = 4096

abbrev pub sem_max_wait : ℕ
sem_max_wait = 5 * 1_000_000_000

abbrev pub idle_slots : ℕ → Slots
idle_slots now = record { in_use = 0; waiting = []; running = []; now = now }

pub data Step (s : Slots) : Slots → Type 0 where
  arrive :
      (request : ℕ)
      → Step s (record s { waiting = record { request = request; since = s.now } ∷ s.waiting })
  -- The send on the channel, which has room.
  acquire :
      (before after : List Waiting) (w : Waiting)
      → s.waiting ≡ before ++ w ∷ after
      → s.in_use < sem_capacity
      → Step s (record s {
        in_use = s.in_use + 1;
        waiting = before ++ after;
        running = w.request ∷ s.running;
      })
  disconnect :
      (before after : List Waiting) (w : Waiting)
      → s.waiting ≡ before ++ w ∷ after
      → Step s (record s { waiting = before ++ after })
  give_up :
      (before after : List Waiting) (w : Waiting)
      → s.waiting ≡ before ++ w ∷ after
      → w.since + sem_max_wait ≤ s.now
      → Step s (record s { waiting = before ++ after })
  -- The deferred receive.
  finish :
      (before after : List ℕ) (request rest : ℕ)
      → s.running ≡ before ++ request ∷ after
      → s.in_use ≡ suc rest
      → Step s (record s { in_use = rest; running = before ++ after })
  pass : (nanoseconds : ℕ) → Step s (record s { now = s.now + nanoseconds })

pub data Steps (s : Slots) : Slots → Type 0 where
  here : Steps s s
  later : {t u : Slots} → Steps s t → Step t u → Steps s u

-- Every slot in use is that of a request that runs, and there are no more than there are.
record IsCounted (s : Slots) : Type 0 where
  counted : s.in_use ≡ length s.running
  capped : s.in_use ≤ sem_capacity

Step-IsCounted : {s t : Slots} → Step s t → IsCounted s → IsCounted t
Step-IsCounted (arrive request) c = record { counted = c.counted; capped = c.capped }
Step-IsCounted (acquire before after w e room) c = record {
  counted = omega (arith, c.counted);
  capped = omega (arith, room);
}
Step-IsCounted (disconnect before after w e) c = record { counted = c.counted; capped = c.capped }
Step-IsCounted (give_up before after w e late) c = record { counted = c.counted; capped = c.capped }
Step-IsCounted {s} (finish before after request rest e used) c =
    let n = ap (length {A = ℕ}) e ∙ length-append before (request ∷ after) in
    record {
      counted = omega (arith, c.counted, n, used, length-append before after);
      capped = omega (arith, c.capped, used);
    }
Step-IsCounted (pass nanoseconds) c = record { counted = c.counted; capped = c.capped }

Steps-IsCounted : {s t : Slots} → IsCounted s → Steps s t → IsCounted t
Steps-IsCounted c here = c
Steps-IsCounted c (later steps step) = Step-IsCounted step (Steps-IsCounted c steps)

reached-IsCounted : {t : ℕ} {s : Slots} → Steps (idle_slots t) s → IsCounted s
reached-IsCounted steps = Steps-IsCounted (record { counted = refl; capped = omega arith }) steps

-- One more slot in use than requests that go on: a receive has something to take.
abbrev pub finished : Slots → List ℕ → Slots
finished s rest = record s { in_use = length rest; running = rest }

finish_first :
    (s : Slots) (request : ℕ) (rest : List ℕ)
    → IsCounted s
    → s.running ≡ request ∷ rest
    → Step s (finished s rest)
finish_first s request rest c e = finish [] rest request (length rest) e (c.counted ∙ ap length e)

-- All requests that run end, one after another.
finish_all :
    (s : Slots) (running : List ℕ) → IsCounted s → s.running ≡ running → Steps s (finished s [])
finish_all s [] c e =
    subst (Steps s) (λ i. record s { in_use = (c.counted ∙ ap length e) i; running = e i }) here
finish_all s (request ∷ rest) c e =
    let step = finish_first s request rest c e in
    joined (later here step) (finish_all (finished s rest) rest (Step-IsCounted step c) refl)
  where
    joined : {s t u : Slots} → Steps s t → Steps t u → Steps s u
    joined st here = st
    joined st (later tu step) = later (joined st tu) step

-- A state in which this request runs, that can still come.
pub record CanRun (s : Slots) (request : ℕ) : Type 0 where
  pub state : Slots
  pub steps : Steps s state
  pub runs : IsIn request state.running

get_slot :
    (s : Slots) (before after : List Waiting) (w : Waiting) (running : List ℕ)
    → IsCounted s
    → s.running ≡ running
    → s.waiting ≡ before ++ w ∷ after
    → CanRun s w.request
get_slot s before after w [] c r e =
    let none_used = c.counted ∙ ap length r in
    record {
      state = _;
      steps = later here (acquire before after w e (omega (arith, none_used)));
      runs = inl refl;
    }
get_slot s before after w (request ∷ rest) c r e =
    let used = c.counted ∙ ap length r in
    record {
      state = _;
      steps =
          later (later here (finish_first s request rest c r))
            (acquire before after w e (omega (arith, used, c.capped)));
      runs = inl refl;
    }

-- However requests have come, waited, run and ended since the start, a request that waits can still
-- get a slot, and when the requests that run have ended, as they can, no slot is in use: none is
-- lost, and never are more in use than there are.
pub slots_return :
    (start : ℕ) (s : Slots) (before after : List Waiting) (w : Waiting)
    → Steps (idle_slots start) s
    → s.waiting ≡ before ++ w ∷ after
    → CanRun s w.request
      × Steps s (finished s [])
      × (s.in_use ≡ length s.running)
      × (s.in_use ≤ sem_capacity)
slots_return start s before after w steps e =
    let c = reached-IsCounted steps in
    (
      get_slot s before after w s.running c refl e,
      finish_all s s.running c refl,
      c.counted,
      c.capped,
    )
