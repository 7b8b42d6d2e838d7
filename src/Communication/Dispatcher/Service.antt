-- ===== src/Communication/Dispatcher/Service.antt =====
-- Pumping serves a conversation and leaves the others served.
use open_claw_bot_neo.Prelude.{
  ◌≤◌, ◌≡◌, ◌≢◌, refl, ap, ◌∙◌, List, [], ◌∷◌, String, String_eq, leb, length, includes,
  if◌then◌else◌, arith, if_cases,
}
use open_claw_bot_neo.Communication.Turn.{QueueConfig}
use open_claw_bot_neo.Communication.Dispatcher.{
  Job, State, get_queue, queued_count, notify_idle, set_inactive, start, pump_queue, pump,
}
use open_claw_bot_neo.Communication.Dispatcher.Queues.{
  get_queue-set_queue_ne, queued_count-set_queue, includes-remove_ne,
}
use open_claw_bot_neo.Communication.Dispatcher.Invariant.{
  Core, IsServed, IsHeard, notify_idle-IsServed, notify_idle-IsHeard,
}

pub queued_count-le :
    (k : String) (qs : List (String × List Job)) → length (get_queue k qs) ≤ queued_count qs
queued_count-le k qs = omega (arith, queued_count-set_queue k [] qs)

start-IsServed :
    (k : String) (job : Job) (rest : List Job) (s : State) → IsServed (start k job rest s) k
unfolding includes
start-IsServed k job rest s = λ d some. ground arith

-- There is room for the job, as it is itself among those that are pending.
pump_queue-IsServed :
    (cfg : QueueConfig) (k : String) (q : List Job) (s : State)
    → get_queue k s.queues ≡ q
    → Core cfg s
    → IsServed (pump_queue cfg k q s) k
unfolding pump_queue
pump_queue-IsServed cfg k [] s front v =
    notify_idle-IsServed (set_inactive k s) k (λ d some. absurd (some front))
pump_queue-IsServed cfg k (job ∷ rest) s front v =
    if_cases (λ x. IsServed x k) (leb cfg.max_global_pending s.global_active) s (start k job rest s)
      (λ full.
        let size = ap length front in
        let least = queued_count-le k s.queues in
        let bound = v.pending in absurd (ground (arith, size, least, bound, full)))
      (λ room. start-IsServed k job rest s)

pub pump-IsServed :
    (cfg : QueueConfig) (k : String) (s : State) → Core cfg s → IsServed (pump cfg k s) k
unfolding pump
pump-IsServed cfg k s v =
    if_cases (λ x. IsServed x k) s.draining (notify_idle (set_inactive k s))
      (if includes s.active k then s else pump_queue cfg k (get_queue k s.queues) s)
      (λ d. notify_idle-IsServed (set_inactive k s) k (λ p. absurd (cc (d, p))))
      (λ d.
        if_cases (λ x. IsServed x k) (includes s.active k) s
          (pump_queue cfg k (get_queue k s.queues) s) (λ on _ _. on)
          (λ off. pump_queue-IsServed cfg k (get_queue k s.queues) s refl v))

set_inactive-IsServed_ne :
    (k l : String) (s : State) → k ≢ l → IsServed s l → IsServed (set_inactive k s) l
set_inactive-IsServed_ne k l s n v d some = includes-remove_ne k l s.active n ∙ v d some

start-IsServed_ne :
    (k l : String) (job : Job) (rest : List Job) (s : State)
    → k ≢ l
    → IsServed s l
    → IsServed (start k job rest s) l
unfolding includes
start-IsServed_ne k l job rest s n v d some =
    let on = v d (λ none. some (get_queue-set_queue_ne k l rest s.queues n ∙ none)) in
    ground (arith, on)

pump_queue-IsServed_ne :
    (cfg : QueueConfig) (k l : String) (q : List Job) (s : State)
    → k ≢ l
    → IsServed s l
    → IsServed (pump_queue cfg k q s) l
unfolding pump_queue
pump_queue-IsServed_ne cfg k l [] s n v =
    notify_idle-IsServed (set_inactive k s) l (set_inactive-IsServed_ne k l s n v)
pump_queue-IsServed_ne cfg k l (job ∷ rest) s n v =
    if_cases (λ x. IsServed x l) (leb cfg.max_global_pending s.global_active) s (start k job rest s)
      (λ full. v) (λ room. start-IsServed_ne k l job rest s n v)

pub pump-IsServed_ne :
    (cfg : QueueConfig) (k l : String) (s : State)
    → k ≢ l
    → IsServed s l
    → IsServed (pump cfg k s) l
unfolding pump
pump-IsServed_ne cfg k l s n v =
    if_cases (λ x. IsServed x l) s.draining (notify_idle (set_inactive k s))
      (if includes s.active k then s else pump_queue cfg k (get_queue k s.queues) s)
      (λ d. notify_idle-IsServed (set_inactive k s) l (set_inactive-IsServed_ne k l s n v))
      (λ d.
        if_cases (λ x. IsServed x l) (includes s.active k) s
          (pump_queue cfg k (get_queue k s.queues) s) (λ on. v)
          (λ off. pump_queue-IsServed_ne cfg k l (get_queue k s.queues) s n v))

-- Waiters: a job that starts leaves the number of pending ones as it was.
start-IsHeard :
    (k : String) (job : Job) (rest : List Job) (s : State) → IsHeard (start k job rest s)
start-IsHeard k job rest s idle = absurd (ground arith)

pump_queue-IsHeard :
    (cfg : QueueConfig) (k : String) (q : List Job) (s : State)
    → IsHeard s
    → IsHeard (pump_queue cfg k q s)
unfolding pump_queue
pump_queue-IsHeard cfg k [] s h = notify_idle-IsHeard (set_inactive k s)
pump_queue-IsHeard cfg k (job ∷ rest) s h =
    if_cases IsHeard (leb cfg.max_global_pending s.global_active) s (start k job rest s) (λ _. h)
      (λ _. start-IsHeard k job rest s)

pub pump-IsHeard : (cfg : QueueConfig) (k : String) (s : State) → IsHeard s → IsHeard (pump cfg k s)
unfolding pump
pump-IsHeard cfg k s h =
    if_cases IsHeard s.draining (notify_idle (set_inactive k s))
      (if includes s.active k then s else pump_queue cfg k (get_queue k s.queues) s)
      (λ d. notify_idle-IsHeard (set_inactive k s))
      (λ d.
        if_cases IsHeard (includes s.active k) s (pump_queue cfg k (get_queue k s.queues) s)
          (λ on. h) (λ off. pump_queue-IsHeard cfg k (get_queue k s.queues) s h))
