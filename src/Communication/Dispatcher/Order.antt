-- ===== src/Communication/Dispatcher/Order.antt =====
-- Which job follows when a job of its conversation has settled.
use open_claw_bot_neo.Prelude.{
  ◌≤◌, ◌≡◌, ◌⊎◌, inl, inr, refl, sym, subst, ap, true, false, List, [], ◌∷◌, String, String_eq,
  ◌==◌, leb, length, includes, if◌then◌else◌, arith, if_cases, All,
}
use open_claw_bot_neo.Communication.Turn.{QueueConfig}
use open_claw_bot_neo.Communication.Dispatcher.{
  Job, State, get_queue, is_idle, start, notify_idle, set_inactive, pump_queue, pump, pump_others,
  settle, finish,
}
use open_claw_bot_neo.Communication.Dispatcher.Queues.{has_job, includes-remove}
use open_claw_bot_neo.Communication.Dispatcher.Invariant.{IsQueue, Core, Inv}
use open_claw_bot_neo.Communication.Dispatcher.Service.{queued_count-le}
use open_claw_bot_neo.Communication.Dispatcher.Calls.{settle-Core}

-- The job is among those that run.
abbrev pub IsIn : Job → List Job → Type 0
IsIn job [] = ⊥
IsIn job (j ∷ js) = (j ≡ job) ⊎ IsIn job js

abbrev Runs : Job → State → Type 0
Runs job s = IsIn job s.running

notify_idle-Runs : (job : Job) (s : State) → Runs job s → Runs job (notify_idle s)
unfolding notify_idle
notify_idle-Runs job s v =
    if_cases (Runs job) (is_idle s) (record s { waiters = 0 }) s (λ e. v) (λ e. v)

pump_queue-Runs :
    (cfg : QueueConfig) (k : String) (q : List Job) (job : Job) (s : State)
    → Runs job s
    → Runs job (pump_queue cfg k q s)
unfolding pump_queue
pump_queue-Runs cfg k [] job s v = notify_idle-Runs job (set_inactive k s) v
pump_queue-Runs cfg k (j ∷ q) job s v =
    if_cases (Runs job) (leb cfg.max_global_pending s.global_active) s (start k j q s) (λ e. v)
      (λ e. inr v)

pump-Runs :
    (cfg : QueueConfig) (k : String) (job : Job) (s : State) → Runs job s → Runs job (pump cfg k s)
unfolding pump
pump-Runs cfg k job s v =
    if_cases (Runs job) s.draining (notify_idle (set_inactive k s))
      (if includes s.active k then s else pump_queue cfg k (get_queue k s.queues) s)
      (λ d. notify_idle-Runs job (set_inactive k s) v)
      (λ d.
        if_cases (Runs job) (includes s.active k) s (pump_queue cfg k (get_queue k s.queues) s)
          (λ e. v) (λ e. pump_queue-Runs cfg k (get_queue k s.queues) job s v))

pump_others-Runs :
    (cfg : QueueConfig) (k : String) (qs : List (String × List Job)) (job : Job) (s : State)
    → Runs job s
    → Runs job (pump_others cfg k qs s)
unfolding pump_others
pump_others-Runs cfg k [] job s v = v
pump_others-Runs cfg k ((k', q) ∷ qs) job s v =
    pump_others-Runs cfg k qs job (if k' == k then s else pump cfg k' s)
      (if_cases (Runs job) (k' == k) s (pump cfg k' s) (λ e. v) (λ e. pump-Runs cfg k' job s v))

-- The first job of an inactive conversation starts: there is room for it.
pump-starts :
    (cfg : QueueConfig) (k : String) (job : Job) (rest : List Job) (s : State)
    → Core cfg s
    → s.draining ≡ false
    → includes s.active k ≡ false
    → get_queue k s.queues ≡ job ∷ rest
    → Runs job (pump cfg k s)
unfolding pump pump_queue
pump-starts cfg k job rest s v d off front =
    let size = ap length front in
    let least = queued_count-le k s.queues in
    let bound = v.pending in
    let room : leb cfg.max_global_pending s.global_active ≡ false =
      ground (arith, size, least, bound) in
    let started : pump cfg k s ≡ start k job rest s = ground (arith, d, off, front, room) in
    subst (Runs job) (sym started) (inl refl)

-- Jobs follow in the order of their sequence numbers: from a state that satisfies the invariant and
-- does not drain, when a conversation's running job settles and a job waits first in its queue, that
-- job runs, and its sequence number is at most that of every job that waits behind it.
pub finish-starts_next :
    (cfg : QueueConfig) (k : String) (job : Job) (rest : List Job) (s : State)
    → Inv cfg s
    → has_job k s.running ≡ true
    → s.draining ≡ false
    → get_queue k s.queues ≡ job ∷ rest
    → IsIn job (finish cfg k s).running
      × All (λ x. job.conversation_sequence ≤ x.conversation_sequence) rest
unfolding finish
finish-starts_next cfg k job rest s v runs d front =
    let queue = subst (IsQueue cfg k) front (v.core.queues k) in
    let pumped =
      pump-starts cfg k job rest (settle k s) (settle-Core cfg k s runs v.core) d
        (includes-remove k s.active) front in
    (
      notify_idle-Runs job _ (pump_others-Runs cfg k s.queues job (pump cfg k (settle k s)) pumped),
      queue.sorted.0,
    )
