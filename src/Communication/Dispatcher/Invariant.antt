-- ===== src/Communication/Dispatcher/Invariant.antt =====
-- What holds of the dispatcher between its calls.
use open_claw_bot_neo.Prelude.{
  ◌≤◌, ◌≡◌, ◌≢◌, refl, sym, subst, ap, ◌∙◌, true, false, List, [], ◌∷◌, String, String_eq, leb,
  length, includes, if◌then◌else◌, All, arith, String-discrete, if_cases,
}
use open_claw_bot_neo.Communication.Turn.{QueueConfig}
use open_claw_bot_neo.Communication.Dispatcher.{
  Job, State, get_queue, set_queue, remove, queued_count, global_pending, is_idle, notify_idle,
  set_inactive, start, pump_queue, pump,
}
use open_claw_bot_neo.Communication.Dispatcher.Queues.{
  get_queue-set_queue, get_queue-set_queue_ne, queued_count-set_queue, includes-remove,
  includes-remove_ne, has_job, IsSingle, IsSorted,
}

-- A conversation's queue: bounded, in the order of the sequence numbers, and of that conversation.
pub record IsQueue (cfg : QueueConfig) (k : String) (q : List Job) : Type 0 where
  pub depth : length q ≤ cfg.max_depth_per_conversation
  pub sorted : IsSorted q
  pub own : All (λ j. j.conversation_id ≡ k) q

-- The parts of the invariant that hold even while a conversation waits to be pumped.
pub record Core (cfg : QueueConfig) (s : State) : Type 0 where
  pub queues : (k : String) → IsQueue cfg k (get_queue k s.queues)
  pub pending : global_pending s ≤ cfg.max_global_pending
  pub counted : s.global_active ≡ length s.running
  pub single : IsSingle s.running
  pub tracked : s.draining ≡ false → (k : String) → includes s.active k ≡ has_job k s.running
  pub drained : s.draining ≡ true → queued_count s.queues ≡ 0

-- A conversation with a job that waits has a job that runs.
abbrev pub IsServed : State → String → Type 0
IsServed s k = s.draining ≡ false → get_queue k s.queues ≢ [] → includes s.active k ≡ true

-- Nobody waits for an idle dispatcher.
abbrev pub IsHeard : State → Type 0
IsHeard s = is_idle s ≡ true → s.waiters ≡ 0

pub record Inv (cfg : QueueConfig) (s : State) : Type 0 where
  pub core : Core cfg s
  pub served : (k : String) → IsServed s k
  pub heard : IsHeard s

pub notify_idle-Core : (cfg : QueueConfig) (s : State) → Core cfg s → Core cfg (notify_idle s)
unfolding notify_idle
notify_idle-Core cfg s v =
    if_cases (Core cfg) (is_idle s) (record s { waiters = 0 }) s
      (λ e. record {
        queues = v.queues;
        pending = v.pending;
        counted = v.counted;
        single = v.single;
        tracked = v.tracked;
        drained = v.drained;
      })
      (λ e. v)

pub notify_idle-IsServed : (s : State) (k : String) → IsServed s k → IsServed (notify_idle s) k
unfolding notify_idle
notify_idle-IsServed s k v =
    if_cases (λ x. IsServed x k) (is_idle s) (record s { waiters = 0 }) s (λ e. v) (λ e. v)

pub notify_idle-IsHeard : (s : State) → IsHeard (notify_idle s)
unfolding notify_idle
notify_idle-IsHeard s =
    if_cases IsHeard (is_idle s) (record s { waiters = 0 }) s (λ e p. refl)
      (λ e p. absurd (cc (e, p)))

-- A conversation that is not active may be marked so again.
pub set_inactive-Core :
    (cfg : QueueConfig) (k : String) (s : State)
    → (s.draining ≡ false → includes s.active k ≡ false)
    → Core cfg s
    → Core cfg (set_inactive k s)
set_inactive-Core cfg k s off v = record {
  queues = v.queues;
  pending = v.pending;
  counted = v.counted;
  single = v.single;
  tracked = λ d l. elim (String-discrete k l) [
    | yes e ↦
        subst (λ x. includes (remove k s.active) x ≡ has_job x s.running) e
          (includes-remove k s.active ∙ sym (sym (v.tracked d k) ∙ off d))
    | no n ↦ includes-remove_ne k l s.active n ∙ v.tracked d l
  ];
  drained = v.drained;
}

pub set_queue-IsQueue :
    (cfg : QueueConfig) (k : String) (q : List Job) (qs : List (String × List Job))
    → IsQueue cfg k q
    → ((l : String) → IsQueue cfg l (get_queue l qs))
    → (l : String) → IsQueue cfg l (get_queue l (set_queue k q qs))
set_queue-IsQueue cfg k q qs v rest l = elim (String-discrete k l) [
  | yes e ↦
      subst (λ x. IsQueue cfg x (get_queue x (set_queue k q qs))) e
        (subst (IsQueue cfg k) (sym (get_queue-set_queue k q qs)) v)
  | no n ↦ subst (IsQueue cfg l) (sym (get_queue-set_queue_ne k l q qs n)) (rest l)
]

IsQueue-tail :
    (cfg : QueueConfig) (k : String) (j : Job) (q : List Job)
    → IsQueue cfg k (j ∷ q)
    → IsQueue cfg k q
IsQueue-tail cfg k j q v = record {
  depth = omega (arith, v.depth);
  sorted = v.sorted.1;
  own = v.own.1;
}

start-tracked :
    (k l : String) (job : Job) (s : State)
    → job.conversation_id ≡ k
    → includes s.active l ≡ has_job l s.running
    → includes (k ∷ s.active) l ≡ has_job l (job ∷ s.running)
unfolding includes has_job
start-tracked k l job s own v = ground arith

start-Core :
    (cfg : QueueConfig) (k : String) (job : Job) (rest : List Job) (s : State)
    → get_queue k s.queues ≡ job ∷ rest
    → s.draining ≡ false
    → includes s.active k ≡ false
    → Core cfg s
    → Core cfg (start k job rest s)
start-Core cfg k job rest s front d off v =
    let q = subst (IsQueue cfg k) front (v.queues k) in
    let taken = queued_count-set_queue k rest s.queues in
    let size = ap length front in
    record {
      queues = set_queue-IsQueue cfg k rest s.queues (IsQueue-tail cfg k job rest q) v.queues;
      pending = omega (arith, taken, size, v.pending);
      counted = omega (arith, v.counted);
      single = (
        subst (λ x. has_job x s.running ≡ false) (sym q.own.0) (sym (v.tracked d k) ∙ off),
        v.single,
      );
      tracked = λ _ l. start-tracked k l job s q.own.0 (v.tracked d l);
      drained = λ p. absurd (cc);
    }

pump_queue-Core :
    (cfg : QueueConfig) (k : String) (q : List Job) (s : State)
    → get_queue k s.queues ≡ q
    → s.draining ≡ false
    → includes s.active k ≡ false
    → Core cfg s
    → Core cfg (pump_queue cfg k q s)
unfolding pump_queue
pump_queue-Core cfg k [] s front d off v =
    notify_idle-Core cfg (set_inactive k s) (set_inactive-Core cfg k s (λ _. off) v)
pump_queue-Core cfg k (job ∷ rest) s front d off v =
    if_cases (Core cfg) (leb cfg.max_global_pending s.global_active) s (start k job rest s) (λ e. v)
      (λ e. start-Core cfg k job rest s front d off v)

pub pump-Core : (cfg : QueueConfig) (k : String) (s : State) → Core cfg s → Core cfg (pump cfg k s)
unfolding pump
pump-Core cfg k s v =
    if_cases (Core cfg) s.draining (notify_idle (set_inactive k s))
      (if includes s.active k then s else pump_queue cfg k (get_queue k s.queues) s)
      (λ d.
        notify_idle-Core cfg (set_inactive k s)
          (set_inactive-Core cfg k s (λ p. absurd (cc (d, p))) v))
      (λ d.
        if_cases (Core cfg) (includes s.active k) s (pump_queue cfg k (get_queue k s.queues) s)
          (λ e. v) (λ off. pump_queue-Core cfg k (get_queue k s.queues) s refl d off v))
