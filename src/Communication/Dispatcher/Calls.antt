-- ===== src/Communication/Dispatcher/Calls.antt =====
-- Every call of the dispatcher keeps its invariant.
use open_claw_bot_neo.Prelude.{
  ◌+◌, ◌<◌, ◌≡◌, ◌≢◌, refl, sym, subst, ap, ◌∙◌, Bool, true, false, List, [], ◌∷◌, String,
  String_eq, ◌==◌, leb, length, includes, if◌then◌else◌, arith, String-discrete, if_cases,
}
use open_claw_bot_neo.Communication.Turn.{QueueConfig}
use open_claw_bot_neo.Communication.Dispatcher.{
  Job, State, get_queue, remove, remove_job, insert_sorted, cleared, global_pending, is_idle, pump,
  pump_others, settle, finish, add_job, enqueue, begin_drain, when_idle,
}
use open_claw_bot_neo.Communication.Dispatcher.Queues.{
  get_queue-set_queue, get_queue-set_queue_ne, queued_count-set_queue, get_queue-cleared,
  queued_count-cleared, includes-remove, includes-remove_ne, has_job, IsSingle, has_job-remove_job,
  has_job-remove_job_ne, remove_job-IsSingle, length-remove_job, length-insert_sorted,
  insert_sorted-All, insert_sorted-IsSorted,
}
use open_claw_bot_neo.Communication.Dispatcher.Invariant.{
  IsQueue, Core, IsServed, IsHeard, Inv, notify_idle-Core, notify_idle-IsServed,
  notify_idle-IsHeard, set_queue-IsQueue, pump-Core,
}
use open_claw_bot_neo.Communication.Dispatcher.Service.{
  queued_count-le, pump-IsServed, pump-IsServed_ne, pump-IsHeard,
}
use open_claw_bot_neo.Communication.Dispatcher.{
  EnqueueResult, is_draining, queue_full, global_queue_full,
}

add_job-Core :
    (cfg : QueueConfig) (job : Job) (s : State)
    → s.draining ≡ false
    → length (get_queue job.conversation_id s.queues) < cfg.max_depth_per_conversation
    → global_pending s < cfg.max_global_pending
    → Core cfg s
    → Core cfg (add_job job s)
add_job-Core cfg job s d room below v =
    let q = get_queue job.conversation_id s.queues in
    let w = v.queues job.conversation_id in
    let size = length-insert_sorted q job in
    let count = queued_count-set_queue job.conversation_id (insert_sorted q job) s.queues in
    record {
      queues =
          set_queue-IsQueue cfg job.conversation_id (insert_sorted q job) s.queues
            (record {
              depth = omega (arith, size, room);
              sorted = insert_sorted-IsSorted q job w.sorted;
              own =
                  insert_sorted-All (λ j. j.conversation_id ≡ job.conversation_id) q job refl w.own;
            })
            v.queues;
      pending = omega (arith, count, size, below);
      counted = v.counted;
      single = v.single;
      tracked = v.tracked;
      drained = λ p. absurd (cc (d, p));
    }

add_job-IsServed_ne :
    (job : Job) (l : String) (s : State)
    → job.conversation_id ≢ l
    → IsServed s l
    → IsServed (add_job job s) l
add_job-IsServed_ne job l s n v d some = v d (λ none. some (
    get_queue-set_queue_ne job.conversation_id l
      (insert_sorted (get_queue job.conversation_id s.queues) job) s.queues n
    ∙ none))

add_job-IsHeard : (job : Job) (s : State) → IsHeard (add_job job s)
add_job-IsHeard job s idle =
    let q = get_queue job.conversation_id s.queues in
    let size = length-insert_sorted q job in
    let least = queued_count-le job.conversation_id (add_job job s).queues in
    let put = ap length (get_queue-set_queue job.conversation_id (insert_sorted q job) s.queues) in
    absurd (ground (arith, size, least, put))

pump-Inv :
    (cfg : QueueConfig) (k : String) (s : State)
    → Core cfg s
    → ((l : String) → k ≢ l → IsServed s l)
    → IsHeard s
    → Inv cfg (pump cfg k s)
pump-Inv cfg k s core others heard = record {
  core = pump-Core cfg k s core;
  served = λ l. elim (String-discrete k l) [
    | yes e ↦ subst (IsServed (pump cfg k s)) e (pump-IsServed cfg k s core)
    | no n ↦ pump-IsServed_ne cfg k l s n (others l n)
  ];
  heard = pump-IsHeard cfg k s heard;
}

pub enqueue-Inv :
    (cfg : QueueConfig) (job : Job) (s : State) → Inv cfg s → Inv cfg (enqueue cfg job s).1
unfolding enqueue
enqueue-Inv cfg job s v =
    let full = length (get_queue job.conversation_id s.queues) in
    if_cases (λ (x : EnqueueResult × State). Inv cfg x.1) s.draining (is_draining, s) _ (λ d. v)
      (λ d.
        if_cases (λ (x : EnqueueResult × State). Inv cfg x.1)
          (leb cfg.max_depth_per_conversation full) (queue_full, s) _ (λ e. v)
          (λ room.
            if_cases (λ (x : EnqueueResult × State). Inv cfg x.1)
              (leb cfg.max_global_pending (global_pending s)) (global_queue_full, s) _ (λ e. v)
              (λ below.
                pump-Inv cfg job.conversation_id (add_job job s)
                  (add_job-Core cfg job s d (ground (arith, room)) (ground (arith, below)) v.core)
                  (λ l n. add_job-IsServed_ne job l s n (v.served l)) (add_job-IsHeard job s))))

settle-tracked :
    (k l : String) (s : State)
    → IsSingle s.running
    → includes s.active l ≡ has_job l s.running
    → includes (remove k s.active) l ≡ has_job l (remove_job k s.running)
settle-tracked k l s single v = elim (String-discrete k l) [
  | yes e ↦
      subst (λ x. includes (remove k s.active) x ≡ has_job x (remove_job k s.running)) e
        (includes-remove k s.active ∙ sym (has_job-remove_job k s.running single))
  | no n ↦ includes-remove_ne k l s.active n ∙ v ∙ sym (has_job-remove_job_ne k l s.running n)
]

pub settle-Core :
    (cfg : QueueConfig) (k : String) (s : State)
    → has_job k s.running ≡ true
    → Core cfg s
    → Core cfg (settle k s)
settle-Core cfg k s runs v = record {
  queues = v.queues;
  pending = omega (arith, v.pending);
  counted = omega (arith, v.counted, length-remove_job k s.running runs);
  single = remove_job-IsSingle k s.running v.single;
  tracked = λ d l. settle-tracked k l s v.single (v.tracked d l);
  drained = v.drained;
}

settle-IsServed_ne : (k l : String) (s : State) → k ≢ l → IsServed s l → IsServed (settle k s) l
settle-IsServed_ne k l s n v d some = includes-remove_ne k l s.active n ∙ v d some

abbrev IsRunnable : QueueConfig → State → Type 0
IsRunnable cfg s = Core cfg s × ((l : String) → IsServed s l)

pump-IsRunnable :
    (cfg : QueueConfig) (k : String) (s : State) → IsRunnable cfg s → IsRunnable cfg (pump cfg k s)
pump-IsRunnable cfg k s (core, served) = (
  pump-Core cfg k s core,
  λ l. elim (String-discrete k l) [
    | yes e ↦ subst (IsServed (pump cfg k s)) e (pump-IsServed cfg k s core)
    | no n ↦ pump-IsServed_ne cfg k l s n (served l)
  ],
)

pump_others-IsRunnable :
    (cfg : QueueConfig) (k : String) (qs : List (String × List Job)) (s : State)
    → IsRunnable cfg s
    → IsRunnable cfg (pump_others cfg k qs s)
unfolding pump_others
pump_others-IsRunnable cfg k [] s v = v
pump_others-IsRunnable cfg k ((k', q) ∷ qs) s v =
    pump_others-IsRunnable cfg k qs (if k' == k then s else pump cfg k' s) (
      if_cases (IsRunnable cfg) (k' == k) s (pump cfg k' s) (λ e. v)
        (λ e. pump-IsRunnable cfg k' s v))

pub finish-Inv :
    (cfg : QueueConfig) (k : String) (s : State)
    → has_job k s.running ≡ true
    → Inv cfg s
    → Inv cfg (finish cfg k s)
unfolding finish
finish-Inv cfg k s runs v =
    let core = settle-Core cfg k s runs v.core in
    let pumped : IsRunnable cfg (pump cfg k (settle k s)) = (
      pump-Core cfg k (settle k s) core,
      λ l. elim (String-discrete k l) [
        | yes e ↦
            subst (IsServed (pump cfg k (settle k s))) e (pump-IsServed cfg k (settle k s) core)
        | no n ↦ pump-IsServed_ne cfg k l (settle k s) n (settle-IsServed_ne k l s n (v.served l))
      ],
    ) in
    let done = pump_others cfg k s.queues (pump cfg k (settle k s)) in
    let (core', served) = pump_others-IsRunnable cfg k s.queues (pump cfg k (settle k s)) pumped in
    record {
      core = notify_idle-Core cfg done core';
      served = λ l. notify_idle-IsServed done l (served l);
      heard = notify_idle-IsHeard done;
    }

pub begin_drain-Inv : (cfg : QueueConfig) (s : State) → Inv cfg s → Inv cfg (begin_drain s)
unfolding begin_drain
begin_drain-Inv cfg s v =
    let after : State = record s { draining = true; queues = cleared s.queues } in
    let core = v.core in
    let none_left = queued_count-cleared s.queues in
    record {
      core = notify_idle-Core cfg after (record {
        queues = λ k.
            subst (IsQueue cfg k) (sym (get_queue-cleared k s.queues))
              (record { depth = omega arith; sorted = tt; own = tt });
        pending = omega (arith, core.pending, none_left);
        counted = core.counted;
        single = core.single;
        tracked = λ p. absurd (cc);
        drained = λ p. none_left;
      });
      served = λ k. notify_idle-IsServed after k (λ p. absurd (cc));
      heard = notify_idle-IsHeard after;
    }

pub when_idle-Inv : (cfg : QueueConfig) (s : State) → Inv cfg s → Inv cfg (when_idle s).1
unfolding when_idle
when_idle-Inv cfg s v =
    let core = v.core in
    if_cases (λ (x : Bool × State). Inv cfg x.1) (is_idle s) (true, s)
      (false, record s { waiters = s.waiters + 1 }) (λ e. v)
      (λ busy. record {
        core = record {
          queues = core.queues;
          pending = core.pending;
          counted = core.counted;
          single = core.single;
          tracked = core.tracked;
          drained = core.drained;
        };
        served = v.served;
        heard = λ idle. absurd (cc (busy, idle));
      })
