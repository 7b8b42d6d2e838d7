-- ===== src/Communication/Dispatcher/Reachable.antt =====
-- The dispatcher's histories: enqueued jobs, settled promises, drains and waiters in any order.
use open_claw_bot_neo.Prelude.{
  ◌+◌, ◌<◌, ◌≡◌, ◌≢◌, ◌↔◌, refl, sym, ◌∙◌, Bool, true, false, List, [], ◌∷◌, String, String_eq,
  ◌==◌, length, includes, if◌then◌else◌, arith, if_cases,
}
use open_claw_bot_neo.Communication.Turn.{QueueConfig}
use open_claw_bot_neo.Communication.Dispatcher.{
  Job, State, initial, get_queue, remove_job, queued_count, is_idle, global_pending, notify_idle,
  set_inactive, pump_queue, pump, pump_others, settle, finish, EnqueueResult, ok, is_draining,
  enqueue, begin_drain, when_idle,
}
use open_claw_bot_neo.Communication.Dispatcher.Queues.{has_job}
use open_claw_bot_neo.Communication.Dispatcher.Invariant.{Inv}
use open_claw_bot_neo.Communication.Dispatcher.Calls.{
  enqueue-Inv, finish-Inv, begin_drain-Inv, when_idle-Inv,
}

-- A promise settles only for a job that runs.
pub data Step (cfg : QueueConfig) (s : State) : State → Type 0 where
  enqueues : (job : Job) → Step cfg s (enqueue cfg job s).1
  finishes : (k : String) → has_job k s.running ≡ true → Step cfg s (finish cfg k s)
  drains : Step cfg s (begin_drain s)
  waits : Step cfg s (when_idle s).1

pub data Steps (cfg : QueueConfig) (s : State) : State → Type 0 where
  done : Steps cfg s s
  then_step : {t u : State} → Steps cfg s t → Step cfg t u → Steps cfg s u

Step-Inv : (cfg : QueueConfig) {s t : State} → Step cfg s t → Inv cfg s → Inv cfg t
Step-Inv cfg {s} (enqueues job) v = enqueue-Inv cfg job s v
Step-Inv cfg {s} (finishes k runs) v = finish-Inv cfg k s runs v
Step-Inv cfg {s} drains v = begin_drain-Inv cfg s v
Step-Inv cfg {s} waits v = when_idle-Inv cfg s v

-- From a state that satisfies the invariant, any history ends in one that does: every queue is within
-- its depth, in the order of the sequence numbers and of its own conversation; the jobs that wait
-- and run are within the global bound; the count of active jobs is the number of those that run, of
-- which no conversation has two; until draining begins, a conversation is marked active exactly when
-- its job runs, and one whose job waits is active; once draining has begun no job waits; and nobody
-- waits for an idle dispatcher.
pub Steps-Inv : (cfg : QueueConfig) {s t : State} → Steps cfg s t → Inv cfg s → Inv cfg t
Steps-Inv cfg done v = v
Steps-Inv cfg (then_step steps step) v = Step-Inv cfg step (Steps-Inv cfg steps v)

pub initial-Inv : (cfg : QueueConfig) → Inv cfg initial
unfolding get_queue queued_count has_job includes
initial-Inv cfg = record {
  core = record {
    queues = λ k. record { depth = omega arith; sorted = tt; own = tt };
    pending = omega arith;
    counted = refl;
    single = tt;
    tracked = λ d k. refl;
    drained = λ p. refl;
  };
  served = λ k d some. absurd (some refl);
  heard = λ p. refl;
}

-- No wakeup is lost: in every state that the dispatcher reaches, until draining begins, a
-- conversation with a job that waits has a job that runs, whose settling will pump the queue.
pub waiting-runs :
    (cfg : QueueConfig) {s : State} (k : String)
    → Steps cfg initial s
    → s.draining ≡ false
    → get_queue k s.queues ≢ []
    → has_job k s.running ≡ true
waiting-runs cfg k steps d some =
    let v = Steps-Inv cfg steps (initial-Inv cfg) in sym (v.core.tracked d k) ∙ v.served k d some

-- A job is taken exactly when the dispatcher does not drain, its conversation's queue is below its
-- depth and the jobs that wait and run are below the global bound.
pub enqueue-ok_iff :
    (cfg : QueueConfig) (job : Job) (s : State)
    → ((enqueue cfg job s).0 ≡ ok) ↔ (
        (s.draining ≡ false)
        × (length (get_queue job.conversation_id s.queues) < cfg.max_depth_per_conversation)
        × (global_pending s < cfg.max_global_pending))
unfolding enqueue
enqueue-ok_iff cfg job s = (λ h. (ground arith, ground arith, ground arith), λ h. ground arith)

-- Draining is still on, and the jobs that run are among those that ran.
abbrev Keeps : State → State → Type 0
Keeps s t =
    (t.draining ≡ true) × ((k : String) → has_job k t.running ≡ true → has_job k s.running ≡ true)

notify_idle-Keeps : (s t : State) → Keeps s t → Keeps s (notify_idle t)
unfolding notify_idle
notify_idle-Keeps s t v =
    if_cases (Keeps s) (is_idle t) (record t { waiters = 0 }) t (λ e. v) (λ e. v)

pump-Keeps : (cfg : QueueConfig) (k : String) (s t : State) → Keeps s t → Keeps s (pump cfg k t)
unfolding pump
pump-Keeps cfg k s t v =
    if_cases (Keeps s) t.draining (notify_idle (set_inactive k t))
      (if includes t.active k then t else pump_queue cfg k (get_queue k t.queues) t)
      (λ d. notify_idle-Keeps s (set_inactive k t) v) (λ d. absurd (cc (d, v.0)))

pump_others-Keeps :
    (cfg : QueueConfig) (k : String) (qs : List (String × List Job)) (s t : State)
    → Keeps s t
    → Keeps s (pump_others cfg k qs t)
unfolding pump_others
pump_others-Keeps cfg k [] s t v = v
pump_others-Keeps cfg k ((k', q) ∷ qs) s t v =
    pump_others-Keeps cfg k qs s (if k' == k then t else pump cfg k' t)
      (if_cases (Keeps s) (k' == k) t (pump cfg k' t) (λ e. v) (λ e. pump-Keeps cfg k' s t v))

has_job-remove_job_le :
    (k l : String) (js : List Job) → has_job l (remove_job k js) ≡ true → has_job l js ≡ true
unfolding has_job remove_job
has_job-remove_job_le k l [] h = h
has_job-remove_job_le k l (j ∷ js) h = ground (arith, has_job-remove_job_le k l js)

Step-Keeps : (cfg : QueueConfig) (s : State) {t u : State} → Step cfg t u → Keeps s t → Keeps s u
unfolding enqueue finish begin_drain when_idle
Step-Keeps cfg s {t} (enqueues job) v =
    if_cases (λ (x : EnqueueResult × State). Keeps s x.1) t.draining (is_draining, t) _ (λ d. v)
      (λ d. absurd (cc (d, v.0)))
Step-Keeps cfg s {t} (finishes k runs) v = notify_idle-Keeps s _ (
    pump_others-Keeps cfg k t.queues s _
      (pump-Keeps cfg k s (settle k t) (v.0, λ l h. v.1 l (has_job-remove_job_le k l t.running h))))
Step-Keeps cfg s {t} drains v = notify_idle-Keeps s _ (refl, v.1)
Step-Keeps cfg s {t} waits v =
    if_cases (λ (x : Bool × State). Keeps s x.1) (is_idle t) (true, t)
      (false, record t { waiters = t.waiters + 1 }) (λ e. v) (λ e. v)

-- Once draining has begun no job starts: in every later state the dispatcher still drains, and a
-- conversation that has a job running had one when draining began.
pub drained-starts_nothing :
    (cfg : QueueConfig) (s : State) {t : State}
    → Steps cfg (begin_drain s) t
    → (t.draining ≡ true) × ((k : String) → has_job k t.running ≡ true → has_job k s.running ≡ true)
unfolding begin_drain
drained-starts_nothing cfg s done = notify_idle-Keeps s _ (refl, λ k h. h)
drained-starts_nothing cfg s (then_step steps step) =
    Step-Keeps cfg s step (drained-starts_nothing cfg s steps)
