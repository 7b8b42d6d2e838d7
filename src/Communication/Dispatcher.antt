-- ===== src/Communication/Dispatcher.antt =====
-- src/core/communication/application/per-conversation-turn-dispatcher.ts: a queue for each
-- conversation, of which at most one job runs at a time. `active` holds the keys that the map of
-- active conversations has as true, and `running` the jobs whose promise has not settled. A job's
-- promise settles after the call that started it has returned, and `finish` is what its `finally`
-- does.
pub mod Queues
pub mod Invariant
pub mod Service
pub mod Calls
pub mod Reachable
pub mod Order
mod Tests
use open_claw_bot_neo.Prelude.{
  ℕ, ◌+◌, ◌-◌, Bool, true, false, not, ◌&&◌, List, [], ◌∷◌, map, String, String_eq, ℕ_eq, ◌==◌, leb,
  ltb, length, includes, if◌then◌else◌,
}
use open_claw_bot_neo.Communication.Turn.{QueueConfig}

pub record Job : Type 0 where
  pub conversation_id : String
  pub conversation_sequence : ℕ

pub record State : Type 0 where
  pub queues : List (String × List Job)
  pub active : List String
  pub global_active : ℕ
  pub draining : Bool
  pub waiters : ℕ
  pub running : List Job

abbrev pub initial : State
initial = record {
  queues = [];
  active = [];
  global_active = 0;
  draining = false;
  waiters = 0;
  running = [];
}

-- `queues.get(key)`; a missing queue counts as an empty one wherever it is read.
unfoldable pub get_queue : String → List (String × List Job) → List Job
get_queue key [] = []
get_queue key ((k, q) ∷ rest) = if k == key then q else get_queue key rest

-- `queues.set(key, queue)`, and a change of a queue in place
unfoldable pub set_queue : String → List Job → List (String × List Job) → List (String × List Job)
set_queue key queue [] = (key, queue) ∷ []
set_queue key queue ((k, q) ∷ rest) =
    if k == key then (key, queue) ∷ rest else (k, q) ∷ set_queue key queue rest

-- `active.set(key, false)`
unfoldable pub remove : String → List String → List String
remove key [] = []
remove key (k ∷ ks) = if k == key then remove key ks else k ∷ remove key ks

-- The conversation's promise that settles.
unfoldable pub remove_job : String → List Job → List Job
remove_job key [] = []
remove_job key (j ∷ js) = if j.conversation_id == key then js else j ∷ remove_job key js

unfoldable pub queued_count : List (String × List Job) → ℕ
queued_count [] = 0
queued_count ((k, q) ∷ rest) = length q + queued_count rest

abbrev pub global_pending : State → ℕ
global_pending s = queued_count s.queues + s.global_active

abbrev pub is_idle : State → Bool
is_idle s = s.global_active == 0 && queued_count s.queues == 0

-- notifyIdle: all waiters are resolved.
unfoldable pub notify_idle : State → State
notify_idle s = if is_idle s then record s { waiters = 0 } else s

-- insertSorted: before the first job of a greater sequence
unfoldable pub insert_sorted : List Job → Job → List Job
insert_sorted [] job = job ∷ []
insert_sorted (existing ∷ rest) job =
    if ltb job.conversation_sequence existing.conversation_sequence
    then job ∷ existing ∷ rest
    else existing ∷ insert_sorted rest job

abbrev pub set_inactive : String → State → State
set_inactive key s = record s { active = remove key s.active }

abbrev pub start : String → Job → List Job → State → State
start key job rest s = record s {
  queues = set_queue key rest s.queues;
  active = key ∷ s.active;
  global_active = s.global_active + 1;
  running = job ∷ s.running;
}

unfoldable pub pump_queue : QueueConfig → String → List Job → State → State
pump_queue cfg key [] s = notify_idle (set_inactive key s)
pump_queue cfg key (job ∷ rest) s =
    if leb cfg.max_global_pending s.global_active then s else start key job rest s

unfoldable pub pump : QueueConfig → String → State → State
pump cfg key s =
    if s.draining
    then notify_idle (set_inactive key s)
    else if includes s.active key
    then s
    else pump_queue cfg key (get_queue key s.queues) s

-- `for (const key of queues.keys()) if (key !== conversationKey) pump(key)`
unfoldable pub pump_others : QueueConfig → String → List (String × List Job) → State → State
pump_others cfg key [] s = s
pump_others cfg key ((k, q) ∷ rest) s =
    pump_others cfg key rest (if k == key then s else pump cfg k s)

abbrev pub settle : String → State → State
settle key s = record s {
  global_active = s.global_active - 1;
  active = remove key s.active;
  running = remove_job key s.running;
}

-- The clause `finally` of a job of this conversation; pumping changes no key of `queues`.
unfoldable pub finish : QueueConfig → String → State → State
finish cfg key s = notify_idle (pump_others cfg key s.queues (pump cfg key (settle key s)))

pub data EnqueueResult : Type 0 where
  ok is_draining queue_full global_queue_full : EnqueueResult

abbrev pub add_job : Job → State → State
add_job job s = record s {
  queues =
      set_queue job.conversation_id (insert_sorted (get_queue job.conversation_id s.queues) job)
        s.queues;
}

unfoldable pub enqueue : QueueConfig → Job → State → EnqueueResult × State
enqueue cfg job s =
    if s.draining
    then (is_draining, s)
    else if leb cfg.max_depth_per_conversation (length (get_queue job.conversation_id s.queues))
    then (queue_full, s)
    else if leb cfg.max_global_pending (global_pending s)
    then (global_queue_full, s)
    else (ok, pump cfg job.conversation_id (add_job job s))

unfoldable pub cleared : List (String × List Job) → List (String × List Job)
cleared [] = []
cleared ((k, q) ∷ rest) = (k, []) ∷ cleared rest

-- beginDrain
unfoldable pub begin_drain : State → State
begin_drain s = notify_idle (record s { draining = true; queues = cleared s.queues })

-- whenIdle: whether the promise is resolved at once
unfoldable pub when_idle : State → Bool × State
when_idle s = if is_idle s then (true, s) else (false, record s { waiters = s.waiters + 1 })
