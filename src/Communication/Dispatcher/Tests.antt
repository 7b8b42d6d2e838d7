-- ===== src/Communication/Dispatcher/Tests.antt =====
-- The dispatcher at concrete jobs.
use open_claw_bot_neo.Prelude.{
  ℕ, ◌≤◌, ◌<◌, ◌≡◌, ◌↔◌, refl, true, false, [], ◌∷◌, String, String-discrete, ℕ_discrete, length,
  includes, All,
}
use open_claw_bot_neo.Communication.Turn.{QueueConfig}
use open_claw_bot_neo.Communication.Dispatcher.{
  Job, State, initial, get_queue, set_queue, remove, remove_job, queued_count, insert_sorted,
  cleared, global_pending, notify_idle, pump_queue, pump, pump_others, finish, ok, queue_full,
  enqueue, begin_drain, when_idle,
}
use open_claw_bot_neo.Communication.Dispatcher.Queues.{has_job}
use open_claw_bot_neo.Communication.Dispatcher.Invariant.{Inv}
use open_claw_bot_neo.Communication.Dispatcher.Reachable.{
  Steps, done, then_step, enqueues, Steps-Inv, initial-Inv, waiting-runs, enqueue-ok_iff,
  drained-starts_nothing,
}
use open_claw_bot_neo.Communication.Dispatcher.Order.{IsIn, finish-starts_next}

-- Everything that a test computes with.
dispatcher : Unit {0}
unfolding get_queue set_queue remove remove_job queued_count insert_sorted cleared notify_idle
    pump_queue pump pump_others finish enqueue begin_drain when_idle has_job includes
    String-discrete ℕ_discrete
dispatcher = tt

abbrev cfg : QueueConfig
cfg = record { max_depth_per_conversation = 2; max_global_pending = 4 }

abbrev job : ℕ → Job
job n = record { conversation_id = "chat"; conversation_sequence = n }

-- The third job arrives before the second.
abbrev busy : State
busy = (enqueue cfg (job 2) (enqueue cfg (job 3) (enqueue cfg (job 1) initial).1).1).1

busy-Steps : Steps cfg initial busy
busy-Steps =
    then_step (then_step (then_step done (enqueues (job 1))) (enqueues (job 3))) (enqueues (job 2))

busy-queue : get_queue "chat" busy.queues ≡ job 2 ∷ job 3 ∷ []
unfolding dispatcher
busy-queue = refl

busy-runs : has_job "chat" busy.running ≡ true
unfolding dispatcher
busy-runs = refl

busy-open : busy.draining ≡ false
unfolding dispatcher
busy-open = refl

fourth-refused : (enqueue cfg (job 4) busy).0 ≡ queue_full
unfolding dispatcher
fourth-refused = refl

busy-Inv : Inv cfg busy
busy-Inv = Steps-Inv cfg busy-Steps (initial-Inv cfg)

Steps-Inv_example : Inv cfg busy
Steps-Inv_example = Steps-Inv cfg busy-Steps (initial-Inv cfg)

waiting-runs_example : has_job "chat" busy.running ≡ true
waiting-runs_example = waiting-runs cfg "chat" busy-Steps busy-open (λ p. cc (busy-queue, p))

enqueue-ok_iff_example : ((enqueue cfg (job 4) busy).0 ≡ ok) ↔ (
    (busy.draining ≡ false)
    × (length (get_queue "chat" busy.queues) < 2)
    × (global_pending busy < 4))
enqueue-ok_iff_example = enqueue-ok_iff cfg (job 4) busy

finish-starts_next_example :
    IsIn (job 2) (finish cfg "chat" busy).running
    × All (λ x. 2 ≤ x.conversation_sequence) (job 3 ∷ [])
finish-starts_next_example =
    finish-starts_next cfg "chat" (job 2) (job 3 ∷ []) busy busy-Inv busy-runs busy-open busy-queue

abbrev drained : State
drained = (enqueue cfg (job 4) (begin_drain busy)).1

drained-starts_nothing_example :
    (drained.draining ≡ true)
    × ((k : String) → has_job k drained.running ≡ true → has_job k busy.running ≡ true)
drained-starts_nothing_example = drained-starts_nothing cfg busy (then_step done (enqueues (job 4)))
