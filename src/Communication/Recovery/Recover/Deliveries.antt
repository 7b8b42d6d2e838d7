-- ===== src/Communication/Recovery/Recover/Deliveries.antt =====
-- The course of a turn whose delivery was started.
use open_claw_bot_neo.Prelude.{◌≡◌, refl, Bool, true, false, ◌∷◌, Bool, false}
use open_claw_bot_neo.Communication.Turn.{
  TurnState, TurnState_eq, TurnState-discrete, delivery_started, CheckpointStatus_eq,
  AuditStartStatus_eq, can_transition,
}
use open_claw_bot_neo.Communication.Recovery.{
  DeliveryReply, Candidate, recorded_unknown, read_outcome, Log, Ports, ok, require_record_success,
  outbox_unavailable, transition_to, record_fact,
}
use open_claw_bot_neo.Communication.Recovery.Recover.{
  DeliveryLike, was_delivered, has_failed, is_unknown, state_of, look_up_delivery, delivery_fact,
  recover_delivery, next_checkpoint_status,
}
use open_claw_bot_neo.Communication.Recovery.Recover.Course.{
  aside, is_known, After, and_then-After, either-After,
}
use open_claw_bot_neo.Communication.Recovery.Recover.Steps.{
  On, Q, transition_to-After, record_fact-After,
}
use open_claw_bot_neo.Communication.Recovery.Recover.Branches.{
  IsDone, complete_delivery_like-After, weakened,
}

module _ (p : Ports) (start : TurnState) (base : Log) (c : Candidate) where
  starts_legally : (like : DeliveryLike) → can_transition delivery_started (state_of like) ≡ true
  unfolding can_transition TurnState-discrete
  starts_legally was_delivered = refl
  starts_legally has_failed = refl
  starts_legally is_unknown = refl

  -- What the outbox was found to know, of a turn that went no further.
  abbrev Found : DeliveryReply → TurnState → Bool → DeliveryLike → Log → Type 0
  Found reply s b like l = On p start base c s b l × (is_known reply ≡ false → like ≡ is_unknown)

  look_up-After :
      (reply : DeliveryReply) (s : TurnState) (b : Bool) (log : Log)
      → On p start base c s b log
      → After (Found reply s b) (Q p start base c) (look_up_delivery p reply c log)
  unfolding look_up_delivery
  look_up-After DeliveryReply.delivered s b log on = (on, λ e. absurd (cc))
  look_up-After DeliveryReply.known_failure s b log on = (on, λ e. absurd (cc))
  look_up-After DeliveryReply.outcome_unknown s b log on = (on, λ e. refl)
  look_up-After DeliveryReply.unavailable s b log on = (s, b, on)
  look_up-After DeliveryReply.port_error s b log on = (s, b, on)
  look_up-After unrecorded s b log on =
      let reply =
        require_record_success outbox_unavailable (p.record_delivery_outcome log c.turn_id) in
      let next = aside s b (recorded_unknown c.turn_id) log on tt in
      and_then-After (λ u l. On p start base c s b l) (Found unrecorded s b) (Q p start base c)
        (reply, recorded_unknown c.turn_id ∷ log) (λ u after. (ok is_unknown, after))
        (either-After (λ u l. On p start base c s b l) (Q p start base c) reply
          (recorded_unknown c.turn_id ∷ log) (λ u. next) (s, b, next))
        (λ u l on'. (on', λ e. refl))

module _ (p : Ports) (start : TurnState) (base : Log) (c : Candidate) where
  pub recover_delivery-After :
      (b : Bool) (log : Log)
      → On p start base c delivery_started b log
      → After
          (λ u l.
            IsDone p start base c (is_known (p.read_delivery_outcome log c.turn_id) ≡ false) l)
          (Q p start base c)
          (recover_delivery p c log)
  unfolding recover_delivery
  recover_delivery-After b log on =
      let reply = p.read_delivery_outcome log c.turn_id in
      let done = λ (u : Unit {0}) (l : Log). IsDone p start base c (is_known reply ≡ false) l in
      and_then-After (Found p start base c reply delivery_started b) done (Q p start base c)
        (look_up_delivery p reply c (read_outcome c.turn_id ∷ log)) _
        (look_up-After p start base c reply delivery_started b _
          (aside delivery_started b (read_outcome c.turn_id) log on tt))
        (λ like l1 (on1, unknown).
          and_then-After (λ r l. On p start base c delivery_started b l) done (Q p start base c)
            (record_fact p c.turn_id c.turn_revision (delivery_fact p c like) l1) _
            (record_fact-After p start base c delivery_started b c.turn_revision
              (delivery_fact p c like) l1 on1)
            (λ r2 l2 on2.
              and_then-After (λ r l. On p start base c (state_of like) b l) done (Q p start base c)
                (transition_to p c.turn_id r2 delivery_started (state_of like) l2) _
                (transition_to-After p start base c delivery_started (state_of like) b r2 l2 on2
                  (starts_legally p start base c like))
                (λ r3 l3 on3.
                  weakened p start base c (like ≡ is_unknown) (is_known reply ≡ false) _ unknown (
                    complete_delivery_like-After p start base
                      (record c {
                        checkpoint_status = next_checkpoint_status p like c.checkpoint_status;
                        state = state_of like;
                        turn_revision = r3;
                      })
                      like b r3 l3 on3))))
