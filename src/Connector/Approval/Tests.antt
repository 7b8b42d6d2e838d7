-- ===== src/Connector/Approval/Tests.antt =====
-- Approvals at concrete calls.
use open_claw_bot_neo.Prelude.{
  ℕ, ◌≡◌, ◌≢◌, ◌↔◌, refl, false, arith, none, some, List, [], ◌∷◌, String-discrete, Option-discrete,
}
use open_claw_bot_neo.Connector.Capabilities.{
  financial, low_risk_write, ToolSideEffectClass-discrete, is_financial_action,
}
use open_claw_bot_neo.Connector.Approval.{
  pending, RequestBinding, ApprovalBinding, StoredRecord, ok, err, Clock, already_consumed,
  ApprovalStatus-discrete, get_record, put_record, new_record, create_request, consume_grant, grant,
  deny, revoke,
}
use open_claw_bot_neo.Connector.Approval.Runs.{
  AllSound, Call, requests, consumes, denies, revokes, grants, run, run-AllSound, empty-AllSound,
}
use open_claw_bot_neo.Connector.Approval.Grants.{IsConsumable}
use open_claw_bot_neo.Connector.Approval.Uses.{
  consume_grant-ok_iff, consume_once, deny_forever, revoke_forever, financial_never,
}
use open_claw_bot_neo.Connector.Approval.Flow.{approval_flow}

-- Everything that a test computes with.
approvals : Unit {0}
unfolding run get_record put_record create_request consume_grant grant deny revoke
    is_financial_action String-discrete Option-discrete ToolSideEffectClass-discrete
    ApprovalStatus-discrete
approvals = tt

abbrev at : ℕ → Clock
at n = record { now_ms = some n; parse = λ s. some 1000 }

abbrev write_binding : RequestBinding
write_binding = record {
  invocation_id = "call-1";
  tool_id = "files";
  connector_id = "disk";
  connection_id = none;
  input_digest = "d41d";
  side_effect_class = low_risk_write;
  expires_at = "2026-01-01T00:00:01.000Z";
  requesting_actor_id = "bot";
}

abbrev write_grant : ApprovalBinding
write_grant = (new_record "r1" "n1" write_binding).binding

abbrev asked : List StoredRecord
asked = run (requests ("r1" ∷ []) "n1" write_binding "bot" ∷ []) []

abbrev approved : List StoredRecord
approved = run (requests ("r1" ∷ []) "n1" write_binding "bot" ∷ grants (at 10) "r1" "owner" ∷ []) []

approved-AllSound : AllSound approved
approved-AllSound =
    run-AllSound (requests ("r1" ∷ []) "n1" write_binding "bot" ∷ grants (at 10) "r1" "owner" ∷ [])
      [] empty-AllSound

asked-AllSound : AllSound asked
asked-AllSound = run-AllSound (requests ("r1" ∷ []) "n1" write_binding "bot" ∷ []) [] empty-AllSound

consume_grant-ok_iff_example :
    ((consume_grant (at 20) "r1" "n1" write_grant "bot" approved).0 ≡ ok tt) ↔ (
      (r : StoredRecord) × (get_record "r1" approved ≡ some r)
      × IsConsumable (at 20) "n1" write_grant "bot" r)
consume_grant-ok_iff_example = consume_grant-ok_iff (at 20) "r1" "n1" write_grant "bot" approved

used : (consume_grant (at 20) "r1" "n1" write_grant "bot" approved).0 ≡ ok tt
unfolding approvals
used = refl

too_late : (consume_grant (at 1000) "r1" "n1" write_grant "bot" approved).0 ≢ ok tt
unfolding approvals
too_late = λ p. cc

abbrev second_try : Call
second_try = consumes (at 30) "r1" "n1" write_grant "bot"

consume_once_example :
    consume_grant
      (at 40)
      "r1"
      "n1"
      write_grant
      "bot"
      (run (consumes (at 20) "r1" "n1" write_grant "bot" ∷ second_try ∷ []) approved)
    ≡ (
      err already_consumed,
      run (consumes (at 20) "r1" "n1" write_grant "bot" ∷ second_try ∷ []) approved,
    )
consume_once_example =
    consume_once (at 20) "r1" "n1" write_grant "bot" approved (second_try ∷ []) (at 40) "n1"
      write_grant "bot" approved-AllSound used

denied_now : (deny "r1" asked).0 ≡ ok tt
unfolding approvals
denied_now = refl

revoked_now : (revoke "r1" approved).0 ≡ ok tt
unfolding approvals
revoked_now = refl

deny_forever_example :
    ((consume_grant
        (at 40)
        "r1"
        "n1"
        write_grant
        "bot"
        (run (denies "r1" ∷ grants (at 30) "r1" "owner" ∷ []) asked)).0
      ≢ ok tt)
    × ((grant (at 40) "r1" "owner" (run (denies "r1" ∷ grants (at 30) "r1" "owner" ∷ []) asked)).0
        ≢ ok tt)
deny_forever_example =
    deny_forever "r1" (grants (at 30) "r1" "owner" ∷ []) (at 40) "n1" write_grant "bot" "owner"
      asked asked-AllSound denied_now

revoke_forever_example :
    ((consume_grant
        (at 40)
        "r1"
        "n1"
        write_grant
        "bot"
        (run (revokes "r1" ∷ grants (at 30) "r1" "owner" ∷ []) approved)).0
      ≢ ok tt)
    × ((grant
          (at 40)
          "r1"
          "owner"
          (run (revokes "r1" ∷ grants (at 30) "r1" "owner" ∷ []) approved)).0
        ≢ ok tt)
revoke_forever_example =
    revoke_forever "r1" (grants (at 30) "r1" "owner" ∷ []) (at 40) "n1" write_grant "bot" "owner"
      approved approved-AllSound revoked_now

abbrev money_binding : RequestBinding
money_binding = record write_binding { side_effect_class = financial }

financial_never_example :
    (consume_grant
      (at 20)
      "r1"
      "n1"
      (new_record "r1" "n1" money_binding).binding
      "bot"
      (run (requests ("r1" ∷ []) "n1" money_binding "bot" ∷ grants (at 10) "r1" "owner" ∷ []) [])).0
    ≢ ok tt
financial_never_example =
    financial_never
      (requests ("r1" ∷ []) "n1" money_binding "bot" ∷ grants (at 10) "r1" "owner" ∷ []) (at 20)
      "r1" "n1" (new_record "r1" "n1" money_binding).binding "bot" refl

write-plain : is_financial_action low_risk_write ≡ false
unfolding approvals
write-plain = refl

empty-free : get_record "r1" [] ≡ none
unfolding approvals
empty-free = refl

approval_flow_example :
    ((create_request ("r1" ∷ []) "n1" write_binding "bot" []).0
      ≡ ok (record { approval_id = "r1"; binding = write_grant; status = pending }))
    × ((grant (at 10) "r1" "owner" (create_request ("r1" ∷ []) "n1" write_binding "bot" []).1).0
        ≡ ok tt)
    × ((consume_grant
          (at 20)
          "r1"
          "n1"
          write_grant
          "bot"
          (grant
            (at 10)
            "r1"
            "owner"
            (create_request ("r1" ∷ []) "n1" write_binding "bot" []).1).1).0
        ≡ ok tt)
approval_flow_example =
    approval_flow [] "r1" "n1" write_binding [] (at 10) (at 20) "owner" 1000 10 20 empty-free
      write-plain refl refl refl refl (ground arith) (ground arith)
