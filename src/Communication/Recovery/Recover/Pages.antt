-- ===== src/Communication/Recovery/Recover/Pages.antt =====
-- src/core/communication/application/recover-communication-turns.service.ts: the recovery of all unfinished
-- turns, page by page. A page's fingerprint is the list of its turns. A page that is not empty always
-- makes progress, so the test that it did is left out.
use open_claw_bot_neo.Prelude.{
  ℕ, ℕ_eq, zero, suc, ◌+◌, Bool, true, false, ◌&&◌, ◌==◌, String, String_eq, Option, none, some,
  List, [], ◌∷◌, map, if◌then◌else◌,
}
use open_claw_bot_neo.Communication.Recovery.{
  recovery_context_unavailable, ledger_unavailable, port_failed, config_invalid, Candidate,
  ListReply, candidates, listed, Log, Ports, ok, err, Ran, and_then,
}
use open_claw_bot_neo.Communication.Recovery.Recover.{recover_one}

-- `previousFingerprint !== null && fingerprint === previousFingerprint`
unfoldable pub same_page : List String → List String → Bool
same_page [] [] = true
same_page (t ∷ ts) (u ∷ us) = t == u && same_page ts us
same_page _ _ = false

unfoldable pub is_page : Option (List String) → List String → Bool
unfolding same_page
is_page none page = false
is_page (some previous) page = same_page previous page

-- RecoverySideEffectCounters
pub record SideEffects : Type 0 where
  pub llm_calls : ℕ
  pub delivery_calls : ℕ
  pub memory_calls : ℕ

abbrev pub are_none : SideEffects → Bool
are_none s = s.llm_calls == 0 && s.delivery_calls == 0 && s.memory_calls == 0

abbrev pub max_pages : ℕ
max_pages = 10000

module _ (p : Ports) where
  -- The candidates of a page, one after the other, with the count of those recovered
  unfoldable pub recover_page : List Candidate → ℕ → Log → Ran ℕ
  recover_page [] count log = (ok count, log)
  recover_page (c ∷ cs) count log =
      and_then (recover_one p c log) (λ u after. recover_page cs (count + 1) after)

  abbrev pub page_of : List Candidate → List String
  page_of cs = map (λ (c : Candidate). c.turn_id) cs

  -- The loop over the pages, with those that are left
  unfoldable pub recover_pages : (pages : ℕ) → Option (List String) → ℕ → Log → Ran ℕ
  recover_pages zero previous count log = (err recovery_context_unavailable, log)
  recover_pages (suc pages) previous count log = elim (p.list_recovery_candidates log) [
    | candidates [] ↦ (ok count, listed ∷ log)
    | candidates (c ∷ cs) ↦
        if is_page previous (page_of (c ∷ cs))
        then (err recovery_context_unavailable, listed ∷ log)
        else and_then (recover_page (c ∷ cs) count (listed ∷ log))
            (λ total after. recover_pages pages (some (page_of (c ∷ cs))) total after)
    | ListReply.unavailable ↦ (err ledger_unavailable, listed ∷ log)
    | ListReply.port_error ↦ (err port_failed, listed ∷ log)
  ]

  -- recoverCommunicationTurns
  unfoldable pub recover_communication_turns : SideEffects → Log → Ran ℕ
  recover_communication_turns side_effects log =
      if are_none side_effects
      then recover_pages max_pages none 0 log
      else (err config_invalid, log)
