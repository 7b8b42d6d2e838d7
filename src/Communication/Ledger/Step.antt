-- ===== src/Communication/Ledger/Step.antt =====
-- What one method may do to the ledger: nothing, one new row, one revised row, or one row that gets
-- its sequence number.
use open_claw_bot_neo.Prelude.{
  ℕ, ◌+◌, ◌<◌, ◌≡◌, ◌⊎◌, refl, ap, true, false, none, some, List, [], ◌∷◌, String, arith, All,
  or_else, String_eq, ℕ_eq, String-discrete, subst, subst₂, sym, ◌∙◌, is_none,
}
use open_claw_bot_neo.Communication.Turn.{TurnState, QueueConfig, DeliveryStatus, can_transition}
use open_claw_bot_neo.Communication.Ledger.Rows.{
  TurnRow, Ledger, load_turn, select_by_key, set_columns, update_turn, changes, write_turn,
  select_sequence, upsert_sequence, is_active, is_active_in, count,
}

pub data Rewrites (r r' : TurnRow) : List TurnRow → List TurnRow → Type 0 where
  here : {rs : List TurnRow} → Rewrites r r' (r ∷ rs) (r' ∷ rs)
  there :
      {x : TurnRow} {rs rs' : List TurnRow}
      → Rewrites r r' rs rs'
      → Rewrites r r' (x ∷ rs) (x ∷ rs')

-- The primary key and the unique key of the table.
abbrev pub IsDistinct : List TurnRow → Type 0
IsDistinct [] = Unit
IsDistinct (r ∷ rs) =
    (load_turn r.turn_id rs ≡ none) × (select_by_key r.idempotency_key rs ≡ none) × IsDistinct rs

pub load_turn-id :
    (id : String) (rs : List TurnRow) {r : TurnRow} → load_turn id rs ≡ some r → r.turn_id ≡ id
unfolding load_turn
load_turn-id id [] h = cc
load_turn-id id (x ∷ rs) {r} h = ground (arith, load_turn-id id rs {r = r})

pub All-load_turn {ℓ} :
    (P : TurnRow → Type ℓ) (id : String) (rs : List TurnRow) {r : TurnRow}
    → load_turn id rs ≡ some r
    → All P rs
    → P r
unfolding load_turn
All-load_turn P id [] h a = absurd (cc)
All-load_turn P id (x ∷ rs) {r} h (p, a) = elim (String-discrete x.turn_id id) [
  | yes e ↦ subst P (ground arith) p
  | no n ↦ All-load_turn P id rs (ground arith) a
]

changes-absent :
    (new : TurnRow) (n : ℕ) (rs : List TurnRow)
    → load_turn new.turn_id rs ≡ none
    → changes new n rs ≡ 0
unfolding changes load_turn
changes-absent new n [] h = refl
changes-absent new n (x ∷ rs) h = ground (arith, changes-absent new n rs)

update_turn-absent :
    (new : TurnRow) (n : ℕ) (at : String) (rs : List TurnRow)
    → load_turn new.turn_id rs ≡ none
    → update_turn new n at rs ≡ rs
unfolding update_turn load_turn
update_turn-absent new n at [] h = refl
update_turn-absent new n at (x ∷ rs) h = ground (arith, update_turn-absent new n at rs)

-- In a table with its primary key the statement changes the row that was loaded.
pub changes-load_turn :
    (new : TurnRow) (rs : List TurnRow) {r : TurnRow}
    → IsDistinct rs
    → load_turn new.turn_id rs ≡ some r
    → changes new r.turn_revision rs ≡ 1
unfolding changes load_turn
changes-load_turn new [] d h = cc
changes-load_turn new (x ∷ rs) {r} d h =
    ground (arith, changes-load_turn new rs {r = r} d.2, changes-absent new r.turn_revision rs)

update_turn-Rewrites :
    (new : TurnRow) (at : String) (rs : List TurnRow) {r : TurnRow}
    → IsDistinct rs
    → load_turn new.turn_id rs ≡ some r
    → Rewrites r (set_columns new at r) rs (update_turn new r.turn_revision at rs)
unfolding update_turn load_turn
update_turn-Rewrites new at [] d h = absurd (cc)
update_turn-Rewrites new at (x ∷ rs) {r} d h = elim (String-discrete x.turn_id new.turn_id) [
  | yes e ↦
      let same : x ≡ r = ground arith in
      let rest : update_turn new r.turn_revision at rs ≡ rs =
        ground (arith, update_turn-absent new r.turn_revision at rs) in
      subst₂ (Rewrites r (set_columns new at r)) (ap (λ y. y ∷ rs) (sym same)) (ground arith)
        (here {rs = rs})
  | no n ↦
      subst (Rewrites r (set_columns new at r) (x ∷ rs))
        {x = x ∷ update_turn new r.turn_revision at rs} (ground arith)
        (there (update_turn-Rewrites new at rs d.2 (ground arith)))
]

-- So `writeTurn` never gives the stale answer for a row loaded in the same transaction, and rewrites
-- that row only.
module _ (now : String) (rs : List TurnRow) (d : IsDistinct rs) (id : String) (r new : TurnRow)
    (found : load_turn id rs ≡ some r) (same : new.turn_id ≡ r.turn_id) where
  reloaded : load_turn new.turn_id rs ≡ some r
  reloaded = subst (λ k. load_turn k rs ≡ some r) (sym (same ∙ load_turn-id id rs found)) found

  pub write_turn-written : (write_turn new r.turn_revision now rs).0 ≡ true
  unfolding write_turn
  write_turn-written = ground (arith, changes-load_turn new rs {r = r} d reloaded)

  pub write_turn-Rewrites :
      Rewrites r (set_columns new now r) rs (write_turn new r.turn_revision now rs).1
  unfolding write_turn
  write_turn-Rewrites = update_turn-Rewrites new now rs d reloaded

-- What holds of every revision of a row, whichever method makes it.
pub record Revision (r r' : TurnRow) : Type 0 where
  pub same_turn : r'.turn_id ≡ r.turn_id
  pub same_key : r'.idempotency_key ≡ r.idempotency_key
  pub next : r'.turn_revision ≡ r.turn_revision + 1
  pub moved : (r'.state ≡ r.state) ⊎ (can_transition r.state r'.state ≡ true)
  pub keeps_delivered :
      r.delivery_status ≡ DeliveryStatus.delivered → r'.delivery_status ≡ DeliveryStatus.delivered
  pub keeps_unknown :
      r.delivery_status ≡ DeliveryStatus.outcome_unknown
      → r'.delivery_status ≡ DeliveryStatus.outcome_unknown
  pub keeps_llm : is_none r.llm_outcome ≡ false → r'.llm_outcome ≡ r.llm_outcome

pub data Step (cfg : QueueConfig) (db db' : Ledger) : Type 0 where
  stay : db' ≡ db → Step cfg db db'
  insert :
      (row : TurnRow)
      → load_turn row.turn_id db.turns ≡ none
      → select_by_key row.idempotency_key db.turns ≡ none
      → row.conversation_sequence ≡ none
      → db'.turns ≡ row ∷ db.turns
      → db'.counters ≡ db.counters
      → Step cfg db db'
  revise :
      (r r' : TurnRow)
      → Rewrites r r' db.turns db'.turns
      → Revision r r'
      → r'.conversation_sequence ≡ r.conversation_sequence
      → (r.conversation_sequence ≡ none)
        ⊎ ((r'.owner_id ≡ r.owner_id) × (r'.conversation_id ≡ r.conversation_id))
      → db'.counters ≡ db.counters
      → Step cfg db db'
  assign :
      (r r' : TurnRow) (owner conversation : String) (n : ℕ)
      → Rewrites r r' db.turns db'.turns
      → Revision r r'
      → can_transition r.state TurnState.accepted ≡ true
      → r'.state ≡ TurnState.accepted
      → r'.conversation_sequence ≡ some n
      → r'.owner_id ≡ some owner
      → r'.conversation_id ≡ some conversation
      → n ≡ or_else (select_sequence owner conversation db.counters) 1
      → count (is_active_in owner conversation) db.turns < cfg.max_depth_per_conversation
      → count is_active db.turns < cfg.max_global_pending
      → db'.counters ≡ upsert_sequence owner conversation (n + 1) db.counters
      → Step cfg db db'

-- A method that loads a row and writes it back makes one of the two revising steps.
module _ (db db' : Ledger) (now : String) (d : IsDistinct db.turns) (id : String) (r new : TurnRow)
    (found : load_turn id db.turns ≡ some r) (same : new.turn_id ≡ r.turn_id)
    (written : db'.turns ≡ (write_turn new r.turn_revision now db.turns).1) where
  pub written-Rewrites : Rewrites r (set_columns new now r) db.turns db'.turns
  written-Rewrites =
      subst (Rewrites r (set_columns new now r) db.turns) (sym written)
        (write_turn-Rewrites now db.turns d id r new found same)

  pub revise_written :
      {cfg : QueueConfig}
      → Revision r (set_columns new now r)
      → new.conversation_sequence ≡ r.conversation_sequence
      → (r.conversation_sequence ≡ none)
        ⊎ ((new.owner_id ≡ r.owner_id) × (new.conversation_id ≡ r.conversation_id))
      → db'.counters ≡ db.counters
      → Step cfg db db'
  revise_written v s c k = revise r (set_columns new now r) written-Rewrites v s c k
