-- ===== src/Communication/Turn/Moves.antt =====
-- Paths of legal transitions.
use open_claw_bot_neo.Prelude.{◌<◌, ◌≡◌, ◌⊎◌, inl, inr, refl, true, arith, subst, sym}
use open_claw_bot_neo.Communication.Turn.{TurnState, can_transition}
use open_claw_bot_neo.Communication.Turn.Progress.{rank, can_transition-rank}

pub data Moves (s : TurnState) : TurnState → Type 0 where
  done : Moves s s
  then_to : {t u : TurnState} → Moves s t → can_transition t u ≡ true → Moves s u

pub Moves-trans : {s t u : TurnState} → Moves s t → Moves t u → Moves s u
Moves-trans m done = m
Moves-trans m (then_to n legal) = then_to (Moves-trans m n) legal

pub Moves-rank : {s t : TurnState} → Moves s t → (s ≡ t) ⊎ (rank s < rank t)
Moves-rank done = inl refl
Moves-rank {s} (then_to {t} {u} m legal) = inr (further (Moves-rank m))
  where
    further : (s ≡ t) ⊎ (rank s < rank t) → rank s < rank u
    further (inl same) = subst (λ x. rank x < rank u) (sym same) (can_transition-rank t u legal)
    further (inr below) = omega (arith, can_transition-rank t u legal)

-- No state is entered a second time: between two visits a path stands still.
pub Moves-antisym : {s t : TurnState} → Moves s t → Moves t s → s ≡ t
Moves-antisym {s} {t} m n = ground (arith, Moves-rank m, Moves-rank n)
