-- ===== src/Communication/Transaction.antt =====
-- runImmediate of sqlite-communication-errors.ts, and the try and catch that each port method puts
-- around it. A method sees its environment: whether the port is open, whether the database lets the
-- transaction through, and the clock. A transaction that throws is rolled back.
use open_claw_bot_neo.Prelude.{
  Option, none, some, String, Bool, true, false, ◌≡◌, ◌⊎◌, inl, inr, ap, refl,
}

-- What the database may raise outside the statements' own constraints: SQLITE_BUSY or
-- SQLITE_LOCKED, or anything else.
pub data Fault : Type 0 where
  busy broken : Fault

pub record Env : Type 0 where
  pub is_open : Bool
  pub fault : Option Fault
  pub now : String

-- The end of a transaction's body: a result with the new tables, or an exception.
pub data Tx (A D : Type 0) : Type 0 where
  commit : A → D → Tx A D
  throw : Tx A D

-- `ok(outcome)`, or `err` with the code of a closed port or of a rejected query.
pub data Reply (A : Type 0) : Type 0 where
  ok : A → Reply A
  err : String → Reply A

module _ {A D : Type 0} where
  -- The outcome that the catch clause gives to an exception, and the rollback.
  abbrev pub settle : (Fault → A) → D → Tx A D → A × D
  settle caught d (commit a d') = (a, d')
  settle caught d throw = (caught broken, d)

  abbrev pub run_immediate : Option Fault → (Fault → A) → D → Tx A D → A × D
  run_immediate none caught d body = settle caught d body
  run_immediate (some f) caught d body = (caught f, d)

  abbrev pub guarded : Bool → A × D → String → D → Reply A × D
  guarded false (a, d') closed d = (err closed, d)
  guarded true (a, d') closed d = (ok a, d')

  -- One port method: `requireOpen`, then the transaction.
  abbrev pub port_method : Env → String → (Fault → A) → D → Tx A D → Reply A × D
  port_method env closed caught d body =
      guarded env.is_open (run_immediate env.fault caught d body) closed d

module _ {A D : Type 0} (P : D → Type 0) (d : D) (stays : P d) where
  settle_cases :
      (caught : Fault → A) (body : Tx A D)
      → ((a : A) (d' : D) → body ≡ commit a d' → P d')
      → P (settle caught d body).1
  settle_cases caught (commit a d') ends = ends a d' refl
  settle_cases caught throw ends = stays

  run_immediate_cases :
      (fault : Option Fault) (caught : Fault → A) (body : Tx A D)
      → ((a : A) (d' : D) → body ≡ commit a d' → P d')
      → P (run_immediate fault caught d body).1
  run_immediate_cases none caught body ends = settle_cases caught body ends
  run_immediate_cases (some f) caught body ends = stays

  -- A method leaves the tables alone, or as its body commits them.
  pub port_method_cases :
      (env : Env) (closed : String) (caught : Fault → A) (body : Tx A D)
      → ((a : A) (d' : D) → body ≡ commit a d' → P d')
      → P (port_method env closed caught d body).1
  port_method_cases env closed caught body ends = go env.is_open
    where
      go : (b : Bool) → P (guarded b (run_immediate env.fault caught d body) closed d).1
      go false = stays
      go true = run_immediate_cases env.fault caught body ends

-- An answer is the one that the body commits, or stands for an exception and a rollback.
module _ {A D : Type 0} where
  settled :
      (caught : Fault → A) (d : D) (body : Tx A D) (a : A)
      → (settle caught d body).0 ≡ a
      → (body ≡ commit a (settle caught d body).1) ⊎ ((f : Fault) × (caught f ≡ a))
  settled caught d (commit b d') a h = inl (ap (λ x. commit x d') h)
  settled caught d throw a h = inr (broken, h)

  pub port_method-ok :
      (env : Env) (closed : String) (caught : Fault → A) (d : D) (body : Tx A D) (a : A)
      → (port_method env closed caught d body).0 ≡ ok a
      → (body ≡ commit a (port_method env closed caught d body).1) ⊎ ((f : Fault) × (caught f ≡ a))
  port_method-ok env closed caught d body a h = go env.is_open env.fault h
    where
      go :
          (b : Bool) (fault : Option Fault)
          → (guarded b (run_immediate fault caught d body) closed d).0 ≡ ok a
          → (body ≡ commit a (guarded b (run_immediate fault caught d body) closed d).1)
            ⊎ ((f : Fault) × (caught f ≡ a))
      go false fault k = absurd (cc)
      go true none k = settled caught d body a (cc)
      go true (some f) k = inr (f, cc)

pub Tx-cases : {A D : Type 0} (x : Tx A D) → (x ≡ throw) ⊎ ((a : A) × (d : D) × (x ≡ commit a d))
Tx-cases (commit a d) = inr (a, d, refl)
Tx-cases throw = inl refl
