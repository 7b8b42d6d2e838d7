-- ===== src/Communication/Outbox/Retention.antt =====
-- How long the outbox keeps a text, and which entries it hands out.
use open_claw_bot_neo.Prelude.{
  ℕ, ◌+◌, ◌≤◌, ◌<◌, ◌≡◌, ◌↔◌, ◌⊎◌, inl, inr, sym, subst, true, false, some, List, [], ◌∷◌, String,
  arith, if_cases, Option-cases, length, zero, suc,
}
use open_claw_bot_neo.Communication.Outbox.{Entry, Tables, Env, ok, scrub}
use open_claw_bot_neo.Communication.Outbox.Put.{
  PutCommand, stored, max_plaintext_bytes, max_ttl_ms, new_entry, put_checked, put_body, put,
  PendingQuery, found, is_pending, comes_before, insert_ordered, pending_entries, take,
  load_pending_checked, load_pending,
}

-- A text that is stored: it is genuine, of bounded length, and expires within the day.
pub record Accepts (env : Env) (cmd : PutCommand) (t t' : Tables) : Type 0 where
  pub genuine : (cmd.is_genuine_principal ≡ true) × (cmd.is_genuine_output ≡ true)
  pub binding : String
  pub plaintext : String
  pub sealed : cmd.binding_version ≡ some binding
  pub validated : cmd.plaintext ≡ some plaintext
  pub bounded : env.byte_length plaintext ≤ max_plaintext_bytes
  pub expires : ℕ
  pub parsed : env.parse cmd.expires_at ≡ some expires
  pub in_future : env.now_ms < expires
  pub in_time : expires ≤ env.now_ms + max_ttl_ms
  pub added : t'.entries ≡ new_entry env.now cmd binding plaintext ∷ (scrub env t).entries

put-read :
    (env : Env) (cmd : PutCommand) (t : Tables)
    → (put env cmd t).0 ≡ ok stored
    → (b : String) × (p : String) × (e : ℕ) × (cmd.binding_version ≡ some b)
      × (cmd.plaintext ≡ some p)
      × (env.parse cmd.expires_at ≡ some e)
unfolding put put_checked
put-read env cmd t h = elim (Option-cases cmd.binding_version) [
  | inl x ↦ absurd (ground arith)
  | inr (b, x) ↦ elim (Option-cases cmd.plaintext) [
    | inl y ↦ absurd (ground arith)
    | inr (p, y) ↦ elim (Option-cases (env.parse cmd.expires_at)) [
      | inl z ↦ absurd (ground arith)
      | inr (e, z) ↦ (b, p, e, x, y, z)
    ]
  ]
]

-- A text that put stores comes from a genuine principal and a genuine output with a binding version,
-- is at most 65536 bytes long, expires after now and within a day, and its entry is added, with
-- the text, before the entries that the scrubbing has left.
pub put-Accepts :
    (env : Env) (cmd : PutCommand) (t : Tables)
    → (put env cmd t).0 ≡ ok stored
    → Accepts env cmd t (put env cmd t).1
unfolding put put_checked put_body
put-Accepts env cmd t h =
    let (b, p, e, x, y, z) = put-read env cmd t h in
    record {
      genuine = (ground arith, ground arith);
      binding = b;
      plaintext = p;
      sealed = x;
      validated = y;
      bounded = ground arith;
      expires = e;
      parsed = z;
      in_future = ground arith;
      in_time = ground arith;
      added = ground arith;
    }

-- An entry that waits for the delivery of the turn: it is the turn's, its text is still there and it has
-- not expired.
pub record Waits (env : Env) (q : PendingQuery) (e : Entry) : Type 0 where
  pub same_turn : e.turn_id ≡ q.turn_id
  pub same_correlation : e.correlation_id ≡ q.correlation_id
  pub unscrubbed : e.scrubbed ≡ false
  pub unexpired : env.earlier e.expires_at env.now ≡ false

is_pending-Waits :
    (env : Env) (q : PendingQuery) (e : Entry) → (is_pending env q e ≡ true) ↔ Waits env q e
unfolding is_pending
is_pending-Waits env q e = (
  λ h. record {
    same_turn = ground arith;
    same_correlation = ground arith;
    unscrubbed = ground arith;
    unexpired = ground arith;
  },
  λ w. ground (arith, w.same_turn, w.same_correlation, w.unscrubbed, w.unexpired),
)

abbrev pub In : Entry → List Entry → Type 0
In x [] = ⊥
In x (e ∷ es) = (x ≡ e) ⊎ In x es

insert_ordered-In :
    (env : Env) (e x : Entry) (es : List Entry) → In x (insert_ordered env e es) ↔ In x (e ∷ es)
unfolding insert_ordered
insert_ordered-In env e x [] = (λ h. h, λ h. h)
insert_ordered-In env e x (y ∷ es) =
    let (later, earlier) = insert_ordered-In env e x es in
    if_cases (λ (l : List Entry). In x l ↔ In x (e ∷ y ∷ es)) (comes_before env e y) (e ∷ y ∷ es)
      (y ∷ insert_ordered env e es) (λ h. (λ m. m, λ m. m))
      (λ h. (
        λ m. elim m [
          | inl same ↦ inr (inl same)
          | inr rest ↦ elim (later rest) [ inl same ↦ inl same | inr more ↦ inr (inr more) ]
        ],
        λ m. elim m [
          | inl same ↦ inr (earlier (inl same))
          | inr (inl same) ↦ inl same
          | inr (inr more) ↦ inr (earlier (inr more))
        ],
      ))

-- The entries that the query selects are those of the table that wait.
pending_entries-In :
    (env : Env) (q : PendingQuery) (x : Entry) (es : List Entry)
    → In x (pending_entries env q es) ↔ (Waits env q x × In x es)
unfolding pending_entries
pending_entries-In env q x [] = (λ h. absurd h, λ h. h.1)
pending_entries-In env q x (e ∷ es) =
    let (sound, whole) = pending_entries-In env q x es in
    let inserted = insert_ordered-In env e x (pending_entries env q es) in
    let waits = is_pending-Waits env q e in
    if_cases (λ (l : List Entry). In x l ↔ (Waits env q x × In x (e ∷ es))) (is_pending env q e)
      (insert_ordered env e (pending_entries env q es)) (pending_entries env q es)
      (λ h. (
        λ m. elim (inserted.0 m) [
          | inl same ↦ (subst (Waits env q) (sym same) (waits.0 h), inl same)
          | inr rest ↦ let (w, there) = sound rest in (w, inr there)
        ],
        λ (w, m). elim m [
          | inl same ↦ inserted.1 (inl same)
          | inr rest ↦ inserted.1 (inr (whole (w, rest)))
        ],
      ))
      (λ h. (
        λ m. let (w, there) = sound m in (w, inr there),
        λ (w, m). elim m [
          | inl same ↦ absurd (cc (h, waits.1 (subst (Waits env q) same w)))
          | inr rest ↦ whole (w, rest)
        ],
      ))

take-length : (n : ℕ) (es : List Entry) → length (take n es) ≤ n
unfolding take
take-length zero es = omega arith
take-length (suc n) [] = omega arith
take-length (suc n) (e ∷ es) = omega (arith, take-length n es)

-- Each of the first n is of the list; they are the whole list, if they are fewer than n.
take-In :
    (x : Entry) (n : ℕ) (es : List Entry)
    → (In x (take n es) → In x es) × (length (take n es) < n → In x es → In x (take n es))
unfolding take
take-In x zero es = (λ h. absurd h, λ l h. absurd (omega arith))
take-In x (suc n) [] = (λ h. h, λ l h. h)
take-In x (suc n) (e ∷ es) =
    let (part, whole) = take-In x n es in
    (
      λ h. elim h [ inl same ↦ inl same | inr rest ↦ inr (part rest) ],
      λ l h. elim h [ inl same ↦ inl same | inr rest ↦ inr (whole (omega (arith, l)) rest) ],
    )

load_pending-taken :
    (env : Env) (q : PendingQuery) (t : Tables) (es : List Entry)
    → (load_pending env q t).0 ≡ ok (found es)
    → (take q.limit (pending_entries env q (scrub env t).entries) ≡ es) × (q.limit ≤ 100)
unfolding load_pending load_pending_checked
load_pending-taken env q t es h = (ground arith, ground arith)

-- What is found in a table: entries of it that wait, and all of them, if there is room for more.
pub record Finds (env : Env) (q : PendingQuery) (table es : List Entry) : Type 0 where
  pub waiting : (x : Entry) → In x es → Waits env q x × In x table
  pub whole : length es < q.limit → (x : Entry) → Waits env q x → In x table → In x es
  pub short : length es ≤ q.limit
  pub limited : q.limit ≤ 100

-- The entries that loadPending finds are entries that the scrubbing has left in the table, of the turn
-- and the correlation that were asked for, not scrubbed and not expired; there are at most as many as
-- the limit, which is at most 100, and if there are fewer, then none that waits is left out.
pub load_pending-found :
    (env : Env) (q : PendingQuery) (t : Tables) (es : List Entry)
    → (load_pending env q t).0 ≡ ok (found es)
    → Finds env q (scrub env t).entries es
load_pending-found env q t es h =
    let table = (scrub env t).entries in
    let (taken, limit) = load_pending-taken env q t es h in
    let all : Finds env q table (take q.limit (pending_entries env q table)) = record {
      waiting = λ x m.
          (pending_entries-In env q x table).0
            ((take-In x q.limit (pending_entries env q table)).0 m);
      whole = λ l x w m.
          (take-In x q.limit (pending_entries env q table)).1 l
            ((pending_entries-In env q x table).1 (w, m));
      short = take-length q.limit (pending_entries env q table);
      limited = limit;
    } in
    subst (Finds env q table) taken all
