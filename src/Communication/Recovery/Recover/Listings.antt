-- ===== src/Communication/Recovery/Recover/Listings.antt =====
-- The pages that the recovery of all turns asks for, and the listing that ends it.
use open_claw_bot_neo.Prelude.{
  ℕ, zero, suc, ◌+◌, ◌≤◌, ◌≡◌, ◌⊎◌, ◌∙◌, refl, sym, subst, if◌then◌else◌, Bool, true, String,
  Option, some, none, List, [], ◌∷◌, if_cases, arith, inl, inr,
}
use open_claw_bot_neo.Communication.Turn.{
  TurnState, TurnState_eq, TurnState-discrete, llm_known_failed, completed,
}
use open_claw_bot_neo.Communication.Recovery.{
  recovery_context_unavailable, ledger_unavailable, port_failed, Candidate, Action, ListReply,
  candidates, asked_transition, recorded_fact, read_outcome, recorded_unknown, loaded,
  asked_barrier, audited, listed, Log, Ports, ok, err, Ran, and_then, transition_to, complete_from,
  recovery_correlation,
}
use open_claw_bot_neo.Communication.Recovery.Recover.{cancel_and_complete, recover_in, recover_one}
use open_claw_bot_neo.Communication.Recovery.Recover.Pages.{
  recover_page, page_of, is_page, recover_pages, SideEffects, are_none, max_pages,
  recover_communication_turns,
}
use open_claw_bot_neo.Communication.Recovery.Recover.Course.{
  IsAside, Course, at_start, move_to, bar, bar_again, aside, is_uncertain, IsLegal, After,
  and_then-After,
}
use open_claw_bot_neo.Communication.Recovery.Recover.Promises.{recover_one-Course}

-- How often the unfinished turns were listed
unfoldable pub listings : Log → ℕ
listings [] = 0
listings (listed ∷ log) = listings log + 1
listings (_ ∷ log) = listings log

IsAside-listings : (a : Action) (log : Log) → IsAside a → listings (a ∷ log) ≡ listings log
unfolding listings
IsAside-listings (asked_transition turn revision from to) log h = absurd h
IsAside-listings (recorded_fact turn revision fact) log h = refl
IsAside-listings (read_outcome turn) log h = refl
IsAside-listings (recorded_unknown turn) log h = refl
IsAside-listings (loaded c) log h = refl
IsAside-listings (asked_barrier turn reason revision reply) log h = refl
IsAside-listings (audited turn reached checkpoint completion) log h = refl
IsAside-listings listed log h = absurd h

Course-listings :
    {turn : String} {start : TurnState} {base : Log} {s : TurnState} {b : Bool} {log : Log}
    → Course turn start base s b log
    → listings log ≡ listings base
unfolding listings
Course-listings at_start = refl
Course-listings (move_to s to b revision log on legal) = Course-listings on
Course-listings (bar s b reason revision log on) = Course-listings on
Course-listings (bar_again s b reason revision log on) = Course-listings on
Course-listings (aside s b a log on h) = IsAside-listings a log h ∙ Course-listings on

-- The recovery of a turn lists nothing, whether it succeeds or fails.
legal-listings :
    (p : Ports) (c : Candidate) (log : Log) (r : Ran (Unit {0}))
    → After
        (λ u after.
          (b : Bool) × Course c.turn_id c.state log completed b after
          × (is_uncertain p c log c.state ≡ true → b ≡ true))
        (λ after. IsLegal c.turn_id c.state log after)
        r
    → listings r.1 ≡ listings log
legal-listings p c log (ok u, after) (b, on, has) = Course-listings on
legal-listings p c log (err e, after) (s, b, on) = Course-listings on

cancel_and_complete-listings :
    (p : Ports) (c : Candidate) (log : Log)
    → listings (cancel_and_complete p c log).1 ≡ listings log
unfolding listings cancel_and_complete complete_from transition_to
cancel_and_complete-listings p c log = ground arith

recover_one-listings :
    (p : Ports) (c : Candidate) (log : Log) → listings (recover_one p c log).1 ≡ listings log
unfolding recover_one recovery_correlation recover_in
recover_one-listings p c log = elim (TurnState-discrete c.state completed) [
  | yes e ↦ ground arith
  | no unended ↦ elim (TurnState-discrete c.state llm_known_failed) [
    | yes e ↦
        let same : recover_in p c.state c log ≡ cancel_and_complete p c log =
          subst (λ s. recover_in p s c log ≡ cancel_and_complete p c log) (sym e) refl in
        let lists = cancel_and_complete-listings p c log in ground arith
    | no known ↦
        legal-listings p c log (recover_one p c log) (recover_one-Course p c log unended known)
  ]
]

recover_page-listings :
    (p : Ports) (cs : List Candidate) (count : ℕ) (log : Log)
    → listings (recover_page p cs count log).1 ≡ listings log
unfolding recover_page
recover_page-listings p [] count log = refl
recover_page-listings p (c ∷ cs) count log =
    let one = recover_one-listings p c log in
    let rest = recover_page-listings p cs (count + 1) (recover_one p c log).1 in ground arith

listing-cases :
    (r : ListReply)
    → (r ≡ candidates [])
      ⊎ ((c : Candidate) × (cs : List Candidate) × (r ≡ candidates (c ∷ cs)))
      ⊎ (r ≡ ListReply.unavailable)
      ⊎ (r ≡ ListReply.port_error)
listing-cases (candidates []) = inl refl
listing-cases (candidates (c ∷ cs)) = inr (inl (c, cs, refl))
listing-cases ListReply.unavailable = inr (inr (inl refl))
listing-cases ListReply.port_error = inr (inr (inr refl))

-- What the last listing of a recovery says.
abbrev pub EndsEmpty : Ports → Log → Type 0
EndsEmpty p last =
    (before : Log) × (last ≡ listed ∷ before) × (p.list_recovery_candidates before ≡ candidates [])

-- A recovery ends with at most so many listings, and succeeds at an empty one.
abbrev pub Ends : Ports → (most : ℕ) → Ran ℕ → Type 0
Ends p most r =
    After (λ total last. EndsEmpty p last × (listings last ≤ most)) (λ last. listings last ≤ most) r

listings-After :
    {A : Type 0} (n most : ℕ) (r : Ran A)
    → listings r.1 ≡ n
    → n ≤ most
    → After (λ a l. listings l ≡ n) (λ l. listings l ≤ most) r
listings-After n most (ok a, l) h below = h
listings-After n most (err e, l) h below = subst (λ k. k ≤ most) (sym h) below

recover_pages-Ends :
    (p : Ports) (pages : ℕ) (previous : Option (List String)) (count : ℕ) (log : Log)
    → Ends p (pages + listings log) (recover_pages p pages previous count log)
unfolding recover_pages listings
recover_pages-Ends p zero previous count log = ground arith
recover_pages-Ends p (suc pages) previous count log =
    let most = suc pages + listings log in
    let run = recover_pages p (suc pages) previous count log in
    elim (listing-cases (p.list_recovery_candidates log)) [
      | inl e ↦
          let same : run ≡ (ok count, listed ∷ log) = ground arith in
          subst (Ends p most) (sym same) ((log, refl, e), ground arith)
      | inr (inl (c, cs, e)) ↦
          let page = recover_page p (c ∷ cs) count (listed ∷ log) in
          let rest = λ (n : ℕ) (l : Log). recover_pages p pages (some (page_of p (c ∷ cs))) n l in
          let again = is_page previous (page_of p (c ∷ cs)) in
          let same : run ≡ (
              if again
              then (err recovery_context_unavailable, listed ∷ log)
              else and_then page rest) =
            ground arith in
          subst (Ends p most) (sym same) (
            if_cases (Ends p most) again _ _ (λ h. ground arith)
              (λ h.
                and_then-After (λ n l. listings l ≡ listings log + 1)
                  (λ total last. EndsEmpty p last × (listings last ≤ most))
                  (λ last. listings last ≤ most) page rest
                  (listings-After (listings log + 1) most page
                    (recover_page-listings p (c ∷ cs) count (listed ∷ log)) (ground arith))
                  (λ n l h.
                    let later = recover_pages-Ends p pages (some (page_of p (c ∷ cs))) n l in
                    let bound : pages + listings l ≡ most = omega arith in
                    subst (λ m. Ends p m (rest n l)) bound later)))
      | inr (inr (inl e)) ↦
          let same : run ≡ (err ledger_unavailable, listed ∷ log) = ground arith in
          subst (Ends p most) (sym same) (ground arith)
      | inr (inr (inr e)) ↦
          let same : run ≡ (err port_failed, listed ∷ log) = ground arith in
          subst (Ends p most) (sym same) (ground arith)
    ]

-- Whatever the ports answer, the recovery of all turns lists the unfinished turns 10,000 times at most,
-- and if it succeeds, its last listing was empty and it asked for nothing after it.
pub recover_communication_turns-Ends :
    (p : Ports) (side_effects : SideEffects) (log : Log)
    → Ends p (10000 + listings log) (recover_communication_turns p side_effects log)
unfolding recover_communication_turns
recover_communication_turns-Ends p side_effects log =
    if_cases (Ends p (10000 + listings log)) (are_none side_effects) _ _
      (λ h. recover_pages-Ends p max_pages none 0 log) (λ h. ground arith)
