-- ===== src/Communication/Dispatcher/Queues.antt =====
-- The dispatcher's map of queues, its active keys and its running jobs after a change.
use open_claw_bot_neo.Prelude.{
  ◌+◌, ◌≤◌, ◌≡◌, ◌≢◌, refl, ◌∙◌, Bool, true, false, ◌||◌, List, [], ◌∷◌, String, String_eq, ◌==◌,
  ltb, length, includes, All, All-map, if_cases, arith,
}
use open_claw_bot_neo.Communication.Dispatcher.{
  Job, get_queue, set_queue, remove, remove_job, queued_count, insert_sorted, cleared,
}

pub get_queue-set_queue :
    (k : String) (q : List Job) (qs : List (String × List Job)) → get_queue k (set_queue k q qs) ≡ q
unfolding get_queue set_queue
get_queue-set_queue k q [] = ground arith
get_queue-set_queue k q ((k', q') ∷ qs) = ground (arith, get_queue-set_queue k q qs)

pub get_queue-set_queue_ne :
    (k l : String) (q : List Job) (qs : List (String × List Job))
    → k ≢ l
    → get_queue l (set_queue k q qs) ≡ get_queue l qs
unfolding get_queue set_queue
get_queue-set_queue_ne k l q [] n = ground arith
get_queue-set_queue_ne k l q ((k', q') ∷ qs) n = ground (arith, get_queue-set_queue_ne k l q qs n)

pub queued_count-set_queue :
    (k : String) (q : List Job) (qs : List (String × List Job))
    → queued_count (set_queue k q qs) + length (get_queue k qs) ≡ queued_count qs + length q
unfolding get_queue set_queue queued_count
queued_count-set_queue k q [] = ground arith
queued_count-set_queue k q ((k', q') ∷ qs) = ground (arith, queued_count-set_queue k q qs)

pub get_queue-cleared : (k : String) (qs : List (String × List Job)) → get_queue k (cleared qs) ≡ []
unfolding get_queue cleared
get_queue-cleared k [] = refl
get_queue-cleared k ((k', q') ∷ qs) = ground (arith, get_queue-cleared k qs)

pub queued_count-cleared : (qs : List (String × List Job)) → queued_count (cleared qs) ≡ 0
unfolding queued_count cleared
queued_count-cleared [] = refl
queued_count-cleared ((k', q') ∷ qs) = ground (arith, queued_count-cleared qs)

pub includes-remove : (k : String) (ks : List String) → includes (remove k ks) k ≡ false
unfolding includes remove
includes-remove k [] = refl
includes-remove k (x ∷ ks) = ground (arith, includes-remove k ks)

pub includes-remove_ne :
    (k l : String) (ks : List String) → k ≢ l → includes (remove k ks) l ≡ includes ks l
unfolding includes remove
includes-remove_ne k l [] n = refl
includes-remove_ne k l (x ∷ ks) n = ground (arith, includes-remove_ne k l ks n)

-- Whether a job of the conversation runs, and that no conversation has two.
unfoldable pub has_job : String → List Job → Bool
has_job k [] = false
has_job k (j ∷ js) = j.conversation_id == k || has_job k js

abbrev pub IsSingle : List Job → Type 0
IsSingle [] = Unit
IsSingle (j ∷ js) = (has_job j.conversation_id js ≡ false) × IsSingle js

pub has_job-remove_job :
    (k : String) (js : List Job) → IsSingle js → has_job k (remove_job k js) ≡ false
unfolding has_job remove_job
has_job-remove_job k [] s = refl
has_job-remove_job k (j ∷ js) (a, s) = ground (arith, has_job-remove_job k js s)

pub has_job-remove_job_ne :
    (k l : String) (js : List Job) → k ≢ l → has_job l (remove_job k js) ≡ has_job l js
unfolding has_job remove_job
has_job-remove_job_ne k l [] n = refl
has_job-remove_job_ne k l (j ∷ js) n = ground (arith, has_job-remove_job_ne k l js n)

pub remove_job-IsSingle : (k : String) (js : List Job) → IsSingle js → IsSingle (remove_job k js)
unfolding remove_job
remove_job-IsSingle k [] s = tt
remove_job-IsSingle k (j ∷ js) (a, s) =
    if_cases IsSingle (j.conversation_id == k) js (j ∷ remove_job k js) (λ e. s)
      (λ e. (
        has_job-remove_job_ne k j.conversation_id js (λ p. ground arith) ∙ a,
        remove_job-IsSingle k js s,
      ))

pub length-remove_job :
    (k : String) (js : List Job) → has_job k js ≡ true → length js ≡ length (remove_job k js) + 1
unfolding has_job remove_job
length-remove_job k [] h = absurd (cc)
length-remove_job k (j ∷ js) h = ground (arith, length-remove_job k js)

abbrev pub IsSorted : List Job → Type 0
IsSorted [] = Unit
IsSorted (j ∷ js) = All (λ x. j.conversation_sequence ≤ x.conversation_sequence) js × IsSorted js

pub length-insert_sorted : (q : List Job) (j : Job) → length (insert_sorted q j) ≡ length q + 1
unfolding insert_sorted
length-insert_sorted [] j = refl
length-insert_sorted (x ∷ q) j = ground (arith, length-insert_sorted q j)

pub insert_sorted-All {ℓ} :
    (P : Job → Type ℓ) (q : List Job) (j : Job) → P j → All P q → All P (insert_sorted q j)
unfolding insert_sorted
insert_sorted-All P [] j p a = (p, tt)
insert_sorted-All P (x ∷ q) j p (px, a) =
    if_cases (All P) (ltb j.conversation_sequence x.conversation_sequence) (j ∷ x ∷ q)
      (x ∷ insert_sorted q j) (λ e. (p, (px, a))) (λ e. (px, insert_sorted-All P q j p a))

pub insert_sorted-IsSorted : (q : List Job) (j : Job) → IsSorted q → IsSorted (insert_sorted q j)
unfolding insert_sorted
insert_sorted-IsSorted [] j s = (tt, tt)
insert_sorted-IsSorted (x ∷ q) j (a, s) =
    if_cases IsSorted (ltb j.conversation_sequence x.conversation_sequence) (j ∷ x ∷ q)
      (x ∷ insert_sorted q j)
      (λ e.
        let below : j.conversation_sequence ≤ x.conversation_sequence = ground arith in
        (
          (
            below,
            All-map (λ y. x.conversation_sequence ≤ y.conversation_sequence)
                (λ y. j.conversation_sequence ≤ y.conversation_sequence) q
                (λ y l. omega (arith, below, l)) a,
          ),
          (a, s),
        ))
      (λ e. (
        insert_sorted-All (λ y. x.conversation_sequence ≤ y.conversation_sequence) q j
            (ground arith) a,
        insert_sorted-IsSorted q j s,
      ))
