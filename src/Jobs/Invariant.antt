-- ===== src/Jobs/Invariant.antt =====
-- What every operation on the jobs of src/command.rs keeps.
use tux_bridge.Prelude.{
  ℕ, ◌+◌, ◌-◌, ◌≤◌, ◌≡◌, refl, sym, subst, ◌⊎◌, inl, inr, Str, Bool, true, false, not, none, some,
  List, [], ◌∷◌, arith, ◌∙◌, eq_str, eq_str_self, All, Bool-cases, Option-cases, length, leb, ◌==◌,
}
use tux_bridge.Prelude.Dict.{
  Dict, get, insert, sum_by-insert_le, sum_by-insert_old, length-sum_by, All-insert, All-get,
  get-insert,
}
use tux_bridge.Error.{
  ◌>>=◌, refuse_if, ok_or, ok_or-some, chain-Ran, ran, ok_inj, Result-cases, not_found, text,
  quoted,
}
use tux_bridge.Jobs.{
  JobRecord, JobStore, Completion, exited, stopped, broken, is_running, is_kept, retain,
  prune_locked, next_id, insert_job, start_job, started_snapshot, get_snapshot, cancel_found,
  cancel_job, completed_snapshot, status_of, finish,
}

-- A job runs and has no end, or it has ended, at a time, and cannot be cancelled any more.
pub IsSoundJob : JobRecord → Type 0
IsSoundJob r =
    ((is_running r.snapshot.status ≡ true) × (r.snapshot.finished_at_unix ≡ none))
    ⊎ ((is_running r.snapshot.status ≡ false)
        × ((t : ℕ) × (r.snapshot.finished_at_unix ≡ some t))
        × (r.cancel ≡ false))

unfoldable pub IsSound : JobStore → Type 0
IsSound s = All (λ (e : Str × JobRecord). IsSoundJob e.1) s.jobs × (length s.jobs ≤ s.max_jobs)

retain-IsSound :
    (keep : JobRecord → Bool) (jobs : Dict JobRecord)
    → All (λ (e : Str × JobRecord). IsSoundJob e.1) jobs
    → All (λ (e : Str × JobRecord). IsSoundJob e.1) (retain keep jobs)
      × (length (retain keep jobs) ≤ length jobs)
unfolding retain
retain-IsSound keep [] h = (tt, omega arith)
retain-IsSound keep ((id, r) ∷ rest) (h, hs) =
    let (good, few) = retain-IsSound keep rest hs in
    elim (Bool-cases (keep r)) [
      | inl t ↦ rw t ((h, good), omega (arith, few))
      | inr f ↦ rw f (good, omega (arith, few))
    ]

prune_locked-IsSound : (now : ℕ) (s : JobStore) → IsSound s → IsSound (prune_locked now s)
unfolding prune_locked IsSound
prune_locked-IsSound now s (h, k) = elim (Bool-cases (s.retention_seconds == 0)) [
  | inl t ↦ rw t (h, k)
  | inr f ↦
      let (good, few) = retain-IsSound (is_kept (now - s.retention_seconds)) s.jobs h in
      rw f (good, omega (arith, few, k))
]

length-insert_le :
    (id : Str) (r : JobRecord) (jobs : Dict JobRecord) → length (insert id r jobs) ≤ length jobs + 1
length-insert_le id r jobs = omega (
  arith,
  length-sum_by jobs,
  length-sum_by (insert id r jobs),
  sum_by-insert_le (λ r. 1) id r jobs,
)

length-insert_same :
    (id : Str) (r old : JobRecord) (jobs : Dict JobRecord)
    → get id jobs ≡ some old
    → length (insert id r jobs) ≡ length jobs
length-insert_same id r old jobs e = omega (
  arith,
  length-sum_by jobs,
  length-sum_by (insert id r jobs),
  sum_by-insert_old (λ r. 1) id r old jobs e,
)

insert_job-IsSound :
    (now : ℕ) (id : Str) (r : JobRecord) (s : JobStore)
    → IsSoundJob r
    → IsSound s
    → IsSound (insert_job now id r s).1
unfolding insert_job IsSound
insert_job-IsSound now id r s good h =
    let (all, few) = prune_locked-IsSound now s h in
    elim (Bool-cases (leb (prune_locked now s).max_jobs (length (prune_locked now s).jobs))) [
      | inl t ↦ rw (t, insert_job) (all, few)
      | inr f ↦
          rw (f, insert_job)
            (
              All-insert IsSoundJob id r (prune_locked now s).jobs all good,
              room (length (prune_locked now s).jobs) (prune_locked now s).max_jobs _ f
                  (length-insert_le id r (prune_locked now s).jobs),
            )
    ]
  where
    room : (n m k : ℕ) → leb m n ≡ false → k ≤ n + 1 → k ≤ m
    room n m k f h = ground arith

cancel_job-IsSound :
    (now : ℕ) (id : Str) (s : JobStore) → IsSound s → IsSound (cancel_job now id s).1
unfolding cancel_job cancel_found IsSound IsSoundJob
cancel_job-IsSound now id s h =
    let (all, few) = prune_locked-IsSound now s h in
    elim (Result-cases (
      ok_or (get id (prune_locked now s).jobs)
        (not_found (text "job " ∷ quoted id ∷ text " was not found" ∷ []))
      >>= cancel_found)) [
        | inr (e, q) ↦ rw (q, cancel_job) (all, few)
        | inl (r', q) ↦ elim (chain-Ran (ok_or (get id (prune_locked now s).jobs) _) _ q) [
          | ran r e1 h1 ↦ elim (chain-Ran (refuse_if (not (is_running r.snapshot.status)) _) _ h1) [
            | ran d1 e2 h2 ↦ elim (chain-Ran (refuse_if (not r.cancel) _) _ h2) [
              | ran d2 e3 h3 ↦
                  let found = ok_or-some (get id (prune_locked now s).jobs) _ r e1 in
                  let same : record r { cancel = false } ≡ r' = ok_inj refl h3 in
                  rw (q, cancel_job)
                    (
                      All-insert IsSoundJob id r' (prune_locked now s).jobs all (
                          subst IsSoundJob same (
                            still r (All-get IsSoundJob id r (prune_locked now s).jobs all found))),
                      rw (length-insert_same id r' r (prune_locked now s).jobs found) few,
                    )
            ]
          ]
        ]
      ]
  where
    still : (r : JobRecord) → IsSoundJob r → IsSoundJob (record r { cancel = false })
    still r (inl h) = inl h
    still r (inr (a, b, c)) = inr (a, b, refl)

ended :
    (now : ℕ) (completion : Completion) (r : JobRecord)
    → IsSoundJob
        (record { snapshot = completed_snapshot now completion r.snapshot; cancel = false })
unfolding completed_snapshot IsSoundJob status_of
ended now (exited result) r = inr (ground arith, (now, refl), refl)
ended now (stopped a b c d) r = inr (refl, (now, refl), refl)
ended now (broken message) r = inr (refl, (now, refl), refl)

finish-IsSound :
    (now : ℕ) (id : Str) (completion : Completion) (s : JobStore)
    → IsSound s
    → IsSound (finish now id completion s)
unfolding finish IsSound
finish-IsSound now id completion s (all, few) = elim (Option-cases (get id s.jobs)) [
  | inl e ↦ rw (e, finish) (all, few)
  | inr (r, e) ↦
      rw (e, finish)
        (
          All-insert IsSoundJob id
              (record { snapshot = completed_snapshot now completion r.snapshot; cancel = false })
              s.jobs all (ended now completion r),
          rw
              (length-insert_same id
                (record { snapshot = completed_snapshot now completion r.snapshot; cancel = false })
                r s.jobs e)
              few,
        )
]

-- A job that runs in `jobs` is still known in `jobs'`.
abbrev pub AreKnown : Dict JobRecord → Dict JobRecord → Type 0
AreKnown jobs jobs' =
    All
      (λ (e : Str × JobRecord).
        (is_running e.1.snapshot.status ≡ false) ⊎ ((r : JobRecord) × (get e.0 jobs' ≡ some r)))
      jobs

module _ {A : Type 0} {P Q : A → Type 0} where
  All-map : ((x : A) → P x → Q x) → (xs : List A) → All P xs → All Q xs
  All-map f [] h = tt
  All-map f (x ∷ xs) (h, hs) = (f x h, All-map f xs hs)

get-cons :
    (k id : Str) (r r' : JobRecord) (jobs : Dict JobRecord)
    → get k jobs ≡ some r'
    → (found : JobRecord) × (get k ((id, r) ∷ jobs) ≡ some found)
unfolding get
get-cons k id r r' jobs e = elim (Bool-cases (eq_str id k)) [
  | inl t ↦ (r, rw t refl)
  | inr f ↦ (r', rw (f, get) e)
]

AreKnown-cons :
    (id : Str) (r : JobRecord) (jobs jobs' : Dict JobRecord)
    → AreKnown jobs jobs'
    → AreKnown jobs ((id, r) ∷ jobs')
AreKnown-cons id r jobs jobs' h =
    All-map
      (λ e known. elim known [ inl f ↦ inl f | inr (r', k) ↦ inr (get-cons e.0 id r r' jobs' k) ])
      jobs h

AreKnown-insert :
    (id : Str) (r : JobRecord) (jobs jobs' : Dict JobRecord)
    → AreKnown jobs jobs'
    → AreKnown jobs (insert id r jobs')
AreKnown-insert id r jobs jobs' h =
    All-map (λ e known. elim known [ inl f ↦ inl f | inr (r', k) ↦ inr (written e.0 r' k) ]) jobs h
  where
    written :
        (k : Str) (r' : JobRecord)
        → get k jobs' ≡ some r'
        → (found : JobRecord) × (get k (insert id r jobs') ≡ some found)
    written k r' e = elim (Bool-cases (eq_str id k)) [
      | inl t ↦ (r, get-insert id k r jobs' ∙ rw t refl)
      | inr f ↦ (r', get-insert id k r jobs' ∙ rw f e)
    ]

AreKnown-self : (jobs : Dict JobRecord) → AreKnown jobs jobs
unfolding get
AreKnown-self [] = tt
AreKnown-self ((id, r) ∷ rest) =
    (inr (r, rw (eq_str_self id, get) refl), AreKnown-cons id r rest rest (AreKnown-self rest))

AreKnown-retain :
    (cutoff : ℕ) (jobs : Dict JobRecord) → AreKnown jobs (retain (is_kept cutoff) jobs)
unfolding retain is_kept get
AreKnown-retain cutoff [] = tt
AreKnown-retain cutoff ((id, r) ∷ rest) = elim (Bool-cases (is_kept cutoff r)) [
  | inl t ↦
      let kept : retain (is_kept cutoff) ((id, r) ∷ rest) ≡ (id, r) ∷ retain (is_kept cutoff) rest =
        rw (t, retain) refl in
      subst (AreKnown ((id, r) ∷ rest)) (sym kept) (
        inr (r, rw (eq_str_self id, get) refl),
        AreKnown-cons id r rest (retain (is_kept cutoff) rest) (AreKnown-retain cutoff rest),
      )
  | inr f ↦
      let dropped : retain (is_kept cutoff) ((id, r) ∷ rest) ≡ retain (is_kept cutoff) rest =
        rw (f, retain) refl in
      subst (AreKnown ((id, r) ∷ rest)) (sym dropped)
        (inl (ground arith), AreKnown-retain cutoff rest)
]

AreKnown-prune_locked : (now : ℕ) (s : JobStore) → AreKnown s.jobs (prune_locked now s).jobs
unfolding prune_locked
AreKnown-prune_locked now s = elim (Bool-cases (s.retention_seconds == 0)) [
  | inl t ↦ rw t (AreKnown-self s.jobs)
  | inr f ↦ rw f (AreKnown-retain (now - s.retention_seconds) s.jobs)
]

AreKnown-insert_job :
    (now : ℕ) (id : Str) (r : JobRecord) (s : JobStore)
    → AreKnown s.jobs (insert_job now id r s).1.jobs
unfolding insert_job
AreKnown-insert_job now id r s =
    let known = AreKnown-prune_locked now s in
    elim (Bool-cases (leb (prune_locked now s).max_jobs (length (prune_locked now s).jobs))) [
      | inl t ↦ rw (t, insert_job) known
      | inr f ↦ rw (f, insert_job) (AreKnown-insert id r s.jobs (prune_locked now s).jobs known)
    ]

AreKnown-cancel_job :
    (now : ℕ) (id : Str) (s : JobStore) → AreKnown s.jobs (cancel_job now id s).1.jobs
unfolding cancel_job
AreKnown-cancel_job now id s =
    let known = AreKnown-prune_locked now s in
    elim (Result-cases (
      ok_or (get id (prune_locked now s).jobs)
        (not_found (text "job " ∷ quoted id ∷ text " was not found" ∷ []))
      >>= cancel_found)) [
        | inr (e, q) ↦ rw (q, cancel_job) known
        | inl (r, q) ↦
            rw (q, cancel_job) (AreKnown-insert id r s.jobs (prune_locked now s).jobs known)
      ]

AreKnown-finish :
    (now : ℕ) (id : Str) (completion : Completion) (s : JobStore)
    → AreKnown s.jobs (finish now id completion s).jobs
unfolding finish
AreKnown-finish now id completion s = elim (Option-cases (get id s.jobs)) [
  | inl e ↦ rw (e, finish) (AreKnown-self s.jobs)
  | inr (r, e) ↦
      rw (e, finish)
        (AreKnown-insert id
          (record { snapshot = completed_snapshot now completion r.snapshot; cancel = false })
          s.jobs s.jobs (AreKnown-self s.jobs))
]

-- The changes of the store that hold its lock, which requests and running jobs may interleave.
pub data Step : JobStore → JobStore → Type 0 where
  starts :
      {s : JobStore} (started now : ℕ) (workspace : Str) (argv : List Str)
      → Step s (start_job started now workspace argv s).1
  reads : {s : JobStore} (now : ℕ) (id : Str) → Step s (get_snapshot now id s).1
  cancels : {s : JobStore} (now : ℕ) (id : Str) → Step s (cancel_job now id s).1
  finishes :
      {s : JobStore} (now : ℕ) (id : Str) (completion : Completion)
      → Step s (finish now id completion s)

-- Each step keeps the number of jobs within the limit, and each job either running, without an end, or
-- ended, at a time, and beyond cancelling; and no step, the pruning of old jobs included, forgets a job
-- that is running.
pub Step-IsSound : {s t : JobStore} → Step s t → IsSound s → IsSound t × AreKnown s.jobs t.jobs
unfolding start_job next_id get_snapshot IsSound IsSoundJob started_snapshot
Step-IsSound {s} (starts started now workspace argv) h = (
  insert_job-IsSound now _ _ (next_id s).1 (inl (refl, refl)) h,
  AreKnown-insert_job now _ _ (next_id s).1,
)
Step-IsSound {s} (reads now id) h = (prune_locked-IsSound now s h, AreKnown-prune_locked now s)
Step-IsSound {s} (cancels now id) h = (cancel_job-IsSound now id s h, AreKnown-cancel_job now id s)
Step-IsSound {s} (finishes now id completion) h =
    (finish-IsSound now id completion s h, AreKnown-finish now id completion s)
