-- ===== src/Sessions/Invariant.antt =====
-- The bounds of src/sessions.rs hold in every store that its steps reach.
use tux_bridge.Prelude.{
  ℕ, ◌+◌, ◌≤◌, ◌<◌, ◌≡◌, refl, subst, inl, inr, Str, Bytes, not, some, List, [], ◌∷◌, All, arith,
  Bool-cases, Option-cases, length, ltb, leb, saturating_add,
}
use tux_bridge.Prelude.Dict.{
  Dict, get, insert, sum_by, sum_by-insert_new, sum_by-insert_old, sum_by-insert_le, length-sum_by,
  All-insert, All-get,
}
use tux_bridge.Error.{
  conflict, says, ApiResult, ok, err, ◌>>=◌, ◌>>◌, refuse_if, ok_or-some, chain-Ran, ran, ok_inj,
  Result-cases,
}
use tux_bridge.Ids.{format_id, fetch_next}
use tux_bridge.Paths.{PathBuf}
use tux_bridge.Host.{Host}
use tux_bridge.Sessions.{
  SessionStore, SessionRecord, FileSnapshot, is_active, active_one, active_count, max_sessions,
  max_files_per_session, max_snapshot_bytes, find_session, validate_session, with_change,
  snapshot_of, update, create, capture_change, mark_finalized, mark_rolled_back, new_session,
  rolled_back, finalized,
}
use tux_bridge.Sessions.Files.{refresh_paths, refresh_files, read_tracked}
use tux_bridge.Sessions.Steps.{
  Step, creates, captures, refreshes, finalizes, rolls_back, Reaches, done, next,
}

-- The bytes that a session keeps.
abbrev pub kept : Dict FileSnapshot → ℕ
kept files = sum_by (λ f. length f.before) files

module _ (digest : Bytes → Str) where
  abbrev pub IsSnapshot : FileSnapshot → Type 0
  IsSnapshot f = f.before_sha256 ≡ digest f.before

  -- A session has at most 128 files; `bytes` is the size of the contents that it keeps, at most 32 MiB;
  -- and each content has the hash that is shown for it.
  unfoldable pub IsSoundSession : SessionRecord → Type 0
  IsSoundSession r =
      (length r.files ≤ max_files_per_session)
      × (r.bytes ≡ kept r.files)
      × (r.bytes ≤ max_snapshot_bytes)
      × All (λ (e : Str × FileSnapshot). IsSnapshot e.1) r.files

  -- Every session is sound, and at most 64 of them are active.
  unfoldable pub IsSound : SessionStore → Type 0
  IsSound s =
      All (λ (e : Str × SessionRecord). IsSoundSession e.1) s.inner
      × (active_count s.inner ≤ max_sessions)

  with_change-IsSoundSession :
      (path : Str) (before after : Bytes) (r r' : SessionRecord)
      → IsSoundSession r
      → with_change digest path before after r ≡ ok r'
      → IsSoundSession r' × (r'.status ≡ r.status)
  unfolding with_change IsSoundSession snapshot_of
  with_change-IsSoundSession path before after r r' (few, total, small, good) h =
      elim (Option-cases (get path r.files)) [
        | inr (existing, e) ↦
            let updated = record existing { after_sha256 = digest after } in
            let files = insert path updated r.files in
            let same : record r { files = files } ≡ r' = ok_inj refl (rw (e, with_change) at h) in
            subst (λ (x : SessionRecord). IsSoundSession x × (x.status ≡ r.status)) same
              (
                (
                  omega (
                    arith,
                    few,
                    length-sum_by r.files,
                    length-sum_by files,
                    sum_by-insert_old (λ v. 1) path updated existing r.files e,
                  ),
                  omega (
                    arith,
                    total,
                    sum_by-insert_old (λ f. length f.before) path updated existing r.files e,
                  ),
                  small,
                  All-insert IsSnapshot path updated r.files good
                      (All-get IsSnapshot path existing r.files good e),
                ),
                refl,
              )
        | inl e ↦
            elim (chain-Ran (refuse_if (leb max_files_per_session (length r.files)) _) _
              (rw (e, with_change) at h)) [
                | ran d1 e1 h1 ↦
                    elim (chain-Ran
                      (refuse_if (ltb max_snapshot_bytes (saturating_add r.bytes (length before)))
                        _)
                      _ h1) [
                        | ran d2 e2 h2 ↦
                            let fresh = snapshot_of digest before after in
                            let files = insert path fresh r.files in
                            let room : length r.files < 128 = ground arith in
                            let budget : r.bytes + length before ≤ 33554432 = ground arith in
                            subst (λ (x : SessionRecord). IsSoundSession x × (x.status ≡ r.status))
                              (ok_inj refl h2)
                              (
                                (
                                  omega (
                                    arith,
                                    room,
                                    length-sum_by r.files,
                                    length-sum_by files,
                                    sum_by-insert_new (λ v. 1) path fresh r.files e,
                                  ),
                                  omega (
                                    arith,
                                    total,
                                    sum_by-insert_new (λ f. length f.before) path fresh r.files e,
                                  ),
                                  budget,
                                  All-insert IsSnapshot path fresh r.files good refl,
                                ),
                                refl,
                              )
                      ]
              ]
      ]

  -- A session that is written back: sound, and no more active than it was.
  replaced-IsSound :
      (s : SessionStore) (id : Str) (r r' : SessionRecord)
      → IsSound s
      → get id s.inner ≡ some r
      → IsSoundSession r'
      → active_one r' ≤ active_one r
      → IsSound (record s { inner = insert id r' s.inner })
  unfolding IsSound
  replaced-IsSound s id r r' (sound, few) e sound' k = (
    All-insert IsSoundSession id r' s.inner sound sound',
    omega (arith, few, k, sum_by-insert_old active_one id r' r s.inner e),
  )

  update-IsSound :
      (s : SessionStore) (id : Str) (m : ApiResult SessionRecord)
      → IsSound s
      → ((r' : SessionRecord)
          → m ≡ ok r'
          → (r : SessionRecord) × (get id s.inner ≡ some r)
            × IsSoundSession r'
            × (active_one r' ≤ active_one r))
      → IsSound (update id m s).1
  update-IsSound s id (err e) sound keep = sound
  update-IsSound s id (ok r') sound keep =
      let (r, e, sound', k) = keep r' refl in replaced-IsSound s id r r' sound e sound' k

  found-IsSoundSession :
      (s : SessionStore) (id : Str) (r : SessionRecord)
      → IsSound s
      → get id s.inner ≡ some r
      → IsSoundSession r
  unfolding IsSound
  found-IsSoundSession s id r (sound, few) e = All-get IsSoundSession id r s.inner sound e

  create-IsSound :
      (now : ℕ) (workspace title : Str) (s : SessionStore)
      → IsSound s
      → IsSound (create now workspace title s).1
  unfolding create IsSound IsSoundSession new_session sum_by
  create-IsSound now workspace title s (sound, few) =
      let (sequence, after) = fetch_next s.next in
      let id = format_id "edit-" sequence in
      let fresh = new_session id workspace title now in
      elim (Bool-cases (leb max_sessions (active_count s.inner))) [
        | inl t ↦ rw t (sound, few)
        | inr f ↦ rw f (
          All-insert IsSoundSession id fresh s.inner sound (omega arith, refl, omega arith, tt),
          ground (arith, sum_by-insert_le active_one id fresh s.inner),
        )
      ]

  finished_le : (n : ℕ) → 0 ≤ n
  finished_le n = omega arith

  mark_finalized-IsSound :
      (id : Str) (s : SessionStore) → IsSound s → IsSound (mark_finalized id s).1
  unfolding mark_finalized find_session IsSoundSession
  mark_finalized-IsSound id s sound =
      update-IsSound s id
        (find_session id s >>= λ session.
          refuse_if (not (is_active session.status)) (conflict (says "session is not active"))
          >> ok (record session { status = finalized }))
        sound
        (λ r' h. elim (chain-Ran (find_session id s) _ h) [
          | ran r e1 h1 ↦ elim (chain-Ran (refuse_if (not (is_active r.status)) _) _ h1) [
            | ran d e2 h2 ↦
                let found = ok_or-some (get id s.inner) _ r e1 in
                let good = found-IsSoundSession s id r sound found in
                let less : active_one (record r { status = finalized }) ≤ active_one r =
                  finished_le (active_one r) in
                subst
                  (λ (x : SessionRecord).
                    (r : SessionRecord) × (get id s.inner ≡ some r)
                    × IsSoundSession x
                    × (active_one x ≤ active_one r))
                  {x = record r { status = finalized }} (ok_inj refl h2) (r, found, good, less)
          ]
        ])

  mark_rolled_back-IsSound :
      (id : Str) (s : SessionStore) → IsSound s → IsSound (mark_rolled_back id s)
  unfolding mark_rolled_back IsSoundSession
  mark_rolled_back-IsSound id s sound = elim (Option-cases (get id s.inner)) [
    | inl e ↦ rw (e, mark_rolled_back) sound
    | inr (r, e) ↦
        rw (e, mark_rolled_back)
          (replaced-IsSound s id r (record r { status = rolled_back }) sound e
            (found-IsSoundSession s id r sound e) (omega arith))
  ]

  capture_change-IsSound :
      (id workspace path : Str) (before after : Bytes) (s : SessionStore)
      → IsSound s
      → IsSound (capture_change digest id workspace path before after s).1
  unfolding capture_change find_session
  capture_change-IsSound id workspace path before after s sound =
      update-IsSound s id _ sound (λ r' h. elim (chain-Ran (find_session id s) _ h) [
        | ran r e1 h1 ↦ elim (chain-Ran (validate_session r workspace) _ h1) [
          | ran d e2 h2 ↦
              let found = ok_or-some (get id s.inner) _ r e1 in
              let (good, same) =
                with_change-IsSoundSession path before after r r'
                  (found-IsSoundSession s id r sound found) h2 in
              (r, found, good, rw same (omega arith))
        ]
      ])

module _ (host : Host) where
  -- Refreshing hashes changes no content that is kept.
  refresh_files-Keeps :
      (root : PathBuf) (paths : List Str) (w : host.World) (files : Dict FileSnapshot)
      → All (λ (e : Str × FileSnapshot). IsSnapshot host.sha256 e.1) files
      → (length (refresh_files host root paths w files).1 ≡ length files)
        × (kept (refresh_files host root paths w files).1 ≡ kept files)
        × All
            (λ (e : Str × FileSnapshot). IsSnapshot host.sha256 e.1)
            (refresh_files host root paths w files).1
  unfolding refresh_files
  refresh_files-Keeps root [] w files good = (refl, refl, good)
  refresh_files-Keeps root (rel ∷ paths) w files good = elim (Option-cases (get rel files)) [
    | inl e ↦ rw (e, refresh_files) (refl, refl, good)
    | inr (f, e) ↦ elim (Result-cases (read_tracked host root rel w)) [
      | inr (x, q) ↦ rw (e, refresh_files, q) (refl, refl, good)
      | inl (bytes, q) ↦
          let updated = record f { after_sha256 = host.sha256 bytes } in
          let files' = insert rel updated files in
          let (long, total, good') = refresh_files-Keeps root paths w files' (
            All-insert (IsSnapshot host.sha256) rel updated files good
              (All-get (IsSnapshot host.sha256) rel f files good e)) in
          rw (e, refresh_files, q)
            (
              omega (
                arith,
                long,
                length-sum_by files,
                length-sum_by files',
                sum_by-insert_old (λ v. 1) rel updated f files e,
              ),
              omega (arith, total, sum_by-insert_old (λ f. length f.before) rel updated f files e),
              good',
            )
    ]
  ]

  refresh_paths-IsSound :
      (id workspace : Str) (root : PathBuf) (paths : List Str) (w : host.World) (s : SessionStore)
      → IsSound host.sha256 s
      → IsSound host.sha256 (refresh_paths host id workspace root paths w s).1
  unfolding refresh_paths find_session IsSoundSession
  refresh_paths-IsSound id workspace root paths w s sound =
      elim (Result-cases
        (find_session id s >>= λ session. validate_session session workspace >> ok session)) [
          | inr (e, q) ↦ rw (q, refresh_paths) sound
          | inl (r', q) ↦ elim (chain-Ran (find_session id s) _ q) [
            | ran r e1 h1 ↦ elim (chain-Ran (validate_session r workspace) _ h1) [
              | ran d e2 h2 ↦
                  let found =
                    subst (λ (x : SessionRecord). get id s.inner ≡ some x) (ok_inj refl h2)
                      (ok_or-some (get id s.inner) _ r e1) in
                  let (few, total, small, good) =
                    found-IsSoundSession host.sha256 s id r' sound found in
                  let (long, same, good') = refresh_files-Keeps root paths w r'.files good in
                  let changed = (refresh_files host root paths w r'.files).1 in
                  rw (q, refresh_paths)
                    (replaced-IsSound host.sha256 s id r' (record r' { files = changed }) sound
                      found (omega (arith, few, long), omega (arith, total, same), small, good')
                      (omega arith))
            ]
          ]
        ]

  Step-IsSound :
      {s t : SessionStore} → Step host s t → IsSound host.sha256 s → IsSound host.sha256 t
  Step-IsSound (creates now workspace title) sound =
      create-IsSound host.sha256 now workspace title _ sound
  Step-IsSound (captures id workspace path before after) sound =
      capture_change-IsSound host.sha256 id workspace path before after _ sound
  Step-IsSound (refreshes id workspace root paths w) sound =
      refresh_paths-IsSound id workspace root paths w _ sound
  Step-IsSound (finalizes id) sound = mark_finalized-IsSound host.sha256 id _ sound
  Step-IsSound (rolls_back id) sound = mark_rolled_back-IsSound host.sha256 id _ sound

  -- Each step of the store keeps it sound: every session has at most 128 files, `bytes` is the size of
  -- the contents that it keeps and at most 32 MiB, each content has the hash that is shown for it, and
  -- at most 64 sessions are active. So it is after any interleaving of the handlers.
  pub Reaches-IsSound :
      {s t : SessionStore} → Reaches host s t → IsSound host.sha256 s → IsSound host.sha256 t
  Reaches-IsSound done sound = sound
  Reaches-IsSound (next step rest) sound = Reaches-IsSound rest (Step-IsSound step sound)
