-- ===== src/SessionArchive/Steps.antt =====
-- The interleavings of src/session-archive.ts: sweeps come every minute, tar runs between them.
use multi_user_agent_platfor.Base.{
  ℕ, Bool, true, false, List, [], ◌∷◌, String, ◌==◌, ◌≡◌, refl, ◌∙◌, Result, ok, err, arith, ltb,
  In, All, All-of_In, All-delete_where, exists, Distinct, Distinct-delete_where, Bool-cases, inl,
  inr,
}
use multi_user_agent_platfor.Types.{Central, Session}
use multi_user_agent_platfor.Sessions.Table.{archivable}
use multi_user_agent_platfor.SessionArchive.Jobs.{
  Folder, Job, Lifecycle, cutoff, in_progress, begin_archive, begin_all, finish_archive,
  fail_archive, hard_delete_archived_session, hard_delete_all, sweep_archive, sweep_delete,
  row_deleted, end_job, archive_batch_limit,
}
use multi_user_agent_platfor.SessionArchive.Retention.{In-find_archivable_sessions}

-- `ttl_days` and `hard_days` are read from the environment.
module _ (ttl_days hard_days : ℕ) where
  pub data Step : Lifecycle → Lifecycle → Type 0 where
    archive_tick : (st : Lifecycle) (now : ℕ) → Step st (sweep_archive ttl_days now st)
    delete_tick : (st : Lifecycle) (now : ℕ) → Step st (sweep_delete hard_days now st)
    tar_done : (st : Lifecycle) (job : Job) → In job st.jobs → Step st (finish_archive job st)
    tar_failed : (st : Lifecycle) (job : Job) → In job st.jobs → Step st (fail_archive job st)
    -- other handlers change rows, and make directories
    elsewhere :
        (st : Lifecycle) (db : Central) (dirs : List Folder)
        → Step st (record st { central = db; directories = dirs })

  pub data Reachable (st : Lifecycle) : Lifecycle → Type 0 where
    here : Reachable st st
    and_then : (a b : Lifecycle) → Reachable st a → Step a b → Reachable st b

  abbrev pub same_job : Job → Job → Bool
  same_job i j = j.session.id == i.session.id

  -- The session was active, stopped and idle for the time to live when its job began.
  abbrev pub was_idle : Job → Bool
  was_idle j = archivable (cutoff ttl_days j.now) j.session

  pub record Orderly (st : Lifecycle) : Type 0 where
    pub idle : All (λ j. was_idle j ≡ true) st.jobs
    pub alone : Distinct same_job st.jobs

  not_in_progress :
      (id : String) (jobs : List Job)
      → in_progress id jobs ≡ false
      → All (λ j. (j.session.id == id) ≡ false) jobs
  unfolding in_progress exists
  not_in_progress id [] h = tt
  not_in_progress id (j ∷ js) h = (ground arith, not_in_progress id js (ground arith))

  begin_archive-Orderly :
      (now : ℕ) (s : Session) (st : Lifecycle)
      → archivable (cutoff ttl_days now) s ≡ true
      → Orderly st
      → Orderly (begin_archive now s st)
  unfolding begin_archive
  begin_archive-Orderly now s st a o = elim (Bool-cases (in_progress s.id st.jobs)) [
    | inl running ↦ rw running o
    | inr free ↦
        rw free
          (record { idle = (a, o.idle); alone = (not_in_progress s.id st.jobs free, o.alone) })
  ]

  begin_all-Orderly :
      (now : ℕ) (ss : List Session) (st : Lifecycle)
      → All (λ s. archivable (cutoff ttl_days now) s ≡ true) ss
      → Orderly st
      → Orderly (begin_all now ss st)
  unfolding begin_all
  begin_all-Orderly now [] st h o = o
  begin_all-Orderly now (s ∷ ss) st (h, hs) o =
      begin_all-Orderly now ss (begin_archive now s st) hs (begin_archive-Orderly now s st h o)

  -- Deleting rows leaves the jobs alone.
  row_deleted-jobs : (st : Lifecycle) (r : Result Central) → (row_deleted st r).jobs ≡ st.jobs
  row_deleted-jobs st (ok db) = refl
  row_deleted-jobs st (err e) = refl

  hard_delete_all-jobs :
      (ss : List Session) (st : Lifecycle) → (hard_delete_all ss st).jobs ≡ st.jobs
  unfolding hard_delete_all hard_delete_archived_session
  hard_delete_all-jobs [] st = refl
  hard_delete_all-jobs (s ∷ ss) st =
      hard_delete_all-jobs ss (hard_delete_archived_session s st) ∙ row_deleted-jobs _ _

  sweep_delete-jobs : (days now : ℕ) (st : Lifecycle) → (sweep_delete days now st).jobs ≡ st.jobs
  unfolding sweep_delete
  sweep_delete-jobs days now st = elim (Bool-cases (ltb 0 days)) [
    | inl on ↦ rw on (hard_delete_all-jobs _ st)
    | inr off ↦ rw off refl
  ]

  same_jobs-Orderly : (st st' : Lifecycle) → st'.jobs ≡ st.jobs → Orderly st → Orderly st'
  same_jobs-Orderly st st' e o = record { idle = rw e (o.idle); alone = rw e (o.alone) }

  end_job-Orderly :
      (job : Job) (st st' : Lifecycle) → st'.jobs ≡ end_job job st.jobs → Orderly st → Orderly st'
  end_job-Orderly job st st' e o = record {
    idle = rw e (All-delete_where _ _ st.jobs o.idle);
    alone = rw e (Distinct-delete_where same_job _ st.jobs o.alone);
  }

  Orderly-Step : (a b : Lifecycle) → Step a b → Orderly a → Orderly b
  unfolding sweep_archive finish_archive fail_archive
  Orderly-Step a b (archive_tick st now) o = elim (Bool-cases (ltb 0 ttl_days)) [
    | inl on ↦ rw on (
        begin_all-Orderly now _ st
          (All-of_In _ _ (λ s m.
            (In-find_archivable_sessions st.central (cutoff ttl_days now) archive_batch_limit s
              m).1))
          o)
    | inr off ↦ rw off o
  ]
  Orderly-Step a b (delete_tick st now) o =
      same_jobs-Orderly st _ (sweep_delete-jobs hard_days now st) o
  Orderly-Step a b (tar_done st job m) o = end_job-Orderly job st _ refl o
  Orderly-Step a b (tar_failed st job m) o = end_job-Orderly job st _ refl o
  Orderly-Step a b (elsewhere st db dirs) o = record { idle = o.idle; alone = o.alone }

  -- Whatever sweeps, tars and other handlers do in whatever order after an orderly state, as the
  -- one without jobs is: every session that is being archived was active, stopped and idle when its archive began, and no session is
  -- being archived twice at a time.
  pub Reachable-Orderly : (a b : Lifecycle) → Reachable a b → Orderly a → Orderly b
  Reachable-Orderly a b here o = o
  Reachable-Orderly a b (and_then c d r t) o = Orderly-Step c b t (Reachable-Orderly a c r o)
