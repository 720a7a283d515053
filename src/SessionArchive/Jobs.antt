-- ===== src/SessionArchive/Jobs.antt =====
-- `archiveSession`, `hardDeleteArchivedSession` and `runSessionLifecycleSweep` of
-- src/session-archive.ts. A call of `archiveSession` is a job: it starts, tar runs, it ends.
use multi_user_agent_platfor.Base.{
  ℕ, ◌-◌, ◌*◌, Bool, ◌&&◌, none, some, List, [], ◌∷◌, ◌++◌, String, ◌==◌, if◌then◌else◌, ltb,
  exists, delete_where, Result, ok, err,
}
use multi_user_agent_platfor.Types.{Central, Session, archived}
use multi_user_agent_platfor.Sessions.Table.{
  SessionUpdates, update_session, delete_session, find_archivable_sessions,
  find_archived_sessions_older_than,
}

abbrev pub archive_batch_limit : ℕ
archive_batch_limit = 100

abbrev pub day_ms : ℕ
day_ms = 86400000

-- A session's directory, or its tarball.
pub record Folder : Type 0 where
  pub agent_group_id : String
  pub session_id : String

-- A call of `archiveSession` that waits for tar, or that found no directory.
pub record Job : Type 0 where
  pub session : Session
  pub now : ℕ
  pub has_directory : Bool

-- `archivesInProgress` is the sessions of the jobs.
pub record Lifecycle : Type 0 where
  pub central : Central
  pub directories : List Folder
  pub tarballs : List Folder
  pub jobs : List Job

-- No session is older than the epoch, so a cutoff before it finds the same as one at it.
unfoldable pub cutoff : ℕ → ℕ → ℕ
cutoff days now = now - days * day_ms

abbrev pub folder_of : Session → Folder → Bool
folder_of s f = f.agent_group_id == s.agent_group_id && f.session_id == s.id

unfoldable pub in_progress : String → List Job → Bool
in_progress id jobs = exists (λ j. j.session.id == id) jobs

-- `archiveSession` up to its first await.
unfoldable pub begin_archive : ℕ → Session → Lifecycle → Lifecycle
begin_archive now session st = if in_progress session.id st.jobs then st else record st {
  jobs =
      record {
        session = session;
        now = now;
        has_directory = exists (folder_of session) st.directories;
      }
      ∷ st.jobs;
}

unfoldable pub begin_all : ℕ → List Session → Lifecycle → Lifecycle
begin_all now [] st = st
begin_all now (s ∷ ss) st = begin_all now ss (begin_archive now s st)

abbrev pub end_job : Job → List Job → List Job
end_job job jobs = delete_where (λ j. j.session.id == job.session.id) jobs

abbrev pub put_tarball : Session → List Folder → List Folder
put_tarball s tarballs =
    if exists (folder_of s) tarballs
    then tarballs
    else tarballs ++ record { agent_group_id = s.agent_group_id; session_id = s.id } ∷ []

abbrev pub archived_now : ℕ → SessionUpdates
archived_now now = record {
  status = some archived;
  container_status = none;
  last_active = none;
  archived_at = some now;
}

-- Tar is done, or there was nothing to pack: the directory goes, and the row is archived.
unfoldable pub finish_archive : Job → Lifecycle → Lifecycle
finish_archive job st = record {
  central = update_session job.session.id (archived_now job.now) st.central;
  directories =
      if job.has_directory
      then delete_where (folder_of job.session) st.directories
      else st.directories;
  tarballs = if job.has_directory then put_tarball job.session st.tarballs else st.tarballs;
  jobs = end_job job st.jobs;
}

-- Tar failed: the error is logged.
unfoldable pub fail_archive : Job → Lifecycle → Lifecycle
fail_archive job st = record st { jobs = end_job job st.jobs }

abbrev pub row_deleted : Lifecycle → Result Central → Lifecycle
row_deleted st (ok db) = record st { central = db }
row_deleted st (err e) = st

-- The tarball goes first. What the deletion of the row throws is logged.
unfoldable pub hard_delete_archived_session : Session → Lifecycle → Lifecycle
hard_delete_archived_session session st =
    row_deleted (record st { tarballs = delete_where (folder_of session) st.tarballs })
      (delete_session session.id st.central)

unfoldable pub hard_delete_all : List Session → Lifecycle → Lifecycle
hard_delete_all [] st = st
hard_delete_all (s ∷ ss) st = hard_delete_all ss (hard_delete_archived_session s st)

-- The two halves of a sweep; 0 days is off. Between them the jobs of the first one end.
unfoldable pub sweep_archive : ℕ → ℕ → Lifecycle → Lifecycle
sweep_archive ttl_days now st =
    if ltb 0 ttl_days
    then begin_all now
        (find_archivable_sessions st.central (cutoff ttl_days now) archive_batch_limit) st
    else st

unfoldable pub sweep_delete : ℕ → ℕ → Lifecycle → Lifecycle
sweep_delete hard_days now st =
    if ltb 0 hard_days
    then hard_delete_all
        (find_archived_sessions_older_than st.central (cutoff hard_days now) archive_batch_limit) st
    else st
