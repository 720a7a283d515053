-- ===== src/SessionArchive/Retention.antt =====
-- Which sessions a deleting sweep of src/session-archive.ts may remove.
use multi_user_agent_platfor.Base.{
  ℕ, ◌+◌, ◌*◌, ◌≤◌, Bool, true, false, ◌&&◌, List, [], ◌∷◌, ◌==◌, ◌≡◌, refl, arith, eq_iff, eq_refl,
  ltb, exists, exists_of_In, exists-delete_where, In, All, All-of_In, In-select, In-order_by,
  In-delete_where_other, In-update_where, Distinct, Distinct-same, Distinct-update_where,
  Bool-cases, inl, inr,
}
use multi_user_agent_platfor.Types.{Central, Session}
use multi_user_agent_platfor.Sessions.Table.{
  limit, archivable, expired_archive, find_archivable_sessions, find_archived_sessions_older_than,
  delete_session, is_referenced, update_session, apply_updates,
}
use multi_user_agent_platfor.SessionArchive.Jobs.{
  Job, Lifecycle, day_ms, cutoff, archived_now, finish_archive, folder_of,
  hard_delete_archived_session, hard_delete_all, sweep_delete, archive_batch_limit,
}

abbrev pub same_session : Session → Session → Bool
same_session s t = s.id == t.id

same_session-sym : (s t : Session) → same_session s t ≡ false → same_session t s ≡ false
same_session-sym s t h = ground (arith, eq_iff s.id t.id, eq_iff t.id s.id)

In-limit : (n : ℕ) (ss : List Session) (s : Session) → In s (limit n ss) → In s ss
unfolding limit
In-limit n [] s m = m
In-limit ℕ.zero (x ∷ ss) s m = absurd m
In-limit (ℕ.suc n) (x ∷ ss) s (inl e) = inl e
In-limit (ℕ.suc n) (x ∷ ss) s (inr m) = inr (In-limit n ss s m)

pub In-find_archivable_sessions :
    (db : Central) (t n : ℕ) (s : Session)
    → In s (find_archivable_sessions db t n)
    → In s db.sessions × (archivable t s ≡ true)
unfolding find_archivable_sessions
In-find_archivable_sessions db t n s m = In-select _ _ s ((In-order_by _ _ s).0 (In-limit n _ s m))

In-find_archived :
    (db : Central) (t n : ℕ) (s : Session)
    → In s (find_archived_sessions_older_than db t n)
    → In s db.sessions × (expired_archive t s ≡ true)
unfolding find_archived_sessions_older_than
In-find_archived db t n s m = In-select _ _ s ((In-order_by _ _ s).0 (In-limit n _ s m))

hard_delete-spares :
    (t : Session) (st : Lifecycle) (s : Session)
    → same_session s t ≡ false
    → In s st.central.sessions
    → In s (hard_delete_archived_session t st).central.sessions
unfolding hard_delete_archived_session delete_session
hard_delete-spares t st s apart m =
    elim (Bool-cases
      (exists (λ x. x.id == t.id) st.central.sessions && is_referenced st.central t.id)) [
        | inl held ↦ rw held m
        | inr free ↦ rw free (In-delete_where_other _ st.central.sessions s m apart)
      ]

hard_delete_all-spares :
    (ts : List Session) (st : Lifecycle) (s : Session)
    → All (λ t. same_session s t ≡ false) ts
    → In s st.central.sessions
    → In s (hard_delete_all ts st).central.sessions
unfolding hard_delete_all
hard_delete_all-spares [] st s h m = m
hard_delete_all-spares (t ∷ ts) st s (h, hs) m =
    hard_delete_all-spares ts (hard_delete_archived_session t st) s hs
      (hard_delete-spares t st s h m)

-- A deleting sweep keeps every session that is not archived, or not long enough ago, where the
-- ids of the sessions differ.
pub sweep_delete-spares :
    (days now : ℕ) (st : Lifecycle) (s : Session)
    → Distinct same_session st.central.sessions
    → In s st.central.sessions
    → expired_archive (cutoff days now) s ≡ false
    → In s (sweep_delete days now st).central.sessions
unfolding sweep_delete
sweep_delete-spares days now st s d m h = elim (Bool-cases (ltb 0 days)) [
  | inl on ↦ rw on (
      hard_delete_all-spares _ st s
        (All-of_In _ _ (λ t k.
          let (i, e) = In-find_archived st.central (cutoff days now) archive_batch_limit t k in
          ground (
            arith,
            Bool-cases (same_session s t),
            Distinct-same same_session same_session-sym st.central.sessions s t d m i,
          )))
        m)
  | inr off ↦ rw off m
]

-- A session that was archived keeps its row, where the ids of the sessions differ, in a deleting
-- sweep until the days of retention are over.
pub finish_archive-retained :
    (job : Job) (st : Lifecycle) (s : Session) (days now : ℕ)
    → Distinct same_session st.central.sessions
    → In s st.central.sessions
    → (s.id == job.session.id) ≡ true
    → now ≤ job.now + days * day_ms
    → In
        (apply_updates (archived_now job.now) s)
        (sweep_delete days now (finish_archive job st)).central.sessions
unfolding finish_archive update_session cutoff
finish_archive-retained job st s days now d m e l =
    sweep_delete-spares days now (finish_archive job st) _
      (Distinct-update_where same_session _ _ _ (λ a b. refl) (λ a b. refl) d)
      (In-update_where _ _ st.central.sessions s m e) (ground arith)

-- Where a question or an approval of an archived session waits, its hard delete fails after it has
-- removed the tarball: the row stays and its archive is gone.
pub hard_delete-loses_tarball :
    (s : Session) (st : Lifecycle)
    → In s st.central.sessions
    → is_referenced st.central s.id ≡ true
    → ((hard_delete_archived_session s st).central ≡ st.central)
      × (exists (folder_of s) (hard_delete_archived_session s st).tarballs ≡ false)
unfolding hard_delete_archived_session delete_session
hard_delete-loses_tarball s st m h =
    let there : exists (λ x. x.id == s.id) st.central.sessions ≡ true =
      exists_of_In _ st.central.sessions s m (eq_refl s.id) in
    rw (there, h) (refl, exists-delete_where (folder_of s) (folder_of s) st.tarballs (λ f e. e))
