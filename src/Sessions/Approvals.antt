-- ===== src/Sessions/Approvals.antt =====
-- src/db/sessions.ts: the pending approvals.
use multi_user_agent_platfor.Base.{
  ◌&&◌, Option, List, [], ◌∷◌, ◌++◌, String, ◌==◌, if◌then◌else◌, find, select, exists,
  delete_where, update_where, Result, ok, err, constraint,
}
use multi_user_agent_platfor.Types.{Central, PendingApproval, PendingApprovalStatus}
use multi_user_agent_platfor.Permissions.Roles.{agent_group_exists, null_or}

-- INSERT OR IGNORE by the id; missing references still throw.
unfoldable pub create_pending_approval : PendingApproval → Central → Result Central
create_pending_approval pa db =
    if exists (λ a. a.approval_id == pa.approval_id) db.pending_approvals
    then ok db
    else if null_or (λ id. exists (λ s. s.id == id) db.sessions) pa.session_id
        && null_or (agent_group_exists db) pa.agent_group_id
    then ok (record db { pending_approvals = db.pending_approvals ++ pa ∷ [] })
    else err (constraint "pending_approvals")

unfoldable pub get_pending_approval : Central → String → Option PendingApproval
get_pending_approval db approval_id = find (λ a. a.approval_id == approval_id) db.pending_approvals

unfoldable pub update_pending_approval_status : String → PendingApprovalStatus → Central → Central
update_pending_approval_status approval_id status db = record db {
  pending_approvals =
      update_where (λ a. a.approval_id == approval_id) (λ a. record a { status = status })
        db.pending_approvals;
}

unfoldable pub delete_pending_approval : String → Central → Central
delete_pending_approval approval_id db = record db {
  pending_approvals = delete_where (λ a. a.approval_id == approval_id) db.pending_approvals;
}

unfoldable pub get_pending_approvals_by_action : Central → String → List PendingApproval
get_pending_approvals_by_action db action = select (λ a. a.action == action) db.pending_approvals
