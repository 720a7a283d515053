-- ===== src/ChannelApproval/Rows.antt =====
-- src/modules/permissions/db/pending-channel-approvals.ts. The options are kept as values, not as text.
use multi_user_agent_platfor.Base.{
  not, ◌||◌, Bool, Option, List, [], ◌∷◌, ◌++◌, String, ◌==◌, if◌then◌else◌, find, exists,
  delete_where, update_where, Result, ok, err, constraint,
}
use multi_user_agent_platfor.Types.{Central, PendingChannelApproval, NormalizedOption}
use multi_user_agent_platfor.Permissions.Roles.{agent_group_exists}
use multi_user_agent_platfor.Sessions.Table.{messaging_group_exists}

abbrev pub for_chat : String → PendingChannelApproval → Bool
for_chat messaging_group_id r = r.messaging_group_id == messaging_group_id

-- The chat is the primary key.
unfoldable pub create_pending_channel_approval : PendingChannelApproval → Central → Result Central
create_pending_channel_approval row db =
    if exists (for_chat row.messaging_group_id) db.pending_channel_approvals
      || not (messaging_group_exists db row.messaging_group_id)
      || not (agent_group_exists db row.agent_group_id)
    then err (constraint "pending_channel_approvals")
    else ok (record db { pending_channel_approvals = db.pending_channel_approvals ++ row ∷ [] })

unfoldable pub get_pending_channel_approval : Central → String → Option PendingChannelApproval
get_pending_channel_approval db messaging_group_id =
    find (for_chat messaging_group_id) db.pending_channel_approvals

unfoldable pub has_in_flight_channel_approval : Central → String → Bool
has_in_flight_channel_approval db messaging_group_id =
    exists (for_chat messaging_group_id) db.pending_channel_approvals

unfoldable pub update_pending_channel_approval_card :
    String → String → List NormalizedOption → Central → Central
update_pending_channel_approval_card messaging_group_id title options db = record db {
  pending_channel_approvals =
      update_where (for_chat messaging_group_id)
        (λ r. record r { title = title; options = options }) db.pending_channel_approvals;
}

unfoldable pub delete_pending_channel_approval : String → Central → Central
delete_pending_channel_approval messaging_group_id db = record db {
  pending_channel_approvals =
      delete_where (for_chat messaging_group_id) db.pending_channel_approvals;
}
