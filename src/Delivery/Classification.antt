-- ===== src/Delivery/Classification.antt =====
-- `reconcileClassification` of src/delivery.ts and the log of src/db/classification-log.ts.
use multi_user_agent_platfor.Base.{
  Bool, not, ◌&&◌, Option, none, some, String, ◌==◌, if◌then◌else◌, truthy, column_is, find,
  update_where, Result, ok, err, Json, property, as_string,
}
use multi_user_agent_platfor.Types.{Central, ClassificationRow}
use multi_user_agent_platfor.World.{M, pure, emit, on_central, classification_bypass}

pub data ReconcileSurface : Type 0 where
  agent_send ask_user_question channel_send : ReconcileSurface

abbrev pub surface_text : ReconcileSurface → String
surface_text agent_send = "agent_send"
surface_text ask_user_question = "ask_user_question"
surface_text channel_send = "channel_send"

abbrev pub expected_action : ReconcileSurface → String
expected_action agent_send = "delegate"
expected_action ask_user_question = "clarify"
expected_action channel_send = "answer_self"

unfoldable pub find_classification_by_id : Central → String → Option ClassificationRow
find_classification_by_id db id = find (λ r. column_is r.classification_id id) db.classification_log

-- The rows that an outcome may still be linked to.
abbrev pub linkable : String → String → ClassificationRow → Bool
linkable id session_id r =
    column_is r.classification_id id
    && column_is r.session_id session_id
    && not (truthy r.outcome_ref)

unfoldable pub link_outcome : String → String → String → Central → Central
link_outcome id outcome_ref session_id db = record db {
  classification_log =
      update_where (linkable id session_id) (λ r. record r { outcome_ref = some outcome_ref })
        db.classification_log;
}

unfoldable pub reconcile_row :
    Option ClassificationRow → String → String → ReconcileSurface → String → M (Unit {0})
reconcile_row none id outcome_ref surface session_id =
    emit (classification_bypass "classification_not_found" (surface_text surface))
reconcile_row (some row) id outcome_ref surface session_id =
    if not (column_is row.session_id session_id)
    then emit (classification_bypass "classification_not_found" (surface_text surface))
    else if not (row.action == expected_action surface)
    then emit (classification_bypass "action_mismatch" (surface_text surface))
    else on_central (λ db. ok (link_outcome id outcome_ref session_id db))

unfoldable pub reconcile_id : Option String → String → ReconcileSurface → String → M (Unit {0})
reconcile_id none outcome_ref surface session_id w =
    emit (classification_bypass "no_classification_id" (surface_text surface)) w
reconcile_id (some id) outcome_ref surface session_id w =
    if id == ""
    then emit (classification_bypass "no_classification_id" (surface_text surface)) w
    else reconcile_row (find_classification_by_id w.central id) id outcome_ref surface session_id w

-- What reading the property throws is caught and logged.
unfoldable pub reconcile_read :
    Result (Option Json) → String → ReconcileSurface → String → M (Unit {0})
reconcile_read (err _) outcome_ref surface session_id = pure tt
reconcile_read (ok raw) outcome_ref surface session_id =
    reconcile_id (as_string raw) outcome_ref surface session_id

unfoldable pub reconcile_classification : Json → String → ReconcileSurface → String → M (Unit {0})
reconcile_classification content outcome_ref surface session_id =
    reconcile_read (property "_classificationId" content) outcome_ref surface session_id
