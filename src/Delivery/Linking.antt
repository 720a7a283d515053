-- ===== src/Delivery/Linking.antt =====
-- What the reconciliation of src/delivery.ts does to the log of classifications.
use multi_user_agent_platfor.Base.{
  true, false, Option, none, some, List, [], ◌∷◌, ◌++◌, String, ◌==◌, ◌≡◌, refl, ap, arith, truthy,
  column_is, find, update_where, Result, ok, err, Json, str, property, as_string, Bool-cases, inl,
  inr,
}
use multi_user_agent_platfor.Types.{Central, ClassificationRow}
use multi_user_agent_platfor.World.{World, classification_bypass}
use multi_user_agent_platfor.Delivery.Classification.{
  ReconcileSurface, ask_user_question, channel_send, surface_text, expected_action, linkable,
  find_classification_by_id, link_outcome, reconcile_row, reconcile_id, reconcile_read,
  reconcile_classification,
}

relink :
    (id r1 r2 sid : String) (rows : List ClassificationRow)
    → truthy (some r1) ≡ true
    → update_where
        (linkable id sid)
        (λ r. record r { outcome_ref = some r2 })
        (update_where (linkable id sid) (λ r. record r { outcome_ref = some r1 }) rows)
      ≡ update_where (linkable id sid) (λ r. record r { outcome_ref = some r1 }) rows
unfolding update_where
relink id r1 r2 sid [] h = refl
relink id r1 r2 sid (x ∷ xs) h = elim (Bool-cases (linkable id sid x)) [
  | inl it ↦ ground (arith, relink id r1 r2 sid xs h)
  | inr other ↦ ground (arith, relink id r1 r2 sid xs h)
]

-- The first outcome that is linked stays, where it is not empty: a second one changes nothing.
pub link_outcome-first_wins :
    (id r1 r2 sid : String) (db : Central)
    → truthy (some r1) ≡ true
    → link_outcome id r2 sid (link_outcome id r1 sid db) ≡ link_outcome id r1 sid db
unfolding link_outcome
link_outcome-first_wins id r1 r2 sid db h =
    ap (λ rows. record db { classification_log = rows })
      (relink id r1 r2 sid db.classification_log h)

-- What a reconciliation comes to.
pub data Reconciled (surface : ReconcileSurface) (outcome_ref sid : String) (w : World)
    : World → Type 0 where
  -- the id is that of a classification of this session for this surface: the outcome is linked
  linked :
      (id : String) (row : ClassificationRow)
      → find_classification_by_id w.central id ≡ some row
      → column_is row.session_id sid ≡ true
      → (row.action == expected_action surface) ≡ true
      → Reconciled surface outcome_ref sid w
          (record w { central = link_outcome id outcome_ref sid w.central })
  -- anything else is counted
  counted :
      (reason : String)
      → Reconciled surface outcome_ref sid w (record w {
        effects = w.effects ++ classification_bypass reason (surface_text surface) ∷ [];
      })
  -- content that has no properties is unread
  unread : Reconciled surface outcome_ref sid w w

module _ (surface : ReconcileSurface) (outcome_ref sid : String) (w : World) where
  reconcile_row-Reconciled :
      (row : Option ClassificationRow) (id : String)
      → find_classification_by_id w.central id ≡ row
      → Reconciled surface outcome_ref sid w (reconcile_row row id outcome_ref surface sid w).1
  unfolding reconcile_row
  reconcile_row-Reconciled none id e = counted "classification_not_found"
  reconcile_row-Reconciled (some row) id e = elim (Bool-cases (column_is row.session_id sid)) [
    | inl own ↦ elim (Bool-cases (row.action == expected_action surface)) [
      | inl fits ↦ rw (own, fits) (linked id row e own fits)
      | inr differs ↦ rw (own, differs) (counted "action_mismatch")
    ]
    | inr foreign ↦ rw foreign (counted "classification_not_found")
  ]

  reconcile_id-Reconciled :
      (id : Option String)
      → Reconciled surface outcome_ref sid w (reconcile_id id outcome_ref surface sid w).1
  unfolding reconcile_id
  reconcile_id-Reconciled none = counted "no_classification_id"
  reconcile_id-Reconciled (some id) = elim (Bool-cases (id == "")) [
    | inl empty ↦ rw empty (counted "no_classification_id")
    | inr given ↦
        rw given (reconcile_row-Reconciled (find_classification_by_id w.central id) id refl)
  ]

  -- A reconciliation links the outcome to a classification of this session and surface, or counts
  -- a bypass and leaves the database alone, or is skipped.
  pub reconcile_classification-Reconciled :
      (content : Json)
      → Reconciled surface outcome_ref sid w
          (reconcile_classification content outcome_ref surface sid w).1
  unfolding reconcile_classification reconcile_read
  reconcile_classification-Reconciled content = go (property "_classificationId" content)
    where
      go :
          (r : Result (Option Json))
          → Reconciled surface outcome_ref sid w (reconcile_read r outcome_ref surface sid w).1
      go (err e) = unread
      go (ok raw) = reconcile_id-Reconciled (as_string raw)

-- The row of an id keeps its action and its session when an outcome is linked.
pub find-relinked :
    (id r sid : String) (rows : List ClassificationRow) (row : ClassificationRow)
    → find (λ x. column_is x.classification_id id) rows ≡ some row
    → (row' : ClassificationRow) × (find
          (λ x. column_is x.classification_id id)
          (update_where (linkable id sid) (λ x. record x { outcome_ref = some r }) rows)
        ≡ some row')
      × (row'.action ≡ row.action)
      × (row'.session_id ≡ row.session_id)
unfolding find update_where
find-relinked id r sid [] row h = cc
find-relinked id r sid (x ∷ xs) row h = elim (Bool-cases (linkable id sid x)) [
  | inl it ↦ rw it (elim (Bool-cases (column_is x.classification_id id)) [
    | inl here ↦ rw here (_, refl, ground arith, ground arith)
    | inr on ↦ rw on (find-relinked id r sid xs row (rw on at h))
  ])
  | inr other ↦ rw other (elim (Bool-cases (column_is x.classification_id id)) [
    | inl here ↦ rw here (_, refl, ground arith, ground arith)
    | inr on ↦ rw on (find-relinked id r sid xs row (rw on at h))
  ])
]

module _ (content : Json) (id r sid : String)
    (p : property "_classificationId" content ≡ ok (some (str id))) (n : (id == "") ≡ false) where
  pub reconcile-links :
      (w : World) (row : ClassificationRow)
      → find_classification_by_id w.central id ≡ some row
      → column_is row.session_id sid ≡ true
      → (row.action == "clarify") ≡ true
      → reconcile_classification content r ask_user_question sid w
        ≡ (ok tt, record w { central = link_outcome id r sid w.central })
  unfolding reconcile_classification reconcile_read reconcile_id reconcile_row
  reconcile-links w row f own act = rw (p, n, f, own, act) refl

  pub reconcile-counts :
      (w : World) (row : ClassificationRow)
      → find_classification_by_id w.central id ≡ some row
      → column_is row.session_id sid ≡ true
      → (row.action == "answer_self") ≡ false
      → reconcile_classification content r channel_send sid w ≡ (
        ok tt,
        record w {
          effects = w.effects ++ classification_bypass "action_mismatch" "channel_send" ∷ [];
        },
      )
  unfolding reconcile_classification reconcile_read reconcile_id reconcile_row
  reconcile-counts w row f own act = rw (p, n, f, own, act) refl
