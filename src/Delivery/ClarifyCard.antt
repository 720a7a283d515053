-- ===== src/Delivery/ClarifyCard.antt =====
-- What closing the loops of a clarification card does (deliverMessage of src/delivery.ts).
use multi_user_agent_platfor.Base.{
  Bool, true, false, ◌&&◌, Option, none, some, [], ◌∷◌, ◌++◌, String, ◌==◌, ◌≡◌, refl, ap, subst,
  sym, ◌∙◌, arith, eq_iff, truthy, column_is, Result, ok, err, Json, obj, arr, str, null, bool, num,
  Fields, lookup_field, find, as_string, bind_text, Bool-cases, inl, inr, coalesce,
}
use multi_user_agent_platfor.Types.{
  Central, Session, MessageOut, ClassificationRow, PendingQuestion,
}
use multi_user_agent_platfor.World.{
  World, M, lift, on_central, stored, continue_with, ◌>>=◌, ◌>>◌, classification_bypass,
}
use multi_user_agent_platfor.Delivery.Questions.{
  json_truthy, normalize_options, create_pending_question,
}
use multi_user_agent_platfor.Delivery.Completion.{text_is}
use multi_user_agent_platfor.Delivery.Classification.{
  ask_user_question, channel_send, find_classification_by_id, link_outcome,
  reconcile_classification,
}
use multi_user_agent_platfor.Delivery.Linking.{find-relinked, reconcile-links, reconcile-counts}
use multi_user_agent_platfor.Delivery.Send.{
  Outlet, when, keep_question, track_question, close_loops,
}

-- A step that leaves the log of classifications and the effects alone.
record Aside (w v : World) : Type 0 where
  log : v.central.classification_log ≡ w.central.classification_log
  effects : v.effects ≡ w.effects

Aside-refl : (w : World) → Aside w w
Aside-refl w = record { log = refl; effects = refl }

Aside-if : (b : Bool) (m : M (Unit {0})) (w : World) → Aside w (m w).1 → Aside w (when b m w).1
Aside-if true m w h = h
Aside-if false m w h = Aside-refl w

Aside-lift :
    {A B : Type 0} (r : Result A) (f : A → M B) (w : World)
    → ((a : A) → Aside w (f a w).1)
    → Aside w ((lift r >>= f) w).1
Aside-lift (ok a) f w h = h a
Aside-lift (err e) f w h = Aside-refl w

Aside-central :
    (r : Result Central) (w : World)
    → ((db : Central) → r ≡ ok db → db.classification_log ≡ w.central.classification_log)
    → Aside w (stored w r).1
Aside-central (ok db) w h = record { log = h db refl; effects = refl }
Aside-central (err e) w h = Aside-refl w

create_pending_question-log :
    (pq : PendingQuestion) (db db' : Central)
    → create_pending_question pq db ≡ ok db'
    → db'.classification_log ≡ db.classification_log
unfolding create_pending_question
create_pending_question-log pq db db' e = ground arith

create_pending_question-Aside :
    (pq : PendingQuestion) (w : World) → Aside w (on_central (create_pending_question pq) w).1
create_pending_question-Aside pq w =
    Aside-central (create_pending_question pq w.central) w
      (create_pending_question-log pq w.central)

module _ (outlet : Outlet) (msg : MessageOut) (session : Session) where
  keep_question-Aside :
      (q t o : Option Json) (w : World) → Aside w (keep_question outlet q t o msg session w).1
  unfolding keep_question
  keep_question-Aside q t (some (arr items)) w = elim (Bool-cases (json_truthy t)) [
    | inl titled ↦ rw titled (
        Aside-lift (normalize_options items) _ w (λ options. Aside-lift (bind_text q) _ w (λ id.
          Aside-lift (bind_text t) _ w (λ bound.
            create_pending_question-Aside
              (record {
                question_id = coalesce id "";
                session_id = session.id;
                message_out_id = msg.id;
                platform_id = msg.platform_id;
                channel_type = msg.channel_type;
                thread_id = msg.thread_id;
                title = coalesce bound "";
                options = options;
                created_at = outlet.host.now;
              })
              w))))
    | inr untitled ↦ rw untitled (Aside-refl w)
  ]
  keep_question-Aside q t none w = Aside-refl w
  keep_question-Aside q t (some null) w = Aside-refl w
  keep_question-Aside q t (some (bool b)) w = Aside-refl w
  keep_question-Aside q t (some (num n)) w = Aside-refl w
  keep_question-Aside q t (some (str s)) w = Aside-refl w
  keep_question-Aside q t (some (obj fs)) w = Aside-refl w

  track_question-Aside :
      (fs : Fields) (w : World) → Aside w (track_question outlet fs msg session w).1
  unfolding track_question
  track_question-Aside fs w =
      Aside-if
        (text_is (lookup_field "type" fs) "ask_question"
          && json_truthy (lookup_field "questionId" fs)
          && outlet.has_pending_questions)
        (keep_question outlet (lookup_field "questionId" fs) (lookup_field "title" fs)
          (lookup_field "options" fs) msg session)
        w
        (keep_question-Aside (lookup_field "questionId" fs) (lookup_field "title" fs)
          (lookup_field "options" fs) w)

  -- A clarification card that carries the id of a classification of its session and action is linked
  -- to it, and where closing its loops ends, the card has been counted as a bypass all the same: the
  -- reconciliation of replies takes the card for one and finds another action.
  pub clarify_card-counted :
      (fs : Fields) (id : String) (w v : World) (row : ClassificationRow) {x : Unit {0}}
      → outlet.has_classification_log ≡ true
      → lookup_field "type" fs ≡ some (str "ask_question")
      → lookup_field "_classificationId" fs ≡ some (str id)
      → (id == "") ≡ false
      → find_classification_by_id w.central id ≡ some row
      → column_is row.session_id session.id ≡ true
      → (row.action == "clarify") ≡ true
      → close_loops outlet (obj fs) msg session w ≡ (ok x, v)
      → (v.central.classification_log
          ≡ (link_outcome id msg.id session.id w.central).classification_log)
        × (v.effects ≡ w.effects ++ classification_bypass "action_mismatch" "channel_send" ∷ [])
  unfolding close_loops find_classification_by_id link_outcome
  clarify_card-counted fs id w v row {x} on kind p n f own act h =
      let links = reconcile-links (obj fs) id msg.id session.id (ap ok p) n w row f own act in
      let run : Bool → Bool → Result (Unit {0}) × World = λ card reply.
        (when card (reconcile_classification (obj fs) msg.id ask_user_question session.id)
            >> (track_question outlet fs msg session
                >> when reply (reconcile_classification (obj fs) msg.id channel_send session.id)))
          w in
      let is_card : (text_is (lookup_field "type" fs) "ask_question"
            && outlet.has_classification_log)
          ≡ true =
        rw (kind, on) refl in
      let is_reply : (truthy (as_string (lookup_field "_classificationId" fs))
            && outlet.has_classification_log)
          ≡ true =
        rw (p, n, on) refl in
      let both : run true true ≡ (ok x, v) =
        subst (λ b. run true b ≡ (ok x, v)) is_reply
          (subst
            (λ b.
              run b (
                truthy (as_string (lookup_field "_classificationId" fs))
                && outlet.has_classification_log)
              ≡ (ok x, v))
            is_card h) in
      go (track_question outlet fs msg session linked) (track_question-Aside fs linked)
        (rw links at both)
    where
      linked : World
      linked = record w { central = link_outcome id msg.id session.id w.central }

      go :
          (r : Result (Unit {0}) × World)
          → Aside linked r.1
          → continue_with r.0 r.1
              (λ _. reconcile_classification (obj fs) msg.id channel_send session.id)
            ≡ (ok x, v)
          → (v.central.classification_log
              ≡ (link_outcome id msg.id session.id w.central).classification_log)
            × (v.effects ≡ w.effects ++ classification_bypass "action_mismatch" "channel_send" ∷ [])
      go (err e, u) a k = cc
      go (ok y, u) a k =
          let (row', f', same_action, same_session) =
            find-relinked id msg.id session.id w.central.classification_log row f in
          let counts =
            reconcile-counts (obj fs) id msg.id session.id (ap ok p) n u row'
              (ap (λ rows. find (λ x. column_is x.classification_id id) rows) a.log ∙ f')
              (rw same_session own)
              (rw same_action ground (
                arith,
                eq_iff row.action "clarify",
                eq_iff row.action "answer_self",
                eq_iff "clarify" "answer_self",
              )) in
          let same = ap (λ (q : Result (Unit {0}) × World). q.1) (sym k ∙ counts) in
          rw same (
            a.log,
            ap (λ es. es ++ classification_bypass "action_mismatch" "channel_send" ∷ []) a.effects,
          )
