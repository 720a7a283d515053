-- ===== src/Delivery/Turns.antt =====
-- How a drain ends the turn of its session.
use multi_user_agent_platfor.Base.{
  Bool, true, false, ◌&&◌, Option, none, some, List, [], ◌∷◌, ◌++◌, String, ◌==◌, ◌≡◌, refl, arith,
  ok, Fields, Bool-cases, inl, inr,
}
use multi_user_agent_platfor.Types.{MessageOut, Session}
use multi_user_agent_platfor.World.{World}
use multi_user_agent_platfor.Delivery.Completion.{
  DeliveryCompletion, is_answered, is_user_visible_outbound, derive_delivery_completion,
  merge_completion,
}
use multi_user_agent_platfor.Delivery.Send.{Outlet, deliver_message}
use multi_user_agent_platfor.Delivery.Retries.{Attempt, last_one, another, deliver_one-Attempt}
use multi_user_agent_platfor.Delivery.Drain.{
  Queue, shown, parsed_content, completion_of, after_delivery, deliver_one, deliver_all, turn_end,
}

abbrev pub ends_answered : Option DeliveryCompletion → Bool
ends_answered none = false
ends_answered (some c) = is_answered c.kind

-- An answer is not lost by what comes after it.
merge_completion-keeps_answer :
    (a b : Option DeliveryCompletion)
    → ends_answered a ≡ true
    → ends_answered (merge_completion a b) ≡ true
unfolding merge_completion
merge_completion-keeps_answer none b h = cc
merge_completion-keeps_answer (some a) none h = h
merge_completion-keeps_answer (some a) (some b) h = rw h h

-- An answer counts, whatever came before it.
merge_completion-takes_answer :
    (a b : Option DeliveryCompletion)
    → ends_answered b ≡ true
    → ends_answered (merge_completion a b) ≡ true
unfolding merge_completion
merge_completion-takes_answer none none h = h
merge_completion-takes_answer (some a) none h = cc
merge_completion-takes_answer none (some b) h = h
merge_completion-takes_answer (some a) (some b) h = elim (Bool-cases (is_answered a.kind)) [
  | inl was ↦ rw was was
  | inr other ↦ rw other h
]

module _ (outlet : Outlet) where
  visible-answers :
      (msg : MessageOut) (content : Option Fields)
      → shown outlet msg content ≡ true
      → ends_answered (completion_of outlet msg content) ≡ true
  unfolding derive_delivery_completion is_user_visible_outbound
  visible-answers msg none h = cc
  visible-answers msg (some content) h = ground arith

  abbrev answered_so_far : Queue → Bool
  answered_so_far q = q.handled_outbound && ends_answered q.completion

  Attempt-keeps_answer :
      (s : Session) (m : MessageOut) (q q' : Queue)
      → Attempt outlet s m q q'
      → answered_so_far q ≡ true
      → answered_so_far q' ≡ true
  Attempt-keeps_answer s m q q' (last_one st p next w) h =
      merge_completion-keeps_answer q.completion next (ground arith)
  Attempt-keeps_answer s m q q' (another w l) h = h

  deliver_all-keeps_answer :
      (s : Session) (ms : List MessageOut) (q : Queue)
      → answered_so_far q ≡ true
      → answered_so_far (deliver_all outlet s ms q) ≡ true
  unfolding deliver_all
  deliver_all-keeps_answer s [] q h = h
  deliver_all-keeps_answer s (m ∷ ms) q h =
      deliver_all-keeps_answer s ms (deliver_one outlet s m q)
        (Attempt-keeps_answer s m q _ (deliver_one-Attempt outlet s m q) h)

  deliver_all-append :
      (s : Session) (ms ns : List MessageOut) (q : Queue)
      → deliver_all outlet s (ms ++ ns) q ≡ deliver_all outlet s ns (deliver_all outlet s ms q)
  unfolding deliver_all
  deliver_all-append s [] ns q = refl
  deliver_all-append s (m ∷ ms) ns q = deliver_all-append s ms ns (deliver_one outlet s m q)

  deliver_one-answers :
      (s : Session) (m : MessageOut) (q : Queue) (p : Option String) (w : World)
      → shown outlet m (parsed_content outlet m) ≡ true
      → (m.kind == "llm-usage") ≡ false
      → deliver_message outlet m s q.world ≡ (ok p, w)
      → answered_so_far (deliver_one outlet s m q) ≡ true
  unfolding deliver_one after_delivery
  deliver_one-answers s m q p w v k e =
      rw (k, e) (merge_completion-takes_answer q.completion _ (visible-answers m _ v))

  -- Where a drain delivers one message that the user sees and that is no usage record, the turn
  -- ends as answered, whatever the messages before and after it do.
  pub deliver_all-answers :
      (s : Session) (before after : List MessageOut) (m : MessageOut) (q : Queue)
      (p : Option String) (w : World)
      → shown outlet m (parsed_content outlet m) ≡ true
      → (m.kind == "llm-usage") ≡ false
      → deliver_message outlet m s (deliver_all outlet s before q).world ≡ (ok p, w)
      → ends_answered (turn_end outlet (deliver_all outlet s (before ++ m ∷ after) q)) ≡ true
  unfolding turn_end deliver_all
  deliver_all-answers s before after m q p w v k e =
      rw (deliver_all-append s before (m ∷ after) q) ground (
        arith,
        deliver_all-keeps_answer s after (deliver_one outlet s m (deliver_all outlet s before q))
            (deliver_one-answers s m (deliver_all outlet s before q) p w v k e),
      )
