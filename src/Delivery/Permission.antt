-- ===== src/Delivery/Permission.antt =====
-- That an outbound message reaches no chat that its agent may not write to.
use multi_user_agent_platfor.Base.{
  Bool, true, false, Option, none, some, ◌==◌, ◌≡◌, refl, err, Error, Json, column_is,
}
use multi_user_agent_platfor.Types.{Central, MessagingGroup, MessageOut, Session}
use multi_user_agent_platfor.World.{World}
use multi_user_agent_platfor.Delivery.Send.{
  Outlet, addressed, target_chat, may_send, check_chat, check_destination, send_to_channel,
  deliver_content, deliver_message,
}

-- Whether the agent of the session may write to the chat that the message names.
abbrev pub permitted : Outlet → Central → Session → Option MessagingGroup → Bool
permitted outlet db s none = false
permitted outlet db s (some mg) = may_send outlet db s mg

module _ (outlet : Outlet) (msg : MessageOut) (s : Session) (w : World) where
  check_chat-refuses :
      (mg : Option MessagingGroup)
      → permitted outlet w.central s mg ≡ false
      → (e : Error) × (check_chat outlet mg s w ≡ (err e, w))
  unfolding check_chat
  check_chat-refuses none h = (_, refl)
  check_chat-refuses (some mg) h = rw h (_, refl)

  send_to_channel-refuses :
      (content : Json)
      → addressed outlet msg ≡ true
      → permitted outlet w.central s (target_chat outlet w.central msg) ≡ false
      → (e : Error) × (send_to_channel outlet content msg s w ≡ (err e, w))
  unfolding send_to_channel check_destination
  send_to_channel-refuses content a h =
      let (e, k) = check_chat-refuses (target_chat outlet w.central msg) h in (e, rw (a, k) refl)

  -- Where there is an adapter, a message that is neither a system action nor for an agent, and that
  -- names a chat that does not exist or that the session neither belongs to nor has as a
  -- destination, changes nothing and throws: nothing is sent.
  pub deliver_message-refuses :
      outlet.adapter_ready ≡ true
      → (msg.kind == "system") ≡ false
      → column_is msg.channel_type "agent" ≡ false
      → addressed outlet msg ≡ true
      → permitted outlet w.central s (target_chat outlet w.central msg) ≡ false
      → (e : Error) × (deliver_message outlet msg s w ≡ (err e, w))
  unfolding deliver_message deliver_content
  deliver_message-refuses ready k c a h =
      let (e, r) = go (outlet.host.engine.json_parse msg.content) in (e, simp ready r)
    where
      go : (o : Option Json) → (e : Error) × (deliver_content outlet o msg s w ≡ (err e, w))
      go none = (_, refl)
      go (some content) = let (e, r) = send_to_channel-refuses content a h in (e, rw (k, c) r)
