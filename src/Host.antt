-- ===== src/Host.antt =====
-- What the host process hands its handlers from outside the modelled code.
use multi_user_agent_platfor.Base.{ℕ, Bool, Option, String, Result}
use multi_user_agent_platfor.Engine.{TextEngine}
use multi_user_agent_platfor.Types.{MessagingGroup, InboundEvent}
use multi_user_agent_platfor.World.{World, M}

-- A channel adapter, as far as the router looks at it.
pub record Adapter : Type 0 where
  pub supports_threads : Bool
  -- whether it has a `subscribe`
  pub can_subscribe : Bool

pub record Host : Type 0 where
  pub engine : TextEngine
  -- the clock, read once for a step
  pub now : ℕ
  -- the n-th random suffix that the process draws (`Date.now()` and `Math.random()`)
  pub gen : ℕ → String
  -- `getChannelAdapter`
  pub adapter : String → Option Adapter
  -- whether the permissions module is installed: its hooks and its tables
  pub permissions : Bool
  -- the message interceptor; true where it consumes the message
  pub intercept : InboundEvent → M Bool
  -- `maybeAutowireEnterpriseFrontdesk`, which may also set the group's sender policy
  pub autowire : MessagingGroup → InboundEvent → M (Bool × MessagingGroup)
  -- `extractAttachmentFiles`: agent group, session, message id, content
  pub extract_attachments : String → String → String → String → Result String
  -- whether outbound.db takes a write of the host now
  pub outbound_free : World → Bool
