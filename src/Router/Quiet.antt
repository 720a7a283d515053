-- ===== src/Router/Quiet.antt =====
-- What a routing step may leave unchanged: the tables that decide about access, and the messages
-- that wake one agent group, and the calls that wake containers.
use multi_user_agent_platfor.Base.{
  Bool, true, false, ◌&&◌, List, String, ◌==◌, ◌≡◌, refl, ◌∙◌, if◌then◌else◌, Result, ok, err,
  select, select-append, append-nil, [], ◌∷◌,
}
use multi_user_agent_platfor.Types.{Central}
use multi_user_agent_platfor.World.{
  World, M, InboxRow, Effect, wake_container, emit, on_central, stored, continue_with, ◌>>=◌,
}

abbrev pub triggers : String → InboxRow → Bool
triggers g r = r.agent_group_id == g && r.message.trigger

-- The rows of the agent group's inboxes that start its agent.
unfoldable pub triggered : String → World → List InboxRow
triggered g w = select (triggers g) w.inbox

pub record SameAccess (db db' : Central) : Type 0 where
  pub users : db'.users ≡ db.users
  pub user_roles : db'.user_roles ≡ db.user_roles
  pub agent_group_members : db'.agent_group_members ≡ db.agent_group_members

-- The calls that wake a container.
abbrev pub is_wake : Effect → Bool
is_wake (wake_container id) = true
is_wake _ = false

unfoldable pub woken : World → List Effect
woken w = select is_wake w.effects

-- Where `silent`, no container is woken either.
pub record Quiet (g : String) (silent : Bool) (w w' : World) : Type 0 where
  pub access : SameAccess w.central w'.central
  pub same : triggered g w' ≡ triggered g w
  pub asleep : silent ≡ true → woken w' ≡ woken w

module _ {g : String} {silent : Bool} where
  pub Quiet-refl : (w : World) → Quiet g silent w w
  Quiet-refl w = record {
    access = record { users = refl; user_roles = refl; agent_group_members = refl };
    same = refl;
    asleep = λ s. refl;
  }

  pub Quiet-trans : {w v u : World} → Quiet g silent w v → Quiet g silent v u → Quiet g silent w u
  Quiet-trans p q = record {
    access = record {
      users = q.access.users ∙ p.access.users;
      user_roles = q.access.user_roles ∙ p.access.user_roles;
      agent_group_members = q.access.agent_group_members ∙ p.access.agent_group_members;
    };
    same = q.same ∙ p.same;
    asleep = λ s. q.asleep s ∙ p.asleep s;
  }

  -- One step after another.
  pub Quiet-bind :
      {A B : Type 0} (m : M A) (f : A → M B) (w : World)
      → Quiet g silent w (m w).1
      → ((a : A) (v : World) → m w ≡ (ok a, v) → Quiet g silent v (f a v).1)
      → Quiet g silent w ((m >>= f) w).1
  Quiet-bind {A} m f w p q = go (m w) refl p
    where
      go :
          (r : Result A × World)
          → m w ≡ r
          → Quiet g silent w r.1
          → Quiet g silent w (continue_with r.0 r.1 f).1
      go (ok a, v) e h = Quiet-trans h (q a v e)
      go (err x, v) e h = h

  -- A statement on the central database that spares the tables of access.
  pub Quiet-central :
      (w : World) (db : Central)
      → SameAccess w.central db
      → Quiet g silent w (record w { central = db })
  unfolding triggered woken
  Quiet-central w db h = record { access = h; same = refl; asleep = λ s. refl }

  pub Quiet-on_central :
      (f : Central → Result Central) (w : World)
      → ((db : Central) → f w.central ≡ ok db → SameAccess w.central db)
      → Quiet g silent w (on_central f w).1
  Quiet-on_central f w h = go (f w.central) refl
    where
      go : (r : Result Central) → f w.central ≡ r → Quiet g silent w (stored w r).1
      go (ok db) e = Quiet-central w db (h db e)
      go (err x) e = Quiet-refl w

  pub Quiet-emit :
      (e : Effect) (w : World) → (silent ≡ true → is_wake e ≡ false) → Quiet g silent w (emit e w).1
  unfolding triggered woken select
  Quiet-emit e w h = record {
    access = record { users = refl; user_roles = refl; agent_group_members = refl };
    same = refl;
    asleep = λ s. select-append is_wake w.effects (e ∷ []) ∙ rw (h s) (append-nil _);
  }

  pub Quiet-if :
      {A : Type 0} (b : Bool) (r r' : Result A × World) {w : World}
      → Quiet g silent w r.1
      → Quiet g silent w r'.1
      → Quiet g silent w (if b then r else r').1
  Quiet-if true r r' p q = p
  Quiet-if false r r' p q = q

  pub Quiet-if_step :
      {A : Type 0} (b : Bool) (m n : M A) {w : World}
      → (b ≡ true → Quiet g silent w (m w).1)
      → Quiet g silent w (n w).1
      → Quiet g silent w ((if b then m else n) w).1
  Quiet-if_step true m n p q = p refl
  Quiet-if_step false m n p q = q
