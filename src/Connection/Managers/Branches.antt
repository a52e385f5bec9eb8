-- ===== src/Connection/Managers/Branches.antt =====
-- connection.cc: what the branches of success of add_manager and del_manager do to a group.
use chatroom.Base.{
  ℕ, ◌≡◌, refl, ap, ◌∙◌, Text, text, eq_text, eq_text_refl, Bool, true, false, not, ◌&&◌, ◌||◌, [],
  ◌∷◌, none, some, nat_eq, text_eq, arith, Returns, bind_after, pure_step,
}
use chatroom.Chat.Groups.{AddManager, DelManager, empty_add_manager, empty_del_manager}
use chatroom.Redis.Documented.{
  Documented, Kind, sets, hashes, View, with_member, with_fields, without_field,
}
use chatroom.RedisClient.Keys.{members_key, managers_key, request_key, ◌+:+◌}
use chatroom.RedisClient.Kinded.{Kinded}
use chatroom.RedisClient.Keys.Apart.{requests-managers}
use chatroom.RedisClient.Effects.{set_group_member-Does, remove_group_member-Does}
use chatroom.World.{World, Services, services_redis}
use chatroom.Connection.Groups.{with_role, member_role, manager_role}
use chatroom.Connection.Rules.{bind_redis, OnlyNotice, tell-OnlyNotice}
use chatroom.Connection.Managers.{promote, demote}

-- One entry of a set in place of another.
moved :
    (k a b : Text) (v : View) (x : Text)
    → (with_member k a true (with_member k b false v)).member k x
      ≡ (eq_text a x || not (eq_text b x) && v.member k x)
moved k a b v x = ground (arith, eq_text_refl k)

-- A field that HSET wrote, and one that HDEL removed.
pub field-with_fields :
    (k f x : Text) (v : View) → (with_fields k ((f, x) ∷ []) v).field k f ≡ some x
field-with_fields k f x v = ground (arith, eq_text_refl k, eq_text_refl f)

pub field-without_field : (k f : Text) (v : View) → (without_field k f v).field k f ≡ none
field-without_field k f v = ground (arith, eq_text_refl k, eq_text_refl f)

-- One entry of the members in place of another, and then the notice: the members then, and the
-- managers, whom neither touches.
swapped-member :
    (uuid name a b : Text) (v2 : View) {v3 v4 v5 : View}
    → v3 ≡ with_member (members_key uuid) b false v2
    → v4 ≡ with_member (members_key uuid) a true v3
    → OnlyNotice name v4 v5
    → (x : Text)
    → v5.member (members_key uuid) x
      ≡ (eq_text a x || not (eq_text b x) && v2.member (members_key uuid) x)
swapped-member uuid name a b v2 e3 e4 told x =
    ap (λ f. f (members_key uuid) x) told.member
    ∙ ap (λ v. v.member (members_key uuid) x) (e4 ∙ ap (with_member (members_key uuid) a true) e3)
    ∙ moved (members_key uuid) a b v2 x

swapped-field :
    (uuid name a b f : Text) (v2 : View) {v3 v4 v5 : View}
    → v3 ≡ with_member (members_key uuid) b false v2
    → v4 ≡ with_member (members_key uuid) a true v3
    → OnlyNotice name v4 v5
    → v5.field (managers_key uuid) f ≡ v2.field (managers_key uuid) f
swapped-field uuid name a b f v2 e3 e4 told =
    told.field (managers_key uuid) f (requests-managers [] uuid (text "Response") name)
    ∙ ap (λ v. v.field (managers_key uuid) f) e4
    ∙ ap (λ v. v.field (managers_key uuid) f) e3

-- What add_manager answers where the user was among the managers, or was not.
abbrev pub promoted : AddManager → Bool → AddManager
promoted m true = record empty_add_manager {
  g_name = m.g_name;
  u_name = m.u_name;
  username = m.username;
  decide = false;
  msg = text "\u{1b}[1;33m他(她)不在群聊中或者他(她)已经是管理员了!\u{1b}[0m";
}
promoted m false = record empty_add_manager {
  g_name = m.g_name;
  u_name = m.u_name;
  username = m.username;
  decide = true;
}

abbrev pub demoted : DelManager → Bool → DelManager
demoted m true = record empty_del_manager {
  g_name = m.g_name;
  u_name = m.u_name;
  username = m.username;
  decide = true;
}
demoted m false = record empty_del_manager {
  g_name = m.g_name;
  u_name = m.u_name;
  username = m.username;
  decide = false;
  msg = text "\u{1b}[1;33m他(她)不在群聊中或者他(她)不是管理员!\u{1b}[0m";
}

module _ {Db : Type 0} ⦃s : Services Db⦄ (doc : Documented s.redis) (kind_of : Text → Kind) (fd : ℕ)
    (uuid : Text) where
  open doc use {view}

  -- The branches of success: the entry is exchanged, and the roles stay.
  pub promote_lem :
      (m : AddManager) (u time : Text) (v : World Db)
      → Kinded doc kind_of v.db
      → kind_of (members_key uuid) ≡ sets
      → kind_of (request_key (text "Response") +:+ m.username) ≡ hashes
      → Returns (promote fd m u uuid time) v (λ answer w'.
        (answer ≡ promoted m false)
        × ((view w'.db).field (managers_key uuid) m.username
            ≡ (view v.db).field (managers_key uuid) m.username)
        × ((x : Text)
            → (view w'.db).member (members_key uuid) x ≡ (
                eq_text (with_role m.username manager_role) x
                || not (eq_text (with_role m.username member_role) x)
                  && (view v.db).member (members_key uuid) x)))
  unfolding promote
  promote_lem m u time v k members_kind notices_kind =
      let added = with_role m.username manager_role in
      let removed = with_role m.username member_role in
      bind_redis doc _ _ (remove_group_member-Does doc k uuid removed members_kind) (λ d3 v3 k3.
        bind_redis doc _ _ (set_group_member-Does doc k3 uuid added members_kind) (λ d4 v4 k4.
          bind_after _ _ _ (tell-OnlyNotice doc fd m.username _ _ _ k4 notices_kind) (λ _ w5 h5.
            pure_step _ (
              refl,
              swapped-field uuid m.username added removed m.username (view v.db) v3 v4 h5.1,
              swapped-member uuid m.username added removed (view v.db) v3 v4 h5.1,
            ))))

  pub demote_lem :
      (m : DelManager) (u time : Text) (v : World Db)
      → Kinded doc kind_of v.db
      → kind_of (members_key uuid) ≡ sets
      → kind_of (request_key (text "Response") +:+ m.username) ≡ hashes
      → Returns (demote fd m u uuid time) v (λ answer w'.
        (answer ≡ demoted m true)
        × ((view w'.db).field (managers_key uuid) m.username
            ≡ (view v.db).field (managers_key uuid) m.username)
        × ((x : Text)
            → (view w'.db).member (members_key uuid) x ≡ (
                eq_text (with_role m.username member_role) x
                || not (eq_text (with_role m.username manager_role) x)
                  && (view v.db).member (members_key uuid) x)))
  unfolding demote
  demote_lem m u time v k members_kind notices_kind =
      let added = with_role m.username member_role in
      let removed = with_role m.username manager_role in
      bind_redis doc _ _ (remove_group_member-Does doc k uuid removed members_kind) (λ d3 v3 k3.
        bind_redis doc _ _ (set_group_member-Does doc k3 uuid added members_kind) (λ d4 v4 k4.
          bind_after _ _ _ (tell-OnlyNotice doc fd m.username _ _ _ k4 notices_kind) (λ _ w5 h5.
            pure_step _ (
              refl,
              swapped-field uuid m.username added removed m.username (view v.db) v3 v4 h5.1,
              swapped-member uuid m.username added removed (view v.db) v3 v4 h5.1,
            ))))
