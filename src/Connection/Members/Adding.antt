-- ===== src/Connection/Members/Adding.antt =====
-- add_member of connection.cc.
use chatroom.Base.{
  ◌≡◌, ap, ◌∙◌, Text, text, eq_text, Bool, true, false, ◌||◌, arith, ℕ, [], Returns, bind_pure,
  bind_bind, eq_text_refl, bind_after, Bool-cases, inl, inr,
}
use chatroom.Chat.{Group, Part, with_group}
use chatroom.Chat.Groups.{AddMember, empty_add_member}
use chatroom.Redis.Documented.{Documented, Kind, View, with_member}
use chatroom.RedisClient.Keys.{members_key, groups_key}
use chatroom.RedisClient.Keys.Apart.{groups-members}
use chatroom.RedisClient.Groups.{group_title}
use chatroom.RedisClient.Effects.{get_groupuuid-Does, set_group_member-Does, user_set_groups-Does}
use chatroom.World.{World, Services, services_redis}
use chatroom.UserManager.{get_group_uuid}
use chatroom.Connection.Groups.{with_role, member_role}
use chatroom.Connection.Ready.{Ready}
use chatroom.Connection.Rules.{
  IsAnswer, post_lem, bind_redis, bind_fds, bind_now, OnlyNotice, tell-OnlyNotice,
}
use chatroom.Connection.Members.{add_member, enter_member}

-- What SADD leaves in the set itself.
member-with_member :
    (k x : Text) (v : View) (y : Text)
    → (with_member k x true v).member k y ≡ (eq_text x y || v.member k y)
member-with_member k x v y = ground (arith, eq_text_refl k)

-- What the one who added the member is answered.
abbrev pub answer : AddMember → Bool → AddMember
answer m true = record empty_add_member {
  username = m.username;
  decide = false;
  msg = text "\u{1b}[31m他(她)已经是群成员了!\u{1b}[0m";
}
answer m false = record empty_add_member { username = m.username; decide = true }

module _ {Db : Type 0} ⦃s : Services Db⦄ (doc : Documented s.redis) (kind_of : Text → Kind)
    (w : World Db) (fd : ℕ) (m : AddMember) (uuid : Text)
    (ready : Ready doc kind_of w m.u_name m.g_name m.username uuid) where
  open doc use {view}

  abbrev entry : Text
  entry = with_role m.username member_role

  abbrev before : Bool
  before = (view w.db).member (members_key uuid) entry

  entered :
      (d1 d2 : Db)
      → view d1 ≡ view w.db
      → view d2 ≡ with_member (members_key uuid) entry true (view d1)
      → (x : Text)
      → (view d2).member (members_key uuid) x
        ≡ (eq_text entry x || (view w.db).member (members_key uuid) x)
  entered d1 d2 v1 v2 x =
      ap (λ v. v.member (members_key uuid) x) v2
      ∙ member-with_member (members_key uuid) entry (view d1) x
      ∙ ap (λ v. eq_text entry x || v.member (members_key uuid) x) v1

  kept :
      (d1 d2 d4 : Db) {d3 : Db}
      → view d1 ≡ view w.db
      → view d2 ≡ with_member (members_key uuid) entry true (view d1)
      → view d4 ≡ with_member (groups_key m.username) (group_title m.g_name m.u_name) true (view d3)
      → OnlyNotice m.username (view d2) (view d3)
      → (x : Text)
      → (view d4).member (members_key uuid) x
        ≡ (eq_text entry x || (view w.db).member (members_key uuid) x)
  kept d1 d2 d4 {d3} v1 v2 v4 same x =
      ap (λ v. v.member (members_key uuid) x) v4
      ∙ rw (groups-members m.username uuid [] []) (ap (λ f. f (members_key uuid) x) same.member)
      ∙ entered d1 d2 v1 v2 x

  listed :
      (d4 : Db) {d3 : Db}
      → view d4 ≡ with_member (groups_key m.username) (group_title m.g_name m.u_name) true (view d3)
      → (view d4).member (groups_key m.username) (group_title m.g_name m.u_name) ≡ true
  listed d4 {d3} v4 =
      ap (λ v. v.member (groups_key m.username) (group_title m.g_name m.u_name)) v4
      ∙ member-with_member (groups_key m.username) (group_title m.g_name m.u_name) (view d3) _
      ∙ rw (eq_text_refl (group_title m.g_name m.u_name))

  -- Where the index has the group and each key holds its kind of value, add_member comes to an
  -- end. The members are then those before and the entry of the user as a plain member; if that
  -- entry is new, the group is in the user's list; and the last message written to the socket,
  -- if it can be reached, is the answer that the entry is new or was there.
  pub add_member_lem : Returns (add_member fd m) w (λ _ w'.
      ((x : Text)
        → (view w'.db).member (members_key uuid) x ≡ (
            eq_text (with_role m.username member_role) x
            || (view w.db).member (members_key uuid) x))
      × ((view w.db).member (members_key uuid) (with_role m.username member_role) ≡ false
          → (view w'.db).member (groups_key m.username) (group_title m.g_name m.u_name) ≡ true)
      × IsAnswer fd
          (with_group Group.addmember (
            Part.add_member (
              answer m ((view w.db).member (members_key uuid) (with_role m.username member_role)))))
          w')
  unfolding add_member enter_member get_group_uuid
  add_member_lem = bind_fds fd _ (
      bind_now _ (
        bind_redis doc _ _
          (get_groupuuid-Does doc ready.kinded m.u_name m.g_name uuid ready.index_kind
            ready.indexed)
          (λ d1 v1 k1.
            bind_redis doc _ _ (set_group_member-Does doc k1 uuid entry ready.members_kind)
              (λ d2 v2 k2. elim (Bool-cases before) [
                | inl there ↦
                    rw (ap (λ v. v.member (members_key uuid) entry) v1 ∙ there, there)
                      (bind_pure _ _
                        (post_lem fd fd _ (λ sent. (entered d1 d2 v1 v2, λ e. ground arith, sent))))
                | inr new ↦
                    rw (ap (λ v. v.member (members_key uuid) entry) v1 ∙ new, new)
                      (bind_bind _ _ _ (
                        bind_after _ _ _
                          (tell-OnlyNotice doc fd m.username _ _ _ k2 ready.notices_kind)
                          (λ _ w3 h3. bind_bind _ _ _ (
                            bind_redis doc _ _
                              (user_set_groups-Does doc h3.0 m.username m.u_name m.g_name
                                ready.groups_kind)
                              (λ d4 v4 k4. bind_pure _ _ (
                                post_lem fd fd _ (λ sent.
                                  (kept d1 d2 d4 v1 v2 v4 h3.1, λ _. listed d4 v4, sent))))))))
              ]))))
