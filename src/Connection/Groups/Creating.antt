-- ===== src/Connection/Groups/Creating.antt =====
-- add_group of connection.cc.
use mathlib.Core.Path.{subst}
use chatroom.Base.{
  ℕ, ◌≡◌, ◌<◌, refl, sym, ap, ◌∙◌, Text, text, eq_text_refl, true, false, List, [], ◌∷◌, some,
  length, Returns, bind_after, bind_pure, bind_bind,
}
use chatroom.Chat.{Group, Part, with_group}
use chatroom.Chat.Groups.{AddGroup, empty_add_group}
use chatroom.Redis.Documented.{
  Documented, Kind, texts, sets, hashes, View, with_member, with_fields, with_value,
}
use chatroom.RedisClient.Kinded.{Kinded}
use chatroom.RedisClient.Keys.{group_key, group_owner, members_key, managers_key, groups_key, ◌+:+◌}
use chatroom.RedisClient.Keys.Apart.{groups-members}
use chatroom.RedisClient.Groups.{group_title}
use chatroom.RedisClient.Effects.{
  group_exists-Does, add_group-Does, set_group_member-Does, user_set_groups-Does,
  set_group_manager-Does,
}
use chatroom.World.{World, Services, services_redis}
use chatroom.Protocol.Uuid.Shape.{generate_uuid_lem}
use chatroom.Connection.Groups.{with_role, owner_role, add_group, create_group}
use chatroom.Connection.Rules.{IsAnswer, post_lem, bind_redis, bind_now}

-- The database after the steps that create a group.
abbrev created_group : Text → Text → Text → List (Text × Text) → View → View
created_group uuid u g info v = with_fields (managers_key uuid) ((u, owner_role) ∷ []) (
    with_member (groups_key u) (group_title g u) true (
      with_member (members_key uuid) (with_role u owner_role) true
        (with_value (group_owner u +:+ g) (some uuid) (with_fields (group_key uuid) info v))))

-- The owner is a member, has the role, and finds the group in the index and in the own list.
pub record IsFounded (uuid u g : Text) (v : View) : Type 0 where
  pub indexed : v.value (group_owner u +:+ g) ≡ some uuid
  pub joined : v.member (members_key uuid) (with_role u owner_role) ≡ true
  pub listed : v.member (groups_key u) (group_title g u) ≡ true
  pub owned : v.field (managers_key uuid) u ≡ some owner_role

created-IsFounded :
    (uuid u g : Text) (info : List (Text × Text)) (v : View)
    → IsFounded uuid u g (created_group uuid u g info v)
created-IsFounded uuid u g info v = record {
  indexed = rw (eq_text_refl (group_owner u +:+ g)) refl;
  joined =
      rw
        (
          groups-members u uuid [] [],
          eq_text_refl (members_key uuid),
          eq_text_refl (with_role u owner_role),
        )
        refl;
  listed = rw (eq_text_refl (groups_key u), eq_text_refl (group_title g u)) refl;
  owned = rw (eq_text_refl (managers_key uuid), eq_text_refl u) refl;
}

module _ {Db : Type 0} ⦃s : Services Db⦄ (doc : Documented s.redis) (kind_of : Text → Kind)
    (w : World Db) (fd : ℕ) (m : AddGroup) (kinded : Kinded doc kind_of w.db)
    (digit : (n : ℕ) → s.hex_digit n < 16)
    (group_kind : (uuid : Text) → length uuid ≡ 36 → kind_of (group_key uuid) ≡ hashes)
    (members_kind : (uuid : Text) → length uuid ≡ 36 → kind_of (members_key uuid) ≡ sets)
    (managers_kind : (uuid : Text) → length uuid ≡ 36 → kind_of (managers_key uuid) ≡ hashes)
    (groups_kind : kind_of (groups_key m.username) ≡ sets)
    (index_kind : kind_of (group_owner m.username +:+ m.group_name) ≡ texts) where
  open doc use {view}

  abbrev information : List (Text × Text)
  information =
      (text "username", m.username)
      ∷ (text "groupname", m.group_name)
      ∷ (text "ttime", s.local_time w.readings)
      ∷ []

  after :
      (uuid : Text) (info : List (Text × Text)) (v2 : View) {v3 v4 v5 v6 : View}
      → v3
        ≡ with_value
            (group_owner m.username +:+ m.group_name)
            (some uuid)
            (with_fields (group_key uuid) info v2)
      → v4 ≡ with_member (members_key uuid) (with_role m.username owner_role) true v3
      → v5 ≡ with_member (groups_key m.username) (group_title m.group_name m.username) true v4
      → v6 ≡ with_fields (managers_key uuid) ((m.username, owner_role) ∷ []) v5
      → v6 ≡ created_group uuid m.username m.group_name info v2
  after uuid info v2 e3 e4 e5 e6 =
      e6
      ∙ ap (with_fields (managers_key uuid) ((m.username, owner_role) ∷ [])) (
          e5
          ∙ ap (with_member (groups_key m.username) (group_title m.group_name m.username) true)
              (e4 ∙ ap (with_member (members_key uuid) (with_role m.username owner_role) true) e3))

  -- Where the name is free, the digits drawn are below 16, and the keys hold their kinds of
  -- value, add_group comes to an end: for some uuid of 36 bytes the index has the group, its
  -- owner is a member and has the owner's role, and the group is in the owner's list. The last
  -- message written to the socket, if it can be reached, is the answer of success.
  pub add_group_new :
      doc.live w.db (group_owner m.username +:+ m.group_name) ≡ false
      → Returns (add_group fd m) w (λ _ w'.
        ((uuid : Text) × (length uuid ≡ 36) × IsFounded uuid m.username m.group_name (view w'.db))
        × IsAnswer fd
            (with_group Group.addgroup (
              Part.add_group (record empty_add_group {
                time = s.local_time w.readings;
                msg = text "\u{1b}[32m群聊创建成功!\u{1b}[0m";
                username = m.username;
                group_name = m.group_name;
                success = true;
              })))
            w')
  unfolding add_group create_group
  add_group_new free = bind_now _ (
      bind_redis doc _ _ (group_exists-Does doc kinded m.username m.group_name) (λ d1 v1 k1.
        rw free (
          bind_bind _ _ _ (
            bind_after _ _ _ (generate_uuid_lem digit _) (λ uuid w2 h.
              let k2 : Kinded doc kind_of w2.db =
                subst (λ w. Kinded doc kind_of w.db) (sym h.2) k1 in
              bind_bind _ _ _ (
                bind_redis doc _ _
                  (add_group-Does doc k2 uuid m.username m.group_name _ refl (group_kind uuid h.1)
                    index_kind)
                  (λ d3 v3 k3. bind_bind _ _ _ (
                    bind_redis doc _ _
                      (set_group_member-Does doc k3 uuid (with_role m.username owner_role)
                        (members_kind uuid h.1))
                      (λ d4 v4 k4. bind_bind _ _ _ (
                        bind_redis doc _ _
                          (user_set_groups-Does doc k4 m.username m.username m.group_name
                            groups_kind)
                          (λ d5 v5 k5. bind_bind _ _ _ (
                            bind_redis doc _ _
                              (set_group_manager-Does doc k5 uuid ((m.username, owner_role) ∷ [])
                                (managers_kind uuid h.1))
                              (λ d6 v6 k6. bind_pure _ _ (
                                post_lem fd fd _ (λ sent. (
                                  (
                                    uuid,
                                    h.1,
                                    subst (IsFounded uuid m.username m.group_name)
                                        (sym (after uuid information (view w2.db) v3 v4 v5 v6))
                                        (created-IsFounded uuid m.username m.group_name information
                                          (view w2.db)),
                                  ),
                                  sent,
                                ))))))))))))))))
