-- ===== src/Connection/Members/Removing.antt =====
-- del_member of connection.cc.
use chatroom.Base.{
  ℕ, ◌≡◌, refl, sym, ap, ◌∙◌, Text, text, eq_text, eq_text_refl, eq_text_iff, Bool, true, false,
  ◌&&◌, ◌||◌, [], ◌++◌, none, nat_eq, text_eq, if◌then◌else◌, arith, Returns, bind_after, bind_pure,
  bind_bind, pure_step, Bool-cases, inl, inr, fault_step, eq_text-append, fault_here,
}
use chatroom.Chat.{Group, Part, with_group}
use chatroom.Chat.Groups.{DelMember, empty_del_member}
use chatroom.Redis.Documented.{Documented, Kind, View, with_member, without_field}
use chatroom.RedisClient.Kinded.{Kinded}
use chatroom.RedisClient.Keys.{members_key, managers_key, groups_key}
use chatroom.RedisClient.Keys.Apart.{groups-members}
use chatroom.RedisClient.Groups.{group_title}
use chatroom.RedisClient.Effects.{
  get_groupuuid-Does, remove_group_member-Does, remove_group_manager-Does, user_remove_groups-Does,
  get_group_manager_missing,
}
use chatroom.World.{World, Services, services_redis, on_redis-none, fds_at, get_now_text}
use chatroom.UserManager.{get_group_uuid}
use chatroom.Connection.Groups.{with_role, member_role, manager_role, owner_role}
use chatroom.Connection.Rules.{
  IsAnswer, post_lem, bind_redis, bind_fds, bind_now, tell-OnlyNotice, fault_redis, run_redis,
}
use chatroom.Connection.Ready.{Ready}
use chatroom.Connection.Members.{
  del_member, del_by_manager, del_by_owner, remove_either, tell_put_out, refused,
}

roles_apart : eq_text manager_role owner_role ≡ false
unfolding eq_text manager_role owner_role text
roles_apart = refl

entries_apart : (u : Text) → eq_text (with_role u member_role) (with_role u manager_role) ≡ false
unfolding with_role member_role manager_role text eq_text
entries_apart u = eq_text-append u (text ":" ++ member_role) (text ":" ++ manager_role)

-- Taking out an entry that is not there, and one that is.
absent-with_member :
    (k a : Text) (v : View) (x : Text)
    → v.member k a ≡ false
    → (with_member k a false v).member k x ≡ v.member k x
absent-with_member k a v x e = ground (arith, eq_text_refl k, eq_text_iff a x, e)

-- What the one who asks is answered.
abbrev pub answered : DelMember → Bool → DelMember
answered m true = record empty_del_member { username = m.username; decide = true }
answered m false = refused m (text "\u{1b}[31m他(她)不是群成员!\u{1b}[0m")

abbrev pub plain_entry : DelMember → Text
plain_entry m = with_role m.username member_role

abbrev pub manager_entry : DelMember → Text
manager_entry m = with_role m.username manager_role

-- What is left of the members without the entry that was found, the plain one first.
abbrev pub remaining : Text → DelMember → View → View
remaining uuid m v =
    if v.member (members_key uuid) (plain_entry m)
    then with_member (members_key uuid) (plain_entry m) false v
    else with_member (members_key uuid) (manager_entry m) false v

abbrev pub was_in : Text → DelMember → View → Bool
was_in uuid m v =
    v.member (members_key uuid) (plain_entry m) || v.member (members_key uuid) (manager_entry m)

module _ {Db : Type 0} ⦃s : Services Db⦄ (doc : Documented s.redis) (kind_of : Text → Kind)
    (w : World Db) (fd : ℕ) (uuid : Text) (m : DelMember)
    (ready : Ready doc kind_of w m.u_name m.g_name m.username uuid) where
  open doc use {view}

  -- On a request in a manager's role to put out a user who has no role among the managers, where
  -- the index has the group and the keys hold their kinds of value, del_member is undefined.
  pub del_member_undefined :
      m.statue ≡ manager_role
      → (view w.db).field (managers_key uuid) m.username ≡ none
      → del_member fd m w ≡ none
  unfolding del_member del_by_manager get_group_uuid fds_at get_now_text
  del_member_undefined as_manager plain = fault_step (fds_at fd) _ _ _ refl (
      fault_redis doc _ _
        (get_groupuuid-Does doc ready.kinded m.u_name m.g_name uuid ready.index_kind ready.indexed)
        (λ d1 v1 k1. fault_step get_now_text _ _ _ refl (
          rw (as_manager, roles_apart, eq_text_refl manager_role)
            (fault_here _ _ (
              fault_here _ _ (
                on_redis-none _ _ (
                  get_group_manager_missing doc k1 uuid m.username ready.managers_kind
                    (ap (λ v. v.field (managers_key uuid) m.username) v1 ∙ plain))))))))

  same :
      (v : World Db) (d1 : Db)
      → view d1 ≡ with_member (members_key uuid) (plain_entry m) false (view v.db)
      → (view v.db).member (members_key uuid) (plain_entry m) ≡ false
      → (x : Text) → (view d1).member (members_key uuid) x ≡ (view v.db).member (members_key uuid) x
  same v d1 v1 other x =
      ap (λ u. u.member (members_key uuid) x) v1
      ∙ absent-with_member (members_key uuid) (plain_entry m) (view v.db) x other

  remove_either_lem :
      {v : World Db}
      → Kinded doc kind_of v.db
      → Returns (remove_either uuid (plain_entry m) (manager_entry m)) v (λ found v'.
        (found ≡ was_in uuid m (view v.db))
        × Kinded doc kind_of v'.db
        × ((x : Text)
            → (view v'.db).member (members_key uuid) x
              ≡ (remaining uuid m (view v.db)).member (members_key uuid) x))
  unfolding remove_either
  remove_either_lem {v} k =
      bind_redis doc _ _ (remove_group_member-Does doc k uuid (plain_entry m) ready.members_kind)
        (λ d1 v1 k1. elim (Bool-cases ((view v.db).member (members_key uuid) (plain_entry m))) [
          | inl there ↦
              rw there (pure_step _ (refl, k1, λ x. ap (λ u. u.member (members_key uuid) x) v1))
          | inr other ↦ rw other (
              run_redis doc _
                (remove_group_member-Does doc k1 uuid (manager_entry m) ready.members_kind)
                (λ d2 v2 k2. (
                  same v d1 v1 other (manager_entry m),
                  k2,
                  λ x.
                      ap (λ u. u.member (members_key uuid) x) v2
                      ∙ ap
                          (λ b.
                            if eq_text (members_key uuid) (members_key uuid)
                              && eq_text (manager_entry m) x
                            then false
                            else b)
                          (same v d1 v1 other x),
                )))
        ])

  -- The groups and the managers after the last two steps.
  put_out :
      (v3 : View) {v4 v5 : View}
      → v4 ≡ with_member (groups_key m.username) (group_title m.g_name m.u_name) false v3
      → v5 ≡ without_field (managers_key uuid) m.username v4
      → ((x : Text) → v5.member (members_key uuid) x ≡ v3.member (members_key uuid) x)
        × (v5.member (groups_key m.username) (group_title m.g_name m.u_name) ≡ false)
        × (v5.field (managers_key uuid) m.username ≡ none)
  put_out v3 {v4} e4 e5 = (
    λ x.
        ap (λ v. v.member (members_key uuid) x)
          (e5 ∙ ap (without_field (managers_key uuid) m.username) e4)
        ∙ rw (groups-members m.username uuid [] []) refl,
    ap (λ v. v.member (groups_key m.username) (group_title m.g_name m.u_name))
          (e5 ∙ ap (without_field (managers_key uuid) m.username) e4)
        ∙ rw (eq_text_refl (groups_key m.username), eq_text_refl (group_title m.g_name m.u_name))
            refl,
    ap (λ v. v.field (managers_key uuid) m.username) e5
        ∙ rw (eq_text_refl (managers_key uuid), eq_text_refl m.username) refl,
  )

  -- On a request in the owner's role, where the index has the group and the keys hold their
  -- kinds of value, del_member comes to an end. The members are then those before without the
  -- plain entry of the user, or without the manager's entry where there was no plain one; if the
  -- user had an entry, the group is out of the user's list and the user has no role among the
  -- managers; and the last message written to the socket, if it can be reached, says whether
  -- there was an entry.
  pub del_member_owner_lem :
      m.statue ≡ owner_role
      → Returns (del_member fd m) w (λ _ w'.
        ((x : Text)
          → (view w'.db).member (members_key uuid) x
            ≡ (remaining uuid m (view w.db)).member (members_key uuid) x)
        × (was_in uuid m (view w.db) ≡ true
            → ((view w'.db).member (groups_key m.username) (group_title m.g_name m.u_name) ≡ false)
              × ((view w'.db).field (managers_key uuid) m.username ≡ none))
        × IsAnswer fd
            (with_group Group.delmember (Part.del_member (answered m (was_in uuid m (view w.db)))))
            w')
  unfolding del_member del_by_owner tell_put_out get_group_uuid
  del_member_owner_lem as_owner = bind_fds fd _ (
      bind_redis doc _ _
        (get_groupuuid-Does doc ready.kinded m.u_name m.g_name uuid ready.index_kind ready.indexed)
        (λ d1 v1 k1. bind_now _ (
          rw (as_owner, eq_text_refl owner_role)
            (bind_bind _ _ _ (
              bind_after _ _ _ (remove_either_lem k1) (λ found w2 h. elim (Bool-cases found) [
                | inl there ↦
                    rw (there, sym (h.0 ∙ ap (was_in uuid m) v1) ∙ there)
                      (bind_bind _ _ _ (
                        bind_after _ _ _
                          (tell-OnlyNotice doc fd m.username _ _ _ h.1 ready.notices_kind)
                          (λ _ w3 h3. bind_bind _ _ _ (
                            bind_redis doc _ _
                              (user_remove_groups-Does doc h3.0 m.username m.g_name m.u_name
                                ready.groups_kind)
                              (λ d4 v4 k4. bind_bind _ _ _ (
                                bind_redis doc _ _
                                  (remove_group_manager-Does doc k4 uuid m.username
                                    ready.managers_kind)
                                  (λ d5 v5 k5. bind_pure _ _ (
                                    post_lem fd fd _ (λ sent.
                                      let out = put_out (view w3.db) v4 v5 in
                                      (
                                        λ x.
                                            out.0 x
                                            ∙ ap (λ f. f (members_key uuid) x) h3.1.member
                                            ∙ h.2 x
                                            ∙ ap
                                                (λ v.
                                                  (remaining uuid m v).member (members_key uuid) x)
                                                v1,
                                        λ _. (out.1, out.2),
                                        sent,
                                      ))))))))))
                | inr missing ↦
                    rw (missing, sym (h.0 ∙ ap (was_in uuid m) v1) ∙ missing)
                      (bind_pure _ _ (
                        post_lem fd fd _ (λ sent. (
                          λ x.
                              h.2 x ∙ ap (λ v. (remaining uuid m v).member (members_key uuid) x) v1,
                          λ e. ground arith,
                          sent,
                        ))))
              ]))))))
