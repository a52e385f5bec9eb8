-- ===== src/Connection/Managers/Roles.antt =====
-- connection.cc: add_manager and del_manager.
use chatroom.Base.{
  ℕ, ◌≡◌, ap, ◌∙◌, Text, eq_text, not, ◌&&◌, ◌||◌, [], ◌∷◌, none, some, nat_eq, text_eq,
  if◌then◌else◌, Returns, bind_after, bind_pure, Bool-cases, inl, inr,
}
use chatroom.Chat.{Group, Part, with_group}
use chatroom.Chat.Groups.{AddManager, DelManager}
use chatroom.Redis.Documented.{Documented, Kind, is_some, with_fields, without_field}
use chatroom.RedisClient.Keys.{members_key, managers_key}
use chatroom.RedisClient.Effects.{
  get_groupuuid-Does, set_group_manager-Does, remove_group_manager-Does,
}
use chatroom.World.{World, Services, services_redis}
use chatroom.UserManager.{get_group_uuid}
use chatroom.Connection.Groups.{with_role, member_role, manager_role}
use chatroom.Connection.Rules.{IsAnswer, post_lem, bind_redis, bind_fds, bind_now}
use chatroom.Connection.Ready.{Ready}
use chatroom.Connection.Managers.{add_manager, del_manager, promote, demote}
use chatroom.Connection.Managers.Branches.{
  field-with_fields, field-without_field, promoted, demoted, promote_lem, demote_lem,
}

module _ {Db : Type 0} ⦃s : Services Db⦄ (doc : Documented s.redis) (kind_of : Text → Kind)
    (w : World Db) (fd : ℕ) (uuid : Text) where
  open doc use {view}

  -- Where the index has the group and the keys hold their kinds of value, add_manager comes to
  -- an end, and the user then has the manager's role, whatever role was there. Where there was
  -- none, the members get the user's entry as a manager in place of the plain one, and else they
  -- stay; the last message written to the socket, if it can be reached, says which.
  pub add_manager_lem :
      (m : AddManager)
      → Ready doc kind_of w m.u_name m.g_name m.username uuid
      → Returns (add_manager fd m) w (λ _ w'.
        ((view w'.db).field (managers_key uuid) m.username ≡ some manager_role)
        × ((x : Text)
            → (view w'.db).member (members_key uuid) x ≡ (
                if is_some ((view w.db).field (managers_key uuid) m.username)
                then (view w.db).member (members_key uuid) x
                else eq_text (with_role m.username manager_role) x
                  || not (eq_text (with_role m.username member_role) x)
                    && (view w.db).member (members_key uuid) x))
        × IsAnswer fd
            (with_group Group.addmanager (
              Part.add_manager
                (promoted m (is_some ((view w.db).field (managers_key uuid) m.username)))))
            w')
  unfolding add_manager promote get_group_uuid
  add_manager_lem m ready = bind_fds fd _ (
      bind_now _ (
        bind_redis doc _ _
          (get_groupuuid-Does doc ready.kinded m.u_name m.g_name uuid ready.index_kind
            ready.indexed)
          (λ d1 v1 k1.
            bind_redis doc _ _
              (set_group_manager-Does doc k1 uuid ((m.username, manager_role) ∷ [])
                ready.managers_kind)
              (λ d2 v2 k2.
                elim (Bool-cases (is_some ((view w.db).field (managers_key uuid) m.username))) [
                  | inl there ↦
                      rw
                        (
                          ap (λ v. is_some (v.field (managers_key uuid) m.username)) v1 ∙ there,
                          there,
                        )
                        (bind_pure _ _ (
                          post_lem fd fd _ (λ sent. (
                            ap (λ v. v.field (managers_key uuid) m.username) v2
                                ∙ field-with_fields (managers_key uuid) m.username manager_role
                                    (view d1),
                            λ x.
                                ap (λ v. v.member (members_key uuid) x)
                                  (v2
                                    ∙ ap
                                        (with_fields (managers_key uuid)
                                          ((m.username, manager_role) ∷ []))
                                        v1),
                            sent,
                          ))))
                  | inr new ↦
                      rw (ap (λ v. is_some (v.field (managers_key uuid) m.username)) v1 ∙ new, new)
                        (bind_after _ _ _
                          (promote_lem doc kind_of fd uuid m _ _ _ k2 ready.members_kind
                            ready.notices_kind)
                          (λ answer w5 h. rw h.0 (
                            post_lem fd fd _ (λ sent. (
                              h.1
                                  ∙ ap (λ v. v.field (managers_key uuid) m.username) v2
                                  ∙ field-with_fields (managers_key uuid) m.username manager_role
                                      (view d1),
                              λ x.
                                  h.2 x
                                  ∙ ap
                                      (λ v.
                                        eq_text (with_role m.username manager_role) x
                                        || not (eq_text (with_role m.username member_role) x)
                                          && v.member (members_key uuid) x)
                                      (v2
                                        ∙ ap
                                            (with_fields (managers_key uuid)
                                              ((m.username, manager_role) ∷ []))
                                            v1),
                              sent,
                            )))))
                ]))))

  -- Where the index has the group and the keys hold their kinds of value, del_manager comes to
  -- an end, and the user then has no role among the managers. Where there was one, the members
  -- get the user's plain entry in place of the manager's, and else they stay; the last message
  -- written to the socket, if it can be reached, says which.
  pub del_manager_lem :
      (m : DelManager)
      → Ready doc kind_of w m.u_name m.g_name m.username uuid
      → Returns (del_manager fd m) w (λ _ w'.
        ((view w'.db).field (managers_key uuid) m.username ≡ none)
        × ((x : Text)
            → (view w'.db).member (members_key uuid) x ≡ (
                if is_some ((view w.db).field (managers_key uuid) m.username)
                then eq_text (with_role m.username member_role) x
                  || not (eq_text (with_role m.username manager_role) x)
                    && (view w.db).member (members_key uuid) x
                else (view w.db).member (members_key uuid) x))
        × IsAnswer fd
            (with_group Group.delmanager (
              Part.del_manager
                (demoted m (is_some ((view w.db).field (managers_key uuid) m.username)))))
            w')
  unfolding del_manager demote get_group_uuid
  del_manager_lem m ready = bind_fds fd _ (
      bind_now _ (
        bind_redis doc _ _
          (get_groupuuid-Does doc ready.kinded m.u_name m.g_name uuid ready.index_kind
            ready.indexed)
          (λ d1 v1 k1.
            bind_redis doc _ _
              (remove_group_manager-Does doc k1 uuid m.username ready.managers_kind)
              (λ d2 v2 k2.
                elim (Bool-cases (is_some ((view w.db).field (managers_key uuid) m.username))) [
                  | inr none_there ↦
                      rw
                        (
                          ap (λ v. is_some (v.field (managers_key uuid) m.username)) v1
                              ∙ none_there,
                          none_there,
                        )
                        (bind_pure _ _ (
                          post_lem fd fd _ (λ sent. (
                            ap (λ v. v.field (managers_key uuid) m.username) v2
                                ∙ field-without_field (managers_key uuid) m.username (view d1),
                            λ x.
                                ap (λ v. v.member (members_key uuid) x)
                                  (v2 ∙ ap (without_field (managers_key uuid) m.username) v1),
                            sent,
                          ))))
                  | inl there ↦
                      rw
                        (
                          ap (λ v. is_some (v.field (managers_key uuid) m.username)) v1 ∙ there,
                          there,
                        )
                        (bind_after _ _ _
                          (demote_lem doc kind_of fd uuid m _ _ _ k2 ready.members_kind
                            ready.notices_kind)
                          (λ answer w5 h. rw h.0 (
                            post_lem fd fd _ (λ sent. (
                              h.1
                                  ∙ ap (λ v. v.field (managers_key uuid) m.username) v2
                                  ∙ field-without_field (managers_key uuid) m.username (view d1),
                              λ x.
                                  h.2 x
                                  ∙ ap
                                      (λ v.
                                        eq_text (with_role m.username member_role) x
                                        || not (eq_text (with_role m.username manager_role) x)
                                          && v.member (members_key uuid) x)
                                      (v2 ∙ ap (without_field (managers_key uuid) m.username) v1),
                              sent,
                            )))))
                ]))))
