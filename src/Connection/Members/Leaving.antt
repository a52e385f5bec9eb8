-- ===== src/Connection/Members/Leaving.antt =====
-- leave_group of connection.cc.
use chatroom.Base.{
  ℕ, ◌≡◌, refl, ap, ◌∙◌, Text, eq_text, eq_text_refl, text_eq, Bool, true, false, not, ◌&&◌, List,
  [], ◌∷◌, Option, none, some, arith, at, nat_eq, if◌then◌else◌, Returns, Returns-mono, bind_pure,
  bind_bind, bind_after, pure_step, Bool-cases, inl, inr, for_each, lookup,
}
use chatroom.Chat.{Group, Part, with_group}
use chatroom.Chat.Groups.{LeaveGroup, empty_leave_group}
use chatroom.Redis.Documented.{Documented, Kind, hashes, View, is_some, with_member, without_field}
use chatroom.RedisClient.Kinded.{Kinded}
use chatroom.RedisClient.Keys.{members_key, managers_key, groups_key}
use chatroom.RedisClient.Keys.Apart.{groups-members}
use chatroom.RedisClient.Groups.{group_title}
use chatroom.RedisClient.Effects.{
  get_groupuuid-Does, remove_group_member-Does, remove_group_manager-Does, user_remove_groups-Does,
  get_group_managers-Does,
}
use chatroom.World.{World, Services, services_redis}
use chatroom.UserManager.{get_group_uuid}
use chatroom.Connection.Groups.{with_role}
use chatroom.Connection.Ready.{Ready}
use chatroom.Connection.Rules.{IsAnswer, post_lem, bind_redis, bind_fds}
use chatroom.Connection.Members.{leave_group, forget_group, drop_manager}

gone :
    (uuid username : Text) (v : View)
    → (without_field (managers_key uuid) username v).field (managers_key uuid) username ≡ none
gone uuid username v = rw (eq_text_refl (managers_key uuid), eq_text_refl username) refl

either : (b : Bool) → if◌then◌else◌ {A = Option Text} b none none ≡ none
either true = refl
either false = refl

-- Whoever was found among the managers has been removed, and nobody else was there.
removed_or_absent : (o : Option Text) → (if is_some o then none else o) ≡ none
removed_or_absent none = refl
removed_or_absent (some role) = refl

module _ {Db : Type 0} ⦃s : Services Db⦄ (doc : Documented s.redis) {kind_of : Text → Kind}
    (uuid username : Text) (managers_kind : kind_of (managers_key uuid) ≡ hashes) where
  open doc use {view}

  -- The loop over the managers.
  drop_managers_lem :
      (ps : List (Text × Text)) (w : World Db)
      → Kinded doc kind_of w.db
      → Returns (for_each ps (drop_manager uuid username)) w (λ _ w'.
        Kinded doc kind_of w'.db
        × ((view w'.db).member ≡ (view w.db).member)
        × ((view w'.db).field (managers_key uuid) username ≡ (
            if is_some (lookup username ps)
            then none
            else (view w.db).field (managers_key uuid) username)))
  unfolding for_each drop_manager lookup
  drop_managers_lem [] w k = pure_step tt (k, refl, refl)
  drop_managers_lem ((user, statue) ∷ ps) w k = elim (Bool-cases (eq_text user username)) [
    | inl same ↦ rw same (
        bind_bind _ _ _ (
          bind_redis doc _ _ (remove_group_manager-Does doc k uuid username managers_kind)
            (λ d1 v1 k1. bind_pure _ _ (
              Returns-mono (drop_managers_lem ps (record w { db = d1 }) k1) (λ _ w' h. (
                h.0,
                h.1 ∙ ap (λ v. v.member) v1,
                h.2
                    ∙ ap (λ o. if is_some (lookup username ps) then none else o)
                        (ap (λ v. v.field (managers_key uuid) username) v1
                          ∙ gone uuid username (view w.db))
                    ∙ either (is_some (lookup username ps)),
              ))))))
    | inr other ↦ rw other (bind_pure _ _ (drop_managers_lem ps w k))
  ]

without-member :
    (k a : Text) (v : View) (x : Text)
    → (with_member k a false v).member k x ≡ (not (eq_text a x) && v.member k x)
without-member k a v x = ground (arith, eq_text_refl k)

-- What the one who leaves is answered.
abbrev pub left_as : Bool → LeaveGroup
left_as found = record empty_leave_group { decide = found }

module _ {Db : Type 0} ⦃s : Services Db⦄ (doc : Documented s.redis) (kind_of : Text → Kind)
    (w : World Db) (fd : ℕ) (uuid : Text) (m : LeaveGroup)
    (ready : Ready doc kind_of w m.u_name m.g_name (at fd [] w.fds) uuid) where
  open doc use {view}

  abbrev leaver : Text
  leaver = at fd [] w.fds

  -- The groups of the one who leaves after the last step.
  unlisted :
      (v3 : View) {v4 : View}
      → v4 ≡ with_member (groups_key leaver) (group_title m.g_name m.u_name) false v3
      → ((x : Text) → v4.member (members_key uuid) x ≡ v3.member (members_key uuid) x)
        × (v4.member (groups_key leaver) (group_title m.g_name m.u_name) ≡ false)
        × (v4.field (managers_key uuid) leaver ≡ v3.field (managers_key uuid) leaver)
  unlisted v3 e = (
    λ x. ap (λ v. v.member (members_key uuid) x) e ∙ rw (groups-members leaver uuid [] []) refl,
    ap (λ v. v.member (groups_key leaver) (group_title m.g_name m.u_name)) e
        ∙ rw (eq_text_refl (groups_key leaver), eq_text_refl (group_title m.g_name m.u_name)) refl,
    ap (λ v. v.field (managers_key uuid) leaver) e,
  )

  -- The branch of success: no trace of the user is left but the members.
  forget_group_lem :
      (v : World Db)
      → Kinded doc kind_of v.db
      → Returns (forget_group m leaver uuid) v (λ answer w'.
        (answer ≡ left_as true)
        × ((x : Text)
            → (view w'.db).member (members_key uuid) x ≡ (view v.db).member (members_key uuid) x)
        × ((view w'.db).member (groups_key leaver) (group_title m.g_name m.u_name) ≡ false)
        × ((view w'.db).field (managers_key uuid) leaver ≡ none))
  unfolding forget_group
  forget_group_lem v k =
      let found = get_group_managers-Does doc k uuid ready.managers_kind in
      bind_redis doc _ _ found.3 (λ d3 v3 k3.
        bind_after _ _ _ (drop_managers_lem doc uuid leaver ready.managers_kind found.0 _ k3)
          (λ _ w4 h.
            bind_redis doc _ _
              (user_remove_groups-Does doc h.0 leaver m.g_name m.u_name ready.groups_kind)
              (λ d5 v5 k5.
                let out = unlisted (view w4.db) v5 in
                pure_step _ (
                  refl,
                  λ x.
                      out.0 x
                      ∙ ap (λ f. f (members_key uuid) x) h.1
                      ∙ ap (λ u. u.member (members_key uuid) x) v3,
                  out.1,
                  out.2
                      ∙ h.2
                      ∙ ap
                          (λ o.
                            if is_some o then none else (view d3).field (managers_key uuid) leaver)
                          (found.1 leaver)
                      ∙ ap
                          (λ u.
                            if is_some ((view v.db).field (managers_key uuid) leaver)
                            then none
                            else u.field (managers_key uuid) leaver)
                          v3
                      ∙ removed_or_absent ((view v.db).field (managers_key uuid) leaver),
                ))))

  taken_out :
      (d1 d2 : Db)
      → view d1 ≡ view w.db
      → view d2 ≡ with_member (members_key uuid) (with_role leaver m.statue) false (view d1)
      → (x : Text)
      → (view d2).member (members_key uuid) x
        ≡ (not (eq_text (with_role leaver m.statue) x) && (view w.db).member (members_key uuid) x)
  taken_out d1 d2 v1 v2 x =
      ap (λ v. v.member (members_key uuid) x)
        (v2 ∙ ap (with_member (members_key uuid) (with_role leaver m.statue) false) v1)
      ∙ without-member (members_key uuid) (with_role leaver m.statue) (view w.db) x

  -- Where the index has the group and the keys hold their kinds of value, leave_group comes to
  -- an end. The members are then those before without the entry of the user of the socket in the
  -- role that the message names; if that entry was there, the group is out of the user's list
  -- and the user has no role among the managers; and the last message written to the socket, if
  -- it can be reached, says whether it was there.
  pub leave_group_lem : Returns (leave_group fd m) w (λ _ w'.
      ((x : Text)
        → (view w'.db).member (members_key uuid) x ≡ (
            not (eq_text (with_role (at fd [] w.fds) m.statue) x)
            && (view w.db).member (members_key uuid) x))
      × ((view w.db).member (members_key uuid) (with_role (at fd [] w.fds) m.statue) ≡ true
          → ((view w'.db).member (groups_key (at fd [] w.fds)) (group_title m.g_name m.u_name)
              ≡ false)
            × ((view w'.db).field (managers_key uuid) (at fd [] w.fds) ≡ none))
      × IsAnswer fd
          (with_group Group.leavegroup (
            Part.leave_group (
              left_as
                ((view w.db).member (members_key uuid) (with_role (at fd [] w.fds) m.statue)))))
          w')
  unfolding leave_group forget_group get_group_uuid
  leave_group_lem = bind_fds fd _ (
      bind_redis doc _ _
        (get_groupuuid-Does doc ready.kinded m.u_name m.g_name uuid ready.index_kind ready.indexed)
        (λ d1 v1 k1.
          bind_redis doc _ _
            (remove_group_member-Does doc k1 uuid (with_role leaver m.statue) ready.members_kind)
            (λ d2 v2 k2.
              elim (Bool-cases
                ((view w.db).member (members_key uuid) (with_role leaver m.statue))) [
                  | inr absent ↦
                      rw
                        (
                          ap (λ v. v.member (members_key uuid) (with_role leaver m.statue)) v1
                              ∙ absent,
                          absent,
                        )
                        (bind_pure _ _ (
                          post_lem fd fd _
                            (λ sent. (taken_out d1 d2 v1 v2, λ e. ground arith, sent))))
                  | inl there ↦
                      rw
                        (
                          ap (λ v. v.member (members_key uuid) (with_role leaver m.statue)) v1
                              ∙ there,
                          there,
                        )
                        (bind_after _ _ _ (forget_group_lem _ k2) (λ answer w5 h. rw h.0 (
                          post_lem fd fd _ (λ sent.
                            (λ x. h.1 x ∙ taken_out d1 d2 v1 v2 x, λ _. (h.2, h.3), sent)))))
                ])))
