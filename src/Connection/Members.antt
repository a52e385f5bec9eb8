-- ===== src/Connection/Members.antt =====
-- connection.cc: del_member, add_member and leave_group.
pub mod Adding
pub mod Removing
pub mod Leaving
use chatroom.Base.{
  ℕ, Text, text, eq_text, Bool, true, false, ◌++◌, ◌||◌, if◌then◌else◌, ◌>>=◌, ◌>>◌, pure, for_each,
}
use chatroom.Chat.{Group, Part, with_group}
use chatroom.Chat.Groups.{
  DelMember, AddMember, LeaveGroup, empty_del_member, empty_del_member_response, empty_add_member,
  empty_leave_group,
}
use chatroom.World.{Act, Services, services_redis, on_redis, fds_at, get_now_text}
use chatroom.RedisClient.Groups.{
  set_group_member, remove_group_member, user_set_groups, user_remove_groups, remove_group_manager,
  get_group_manager, get_group_managers, group_title,
}
use chatroom.UserManager.{get_group_uuid}
use chatroom.Connection.Outbox.{post, tell}
use chatroom.Connection.Groups.{with_role, owner_role, manager_role, member_role}

abbrev refused : DelMember → Text → DelMember
refused m w = record empty_del_member { username = m.username; decide = false; msg = w }

module _ {Db : Type 0} ⦃s : Services Db⦄ where
  -- What the one who was put out is told.
  tell_put_out : ℕ → DelMember → Text → Text → Act Db (Unit {0})
  tell_put_out fd m u time =
      tell fd m.username
        (text "\u{1b}[1;33m您已被"
          ++ (u ++ (text "移出群聊 " ++ (group_title m.g_name m.u_name ++ text "\u{1b}[0m"))))
        time
        (with_group Group.delmemberres (
          Part.del_member_res (record empty_del_member_response {
            g_name = m.g_name;
            u_name = m.u_name;
            username = u;
          })))

  -- removeGroupMember(uuid, username1) || removeGroupMember(uuid, username2)
  remove_either : Text → Text → Text → Act Db Bool
  remove_either uuid username1 username2 = do
    first ← on_redis (remove_group_member uuid username1)
    if first then pure true else on_redis (remove_group_member uuid username2)

  -- The branch statue == "群主"
  del_by_owner : ℕ → DelMember → Text → Text → Text → Act Db DelMember
  unfolding tell_put_out remove_either
  del_by_owner fd m u uuid time = do
    removed ←
        remove_either uuid (with_role m.username member_role) (with_role m.username manager_role)
    if removed
        then (do
          tell_put_out fd m u time
          on_redis (user_remove_groups m.username m.g_name m.u_name)
          on_redis (remove_group_manager uuid m.username)
          pure (record empty_del_member { username = m.username; decide = true }))
        else pure (refused m (text "\u{1b}[31m他(她)不是群成员!\u{1b}[0m"))

  -- The branch statue == "管理员". The names of the group are passed to UserRemoveGroups the other
  -- way round than above.
  del_by_manager : ℕ → DelMember → Text → Text → Text → Act Db DelMember
  unfolding tell_put_out
  del_by_manager fd m u uuid time = do
    p ← on_redis (get_group_manager uuid m.username)
    if eq_text p owner_role || eq_text p manager_role
        then pure (refused m (text "\u{1b}[31m你无权删除他(她)!\u{1b}[0m"))
        else do
          removed ← on_redis (remove_group_member uuid (with_role m.username member_role))
          if removed
              then (do
                tell_put_out fd m u time
                on_redis (user_remove_groups m.username m.u_name m.g_name)
                on_redis (remove_group_manager uuid m.username)
                pure (record empty_del_member { username = m.username; decide = true }))
              else pure (refused m (text "\u{1b}[31m他(她)不是群成员!\u{1b}[0m"))

  -- The role of the one who asks is taken from the message.
  unfoldable pub del_member : ℕ → DelMember → Act Db (Unit {0})
  unfolding del_by_owner del_by_manager
  del_member fd m = do
    u ← fds_at fd
    uuid ← get_group_uuid m.u_name m.g_name
    time ← get_now_text
    answer ←
        if eq_text m.statue owner_role
        then del_by_owner fd m u uuid time
        else if eq_text m.statue manager_role
        then del_by_manager fd m u uuid time
        else pure (record empty_del_member { username = m.username })
    post fd fd (with_group Group.delmember (Part.del_member answer))

  -- The branch in which the member was entered.
  enter_member : ℕ → AddMember → Text → Text → Act Db AddMember
  enter_member fd m u time = do
    tell fd m.username
        (text "\u{1b}[1;33m您已被"
          ++ (u ++ (text "拉入群聊 " ++ (group_title m.g_name m.u_name ++ text "\u{1b}[0m"))))
        time
        (with_group Group.addmemberres
          (Part.add_member_res (record { g_name = m.g_name; u_name = m.u_name; username = u })))
    on_redis (user_set_groups m.username m.u_name m.g_name)
    pure (record empty_add_member { username = m.username; decide = true })

  unfoldable pub add_member : ℕ → AddMember → Act Db (Unit {0})
  unfolding enter_member
  add_member fd m = do
    u ← fds_at fd
    time ← get_now_text
    uuid ← get_group_uuid m.u_name m.g_name
    entered ← on_redis (set_group_member uuid (with_role m.username member_role))
    answer ←
        if entered
        then enter_member fd m u time
        else pure (record empty_add_member {
          username = m.username;
          decide = false;
          msg = text "\u{1b}[31m他(她)已经是群成员了!\u{1b}[0m";
        })
    post fd fd (with_group Group.addmember (Part.add_member answer))

  -- One round of the loop over the managers.
  drop_manager : Text → Text → Text × Text → Act Db (Unit {0})
  drop_manager uuid username (user, statue) =
      if eq_text user username
      then (do on_redis (remove_group_manager uuid username); pure tt)
      else pure tt

  -- The branch in which the member was removed.
  forget_group : LeaveGroup → Text → Text → Act Db LeaveGroup
  unfolding drop_manager
  forget_group m username uuid = do
    managers ← on_redis (get_group_managers uuid)
    for_each managers (drop_manager uuid username)
    on_redis (user_remove_groups username m.g_name m.u_name)
    pure (record empty_leave_group { decide = true })

  unfoldable pub leave_group : ℕ → LeaveGroup → Act Db (Unit {0})
  unfolding forget_group
  leave_group fd m = do
    username ← fds_at fd
    uuid ← get_group_uuid m.u_name m.g_name
    removed ← on_redis (remove_group_member uuid (with_role username m.statue))
    answer ←
        if removed
        then forget_group m username uuid
        else pure (record empty_leave_group { decide = false })
    post fd fd (with_group Group.leavegroup (Part.leave_group answer))
