-- ===== src/Connection/Managers.antt =====
-- connection.cc: add_manager and del_manager.
pub mod Branches
pub mod Roles
use chatroom.Base.{ℕ, Text, text, true, false, [], ◌∷◌, ◌++◌, if◌then◌else◌, ◌>>=◌, ◌>>◌, pure}
use chatroom.Chat.{Group, Part, with_group}
use chatroom.Chat.Groups.{AddManager, DelManager, empty_add_manager, empty_del_manager}
use chatroom.World.{Act, Services, services_redis, on_redis, fds_at, get_now_text}
use chatroom.RedisClient.Groups.{
  set_group_member, remove_group_member, set_group_manager, remove_group_manager, group_title,
}
use chatroom.UserManager.{get_group_uuid}
use chatroom.Connection.Outbox.{post, tell}
use chatroom.Connection.Groups.{with_role, manager_role, member_role}

module _ {Db : Type 0} ⦃s : Services Db⦄ where
  -- The branch in which the new manager was entered.
  pub promote : ℕ → AddManager → Text → Text → Text → Act Db AddManager
  promote fd m u uuid time = do
    on_redis (remove_group_member uuid (with_role m.username member_role))
    on_redis (set_group_member uuid (with_role m.username manager_role))
    tell fd m.username
        (text "\u{1b}[1;33m您已被"
          ++ (u ++ (text "设为 " ++ (group_title m.g_name m.u_name ++ text " 的管理员\u{1b}[0m"))))
        time
        (with_group Group.addmanagerres (
          Part.add_manager
            (record empty_add_manager { g_name = m.g_name; u_name = m.u_name; username = u })))
    pure (record empty_add_manager {
      g_name = m.g_name;
      u_name = m.u_name;
      username = m.username;
      decide = true;
    })

  unfoldable pub add_manager : ℕ → AddManager → Act Db (Unit {0})
  unfolding promote
  add_manager fd m = do
    u ← fds_at fd
    time ← get_now_text
    uuid ← get_group_uuid m.u_name m.g_name
    entered ← on_redis (set_group_manager uuid ((m.username, manager_role) ∷ []))
    answer ←
        if entered
        then promote fd m u uuid time
        else pure (record empty_add_manager {
          g_name = m.g_name;
          u_name = m.u_name;
          username = m.username;
          decide = false;
          msg = text "\u{1b}[1;33m他(她)不在群聊中或者他(她)已经是管理员了!\u{1b}[0m";
        })
    post fd fd (with_group Group.addmanager (Part.add_manager answer))

  -- The branch in which the manager was removed.
  pub demote : ℕ → DelManager → Text → Text → Text → Act Db DelManager
  demote fd m u uuid time = do
    on_redis (remove_group_member uuid (with_role m.username manager_role))
    on_redis (set_group_member uuid (with_role m.username member_role))
    tell fd m.username
        (text "\u{1b}[1;33m您已被"
          ++ (u ++ (text "移除 " ++ (group_title m.g_name m.u_name ++ text " 管理员\u{1b}[0m"))))
        time
        (with_group Group.delmanagerres (
          Part.del_manager
            (record empty_del_manager { g_name = m.g_name; u_name = m.u_name; username = u })))
    pure (record empty_del_manager {
      g_name = m.g_name;
      u_name = m.u_name;
      username = m.username;
      decide = true;
    })

  unfoldable pub del_manager : ℕ → DelManager → Act Db (Unit {0})
  unfolding demote
  del_manager fd m = do
    u ← fds_at fd
    time ← get_now_text
    uuid ← get_group_uuid m.u_name m.g_name
    removed ← on_redis (remove_group_manager uuid m.username)
    answer ←
        if removed
        then demote fd m u uuid time
        else pure (record empty_del_manager {
          g_name = m.g_name;
          u_name = m.u_name;
          username = m.username;
          decide = false;
          msg = text "\u{1b}[1;33m他(她)不在群聊中或者他(她)不是管理员!\u{1b}[0m";
        })
    post fd fd (with_group Group.delmanager (Part.del_manager answer))
