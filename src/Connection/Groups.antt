-- ===== src/Connection/Groups.antt =====
-- connection.cc: add_group and disband_froup.
pub mod Entries
pub mod Creating
use chatroom.Base.{
  ℕ, Text, text, true, false, [], ◌∷◌, ◌++◌, if◌then◌else◌, ◌>>=◌, ◌>>◌, pure, for_each,
}
use chatroom.Chat.{Group, Part, with_group}
use chatroom.Chat.Groups.{AddGroup, empty_add_group}
use chatroom.World.{Act, Services, services_redis, on_redis, get_now_text}
use chatroom.RedisClient.Groups.{
  add_group as store_group, group_exists, set_group_member, user_set_groups, set_group_manager,
  get_group_member, user_remove_groups, del_group, del_group_manager, del_group_member, group_title,
}
use chatroom.RedisClient.Lists.{before_colon}
use chatroom.UserManager.{get_group_uuid}
use chatroom.Protocol.Uuid.{generate_uuid}
use chatroom.Connection.Outbox.{post, tell}

-- The roles, and a member of a group as the set of its members holds it.
unfoldable pub owner_role : Text
unfolding text
owner_role = text "群主"

unfoldable pub manager_role : Text
unfolding text
manager_role = text "管理员"

unfoldable pub member_role : Text
unfolding text
member_role = text "成员"

unfoldable pub with_role : Text → Text → Text
unfolding text
with_role username role = username ++ (text ":" ++ role)

module _ {Db : Type 0} ⦃s : Services Db⦄ where
  -- The answer where the group can be created, and what creates it.
  create_group : Text → Text → Text → Act Db AddGroup
  create_group username g_name time = do
    uuid ← generate_uuid
    on_redis (
        store_group uuid username g_name
          ((text "username", username) ∷ (text "groupname", g_name) ∷ (text "ttime", time) ∷ []))
    on_redis (set_group_member uuid (with_role username owner_role))
    on_redis (user_set_groups username username g_name)
    on_redis (set_group_manager uuid ((username, owner_role) ∷ []))
    pure (record empty_add_group {
      time = time;
      msg = text "\u{1b}[32m群聊创建成功!\u{1b}[0m";
      username = username;
      group_name = g_name;
      success = true;
    })

  unfoldable pub add_group : ℕ → AddGroup → Act Db (Unit {0})
  unfolding create_group
  add_group fd m = do
    time ← get_now_text
    there ← on_redis (group_exists m.username m.group_name)
    answer ←
        if there
        then pure (record empty_add_group {
          time = time;
          success = false;
          msg = text "\u{1b}[31m已创建过此群聊❌\u{1b}[0m";
        })
        else create_group m.username m.group_name time
    post fd fd (with_group Group.addgroup (Part.add_group answer))

  -- One round of the loop over the members.
  dismiss : ℕ → Text → Text → Text → Text → Act Db (Unit {0})
  dismiss fd g_name u_name time member = do
    let mem = before_colon member
    on_redis (user_remove_groups mem g_name u_name)
    tell fd mem (text "\u{1b}[1;33m群聊 " ++ (group_title g_name u_name ++ text " 已解散\u{1b}[0m")) time
        (with_group Group.disbandgroup
          (Part.disband_group (record { g_name = g_name; u_name = u_name })))

  unfoldable pub disband_froup : ℕ → Text → Text → Act Db (Unit {0})
  unfolding dismiss
  disband_froup fd g_name u_name = do
    time ← get_now_text
    uuid ← get_group_uuid u_name g_name
    members ← on_redis (get_group_member uuid)
    for_each members (dismiss fd g_name u_name time)
    on_redis (del_group uuid u_name g_name)
    on_redis (user_remove_groups u_name g_name u_name)
    on_redis (del_group_manager uuid)
    on_redis (del_group_member uuid)
    pure tt
