-- ===== src/Client/GroupMembers.antt =====
-- send_groups.cc: the commands of a group's menu about its members, and its chat. A loop that reads
-- lines takes fuel, a round for each.
use chatroom.Base.{ℕ, zero, suc, text, eq_text, Bool, not, if◌then◌else◌, ◌>>=◌, ◌>>◌, skip, fault}
use chatroom.Redis.Documented.{contains}
use chatroom.Chat.{Group, Part, with_group}
use chatroom.Chat.Groups.{
  empty_leave_group, empty_add_member, empty_del_member, empty_add_manager, empty_del_manager,
  empty_look_file_request_group,
}
use chatroom.Client.State.{Ui, ClientServices, say, ask, get, change, send}
use chatroom.Client.FriendRequests.{quit}
use chatroom.Client.GroupRequests.{owner_statue}

module _ ⦃s : ClientServices⦄ where
  unfoldable pub leave_group : Ui (Unit {0})
  unfolding text
  leave_group = do
    statue ← get (λ u. u.statue)
    if eq_text statue owner_statue then say (text "\u{1b}[31m群主不能退出群聊,您可以选择解散群聊\u{1b}[0m") else do
      user_name ← get (λ u. u.user_name)
      group_name ← get (λ u. u.group_name)
      send (
          with_group Group.leavegroup (
            Part.leave_group (record empty_leave_group {
              u_name = user_name;
              g_name = group_name;
              statue = statue;
            })))

  unfoldable pub add_member_loop : ℕ → Ui (Unit {0})
  unfolding text
  add_member_loop zero = fault
  add_member_loop (suc fuel) =
      let again = add_member_loop fuel in
      (do
        username ← ask
        own ← get (λ u. u.username)
        friends ← get (λ u. u.friends)
        if eq_text username own
            then (do
              say (text "\u{1b}[36m你已经是群成员了---\u{1b}[0m")
              say (text "\u{1b}[36m请重新输入或退出<quit>...\u{1b}[0m")
              again)
            else if eq_text username quit
            then say (text "\u{1b}[36m正在为您退出---\u{1b}[0m")
            else if not (contains username friends)
            then (do
              say (text "\u{1b}[36m👤你们不是好友---\u{1b}[0m")
              say (text "\u{1b}[36m请重新输入或退出<quit>...\u{1b}[0m")
              again)
            else do
              user_name ← get (λ u. u.user_name)
              group_name ← get (λ u. u.group_name)
              send (
                  with_group Group.addmember (
                    Part.add_member (record empty_add_member {
                      u_name = user_name;
                      g_name = group_name;
                      username = username;
                    }))))

  unfoldable pub add_group_member : ℕ → Ui (Unit {0})
  unfolding text add_member_loop
  add_group_member fuel = do say (text "\u{1b}[36m请输入您好友的名字:\u{1b}[0m"); add_member_loop fuel

  unfoldable pub del_group_member : Ui (Unit {0})
  unfolding text
  del_group_member = do
    say (text "\u{1b}[36m请输入群友的名字:\u{1b}[0m")
    username ← ask
    user_name ← get (λ u. u.user_name)
    group_name ← get (λ u. u.group_name)
    statue ← get (λ u. u.statue)
    send (
        with_group Group.delmember (
          Part.del_member (record empty_del_member {
            u_name = user_name;
            g_name = group_name;
            username = username;
            statue = statue;
          })))

  unfoldable pub disband_group : Ui (Unit {0})
  disband_group = do
    user_name ← get (λ u. u.user_name)
    group_name ← get (λ u. u.group_name)
    send (
        with_group Group.disbandgroup
          (Part.disband_group (record { u_name = user_name; g_name = group_name })))

  unfoldable pub add_group_manager : Ui (Unit {0})
  unfolding text
  add_group_manager = do
    say (text "\u{1b}[36m请输入群友的名字:\u{1b}[0m")
    username ← ask
    user_name ← get (λ u. u.user_name)
    group_name ← get (λ u. u.group_name)
    send (
        with_group Group.addmanager (
          Part.add_manager (record empty_add_manager {
            u_name = user_name;
            g_name = group_name;
            username = username;
          })))

  unfoldable pub del_group_manager : Ui (Unit {0})
  unfolding text
  del_group_manager = do
    say (text "\u{1b}[36m请输入管理员的名字:\u{1b}[0m")
    username ← ask
    user_name ← get (λ u. u.user_name)
    group_name ← get (λ u. u.group_name)
    send (
        with_group Group.delmanager (
          Part.del_manager (record empty_del_manager {
            u_name = user_name;
            g_name = group_name;
            username = username;
          })))

  unfoldable pub look_file_group : Ui (Unit {0})
  look_file_group = do
    username ← get (λ u. u.username)
    user_name ← get (λ u. u.user_name)
    group_name ← get (λ u. u.group_name)
    send (
        with_group Group.lookfilegroup (
          Part.look_file_req_group (record empty_look_file_request_group {
            username = username;
            u_name = user_name;
            g_name = group_name;
          })))

  -- The messages that the user types in the group's chat
  unfoldable pub send_group_msg : ℕ → Ui (Unit {0})
  unfolding text
  send_group_msg zero = fault
  send_group_msg (suc fuel) =
      let again = send_group_msg fuel in
      (do
        name ← get (λ u. u.name)
        user_groups ← get (λ u. u.user_groups)
        if not (contains name user_groups)
            then (do
              say (text "\u{1b}[1;31m您已被群聊踢出,无法进行聊天...")
              say (text "\u{1b}[34m正在为您退出聊天...\u{1b}[0m")
              change (λ u. record u { group_exists = Bool.false }))
            else do
              msg ← ask
              if eq_text msg quit then skip else (do
                username ← get (λ u. u.username)
                user_name ← get (λ u. u.user_name)
                group_name ← get (λ u. u.group_name)
                send (
                    with_group Group.groupmsg (
                      Part.group_chat (record {
                        msg = msg;
                        username = username;
                        u_name = user_name;
                        g_name = group_name;
                      })))
                again))
