-- ===== src/Client/FriendRequests.antt =====
-- send_friends.cc: the commands about friends. A loop that reads lines takes fuel, a round for each.
use chatroom.Base.{
  ℕ, zero, suc, Text, text, eq_text, Bool, false, ◌||◌, not, Option, none, some, if◌then◌else◌,
  ◌==◌, ◌++◌, ◌>>=◌, ◌>>◌, skip, pure, fault, text_eq, drop,
}
use chatroom.Redis.Documented.{contains}
use chatroom.RedisClient.Lists.{rfind}
use chatroom.Chat.{Actions, Part, with_action}
use chatroom.Chat.Friends.{
  empty_friend_lists, empty_user_request, empty_add_friend_response, empty_offline_msg,
  empty_look_file_request,
}
use chatroom.Client.State.{
  UserChat, Ui, ClientServices, insert, remove, say, ask, ask_number, get, change, send, now,
}
use chatroom.Client.Friends.{is_empty}

-- std::filesystem::path(path).filename()
unfoldable pub base_name : Text → Text
base_name path = elim (rfind b'/' path) [ none ↦ path | some i ↦ drop (suc i) path ]

abbrev pub quit : Text
unfolding text
quit = text "quit"

abbrev is_quit : Text → Bool
unfolding text
is_quit s = eq_text s (text "quit") || eq_text s (text "QUIT")

module _ ⦃s : ClientServices⦄ where
  unfoldable pub send_login : Ui (Unit {0})
  send_login = do
    username ← get (λ u. u.username)
    send (with_action Actions.login (Part.log (record { login = false; username = username })))

  unfoldable pub send_list : Ui (Unit {0})
  send_list = do
    username ← get (λ u. u.username)
    send (with_action Actions.fdlist (Part.friends (record empty_friend_lists { name = username })))

  unfoldable pub send_add_friend : Ui (Unit {0})
  unfolding text
  send_add_friend = do
    say (text "\u{1b}[34m👤请输入用户的名字吧:\u{1b}[0m")
    f_name ← ask
    username ← get (λ u. u.username)
    friends ← get (λ u. u.friends)
    if eq_text f_name username
        then say (text "\u{1b}[31m❌不可以跟自己加好友!!! \u{1b}[0m")
        else if contains f_name friends
        then (do
          say (text "\u{1b}[36m👤你们已经是好友了---\u{1b}[0m")
          say (text "\u{1b}[36m按<Enter>退出---\u{1b}[0m")
          ask
          skip)
        else do
          time ← now
          send (
              with_action Actions.addfdreq (
                Part.friend_req
                  (record { from_username = username; to_username = f_name; time = time })))
          say (text "\u{1b}[34m已发送---\u{1b}[0m")

  unfoldable pub handle_req : Ui (Unit {0})
  handle_req = do
    username ← get (λ u. u.username)
    send
        (with_action Actions.userntf (Part.req (record empty_user_request { username = username })))

  -- chat_tools.cc: the two messages that an answer consists of
  unfoldable pub delete_add_friend : Text → Ui (Unit {0})
  delete_add_friend name =
      send
        (with_action Actions.unuserntf (Part.req (record empty_user_request { username = name })))

  unfoldable pub send_decision : Text → ℕ → Ui (Unit {0})
  send_decision to_name select = do
    username ← get (λ u. u.username)
    send (
        with_action Actions.addfdres (
          Part.friend_res (record empty_add_friend_response {
            to_name = to_name;
            decide = select == 1;
            from_name = username;
          })))

  -- What the chosen number does.
  unfoldable pub settle_request : Text → ℕ → Ui (Unit {0})
  unfolding text
  settle_request name select =
      if select == 1
      then (do
        send_decision name select
        change (λ u. record u { friends = insert name u.friends }))
      else if select == 2
      then send_decision name select
      else if select == 0
      then say (text "\u{1b}[34m已删除\u{1b}[0m")
      else skip

  unfoldable pub decide_loop : ℕ → Ui (Unit {0})
  unfolding text settle_request
  decide_loop zero = fault
  decide_loop (suc fuel) =
      let again = decide_loop fuel in
      (do
        name ← ask
        friend_res ← get (λ u. u.friend_res)
        if is_quit name
            then skip
            else if not (contains name friend_res)
            then (do
              say (text "\u{1b}[31m你输入的名字不在未处理消息中.")
              say (text "请重新输入:\u{1b}[0m")
              say (text "\u{1b}[34m您也可以输入<quit>/<QUIT>进行退出\u{1b}[0m")
              again)
            else do
              say (
                  text "\u{1b}[33m同意(1)  拒绝(2)  不作处理并删除(0)\u{1b}[0m"
                  ++ text "\u{1b}[33m请作出您的选择：\u{1b}[0m")
              select ← ask_number
              settle_request name select
              delete_add_friend name
              say (text "\u{1b}[34m👤您可以输入继续输入用户名称进行操作;\u{1b}[0m")
              say (text "\u{1b}[34m您也可以输入<quit>/<QUIT>进行退出\u{1b}[0m")
              buf ← ask
              if is_quit buf then skip else again)

  unfoldable pub decide_add_friend : ℕ → Ui (Unit {0})
  unfolding text decide_loop
  decide_add_friend fuel = do say (text "\u{1b}[34m👤可以输入你要处理的用户名了:\u{1b}[0m"); decide_loop fuel

  unfoldable pub send_delete_friend : ℕ → Ui (Unit {0})
  unfolding text
  send_delete_friend zero = fault
  send_delete_friend (suc fuel) =
      let again = send_delete_friend fuel in
      (do
        say (text "\u{1b}[34m请输入你要删除的好友:\u{1b}[0m")
        to_name ← ask
        friends ← get (λ u. u.friends)
        if contains to_name friends
            then (do
              change (λ u. record u { friends = remove to_name u.friends })
              username ← get (λ u. u.username)
              time ← now
              send (
                  with_action Actions.delfdreq (
                    Part.friend_del_req
                      (record { from_name = username; to_name = to_name; time = time }))))
            else if is_quit to_name
            then skip
            else do
              say (text "\u{1b}[31m好友不存在,请重新输入!\u{1b}[0m")
              say (text "\u{1b}[34m您也可以选择输入<quit>/<QUIT>退出.\u{1b}[0m")
              again)

  -- The loop variable hides the name that was typed: any name will do for a user who has a friend.
  unfoldable pub offline_loop : ℕ → Ui (Option Text)
  unfolding text
  offline_loop zero = fault
  offline_loop (suc fuel) =
      let again = offline_loop fuel in
      (do
        name ← ask
        friends ← get (λ u. u.friends)
        if eq_text name quit
            then pure none
            else if is_empty friends
            then (do say (text "\u{1b}[31m他(她)好像不是您的好友\n请重新输入或退出(quit)\u{1b}[0m"); again)
            else pure (some name))

  unfoldable pub send_offline : ℕ → Ui (Unit {0})
  unfolding text offline_loop
  send_offline fuel = do
    say (text "\u{1b}[34m请输入你要查看的好友:\u{1b}[0m")
    chosen ← offline_loop fuel
    elim chosen [
      | none ↦ skip
      | some name ↦ (do
        username ← get (λ u. u.username)
        send (
            with_action Actions.offlinemsg
              (Part.off_msg (record empty_offline_msg { username = username; name = name }))))
    ]

  -- friends_block.erase(name); friends_block.insert(name);
  unfoldable pub block_again : Text → UserChat → UserChat
  block_again name u = record u { friends_block = insert name (remove name u.friends_block) }

  unfoldable pub unblock_loop : ℕ → Ui (Unit {0})
  unfolding text block_again
  unblock_loop zero = fault
  unblock_loop (suc fuel) =
      let again = unblock_loop fuel in
      (do
        name ← ask
        friends ← get (λ u. u.friends)
        friends_block ← get (λ u. u.friends_block)
        if eq_text name quit
            then skip
            else if not (contains name friends)
            then (do say (text "\u{1b}[31m他(她)好像不是您的好友\n请重新输入或退出(quit)\u{1b}[0m"); again)
            else if not (contains name friends_block)
            then (do say (text "\u{1b}[31m他(她)没有被您屏蔽\n重新输入或退出(quit)\u{1b}[0m"); again)
            else do
              change (block_again name)
              send (with_action Actions.unblockfriend (Part.block_friend (record { name = name })))
              again)

  unfoldable pub unblock_friend : ℕ → Ui (Unit {0})
  unfolding text
  unblock_friend fuel = do say (text "\u{1b}[34m请输入你要解除屏蔽的好友\u{1b}[0m"); unblock_loop fuel

  unfoldable pub block_loop : ℕ → Ui (Unit {0})
  unfolding text
  block_loop zero = fault
  block_loop (suc fuel) =
      let again = block_loop fuel in
      (do
        name ← ask
        friends ← get (λ u. u.friends)
        friends_block ← get (λ u. u.friends_block)
        if eq_text name quit
            then skip
            else if not (contains name friends)
            then (do say (text "\u{1b}[31m他(她)好像不是您的好友\n请重新输入或退出(quit)\u{1b}[0m"); again)
            else if contains name friends_block
            then (do say (text "\u{1b}[31m他(她)已被您屏蔽\n重新输入或退出(quit)\u{1b}[0m"); again)
            else do
              change (λ u. record u { friends_block = insert name u.friends_block })
              send (with_action Actions.blockfriend (Part.block_friend (record { name = name })))
              say (text "\u{1b}[1;32m屏蔽成功!\u{1b}[0m"))

  unfoldable pub block_friend : ℕ → Ui (Unit {0})
  unfolding text block_loop
  block_friend fuel = do say (text "\u{1b}[34m请输入你要屏蔽的好友\u{1b}[0m"); block_loop fuel

  unfoldable pub look_file : Ui (Unit {0})
  look_file = do
    username ← get (λ u. u.username)
    send (
        with_action Actions.lookfile
          (Part.file_req (record empty_look_file_request { username = username })))

  -- send_msg, chat1: the messages that the user types in a chat with `to_name`
  unfoldable pub send_msg : ℕ → Text → Ui (Unit {0})
  unfolding text
  send_msg zero to_name = fault
  send_msg (suc fuel) to_name =
      let again = send_msg fuel to_name in
      (do
        friends ← get (λ u. u.friends)
        friends_by_block ← get (λ u. u.friends_by_block)
        if not (contains to_name friends)
            then (do say (text "\u{1b}[31m您已被好友删除,无法进行聊天..."); say (text "正在为您退出聊天...\u{1b}[0m"))
            else if contains to_name friends_by_block
            then (do say (text "\u{1b}[31m您已被好友屏蔽,无法进行聊天..."); say (text "正在为您退出聊天...\u{1b}[0m"))
            else do
              msg ← ask
              if eq_text msg quit then skip else (do
                username ← get (λ u. u.username)
                time ← now
                friends_block ← get (λ u. u.friends_block)
                send (
                    with_action Actions.friendmsg (
                      Part.chat_fd (record {
                        from_name = username;
                        to_name = to_name;
                        message = msg;
                        time = time;
                        block = contains to_name friends_block;
                      })))
                again))
