-- ===== src/Client/Friends.antt =====
-- recv_friends.cc: what the client does with the messages about friends.
use chatroom.Base.{
  Text, text, Bool, true, false, List, [], ◌∷◌, ◌++◌, none, some, if◌then◌else◌, ◌>>=◌, ◌>>◌, skip,
  for_each, take, find_text,
}
use chatroom.Redis.Documented.{contains}
use chatroom.Chat.Friends.{
  UserRequest, AddFriendRequest, FriendLists, DeleteFriendResponse, DeleteFriendRequest,
  LoginResponse, AddFriendResponse, OfflineMsg, FriendChatMessage, SendFile, LookFileRequest,
}
use chatroom.Chat.Groups.{GroupList}
use chatroom.Client.State.{Ui, insert, remove, push, say, get, change}

abbrev pub is_empty {ℓ} : {A : Type ℓ} → List A → Bool
is_empty [] = true
is_empty (x ∷ xs) = false

-- Clear::clearScreen() clears the screen before; the lines are kept here.
unfoldable pub print_notify : UserRequest → Ui (Unit {0})
unfolding text
print_notify m = do
  if is_empty m.result then say (text "\u{1b}[33m这里什么也没有...\u{1b}[0m") else skip
  for_each m.result (λ entry. do
    say (entry.0 ++ (text "   时间：" ++ entry.1))
    change (λ u. record u { friend_res = u.friend_res ++ entry.0 ∷ [] }))
  say (text "\u{1b}[34m若不处理,输入 9;\u{1b}[0m")
  say (text "\u{1b}[34m若要处理,输入 8;\u{1b}[0m")

unfoldable pub recv_add_friend : AddFriendRequest → Ui (Unit {0})
unfolding text
recv_add_friend m = do
  say (text "\u{1b}[1;32m" ++ (m.from_username ++ text "\u{1b}[0m\u{1b}[33m请求添加你为好友\u{1b}[0m"))
  say (text "\u{1b}[33m发送时间：" ++ (m.time ++ text "\u{1b}[0m"))

-- One friend of the list, and whether the friend is logged in.
unfoldable pub print_friend : Text × Bool → Ui (Unit {0})
unfolding text
print_friend (key, value) = do
  change (λ u. record u { friends = insert key u.friends })
  say (
      key
      ++ (if value
          then text "\u{1b}[1;33m ----在线\u{1b}[0m"
          else text "\u{1b}[1;31m ----离线\u{1b}[0m"))

unfoldable pub print_friends : FriendLists → Ui (Unit {0})
unfolding text print_friend
print_friends m =
    if is_empty m.friends
    then (do say (text "\u{1b}[33m这里什么也没有...\u{1b}[0m"); say (text "\u{1b}[33m快去添加好友吧...\u{1b}[0m"))
    else for_each m.friends print_friend

unfoldable pub save_friends : FriendLists → GroupList → Ui (Unit {0})
save_friends m groups = do
  for_each m.friends (λ entry. change (λ u. record u { friends = insert entry.0 u.friends }))
  for_each groups.groups
      (λ group. change (λ u. record u { user_groups = insert group u.user_groups }))

-- friends.erase(name); friends_block.erase(name);
unfoldable pub drop_friend : Text → Ui (Unit {0})
drop_friend name =
    change (λ u. record u {
      friends = remove name u.friends;
      friends_block = remove name u.friends_block;
    })

unfoldable pub print_delete : DeleteFriendResponse → Ui (Unit {0})
unfolding text drop_friend
print_delete m =
    if m.result
    then (do
      say (text "\u{1b}[34m已删除好友: " ++ (m.username ++ text "-——-\u{1b}[0m"))
      drop_friend m.username)
    else say (text "\u{1b}[34m❌删除失败\u{1b}[0m")

unfoldable pub printf_delete_req : DeleteFriendRequest → Ui (Unit {0})
unfolding text drop_friend
printf_delete_req m = do
  say (text "\u{1b}[34m已被 " ++ (m.from_name ++ text " 删除-——-\u{1b}[0m"))
  say (text "\u{1b}[34m时间为: " ++ (m.time ++ text "\u{1b}[0m"))
  drop_friend m.from_name

unfoldable pub print_block : Text → Ui (Unit {0})
unfolding text
print_block name = do
  say name
  friends ← get (λ u. u.friends)
  if contains name friends
      then (do
        say (name ++ text "\u{1b}[1;31m已将您屏蔽❌\u{1b}[0m")
        change (λ u. record u { friends_by_block = insert name u.friends_by_block }))
      else say (name ++ text "\u{1b}[1;31m在解除好友之前将您屏蔽了...\u{1b}[0m")

unfoldable pub print_unblock : Text → Ui (Unit {0})
unfolding text
print_unblock name = do
  friends ← get (λ u. u.friends)
  if contains name friends
      then (do
        say (name ++ text "\u{1b}[1;31m已将您解除屏蔽---\u{1b}[0m")
        change (λ u. record u { friends_by_block = remove name u.friends_by_block }))
      else say (name ++ text "\u{1b}[1;31m在解除好友之前将您解除屏蔽了...\u{1b}[0m")

-- The two texts by which a notice is told apart.
unfoldable pub marker : Text
unfolding text
marker = text "\u{1b}[31m已将您解除屏蔽\u{1b}[0m"

unfoldable pub marker2 : Text
unfolding text
marker2 = text "\u{1b}[31m已将您屏蔽❌\u{1b}[0m"

-- One notice that was left while the user was away.
unfoldable pub print_notice : Text × Text → Ui (Unit {0})
unfolding text
print_notice (key, value) = elim (find_text marker key) [
  | some pos ↦ print_unblock (take pos key)
  | none ↦ elim (find_text marker2 key) [
    | some pos2 ↦ print_block (take pos2 key)
    | none ↦ (do say key; say (text "\u{1b}[34m时间: " ++ (value ++ text "\u{1b}[34m")))
  ]
]

unfoldable pub print_response : LoginResponse → Ui (Unit {0})
unfolding text
print_response m = do
  if is_empty m.result then say (text "\u{1b}[33m这里什么也没有...\u{1b}[0m") else skip
  for_each m.result print_notice

unfoldable pub print_add_friend : AddFriendResponse → Ui (Unit {0})
unfolding text
print_add_friend m = do
  say m.msg
  if m.decide
      then (do
        say (text "\u{1b}[36m已成功添加 " ++ (m.from_name ++ text " 为好友\u{1b}[0m"))
        change (λ u. record u { friends = insert m.from_name u.friends }))
      else skip

unfoldable pub print_offline_msg : OfflineMsg → Ui (Unit {0})
unfolding text
print_offline_msg m = do
  if is_empty m.msg then say (text "\u{1b}[1;33m 你们还没有聊天，快去聊天吧！\u{1b}[0m") else skip
  for_each m.msg say
  say (text "\u{1b}[34m输入 9 安全退出\u{1b}[0m")

unfoldable pub print_cancel : Ui (Unit {0})
unfolding text
print_cancel = do
  say (text "\u{1b}[1;31m此账号已在别处登陆, 请您重新登陆\u{1b}[0m")
  say (text "\u{1b}[1;31m输入任意键 + <Enter>退出程序...\u{1b}[0m")
  change (λ u. record u { run = false })

unfoldable pub print_msg : FriendChatMessage → Ui (Unit {0})
unfolding text
print_msg m = say (text "\u{1b}[1;32m您收到一条新的未读消息,来自 " ++ (m.from_name ++ text "\u{1b}[0m"))

unfoldable pub print_send_file : SendFile → Ui (Unit {0})
unfolding text
print_send_file m = do
  say (text "\u{1b}[1;34m 您的好友 \u{1b}[1;34m" ++ (m.name ++ text "\u{1b}[0m 给您发来一份文件\u{1b}[0m"))
  say (text "\u{1b}[1;33m 时间是：" ++ (m.time ++ text "\u{1b}[0m"))

-- One file that a friend has sent.
unfoldable pub print_file : Text → Text → Ui (Unit {0})
unfolding text
print_file friend_name file = do
  say (friend_name ++ (text "   \u{1b}[36m" ++ (file ++ text "\u{1b}[0m")))
  change (λ u. record u { friends_files = push friend_name file u.friends_files })

unfoldable pub print_look_file : LookFileRequest → Ui (Unit {0})
unfolding text print_file
print_look_file m =
    if is_empty m.result then say (text "\u{1b}[1;33m没有好友向您发送文件---\u{1b}[0m") else do
      for_each m.result (λ entry. for_each entry.1 (print_file entry.0))
      say (text "\u{1b}[1;34m若要处理,请输入 13;\u{1b}[0m")
      say (text "\u{1b}[1;34m若不处理,请输入 9 进行安全退出;\u{1b}[0m")

unfoldable pub print_online_msg : OfflineMsg → Ui (Unit {0})
unfolding text
print_online_msg m = do
  for_each m.msg say
  if is_empty m.msg then skip else say (text "\u{1b}[1;34m=======以上是历史消息=======\u{1b}[0m")
