-- ===== src/UserManager.antt =====
-- src/Server/Manage/User_manager.cc: who is logged in on which socket, and friendships.

pub mod Sessions
pub mod Friendship
use chatroom.Base.{
  ℕ, Text, text, Bool, true, List, some, ◌>>=◌, ◌>>◌, pure, M, assign, erase, nat_eq, text_eq,
}
use chatroom.World.{World, Act, Services, services_redis, on_redis, fds_at}
use chatroom.RedisClient.Users.{
  add_user_to_online_lists, remove_user_to_online_lists, set_user_groups, remove_user_groups,
  get_fields,
}
use chatroom.RedisClient.Groups.{get_groupuuid}

module _ {Db : Type 0} ⦃s : Services Db⦄ where
  enter : ℕ → Text → Act Db (Unit {0})
  enter fd username w =
      some (tt, record w { users = assign username fd w.users; fds = assign fd username w.fds })

  leave : ℕ → Text → Act Db (Unit {0})
  leave cli username w =
      some (tt, record w { users = erase username w.users; fds = erase cli w.fds })

  unfoldable pub add_user : ℕ → Text → Act Db (Unit {0})
  unfolding enter
  add_user fd username = do on_redis (add_user_to_online_lists username); enter fd username

  unfoldable pub remove_user : ℕ → Act Db (Unit {0})
  unfolding leave
  remove_user cli = do
    username ← fds_at cli
    on_redis (remove_user_to_online_lists username)
    leave cli username

  unfoldable pub add_friend : Text → Text → Act Db Bool
  unfolding text
  add_friend from_name to_name = do
    on_redis (set_user_groups (text "Friend") from_name to_name)
    on_redis (set_user_groups (text "Friend") to_name from_name)
    pure true

  unfoldable pub delete_friend : Text → Text → Act Db Bool
  unfolding text
  delete_friend from_name to_name = do
    on_redis (remove_user_groups (text "Friend") from_name to_name)
    on_redis (remove_user_groups (text "Friend") to_name from_name)
    pure true

  unfoldable pub get_friend : Text → Act Db (List Text)
  get_friend from_name = on_redis (get_fields from_name)

  unfoldable pub get_group_uuid : Text → Text → Act Db Text
  get_group_uuid u_name g_name = on_redis (get_groupuuid u_name g_name)
