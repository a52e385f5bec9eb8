-- ===== src/RedisClient/Keys.antt =====
-- src/Server/Redis/RedisKeys.h, and the keys that RedisClient.cc builds from them.
pub mod Apart
use chatroom.Base.{Text, text, ◌++◌}

unfoldable pub user_key : Text → Text
unfolding text
user_key username = text "user:" ++ username

unfoldable pub group_key : Text → Text
unfolding text
group_key groupname = text "group:" ++ groupname

unfoldable pub group_owner : Text → Text
unfolding text
group_owner username = text "group_owner:" ++ username

unfoldable pub friend_key : Text → Text
unfolding text
friend_key username = text "user:Friend:" ++ username

unfoldable pub request_key : Text → Text
unfolding text
request_key username = text "requeset:" ++ username

unfoldable pub chat_key : Text → Text
unfolding text
chat_key username = text "chat:" ++ username

unfoldable pub file_key : Text → Text
unfolding text
file_key username = text "file:" ++ username

unfoldable pub manager_key : Text → Text
unfolding text
manager_key username = text "manager:" ++ username

-- a + ":" + b
infixr 66 ◌+:+◌
unfoldable pub ◌+:+◌ : Text → Text → Text
unfolding text
a +:+ b = a ++ (text ":" ++ b)

-- The keys of one group: its members and their roles.
unfoldable pub members_key : Text → Text
unfolding text group_key ◌+:+◌
members_key uuid = group_key uuid +:+ text "members"

unfoldable pub managers_key : Text → Text
unfolding text group_key ◌+:+◌
managers_key uuid = group_key uuid +:+ text "managers"

unfoldable pub groups_key : Text → Text
unfolding text user_key
groups_key username = user_key username ++ text ":groups"

unfoldable pub online_key : Text
unfolding text
online_key = text "online_users"
