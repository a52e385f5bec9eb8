-- ===== src/Connection/Ready.antt =====
-- What the handlers of groups rely on in the database.
use chatroom.Base.{◌≡◌, Text, text, some}
use chatroom.Redis.Documented.{Documented, Kind, texts, sets, hashes}
use chatroom.RedisClient.Kinded.{Kinded}
use chatroom.RedisClient.Keys.{
  request_key, group_owner, members_key, managers_key, groups_key, ◌+:+◌,
}
use chatroom.World.{World, Services, services_redis}

-- Each key that a handler uses for the group and the user holds its kind of value, and the index
-- has the group under `uuid`.
pub record Ready {Db : Type 0} ⦃s : Services Db⦄ (doc : Documented s.redis) (kind_of : Text → Kind)
    (w : World Db) (u_name g_name username uuid : Text) : Type 0 where
  pub kinded : Kinded doc kind_of w.db
  pub index_kind : kind_of (group_owner u_name +:+ g_name) ≡ texts
  pub members_kind : kind_of (members_key uuid) ≡ sets
  pub managers_kind : kind_of (managers_key uuid) ≡ hashes
  pub groups_kind : kind_of (groups_key username) ≡ sets
  pub notices_kind : kind_of (request_key (text "Response") +:+ username) ≡ hashes
  pub indexed : (doc.view w.db).value (group_owner u_name +:+ g_name) ≡ some uuid
