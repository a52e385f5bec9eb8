-- ===== src/RedisClient/Groups.antt =====
-- RedisClient.cc: groups, their members and managers, and the requests to join them.
use chatroom.Base.{Text, text, Bool, true, false, List, [], ◌++◌, ◌==◌, M}
use chatroom.Redis.{Redis}
use chatroom.RedisClient.Try.{◌>>=◌, ◌>>◌, return, run, deref, catch}
use chatroom.RedisClient.Keys.{
  group_key, group_owner, manager_key, ◌+:+◌, members_key, managers_key, groups_key,
}
use chatroom.RedisClient.Users.{is_positive}

-- g_name + "   ---" + u_name
unfoldable pub group_title : Text → Text → Text
unfolding text
group_title g_name u_name = g_name ++ (text "   ---" ++ u_name)

module _ {Db : Type 0} ⦃r : Redis Db⦄ where
  unfoldable pub add_group : Text → Text → Text → List (Text × Text) → M Db Bool
  add_group uuid username groupname g_info =
      catch
        (do
          run (r.hset (group_key uuid) g_info)
          run (r.set (group_owner username +:+ groupname) uuid)
          return true)
        false

  unfoldable pub del_group : Text → Text → Text → M Db Bool
  del_group uuid username g_name =
      catch
        (do
          ret ← run (r.del (group_key uuid))
          run (r.del (group_owner username +:+ g_name))
          return (is_positive ret))
        false

  -- The key is looked up twice, once for the trace.
  unfoldable pub group_exists : Text → Text → M Db Bool
  group_exists username g_name =
      let key = group_owner username +:+ g_name in
      catch (do run (r.exists key); run (r.exists key)) false

  unfoldable pub set_group_member : Text → Text → M Db Bool
  set_group_member uuid username =
      catch (do ret ← run (r.sadd (members_key uuid) username); return (is_positive ret)) false

  unfoldable pub get_group_member : Text → M Db (List Text)
  get_group_member uuid = catch (run (r.smembers (members_key uuid))) []

  unfoldable pub remove_group_member : Text → Text → M Db Bool
  remove_group_member uuid username =
      catch (do ret ← run (r.srem (members_key uuid) username); return (is_positive ret)) false

  unfoldable pub del_group_member : Text → M Db Bool
  del_group_member uuid =
      catch (do ret ← run (r.del (members_key uuid)); return (is_positive ret)) false

  unfoldable pub user_set_groups : Text → Text → Text → M Db Bool
  user_set_groups username u_name g_name =
      catch
        (do
          ret ← run (r.sadd (groups_key username) (group_title g_name u_name))
          return (is_positive ret))
        false

  unfoldable pub user_remove_groups : Text → Text → Text → M Db Bool
  user_remove_groups username g_name u_name =
      catch
        (do
          ret ← run (r.srem (groups_key username) (group_title g_name u_name))
          return (is_positive ret))
        false

  unfoldable pub set_group_manager : Text → List (Text × Text) → M Db Bool
  set_group_manager uuid g_info =
      catch (do ret ← run (r.hset (managers_key uuid) g_info); return (is_positive ret)) false

  unfoldable pub remove_group_manager : Text → Text → M Db Bool
  remove_group_manager uuid username =
      catch (do n ← run (r.hdel (managers_key uuid) username); return (n == 1)) false

  unfoldable pub del_group_manager : Text → M Db Bool
  del_group_manager uuid =
      catch (do ret ← run (r.del (managers_key uuid)); return (is_positive ret)) false

  -- The role of one user.
  unfoldable pub get_group_manager : Text → Text → M Db Text
  get_group_manager uuid username =
      catch (do val ← run (r.hget (managers_key uuid) username); deref val) []

  unfoldable pub get_groupuuid : Text → Text → M Db Text
  get_groupuuid username g_name =
      catch (do val ← run (r.get (group_owner username +:+ g_name)); deref val) []

  -- The roles of all, the owner's included.
  unfoldable pub get_group_managers : Text → M Db (List (Text × Text))
  get_group_managers uuid = catch (run (r.hgetall (managers_key uuid))) []

  unfoldable pub get_group_list : Text → M Db (List Text)
  get_group_list username = catch (run (r.smembers (groups_key username))) []

  unfoldable pub set_group_notify : Text → List (Text × Text) → M Db Bool
  set_group_notify username g_notify =
      catch (do ret ← run (r.hset (manager_key username) g_notify); return (is_positive ret)) false

  unfoldable pub get_group_notify : Text → M Db (List (Text × Text))
  get_group_notify username = catch (run (r.hgetall (manager_key username))) []

  unfoldable pub del_group_notify : Text → Text → M Db Bool
  del_group_notify username name =
      catch (do ret ← run (r.hdel (manager_key username) name); return (is_positive ret)) false
