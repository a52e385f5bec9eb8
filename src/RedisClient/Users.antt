-- ===== src/RedisClient/Users.antt =====
-- RedisClient.cc: accounts, verification codes, friends, requests and who is online.
use chatroom.Base.{
  ℕ, Text, text, eq_text, Bool, true, false, List, [], Option, none, some, ltb, ◌==◌, if◌then◌else◌,
  M,
}
use chatroom.Redis.{Redis, Reply}
use chatroom.RedisClient.Try.{◌>>=◌, ◌>>◌, return, run, catch}
use chatroom.RedisClient.Keys.{user_key, friend_key, request_key, ◌+:+◌, online_key}

-- long long to bool, and == 1
abbrev pub is_positive : ℕ → Bool
is_positive n = ltb 0 n

module _ {Db : Type 0} ⦃r : Redis Db⦄ where
  unfoldable pub save_user : Text → List (Text × Text) → M Db Bool
  save_user username user_info =
      let key = user_key username in
      catch
        (do
          there ← run (r.exists key)
          if there then return false else do
            kind ← run (r.type_of key)
            if eq_text kind (text "hash")
                then return false
                else do ret ← run (r.hset key user_info); return (is_positive ret))
        false

  unfoldable pub set_res_key : Text → Text → List (Text × Text) → M Db Bool
  set_res_key username set_name msg =
      catch
        (do ret ← run (r.hset (request_key username +:+ set_name) msg); return (is_positive ret))
        false

  unfoldable pub get_hash : Text → Text → M Db (List (Text × Text))
  get_hash username set_name = catch (run (r.hgetall (request_key username +:+ set_name))) []

  unfoldable pub set_key_expire : Text → Text → ℕ → M Db Bool
  set_key_expire username value expire_time =
      catch (do run (r.set_ex username value expire_time); return true) false

  unfoldable pub delete_hash_key : Text → M Db Bool
  delete_hash_key username = catch (do n ← run (r.del (user_key username)); return (n == 1)) false

  unfoldable pub delete_hash_members : Text → Text → M Db Bool
  delete_hash_members username set_name =
      catch (do n ← run (r.del (request_key username +:+ set_name)); return (n == 1)) false

  unfoldable pub delete_hash_member : Text → Text → Text → M Db Bool
  delete_hash_member name set_name key =
      catch (do n ← run (r.hdel (request_key name +:+ set_name) key); return (n == 1)) false

  unfoldable pub delete_hash : Text → Text → M Db Bool
  delete_hash username set_name =
      catch (do n ← run (r.del (request_key username +:+ set_name)); return (is_positive n)) false

  unfoldable pub user_hash_hexists : Text → Text → Text → M Db Bool
  user_hash_hexists username set_name field =
      catch (run (r.hexists (request_key username +:+ set_name) field)) false

  -- The verification code of a user is kept under the bare user name.
  unfoldable pub user_field_exists : Text → M Db (Option Text)
  user_field_exists username = catch (run (r.get username)) none

  unfoldable pub user_field_hexists : Text → Text → M Db Bool
  user_field_hexists username field = catch (run (r.hexists (user_key username) field)) false

  -- `return nullptr` builds the text of the optional from a null pointer, which is undefined.
  unfoldable pub get_user_field : Text → Text → M Db Text
  get_user_field username field d = elim (run (r.hget (user_key username) field) d) [
    | none ↦ none
    | some (Reply.ok (some value), d') ↦ some (value, d')
    | some (Reply.ok none, d') ↦ none
    | some (Reply.error, d') ↦ none
  ]

  unfoldable pub set_user_groups : Text → Text → Text → M Db Bool
  set_user_groups username set_name element =
      catch
        (do ret ← run (r.sadd (user_key username +:+ set_name) element); return (is_positive ret))
        false

  unfoldable pub remove_user_groups : Text → Text → Text → M Db Bool
  remove_user_groups username set_name element =
      catch
        (do
          removed ← run (r.srem (user_key username +:+ set_name) element)
          return (is_positive removed))
        false

  unfoldable pub add_user_to_online_lists : Text → M Db Bool
  add_user_to_online_lists username =
      catch (do ret ← run (r.sadd online_key username); return (is_positive ret)) false

  unfoldable pub remove_user_to_online_lists : Text → M Db Bool
  remove_user_to_online_lists username =
      catch (do ret ← run (r.srem online_key username); return (is_positive ret)) false

  unfoldable pub get_fields : Text → M Db (List Text)
  get_fields from_name = catch (run (r.smembers (friend_key from_name))) []
