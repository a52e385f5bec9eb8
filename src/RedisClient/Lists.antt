-- ===== src/RedisClient/Lists.antt =====
-- RedisClient.cc: the lists that keep chat histories and the names of files.
pub mod History
use chatroom.Base.{
  ℕ, zero, suc, Text, text, Bool, true, false, List, [], ◌∷◌, ◌++◌, Option, none, some, take, drop,
  ◌==◌, if◌then◌else◌, assign, text_eq, M,
}
use chatroom.Redis.{Redis, ok, error, first, last}
use chatroom.RedisClient.Try.{Try, ◌>>=◌, ◌>>◌, return, run, catch}
use chatroom.RedisClient.Keys.{user_key, chat_key, file_key, ◌+:+◌}
use chatroom.Redis.Documented.{is_some}
use chatroom.RedisClient.Users.{is_positive}

-- s.rfind(c)
unfoldable pub rfind : ℕ → Text → Option ℕ
rfind c [] = none
rfind c (x ∷ xs) = elim (rfind c xs) [
  | some i ↦ some (suc i)
  | none ↦ if x == c then some 0 else none
]

-- s.substr(0, pos), or s where there is no colon
unfoldable pub before_colon : Text → Text
before_colon s = elim (rfind b':' s) [ none ↦ s | some pos ↦ take pos s ]

-- s.substr(pos + 1), where npos + 1 is 0
unfoldable pub after_colon : Text → Text
after_colon s = elim (rfind b':' s) [ none ↦ s | some pos ↦ drop (suc pos) s ]

module _ {Db : Type 0} ⦃r : Redis Db⦄ where
  unfoldable pub set_chat_list : Text → Text → Text → M Db Bool
  set_chat_list username set_name field =
      let key = chat_key username +:+ set_name in
      catch (do run (r.rpush key field); run (r.ltrim key (last 100) (last 1)); return true) false

  unfoldable pub get_chat_list : Text → Text → M Db (List Text)
  get_chat_list username set_name =
      catch (run (r.lrange (chat_key username +:+ set_name) (last 100) (last 1))) []

  unfoldable pub get_chat_online_list : Text → Text → M Db (List Text)
  get_chat_online_list username set_name =
      catch (run (r.lrange (chat_key username +:+ set_name) (last 10) (last 1))) []

  unfoldable pub delete_chat_list : Text → Text → M Db Bool
  delete_chat_list username set_name =
      catch (do n ← run (r.del (chat_key username +:+ set_name)); return (n == 1)) false

  unfoldable pub set_file : Text → Text → Text → M Db Bool
  set_file username set_name field =
      catch (do n ← run (r.rpush (file_key username +:+ set_name) field); return (is_positive n))
        false

  unfoldable pub delete_file : Text → Text → Text → M Db Bool
  delete_file username set_name field =
      catch (do n ← run (r.lrem (file_key username +:+ set_name) 1 field); return (n == 1)) false

  -- do { cursor = scan(cursor, pattern, 100, keys); } while(cursor != 0): `none` where the rounds
  -- are more than the fuel.
  unfoldable pub scan_keys : ℕ → ℕ → Text → List Text → Try Db (List Text)
  scan_keys zero cursor pattern keys = λ d. none
  scan_keys (suc fuel) cursor pattern keys = do
    page ← run (r.scan cursor pattern 100)
    elim page.0 [
      | zero ↦ return (keys ++ page.1)
      | suc c ↦ scan_keys fuel (suc c) pattern (keys ++ page.1)
    ]

  -- The loop over the keys. An error ends it, and what was read before is returned.
  unfoldable pub read_lists : List Text → List (Text × List Text) → M Db (List (Text × List Text))
  read_lists [] all_values d = some (all_values, d)
  read_lists (key ∷ keys) all_values d = elim (run (r.lrange key (first 0) (last 1)) d) [
    | none ↦ none
    | some (ok messages, d') ↦ read_lists keys (assign (after_colon key) messages all_values) d'
    | some (error, d') ↦ some (all_values, d')
  ]

  unfoldable pub get_lists : ℕ → Text → M Db (List (Text × List Text))
  unfolding scan_keys read_lists text
  get_lists rounds prefix d = elim (scan_keys rounds 0 (prefix ++ text "*") [] d) [
    | none ↦ none
    | some (ok keys, d') ↦ read_lists keys [] d'
    | some (error, d') ↦ some ([], d')
  ]

  -- The scan stands outside the `try` block: its error ends the process.
  unfoldable pub get_file : ℕ → Text → Text → M Db (List Text)
  unfolding scan_keys text
  get_file rounds username set_name d =
      elim (scan_keys rounds 0 (file_key username ++ text ":*") [] d) [
        | none ↦ none
        | some (ok keys, d') ↦
            catch (run (r.lrange (file_key username +:+ set_name) (first 0) (last 1))) [] d'
        | some (error, d') ↦ none
      ]

  -- "user:File:" + username, with no colon behind it
  unfoldable pub get_all_file : ℕ → Text → M Db (List (Text × List Text))
  unfolding get_lists text
  get_all_file rounds username = get_lists rounds (user_key (text "File") +:+ username)

  unfoldable pub get_all_file_group : ℕ → Text → Text → M Db (List (Text × List Text))
  unfolding get_lists text
  get_all_file_group rounds uuid username =
      get_lists rounds (user_key (text "File") +:+ uuid +:+ username)

  unfoldable pub set_user_file : Text → Text → Text → M Db Bool
  unfolding text
  set_user_file username from_name file_name =
      catch
        (do
          ret ← run (r.rpush (user_key (text "File") +:+ username +:+ from_name) file_name)
          return (is_positive ret))
        false

  unfoldable pub del_user_file : Text → Text → M Db Bool
  unfolding text
  del_user_file username to_name =
      catch
        (do
          value ← run (r.lpop (user_key (text "File") +:+ username +:+ to_name))
          return (is_some value))
        false

  unfoldable pub set_user_file_group : Text → Text → Text → Text → M Db Bool
  unfolding text
  set_user_file_group uuid from_name username file_name =
      catch
        (do
          ret ← run (r.rpush (user_key (text "File") +:+ uuid +:+ username +:+ from_name) file_name)
          return (is_positive ret))
        false

  unfoldable pub del_user_file_group : Text → Text → Text → Text → M Db Bool
  unfolding text
  del_user_file_group uuid from_name username file_name =
      catch
        (do
          value ←
              run (r.lrem (user_key (text "File") +:+ uuid +:+ username +:+ from_name) 1 file_name)
          return (is_positive value))
        false
