-- ===== src/Tests/Auth.antt =====
-- Examples of the login server.
use chatroom.Base.{
  ℕ, suc, ◌≡◌, refl, ap, ◌∙◌, Text, text, eq_text, true, false, [], ◌∷◌, ◌++◌, Option, none, some,
  arith, length, Returns, if◌then◌else◌,
}
use chatroom.Protocol.Framing.{stream}
use chatroom.Redis.Documented.{View, Kind, texts, hashes, sets, lists, with_value, with_fields}
use chatroom.Redis.Memory.{Memory, empty_memory, memory, admits}
use chatroom.Redis.Memory.Laws.{memory-Documented, memory-view, memory-live, memory-fits}
use chatroom.RedisClient.Keys.{user_key, online_key}
use chatroom.RedisClient.Kinded.{Kinded}
use chatroom.UserAuth.State.{
  Select, LogInRequest, RegisterRequest, RegisterVer, AuthServer, AuthServices, auth_redis,
  empty_auth,
}
use chatroom.UserAuth.Login.{ser_l, log_in}
use chatroom.UserAuth.Login.Password.{outcome, entered, log_in_password}
use chatroom.UserAuth.Register.{account_fields, ser_r, register_r, r_check}
use chatroom.UserAuth.Register.Accounts.{register_r_taken, r_check_saved}
use chatroom.UserAuth.Receive.{handle_process}
use chatroom.UserAuth.Receive.Frames.{last_message, handle_process-stream}
use chatroom.Tests.{ann, bob}

instance abbrev mute : AuthServices Memory
mute = record {
  redis = memory;
  serialize = λ auth. [];
  parse = λ bytes. (true, empty_auth);
  local_time = λ n. [];
  decimal_digit = λ n. 7;
}

-- `ann` has an account, and a verification code waits for `bob`.
unfoldable held : Text → Option Kind
unfolding eq_text user_key text online_key
held k =
    if eq_text (user_key ann) k
    then some hashes
    else if eq_text bob k
    then some texts
    else if eq_text online_key k
    then some sets
    else none

abbrev code : Text
code = b'7' ∷ []

abbrev or_hashes : Option Kind → Kind
or_hashes none = hashes
or_hashes (some K) = K

unfoldable kind_of : Text → Kind
unfolding held
kind_of k = or_hashes (held k)

unfoldable store : Memory
unfolding held eq_text user_key text
store = record empty_memory {
  held = held;
  value = λ k. if eq_text bob k then some code else none;
  pairs = λ k. if eq_text (user_key ann) k then (text "password", code) ∷ [] else [];
}

or_hashes_lem : (o : Option Kind) → admits o (or_hashes o) ≡ true
or_hashes_lem none = refl
or_hashes_lem (some texts) = refl
or_hashes_lem (some hashes) = refl
or_hashes_lem (some sets) = refl
or_hashes_lem (some lists) = refl

kinded : Kinded memory-Documented kind_of store
unfolding store kind_of
kinded = record { fit = λ k. memory-fits store (kind_of k) k ∙ or_hashes_lem (held k) }

abbrev w : AuthServer Memory
w = record {
  db = store;
  user_info = (text "password", ann) ∷ [];
  handle_buffers = [];
  sent = [];
  mailed = [];
  closed = [];
  readings = 0;
  draws = 0;
}

abbrev view : Memory → View
view = memory-Documented.view

abbrev cli : ℕ
cli = 9

abbrev loq : LogInRequest
loq = record { select = Select.password; username = ann; password = code; email = [] }

abbrev req : RegisterRequest
req = record { username = ann; password = bob; email = []; phone = [] }

abbrev ver : RegisterVer
ver = record { email_msg = code; decide = false; time = []; username = bob }

abbrev hello : Text
hello = b'h' ∷ b'i' ∷ []

handle_process-stream_example :
    handle_process mute.parse
      (suc (length (hello ∷ bob ∷ [])))
      (stream (hello ∷ bob ∷ []) ++ [])
      empty_auth
    ≡ some ([], last_message mute.parse (hello ∷ bob ∷ []) empty_auth)
handle_process-stream_example =
    handle_process-stream mute.parse (hello ∷ bob ∷ []) [] empty_auth
      (omega arith, (omega arith, tt)) (refl, (refl, tt)) (omega arith)

log_in_password_example : Returns (log_in cli loq) w (λ _ w'.
    (w'.sent
      ≡ w.sent
        ++ (
          cli,
          ser_l mute
              (outcome ((view w.db).field (user_key loq.username) (text "password")) loq.password),
        )
          ∷ [])
    × (view w'.db
        ≡ entered
            ((view w.db).field (user_key loq.username) (text "password"))
            loq.password
            loq.username
            (view w.db)))
unfolding kind_of held eq_text text user_key online_key
log_in_password_example = log_in_password memory-Documented kind_of w cli loq kinded refl refl refl

register_r_taken_example : Returns (register_r cli req) w (λ _ w'.
    (view w'.db ≡ with_value (user_key req.username) none (view w.db))
    × (w'.sent ≡ w.sent ++ (cli, ser_r mute false (text "Fail!")) ∷ [])
    × (w'.user_info ≡ account_fields req)
    × (w'.mailed ≡ w.mailed))
unfolding store kind_of held eq_text text user_key online_key
register_r_taken_example =
    register_r_taken memory-Documented kind_of w cli kinded req (memory-live store (user_key ann))

r_check_saved_example :
    Returns
      (r_check cli ver)
      w
      (λ _ w'. view w'.db ≡ with_fields (user_key ver.username) w.user_info (view w.db))
unfolding store kind_of held eq_text text user_key online_key
r_check_saved_example =
    r_check_saved memory-Documented kind_of w cli kinded ver refl refl
      (ap (λ v. v.value bob) (memory-view store)) (memory-live store (user_key bob))
