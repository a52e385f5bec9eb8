-- ===== src/Connection/Rules.antt =====
-- How the steps of the handlers act on the world: one rule for each kind of step.
use mathlib.Core.Path.{subst}
use chatroom.Base.{
  ℕ, suc, ◌≡◌, refl, sym, ap, ◌∙◌, Text, text, eq_text, Bool, true, false, ◌&&◌, List, [], ◌∷◌,
  ◌++◌, none, some, if◌then◌else◌, ◌==◌, ◌>>=◌, pure, M, arith, at, touch, lookup-touch, ==_iff,
  nat_eq, text_eq, Returns, bind_step, fault_step, pure_step, done, Returns-mono, Bool-cases, inl,
  inr,
}
use chatroom.Redis.Documented.{Documented, Kind, hashes, View, with_fields}
use chatroom.RedisClient.Kinded.{Kinded, Does, if_true}
use chatroom.RedisClient.Keys.{request_key, ◌+:+◌}
use chatroom.RedisClient.Effects.{set_res_key-Does}
use chatroom.Chat.{Chat}
use chatroom.Protocol.{pack}
use chatroom.World.{
  World, Act, Services, services_redis, on_redis, on_redis_lem, fds_at, users_at, get_now_text,
}
use chatroom.MessageCenter.{dispatch, notify, send_message, has_worker, has_connection}
use chatroom.World.{worker_fd_at}
use chatroom.Connection.Outbox.{packed, post, leave_notice, tell}

module _ {Db : Type 0} where
  -- Whether a message to a socket is written: it has a worker, and that worker its connection.
  abbrev pub reachable : World Db → ℕ → Bool
  reachable w fd =
      has_worker (at fd 0 w.worker_fd) w.workers
      && has_connection (at fd 0 w.worker_fd) fd w.connections

  -- dispatch writes the message to the socket where the socket has a worker and the worker its
  -- connection, and drops it where not. The table of the workers then has the socket, and
  -- nothing else changes.
  pub dispatch_lem :
      (w : World Db) (from_fd to_fd : ℕ) (msg : Text)
      → dispatch from_fd to_fd msg w
        ≡ some (
          tt,
          record w {
            worker_fd = touch to_fd 0 w.worker_fd;
            sent = if reachable w to_fd then w.sent ++ (to_fd, msg) ∷ [] else w.sent;
          },
        )
  unfolding dispatch worker_fd_at notify send_message ◌>>=◌ pure
  dispatch_lem w from_fd to_fd msg = ground arith

at-touch : (fd : ℕ) (m : List (ℕ × ℕ)) → at fd 0 (touch fd 0 m) ≡ at fd 0 m
at-touch fd m = ground (arith, lookup-touch fd fd 0 m, ==_iff fd fd)

reachable-touch :
    {Db : Type 0} (w : World Db) (fd : ℕ)
    → reachable (record w { worker_fd = touch fd 0 w.worker_fd }) fd ≡ reachable w fd
reachable-touch w fd = rw (at-touch fd w.worker_fd)

module _ {Db : Type 0} ⦃s : Services Db⦄ where
  -- The last message that was written is `chat`, to the socket `fd`, if it could be.
  abbrev pub IsAnswer : ℕ → Chat → World Db → Type 0
  IsAnswer fd chat w =
      reachable w fd ≡ true
      → (before : List (ℕ × Text)) × (w.sent ≡ before ++ (fd, packed s chat) ∷ [])

  pub post_lem :
      {w : World Db} (from_fd to_fd : ℕ) (chat : Chat) {Q : Unit {0} → World Db → Type 0}
      → (let w' = record w {
        worker_fd = touch to_fd 0 w.worker_fd;
        sent = if reachable w to_fd then w.sent ++ (to_fd, packed s chat) ∷ [] else w.sent;
      } in
          IsAnswer to_fd chat w' → Q tt w')
      → Returns (post from_fd to_fd chat) w Q
  unfolding post
  post_lem {w} from_fd to_fd chat k =
      done tt _ (dispatch_lem w from_fd to_fd (packed s chat))
        (k (λ there. (w.sent, if_true _ (sym (reachable-touch w to_fd) ∙ there))))

  -- A call of RedisClient of which the outcome is known.
  pub bind_redis :
      {A B : Type 0} (doc : Documented s.redis) {kind_of : Text → Kind} (call : M Db A)
      (f : A → Act Db B) {w : World Db} {b : A} {v : View} {Q : B → World Db → Type 0}
      → Does doc kind_of call w.db b v
      → ((d : Db) → doc.view d ≡ v → Kinded doc kind_of d → Returns (f b) (record w { db = d }) Q)
      → Returns (on_redis call >>= f) w Q
  bind_redis doc call f {w} {Q} h k =
      bind_step (on_redis call) f h.result _ (on_redis_lem call w h.runs) (
        subst (λ a. Returns (f a) (record w { db = h.state }) Q) (sym h.holds.0)
          (k h.state h.holds.1 h.holds.2))

  pub run_redis :
      {A : Type 0} (doc : Documented s.redis) {kind_of : Text → Kind} (call : M Db A) {w : World Db}
      {b : A} {v : View} {Q : A → World Db → Type 0}
      → Does doc kind_of call w.db b v
      → ((d : Db) → doc.view d ≡ v → Kinded doc kind_of d → Q b (record w { db = d }))
      → Returns (on_redis call) w Q
  run_redis doc call {w} {Q} h k =
      done h.result _ (on_redis_lem call w h.runs) (
        subst (λ a. Q a (record w { db = h.state })) (sym h.holds.0)
          (k h.state h.holds.1 h.holds.2))

  -- The same where the action is undefined after the call.
  pub fault_redis :
      {A B : Type 0} (doc : Documented s.redis) {kind_of : Text → Kind} (call : M Db A)
      (f : A → Act Db B) {w : World Db} {b : A} {v : View}
      → Does doc kind_of call w.db b v
      → ((d : Db) → doc.view d ≡ v → Kinded doc kind_of d → f b (record w { db = d }) ≡ none)
      → (on_redis call >>= f) w ≡ none
  fault_redis doc call f {w} h k =
      fault_step (on_redis call) f h.result _ (on_redis_lem call w h.runs) (
        subst (λ a. f a (record w { db = h.state }) ≡ none) (sym h.holds.0)
          (k h.state h.holds.1 h.holds.2))

  -- A step that only reads, or fills a table or a counter: its outcome is plain.
  pub bind_fds :
      {B : Type 0} (fd : ℕ) (f : Text → Act Db B) {w : World Db} {Q : B → World Db → Type 0}
      → Returns (f (at fd [] w.fds)) (record w { fds = touch fd [] w.fds }) Q
      → Returns (fds_at fd >>= f) w Q
  unfolding fds_at
  bind_fds fd f h = bind_step (fds_at fd) f _ _ refl h

  pub bind_users :
      {B : Type 0} (name : Text) (f : ℕ → Act Db B) {w : World Db} {Q : B → World Db → Type 0}
      → Returns (f (at name 0 w.users)) (record w { users = touch name 0 w.users }) Q
      → Returns (users_at name >>= f) w Q
  unfolding users_at
  bind_users name f h = bind_step (users_at name) f _ _ refl h

  pub bind_now :
      {B : Type 0} (f : Text → Act Db B) {w : World Db} {Q : B → World Db → Type 0}
      → Returns (f (s.local_time w.readings)) (record w { readings = suc w.readings }) Q
      → Returns (get_now_text >>= f) w Q
  unfolding get_now_text
  bind_now f h = bind_step get_now_text f _ _ refl h

-- Two views differ at most in the notices that wait for one user.
pub record OnlyNotice (name : Text) (v v' : View) : Type 0 where
  pub value : v'.value ≡ v.value
  pub member : v'.member ≡ v.member
  pub items : v'.items ≡ v.items
  pub field :
      (k f : Text)
      → eq_text (request_key (text "Response") +:+ name) k ≡ false
      → v'.field k f ≡ v.field k f

unchanged-OnlyNotice : (name : Text) {v v' : View} → v' ≡ v → OnlyNotice name v v'
unchanged-OnlyNotice name e = record {
  value = ap (λ x. x.value) e;
  member = ap (λ x. x.member) e;
  items = ap (λ x. x.items) e;
  field = λ k f ne. ap (λ x. x.field k f) e;
}

OnlyNotice-with_fields :
    (name : Text) {v v' : View} (ps : List (Text × Text))
    → v' ≡ with_fields (request_key (text "Response") +:+ name) ps v
    → OnlyNotice name v v'
OnlyNotice-with_fields name ps e = record {
  value = ap (λ x. x.value) e;
  member = ap (λ x. x.member) e;
  items = ap (λ x. x.items) e;
  field = λ k f ne. ap (λ x. x.field k f) e ∙ rw ne;
}

module _ {Db : Type 0} ⦃s : Services Db⦄ (doc : Documented s.redis) {kind_of : Text → Kind} where
  -- Where the keys hold their kinds of value, telling a user something comes to an end. Where
  -- the table of the users has no socket for the name, or 0, the notice with its time is in the
  -- hash of the notices that wait for that user, nothing else that the database reads changes,
  -- and nothing is sent; and else what the database reads stays and the message, packed, is the
  -- one written to that socket, if it has a worker and the worker its connection.
  pub tell_lem :
      {w : World Db} (fd : ℕ) (name notice time : Text) (chat : Chat)
      → Kinded doc kind_of w.db
      → kind_of (request_key (text "Response") +:+ name) ≡ hashes
      → Returns (tell fd name notice time chat) w (λ _ w'.
        Kinded doc kind_of w'.db
        × (doc.view w'.db ≡ (
            if at name 0 w.users == 0
            then with_fields
                (request_key (text "Response") +:+ name)
                ((notice, time) ∷ [])
                (doc.view w.db)
            else doc.view w.db))
        × (w'.sent ≡ (
            if at name 0 w.users == 0
            then w.sent
            else if reachable w (at name 0 w.users)
            then w.sent ++ (at name 0 w.users, pack (s.serialize chat)) ∷ []
            else w.sent)))
  unfolding tell leave_notice post packed
  tell_lem {w} fd name notice time chat h e =
      bind_users name _ (elim (Bool-cases (at name 0 w.users == 0)) [
        | inl offline ↦ rw offline (
            bind_redis doc _ _
              (set_res_key-Does doc h (text "Response") name ((notice, time) ∷ []) e)
              (λ d seen h'. pure_step tt (h', seen, refl)))
        | inr online ↦ rw online (done tt _ (dispatch_lem _ fd _ _) (h, refl, refl))
      ])

  -- Of what the database reads, at most the notices that wait for the user change.
  pub tell-OnlyNotice :
      {w : World Db} (fd : ℕ) (name notice time : Text) (chat : Chat)
      → Kinded doc kind_of w.db
      → kind_of (request_key (text "Response") +:+ name) ≡ hashes
      → Returns
          (tell fd name notice time chat)
          w
          (λ _ w'. Kinded doc kind_of w'.db × OnlyNotice name (doc.view w.db) (doc.view w'.db))
  tell-OnlyNotice {w} fd name notice time chat h e =
      Returns-mono (tell_lem fd name notice time chat h e) (λ _ w' k. (
        k.0,
        elim (Bool-cases (at name 0 w.users == 0)) [
          | inl offline ↦
              OnlyNotice-with_fields name ((notice, time) ∷ []) (k.1 ∙ if_true _ offline)
          | inr online ↦ unchanged-OnlyNotice name (k.1 ∙ rw online refl)
        ],
      ))
