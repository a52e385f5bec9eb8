-- ===== src/RedisClient/Kinded.antt =====
-- Databases in which every key has the kind of value that the program expects there, and what a
-- command then does.
pub mod Files
use chatroom.Base.{
  ℕ, ◌≡◌, refl, ap, ◌∙◌, Text, eq_text, eq_text_iff, Bool, true, false, not, ◌&&◌, List, [], ◌∷◌,
  ◌==◌, lookup, text_eq, none, some, arith, M, Returns, Returns-mono, done, if◌then◌else◌,
}
use chatroom.Redis.{Redis, Reply, ok, error, last}
use chatroom.Redis.Documented.{
  Documented, Kind, texts, hashes, sets, lists, View, same_kind, one_if, is_some, created, contains,
  distinct, last_entries, with_member, with_fields, without_field, with_value,
}
use chatroom.RedisClient.Try.{Try, return, run, catch, ◌>>=◌}
use chatroom.RedisClient.Users.{is_positive}
use chatroom.RedisClient.Outcomes.{answer, catch-run, catch-plain}

pub positive-one_if : (b : Bool) → is_positive (one_if b) ≡ b
positive-one_if true = refl
positive-one_if false = refl

module _ {Db : Type 0} {r : Redis Db} (doc : Documented r) (kind_of : Text → Kind) where
  pub record Kinded (d : Db) : Type 0 where
    pub fit : (k : Text) → doc.fits d (kind_of k) k ≡ true

  -- The method returns `b`; the view is `v` then, and no key has changed its kind.
  abbrev pub Does : {A : Type 0} → M Db A → Db → A → View → Type 0
  Does m d b v = Returns m d (λ a d'. (a ≡ b) × (doc.view d' ≡ v) × Kinded d')

same_kind_refl : (K : Kind) → same_kind K K ≡ true
same_kind_refl texts = refl
same_kind_refl hashes = refl
same_kind_refl sets = refl
same_kind_refl lists = refl

module _ {Db : Type 0} {r : Redis Db} (doc : Documented r) {kind_of : Text → Kind} where
  -- A write of the kind that its key has.
  keeps-Kinded :
      (d d' : Db) (K : Kind) (k : Text) (refit : Kind → Text → Bool)
      → Kinded doc kind_of d
      → kind_of k ≡ K
      → ((L : Kind) (j : Text)
          → doc.fits d' L j
            ≡ (if eq_text k j && not (same_kind K L) then refit L j else doc.fits d L j))
      → Kinded doc kind_of d'
  keeps-Kinded d d' K k refit h e law = record {
    fit = λ j. ground (arith, law (kind_of j) j, h.fit j, eq_text_iff k j, same_kind_refl K);
  }

pub if_true {ℓ} : {A : Type ℓ} {x : A} (y : A) {b : Bool} → b ≡ true → (if b then x else y) ≡ x
if_true y e = rw e

pub both_true : {a b : Bool} → a ≡ true → b ≡ true → (a && b) ≡ true
both_true p q = ground (arith, p, q)

pub eq_one_if : (b : Bool) → (one_if b == 1) ≡ b
eq_one_if true = refl
eq_one_if false = refl

-- The methods that send one command and return a test of its answer.
module _ {Db : Type 0} {r : Redis Db} (doc : Documented r) {kind_of : Text → Kind} {d : Db}
    (h : Kinded doc kind_of d) (k : Text) where
  open doc use {view, fits}

  pub fits_at : {K : Kind} → kind_of k ≡ K → fits d K k ≡ true
  fits_at e = rw (← e) (h.fit k)

  -- A read leaves the kinds alone.
  pub after_read : {d' : Db} → fits d' ≡ fits d → Kinded doc kind_of d'
  after_read kinds = record { fit = λ j. rw kinds (h.fit j) }

  module _ {A B : Type 0} (f : A → B) (fallback : B) (command : Db → Reply A × Db) where
    -- Where the reply, the view and the kinds after the command are known.
    one_command :
        {a : A} {b : B} {v : View}
        → (command d).0 ≡ ok a
        → f a ≡ b
        → view (command d).1 ≡ v
        → Kinded doc kind_of (command d).1
        → Does doc kind_of (catch (run command >>= λ x. return (f x)) fallback) d b v
    one_command reply value after kinds =
        done _ _ (catch-run f fallback command d)
          (ap (answer f fallback) reply ∙ value, after, kinds)

    -- A command that only reads.
    one_read :
        {a : A} {b : B}
        → (command d).0 ≡ ok a
        → f a ≡ b
        → view (command d).1 ≡ view d
        → fits (command d).1 ≡ fits d
        → Does doc kind_of (catch (run command >>= λ x. return (f x)) fallback) d b (view d)
    one_read reply value after kinds =
        one_command reply value after (record { fit = λ j. rw kinds (h.fit j) })

  pub sadd-Does :
      (x : Text)
      → kind_of k ≡ sets
      → Does doc kind_of
          (catch (run (r.sadd k x) >>= λ n. return (is_positive n)) false)
          d
          (not ((view d).member k x))
          (with_member k x true (view d))
  sadd-Does x e =
      let fit = fits_at e in
      one_command (is_positive) false (r.sadd k x) (doc.sadd_reply k x d ∙ if_true _ fit)
        (positive-one_if _) (doc.sadd_view k x d ∙ if_true _ fit)
        (keeps-Kinded doc d _ sets k (doc.refit _) h e (doc.sadd_fits k x d))

  pub srem-Does :
      (x : Text)
      → kind_of k ≡ sets
      → Does doc kind_of
          (catch (run (r.srem k x) >>= λ n. return (is_positive n)) false)
          d
          ((view d).member k x)
          (with_member k x false (view d))
  srem-Does x e =
      let fit = fits_at e in
      one_command (is_positive) false (r.srem k x) (doc.srem_reply k x d ∙ if_true _ fit)
        (positive-one_if _) (doc.srem_view k x d ∙ if_true _ fit)
        (keeps-Kinded doc d _ sets k (doc.refit _) h e (doc.srem_fits k x d))

  pub hset-Does :
      (ps : List (Text × Text))
      → kind_of k ≡ hashes
      → Does doc kind_of
          (catch (run (r.hset k ps) >>= λ n. return (is_positive n)) false)
          d
          (is_positive (created ps ((view d).field k)))
          (with_fields k ps (view d))
  hset-Does [] e = done _ _ (catch-run is_positive false (r.hset k []) d) (
    ap (answer is_positive false) (doc.hset_reply k [] d),
    doc.hset_view k [] d ∙ if_true _ (fits_at e),
    keeps-Kinded doc d _ hashes k (doc.refit _) h e (doc.hset_fits k [] d),
  )
  hset-Does (p ∷ ps) e =
      let fit = fits_at e in
      one_command (is_positive) false (r.hset k (p ∷ ps))
        (doc.hset_reply k (p ∷ ps) d ∙ if_true _ fit) (refl)
        (doc.hset_view k (p ∷ ps) d ∙ if_true _ fit)
        (keeps-Kinded doc d _ hashes k (doc.refit _) h e (doc.hset_fits k (p ∷ ps) d))

  pub hdel-Does :
      (f : Text)
      → kind_of k ≡ hashes
      → Does doc kind_of
          (catch (run (r.hdel k f) >>= λ n. return (n == 1)) false)
          d
          (is_some ((view d).field k f))
          (without_field k f (view d))
  hdel-Does f e =
      let fit = fits_at e in
      one_command (λ (n : ℕ). n == 1) false (r.hdel k f) (doc.hdel_reply k f d ∙ if_true _ fit)
        (eq_one_if _) (doc.hdel_view k f d ∙ if_true _ fit)
        (keeps-Kinded doc d _ hashes k (doc.refit _) h e (doc.hdel_fits k f d))

  -- The kinds after a write of the kind that the key has.
  pub after_hset :
      (ps : List (Text × Text)) → kind_of k ≡ hashes → Kinded doc kind_of (r.hset k ps d).1
  after_hset ps e = keeps-Kinded doc d _ hashes k (doc.refit _) h e (doc.hset_fits k ps d)

  pub after_rpush : (x : Text) → kind_of k ≡ lists → Kinded doc kind_of (r.rpush k x d).1
  after_rpush x e = keeps-Kinded doc d _ lists k (doc.refit _) h e (doc.rpush_fits k x d)

  pub after_ltrim :
      (n : ℕ) → kind_of k ≡ lists → Kinded doc kind_of (r.ltrim k (last n) (last 1) d).1
  after_ltrim n e = keeps-Kinded doc d _ lists k (doc.refit _) h e (doc.ltrim_fits k n d)

  -- SET replaces what was there, of whatever kind.
  pub after_set : (v : Text) → kind_of k ≡ texts → Kinded doc kind_of (r.set k v d).1
  after_set v e = record {
    fit = λ j. ground (arith, doc.set_fits k v d (kind_of j) j, h.fit j, eq_text_iff k j);
  }

  -- DEL leaves a key that fits every kind.
  pub after_del : Kinded doc kind_of (r.del k d).1
  after_del = record { fit = λ j. ground (arith, doc.del_fits k d (kind_of j) j, h.fit j) }

  pub del-Does :
      Does doc kind_of
        (catch (run (r.del k) >>= λ n. return (is_positive n)) false)
        d
        (doc.live d k)
        (with_value k none (view d))
  del-Does =
      one_command is_positive false (r.del k) (doc.del_reply k d) (positive-one_if _)
        (doc.del_view k d) after_del

  -- The methods that return the answer as it is.
  module _ {A : Type 0} (fallback : A) (command : Db → Reply A × Db) where
    pub plain_read :
        {a : A}
        → (command d).0 ≡ ok a
        → view (command d).1 ≡ view d
        → fits (command d).1 ≡ fits d
        → Does doc kind_of (catch (run command) fallback) d a (view d)
    plain_read reply after kinds =
        done _ _ (catch-plain fallback command d)
          (ap (answer (λ a. a) fallback) reply, after, record { fit = λ j. rw kinds (h.fit j) })

  pub hexists-Does :
      (f : Text)
      → kind_of k ≡ hashes
      → Does doc kind_of
          (catch (run (r.hexists k f)) false)
          d
          (is_some ((view d).field k f))
          (view d)
  hexists-Does f e =
      plain_read false (r.hexists k f) (doc.hexists_reply k f d ∙ if_true _ (fits_at e))
        (doc.hexists_view k f d) (doc.hexists_fits k f d)

  pub get-Does :
      kind_of k ≡ texts
      → Does doc kind_of (catch (run (r.get k)) none) d ((view d).value k) (view d)
  get-Does e =
      plain_read none (r.get k) (doc.get_reply k d ∙ if_true _ (fits_at e)) (doc.get_view k d)
        (doc.get_fits k d)

  pub lrange-Does :
      (n : ℕ)
      → kind_of k ≡ lists
      → Does doc kind_of
          (catch (run (r.lrange k (last n) (last 1))) [])
          d
          (last_entries n ((view d).items k))
          (view d)
  lrange-Does n e =
      plain_read [] (r.lrange k (last n) (last 1)) (doc.lrange_reply k n d ∙ if_true _ (fits_at e))
        (doc.lrange_view k (last n) (last 1) d) (doc.lrange_fits k (last n) (last 1) d)

  -- What is read of a set or a hash: its entries, in an order that is not known.
  pub smembers-Does :
      kind_of k ≡ sets
      → (xs : List Text) × ((x : Text) → contains x xs ≡ (view d).member k x)
        × Does doc kind_of (catch (run (r.smembers k)) []) d xs (view d)
  smembers-Does e =
      let (xs, reply, same) = doc.smembers_reply k d (fits_at e) in
      (xs, same, plain_read [] (r.smembers k) reply (doc.smembers_view k d) (doc.smembers_fits k d))

  pub hgetall-Does :
      kind_of k ≡ hashes
      → (ps : List (Text × Text)) × ((f : Text) → lookup f ps ≡ (view d).field k f)
        × (distinct ps ≡ true)
        × Does doc kind_of (catch (run (r.hgetall k)) []) d ps (view d)
  hgetall-Does e =
      let (ps, reply, same, once) = doc.hgetall_reply k d (fits_at e) in
      (
        ps,
        same,
        once,
        plain_read [] (r.hgetall k) reply (doc.hgetall_view k d) (doc.hgetall_fits k d),
      )

module _ {Db A B : Type 0} (rest : A → Try Db B) (fallback : B) where
  abbrev pub resume : Reply A × Db → M Db B
  resume result d = catch {Db = Db} ((λ _. some result) >>= rest) fallback d

  pub resume-ok :
      (result : Reply A × Db) {a : A} (d : Db)
      → result.0 ≡ ok a
      → resume result d ≡ catch (rest a) fallback result.1
  resume-ok (ok b, d') {a} d e = ground (arith, e)
  resume-ok (error, d') d e = cc

  -- The first of several commands in a `try` block, where it does not throw.
  pub Does-run :
      {r : Redis Db} (doc : Documented r) {kind_of : Text → Kind} (command : Db → Reply A × Db)
      {d : Db} {a : A} {b : B} {v : View}
      → (command d).0 ≡ ok a
      → Does doc kind_of (catch (rest a) fallback) (command d).1 b v
      → Does doc kind_of (catch (run command >>= rest) fallback) d b v
  Does-run doc command {d} e h = record {
    result = h.result;
    state = h.state;
    runs = resume-ok (command d) d e ∙ h.runs;
    holds = h.holds;
  }

module _ {Db A : Type 0} {r : Redis Db} (doc : Documented r) {kind_of : Text → Kind} where
  pub Does-cast :
      {m : M Db A} {d : Db} {a b : A} {v w : View}
      → a ≡ b
      → v ≡ w
      → Does doc kind_of m d a v
      → Does doc kind_of m d b w
  Does-cast e f h = Returns-mono h (λ x d' c. (c.0 ∙ e, c.1 ∙ f, c.2))
