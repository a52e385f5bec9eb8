-- ===== src/RedisClient/Kinded/Files.antt =====
-- What the methods of RedisClient for the names of files do: a list for each sender and receiver.
use chatroom.Base.{
  ℕ, zero, suc, ◌<◌, ◌≡◌, refl, ap, ◌∙◌, ◌⊎◌, inl, inr, Text, text, true, false, List, [], ◌∷◌,
  ◌++◌, Option, some, arith, done, ◌==◌,
}
use chatroom.Redis.{Redis, Reply, ok, first, last}
use chatroom.Redis.Documented.{Documented, Kind, lists, with_items, without_first, contains}
use chatroom.RedisClient.Try.{run, catch}
use chatroom.RedisClient.Keys.{file_key, ◌+:+◌}
use chatroom.RedisClient.Users.{is_positive}
use chatroom.RedisClient.Lists.{set_file, delete_file, get_file, scan_keys}
use chatroom.RedisClient.Kinded.{
  Kinded, Does, keeps-Kinded, one_command, after_rpush, after_read, fits_at, if_true, eq_one_if,
  plain_read,
}

-- An iteration by SCAN changes nothing, and comes to its end, the cursor 0, within so many rounds.
pub record Scans {Db : Type 0} {r : Redis Db} (doc : Documented r) (rounds : ℕ) : Type 0 where
  pub pages : ℕ → Text → Db → ℕ
  pub scan_reply :
      (cursor : ℕ) (pattern : Text) (d : Db)
      → (next : ℕ) × (keys : List Text) × ((r.scan cursor pattern 100 d).0 ≡ ok (next, keys))
        × ((next ≡ 0)
            ⊎ (pages next pattern (r.scan cursor pattern 100 d).1 < pages cursor pattern d))
  pub scan_view :
      (cursor : ℕ) (pattern : Text) (d : Db) → doc.view (r.scan cursor pattern 100 d).1 ≡ doc.view d
  pub scan_fits :
      (cursor : ℕ) (pattern : Text) (d : Db) → doc.fits (r.scan cursor pattern 100 d).1 ≡ doc.fits d
  pub few : (pattern : Text) (d : Db) → pages 0 pattern d < rounds

abbrev pub names_key : Text → Text → Text
names_key username set_name = file_key username +:+ set_name

module _ {Db : Type 0} ⦃r : Redis Db⦄ where
  scan_last :
      (fuel cursor : ℕ) (pattern : Text) (keys more : List Text) (d : Db)
      → (r.scan cursor pattern 100 d).0 ≡ ok (0, more)
      → scan_keys (suc fuel) cursor pattern keys d
        ≡ some (ok (keys ++ more), (r.scan cursor pattern 100 d).1)
  unfolding scan_keys
  scan_last fuel cursor pattern keys more d e = rw (e, scan_keys) refl

  scan_on :
      (fuel cursor next : ℕ) (pattern : Text) (keys more : List Text) (d : Db)
      → (r.scan cursor pattern 100 d).0 ≡ ok (suc next, more)
      → scan_keys (suc fuel) cursor pattern keys d
        ≡ scan_keys fuel (suc next) pattern (keys ++ more) (r.scan cursor pattern 100 d).1
  unfolding scan_keys
  scan_on fuel cursor next pattern keys more d e = rw (e, scan_keys) refl

  scan-get_file :
      (rounds : ℕ) (username set_name : Text) (d : Db) {found : List Text} {d' : Db}
      → scan_keys rounds 0 (file_key username ++ text ":*") [] d ≡ some (ok found, d')
      → get_file rounds username set_name d
        ≡ catch (run (r.lrange (names_key username set_name) (first 0) (last 1))) [] d'
  unfolding get_file
  scan-get_file rounds username set_name d e = rw (e, get_file) refl

-- A loop over SCAN has ended, and the database reads as before.
abbrev Scanned :
    {Db : Type 0} {r : Redis Db} (doc : Documented r) (kind_of : Text → Kind) (d : Db)
    → Option (Reply (List Text) × Db)
    → Type 0
Scanned {Db} doc kind_of d o =
    (found : List Text) × (d' : Db) × (o ≡ some (ok found, d'))
    × (doc.view d' ≡ doc.view d)
    × Kinded doc kind_of d'

module _ {Db : Type 0} ⦃r : Redis Db⦄ (doc : Documented r) {kind_of : Text → Kind} where
  open doc use {view}

  pub set_file-Does :
      {d : Db} (h : Kinded doc kind_of d) (username set_name field : Text)
      → kind_of (names_key username set_name) ≡ lists
      → Does doc kind_of (set_file username set_name field) d true (
          with_items
            (names_key username set_name)
            ((view d).items (names_key username set_name) ++ field ∷ [])
            (view d))
  unfolding set_file
  set_file-Does {d} h username set_name field e =
      let k = names_key username set_name in
      one_command doc h k is_positive false (r.rpush k field)
        (doc.rpush_reply k field d ∙ if_true _ (fits_at doc h k e)) (ground arith)
        (doc.rpush_view k field d ∙ if_true _ (fits_at doc h k e)) (after_rpush doc h k field e)

  pub delete_file-Does :
      {d : Db} (h : Kinded doc kind_of d) (username set_name field : Text)
      → kind_of (names_key username set_name) ≡ lists
      → Does doc kind_of
          (delete_file username set_name field)
          d
          (contains field ((view d).items (names_key username set_name)))
          (with_items
            (names_key username set_name)
            (without_first field ((view d).items (names_key username set_name)))
            (view d))
  unfolding delete_file
  delete_file-Does {d} h username set_name field e =
      let k = names_key username set_name in
      one_command doc h k (λ (n : ℕ). n == 1) false (r.lrem k 1 field)
        (doc.lrem_reply k field d ∙ if_true _ (fits_at doc h k e)) (eq_one_if _)
        (doc.lrem_view k field d ∙ if_true _ (fits_at doc h k e))
        (keeps-Kinded doc d _ lists k (doc.refit _) h e (doc.lrem_fits k field d))

  module _ {rounds : ℕ} (scans : Scans doc rounds) where
    module _ (pattern : Text) where
      scan_round :
          (fuel cursor : ℕ) (keys : List Text) {d : Db} (h : Kinded doc kind_of d)
          → scans.pages cursor pattern d < suc fuel
          → (next : ℕ) (more : List Text) → (r.scan cursor pattern 100 d).0 ≡ ok (next, more)
          → (next ≡ 0)
            ⊎ (scans.pages next pattern (r.scan cursor pattern 100 d).1
                < scans.pages cursor pattern d)
          → ((k : List Text)
              → Kinded doc kind_of (r.scan cursor pattern 100 d).1
              → scans.pages next pattern (r.scan cursor pattern 100 d).1 < fuel
              → Scanned doc kind_of
                  (r.scan cursor pattern 100 d).1
                  (scan_keys fuel next pattern k (r.scan cursor pattern 100 d).1))
          → Scanned doc kind_of d (scan_keys (suc fuel) cursor pattern keys d)
      scan_round fuel cursor keys {d} h f zero more reply progress later = (
        keys ++ more,
        (r.scan cursor pattern 100 d).1,
        scan_last fuel cursor pattern keys more d reply,
        scans.scan_view cursor pattern d,
        after_read doc h pattern (scans.scan_fits cursor pattern d),
      )
      scan_round fuel cursor keys {d} h f (suc next) more reply (inl ended) later = absurd (cc)
      scan_round fuel cursor keys {d} h f (suc next) more reply (inr less) later =
          let (found, d', runs, same, k) =
            later (keys ++ more) (after_read doc h pattern (scans.scan_fits cursor pattern d))
              (omega arith) in
          (
            found,
            d',
            scan_on fuel cursor next pattern keys more d reply ∙ runs,
            same ∙ scans.scan_view cursor pattern d,
            k,
          )

      -- The loop over SCAN ends within the rounds and leaves the database as it reads.
      scan_keys_lem :
          (fuel cursor : ℕ) (keys : List Text) {d : Db} (h : Kinded doc kind_of d)
          → scans.pages cursor pattern d < fuel
          → Scanned doc kind_of d (scan_keys fuel cursor pattern keys d)
      scan_keys_lem zero cursor keys h f = absurd (omega arith)
      scan_keys_lem (suc fuel) cursor keys {d} h f =
          let (next, more, reply, progress) = scans.scan_reply cursor pattern d in
          scan_round fuel cursor keys h f next more reply progress
            (λ k h' f'. scan_keys_lem fuel next k {d = (r.scan cursor pattern 100 d).1} h' f')

    pub get_file-Does :
        {d : Db} (h : Kinded doc kind_of d) (username set_name : Text)
        → kind_of (names_key username set_name) ≡ lists
        → Does doc kind_of
            (get_file rounds username set_name)
            d
            ((view d).items (names_key username set_name))
            (view d)
    unfolding get_file
    get_file-Does {d} h username set_name e =
        let k = names_key username set_name in
        let pattern = file_key username ++ text ":*" in
        let (found, d', runs, same, h') =
          scan_keys_lem pattern rounds 0 [] h (scans.few pattern d) in
        let read =
          plain_read doc h' k [] (r.lrange k (first 0) (last 1))
            (doc.lrange_all_reply k d' ∙ if_true _ (fits_at doc h' k e))
            (doc.lrange_view k (first 0) (last 1) d') (doc.lrange_fits k (first 0) (last 1) d') in
        done read.result read.state (scan-get_file rounds username set_name d runs ∙ read.runs)
          (read.holds.0 ∙ ap (λ v. v.items k) same, read.holds.1 ∙ same, read.holds.2)
