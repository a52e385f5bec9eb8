-- ===== src/Connection/Heart/Beats.antt =====
-- What checkHeart of connection.cc decides.
use chatroom.Base.{
  ◌≡◌, refl, ap, ◌∙◌, ℕ, suc, ◌-◌, ◌==◌, Text, text, eq_text, Bool, true, false, not, ◌&&◌, List,
  [], ◌∷◌, ◌++◌, none, some, arith, Returns, bind_step, bind_after, fault_here, done, pure_step,
  ltb, if◌then◌else◌, lookup, assign, lookup-assign, nat_eq, ==_refl, Bool-cases, inl, inr,
}
use chatroom.Protocol.{is_heartbeat}
use chatroom.World.{World, Connection, Services, get_now_time}
use chatroom.Connection.Heart.{
  time_out, close, heart_time_of, set_heart_time, first_beat, check_heart,
}

module _ {Db : Type 0} (w : World Db) (fd : ℕ) {c : Connection}
    (there : lookup fd w.connections ≡ some c) where
  heart_time_of_lem : (t : ℕ) → c.heart_time ≡ some t → heart_time_of fd w ≡ some (t, w)
  unfolding heart_time_of
  heart_time_of_lem t kept = ground (arith, there, kept)

  heart_time_of_unset : c.heart_time ≡ none → heart_time_of fd w ≡ none
  unfolding heart_time_of
  heart_time_of_unset unset = ground (arith, there, unset)

  set_heart_time_lem :
      (time : ℕ)
      → set_heart_time fd time w
        ≡ some (
          tt,
          record w { connections = assign fd (record c { heart_time = some time }) w.connections },
        )
  unfolding set_heart_time
  set_heart_time_lem time = ground (arith, there)

found : (fd : ℕ) (c : Connection) (m : List (ℕ × Connection)) → lookup fd (assign fd c m) ≡ some c
found fd c m = ground (arith, lookup-assign fd fd c m, ==_refl fd)

module _ {Db : Type 0} ⦃s : Services Db⦄ (w : World Db) (fd : ℕ) (c : Connection) (t : ℕ) where
  -- The time that the heartbeat is compared with, and the reading that it is taken at. A time of
  -- 0 is replaced by the present one.
  abbrev pub base : ℕ
  base = if t == 0 then s.seconds w.readings else t

  abbrev pub now : ℕ
  now = if t == 0 then suc w.readings else w.readings

  abbrev pub in_time : Bool
  in_time = not (ltb 40 (s.seconds now - base))

  -- The connection after the first lines of checkHeart.
  first_beat_lem :
      lookup fd w.connections ≡ some c
      → c.heart_time ≡ some t
      → Returns (first_beat fd) w (λ _ v.
        (lookup fd v.connections ≡ some (record c { heart_time = some base }))
        × (v.readings ≡ now)
        × (v.closed ≡ w.closed))
  unfolding first_beat get_now_time
  first_beat_lem there kept =
      bind_step _ _ _ _ (heart_time_of_lem w fd there t kept) (elim (Bool-cases (t == 0)) [
        | inl fresh ↦ rw fresh (
            bind_step get_now_time _ _ _ refl (
              done _ _
                (set_heart_time_lem (record w { readings = suc w.readings }) fd there
                  (s.seconds w.readings))
                (found fd _ w.connections, refl, refl)))
        | inr seen ↦ rw seen (
            pure_step tt (there ∙ ap some (ap (λ o. record c { heart_time = o }) kept), refl, refl))
      ])

  -- For a socket that has a connection, whose heart_time has been set, to t, checkHeart says yes
  -- exactly where the message is "ping" and not more than 40 seconds have passed since t, a t of
  -- 0 being replaced by the present time first. Where it says no the socket is closed, and else
  -- it is not and the connection has the time of the next reading of the clock.
  pub check_heart_lem :
      (heart : Text)
      → lookup fd w.connections ≡ some c
      → c.heart_time ≡ some t
      → Returns (check_heart fd heart) w (λ alive w'.
        (alive ≡ (eq_text heart (text "ping") && in_time))
        × (w'.closed ≡ (if alive then w.closed else w.closed ++ fd ∷ []))
        × (alive ≡ true
            → lookup fd w'.connections
              ≡ some (record c { heart_time = some (s.seconds (suc now)) })))
  unfolding check_heart close get_now_time is_heartbeat
  check_heart_lem heart there kept = bind_after _ _ _ (first_beat_lem there kept) (λ _ v h.
      elim (Bool-cases (eq_text heart (text "ping"))) [
        | inr other ↦ rw other (
            bind_step (close fd) _ _ _ refl
              (pure_step false (refl, ap (λ l. l ++ fd ∷ []) h.2, λ e. ground arith)))
        | inl ping ↦ rw ping (
            bind_step get_now_time _ _ _ refl (
              bind_step _ _ _ _ (heart_time_of_lem _ fd h.0 base refl) (
                rw h.1 (elim (Bool-cases (ltb time_out (s.seconds now - base))) [
                  | inl late ↦ rw late (
                      bind_step (close fd) _ _ _ refl
                        (pure_step false (refl, ap (λ l. l ++ fd ∷ []) h.2, λ e. ground arith)))
                  | inr early ↦ rw early (
                      bind_step get_now_time _ _ _ refl (
                        bind_step _ _ _ _ (set_heart_time_lem _ fd h.0 _)
                          (pure_step true (refl, h.2, λ _. found fd _ v.connections))))
                ]))))
      ])

module _ {Db : Type 0} ⦃s : Services Db⦄ where
  -- For a connection that has not been given a time yet, checkHeart is undefined, whatever the
  -- message.
  check_heart_unset :
      (w : World Db) (fd : ℕ) (c : Connection) (heart : Text)
      → lookup fd w.connections ≡ some c
      → c.heart_time ≡ none
      → check_heart fd heart w ≡ none
  unfolding check_heart first_beat
  check_heart_unset w fd c heart there unset =
      fault_here _ _ (fault_here _ _ (heart_time_of_unset w fd there unset))
