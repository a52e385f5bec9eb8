-- ===== src/FileServer/Sockets/Sending.antt =====
-- What the loops of Dataconnect.cc over recv and send come to, where these calls do not fail.
use chatroom.Base.{
  ℕ, zero, suc, ◌+◌, ◌≤◌, ◌<◌, ◌≡◌, refl, sym, ap, ◌∙◌, Text, List, [], ◌∷◌, ◌++◌, some, take, drop,
  length, length-drop, ltb, arith, append_assoc, Bool-cases, inl, inr, ltb→lt, ltb→le,
}
use chatroom.FileServer.State.{Recv, Sent}
use chatroom.FileServer.Sockets.{recv_loop, send_loop, send_blocks}

-- No call fails, nor does the other side close.
abbrev pub Arriving : List Recv → Type 0
Arriving [] = Unit
Arriving (Recv.arrived bytes ∷ rest) = Arriving rest
Arriving (Recv.would_block ∷ rest) = Arriving rest
Arriving (Recv.closed ∷ rest) = ⊥
Arriving (Recv.failed ∷ rest) = ⊥

abbrev pub received : List Recv → Text
received [] = []
received (Recv.arrived bytes ∷ rest) = bytes ++ received rest
received (Recv.would_block ∷ rest) = received rest
received (Recv.closed ∷ rest) = []
received (Recv.failed ∷ rest) = []

-- All that arrives before the other side closes the connection is received, however it is cut.
pub recv_loop_lem :
    (script rest : List Recv)
    → Arriving script
    → recv_loop (script ++ Recv.closed ∷ rest) ≡ some (received script, rest)
unfolding recv_loop
recv_loop_lem [] rest h = refl
recv_loop_lem (Recv.arrived bytes ∷ script) rest h = rw (recv_loop_lem script rest h) refl
recv_loop_lem (Recv.would_block ∷ script) rest h = recv_loop_lem script rest h
recv_loop_lem (Recv.closed ∷ script) rest h = absurd h
recv_loop_lem (Recv.failed ∷ script) rest h = absurd h

abbrev pub Taking : List Sent → Type 0
Taking [] = Unit
Taking (Sent.took n ∷ rest) = Taking rest
Taking (Sent.would_block ∷ rest) = Taking rest
Taking (Sent.failed ∷ rest) = ⊥

-- How many of the calls take something.
abbrev pub takes : List Sent → ℕ
takes [] = 0
takes (Sent.took n ∷ rest) = suc (takes rest)
takes (Sent.would_block ∷ rest) = takes rest
takes (Sent.failed ∷ rest) = takes rest

abbrev pub concat : List Text → Text
concat [] = []
concat (piece ∷ pieces) = piece ++ concat pieces

pub concat-append : (xs ys : List Text) → concat (xs ++ ys) ≡ concat xs ++ concat ys
concat-append [] ys = refl
concat-append (x ∷ xs) ys =
    ap (◌++◌ x) (concat-append xs ys) ∙ sym (append_assoc x (concat xs) (concat ys))

pub take-drop : (n : ℕ) (xs : Text) → take n xs ++ drop n xs ≡ xs
take-drop zero xs = refl
take-drop (suc n) [] = refl
take-drop (suc n) (x ∷ xs) = ap (◌∷◌ x) (take-drop n xs)

-- The pieces make up the bytes, and at most one call that takes something was needed for each.
pub record Pushed (sent : List Text) (left script : List Sent) (bytes : Text) : Type 0 where
  pub whole : concat sent ≡ bytes
  pub taking : Taking left
  pub spared : takes script ≤ takes left + length bytes

pub send_loop_lem :
    (script : List Sent) (bytes : Text)
    → Taking script
    → length bytes ≤ takes script
    → (pieces : List Text) × (left : List Sent) × (send_loop script bytes ≡ some (pieces, left))
      × Pushed pieces left script bytes
unfolding send_loop
send_loop_lem script [] h enough =
    ([], script, refl, record { whole = refl; taking = h; spared = omega arith })
send_loop_lem [] (x ∷ xs) h enough = absurd (omega arith)
send_loop_lem (Sent.took n ∷ script) (x ∷ xs) h enough =
    let (pieces, left, runs, pushed) =
      send_loop_lem script (drop n xs) h (omega (arith, length-drop n xs)) in
    (
      take (suc n) (x ∷ xs) ∷ pieces,
      left,
      rw (runs, send_loop) refl,
      record {
        whole = ap (◌++◌ (take (suc n) (x ∷ xs))) pushed.whole ∙ take-drop (suc n) (x ∷ xs);
        taking = pushed.taking;
        spared = omega (arith, pushed.spared, length-drop n xs);
      },
    )
send_loop_lem (Sent.would_block ∷ script) (x ∷ xs) h enough =
    let (pieces, left, runs, pushed) = send_loop_lem script (x ∷ xs) h enough in
    (
      pieces,
      left,
      runs,
      record { whole = pushed.whole; taking = pushed.taking; spared = pushed.spared },
    )
send_loop_lem (Sent.failed ∷ script) (x ∷ xs) h enough = absurd h

length-take-le : (n : ℕ) (xs : Text) → length (take n xs) + length (drop n xs) ≡ length xs
length-take-le zero xs = omega arith
length-take-le (suc n) [] = omega arith
length-take-le (suc n) (x ∷ xs) = omega (arith, length-take-le n xs)

take_short : (n : ℕ) (xs : Text) → length xs < n → take n xs ≡ xs
take_short zero xs h = absurd (omega arith)
take_short (suc n) [] h = refl
take_short (suc n) (x ∷ xs) h = ap (◌∷◌ x) (take_short n xs (omega arith))

-- A whole file is sent, where enough calls take something. One round for each byte and one more
-- is enough fuel.
pub send_blocks_lem :
    (fuel : ℕ) (script : List Sent) (bytes : Text)
    → length bytes < fuel
    → Taking script
    → length bytes ≤ takes script
    → (pieces : List Text) × (left : List Sent) × (send_blocks fuel script bytes
        ≡ some (pieces, left))
      × Pushed pieces left script bytes
unfolding send_blocks
send_blocks_lem zero script bytes f h enough = absurd (omega arith)
send_blocks_lem (suc fuel) script bytes f h enough =
    let (pieces, left, runs, pushed) =
      send_loop_lem script (take 1024 bytes) h (omega (arith, length-take-le 1024 bytes)) in
    elim (Bool-cases (ltb (length bytes) 1024)) [
      | inl short ↦
          let e = take_short 1024 bytes (ltb→lt (length bytes) 1024 short) in
          (
            pieces,
            left,
            rw (runs, short, send_blocks) refl,
            record {
              whole = pushed.whole ∙ e;
              taking = pushed.taking;
              spared = omega (arith, pushed.spared, ap length e);
            },
          )
      | inr long ↦
          let (more, left', runs', pushed') =
            send_blocks_lem fuel left (drop 1024 bytes)
              (omega (arith, length-drop 1024 bytes, ltb→le (length bytes) 1024 long)) pushed.taking
              (omega (arith, pushed.spared, length-take-le 1024 bytes)) in
          (
            pieces ++ more,
            left',
            rw (runs, long, runs', send_blocks) refl,
            record {
              whole =
                  concat-append pieces more
                  ∙ ap (λ s. s ++ concat more) pushed.whole
                  ∙ ap (◌++◌ (take 1024 bytes)) pushed'.whole
                  ∙ take-drop 1024 bytes;
              taking = pushed'.taking;
              spared = omega (arith, pushed.spared, pushed'.spared, length-take-le 1024 bytes);
            },
          )
    ]
