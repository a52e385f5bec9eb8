-- ===== src/FileClient/Address.antt =====
-- The client reads the address that the file server has written (Dataconnect::send_passive).
use chatroom.Base.{
  ℕ, suc, ◌+◌, ◌-◌, ◌*◌, ◌/◌, ◌%◌, ◌<◌, ◌≡◌, refl, ap, ◌∙◌, Text, text, Bool, true, false, [], ◌∷◌,
  ◌++◌, some, if◌then◌else◌, ◌==◌, take, length, is_digit, arith, decimal, AllDigits,
  decimal-AllDigits, value_from, value-decimal, append_assoc, append-nil, length-append,
}
use chatroom.FileServer.Data.{passive_reply}
use chatroom.FileClient.Passive.{put, host_loop, port_loop, seek, open_passive_mode}

-- "h1.h2.h3.h4"
abbrev pub dotted : ℕ × ℕ × ℕ × ℕ → Text
dotted (ip1, ip2, ip3, ip4) =
    decimal ip1 ++ (b'.' ∷ (decimal ip2 ++ (b'.' ∷ (decimal ip3 ++ (b'.' ∷ decimal ip4)))))

-- Behind the text so far, ass[n] = c appends.
put_end : (c : ℕ) (ass : Text) → put (length ass) c ass ≡ ass ++ c ∷ []
unfolding put
put_end c [] = refl
put_end c (a ∷ ass) = ap (◌∷◌ a) (put_end c ass)

length_end : (c : ℕ) (ass : Text) → length (ass ++ c ∷ []) ≡ suc (length ass)
length_end c ass = omega (arith, length-append ass (c ∷ []))

-- The loop after one more character of the host.
moved :
    (c d : ℕ) (s ass : Text)
    → host_loop s (suc (length ass)) d (put (length ass) c ass)
      ≡ host_loop s (length (ass ++ c ∷ [])) d (ass ++ c ∷ [])
moved c d s ass = rw (put_end c ass, length_end c ass) refl

host_digit :
    (c : ℕ) (s : Text) (d : ℕ) (ass : Text)
    → is_digit c ≡ true
    → host_loop (c ∷ s) (length ass) d ass
      ≡ host_loop s (suc (length ass)) d (put (length ass) c ass)
unfolding host_loop
host_digit c s d ass h = rw (h, host_loop) refl

host_digits :
    (ds s : Text) (d : ℕ) (ass : Text)
    → AllDigits ds
    → host_loop (ds ++ s) (length ass) d ass ≡ host_loop s (length (ass ++ ds)) d (ass ++ ds)
host_digits [] s d ass h = rw (append-nil ass) refl
host_digits (c ∷ ds) s d ass h =
    host_digit c (ds ++ s) d ass h.0
    ∙ moved c d (ds ++ s) ass
    ∙ host_digits ds s d (ass ++ c ∷ []) h.1
    ∙ ap (λ t. host_loop s (length t) d t) (append_assoc ass (c ∷ []) ds)

host_comma :
    (s : Text) (d : ℕ) (ass : Text)
    → (d == 3) ≡ false
    → host_loop (b',' ∷ s) (length ass) d ass
      ≡ host_loop s (suc (length ass)) (suc d) (put (length ass) b'.' ass)
unfolding host_loop
host_comma s d ass h = rw (h, host_loop) refl

-- One number of the host and the comma behind it.
host_part :
    (n : ℕ) (s : Text) (d : ℕ) (ass : Text)
    → (d == 3) ≡ false
    → host_loop (decimal n ++ (b',' ∷ s)) (length ass) d ass
      ≡ host_loop s
          (length ((ass ++ decimal n) ++ b'.' ∷ []))
          (suc d)
          ((ass ++ decimal n) ++ b'.' ∷ [])
host_part n s d ass h =
    host_digits (decimal n) (b',' ∷ s) d ass (decimal-AllDigits n)
    ∙ host_comma s d (ass ++ decimal n) h
    ∙ moved b'.' (suc d) s (ass ++ decimal n)

take_all : (ass : Text) → take (length ass) ass ≡ ass
take_all [] = refl
take_all (c ∷ ass) = ap (◌∷◌ c) (take_all ass)

host_end : (s : Text) (ass : Text) → host_loop (b',' ∷ s) (length ass) 3 ass ≡ some (ass, s)
unfolding host_loop
host_end s ass = ap (λ t. some (t, s)) (take_all ass)

-- The four numbers of the host.
host_lem :
    (ip1 ip2 ip3 ip4 : ℕ) (s : Text)
    → host_loop
        (decimal ip1
          ++ (b','
              ∷ (decimal ip2 ++ (b',' ∷ (decimal ip3 ++ (b',' ∷ (decimal ip4 ++ (b',' ∷ s))))))))
        0
        0
        []
      ≡ some (dotted (ip1, ip2, ip3, ip4), s)
host_lem ip1 ip2 ip3 ip4 s =
    host_part ip1 _ 0 [] refl
    ∙ host_part ip2 _ 1 _ refl
    ∙ host_part ip3 _ 2 _ refl
    ∙ host_digits (decimal ip4) (b',' ∷ s) 3 _ (decimal-AllDigits ip4)
    ∙ host_end s _
    ∙ ap (λ t. some (t, s)) (simp append_assoc)

port_digits :
    (ds s : Text) (second : Bool) (p1 p2 : ℕ)
    → AllDigits ds
    → port_loop (ds ++ s) second p1 p2
      ≡ port_loop s second
          (if second then p1 else value_from p1 ds)
          (if second then value_from p2 ds else p2)
unfolding port_loop
port_digits [] s true p1 p2 h = refl
port_digits [] s false p1 p2 h = refl
port_digits (c ∷ ds) s true p1 p2 h =
    rw (h.0, port_loop) (port_digits ds s true p1 (p2 * 10 + (c - b'0')) h.1)
port_digits (c ∷ ds) s false p1 p2 h =
    rw (h.0, port_loop) (port_digits ds s false (p1 * 10 + (c - b'0')) p2 h.1)

-- The two numbers of the port.
port_lem :
    (q1 q2 : ℕ)
    → port_loop (decimal q1 ++ (b',' ∷ (decimal q2 ++ b')' ∷ []))) false 0 0
      ≡ some (q1, q2, b')' ∷ [])
unfolding port_loop
port_lem q1 q2 =
    port_digits (decimal q1) (b',' ∷ (decimal q2 ++ b')' ∷ [])) false 0 0 (decimal-AllDigits q1)
    ∙ port_digits (decimal q2) (b')' ∷ []) true (value_from 0 (decimal q1)) 0 (decimal-AllDigits q2)
    ∙ rw (value-decimal q1, value-decimal q2) refl

-- From the answer that the file server writes for an address and a port below 65536, the client
-- reads that address in dotted form and that port.
pub open_passive_mode-passive_reply :
    (ip : ℕ × ℕ × ℕ × ℕ) (port : ℕ)
    → port < 65536
    → open_passive_mode (passive_reply ip port) ≡ some (dotted ip, port)
unfolding open_passive_mode passive_reply text seek
open_passive_mode-passive_reply (ip1, ip2, ip3, ip4) port h =
    rw
      (
        host_lem ip1 ip2 ip3 ip4
            (decimal (port / 256) ++ (b',' ∷ (decimal (port % 256) ++ b')' ∷ []))),
        port_lem (port / 256) (port % 256),
        open_passive_mode,
      )
      (ap (λ (p : ℕ). some (dotted (ip1, ip2, ip3, ip4), p)) (omega arith))
