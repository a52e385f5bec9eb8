-- ===== src/FileClient/Passive.antt =====
-- FTP_client.cc: openPassiveMode, the address in the answer to PASV. `none` is a loop without end,
-- at a character that is no digit, comma or closing bracket. The numbers are taken to fit in `int`.
use chatroom.Base.{
  ℕ, zero, suc, ◌+◌, ◌-◌, ◌*◌, ◌%◌, Text, Bool, true, false, [], ◌∷◌, ◌++◌, Option, none, some,
  if◌then◌else◌, ◌==◌, take, drop, length, is_digit,
}

-- ass[n] = c
unfoldable pub put : ℕ → ℕ → Text → Text
put n c ass = take n ass ++ c ∷ drop (suc n) ass

-- The first inner loop, on what is left of the answer: the host, up to the fourth comma.
unfoldable pub host_loop : Text → ℕ → ℕ → Text → Option (Text × Text)
unfolding put
host_loop [] n d ass = some (ass, [])
host_loop (c ∷ s) n d ass =
    let digit = host_loop s (suc n) d (put n c ass) in
    let dot = host_loop s (suc n) (suc d) (put n b'.' ass) in
    if is_digit c
    then digit
    else if c == b','
    then (if d == 3 then some (take n ass, s) else dot)
    else none

-- The second, with t == 1 or 2: the two numbers of the port, up to the bracket.
unfoldable pub port_loop : Text → Bool → ℕ → ℕ → Option (ℕ × ℕ × Text)
port_loop [] second p1 p2 = some (p1, p2, [])
port_loop (c ∷ s) second p1 p2 =
    let digit =
      port_loop s second (if second then p1 else p1 * 10 + (c - b'0'))
        (if second then p2 * 10 + (c - b'0') else p2) in
    let comma = port_loop s true p1 p2 in
    if is_digit c
    then digit
    else if c == b','
    then comma
    else if c == b')'
    then some (p1, p2, c ∷ s)
    else none

-- The outer loop, which steps over two characters in each round.
unfoldable pub seek : ℕ → Text → Text → ℕ → ℕ → Option (Text × ℕ × ℕ)
unfolding host_loop port_loop
seek zero s ass p1 p2 = none
seek (suc fuel) [] ass p1 p2 = some (ass, p1, p2)
seek (suc fuel) (c ∷ s) ass p1 p2 =
    let on = seek fuel (drop 1 s) ass p1 p2 in
    if c == b'('
    then elim (host_loop s 0 0 ass) [
      | none ↦ none
      | some (host, s1) ↦ elim (port_loop s1 false p1 p2) [
        | none ↦ none
        | some (q1, q2, s2) ↦ seek fuel (drop 1 s2) host q1 q2
      ]
    ]
    else on

-- The host and the port to which the client connects; htons takes sixteen bits.
unfoldable pub open_passive_mode : Text → Option (Text × ℕ)
unfolding seek
open_passive_mode arr = elim (seek (suc (length arr)) arr [] 0 0) [
  | none ↦ none
  | some (host, p1, p2) ↦ some (host, (p1 * 256 + p2) % 65536)
]
