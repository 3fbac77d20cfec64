-- ===== src/Par2/Packet/Recovery.antt =====
-- The recovery packet: an exponent in four bytes, and the parity data.
use par2engine.Base.{
  ℕ, ◌%◌, ◌^◌, ◌≤◌, ◌≡◌, refl, subst, ap, ap₂, ◌∙◌, arith, List, ◌++◌, take, drop, length, ok,
  length-append, length-take, length-drop, take-append-drop,
}
use par2engine.Par2.Bytes.{IsBytes, le_value, le_bytes}
use par2engine.Par2.Bytes.Laws.{
  length-le_bytes, le_value-le_bytes, take-append_length, drop-append_length, le_bytes-le_value,
  IsBytes-take,
}
use par2engine.Par2.Packet.{RecoveryPacket, parse_recovery_packet}

-- The layout of the specification.
pub print_recovery_packet : RecoveryPacket → List ℕ
print_recovery_packet p = le_bytes 4 p.exponent ++ p.parity

-- A printed recovery packet parses back to itself, if its exponent is within the limit and its data
-- has a whole number of 4-byte words.
pub parse-print_recovery_packet :
    (p : RecoveryPacket)
    → p.exponent ≤ 32767
    → length p.parity % 4 ≡ 0
    → parse_recovery_packet (print_recovery_packet p) ≡ ok p
unfolding parse_recovery_packet print_recovery_packet
parse-print_recovery_packet p small aligned =
    let head = length-le_bytes 4 p.exponent in
    let size = length-append (le_bytes 4 p.exponent) p.parity in
    let first = take-append_length 4 (le_bytes 4 p.exponent) p.parity head in
    let rest = drop-append_length 4 (le_bytes 4 p.exponent) p.parity head in
    let value = le_value-le_bytes 4 p.exponent (omega arith) in
    rw (first, rest, value, size, head) (ground arith)

pub accepted_recovery :
    (body : List ℕ) (p : RecoveryPacket)
    → parse_recovery_packet body ≡ ok p
    → (4 ≤ length body)
      × (length body % 4 ≡ 0)
      × (le_value (take 4 body) ≤ 32767)
      × (record { exponent = le_value (take 4 body) % 2 ^ 16; parity = drop 4 body } ≡ p)
unfolding parse_recovery_packet
accepted_recovery body p run = ground arith

-- What a parsed packet holds, whatever the numbers in the body are.
pub recovery_bounds :
    (body : List ℕ) (p : RecoveryPacket)
    → parse_recovery_packet body ≡ ok p
    → (p.exponent ≤ 32767) × (length p.parity % 4 ≡ 0)
recovery_bounds body p run =
    let (long, whole, small, e) = accepted_recovery body p run in
    subst (λ (q : RecoveryPacket). (q.exponent ≤ 32767) × (length q.parity % 4 ≡ 0)) e
      (omega arith, omega (arith, length-drop 4 body))

-- What `ParseRecoveryPacket` accepts of a body of bytes is what the layout writes for the packet
-- that it returns, whose exponent is within the limit and whose data has a whole number of 4-byte
-- words; so the cast of the exponent to 16 bits loses nothing.
pub print-parse_recovery_packet :
    (body : List ℕ) (p : RecoveryPacket)
    → IsBytes body
    → parse_recovery_packet body ≡ ok p
    → (print_recovery_packet p ≡ body) × (p.exponent ≤ 32767) × (length p.parity % 4 ≡ 0)
unfolding print_recovery_packet
print-parse_recovery_packet body p bytes run =
    let (long, whole, small, e) = accepted_recovery body p run in
    subst
      (λ (q : RecoveryPacket).
        (le_bytes 4 q.exponent ++ q.parity ≡ body)
        × (q.exponent ≤ 32767)
        × (length q.parity % 4 ≡ 0))
      e
      (
        ap₂ ◌++◌
              (ap (le_bytes 4) (omega arith)
                ∙ ap (λ (n : ℕ). le_bytes n (le_value (take 4 body)))
                    (omega (arith, length-take 4 body))
                ∙ le_bytes-le_value (take 4 body) (IsBytes-take 4 body bytes))
              refl
            ∙ take-append-drop 4 body,
        omega arith,
        omega (arith, length-drop 4 body),
      )
