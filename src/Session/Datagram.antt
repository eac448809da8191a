-- ===== src/Session/Datagram.antt =====
-- lib/senddatagram.c: the addresses that a name has are tried until one can be connected. The results of
-- the system calls are inputs; logging is left out.
use rmsgw.Prelude.{
  ◌≡◌, refl, inl, inr, Bool, not, ◌&&◌, Option, none, some, List, [], ◌∷◌, if◌then◌else◌,
  Bool-cases, ℤ, pos, negsuc, is_neg,
}

-- What happens at an address: the result of `socket`, and whether `connect` succeeds.
pub record Address : Type 0 where
  pub sd : ℤ
  pub connects : Bool

-- The loop: the socket that is connected, and the sockets that were closed before.
unfoldable pub try_addresses : List Address → Option ℤ × List ℤ
try_addresses [] = (none, [])
try_addresses (a ∷ addresses) =
    let (found, closed) = try_addresses addresses in
    if is_neg a.sd
    then (found, closed)
    else if a.connects
    then (some a.sd, [])
    else (found, a.sd ∷ closed)

-- sendDatagram: the result, and the sockets that are left open. `none` is a failure of `getaddrinfo`,
-- and the last argument the result of `send`.
unfoldable pub send_datagram : Option (List Address) → ℤ → ℤ × List ℤ
unfolding try_addresses
send_datagram none sent = (negsuc 0, [])
send_datagram (some addresses) sent = elim (try_addresses addresses).0 [
  | none ↦ (negsuc 0, [])
  | some sd ↦ if is_neg sent then (negsuc 0, sd ∷ []) else (pos 0, [])
]

abbrev pub usable : Address → Bool
usable a = not (is_neg a.sd) && a.connects

-- The socket of the first address that has one and can be connected.
abbrev pub first_usable : List Address → Option ℤ
first_usable [] = none
first_usable (a ∷ addresses) = if usable a then some a.sd else first_usable addresses

try_addresses-first_usable :
    (addresses : List Address) → (try_addresses addresses).0 ≡ first_usable addresses
unfolding try_addresses
try_addresses-first_usable [] = refl
try_addresses-first_usable (a ∷ addresses) =
    let ih = try_addresses-first_usable addresses in
    elim (Bool-cases (is_neg a.sd)) [
      | inl bad ↦ rw bad ih
      | inr ok ↦ elim (Bool-cases a.connects) [
        | inl up ↦ rw (ok, up) refl
        | inr down ↦ rw (ok, down) ih
      ]
    ]
