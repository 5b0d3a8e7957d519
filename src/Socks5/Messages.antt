-- ===== src/Socks5/Messages.antt =====
-- What a SOCKS5 server reads in the messages of internal/proxy/socks5.go: the parts are those of RFC 1928 and
-- RFC 1929, each with its length in front.
use mathlib.Core.List.{append_assoc}
use proxy_mesh.Prelude.{
  not, ◌||◌, ◌==◌, nat_eq, if◌then◌else◌, ℕ, ◌+◌, ◌*◌, ◌/◌, ◌%◌, ◌≤◌, Option, none, some, [], ◌∷◌,
  ◌++◌, length, ◌≡◌, refl, sym, ◌∙◌, ap, arith,
}
use proxy_mesh.Prelude.Bytes.{Bytes, read_full, read_full-append}
use proxy_mesh.Socks5.{
  Socks5Config, Ip, v4, v6, prefixed, auth_message, put_uint16, address_of, request,
}

infixl 5 ◌>>=◌
abbrev ◌>>=◌ : {A B : Type 0} → Option A → (A → Option B) → Option B
none >>= f = none
some a >>= f = f a

-- A length and as many bytes.
abbrev read_prefixed : Bytes → Option (Bytes × Bytes)
read_prefixed [] = none
read_prefixed (n ∷ bs) = read_full n bs

-- The user name, the password, and what follows.
unfoldable pub read_auth : Bytes → Option (Bytes × Bytes × Bytes)
read_auth [] = none
read_auth (version ∷ bs) =
    if not (version == 1)
    then none
    else read_prefixed bs >>= λ user.
        read_prefixed user.1 >>= λ password. some (user.0, password.0, password.1)

-- Where a request asks to connect to.
pub data Destination : Type 0 where
  by_ip : Ip → Destination
  by_name : Bytes → Destination

abbrev read_ip : (Bytes → Ip) → Option (Bytes × Bytes) → Option (Destination × Bytes)
read_ip version read = read >>= λ a. some (by_ip (version a.0), a.1)

abbrev read_name : Option (Bytes × Bytes) → Option (Destination × Bytes)
read_name read = read >>= λ host. some (by_name host.0, host.1)

abbrev read_destination : ℕ → Bytes → Option (Destination × Bytes)
read_destination t bs =
    if t == 1
    then read_ip v4 (read_full 4 bs)
    else if t == 4
    then read_ip v6 (read_full 16 bs)
    else if t == 3
    then read_name (read_prefixed bs)
    else none

abbrev read_port : Destination → Bytes → Option (Destination × ℕ × Bytes)
read_port d [] = none
read_port d (h ∷ []) = none
read_port d (h ∷ l ∷ bs) = some (d, 256 * h + l, bs)

-- The destination and the port of a CONNECT request, and what follows.
unfoldable pub read_request : Bytes → Option (Destination × ℕ × Bytes)
read_request (v ∷ command ∷ reserved ∷ t ∷ bs) =
    if not (v == 5) || not (command == 1) || not (reserved == 0)
    then none
    else read_destination t bs >>= λ d. read_port d.0 d.1
read_request _ = none

-- The lengths of the two kinds of address.
abbrev pub HasLength : Option Ip → Type 0
HasLength none = Unit
HasLength (some (v4 bytes)) = length bytes ≡ 4
HasLength (some (v6 bytes)) = length bytes ≡ 16

abbrev pub destination : Option Ip → Bytes → Destination
destination none host = by_name host
destination (some i) host = by_ip i

read_prefixed-prefixed :
    (s rest : Bytes) → length s ≤ 255 → read_prefixed (prefixed s ++ rest) ≡ some (s, rest)
read_prefixed-prefixed s rest h =
    let n : length s % 256 ≡ length s = omega arith in rw n (read_full-append s rest)

-- A server reads the user name and the password that the client has, if each has 255 bytes at most, whatever
-- follows the message.
pub read_auth-auth_message :
    (c : Socks5Config) (rest : Bytes)
    → length c.username ≤ 255
    → length c.password ≤ 255
    → read_auth (auth_message c ++ rest) ≡ some (c.username, c.password, rest)
unfolding read_auth auth_message
read_auth-auth_message c rest u p =
    rw
      (
        append_assoc c.username (prefixed c.password) rest,
        read_prefixed-prefixed c.username (prefixed c.password ++ rest) u,
        read_prefixed-prefixed c.password rest p,
      )
      refl

read_port-put_uint16 :
    (d : Destination) (port : ℕ) (rest : Bytes)
    → port ≤ 65535
    → read_port d (put_uint16 port ++ rest) ≡ some (d, port, rest)
unfolding put_uint16
read_port-put_uint16 d port rest h =
    let value : 256 * ((port / 256) % 256) + port % 256 ≡ port = omega arith in
    ap (λ p. some (d, p, rest)) value

read_destination-address_of :
    (ip : Option Ip) (host rest : Bytes)
    → HasLength ip
    → length host ≤ 255
    → read_request (5 ∷ 1 ∷ 0 ∷ address_of ip host ++ rest) ≡ read_port (destination ip host) rest
unfolding read_request
read_destination-address_of none host rest h k = rw (read_prefixed-prefixed host rest k) refl
read_destination-address_of (some (v4 bytes)) host rest h k =
    rw (sym h, read_full-append bytes rest) refl
read_destination-address_of (some (v6 bytes)) host rest h k =
    rw (sym h, read_full-append bytes rest) refl

-- A server reads the destination and the port that the client means, if the port and the length of the name
-- are in range and an address has 4 or 16 bytes, whatever follows the message.
pub read_request-request :
    (ip : Option Ip) (host : Bytes) (port : ℕ) (rest : Bytes)
    → HasLength ip
    → length host ≤ 255
    → port ≤ 65535
    → read_request (request ip host port ++ rest) ≡ some (destination ip host, port, rest)
unfolding request
read_request-request ip host port rest h k p =
    rw (append_assoc (address_of ip host) (put_uint16 port) rest) (
      read_destination-address_of ip host (put_uint16 port ++ rest) h k
      ∙ read_port-put_uint16 (destination ip host) port rest p)
