-- ===== src/Socks5.antt =====
-- The SOCKS5 client of internal/proxy/socks5.go. A text is the list of its bytes. What is done on the
-- connection is an argument: whether dialling, each write and each change of the deadline succeed, and the bytes
-- that the server sends until it closes. net.SplitHostPort, strconv.Atoi and net.ParseIP are parameters.
pub mod Messages
pub mod Steps
pub mod Bound
pub mod Accepted
pub mod Closed
use proxy_mesh.Prelude.{
  ℕ, zero, suc, ℤ, pos, negsuc, ◌/◌, ◌%◌, ◌+◌, String, Bool, true, false, not, ◌&&◌, ◌||◌, Option,
  none, some, List, [], ◌∷◌, ◌++◌, ◌==◌, nat_eq, if◌then◌else◌, Result, ok, err, ltb, leb, length,
  is_empty,
}
use proxy_mesh.Prelude.Bytes.{Bytes, read_full}

pub record Socks5Config : Type 0 where
  pub address : Bytes
  pub username : Bytes
  pub password : Bytes

-- What net.ParseIP and To4 tell apart: the bytes of an address of version 4, and of version 6.
pub data Ip : Type 0 where
  v4 v6 : Bytes → Ip

pub record Net : Type 0 where
  pub split_host_port : Bytes → Option (Bytes × Bytes)
  pub atoi : Bytes → Option ℤ
  pub parse_ip : Bytes → Option Ip

-- The system around one call. A deadline is set only if the context has one.
pub record Line : Type 0 where
  pub dials : Bool
  pub has_deadline : Bool
  pub sets_deadline : Bool
  pub writes : ℕ → Bool
  pub incoming : Bytes
  pub resets_deadline : Bool

pub data DialError : Type 0 where
  dial_failed deadline_failed write_failed read_failed : DialError
  method_rejected credentials_too_long credentials_rejected : DialError
  invalid_target invalid_port hostname_too_long invalid_address_type : DialError
  -- With the message of the reply.
  connect_failed : String → DialError

-- What has been written to the connection, and what is left to read of it.
pub record Exchange : Type 0 where
  pub sent : List Bytes
  pub left : Bytes

abbrev pub Step : Type 0 → Type 0
Step A = Exchange × Result DialError A

infixl 5 ◌then◌
abbrev pub ◌then◌ : {A B : Type 0} → Step A → (Exchange → A → Step B) → Step B
(x, ok a) then f = f x a
(x, err e) then f = (x, err e)

abbrev pub fail : {A : Type 0} → DialError → Exchange → Step A
fail e x = (x, err e)

unfoldable pub write : Bool → Bytes → Exchange → Step (Unit {0})
write true message x = (record x { sent = x.sent ++ message ∷ [] }, ok tt)
write false message x = (x, err write_failed)

abbrev pub taken : Exchange → Option (Bytes × Bytes) → Step Bytes
taken x none = (record x { left = [] }, err read_failed)
taken x (some (read, rest)) = (record x { left = rest }, ok read)

-- io.ReadFull into a buffer of n bytes.
unfoldable pub receive : ℕ → Exchange → Step Bytes
receive n x = taken x (read_full n x.left)

-- The byte at an index of a buffer that has it.
abbrev pub byte_at : ℕ → Bytes → ℕ
byte_at n [] = 0
byte_at zero (b ∷ bs) = b
byte_at (suc n) (b ∷ bs) = byte_at n bs

abbrev nth : ℕ → List String → String
nth n [] = ""
nth zero (t ∷ ts) = t
nth (suc n) (t ∷ ts) = nth n ts

abbrev pub has_credentials : Socks5Config → Bool
has_credentials c = not (is_empty c.username) || not (is_empty c.password)

abbrev pub method : Socks5Config → ℕ
method c = if has_credentials c then 2 else 0

abbrev pub greeting : Socks5Config → Bytes
greeting c = 5 ∷ 1 ∷ method c ∷ []

-- byte(len(s)), then s.
abbrev pub prefixed : Bytes → Bytes
prefixed s = length s % 256 ∷ s

unfoldable pub auth_message : Socks5Config → Bytes
auth_message c = 1 ∷ prefixed c.username ++ prefixed c.password

unfoldable pub put_uint16 : ℕ → Bytes
put_uint16 n = (n / 256) % 256 ∷ n % 256 ∷ []

abbrev pub address_of : Option Ip → Bytes → Bytes
address_of (some (v4 bytes)) host = 1 ∷ bytes
address_of (some (v6 bytes)) host = 4 ∷ bytes
address_of none host = 3 ∷ prefixed host

unfoldable pub request : Option Ip → Bytes → ℕ → Bytes
request ip host port = 5 ∷ 1 ∷ 0 ∷ address_of ip host ++ put_uint16 port

abbrev pub is_some : {A : Type 0} → Option A → Bool
is_some none = false
is_some (some a) = true

-- The length of the address in the reply, by its type.
unfoldable pub address_length : ℕ → Exchange → Step ℕ
address_length t x =
    if t == 1
    then (x, ok 4)
    else if t == 4
    then (x, ok 16)
    else if t == 3
    then receive 1 x
    then (λ y b. (y, ok (byte_at 0 b)))
    else (x, err invalid_address_type)

-- `err != nil || port < 1 || port > 65535`
abbrev pub checked_port : Option ℤ → Option ℕ
checked_port none = none
checked_port (some (negsuc n)) = none
checked_port (some (pos port)) = if ltb port 1 || ltb 65535 port then none else some port

abbrev join : String → String → String
join String.[] t = t
join (String.◌∷◌ c s) t = String.◌∷◌ c (join s t)

abbrev hex_digit : ℕ → String
hex_digit n = nth n (
    "0" ∷ "1" ∷ "2" ∷ "3" ∷ "4" ∷ "5" ∷ "6" ∷ "7" ∷ "8" ∷ "9" ∷ "A" ∷ "B" ∷ "C" ∷ "D" ∷ "E" ∷ "F"
    ∷ [])

-- The text of a byte in base 16, in capitals.
abbrev hex : ℕ → String
hex n = if ltb n 16 then hex_digit n else join (hex_digit (n / 16)) (hex_digit (n % 16))

-- replyMessage
unfoldable pub reply_message : ℕ → String
reply_message code =
    if ltb code 9
    then nth code (
        "succeeded" ∷ "general failure" ∷ "not allowed" ∷ "network unreachable" ∷ "host unreachable"
        ∷ "connection refused" ∷ "TTL expired" ∷ "command unsupported" ∷ "address unsupported" ∷ [])
    else join "unknown error " (hex code)

-- A connection is closed by the call, or it is not; the result is what its reader has left.
pub record Dialed : Type 0 where
  pub sent : List Bytes
  pub closed : Bool
  pub result : Result DialError Bytes

module _ (net : Net) (line : Line) (c : Socks5Config) where
  -- The method and its reply.
  unfoldable pub negotiate : Exchange → Step (Unit {0})
  negotiate x = write (line.writes 0) (greeting c) x then λ x₁ done. receive 2 x₁ then λ x₂ reply.
      if not (byte_at 0 reply == 5) || not (byte_at 1 reply == method c)
      then fail method_rejected x₂
      else (x₂, ok tt)

  -- The user name and the password, if the reply asks for them.
  unfoldable pub authenticate : Exchange → Step (Unit {0})
  authenticate x =
      if not (method c == 2)
      then (x, ok tt)
      else if ltb 255 (length c.username) || ltb 255 (length c.password)
      then fail credentials_too_long x
      else write (line.writes 1) (auth_message c) x then λ x₁ done. receive 2 x₁ then λ x₂ reply.
          if not (byte_at 0 reply == 1) || not (byte_at 1 reply == 0)
          then fail credentials_rejected x₂
          else (x₂, ok tt)

  abbrev pub request_for : Bytes → ℕ → Exchange → Step Bytes
  request_for host port x =
      if not (is_some (net.parse_ip host)) && ltb 255 (length host)
      then fail hostname_too_long x
      else (x, ok (request (net.parse_ip host) host port))

  abbrev pub with_port : Bytes → Exchange → Option ℕ → Step Bytes
  with_port host x none = fail invalid_port x
  with_port host x (some port) = request_for host port x

  abbrev pub with_target : Exchange → Option (Bytes × Bytes) → Step Bytes
  with_target x none = fail invalid_target x
  with_target x (some (host, port_text)) = with_port host x (checked_port (net.atoi port_text))

  -- The request for the target.
  unfoldable pub make_request : Bytes → Exchange → Step Bytes
  make_request target x = with_target x (net.split_host_port target)

  -- The reply: four bytes, the address by its type, and a port.
  unfoldable pub read_reply : Exchange → Step (Unit {0})
  read_reply x = receive 4 x then λ x₁ head.
      if not (byte_at 0 head == 5) || not (byte_at 1 head == 0)
      then fail (connect_failed (reply_message (byte_at 1 head))) x₁
      else address_length (byte_at 3 head) x₁ then λ x₂ n.
          receive (n + 2) x₂ then λ x₃ discard. (x₃, ok tt)

  unfoldable pub handshake : Bytes → Exchange → Step (Unit {0})
  handshake target x = negotiate x then λ x₁ done. authenticate x₁ then λ x₂ done.
      make_request target x₂ then λ x₃ message.
      write (line.writes 2) message x₃ then λ x₄ done. read_reply x₄

  -- The end: `ok = true`, and the deadline is taken off.
  abbrev pub finish : Step (Unit {0}) → Dialed
  finish (x, err e) = record { sent = x.sent; closed = true; result = err e }
  finish (x, ok d) = record {
    sent = x.sent;
    closed = false;
    result = if line.resets_deadline then ok x.left else err deadline_failed;
  }

  unfoldable pub dial_socks5 : Bytes → Dialed
  dial_socks5 target =
      if not line.dials
      then record { sent = []; closed = false; result = err dial_failed }
      else if line.has_deadline && not line.sets_deadline
      then record { sent = []; closed = true; result = err deadline_failed }
      else finish (handshake target (record { sent = []; left = line.incoming }))
