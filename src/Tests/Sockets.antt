-- ===== src/Tests/Sockets.antt =====
-- A SOCKS5 server of internal/proxy/socks5.go that asks for a password and accepts it, and the target is a name.
use proxy_mesh.Prelude.{pos, true, none, some, [], ◌∷◌, ◌++◌, ◌≡◌, refl, arith}
use proxy_mesh.Prelude.Bytes.{bytes_of, read_full}
use proxy_mesh.Socks5.{
  Socks5Config, Net, Line, v4, request, dial_socks5, handshake, negotiate, authenticate,
  make_request, read_reply, write, receive, address_length,
}
use proxy_mesh.Socks5.Messages.{by_ip, read_request, read_request-request}
use proxy_mesh.Socks5.Closed.{IsClean, dial_socks5-IsClean}
use proxy_mesh.Socks5.Accepted.{HasAccepted, dial_socks5-HasAccepted}

abbrev config : Socks5Config
config = record {
  address = bytes_of "proxy:1080";
  username = bytes_of "user";
  password = bytes_of "secret";
}

abbrev net : Net
net = record {
  split_host_port = λ target. some (target, []);
  atoi = λ text. some (pos 443);
  parse_ip = λ host. none;
}

abbrev line : Line
line = record {
  dials = true;
  has_deadline = true;
  sets_deadline = true;
  writes = λ k. true;
  incoming = 5 ∷ 2 ∷ 1 ∷ 0 ∷ 5 ∷ 0 ∷ 0 ∷ 1 ∷ 127 ∷ 0 ∷ 0 ∷ 1 ∷ 4 ∷ 56 ∷ 72 ∷ 105 ∷ [];
  resets_deadline = true;
}

read_request-request_example :
    read_request (request (some (v4 (127 ∷ 0 ∷ 0 ∷ 1 ∷ []))) [] 443 ++ 9 ∷ [])
    ≡ some (by_ip (v4 (127 ∷ 0 ∷ 0 ∷ 1 ∷ [])), 443, 9 ∷ [])
read_request-request_example =
    read_request-request (some (v4 (127 ∷ 0 ∷ 0 ∷ 1 ∷ []))) [] 443 (9 ∷ []) refl (omega arith)
      (omega arith)

dial_socks5-IsClean_example : IsClean line (dial_socks5 net line config (bytes_of "target"))
dial_socks5-IsClean_example = dial_socks5-IsClean net line config (bytes_of "target")

dial_socks5-HasAccepted_example : HasAccepted net line config line.incoming (72 ∷ 105 ∷ [])
unfolding bytes_of dial_socks5 handshake negotiate authenticate make_request read_reply write
    receive address_length read_full
dial_socks5-HasAccepted_example = dial_socks5-HasAccepted net line config (bytes_of "target") refl
