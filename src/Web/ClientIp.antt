-- ===== src/Web/ClientIp.antt =====
-- `ClientIP` of backend/internal/httpx/respond.go. `net.ParseIP` with the text of its result, and
-- `net.SplitHostPort`, are parameters.
use spin_the_wheel.Prelude.{
  ◌≡◌, ◌⊎◌, inl, inr, refl, ap, Bool, true, false, Option, none, some, [], ◌∷◌, Bytes, ◌==◌,
  if◌then◌else◌,
}

pub record NetLibrary : Type 0 where
  pub trim : Bytes → Bytes
  pub parse_ip : Bytes → Option Bytes
  pub split_host : Bytes → Option Bytes

-- What the function reads of a request: two headers, empty where they are absent, and the peer.
pub record Peer : Type 0 where
  pub real_ip : Bytes
  pub forwarded_for : Bytes
  pub remote_addr : Bytes

-- `strings.Cut` at a comma
unfoldable pub before_comma : Bytes → Bytes
before_comma [] = []
before_comma (c ∷ cs) = let rest = before_comma cs in if c == 0x2c then [] else c ∷ rest

abbrev pub parsed_ip : NetLibrary → Bytes → Option Bytes
parsed_ip net [] = none
parsed_ip net (b ∷ bs) = net.parse_ip (b ∷ bs)

abbrev pub or_else : Option Bytes → Option Bytes → Option Bytes
or_else none o = o
or_else (some a) o = some a

abbrev pub first_ip : NetLibrary → Bytes → Option Bytes
first_ip net [] = none
first_ip net (b ∷ bs) = net.parse_ip (net.trim (before_comma (b ∷ bs)))

-- The address of the headers of a proxy.
unfoldable pub forwarded_ip : NetLibrary → Peer → Option Bytes
unfolding before_comma
forwarded_ip net p = or_else (parsed_ip net (net.trim p.real_ip)) (first_ip net p.forwarded_for)

-- The address of the connection.
abbrev pub host_of : Option Bytes → Bytes → Bytes
host_of none address = address
host_of (some host) address = host

abbrev pub forwarded_or : Option Bytes → Bytes → Bytes
forwarded_or none address = address
forwarded_or (some ip) address = ip

-- `ClientIP`
unfoldable pub client_ip : NetLibrary → Bool → Peer → Bytes
unfolding forwarded_ip
client_ip net trust_proxy p =
    let peer = host_of (net.split_host p.remote_addr) p.remote_addr in
    if trust_proxy then forwarded_or (forwarded_ip net p) peer else peer

parsed_ip-given :
    (net : NetLibrary) (v ip : Bytes)
    → parsed_ip net v ≡ some ip
    → (given : Bytes) × (net.parse_ip given ≡ some ip)
parsed_ip-given net [] ip e = cc
parsed_ip-given net (b ∷ bs) ip e = (b ∷ bs, e)

first_ip-given :
    (net : NetLibrary) (v ip : Bytes)
    → first_ip net v ≡ some ip
    → (given : Bytes) × (net.parse_ip given ≡ some ip)
first_ip-given net [] ip e = cc
first_ip-given net (b ∷ bs) ip e = (_, e)

or_else-given :
    (net : NetLibrary) (o o' : Option Bytes) (peer : Bytes)
    → ((ip : Bytes) → o ≡ some ip → (given : Bytes) × (net.parse_ip given ≡ some ip))
    → ((ip : Bytes) → o' ≡ some ip → (given : Bytes) × (net.parse_ip given ≡ some ip))
    → (forwarded_or (or_else o o') peer ≡ peer)
      ⊎ ((given : Bytes) × (net.parse_ip given ≡ some (forwarded_or (or_else o o') peer)))
or_else-given net (some ip) o' peer f g = inr (f ip refl)
or_else-given net none (some ip) peer f g = inr (g ip refl)
or_else-given net none none peer f g = inl refl

from_headers :
    (net : NetLibrary) (p : Peer)
    → (client_ip net true p ≡ client_ip net false p)
      ⊎ ((given : Bytes) × (net.parse_ip given ≡ some (client_ip net true p)))
unfolding client_ip
from_headers net p =
    or_else-given net (parsed_ip net (net.trim p.real_ip)) (first_ip net p.forwarded_for) _
      (parsed_ip-given net (net.trim p.real_ip)) (first_ip-given net p.forwarded_for)

-- Without a trusted proxy the headers of a request are not read: two requests of one peer have one
-- address, whatever their headers. With one, an address that the headers give is the text of a parsed
-- one.
pub client_ip_of_peer :
    (net : NetLibrary) (p q : Peer)
    → p.remote_addr ≡ q.remote_addr
    → (client_ip net false p ≡ client_ip net false q)
      × ((client_ip net true p ≡ client_ip net false p)
          ⊎ ((given : Bytes) × (net.parse_ip given ≡ some (client_ip net true p))))
unfolding client_ip
client_ip_of_peer net p q e = (ap (λ a. host_of (net.split_host a) a) e, from_headers net p)
