-- ===== src/Jmap.antt =====
-- src/jmap.rs: the data of a message, the error categories, the address guard and `connect`. The
-- parts of the JMAP client, of the `url` crate and of the resolver that the code calls are the
-- fields of `Network`; the calls to a connected server are taken as arguments where they are used.
-- The addresses of std::net are a list of octets, or of 16-bit segments.

pub mod Guard
pub mod Connect
pub mod Mail
pub mod Lawful
use Prim.Native.Nat.{bit_and}
use jmap2telegram.Prelude.{
  ℕ, ◌/◌, ◌%◌, Bool, true, false, not, ◌&&◌, ◌||◌, List, [], ◌∷◌, Option, none, some, if◌then◌else◌,
  leb, ◌==◌, nat_eq, Text, text, starts_with, Result, ok, err, ℤ,
}

pub record EmailSummary : Type 0 where
  pub id : Text
  pub subject : Text
  pub from_name : Option Text
  pub from_addr : Option Text
  pub preview : Text
  pub received_at : Option ℤ
  pub attachments : List (Text × ℕ)

-- The mailbox roles of jmap_client that the program names; `other_role` stands for all the rest.
pub data Role : Type 0 where
  archive drafts junk sent trash other_role : Role

pub record ChangedEmail : Type 0 where
  pub summary : EmailSummary
  pub mailbox_roles : List Role
  pub keywords : List Text

-- `std::net::Ipv4Addr` by its octets, and `Ipv6Addr` by its first segment and the other seven.
pub record Ipv4Addr : Type 0 where
  pub o0 : ℕ
  pub o1 : ℕ
  pub o2 : ℕ
  pub o3 : ℕ

pub record Ipv6Addr : Type 0 where
  pub s0 : ℕ
  pub s1 : ℕ
  pub s2 : ℕ
  pub s3 : ℕ
  pub s4 : ℕ
  pub s5 : ℕ
  pub s6 : ℕ
  pub s7 : ℕ

pub data IpAddr : Type 0 where
  v4 : Ipv4Addr → IpAddr
  v6 : Ipv6Addr → IpAddr

pub data JmapError : Type 0 where
  insecure_url invalid_url no_host : JmapError
  private_host : Text → IpAddr → JmapError
  unreachable : JmapError
  protocol : Text → JmapError
  message_not_found no_archive_mailbox no_junk_mailbox no_trash_mailbox : JmapError

-- The tests of std::net::Ipv4Addr.
unfoldable pub is_private : Ipv4Addr → Bool
is_private a =
    a.o0 == 10 || a.o0 == 172 && (leb 16 a.o1 && leb a.o1 31) || a.o0 == 192 && a.o1 == 168

unfoldable pub is_documentation : Ipv4Addr → Bool
is_documentation a =
    a.o0 == 192 && (a.o1 == 0 && a.o2 == 2)
    || a.o0 == 198 && (a.o1 == 51 && a.o2 == 100)
    || a.o0 == 203 && (a.o1 == 0 && a.o2 == 113)

unfoldable pub is_unspecified : Ipv4Addr → Bool
is_unspecified a = a.o0 == 0 && (a.o1 == 0 && (a.o2 == 0 && a.o3 == 0))

unfoldable pub is_broadcast : Ipv4Addr → Bool
is_broadcast a = a.o0 == 255 && (a.o1 == 255 && (a.o2 == 255 && a.o3 == 255))

-- RFC 6598, checked by hand in the source.
unfoldable pub is_shared : Ipv4Addr → Bool
is_shared a = a.o0 == 100 && bit_and a.o1 0b1100_0000 == 0b0100_0000

unfoldable pub is_disallowed_v4 : Ipv4Addr → Bool
unfolding is_private is_documentation is_unspecified is_broadcast is_shared
is_disallowed_v4 a =
    is_private a
    || a.o0 == 127
    || a.o0 == 169 && a.o1 == 254
    || is_unspecified a
    || leb 224 a.o0 && leb a.o0 239
    || is_broadcast a
    || is_documentation a
    || is_shared a

-- `Ipv6Addr::to_ipv4_mapped`: ::ffff:a.b.c.d
unfoldable pub to_ipv4_mapped : Ipv6Addr → Option Ipv4Addr
to_ipv4_mapped a =
    if a.s0 == 0 && (a.s1 == 0 && (a.s2 == 0 && (a.s3 == 0 && (a.s4 == 0 && a.s5 == 0xffff))))
    then some (record { o0 = a.s6 / 256; o1 = a.s6 % 256; o2 = a.s7 / 256; o3 = a.s7 % 256 })
    else none

-- All segments but the last are zero: `::`, and `::1` for the loopback address.
abbrev ends_in : ℕ → Ipv6Addr → Bool
ends_in last a =
    a.s0 == 0
    && (a.s1 == 0
        && (a.s2 == 0 && (a.s3 == 0 && (a.s4 == 0 && (a.s5 == 0 && (a.s6 == 0 && a.s7 == last))))))

unfoldable pub is_disallowed_v6 : Ipv6Addr → Bool
is_disallowed_v6 a =
    ends_in 1 a
    || ends_in 0 a
    || bit_and a.s0 0xff00 == 0xff00
    || bit_and a.s0 0xfe00 == 0xfc00
    || bit_and a.s0 0xffc0 == 0xfe80

unfoldable pub is_disallowed_host : IpAddr → Bool
unfolding is_disallowed_v4 is_disallowed_v6 to_ipv4_mapped
is_disallowed_host (v4 a) = is_disallowed_v4 a
is_disallowed_host (v6 a) = elim (to_ipv4_mapped a) [
  | some mapped ↦ is_disallowed_v4 mapped
  | none ↦ is_disallowed_v6 a
]

-- `url::Url::parse`, `host_str`, `port_or_known_default`, `tokio::net::lookup_host`, the session
-- handshake `Client::connect` (url, token, allowed redirect host) and `set_default_account_id`.
pub record Network : Type 1 where
  pub Url : Type 0
  pub Client : Type 0
  pub parse_url : Text → Option Url
  pub host_str : Url → Option Text
  pub port_or_known_default : Url → Option ℕ
  pub lookup_host : Text → ℕ → Option (List IpAddr)
  pub handshake : Text → Text → Text → Option Client
  pub set_default_account_id : Text → Client → Client

-- The loop over the addresses; the flag is `resolved_any`.
unfoldable pub check_addrs : Text → Bool → List IpAddr → Result (Unit {0}) JmapError
check_addrs host resolved_any [] = if resolved_any then ok tt else err unreachable
check_addrs host resolved_any (addr ∷ addrs) =
    let rest = check_addrs host true addrs in
    if is_disallowed_host addr then err (private_host host addr) else rest

-- `unwrap_or(443)`
abbrev pub port_or : Option ℕ → ℕ
port_or none = 443
port_or (some p) = p

module _ (net : Network) where
  open net use {
    Url, Client, parse_url, host_str, port_or_known_default, lookup_host, handshake,
    set_default_account_id,
  }

  unfoldable pub assert_public_host : Text → Text → Result (Unit {0}) JmapError
  unfolding check_addrs
  assert_public_host host server_url = elim (parse_url server_url) [
    | none ↦ err invalid_url
    | some parsed ↦ elim (lookup_host host (port_or (port_or_known_default parsed))) [
      | none ↦ err unreachable
      | some addrs ↦ check_addrs host false addrs
    ]
  ]

  unfoldable pub shake_hands :
      Text → Text → Text → Result (Unit {0}) JmapError → Result Client JmapError
  shake_hands server_url token host (err e) = err e
  shake_hands server_url token host (ok _) = elim (handshake server_url token host) [
    | none ↦ err unreachable
    | some client ↦ ok client
  ]

  unfoldable pub host_of : Text → Result Text JmapError
  host_of server_url = elim (parse_url server_url) [
    | none ↦ err invalid_url
    | some url ↦ elim (host_str url) [ none ↦ err no_host | some host ↦ ok host ]
  ]

  unfoldable pub connect : Text → Text → Bool → Result Client JmapError
  unfolding shake_hands assert_public_host host_of
  connect server_url token allow_private_hosts =
      if not (starts_with server_url (text "https://"))
      then err insecure_url
      else elim (host_of server_url) [
        | err e ↦ err e
        | ok host ↦
            shake_hands server_url token host
              (if not allow_private_hosts then assert_public_host host server_url else ok tt)
      ]

  unfoldable pub connect_shared : Text → Text → Bool → Text → Result Client JmapError
  unfolding connect
  connect_shared server_url token allow_private_hosts account_id =
      elim (connect server_url token allow_private_hosts) [
        | err e ↦ err e
        | ok client ↦ ok (set_default_account_id account_id client)
      ]
