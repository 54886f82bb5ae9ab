-- ===== src/Jmap/Connect.antt =====
-- `connect` of src/jmap.rs: the servers that the bearer token goes to.
use mathlib.Core.Option
use jmap2telegram.Prelude.{
  ◌≡◌, ◌≢◌, subst, Bool, true, false, List, [], ◌∷◌, some, Option-cases, Bool-cases, inl, inr,
  arith, nat_eq, Result-cases, Text, text, starts_with, Result, ok, err, All,
}
use jmap2telegram.Jmap.{
  Network, IpAddr, JmapError, is_disallowed_host, check_addrs, assert_public_host, shake_hands,
  host_of, port_or, connect,
}

-- The guard accepts a list of addresses that is not empty and has no refused one.
abbrev pub AllPublic : List IpAddr → Type 0
AllPublic = All (λ ip. is_disallowed_host ip ≡ false)

check_addrs-ok :
    (host : Text) (resolved_any : Bool) (addrs : List IpAddr)
    → check_addrs host resolved_any addrs ≡ ok tt
    → AllPublic addrs
unfolding check_addrs
check_addrs-ok host resolved_any [] h = tt
check_addrs-ok host resolved_any (addr ∷ addrs) h = ground (arith, check_addrs-ok host true addrs)

check_addrs-nil : (host : Text) → check_addrs host false [] ≢ ok tt
unfolding check_addrs
check_addrs-nil host h = ground arith

-- The resolver's answer for the host of a URL, at the port that the guard asks for.
abbrev pub Resolves : Network → Text → Text → List IpAddr → Type 0
Resolves net server_url host addrs =
    Option.map (λ url. net.lookup_host host (port_or (net.port_or_known_default url)))
      (net.parse_url server_url)
    ≡ some (some addrs)

module _ (net : Network) where
  assert_public_host-ok :
      (host server_url : Text)
      → assert_public_host net host server_url ≡ ok tt
      → (addrs : List IpAddr) × Resolves net server_url host addrs × (addrs ≢ []) × AllPublic addrs
  unfolding assert_public_host
  assert_public_host-ok host server_url h = elim (Option-cases (net.parse_url server_url)) [
    | inl e ↦ absurd (ground arith)
    | inr (url, e) ↦
        elim (Option-cases (net.lookup_host host (port_or (net.port_or_known_default url)))) [
          | inl f ↦ absurd (ground arith)
          | inr (addrs, f) ↦
              let checked : check_addrs host false addrs ≡ ok tt = ground arith in
              (
                addrs,
                ground arith,
                (λ none_left.
                    check_addrs-nil host
                      (subst (λ l. check_addrs host false l ≡ ok tt) none_left checked)),
                check_addrs-ok host false addrs checked,
              )
        ]
  ]

  -- The guard's verdict and the handshake behind a client.
  shake_hands-ok :
      (server_url token host : Text) (verdict : Result (Unit {0}) JmapError) (client : net.Client)
      → shake_hands net server_url token host verdict ≡ ok client
      → (verdict ≡ ok tt) × (net.handshake server_url token host ≡ some client)
  unfolding shake_hands
  shake_hands-ok server_url token host (err e) client h = absurd (cc)
  shake_hands-ok server_url token host (ok _) client h = ground arith

  -- Where `connect` gives a client, the URL begins with `https://` and the client is that of a
  -- handshake with the URL's host. Unless private hosts are allowed, the resolver had answered for
  -- that host with at least one address, and none of them is one that the guard refuses.
  pub connect_guarded :
      (server_url token : Text) (allow_private_hosts : Bool) (client : net.Client)
      → connect net server_url token allow_private_hosts ≡ ok client
      → (starts_with server_url (text "https://") ≡ true)
        × ((host : Text) × (host_of net server_url ≡ ok host)
            × (net.handshake server_url token host ≡ some client)
            × (allow_private_hosts ≡ false
                → (addrs : List IpAddr) × Resolves net server_url host addrs
                  × (addrs ≢ [])
                  × AllPublic addrs))
  unfolding connect
  connect_guarded server_url token allow client h =
      elim (Bool-cases (starts_with server_url (text "https://"))) [
        | inr insecure ↦ absurd (cc (rw insecure at h))
        | inl secure ↦ elim (Result-cases (host_of net server_url)) [
          | inr (e, failed) ↦ absurd (cc (rw (secure, failed, connect) at h))
          | inl (host, found) ↦
              let (verdict, shaken) =
                shake_hands-ok server_url token host _ client (rw (secure, found, connect) at h) in
              (
                secure,
                (
                  host,
                  found,
                  shaken,
                  λ strict. assert_public_host-ok host server_url (rw strict at verdict),
                ),
              )
        ]
      ]
