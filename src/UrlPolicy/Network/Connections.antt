-- ===== src/UrlPolicy/Network/Connections.antt =====
-- Which addresses a connection may use.
use mcplica.Common.{
  or_raise, or_raise-eq-ok, raise_if-eq-ok, ℕ, ◌≤◌, ◌≡◌, true, false, not, ◌&&◌, Option, some, List,
  [], ◌∷◌, map, arith, ◌⊎◌, ltb, leb, Text, mem_text, length, ok, raise_if, >>=-eq-ok, All,
}
use mcplica.UrlPolicy.{
  destination_policy, ParsedUrl, Address, UpstreamUrlPolicy, address_is_allowed,
  max_resolved_addresses,
}
use mcplica.UrlPolicy.Network.{
  normalized_host, resolve_host, check_addresses, resolve_for_connection,
}

-- Loopback, link local, multicast, reserved or unspecified.
abbrev pub IsSpecial : Address → Type 0
IsSpecial a =
    (a.is_loopback ≡ true)
    ⊎ (a.is_link_local ≡ true)
    ⊎ (a.is_multicast ≡ true)
    ⊎ (a.is_reserved ≡ true)
    ⊎ (a.is_unspecified ≡ true)

-- What the policy lets a host reach: a global address; a private one that is not special, for a
-- listed private host; in development mode, for a listed development host, any one that is not
-- multicast or unspecified.
abbrev pub IsPermitted : UpstreamUrlPolicy → Text → Address → Type 0
IsPermitted policy host a =
    (a.is_global ≡ true)
    ⊎ ((mem_text host (policy.allowed_private_hosts) ≡ true)
        × (a.is_private ≡ true)
        × ¬ IsSpecial a)
    ⊎ ((policy.development_mode ≡ true)
        × (mem_text host (policy.allowed_development_hosts) ≡ true)
        × (a.is_multicast ≡ false)
        × (a.is_unspecified ≡ false))

-- The code's test of one address accepts exactly the permitted addresses.
pub address_is_allowed_exact :
    (policy : UpstreamUrlPolicy) (host : Text) (a : Address)
    → (address_is_allowed policy host a ≡ true → IsPermitted policy host a)
      × (IsPermitted policy host a → address_is_allowed policy host a ≡ true)
unfolding address_is_allowed
address_is_allowed_exact policy host a = (λ h. ground arith, λ h. ground arith)

module _ (idna : Text → Option Text) (ip_address : Text → Option Address)
    (resolver : Text → ℕ → Option (List Text)) (urlsplit : Text → Option ParsedUrl) where
  -- The addresses that a connection to a host may use.
  abbrev pub IsCleared : UpstreamUrlPolicy → Text → ℕ → List Text → Type 0
  IsCleared policy hostname port shown =
      (host : Text) × (addresses : List Address) × (normalized_host idna ip_address resolver
          urlsplit hostname
        ≡ some host)
      × (1 ≤ port)
      × (port ≤ 65535)
      × (resolve_host idna ip_address resolver urlsplit host port ≡ ok addresses)
      × (shown ≡ map (λ a. a.text) addresses)
      × (1 ≤ length addresses)
      × (length addresses ≤ 32)
      × All (IsPermitted policy host) addresses

  check_addresses_sound :
      (policy : UpstreamUrlPolicy) (host : Text) (addresses : List Address) {u : Unit {0}}
      → check_addresses idna ip_address resolver urlsplit policy host addresses ≡ ok u
      → All (IsPermitted policy host) addresses
  check_addresses_sound policy host [] h = tt
  check_addresses_sound policy host (a ∷ addresses) h =
      let (u, tested, later) =
        >>=-eq-ok (raise_if (not (address_is_allowed policy host a)) destination_policy) _ h in
      let allowed : address_is_allowed policy host a ≡ true = ground (
        arith,
        raise_if-eq-ok (not (address_is_allowed policy host a)) destination_policy tested,
      ) in
      (
        (address_is_allowed_exact policy host a).0 allowed,
        check_addresses_sound policy host addresses later,
      )

  -- A connection is only ever given addresses that the policy permits for the normalized hostname:
  -- at least one, at most 32, all of those the name resolves to, and a port in range.
  pub resolve_for_connection-IsCleared :
      (policy : UpstreamUrlPolicy) (hostname : Text) (port : ℕ) (shown : List Text)
      → resolve_for_connection idna ip_address resolver urlsplit policy hostname port ≡ ok shown
      → IsCleared policy hostname port shown
  unfolding resolve_for_connection
  resolve_for_connection-IsCleared policy hostname port shown h =
      let (host, q0, h0) =
        >>=-eq-ok
          (or_raise destination_policy (normalized_host idna ip_address resolver urlsplit hostname))
          _ h in
      let (u1, q1, h1) =
        >>=-eq-ok (raise_if (not (leb 1 port && leb port 65535)) destination_policy) _ h0 in
      let (addresses, q2, h2) =
        >>=-eq-ok (resolve_host idna ip_address resolver urlsplit host port) _ h1 in
      let (u3, q3, h3) = >>=-eq-ok (raise_if (leb (length addresses) 0) destination_policy) _ h2 in
      let (u4, q4, h4) =
        >>=-eq-ok (raise_if (ltb max_resolved_addresses (length addresses)) destination_policy) _
          h3 in
      let (u5, q5, h5) =
        >>=-eq-ok (check_addresses idna ip_address resolver urlsplit policy host addresses) _ h4 in
      let in_range = raise_if-eq-ok (not (leb 1 port && leb port 65535)) destination_policy q1 in
      let some_left = raise_if-eq-ok (leb (length addresses) 0) destination_policy q3 in
      let not_many =
        raise_if-eq-ok (ltb max_resolved_addresses (length addresses)) destination_policy q4 in
      (
        host,
        addresses,
        or_raise-eq-ok destination_policy _ q0,
        ground arith,
        ground arith,
        q2,
        cc,
        ground arith,
        ground arith,
        check_addresses_sound policy host addresses q5,
      )
