-- ===== src/UrlPolicy/Network.antt =====
-- The methods of `UpstreamUrlPolicy` that resolve hostnames: mcp_runtime/app/security/url_policy.py.
-- The IDNA codec, `ip_address`, the resolver and `urlsplit` are parameters; `none` of a parser is
-- its `ValueError`.
pub mod Connections
use mcplica.Common.{
  or_raise, or_raise-eq-ok, raise_if-eq-ok, ℕ, Bool, true, false, not, ◌&&◌, ◌||◌, Option, none,
  some, List, [], ◌∷◌, map, ◌==◌, leb, ltb, Text, text_eq, mem_text, is_empty, length, any, Result,
  ok, err, ◌>>=◌, ◌>>◌, raise_if, sort, to_lower,
}
use mcplica.UrlPolicy.{
  UrlError, destination_policy, value_error, ParsedUrl, Address, AllowedOrigin, UpstreamUrlPolicy,
  https, is_http, is_given, rstrip_char, until, add_address, address_leq, address_is_allowed,
  effective_port, max_resolved_addresses,
}

module _ (idna : Text → Option Text) (ip_address : Text → Option Address)
    (resolver : Text → ℕ → Option (List Text)) (urlsplit : Text → Option ParsedUrl) where
  -- `_normalized_host`; `none` is a `UnicodeError`, which is a `ValueError`.
  unfoldable pub normalized_host : Text → Option Text
  normalized_host hostname = elim (idna (rstrip_char b'.' hostname)) [
    | none ↦ none
    | some t ↦ some (to_lower t)
  ]

  abbrev pub add_addresses : List Address → List Text → Result UrlError (List Address)
  add_addresses addresses [] = ok addresses
  add_addresses addresses (raw ∷ raws) =
      or_raise destination_policy (ip_address (until b'%' raw)) >>= λ a.
      add_addresses (add_address a addresses) raws

  -- `_resolve`; the resolver gives `none` for its own `DestinationPolicyError` and for an `OSError`.
  unfoldable pub resolve_host : Text → ℕ → Result UrlError (List Address)
  resolve_host hostname port = elim (ip_address hostname) [
    | some literal ↦ ok (literal ∷ [])
    | none ↦ or_raise destination_policy (resolver hostname port) >>= λ raws.
        add_addresses [] raws >>= λ found. ok (sort address_leq found)
  ]

  abbrev pub check_addresses : UpstreamUrlPolicy → Text → List Address → Result UrlError (Unit {0})
  check_addresses policy hostname [] = ok tt
  check_addresses policy hostname (a ∷ addresses) =
      raise_if (not (address_is_allowed policy hostname a)) destination_policy >>= λ _.
      check_addresses policy hostname addresses

  unfoldable pub resolve_for_connection : UpstreamUrlPolicy → Text → ℕ → Result UrlError (List Text)
  resolve_for_connection policy hostname port = do
    host ← or_raise destination_policy (normalized_host hostname)
    raise_if (not (leb 1 port && leb port 65535)) destination_policy
    addresses ← resolve_host host port
    raise_if (leb (length addresses) 0) destination_policy
    raise_if (ltb max_resolved_addresses (length addresses)) destination_policy
    check_addresses policy host addresses
    ok (map (λ a. a.text) addresses)

  -- The origin of a URL's parts, with no base path.
  pub origin_of : ParsedUrl → Result UrlError AllowedOrigin
  origin_of parsed = do
    hostname ← or_raise destination_policy (parsed.hostname)
    host ← or_raise destination_policy (normalized_host hostname)
    port ← or_raise destination_policy (parsed.port)
    ok (record {
      scheme = parsed.scheme;
      hostname = host;
      port = effective_port (parsed.scheme) port;
      base_path = [];
    })

  abbrev pub is_same_origin : AllowedOrigin → Text × AllowedOrigin → Bool
  is_same_origin o entry =
      text_eq (o.scheme) (entry.1.scheme)
      && (text_eq (o.hostname) (entry.1.hostname) && o.port == entry.1.port)

  pub assert_url_is_allowlisted : UpstreamUrlPolicy → Text → Result UrlError AllowedOrigin
  assert_url_is_allowlisted policy url = do
    parsed ← or_raise value_error (urlsplit url)
    raise_if (not (is_http (parsed.scheme)) || not (is_given (parsed.hostname))) destination_policy
    raise_if
        (is_given (parsed.username)
          || (is_given (parsed.password) || not (is_empty (parsed.fragment))))
        destination_policy
    o ← origin_of parsed
    raise_if (not (any (is_same_origin o) (policy.origins))) destination_policy
    ok o

  pub validate_before_connect : UpstreamUrlPolicy → Text → Result UrlError (List Text)
  validate_before_connect policy url = assert_url_is_allowlisted policy url >>= λ o.
      resolve_for_connection policy (o.hostname) (o.port)

  pub validate_configured_destination : UpstreamUrlPolicy → Text → Result UrlError (List Text)
  validate_configured_destination policy url = do
    parsed ← or_raise value_error (urlsplit url)
    raise_if (not (is_http (parsed.scheme)) || not (is_given (parsed.hostname))) destination_policy
    raise_if
        (is_given (parsed.username)
          || (is_given (parsed.password) || not (is_empty (parsed.fragment))))
        destination_policy
    raise_if (not (text_eq (parsed.scheme) https) && not (policy.development_mode))
        destination_policy
    o ← origin_of parsed
    resolve_for_connection policy (o.hostname) (o.port)
