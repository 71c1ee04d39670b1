-- ===== src/UrlPolicy/Examples.antt =====
-- A policy with one origin and one private host; one name resolves to a private address.
use mcplica.Common.{
  to_lower, starts_with, ℕ, ◌≡◌, refl, true, false, Option, none, some, List, [], ◌∷◌, ◌++◌, Text,
  codes, text_eq, ok, Memᴰ,
}
use mcplica.UrlPolicy.{
  ParsedUrl, Address, AllowedOrigin, UpstreamUrlPolicy, authority, resolve, resolve_on_origin,
  is_unsafe_path, address_is_allowed, rstrip_char, https,
}
use mcplica.UrlPolicy.Network.{normalized_host, resolve_host, resolve_for_connection}
use mcplica.UrlPolicy.Network.Connections.{IsCleared, resolve_for_connection-IsCleared}
use mcplica.UrlPolicy.Paths.{IsSafePath, resolve_on_registered_origin}

abbrev inside : Address
inside = record {
  text = codes "10.0.0.7";
  version = 4;
  number = 167772167;
  is_global = false;
  is_private = true;
  is_loopback = false;
  is_link_local = false;
  is_multicast = false;
  is_reserved = false;
  is_unspecified = false;
}

abbrev origin : AllowedOrigin
origin = record { scheme = https; hostname = codes "api"; port = 443; base_path = codes "/v1" }

abbrev policy : UpstreamUrlPolicy
policy = record {
  origins = (codes "main", origin) ∷ [];
  allowed_private_hosts = codes "api" ∷ [];
  allowed_development_hosts = [];
  development_mode = false;
}

abbrev same : Text → Option Text
same t = some t

abbrev read_address : Text → Option Address
read_address t = elim (text_eq t (codes "10.0.0.7")) [ true ↦ some inside | false ↦ none ]

abbrev resolver : Text → ℕ → Option (List Text)
resolver t port = some (codes "10.0.0.7" ∷ [])

abbrev no_url : Text → Option ParsedUrl
no_url t = none

abbrev joined : Text → Text → Text → Text
joined scheme host path = scheme ++ codes "://" ++ host ++ path

abbrev no_decimal : ℕ → Text
no_decimal n = []

cleared :
    resolve_for_connection same read_address resolver no_url policy (codes "API.") 443
    ≡ ok (codes "10.0.0.7" ∷ [])
unfolding resolve_for_connection normalized_host resolve_host address_is_allowed rstrip_char
    to_lower
cleared = refl

resolve_for_connection-IsCleared_example :
    IsCleared same read_address resolver no_url policy (codes "API.") 443 (codes "10.0.0.7" ∷ [])
resolve_for_connection-IsCleared_example =
    resolve_for_connection-IsCleared same read_address resolver no_url policy (codes "API.") 443
      (codes "10.0.0.7" ∷ []) cleared

url : resolve joined no_decimal policy (codes "main") (codes "/a") ≡ ok (codes "https://api/v1/a")
unfolding resolve resolve_on_origin is_unsafe_path authority starts_with
url = refl

resolve_on_registered_origin_example :
    (o : AllowedOrigin) × Memᴰ (codes "main", o) (policy.origins)
    × IsSafePath (codes "/a")
    × (codes "https://api/v1/a"
        ≡ joined (o.scheme) (authority no_decimal o) (o.base_path ++ codes "/a"))
resolve_on_registered_origin_example =
    resolve_on_registered_origin joined no_decimal policy (codes "main") (codes "/a")
      (codes "https://api/v1/a") url
