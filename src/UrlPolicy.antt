-- ===== src/UrlPolicy.antt =====
-- The upstream URL policy: mcp_runtime/app/security/url_policy.py, the origins, the paths and the
-- test of one address; `Network` has the methods that parse URLs and resolve hostnames. A
-- `DestinationPolicyError` is `destination_policy`, a `ValueError` that leaves the method is
-- `value_error`. What the Python library gives is a parameter or a record of what it reports.
pub mod Network
mod Paths
mod Examples
use mcplica.Common.{
  ℕ, Bool, true, false, not, ◌&&◌, ◌||◌, Option, none, some, List, [], ◌∷◌, ◌++◌, map, ◌==◌,
  if◌then◌else◌, leb, ltb, Text, text_eq, mem_text, is_empty, codes, length, any, Result, ok, err,
  ◌>>=◌, raise_if, sort, to_lower, starts_with, contains, is_some, or_raise,
}

pub data UrlError : Type 0 where
  destination_policy value_error : UrlError

-- The result of `urlsplit`; `port` is `none` where reading it raises.
pub record ParsedUrl : Type 0 where
  scheme : Text
  hostname : Option Text
  username : Option Text
  password : Option Text
  port : Option (Option ℕ)
  path : Text
  query : Text
  fragment : Text

-- An `ip_address` with the properties that the policy reads.
pub record Address : Type 0 where
  text : Text
  version : ℕ
  number : ℕ
  is_global : Bool
  is_private : Bool
  is_loopback : Bool
  is_link_local : Bool
  is_multicast : Bool
  is_reserved : Bool
  is_unspecified : Bool

pub record AllowedOrigin : Type 0 where
  scheme : Text
  hostname : Text
  port : ℕ
  base_path : Text

abbrev pub https : Text
https = codes "https"

abbrev pub http : Text
http = codes "http"

abbrev pub max_resolved_addresses : ℕ
max_resolved_addresses = 32

-- Truth of an optional `str`.
abbrev pub is_given : Option Text → Bool
is_given none = false
is_given (some t) = not (is_empty t)

-- `text.rstrip(c)` and `text.lstrip(c)` with one character.
pub rstrip_char : ℕ → Text → Text
rstrip_char c [] = []
rstrip_char c (d ∷ ds) =
    let rest = rstrip_char c ds in if is_empty rest && d == c then [] else d ∷ rest

abbrev pub lstrip_char : ℕ → Text → Text
lstrip_char c [] = []
lstrip_char c (d ∷ ds) = let rest = lstrip_char c ds in if d == c then rest else d ∷ ds

abbrev pub onto_first : ℕ → List Text → List Text
onto_first d [] = (d ∷ []) ∷ []
onto_first d (t ∷ ts) = (d ∷ t) ∷ ts

-- `text.split(c)` with one character.
abbrev pub split : ℕ → Text → List Text
split c [] = [] ∷ []
split c (d ∷ ds) = let rest = split c ds in if d == c then [] ∷ rest else onto_first d rest

abbrev pub effective_port : Text → Option ℕ → ℕ
effective_port scheme (some port) = port
effective_port scheme none = if text_eq scheme https then 443 else 80

abbrev pub is_http : Text → Bool
is_http scheme = text_eq scheme http || text_eq scheme https

abbrev pub is_dots : Text → Bool
is_dots segment = mem_text segment (codes "." ∷ codes ".." ∷ [])

abbrev pub is_control : ℕ → Bool
is_control c = c == 13 || (c == 10 || c == 0)

-- The `if` of `AllowedOrigin.resolve`.
pub is_unsafe_path : Text → Bool
is_unsafe_path path =
    not (starts_with (codes "/") path)
    || (starts_with (codes "//") path
        || (any (λ c. c == b'\\') path
            || (any (λ c. c == b'?') path
                || (any (λ c. c == b'#') path
                    || (any is_control path || any is_dots (split b'/' path))))))

-- `decimal` is `str` on a port.
pub authority : (ℕ → Text) → AllowedOrigin → Text
authority decimal o =
    if (text_eq (o.scheme) https && o.port == 443) || (text_eq (o.scheme) http && o.port == 80)
    then o.hostname
    else (o.hostname ++ b':' ∷ decimal (o.port))

-- `AllowedOrigin.resolve`; `urlunsplit` is given scheme, authority and path.
pub resolve_on_origin :
    (Text → Text → Text → Text) → (ℕ → Text) → AllowedOrigin → Text → Result UrlError Text
resolve_on_origin urlunsplit decimal o path =
    if is_unsafe_path path
    then err destination_policy
    else ok
        (urlunsplit (o.scheme) (authority decimal o) (o.base_path ++ b'/' ∷ lstrip_char b'/' path))

-- The fields of `UpstreamUrlPolicy`; the origins by server identifier.
pub record UpstreamUrlPolicy : Type 0 where
  origins : List (Text × AllowedOrigin)
  allowed_private_hosts : List Text
  allowed_development_hosts : List Text
  development_mode : Bool

abbrev pub find_origin : Text → List (Text × AllowedOrigin) → Option AllowedOrigin
find_origin ref [] = none
find_origin ref ((id, o) ∷ rest) = elim (text_eq id ref) [
  | true ↦ some o
  | false ↦ find_origin ref rest
]

pub resolve :
    (Text → Text → Text → Text)
    → (ℕ → Text)
    → UpstreamUrlPolicy
    → Text
    → Text
    → Result UrlError Text
resolve urlunsplit decimal policy server_ref path =
    or_raise destination_policy (find_origin server_ref (policy.origins)) >>= λ o.
    resolve_on_origin urlunsplit decimal o path

-- `_address_is_allowed`
pub address_is_allowed : UpstreamUrlPolicy → Text → Address → Bool
address_is_allowed policy hostname a =
    let development_allowed =
      policy.development_mode
      && (mem_text hostname (policy.allowed_development_hosts)
          && (not (a.is_multicast) && not (a.is_unspecified))) in
    if a.is_global
    then true
    else if a.is_private
        && not (
            a.is_loopback
            || (a.is_link_local || (a.is_multicast || (a.is_reserved || a.is_unspecified))))
    then mem_text hostname (policy.allowed_private_hosts) || development_allowed
    else development_allowed

-- The set of addresses: an equal one is not added again.
abbrev pub same_address : Address → Address → Bool
same_address a b = a.version == b.version && a.number == b.number

abbrev pub add_address : Address → List Address → List Address
add_address a addresses = if any (same_address a) addresses then addresses else a ∷ addresses

abbrev pub address_leq : Address → Address → Bool
address_leq a b =
    ltb (a.version) (b.version) || (a.version == b.version && leb (a.number) (b.number))

abbrev pub until : ℕ → Text → Text
until c [] = []
until c (d ∷ ds) = let rest = until c ds in if d == c then [] else d ∷ rest
