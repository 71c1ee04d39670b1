-- ===== src/UrlPolicy/Paths.antt =====
-- Where the URL of a tool call may point.
use mcplica.Common.{
  or_raise, or_raise-eq-ok, ◌≡◌, ◌≢◌, ℕ, refl, sym, ap, ◌∙◌, Bool, false, some, List, [], ◌∷◌, ◌++◌,
  arith, inl, inr, Text, text_eq, text_eq→eq, codes, ok, err, >>=-eq-ok, All, Memᴰ, Bool-cases, any,
  ◌==◌, starts_with,
}
use mcplica.UrlPolicy.{
  destination_policy, AllowedOrigin, UpstreamUrlPolicy, find_origin, resolve, resolve_on_origin,
  is_unsafe_path, is_dots, is_control, split, lstrip_char, authority,
}

-- No backslash, no query or fragment, no line end, no zero.
abbrev pub IsPlainChar : ℕ → Type 0
IsPlainChar c = (c ≢ b'\\') × (c ≢ b'?') × (c ≢ b'#') × (c ≢ 13) × (c ≢ 10) × (c ≢ 0)

plain_chars :
    (path : Text)
    → any (λ d. d == b'\\') path ≡ false
    → any (λ d. d == b'?') path ≡ false
    → any (λ d. d == b'#') path ≡ false
    → any is_control path ≡ false
    → All IsPlainChar path
plain_chars [] b q f z = tt
plain_chars (c ∷ path) b q f z = (
  (ground arith, ground arith, ground arith, ground arith, ground arith, ground arith),
  plain_chars path (ground arith) (ground arith) (ground arith) (ground arith),
)

-- A path that starts with one slash, has no `.` or `..` segment and no character that starts a query
-- or a fragment, no backslash and no line end or zero.
abbrev pub IsSafePath : Text → Type 0
IsSafePath path =
    (rest : Text) × (path ≡ b'/' ∷ rest)
    × (starts_with (codes "/") rest ≡ false)
    × All (λ segment. is_dots segment ≡ false) (split b'/' path)
    × All IsPlainChar path

find_origin-sound :
    (ref : Text) (origins : List (Text × AllowedOrigin)) {o : AllowedOrigin}
    → find_origin ref origins ≡ some o
    → Memᴰ (ref, o) origins
find_origin-sound ref [] h = cc
find_origin-sound ref ((id, p) ∷ rest) {o} h = elim (Bool-cases (text_eq id ref)) [
  | inl e ↦
      let k : some p ≡ some o = rw (e, find_origin) at h in
      let same : ref ≡ id = sym (text_eq→eq id ref e) in
      let same_origin : o ≡ p = cc in Memᴰ.head (rw (same, same_origin) refl)
  | inr e ↦ Memᴰ.tail (find_origin-sound ref rest (rw (e, find_origin) at h))
]

any-false : {A : Type 0} (p : A → Bool) (xs : List A) → any p xs ≡ false → All (λ x. p x ≡ false) xs
any-false p [] h = tt
any-false p (x ∷ xs) h = (ground arith, any-false p xs (ground arith))

safe_path : (path : Text) → is_unsafe_path path ≡ false → IsSafePath path
unfolding is_unsafe_path starts_with
safe_path [] h = cc
safe_path (c ∷ rest) h =
    let first : c ≡ b'/' = ground arith in
    let second : starts_with (codes "/") rest ≡ false = ground arith in
    let dots : any is_dots (split b'/' (c ∷ rest)) ≡ false = ground arith in
    let backslash : any (λ d. d == b'\\') (c ∷ rest) ≡ false = ground arith in
    let question : any (λ d. d == b'?') (c ∷ rest) ≡ false = ground arith in
    let hash : any (λ d. d == b'#') (c ∷ rest) ≡ false = ground arith in
    let control : any is_control (c ∷ rest) ≡ false = ground arith in
    (
      rest,
      rw first refl,
      second,
      any-false is_dots (split b'/' (c ∷ rest)) dots,
      plain_chars (c ∷ rest) backslash question hash control,
    )

lstrip_one :
    (rest : Text) → starts_with (codes "/") rest ≡ false → lstrip_char b'/' (b'/' ∷ rest) ≡ rest
unfolding starts_with
lstrip_one [] h = refl
lstrip_one (c ∷ rest) h = ground arith

resolve_on_origin_lem :
    (urlunsplit : Text → Text → Text → Text) (decimal : ℕ → Text) (o : AllowedOrigin)
    (path url : Text)
    → resolve_on_origin urlunsplit decimal o path ≡ ok url
    → IsSafePath path × (url ≡ urlunsplit (o.scheme) (authority decimal o) (o.base_path ++ path))
unfolding resolve_on_origin
resolve_on_origin_lem urlunsplit decimal o path url h = elim (Bool-cases (is_unsafe_path path)) [
  | inl e ↦ let k : err destination_policy ≡ ok url = rw (e, resolve_on_origin) at h in cc
  | inr e ↦
      let safe = safe_path path e in
      let (rest, is, one, _, _) = safe in
      let k : ok (
            urlunsplit (o.scheme) (authority decimal o)
              (o.base_path ++ b'/' ∷ lstrip_char b'/' path))
          ≡ ok url =
        rw (e, resolve_on_origin) at h in
      let stripped : b'/' ∷ lstrip_char b'/' path ≡ path =
        ap (λ (t : Text). b'/' ∷ lstrip_char b'/' t) is
        ∙ ap (λ (t : Text). b'/' ∷ t) (lstrip_one rest one)
        ∙ sym is in
      let same : url
          ≡ urlunsplit (o.scheme) (authority decimal o)
              (o.base_path ++ b'/' ∷ lstrip_char b'/' path) =
        cc in
      (
        safe,
        same
            ∙ ap (λ (t : Text). urlunsplit (o.scheme) (authority decimal o) (o.base_path ++ t))
                stripped,
      )
]

-- A URL for a tool call is on the origin registered under the server reference: its scheme, its
-- authority, and a path below its base path that has no dot segment, backslash, query or fragment.
pub resolve_on_registered_origin :
    (urlunsplit : Text → Text → Text → Text) (decimal : ℕ → Text) (policy : UpstreamUrlPolicy)
    (server_ref path url : Text)
    → resolve urlunsplit decimal policy server_ref path ≡ ok url
    → (o : AllowedOrigin) × Memᴰ (server_ref, o) (policy.origins)
      × IsSafePath path
      × (url ≡ urlunsplit (o.scheme) (authority decimal o) (o.base_path ++ path))
unfolding resolve
resolve_on_registered_origin urlunsplit decimal policy server_ref path url h =
    let (o, found, at) =
      >>=-eq-ok (or_raise destination_policy (find_origin server_ref (policy.origins))) _ h in
    let (safe, is) = resolve_on_origin_lem urlunsplit decimal o path url at in
    (
      o,
      find_origin-sound server_ref (policy.origins) (or_raise-eq-ok destination_policy _ found),
      safe,
      is,
    )
