-- ===== src/ScopeGuard/Hosts.antt =====
-- The case "domain" of `matches` and `hostFromURL` (backend/internal/scopeguard/scopeguard.go): which
-- hosts a domain covers, and what is taken for the host of a URL.
use mathlib.Core.List.{append-nil}
use vaultscan.Prelude.{
  ℕ, ◌-◌, ◌<◌, ◌≡◌, ◌⊎◌, ◌↔◌, inl, inr, refl, sym, ap, ◌∙◌, Bool, true, false, ◌&&◌, ◌||◌, none,
  some, [], ◌∷◌, ◌++◌, leb, Bytes, codes, bytes_equal, bytes_equal_refl, bytes_equal→eq, length,
  drop, take, take-drop, length-append, arith, Bool-cases, All,
}
use vaultscan.ScopeGuard.Targets.{
  TextLib, strip_prefix, after_first, until, ends_authority, is_colon, host_from_url, has_suffix,
  domain_target, in_domain, matches,
}

drop-append : (xs ys : Bytes) → drop (length xs) (xs ++ ys) ≡ ys
drop-append [] ys = refl
drop-append (x ∷ xs) ys = drop-append xs ys

pub has_suffix_iff :
    (s suffix : Bytes) → (has_suffix s suffix ≡ true) ↔ ((front : Bytes) × (s ≡ front ++ suffix))
unfolding has_suffix
has_suffix_iff s suffix = (to, from)
  where
    to :
        (leb (length suffix) (length s) && bytes_equal (drop (length s - length suffix) s) suffix)
          ≡ true
        → (front : Bytes) × (s ≡ front ++ suffix)
    to h =
        let same = bytes_equal→eq (drop (length s - length suffix) s) suffix (ground arith) in
        (
          take (length s - length suffix) s,
          sym (take-drop (length s - length suffix) s)
              ∙ ap (λ x. take (length s - length suffix) s ++ x) same,
        )

    from :
        (front : Bytes) × (s ≡ front ++ suffix)
        → (leb (length suffix) (length s) && bytes_equal (drop (length s - length suffix) s) suffix)
          ≡ true
    from (front, e) =
        let n = length-append front suffix in
        let at : length (front ++ suffix) - length suffix ≡ length front = omega arith in
        rw (e, at, drop-append front suffix) (ground (arith, bytes_equal_refl suffix))

-- The domain itself, or a name below it.
abbrev pub IsUnder : Bytes → Bytes → Type 0
IsUnder domain host = (host ≡ domain) ⊎ ((label : Bytes) × (host ≡ label ++ (b'.' ∷ domain)))

pub in_domain_iff : (domain host : Bytes) → (in_domain domain host ≡ true) ↔ IsUnder domain host
unfolding in_domain
in_domain_iff domain host = (to, from)
  where
    to : (bytes_equal host domain || has_suffix host (b'.' ∷ domain)) ≡ true → IsUnder domain host
    to h = elim (Bool-cases (bytes_equal host domain)) [
      | inl same ↦ inl (bytes_equal→eq host domain same)
      | inr other ↦ inr ((has_suffix_iff host (b'.' ∷ domain)).0 (ground arith))
    ]

    from : IsUnder domain host → (bytes_equal host domain || has_suffix host (b'.' ∷ domain)) ≡ true
    from (inl e) = rw e (ground (arith, bytes_equal_refl domain))
    from (inr e) = let under = (has_suffix_iff host (b'.' ∷ domain)).1 e in ground arith

unfoldable pub Avoids : (ℕ → Bool) → Bytes → Type 0
Avoids stop = All (λ c. stop c ≡ false)

until-all : (stop : ℕ → Bool) (xs : Bytes) → Avoids stop xs → until stop xs ≡ xs
unfolding until Avoids
until-all stop [] all = refl
until-all stop (x ∷ xs) all = rw all.0 (ap (λ l. x ∷ l) (until-all stop xs all.1))

until-append :
    (stop : ℕ → Bool) (xs ys : Bytes) → Avoids stop xs → until stop (xs ++ ys) ≡ xs ++ until stop ys
unfolding until Avoids
until-append stop [] ys all = refl
until-append stop (x ∷ xs) ys all = rw all.0 (ap (λ l. x ∷ l) (until-append stop xs ys all.1))

strip_prefix-miss :
    (c : ℕ) (s : Bytes) → is_colon c ≡ false → strip_prefix (codes "://") (c ∷ s) ≡ none
unfolding strip_prefix
strip_prefix-miss c s h = ground arith

after_first-scheme :
    (scheme rest : Bytes)
    → Avoids is_colon scheme
    → after_first (codes "://") (scheme ++ (codes "://" ++ rest)) ≡ some rest
unfolding after_first Avoids strip_prefix
after_first-scheme [] rest all = refl
after_first-scheme (c ∷ scheme) rest all =
    rw (strip_prefix-miss c (scheme ++ (codes "://" ++ rest)) all.0, after_first)
      (after_first-scheme scheme rest all.1)

-- What may follow a host: nothing, a port, or a path, a query or a fragment.
pub data EndsHost : Bytes → Type 0 where
  nothing : EndsHost []
  authority_end : (c : ℕ) (s : Bytes) → ends_authority c ≡ true → EndsHost (c ∷ s)
  port : (s : Bytes) → EndsHost (b':' ∷ s)

until-host :
    (host : Bytes) {tail : Bytes}
    → Avoids ends_authority host
    → Avoids is_colon host
    → EndsHost tail
    → until is_colon (until ends_authority (host ++ tail)) ≡ host
unfolding until
until-host host plain no_colon nothing =
    rw (append-nil, until-all ends_authority host plain) (until-all is_colon host no_colon)
until-host host plain no_colon (authority_end c s e) =
    rw (until-append ends_authority host (c ∷ s) plain, e, append-nil)
      (until-all is_colon host no_colon)
until-host host plain no_colon (port s) =
    rw
      (
        until-append ends_authority host (b':' ∷ s) plain,
        until-append is_colon host (b':' ∷ until ends_authority s) no_colon,
      )
      (append-nil host)

-- A URL with a plain host.
abbrev pub url : Bytes → Bytes → Bytes → Bytes
url scheme host tail = scheme ++ (codes "://" ++ (host ++ tail))

pub host_from_url-url :
    (scheme host tail : Bytes)
    → Avoids is_colon scheme
    → Avoids ends_authority host
    → Avoids is_colon host
    → EndsHost tail
    → host_from_url (url scheme host tail) ≡ host
unfolding host_from_url
host_from_url-url scheme host tail s plain no_colon end =
    rw (after_first-scheme scheme (host ++ tail) s, host_from_url)
      (until-host host plain no_colon end)

module _ (lib : TextLib) where
  matches-eq :
      (domain target_type target : Bytes)
      → matches lib (codes "domain") domain target_type target
        ≡ in_domain
            (lib.to_lower (lib.trim_space domain))
            (domain_target target_type (lib.to_lower (lib.trim_space target)))
  unfolding matches
  matches-eq domain target_type target = refl

  domain_target-url :
      (text : Bytes)
      → 0 < length (host_from_url text)
      → domain_target (codes "url") text ≡ host_from_url text
  unfolding domain_target
  domain_target-url text h = ground arith

  -- A target of the type url whose text, trimmed and in lower case, has a plain host and no user
  -- information is in the scope of a domain exactly when that host is the domain or a name below it.
  -- A path, a query, a fragment or a port behind the host does not matter.
  pub matches-domain :
      (domain target scheme host tail : Bytes)
      → lib.to_lower (lib.trim_space target) ≡ url scheme host tail
      → Avoids is_colon scheme
      → Avoids ends_authority host
      → Avoids is_colon host
      → EndsHost tail
      → 0 < length host
      → (matches lib (codes "domain") domain (codes "url") target ≡ true)
        ↔ IsUnder (lib.to_lower (lib.trim_space domain)) host
  matches-domain domain target scheme host tail text s plain no_colon end some_host =
      let found = host_from_url-url scheme host tail s plain no_colon end in
      let picked = domain_target-url (url scheme host tail) (rw found some_host) ∙ found in
      let (to, from) = in_domain_iff (lib.to_lower (lib.trim_space domain)) host in
      rw (matches-eq domain (codes "url") target, text, picked) (to, from)

  -- User information is taken for the host: a URL to any other host is in the scope of a domain that
  -- stands as the user name before it.
  pub matches_userinfo :
      (domain target scheme user password other : Bytes)
      → lib.to_lower (lib.trim_space target) ≡ url scheme user (b':' ∷ (password ++ (b'@' ∷ other)))
      → Avoids is_colon scheme
      → Avoids ends_authority user
      → Avoids is_colon user
      → 0 < length user
      → IsUnder (lib.to_lower (lib.trim_space domain)) user
      → matches lib (codes "domain") domain (codes "url") target ≡ true
  matches_userinfo domain target scheme user password other text s plain no_colon named under =
      (matches-domain domain target scheme user (b':' ∷ (password ++ (b'@' ∷ other))) text s plain
          no_colon (port (password ++ (b'@' ∷ other))) named).1
        under
