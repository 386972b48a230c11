-- ===== src/CookieJar/Matches.antt =====
-- internal/cookiejar/matcher.go: what the two tests mean.
use cifera.Base.{
  ℕ, length-append, ◌≡◌, refl, ◌∙◌, ap, sym, ◌↔◌, inl, inr, true, false, [], ◌∷◌, ◌++◌, ltb, length,
  drop, Text, codes, text_eq, text_eq_iff, text_eq_self, is_empty, has_prefix, has_suffix,
  has_prefix_iff, has_suffix_iff, trim_prefix, arith, Bool-cases,
}
use cifera.CookieJar.Matcher.{domain_match, path_match, starts_with_slash}

-- The request path is the cookie's path, or it goes on behind it with a slash; the root matches
-- every path that starts with it.
pub data PathMatches : Text → Text → Type 0 where
  same : {r c : Text} → r ≡ c → PathMatches r c
  root : {r c : Text} (rest : Text) → c ≡ codes "/" → r ≡ c ++ rest → PathMatches r c
  below : {r c : Text} (rest : Text) → r ≡ c ++ (b'/' ∷ rest) → PathMatches r c

-- The host is the domain of the cookie, or ends with a dot and the domain; a dot in front of the
-- domain makes no difference, and the empty domain is matched by the empty host only.
pub data DomainMatches (h c : Text) : Type 0 where
  exact : h ≡ c → DomainMatches h c
  bare : is_empty c ≡ false → h ≡ trim_prefix c (codes ".") → DomainMatches h c
  sub :
      (front : Text)
      → is_empty c ≡ false
      → h ≡ front ++ (codes "." ++ trim_prefix c (codes "."))
      → DomainMatches h c

drop-append : (c rest : Text) → drop (length c) (c ++ rest) ≡ rest
drop-append [] rest = refl
drop-append (x ∷ c) rest = drop-append c rest

starts_with_slash_sound :
    (s : Text) → starts_with_slash s ≡ true → (rest : Text) × (s ≡ b'/' ∷ rest)
unfolding starts_with_slash
starts_with_slash_sound [] h = absurd (cc h)
starts_with_slash_sound (c ∷ s) h = (s, ground arith)

behind : (r c rest : Text) → r ≡ c ++ rest → drop (length c) r ≡ rest
behind r c rest e = ap (drop (length c)) e ∙ drop-append c rest

path_match_sound : (r c : Text) → path_match r c ≡ true → PathMatches r c
unfolding path_match
path_match_sound r c h = elim (Bool-cases (text_eq r c)) [
  | inl equal ↦ same ((text_eq_iff r c).0 equal)
  | inr differ ↦ elim (Bool-cases (has_prefix r c)) [
    | inr no_prefix ↦ absurd (cc (rw (differ, no_prefix, path_match) at h))
    | inl prefix ↦
        let (rest, e) = (has_prefix_iff r c).0 prefix in
        elim (Bool-cases (text_eq c (codes "/"))) [
          | inl is_root ↦ root rest ((text_eq_iff c (codes "/")).0 is_root) e
          | inr no_root ↦ elim (Bool-cases (starts_with_slash (drop (length c) r))) [
            | inl slash ↦
                let (more, e2) = starts_with_slash_sound (drop (length c) r) slash in
                below more (e ∙ ap (λ x. c ++ x) (sym (behind r c rest e) ∙ e2))
            | inr none_there ↦ absurd (ground arith)
          ]
        ]
  ]
]

slash_behind :
    (r c rest : Text) → r ≡ c ++ (b'/' ∷ rest) → starts_with_slash (drop (length c) r) ≡ true
unfolding starts_with_slash
slash_behind r c rest e = rw (behind r c (b'/' ∷ rest) e)

ltb-length : (r c rest : Text) → r ≡ c ++ (b'/' ∷ rest) → ltb (length c) (length r) ≡ true
ltb-length r c rest e = ground (arith, ap (length {A = ℕ}) e, length-append c (b'/' ∷ rest))

path_match_same : (c : Text) → path_match c c ≡ true
unfolding path_match
path_match_same c = rw (text_eq_self c)

path_match_complete : (r c : Text) → PathMatches r c → path_match r c ≡ true
unfolding path_match
path_match_complete r c (same e) = rw e (path_match_same c)
path_match_complete r c (root rest is_root e) =
    let prefix = (has_prefix_iff r c).1 (rest, e) in
    let slash = (text_eq_iff c (codes "/")).1 is_root in ground (arith, prefix, slash)
path_match_complete r c (below rest e) =
    let prefix = (has_prefix_iff r c).1 (b'/' ∷ rest, e) in
    let slash = slash_behind r c rest e in
    let longer = ltb-length r c rest e in ground (arith, prefix, slash, longer)

-- pathMatch holds exactly of the request paths that are the cookie's path or lie below it.
pub path_match_iff : (r c : Text) → (path_match r c ≡ true) ↔ PathMatches r c
path_match_iff r c = (path_match_sound r c, path_match_complete r c)

eq_of_empty : (s : Text) → is_empty s ≡ true → s ≡ []
eq_of_empty [] h = refl
eq_of_empty (c ∷ s) h = absurd (cc h)

domain_match_sound : (h c : Text) → domain_match h c ≡ true → DomainMatches h c
unfolding domain_match
domain_match_sound h c m = elim (Bool-cases (text_eq h c)) [
  | inl equal ↦ exact ((text_eq_iff h c).0 equal)
  | inr differ ↦ elim (Bool-cases (is_empty c)) [
    | inl no_domain ↦ exact (eq_of_empty h (ground arith) ∙ sym (eq_of_empty c no_domain))
    | inr domain ↦ elim (Bool-cases (text_eq h (trim_prefix c (codes ".")))) [
      | inl equal ↦ bare domain ((text_eq_iff h (trim_prefix c (codes "."))).0 equal)
      | inr other ↦
          let suffix : has_suffix h (codes "." ++ trim_prefix c (codes ".")) ≡ true =
            ground arith in
          let (front, e) = (has_suffix_iff h (codes "." ++ trim_prefix c (codes "."))).0 suffix in
          sub front domain e
    ]
  ]
]

domain_match_complete : (h c : Text) → DomainMatches h c → domain_match h c ≡ true
unfolding domain_match
domain_match_complete h c (exact e) = ground (arith, (text_eq_iff h c).1 e)
domain_match_complete h c (bare domain e) =
    ground (arith, domain, (text_eq_iff h (trim_prefix c (codes "."))).1 e)
domain_match_complete h c (sub front domain e) =
    let suffix = (has_suffix_iff h (codes "." ++ trim_prefix c (codes "."))).1 (front, e) in
    ground (arith, domain, suffix)

-- domainMatch holds exactly of the host that is the cookie domain, with or without a leading dot,
-- and of those that end with a dot and the domain, also where the host is an IP address.
pub domain_match_iff : (h c : Text) → (domain_match h c ≡ true) ↔ DomainMatches h c
domain_match_iff h c = (domain_match_sound h c, domain_match_complete h c)
