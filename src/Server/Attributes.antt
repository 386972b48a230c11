-- ===== src/Server/Attributes.antt =====
-- internal/server.go: what becomes of the parts of a cookie.
use cifera.Base.{
  Without, keep-Without, StartsWith, has_prefix_trimmed_iff, has_prefix, lower_byte, to_lower,
  trim_space, is_space, ◌↔◌, ℕ, not, true, false, codes, arith, keep, Lacks, or_blank, split-join,
  split-Lacks, All-keep, Text, split, join, ◌≡◌, refl, sym, ap, ◌∙◌, Bool, List, [], ◌∷◌, ◌++◌, map,
  append_assoc, append-nil,
}
use cifera.Header
use cifera.Header.{Header}
use cifera.Header.Laws.{values-add, values-del}
use cifera.Server.Outbound.{
  semicolon, is_kept_cookie, strip_session_cookie, is_kept_attribute, rewrite_cookie_string,
  set_cookie, add_all, rewrite_cookies_legacy,
}

-- The parts that a test keeps, joined again.
joined_parts :
    (p : Text → Bool) (s : Text)
    → split b';' (join semicolon (keep p (split b';' s))) ≡ or_blank (keep p (split b';' s))
joined_parts p s =
    split-join b';' (keep p (split b';' s))
      (All-keep (Lacks b';') p (split b';' s) (split-Lacks b';' s))

pub strip_session_cookie-parts :
    (s : Text) → split b';' (strip_session_cookie s) ≡ or_blank (keep is_kept_cookie (split b';' s))
unfolding strip_session_cookie
strip_session_cookie-parts s = joined_parts is_kept_cookie s

rewrite_cookie_string-parts :
    (s : Text)
    → split b';' (rewrite_cookie_string s) ≡ or_blank (keep is_kept_attribute (split b';' s))
unfolding rewrite_cookie_string
rewrite_cookie_string-parts s = joined_parts is_kept_attribute s

values-add_all :
    (h : Header) (cs : List Text)
    → Header.values (add_all h cs) set_cookie ≡ Header.values h set_cookie ++ cs
unfolding add_all
values-add_all h [] = sym (append-nil (Header.values h set_cookie))
values-add_all h (c ∷ cs) =
    values-add_all (Header.add h set_cookie c) cs
    ∙ ap (λ x. x ++ cs) (values-add h set_cookie c)
    ∙ append_assoc (Header.values h set_cookie) (c ∷ []) cs

-- The cookie of the session, behind any blanks.
abbrev pub IsSession : Text → Type 0
IsSession part = StartsWith (λ c. c) (codes "_cifera_sid=") part

-- A domain in letters of any case, behind any blanks.
abbrev pub IsDomain : Text → Type 0
IsDomain part = StartsWith lower_byte (codes "domain=") part

map_same : (s : Text) → map (λ c. c) s ≡ s
map_same [] = refl
map_same (c ∷ s) = ap (◌∷◌ c) (map_same s)

is_kept_cookie_iff : (part : Text) → (is_kept_cookie part ≡ false) ↔ IsSession part
is_kept_cookie_iff part =
    let starts =
      has_prefix_trimmed_iff (λ c. c) b'_' (codes "cifera_sid=") part (λ c h. h)
        (
          refl,
          (
            refl,
            (refl, (refl, (refl, (refl, (refl, (refl, (refl, (refl, (refl, (refl, tt)))))))))),
          ),
        ) in
    let same : has_prefix (map (λ c. c) (trim_space part)) (codes "_cifera_sid=")
        ≡ has_prefix (trim_space part) (codes "_cifera_sid=") =
      ap (λ t. has_prefix t (codes "_cifera_sid=")) (map_same (trim_space part)) in
    (λ h. starts.0 (same ∙ ground (arith, h)), λ d. ap not (sym same ∙ starts.1 d))

blank_lower : (c : ℕ) → is_space c ≡ true → is_space (lower_byte c) ≡ true
blank_lower c h = ground (arith, h)

is_kept_attribute_iff : (part : Text) → (is_kept_attribute part ≡ false) ↔ IsDomain part
unfolding to_lower
is_kept_attribute_iff part =
    let starts =
      has_prefix_trimmed_iff lower_byte b'd' (codes "omain=") part blank_lower
        (refl, (refl, (refl, (refl, (refl, (refl, (refl, tt))))))) in
    (λ h. starts.0 (ground (arith, h)), λ d. ap not (starts.1 d))

-- The second text has the parts of the first in their order, but for those that are so.
pub record HasRest (P : Text → Type 0) (before after : Text) : Type 0 where
  pub rest : List Text
  pub chosen : Without P (split b';' before) rest
  pub parts : split b';' after ≡ or_blank rest

pub session_rest :
    (before after : Text)
    → split b';' after ≡ or_blank (keep is_kept_cookie (split b';' before))
    → HasRest IsSession before after
session_rest before after e = record {
  rest = keep is_kept_cookie (split b';' before);
  chosen =
      keep-Without IsSession is_kept_cookie (split b';' before) (λ x. (is_kept_cookie_iff x).0)
        (λ x. (is_kept_cookie_iff x).1);
  parts = e;
}

rewrite_cookie_string-HasRest : (c : Text) → HasRest IsDomain c (rewrite_cookie_string c)
rewrite_cookie_string-HasRest c = record {
  rest = keep is_kept_attribute (split b';' c);
  chosen =
      keep-Without IsDomain is_kept_attribute (split b';' c) (λ x. (is_kept_attribute_iff x).0)
        (λ x. (is_kept_attribute_iff x).1);
  parts = rewrite_cookie_string-parts c;
}

-- Without cookie jars, the cookies of a response are set again in their order, and each keeps its
-- parts in order but for those that start, behind any blanks, with domain= in letters of any case.
pub rewrite_cookies_legacy-parts :
    (h : Header) (c : Text)
    → (Header.values (rewrite_cookies_legacy h) set_cookie
        ≡ map rewrite_cookie_string (Header.values h set_cookie))
      × HasRest IsDomain c (rewrite_cookie_string c)
unfolding rewrite_cookies_legacy
rewrite_cookies_legacy-parts h c =
    (rewritten (Header.values h set_cookie) refl, rewrite_cookie_string-HasRest c)
  where
    rewritten :
        (vs : List Text)
        → Header.values h set_cookie ≡ vs
        → Header.values
            (elim vs [
              | [] ↦ h
              | x ∷ xs ↦ add_all (Header.del h set_cookie) (map rewrite_cookie_string (x ∷ xs))
            ])
            set_cookie
          ≡ map rewrite_cookie_string vs
    rewritten [] e = e
    rewritten (x ∷ xs) e =
        values-add_all (Header.del h set_cookie) (map rewrite_cookie_string (x ∷ xs))
        ∙ ap (λ y. y ++ map rewrite_cookie_string (x ∷ xs)) (values-del h set_cookie)
