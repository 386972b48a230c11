-- ===== src/CookieJar/Matcher.antt =====
-- internal/cookiejar/matcher.go: which hosts and paths a cookie applies to.
use cifera.Base.{
  Bool, true, false, ◌&&◌, [], ◌∷◌, ◌++◌, ltb, ◌==◌, if◌then◌else◌, length, drop, Text, codes,
  text_eq, is_empty, has_prefix, has_suffix, to_lower, trim_space, trim_prefix,
}

unfoldable pub domain_match : Text → Text → Bool
domain_match host cookie_domain =
    let d = trim_prefix cookie_domain (codes ".") in
    if text_eq host cookie_domain
    then true
    else if is_empty cookie_domain
    then is_empty host
    else if text_eq host d
    then true
    else has_suffix host (codes "." ++ d)

-- Whether the byte behind the prefix is a slash.
unfoldable pub starts_with_slash : Text → Bool
starts_with_slash [] = false
starts_with_slash (c ∷ s) = c == b'/'

unfoldable pub path_match : Text → Text → Bool
path_match request_path cookie_path =
    if text_eq request_path cookie_path
    then true
    else if has_prefix request_path cookie_path
    then (if text_eq cookie_path (codes "/")
        then true
        else if ltb (length cookie_path) (length request_path)
            && starts_with_slash (drop (length cookie_path) request_path)
        then true
        else false)
    else false

unfoldable pub canonical_domain : Text → Text
canonical_domain domain = to_lower (trim_prefix (trim_space domain) (codes "."))
