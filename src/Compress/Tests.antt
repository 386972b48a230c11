-- ===== src/Compress/Tests.antt =====
-- internal/compress/compress.go: runs at concrete headers, and the theorems at some of them.
use cifera.Base.{
  if◌then◌else◌, ltb, ◌==◌, drop, split, trim, trim_left, lookup, insert, delete, itoa, Text, codes,
  text_eq, text_dec, to_lower, ℕ, has_prefix, negsuc, ◌≡◌, refl, true, none, some, [], ◌∷◌,
}
use cifera.Header
use cifera.Header.{Header, canonical_key}
use cifera.Http
use cifera.LoopGuard.Address.{cut_first}
use cifera.Compress.Negotiate.{
  gzip, zstd, Negotiator, Floats, default_algos, new_negotiator, is_algo_enabled, algo_named,
  behind_q, read_part, usable, offer_of, better, negotiate_from, negotiate,
}
use cifera.Compress.Response.{
  Codecs, content_encoding, is_compressible_type, compressed_header, compressed, compress_response,
  decode, decompress_response_body,
}
use cifera.Compress.Best.{IsRanked}
use cifera.Compress.Choice
use cifera.Compress.RoundTrip

-- Four qualities, by their rank.
abbrev floats : Floats
floats = record {
  Float = ℕ;
  one = 3;
  minus_one = 0;
  parse = λ t.
      if text_eq t (codes "0") then some 1 else if text_eq t (codes "0.9") then some 2 else none;
  above = λ a b. ltb b a;
  same = λ a b. a == b;
}

abbrev ranked : IsRanked floats
ranked = record {
  rank = λ q. some q;
  above_rank = λ a b. refl;
  same_rank = λ a b. refl;
  least = 0;
  rank_minus_one = refl;
}

abbrev negotiator : Negotiator
negotiator = record { enabled = true; algos = default_algos }

abbrev accepted : Text
accepted = codes "gzip, deflate, br ;q=0.9, zstd;q=x"

abbrev codecs : Codecs
codecs = record { encode = λ a bytes. 7 ∷ bytes; decode = λ a bytes. some (drop 1 bytes) }

abbrev response : Http.Response
response = record {
  status_code = 200;
  header = (codes "Content-Type", codes "text/css" ∷ []) ∷ [];
  body = codes "abc";
  content_length = negsuc 0;
}

abbrev request_header : Header
request_header = (codes "Accept-Encoding", accepted ∷ []) ∷ []

program : Unit {0}
unfolding lookup insert delete text_eq text_dec to_lower has_prefix split trim trim_left itoa
    canonical_key Header.get Header.set Header.del Header.add Header.values cut_first
    is_algo_enabled algo_named behind_q read_part usable offer_of better negotiate_from negotiate
    is_compressible_type compressed_header compressed compress_response decode
    decompress_response_body new_negotiator
program = tt

prefers_zstd : negotiate floats negotiator accepted ≡ some zstd
unfolding program
prefers_zstd = refl

prefers_quality : negotiate floats negotiator (codes "br;q=0.9,gzip") ≡ some gzip
unfolding program
prefers_quality = refl

-- A quality of 0 means that the coding is not acceptable, and is chosen all the same.
chooses_refused : negotiate floats negotiator (codes "gzip;q=0") ≡ some gzip
unfolding program
chooses_refused = refl

encodes :
    let r = compress_response codecs floats negotiator response request_header in
    (Header.get r.header content_encoding ≡ codes "zstd")
    × (r.content_length ≡ negsuc 0)
    × (r.body ≡ 7 ∷ codes "abc")
unfolding program
encodes = (refl, refl, refl)

negotiate-IsChoice_example :
    Choice.IsChoice floats ranked negotiator accepted (negotiate floats negotiator accepted)
negotiate-IsChoice_example = Choice.negotiate-IsChoice floats ranked negotiator accepted

compress_response-decompress_example :
    let r = compress_response codecs floats negotiator response request_header in
    let encoding = Header.get r.header content_encoding in
    (r' : Http.Response) × (decompress_response_body codecs r encoding ≡ some r')
    × (r'.body ≡ response.body)
    × (Header.get r'.header content_encoding ≡ [])
unfolding program
compress_response-decompress_example =
    RoundTrip.compress_response-decompress floats codecs (λ algo bytes. refl) negotiator response
      request_header refl
