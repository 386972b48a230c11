-- ===== src/Compress/Response.antt =====
-- internal/compress/compress.go: CompressResponse and Decode; internal/server.go: the decompression
-- of a response. The codecs are parameters. A response always has a body.
use cifera.Base.{
  if◌then◌else◌, ltb, ℤ, pos, negsuc, length, itoa, any, Text, codes, text_eq, is_empty, to_lower,
  has_prefix, ℕ, Bool, false, not, ◌||◌, Option, none, some, List, [], ◌∷◌,
}
use cifera.Header
use cifera.Header.{Header}
use cifera.Http
use cifera.Compress.Negotiate.{
  Algorithm, gzip, brotli, zstd, name_of, Negotiator, Floats, negotiate,
}

-- What is written by an encoder, and read by a decoder; none for data that is not of its format.
pub record Codecs : Type 0 where
  pub encode : Algorithm → List ℕ → List ℕ
  pub decode : Algorithm → List ℕ → Option (List ℕ)

abbrev pub min_compress_size : ℕ
min_compress_size = 1400

abbrev pub incompressible_prefixes : List Text
incompressible_prefixes =
    codes "image/"
    ∷ codes "video/"
    ∷ codes "audio/"
    ∷ codes "font/"
    ∷ codes "application/zip"
    ∷ codes "application/gzip"
    ∷ codes "application/x-gzip"
    ∷ codes "application/pdf"
    ∷ codes "application/x-7z-compressed"
    ∷ codes "application/x-rar-compressed"
    ∷ codes "application/x-bzip2"
    ∷ []

unfoldable pub is_compressible_type : Text → Bool
is_compressible_type content_type =
    not (any (has_prefix (to_lower content_type)) incompressible_prefixes)

-- A length that is known and small.
abbrev pub is_small : ℤ → Bool
is_small (pos n) = ltb n min_compress_size
is_small (negsuc n) = false

abbrev pub content_encoding : Text
content_encoding = codes "Content-Encoding"

unfoldable pub compressed_header : Algorithm → Header → Header
compressed_header algo h =
    Header.add
      (Header.set (Header.del (Header.del h (codes "Content-Length")) (codes "Transfer-Encoding"))
        content_encoding (name_of algo))
      (codes "Vary") (codes "Accept-Encoding")

module _ (codecs : Codecs) where
  unfoldable pub compressed : Algorithm → Http.Response → Http.Response
  compressed algo resp = record resp {
    header = compressed_header algo resp.header;
    body = codecs.encode algo resp.body;
    content_length = negsuc 0;
  }

  abbrev pub compressed_by : Http.Response → Option Algorithm → Http.Response
  compressed_by resp none = resp
  compressed_by resp (some algo) =
      if is_small resp.content_length then resp else compressed algo resp

  unfoldable pub compress_response : Floats → Negotiator → Http.Response → Header → Http.Response
  compress_response fl n resp request_header =
      if not n.enabled
      then resp
      else if not (is_empty (Header.get resp.header content_encoding))
      then resp
      else if not (is_compressible_type (Header.get resp.header (codes "Content-Type")))
      then resp
      else compressed_by resp (negotiate fl n (Header.get request_header (codes "Accept-Encoding")))

  unfoldable pub decode : List ℕ → Text → Option (List ℕ)
  decode bytes encoding =
      let e = to_lower encoding in
      if text_eq e (codes "gzip")
      then codecs.decode gzip bytes
      else if text_eq e (codes "br") || text_eq e (codes "brotli")
      then codecs.decode brotli bytes
      else if text_eq e (codes "zstd")
      then codecs.decode zstd bytes
      else some bytes

  abbrev pub with_body : Http.Response → Option (List ℕ) → Option Http.Response
  with_body resp none = none
  with_body resp (some decoded) = some (record resp {
    header =
        Header.del (Header.set resp.header (codes "Content-Length") (itoa (length decoded)))
          content_encoding;
    body = decoded;
    content_length = pos (length decoded);
  })

  -- decompressResponseBody: none where the data cannot be decoded.
  unfoldable pub decompress_response_body : Http.Response → Text → Option Http.Response
  decompress_response_body resp encoding = with_body resp (decode resp.body encoding)
