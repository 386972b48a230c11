-- ===== src/Compress/RoundTrip.antt =====
-- internal/compress/compress.go and internal/server.go: what is compressed is decoded again by the
-- header that the response then has.
use cifera.Base.{
  if◌then◌else◌, pos, codes, text_eq, is_empty, to_lower, length, itoa, ℕ, ◌≡◌, ◌≢◌, refl, ap, ◌∙◌,
  Bool, true, false, not, Option, none, some, List, [],
}
use cifera.Header
use cifera.Header.{Header, canonical_key}
use cifera.Header.Laws.{get-set, get-del, get-add_other}
use cifera.Http
use cifera.Compress.Negotiate.{
  Algorithm, gzip, brotli, zstd, name_of, Negotiator, Floats, negotiate,
}
use cifera.Compress.Response.{
  Codecs, content_encoding, is_compressible_type, is_small, compressed_header, compressed,
  compressed_by, compress_response, decode, decompress_response_body, with_body,
}

apart : canonical_key (codes "Vary") ≢ canonical_key content_encoding
unfolding canonical_key
apart e = cc e

-- The header says how the body is encoded.
compressed_header-encoding :
    (algo : Algorithm) (h : Header)
    → Header.get (compressed_header algo h) content_encoding ≡ name_of algo
unfolding compressed_header
compressed_header-encoding algo h =
    let h' = Header.del (Header.del h (codes "Content-Length")) (codes "Transfer-Encoding") in
    get-add_other (Header.set h' content_encoding (name_of algo)) (codes "Vary")
      (codes "Accept-Encoding") content_encoding apart
    ∙ get-set h' content_encoding (name_of algo)

decode_named :
    (codecs : Codecs) (algo : Algorithm) (bytes : List ℕ)
    → decode codecs bytes (name_of algo) ≡ codecs.decode algo bytes
unfolding decode text_eq to_lower
decode_named codecs gzip bytes = refl
decode_named codecs brotli bytes = refl
decode_named codecs zstd bytes = refl

module _ (fl : Floats) (codecs : Codecs)
    (law : (algo : Algorithm) (bytes : List ℕ)
      → codecs.decode algo (codecs.encode algo bytes) ≡ some bytes) where
  -- The response stands for a body: so its header says.
  StandsFor : Http.Response → List ℕ → Type 0
  StandsFor resp body =
      decode codecs resp.body (Header.get resp.header content_encoding) ≡ some body

  as_it_is :
      (resp : Http.Response)
      → Header.get resp.header content_encoding ≡ []
      → StandsFor resp resp.body
  unfolding StandsFor decode to_lower text_eq
  as_it_is resp plain = rw plain

  compressed-StandsFor :
      (algo : Algorithm) (resp : Http.Response) → StandsFor (compressed codecs algo resp) resp.body
  unfolding StandsFor compressed
  compressed-StandsFor algo resp =
      ap (decode codecs (codecs.encode algo resp.body))
        (compressed_header-encoding algo resp.header)
      ∙ decode_named codecs algo (codecs.encode algo resp.body)
      ∙ law algo resp.body

  if-StandsFor :
      (b : Bool) (x y : Http.Response) (body : List ℕ)
      → StandsFor x body
      → StandsFor y body
      → StandsFor (if b then x else y) body
  if-StandsFor true x y body h k = h
  if-StandsFor false x y body h k = k

  compressed_by-StandsFor :
      (resp : Http.Response) (o : Option Algorithm)
      → StandsFor resp resp.body
      → StandsFor (compressed_by codecs resp o) resp.body
  compressed_by-StandsFor resp none h = h
  compressed_by-StandsFor resp (some algo) h =
      if-StandsFor (is_small resp.content_length) _ _ resp.body h (compressed-StandsFor algo resp)

  module _ (n : Negotiator) (resp : Http.Response) (request_header : Header)
      (plain : Header.get resp.header content_encoding ≡ []) where
    compress_response-StandsFor :
        StandsFor (compress_response codecs fl n resp request_header) resp.body
    unfolding compress_response
    compress_response-StandsFor =
        let h = as_it_is resp plain in
        if-StandsFor (not n.enabled) _ _ resp.body h (
          if-StandsFor (not (is_empty (Header.get resp.header content_encoding))) _ _ resp.body h (
            if-StandsFor
              (not (is_compressible_type (Header.get resp.header (codes "Content-Type")))) _ _
              resp.body h
              (compressed_by-StandsFor resp
                (negotiate fl n (Header.get request_header (codes "Accept-Encoding"))) h)))

    -- Whatever the client accepts, a response that was not encoded is, when CompressResponse has
    -- gone over it, decompressed to its original body by what its Content-Encoding then says, and
    -- has no Content-Encoding afterwards, where the codecs decode what they have encoded.
    pub compress_response-decompress :
        let r = compress_response codecs fl n resp request_header in
        let encoding = Header.get r.header content_encoding in
        (r' : Http.Response) × (decompress_response_body codecs r encoding ≡ some r')
        × (r'.body ≡ resp.body)
        × (Header.get r'.header content_encoding ≡ [])
    unfolding decompress_response_body StandsFor
    compress_response-decompress =
        let r = compress_response codecs fl n resp request_header in
        let set = Header.set r.header (codes "Content-Length") (itoa (length resp.body)) in
        (
          record r {
            header = Header.del set content_encoding;
            body = resp.body;
            content_length = pos (length resp.body);
          },
          ap (with_body codecs r) compress_response-StandsFor,
          refl,
          get-del set content_encoding,
        )
