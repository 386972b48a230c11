-- ===== src/Vhost/Local.antt =====
-- internal/vhost/local.go: files of a directory. The file system and the package mime are
-- parameters.
use cifera.Base.{
  ◌==◌, if◌then◌else◌, itoa, length, pos, Text, codes, text_eq, is_empty, has_prefix, trim_prefix,
  ℕ, not, ◌&&◌, Option, none, some, List, [], ◌∷◌, ◌++◌, reverse,
}
use cifera.Header
use cifera.Http.{Response}
use cifera.Vhost.Path.{slash, dot_dot, clean, join_path}

-- os.Stat
pub data FileInfo : Type 0 where
  missing : FileInfo
  unreadable : FileInfo
  directory : FileInfo
  file : FileInfo

-- os.ReadFile
pub data FileData : Type 0 where
  no_file : FileData
  no_access : FileData
  bytes : List ℕ → FileData

pub record Files : Type 0 where
  pub stat : Text → FileInfo
  pub read_file : Text → FileData

-- mime.TypeByExtension and http.DetectContentType
pub record Mime : Type 0 where
  pub type_by_extension : Text → Text
  pub detect : List ℕ → Text

-- The third check: the path is the base directory or below it.
abbrev pub inside : Text → Text → Option Text
inside base final =
    if not (text_eq final (clean base)) && not (has_prefix final (clean base ++ slash))
    then none
    else some final

unfoldable pub sanitize_path : Text → Text → Option Text
sanitize_path base_dir request_path =
    let rel = trim_prefix (clean (b'/' ∷ request_path)) slash in
    if has_prefix rel dot_dot then none else inside base_dir (clean (join_path base_dir rel))

-- filepath.Ext: from the last dot of the last element.
abbrev ext_from : Text → Text → Text
ext_from tail [] = []
ext_from tail (c ∷ s) =
    let rest = ext_from (c ∷ tail) s in
    if c == b'/' then [] else if c == b'.' then c ∷ tail else rest

unfoldable pub ext : Text → Text
ext p = ext_from [] (reverse p)

unfoldable pub make_file_response : List ℕ → Text → Text → Response
make_file_response data_bytes content_type method = record {
  status_code = 200;
  header =
      Header.set (Header.set [] (codes "Content-Type") content_type) (codes "Content-Length")
        (itoa (length data_bytes));
  body = if text_eq method (codes "HEAD") then [] else data_bytes;
  content_length = pos (length data_bytes);
}

unfoldable pub make_error_response : ℕ → Text → Response
make_error_response status msg =
    let body = msg ++ 10 ∷ [] in
    record {
      status_code = status;
      header =
          Header.set (Header.set [] (codes "Content-Type") (codes "text/plain; charset=utf-8"))
            (codes "Content-Length") (itoa (length body));
      body = body;
      content_length = pos (length body);
    }

module _ (files : Files) (mime : Mime) where
  -- A directory answers with its index.html only.
  unfoldable pub serve_index : Text → FileData → Response
  serve_index method (bytes content) =
      make_file_response content (codes "text/html; charset=utf-8") method
  serve_index method no_file = make_error_response 403 (codes "Directory listing forbidden")
  serve_index method no_access = make_error_response 403 (codes "Directory listing forbidden")

  unfoldable pub content_type_of : Text → List ℕ → Text
  content_type_of clean_path content =
      let known = mime.type_by_extension (ext clean_path) in
      if is_empty known then mime.detect content else known

  unfoldable pub serve_file : Text → Text → FileData → Response
  serve_file clean_path method no_file = make_error_response 404 (codes "Not Found")
  serve_file clean_path method no_access = make_error_response 500 (codes "Read error")
  serve_file clean_path method (bytes content) =
      make_file_response content (content_type_of clean_path content) method

  unfoldable pub serve_path : Text → Text → FileInfo → Response
  serve_path clean_path method missing = make_error_response 404 (codes "Not Found")
  serve_path clean_path method unreadable = make_error_response 500 (codes "Internal Server Error")
  serve_path clean_path method directory =
      serve_index method (files.read_file (join_path clean_path (codes "index.html")))
  serve_path clean_path method file = serve_file clean_path method (files.read_file clean_path)

  unfoldable pub serve_local : Text → Text → Text → Response
  serve_local abs_base_dir method path =
      if not (text_eq method (codes "GET")) && not (text_eq method (codes "HEAD"))
      then make_error_response 405 (codes "Method Not Allowed")
      else (elim (sanitize_path abs_base_dir path) [
        | none ↦ make_error_response 403 (codes "Forbidden")
        | some clean_path ↦ serve_path clean_path method (files.stat clean_path)
      ])
