-- ===== src/Server/Session.antt =====
-- internal/server.go: the session of a request, in ServeHTTP. The jar of the session is found by the
-- tenant and the session id, gives the request its cookies, and takes in those that the script of
-- the browser has changed. The request makes one reading of the clock.
use cifera.Base.{
  if◌then◌else◌, Text, codes, is_empty, ℕ, Bool, Option, none, some, List, [], ◌∷◌, ◌++◌, map,
}
use cifera.Header
use cifera.Header.{Header}
use cifera.Vhost.Url.{Url}
use cifera.CookieJar.Entry.{HttpCookie}
use cifera.CookieJar.Jar.{add_cookie, cookies_for}
use cifera.CookieSync.Headers.{Encoding, build_cookie_header, decode_cookie_sync_header}
use cifera.Tenant.Store.{Tenant, Mode, auto, managed, resolve, jar_key}
use cifera.Tenant.Session.{is_valid_uuid, new_uuid}
use cifera.Manager.Storage.{Storage, Codec}
use cifera.Manager.State.{Manager, get_or_create_jar, persist_jar, set_jar}

-- The operations of net/http and net/url on a request: Request.Cookie and URL.RequestURI.
pub record Web : Type 0 where
  pub cookie : Header → Text → Option Text
  pub request_uri : Url → Text

-- What the context of the request keeps of it; the jar is a handle.
pub record Session : Type 0 where
  pub jar : ℕ
  pub session_id : Text
  pub is_new : Bool
  pub jar_key : Text
  pub tenant : Tenant
  pub sync_keys : List Text

abbrev pub cookie_session_id : Text
cookie_session_id = codes "_cifera_sid"

abbrev pub sync_header : Text
sync_header = codes "Cifera-Cookie-Sync"

abbrev valid_or_empty : Option Text → Text
valid_or_empty none = []
valid_or_empty (some v) = if is_valid_uuid v then v else []

abbrev value_or_empty : Option Text → Text
value_or_empty none = []
value_or_empty (some v) = v

unfoldable pub given_session : Web → Header → Text
given_session web h = valid_or_empty (web.cookie h cookie_session_id)

abbrev pub with_id : Tenant → Text → Mode → Tenant
with_id t session_id auto = record t { id = session_id }
with_id t session_id managed = t

-- The tenant and the session id; a request without a valid id gets a new one.
unfoldable pub bootstrap : Web → Option (Text → Text → Bool) → List ℕ → Header → Tenant × Text
bootstrap web check random h =
    let given = given_session web h in
    let t = resolve check (λ name. value_or_empty (web.cookie h name)) given in
    let new_sid = new_uuid random in
    if is_empty given then (with_id t new_sid t.mode, new_sid) else (t, given)

-- The cookies of the jar take the place of those that the client sent.
unfoldable pub with_cookies : List HttpCookie → Header → Header
with_cookies [] h = Header.del h (codes "Cookie")
with_cookies (c ∷ cs) h = Header.set h (codes "Cookie") (build_cookie_header (c ∷ cs))

abbrev pub sync_key : HttpCookie → Text
sync_key c = c.name ++ (codes "|" ++ c.path)

module _ (db : Storage) (codec : Codec) where
  -- The loop over the synced cookies; none is the panic of AddCookie.
  unfoldable pub add_synced :
      ℕ → Manager db.State → ℕ → List HttpCookie → Text → Option (Manager db.State)
  add_synced now m id [] host = some m
  add_synced now m id (c ∷ cs) host = elim (add_cookie now (m.heap id) c host) [
    | none ↦ none
    | some jar ↦ add_synced now (set_jar m id jar) id cs host
  ]

  unfoldable pub sync_all :
      ℕ → Manager db.State → Session → List HttpCookie → Text → Option (Manager db.State × Session)
  sync_all now m s cookies host = elim (add_synced now m s.jar cookies host) [
    | none ↦ none
    | some m' ↦
        some (
          persist_jar db codec now m' s.jar_key s.jar,
          record s { sync_keys = map sync_key cookies },
        )
  ]

  -- A header that cannot be decoded changes nothing.
  unfoldable pub sync_cookies :
      Encoding
      → ℕ
      → Manager db.State
      → Session
      → Header
      → Text
      → Option (Manager db.State × Session)
  sync_cookies enc now m s h host =
      let text = Header.get h sync_header in
      if is_empty text then some (m, s) else (elim (decode_cookie_sync_header enc text) [
        | none ↦ some (m, s)
        | some cookies ↦ sync_all now m s cookies host
      ])

  abbrev pub paired : {M : Type 0} → Header → Option (M × Session) → Option (M × Header × Session)
  paired h none = none
  paired h (some (m, s)) = some (m, h, s)

  -- The session, over a handed out jar; no jar is a dereference of nil.
  unfoldable pub use_jar :
      Encoding
      → ℕ
      → Manager db.State
      → Tenant × Text
      → Header
      → Text
      → Text
      → Option (ℕ × Bool)
      → Option (Manager db.State × Header × Session)
  use_jar enc now m who h host path none = none
  use_jar enc now m (t, sid) h host path (some (id, is_new)) =
      let h' = with_cookies (cookies_for now (m.heap id) host path) h in
      let s : Session = record {
        jar = id;
        session_id = sid;
        is_new = is_new;
        jar_key = jar_key t sid;
        tenant = t;
        sync_keys = [];
      } in
      paired h' (sync_cookies enc now m s h' host)

  unfoldable pub enter_session :
      Web
      → Encoding
      → Option (Text → Text → Bool)
      → ℕ
      → List ℕ
      → Manager db.State
      → Header
      → Text
      → Text
      → Option (Manager db.State × Header × Session)
  enter_session web enc check now random m h host path =
      let who = bootstrap web check random h in
      let (m', handed) = get_or_create_jar db codec now m (jar_key who.0 who.1) in
      use_jar enc now m' who h host path handed
