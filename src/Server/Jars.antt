-- ===== src/Server/Jars.antt =====
-- internal/server.go over internal/cookiejar: what the session of a request does to the jars of the
-- manager, and which cookies the request goes on with.
use cifera.Base.{
  Bool-cases, Option-cases, eq_of_some, join, lookup, Text, codes, text_dec, is_empty, ℕ, ◌≡◌, ◌≢◌,
  refl, sym, ap, subst, ◌∙◌, inl, inr, Bool, false, ◌++◌, Option, none, some, List, [], ◌∷◌, map,
}
use cifera.Header
use cifera.Header.{Header}
use cifera.Header.Laws.{get-set, get-del}
use cifera.CookieJar.Entry.{HttpCookie}
use cifera.CookieJar.Jar.{Jar, cookies_for}
use cifera.CookieSync.Headers.{Encoding, build_cookie_header, decode_cookie_sync_header}
use cifera.Tenant.Store.{Tenant, jar_key}
use cifera.Manager.Storage.{Storage, Codec}
use cifera.Manager.State.{Manager, stored_jar, get_or_create_jar, persist_jar}
use cifera.Manager.Handles.{jar_at}
use cifera.Manager.Restart.{or_else, or_new, handed, get_or_create_jar-handed}
use cifera.Manager.Reach.{Reach}
use cifera.Server.Session.{
  Web, Session, bootstrap, sync_header, sync_key, with_cookies, add_synced, sync_all, sync_cookies,
  paired, use_jar, enter_session,
}
use cifera.Server.Kept.{IsKept, IsKept-trans, handed_out, add_synced-IsKept, persist_jar-IsKept}

-- What is read of the cookies that are written.
get-with_cookies :
    (cs : List HttpCookie) (h : Header)
    → Header.get (with_cookies cs h) (codes "Cookie") ≡ build_cookie_header cs
unfolding with_cookies build_cookie_header join
get-with_cookies [] h = get-del h (codes "Cookie")
get-with_cookies (c ∷ cs) h = get-set h (codes "Cookie") (build_cookie_header (c ∷ cs))

jar_key-ne : (id sid : Text) → is_empty (id ++ (codes ":" ++ sid)) ≡ false
jar_key-ne [] sid = refl
jar_key-ne (c ∷ id) sid = refl

module _ (db : Storage) (codec : Codec) where
  -- The sync of cookies keeps the session's handle, key and id.
  record IsSynced (m m' : Manager db.State) (s s' : Session) : Type 0 where
    kept : IsKept db codec m m' s.jar_key s.jar
    same_jar : s'.jar ≡ s.jar
    same_key : s'.jar_key ≡ s.jar_key

  sync_cookies-IsSynced :
      (enc : Encoding) (now : ℕ) (m m' : Manager db.State) (s s' : Session) (h : Header)
      (host : Text)
      → Reach db codec m
      → lookup text_dec s.jar_key m.jars ≡ some s.jar
      → sync_cookies db codec enc now m s h host ≡ some (m', s')
      → IsSynced m m' s s'
  unfolding sync_cookies sync_all
  sync_cookies-IsSynced enc now m m' s s' h host r there e =
      let text = Header.get h sync_header in
      elim (Bool-cases (is_empty text)) [
        | inl nothing ↦ unchanged (eq_of_some (rw (nothing, sync_cookies) at e))
        | inr some_text ↦ elim (Option-cases (decode_cookie_sync_header enc text)) [
          | inl bad ↦ unchanged (eq_of_some (rw (some_text, bad, sync_cookies) at e))
          | inr (cs, good) ↦ elim (Option-cases (add_synced db codec now m s.jar cs host)) [
            | inl panic ↦ absurd (cc (rw (some_text, good, sync_cookies, panic, sync_all) at e))
            | inr (m1, added) ↦
                let w = eq_of_some (rw (some_text, good, sync_cookies, added, sync_all) at e) in
                let k = add_synced-IsKept db codec now m m1 s.jar_key s.jar cs host r there added in
                finish (persist_jar db codec now m1 s.jar_key s.jar)
                  (record s { sync_keys = map sync_key cs }) refl refl
                  (IsKept-trans db codec m m1 (persist_jar db codec now m1 s.jar_key s.jar)
                    s.jar_key s.jar k.others
                    (persist_jar-IsKept db codec now m1 s.jar_key s.jar k.reach k.place))
                  w
          ]
        ]
      ]
    where
      finish :
          (m1 : Manager db.State) (s1 : Session)
          → s1.jar ≡ s.jar
          → s1.jar_key ≡ s.jar_key
          → IsKept db codec m m1 s.jar_key s.jar
          → ◌≡◌ {A = Manager db.State × Session} (m1, s1) (m', s')
          → IsSynced m m' s s'
      finish m1 s1 jar key k w = record {
        kept = subst (λ x. IsKept db codec m x s.jar_key s.jar) (ap (λ x. x.0) w) k;
        same_jar = ap (λ x. x.1.jar) (sym w) ∙ jar;
        same_key = ap (λ x. x.1.jar_key) (sym w) ∙ key;
      }

      unchanged : ◌≡◌ {A = Manager db.State × Session} (m, s) (m', s') → IsSynced m m' s s'
      unchanged w =
          finish m s refl refl (record { reach = r; place = there; others = λ j ne. refl }) w

  paired-eq-some :
      {h h' : Header} (o : Option (Manager db.State × Session)) {m : Manager db.State} {s : Session}
      → paired db codec h o ≡ some (m, h', s)
      → (o ≡ some (m, s)) × (h ≡ h')
  paired-eq-some none e = absurd (cc)
  paired-eq-some (some (m, s)) e = (cc, cc)

  -- The jar that gives a session its cookies: the one in memory, else the stored one, else a new one.
  abbrev pub jar_of : ℕ → Manager db.State → Text → Jar
  jar_of now m key = or_new m.max_per_jar (or_else (jar_at m key) (stored_jar db codec now m key))

  -- A request that enters its session leads to a manager that the operations can reach, in which
  -- its jar stands at the key of its tenant and session and the jars of all others are as they
  -- were, and goes on with the cookies of its jar and no others, whatever the client sent.
  pub enter_session-isolates :
      (web : Web) (enc : Encoding) (check : Option (Text → Text → Bool)) (now : ℕ) (random : List ℕ)
      (m m' : Manager db.State) (h h' : Header) (host path : Text) (s : Session)
      → Reach db codec m
      → enter_session db codec web enc check now random m h host path ≡ some (m', h', s)
      → let (t, sid) = bootstrap web check random h in
        let key = jar_key t sid in
        Reach db codec m'
        × (s.jar_key ≡ key)
        × (lookup text_dec key m'.jars ≡ some s.jar)
        × ((j : Text) → key ≢ j → jar_at m' j ≡ jar_at m j)
        × (Header.get h' (codes "Cookie")
            ≡ build_cookie_header (cookies_for now (jar_of now m key) host path))
  unfolding enter_session use_jar jar_key
  enter_session-isolates web enc check now random m m' h h' host path s r e =
      let (t, sid) = bootstrap web check random h in
      from_handed t sid (get_or_create_jar db codec now m (jar_key t sid)).0
        (get_or_create_jar db codec now m (jar_key t sid)).1 refl e
    where
      from_handed :
          (t : Tenant) (sid : Text) (m1 : Manager db.State) (o : Option (ℕ × Bool))
          → get_or_create_jar db codec now m (jar_key t sid) ≡ (m1, o)
          → use_jar db codec enc now m1 (t, sid) h host path o ≡ some (m', h', s)
          → let key = jar_key t sid in
            Reach db codec m'
            × (s.jar_key ≡ key)
            × (lookup text_dec key m'.jars ≡ some s.jar)
            × ((j : Text) → key ≢ j → jar_at m' j ≡ jar_at m j)
            × (Header.get h' (codes "Cookie")
                ≡ build_cookie_header (cookies_for now (jar_of now m key) host path))
      from_handed t sid m1 none g u = absurd (cc)
      from_handed t sid m1 (some (id, is_new)) g u =
          let key = jar_key t sid in
          let cs = cookies_for now (m1.heap id) host path in
          let s0 : Session = record {
            jar = id;
            session_id = sid;
            is_new = is_new;
            jar_key = key;
            tenant = t;
            sync_keys = [];
          } in
          let (synced, same_header) =
            paired-eq-some (sync_cookies db codec enc now m1 s0 (with_cookies cs h) host) u in
          let out = handed_out db codec now m m1 key id is_new r g in
          let z =
            sync_cookies-IsSynced enc now m1 m' s0 s (with_cookies cs h) host out.reach out.place
              synced in
          let its_jar = eq_of_some (
            sym (ap handed g)
            ∙ get_or_create_jar-handed db codec now m key (jar_key-ne t.id sid)) in
          (
            z.kept.reach,
            z.same_key,
            z.kept.place ∙ ap some (sym z.same_jar),
            λ j ne. z.kept.others j ne ∙ out.others j ne,
            ap (λ x. Header.get x (codes "Cookie")) (sym same_header)
                ∙ get-with_cookies cs h
                ∙ ap (λ j. build_cookie_header (cookies_for now j host path)) its_jar,
          )
