-- ===== src/Server/Kept.antt =====
-- internal/server.go over internal/cookiejar: the steps of a request on the jar of its session leave
-- the jars of all other keys as they were.
use cifera.Base.{
  Bool-cases, Option-cases, eq_of_some, lookup, lookup-insert, Text, text_dec, is_empty, ltb,
  length, ℕ, ◌≡◌, ◌≢◌, refl, sym, ap, subst, ◌∙◌, inl, inr, if_pos, if_neg, Bool, true, false,
  Option, none, some, List, [], ◌∷◌,
}
use cifera.CookieJar.Entry.{HttpCookie}
use cifera.CookieJar.Jar.{Jar, new_jar, add_cookie}
use cifera.Manager.Storage.{Storage, Codec}
use cifera.Manager.State.{
  Manager, persist_ch_capacity, set_jar, store_jar, stored_jar, load_or_create, get_or_create_jar,
  persist_jar,
}
use cifera.Manager.Handles.{IsConsistent, jar_at, jar_at-store_jar}
use cifera.Manager.Reach.{
  Reach, hand_out, persist, add_cookie_to, Reach-IsConsistent, Reach-isolates,
}
use cifera.Server.Session.{add_synced}

module _ (db : Storage) (codec : Codec) where
  -- The manager after the operations that a request does for the session of one jar.
  pub record IsKept (m m' : Manager db.State) (key : Text) (id : ℕ) : Type 0 where
    pub reach : Reach db codec m'
    pub place : lookup text_dec key m'.jars ≡ some id
    pub others : (j : Text) → key ≢ j → jar_at m' j ≡ jar_at m j

  pub IsKept-trans :
      (m m' m'' : Manager db.State) (key : Text) (id : ℕ)
      → ((j : Text) → key ≢ j → jar_at m' j ≡ jar_at m j)
      → IsKept m' m'' key id
      → IsKept m m'' key id
  IsKept-trans m m' m'' key id before k = record {
    reach = k.reach;
    place = k.place;
    others = λ j ne. k.others j ne ∙ before j ne;
  }

  store_jar-others :
      (m : Manager db.State) (key : Text) (jar : Jar) (j : Text)
      → IsConsistent m
      → key ≢ j
      → jar_at (store_jar m key jar) j ≡ jar_at m j
  store_jar-others m key jar j c ne =
      jar_at-store_jar m key jar j c ∙ if_neg (text_dec key j) ne (some jar) (jar_at m j)

  store_jar-place :
      (m : Manager db.State) (key : Text) (jar : Jar)
      → lookup text_dec key (store_jar m key jar).jars ≡ some m.next
  unfolding store_jar
  store_jar-place m key jar =
      lookup-insert text_dec key key m.next m.jars
      ∙ if_pos (text_dec key key) refl (some m.next) (lookup text_dec key m.jars)

  -- GetOrCreateJar finds the jar, or stores one.
  data HandOut (m : Manager db.State) (key : Text) (r : Manager db.State × Option (ℕ × Bool))
      : Type 0 where
    refused : r ≡ (m, none) → HandOut m key r
    found :
        (id : ℕ)
        → lookup text_dec key m.jars ≡ some id
        → r ≡ (m, some (id, false))
        → HandOut m key r
    made :
        (jar : Jar) (is_new : Bool)
        → r ≡ (store_jar m key jar, some (m.next, is_new))
        → HandOut m key r

  get_or_create_jar-HandOut :
      (now : ℕ) (m : Manager db.State) (key : Text)
      → HandOut m key (get_or_create_jar db codec now m key)
  unfolding get_or_create_jar load_or_create
  get_or_create_jar-HandOut now m key = elim (Bool-cases (is_empty key)) [
    | inl empty ↦ refused (rw (empty, get_or_create_jar))
    | inr ne ↦ elim (Option-cases (lookup text_dec key m.jars)) [
      | inr (old, there) ↦ found old there (rw (ne, get_or_create_jar, there))
      | inl absent ↦ elim (Option-cases (stored_jar db codec now m key)) [
        | inl nothing ↦
            made (new_jar m.max_per_jar) true
              (rw (ne, get_or_create_jar, absent, nothing, load_or_create))
        | inr (jar, stored) ↦
            made jar false (rw (ne, get_or_create_jar, absent, stored, load_or_create))
      ]
    ]
  ]

  -- The jar that is handed out stands at its key, and the others are as they were.
  pub handed_out :
      (now : ℕ) (m m' : Manager db.State) (key : Text) (id : ℕ) (is_new : Bool)
      → Reach db codec m
      → get_or_create_jar db codec now m key ≡ (m', some (id, is_new))
      → IsKept m m' key id
  handed_out now m m' key id is_new r h =
      let at_ = λ (x : Manager db.State × Option (ℕ × Bool)). x.0 in
      elim (get_or_create_jar-HandOut now m key) [
        | refused e ↦ absurd (cc)
        | found old there e ↦
            let w = sym e ∙ h in
            subst (λ x. IsKept m x key id) (ap at_ w)
              (record { reach = r; place = there ∙ same_id w; others = λ j ne. refl })
        | made jar new e ↦
            let w = sym e ∙ h in
            subst (λ x. IsKept m x key id) (ap at_ w)
              (record {
                reach = subst (Reach db codec) (ap at_ e) (hand_out now key r);
                place = store_jar-place m key jar ∙ same_id w;
                others = λ j ne. store_jar-others m key jar j (Reach-IsConsistent db codec m r) ne;
              })
      ]
    where
      same_id :
          {m m' : Manager db.State} {n id : ℕ} {b is_new : Bool}
          → ◌≡◌ {A = Manager db.State × Option (ℕ × Bool)} (m, some (n, b)) (m', some (id, is_new))
          → some n ≡ some id
      same_id w = ap some (ap (λ x. x.0) (eq_of_some (ap (λ x. x.1) w)))

  set_jar-IsKept :
      (m : Manager db.State) (key : Text) (id now : ℕ) (c : HttpCookie) (host : Text) (jar : Jar)
      → Reach db codec m
      → lookup text_dec key m.jars ≡ some id
      → add_cookie now (m.heap id) c host ≡ some jar
      → IsKept m (set_jar m id jar) key id
  set_jar-IsKept m key id now c host jar r there h = record {
    reach = add_cookie_to id now c host r h;
    place = there;
    others = λ j ne.
        (Reach-isolates db codec m key id jar r there).1 j
        ∙ if_neg (text_dec key j) ne (some jar) (jar_at m j);
  }

  pub add_synced-IsKept :
      (now : ℕ) (m m' : Manager db.State) (key : Text) (id : ℕ) (cs : List HttpCookie) (host : Text)
      → Reach db codec m
      → lookup text_dec key m.jars ≡ some id
      → add_synced db codec now m id cs host ≡ some m'
      → IsKept m m' key id
  unfolding add_synced
  add_synced-IsKept now m m' key id [] host r there h =
      subst (λ x. IsKept m x key id) (eq_of_some h)
        (record { reach = r; place = there; others = λ j ne. refl })
  add_synced-IsKept now m m' key id (c ∷ cs) host r there h =
      elim (Option-cases (add_cookie now (m.heap id) c host)) [
        | inl panic ↦ absurd (cc (rw (panic, add_synced) at h))
        | inr (jar, added) ↦
            let k = set_jar-IsKept m key id now c host jar r there added in
            IsKept-trans m (set_jar m id jar) m' key id k.others (
              add_synced-IsKept now (set_jar m id jar) m' key id cs host k.reach k.place
                (rw (added, add_synced) at h))
      ]

  pub persist_jar-IsKept :
      (now : ℕ) (m : Manager db.State) (key : Text) (id : ℕ)
      → Reach db codec m
      → lookup text_dec key m.jars ≡ some id
      → IsKept m (persist_jar db codec now m key id) key id
  unfolding persist_jar jar_at
  persist_jar-IsKept now m key id r there =
      let reach = persist now key id r in
      elim (Option-cases m.db) [
        | inl off ↦ record {
          reach = reach;
          place = rw (off, persist_jar) there;
          others = λ j ne. rw (off, persist_jar);
        }
        | inr (s, on) ↦ elim (Bool-cases (ltb (length m.persist_ch) persist_ch_capacity)) [
          | inl room ↦ record {
            reach = reach;
            place = rw (on, persist_jar, room) there;
            others = λ j ne. rw (on, persist_jar, room);
          }
          | inr full ↦ record {
            reach = reach;
            place = rw (on, persist_jar, full) there;
            others = λ j ne. rw (on, persist_jar, full);
          }
        ]
      ]
