-- ===== src/Cache/Reads.antt =====
-- internal/cache/cache.go: what Get returns and what it leaves.
use cifera.Base.{
  ℕ, ◌+◌, ◌-◌, ◌^◌, ◌<◌, ◌≤◌, ◌≡◌, refl, ◌≢◌, ◌∙◌, ap, sym, if_pos, ◌⊎◌, inl, inr, true, false,
  Option, none, some, List, ◌∷◌, ℤ, pos, ltb_ℤ, sub_time, ◌&&◌, [], eq_of_some, Text, text_dec,
  is_empty, lookup, arith, Bool-cases, Option-cases, if◌then◌else◌,
}
use cifera.Http.{Request, Response, TimeFormat}
use cifera.Cache.Policy.{Entry, extract_ttl_from_header, is_not_modified}
use cifera.Cache.State
use cifera.Cache.State.{
  Element, WriteRequest, Cache, is_expired, list_remove, make_entry, effective_ttl, push_front,
  remove_key, remove_element, evict, cached_response, not_modified_response, store, set_locked,
}
use cifera.Cache.Lru.{IsIn, find_key, find_key_sound, find_key-list_remove, total-list_remove}
use cifera.Cache.Valid.{IsValid, store-IsValid}

module _ (tf : TimeFormat) (now : ℕ) (c : Cache) (key : Text) (req : Option Request) where
  -- The three ways of a read.
  pub data Outcome (r : Cache × Option Response) : Type 0 where
    absent : find_key key c.lru ≡ none → r ≡ (record c { misses = c.misses + 1 }, none) → Outcome r
    expired :
        (x : Element)
        → find_key key c.lru ≡ some x
        → is_expired now x.value ≡ true
        → r ≡ (record (remove_element c x) { misses = c.misses + 1 }, none)
        → Outcome r
    hit :
        (x : Element)
        → find_key key c.lru ≡ some x
        → is_expired now x.value ≡ false
        → r ≡ (
          record c { lru = x ∷ list_remove x.id c.lru; hits = c.hits + 1 },
          some (cached_response tf req x.value),
        )
        → Outcome r

  get-absent :
      lookup text_dec key c.items ≡ none
      → State.get tf now c key req ≡ (record c { misses = c.misses + 1 }, none)
  unfolding State.get
  get-absent missing = rw (missing, State.get)

  get-expired :
      (x : Element)
      → lookup text_dec key c.items ≡ some x
      → is_expired now x.value ≡ true
      → State.get tf now c key req ≡ (record (remove_element c x) { misses = c.misses + 1 }, none)
  unfolding State.get
  get-expired x found old = rw (found, State.get, old)

  pub get-hit :
      (x : Element)
      → lookup text_dec key c.items ≡ some x
      → is_expired now x.value ≡ false
      → State.get tf now c key req ≡ (
        record c { lru = x ∷ list_remove x.id c.lru; hits = c.hits + 1 },
        some (cached_response tf req x.value),
      )
  unfolding State.get
  get-hit x found fresh = rw (found, State.get, fresh)

  pub get-Outcome : IsValid c → Outcome (State.get tf now c key req)
  get-Outcome v = elim (Option-cases (lookup text_dec key c.items)) [
    | inl missing ↦ absent (sym (v.agrees key) ∙ missing) (get-absent missing)
    | inr (x, found) ↦ elim (Bool-cases (is_expired now x.value)) [
      | inl old ↦ expired x (sym (v.agrees key) ∙ found) old (get-expired x found old)
      | inr fresh ↦ hit x (sym (v.agrees key) ∙ found) fresh (get-hit x found fresh)
    ]
  ]

  -- What a read returns of an element: the answer 304 to a request whose conditions it meets, else
  -- what was stored; the element has the wanted key, and its lifetime, if it is a positive number of
  -- nanoseconds short of the greatest duration, is not over.
  pub record IsServed (x : Element) (r : Response) : Type 0 where
    pub listed : IsIn x c.lru
    pub wanted : x.value.key ≡ key
    pub in_time :
        (ttl : ℕ)
        → x.value.ttl ≡ pos ttl
        → 0 < ttl
        → ttl < 2 ^ 63 - 1
        → now ≤ x.value.stored_at + ttl
    pub answer :
        ((is_not_modified tf req x.value ≡ true) × (r.status_code ≡ 304) × (r.body ≡ []))
        ⊎ ((is_not_modified tf req x.value ≡ false)
            × (r.status_code ≡ x.value.status_code)
            × (r.header ≡ x.value.header)
            × (r.body ≡ x.value.body))

  in_time_of_fresh :
      (x : Element) (ttl : ℕ)
      → is_expired now x.value ≡ false
      → x.value.ttl ≡ pos ttl
      → 0 < ttl
      → ttl < 2 ^ 63 - 1
      → now ≤ x.value.stored_at + ttl
  unfolding sub_time
  in_time_of_fresh x ttl fresh e some_time short =
      let h : (ltb_ℤ (pos 0) (pos ttl) && ltb_ℤ (pos ttl) (sub_time now x.value.stored_at))
          ≡ false =
        rw e at fresh in
      ground (arith, h, some_time, short)

  answer_of_entry :
      (e : Entry) (r : Response)
      → r ≡ cached_response tf req e
      → ((is_not_modified tf req e ≡ true) × (r.status_code ≡ 304) × (r.body ≡ []))
        ⊎ ((is_not_modified tf req e ≡ false)
            × (r.status_code ≡ e.status_code)
            × (r.header ≡ e.header)
            × (r.body ≡ e.body))
  unfolding cached_response not_modified_response
  answer_of_entry e r same = elim (Bool-cases (is_not_modified tf req e)) [
    | inl unchanged ↦
        let w = rw (unchanged, cached_response) at same in
        inl (unchanged, ap (λ (x : Response). x.status_code) w, ap (λ (x : Response). x.body) w)
    | inr changed ↦
        let w = rw (changed, cached_response) at same in
        inr (
          changed,
          ap (λ (x : Response). x.status_code) w,
          ap (λ (x : Response). x.header) w,
          ap (λ (x : Response). x.body) w,
        )
  ]

  -- What a read of a well-formed cache returns comes from an entry of the list with the wanted key,
  -- whose lifetime, if it is a positive number of nanoseconds short of the greatest duration, has
  -- not run out since the entry was stored; it is the answer 304 without a body to a request whose
  -- conditions the entry meets, and else has the stored status, header and body.
  pub get_sound :
      (r : Response)
      → IsValid c
      → (State.get tf now c key req).1 ≡ some r
      → (x : Element) × IsServed x r
  get_sound r v h = elim (get-Outcome v) [
    | absent _ e ↦ absurd (cc (ap (λ (p : Cache × Option Response). p.1) e, h))
    | expired x _ _ e ↦ absurd (cc (ap (λ (p : Cache × Option Response). p.1) e, h))
    | hit x found fresh e ↦
        let (m, k) = find_key_sound key x c.lru found in
        (
          x,
          record {
            listed = m;
            wanted = k;
            in_time = λ ttl. in_time_of_fresh x ttl fresh;
            answer =
                answer_of_entry x.value r
                  (eq_of_some (sym h ∙ ap (λ (p : Cache × Option Response). p.1) e));
          },
        )
  ]

  -- A read counts as one hit if it returns a response and as one miss if it returns none.
  pub get_counts :
      IsValid c
      → let (c', r) = State.get tf now c key req in
        ((r ≡ none) × (c'.misses ≡ c.misses + 1) × (c'.hits ≡ c.hits))
        ⊎ ((r ≢ none) × (c'.hits ≡ c.hits + 1) × (c'.misses ≡ c.misses))
  unfolding remove_element
  get_counts v = elim (get-Outcome v) [
    | absent _ e ↦ rw e (inl (refl, refl, refl))
    | expired x _ _ e ↦ rw e (inl (refl, refl, refl))
    | hit x _ _ e ↦ rw e (inr ((λ q. cc q), refl, refl))
  ]

  -- A read of one key changes nothing that a read of another key finds.
  pub get_other :
      (other : Text)
      → IsValid c
      → other ≢ key
      → find_key other (State.get tf now c key req).0.lru ≡ find_key other c.lru
  unfolding find_key remove_element
  get_other other v ne = elim (get-Outcome v) [
    | absent _ e ↦ rw e
    | expired x found _ e ↦
        let (m, k) = find_key_sound key x c.lru found in
        rw e (ground (arith, find_key-list_remove x other c.lru m v.unique, k))
    | hit x found _ e ↦
        let (m, k) = find_key_sound key x c.lru found in
        rw e (ground (arith, find_key-list_remove x other c.lru m v.unique, k))
  ]

  -- An expired entry is not served: it is removed, its size is given back, and it is a miss.
  pub get_expired :
      (x : Element)
      → IsValid c
      → find_key key c.lru ≡ some x
      → is_expired now x.value ≡ true
      → ((State.get tf now c key req).1 ≡ none)
        × (find_key key (State.get tf now c key req).0.lru ≡ none)
        × ((State.get tf now c key req).0.cur_size + x.value.size ≡ c.cur_size)
  unfolding remove_element
  get_expired x v found old =
      let (m, k) = find_key_sound key x c.lru found in
      rw (get-expired x (v.agrees key ∙ found) old) (
        refl,
        ground (arith, find_key-list_remove x key c.lru m v.unique, k),
        omega (arith, total-list_remove x c.lru m v.unique, v.sized),
      )

store_found :
    (c : Cache) (e : Entry)
    → IsValid c
    → (x : Element) × (find_key e.key (store c e).lru ≡ some x) × (x.value ≡ e)
unfolding store push_front find_key
store_found c e v = (_, if_pos (text_dec e.key e.key) refl _ _, refl)

module _ (tf : TimeFormat) (now : ℕ) (w : WriteRequest) (ttl : ℤ) (x : Element) where
  entry_ttl : x.value ≡ make_entry tf now w ttl → x.value.ttl ≡ ttl
  unfolding make_entry
  entry_ttl e = ap (λ (d : Entry). d.ttl) e

  entry_time : x.value ≡ make_entry tf now w ttl → x.value.stored_at ≡ now
  unfolding make_entry
  entry_time e = ap (λ (d : Entry). d.stored_at) e

  entry_found :
      (l : List Element)
      → find_key (make_entry tf now w ttl).key l ≡ some x
      → find_key w.key l ≡ some x
  unfolding make_entry
  entry_found l h = h

  response_of_entry :
      (req : Option Request)
      → cached_response tf req (make_entry tf now w ttl) ≡ (
          if is_not_modified tf req (make_entry tf now w ttl)
          then not_modified_response tf (make_entry tf now w ttl)
          else record {
            status_code = w.status_code;
            header = w.header;
            body = w.body;
            content_length = pos 0;
          })
  unfolding make_entry cached_response
  response_of_entry req = refl

not_expired :
    (now now' t : ℕ) (e : Entry)
    → e.ttl ≡ pos t
    → e.stored_at ≡ now
    → now ≤ now'
    → now' ≤ now + t
    → is_expired now' e ≡ false
unfolding sub_time
not_expired now now' t e ttl stored p q = rw (ttl, stored) (ground arith)

-- A response that is written with a lifetime is what a read of its key returns until the lifetime
-- is over: the stored status, header and body, or the answer 304 to a request whose conditions the
-- entry meets.
pub get-set_locked :
    (tf : TimeFormat) (now now' t : ℕ) (c : Cache) (w : WriteRequest) (req : Option Request)
    → IsValid c
    → is_empty w.body ≡ false
    → effective_ttl (extract_ttl_from_header tf now w.header) ≡ some (pos t)
    → now ≤ now'
    → now' ≤ now + t
    → (State.get tf now' (set_locked tf now c w) w.key req).1
      ≡ some (
          if is_not_modified tf req (make_entry tf now w (pos t))
          then not_modified_response tf (make_entry tf now w (pos t))
          else record {
            status_code = w.status_code;
            header = w.header;
            body = w.body;
            content_length = pos 0;
          })
unfolding set_locked
get-set_locked tf now now' t c w req v full timed p q =
    let e = make_entry tf now w (pos t) in
    let (x, found, same) = store_found c e v in
    let fresh =
      not_expired now now' t x.value (entry_ttl tf now w (pos t) x same)
        (entry_time tf now w (pos t) x same) p q in
    rw (full, timed)
      (ap (λ (r : Cache × Option Response). r.1)
          (get-hit tf now' (store c e) w.key req x
            ((store-IsValid c e v).agrees w.key
              ∙ entry_found tf now w (pos t) x (store c e).lru found)
            fresh)
        ∙ ap (λ d. some (cached_response tf req d)) same
        ∙ ap some (response_of_entry tf now w (pos t) x req))
