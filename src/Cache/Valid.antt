-- ===== src/Cache/Valid.antt =====
-- internal/cache/cache.go: the list, the map and the size of the cache agree, whatever is done.
use cifera.Base.{
  ℕ, zero, suc, ◌+◌, ◌<◌, ◌≡◌, refl, ◌≢◌, ◌∙◌, ap, sym, ite, ◌⊎◌, inl, inr, Option, none, some,
  List, ◌∷◌, All, All-map, length, ltb, ℤ, pos, negsuc, Text, text_dec, is_empty, lookup,
  lookup-insert, lookup-delete, arith, Bool-cases, Option-cases, List-cases,
}
use cifera.Http.{Request, TimeFormat}
use cifera.Cache.Policy.{Entry, extract_ttl_from_header}
use cifera.Cache.State
use cifera.Cache.State.{
  Element, WriteRequest, Cache, is_expired, list_remove, back, make_entry, effective_ttl,
  write_ch_capacity, remove_element, evict_loop, evict, push_front, remove_key, store, set_locked,
  resize, set_async, write_loop_step,
}
use cifera.Cache.Lru.{
  IsIn, All-IsIn, IsUnique, find_key, total, find_key_sound, find_key-NoKey, NoKey-find_key,
  back-IsIn, All-list_remove, list_remove-IsUnique, find_key-list_remove, total-list_remove,
  list_remove-NoKey, list_remove-NoId,
}

-- The map finds exactly the elements of the list; no key and no allocation stands twice; the size
-- is the sum of the sizes of the entries.
pub record IsValid (c : Cache) : Type 0 where
  pub agrees : (k : Text) → lookup text_dec k c.items ≡ find_key k c.lru
  pub unique : IsUnique c.lru
  pub allocated : All (λ x. x.id < c.next_id) c.lru
  pub sized : c.cur_size ≡ total c.lru

pub remove_element-IsValid :
    (c : Cache) (x : Element) → IsValid c → IsIn x c.lru → IsValid (remove_element c x)
unfolding remove_element
remove_element-IsValid c x v m = record {
  agrees = λ k.
      lookup-delete text_dec x.value.key k c.items
      ∙ ap (ite (text_dec x.value.key k) none) (v.agrees k)
      ∙ sym (find_key-list_remove x k c.lru m v.unique);
  unique = list_remove-IsUnique x.id c.lru v.unique;
  allocated = All-list_remove (λ y. y.id < c.next_id) x.id c.lru v.allocated;
  sized = omega (arith, total-list_remove x c.lru m v.unique, v.sized);
}

NoId-below : (n : ℕ) (l : List Element) → All (λ x. x.id < n) l → All (λ x. x.id ≢ n) l
NoId-below n l h = All-map (λ x. x.id < n) (λ x. x.id ≢ n) l (λ x p. omega arith) h

below_suc : (n : ℕ) (l : List Element) → All (λ x. x.id < n) l → All (λ x. x.id < n + 1) l
below_suc n l h = All-map (λ x. x.id < n) (λ x. x.id < n + 1) l (λ x p. omega arith) h

pub push_front-IsValid :
    (c : Cache) (e : Entry) → IsValid c → find_key e.key c.lru ≡ none → IsValid (push_front c e)
unfolding push_front find_key total
push_front-IsValid c e v h = record {
  agrees = λ k.
      lookup-insert text_dec e.key k (record { id = c.next_id; value = e }) c.items
      ∙ ap (ite (text_dec e.key k) (some (record { id = c.next_id; value = e }))) (v.agrees k);
  unique = (find_key-NoKey e.key c.lru h, NoId-below c.next_id c.lru v.allocated, v.unique);
  allocated = (omega arith, below_suc c.next_id c.lru v.allocated);
  sized = omega (arith, v.sized);
}

pub remove_key-IsValid : (c : Cache) (k : Text) → IsValid c → IsValid (remove_key c k)
unfolding remove_key
remove_key-IsValid c k v = elim (Option-cases (lookup text_dec k c.items)) [
  | inl absent ↦ rw (absent, remove_key) v
  | inr (x, found) ↦
      rw (found, remove_key)
        (remove_element-IsValid c x v (find_key_sound k x c.lru (sym (v.agrees k) ∙ found)).0)
]

evict_loop-IsValid :
    (fuel extra limit : ℕ) (c : Cache) → IsValid c → IsValid (evict_loop fuel extra limit c)
unfolding evict_loop
evict_loop-IsValid zero extra limit c v = v
evict_loop-IsValid (suc fuel) extra limit c v = elim (Bool-cases (ltb limit (c.cur_size + extra))) [
  | inl over ↦ elim (Option-cases (back c.lru)) [
    | inl empty ↦ rw (over, empty) v
    | inr (x, last) ↦
        rw (over, last)
          (evict_loop-IsValid fuel extra limit (remove_element c x)
            (remove_element-IsValid c x v (back-IsIn x c.lru last)))
  ]
  | inr fits ↦ rw fits v
]

pub evict-IsValid : (extra limit : ℕ) (c : Cache) → IsValid c → IsValid (evict extra limit c)
unfolding evict
evict-IsValid extra limit c v = evict_loop-IsValid (length c.lru) extra limit c v

remove_key_absent : (c : Cache) (k : Text) → IsValid c → find_key k (remove_key c k).lru ≡ none
unfolding remove_key remove_element
remove_key_absent c k v = elim (Option-cases (lookup text_dec k c.items)) [
  | inl absent ↦ rw (absent, remove_key) (sym (v.agrees k) ∙ absent)
  | inr (x, found) ↦
      let (m, e) = find_key_sound k x c.lru (sym (v.agrees k) ∙ found) in
      rw (found, remove_key) (ground (arith, find_key-list_remove x k c.lru m v.unique))
]

-- What the validity is about is untouched by counters, the channel and the capacity.
IsValid-same :
    (c d : Cache)
    → IsValid c
    → d.items ≡ c.items
    → d.lru ≡ c.lru
    → d.cur_size ≡ c.cur_size
    → d.next_id ≡ c.next_id
    → IsValid d
IsValid-same c d v items lru size next = record {
  agrees = rw (items, lru) v.agrees;
  unique = rw lru v.unique;
  allocated = rw (lru, next) v.allocated;
  sized = rw (size, lru) v.sized;
}

-- The loop removes elements and adds none.
evict_loop-All :
    (P : Element → Type 0) (fuel extra limit : ℕ) (c : Cache)
    → All P c.lru
    → All P (evict_loop fuel extra limit c).lru
unfolding evict_loop remove_element
evict_loop-All P zero extra limit c h = h
evict_loop-All P (suc fuel) extra limit c h = elim (Bool-cases (ltb limit (c.cur_size + extra))) [
  | inl over ↦ elim (Option-cases (back c.lru)) [
    | inl empty ↦ rw (over, empty) h
    | inr (x, last) ↦
        rw (over, last)
          (evict_loop-All P fuel extra limit (remove_element c x) (All-list_remove P x.id c.lru h))
  ]
  | inr fits ↦ rw fits h
]

pub store-IsValid : (c : Cache) (e : Entry) → IsValid c → IsValid (store c e)
unfolding store evict
store-IsValid c e v =
    let c1 = remove_key c e.key in
    let v1 = remove_key-IsValid c e.key v in
    push_front-IsValid (evict e.size c1.max_size c1) e (evict-IsValid e.size c1.max_size c1 v1) (
      NoKey-find_key e.key _ (
        evict_loop-All (λ x. x.value.key ≢ e.key) (length c1.lru) e.size c1.max_size c1
          (find_key-NoKey e.key c1.lru (remove_key_absent c e.key v))))

-- A write changes nothing, or stores one entry.
pub set_locked-cases :
    (tf : TimeFormat) (now : ℕ) (c : Cache) (w : WriteRequest)
    → (set_locked tf now c w ≡ c)
      ⊎ ((ttl : ℤ) × (effective_ttl (extract_ttl_from_header tf now w.header) ≡ some ttl)
          × (set_locked tf now c w ≡ store c (make_entry tf now w ttl)))
unfolding set_locked
set_locked-cases tf now c w = elim (Bool-cases (is_empty w.body)) [
  | inl empty ↦ inl (rw empty)
  | inr full ↦ elim (Option-cases (effective_ttl (extract_ttl_from_header tf now w.header))) [
    | inl refused ↦ inl (rw (full, refused))
    | inr (ttl, timed) ↦ inr (ttl, timed, rw (full, timed))
  ]
]

pub set_locked-IsValid :
    (tf : TimeFormat) (now : ℕ) (c : Cache) (w : WriteRequest)
    → IsValid c
    → IsValid (set_locked tf now c w)
set_locked-IsValid tf now c w v = elim (set_locked-cases tf now c w) [
  | inl same ↦ rw same v
  | inr (ttl, _, stored) ↦ rw stored (store-IsValid c (make_entry tf now w ttl) v)
]

-- Moving an element to the front.
move_to_front-IsValid :
    (c : Cache) (x : Element) (hits : ℕ)
    → IsValid c
    → find_key x.value.key c.lru ≡ some x
    → IsIn x c.lru
    → IsValid (record c { lru = x ∷ list_remove x.id c.lru; hits = hits })
unfolding find_key total
move_to_front-IsValid c x hits v found m = record {
  agrees = λ k. v.agrees k ∙ ground (arith, find_key-list_remove x k c.lru m v.unique, found);
  unique = (
    list_remove-NoKey x c.lru m v.unique,
    list_remove-NoId x c.lru m v.unique,
    list_remove-IsUnique x.id c.lru v.unique,
  );
  allocated = (
    All-IsIn (λ y. y.id < c.next_id) x c.lru m v.allocated,
    All-list_remove (λ y. y.id < c.next_id) x.id c.lru v.allocated,
  );
  sized = omega (arith, total-list_remove x c.lru m v.unique, v.sized);
}

pub get-IsValid :
    (tf : TimeFormat) (now : ℕ) (c : Cache) (key : Text) (req : Option Request)
    → IsValid c
    → IsValid (State.get tf now c key req).0
unfolding State.get
get-IsValid tf now c key req v = elim (Option-cases (lookup text_dec key c.items)) [
  | inl absent ↦ rw (absent, State.get) (IsValid-same c _ v refl refl refl refl)
  | inr (x, found) ↦
      let here = sym (v.agrees key) ∙ found in
      let (m, e) = find_key_sound key x c.lru here in
      elim (Bool-cases (is_expired now x.value)) [
        | inl old ↦
            rw (found, old, State.get)
              (IsValid-same (remove_element c x) _ (remove_element-IsValid c x v m) refl refl refl
                refl)
        | inr fresh ↦
            rw (found, fresh, State.get)
              (move_to_front-IsValid c x (c.hits + 1) v (rw (← e) at here) m)
      ]
]

pub set_async-IsValid : (c : Cache) (w : WriteRequest) → IsValid c → IsValid (set_async c w)
unfolding set_async
set_async-IsValid c w v = elim (Bool-cases (is_empty w.body)) [
  | inl empty ↦ rw empty v
  | inr full ↦ elim (Bool-cases (ltb (length c.write_ch) write_ch_capacity)) [
    | inl room ↦ rw (full, room) (IsValid-same c _ v refl refl refl refl)
    | inr none_left ↦ rw (full, none_left) v
  ]
]

pub write_loop_step-IsValid :
    (tf : TimeFormat) (now : ℕ) (c : Cache) → IsValid c → IsValid (write_loop_step tf now c)
unfolding write_loop_step
write_loop_step-IsValid tf now c v = elim (List-cases c.write_ch) [
  | inl idle ↦ rw (idle, write_loop_step) v
  | inr (w, ws, busy) ↦
      rw (busy, write_loop_step)
        (set_locked-IsValid tf now _ w (IsValid-same c _ v refl refl refl refl))
]

pub resized-IsValid : (n : ℕ) (c : Cache) → IsValid c → IsValid (record c { max_size = n })
resized-IsValid n c v = IsValid-same c _ v refl refl refl refl

pub resize-IsValid : (c : Cache) (n : ℤ) → IsValid c → IsValid (resize c n)
unfolding resize
resize-IsValid c (pos zero) v = v
resize-IsValid c (pos (suc n)) v = evict-IsValid 0 (suc n) _ (resized-IsValid (suc n) c v)
resize-IsValid c (negsuc n) v = v

pub received-IsValid :
    (ws : List WriteRequest) (c : Cache) → IsValid c → IsValid (record c { write_ch = ws })
received-IsValid ws c v = IsValid-same c _ v refl refl refl refl
