-- ===== src/Cache/Reach.antt =====
-- internal/cache/cache.go: every state that a cache can reach. Reads, asynchronous writes, rounds
-- of the write loop and changes of the capacity may follow one another in any order.
use cifera.Base.{
  ℕ, zero, suc, ◌≤◌, ◌≡◌, refl, ap, ◌⊎◌, inl, inr, Option, List, [], ◌∷◌, length, length-append, ℤ,
  pos, negsuc, Text, arith, List-cases, lookup,
}
use cifera.Http.{Request, TimeFormat}
use cifera.Cache.Policy.{Entry}
use cifera.Cache.State
use cifera.Cache.State.{
  Element, WriteRequest, Cache, new, remove_element, remove_key, evict, push_front, store,
  set_locked, resize, set_async, write_loop_step, write_ch_capacity, make_entry,
}
use cifera.Cache.Lru.{total, find_key, find_key_sound, length-list_remove}
use cifera.Cache.Valid.{
  IsValid, store-IsValid, set_locked-cases, get-IsValid, set_async-IsValid, resize-IsValid,
  received-IsValid,
}
use cifera.Cache.Eviction.{
  IsLongestFit, resize-IsLongestFit, store-IsLongestFit, evict-settings, store-settings,
}
use cifera.Cache.Reads.{absent, expired, hit, get-Outcome}

pub data Step (tf : TimeFormat) : Cache → Cache → Type 0 where
  get :
      (c : Cache) (now : ℕ) (key : Text) (req : Option Request)
      → Step tf c (State.get tf now c key req).0
  enqueue : (c : Cache) (w : WriteRequest) → Step tf c (set_async c w)
  write : (c : Cache) (now : ℕ) → Step tf c (write_loop_step tf now c)
  change : (c : Cache) (n : ℤ) → Step tf c (resize c n)

pub data Reach (tf : TimeFormat) (c : Cache) : Cache → Type 0 where
  here : Reach tf c c
  next : {d e : Cache} → Reach tf c d → Step tf d e → Reach tf c e

-- The list, the map and the size agree; the size is within the capacity, unless the cache holds a
-- single entry; the channel holds no more than its capacity.
pub record IsSafe (c : Cache) : Type 0 where
  pub valid : IsValid c
  pub bounded : (c.cur_size ≤ c.max_size) ⊎ (length c.lru ≤ 1)
  pub queued : length c.write_ch ≤ write_ch_capacity

new-IsSafe : (n : ℤ) → IsSafe (new n)
unfolding new total lookup find_key
new-IsSafe n = record {
  valid = record { agrees = λ k. refl; unique = tt; allocated = tt; sized = refl };
  bounded = inl (omega arith);
  queued = omega arith;
}

get-IsSafe :
    (tf : TimeFormat) (now : ℕ) (c : Cache) (key : Text) (req : Option Request)
    → IsSafe c
    → IsSafe (State.get tf now c key req).0
unfolding remove_element
get-IsSafe tf now c key req s = record {
  valid = get-IsValid tf now c key req s.valid;
  bounded = elim (get-Outcome tf now c key req s.valid) [
    | absent _ e ↦ rw e s.bounded
    | expired x found _ e ↦
        let m = (find_key_sound key x c.lru found).0 in
        rw e (grind (arith, s.bounded, length-list_remove x c.lru m s.valid.unique))
    | hit x found _ e ↦
        let m = (find_key_sound key x c.lru found).0 in
        rw e (grind (arith, s.bounded, length-list_remove x c.lru m s.valid.unique))
  ];
  queued = elim (get-Outcome tf now c key req s.valid) [
    | absent _ e ↦ rw e s.queued
    | expired x found _ e ↦ rw e s.queued
    | hit x found _ e ↦ rw e s.queued
  ];
}

set_async-bounded :
    (c : Cache) (w : WriteRequest)
    → ((set_async c w).lru ≡ c.lru)
      × ((set_async c w).cur_size ≡ c.cur_size)
      × ((set_async c w).max_size ≡ c.max_size)
unfolding set_async
set_async-bounded c w = ground arith

set_async-queued :
    (c : Cache) (w : WriteRequest)
    → length c.write_ch ≤ write_ch_capacity
    → length (set_async c w).write_ch ≤ write_ch_capacity
unfolding set_async
set_async-queued c w h = ground (arith, length-append c.write_ch (w ∷ []))

set_async-IsSafe : (c : Cache) (w : WriteRequest) → IsSafe c → IsSafe (set_async c w)
set_async-IsSafe c w s = record {
  valid = set_async-IsValid c w s.valid;
  bounded = let (lru, size, most) = set_async-bounded c w in rw (lru, size, most) s.bounded;
  queued = set_async-queued c w s.queued;
}

store-IsSafe : (c : Cache) (e : Entry) → IsSafe c → IsSafe (store c e)
unfolding total
store-IsSafe c e s = record {
  valid = v;
  bounded = elim fit.fits [
    | inl h ↦ inl (omega (arith, v.sized, ap total lru, ap (λ (d : Entry). d.size) same, most, h))
    | inr none_kept ↦
        inr (omega (arith, ap (length {A = Element}) lru, ap (length {A = Element}) none_kept))
  ];
  queued = rw (ap (λ (p : ℕ × List WriteRequest). p.1) (store-settings c e)) s.queued;
}
  where
    v : IsValid (store c e)
    v = store-IsValid c e s.valid

    x : Element
    x = (store-IsLongestFit c e s.valid).0

    kept : List Element
    kept = (store-IsLongestFit c e s.valid).1

    same : x.value ≡ e
    same = (store-IsLongestFit c e s.valid).2

    lru : (store c e).lru ≡ x ∷ kept
    lru = (store-IsLongestFit c e s.valid).3

    fit : IsLongestFit e.size c.max_size (remove_key c e.key).lru kept
    fit = (store-IsLongestFit c e s.valid).4

    most : (store c e).max_size ≡ c.max_size
    most = ap (λ (p : ℕ × List WriteRequest). p.0) (store-settings c e)

set_locked-IsSafe :
    (tf : TimeFormat) (now : ℕ) (c : Cache) (w : WriteRequest)
    → IsSafe c
    → IsSafe (set_locked tf now c w)
set_locked-IsSafe tf now c w s = elim (set_locked-cases tf now c w) [
  | inl same ↦ rw same s
  | inr (ttl, _, stored) ↦ rw stored (store-IsSafe c (make_entry tf now w ttl) s)
]

write_loop_step-IsSafe :
    (tf : TimeFormat) (now : ℕ) (c : Cache) → IsSafe c → IsSafe (write_loop_step tf now c)
unfolding write_loop_step
write_loop_step-IsSafe tf now c s = elim (List-cases c.write_ch) [
  | inl idle ↦ rw (idle, write_loop_step) s
  | inr (w, ws, busy) ↦
      rw (busy, write_loop_step)
        (set_locked-IsSafe tf now _ w (record {
          valid = received-IsValid ws c s.valid;
          bounded = s.bounded;
          queued = omega (arith, ap (length {A = WriteRequest}) busy, s.queued);
        }))
]

resize-IsSafe : (c : Cache) (n : ℤ) → IsSafe c → IsSafe (resize c n)
unfolding resize
resize-IsSafe c (pos zero) s = s
resize-IsSafe c (negsuc n) s = s
resize-IsSafe c (pos (suc n)) s =
    let c' : Cache = record c { max_size = suc n } in
    let kept = evict-settings 0 (suc n) c' in
    record {
      valid = resize-IsValid c (pos (suc n)) s.valid;
      bounded =
          inl
            (rw (ap (λ (p : ℕ × List WriteRequest). p.0) kept) (resize-IsLongestFit n c s.valid).1);
      queued = rw (ap (λ (p : ℕ × List WriteRequest). p.1) kept) s.queued;
    }

-- Every state that a new cache of any configured capacity reaches, by reads, asynchronous writes,
-- rounds of the write loop and changes of the capacity in any order, is safe.
pub Reach-IsSafe : (tf : TimeFormat) (n : ℤ) {c : Cache} → Reach tf (new n) c → IsSafe c
Reach-IsSafe tf n here = new-IsSafe n
Reach-IsSafe tf n (next r (get c now key req)) = get-IsSafe tf now c key req (Reach-IsSafe tf n r)
Reach-IsSafe tf n (next r (enqueue c w)) = set_async-IsSafe c w (Reach-IsSafe tf n r)
Reach-IsSafe tf n (next r (write c now)) = write_loop_step-IsSafe tf now c (Reach-IsSafe tf n r)
Reach-IsSafe tf n (next r (change c m)) = resize-IsSafe c m (Reach-IsSafe tf n r)
