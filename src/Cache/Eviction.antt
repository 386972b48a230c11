-- ===== src/Cache/Eviction.antt =====
-- internal/cache/cache.go: the eviction loops of setLocked and Resize.
use cifera.Base.{
  ℕ, zero, suc, ◌+◌, ◌<◌, ◌≤◌, ◌≡◌, refl, ◌∙◌, ap, sym, subst, ◌⊎◌, inl, inr, List, [], ◌∷◌, length,
  take, true, false, ltb, pos, arith, Bool-cases, Option-cases, Text, text_dec, lookup,
}
use cifera.Cache.Policy.{Entry}
use cifera.Cache.State.{
  Element, WriteRequest, Cache, list_remove, back, remove_element, evict_loop, evict, resize,
  push_front, remove_key, store,
}
use cifera.Cache.Lru.{total, back-IsIn, back-eq-none, length-list_remove, list_remove-back}
use cifera.Cache.Valid.{
  IsValid, remove_element-IsValid, remove_key-IsValid, evict-IsValid, resized-IsValid,
}

le_cases : (m n : ℕ) → m ≤ suc n → (m ≤ n) ⊎ (m ≡ suc n)
le_cases m n h = grind arith

empty_of_length {ℓ} : {A : Type ℓ} (l : List A) → length l ≤ 0 → l ≡ []
empty_of_length [] h = refl
empty_of_length (x ∷ l) h = absurd (omega arith)

abbrev value : Element → Entry
value x = x.value

over_total :
    (c : Cache) (limit extra : ℕ)
    → IsValid c
    → ltb limit (c.cur_size + extra) ≡ true
    → limit < total c.lru + extra
over_total c limit extra v h = ground (arith, v.sized)

fits_total :
    (c : Cache) (limit extra : ℕ)
    → IsValid c
    → ltb limit (c.cur_size + extra) ≡ false
    → total c.lru + extra ≤ limit
fits_total c limit extra v h = ground (arith, v.sized)

fits_size :
    (limit : ℕ) (c : Cache)
    → IsValid c
    → (total c.lru + 0 ≤ limit) ⊎ (c.lru ≡ [])
    → c.cur_size ≤ limit
unfolding total
fits_size limit c v (inl h) = omega (arith, v.sized)
fits_size limit c v (inr e) = omega (arith, v.sized, ap total e)

-- What the loop leaves is the longest prefix of the list that fits beside `extra`.
pub record IsLongestFit (extra limit : ℕ) (l kept : List Element) : Type 0 where
  pub count : ℕ
  pub bounded : count ≤ length l
  pub prefix : kept ≡ take count l
  pub fits : (total kept + extra ≤ limit) ⊎ (kept ≡ [])
  pub longest : (m : ℕ) → count < m → m ≤ length l → limit < total (take m l) + extra

take-length {ℓ} : {A : Type ℓ} (l : List A) → take (length l) l ≡ l
take-length [] = refl
take-length (x ∷ l) = ap (◌∷◌ x) (take-length l)

take-take {ℓ} : {A : Type ℓ} (n m : ℕ) (l : List A) → n ≤ m → take n (take m l) ≡ take n l
take-take zero m l h = refl
take-take (suc n) zero l h = absurd (omega arith)
take-take (suc n) (suc m) [] h = refl
take-take (suc n) (suc m) (x ∷ l) h = ap (◌∷◌ x) (take-take n m l (omega arith))

length-take_le {ℓ} : {A : Type ℓ} (n : ℕ) (l : List A) → n ≤ length l → length (take n l) ≡ n
length-take_le zero l h = refl
length-take_le (suc n) [] h = absurd (omega arith)
length-take_le (suc n) (x ∷ l) h = omega (arith, length-take_le n l)

-- Nothing had to go.
IsLongestFit-all :
    (extra limit : ℕ) (l : List Element)
    → (total l + extra ≤ limit) ⊎ (l ≡ [])
    → IsLongestFit extra limit l l
IsLongestFit-all extra limit l h = record {
  count = length l;
  bounded = omega arith;
  prefix = sym (take-length l);
  fits = h;
  longest = λ m p q. absurd (omega arith);
}

-- One more element had to go.
IsLongestFit-step :
    (extra limit n : ℕ) (l kept : List Element)
    → length l ≡ suc n
    → limit < total l + extra
    → IsLongestFit extra limit (take n l) kept
    → IsLongestFit extra limit l kept
IsLongestFit-step extra limit n l kept e over r =
    let short : length (take n l) ≡ n = length-take_le n l (omega arith) in
    record {
      count = r.count;
      bounded = omega (arith, r.bounded);
      prefix = r.prefix ∙ take-take r.count n l (omega (arith, r.bounded));
      fits = r.fits;
      longest = λ m p q. longer m p (le_cases m n (omega arith));
    }
  where
    longer : (m : ℕ) → r.count < m → (m ≤ n) ⊎ (m ≡ suc n) → limit < total (take m l) + extra
    longer m p (inl h) =
        subst (λ t. limit < total t + extra) (take-take m n l h)
          (r.longest m p (omega (arith, length-take_le n l (omega arith))))
    longer m p (inr h) =
        subst (λ t. limit < total t + extra) (sym (ap (λ k. take k l) (h ∙ sym e) ∙ take-length l))
          over

evict_loop-IsLongestFit :
    (fuel extra limit : ℕ) (c : Cache)
    → IsValid c
    → length c.lru ≤ fuel
    → IsLongestFit extra limit c.lru (evict_loop fuel extra limit c).lru
unfolding evict_loop remove_element
evict_loop-IsLongestFit zero extra limit c v h =
    IsLongestFit-all extra limit c.lru (inr (empty_of_length c.lru h))
evict_loop-IsLongestFit (suc fuel) extra limit c v h =
    elim (Bool-cases (ltb limit (c.cur_size + extra))) [
      | inl over ↦ elim (Option-cases (back c.lru)) [
        | inl empty ↦
            rw (over, empty) (IsLongestFit-all extra limit c.lru (inr (back-eq-none c.lru empty)))
        | inr (x, last) ↦
            let m = back-IsIn x c.lru last in
            let shorter = length-list_remove x c.lru m v.unique in
            let n = length (list_remove x.id c.lru) in
            rw (over, last)
              (IsLongestFit-step extra limit n c.lru _ (sym shorter)
                (over_total c limit extra v over)
                (subst
                  (λ l.
                    IsLongestFit extra limit l
                      (evict_loop fuel extra limit (remove_element c x)).lru)
                  (list_remove-back x n c.lru last v.unique (sym shorter))
                  (evict_loop-IsLongestFit fuel extra limit (remove_element c x)
                    (remove_element-IsValid c x v m) (omega arith))))
      ]
      | inr fits ↦
          rw fits (IsLongestFit-all extra limit c.lru (inl (fits_total c limit extra v fits)))
    ]

-- What eviction keeps: the most recently used elements, as many as fit, in their order.
pub evict-IsLongestFit :
    (extra limit : ℕ) (c : Cache)
    → IsValid c
    → IsLongestFit extra limit c.lru (evict extra limit c).lru
unfolding evict
evict-IsLongestFit extra limit c v =
    evict_loop-IsLongestFit (length c.lru) extra limit c v (omega arith)

-- Resizing to a positive capacity keeps the most recently used elements whose sizes fit it, as
-- many as possible and in their order, and the new size is at most the capacity.
pub resize-IsLongestFit :
    (n : ℕ) (c : Cache)
    → IsValid c
    → IsLongestFit 0 (suc n) c.lru (resize c (pos (suc n))).lru
      × ((resize c (pos (suc n))).cur_size ≤ suc n)
unfolding resize total
resize-IsLongestFit n c v =
    let c' : Cache = record c { max_size = suc n } in
    let v' : IsValid c' = resized-IsValid (suc n) c v in
    let r = evict-IsLongestFit 0 (suc n) c' v' in
    let u = evict-IsValid 0 (suc n) c' v' in (r, fits_size (suc n) (evict 0 (suc n) c') u r.fits)

-- The loop changes nothing that removing an element leaves alone.
evict_loop-frame :
    {A : Type 0} (f : Cache → A)
    → ((c : Cache) (x : Element) → f (remove_element c x) ≡ f c)
    → (fuel extra limit : ℕ) (c : Cache) → f (evict_loop fuel extra limit c) ≡ f c
unfolding evict_loop
evict_loop-frame f h zero extra limit c = refl
evict_loop-frame f h (suc fuel) extra limit c = elim (Bool-cases (ltb limit (c.cur_size + extra))) [
  | inl over ↦ elim (Option-cases (back c.lru)) [
    | inl empty ↦ rw (over, empty)
    | inr (x, last) ↦
        rw (over, last) (evict_loop-frame f h fuel extra limit (remove_element c x) ∙ h c x)
  ]
  | inr fits ↦ rw fits
]

module _ {A : Type 0} (f : Cache → A)
    (h : (c : Cache) (x : Element) → f (remove_element c x) ≡ f c) where
  pub evict-frame : (extra limit : ℕ) (c : Cache) → f (evict extra limit c) ≡ f c
  unfolding evict
  evict-frame extra limit c = evict_loop-frame f h (length c.lru) extra limit c

  pub remove_key-frame : (c : Cache) (k : Text) → f (remove_key c k) ≡ f c
  unfolding remove_key
  remove_key-frame c k = elim (Option-cases (lookup text_dec k c.items)) [
    | inl absent ↦ rw (absent, remove_key)
    | inr (x, found) ↦ rw (found, remove_key) (h c x)
  ]

-- removing an element leaves the capacity and the channel alone
abbrev pub settings : Cache → ℕ × List WriteRequest
settings c = (c.max_size, c.write_ch)

remove_element-settings : (c : Cache) (x : Element) → settings (remove_element c x) ≡ settings c
unfolding remove_element
remove_element-settings c x = refl

pub evict-settings : (extra limit : ℕ) (c : Cache) → settings (evict extra limit c) ≡ settings c
evict-settings = evict-frame settings remove_element-settings

pub store-settings : (c : Cache) (e : Entry) → settings (store c e) ≡ settings c
unfolding store push_front
store-settings c e =
    evict-settings e.size (remove_key c e.key).max_size (remove_key c e.key)
    ∙ remove_key-frame settings remove_element-settings c e.key

-- Storing an entry puts it in front of the longest prefix that fits beside it, of the list without
-- the entry's key.
pub store-IsLongestFit :
    (c : Cache) (e : Entry)
    → IsValid c
    → (x : Element) × (kept : List Element) × (x.value ≡ e)
      × ((store c e).lru ≡ x ∷ kept)
      × IsLongestFit e.size c.max_size (remove_key c e.key).lru kept
unfolding store push_front
store-IsLongestFit c e v =
    let c1 = remove_key c e.key in
    let r = evict-IsLongestFit e.size c1.max_size c1 (remove_key-IsValid c e.key v) in
    let same =
      ap (λ (p : ℕ × List WriteRequest). p.0)
        (remove_key-frame settings remove_element-settings c e.key) in
    (
      _,
      _,
      refl,
      refl,
      subst (λ n. IsLongestFit e.size n c1.lru (evict e.size c1.max_size c1).lru) same r,
    )
