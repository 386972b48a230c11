-- ===== src/Addon/Schedule.antt =====
-- internal/addon/matcher.go: in whatever order the goroutines run, the concurrent matching gives what
-- the loop gives.
use cifera.Base.{
  ltb, if◌then◌else◌, Bool-cases, eq_of_some, length, All, IsIn, Text, ℕ, zero, suc, ◌≤◌, ◌<◌, ◌≡◌,
  refl, sym, ap, ap₂, subst, ◌∙◌, ◌≢◌, inl, inr, ite, if_pos, if_neg, Bool, true, false, Option,
  none, some, List, [], ◌∷◌, ◌++◌, map, arith, dec_lt, ℕ_discrete,
}
use cifera.Addon.Rules.{Template, LoadedAddon}
use cifera.Addon.Matcher.{
  Resolver, Slot, inject_addon, match_inject_sequential, run_slot, run_slots, start_slots,
  merge_slots, match_inject_concurrent, match_inject_for,
}
use cifera.Vhost.Host.{Regexps}

nth : {A : Type 0} → ℕ → List A → Option A
nth n [] = none
nth zero (x ∷ l) = some x
nth (suc n) (x ∷ l) = nth n l

abbrev on_some : {A B : Type 0} → (A → B) → Option A → Option B
on_some f none = none
on_some f (some x) = some (f x)

-- Lists with the same elements at all places are the same.
same_places : {A : Type 0} (l m : List A) → ((n : ℕ) → nth n l ≡ nth n m) → l ≡ m
unfolding nth
same_places [] [] h = refl
same_places [] (y ∷ m) h = absurd (cc (h 0))
same_places (x ∷ l) [] h = absurd (cc (h 0))
same_places (x ∷ l) (y ∷ m) h = ap₂ ◌∷◌ (eq_of_some (h 0)) (same_places l m (λ n. h (suc n)))

-- No goroutine runs twice.
abbrev pub IsOnce : List ℕ → Type 0
IsOnce [] = Unit
IsOnce (n ∷ order) = All (λ m. m ≢ n) order × IsOnce order

runs : ℕ → List ℕ → Bool
runs n [] = false
runs n (m ∷ order) = ite (ℕ_discrete m n) true (runs n order)

runs-not : (n : ℕ) (order : List ℕ) → All (λ m. m ≢ n) order → runs n order ≡ false
unfolding runs
runs-not n [] h = refl
runs-not n (m ∷ order) (ne, h) = ground (arith, runs-not n order h)

runs-IsIn : (n : ℕ) (order : List ℕ) → IsIn n order → runs n order ≡ true
unfolding runs
runs-IsIn n [] h = absurd h
runs-IsIn n (m ∷ order) (inl e) = if_pos (ℕ_discrete m n) e true (runs n order)
runs-IsIn n (m ∷ order) (inr h) = ground (arith, runs-IsIn n order h)

module _ (regexps : Regexps) (template : Template) (resolver : Resolver) (url : Text) where
  filled : Slot regexps.Regex → Slot regexps.Regex
  filled (a, old) = inject_addon regexps template resolver url a

  nth-run_slot :
      (n m : ℕ) (slots : List (Slot regexps.Regex))
      → nth n (run_slot regexps template resolver url m slots)
        ≡ ite (ℕ_discrete m n) (on_some filled (nth n slots)) (nth n slots)
  unfolding nth run_slot filled ℕ_discrete
  nth-run_slot n m [] = ground arith
  nth-run_slot zero zero ((a, old) ∷ slots) = refl
  nth-run_slot (suc n) zero ((a, old) ∷ slots) = ground arith
  nth-run_slot zero (suc m) (slot ∷ slots) = ground arith
  nth-run_slot (suc n) (suc m) (slot ∷ slots) = ground (arith, nth-run_slot n m slots)

  nth-run_slots :
      (n : ℕ) (order : List ℕ) (slots : List (Slot regexps.Regex))
      → IsOnce order
      → nth n (run_slots regexps template resolver url order slots)
        ≡ (if runs n order then on_some filled (nth n slots) else nth n slots)
  unfolding run_slots runs
  nth-run_slots n [] slots once = refl
  nth-run_slots n (m ∷ order) slots (fresh, once) = elim (ℕ_discrete m n) [
    | yes e ↦
        let once_more = nth n (run_slot regexps template resolver url m slots) in
        let none_left = subst (λ x. runs x order ≡ false) e (runs-not m order fresh) in
        nth-run_slots n order (run_slot regexps template resolver url m slots) once
        ∙ ap (λ b. if b then on_some filled once_more else once_more) none_left
        ∙ nth-run_slot n m slots
        ∙ if_pos (ℕ_discrete m n) e (on_some filled (nth n slots)) (nth n slots)
        ∙ ap (λ b. if b then on_some filled (nth n slots) else nth n slots)
            (sym (if_pos (ℕ_discrete m n) e true (runs n order)))
    | no ne ↦
        nth-run_slots n order (run_slot regexps template resolver url m slots) once
        ∙ ap (λ x. if runs n order then on_some filled x else x)
            (nth-run_slot n m slots ∙ if_neg (ℕ_discrete m n) ne _ _)
        ∙ ap (λ b. if b then on_some filled (nth n slots) else nth n slots)
            (sym (if_neg (ℕ_discrete m n) ne true (runs n order)))
  ]

  all_filled : List (LoadedAddon regexps.Regex) → List (Slot regexps.Regex)
  all_filled addons = map filled (start_slots regexps template addons)

  nth-map :
      (n : ℕ) (slots : List (Slot regexps.Regex))
      → nth n (map filled slots) ≡ on_some filled (nth n slots)
  unfolding nth
  nth-map n [] = refl
  nth-map zero (slot ∷ slots) = refl
  nth-map (suc n) (slot ∷ slots) = nth-map n slots

  nth_beyond :
      (n : ℕ) (addons : List (LoadedAddon regexps.Regex))
      → length addons ≤ n
      → nth n (start_slots regexps template addons) ≡ none
  unfolding nth
  nth_beyond n [] h = refl
  nth_beyond zero (a ∷ addons) h = absurd (omega (arith, h))
  nth_beyond (suc n) (a ∷ addons) h = nth_beyond n addons (omega (arith, h))

  run_slots-filled :
      (order : List ℕ) (addons : List (LoadedAddon regexps.Regex))
      → IsOnce order
      → ((n : ℕ) → n < length addons → IsIn n order)
      → run_slots regexps template resolver url order (start_slots regexps template addons)
        ≡ all_filled addons
  unfolding all_filled
  run_slots-filled order addons once complete =
      let slots = start_slots regexps template addons in
      same_places (run_slots regexps template resolver url order slots) (map filled slots) (λ n.
        nth-run_slots n order slots once ∙ elim (dec_lt n (length addons)) [
          | yes lt ↦ rw (runs-IsIn n order (complete n lt)) (sym (nth-map n slots))
          | no ge ↦
              let beyond = nth_beyond n addons (omega (arith, ge)) in
              rw beyond (ground arith ∙ sym (nth-map n slots ∙ ap (on_some filled) beyond))
        ])

  merge-filled :
      (addons : List (LoadedAddon regexps.Regex))
      → merge_slots regexps template (all_filled addons)
        ≡ match_inject_sequential regexps template resolver url addons
  unfolding all_filled match_inject_sequential filled
  merge-filled [] = refl
  merge-filled (a ∷ addons) =
      let (a', items) = inject_addon regexps template resolver url a in
      ap (λ x. (a' ∷ x.0, items ++ x.1)) (merge-filled addons)

  -- When every goroutine runs once, in whatever order, MatchInjectFor gives the items and leaves the
  -- addons that the loop over the addons does.
  pub match_inject_for-sequential :
      (order : List ℕ) (addons : List (LoadedAddon regexps.Regex))
      → IsOnce order
      → ((n : ℕ) → n < length addons → IsIn n order)
      → match_inject_for regexps template resolver url order addons
        ≡ match_inject_sequential regexps template resolver url addons
  unfolding match_inject_for match_inject_concurrent
  match_inject_for-sequential order addons once complete =
      elim (Bool-cases (ltb (length addons) 3)) [
        | inl few ↦ rw few
        | inr many ↦ rw many (
            ap (merge_slots regexps template) (run_slots-filled order addons once complete)
            ∙ merge-filled addons)
      ]
