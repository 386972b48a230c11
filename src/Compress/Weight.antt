-- ===== src/Compress/Weight.antt =====
-- internal/compress/compress.go: the quality that the parameters of a part of Accept-Encoding give.
use cifera.Base.{
  Bool-cases, Option-cases, Lacks, Occurs, contains, contains_iff, has_prefix, has_prefix_sound,
  Text, codes, trim_space, drop, append-nil, eq_of_some, false≢true, ℕ, ◌==◌, ◌≡◌, refl, sym, ap,
  subst, ◌∙◌, ◌↔◌, ◌⊎◌, inl, inr, false, none, some, [], ◌∷◌, ◌++◌, arith,
}
use cifera.LoopGuard.Address.{cut_first}
use cifera.Compress.Negotiate.{Floats, behind_q, before_semicolon, parsed_or, quality_in}

pub cut_first-none : (c : ℕ) (s : Text) → (cut_first c s ≡ none) ↔ Lacks c s
unfolding cut_first
cut_first-none c [] = (λ h. tt, λ h. refl)
cut_first-none c (x ∷ s) = elim (Bool-cases (x == c)) [
  | inl here ↦ rw (here, cut_first) (λ h. absurd (cc h), λ (e, _). absurd (cc e))
  | inr other ↦ elim (Option-cases (cut_first c s)) [
    | inl gone ↦ rw (other, gone, cut_first) (λ h. (refl, (cut_first-none c s).0 gone), λ h. refl)
    | inr (p, found) ↦
        rw (other, found, cut_first)
          (λ h. absurd (cc h), λ (e, l). absurd (cc (sym found ∙ (cut_first-none c s).1 l)))
  ]
]

pub cut_first-some :
    (c : ℕ) (s a b : Text) → (cut_first c s ≡ some (a, b)) ↔ ((s ≡ a ++ c ∷ b) × Lacks c a)
unfolding cut_first
cut_first-some c [] a b = (λ h. absurd (cc h), λ (e, l). absurd (none_at a e))
  where
    none_at : (a : Text) → [] ≡ a ++ c ∷ b → ⊥
    none_at [] e = cc e
    none_at (x ∷ a) e = cc e
cut_first-some c (x ∷ s) [] b = elim (Bool-cases (x == c)) [
  | inl here ↦ rw (here, cut_first) (ground (arith, here))
  | inr other ↦ elim (Option-cases (cut_first c s)) [
    | inl gone ↦ rw (other, gone, cut_first) (ground (arith, other))
    | inr (p, found) ↦ rw (other, found, cut_first) (ground (arith, other))
  ]
]
cut_first-some c (x ∷ s) (y ∷ a) b = elim (Bool-cases (x == c)) [
  | inl here ↦ rw (here, cut_first) (ground (arith, here))
  | inr other ↦ elim (Option-cases (cut_first c s)) [
    | inl gone ↦ rw (other, gone, cut_first) (ground (arith, other, cut_first-some c s a b, gone))
    | inr (p, found) ↦
        rw (other, found, cut_first) (ground (arith, other, cut_first-some c s a b, found))
  ]
]

abbrev mark : Text
mark = codes "q="

silent_iff : (s : Text) → (contains s mark ≡ false) ↔ (¬ Occurs mark s)
silent_iff s = (
  λ h o. false≢true (sym h ∙ (contains_iff s mark).1 o),
  λ n. elim (Bool-cases (contains s mark)) [
    | inl says ↦ absurd (n ((contains_iff s mark).0 says))
    | inr silent ↦ silent
  ],
)

behind_q-none : (s : Text) → (behind_q s ≡ none) ↔ (contains s mark ≡ false)
unfolding behind_q contains has_prefix
behind_q-none [] = (λ h. refl, λ h. refl)
behind_q-none (c ∷ s) = elim (Bool-cases (has_prefix (c ∷ s) mark)) [
  | inl here ↦ rw (here, behind_q, contains) (λ h. absurd (cc h), λ h. absurd (cc h))
  | inr later ↦ rw (later, behind_q, contains) (behind_q-none s)
]

-- A mark that does not start in front of another one does not start there without it.
not_in_front :
    (c : ℕ) (x v : Text) → has_prefix (c ∷ x ++ (mark ++ v)) mark ≡ has_prefix (c ∷ x) mark
unfolding has_prefix
not_in_front c [] v = ground arith
not_in_front c (d ∷ x) v = ground arith

behind_q_complete : (x v : Text) → contains x mark ≡ false → behind_q (x ++ (mark ++ v)) ≡ some v
unfolding behind_q contains has_prefix
behind_q_complete [] v h = refl
behind_q_complete (c ∷ x) v h =
    let front : has_prefix (c ∷ x ++ (mark ++ v)) mark ≡ false =
      not_in_front c x v ∙ ground arith in
    rw (front, behind_q) (behind_q_complete x v (ground arith))

behind_q_sound :
    (s v : Text)
    → behind_q s ≡ some v
    → (x : Text) × (s ≡ x ++ (mark ++ v)) × (contains x mark ≡ false)
unfolding behind_q contains has_prefix
behind_q_sound [] v h = absurd (cc h)
behind_q_sound (c ∷ s) v h = elim (Bool-cases (has_prefix (c ∷ s) mark)) [
  | inl here ↦
      let (rest, e) = has_prefix_sound (c ∷ s) mark here in
      let same : rest ≡ v = sym (ap (drop 2) e) ∙ eq_of_some (rw (here, behind_q) at h) in
      ([], e ∙ ap (λ y. mark ++ y) same, refl)
  | inr later ↦
      let (x, e, silent) = behind_q_sound s v (rw (later, behind_q) at h) in
      let front : has_prefix (c ∷ x) mark ≡ false =
        sym (not_in_front c x v) ∙ ap (λ y. has_prefix (c ∷ y) mark) (sym e) ∙ later in
      (c ∷ x, ap (◌∷◌ c) e, ground (arith, front, silent))
]

ends :
    (number rest : Text)
    → Lacks b';' number
    → (rest ≡ []) ⊎ ((more : Text) × (rest ≡ b';' ∷ more))
    → before_semicolon (number ++ rest) (cut_first b';' (number ++ rest)) ≡ number
ends number rest plain (inl nothing) =
    let whole : number ++ rest ≡ number = ap (λ y. number ++ y) nothing ∙ append-nil number in
    ap (λ y. before_semicolon y (cut_first b';' y)) whole
    ∙ ap (before_semicolon number) ((cut_first-none b';' number).1 plain)
ends number rest plain (inr (more, e)) =
    ap (before_semicolon (number ++ rest))
      ((cut_first-some b';' (number ++ rest) number more).1 (ap (λ y. number ++ y) e, plain))

module _ (fl : Floats) where
  -- The number in front of the first semicolon behind the first q=, or 1 where that is no number or
  -- no q= stands there.
  pub data Quality (params : Text) (q : fl.Float) : Type 0 where
    unweighted : ¬ Occurs (codes "q=") params → q ≡ fl.one → Quality params q
    weighed :
        (x number rest : Text)
        → params ≡ x ++ (codes "q=" ++ (number ++ rest))
        → ¬ Occurs (codes "q=") x
        → Lacks b';' number
        → (rest ≡ []) ⊎ ((more : Text) × (rest ≡ b';' ∷ more))
        → (fl.parse (trim_space number) ≡ some q)
          ⊎ ((fl.parse (trim_space number) ≡ none) × (q ≡ fl.one))
        → Quality params q

  Parsed : Text → fl.Float → Type 0
  Parsed number q =
      (fl.parse (trim_space number) ≡ some q)
      ⊎ ((fl.parse (trim_space number) ≡ none) × (q ≡ fl.one))

  Parsed-iff :
      (number : Text) (q : fl.Float)
      → Parsed number q ↔ (q ≡ parsed_or fl fl.one (fl.parse (trim_space number)))
  unfolding Parsed
  Parsed-iff number q = elim (Option-cases (fl.parse (trim_space number))) [
    | inl bad ↦
        rw bad (λ p. elim p [ inl e ↦ absurd (cc e) | inr (_, one) ↦ one ], λ one. inr (refl, one))
    | inr (x, good) ↦ rw good (
      λ p. elim p [ inl e ↦ sym (eq_of_some e) | inr (e, _) ↦ absurd (cc e) ],
      λ e. inl (ap some (sym e)),
    )
  ]

  Quality-quality_in :
      (params : Text) (q : fl.Float) → Quality params q → q ≡ quality_in fl (behind_q params)
  unfolding Parsed
  Quality-quality_in params q (unweighted silent one) =
      rw ((behind_q-none params).1 ((silent_iff params).1 silent)) one
  Quality-quality_in params q (weighed x number rest e first plain end parsed) =
      let found : behind_q params ≡ some (number ++ rest) =
        ap behind_q e ∙ behind_q_complete x (number ++ rest) ((silent_iff x).1 first) in
      let value : before_semicolon (number ++ rest) (cut_first b';' (number ++ rest)) ≡ number =
        ends number rest plain end in
      (Parsed-iff number q).0 parsed
      ∙ ap (λ t. parsed_or fl fl.one (fl.parse (trim_space t))) (sym value)
      ∙ ap (quality_in fl) (sym found)

  quality_in-Quality : (params : Text) → Quality params (quality_in fl (behind_q params))
  unfolding Parsed
  quality_in-Quality params = elim (Option-cases (behind_q params)) [
    | inl nowhere ↦
        rw nowhere (unweighted ((silent_iff params).0 ((behind_q-none params).0 nowhere)) refl)
    | inr (v, found) ↦
        let (x, e, first) = behind_q_sound params v found in
        rw found (by_end x v e ((silent_iff x).0 first))
  ]
    where
      by_end :
          (x v : Text)
          → params ≡ x ++ (mark ++ v)
          → ¬ Occurs mark x
          → Quality params (quality_in fl (some v))
      by_end x v e first = elim (Option-cases (cut_first b';' v)) [
        | inl whole ↦ rw whole (
            weighed x v [] (e ∙ ap (λ y. x ++ (mark ++ y)) (sym (append-nil v))) first
              ((cut_first-none b';' v).0 whole) (inl refl) ((Parsed-iff v _).1 refl))
        | inr ((number, more), cut) ↦
            let (parts, plain) = (cut_first-some b';' v number more).0 cut in
            rw cut (
              weighed x number (b';' ∷ more) (e ∙ ap (λ y. x ++ (mark ++ y)) parts) first plain
                (inr (more, refl)) ((Parsed-iff number _).1 refl))
      ]

  pub Quality-iff :
      (params : Text) (q : fl.Float) → Quality params q ↔ (q ≡ quality_in fl (behind_q params))
  Quality-iff params q =
      (Quality-quality_in params q, λ e. subst (Quality params) (sym e) (quality_in-Quality params))
