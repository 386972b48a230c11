-- ===== src/Compress/Accepts.antt =====
-- internal/compress/compress.go: what a part of Accept-Encoding asks for, apart from the loop.
use cifera.Base.{
  Bool-cases, Lacks, Text, codes, text_eq, text_eq_iff, text_dec, is_empty, lookup, trim_space,
  eq_of_some, false≢true, ◌≤◌, ◌≡◌, refl, sym, ap, subst, ◌∙◌, ◌↔◌, inl, inr, true, false, Option,
  none, some, [], ◌∷◌, ◌++◌, arith,
}
use cifera.LoopGuard.Address.{cut_first}
use cifera.Compress.Weight.{cut_first-none, cut_first-some, Quality, Quality-iff}
use cifera.Compress.Negotiate.{
  Algorithm, gzip, brotli, zstd, AlgorithmConfig, Negotiator, Floats, name_of, enabled_of,
  algo_named, algo_priority, is_algo_enabled, named_part, read_part, usable, offer_of,
}

-- The name of a content coding in HTTP.
abbrev pub coding : Algorithm → Text
coding gzip = codes "gzip"
coding brotli = codes "br"
coding zstd = codes "zstd"

-- zstd before brotli before gzip: the first is no better than the second.
abbrev pub NoBetter : Algorithm → Option Algorithm → Type 0
NoBetter a none = ⊥
NoBetter a (some zstd) = Unit
NoBetter zstd (some brotli) = ⊥
NoBetter brotli (some brotli) = Unit
NoBetter gzip (some brotli) = Unit
NoBetter zstd (some gzip) = ⊥
NoBetter brotli (some gzip) = ⊥
NoBetter gzip (some gzip) = Unit

pub priority-NoBetter :
    (a : Algorithm) (best : Option Algorithm)
    → algo_priority (some a) ≤ algo_priority best
    → NoBetter a best
priority-NoBetter gzip none h = absurd (omega arith)
priority-NoBetter brotli none h = absurd (omega arith)
priority-NoBetter zstd none h = absurd (omega arith)
priority-NoBetter a (some zstd) h = tt
priority-NoBetter zstd (some brotli) h = absurd (omega arith)
priority-NoBetter brotli (some brotli) h = tt
priority-NoBetter gzip (some brotli) h = tt
priority-NoBetter zstd (some gzip) h = absurd (omega arith)
priority-NoBetter brotli (some gzip) h = absurd (omega arith)
priority-NoBetter gzip (some gzip) h = tt

-- The configuration of the negotiator turns the coding on.
abbrev pub IsOn : Negotiator → Algorithm → Type 0
IsOn n a =
    (n.enabled ≡ true)
    × ((cfg : AlgorithmConfig) × (lookup text_dec (coding a) n.algos ≡ some cfg)
        × (cfg.enabled ≡ true))

coding-name_of : (a : Algorithm) → name_of a ≡ coding a
coding-name_of gzip = refl
coding-name_of brotli = refl
coding-name_of zstd = refl

enabled_sound :
    (o : Option AlgorithmConfig)
    → enabled_of o ≡ true
    → (cfg : AlgorithmConfig) × (o ≡ some cfg) × (cfg.enabled ≡ true)
enabled_sound none h = absurd (cc)
enabled_sound (some cfg) h = (cfg, refl, h)

pub is_algo_enabled_iff : (n : Negotiator) (a : Algorithm) → (is_algo_enabled n a ≡ true) ↔ IsOn n a
unfolding is_algo_enabled
is_algo_enabled_iff n a = elim (Bool-cases n.enabled) [
  | inl on ↦
      rw (on, is_algo_enabled, coding-name_of a)
        (
          λ h. (refl, enabled_sound (lookup text_dec (coding a) n.algos) h),
          λ (_, (cfg, found, e)). ap enabled_of found ∙ e,
        )
  | inr off ↦ rw (off, is_algo_enabled) (λ h. absurd (cc h), λ (on, _). absurd (cc on))
]

algo_named_sound : (t : Text) (a : Algorithm) → algo_named t ≡ some a → t ≡ coding a
unfolding algo_named
algo_named_sound t a h = elim (Bool-cases (text_eq t (codes "zstd"))) [
  | inl is_zstd ↦
      (text_eq_iff t (codes "zstd")).0 is_zstd
      ∙ ap coding (eq_of_some (rw (is_zstd, algo_named) at h))
  | inr not_zstd ↦ elim (Bool-cases (text_eq t (codes "br"))) [
    | inl is_br ↦
        (text_eq_iff t (codes "br")).0 is_br
        ∙ ap coding (eq_of_some (rw (not_zstd, is_br, algo_named) at h))
    | inr not_br ↦ elim (Bool-cases (text_eq t (codes "gzip"))) [
      | inl is_gzip ↦
          (text_eq_iff t (codes "gzip")).0 is_gzip
          ∙ ap coding (eq_of_some (rw (not_zstd, not_br, is_gzip, algo_named) at h))
      | inr not_gzip ↦ absurd (cc (rw (not_zstd, not_br, not_gzip, algo_named) at h))
    ]
  ]
]

algo_named-coding : (a : Algorithm) → algo_named (coding a) ≡ some a
unfolding algo_named text_eq
algo_named-coding gzip = refl
algo_named-coding brotli = refl
algo_named-coding zstd = refl

module _ (fl : Floats) where
  -- The part asks for this coding with this quality: its name stands alone, or in front of the
  -- first semicolon.
  pub data Asks (part : Text) (a : Algorithm) (q : fl.Float) : Type 0 where
    bare : Lacks b';' (trim_space part) → trim_space part ≡ coding a → q ≡ fl.one → Asks part a q
    weighted :
        (name params : Text)
        → trim_space part ≡ name ++ b';' ∷ params
        → Lacks b';' name
        → trim_space name ≡ coding a
        → Quality fl params q
        → Asks part a q

  Reads : Text → Algorithm → fl.Float → Type 0
  Reads part a q = let (name, r) = read_part fl (trim_space part) in (name ≡ coding a) × (q ≡ r)

  Asks-Reads : (part : Text) (a : Algorithm) (q : fl.Float) → Asks part a q → Reads part a q
  unfolding Reads read_part
  Asks-Reads part a q (bare l e one) = rw ((cut_first-none b';' (trim_space part)).1 l) (e, one)
  Asks-Reads part a q (weighted name params s l e quality) =
      rw ((cut_first-some b';' (trim_space part) name params).1 (s, l))
        (e, (Quality-iff fl params q).0 quality)

  Reads-Asks : (part : Text) (a : Algorithm) (q : fl.Float) → Reads part a q → Asks part a q
  unfolding Reads read_part
  Reads-Asks part a q r = by_cut (cut_first b';' (trim_space part)) refl r
    where
      by_cut :
          (o : Option (Text × Text))
          → cut_first b';' (trim_space part) ≡ o
          → (let (name, x) = named_part fl (trim_space part) o in (name ≡ coding a) × (q ≡ x))
          → Asks part a q
      by_cut none c (e, one) = bare ((cut_first-none b';' (trim_space part)).0 c) e one
      by_cut (some (name, params)) c (e, quality) =
          let (s, l) = (cut_first-some b';' (trim_space part) name params).0 c in
          weighted name params s l e ((Quality-iff fl params q).1 quality)

  usable_iff :
      (n : Negotiator) (name : Text) (r q : fl.Float) (a : Algorithm)
      → (usable fl n r (algo_named name) ≡ some (a, q)) ↔ (IsOn n a × ((name ≡ coding a) × (q ≡ r)))
  unfolding usable
  usable_iff n name r q a = (
    sound (algo_named name) refl,
    λ (on, (e, same)).
        rw (e, algo_named-coding a, (is_algo_enabled_iff n a).1 on)
          (ap (λ x. some (a, x)) (sym same)),
  )
    where
      sound :
          (o : Option Algorithm)
          → algo_named name ≡ o
          → usable fl n r o ≡ some (a, q)
          → IsOn n a × ((name ≡ coding a) × (q ≡ r))
      sound none e h = absurd (cc h)
      sound (some x) e h = elim (Bool-cases (is_algo_enabled n x)) [
        | inr off ↦ absurd (cc (rw (off, usable) at h))
        | inl on ↦
            let w : ◌≡◌ {A = Algorithm × fl.Float} (x, r) (a, q) =
              eq_of_some (rw (on, usable) at h) in
            let same = ap (λ o. o.0) w in
            (
              subst (IsOn n) same ((is_algo_enabled_iff n x).0 on),
              (algo_named_sound name x e ∙ ap coding same, sym (ap (λ o. o.1) w)),
            )
      ]

  not_blank :
      (part : Text) (a : Algorithm) (q : fl.Float)
      → Asks part a q
      → is_empty (trim_space part) ≡ false
  not_blank part gzip q (bare l e one) = ap is_empty e
  not_blank part brotli q (bare l e one) = ap is_empty e
  not_blank part zstd q (bare l e one) = ap is_empty e
  not_blank part a q (weighted [] params s l e quality) = ap is_empty s
  not_blank part a q (weighted (x ∷ name) params s l e quality) = ap is_empty s

  -- What the loop takes of a part.
  pub offer_of_iff :
      (n : Negotiator) (part : Text) (a : Algorithm) (q : fl.Float)
      → (offer_of fl n part ≡ some (a, q)) ↔ (IsOn n a × Asks part a q)
  unfolding offer_of Reads
  offer_of_iff n part a q =
      let name = (read_part fl (trim_space part)).0 in
      let r = (read_part fl (trim_space part)).1 in
      let u = usable_iff n name r q a in
      elim (Bool-cases (is_empty (trim_space part))) [
        | inl blank ↦
            rw (blank, offer_of)
              (
                λ h. absurd (cc h),
                λ (on, asks). absurd (false≢true (sym (not_blank part a q asks) ∙ blank)),
              )
        | inr there ↦
            rw (there, offer_of)
              (
                λ h. let (on, reads) = u.0 h in (on, Reads-Asks part a q reads),
                λ (on, asks). u.1 (on, Asks-Reads part a q asks),
              )
      ]
