-- ===== src/Compress/Choice.antt =====
-- internal/compress/compress.go: what the negotiator chooses.
use cifera.Base.{
  Bool-cases, Option-cases, All-IsIn, IsIn, Text, is_empty, is_empty_iff, split, eq_of_some, ℕ, ◌<◌,
  ◌≤◌, ◌≡◌, ◌≢◌, refl, sym, ap, subst, ◌∙◌, ◌⊎◌, ◌↔◌, inl, inr, true, false, not, ◌||◌, Option,
  none, some, List, [], ◌∷◌, arith,
}
use cifera.Compress.Negotiate.{Algorithm, Negotiator, Floats, offer_of, negotiate_from, negotiate}
use cifera.Compress.Accepts.{NoBetter, IsOn, Asks, priority-NoBetter, offer_of_iff}
use cifera.Compress.Best.{
  IsRanked, Offer, Best, offers, AtMost, run_offers, negotiate_from-offers, run_offers-IsBest,
}

module _ (fl : Floats) (ranked : IsRanked fl) where
  -- The offers are what the parts ask for, of the algorithms that are on.
  offers_iff :
      (n : Negotiator) (parts : List Text) (o : Offer fl ranked)
      → IsIn o (offers fl ranked n parts)
        ↔ ((part : Text) × IsIn part parts × (offer_of fl n part ≡ some o))
  unfolding offers
  offers_iff n [] o = (λ i. absurd i, λ (part, i, h). absurd i)
  offers_iff n (p ∷ parts) o = elim (Option-cases (offer_of fl n p)) [
    | inl skip ↦
        rw (skip, offers)
          (
            λ i. let (part, at, h) = (offers_iff n parts o).0 i in (part, inr at, h),
            λ (part, at, h). elim at [
              | inl here ↦ absurd (cc (sym skip ∙ ap (offer_of fl n) here ∙ h))
              | inr later ↦ (offers_iff n parts o).1 (part, later, h)
            ],
          )
    | inr (x, offer) ↦
        rw (offer, offers)
          (
            λ i. elim i [
              | inl here ↦ (p, inl refl, offer ∙ ap some here)
              | inr later ↦ let (part, at, h) = (offers_iff n parts o).0 later in (part, inr at, h)
            ],
            λ (part, at, h). elim at [
              | inl here ↦ inl (eq_of_some (sym offer ∙ ap (offer_of fl n) here ∙ h))
              | inr later ↦ inr ((offers_iff n parts o).1 (part, later, h))
            ],
          )
  ]

  -- An algorithm asked for with this rank is no better than the result, of rank x.
  abbrev pub IsTopped : Algorithm → Option ℕ → Option Algorithm → ℕ → Type 0
  IsTopped a none result x = Unit
  IsTopped a (some y) result x = (y < x) ⊎ ((y ≡ x) × NoBetter a result)

  AtMost-IsTopped :
      (a : Algorithm) (r : Option ℕ) (result : Option Algorithm) (x : ℕ)
      → AtMost fl ranked a r result x
      → IsTopped a r result x
  AtMost-IsTopped a none result x h = tt
  AtMost-IsTopped a (some y) result x (inl less) = inl less
  AtMost-IsTopped a (some y) result x (inr (same, le)) = inr (same, priority-NoBetter a result le)

  -- No part of the header asks for anything better that is on, and one asks for the result, unless
  -- none is chosen.
  pub record IsBestAsked (n : Negotiator) (header : Text) (result : Option Algorithm) : Type 0 where
    pub at_rank : ℕ
    pub tops :
        (part : Text) (a : Algorithm) (q : fl.Float)
        → IsIn part (split b',' header)
        → IsOn n a
        → Asks fl part a q
        → IsTopped a (ranked.rank q) result at_rank
    pub floor : ranked.least ≤ at_rank
    pub source :
        ((result ≡ none) × (at_rank ≡ ranked.least))
        ⊎ ((part : Text) × (a : Algorithm) × (q : fl.Float) × IsIn part (split b',' header)
            × IsOn n a
            × Asks fl part a q
            × (result ≡ some a)
            × (ranked.rank q ≡ some at_rank))

  pub data IsChoice (n : Negotiator) (header : Text) (result : Option Algorithm) : Type 0 where
    off : (n.enabled ≡ false) ⊎ (header ≡ []) → result ≡ none → IsChoice n header result
    on : n.enabled ≡ true → header ≢ [] → IsBestAsked n header result → IsChoice n header result

  best_asked :
      (n : Negotiator) (header : Text)
      → IsBestAsked n header (negotiate_from fl n (none, fl.minus_one) (split b',' header)).0
  best_asked n header =
      let parts = split b',' header in
      let os = offers fl ranked n parts in
      let h =
        run_offers-IsBest fl ranked os (none, fl.minus_one) ranked.least ranked.rank_minus_one in
      let same = negotiate_from-offers fl ranked n (none, fl.minus_one) parts in
      subst (λ r. IsBestAsked n header r.0) (sym same)
        (record {
          at_rank = h.at_rank;
          tops = λ part a q i is_on asks.
              AtMost-IsTopped a (ranked.rank q) (run_offers fl ranked (none, fl.minus_one) os).0
                h.at_rank
                (All-IsIn (a, q)
                  (λ o.
                    AtMost fl ranked o.0 (ranked.rank o.1)
                      (run_offers fl ranked (none, fl.minus_one) os).0 h.at_rank)
                  os
                  ((offers_iff n parts (a, q)).1
                    (part, i, (offer_of_iff fl n part a q).1 (is_on, asks)))
                  h.tops);
          floor = ground (arith, h.grows);
          source =
              from_loop (run_offers fl ranked (none, fl.minus_one) os) h.at_rank h.ranks h.chosen;
        })
    where
      from_loop :
          (result : Best fl ranked) (r : ℕ)
          → ranked.rank result.1 ≡ some r
          → (result ≡ (none, fl.minus_one))
            ⊎ ((a : Algorithm) × (result.0 ≡ some a)
                × IsIn {A = Offer fl ranked} (a, result.1) (offers fl ranked n (split b',' header)))
          → ((result.0 ≡ none) × (r ≡ ranked.least))
            ⊎ ((part : Text) × (a : Algorithm) × (q : fl.Float) × IsIn part (split b',' header)
                × IsOn n a
                × Asks fl part a q
                × (result.0 ≡ some a)
                × (ranked.rank q ≡ some r))
      from_loop result r e (inl same) = inl (
        ap (λ x. x.0) same,
        eq_of_some (sym e ∙ ap ranked.rank (ap (λ x. x.1) same) ∙ ranked.rank_minus_one),
      )
      from_loop result r e (inr (a, is, m)) =
          let (part, i, h) = (offers_iff n (split b',' header) (a, result.1)).0 m in
          let (is_on, asks) = (offer_of_iff fl n part a result.1).0 h in
          inr (part, a, result.1, i, is_on, asks, is, e)

  -- Where float64 compares by a rank that NaN has not, the negotiator, if it is on and the header
  -- is not empty, chooses nothing that a part of the header betters: of the codings gzip, br and
  -- zstd that the parts name and the configuration turns on, it is one of the highest quality, and
  -- at equal quality zstd goes before br and br before gzip; it chooses nothing exactly if no part
  -- names one with a quality of -1 at least. If it is off or the header is empty it chooses
  -- nothing.
  pub negotiate-IsChoice :
      (n : Negotiator) (header : Text) → IsChoice n header (negotiate fl n header)
  unfolding negotiate
  negotiate-IsChoice n header = elim (Bool-cases n.enabled) [
    | inr disabled ↦ off (inl disabled) (rw (disabled, negotiate))
    | inl enabled ↦ elim (Bool-cases (is_empty header)) [
      | inl empty ↦ off (inr ((is_empty_iff header).0 empty)) (rw (enabled, empty, negotiate))
      | inr there ↦
          let goes_on : (not n.enabled || is_empty header) ≡ false =
            ground (arith, enabled, there) in
          on enabled (λ e. cc (sym there ∙ ap is_empty e)) (rw goes_on (best_asked n header))
    ]
  ]
