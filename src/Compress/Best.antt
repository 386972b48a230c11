-- ===== src/Compress/Best.antt =====
-- internal/compress/compress.go: the choice of the negotiator is the best of the offers.
use cifera.Base.{
  ltb, Bool-cases, Option-cases, All, IsIn, Text, ℕ, ◌<◌, ◌≤◌, ◌≡◌, refl, sym, ap, ◌∙◌, ◌⊎◌, inl,
  inr, Bool, false, ◌&&◌, ◌||◌, ◌==◌, Option, none, some, List, [], ◌∷◌, arith,
}
use cifera.Compress.Negotiate.{
  Algorithm, Negotiator, Floats, algo_priority, offer_of, better, negotiate_from,
}

-- The order of numbers that are not NaN, and the answers for NaN.
abbrev pub is_above : Option ℕ → Option ℕ → Bool
is_above (some x) (some y) = ltb y x
is_above _ _ = false

abbrev pub is_same : Option ℕ → Option ℕ → Bool
is_same (some x) (some y) = x == y
is_same _ _ = false

-- float64 compares by a rank, which NaN has not.
pub record IsRanked (fl : Floats) : Type 0 where
  pub rank : fl.Float → Option ℕ
  pub above_rank : (a b : fl.Float) → fl.above a b ≡ is_above (rank a) (rank b)
  pub same_rank : (a b : fl.Float) → fl.same a b ≡ is_same (rank a) (rank b)
  pub least : ℕ
  pub rank_minus_one : rank fl.minus_one ≡ some least

climb :
    (x y z a b c : ℕ)
    → (x < y) ⊎ ((x ≡ y) × (a ≤ b))
    → (y < z) ⊎ ((y ≡ z) × (b ≤ c))
    → (x < z) ⊎ ((x ≡ z) × (a ≤ c))
climb x y z a b c h k = ground arith

module _ (fl : Floats) (ranked : IsRanked fl) where
  abbrev pub Offer : Type 0
  Offer = Algorithm × fl.Float

  abbrev pub Best : Type 0
  Best = Option Algorithm × fl.Float

  -- The offers of a header, in order.
  unfoldable pub offers : Negotiator → List Text → List Offer
  offers n [] = []
  offers n (part ∷ parts) =
      let rest = offers n parts in elim (offer_of fl n part) [ none ↦ rest | some o ↦ o ∷ rest ]

  -- An offer of this rank is no better than the best one, of rank x.
  abbrev pub AtMost : Algorithm → Option ℕ → Option Algorithm → ℕ → Type 0
  AtMost a none best x = Unit
  AtMost a (some y) best x = (y < x) ⊎ ((y ≡ x) × (algo_priority (some a) ≤ algo_priority best))

  AtMost-trans :
      (a : Algorithm) (r : Option ℕ) (b c : Option Algorithm) (x y : ℕ)
      → AtMost a r b x
      → (x < y) ⊎ ((x ≡ y) × (algo_priority b ≤ algo_priority c))
      → AtMost a r c y
  AtMost-trans a none b c x y h k = tt
  AtMost-trans a (some z) b c x y h k = ground arith

  -- What the loop leads to from the best so far.
  pub record IsBest (best : Best) (x : ℕ) (os : List Offer) (result : Best) : Type 0 where
    pub at_rank : ℕ
    pub ranks : ranked.rank result.1 ≡ some at_rank
    pub grows : (x < at_rank) ⊎ ((x ≡ at_rank) × (algo_priority best.0 ≤ algo_priority result.0))
    pub tops : All (λ o. AtMost o.0 (ranked.rank o.1) result.0 at_rank) os
    pub chosen :
        (result ≡ best)
        ⊎ ((a : Algorithm) × (result.0 ≡ some a) × IsIn {A = Offer} (a, result.1) os)

  abbrev pub run_offers : Best → List Offer → Best
  run_offers best [] = best
  run_offers best (o ∷ os) = run_offers (better fl best o) os

  pub negotiate_from-offers :
      (n : Negotiator) (best : Best) (parts : List Text)
      → negotiate_from fl n best parts ≡ run_offers best (offers n parts)
  unfolding negotiate_from offers
  negotiate_from-offers n best [] = refl
  negotiate_from-offers n best (part ∷ parts) = elim (Option-cases (offer_of fl n part)) [
    | inl skip ↦ rw (skip, negotiate_from, offers) (negotiate_from-offers n best parts)
    | inr (o, offer) ↦
        rw (offer, negotiate_from, offers) (negotiate_from-offers n (better fl best o) parts)
  ]

  -- One step: the rank of the better one, and whether it is the offer.
  record IsStep (best : Best) (x : ℕ) (o : Offer) (next : Best) : Type 0 where
    at_rank : ℕ
    ranks : ranked.rank next.1 ≡ some at_rank
    grows : (x < at_rank) ⊎ ((x ≡ at_rank) × (algo_priority best.0 ≤ algo_priority next.0))
    tops : AtMost o.0 (ranked.rank o.1) next.0 at_rank
    which : (next ≡ best) ⊎ (next ≡ (some o.0, o.1))

  better-IsStep :
      (best : Best) (x : ℕ) (o : Offer) (r : Option ℕ)
      → ranked.rank best.1 ≡ some x
      → ranked.rank o.1 ≡ r
      → IsStep best x o (better fl best o)
  unfolding better
  better-IsStep (b, q) x (a, s) none e f =
      rw (ranked.above_rank s q, ranked.same_rank s q, e, f)
        (record { at_rank = x; ranks = e; grows = ground arith; tops = rw f tt; which = inl refl })
  better-IsStep (b, q) x (a, s) (some y) e f =
      let wins = ltb x y || ((y == x) && ltb (algo_priority b) (algo_priority (some a))) in
      rw (ranked.above_rank s q, ranked.same_rank s q, e, f)
        (elim (Bool-cases wins) [
          | inl won ↦ rw won (record {
            at_rank = y;
            ranks = f;
            grows = ground (arith, won);
            tops = rw f (ground arith);
            which = inr refl;
          })
          | inr lost ↦ rw lost (record {
            at_rank = x;
            ranks = e;
            grows = ground arith;
            tops = rw f (ground (arith, lost));
            which = inl refl;
          })
        ])

  pub run_offers-IsBest :
      (os : List Offer) (best : Best) (x : ℕ)
      → ranked.rank best.1 ≡ some x
      → IsBest best x os (run_offers best os)
  run_offers-IsBest [] best x e = record {
    at_rank = x;
    ranks = e;
    grows = ground arith;
    tops = tt;
    chosen = inl refl;
  }
  run_offers-IsBest (o ∷ os) best x e =
      let s = better-IsStep best x o (ranked.rank o.1) e refl in
      let h = run_offers-IsBest os (better fl best o) s.at_rank s.ranks in
      record {
        at_rank = h.at_rank;
        ranks = h.ranks;
        grows =
            climb x s.at_rank h.at_rank (algo_priority best.0) (algo_priority (better fl best o).0)
              (algo_priority (run_offers best (o ∷ os)).0) s.grows h.grows;
        tops = (
          AtMost-trans o.0 (ranked.rank o.1) (better fl best o).0 (run_offers best (o ∷ os)).0
              s.at_rank h.at_rank s.tops h.grows,
          h.tops,
        );
        chosen = from_step (run_offers best (o ∷ os)) h.chosen s.which;
      }
    where
      from_step :
          (result : Best)
          → (result ≡ better fl best o)
            ⊎ ((a : Algorithm) × (result.0 ≡ some a) × IsIn {A = Offer} (a, result.1) os)
          → (better fl best o ≡ best) ⊎ (better fl best o ≡ (some o.0, o.1))
          → (result ≡ best)
            ⊎ ((a : Algorithm) × (result.0 ≡ some a) × IsIn {A = Offer} (a, result.1) (o ∷ os))
      from_step result (inr (a, e, m)) w = inr (a, e, inr m)
      from_step result (inl last) (inl same) = inl (last ∙ same)
      from_step result (inl last) (inr offer) =
          let w = last ∙ offer in
          inr (o.0, ap (λ x. x.0) w, inl (ap (λ q. (o.0, q)) (sym (ap (λ x. x.1) w))))
