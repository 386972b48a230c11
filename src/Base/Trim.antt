-- ===== src/Base/Trim.antt =====
-- What stands at the start of a text, behind any blanks.
use Prim.Native.Nat.{ℕ}
use mathlib.Core.Path.{◌≡◌, refl, ap, sym, subst, ◌∙◌}
use mathlib.Core.Bool.{true, false}
use mathlib.Core.Logic.{◌↔◌, inl, inr}
use mathlib.Core.List.{[], ◌∷◌, ◌++◌, map, reverse, reverse-append, reverse-reverse, append_assoc}
use native.Mathlib.Omega.{arith}
use cifera.Base.Tests.{Bool-cases}
use cifera.Base.Lists.{All}
use cifera.Base.Strings.{Text, is_space, has_prefix, trim_left, trim, trim_space}

abbrev pub AreBlank : Text → Type 0
AreBlank s = All (λ c. is_space c ≡ true) s

abbrev pub HasNoBlank : Text → Type 0
HasNoBlank s = All (λ c. is_space c ≡ false) s

trim_left-parts :
    (s : Text) → (blanks : Text) × AreBlank blanks × (s ≡ blanks ++ trim_left is_space s)
unfolding trim_left
trim_left-parts [] = ([], tt, refl)
trim_left-parts (c ∷ s) = elim (Bool-cases (is_space c)) [
  | inl blank ↦
      let (b, all, e) = trim_left-parts s in
      rw (blank, trim_left) (c ∷ b, (blank, all), ap (◌∷◌ c) e)
  | inr word ↦ rw (word, trim_left) ([], tt, refl)
]

trim_left-blanks : (b s : Text) → AreBlank b → trim_left is_space (b ++ s) ≡ trim_left is_space s
unfolding trim_left
trim_left-blanks [] s h = refl
trim_left-blanks (c ∷ b) s (blank, h) = rw (blank, trim_left) (trim_left-blanks b s h)

-- What is trimmed does not reach past a byte that is no blank.
trim_left-stops :
    (a : Text) (c : ℕ) (s : Text)
    → is_space c ≡ false
    → (front : Text) × (trim_left is_space (a ++ c ∷ s) ≡ front ++ c ∷ s)
unfolding trim_left
trim_left-stops [] c s word = ([], rw (word, trim_left))
trim_left-stops (x ∷ a) c s word = elim (Bool-cases (is_space x)) [
  | inl blank ↦ rw (blank, trim_left) (trim_left-stops a c s word)
  | inr other ↦ rw (other, trim_left) (x ∷ a, refl)
]

trim_left-word : (c : ℕ) (s : Text) → is_space c ≡ false → trim_left is_space (c ∷ s) ≡ c ∷ s
unfolding trim_left
trim_left-word c s word = rw (word, trim_left)

trim_parts :
    (s : Text)
    → (before : Text) × (after : Text) × AreBlank before × (s ≡ before ++ (trim_space s ++ after))
unfolding trim
trim_parts s =
    let t = trim_left is_space s in
    let (before, all, e) = trim_left-parts s in
    let (behind, _, f) = trim_left-parts (reverse t) in
    let rest = trim_left is_space (reverse t) in
    let whole : t ≡ reverse rest ++ reverse behind =
      sym (reverse-reverse t) ∙ ap reverse f ∙ reverse-append behind rest in
    (before, reverse behind, all, e ∙ ap (λ x. before ++ x) whole)

has_word_last :
    (w : Text) (c : ℕ)
    → HasNoBlank (c ∷ w)
    → (v : Text) × (d : ℕ) × (c ∷ w ≡ v ++ d ∷ []) × (is_space d ≡ false)
has_word_last [] c (h, _) = ([], c, refl, h)
has_word_last (x ∷ w) c (h, hs) =
    let (v, d, e, last) = has_word_last w x hs in (c ∷ v, d, ap (◌∷◌ c) e, last)

-- A word behind blanks is what the trimmed text starts with.
trim_space-word :
    (b w r : Text) (c : ℕ)
    → AreBlank b
    → HasNoBlank (c ∷ w)
    → (rest : Text) × (trim_space (b ++ (c ∷ w ++ r)) ≡ c ∷ w ++ rest)
unfolding trim
trim_space-word b w r c blank (first, h) =
    let (v, d, e, last) = has_word_last w c (first, h) in
    let t = c ∷ w ++ r in
    let start : trim_left is_space (b ++ t) ≡ t =
      trim_left-blanks b t blank ∙ trim_left-word c (w ++ r) first in
    let turned : reverse t ≡ reverse r ++ d ∷ reverse v =
      reverse-append (c ∷ w) r
      ∙ ap (λ x. reverse r ++ reverse x) e
      ∙ ap (λ x. reverse r ++ x) (reverse-append v (d ∷ [])) in
    let (front, stop) = trim_left-stops (reverse r) d (reverse v) last in
    (
      reverse front,
      ap (λ x. reverse (trim_left is_space (reverse x))) start
          ∙ ap (λ x. reverse (trim_left is_space x)) turned
          ∙ ap reverse stop
          ∙ reverse-append front (d ∷ reverse v)
          ∙ ap (λ x. reverse x ++ reverse front)
              (sym (reverse-append v (d ∷ [])) ∙ ap reverse (sym e))
          ∙ ap (λ x. x ++ reverse front) (reverse-reverse (c ∷ w)),
    )

-- The text starts with a word, behind any blanks; `f` maps its bytes to those of the word asked for.
pub record StartsWith (f : ℕ → ℕ) (word s : Text) : Type 0 where
  pub blanks : Text
  pub are_blank : AreBlank blanks
  pub found : Text
  pub rest : Text
  pub is_word : map f found ≡ word
  pub parts : s ≡ blanks ++ (found ++ rest)

map_split :
    (f : ℕ → ℕ) (s p : Text)
    → has_prefix (map f s) p ≡ true
    → (w : Text) × (r : Text) × (map f w ≡ p) × (s ≡ w ++ r)
unfolding has_prefix
map_split f s [] h = ([], s, refl, refl)
map_split f [] (x ∷ p) h = absurd (cc h)
map_split f (c ∷ s) (x ∷ p) h =
    let (w, r, e, g) = map_split f s p (ground arith) in
    let same : f c ≡ x = ground arith in
    (c ∷ w, r, ap (λ y. y ∷ map f w) same ∙ ap (◌∷◌ x) e, ap (◌∷◌ c) g)

map_prefix : (f : ℕ → ℕ) (w r : Text) → has_prefix (map f (w ++ r)) (map f w) ≡ true
unfolding has_prefix
map_prefix f [] r = refl
map_prefix f (c ∷ w) r = ground (arith, map_prefix f w r)

no_blank_of_map :
    (f : ℕ → ℕ) (w : Text)
    → ((c : ℕ) → is_space c ≡ true → is_space (f c) ≡ true)
    → HasNoBlank (map f w)
    → HasNoBlank w
no_blank_of_map f [] h n = tt
no_blank_of_map f (c ∷ w) h (first, n) = (
  elim (Bool-cases (is_space c)) [
    | inl blank ↦ absurd (cc (sym first ∙ h c blank))
    | inr word ↦ word
  ],
  no_blank_of_map f w h n,
)

-- The test for a prefix of the trimmed text.
pub has_prefix_trimmed_iff :
    (f : ℕ → ℕ) (c : ℕ) (word s : Text)
    → ((c : ℕ) → is_space c ≡ true → is_space (f c) ≡ true)
    → HasNoBlank (c ∷ word)
    → (has_prefix (map f (trim_space s)) (c ∷ word) ≡ true) ↔ StartsWith f (c ∷ word) s
has_prefix_trimmed_iff f c word s h n = (
  λ t.
      let (w, r, e, g) = map_split f (trim_space s) (c ∷ word) t in
      let (before, after, blank, p) = trim_parts s in
      record {
        blanks = before;
        are_blank = blank;
        found = w;
        rest = r ++ after;
        is_word = e;
        parts =
            p ∙ ap (λ x. before ++ (x ++ after)) g ∙ ap (λ x. before ++ x) (append_assoc w r after);
      },
  λ o. complete o.blanks o.found o.rest o.are_blank o.is_word o.parts,
)
  where
    complete :
        (b w r : Text)
        → AreBlank b
        → map f w ≡ c ∷ word
        → s ≡ b ++ (w ++ r)
        → has_prefix (map f (trim_space s)) (c ∷ word) ≡ true
    complete b [] r blank e p = absurd (cc e)
    complete b (x ∷ w) r blank e p =
        let no_blank = no_blank_of_map f (x ∷ w) h (subst HasNoBlank (sym e) n) in
        let (rest, q) = trim_space-word b w r x blank no_blank in
        ap (λ t. has_prefix (map f t) (c ∷ word)) (ap trim_space p ∙ q)
        ∙ ap (λ t. has_prefix (map f (x ∷ w ++ rest)) t) (sym e)
        ∙ map_prefix f (x ∷ w) rest
