-- ===== src/Vhost/Parts.antt =====
-- The parts of a path: what path.Clean leaves, and that it leaves nothing more to do.
use cifera.Base.{
  ◌==◌, Bool-cases, All, Text, text_eq, is_empty, has_prefix, split, join, ℕ, ◌≡◌, refl, sym, ap,
  ap₂, ◌∙◌, ◌≢◌, inl, inr, Bool, true, false, ◌||◌, List, [], ◌∷◌, ◌++◌, reverse, reverse-append,
  append_assoc, arith,
}
use cifera.Vhost.Path.{slash, dot, dot_dot, back, push_part, resolve}

-- No slash stands in the text.
abbrev pub HasNoSlash : Text → Type 0
HasNoSlash s = All (λ c. c ≢ b'/') s

-- The name of a file or directory below another: not empty, no slash, not `.` and not `..`.
pub record IsPlain (part : Text) : Type 0 where
  pub name : is_empty part ≡ false
  pub no_slash : HasNoSlash part
  pub not_dot : text_eq part dot ≡ false
  pub not_dot_dot : text_eq part dot_dot ≡ false

split_cons :
    (sep : ℕ) (s : Text) → (part : Text) × (parts : List Text) × (split sep s ≡ part ∷ parts)
unfolding split
split_cons sep [] = ([], [], refl)
split_cons sep (c ∷ s) = elim (Bool-cases (c == sep)) [
  | inl here ↦ ([], split sep s, rw here)
  | inr other ↦ let (part, parts, e) = split_cons sep s in (c ∷ part, parts, rw (other, e))
]

pub split-append : (s t : Text) → split b'/' (s ++ b'/' ∷ t) ≡ split b'/' s ++ split b'/' t
unfolding split
split-append [] t = refl
split-append (c ∷ s) t = elim (Bool-cases (c == b'/')) [
  | inl here ↦ rw (here, split-append s t)
  | inr other ↦ let (part, parts, e) = split_cons b'/' s in rw (other, split-append s t, e)
]

split_plain : (s : Text) → HasNoSlash s → split b'/' s ≡ s ∷ []
unfolding split
split_plain [] h = refl
split_plain (c ∷ s) (ne, h) = ground (arith, split_plain s h)

-- A part between slashes has none.
pub split-HasNoSlash : (s : Text) → All HasNoSlash (split b'/' s)
unfolding split
split-HasNoSlash [] = (tt, tt)
split-HasNoSlash (c ∷ s) = elim (Bool-cases (c == b'/')) [
  | inl here ↦ rw (here, All) (tt, split-HasNoSlash s)
  | inr other ↦
      let (part, parts, e) = split_cons b'/' s in
      let rest = split-HasNoSlash s in
      let (h, hs) = rw (e, All) at rest in rw (other, e, All) ((ground arith, h), hs)
]

-- Splitting is undone by joining, for parts without slashes.
pub split-join :
    (part : Text) (parts : List Text)
    → All HasNoSlash (part ∷ parts)
    → split b'/' (join slash (part ∷ parts)) ≡ part ∷ parts
unfolding join
split-join part [] (h, hs) = split_plain part h
split-join part (next ∷ parts) (h, hs) =
    split-append part (join slash (next ∷ parts))
    ∙ ap₂ (λ x y. x ++ y) (split_plain part h) (split-join next parts hs)

push_part-IsPlain :
    (stack : List Text) (part : Text)
    → HasNoSlash part
    → All IsPlain stack
    → All IsPlain (push_part true stack part)
unfolding push_part
push_part-IsPlain stack part h a = elim (Bool-cases (is_empty part || text_eq part dot)) [
  | inl drops ↦ rw (drops, push_part) a
  | inr more ↦ elim (Bool-cases (text_eq part dot_dot)) [
    | inl up ↦ rw (more, push_part, up) (back-IsPlain stack a)
    | inr down ↦
        rw (more, push_part, down)
          (
            record {
              name = ground arith;
              no_slash = h;
              not_dot = ground arith;
              not_dot_dot = down;
            },
            a,
          )
  ]
]
  where
    back-IsPlain : (stack : List Text) → All IsPlain stack → All IsPlain (back true stack)
    back-IsPlain [] a = tt
    back-IsPlain (top ∷ stack) (p, a) = rw p.not_dot_dot a

pub resolve-IsPlain :
    (stack parts : List Text)
    → All HasNoSlash parts
    → All IsPlain stack
    → All IsPlain (resolve true stack parts)
unfolding resolve
resolve-IsPlain stack [] h a = a
resolve-IsPlain stack (part ∷ parts) (h, hs) a =
    resolve-IsPlain (push_part true stack part) parts hs (push_part-IsPlain stack part h a)

pub resolve-append :
    (rooted : Bool) (stack xs ys : List Text)
    → resolve rooted stack (xs ++ ys) ≡ resolve rooted (resolve rooted stack xs) ys
unfolding resolve
resolve-append rooted stack [] ys = refl
resolve-append rooted stack (x ∷ xs) ys = resolve-append rooted (push_part rooted stack x) xs ys

-- Plain parts are all kept.
pub resolve-plain :
    (stack parts : List Text)
    → All IsPlain parts
    → resolve true stack parts ≡ reverse parts ++ stack
unfolding resolve push_part
resolve-plain stack [] a = refl
resolve-plain stack (part ∷ parts) (p, a) =
    rw (p.name, p.not_dot, p.not_dot_dot)
      (resolve-plain (part ∷ stack) parts a ∙ reverse_shift part parts stack)
  where
    reverse_shift : (x : Text) (xs ys : List Text) → reverse xs ++ x ∷ ys ≡ reverse (x ∷ xs) ++ ys
    reverse_shift x xs ys =
        sym (append_assoc (reverse xs) (x ∷ []) ys)
        ∙ ap (λ l. l ++ ys) (sym (reverse-append (x ∷ []) xs))

pub join-append :
    (top : Text) (base : List Text) (part : Text) (parts : List Text)
    → join slash ((top ∷ base) ++ part ∷ parts)
      ≡ (join slash (top ∷ base) ++ slash) ++ join slash (part ∷ parts)
unfolding join
join-append top [] part parts = sym (append_assoc top slash (join slash (part ∷ parts)))
join-append top (next ∷ base) part parts =
    let front = join slash (next ∷ base) in
    let rest = join slash (part ∷ parts) in
    ap (λ x. top ++ (slash ++ x)) (join-append next base part parts)
    ∙ sym (
        ap (λ x. x ++ rest) (append_assoc top (slash ++ front) slash)
        ∙ append_assoc top ((slash ++ front) ++ slash) rest)

pub join_not_empty :
    (part : Text) (parts : List Text)
    → is_empty part ≡ false
    → is_empty (join slash (part ∷ parts)) ≡ false
unfolding join
join_not_empty part [] h = h
join_not_empty [] (next ∷ parts) h = cc
join_not_empty (c ∷ part) (next ∷ parts) h = refl

-- The first two bytes of joined parts are dots exactly if those of the first part are.
pub has_prefix-join :
    (part : Text) (parts : List Text)
    → has_prefix (join slash (part ∷ parts)) dot_dot ≡ has_prefix part dot_dot
unfolding join has_prefix
has_prefix-join part [] = refl
has_prefix-join [] (next ∷ parts) = refl
has_prefix-join (c ∷ []) (next ∷ parts) = refl
has_prefix-join (c ∷ d ∷ part) (next ∷ parts) = refl

pub join_no_slash :
    (part : Text) (parts : List Text)
    → IsPlain part
    → has_prefix (join slash (part ∷ parts)) slash ≡ false
unfolding join has_prefix
join_no_slash [] parts p = absurd (cc p.name)
join_no_slash (c ∷ part) [] p = ground (arith, p.no_slash.0)
join_no_slash (c ∷ part) (next ∷ parts) p = ground (arith, p.no_slash.0)
