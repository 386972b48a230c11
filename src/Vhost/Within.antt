-- ===== src/Vhost/Within.antt =====
-- internal/vhost/local.go: which paths sanitizePath lets through, and that they stay in the
-- directory.
use cifera.Base.{
  if◌then◌else◌, Bool-cases, All, All-append, All-map, has_prefix_self, Text, text_eq, text_eq_self,
  is_empty, has_prefix, split, join, trim_prefix, ◌≡◌, refl, sym, ap, ap₂, subst, ◌∙◌, inl, inr,
  true, false, Option, none, some, List, [], ◌∷◌, ◌++◌, reverse, reverse-append, reverse-reverse,
  append-nil, arith,
}
use cifera.Vhost.Path.{slash, dot_dot, push_part, resolve, render, stack_of, clean, join_path}
use cifera.Vhost.Parts.{
  HasNoSlash, IsPlain, split-append, split-HasNoSlash, split-join, resolve-IsPlain, resolve-append,
  resolve-plain, join-append, join_not_empty, has_prefix-join, join_no_slash,
}
use cifera.Vhost.Local.{inside, sanitize_path}

-- The parts of an absolute path that are left when it is cleaned.
abbrev pub parts_of : Text → List Text
parts_of p = reverse (stack_of p)

-- What sanitizePath gives, by the parts of the directory and those of the request.
abbrev pub sanitized : List Text → List Text → Option Text
sanitized base [] = some (render true base)
sanitized [] (part ∷ parts) = none
sanitized (top ∷ base) (part ∷ parts) =
    if has_prefix part dot_dot then none else some (render true ((top ∷ base) ++ part ∷ parts))

All-reverse {ℓ κ} : {A : Type ℓ} (P : A → Type κ) (l : List A) → All P l → All P (reverse l)
All-reverse P [] a = tt
All-reverse P (x ∷ l) (p, a) =
    subst (All P) (sym (reverse-append (x ∷ []) l))
      (All-append P (reverse l) (x ∷ []) (All-reverse P l a) (p, tt))

no_slashes : (parts : List Text) → All IsPlain parts → All HasNoSlash parts
no_slashes parts a = All-map IsPlain HasNoSlash parts (λ x p. p.no_slash) a

pub parts_of-IsPlain : (s : Text) → All IsPlain (parts_of (b'/' ∷ s))
unfolding stack_of has_prefix
parts_of-IsPlain s =
    All-reverse IsPlain (stack_of (b'/' ∷ s))
      (resolve-IsPlain [] (split b'/' (b'/' ∷ s)) (split-HasNoSlash (b'/' ∷ s)) tt)

clean-rooted : (s : Text) → clean (b'/' ∷ s) ≡ render true (parts_of (b'/' ∷ s))
unfolding clean has_prefix
clean-rooted s = refl

-- A path of plain parts is cleaned already.
parts_of-render : (parts : List Text) → All IsPlain parts → parts_of (render true parts) ≡ parts
unfolding stack_of split has_prefix resolve push_part join
parts_of-render [] a = refl
parts_of-render (part ∷ parts) a =
    ap (λ l. reverse (resolve true [] l)) (split-join part parts (no_slashes (part ∷ parts) a))
    ∙ ap reverse (resolve-plain [] (part ∷ parts) a ∙ append-nil (reverse (part ∷ parts)))
    ∙ reverse-reverse (part ∷ parts)

-- Joining a path with plain parts adds them.
parts_of-join :
    (s part : Text) (parts : List Text)
    → All IsPlain (part ∷ parts)
    → parts_of (b'/' ∷ s ++ b'/' ∷ join slash (part ∷ parts)) ≡ parts_of (b'/' ∷ s) ++ part ∷ parts
unfolding stack_of has_prefix
parts_of-join s part parts a =
    let rel = join slash (part ∷ parts) in
    let base = b'/' ∷ s in
    let stack = resolve true [] (split b'/' base) in
    ap (λ l. reverse (resolve true [] l))
      (split-append base rel
        ∙ ap (λ x. split b'/' base ++ x) (split-join part parts (no_slashes (part ∷ parts) a)))
    ∙ ap reverse (
        resolve-append true [] (split b'/' base) (part ∷ parts)
        ∙ resolve-plain stack (part ∷ parts) a)
    ∙ reverse-append (reverse (part ∷ parts)) stack
    ∙ ap (λ x. reverse stack ++ x) (reverse-reverse (part ∷ parts))

join_path-rooted :
    (s rel : Text)
    → is_empty rel ≡ false
    → join_path (b'/' ∷ s) rel ≡ clean (b'/' ∷ s ++ b'/' ∷ rel)
unfolding join_path
join_path-rooted s [] h = cc
join_path-rooted s (c ∷ rel) h = refl

clean-render :
    (parts : List Text) → All IsPlain parts → clean (render true parts) ≡ render true parts
unfolding clean has_prefix
clean-render parts a = ap (render true) (parts_of-render parts a)

checked : Text → Text → Option Text
checked base rel = if has_prefix rel dot_dot then none else inside base (clean (join_path base rel))

sanitize_path-checked :
    (base s : Text) → sanitize_path base s ≡ checked base (join slash (parts_of (b'/' ∷ s)))
unfolding sanitize_path clean has_prefix trim_prefix checked
sanitize_path-checked base s = refl

-- The directory itself is let through.
inside_itself :
    (base : Text) (bs : List Text)
    → All IsPlain bs
    → clean base ≡ render true bs
    → inside base (render true bs) ≡ some (render true bs)
inside_itself base bs a e = rw (e, text_eq_self (render true bs))

inside_below :
    (base : Text) (top : Text) (bs : List Text) (part : Text) (parts : List Text)
    → clean base ≡ render true (top ∷ bs)
    → let final = render true ((top ∷ bs) ++ part ∷ parts) in inside base final ≡ some final
unfolding has_prefix
inside_below base top bs part parts e =
    let final = render true ((top ∷ bs) ++ part ∷ parts) in
    let below : has_prefix final (render true (top ∷ bs) ++ slash) ≡ true =
      subst (λ x. has_prefix x (join slash (top ∷ bs) ++ slash) ≡ true)
        (sym (join-append top bs part parts))
        (has_prefix_self (join slash (top ∷ bs) ++ slash) (join slash (part ∷ parts))) in
    rw (e, below) (ground arith)

-- Nothing but itself is inside the root, since its path already ends with a slash.
inside_root :
    (base part : Text) (parts : List Text)
    → IsPlain part
    → clean base ≡ slash
    → inside base (render true (part ∷ parts)) ≡ none
unfolding has_prefix text_eq
inside_root base part parts p e =
    let other = join_no_slash part parts p in
    let more = join_not_empty part parts p.name in rw (e, other) (ground arith)

checked-sanitized :
    (s : Text) (bs rp : List Text)
    → parts_of (b'/' ∷ s) ≡ bs
    → All IsPlain bs
    → All IsPlain rp
    → checked (b'/' ∷ s) (join slash rp) ≡ sanitized bs rp
unfolding checked join has_prefix join_path
checked-sanitized s bs [] e a p =
    let here = clean-rooted s ∙ ap (render true) e in
    ap (λ x. inside (b'/' ∷ s) (clean x)) here
    ∙ ap (inside (b'/' ∷ s)) (clean-render bs a)
    ∙ inside_itself (b'/' ∷ s) bs a here
checked-sanitized s bs (part ∷ parts) e a (p, ps) =
    let rel = join slash (part ∷ parts) in
    let both = bs ++ part ∷ parts in
    let joined : clean (join_path (b'/' ∷ s) rel) ≡ render true both =
      ap clean (
        join_path-rooted s rel (join_not_empty part parts p.name)
        ∙ clean-rooted (s ++ b'/' ∷ rel)
        ∙ ap (render true) (parts_of-join s part parts (p, ps) ∙ ap (λ x. x ++ part ∷ parts) e))
      ∙ clean-render both (All-append IsPlain bs (part ∷ parts) a (p, ps)) in
    ap₂ (λ b x. if b then none else inside (b'/' ∷ s) x) (has_prefix-join part parts) joined
    ∙ by_directory bs (clean-rooted s ∙ ap (render true) e)
  where
    by_directory :
        (bs : List Text)
        → clean (b'/' ∷ s) ≡ render true bs
        → (if has_prefix part dot_dot
            then none
            else inside (b'/' ∷ s) (render true (bs ++ part ∷ parts)))
          ≡ sanitized bs (part ∷ parts)
    by_directory [] root =
        ap (λ x. if has_prefix part dot_dot then none else x)
          (inside_root (b'/' ∷ s) part parts p root)
        ∙ elim (Bool-cases (has_prefix part dot_dot)) [ inl h ↦ rw h | inr h ↦ rw h ]
    by_directory (top ∷ bs) e =
        ap (λ x. if has_prefix part dot_dot then none else x)
          (inside_below (b'/' ∷ s) top bs part parts e)

-- For an absolute directory sanitizePath gives the parts of the directory and behind them those of
-- the request, none of which is empty, a dot, two dots or has a slash, so that the file is the
-- directory or below it; it refuses exactly the paths whose first part starts with two dots and,
-- under the root directory, every path but the root.
pub sanitize_path-IsWithin :
    (base request_path : Text)
    → let own = parts_of (b'/' ∷ base) in
      let asked = parts_of (b'/' ∷ request_path) in
      (sanitize_path (b'/' ∷ base) request_path ≡ sanitized own asked)
      × All IsPlain own
      × All IsPlain asked
sanitize_path-IsWithin base request_path =
    let own = parts_of-IsPlain base in
    let asked = parts_of-IsPlain request_path in
    (
      sanitize_path-checked (b'/' ∷ base) request_path
          ∙ checked-sanitized base (parts_of (b'/' ∷ base)) (parts_of (b'/' ∷ request_path)) refl
              own asked,
      own,
      asked,
    )
