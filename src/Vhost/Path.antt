-- ===== src/Vhost/Path.antt =====
-- The packages path and path/filepath (on Unix), as far as internal/vhost uses them.
use cifera.Base.{
  if◌then◌else◌, Text, codes, text_eq, is_empty, has_prefix, split, join, Bool, true, false, ◌||◌,
  List, [], ◌∷◌, ◌++◌, reverse,
}

abbrev pub slash : Text
slash = codes "/"

abbrev pub dot : Text
dot = codes "."

abbrev pub dot_dot : Text
dot_dot = codes ".."

-- A part `..` takes back the part before it; at the root it is dropped.
abbrev pub back : Bool → List Text → List Text
back true [] = []
back false [] = dot_dot ∷ []
back rooted (top ∷ stack) = if text_eq top dot_dot then dot_dot ∷ top ∷ stack else stack

unfoldable pub push_part : Bool → List Text → Text → List Text
push_part rooted stack part =
    if is_empty part || text_eq part dot
    then stack
    else if text_eq part dot_dot
    then back rooted stack
    else part ∷ stack

unfoldable pub resolve : Bool → List Text → List Text → List Text
resolve rooted stack [] = stack
resolve rooted stack (part ∷ parts) = resolve rooted (push_part rooted stack part) parts

abbrev pub render : Bool → List Text → Text
render true parts = b'/' ∷ join slash parts
render false [] = dot
render false (part ∷ parts) = join slash (part ∷ parts)

-- The parts that are left of a path, the last one first.
unfoldable pub stack_of : Text → List Text
stack_of p = resolve (has_prefix p slash) [] (split b'/' p)

-- path.Clean
unfoldable pub clean : Text → Text
clean p = render (has_prefix p slash) (reverse (stack_of p))

-- path.Join of two elements; an empty one is left out.
unfoldable pub join_path : Text → Text → Text
join_path [] [] = []
join_path [] (c ∷ s) = clean (c ∷ s)
join_path (c ∷ s) [] = clean (c ∷ s)
join_path (c ∷ s) (d ∷ t) = clean ((c ∷ s) ++ b'/' ∷ d ∷ t)
