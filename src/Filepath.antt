-- ===== src/Filepath.antt =====
-- Go's path/filepath on Unix, as the packages of backend use it: purely lexical, over bytes.
pub mod Elements
pub mod Containment
pub mod Parent
use compose_manager.Base.{ℕ, zero, suc, ◌+◌, ◌-◌, ◌*◌, ◌/◌, ◌%◌, ◌^◌, ◌≤◌, ◌<◌, ◌≡◌, refl, sym}
use compose_manager.Base.{
  ap, ◌∙◌, ◌≢◌, ◌↔◌, ◌⊎◌, inl, inr, Bool, true, false, not, ◌&&◌, ◌||◌, Option,
}
use compose_manager.Base.{
  none, some, List, [], ◌∷◌, ◌++◌, map, arith, ltb, leb, ◌==◌, if◌then◌else◌, ==_iff, Bool-cases,
}
use compose_manager.Base.{
  Option-cases, and_true, and_intro, or_false, length, take, drop, all, any, filter, length-append,
  length-take, length-drop, take-append-drop,
}
use compose_manager.Base.{
  All, All-append, All-mono, All-filter, All-filter_test, All-of_all, length-filter, All-of_any,
  Text, codes, same, same_iff, same_refl, same_sym,
}
use compose_manager.Base.{
  is_empty, has_prefix, contains, has_byte, split, join, is_space, trim_left, trim_right,
  trim_space, lower_byte, to_lower, last_piece, but_last,
}
use compose_manager.Base.{
  Map, lookup, insert, remove, purge, lookup-insert, lookup-remove, Unique, Unique-insert,
  Unique-remove, unless, lookup-purge, Unique-purge,
}
use mathlib.Core.Option
use mathlib.Core.List.{reverse}

abbrev pub slash : ℕ
slash = b'/'

abbrev pub dot : Text
dot = codes "."

abbrev pub dotdot : Text
dotdot = codes ".."

-- `filepath.IsAbs`.
abbrev pub is_abs : Text → Bool
is_abs [] = false
is_abs (c ∷ s) = c == slash

-- What ".." does to the elements before it, the last one first.
pub go_up : Bool → List Text → List Text
go_up rooted [] = if rooted then [] else dotdot ∷ []
go_up rooted (p ∷ ps) = if same p dotdot then dotdot ∷ p ∷ ps else ps

-- One element of a path, taken onto the elements before it.
pub resolve : Bool → List Text → Text → List Text
unfolding go_up
resolve rooted stack part =
    if is_empty part || same part dot
    then stack
    else if same part dotdot
    then go_up rooted stack
    else part ∷ stack

pub resolve_all : Bool → List Text → List Text → List Text
unfolding resolve
resolve_all rooted stack [] = stack
resolve_all rooted stack (part ∷ parts) = resolve_all rooted (resolve rooted stack part) parts

-- The elements of a cleaned path.
unfoldable pub elements : Text → List Text
unfolding resolve_all split same
elements path = reverse (resolve_all (is_abs path) [] (split slash path))

-- The text of a cleaned path.
unfoldable pub render : Bool → List Text → Text
unfolding join
render true parts = slash ∷ join (slash ∷ []) parts
render false [] = dot
render false (p ∷ ps) = join (slash ∷ []) (p ∷ ps)

-- `filepath.Clean`.
unfoldable pub clean : Text → Text
clean path = render (is_abs path) (elements path)

-- `filepath.Join(a, b)`.
unfoldable pub join_path : Text → Text → Text
join_path [] [] = []
join_path [] (c ∷ b) = clean (c ∷ b)
join_path (c ∷ a) [] = clean (c ∷ a)
join_path (c ∷ a) (d ∷ b) = clean ((c ∷ a) ++ slash ∷ d ∷ b)

-- The text of a path up to its last slash, the slash included.
unfoldable pub up_to_slash : List Text → Text
up_to_slash [] = []
up_to_slash (p ∷ []) = []
up_to_slash (p ∷ q ∷ ps) = p ++ slash ∷ up_to_slash (q ∷ ps)

-- `filepath.Dir`.
unfoldable pub dir : Text → Text
dir path = clean (up_to_slash (split slash path))

abbrev base_of : Text → Text
base_of [] = slash ∷ []
base_of (c ∷ s) = last_piece (split slash (c ∷ s))

-- `filepath.Base`.
unfoldable pub base : Text → Text
base [] = dot
base (c ∷ s) = base_of (trim_right (λ b. b == slash) (c ∷ s))

-- The elements that `filepath.Rel` compares: a relative path that is "." keeps it as an element
-- of the target, and as none of the base.
abbrev elem_or_dot : Bool → List Text → List Text
elem_or_dot true ps = ps
elem_or_dot false [] = dot ∷ []
elem_or_dot false (p ∷ ps) = p ∷ ps

abbrev target_elements : Text → List Text
target_elements path = elem_or_dot (is_abs path) (elements path)

-- The loop of `filepath.Rel`: what is left of the base and of the target after their common
-- elements. `none` is its error, a ".." left in the base.
unfoldable pub rel_elements : List Text → List Text → Option (List Text)
rel_elements [] ts = some ts
rel_elements (b ∷ bs) [] = some (map (λ p. dotdot) (b ∷ bs))
rel_elements (b ∷ bs) (t ∷ ts) =
    let rest = rel_elements bs ts in
    if same b t
    then rest
    else if same b dotdot
    then none
    else some (map (λ p. dotdot) (b ∷ bs) ++ t ∷ ts)

abbrev rel_text : List Text → Text
rel_text [] = dot
rel_text (p ∷ ps) = join (slash ∷ []) (p ∷ ps)

abbrev same_bool : Bool → Bool → Bool
same_bool true b = b
same_bool false b = not b

-- `filepath.Rel(base, target)`.
unfoldable pub rel : Text → Text → Option Text
rel from to =
    if same_bool (is_abs from) (is_abs to)
    then Option.map rel_text (rel_elements (elements from) (target_elements to))
    else none
