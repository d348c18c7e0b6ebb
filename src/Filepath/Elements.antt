-- ===== src/Filepath/Elements.antt =====
-- The elements of a cleaned absolute path, and their rendering.
use compose_manager.Base.{◌≢◌}
use compose_manager.Base.{ℕ, ◌≡◌, refl, sym}
use compose_manager.Base.{ap, ◌∙◌, Bool, true, false}
use compose_manager.Base.{List, [], ◌∷◌, ◌++◌, arith}
use compose_manager.Base.{All, Text, same}
use compose_manager.Base.{is_empty, has_byte, split, join}
use mathlib.Core.List.{reverse, reverse-cons, reverse_aux, append_assoc, append-nil}
use compose_manager.Filepath.{slash, dot, dotdot, is_abs, resolve, resolve_all, elements}
use compose_manager.Filepath.{render, clean}

-- An element that a cleaned absolute path may hold.
pub record IsElement (p : Text) : Type 0 where
  pub filled : is_empty p ≡ false
  pub not_dot : same p dot ≡ false
  pub not_dotdot : same p dotdot ≡ false
  pub no_slash : has_byte slash p ≡ false

abbrev NoSlash : Text → Type 0
NoSlash p = has_byte slash p ≡ false

abbrev IsWhole : List Text → Type 0
IsWhole [] = ⊥
IsWhole (p ∷ ps) = Unit

split_nonempty : (sep : ℕ) (s : Text) → IsWhole (split sep s)
unfolding split
split_nonempty sep [] = tt
split_nonempty sep (c ∷ s) = ground (arith, split_nonempty sep s)

pub split-ne-nil : (sep : ℕ) (s : Text) → split sep s ≢ []
split-ne-nil sep s e = absurd_whole (split sep s) (split_nonempty sep s) e
  where
    absurd_whole : (ps : List Text) → IsWhole ps → ps ≡ [] → ⊥
    absurd_whole [] w q = w
    absurd_whole (p ∷ ps) w q = cc

split-NoSlash : (s : Text) → All NoSlash (split slash s)
unfolding split has_byte
split-NoSlash [] = (refl, tt)
split-NoSlash (c ∷ s) = ground (arith, split-NoSlash s)

All-reverse_aux :
    (xs ys : List Text) → All IsElement xs → All IsElement ys → All IsElement (reverse_aux xs ys)
All-reverse_aux [] ys hx hy = hy
All-reverse_aux (x ∷ xs) ys (h, hx) hy = All-reverse_aux xs (x ∷ ys) hx (h, hy)

resolve-IsElement :
    (stack : List Text) (part : Text)
    → All IsElement stack
    → NoSlash part
    → All IsElement (resolve true stack part)
unfolding resolve
resolve-IsElement [] part h k = ground arith
resolve-IsElement (p ∷ stack) part h k = ground arith

resolve_all-IsElement :
    (stack parts : List Text)
    → All IsElement stack
    → All NoSlash parts
    → All IsElement (resolve_all true stack parts)
unfolding resolve_all
resolve_all-IsElement stack [] h k = h
resolve_all-IsElement stack (part ∷ parts) h (k, ks) =
    resolve_all-IsElement (resolve true stack part) parts (resolve-IsElement stack part h k) ks

pub elements-IsElement : (path : Text) → is_abs path ≡ true → All IsElement (elements path)
unfolding elements
elements-IsElement path abs =
    rw abs (
      All-reverse_aux _ [] (resolve_all-IsElement [] (split slash path) tt (split-NoSlash path)) tt)

resolve_of_IsElement :
    (rooted : Bool) (stack : List Text) (part : Text)
    → IsElement part
    → resolve rooted stack part ≡ part ∷ stack
unfolding resolve
resolve_of_IsElement rooted stack part h = ground arith

pub resolve_all_of_IsElement :
    (stack parts : List Text)
    → All IsElement parts
    → reverse (resolve_all true stack parts) ≡ reverse stack ++ parts
unfolding resolve_all
resolve_all_of_IsElement stack [] h = sym (append-nil _)
resolve_all_of_IsElement stack (part ∷ parts) (h, hs) =
    rw (resolve_of_IsElement true stack part h)
      (resolve_all_of_IsElement (part ∷ stack) parts hs ∙ simp (reverse-cons, append_assoc))

split_one : (p : Text) → NoSlash p → split slash p ≡ p ∷ []
unfolding split has_byte
split_one [] h = refl
split_one (c ∷ p) h = ground (arith, split_one p)

pub split-append : (p s : Text) → NoSlash p → split slash (p ++ slash ∷ s) ≡ p ∷ split slash s
unfolding split has_byte
split-append [] s h = refl
split-append (c ∷ p) s h = ground (arith, split-append p s)

pub split-join :
    (p : Text) (ps : List Text)
    → NoSlash p
    → All IsElement ps
    → split slash (join (slash ∷ []) (p ∷ ps)) ≡ p ∷ ps
unfolding join
split-join p [] h k = split_one p h
split-join p (q ∷ ps) h (k, ks) =
    split-append p (join (slash ∷ []) (q ∷ ps)) h ∙ ap (λ t. p ∷ t) (split-join q ps k.no_slash ks)

pub elements-render : (ps : List Text) → All IsElement ps → elements (render true ps) ≡ ps
unfolding elements render
elements-render [] h = refl
elements-render (p ∷ ps) (h, hs) =
    rw (split-join p ps h.no_slash hs) (resolve_all_of_IsElement [] (p ∷ ps) (h, hs))

pub clean_of_is_abs : (path : Text) → is_abs path ≡ true → clean path ≡ render true (elements path)
unfolding clean
clean_of_is_abs path abs = rw abs

-- Cleaning a clean absolute path changes nothing, in particular its elements.
pub elements-clean : (path : Text) → is_abs path ≡ true → elements (clean path) ≡ elements path
elements-clean path abs =
    rw (clean_of_is_abs path abs) (elements-render (elements path) (elements-IsElement path abs))

pub is_abs-clean : (path : Text) → is_abs path ≡ true → is_abs (clean path) ≡ true
unfolding render
is_abs-clean path abs = rw (clean_of_is_abs path abs) refl

pub clean_idempotent : (path : Text) → is_abs path ≡ true → clean (clean path) ≡ clean path
clean_idempotent path abs =
    rw (clean_of_is_abs (clean path) (is_abs-clean path abs), elements-clean path abs)
      (sym (clean_of_is_abs path abs))
