-- ===== src/Filepath/Parent.antt =====
-- The parent of a path.
use compose_manager.Base.{◌-◌}
use compose_manager.Base.{◌≡◌, refl, ap, ◌∙◌, ◌≢◌, Bool, true, false}
use compose_manager.Base.{List, [], ◌∷◌, ◌++◌, arith}
use compose_manager.Base.{==_iff, length}
use compose_manager.Base.{All, Text}
use compose_manager.Base.{has_byte, split, join}
use compose_manager.Base.{but_last}
use compose_manager.Filepath.{
  slash, is_abs, up_to_slash, dir, clean, elements, render, resolve_all, resolve,
}
use compose_manager.Filepath.Elements.{
  IsElement, is_abs-clean, split-ne-nil, split-append, split-join, resolve_all_of_IsElement,
  clean_of_is_abs,
}

up_to_slash_head : (ps : List Text) → ps ≢ [] → is_abs (up_to_slash ([] ∷ ps)) ≡ true
unfolding up_to_slash
up_to_slash_head [] h = absurd (h refl)
up_to_slash_head (p ∷ ps) h = refl

split-slash_head : (s : Text) → is_abs (up_to_slash (split slash (slash ∷ s))) ≡ true
unfolding split
split-slash_head s = up_to_slash_head (split slash s) (split-ne-nil slash s)

pub is_abs-dir : (path : Text) → is_abs path ≡ true → is_abs (dir path) ≡ true
unfolding dir
is_abs-dir [] h = cc
is_abs-dir (c ∷ s) h =
    rw ((==_iff c slash).0 h)
      (is_abs-clean (up_to_slash (split slash (slash ∷ s))) (split-slash_head s))

split-up_to_slash :
    (p : Text) (ps : List Text)
    → has_byte slash p ≡ false
    → All IsElement ps
    → split slash (up_to_slash (p ∷ ps)) ≡ but_last (p ∷ ps) ++ [] ∷ []
unfolding up_to_slash split
split-up_to_slash p [] h k = refl
split-up_to_slash p (q ∷ ps) h (k, ks) =
    split-append p (up_to_slash (q ∷ ps)) h ∙ ap (λ t. p ∷ t) (split-up_to_slash q ps k.no_slash ks)

pub All-but_last : (ps : List Text) → All IsElement ps → All IsElement (but_last ps)
All-but_last [] h = tt
All-but_last (p ∷ []) h = tt
All-but_last (p ∷ q ∷ ps) (h, hs) = (h, All-but_last (q ∷ ps) hs)

pub length-but_last : (ps : List Text) → length (but_last ps) ≡ length ps - 1
length-but_last [] = omega arith
length-but_last (p ∷ []) = omega arith
length-but_last (p ∷ q ∷ ps) = omega (arith, length-but_last (q ∷ ps))

resolve_all-append :
    (r : Bool) (st xs ys : List Text)
    → resolve_all r st (xs ++ ys) ≡ resolve_all r (resolve_all r st xs) ys
unfolding resolve_all
resolve_all-append r st [] ys = refl
resolve_all-append r st (x ∷ xs) ys = resolve_all-append r (resolve r st x) xs ys

resolve_all_last :
    (r : Bool) (xs : List Text) → resolve_all r [] (xs ++ [] ∷ []) ≡ resolve_all r [] xs
resolve_all_last r xs = resolve_all-append r [] xs ([] ∷ []) ∙ unfold resolve_all resolve in refl

elements_up :
    (p : Text) (ps : List Text)
    → IsElement p
    → All IsElement ps
    → elements (slash ∷ up_to_slash (p ∷ ps)) ≡ but_last (p ∷ ps)
unfolding elements
elements_up p ps h hs =
    rw (split-up_to_slash p ps h.no_slash hs, resolve_all_last true (but_last (p ∷ ps)))
      (resolve_all_of_IsElement [] (but_last (p ∷ ps)) (All-but_last (p ∷ ps) (h, hs)))

split-render :
    (p : Text) (ps : List Text)
    → IsElement p
    → All IsElement ps
    → split slash (render true (p ∷ ps)) ≡ [] ∷ p ∷ ps
unfolding render has_byte
split-render p ps h hs =
    split-append [] (join (slash ∷ []) (p ∷ ps)) refl
    ∙ ap (λ t. [] ∷ t) (split-join p ps h.no_slash hs)

dir_root : dir (render true []) ≡ render true []
unfolding dir clean up_to_slash split elements render
dir_root = refl

-- The parent of a clean absolute path has its elements but for the last.
pub dir-render :
    (ps : List Text) → All IsElement ps → dir (render true ps) ≡ render true (but_last ps)
unfolding dir up_to_slash
dir-render [] h = dir_root
dir-render (p ∷ ps) (h, hs) =
    rw (split-render p ps h hs) (
      clean_of_is_abs (slash ∷ up_to_slash (p ∷ ps)) refl
      ∙ ap (render true) (elements_up p ps h hs))
