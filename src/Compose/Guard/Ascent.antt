-- ===== src/Compose/Guard/Ascent.antt =====
-- The loop over missing names of backend/internal/compose/pathguard.go.
use compose_manager.Base.{ℕ, zero, suc}
use compose_manager.Base.{◌<◌, ◌≡◌, ◌≢◌, true}
use compose_manager.Base.{List, [], ◌∷◌, arith}
use compose_manager.Base.{length}
use compose_manager.Base.{All, Text}
use compose_manager.Base.{same_refl}
use compose_manager.Base.{but_last}
use compose_manager.Filepath.{clean, dir, base, elements, is_abs, render}
use compose_manager.Filepath.Elements.{
  IsElement, elements-IsElement, clean_of_is_abs, elements-clean,
}
use compose_manager.Filepath.Parent.{dir-render, All-but_last, length-but_last}
use compose_manager.Compose.Guard.{System, err, out_of_rounds, ascend}
use compose_manager.Compose.Guard.{eval_symlinks_with_missing_tail}

dir_same_root : dir (render true []) ≡ render true []
dir_same_root = dir-render [] tt

-- With more rounds than the path has elements the loop returns by itself.
ascend_total :
    (sys : System) (fuel : ℕ) (ps : List Text) (names : List Text)
    → All IsElement ps
    → length ps < fuel
    → ascend sys fuel (render true ps) names ≢ err out_of_rounds
unfolding ascend
ascend_total sys zero ps names h lt = elim lt [ ]
ascend_total sys (suc fuel) [] names h lt =
    ground (arith, dir_same_root, same_refl (render true []))
ascend_total sys (suc fuel) (p ∷ ps) names h lt = ground (
  arith,
  dir-render (p ∷ ps) h,
  ascend_total sys fuel (but_last (p ∷ ps)) (base (render true (p ∷ ps)) ∷ names)
      (All-but_last (p ∷ ps) h) (omega (arith, length-but_last (p ∷ ps))),
)

-- On a cleaned absolute path the search for the part that exists never runs out of rounds: it
-- returns the evaluated path, or the error of the file system.
pub missing_tail_total :
    (sys : System) (path : Text)
    → is_abs path ≡ true
    → eval_symlinks_with_missing_tail sys (clean path) ≢ err out_of_rounds
unfolding eval_symlinks_with_missing_tail
missing_tail_total sys path a =
    rw (elements-clean path a, clean_of_is_abs path a)
      (ascend_total sys _ (elements path) [] (elements-IsElement path a) (omega arith))
