-- ===== src/Filepath/Containment.antt =====
-- When the result of `filepath.Rel` stays below its base.
use compose_manager.Base.{◌≡◌, refl}
use compose_manager.Base.{◌↔◌, inl, inr, Bool, true, false, not, ◌&&◌, Option}
use compose_manager.Base.{none, some, List, [], ◌∷◌, ◌++◌, map, arith, Bool-cases}
use compose_manager.Base.{All, Text, codes, same, same_iff, same_refl}
use compose_manager.Base.{has_prefix, has_byte, join}
use mathlib.Core.Option
use compose_manager.Filepath.{slash, dotdot, is_abs, rel_elements, rel_text, rel, elements}
use compose_manager.Filepath.Elements.{IsElement, elements-IsElement}

-- `relative != ".." && !strings.HasPrefix(relative, "../") && !filepath.IsAbs(relative)`.
unfoldable pub stays_below : Text → Bool
unfolding same has_prefix
stays_below r = not (same r dotdot) && (not (has_prefix r (codes "../")) && not (is_abs r))

-- The elements of a path begin with those of another.
abbrev pub Within : List Text → List Text → Type 0
Within ps cs = (rest : List Text) × (cs ≡ ps ++ rest)

stays_below_one : (p : Text) → IsElement p → stays_below p ≡ true
unfolding stays_below has_byte
stays_below_one [] h = cc
stays_below_one (c ∷ []) h = ground arith
stays_below_one (c ∷ d ∷ []) h = ground arith
stays_below_one (c ∷ d ∷ e ∷ p) h = ground arith

stays_below-append : (p s : Text) → IsElement p → stays_below (p ++ slash ∷ s) ≡ true
unfolding stays_below has_byte
stays_below-append [] s h = cc
stays_below-append (c ∷ []) s h = ground arith
stays_below-append (c ∷ d ∷ []) s h = ground arith
stays_below-append (c ∷ d ∷ e ∷ p) s h = ground arith

stays_below_inside : (ps : List Text) → All IsElement ps → stays_below (rel_text ps) ≡ true
unfolding join
stays_below_inside [] h = unfold stays_below in refl
stays_below_inside (p ∷ []) (h, k) = stays_below_one p h
stays_below_inside (p ∷ q ∷ ps) (h, k) = stays_below-append p (join (slash ∷ []) (q ∷ ps)) h

stays_below_outside : (ps : List Text) → stays_below (rel_text (dotdot ∷ ps)) ≡ false
unfolding stays_below join
stays_below_outside [] = refl
stays_below_outside (q ∷ ps) = refl

-- The test on what `filepath.Rel` returned.
abbrev pub is_inside : Option Text → Bool
is_inside none = false
is_inside (some r) = stays_below r

rel_elements_differ :
    (b t : Text) (bs ts : List Text)
    → same b t ≡ false
    → is_inside (Option.map rel_text (rel_elements (b ∷ bs) (t ∷ ts))) ≡ true
    → Within (b ∷ bs) (t ∷ ts)
unfolding rel_elements
rel_elements_differ b t bs ts e h =
    absurd (ground (arith, e, h, stays_below_outside (map (λ p. dotdot) bs ++ t ∷ ts)))

rel_elements_sound :
    (bs ts : List Text)
    → All IsElement ts
    → is_inside (Option.map rel_text (rel_elements bs ts)) ≡ true
    → Within bs ts
unfolding rel_elements
rel_elements_sound [] ts ht h = (ts, refl)
rel_elements_sound (b ∷ bs) [] ht h = cc (h, stays_below_outside (map (λ p. dotdot) bs))
rel_elements_sound (b ∷ bs) (t ∷ ts) (ht, hts) h = elim (Bool-cases (same b t)) [
  | inl e ↦
      let (rest, found) = rel_elements_sound bs ts hts (rw (e, rel_elements) at h) in
      (rest, cc ((same_iff b t).0 e, found))
  | inr e ↦ rel_elements_differ b t bs ts e h
]

rel_elements_complete :
    (bs rest : List Text)
    → All IsElement (bs ++ rest)
    → is_inside (Option.map rel_text (rel_elements bs (bs ++ rest))) ≡ true
unfolding rel_elements
rel_elements_complete [] rest h = stays_below_inside rest h
rel_elements_complete (b ∷ bs) rest (h, hs) = rw (same_refl b) (rel_elements_complete bs rest hs)

rel_of_is_abs :
    (a b : Text)
    → is_abs a ≡ true
    → is_abs b ≡ true
    → rel a b ≡ Option.map rel_text (rel_elements (elements a) (elements b))
unfolding rel
rel_of_is_abs a b ha hb = rw (ha, hb)

Within-complete :
    (bs ts : List Text)
    → All IsElement ts
    → Within bs ts
    → is_inside (Option.map rel_text (rel_elements bs ts)) ≡ true
Within-complete bs ts h (rest, e) = rw e (rel_elements_complete bs rest (rw e at h))

-- Of two absolute paths the second stays below the first exactly when its elements begin with
-- those of the first.
pub is_inside-rel_iff :
    (a b : Text)
    → is_abs a ≡ true
    → is_abs b ≡ true
    → (is_inside (rel a b) ≡ true) ↔ Within (elements a) (elements b)
is_inside-rel_iff a b ha hb = rw (rel_of_is_abs a b ha hb) (
  (λ h. rel_elements_sound (elements a) (elements b) (elements-IsElement b hb) h),
  (λ w. Within-complete (elements a) (elements b) (elements-IsElement b hb) w),
)
