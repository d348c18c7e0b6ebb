-- ===== src/App/Images/Deletion.antt =====
-- What a deletion of an image rests on.

use compose_manager.App.Images.{enrich_image}
use compose_manager.Base.{ap}
use compose_manager.Base.{◌↔◌, false, ◌||◌, Option, none, some}
use compose_manager.Base.{All-mono}
use compose_manager.Base.{same_iff}
use compose_manager.Base.{Map}
use compose_manager.Base.{ℕ, ◌≤◌}
use compose_manager.Base.{◌<◌, ◌≡◌, refl, ◌≢◌, inl, inr, Bool, true}
use compose_manager.Base.{List, [], ◌∷◌, ◌++◌, map, arith}
use compose_manager.Base.{Bool-cases, length, any, filter}
use compose_manager.Base.{All, Text}
use compose_manager.Base.{same}
use compose_manager.Model.{Container, ImageReference, DiscoveredProject}
use compose_manager.App.References.{full_ref, image_ref_equal}
use compose_manager.Model.{UpdateStatus}
use compose_manager.App.Images.{delete, decide_deletion, delete_image, list_images, is_none}
use compose_manager.App.Images.References.{users, runs, stops, using_names, enrich_image_lem}
use compose_manager.App.Images.{add_new, gather}

snoc-ne-nil {ℓ} : {A : Type ℓ} (xs : List A) (x : A) → xs ++ x ∷ [] ≢ []
snoc-ne-nil [] x e = cc
snoc-ne-nil (y ∷ xs) x e = cc

add_new_grows : (vs set : List Text) → length set ≤ length (add_new vs set)
unfolding add_new
add_new_grows [] set = omega arith
add_new_grows (v ∷ vs) set = ground (arith, add_new_grows vs set, add_new_grows vs (v ∷ set))

any_nonempty : (v : Text) (set : List Text) → any (same v) set ≡ true → 0 < length set
any_nonempty v [] h = cc
any_nonempty v (x ∷ set) h = omega arith

add_new_filled : (v : Text) (vs set : List Text) → 0 < length (add_new (v ∷ vs) set)
unfolding add_new
add_new_filled v vs set = elim (Bool-cases (any (same v) set)) [
  | inl e ↦ rw e (omega (arith, add_new_grows vs set, any_nonempty v set e))
  | inr e ↦ rw e (omega (arith, add_new_grows vs (v ∷ set)))
]

gather_grows :
    (f : ImageReference → List Text) (id : Text) (images : List ImageReference) (set : List Text)
    → length set ≤ length (gather f id images set)
unfolding gather
gather_grows f id [] set = omega arith
gather_grows f id (image ∷ images) set = ground (
  arith,
  gather_grows f id images set,
  gather_grows f id images (add_new (f image) set),
  add_new_grows (f image) set,
)

zero_below : (a b : ℕ) → b ≡ 0 → a ≤ b → a ≡ 0
zero_below a b h le = omega arith

is_nil : (vs set : List Text) → length (add_new vs set) ≡ 0 → vs ≡ []
is_nil [] set h = refl
is_nil (v ∷ vs) set h = absurd (omega (arith, add_new_filled v vs set))

-- An empty set means that no image with the identifier has an entry in the field.
gather_empty :
    (f : ImageReference → List Text) (id : Text) (images : List ImageReference) (set : List Text)
    → length (gather f id images set) ≡ 0
    → All (λ i. same i.id id ≡ true → f i ≡ []) images
unfolding gather
gather_empty f id [] set h = tt
gather_empty f id (image ∷ images) set h = elim (Bool-cases (same image.id id)) [
  | inl e ↦ (
    (λ q.
        is_nil (f image) set
          (zero_below _ _ (rw e at h) (gather_grows f id images (add_new (f image) set)))),
    gather_empty f id images (add_new (f image) set) (rw e at h),
  )
  | inr e ↦ ((λ q. cc), gather_empty f id images set (rw e at h))
]

gather_none :
    (f : ImageReference → List Text) (id : Text) (images : List ImageReference)
    → All (λ i. same i.id id ≡ true → f i ≡ []) images
    → gather f id images [] ≡ []
unfolding gather add_new
gather_none f id [] h = refl
gather_none f id (image ∷ images) (h, hs) = elim (Bool-cases (same image.id id)) [
  | inl e ↦ rw (e, h e) (gather_none f id images hs)
  | inr e ↦ rw e (gather_none f id images hs)
]

-- No container of the list has the image.
abbrev pub Unused : Text → List Container → Type 0
Unused id cs = All (λ c. same c.image_id id ≡ false) cs

users_none_left :
    (id : Text) (cs : List Container)
    → users (runs id) cs ≡ []
    → users (stops id) cs ≡ []
    → Unused id cs
unfolding users
users_none_left id [] r s = tt
users_none_left id (c ∷ cs) r s = ground (arith, users_none_left id cs)

users_none_right :
    (p : Container → Bool) (cs : List Container) → All (λ c. p c ≡ false) cs → users p cs ≡ []
unfolding users
users_none_right p [] h = refl
users_none_right p (c ∷ cs) (h, hs) = rw h (users_none_right p cs hs)

-- No file of the scan names the reference.
abbrev pub Unmentioned : Text → List DiscoveredProject → Type 0
Unmentioned ref ps = All (λ p. All (λ r. image_ref_equal ref r ≡ false) p.images) ps

map-filter_none :
    (name : Text) (p : Text → Bool) (rs : List Text)
    → map (λ r. name) (filter p rs) ≡ []
    → All (λ r. p r ≡ false) rs
unfolding filter
map-filter_none name p [] h = tt
map-filter_none name p (r ∷ rs) h = ground (arith, map-filter_none name p rs)

append_nil : {A : Type 0} (xs ys : List A) → xs ++ ys ≡ [] → (xs ≡ []) × (ys ≡ [])
append_nil [] ys h = (refl, h)
append_nil (x ∷ xs) ys h = cc

using_none :
    (ref : Text) (ps : List DiscoveredProject) → using_names ref ps ≡ [] → Unmentioned ref ps
unfolding using_names
using_none ref [] h = tt
using_none ref (p ∷ ps) h =
    let (here, later) =
      append_nil (map (λ r. p.name) (filter (image_ref_equal ref) p.images)) _ h in
    (map-filter_none p.name (image_ref_equal ref) p.images here, using_none ref ps later)

filter_none : (p : Text → Bool) (rs : List Text) → All (λ r. p r ≡ false) rs → filter p rs ≡ []
unfolding filter
filter_none p [] h = refl
filter_none p (r ∷ rs) (h, hs) = rw h (filter_none p rs hs)

Unmentioned-none :
    (ref : Text) (ps : List DiscoveredProject) → Unmentioned ref ps → using_names ref ps ≡ []
unfolding using_names
Unmentioned-none ref [] h = refl
Unmentioned-none ref (p ∷ ps) (h, hs) =
    rw (filter_none (image_ref_equal ref) p.images h) (Unmentioned-none ref ps hs)

-- What must hold of the containers and files that were read for an image to be deleted.
pub record IsDeletable (id : Text) (images : List ImageReference) (cs : List Container)
    (ps : List DiscoveredProject) : Type 0 where
  pub listed : any (λ i. same i.id id) images ≡ true
  pub unused : Unused id cs
  pub unmentioned : All (λ i. same i.id id ≡ true → Unmentioned (full_ref i) ps) images

-- Docker's list of images carries no references.
abbrev pub IsFresh : ImageReference → Type 0
IsFresh i = (i.running_references ≡ []) × (i.stopped_references ≡ []) × (i.compose_references ≡ [])

-- The three sets of DeleteImage are empty.
abbrev NoReferences : Text → List ImageReference → Type 0
NoReferences id es =
    (length (gather (λ i. i.running_references) id es []) ≡ 0)
    × (length (gather (λ i. i.stopped_references) id es []) ≡ 0)
    × (length (gather (λ i. i.compose_references) id es []) ≡ 0)

decide_deletion_iff :
    (demo : Bool) (id : Text) (es : List ImageReference)
    → (decide_deletion demo id (some es) ≡ delete)
      ↔ ((demo ≡ false) × (any (λ i. same i.id id) es ≡ true) × NoReferences id es)
unfolding decide_deletion
decide_deletion_iff demo id es = ground arith

Unused-runs : (id : Text) (cs : List Container) → Unused id cs → All (λ c. runs id c ≡ false) cs
Unused-runs id [] u = tt
Unused-runs id (c ∷ cs) (h, u) = (rw h, Unused-runs id cs u)

Unused-stops : (id : Text) (cs : List Container) → Unused id cs → All (λ c. stops id c ≡ false) cs
Unused-stops id [] u = tt
Unused-stops id (c ∷ cs) (h, u) = (rw h, Unused-stops id cs u)

module _ (statuses : Map UpdateStatus) (cs : List Container) (ps : List DiscoveredProject)
    (id : Text) where
  abbrev enriched : List ImageReference → List ImageReference
  enriched = map (enrich_image statuses cs ps)

  any-enriched :
      (images : List ImageReference)
      → any (λ i. same i.id id) (enriched images) ≡ any (λ i. same i.id id) images
  any-enriched [] = refl
  any-enriched (i ∷ images) =
      rw ((enrich_image_lem statuses cs ps i).0) (ap (λ b. same i.id id || b) (any-enriched images))

  -- One listed image without references frees the identifier.
  abbrev IsFree : ImageReference → Type 0
  IsFree i = Unused i.id cs × Unmentioned (full_ref i) ps

  IsFree-of_empty :
      (i : ImageReference)
      → IsFresh i
      → ((enrich_image statuses cs ps i).running_references ≡ [])
      → ((enrich_image statuses cs ps i).stopped_references ≡ [])
      → ((enrich_image statuses cs ps i).compose_references ≡ [])
      → IsFree i
  IsFree-of_empty i (r, s, c) r' s' c' =
      let e = enrich_image_lem statuses cs ps i in
      (
        users_none_left i.id cs (cc (e.1, r, r')) (cc (e.2, s, s')),
        using_none (full_ref i) ps (cc (e.3, c, c')),
      )

  empty_of_free :
      (i : ImageReference)
      → IsFresh i
      → IsFree i
      → ((enrich_image statuses cs ps i).running_references ≡ [])
        × ((enrich_image statuses cs ps i).stopped_references ≡ [])
        × ((enrich_image statuses cs ps i).compose_references ≡ [])
  empty_of_free i (r, s, c) (u, m) =
      let e = enrich_image_lem statuses cs ps i in
      (
        cc (e.1, r, users_none_right (runs i.id) cs (Unused-runs i.id cs u)),
        cc (e.2, s, users_none_right (stops i.id) cs (Unused-stops i.id cs u)),
        cc (e.3, c, Unmentioned-none (full_ref i) ps m),
      )

  -- What the empty sets say of the listed images.
  IsFree-images :
      (images : List ImageReference)
      → All IsFresh images
      → NoReferences id (enriched images)
      → All (λ i. same i.id id ≡ true → IsFree i) images
  IsFree-images images fresh (r, s, c) =
      free_each images fresh (gather_empty _ id (enriched images) [] r)
        (gather_empty _ id (enriched images) [] s) (gather_empty _ id (enriched images) [] c)
    where
      free_each :
          (is : List ImageReference)
          → All IsFresh is
          → All (λ i. same i.id id ≡ true → i.running_references ≡ []) (enriched is)
          → All (λ i. same i.id id ≡ true → i.stopped_references ≡ []) (enriched is)
          → All (λ i. same i.id id ≡ true → i.compose_references ≡ []) (enriched is)
          → All (λ i. same i.id id ≡ true → IsFree i) is
      free_each [] f r s c = tt
      free_each (i ∷ is) (f, fs) (r, rs) (s, ss) (c, cs') = (
        (λ q.
            let q' : same (enrich_image statuses cs ps i).id id ≡ true =
              rw ((enrich_image_lem statuses cs ps i).0) q in
            IsFree-of_empty i f (r q') (s q') (c q')),
        free_each is fs rs ss cs',
      )

  Unused-of_free :
      (images : List ImageReference)
      → any (λ i. same i.id id) images ≡ true
      → All (λ i. same i.id id ≡ true → IsFree i) images
      → Unused id cs
  Unused-of_free [] l h = cc
  Unused-of_free (i ∷ is) l (h, hs) = elim (Bool-cases (same i.id id)) [
    | inl e ↦ rw ((same_iff i.id id).0 e) at ((h e).0)
    | inr e ↦ Unused-of_free is (rw e at l) hs
  ]

  IsFree-of_deletable :
      (images : List ImageReference)
      → Unused id cs
      → All (λ i. same i.id id ≡ true → Unmentioned (full_ref i) ps) images
      → All (λ i. same i.id id ≡ true → IsFree i) images
  IsFree-of_deletable [] u h = tt
  IsFree-of_deletable (i ∷ is) u (h, hs) =
      ((λ q. (rw ((same_iff i.id id).0 q) u, h q)), IsFree-of_deletable is u hs)

  empty_field :
      (f : ImageReference → List Text) (images : List ImageReference)
      → All IsFresh images
      → ((i : ImageReference) → IsFresh i → IsFree i → f (enrich_image statuses cs ps i) ≡ [])
      → All (λ i. same i.id id ≡ true → IsFree i) images
      → All (λ i. same i.id id ≡ true → f i ≡ []) (enriched images)
  empty_field f [] fresh g h = tt
  empty_field f (i ∷ is) (k, ks) g (h, hs) =
      ((λ q. g i k (h (rw ((enrich_image_lem statuses cs ps i).0) at q))), empty_field f is ks g hs)

  no_references :
      (images : List ImageReference)
      → All IsFresh images
      → All (λ i. same i.id id ≡ true → IsFree i) images
      → NoReferences id (enriched images)
  no_references images fresh h = (
    ap length (
        gather_none (λ i. i.running_references) id _
          (empty_field _ images fresh (λ i k j. (empty_of_free i k j).0) h)),
    ap length (
        gather_none (λ i. i.stopped_references) id _
          (empty_field _ images fresh (λ i k j. (empty_of_free i k j).1) h)),
    ap length (
        gather_none (λ i. i.compose_references) id _
          (empty_field _ images fresh (λ i k j. (empty_of_free i k j).2) h)),
  )

  -- Outside the demonstration mode, with the images, the containers and the scan read, and no references
  -- in the images as they come from Docker, `DeleteImage` asks Docker to delete an image exactly when
  -- it is listed, no container, running or not, was made from it, and no scanned Compose file names any
  -- of its tags as repository:tag. A reference by digest does not count.
  pub delete_image_iff :
      (images : List ImageReference)
      → All IsFresh images
      → (delete_image false id statuses (some images) (some cs) (some ps) ≡ delete)
        ↔ IsDeletable id images cs ps
  unfolding delete_image list_images
  delete_image_iff images fresh = (
    (λ h.
        let (d, listed, empty) = (decide_deletion_iff false id (enriched images)).0 h in
        let here = rw (any-enriched images) at listed in
        let free = IsFree-images images fresh empty in
        record {
          listed = here;
          unused = Unused-of_free images here free;
          unmentioned = All-mono (λ i g q. (g q).1) images free;
        }),
    (λ v. (decide_deletion_iff false id (enriched images)).1 (
      refl,
      rw (any-enriched images) v.listed,
      no_references images fresh (IsFree-of_deletable images v.unused v.unmentioned),
    )),
  )

-- Without the containers, the scan or the image list, and in the demonstration mode, nothing is
-- deleted: an incomplete answer never counts as no reference.
pub delete_image_fails_closed :
    (demo : Bool) (id : Text) (statuses : Map UpdateStatus) (images : Option (List ImageReference))
    (containers : Option (List Container)) (projects : Option (List DiscoveredProject))
    → delete_image demo id statuses images containers projects ≡ delete
    → (demo ≡ false)
      × (is_none images ≡ false)
      × (is_none containers ≡ false)
      × (is_none projects ≡ false)
unfolding delete_image list_images decide_deletion
delete_image_fails_closed demo id statuses none containers projects h = cc
delete_image_fails_closed demo id statuses (some images) containers projects h = ground arith
