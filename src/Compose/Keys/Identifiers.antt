-- ===== src/Compose/Keys/Identifiers.antt =====
-- The keys that `normalizeProjectKey` of backend/internal/compose/discovery.go gives.

use compose_manager.Base.{◌||◌}
use compose_manager.Compose.Keys.{rest_of_rune}
use compose_manager.Base.{if_cases, ℕ}
use compose_manager.Base.{zero, suc, ◌≤◌, ◌≡◌, refl}
use compose_manager.Base.{◌∙◌, ◌⊎◌, inl, inr, Bool, true, false, ◌&&◌}
use compose_manager.Base.{[], ◌∷◌, ◌++◌, arith, ltb, leb, if◌then◌else◌, Bool-cases}
use compose_manager.Base.{and_true, and_intro, length, take, all}
use compose_manager.Base.{Text, codes, is_empty}
use compose_manager.Base.{trim_left, trim_right, trim_space, to_lower}
use mathlib.Core.List.{reverse, reverse-append, reverse-cons}
use compose_manager.Compose.Identifier.{is_identifier, is_alphanumeric, is_name_byte}
use compose_manager.Compose.Keys.{is_key_byte, is_edge, spelled, trim, normalize_project_key}

-- What is so of every byte of a text is so of every byte of a part of it.
all-append : (q : ℕ → Bool) (s t : Text) → all q (s ++ t) ≡ (all q s && all q t)
all-append q [] t = refl
all-append q (c ∷ s) t = ground (arith, all-append q s t)

all-reverse : (q : ℕ → Bool) (s : Text) → all q (reverse s) ≡ all q s
all-reverse q [] = refl
all-reverse q (c ∷ s) = rw (reverse-cons, all-append) (ground (arith, all-reverse q s))

all-trim_left : (p q : ℕ → Bool) (s : Text) → all q s ≡ true → all q (trim_left p s) ≡ true
unfolding trim_left
all-trim_left p q [] h = refl
all-trim_left p q (c ∷ s) h = ground (arith, all-trim_left p q s)

all-trim_right : (p q : ℕ → Bool) (s : Text) → all q s ≡ true → all q (trim_right p s) ≡ true
unfolding trim_right
all-trim_right p q s h =
    let turned : all q (trim_left p (reverse s)) ≡ true =
      all-trim_left p q (reverse s) (all-reverse q s ∙ h) in
    all-reverse q (trim_left p (reverse s)) ∙ turned

trim_left-end :
    (p : ℕ → Bool) (s : Text) (c : ℕ)
    → p c ≡ false
    → trim_left p (s ++ (c ∷ [])) ≡ trim_left p s ++ (c ∷ [])
unfolding trim_left
trim_left-end p [] c h = rw h refl
trim_left-end p (d ∷ s) c h = elim (Bool-cases (p d)) [
  | inl e ↦ rw e (trim_left-end p s c h)
  | inr e ↦ rw e refl
]

-- A byte in front that is not trimmed stays in front.
trim_right-front :
    (p : ℕ → Bool) (c : ℕ) (s : Text) → p c ≡ false → (t : Text) × (trim_right p (c ∷ s) ≡ c ∷ t)
unfolding trim_right
trim_right-front p c s h = (
  reverse (trim_left p (reverse s)),
  rw (reverse-cons, trim_left-end p (reverse s) c h, reverse-append) refl,
)

-- What is trimmed is empty, or begins with a byte that is not.
trim_left-cases :
    (p : ℕ → Bool) (s : Text)
    → (trim_left p s ≡ []) ⊎ ((c : ℕ) × (t : Text) × (p c ≡ false) × (trim_left p s ≡ c ∷ t))
unfolding trim_left
trim_left-cases p [] = inl refl
trim_left-cases p (c ∷ s) = elim (Bool-cases (p c)) [
  | inl e ↦ rw e (trim_left-cases p s)
  | inr e ↦ inr (c, s, e, rw e refl)
]

all-spelled :
    (begun : Bool) (skipped : ℕ) (s : Text) → all is_key_byte (spelled begun skipped s) ≡ true
unfolding spelled
all-spelled begun skipped [] = refl
all-spelled begun (suc skipped) (c ∷ s) = all-spelled begun skipped s
all-spelled begun zero (c ∷ s) =
    let held = all-spelled (begun || is_key_byte c) (rest_of_rune c s) s in
    let rest = spelled (begun || is_key_byte c) (rest_of_rune c s) s in
    if_cases (λ (t : Text). all is_key_byte t ≡ true) (is_key_byte c) (c ∷ rest)
      (if begun then b'-' ∷ rest else rest)
      (λ e. and_intro (is_key_byte c) (all is_key_byte rest) e held)
      (λ e.
        if_cases (λ (t : Text). all is_key_byte t ≡ true) begun (b'-' ∷ rest) rest (λ f. held)
          (λ f. held))

-- A text that begins with a letter or a digit and holds bytes of names alone.
record IsNamed (s : Text) : Type 0 where
  first : ℕ
  rest : Text
  shape : s ≡ first ∷ rest
  begins : is_alphanumeric first ≡ true
  holds : all is_name_byte rest ≡ true

all-key_name : (s : Text) → all is_key_byte s ≡ true → all is_name_byte s ≡ true
all-key_name [] h = refl
all-key_name (c ∷ s) h =
    let (here, later) = and_true (is_key_byte c) (all is_key_byte s) h in
    and_intro (is_name_byte c) (all is_name_byte s) (ground (arith, here)) (all-key_name s later)

key_first : (c : ℕ) → is_key_byte c ≡ true → is_edge c ≡ false → is_alphanumeric c ≡ true
key_first c h e = ground (arith, h, e)

trim-IsNamed :
    (s : Text) → all is_key_byte s ≡ true → (trim is_edge s ≡ []) ⊎ IsNamed (trim is_edge s)
unfolding trim trim_right
trim-IsNamed s h = elim (trim_left-cases is_edge s) [
  | inl e ↦ inl (rw e refl)
  | inr (c, t, front, e) ↦
      (let (u, shape) = trim_right-front is_edge c t front in
        let whole : trim_right is_edge (trim_left is_edge s) ≡ c ∷ u = rw e shape in
        let kept : all is_key_byte (trim_right is_edge (trim_left is_edge s)) ≡ true =
          all-trim_right is_edge is_key_byte (trim_left is_edge s)
            (all-trim_left is_edge is_key_byte s h) in
        let (here, later) = and_true (is_key_byte c) (all is_key_byte u) (rw whole at kept) in
        inr (record {
          first = c;
          rest = u;
          shape = whole;
          begins = key_first c here front;
          holds = all-key_name u later;
        }))
]

all-take : (q : ℕ → Bool) (n : ℕ) (s : Text) → all q s ≡ true → all q (take n s) ≡ true
all-take q zero s h = refl
all-take q (suc n) [] h = refl
all-take q (suc n) (c ∷ s) h =
    let (here, later) = and_true (q c) (all q s) h in
    and_intro (q c) (all q (take n s)) here (all-take q n s later)

length-take_le : (n : ℕ) (s : Text) → length (take n s) ≤ n
length-take_le zero s = omega arith
length-take_le (suc n) [] = omega arith
length-take_le (suc n) (c ∷ s) = omega (arith, length-take_le n s)

is_identifier_of :
    (c : ℕ) (s : Text)
    → is_alphanumeric c ≡ true
    → all is_name_byte s ≡ true
    → length s ≤ 127
    → is_identifier (c ∷ s) ≡ true
unfolding is_identifier
is_identifier_of c s a n short =
    let fits : leb (length s) 127 ≡ true = ground (arith, short) in
    and_intro (is_alphanumeric c) (all is_name_byte s && leb (length s) 127) a
      (and_intro (all is_name_byte s) (leb (length s) 127) n fits)

capped_identifier :
    (key : Text)
    → IsNamed key
    → is_identifier (if ltb 128 (length key) then take 128 key else key) ≡ true
capped_identifier key named = rw named.shape (
    if_cases (λ (k : Text). is_identifier k ≡ true) (ltb 128 (suc (length named.rest)))
      (take 128 (named.first ∷ named.rest)) (named.first ∷ named.rest)
      (λ e.
        is_identifier_of named.first (take 127 named.rest) named.begins
          (all-take is_name_byte 127 named.rest named.holds) (length-take_le 127 named.rest))
      (λ e. is_identifier_of named.first named.rest named.begins named.holds (ground (arith, e))))

hashed-IsNamed :
    (digest : Text) → all is_name_byte digest ≡ true → IsNamed (codes "project-" ++ digest)
hashed-IsNamed digest h = record {
  first = b'p';
  rest = codes "roject-" ++ digest;
  shape = refl;
  begins = refl;
  holds = rw h refl;
}

-- The key that a name is given is an identifier, as the runner asks of a project, whatever the name,
-- if the digest holds only bytes that names may hold.
pub normalize_project_key-is_identifier :
    (digest : Text → Text) (name : Text)
    → ((text : Text) → all is_name_byte (digest text) ≡ true)
    → is_identifier (normalize_project_key digest name) ≡ true
unfolding normalize_project_key
normalize_project_key-is_identifier digest name hexadecimal =
    let lowered = to_lower (trim_space name) in
    elim (trim-IsNamed (spelled false 0 lowered) (all-spelled false 0 lowered)) [
      | inl e ↦ rw e (
          capped_identifier (codes "project-" ++ digest lowered)
            (hashed-IsNamed (digest lowered) (hexadecimal lowered)))
      | inr named ↦
          (let full : is_empty (trim is_edge (spelled false 0 lowered)) ≡ false =
              rw named.shape refl in
            rw full (capped_identifier (trim is_edge (spelled false 0 lowered)) named))
    ]
