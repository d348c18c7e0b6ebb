-- ===== src/Compose/Editor/Temporary.antt =====
-- The temporary files of backend/internal/compose/editor.go.

use compose_manager.Base.{Outcome, done, error}
use compose_manager.Base.{if_cases}
use compose_manager.Base.{◌≡◌, refl}
use compose_manager.Base.{◌≢◌, ◌⊎◌, inl, inr, Bool, false}
use compose_manager.Base.{some, []}
use compose_manager.Base.{Text, same, same_refl}
use compose_manager.Base.{Map}
use compose_manager.Base.{lookup, insert, remove, lookup-insert, lookup-remove}
use compose_manager.Compose.Guard.{Result, ok, err}
use compose_manager.Compose.Editor.{
  Archive, Site, EditError, with_temp, replaced, validate, validate_resolved, put_file, remove_file,
  temp_failed, replace_failed, invalid_document,
}

abbrev pub Files : Type 0
Files = Map Text

lookup-passing :
    (temp j content : Text) (m : Files)
    → same temp j ≡ false
    → lookup j (remove temp (insert temp content m)) ≡ lookup j m
lookup-passing temp j content m other =
    rw (lookup-remove temp j _, other, lookup-insert temp j content m, other) refl

-- What a step leaves of the file at a path, and of the versions.
pub record IsKept (j : Text) (a a' : Archive) : Type 0 where
  pub file : lookup j a'.files ≡ lookup j a.files
  pub versions : a'.versions ≡ a.versions
  pub next_version : a'.next_version ≡ a.next_version

pub IsKept-refl : (j : Text) (a : Archive) → IsKept j a a
IsKept-refl j a = record { file = refl; versions = refl; next_version = refl }

IsKept-passing :
    (temp j content : Text) (a : Archive)
    → same temp j ≡ false
    → IsKept j a (remove_file temp (put_file temp content a))
IsKept-passing temp j content a other = record {
  file = lookup-passing temp j content a.files other;
  versions = refl;
  next_version = refl;
}

with_temp-IsKept :
    {A : Type 0} (creating filling : Bool) (temp j content : Text) (verdict : Outcome EditError A)
    (a : Archive)
    → same temp j ≡ false
    → IsKept j a (with_temp creating filling temp content verdict a).1
with_temp-IsKept {A = A} creating filling temp j content verdict a other =
    if_cases (λ (x : Outcome EditError A × Archive). IsKept j a x.1) creating (error temp_failed, a)
      _ (λ e. IsKept-refl j a)
      (λ e.
        if_cases (λ (x : Outcome EditError A × Archive). IsKept j a x.1) filling _ _
          (λ f. IsKept-passing temp j [] a other) (λ f. IsKept-passing temp j content a other))

validate_resolved-IsKept :
    (e : Site) (key j content : Text) (a : Archive) (o : Result Text)
    → same e.candidate j ≡ false
    → IsKept j a (validate_resolved e key content a o).1
unfolding validate_resolved
validate_resolved-IsKept e key j content a (err x) other = IsKept-refl j a
validate_resolved-IsKept e key j content a (ok resolved) other =
    if_cases (λ (x : Outcome EditError (Unit {0}) × Archive). IsKept j a x.1)
      (e.document_valid content) _ (error invalid_document, a)
      (λ v.
        with_temp-IsKept e.faults.candidate_create e.faults.candidate_fill e.candidate j content _ a
          other)
      (λ v. IsKept-refl j a)

pub validate-IsKept :
    (e : Site) (key path j content : Text) (a : Archive)
    → same e.candidate j ≡ false
    → IsKept j a (validate e key path content a).1
unfolding validate
validate-IsKept e key path j content a other = validate_resolved-IsKept e key j content a _ other

lookup-renamed :
    (path j temp content : Text) (m : Files)
    → same temp j ≡ false
    → (same path j ≡ false) ⊎ (◌≢◌ {A = Outcome EditError (Unit {0})} (done tt) (done tt))
    → lookup j (insert path content (remove temp (insert temp content m))) ≡ lookup j m
lookup-renamed path j temp content m other (inl d) =
    rw (lookup-insert path j content _, d) (lookup-passing temp j content m other)
lookup-renamed path j temp content m other (inr n) = elim (n refl) [ ]

-- The rename puts the content at the path, or the file there stays.
pub replaced-done :
    (e : Site) (path content : Text) (a : Archive)
    → (replaced e path content a).0 ≡ done tt
    → lookup path (replaced e path content a).1.files ≡ some content
unfolding replaced
replaced-done e path content a =
    if_cases
      (λ (x : Outcome EditError (Unit {0}) × Archive).
        x.0 ≡ done tt → lookup path x.1.files ≡ some content)
      e.faults.saving_create (error temp_failed, a) _ (λ f q. cc)
      (λ f.
        if_cases
          (λ (x : Outcome EditError (Unit {0}) × Archive).
            x.0 ≡ done tt → lookup path x.1.files ≡ some content)
          e.faults.saving_fill (error temp_failed, remove_file e.saving (put_file e.saving [] a)) _
          (λ g q. cc)
          (λ g.
            if_cases
              (λ (x : Outcome EditError (Unit {0}) × Archive).
                x.0 ≡ done tt → lookup path x.1.files ≡ some content)
              e.faults.replace
              (error replace_failed, remove_file e.saving (put_file e.saving content a)) _
              (λ k q. cc) (λ k q. rw (lookup-insert path path content _, same_refl path) refl)))

pub replaced-IsKept :
    (e : Site) (path j content : Text) (a : Archive)
    → same e.saving j ≡ false
    → (same path j ≡ false) ⊎ ((replaced e path content a).0 ≢ done tt)
    → IsKept j a (replaced e path content a).1
unfolding replaced
replaced-IsKept e path j content a other =
    if_cases
      (λ (x : Outcome EditError (Unit {0}) × Archive).
        (same path j ≡ false) ⊎ (x.0 ≢ done tt) → IsKept j a x.1)
      e.faults.saving_create (error temp_failed, a) _ (λ f q. IsKept-refl j a)
      (λ f.
        if_cases
          (λ (x : Outcome EditError (Unit {0}) × Archive).
            (same path j ≡ false) ⊎ (x.0 ≢ done tt) → IsKept j a x.1)
          e.faults.saving_fill _ _ (λ g q. IsKept-passing e.saving j [] a other)
          (λ g.
            if_cases
              (λ (x : Outcome EditError (Unit {0}) × Archive).
                (same path j ≡ false) ⊎ (x.0 ≢ done tt) → IsKept j a x.1)
              e.faults.replace _ _ (λ k q. IsKept-passing e.saving j content a other)
              (λ k q. record {
                file = lookup-renamed path j e.saving content a.files other q;
                versions = refl;
                next_version = refl;
              })))
