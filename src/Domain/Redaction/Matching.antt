-- ===== src/Domain/Redaction/Matching.antt =====
-- `_is_sensitive` of domain/redaction.py against substrings.
use offboarding_orchestrator.Prelude.{
  ℕ, String, true, ◌≡◌, refl, ap, ◌↔◌, inl, inr, List, [], ◌∷◌, ◌++◌, arith, Bool-cases, Listed,
  any_sound, any_complete,
}
use offboarding_orchestrator.Domain.Redaction.{
  sensitive_key_markers, codes, lower, starts_with, contains, is_sensitive,
}

starts_with_sound : (m cs : List ℕ) → starts_with m cs ≡ true → (ys : List ℕ) × (cs ≡ m ++ ys)
unfolding starts_with
starts_with_sound [] cs h = (cs, refl)
starts_with_sound (m ∷ ms) [] h = absurd (cc)
starts_with_sound (m ∷ ms) (c ∷ cs) h =
    let (ys, e) = starts_with_sound ms cs (ground arith) in (ys, ground arith)

starts_with_append : (m ys : List ℕ) → starts_with m (m ++ ys) ≡ true
unfolding starts_with
starts_with_append [] ys = refl
starts_with_append (m ∷ ms) ys = ground (arith, starts_with_append ms ys)

contains_sound :
    (m cs : List ℕ) → contains m cs ≡ true → (xs : List ℕ) × (ys : List ℕ) × (cs ≡ xs ++ (m ++ ys))
unfolding contains
contains_sound m [] h = let (ys, e) = starts_with_sound m [] h in ([], ys, e)
contains_sound m (c ∷ cs) h = elim (Bool-cases (starts_with m (c ∷ cs))) [
  | inl here ↦ let (ys, e) = starts_with_sound m (c ∷ cs) here in ([], ys, e)
  | inr later ↦
      let (xs, ys, e) = contains_sound m cs (rw later at h) in (c ∷ xs, ys, ap (λ l. c ∷ l) e)
]

contains-eq-starts_with : (m cs : List ℕ) → starts_with m cs ≡ true → contains m cs ≡ true
unfolding contains
contains-eq-starts_with m [] h = h
contains-eq-starts_with m (c ∷ cs) h = rw h

contains_complete : (m xs ys : List ℕ) → contains m (xs ++ (m ++ ys)) ≡ true
unfolding contains
contains_complete m [] ys = contains-eq-starts_with m (m ++ ys) (starts_with_append m ys)
contains_complete m (x ∷ xs) ys = ground (arith, contains_complete m xs ys)

-- `marker in text`: the marker stands somewhere in the text.
abbrev pub IsIn : List ℕ → List ℕ → Type 0
IsIn m cs = (xs : List ℕ) × (ys : List ℕ) × (cs ≡ xs ++ (m ++ ys))

IsIn-contains : (m cs : List ℕ) → IsIn m cs → contains m cs ≡ true
IsIn-contains m cs (xs, ys, e) = rw e (contains_complete m xs ys)

-- A key is sensitive exactly when some marker is a substring of the key in lower case.
pub is_sensitive_iff :
    (key : String)
    → (is_sensitive key ≡ true) ↔ (
        (marker : String) × Listed marker sensitive_key_markers
        × IsIn (codes marker) (lower (codes key)))
unfolding is_sensitive
is_sensitive_iff key = (
  λ h.
      let (m, l, found) =
        any_sound (λ (marker : String). contains (codes marker) (lower (codes key)))
          sensitive_key_markers h in
      (m, l, contains_sound (codes m) (lower (codes key)) found),
  λ (m, l, found).
      any_complete (λ marker. contains (codes marker) (lower (codes key))) m l
        (IsIn-contains (codes m) (lower (codes key)) found),
)
