-- ===== src/Dispatcher/Patterns.antt =====
-- patternMatches of es/dispatcher.go against its description.
use go_es_light.Base.{
  ◌≡◌, ◌↔◌, ◌⊎◌, inl, inr, refl, true, Option, none, some, [], ◌∷◌, ◌++◌, ◌==◌, nat_eq, list_eq,
  list_beq_iff, Bytes, arith, Bool-cases, Option-cases,
}
use go_es_light.Dispatcher.{cut_star, has_prefix, prefix_matches, pattern_matches}

cut_star-append : (p : Bytes) → cut_star (p ++ 42 ∷ []) ≡ some p
unfolding cut_star
cut_star-append [] = refl
cut_star-append (c ∷ []) = refl
cut_star-append (c ∷ d ∷ p) = rw (cut_star-append (d ∷ p))

cut_star-eq-some : (cs p : Bytes) → cut_star cs ≡ some p → cs ≡ p ++ 42 ∷ []
unfolding cut_star
cut_star-eq-some [] p h = cc
cut_star-eq-some (c ∷ []) p h = ground arith
cut_star-eq-some (c ∷ d ∷ cs) p h = elim (Option-cases (cut_star (d ∷ cs))) [
  | inl e ↦ ground arith
  | inr (q, e) ↦ ground (arith, cut_star-eq-some (d ∷ cs) q e)
]

has_prefix-append : (p rest : Bytes) → has_prefix (p ++ rest) p ≡ true
unfolding has_prefix
has_prefix-append [] rest = ground arith
has_prefix-append (c ∷ p) rest = ground (arith, has_prefix-append p rest)

has_prefix-eq-true :
    (name p : Bytes) → has_prefix name p ≡ true → (rest : Bytes) × (name ≡ p ++ rest)
unfolding has_prefix
has_prefix-eq-true name [] h = (name, refl)
has_prefix-eq-true [] (c ∷ p) h = cc
has_prefix-eq-true (n ∷ name) (c ∷ p) h =
    let (rest, e) = has_prefix-eq-true name p (ground arith) in (rest, ground arith)

abbrev IsPatternOf : Bytes → Bytes → Type 0
IsPatternOf p name =
    (p ≡ name)
    ⊎ ((start : Bytes) × (rest : Bytes) × (p ≡ start ++ 42 ∷ []) × (name ≡ start ++ rest))

prefix_split :
    (p name : Bytes) (o : Option Bytes)
    → cut_star p ≡ o
    → prefix_matches o name ≡ true
    → IsPatternOf p name
prefix_split p name none e h = cc
prefix_split p name (some start) e h =
    let (rest, f) = has_prefix-eq-true name start h in
    inr (start, rest, cut_star-eq-some p start e, f)

matches_split : (p name : Bytes) → pattern_matches p name ≡ true → IsPatternOf p name
unfolding pattern_matches
matches_split p name h = elim (Bool-cases (p == name)) [
  | inl same ↦ inl ((list_beq_iff p name).0 same)
  | inr other ↦ prefix_split p name (cut_star p) refl (rw other at h)
]

matches_join : (p name : Bytes) → IsPatternOf p name → pattern_matches p name ≡ true
unfolding pattern_matches
matches_join p name (inl same) = rw ((list_beq_iff p name).1 same)
matches_join p name (inr (start, rest, e, f)) =
    let found : prefix_matches (cut_star p) name ≡ true =
      rw (e, f, cut_star-append start) (has_prefix-append start rest) in
    ground (arith, found)

-- A pattern matches a name exactly if it is that name, or is some prefix of it followed by a star.
pub pattern_matches_iff :
    (p name : Bytes)
    → (pattern_matches p name ≡ true) ↔ (
        (p ≡ name)
        ⊎ ((start : Bytes) × (rest : Bytes) × (p ≡ start ++ 42 ∷ []) × (name ≡ start ++ rest)))
unfolding pattern_matches
pattern_matches_iff p name = (matches_split p name, matches_join p name)
