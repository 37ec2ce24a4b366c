-- ===== src/Profile/Targets/Disjoint.antt =====
-- src/domain/profile.ts: claims among which `validateResourcePathConflicts` finds no conflict.
use mathlib.Core.List.{Memᴰ}
use codexport.Base.{
  true, false, ◌≡◌, ◌≢◌, refl, sym, ap, ◌∙◌, inl, inr, String, List, [], ◌∷◌, ◌++◌, map, Option,
  none, some, arith, All, All_at, string_eq, eq_iff, Bool-cases, subst, or_else, map_get,
  if◌then◌else◌,
}
use codexport.Base.Order.{mem-sort_of_mem}
use codexport.Domain.{Platform}
use codexport.Profile.Paths.{TextEnv, normalized_target_path}
use codexport.Profile.Targets.{
  PathResource, PathError, EntryClaim, TargetClaim, overlaps, foreign_conflict, conflict_of,
  push_error, compare_with, compare_all, claim_lt, all_claims, collect_claims, ordered_resources,
  claims_of, sorted_claims, validate_path_conflicts, root_claim, entry_claim, is_filesystem_kind,
}

push_error-nil :
    (errors : List PathError) (e : Option PathError)
    → push_error errors e ≡ []
    → (errors ≡ []) × (e ≡ none)
push_error-nil [] none h = (refl, refl)
push_error-nil (x ∷ errors) none h = cc
push_error-nil [] (some e) h = cc
push_error-nil (x ∷ errors) (some e) h = cc

compare_with-nil :
    (claim : TargetClaim) (errors : List PathError) (others : List TargetClaim)
    → compare_with claim errors others ≡ []
    → (errors ≡ []) × All (λ other. conflict_of [] claim other ≡ none) others
unfolding compare_with
compare_with-nil claim errors [] h = (h, tt)
compare_with-nil claim errors (other ∷ others) h =
    let (pushed, rest) =
      compare_with-nil claim (push_error errors (conflict_of errors claim other)) others h in
    let (empty, fine) = push_error-nil errors (conflict_of errors claim other) pushed in
    (empty, (subst (λ e. conflict_of e claim other ≡ none) empty fine, rest))

-- No claim conflicts with a later one.
abbrev IsCompatible : List TargetClaim → Type 0
IsCompatible [] = Unit
IsCompatible (claim ∷ claims) =
    All (λ other. conflict_of [] claim other ≡ none) claims × IsCompatible claims

compare_all-nil :
    (errors : List PathError) (claims : List TargetClaim)
    → compare_all errors claims ≡ []
    → (errors ≡ []) × IsCompatible claims
unfolding compare_all
compare_all-nil errors [] h = (h, tt)
compare_all-nil errors (claim ∷ claims) h =
    let (compared, rest) = compare_all-nil (compare_with claim errors claims) claims h in
    let (empty, fine) = compare_with-nil claim errors claims compared in (empty, (fine, rest))

overlaps_comm : (a b : String) → overlaps a b ≡ overlaps b a
unfolding overlaps
overlaps_comm a b = ground (arith, eq_iff a b, eq_iff b a)

foreign-disjoint :
    (claim other : TargetClaim)
    → conflict_of [] claim other ≡ none
    → claim.resource.id ≢ other.resource.id
    → overlaps claim.path other.path ≡ false
unfolding conflict_of foreign_conflict
foreign-disjoint claim other h n = ground (arith, eq_iff claim.resource.id other.resource.id, h, n)

IsCompatible-disjoint :
    (claims : List TargetClaim) {a b : TargetClaim}
    → IsCompatible claims
    → Memᴰ a claims
    → Memᴰ b claims
    → a.resource.id ≢ b.resource.id
    → overlaps a.path b.path ≡ false
IsCompatible-disjoint [] c m k n = elim m [ ]
IsCompatible-disjoint (x ∷ claims) {a} {b} c (Memᴰ.head p) (Memᴰ.head q) n =
    absurd (n (ap (λ (y : TargetClaim). y.resource.id) (p ∙ sym q)))
IsCompatible-disjoint (x ∷ claims) {a} {b} c (Memᴰ.head p) (Memᴰ.tail k) n =
    foreign-disjoint a b
      (subst (λ y. conflict_of [] y b ≡ none) (sym p)
        (All_at (λ other. conflict_of [] x other ≡ none) claims c.0 k))
      n
IsCompatible-disjoint (x ∷ claims) {a} {b} c (Memᴰ.tail m) (Memᴰ.head q) n =
    overlaps_comm a.path b.path
    ∙ foreign-disjoint b a
        (subst (λ y. conflict_of [] y a ≡ none) (sym q)
          (All_at (λ other. conflict_of [] x other ≡ none) claims c.0 m))
        (λ e. n (sym e))
IsCompatible-disjoint (x ∷ claims) c (Memᴰ.tail m) (Memᴰ.tail k) n =
    IsCompatible-disjoint claims c.1 m k n

-- The target of each resource of the file system is claimed.
mem-root_claim :
    (env : TextEnv) (platform : Platform) (by_resource : List (String × List EntryClaim))
    (resources : List PathResource) {r : PathResource}
    → Memᴰ r resources
    → is_filesystem_kind r.kind ≡ true
    → Memᴰ (root_claim env platform r) (all_claims env platform by_resource resources)
unfolding all_claims
mem-root_claim env platform by_resource [] m k = elim m [ ]
mem-root_claim env platform by_resource (x ∷ resources) {r} (Memᴰ.head p) k =
    subst
      (λ y. Memᴰ (root_claim env platform r) (
        if y
        then (root_claim env platform x
            ∷ map (entry_claim env platform x) (or_else (map_get x.id by_resource) []))
          ++ all_claims env platform by_resource resources
        else all_claims env platform by_resource resources))
      (sym (ap (λ (y : PathResource). is_filesystem_kind y.kind) (sym p) ∙ k))
      (Memᴰ.head (ap (root_claim env platform) p))
mem-root_claim env platform by_resource (x ∷ resources) {r} (Memᴰ.tail m) k =
    elim (Bool-cases (is_filesystem_kind x.kind)) [
      | inr other ↦ rw other (mem-root_claim env platform by_resource resources m k)
      | inl claimed ↦ rw claimed (
          behind
            (root_claim env platform x
              ∷ map (entry_claim env platform x) (or_else (map_get x.id by_resource) []))
            (mem-root_claim env platform by_resource resources m k))
    ]
  where
    behind :
        (front : List TargetClaim) {back : List TargetClaim} {c : TargetClaim}
        → Memᴰ c back
        → Memᴰ c (front ++ back)
    behind [] n = n
    behind (y ∷ front) n = Memᴰ.tail (behind front n)

-- Where the validation of paths finds no error, the claims of two resources never overlap: they
-- differ as normalized texts, and neither begins with the other and a slash.
pub validate_path_conflicts-disjoint :
    (env : TextEnv) (platform : Platform) (resources : List PathResource) (a b : TargetClaim)
    → validate_path_conflicts env platform resources ≡ []
    → Memᴰ a (claims_of env platform resources)
    → Memᴰ b (claims_of env platform resources)
    → a.resource.id ≢ b.resource.id
    → overlaps a.path b.path ≡ false
unfolding validate_path_conflicts sorted_claims
validate_path_conflicts-disjoint env platform resources a b h m k n =
    IsCompatible-disjoint (sorted_claims env platform resources)
      (compare_all-nil
        (collect_claims env platform (ordered_resources env platform resources) [] []).0
        (sorted_claims env platform resources) h).1
      (mem-sort_of_mem claim_lt _ m) (mem-sort_of_mem claim_lt _ k) n

-- Where the validation of paths finds no error, the targets of two resources of the file system
-- never overlap: they differ as normalized texts, and neither begins with the other and a slash.
pub targets-disjoint :
    (env : TextEnv) (platform : Platform) (resources : List PathResource) (r s : PathResource)
    → validate_path_conflicts env platform resources ≡ []
    → Memᴰ r resources
    → Memᴰ s resources
    → is_filesystem_kind r.kind ≡ true
    → is_filesystem_kind s.kind ≡ true
    → r.id ≢ s.id
    → overlaps
        (normalized_target_path env r.target platform)
        (normalized_target_path env s.target platform)
      ≡ false
unfolding claims_of ordered_resources root_claim
targets-disjoint env platform resources r s h m k f g n =
    validate_path_conflicts-disjoint env platform resources (root_claim env platform r)
      (root_claim env platform s) h
      (mem-root_claim env platform _ _ (mem-sort_of_mem _ resources m) f)
      (mem-root_claim env platform _ _ (mem-sort_of_mem _ resources k) g) n
