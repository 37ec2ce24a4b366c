-- ===== src/Plans/Merge/Mirror.antt =====
-- Which entries a mirror adds and removes.
use codexport.Base.{
  Bool, true, false, ◌≡◌, refl, String, List, [], ◌∷◌, some, inl, inr, arith, Option-cases,
  contains, filter, mem_of_mem-filter, mem_of_mem-map, mem_of_map_from, ap, ◌∙◌, string_eq, map_get,
  map_from, map, eq_iff, option_beq_iff,
}
use codexport.Base.Order.{contains-sort-map_iff}
use mathlib.Core.List.{Memᴰ}
use codexport.Domain.{PlanningContext, FileEntry, directory_object, object_kind_eq}
use codexport.Plans.Env.{PlanEnv, no_op_draft}
use codexport.Plans.Merge.Keys.{contains_of_is_empty}
use codexport.Plans.Entries.{file_signature, relative_path_ancestors}
use codexport.Plans.Matching.{signatures_by_path}
use codexport.Plans.Replace.{observed_entries, is_foreign, is_missing}
use codexport.Plans.Merge.{
  plan_mirror, is_empty, mirror_entries, mirror_paths, owned_entries_of, is_owned_unchanged,
  mirror_adds, mirror_removes,
}

-- Why a mirror may remove an observed entry.
pub record IsRemovable (env : PlanEnv) (c : PlanningContext) (path : String) : Type 0 where
  pub entry : FileEntry
  pub owned : FileEntry
  pub observed : Memᴰ entry (observed_entries c.observed)
  pub at_path : entry.path ≡ path
  pub not_wanted : contains path (mirror_paths env c) ≡ false
  pub not_needed :
      entry.object_kind ≡ some directory_object
      → contains path (relative_path_ancestors (mirror_paths env c)) ≡ false
  pub is_owned : Memᴰ owned (owned_entries_of c)
  pub owned_path : owned.path ≡ path
  pub unchanged : file_signature owned ≡ file_signature entry

module _ (env : PlanEnv) (c : PlanningContext) where
  foreign_lem :
      (f : FileEntry)
      → is_foreign (mirror_paths env c) f ≡ true
      → (contains f.path (mirror_paths env c) ≡ false)
        × (f.object_kind ≡ some directory_object
            → contains f.path (relative_path_ancestors (mirror_paths env c)) ≡ false)
  unfolding is_foreign
  foreign_lem f h = ground (arith, option_beq_iff f.object_kind (some directory_object))

  owned_lem :
      (f : FileEntry) (owned : List FileEntry)
      → is_owned_unchanged owned f ≡ true
      → (o : FileEntry) × Memᴰ o owned × (o.path ≡ f.path) × (file_signature o ≡ file_signature f)
  unfolding is_owned_unchanged map_get
  owned_lem f owned h =
      elim (Option-cases
        (map_get f.path (map_from [] (map (λ (o : FileEntry). (o.path, o)) owned)))) [
          | inl nothing ↦ absurd (ground arith)
          | inr (o, found) ↦
              elim (mem_of_map_from f.path [] (map (λ (o : FileEntry). (o.path, o)) owned) found) [
                | inl none_there ↦ absurd (cc)
                | inr m ↦
                    let (o', m', e) = mem_of_mem-map (λ (o : FileEntry). (o.path, o)) owned m in
                    (
                      o',
                      m',
                      ap (λ (x : String × FileEntry). x.0) e,
                      rw (ap (λ (x : String × FileEntry). x.1) e)
                          (ground (arith, eq_iff (file_signature o) (file_signature f))),
                    )
              ]
        ]

  -- A mirror removes only observed entries that are owned with the signature that was applied, at
  -- a path that is not wanted, and, if a directory, above no wanted path.
  pub mirror_removes-IsRemovable :
      (path : String) → contains path (mirror_removes env c) ≡ true → IsRemovable env c path
  unfolding mirror_removes
  mirror_removes-IsRemovable path h =
      let (f, m, unchanged, at_path) =
        (contains-sort-map_iff (λ (f : FileEntry). f.path) (is_owned_unchanged (owned_entries_of c))
            path (filter (is_foreign (mirror_paths env c)) (observed_entries c.observed))).0
          h in
      let (observed, foreign) =
        mem_of_mem-filter (is_foreign (mirror_paths env c)) (observed_entries c.observed) m in
      let (not_wanted, not_needed) = foreign_lem f foreign in
      let (o, is_owned, owned_path, same) = owned_lem f (owned_entries_of c) unchanged in
      record {
        entry = f;
        owned = o;
        observed = observed;
        at_path = at_path;
        not_wanted = rw (← at_path) not_wanted;
        not_needed = rw (← at_path) not_needed;
        is_owned = is_owned;
        owned_path = owned_path ∙ at_path;
        unchanged = same;
      }

  missing_lem :
      (f : FileEntry)
      → is_missing (observed_entries c.observed) f ≡ false
      → map_get f.path (signatures_by_path (observed_entries c.observed)) ≡ some (file_signature f)
  unfolding is_missing
  missing_lem f h = ground (
    arith,
    option_beq_iff (map_get f.path (signatures_by_path (observed_entries c.observed)))
        (some (file_signature f)),
  )

  -- A mirror that plans nothing has found every wanted entry, with its signature.
  pub mirror_no_op-converged :
      (f : FileEntry)
      → plan_mirror env c ≡ no_op_draft ∷ []
      → Memᴰ f (mirror_entries env c)
      → map_get f.path (signatures_by_path (observed_entries c.observed)) ≡ some (file_signature f)
  mirror_no_op-converged f h m =
      missing_lem f (found (is_missing (observed_entries c.observed) f) refl)
    where
      added :
          is_missing (observed_entries c.observed) f ≡ true
          → contains f.path (mirror_adds env c) ≡ true
      added lost =
          unfold mirror_adds in
          (contains-sort-map_iff (λ (f : FileEntry). f.path)
              (is_missing (observed_entries c.observed)) f.path (mirror_entries env c)).1
            (f, m, lost, refl)

      nothing_added : is_empty (mirror_adds env c) ≡ true
      nothing_added = unfold plan_mirror no_op_draft in ground arith

      found :
          (b : Bool)
          → is_missing (observed_entries c.observed) f ≡ b
          → is_missing (observed_entries c.observed) f ≡ false
      found false e = e
      found true e =
          absurd (
            ground (arith, contains_of_is_empty f.path (mirror_adds env c), added e, nothing_added))
