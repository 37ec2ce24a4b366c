-- ===== src/Planner/Index/Unique.antt =====
-- planner.ts: repeated identifiers in `indexUnique`.
use codexport.Base.{
  true, false, ◌≡◌, refl, ◌↔◌, inl, inr, String, [], ◌∷◌, ◌++◌, arith, keys, contains, IsSetList,
  IsSetList-concat, string_eq, map_set, eq_iff, Bool-cases, subst, sym, ◌∙◌, ◌==◌,
}
use codexport.Planner.Data.{TextMap, ok}
use codexport.Planner.Index.{index_unique, index_from}

module _ {V : Type 0} where
  keys-concat : (id : String) (v : V) (m : TextMap V) → keys (m ++ (id, v) ∷ []) ≡ keys m ++ id ∷ []
  keys-concat id v [] = refl
  keys-concat id v ((j, w) ∷ m) = ground (arith, keys-concat id v m)

  map_set-new :
      (id : String) (v : V) (m : TextMap V)
      → contains id (keys m) ≡ false
      → map_set id v m ≡ m ++ (id, v) ∷ []
  unfolding map_set
  map_set-new id v [] h = refl
  map_set-new id v ((j, w) ∷ m) h = ground (arith, map_set-new id v m)

  concat-append :
      (id : String) (v : V) (m es : TextMap V) → (m ++ (id, v) ∷ []) ++ es ≡ m ++ (id, v) ∷ es
  concat-append id v [] es = refl
  concat-append id v (x ∷ m) es = ground (arith, concat-append id v m es)

  append_nil : (m : TextMap V) → m ++ [] ≡ m
  append_nil [] = refl
  append_nil (x ∷ m) = ground (arith, append_nil m)

  repeated :
      (id : String) (v : V) (m es : TextMap V)
      → contains id (keys m) ≡ true
      → IsSetList (keys (m ++ (id, v) ∷ es))
      → ⊥
  repeated id v [] es h s = cc
  repeated id v ((j, w) ∷ m) es h s = elim (Bool-cases (j == id)) [
    | inl same ↦ absurd (ground (arith, after m, s.0, eq_iff j id))
    | inr other ↦ repeated id v m es (ground arith) s.1
  ]
    where
      after : (m : TextMap V) → contains id (keys (m ++ (id, v) ∷ es)) ≡ true
      after [] = ground (arith, eq_iff id id)
      after ((k, x) ∷ m) = ground (arith, after m)

  index_from_iff :
      (collection : String) (m es r : TextMap V)
      → IsSetList (keys m)
      → (index_from collection m es ≡ ok r) ↔ ((r ≡ m ++ es) × IsSetList (keys (m ++ es)))
  unfolding index_from
  index_from_iff collection m [] r s = (
    λ e. (ground (arith, e, append_nil m), subst (λ l. IsSetList (keys l)) (sym (append_nil m)) s),
    λ k. ground (arith, k.0, append_nil m),
  )
  index_from_iff collection m ((id, v) ∷ es) r s = elim (Bool-cases (contains id (keys m))) [
    | inl old ↦ (λ e. absurd (ground (arith, e)), λ k. absurd (repeated id v m es old k.1))
    | inr new ↦
        let rest = index_from_iff collection (map_set id v m) es r (
          subst (λ l. IsSetList (keys l)) (sym (map_set-new id v m new))
            (subst IsSetList (sym (keys-concat id v m)) (IsSetList-concat (keys m) id s new))) in
        let same : map_set id v m ++ es ≡ m ++ (id, v) ∷ es =
          ground (arith, map_set-new id v m new, concat-append id v m es) in
        (
          λ e.
              let (p, q) = rest.0 (ground (arith, e)) in
              (p ∙ same, subst (λ l. IsSetList (keys l)) same q),
          λ k.
              ground (
                arith,
                new,
                rest.1 (k.0 ∙ sym same, subst (λ l. IsSetList (keys l)) (sym same) k.1),
              ),
        )
  ]

  -- A collection is indexed, as it is and in its order, exactly if no identifier stands twice in it.
  pub index_unique_iff :
      (collection : String) (entries indexed : TextMap V)
      → (index_unique collection entries ≡ ok indexed)
        ↔ ((indexed ≡ entries) × IsSetList (keys entries))
  unfolding index_unique
  index_unique_iff collection entries indexed = index_from_iff collection [] entries indexed tt
