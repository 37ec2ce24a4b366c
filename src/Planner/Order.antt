-- ===== src/Planner/Order.antt =====
-- planner.ts: `orderResources`, a depth-first order of the resources by their dependencies.
pub mod Fuel
pub mod Topological
pub mod Sound
use codexport.Base.{
  Bool, true, false, not, ℕ, zero, suc, String, List, [], ◌∷◌, ◌++◌, Option, none, some, keys,
  values, length, contains, string_eq, ◌==◌, map_get, set_add, if◌then◌else◌, text_lt,
}
use codexport.Base.Order.{sort, sorted_unique}
use codexport.Domain.{PublishedResource}
use codexport.Planner.Data.{
  TextMap, Result, ok, fail, missing_dependency, dependency_cycle, PlanningError, ◌>>=◌,
}

-- The search's sets: the complete identifiers, and the resources in order. The stack `active`,
-- which a visit pushes to and pops from, is handed down as an argument.
pub record Walk : Type 0 where
  pub complete : List String
  pub ordered : List PublishedResource

pub data Visited : Type 0 where
  visited : Walk → Visited
  cyclic : List String → Visited
  out_of_fuel : Visited

-- `active.slice(active.indexOf(id))`, if it is there.
unfoldable pub slice_from : String → List String → Option (List String)
slice_from id [] = none
slice_from id (a ∷ active) = if a == id then some (a ∷ active) else slice_from id active

-- The loop of `visit` over the dependencies, and of `orderResources` over the identifiers.
unfoldable pub visit_all : (String → Walk → Visited) → List String → Walk → Visited
visit_all visit [] w = visited w
visit_all visit (id ∷ ids) w = elim (visit id w) [
  | visited w' ↦ visit_all visit ids w'
  | cyclic cycle ↦ cyclic cycle
  | out_of_fuel ↦ out_of_fuel
]

-- `ordered.push(resource)` and `complete.add(id)`, after the dependencies.
unfoldable pub close : String → PublishedResource → Visited → Visited
close id r (visited w) =
    visited (record { complete = set_add w.complete id; ordered = w.ordered ++ r ∷ [] })
close id r (cyclic cycle) = cyclic cycle
close id r out_of_fuel = out_of_fuel

module _ (resources : TextMap PublishedResource) where
  -- `visit`, with fuel for the depth of the search.
  unfoldable pub visit : ℕ → List String → String → Walk → Visited
  unfolding slice_from visit_all close map_get sorted_unique
  visit zero active id w = out_of_fuel
  visit (suc f) active id w = elim (contains id w.complete) [
    | true ↦ visited w
    | false ↦ elim (slice_from id active) [
      | some tail ↦ cyclic (tail ++ id ∷ [])
      | none ↦ elim (map_get id resources) [
        | none ↦ visited (record w { complete = set_add w.complete id })
        | some r ↦
            close id r (visit_all (visit f (active ++ id ∷ [])) (sorted_unique r.depends_on) w)
      ]
    ]
  ]

  -- The first dependency of a resource that is no resource.
  unfoldable pub undeclared : List String → Option String
  undeclared [] = none
  undeclared (d ∷ ds) = if contains d (keys resources) then undeclared ds else some d

  -- The loop of `orderResources` that looks for dependencies that are missing.
  unfoldable pub missing_from : List PublishedResource → Option PlanningError
  unfolding undeclared
  missing_from [] = none
  missing_from (r ∷ rs) = elim (undeclared r.depends_on) [
    | some d ↦ some (missing_dependency r.id d)
    | none ↦ missing_from rs
  ]

  -- The depth of the search is at most the number of resources.
  abbrev pub order_fuel : ℕ
  order_fuel = suc (length (keys resources))

  abbrev pub start : Walk
  start = record { complete = []; ordered = [] }

  -- The search of `orderResources`, from each identifier in order.
  unfoldable pub walk_all : Visited
  unfolding visit visit_all sort text_lt
  walk_all = visit_all (visit order_fuel []) (sort text_lt (keys resources)) start

  -- `orderResources`; the branch for a search that is out of fuel is there for totality.
  unfoldable pub order_resources : Result (List PublishedResource)
  unfolding missing_from walk_all
  order_resources = elim (missing_from (values resources)) [
    | some error ↦ fail error
    | none ↦ elim walk_all [
      | visited w ↦ ok w.ordered
      | cyclic cycle ↦ fail (dependency_cycle cycle)
      | out_of_fuel ↦ ok []
    ]
  ]
