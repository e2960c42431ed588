-- ===== src/GarbageCollection.antt =====
-- runtime/GarbageCollection.cpp, and the table of allocated expressions of
-- runtime/simple_backend/Runtime.cpp. An expression is the address of its object; a null
-- expression is `none`.
pub mod Reachability
use sym_cc_modified.Base.{
  ℕ, zero, suc, ◌+◌, Bool, true, false, Option, none, some, List, [], ◌∷◌, ◌++◌, length, ltb, ◌==◌,
  if◌then◌else◌,
}
use sym_cc_modified.Shadow.{Pages, page_size}

-- `std::set::count` and `std::set::insert`
unfoldable pub contains : List ℕ → ℕ → Bool
contains [] expr = false
contains (x ∷ xs) expr = if x == expr then true else contains xs expr

pub insert : List ℕ → ℕ → List ℕ
insert set expr = if contains set expr then set else expr ∷ set

-- `ExpressionRegion`: the slots from `first` on.
pub record ExpressionRegion : Type 0 where
  pub first : ℕ
  pub length : ℕ

pub register_expression_region : List ExpressionRegion → ExpressionRegion → List ExpressionRegion
register_expression_region regions r = regions ++ (r ∷ [])

pub insert_slot : List ℕ → Option ℕ → List ℕ
unfolding insert
insert_slot set none = set
insert_slot set (some expr) = insert set expr

-- The loop over the slots of a region, with the rounds that are left.
pub collect_slots : (ℕ → Option ℕ) → ℕ → ℕ → List ℕ → List ℕ
unfolding insert_slot
collect_slots slots zero i reachable = reachable
collect_slots slots (suc n) i reachable =
    collect_slots slots n (i + 1) (insert_slot reachable (slots i))

pub collect_regions : (ℕ → Option ℕ) → List ExpressionRegion → List ℕ → List ℕ
unfolding collect_slots
collect_regions slots [] reachable = reachable
collect_regions slots (r ∷ regions) reachable =
    collect_regions slots regions (collect_slots slots r.length r.first reachable)

pub collect_pages : Pages ℕ → List ℕ → List ℕ
collect_pages [] reachable = reachable
collect_pages ((start, region) ∷ pages) reachable =
    collect_pages pages (collect_slots region page_size 0 reachable)

-- `slots` is what the registered regions hold when the collection runs.
pub collect_reachable_expressions : (ℕ → Option ℕ) → List ExpressionRegion → Pages ℕ → List ℕ
collect_reachable_expressions slots regions pages =
    collect_pages pages (collect_regions slots regions [])

-- `registerExpression` of the simple backend: the table, and the expressions whose reference
-- counter was increased.
pub register_expression : List ℕ × List ℕ → ℕ → List ℕ × List ℕ
register_expression (allocated, referenced) expr =
    if contains allocated expr
    then (allocated, referenced)
    else (expr ∷ allocated, expr ∷ referenced)

pub sweep : List ℕ → List ℕ → List ℕ
sweep reachable [] = []
sweep reachable (x ∷ xs) =
    if contains reachable x then x ∷ sweep reachable xs else sweep reachable xs

pub collect_garbage : ℕ → (ℕ → Option ℕ) → List ExpressionRegion → Pages ℕ → List ℕ → List ℕ
unfolding sweep
collect_garbage threshold slots regions pages allocated =
    if ltb (length allocated) threshold
    then allocated
    else sweep (collect_reachable_expressions slots regions pages) allocated
