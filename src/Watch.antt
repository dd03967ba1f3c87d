-- ===== src/Watch.antt =====
-- discovery/watch.go: the watch of one service, which filters the degradation's list by tags.
use xdiscovery.Degrade.{Degrade, get_list}
use xdiscovery.Prelude.{
  ℕ, zero, suc, ◌+◌, ◌-◌, ◌≤◌, ◌<◌, ◌≡◌, refl, sym, ap, ◌∙◌, ◌≢◌, ◌↔◌, ◌⊎◌, inl, inr, Bool, true,
  false, not, ◌&&◌, ◌||◌, Option, none, some, List, [], ◌∷◌, ◌++◌, arith, if◌then◌else◌, Bool-cases,
  Option-cases, ℤ, pos, negsuc, length, All, In, Text, codes, map, select, lookup, Map, insert,
}
pub mod Tags
use xdiscovery.Service.{Service, ServiceList, or_nil}

-- `once` tells whether the first call has waited for the registry.
pub record Watch (F : Type 0) : Type 0 where
  pub service : Text
  pub degrade : Degrade F
  pub once : Bool

-- `existTags`
unfoldable pub exist_tags : List Text → Map Bool → Map Bool
unfolding insert
exist_tags [] found = found
exist_tags (tag ∷ tags) found = exist_tags tags (insert tag true found)

-- `m[tag]` of a map of Booleans.
unfoldable pub is_set : Text → Map Bool → Bool
unfolding lookup
is_set tag found = elim (lookup tag found) [ none ↦ false | some b ↦ b ]

-- The loop over the wanted tags.
unfoldable pub all_set : List Text → Map Bool → Bool
unfolding is_set
all_set [] found = true
all_set (tag ∷ tags) found = is_set tag found && all_set tags found

-- `matched`
unfoldable pub matched : List Text → Service → Bool
unfolding exist_tags all_set
matched tags srv = all_set tags (exist_tags (or_nil srv.tags) ((codes "", true) ∷ []))

-- The filter by tags, on a copy of the list.
unfoldable pub filter_tags : List Text → ServiceList → ServiceList
filter_tags [] list = list
filter_tags (tag ∷ tags) list = record list {
  services = select (matched (tag ∷ tags)) list.services;
}

-- `getList`; `wait` is what others do while the first call waits. An error of `WaitReady` is only
-- logged.
unfoldable pub watch_get_list :
    {F : Type 0} → (Degrade F → Degrade F) → List Text → Watch F → Watch F × ServiceList
unfolding get_list
watch_get_list {F} wait tags w =
    let w' : Watch F = if w.once then w else record w { degrade = wait w.degrade; once = true } in
    (w', filter_tags tags (get_list w'.degrade))
