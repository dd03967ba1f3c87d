-- ===== src/Watch/Tags.antt =====
-- discovery/watch.go: the filter by tags of `getList`.
use xdiscovery.Watch.{all_set, watch_get_list, is_set, matched, filter_tags, exist_tags, Watch}
use xdiscovery.Degrade.{Degrade, get_list}
use xdiscovery.Prelude.{
  ◌≡◌, refl, ◌↔◌, ◌⊎◌, inl, inr, Bool, true, List, [], ◌∷◌, arith, if◌then◌else◌, All, In, Text,
  codes, is_empty, In-select, Map, lookup, text_eq, insert, lookup-insert, text_eq_iff,
}
use xdiscovery.Service.{Service, ServiceList, or_nil}

-- A wanted tag that a service has; the empty tag is had by all.
abbrev pub HasTag : Service → Text → Type 0
HasTag srv tag = (is_empty tag ≡ true) ⊎ In tag (or_nil srv.tags)

is_set-exist_tags :
    (tag : Text) (tags : List Text) (found : Map Bool)
    → (is_set tag (exist_tags tags found) ≡ true) ↔ (In tag tags ⊎ (is_set tag found ≡ true))
unfolding exist_tags is_set
is_set-exist_tags tag [] found = (λ h. inr h, λ h. elim h [ inl m ↦ absurd m | inr e ↦ e ])
is_set-exist_tags tag (t ∷ tags) found =
    let rest = is_set-exist_tags tag tags (insert t true found) in
    let read = lookup-insert t tag true found in let same = text_eq_iff t tag in ground arith

all_set-All :
    (found : Map Bool) (tags : List Text)
    → (all_set tags found ≡ true) ↔ All (λ t. is_set t found ≡ true) tags
unfolding all_set
all_set-All found [] = (λ h. tt, λ h. refl)
all_set-All found (t ∷ tags) = ground (arith, all_set-All found tags)

empty_only : (tag : Text) → (is_set tag ((codes "", true) ∷ []) ≡ true) ↔ (is_empty tag ≡ true)
unfolding is_set lookup text_eq
empty_only [] = (λ h. refl, λ h. refl)
empty_only (x ∷ xs) = (λ h. h, λ h. h)

is_set-HasTag :
    (srv : Service) (tag : Text)
    → (is_set tag (exist_tags (or_nil srv.tags) ((codes "", true) ∷ [])) ≡ true) ↔ HasTag srv tag
is_set-HasTag srv tag =
    let known = is_set-exist_tags tag (or_nil srv.tags) ((codes "", true) ∷ []) in
    let none_ = empty_only tag in ground arith

All-iff :
    {A : Type 0} {P Q : A → Type 0} (xs : List A) → ((x : A) → P x ↔ Q x) → All P xs ↔ All Q xs
All-iff [] h = (λ p. tt, λ q. tt)
All-iff (x ∷ xs) h =
    let (f, g) = All-iff xs h in (λ p. ((h x).0 p.0, f p.1), λ q. ((h x).1 q.0, g q.1))

matched-HasTag :
    (tags : List Text) (srv : Service) → (matched tags srv ≡ true) ↔ All (HasTag srv) tags
unfolding matched
matched-HasTag tags srv =
    let (f, g) = all_set-All (exist_tags (or_nil srv.tags) ((codes "", true) ∷ [])) tags in
    let (f', g') = All-iff tags (is_set-HasTag srv) in (λ h. f' (f h), λ h. g (g' h))

In-filter_tags :
    (tags : List Text) (list : ServiceList) (srv : Service)
    → In srv (filter_tags tags list).services ↔ (In srv list.services × All (HasTag srv) tags)
unfolding filter_tags
In-filter_tags [] list srv = (λ m. (m, tt), λ h. h.0)
In-filter_tags (tag ∷ tags) list srv =
    let (f, g) = In-select (matched (tag ∷ tags)) srv list.services in
    let (f', g') = matched-HasTag (tag ∷ tags) srv in
    (λ m. ((f m).0, f' (f m).1), λ h. g (h.0, g' h.1))

filter_tags-versions :
    (tags : List Text) (list : ServiceList)
    → ((filter_tags tags list).watch_version ≡ list.watch_version)
      × ((filter_tags tags list).version ≡ list.version)
      × ((filter_tags tags list).run_mode ≡ list.run_mode)
unfolding filter_tags
filter_tags-versions [] list = (refl, refl, refl)
filter_tags-versions (tag ∷ tags) list = (refl, refl, refl)

-- A watch returns the services of the degradation's list that have every wanted tag, where the
-- empty tag is had by all, with the versions and the mode of the whole list.
pub watch_get_list-tagged :
    {F : Type 0} (wait : Degrade F → Degrade F) (tags : List Text) (w : Watch F) (srv : Service)
    → let (w', list) = watch_get_list wait tags w in
      (In srv list.services ↔ (In srv w'.degrade.apply_list.services × All (HasTag srv) tags))
      × (list.watch_version ≡ w'.degrade.apply_list.watch_version)
      × (list.version ≡ w'.degrade.apply_list.version)
      × (list.run_mode ≡ w'.degrade.apply_list.run_mode)
unfolding watch_get_list get_list
watch_get_list-tagged {F} wait tags w srv =
    let w' : Watch F = if w.once then w else record w { degrade = wait w.degrade; once = true } in
    let (a, b, c) = filter_tags-versions tags w'.degrade.apply_list in
    (In-filter_tags tags w'.degrade.apply_list srv, a, b, c)
