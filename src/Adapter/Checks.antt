-- ===== src/Adapter/Checks.antt =====
-- The checks of `ParseService` (adapter/init.go).
use xdiscovery.Service.Domain.{check_service_or_tag_name}
use xdiscovery.Adapter.{bad_tag, has_weight, parse_service, with_id, parsed, new_opts}
use xdiscovery.Prelude.{
  zero, suc, ◌≡◌, refl, ◌≢◌, ◌↔◌, true, false, none, List, [], ◌∷◌, ◌++◌, arith, ℤ, pos, negsuc,
  All, Text, codes, is_empty,
}
use xdiscovery.Service.{Service, or_nil}
use xdiscovery.Options.{RegisterOpts}

bad_tag-none :
    (tags : List Text) → (bad_tag tags ≡ none) ↔ All (λ t. check_service_or_tag_name t ≡ true) tags
unfolding bad_tag
bad_tag-none [] = (λ h. tt, λ h. refl)
bad_tag-none (t ∷ tags) = ground (arith, bad_tag-none tags)

-- The name, the tags and the weight of a service that may be registered.
pub record IsAllowed (svc : Service) : Type 0 where
  pub name_allowed : check_service_or_tag_name svc.name ≡ true
  pub tags_allowed : All (λ t. check_service_or_tag_name t ≡ true) (or_nil svc.tags)
  pub weight_allowed : svc.weight ≢ pos 0

has_weight_iff : (w : ℤ) → (has_weight w ≡ true) ↔ (w ≢ pos 0)
unfolding has_weight
has_weight_iff (pos zero) = (λ h. absurd (cc), λ h. absurd (h refl))
has_weight_iff (pos (suc n)) = (λ h e. absurd (cc), λ h. ground arith)
has_weight_iff (negsuc n) = (λ h e. absurd (cc), λ h. refl)

-- `ParseService` passes just the services with an allowed name, allowed tags and a weight that is
-- not zero; such a service keeps all but its id, and its id too if it has one, and else gets its
-- name, its address and the host name.
pub parse_service-IsAllowed :
    (hostname : Text) (svc : Service) (opts : RegisterOpts)
    → (((s : Service) × (o : RegisterOpts) × (parse_service hostname svc opts ≡ parsed s o))
        ↔ IsAllowed svc)
      × ((s : Service) (o : RegisterOpts)
          → parse_service hostname svc opts ≡ parsed s o
          → (s ≡ record svc { id = s.id })
            × ((is_empty svc.id ≡ false) → s.id ≡ svc.id)
            × ((is_empty svc.id ≡ true)
                → s.id ≡ svc.name ++ codes "~" ++ svc.address ++ codes "~" ++ hostname)
            × (o ≡ new_opts svc opts))
unfolding parse_service with_id
parse_service-IsAllowed hostname svc opts =
    let (f, g) = bad_tag-none (or_nil svc.tags) in
    let (w, v) = has_weight_iff svc.weight in
    (
      (
        λ h. record {
          name_allowed = let e = h.2 in ground arith;
          tags_allowed = f (let e = h.2 in ground arith);
          weight_allowed = w (let e = h.2 in ground arith);
        },
        λ a. (
          with_id hostname svc,
          new_opts svc opts,
          (let n = a.name_allowed in
              let t = g a.tags_allowed in let x = v a.weight_allowed in ground arith),
        ),
      ),
      λ s o e. (ground arith, ground arith, ground arith, ground arith),
    )
