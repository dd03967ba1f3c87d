-- ===== src/Service/Copy.antt =====
-- `Service.Copy` of mod_service.go. A map is copied entry by entry; the order in which Go ranges
-- over a map is not specified, and here it is from the last entry to the first.
use xdiscovery.Prelude.{
  ap, ◌≡◌, refl, Text, Map, lookup, insert, lookup-insert, Option, none, some, List, [], ◌∷◌, arith,
}
use xdiscovery.Service.{Service, HealthCheck}

-- `for k, v := range m { out[k] = v }`
unfoldable pub copy_map {ℓ} : {V : Type ℓ} → Map V → Map V
unfolding insert
copy_map [] = []
copy_map ((k, v) ∷ m) = insert k v (copy_map m)

-- `make` and the built-in `copy`.
unfoldable pub copy_slice {ℓ} : {A : Type ℓ} → List A → List A
copy_slice [] = []
copy_slice (x ∷ xs) = x ∷ copy_slice xs

-- A header is copied only if it is not empty; an empty or nil one stays as it is.
unfoldable pub copy_header : Option (Map (List Text)) → Option (Map (List Text))
unfolding copy_map
copy_header none = none
copy_header (some []) = some []
copy_header (some (e ∷ m)) = some (copy_map (e ∷ m))

unfoldable pub copy_health_check : HealthCheck → HealthCheck
unfolding copy_header
copy_health_check h = record h { header = copy_header h.header }

abbrev map_option {ℓ} : {A : Type ℓ} → (A → A) → Option A → Option A
map_option f none = none
map_option f (some x) = some (f x)

unfoldable pub copy : Service → Service
unfolding copy_slice copy_map copy_health_check
copy svc = record svc {
  tags = map_option copy_slice svc.tags;
  meta = map_option copy_map svc.meta;
  health_check = map_option copy_health_check svc.health_check;
}

lookup-copy_map {ℓ} : {V : Type ℓ} (k : Text) (m : Map V) → lookup k (copy_map m) ≡ lookup k m
unfolding copy_map lookup
lookup-copy_map k [] = refl
lookup-copy_map k ((j, v) ∷ m) =
    ground (arith, lookup-insert j k v (copy_map m), lookup-copy_map k m)

pub copy_slice_lem {ℓ} : {A : Type ℓ} (xs : List A) → copy_slice xs ≡ xs
unfolding copy_slice
copy_slice_lem [] = refl
copy_slice_lem (x ∷ xs) = ground (arith, copy_slice_lem xs)

-- Two nilable maps agree: both nil, or equal at every key.
abbrev pub SameMap : {V : Type 0} → Option (Map V) → Option (Map V) → Type 0
SameMap none none = Unit
SameMap (some m) (some n) = (k : Text) → lookup k m ≡ lookup k n
SameMap none (some _) = ⊥
SameMap (some _) none = ⊥

abbrev pub SameHealthCheck : Option HealthCheck → Option HealthCheck → Type 0
SameHealthCheck none none = Unit
SameHealthCheck (some g) (some h) =
    (record g { header = none } ≡ record h { header = none }) × SameMap g.header h.header
SameHealthCheck none (some _) = ⊥
SameHealthCheck (some _) none = ⊥

-- Two services that no reader tells apart: equal fields, and maps that are equal at every key.
pub record SameService (a b : Service) : Type 0 where
  pub same_id : a.id ≡ b.id
  pub same_name : a.name ≡ b.name
  pub same_address : a.address ≡ b.address
  pub same_port : a.port ≡ b.port
  pub same_tags : a.tags ≡ b.tags
  pub same_weight : a.weight ≡ b.weight
  pub same_meta : SameMap a.meta b.meta
  pub same_health_check : SameHealthCheck a.health_check b.health_check

copy_map_same : {V : Type 0} (m : Option (Map V)) → SameMap (map_option copy_map m) m
copy_map_same none = tt
copy_map_same (some m) = λ k. lookup-copy_map k m

copy_header_same : (m : Option (Map (List Text))) → SameMap (copy_header m) m
unfolding copy_header
copy_header_same none = tt
copy_header_same (some []) = λ k. refl
copy_header_same (some (e ∷ m)) = λ k. lookup-copy_map k (e ∷ m)

copy_health_check_same :
    (h : Option HealthCheck) → SameHealthCheck (map_option copy_health_check h) h
unfolding copy_health_check
copy_health_check_same none = tt
copy_health_check_same (some h) = (refl, copy_header_same h.header)

copy_tags_same : (t : Option (List Text)) → map_option copy_slice t ≡ t
copy_tags_same none = refl
copy_tags_same (some xs) = ap some (copy_slice_lem xs)

-- A copy has the same fields as the service, nil where that is nil, and its metadata and header
-- hold the same values at every key.
pub copy-SameService : (svc : Service) → SameService (copy svc) svc
unfolding copy
copy-SameService svc = record {
  same_id = refl;
  same_name = refl;
  same_address = refl;
  same_port = refl;
  same_tags = copy_tags_same svc.tags;
  same_weight = refl;
  same_meta = copy_map_same svc.meta;
  same_health_check = copy_health_check_same svc.health_check;
}
