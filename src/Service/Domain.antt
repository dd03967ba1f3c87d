-- ===== src/Service/Domain.antt =====
-- discovery_adapter.go (the two patterns) and the domain names of mod_service.go.
pub mod RoundTrip
use xdiscovery.Prelude.{
  ℕ, zero, suc, ◌-◌, ◌≡◌, refl, Text, codes, text_eq, is_empty, Bool, true, false, not, ◌&&◌, ◌||◌,
  List, [], ◌∷◌, leb, ltb, ◌==◌, length, take, if◌then◌else◌, ◌+◌, ◌≤◌, ◌<◌, sym, ap, ◌∙◌, ◌≢◌, ◌↔◌,
  ◌⊎◌, inl, inr, Option, none, some, ◌++◌, arith, Bool-cases, Option-cases, ℤ, pos, negsuc, All, In,
  map,
}

-- The class [0-9,a-z,A-Z,-]: the comma stands in it.
unfoldable pub is_name_char : ℕ → Bool
is_name_char c =
    leb b'0' c && leb c b'9'
    || leb b'a' c && leb c b'z'
    || leb b'A' c && leb c b'Z'
    || c == b','
    || c == b'-'

abbrev all_name_chars : Text → Bool
all_name_chars [] = true
all_name_chars (c ∷ s) = is_name_char c && all_name_chars s

-- `RegexpServiceName.MatchString`, as `CheckServiceOrTagName` calls it.
unfoldable pub check_service_or_tag_name : Text → Bool
unfolding is_name_char
check_service_or_tag_name name = not (is_empty name) && all_name_chars name

-- Puts a byte before the first part.
abbrev glue : ℕ → List Text → List Text
glue c [] = (c ∷ []) ∷ []
glue c (p ∷ ps) = (c ∷ p) ∷ ps

-- `strings.Split(s, ".")`
unfoldable pub split_dots : Text → List Text
split_dots [] = [] ∷ []
split_dots (c ∷ s) = let rest = split_dots s in if c == b'.' then [] ∷ rest else glue c rest

-- One or more names, then "service" and "discovery".
names_then_suffix : List Text → Bool
unfolding check_service_or_tag_name text_eq
names_then_suffix [] = false
names_then_suffix (x ∷ []) = false
names_then_suffix (x ∷ y ∷ []) = false
names_then_suffix (x ∷ y ∷ z ∷ []) =
    check_service_or_tag_name x && text_eq y (codes "service") && text_eq z (codes "discovery")
names_then_suffix (x ∷ y ∷ z ∷ w ∷ rest) =
    check_service_or_tag_name x && names_then_suffix (y ∷ z ∷ w ∷ rest)

-- `RegexpService.MatchString`: no part of a match holds a dot, so the dots cut it into its parts.
unfoldable pub matches_service : Text → Bool
unfolding names_then_suffix split_dots
matches_service s = names_then_suffix (split_dots s)

pub data DomainResult : Type 0 where
  found : Text → List Text → DomainResult
  service_name_invalid : DomainResult

-- `tmps[i]`, where the index is in range.
abbrev nth_or_empty : List Text → ℕ → Text
nth_or_empty [] i = []
nth_or_empty (x ∷ xs) zero = x
nth_or_empty (x ∷ xs) (suc i) = nth_or_empty xs i

unfoldable pub get_tags_and_service_name : Text → DomainResult
unfolding matches_service split_dots
get_tags_and_service_name service_domain =
    if not (matches_service service_domain)
    then service_name_invalid
    else (let tmps = split_dots service_domain in
        if ltb (length tmps) 3
        then service_name_invalid
        else found (nth_or_empty tmps (length tmps - 3)) (take (length tmps - 3) tmps))

example_domain :
    get_tags_and_service_name (codes "qa.order.service.discovery")
    ≡ found (codes "order") (codes "qa" ∷ [])
unfolding get_tags_and_service_name
example_domain = refl
