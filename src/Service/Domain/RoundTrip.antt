-- ===== src/Service/Domain/RoundTrip.antt =====
-- mod_service.go: domain names, as they are read and as they are put together.
use xdiscovery.Prelude.{
  ◌-◌, ℕ, ◌≡◌, refl, ap, ◌∙◌, inl, inr, Text, true, List, [], ◌∷◌, ◌++◌, ◌==◌, All, arith,
  Bool-cases, codes, length, take, text_eq_iff, false, ◌+◌, text_eq_refl, ◌↔◌, sym,
}
use xdiscovery.Service.Domain.{
  is_name_char, all_name_chars, check_service_or_tag_name, glue, split_dots, names_then_suffix,
  nth_or_empty, get_tags_and_service_name, found, service_name_invalid,
}

-- The parts with a dot between each two.
abbrev pub join_dots : List Text → Text
join_dots [] = []
join_dots (p ∷ []) = p
join_dots (p ∷ q ∷ ps) = p ++ b'.' ∷ join_dots (q ∷ ps)

abbrev pub IsName : Text → Type 0
IsName s = check_service_or_tag_name s ≡ true

join-glue : (c : ℕ) (ps : List Text) → join_dots (glue c ps) ≡ c ∷ join_dots ps
join-glue c [] = refl
join-glue c (p ∷ []) = refl
join-glue c (p ∷ q ∷ ps) = refl

split-nonempty : (s : Text) → (p : Text) × (ps : List Text) × (split_dots s ≡ p ∷ ps)
unfolding split_dots
split-nonempty [] = ([], [], refl)
split-nonempty (c ∷ s) = elim (Bool-cases (c == b'.')) [
  | inl dot ↦ ([], split_dots s, rw dot)
  | inr other ↦ rw other (glued (split_dots s))
]
  where
    glued : (ps : List Text) → (p : Text) × (qs : List Text) × (glue c ps ≡ p ∷ qs)
    glued [] = (c ∷ [], [], refl)
    glued (p ∷ ps) = (c ∷ p, ps, refl)

join-split : (s : Text) → join_dots (split_dots s) ≡ s
unfolding split_dots
join-split [] = refl
join-split (c ∷ s) = elim (Bool-cases (c == b'.')) [
  | inl dot ↦ let (p, ps, e) = split-nonempty s in rw dot (rw e (ground (arith, join-split s)))
  | inr other ↦ rw other (join-glue c (split_dots s) ∙ ap (◌∷◌ c) (join-split s))
]

-- A name holds no dot, so it is cut as one part.
split-name : (p s : Text) → all_name_chars p ≡ true → split_dots (p ++ b'.' ∷ s) ≡ p ∷ split_dots s
unfolding split_dots is_name_char
split-name [] s h = refl
split-name (c ∷ p) s h = ground (arith, split-name p s)

split-last : (p : Text) → all_name_chars p ≡ true → split_dots p ≡ p ∷ []
unfolding split_dots is_name_char
split-last [] h = refl
split-last (c ∷ p) h = ground (arith, split-last p)

IsName-chars : (p : Text) → IsName p → all_name_chars p ≡ true
unfolding check_service_or_tag_name
IsName-chars p h = ground arith

split-join :
    (p : Text) (ps : List Text) → All IsName (p ∷ ps) → split_dots (join_dots (p ∷ ps)) ≡ p ∷ ps
split-join p [] h = split-last p (IsName-chars p h.0)
split-join p (q ∷ ps) h =
    split-name p (join_dots (q ∷ ps)) (IsName-chars p h.0) ∙ ap (◌∷◌ p) (split-join q ps h.1)

-- The domain of a service with its tags in front.
abbrev pub domain_parts : List Text → Text → List Text
domain_parts tags svc = tags ++ svc ∷ codes "service" ∷ codes "discovery" ∷ []

abbrev Parts : List Text → Type 0
Parts xs =
    (tags : List Text) × (svc : Text) × (xs ≡ domain_parts tags svc) × All IsName tags × IsName svc

names_then_suffix-Parts : (xs : List Text) → names_then_suffix xs ≡ true → Parts xs
unfolding names_then_suffix
names_then_suffix-Parts [] h = absurd (cc)
names_then_suffix-Parts (x ∷ []) h = absurd (cc)
names_then_suffix-Parts (x ∷ y ∷ []) h = absurd (cc)
names_then_suffix-Parts (x ∷ y ∷ z ∷ []) h = (
  [],
  x,
  ground (arith, text_eq_iff y (codes "service"), text_eq_iff z (codes "discovery")),
  tt,
  ground arith,
)
names_then_suffix-Parts (x ∷ y ∷ z ∷ w ∷ rest) h =
    let (tags, svc, e, names, name) = names_then_suffix-Parts (y ∷ z ∷ w ∷ rest) (ground arith) in
    (x ∷ tags, svc, ap (◌∷◌ x) e, (ground arith, names), name)

parts_suffix :
    (tags : List Text) (svc : Text)
    → All IsName tags
    → IsName svc
    → names_then_suffix (domain_parts tags svc) ≡ true
unfolding names_then_suffix
parts_suffix [] svc h k =
    ground (arith, text_eq_refl (codes "service"), text_eq_refl (codes "discovery"))
parts_suffix (x ∷ []) svc h k = ground (arith, parts_suffix [] svc tt k)
parts_suffix (x ∷ y ∷ []) svc h k = ground (arith, parts_suffix (y ∷ []) svc h.1 k)
parts_suffix (x ∷ y ∷ z ∷ tags) svc h k = ground (arith, parts_suffix (y ∷ z ∷ tags) svc h.1 k)

length-domain_parts :
    (tags : List Text) (svc : Text) → length (domain_parts tags svc) ≡ length tags + 3
length-domain_parts [] svc = omega arith
length-domain_parts (x ∷ tags) svc = omega (arith, length-domain_parts tags svc)

take-domain_parts :
    (tags : List Text) (svc : Text) → take (length tags) (domain_parts tags svc) ≡ tags
take-domain_parts [] svc = refl
take-domain_parts (x ∷ tags) svc = ap (◌∷◌ x) (take-domain_parts tags svc)

nth-domain_parts :
    (tags : List Text) (svc : Text) → nth_or_empty (domain_parts tags svc) (length tags) ≡ svc
nth-domain_parts [] svc = refl
nth-domain_parts (x ∷ tags) svc = nth-domain_parts tags svc

found_of_parts :
    (s : Text) (tags : List Text) (svc : Text)
    → split_dots s ≡ domain_parts tags svc
    → All IsName tags
    → IsName svc
    → get_tags_and_service_name s ≡ found svc tags
unfolding get_tags_and_service_name
found_of_parts s tags svc e h k =
    let count : length (domain_parts tags svc) - 3 ≡ length tags =
      omega (arith, length-domain_parts tags svc) in
    rw (e, parts_suffix tags svc h k, count)
      (ground (
        arith,
        length-domain_parts tags svc,
        take-domain_parts tags svc,
        nth-domain_parts tags svc,
      ))

invalid_of_no_match :
    (s : Text)
    → names_then_suffix (split_dots s) ≡ false
    → get_tags_and_service_name s ≡ service_name_invalid
unfolding get_tags_and_service_name
invalid_of_no_match s h = rw h

-- The last part is never left out: the parts of a non-empty list of names are joined and cut.
split-domain :
    (tags : List Text) (svc : Text)
    → All IsName tags
    → IsName svc
    → split_dots (join_dots (domain_parts tags svc)) ≡ domain_parts tags svc
unfolding check_service_or_tag_name is_name_char
split-domain [] svc h k = split-join svc _ (k, (refl, (refl, tt)))
split-domain (x ∷ tags) svc h k = split-join x (domain_parts tags svc) (h.0, names tags h.1)
  where
    names : (ts : List Text) → All IsName ts → All IsName (domain_parts ts svc)
    names [] n = (k, (refl, (refl, tt)))
    names (t ∷ ts) n = (n.0, names ts n.1)

-- A domain gives a service and its tags exactly when it is made of them: the tags, the service,
-- "service" and "discovery", joined by dots, each tag and the service a valid name.
pub get_tags_and_service_name-eq-found_iff :
    (domain svc : Text) (tags : List Text)
    → (get_tags_and_service_name domain ≡ found svc tags)
      ↔ ((domain ≡ join_dots (domain_parts tags svc)) × All IsName tags × IsName svc)
get_tags_and_service_name-eq-found_iff domain svc tags = (read, write)
  where
    read :
        get_tags_and_service_name domain ≡ found svc tags
        → (domain ≡ join_dots (domain_parts tags svc)) × All IsName tags × IsName svc
    read h = elim (Bool-cases (names_then_suffix (split_dots domain))) [
      | inl matched ↦
          let (ts, s, e, names, name) = names_then_suffix-Parts (split_dots domain) matched in
          let same : found s ts ≡ found svc tags =
            sym (found_of_parts domain ts s e names name) ∙ h in
          let one : s ≡ svc = cc in
          let two : ts ≡ tags = cc in
          rw (← one, ← two) (sym (join-split domain) ∙ ap join_dots e, names, name)
      | inr other ↦ absurd (cc (invalid_of_no_match domain other))
    ]

    write :
        (domain ≡ join_dots (domain_parts tags svc)) × All IsName tags × IsName svc
        → get_tags_and_service_name domain ≡ found svc tags
    write (e, names, name) =
        found_of_parts domain tags svc (ap split_dots e ∙ split-domain tags svc names name) names
          name
