-- ===== src/Degrade/Merge.antt =====
-- discovery/downgrade.go: the merge of the nodes that a round checks, by protection id.
use xdiscovery.Degrade.Health.{add_all, gather, add_endpoint, is_used}
use xdiscovery.Prelude.{
  ℕ, ◌+◌, ◌≡◌, refl, sym, ap, ◌∙◌, inl, inr, Bool, true, false, ◌||◌, List, [], ◌∷◌, ◌++◌, arith,
  if◌then◌else◌, Bool-cases, Text, text_eq, text_eq_iff,
}
use xdiscovery.Service.{Service, get_self_protection_id}

-- How many nodes have a protection id, and whether one has.
abbrev pub count_protected : Text → List Service → ℕ
count_protected k [] = 0
count_protected k (x ∷ xs) =
    (if text_eq (get_self_protection_id x) k then 1 else 0) + count_protected k xs

abbrev pub is_protected : Text → List Service → Bool
is_protected k [] = false
is_protected k (x ∷ xs) = text_eq (get_self_protection_id x) k || is_protected k xs

count_protected-append :
    (k : Text) (xs ys : List Service)
    → count_protected k (xs ++ ys) ≡ count_protected k xs + count_protected k ys
count_protected-append k [] ys = omega arith
count_protected-append k (x ∷ xs) ys = omega (arith, count_protected-append k xs ys)

is_protected-append :
    (k : Text) (xs ys : List Service)
    → is_protected k (xs ++ ys) ≡ (is_protected k xs || is_protected k ys)
is_protected-append k [] ys = refl
is_protected-append k (x ∷ xs) ys = ground (arith, is_protected-append k xs ys)

-- The used ids and the nodes so far agree.
abbrev Agree : Text → List Text × List Service → Type 0
Agree k found = count_protected k found.1 ≡ (if is_used k found.0 then 1 else 0)

add_endpoint-Agree :
    (k : Text) (found : List Text × List Service) (e : Service)
    → Agree k found
    → Agree k (add_endpoint found e)
      × (is_used k (add_endpoint found e).0
          ≡ (text_eq (get_self_protection_id e) k || is_used k found.0))
unfolding add_endpoint is_used
add_endpoint-Agree k (used, endpoints) e h =
    let id = get_self_protection_id e in
    let same = text_eq_iff id k in
    let more = count_protected-append k endpoints (e ∷ []) in
    elim (Bool-cases (is_used id used)) [
      | inl there ↦ elim (Bool-cases (text_eq id k)) [
        | inl eq ↦
            let ids : id ≡ k = same.0 eq in
            let at_k : is_used k used ≡ true = ap (λ i. is_used i used) (sym ids) ∙ there in
            ground arith
        | inr other ↦ ground arith
      ]
      | inr fresh ↦ elim (Bool-cases (text_eq id k)) [
        | inl eq ↦
            let ids : id ≡ k = same.0 eq in
            let at_k : is_used k used ≡ false = ap (λ i. is_used i used) (sym ids) ∙ fresh in
            ground arith
        | inr other ↦ ground arith
      ]
    ]

add_all-Agree :
    (k : Text) (es : List Service) (found : List Text × List Service)
    → Agree k found
    → Agree k (add_all es found)
      × (is_used k (add_all es found).0 ≡ (is_protected k es || is_used k found.0))
unfolding add_all
add_all-Agree k [] found h = (h, refl)
add_all-Agree k (e ∷ es) found h =
    let (step, used) = add_endpoint-Agree k found e h in
    let (rest, all) = add_all-Agree k es (add_endpoint found e) step in (rest, all ∙ ground arith)

-- A round checks one node for each protection id that stands in the registry's list or in the
-- history, and no other.
pub count_protected-gather :
    (k : Text) (latest history : List Service)
    → count_protected k (gather latest history)
      ≡ (if is_protected k (latest ++ history) then 1 else 0)
unfolding gather
count_protected-gather k latest history =
    let (first, used) = add_all-Agree k latest ([], []) (unfold is_used in refl) in
    let (second, all) = add_all-Agree k history (add_all latest ([], [])) first in
    let empty : is_used k [] ≡ false = unfold is_used in refl in
    let both = is_protected-append k latest history in ground arith
