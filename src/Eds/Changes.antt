-- ===== src/Eds/Changes.antt =====
-- adapter/eds/eds.go: the lists that `onEndpointsUpdate` finds changed.
use xdiscovery.Eds.{ClusterLoadAssignment, get_or_nil}
use xdiscovery.Eds.Update.{
  Compared, compare_cluster, compare_loop, services_eq, parse_localities, sort_services,
}
use xdiscovery.Prelude.{
  ◌≡◌, sym, ap, inl, inr, Option, none, some, List, [], ◌∷◌, arith, if◌then◌else◌, Bool-cases,
  Option-cases, Text, lookup, Map, text_eq, text_eq_iff, lookup-insert,
}
use xdiscovery.Service.{Service, HealthCheck}

-- The last list of the message for the cluster that differs from the cluster's old list.
abbrev pub last_change :
    (Text → Option HealthCheck)
    → List Service
    → Text
    → List ClusterLoadAssignment
    → Option (List Service)
last_change unmarshal old k [] = none
last_change unmarshal old k (c ∷ cs) = elim (last_change unmarshal old k cs) [
  | some list ↦ some list
  | none ↦
      if text_eq c.cluster_name k
      then elim (parse_localities unmarshal c.cluster_name c.endpoints) [
        | none ↦ none
        | some s ↦ if services_eq (sort_services s) old then none else some (sort_services s)
      ]
      else none
]

-- The comparison of one cluster, seen at a key.
lookup-compare_cluster :
    (old : Map (List Service)) (name : Text) (s : List Service) (found : Compared) (k : Text)
    → lookup k (compare_cluster old name s found).changed_clusters ≡ (
        if text_eq name k
        then (if services_eq s (get_or_nil k old) then lookup k found.changed_clusters else some s)
        else lookup k found.changed_clusters)
unfolding compare_cluster
lookup-compare_cluster old name s found k =
    let law = lookup-insert name k s found.changed_clusters in
    elim (Bool-cases (text_eq name k)) [
      | inl same ↦
          let names = (text_eq_iff name k).0 same in
          let olds : get_or_nil name old ≡ get_or_nil k old = ap (λ n. get_or_nil n old) names in
          ground arith
      | inr other ↦ ground arith
    ]

abbrev pub or_else : Option (List Service) → Option (List Service) → Option (List Service)
or_else none b = b
or_else (some l) b = some l

pub compare_loop-last_change :
    (unmarshal : Text → Option HealthCheck) (old : Map (List Service))
    (cs : List ClusterLoadAssignment) (start : Compared) {found : Compared} (k : Text)
    → compare_loop unmarshal old cs start ≡ some found
    → lookup k found.changed_clusters
      ≡ or_else (last_change unmarshal (get_or_nil k old) k cs) (lookup k start.changed_clusters)
compare_loop-last_change unmarshal old [] start {found} k h =
    let same : start ≡ found = unfold compare_loop in ground arith in
    ap (λ (c : Compared). lookup k c.changed_clusters) (sym same)
compare_loop-last_change unmarshal old (c ∷ cs) start {found} k h =
    elim (Option-cases (parse_localities unmarshal c.cluster_name c.endpoints)) [
      | inl bad ↦ absurd (unfold compare_loop in ground arith)
      | inr (s, good) ↦
          let next = compare_cluster old c.cluster_name (sort_services s) start in
          let run : compare_loop unmarshal old cs next ≡ some found =
            unfold compare_loop in ground arith in
          let rest = compare_loop-last_change unmarshal old cs next {found = found} k run in
          let step = lookup-compare_cluster old c.cluster_name (sort_services s) start k in
          elim (Option-cases (last_change unmarshal (get_or_nil k old) k cs)) [
            | inl nothing ↦ elim (Bool-cases (text_eq c.cluster_name k)) [
              | inl same ↦ elim (Bool-cases (services_eq (sort_services s) (get_or_nil k old))) [
                | inl equal ↦ ground arith
                | inr differs ↦ ground arith
              ]
              | inr other ↦ ground arith
            ]
            | inr (l, later) ↦ ground arith
          ]
    ]
