-- ===== src/Tests/EtcdTests.antt =====
-- adapter/etcd: a cluster in memory, and runs on it.
use xdiscovery.Etcd.Watch.{Watcher, new_watcher, first_get}
use xdiscovery.Degrade.Health.{format_port}
use xdiscovery.Service.Copy.{copy, copy_map, copy_slice, copy_health_check, copy_header}
use xdiscovery.Etcd.Listing.{register-listed}
use xdiscovery.Etcd.Watch.{WatchError, handler, compare_service, build_services}
use xdiscovery.Etcd.Lifecycle.{deregister_registered, deregister_updated}
use xdiscovery.Service.Domain.{check_service_or_tag_name, is_name_char}
use xdiscovery.Adapter.{parse_service, has_weight, with_id, new_opts, or_number, bad_tag}
use xdiscovery.Tests.{node}
use xdiscovery.Etcd.Registry.{
  Returned, register, deregister, unregister, update_parsed, key_of, update, init_parsed,
  register_loop, register_stored, stamped, with_check, check_of_opts, put_service, set_lease,
  ttl_of,
}
use xdiscovery.Json.{Json}
use xdiscovery.Service.{Service}
use mathlib.Core.Path.{subst}
use xdiscovery.Prelude.{
  ℕ, ◌+◌, ◌<◌, ◌≡◌, refl, sym, ap, ◌∙◌, ◌≢◌, ◌↔◌, inl, inr, true, Option, none, some, List, [], ◌∷◌,
  arith, if◌then◌else◌, Bool-cases, Option-cases, ℤ, pos, In, Text, codes, ◌==◌, text_eq, text_eq→≡,
  format_int, lookup, insert,
}
use xdiscovery.Etcd.{Etcd, has_prefix}

-- What is at each key, and the keys that were ever written.
record Cluster : Type 0 where
  at : Text → Option (Text × ℕ)
  keys : List Text
  next : ℕ
  listed : (k : Text) (x : Text × ℕ) → at k ≡ some x → In k keys

written :
    (k : Text) (v : Text × ℕ) (s : Cluster) (j : Text) (x : Text × ℕ)
    → (if text_eq k j then some v else s.at j) ≡ some x
    → In j (k ∷ s.keys)
written k v s j x h = elim (Bool-cases (text_eq k j)) [
  | inl same ↦ inl (text_eq→≡ k j same)
  | inr other ↦ inr (s.listed j x (ground arith))
]

abbrev put : Text → Text → ℕ → Cluster → Option Cluster
put k v l s = some (record {
  at = λ j. if text_eq k j then some (v, l) else s.at j;
  keys = k ∷ s.keys;
  next = s.next;
  listed = written k (v, l) s;
})

abbrev grant : ℤ → Cluster → Option (Cluster × ℕ)
grant t s = some (record s { next = s.next + 1 }, s.next + 1)

abbrev kept : ℕ → Option (Text × ℕ) → Option (Text × ℕ)
kept l none = none
kept l (some (v, m)) = if m == l then none else some (v, m)

kept-some : (l : ℕ) (o : Option (Text × ℕ)) (x : Text × ℕ) → kept l o ≡ some x → o ≡ some x
kept-some l none x h = h
kept-some l (some (v, m)) x h = ground arith

abbrev revoke : ℕ → Cluster → Option Cluster
revoke l s = some (record s {
  at = λ j. kept l (s.at j);
  listed = λ j x h. s.listed j x (kept-some l (s.at j) x h);
})

abbrev values : Text → (Text → Option (Text × ℕ)) → List Text → List Text
values p at [] = []
values p at (k ∷ ks) =
    let rest = values p at ks in
    if has_prefix p k then (elim (at k) [ none ↦ rest | some (v, l) ↦ v ∷ rest ]) else rest

In-values :
    (p : Text) (at : Text → Option (Text × ℕ)) (ks : List Text) (v : Text)
    → In v (values p at ks)
      ↔ ((k : Text) × (l : ℕ) × In k ks × (has_prefix p k ≡ true) × (at k ≡ some (v, l)))
In-values p at [] v = (λ m. absurd m, λ (k, l, m, p, h). absurd m)
In-values p at (k ∷ ks) v =
    let (f, g) = In-values p at ks v in
    elim (Bool-cases (has_prefix p k)) [
      | inl fits ↦ elim (Option-cases (at k)) [
        | inl gone ↦
            rw (fits, gone)
              (
                λ m. (let (j, l, i, q, r) = f m in (j, l, inr i, q, r)),
                λ (j, l, i, q, h). elim i [
                  | inl here ↦ absurd (ground arith)
                  | inr there ↦ g (j, l, there, q, h)
                ],
              )
        | inr ((u, m), there) ↦
            rw (fits, there)
              (
                λ i. elim i [
                  | inl here ↦ (k, m, inl refl, fits, there ∙ ap (λ z. some (z, m)) here)
                  | inr more ↦ let (j, l, at_, q, r) = f more in (j, l, inr at_, q, r)
                ],
                λ (j, l, i, q, h). elim i [
                  | inl here ↦ inl (ground arith)
                  | inr more ↦ inr (g (j, l, more, q, h))
                ],
              )
      ]
      | inr other ↦ rw other (
        λ m. (let (j, l, i, q, r) = f m in (j, l, inr i, q, r)),
        λ (j, l, i, q, h). elim i [
          | inl here ↦ absurd (ground arith)
          | inr there ↦ g (j, l, there, q, h)
        ],
      )
    ]

-- The cluster after a call that cannot fail.
at_of : {s s' : Cluster} → some s ≡ some s' → (j : Text) → s'.at j ≡ s.at j
at_of {s} {s'} h j = sym (ap (λ o. elim o [ none ↦ none | some c ↦ c.at j ]) h)

grant_at :
    (t : ℤ) (s s' : Cluster) (l : ℕ) → grant t s ≡ some (s', l) → (j : Text) → s'.at j ≡ s.at j
grant_at t s s' l h j = sym (ap (λ o. elim o [ none ↦ none | some (c, m) ↦ c.at j ]) h)

grant_number : (t : ℤ) (s s' : Cluster) (l : ℕ) → grant t s ≡ some (s', l) → 0 < l
grant_number t s s' l h =
    let same : s.next + 1 ≡ l = ap (λ o. elim o [ none ↦ 0 | some (c, m) ↦ m ]) h in omega arith

kept_other :
    (l m : ℕ) (o : Option (Text × ℕ)) (v : Text) → o ≡ some (v, m) → m ≢ l → kept l o ≡ some (v, m)
kept_other l m none v h other = absurd (cc)
kept_other l m (some (u, n)) v h other = ground arith

kept_own : (l : ℕ) (o : Option (Text × ℕ)) (v : Text) → o ≡ some (v, l) → kept l o ≡ none
kept_own l none v h = absurd (cc)
kept_own l (some (u, n)) v h = ground arith

found :
    (p : Text) (s : Cluster) (vs : List Text)
    → some (values p s.at s.keys) ≡ some vs
    → (v : Text)
    → In v vs ↔ ((k : Text) × (l : ℕ) × (has_prefix p k ≡ true) × (s.at k ≡ some (v, l)))
found p s vs h v =
    let same : values p s.at s.keys ≡ vs = cc in
    let (f, g) = In-values p s.at s.keys v in
    (
      λ m. (let (k, l, i, q, e) = f (subst (In v) (sym same) m) in (k, l, q, e)),
      λ (k, l, q, e). subst (In v) same (g (k, l, s.listed k (v, l) e, q, e)),
    )

abbrev cluster : Etcd
cluster = record {
  Store = Cluster;
  value_at = λ k s. s.at k;
  put = put;
  grant = grant;
  keep_alive = λ l s. some s;
  revoke = revoke;
  get_prefix = λ p s. some (values p s.at s.keys);
  value_at-put = λ k v l s s' h j. at_of h j;
  grant_nonzero = grant_number;
  value_at-grant = grant_at;
  value_at-keep_alive = λ l s s' h j. at_of h j;
  value_at-revoke_other = λ l s s' j v m h at other. at_of h j ∙ kept_other l m (s.at j) v at other;
  value_at-revoke = λ l s s' j v h at. at_of h j ∙ kept_own l (s.at j) v at;
  In-get_prefix = found;
}

abbrev order : Service
order = node (codes "order~1") (codes "10.0.0.1") (pos 2)

abbrev stored : Service
stored = record order {
  meta = some ((codes "health-check", codes "check") ∷ (codes "reg-time", codes "100") ∷ []);
}

-- An encoding that reads back what these runs write.
abbrev json : Json
json = record {
  marshal_service = λ svc. svc.id;
  unmarshal_service = λ t. some stored;
  marshal_health_check = λ h. some (codes "check");
  unmarshal_health_check = λ t. (
    record { interval = pos 0; timeout = pos 0; http = []; header = none; method = []; tcp = [] },
    true,
  );
}

nothing_there : (k : Text) (x : Text × ℕ) → ◌≡◌ {A = Option (Text × ℕ)} none (some x) → In k []
nothing_there k x h = absurd (cc)

abbrev empty_cluster : Cluster
empty_cluster = record { at = λ k. none; keys = []; next = 0; listed = nothing_there }

abbrev first : Returned cluster json
first = register cluster json (codes "host") (λ n. 100) (λ s. s) order none empty_cluster

registered : first ≡ (first.0, first.1, none)
unfolding register parse_service check_service_or_tag_name is_name_char has_weight with_id new_opts
    or_number bad_tag copy copy_map copy_slice copy_health_check copy_header init_parsed
    register_loop register_stored stamped with_check check_of_opts format_port format_int lookup
    insert text_eq put_service key_of set_lease ttl_of
registered = refl

holds : first.0.svc ≡ some stored
unfolding register parse_service check_service_or_tag_name is_name_char has_weight with_id new_opts
    or_number bad_tag copy copy_map copy_slice copy_health_check copy_header init_parsed
    register_loop register_stored stamped with_check check_of_opts format_port format_int lookup
    insert text_eq put_service key_of set_lease ttl_of
holds = refl

abbrev watching : Watcher
watching = new_watcher 0 (codes "order") [] none

abbrev watched : Watcher × Option WatchError
watched = first_get json cluster first.1 watching

read : watched ≡ (watched.0, none)
unfolding register parse_service check_service_or_tag_name is_name_char has_weight with_id new_opts
    or_number bad_tag copy copy_map copy_slice copy_health_check copy_header init_parsed
    register_loop register_stored stamped with_check check_of_opts format_port format_int lookup
    insert text_eq put_service key_of set_lease ttl_of first_get handler compare_service
    build_services new_watcher
read = refl

register-listed_example : In stored watched.0.services
unfolding key_of new_watcher
register-listed_example =
    register-listed cluster json (codes "host") (λ n. 100) (λ s. s) order none empty_cluster
      watching stored registered holds refl refl refl read

abbrev ended : Returned cluster json
ended = deregister cluster json first.0 first.1

is_ended : ended ≡ (ended.0, ended.1, none)
unfolding register parse_service check_service_or_tag_name is_name_char has_weight with_id new_opts
    or_number bad_tag copy copy_map copy_slice copy_health_check copy_header init_parsed
    register_loop register_stored stamped with_check check_of_opts format_port format_int lookup
    insert text_eq put_service key_of set_lease ttl_of deregister unregister
is_ended = refl

deregister_registered_example :
    cluster.value_at (key_of stored.id) ended.1 ≡ some (json.marshal_service stored, 0)
deregister_registered_example =
    deregister_registered cluster json (codes "host") (λ n. 100) (λ s. s) order none empty_cluster
      stored registered holds is_ended

abbrev updated : Returned cluster json
updated = update cluster json (codes "host") 100 order none first.0 first.1

is_updated : updated ≡ (updated.0, updated.1, none)
unfolding register parse_service check_service_or_tag_name is_name_char has_weight with_id new_opts
    or_number bad_tag copy copy_map copy_slice copy_health_check copy_header init_parsed
    register_loop register_stored stamped with_check check_of_opts format_port format_int lookup
    insert text_eq put_service key_of set_lease ttl_of update update_parsed
is_updated = refl

holds_updated : updated.0.svc ≡ some stored
unfolding register parse_service check_service_or_tag_name is_name_char has_weight with_id new_opts
    or_number bad_tag copy copy_map copy_slice copy_health_check copy_header init_parsed
    register_loop register_stored stamped with_check check_of_opts format_port format_int lookup
    insert text_eq put_service key_of set_lease ttl_of update update_parsed
holds_updated = refl

abbrev removed : Returned cluster json
removed = deregister cluster json updated.0 updated.1

is_removed : removed ≡ (removed.0, removed.1, none)
unfolding register parse_service check_service_or_tag_name is_name_char has_weight with_id new_opts
    or_number bad_tag copy copy_map copy_slice copy_health_check copy_header init_parsed
    register_loop register_stored stamped with_check check_of_opts format_port format_int lookup
    insert text_eq put_service key_of set_lease ttl_of update update_parsed deregister unregister
is_removed = refl

deregister_updated_example : cluster.value_at (key_of stored.id) removed.1 ≡ none
deregister_updated_example =
    deregister_updated cluster json (codes "host") (λ n. 100) (λ s. s) order order none none 100
      empty_cluster stored registered is_updated holds_updated is_removed
