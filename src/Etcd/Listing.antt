-- ===== src/Etcd/Listing.antt =====
-- adapter/etcd: what a watcher lists of what was registered.
use xdiscovery.Etcd.Lifecycle.{register-IsStored, service_at}
use xdiscovery.Etcd.Registry.{Registry, register, key_of}
use xdiscovery.Options.{RegisterOpts}
use xdiscovery.Etcd.{Etcd, has_prefix}
use mathlib.Core.Path.{subst}
use xdiscovery.Json.{Json}
use xdiscovery.Etcd.Watch.{Watcher, build_services, first_get, compare_service, handler}
use xdiscovery.Prelude.{
  ℕ, ◌≡◌, refl, sym, ap, ◌∙◌, ◌↔◌, inl, inr, true, Option, none, some, List, [], ◌∷◌, arith,
  Option-cases, In, Text,
}
use xdiscovery.Service.{Service}

build_services-In :
    (json : Json) (vs : List Text) (svcs : List Service)
    → build_services json vs ≡ some svcs
    → (s : Service) → In s svcs ↔ ((v : Text) × In v vs × (json.unmarshal_service v ≡ some s))
unfolding build_services
build_services-In json [] svcs h s =
    let none_ : [] ≡ svcs = ground arith in
    (λ m. absurd (subst (In s) (sym none_) m), λ (v, m, e). absurd m)
build_services-In json (v ∷ vs) svcs h s = elim (Option-cases (json.unmarshal_service v)) [
  | inl bad ↦ absurd (ground arith)
  | inr (x, good) ↦ elim (Option-cases (build_services json vs)) [
    | inl bad ↦ absurd (ground arith)
    | inr (rest, more) ↦
        let whole : x ∷ rest ≡ svcs = ground arith in
        let (f, g) = build_services-In json vs rest more s in
        (
          λ m. elim (subst (In s) (sym whole) m) [
            | inl here ↦ (v, inl refl, good ∙ ap some here)
            | inr there ↦ let (u, at, e) = f there in (u, inr at, e)
          ],
          λ (u, m, e). subst (In s) whole (elim m [
            | inl here ↦ inl (
                let same = ap json.unmarshal_service here in
                let both : some x ≡ some s = sym good ∙ same ∙ e in cc)
            | inr there ↦ inr (g (u, there, e))
          ]),
        )
  ]
]

module _ (e : Etcd) (json : Json) where
  open e use {Store, value_at, get_prefix}

  compare_service-services :
      (vs : List Text) (w : Watcher) {w' : Watcher}
      → compare_service json vs w ≡ (w', none)
      → build_services json vs ≡ some w'.services
  unfolding compare_service
  compare_service-services vs w h = ground arith

  first_get-listed :
      (s : Store) (w : Watcher) (v : Text) (vs : List Text) {w' : Watcher}
      → get_prefix w.service s ≡ some (v ∷ vs)
      → first_get json e s w ≡ (w', none)
      → build_services json (v ∷ vs) ≡ some w'.services
  unfolding first_get handler
  first_get-listed s w v vs {w'} found h =
      let start : Watcher = record w { last_get_resp = v ∷ vs } in
      let run = compare_service json (v ∷ vs) start in
      let quiet : run.1 ≡ none = ground arith in
      let same : run ≡ (run.0, none) = ground arith in
      let list = compare_service-services (v ∷ vs) start same in
      let end : run.0.services ≡ w'.services = ground arith in list ∙ ap some end

  -- The first read of a new watcher, if it succeeds, lists the services that stand under a key that
  -- begins with the watcher's service, and no others.
  pub first_get-In :
      (s : Store) (w : Watcher) {w' : Watcher}
      → w.services ≡ []
      → first_get json e s w ≡ (w', none)
      → (svc : Service)
      → In svc w'.services ↔ (
          (k v : Text) × (l : ℕ) × (has_prefix w.service k ≡ true)
          × (value_at k s ≡ some (v, l))
          × (json.unmarshal_service v ≡ some svc))
  unfolding first_get handler
  first_get-In s w {w'} empty h svc = elim (Option-cases (get_prefix w.service s)) [
    | inl fails ↦ absurd (ground arith)
    | inr ([], found) ↦
        let law = e.In-get_prefix w.service s [] found in
        let same : w'.services ≡ [] = ground arith in
        (
          λ m. absurd (subst (In svc) same m),
          λ (k, v, l, p, at, d). absurd ((law v).1 (k, l, p, at)),
        )
    | inr (v ∷ vs, found) ↦
        let law = e.In-get_prefix w.service s (v ∷ vs) found in
        let listed = first_get-listed s w v vs found h in
        let (f, g) = build_services-In json (v ∷ vs) w'.services listed svc in
        (
          λ m.
              (let (u, at, d) = f m in
                let (k, l, p, there) = (law u).0 at in (k, u, l, p, there, d)),
          λ (k, u, l, p, at, d). g (u, (law u).1 (k, l, p, at), d),
        )
  ]

  -- A service that was registered with success is listed by a new watcher for a beginning of its
  -- key, such as its name, if the watcher's read succeeds and the service is read back as it was
  -- written.
  pub register-listed :
      (hostname : Text) (now : ℕ → ℕ) (sleep : Store → Store) (svc : Service)
      (opts : Option RegisterOpts) (s : Store) (w : Watcher) (v : Service) {r : Registry}
      {s' : Store} {w' : Watcher}
      → register e json hostname now sleep svc opts s ≡ (r, s', none)
      → r.svc ≡ some v
      → json.unmarshal_service (json.marshal_service v) ≡ some v
      → has_prefix w.service (key_of v.id) ≡ true
      → w.services ≡ []
      → first_get json e s' w ≡ (w', none)
      → In v w'.services
  register-listed hostname now sleep svc opts s w v {s' = s'} done is_v reads prefix empty got =
      let h = register-IsStored e json hostname now sleep svc opts s done in
      let at = service_at e json h is_v in
      (first_get-In s' w empty got v).1 (key_of v.id, json.marshal_service v, 0, prefix, at, reads)
