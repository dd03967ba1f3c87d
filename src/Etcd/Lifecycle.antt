-- ===== src/Etcd/Lifecycle.antt =====
-- adapter/etcd/registry.go: the key of a service, from its registration to its deregistration.
use xdiscovery.Service.Copy.{copy}
use xdiscovery.Adapter.{Parsed, parsed, ParseError, parse_failed, parse_service}
use xdiscovery.Etcd.Registry.{
  put_service, Registry, stamped, key_of, register_stored, register_loop, set_lease, register,
  deregister, unregister, init_parsed, no_opts, new_registry, ttl_of, update, update_parsed,
}
use xdiscovery.Json.{Json}
use xdiscovery.Etcd.{Etcd}
use xdiscovery.Prelude.{
  ℕ, zero, suc, ◌<◌, ◌≡◌, refl, sym, ap, ◌∙◌, ◌⊎◌, inl, inr, true, false, Option, none, some, arith,
  Bool-cases, Option-cases, ℤ, Text, text_eq_refl, ◌==◌,
}
use mathlib.Core.Path.{subst}
use xdiscovery.Service.{Service}
use xdiscovery.Options.{RegisterOpts}

pub parse_cases :
    (p : Parsed)
    → ((s : Service) × (o : RegisterOpts) × (p ≡ parsed s o))
      ⊎ ((f : ParseError) × (p ≡ parse_failed f))
parse_cases (parsed s o) = inl (s, o, refl)
parse_cases (parse_failed f) = inr (f, refl)

module _ (e : Etcd) (json : Json) where
  open e use {Store, value_at, put, grant, keep_alive, revoke}

  -- The registry's service stands at its key, under the lease `attached`, and the registry has a
  -- lease of its own.
  pub record IsStored (attached : ℕ) (r : Registry) (s : Store) : Type 0 where
    pub service : Service
    pub lease : ℕ
    pub held : r.svc ≡ some service
    pub stored : value_at (key_of service.id) s ≡ some (json.marshal_service service, attached)
    pub leased : r.lease ≡ some lease
    pub positive : 0 < lease
    pub registered : r.de_registered ≡ false

  stamped-id :
      (opts : RegisterOpts) (now : ℕ) (svc : Service) {v : Service}
      → stamped json opts now svc ≡ some v
      → v.id ≡ svc.id
  unfolding stamped
  stamped-id opts now svc h = ground arith

  -- A registry that has its service stored by `register`.
  record Put (attached : ℕ) (r r' : Registry) (s' : Store) : Type 0 where
    service : Service
    held : r'.svc ≡ some service
    stored : value_at (key_of service.id) s' ≡ some (json.marshal_service service, attached)
    same_lease : r'.lease ≡ r.lease
    same_flag : r'.de_registered ≡ r.de_registered

  put_service-Put :
      (svc : Service) (lease : ℕ) (r : Registry) (s : Store) {r' : Registry} {s' : Store}
      → put_service e json svc lease r s ≡ (r', s', none)
      → Put lease r r' s'
  unfolding put_service
  put_service-Put svc lease r s {r'} {s'} h =
      elim (Option-cases (put (key_of svc.id) (json.marshal_service svc) lease s)) [
        | inl fails ↦ absurd (ground arith)
        | inr (t, done) ↦
            let law =
              e.value_at-put (key_of svc.id) (json.marshal_service svc) lease s t done
                (key_of svc.id) in
            let same = text_eq_refl (key_of svc.id) in
            let end : t ≡ s' = ground arith in
            record {
              service = svc;
              held = ground arith;
              stored = ap (value_at (key_of svc.id)) (sym end) ∙ ground arith;
              same_lease = ground arith;
              same_flag = ground arith;
            }
      ]

  register_stored-Put :
      (now : ℕ) (opts : RegisterOpts) (svc : Service) (r : Registry) (s : Store) {r' : Registry}
      {s' : Store}
      → register_stored e json false now opts svc r s ≡ (r', s', none)
      → Put 0 r r' s'
  unfolding register_stored
  register_stored-Put now opts svc r s {r'} {s'} h =
      elim (Option-cases (stamped json opts now svc)) [
        | inl fails ↦ absurd (ground arith)
        | inr (v, done) ↦
            let run : put_service e json v 0 r s ≡ (r', s', none) = ground arith in
            put_service-Put v 0 r s run
      ]

  register_stored_failed :
      (now : ℕ) (opts : RegisterOpts) (svc : Service) (r : Registry) (s : Store)
      → ((register_stored e json false now opts svc r s).0.lease ≡ r.lease)
        × ((register_stored e json false now opts svc r s).0.de_registered ≡ r.de_registered)
  unfolding register_stored put_service
  register_stored_failed now opts svc r s = (ground arith, ground arith)

  register_loop-Put :
      (left : ℕ) (now : ℕ → ℕ) (sleep : Store → Store) (opts : RegisterOpts) (svc : Service)
      (r : Registry) (s : Store) {r' : Registry} {s' : Store}
      → 0 < left
      → register_loop e json left now sleep opts svc r s ≡ (r', s', none)
      → Put 0 r r' s'
  unfolding register_loop
  register_loop-Put zero now sleep opts svc r s p h = absurd (omega arith)
  register_loop-Put (suc left) now sleep opts svc r s {r'} {s'} p h =
      let first = register_stored e json false (now left) opts svc r s in
      elim (Option-cases first.2) [
        | inl fine ↦
            let run : first ≡ (r', s', none) = ground arith in
            register_stored-Put (now left) opts svc r s run
        | inr (f, fails) ↦ elim (Bool-cases (left == 0)) [
          | inl last ↦ absurd (ground arith)
          | inr more ↦
              let next : Service = elim first.0.svc [ none ↦ svc | some v ↦ v ] in
              let run : register_loop e json left now sleep opts next first.0 (sleep first.1)
                  ≡ (r', s', none) =
                ground arith in
              let (lease, flag) = register_stored_failed (now left) opts svc r s in
              let put =
                register_loop-Put left now sleep opts next first.0 (sleep first.1) (ground arith)
                  run in
              record {
                service = put.service;
                held = put.held;
                stored = put.stored;
                same_lease = put.same_lease ∙ lease;
                same_flag = put.same_flag ∙ flag;
              }
        ]
      ]

  set_lease-IsStored :
      (ttl : ℤ) (start r : Registry) (s : Store) {r' : Registry} {s' : Store}
      → start.de_registered ≡ false
      → Put 0 start r s
      → set_lease e json ttl r s ≡ (r', s', none)
      → IsStored 0 r' s'
  unfolding set_lease
  set_lease-IsStored ttl start r s {r'} {s'} flag put h = elim (Option-cases (grant ttl s)) [
    | inl fails ↦ absurd (ground arith)
    | inr ((t, l), granted) ↦ elim (Option-cases (keep_alive l t)) [
      | inl fails ↦ absurd (ground arith)
      | inr (u, alive) ↦
          let first = e.value_at-grant ttl s t l granted (key_of put.service.id) in
          let second = e.value_at-keep_alive l t u alive (key_of put.service.id) in
          let end : u ≡ s' = ground arith in
          let held = put.held in
          let kept = put.same_flag in
          record {
            service = put.service;
            lease = l;
            held = ground arith;
            stored = ap (value_at (key_of put.service.id)) (sym end) ∙ second ∙ first ∙ put.stored;
            leased = ground arith;
            positive = e.grant_nonzero ttl s t l granted;
            registered = ground arith;
          }
    ]
  ]

  pub service_at :
      {attached : ℕ} {r : Registry} {s : Store} {v : Service}
      → IsStored attached r s
      → r.svc ≡ some v
      → value_at (key_of v.id) s ≡ some (json.marshal_service v, attached)
  service_at {attached} {r} {s} {v} h is_v =
      let same : some h.service ≡ some v = sym h.held ∙ is_v in
      let same' : h.service ≡ v = cc in
      subst (λ x. value_at (key_of x.id) s ≡ some (json.marshal_service x, attached)) same' h.stored

  -- A service that was registered with success stands at its key, under no lease: the lease is
  -- granted after the put.
  pub register-IsStored :
      (hostname : Text) (now : ℕ → ℕ) (sleep : Store → Store) (svc : Service)
      (opts : Option RegisterOpts) (s : Store) {r' : Registry} {s' : Store}
      → register e json hostname now sleep svc opts s ≡ (r', s', none)
      → IsStored 0 r' s'
  unfolding register init_parsed
  register-IsStored hostname now sleep svc opts s {r'} {s'} h =
      let given : RegisterOpts = elim opts [ none ↦ no_opts | some o ↦ o ] in
      elim (parse_cases (parse_service hostname (copy svc) given)) [
        | inr (f, fails) ↦ absurd (ground arith)
        | inl (v, o, good) ↦
            let start : Registry = record new_registry { svc = some v; opts = some o } in
            let loop = register_loop e json 2 now sleep o v start s in
            elim (Option-cases loop.2) [
              | inr (f, fails) ↦ absurd (ground arith)
              | inl fine ↦
                  let run : loop ≡ (loop.0, loop.1, none) = ground arith in
                  let put = register_loop-Put 2 now sleep o v start s (omega arith) run in
                  let lease : set_lease e json (ttl_of given) loop.0 loop.1 ≡ (r', s', none) =
                    ground arith in
                  set_lease-IsStored (ttl_of given) start loop.0 loop.1 refl put lease
            ]
      ]

  deregister-keeps :
      (r : Registry) (s : Store) {r' : Registry} {s' : Store}
      → (h : IsStored 0 r s) → deregister e json r s ≡ (r', s', none)
      → value_at (key_of h.service.id) s' ≡ some (json.marshal_service h.service, 0)
  unfolding deregister unregister
  deregister-keeps r s {r'} {s'} h d =
      let leased = h.leased in
      let flag = h.registered in
      elim (Option-cases (revoke h.lease s)) [
        | inl fails ↦ absurd (ground arith)
        | inr (t, done) ↦
            let end : t ≡ s' = ground arith in
            let pos_ = h.positive in
            ap (value_at (key_of h.service.id)) (sym end)
            ∙ e.value_at-revoke_other h.lease s t (key_of h.service.id)
                (json.marshal_service h.service) 0 done h.stored (λ z. absurd (omega arith))
      ]

  -- A service that was registered and then deregistered, each with success and nothing in between,
  -- still stands at its key, as it was stored: its key is attached to no lease.
  pub deregister_registered :
      (hostname : Text) (now : ℕ → ℕ) (sleep : Store → Store) (svc : Service)
      (opts : Option RegisterOpts) (s : Store) (v : Service) {r1 r2 : Registry} {s1 s2 : Store}
      → register e json hostname now sleep svc opts s ≡ (r1, s1, none)
      → r1.svc ≡ some v
      → deregister e json r1 s1 ≡ (r2, s2, none)
      → value_at (key_of v.id) s2 ≡ some (json.marshal_service v, 0)
  deregister_registered hostname now sleep svc opts s v {r1} {r2} {s1} {s2} a is_v b =
      let h = register-IsStored hostname now sleep svc opts s a in
      let same : some h.service ≡ some v = sym h.held ∙ is_v in
      let same' : h.service ≡ v = cc in
      subst (λ x. value_at (key_of x.id) s2 ≡ some (json.marshal_service x, 0)) same'
        (deregister-keeps r1 s1 h b)

  register_stored_update-Put :
      (now : ℕ) (opts : RegisterOpts) (svc : Service) (r : Registry) (s : Store) (l : ℕ)
      {r' : Registry} {s' : Store}
      → r.lease ≡ some l
      → register_stored e json true now opts svc r s ≡ (r', s', none)
      → Put l r r' s'
  unfolding register_stored
  register_stored_update-Put now opts svc r s l {r'} {s'} leased h =
      elim (Option-cases (stamped json opts now svc)) [
        | inl fails ↦ absurd (ground arith)
        | inr (v, done) ↦
            let run : put_service e json v l r s ≡ (r', s', none) = ground arith in
            put_service-Put v l r s run
      ]

  -- An update puts the service again, now under the registry's lease.
  pub update-IsStored :
      (hostname : Text) (now : ℕ) (svc : Service) (opts : Option RegisterOpts) (attached : ℕ)
      (r : Registry) (s : Store) {r' : Registry} {s' : Store}
      → (h : IsStored attached r s) → update e json hostname now svc opts r s ≡ (r', s', none)
      → (k : IsStored h.lease r' s') × (k.lease ≡ h.lease)
  unfolding update update_parsed
  update-IsStored hostname now svc opts attached r s {r'} {s'} h u =
      let given : RegisterOpts = elim opts [ none ↦ no_opts | some o ↦ o ] in
      let flag = h.registered in
      let held = h.held in
      elim (parse_cases (parse_service hostname (copy svc) given)) [
        | inr (f, fails) ↦ absurd (ground arith)
        | inl (v, o, good) ↦
            let next : Registry = record r { svc = some v; opts = some o } in
            let run : register_stored e json true now o v next s ≡ (r', s', none) = ground arith in
            let put = register_stored_update-Put now o v next s h.lease h.leased run in
            (
              record {
                service = put.service;
                lease = h.lease;
                held = put.held;
                stored = put.stored;
                leased = put.same_lease ∙ h.leased;
                positive = h.positive;
                registered = put.same_flag ∙ h.registered;
              },
              refl,
            )
      ]

  deregister-removes :
      (r : Registry) (s : Store) {r' : Registry} {s' : Store}
      → (attached : ℕ) (h : IsStored attached r s) → attached ≡ h.lease
      → deregister e json r s ≡ (r', s', none)
      → value_at (key_of h.service.id) s' ≡ none
  unfolding deregister unregister
  deregister-removes r s {r'} {s'} attached h same d =
      let leased = h.leased in
      let flag = h.registered in
      elim (Option-cases (revoke h.lease s)) [
        | inl fails ↦ absurd (ground arith)
        | inr (t, done) ↦
            let end : t ≡ s' = ground arith in
            ap (value_at (key_of h.service.id)) (sym end)
            ∙ e.value_at-revoke h.lease s t (key_of h.service.id) (json.marshal_service h.service)
                done (h.stored ∙ ap (λ a. some (json.marshal_service h.service, a)) same)
      ]

  -- A service that was registered, updated and deregistered, each with success and nothing in
  -- between, is gone from its key.
  pub deregister_updated :
      (hostname : Text) (now : ℕ → ℕ) (sleep : Store → Store) (svc svc' : Service)
      (opts opts' : Option RegisterOpts) (later : ℕ) (s : Store) (v : Service) {r1 r2 r3 : Registry}
      {s1 s2 s3 : Store}
      → register e json hostname now sleep svc opts s ≡ (r1, s1, none)
      → update e json hostname later svc' opts' r1 s1 ≡ (r2, s2, none)
      → r2.svc ≡ some v
      → deregister e json r2 s2 ≡ (r3, s3, none)
      → value_at (key_of v.id) s3 ≡ none
  deregister_updated hostname now sleep svc svc' opts opts' later s v {r1} {r2} {s1 = s1} {s2} {s3}
        a b is_v c =
      let first = register-IsStored hostname now sleep svc opts s a in
      let (second, same) = update-IsStored hostname later svc' opts' 0 r1 s1 first b in
      let same_svc : some second.service ≡ some v = sym second.held ∙ is_v in
      let same' : second.service ≡ v = cc in
      subst (λ x. value_at (key_of x.id) s3 ≡ none) same'
        (deregister-removes r2 s2 first.lease second (sym same) c)
