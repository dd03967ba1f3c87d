-- ===== src/Consul/History.antt =====
-- adapter/consul/registry.go: any calls on one registry, with what others do to the agent.
use xdiscovery.Service.Copy.{copy}
use xdiscovery.Etcd.Registry.{no_opts}
use xdiscovery.Adapter.Checks.{parse_service-IsAllowed}
use xdiscovery.Adapter.{parse_service}
use xdiscovery.Etcd.Lifecycle.{parse_cases}
use xdiscovery.Options.{RegisterOpts}
use xdiscovery.Service.{Service}
use xdiscovery.Json.{Json}
use xdiscovery.Consul.{Agent}
use mathlib.Core.Path.{subst}
use xdiscovery.Consul.Registry.{
  Registry, update, deregister, register_stored, register, update_parsed, unregister,
}
use xdiscovery.Consul.Registers.{register_stored_svc}
use xdiscovery.Consul.Lifecycle.{register-IsRegistered, is_empty-parsed}
use xdiscovery.Prelude.{
  ℕ, ◌≡◌, refl, sym, ap, ◌∙◌, inl, inr, true, false, not, ◌||◌, Option, none, some, arith,
  if◌then◌else◌, Bool-cases, Option-cases, Text, is_empty, text_eq, text_eq→≡,
}

module _ (agent : Agent) (json : Json) where
  open agent use {State, service_at, service_deregister}

  -- What happens to a registry and the agent, one call or change after the other.
  pub data History : Registry → State → Registry → State → Type 0 where
    ends : {r : Registry} {s : State} → History r s r s
    others : {r r' : Registry} {s t s' : State} → History r t r' s' → History r s r' s'
    updates :
        {r r' : Registry} {s s' : State} (hostname : Text) (now : ℕ) (svc : Service)
        (opts : Option RegisterOpts)
        → History
            (update agent json hostname now svc opts r s).0
            (update agent json hostname now svc opts r s).1
            r'
            s'
        → History r s r' s'
    deregisters :
        {r r' : Registry} {s s' : State}
        → History (deregister agent json r s).0 (deregister agent json r s).1 r' s'
        → History r s r' s'

  -- The registry is for a service with the id and the name.
  pub record IsFor (id name : Text) (r : Registry) : Type 0 where
    pub svc : Service
    pub held : r.svc ≡ some svc
    pub same_id : svc.id ≡ id
    pub same_name : svc.name ≡ name
    pub has_id : is_empty id ≡ false

  deregister-svc : (r : Registry) (s : State) → (deregister agent json r s).0.svc ≡ r.svc
  unfolding deregister unregister
  deregister-svc r s = ground arith

  update_parsed-IsFor :
      (hostname : Text) (now : ℕ) (svc : Service) (given : RegisterOpts) (r : Registry) (s : State)
      {id name : Text}
      → svc.id ≡ id
      → svc.name ≡ name
      → IsFor id name r
      → IsFor id name ((update_parsed agent json hostname now svc given r s).0)
  unfolding update_parsed
  update_parsed-IsFor hostname now svc given r s {id} {name} same_id same_name h =
      elim (parse_cases (parse_service hostname svc given)) [
        | inr (f, fails) ↦
            let same : (update_parsed agent json hostname now svc given r s).0 ≡ r = ground arith in
            subst (IsFor id name) (sym same) h
        | inl (v, o, good) ↦
            let start : Registry = record r { svc = some v; opts = some o } in
            let ((w, is_w, stamped), flag, opts) =
              register_stored_svc agent json true now o v start s refl in
            let (same, kept, made, opts') =
              (parse_service-IsAllowed hostname svc given).1 v o good in
            let full : is_empty svc.id ≡ false = ap is_empty same_id ∙ h.has_id in
            let end : (update_parsed agent json hostname now svc given r s).0
                ≡ (register_stored agent json true now o v start s).0 =
              ground arith in
            subst (IsFor id name) (sym end) (record {
              svc = w;
              held = is_w;
              same_id = ap (λ x. x.id) stamped.only_meta ∙ kept full ∙ same_id;
              same_name = ap (λ x. x.name) stamped.only_meta ∙ ap (λ x. x.name) same ∙ same_name;
              has_id = h.has_id;
            })
      ]

  update-IsFor :
      (hostname : Text) (now : ℕ) (svc : Service) (opts : Option RegisterOpts) (r : Registry)
      (s : State) {id name : Text}
      → IsFor id name r
      → IsFor id name ((update agent json hostname now svc opts r s).0)
  unfolding update
  update-IsFor hostname now svc opts r s {id} {name} h =
      let given : RegisterOpts = elim opts [ none ↦ no_opts | some o ↦ o ] in
      let after = (update agent json hostname now svc opts r s).0 in
      let held = h.held in
      let changed =
        not (text_eq (copy svc).id h.svc.id) || not (text_eq (copy svc).name h.svc.name) in
      elim (Bool-cases (r.de_registered || changed)) [
        | inl refused ↦ let same : after ≡ r = ground arith in subst (IsFor id name) (sym same) h
        | inr allowed ↦
            let same : after ≡ (update_parsed agent json hostname now (copy svc) given r s).0 =
              ground arith in
            let same_id = text_eq→≡ (copy svc).id h.svc.id (ground arith) in
            let same_name = text_eq→≡ (copy svc).name h.svc.name (ground arith) in
            subst (IsFor id name) (sym same) (
              update_parsed-IsFor hostname now (copy svc) given r s (same_id ∙ h.same_id)
                (same_name ∙ h.same_name) h)
      ]

  History-IsFor :
      {id name : Text} {r r' : Registry} {s s' : State}
      → IsFor id name r
      → History r s r' s'
      → IsFor id name r'
  History-IsFor h ends = h
  History-IsFor h (others run) = History-IsFor h run
  History-IsFor {r = r} {s = s} h (updates hostname now svc opts run) =
      History-IsFor (update-IsFor hostname now svc opts r s h) run
  History-IsFor {r = r} {s = s} h (deregisters run) =
      History-IsFor
        (record {
          svc = h.svc;
          held = deregister-svc r s ∙ h.held;
          same_id = h.same_id;
          same_name = h.same_name;
          has_id = h.has_id;
        })
        run

  deregister-removes :
      {id name : Text} (r : Registry) (s : State) {r' : Registry} {s' : State}
      → IsFor id name r
      → deregister agent json r s ≡ (r', s', none)
      → (j : Text) → service_at j s' ≡ (if text_eq id j then none else service_at j s)
  unfolding deregister unregister
  deregister-removes r s {s' = s'} h b j =
      let held = h.held in
      elim (Option-cases (service_deregister h.svc.id s)) [
        | inl fails ↦ absurd (ground arith)
        | inr (t, done) ↦
            let end : t ≡ s' = ground arith in
            ap (service_at j) (sym end)
            ∙ agent.service_at-service_deregister h.svc.id s t done j
            ∙ ap (λ i. if text_eq i j then none else service_at j s) h.same_id
      ]

  -- Whatever was called on a registry since its service was registered, with or without success,
  -- and whatever others did to the agent: a call of `Deregister` with success removes the id that was
  -- registered from the agent, and no other.
  pub deregister-removes_id :
      (hostname : Text) (now : ℕ → ℕ) (sleep : State → State) (svc : Service)
      (opts : Option RegisterOpts) (s : State) (v : Service) {r1 r2 r3 : Registry}
      {s1 s2 s3 : State}
      → register agent json hostname now sleep svc opts s ≡ (r1, s1, none)
      → r1.svc ≡ some v
      → History r1 s1 r2 s2
      → deregister agent json r2 s2 ≡ (r3, s3, none)
      → (j : Text) → service_at j s3 ≡ (if text_eq v.id j then none else service_at j s2)
  deregister-removes_id hostname now sleep svc opts s v {r1} {r2} {s2 = s2} a is_v run b j =
      let given : RegisterOpts = elim opts [ none ↦ no_opts | some o ↦ o ] in
      let (w, o, good, there, opts', flag) =
        register-IsRegistered agent json hostname now sleep svc opts s a in
      let same : some there.held ≡ some v = sym there.held_svc ∙ is_v in
      let same' : there.held ≡ v = cc in
      let start : IsFor v.id v.name r1 = record {
        svc = v;
        held = is_v;
        same_id = refl;
        same_name = refl;
        has_id =
            ap (λ x. is_empty x.id) (sym same')
            ∙ ap (λ x. is_empty x.id) there.stamped.only_meta
            ∙ is_empty-parsed hostname (copy svc) given good;
      } in
      deregister-removes r2 s2 (History-IsFor start run) b j
