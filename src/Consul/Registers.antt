-- ===== src/Consul/Registers.antt =====
-- adapter/consul/registry.go: the registration that a call of register leaves at the agent.
use xdiscovery.Consul.Stamps.{
  IsStamped, meta_of-stamps, Shows, IsStamped-refl, stamp_of, SameElsewhere,
}
use xdiscovery.Options.{RegisterOpts}
use xdiscovery.Service.{Service, or_nil}
use xdiscovery.Json.{Json}
use xdiscovery.Consul.{Agent, ServiceCheck, Registration}
use mathlib.Core.Path.{subst}
use xdiscovery.Consul.Registry.{
  Registry, check_of, register_stored, with_meta, registration_of, meta_of, put_registration,
}
use xdiscovery.Prelude.{
  ℕ, ◌≡◌, refl, sym, ap, ◌∙◌, inl, inr, Bool, true, false, none, some, arith, if◌then◌else◌,
  Bool-cases, Option-cases, Text, codes, Map, is_empty, lookup, text_eq_refl,
}

module _ (agent : Agent) (json : Json) where
  open agent use {State, service_at, service_register, check_deregister}

  -- After a call of `register` for `v`: the agent has the registration, and the registry the service.
  pub record IsRegistered (v : Service) (o : RegisterOpts) (check : ServiceCheck) (r : Registry)
      (s : State) : Type 0 where
    pub reg : Registration
    pub found : service_at v.id s ≡ some reg
    pub shows : Shows json v o check reg
    pub held : Service
    pub held_svc : r.svc ≡ some held
    pub stamped : IsStamped json o v held

  -- The check of a call, which an update marks as passing.
  abbrev pub call_check : Bool → Service → RegisterOpts → ServiceCheck
  call_check update v o =
      if update then record (check_of v o) { status = codes "passing" } else check_of v o

  with_meta-IsStamped :
      (o : RegisterOpts) (now : ℕ) (v : Service) {m : Map Text}
      → meta_of json (check_of v o) o now (or_nil v.meta) ≡ some m
      → IsStamped json o v (with_meta m v)
  unfolding with_meta check_of
  with_meta-IsStamped o now v {m} h =
      let (elsewhere, same, (c, at)) = meta_of-stamps json (check_of v o) o now (or_nil v.meta) h in
      elim (Option-cases v.meta) [
        | inl nil ↦ rw nil (IsStamped-refl json o (record v { meta = none }))
        | inr (m0, there) ↦
            (let stamps = λ (x : Map Text). stamp_of json (check_of v o) o x in
              let kept : stamps m ≡ lookup (codes "health-check") m = ground (arith, at) in
              rw there (record {
                only_meta = refl;
                elsewhere = subst (λ x. SameElsewhere m (or_nil x)) there elsewhere;
                stamp = kept ∙ same ∙ ap (λ x. stamps (or_nil x)) there;
              }))
      ]

  registration_of-Shows :
      (o : RegisterOpts) (now : ℕ) (v : Service) (check : ServiceCheck) {m : Map Text}
      → meta_of json (check_of v o) o now (or_nil v.meta) ≡ some m
      → Shows json v o check (registration_of v check m)
  unfolding registration_of
  registration_of-Shows o now v check {m} h =
      let (elsewhere, same, has) = meta_of-stamps json (check_of v o) o now (or_nil v.meta) h in
      record { fields = refl; elsewhere = elsewhere; stamp = same; has_stamp = has }

  put_registration-IsRegistered :
      (now : ℕ) (o : RegisterOpts) (v : Service) (check : ServiceCheck) (r : Registry) (s : State)
      {m : Map Text} {r' : Registry} {s' : State}
      → is_empty v.id ≡ false
      → meta_of json (check_of v o) o now (or_nil v.meta) ≡ some m
      → r.svc ≡ some (with_meta m v)
      → put_registration agent json (registration_of v check m) r s ≡ (r', s', none)
      → IsRegistered v o check r' s'
  unfolding registration_of
  put_registration-IsRegistered now o v check r s {m} {r'} {s'} id made held h =
      let reg = registration_of v check m in
      elim (Option-cases (service_register reg s)) [
        | inl fails ↦ absurd (ground arith)
        | inr (t, done) ↦
            let law = agent.service_at-service_register reg s t id done v.id in
            let end : t ≡ s' = ground arith in
            let same : r ≡ r' = ground arith in
            record {
              reg = reg;
              found =
                  ap (service_at v.id) (sym end)
                  ∙ law
                  ∙ ap (λ f. if f then some reg else service_at v.id s) (text_eq_refl v.id);
              shows = registration_of-Shows o now v check made;
              held = with_meta m v;
              held_svc = ap (λ x. x.svc) (sym same) ∙ held;
              stamped = with_meta-IsStamped o now v made;
            }
      ]

  pub register_stored-IsRegistered :
      (update : Bool) (now : ℕ) (o : RegisterOpts) (v : Service) (r : Registry) (s : State)
      {r' : Registry} {s' : State}
      → is_empty v.id ≡ false
      → register_stored agent json update now o v r s ≡ (r', s', none)
      → IsRegistered v o (call_check update v o) r' s'
  unfolding register_stored
  register_stored-IsRegistered update now o v r s {r'} {s'} id h =
      elim (Option-cases (meta_of json (check_of v o) o now (or_nil v.meta))) [
        | inl fails ↦ absurd (ground arith)
        | inr (m, made) ↦
            let next : Registry = record r { svc = some (with_meta m v) } in
            elim (Bool-cases update) [
              | inl up ↦ elim (Option-cases (check_deregister (check_of v o).check_id s)) [
                | inl fails ↦ absurd (ground arith)
                | inr (t, gone) ↦
                    let reg = registration_of v (call_check true v o) m in
                    let run : put_registration agent json reg next t ≡ (r', s', none) =
                      ground arith in
                    rw up (
                      put_registration-IsRegistered now o v (call_check true v o) next t id made
                        refl run)
              ]
              | inr first ↦
                  let reg = registration_of v (check_of v o) m in
                  let run : put_registration agent json reg next s ≡ (r', s', none) =
                    ground arith in
                  rw first
                    (put_registration-IsRegistered now o v (check_of v o) next s id made refl run)
            ]
      ]

  -- A call of `register`, whatever it returns, only stamps the registry's service.
  pub register_stored_svc :
      (update : Bool) (now : ℕ) (o : RegisterOpts) (v : Service) (r : Registry) (s : State)
      → r.svc ≡ some v
      → let r' = (register_stored agent json update now o v r s).0 in
        ((w : Service) × (r'.svc ≡ some w) × IsStamped json o v w)
        × (r'.de_registered ≡ r.de_registered)
        × (r'.opts ≡ r.opts)
  unfolding register_stored
  register_stored_svc update now o v r s h =
      elim (Option-cases (meta_of json (check_of v o) o now (or_nil v.meta))) [
        | inl fails ↦
            let same : (register_stored agent json update now o v r s).0 ≡ r = ground arith in
            (
              (v, ap (λ x. x.svc) same ∙ h, IsStamped-refl json o v),
              ap (λ x. x.de_registered) same,
              ap (λ x. x.opts) same,
            )
        | inr (m, made) ↦
            let next : Registry = record r { svc = some (with_meta m v) } in
            let same : (register_stored agent json update now o v r s).0 ≡ next = ground arith in
            (
              (with_meta m v, ap (λ x. x.svc) same, with_meta-IsStamped o now v made),
              ap (λ x. x.de_registered) same,
              ap (λ x. x.opts) same,
            )
      ]
