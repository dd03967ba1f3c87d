-- ===== src/Consul/Lifecycle.antt =====
-- adapter/consul/registry.go: the registration of a service with its two tries.
use xdiscovery.Etcd.Lifecycle.{parse_cases}
use xdiscovery.Service.Copy.{copy}
use xdiscovery.Adapter.Checks.{parse_service-IsAllowed}
use xdiscovery.Adapter.{parse_service, parsed}
use xdiscovery.Consul.Stamps.{IsStamped, Shows-stamped, IsStamped-trans}
use xdiscovery.Json.{Json}
use xdiscovery.Options.{RegisterOpts}
use xdiscovery.Consul.{Agent}
use xdiscovery.Service.{Service}
use xdiscovery.Consul.Registers.{IsRegistered, register_stored_svc, register_stored-IsRegistered}
use xdiscovery.Consul.Registry.{new_registry}
use xdiscovery.Etcd.Registry.{no_opts}
use xdiscovery.Consul.Registry.{Registry, check_of, register_stored, register_loop, register}
use xdiscovery.Prelude.{
  ℕ, zero, suc, ◌<◌, ◌≡◌, refl, sym, ap, ◌∙◌, inl, inr, false, Option, none, some, [], ◌∷◌, ◌++◌,
  arith, Bool-cases, Option-cases, Text, codes, is_empty, ◌==◌,
}

is_empty-mark : (a b c : Text) → is_empty (a ++ codes "~" ++ b ++ codes "~" ++ c) ≡ false
is_empty-mark [] b c = refl
is_empty-mark (x ∷ a) b c = refl

-- An id is never empty.
pub is_empty-parsed :
    (hostname : Text) (svc : Service) (given : RegisterOpts) {v : Service} {o : RegisterOpts}
    → parse_service hostname svc given ≡ parsed v o
    → is_empty v.id ≡ false
is_empty-parsed hostname svc given {v} {o} h =
    let (same, kept, made, opts) = (parse_service-IsAllowed hostname svc given).1 v o h in
    elim (Bool-cases (is_empty svc.id)) [
      | inl empty ↦ ap is_empty (made empty) ∙ is_empty-mark svc.name svc.address hostname
      | inr full ↦ ap is_empty (kept full) ∙ full
    ]

module _ (agent : Agent) (json : Json) where
  open agent use {State, service_at, service_register, check_deregister}

  IsRegistered-stamped :
      {o : RegisterOpts} {v w : Service} {r : Registry} {s : State}
      → IsStamped json o v w
      → IsRegistered agent json w o (check_of w o) r s
      → IsRegistered agent json v o (check_of v o) r s
  IsRegistered-stamped {s = s} g h = record {
    reg = h.reg;
    found = ap (λ x. service_at x.id s) (sym g.only_meta) ∙ h.found;
    shows = Shows-stamped g h.shows;
    held = h.held;
    held_svc = h.held_svc;
    stamped = IsStamped-trans g h.stamped;
  }

  register_loop-IsRegistered :
      (left : ℕ) (now : ℕ → ℕ) (sleep : State → State) (o : RegisterOpts) (v : Service)
      (r : Registry) (s : State) {r' : Registry} {s' : State}
      → 0 < left
      → is_empty v.id ≡ false
      → r.svc ≡ some v
      → register_loop agent json left now sleep o v r s ≡ (r', s', none)
      → IsRegistered agent json v o (check_of v o) r' s'
        × (r'.opts ≡ r.opts)
        × (r'.de_registered ≡ r.de_registered)
  unfolding register_loop
  register_loop-IsRegistered zero now sleep o v r s p id is_v h = absurd (omega arith)
  register_loop-IsRegistered (suc left) now sleep o v r s {r'} {s'} p id is_v h =
      let first = register_stored agent json false (now left) o v r s in
      let ((w, is_w, stamped), flag, opts) =
        register_stored_svc agent json false (now left) o v r s is_v in
      elim (Option-cases first.2) [
        | inl fine ↦
            let run : first ≡ (r', s', none) = ground arith in
            let same : first.0 ≡ r' = ap (λ x. x.0) run in
            (
              register_stored-IsRegistered agent json false (now left) o v r s id run,
              ap (λ x. x.opts) (sym same) ∙ opts,
              ap (λ x. x.de_registered) (sym same) ∙ flag,
            )
        | inr (f, fails) ↦ elim (Bool-cases (left == 0)) [
          | inl last ↦ absurd (ground arith)
          | inr more ↦
              let run : register_loop agent json left now sleep o w first.0 (sleep first.1)
                  ≡ (r', s', none) =
                ground arith in
              let id_w : is_empty w.id ≡ false = ap (λ x. is_empty x.id) stamped.only_meta ∙ id in
              let (rest, opts', flag') =
                register_loop-IsRegistered left now sleep o w first.0 (sleep first.1) (ground arith)
                  id_w is_w run in
              (IsRegistered-stamped stamped rest, opts' ∙ opts, flag' ∙ flag)
        ]
      ]

  -- A service that was registered with success, at the first try or at the second, was let through
  -- by `ParseService`, and the agent has a registration with the fields of the parsed service, its
  -- weight for a passing and for a warning check, the one check of the options, and its metadata
  -- but for the stamps; the registry is not deregistered.
  pub register-IsRegistered :
      (hostname : Text) (now : ℕ → ℕ) (sleep : State → State) (svc : Service)
      (opts : Option RegisterOpts) (s : State) {r' : Registry} {s' : State}
      → register agent json hostname now sleep svc opts s ≡ (r', s', none)
      → (v : Service) × (o : RegisterOpts) × (parse_service hostname
            (copy svc)
            (elim opts [ none ↦ no_opts | some p ↦ p ])
          ≡ parsed v o)
        × IsRegistered agent json v o (check_of v o) r' s'
        × (r'.opts ≡ some o)
        × (r'.de_registered ≡ false)
  unfolding register
  register-IsRegistered hostname now sleep svc opts s {r'} {s'} h =
      let given : RegisterOpts = elim opts [ none ↦ no_opts | some o ↦ o ] in
      elim (parse_cases (parse_service hostname (copy svc) given)) [
        | inr (f, fails) ↦ absurd (ground arith)
        | inl (v, o, good) ↦
            let start : Registry = record new_registry { svc = some v; opts = some o } in
            let run : register_loop agent json 2 now sleep o v start s ≡ (r', s', none) =
              ground arith in
            let (there, opts', flag) =
              register_loop-IsRegistered 2 now sleep o v start s (omega arith)
                (is_empty-parsed hostname (copy svc) given good) refl run in
            (v, o, good, there, opts', flag)
      ]
