-- ===== src/Tests/ConsulTests.antt =====
-- adapter/consul: an agent in memory, and runs on it.
use xdiscovery.Degrade.Health.{format_port}
use xdiscovery.Consul.Stamps.{SameElsewhere}
use xdiscovery.Etcd.Registry.{no_opts}
use xdiscovery.Consul.Listing.{entry_of, register-build_service}
use xdiscovery.Consul.History.{deregister-removes_id, updates, ends}
use xdiscovery.Tests.{node}
use xdiscovery.Service.Domain.{check_service_or_tag_name, is_name_char}
use xdiscovery.Service.Copy.{copy, copy_map, copy_slice, copy_health_check, copy_header}
use xdiscovery.Adapter.{parse_service, new_opts, has_weight, parsed, with_id, or_number, bad_tag}
use xdiscovery.Consul.{Registration, Agent}
use xdiscovery.Service.{HealthCheck, Service, or_nil}
use xdiscovery.Json.{Json}
use xdiscovery.Options.{RegisterOpts}
use xdiscovery.Consul.Registry.{
  Returned, register, update, deregister, check_of, health_check_of, registration_of, register_loop,
  register_stored, meta_of, with_meta, update_parsed, unregister,
}
use xdiscovery.Consul.Watch.{Entry, no_repeat, note_all, note_index, index_of, build_service}
use xdiscovery.Prelude.{
  ℕ, ◌≡◌, refl, sym, ap, true, Option, none, some, [], ◌∷◌, if◌then◌else◌, pos, Text, codes, lookup,
  text_eq, insert, format_int,
}

abbrev Held : Type 0
Held = Text → Option Registration

same_at : {s s' : Held} → some s ≡ some s' → (j : Text) → s' j ≡ s j
same_at {s} {s'} h j = sym (ap (λ o. elim o [ none ↦ none | some f ↦ f j ]) h)

abbrev agent : Agent
agent = record {
  State = Held;
  service_at = λ k s. s k;
  service_register = λ reg s. some (λ j. if text_eq reg.id j then some reg else s j);
  check_deregister = λ c s. some s;
  service_deregister = λ id s. some (λ j. if text_eq id j then none else s j);
  service_at-service_register = λ reg s s' id h j. same_at h j;
  service_at-check_deregister = λ c s s' h j. same_at h j;
  service_at-service_deregister = λ id s s' h j. same_at h j;
}

abbrev order : Service
order = node (codes "order~1") (codes "10.0.0.1") (pos 2)

abbrev parsed_opts : RegisterOpts
parsed_opts = record no_opts { check_ip = codes "10.0.0.1"; check_port = pos 80 }

abbrev check : HealthCheck
check = record {
  interval = pos 0;
  timeout = pos 0;
  http = [];
  header = none;
  method = [];
  tcp = codes "10.0.0.1:80";
}

abbrev pub json : Json
json = record {
  marshal_service = λ svc. svc.id;
  unmarshal_service = λ t. some order;
  marshal_health_check = λ h. some (codes "check");
  unmarshal_health_check = λ t. (check, true);
}

abbrev first : Returned agent json
first = register agent json (codes "host") (λ n. 100) (λ s. s) order none (λ k. none)

registered : first ≡ (first.0, first.1, none)
unfolding register parse_service check_service_or_tag_name is_name_char has_weight with_id new_opts
    or_number bad_tag copy copy_map copy_slice copy_health_check copy_header register_loop
    register_stored meta_of check_of health_check_of registration_of with_meta format_port
    format_int lookup insert text_eq
registered = refl

parses : parse_service (codes "host") (copy order) no_opts ≡ parsed order parsed_opts
unfolding register parse_service check_service_or_tag_name is_name_char has_weight with_id new_opts
    or_number bad_tag copy copy_map copy_slice copy_health_check copy_header register_loop
    register_stored meta_of check_of health_check_of registration_of with_meta format_port
    format_int lookup insert text_eq
parses = refl

back :
    json.unmarshal_health_check (codes "check")
    ≡ (health_check_of (check_of order parsed_opts) parsed_opts, true)
unfolding register parse_service check_service_or_tag_name is_name_char has_weight with_id new_opts
    or_number bad_tag copy copy_map copy_slice copy_health_check copy_header register_loop
    register_stored meta_of check_of health_check_of registration_of with_meta format_port
    format_int lookup insert text_eq
back = refl

register-build_service_example :
    (reg : Registration) × (agent.service_at order.id first.1 ≡ some reg)
    × (let b = build_service json (entry_of reg 7) in
        (b ≡ record order {
          meta = b.meta;
          health_check = some (health_check_of (check_of order parsed_opts) parsed_opts);
        })
        × SameElsewhere (or_nil b.meta) (or_nil order.meta))
unfolding lookup
register-build_service_example =
    register-build_service agent json (codes "host") (λ n. 100) (λ s. s) order none (λ k. none)
      order parsed_opts (codes "check") 7 registered parses refl refl refl back

holds : first.0.svc ≡ some order
unfolding register parse_service check_service_or_tag_name is_name_char has_weight with_id new_opts
    or_number bad_tag copy copy_map copy_slice copy_health_check copy_header register_loop
    register_stored meta_of check_of health_check_of registration_of with_meta format_port
    format_int lookup insert text_eq
holds = refl

abbrev updated : Returned agent json
updated = update agent json (codes "host") 100 order none first.0 first.1

abbrev ended : Returned agent json
ended = deregister agent json updated.0 updated.1

is_ended : ended ≡ (ended.0, ended.1, none)
unfolding register parse_service check_service_or_tag_name is_name_char has_weight with_id new_opts
    or_number bad_tag copy copy_map copy_slice copy_health_check copy_header register_loop
    register_stored meta_of check_of health_check_of registration_of with_meta format_port
    format_int lookup insert text_eq update update_parsed deregister unregister
is_ended = refl

deregister-removes_id_example :
    agent.service_at order.id ended.1
    ≡ (if text_eq order.id order.id then none else agent.service_at order.id updated.1)
deregister-removes_id_example =
    deregister-removes_id agent json (codes "host") (λ n. 100) (λ s. s) order none (λ k. none) order
      registered holds (updates (codes "host") 100 order none ends) is_ended order.id

abbrev entry : Text → ℕ → Entry
entry id index = record {
  id = id;
  service = codes "order";
  address = codes "10.0.0.1";
  port = pos 80;
  tags = none;
  passing = pos 1;
  meta = none;
  create_index = index;
}

abbrev pub old : Entry
old = entry (codes "a") 3

abbrev pub new : Entry
new = entry (codes "a") 5

abbrev pub single : Entry
single = entry (codes "b") 0

newest_stay : no_repeat (old ∷ new ∷ single ∷ []) ≡ new ∷ single ∷ []
unfolding no_repeat note_all note_index index_of lookup insert text_eq
newest_stay = refl
