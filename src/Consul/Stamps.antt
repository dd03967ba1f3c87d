-- ===== src/Consul/Stamps.antt =====
-- adapter/consul/registry.go: what register writes into the metadata, and what it registers.
use xdiscovery.Service.{Service, or_nil}
use mathlib.Core.Path.{subst}
use xdiscovery.Consul.{ServiceCheck, Registration}
use xdiscovery.Options.{RegisterOpts}
use xdiscovery.Consul.Registry.{check_of, meta_of, health_check_of, registration_of}
use xdiscovery.Json.{Json}
use xdiscovery.Prelude.{
  ℕ, ◌≡◌, refl, sym, ap, ◌∙◌, inl, inr, false, Option, none, some, arith, if◌then◌else◌,
  Option-cases, Text, codes, Map, text_eq, lookup, insert, format_int, lookup-insert, text_eq_refl,
}

-- The encoded health check: that of the metadata, or one of the check.
abbrev pub stamp_of : Json → ServiceCheck → RegisterOpts → Map Text → Option Text
stamp_of json check opts meta = elim (lookup (codes "health-check") meta) [
  | some c ↦ some c
  | none ↦ json.marshal_health_check (health_check_of check opts)
]

-- Every other key than those of the health check and of the time reads the same.
abbrev pub SameElsewhere : Map Text → Map Text → Type 0
SameElsewhere m n =
    (k : Text)
    → text_eq (codes "health-check") k ≡ false
    → text_eq (codes "reg-time") k ≡ false
    → lookup k m ≡ lookup k n

-- The registration shows the service, with one check; the metadata is the service's but for the
-- health check and the time.
pub record Shows (json : Json) (v : Service) (o : RegisterOpts) (check : ServiceCheck)
    (reg : Registration) : Type 0 where
  pub fields : reg ≡ registration_of v check reg.meta
  pub elsewhere : SameElsewhere reg.meta (or_nil v.meta)
  pub stamp :
      lookup (codes "health-check") reg.meta ≡ stamp_of json (check_of v o) o (or_nil v.meta)
  pub has_stamp : (c : Text) × (lookup (codes "health-check") reg.meta ≡ some c)

-- The registry's service after a call: only its metadata has changed, and only where it is stamped.
pub record IsStamped (json : Json) (o : RegisterOpts) (v w : Service) : Type 0 where
  pub only_meta : w ≡ record v { meta = w.meta }
  pub elsewhere : SameElsewhere (or_nil w.meta) (or_nil v.meta)
  pub stamp :
      stamp_of json (check_of v o) o (or_nil w.meta)
      ≡ stamp_of json (check_of v o) o (or_nil v.meta)

pub IsStamped-refl : (json : Json) (o : RegisterOpts) (v : Service) → IsStamped json o v v
IsStamped-refl json o v = record { only_meta = refl; elsewhere = λ k a b. refl; stamp = refl }

insert_time :
    (t c : Text) (meta n m : Map Text)
    → insert (codes "reg-time") t n ≡ m
    → lookup (codes "health-check") n ≡ some c
    → SameElsewhere n meta
    → SameElsewhere m meta × (lookup (codes "health-check") m ≡ some c)
unfolding text_eq
insert_time t c meta n m is_m has same = (
  λ k a b.
      ap (lookup k) (sym is_m)
      ∙ lookup-insert (codes "reg-time") k t n
      ∙ ap (λ f. if f then some t else lookup k n) b
      ∙ same k a b,
  ap (lookup (codes "health-check")) (sym is_m)
      ∙ lookup-insert (codes "reg-time") (codes "health-check") t n
      ∙ has,
)

-- What `register` writes.
pub meta_of-stamps :
    (json : Json) (check : ServiceCheck) (o : RegisterOpts) (now : ℕ) (meta : Map Text)
    {m : Map Text}
    → meta_of json check o now meta ≡ some m
    → SameElsewhere m meta
      × (lookup (codes "health-check") m ≡ stamp_of json check o meta)
      × ((c : Text) × (lookup (codes "health-check") m ≡ some c))
unfolding meta_of
meta_of-stamps json check o now meta {m} h =
    let hc = codes "health-check" in
    elim (Option-cases (lookup hc meta)) [
      | inr (c, there) ↦
          let is_m : insert (codes "reg-time") (format_int now) meta ≡ m = ground arith in
          let (elsewhere, at) =
            insert_time (format_int now) c meta meta m is_m there (λ k a b. refl) in
          (elsewhere, at ∙ ground arith, (c, at))
      | inl missing ↦ elim (Option-cases (json.marshal_health_check (health_check_of check o))) [
        | inl fails ↦ absurd (ground arith)
        | inr (c, made) ↦
            let both = insert hc c meta in
            let is_m : insert (codes "reg-time") (format_int now) both ≡ m = ground arith in
            let same : SameElsewhere both meta = λ k a b.
              lookup-insert hc k c meta ∙ ap (λ f. if f then some c else lookup k meta) a in
            let there : lookup hc both ≡ some c =
              lookup-insert hc hc c meta
              ∙ ap (λ f. if f then some c else lookup hc meta) (text_eq_refl hc) in
            let (elsewhere, at) = insert_time (format_int now) c meta both m is_m there same in
            (elsewhere, at ∙ ground arith, (c, at))
      ]
    ]

check_of-meta :
    {json : Json} {o : RegisterOpts} {v w : Service}
    → IsStamped json o v w
    → check_of w o ≡ check_of v o
unfolding check_of
check_of-meta {o = o} h = ap (λ x. check_of x o) h.only_meta

pub IsStamped-trans :
    {json : Json} {o : RegisterOpts} {v w x : Service}
    → IsStamped json o v w
    → IsStamped json o w x
    → IsStamped json o v x
IsStamped-trans {json} {o} {v} {w} {x} g h = record {
  only_meta = h.only_meta ∙ ap {A = Service} (λ y. record y { meta = x.meta }) g.only_meta;
  elsewhere = λ k a b. h.elsewhere k a b ∙ g.elsewhere k a b;
  stamp =
      subst (λ c. stamp_of json c o (or_nil x.meta) ≡ stamp_of json c o (or_nil w.meta))
        (check_of-meta g) h.stamp
      ∙ g.stamp;
}

-- A registration that shows the stamped service shows the service.
pub Shows-stamped :
    {json : Json} {o : RegisterOpts} {v w : Service} {reg : Registration}
    → IsStamped json o v w
    → Shows json w o (check_of w o) reg
    → Shows json v o (check_of v o) reg
unfolding registration_of
Shows-stamped {json} {o} {v} {w} {reg} g h = record {
  fields =
      h.fields
      ∙ ap (λ c. registration_of w c reg.meta) (check_of-meta g)
      ∙ ap (λ y. registration_of y (check_of v o) reg.meta) g.only_meta;
  elsewhere = λ k a b. h.elsewhere k a b ∙ g.elsewhere k a b;
  stamp =
      subst (λ c. lookup (codes "health-check") reg.meta ≡ stamp_of json c o (or_nil w.meta))
        (check_of-meta g) h.stamp
      ∙ g.stamp;
  has_stamp = h.has_stamp;
}
