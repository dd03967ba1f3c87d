-- ===== src/Wrr/Insertion.antt =====
-- loadbalance/wrr/wrr.go: UpsertServer with a server at the end of the slice.
use xdiscovery.Service.Copy.{copy}
use xdiscovery.Service.{Service}
use xdiscovery.Wrr.{or_default, RoundRobinWeight, Server, deref}
use mathlib.Core.Path.{subst}
use xdiscovery.Wrr.Objects.{Indexed, AreDistinct, view, Indexed-shift, view-append, view_cons}
use xdiscovery.Wrr.Places.{Indexed-append}
use xdiscovery.Wrr.Sound.{HasId, IsSound, table_of}
use xdiscovery.Wrr.Removal.{object_of}
use xdiscovery.Prelude.{
  ℕ, zero, suc, ◌-◌, ◌≡◌, refl, sym, ap, ◌∙◌, ◌↔◌, inl, inr, Bool, true, false, Option, none, some,
  List, [], ◌∷◌, ◌++◌, arith, if◌then◌else◌, Bool-cases, ℤ, pos, negsuc, length, In, Text,
  In-append_cases, get_elem?, lookup, insert, lookup-insert, text_eq, text_eq→≡, In-append_right,
  In-append_left, text_eq_iff,
}

get_append :
    (xs ys : List Server) (i : ℕ) (s : Server)
    → get_elem? xs i ≡ some s
    → get_elem? (xs ++ ys) i ≡ some s
get_append [] ys i s h = absurd (cc)
get_append (x ∷ xs) ys zero s h = h
get_append (x ∷ xs) ys (suc i) s h = get_append xs ys i s h

get_end : (xs : List Server) (v : Server) → get_elem? (xs ++ v ∷ []) (length xs) ≡ some v
get_end [] v = refl
get_end (x ∷ xs) v = get_end xs v

get_length : (xs : List Server) → get_elem? xs (length xs) ≡ none
get_length [] = refl
get_length (x ∷ xs) = get_length xs

AreDistinct-snoc : (xs : List ℕ) (r : ℕ) → AreDistinct xs → ¬ In r xs → AreDistinct (xs ++ r ∷ [])
AreDistinct-snoc [] r d new = (λ m. m, tt)
AreDistinct-snoc (x ∷ xs) r (apart, d) new = (
  λ m. elim (In-append_cases x xs (r ∷ []) m) [
    | inl left ↦ apart left
    | inr (inl same) ↦ new (inl (sym same))
    | inr (inr nothing) ↦ nothing
  ],
  AreDistinct-snoc xs r d (λ m. new (inr m)),
)

or_default_twice : (w : ℤ) → or_default (or_default w) ≡ or_default w
or_default_twice (pos zero) = refl
or_default_twice (pos (suc n)) = refl
or_default_twice (negsuc n) = refl

-- The balancer with a new object at the end.
module _ (r : RoundRobinWeight) (u : Service) (h : IsSound r)
    (new : lookup u.id r.servers_map ≡ none) where
  abbrev added : Server
  added = record { service = copy u; weight = or_default u.weight; index = length r.servers }

  abbrev pub with_added : RoundRobinWeight
  with_added = record r {
    objects = r.objects ++ added ∷ [];
    servers = r.servers ++ length r.objects ∷ [];
    servers_map = insert u.id (length r.objects) r.servers_map;
  }

  is_new : ¬ In (length r.objects) r.servers
  is_new m =
      let (s, at) = object_of r.objects 0 r.servers (length r.objects) h.indexed m in
      let no_ : none ≡ some s = sym (get_length r.objects) ∙ at in cc

  kept :
      Indexed with_added.objects 0 r.servers
      × (view with_added.objects r.servers ≡ view r.objects r.servers)
  kept =
      Indexed-shift r.objects with_added.objects 0 0 r.servers
        (λ q s m at.
          (let same : s.index ≡ s.index - 0 = omega arith in
            get_append r.objects (added ∷ []) q s at
            ∙ ap (λ n. some (record s { index = n })) same))
        h.indexed

  added_keyed :
      (k : Text) (q : ℕ)
      → (lookup k with_added.servers_map ≡ some q)
        ↔ (In q with_added.servers × HasId with_added.objects q k)
  unfolding copy
  added_keyed k q =
      let law = lookup-insert u.id k (length r.objects) r.servers_map in
      let choose : Bool → Option ℕ =
        λ b. if b then some (length r.objects) else lookup k r.servers_map in
      let end_ = get_end r.objects added in
      elim (Bool-cases (text_eq u.id k)) [
        | inl same ↦
            let at = law ∙ ap choose same in
            let is_k = text_eq→≡ u.id k same in
            (
              λ e.
                  (let both : some (length r.objects) ≡ some q = sym at ∙ e in
                    let is_q : length r.objects ≡ q = cc in
                    (
                      subst (λ x. In x with_added.servers) is_q
                          (In-append_right (length r.objects) r.servers (length r.objects ∷ [])
                            (inl refl)),
                      subst (λ x. HasId with_added.objects x k) is_q (added, end_, is_k),
                    )),
              λ (mem, has). elim (In-append_cases q r.servers (length r.objects ∷ []) mem) [
                | inl left ↦
                    let there = (h.keyed k q).1 (left, before q k left has) in
                    absurd (
                      let no_ : none ≡ some q =
                        sym new ∙ ap (λ x. lookup x r.servers_map) is_k ∙ there in
                      cc)
                | inr (inl is_q) ↦ at ∙ ap some is_q
                | inr (inr nothing) ↦ absurd nothing
              ],
            )
        | inr other ↦
            let at = law ∙ ap choose other in
            (
              λ e.
                  (let (mem, (s, there, id)) = (h.keyed k q).0 (sym at ∙ e) in
                    (
                      In-append_left q r.servers (length r.objects ∷ []) mem,
                      (s, get_append r.objects (added ∷ []) q s there, id),
                    )),
              λ (mem, has). elim (In-append_cases q r.servers (length r.objects ∷ []) mem) [
                | inl left ↦ at ∙ (h.keyed k q).1 (left, before q k left has)
                | inr (inl is_q) ↦
                    let (s, there, id) = subst (λ x. HasId with_added.objects x k) (sym is_q) has in
                    let both : some added ≡ some s = sym end_ ∙ there in
                    let ids : u.id ≡ s.service.id =
                      ap (λ o. elim o [ none ↦ [] | some x ↦ x.service.id ]) both in
                    absurd (
                      let yes_ = (text_eq_iff u.id k).1 (ids ∙ id) in
                      let no_ : true ≡ false = sym yes_ ∙ other in cc)
                | inr (inr nothing) ↦ absurd nothing
              ],
            )
      ]
    where
      before :
          (q : ℕ) (k : Text) → In q r.servers → HasId with_added.objects q k → HasId r.objects q k
      before q k m (s, at, id) =
          let (t, old) = object_of r.objects 0 r.servers q h.indexed m in
          let both : some t ≡ some s = sym (get_append r.objects (added ∷ []) q t old) ∙ at in
          (t, old, ap (λ o. elim o [ none ↦ [] | some x ↦ x.service.id ]) both ∙ id)

  pub with_added-IsSound :
      IsSound with_added × (table_of with_added ≡ table_of r ++ (u.id, or_default u.weight) ∷ [])
  unfolding copy deref
  with_added-IsSound =
      let (indexed, same) = kept in
      let end_ = get_end r.objects added in
      (
        record {
          indexed =
              Indexed-append with_added.objects 0 r.servers (length r.objects ∷ []) indexed
                ((added, end_, omega arith, or_default_twice u.weight), tt);
          distinct = AreDistinct-snoc r.servers (length r.objects) h.distinct is_new;
          keyed = added_keyed;
        },
        view-append with_added.objects r.servers (length r.objects ∷ [])
            ∙ ap (λ t. t ++ view with_added.objects (length r.objects ∷ [])) same
            ∙ ap (λ t. table_of r ++ t) (view_cons with_added.objects (length r.objects) [] end_),
      )
