-- ===== src/Wrr/Removal.antt =====
-- loadbalance/wrr/wrr.go: RemoveServer without the server of a place.
use xdiscovery.Service.{Service}
use xdiscovery.Wrr.{Server, RoundRobinWeight, deref, decrement}
use mathlib.Core.Path.{subst}
use xdiscovery.Wrr.Objects.{
  Indexed, AreDistinct, view, decrement_other, decrement_named, Indexed-shift, view-append,
  view_cons,
}
use xdiscovery.Wrr.Places.{
  place_of, Indexed-cut, Indexed-append, AreDistinct-append_right, AreDistinct-cut, take-length,
  drop-length,
}
use xdiscovery.Wrr.Sound.{HasId, IsSound, table_of}
use xdiscovery.Prelude.{
  ℕ, ◌+◌, ◌-◌, ◌≡◌, refl, sym, ap, ◌∙◌, ◌↔◌, inl, inr, Bool, true, false, not, Option, none, some,
  List, [], ◌∷◌, ◌++◌, arith, if◌then◌else◌, Bool-cases, ℤ, length, In, Text, get_elem?, select,
  text_eq, In-append_cases, lookup, drop, In-append_left, text_eq→≡, take, In-append_right, delete,
  Map, lookup-delete, text_eq_iff, select-append,
}

pub object_of :
    (objects : List Server) (i : ℕ) (refs : List ℕ) (r : ℕ)
    → Indexed objects i refs
    → In r refs
    → (s : Server) × (get_elem? objects r ≡ some s)
object_of objects i (q ∷ qs) r ((s, at, place, weight), more) (inl same) =
    (s, ap (get_elem? objects) (sym same) ∙ at)
object_of objects i (q ∷ qs) r (h, more) (inr m) = object_of objects (i + 1) qs r more m
object_of objects i [] r h m = absurd m

-- Without the entries of an id that no object has, nothing changes.
pub select-view :
    (objects : List Server) (i : ℕ) (refs : List ℕ) (id : Text)
    → Indexed objects i refs
    → ((r : ℕ) → In r refs → ¬ HasId objects r id)
    → select (λ x. not (text_eq x.0 id)) (view objects refs) ≡ view objects refs
unfolding deref
select-view objects i [] id h no_ = refl
select-view objects i (r ∷ rs) id ((s, at, place, weight), more) no_ =
    let keep = λ (x : Text × ℤ). not (text_eq x.0 id) in
    let other : text_eq s.service.id id ≡ false = elim (Bool-cases (text_eq s.service.id id)) [
      | inl same ↦ absurd (no_ r (inl refl) (s, at, text_eq→≡ s.service.id id same))
      | inr differs ↦ differs
    ] in
    let tail = select-view objects (i + 1) rs id more (λ q m. no_ q (inr m)) in
    let first =
      ap
        (λ b.
          if not b
          then (s.service.id, s.weight) ∷ select keep (view objects rs)
          else select keep (view objects rs))
        other in
    ap (select keep) (view_cons objects r rs at)
    ∙ first
    ∙ ap (λ t. (s.service.id, s.weight) ∷ t) tail
    ∙ sym (view_cons objects r rs at)

-- The objects after the removal of `ref`, which stands before `post`.
module _ (objects : List Server) (pre : List ℕ) (ref : ℕ) (post : List ℕ)
    (indexed : Indexed objects 0 (pre ++ ref ∷ post))
    (distinct : AreDistinct (pre ++ ref ∷ post)) where
  effect_pre :
      (r : ℕ) (s : Server)
      → In r pre
      → get_elem? objects r ≡ some s
      → get_elem? (decrement post objects) r ≡ some (record s { index = s.index - 0 })
  effect_pre r s m at =
      let (apart, rest, disjoint) = AreDistinct-cut pre ref post distinct in
      let same : s.index ≡ s.index - 0 = omega arith in
      decrement_other post objects r (disjoint r m)
      ∙ at
      ∙ ap (λ n. some (record s { index = n })) same

  effect_post :
      (r : ℕ) (s : Server)
      → In r post
      → get_elem? objects r ≡ some s
      → get_elem? (decrement post objects) r ≡ some (record s { index = s.index - 1 })
  effect_post r s m at =
      decrement_named post objects r s ((AreDistinct-append_right pre (ref ∷ post) distinct).1) m at

  moved :
      (r : ℕ) (s : Server)
      → In r (pre ++ post)
      → get_elem? objects r ≡ some s
      → (n : ℕ) × (get_elem? (decrement post objects) r ≡ some (record s { index = n }))
  moved r s m at = elim (In-append_cases r pre post m) [
    | inl left ↦ (s.index - 0, effect_pre r s left at)
    | inr right ↦ (s.index - 1, effect_post r s right at)
  ]

  object_before : (r : ℕ) → In r (pre ++ post) → (s : Server) × (get_elem? objects r ≡ some s)
  object_before r m =
      object_of objects 0 (pre ++ ref ∷ post) r indexed (elim (In-append_cases r pre post m) [
        | inl left ↦ In-append_left r pre (ref ∷ post) left
        | inr right ↦ In-append_right r pre (ref ∷ post) (inr right)
      ])

  HasId-moved :
      (r : ℕ) (k : Text)
      → In r (pre ++ post)
      → HasId (decrement post objects) r k ↔ HasId objects r k
  HasId-moved r k m = (
    λ (s', at', id).
        (let (s, at) = object_before r m in
          let (n, now) = moved r s m at in
          let same : some s' ≡ some (record s { index = n }) = sym at' ∙ now in
          (s, at, ap (λ o. elim o [ none ↦ [] | some x ↦ x.service.id ]) (sym same) ∙ id)),
    λ (s, at, id). (let (n, now) = moved r s m at in (record s { index = n }, now, id)),
  )

  removed-view :
      view (decrement post objects) (pre ++ post) ≡ view objects (pre ++ post)
      × Indexed (decrement post objects) 0 (pre ++ post)
  removed-view =
      let (ipre, ipost) = Indexed-cut objects 0 pre ref post indexed in
      let (left, vleft) = Indexed-shift objects (decrement post objects) 0 0 pre effect_pre ipre in
      let (right, vright) =
        Indexed-shift objects (decrement post objects) 1 (length pre) post effect_post
          (subst (λ n. Indexed objects n post) (omega arith) ipost) in
      (
        view-append (decrement post objects) pre post
            ∙ ap (λ t. t ++ view (decrement post objects) post) vleft
            ∙ ap (λ t. view objects pre ++ t) vright
            ∙ sym (view-append objects pre post),
        Indexed-append (decrement post objects) 0 pre post left
            (subst (λ n. Indexed (decrement post objects) n post) (omega arith) right),
      )

  widen : (q : ℕ) → In q (pre ++ post) → In q (pre ++ ref ∷ post)
  widen q m = elim (In-append_cases q pre post m) [
    | inl left ↦ In-append_left q pre (ref ∷ post) left
    | inr right ↦ In-append_right q pre (ref ∷ post) (inr right)
  ]

  removed_keyed :
      (m : Map ℕ) (id : Text)
      → HasId objects ref id
      → ((k : Text) (q : ℕ)
          → (lookup k m ≡ some q) ↔ (In q (pre ++ ref ∷ post) × HasId objects q k))
      → (k : Text) (q : ℕ)
      → (lookup k (delete id m) ≡ some q)
        ↔ (In q (pre ++ post) × HasId (decrement post objects) q k)
  removed_keyed m id own keyed k q =
      let law = lookup-delete id k m in
      let choose : Bool → Option ℕ = λ b. if b then none else lookup k m in
      elim (Bool-cases (text_eq id k)) [
        | inl same ↦
            let gone : lookup k (delete id m) ≡ none = law ∙ ap choose same in
            (
              λ e. absurd (let no_ : none ≡ some q = sym gone ∙ e in cc),
              λ (mem, has).
                  (let has_k = (HasId-moved q k mem).0 has in
                    let at_q = (keyed k q).1 (widen q mem, has_k) in
                    let at_ref = (keyed k ref).1 (
                      In-append_right ref pre (ref ∷ post) (inl refl),
                      subst (HasId objects ref) (text_eq→≡ id k same) own,
                    ) in
                    let both : some ref ≡ some q = sym at_ref ∙ at_q in
                    let is_q : ref ≡ q = cc in
                    absurd (
                      (AreDistinct-cut pre ref post distinct).0
                        (subst (λ x. In x (pre ++ post)) (sym is_q) mem))),
            )
        | inr other ↦
            let kept : lookup k (delete id m) ≡ lookup k m = law ∙ ap choose other in
            (
              λ e.
                  (let (mem, has) = (keyed k q).0 (sym kept ∙ e) in
                    let near : In q (pre ++ post) = elim (In-append_cases q pre (ref ∷ post) mem) [
                      | inl left ↦ In-append_left q pre post left
                      | inr (inl same) ↦
                          let is_k = one_id q (subst (λ x. HasId objects x id) same own) has in
                          absurd (
                            let yes_ = (text_eq_iff id k).1 is_k in
                            let no_ : true ≡ false = sym yes_ ∙ other in cc)
                      | inr (inr right) ↦ In-append_right q pre post right
                    ] in
                    (near, (HasId-moved q k near).1 has)),
              λ (mem, has). kept ∙ (keyed k q).1 (widen q mem, (HasId-moved q k mem).0 has),
            )
      ]
    where
      one_id : {a b : Text} (q : ℕ) → HasId objects q a → HasId objects q b → a ≡ b
      one_id q (s, at, is_a) (t, at', is_b) =
          let both : some s ≡ some t = sym at ∙ at' in
          let same : s.service.id ≡ t.service.id =
            ap (λ o. elim o [ none ↦ [] | some x ↦ x.service.id ]) both in
          sym is_a ∙ same ∙ is_b

  removed_table :
      (id : Text) (e : Server)
      → get_elem? objects ref ≡ some e
      → e.service.id ≡ id
      → ((q : ℕ) → In q (pre ++ post) → ¬ HasId objects q id)
      → view objects (pre ++ post)
        ≡ select (λ x. not (text_eq x.0 id)) (view objects (pre ++ ref ∷ post))
  removed_table id e at is_id others =
      let keep : Text × ℤ → Bool = λ x. not (text_eq x.0 id) in
      let (ipre, ipost) = Indexed-cut objects 0 pre ref post indexed in
      let left =
        select-view objects 0 pre id ipre (λ q m. others q (In-append_left q pre post m)) in
      let right =
        select-view objects (0 + length pre + 1) post id ipost
          (λ q m. others q (In-append_right q pre post m)) in
      let own : text_eq e.service.id id ≡ true = (text_eq_iff e.service.id id).1 is_id in
      let drops : select keep ((e.service.id, e.weight) ∷ view objects post)
          ≡ select keep (view objects post) =
        ap
          (λ b.
            if not b
            then (e.service.id, e.weight) ∷ select keep (view objects post)
            else select keep (view objects post))
          own in
      view-append objects pre post
      ∙ sym (
          ap (select keep) (view-append objects pre (ref ∷ post))
          ∙ ap (λ t. select keep (view objects pre ++ t)) (view_cons objects ref post at)
          ∙ select-append keep (view objects pre) ((e.service.id, e.weight) ∷ view objects post)
          ∙ ap (λ t. t ++ select keep ((e.service.id, e.weight) ∷ view objects post)) left
          ∙ ap (λ t. view objects pre ++ t) (drops ∙ right))

-- The slice and the map without a server, and the objects with the new indexes.
pub remove_at :
    (r : RoundRobinWeight) (u : Service) (ref : ℕ) (e : Server)
    → IsSound r
    → lookup u.id r.servers_map ≡ some ref
    → get_elem? r.objects ref ≡ some e
    → let next : RoundRobinWeight = record r {
      objects = decrement (drop (e.index + 1) r.servers) r.objects;
      servers = take e.index r.servers ++ drop (e.index + 1) r.servers;
      servers_map = delete u.id r.servers_map;
    } in
      IsSound next × (table_of next ≡ select (λ x. not (text_eq x.0 u.id)) (table_of r))
remove_at r u ref e h at there =
    let (member, (e', there', is_u)) = (h.keyed u.id ref).0 at in
    let (pre, post, split, index) = place_of r.objects 0 r.servers ref e h.indexed member there in
    let index' : e.index ≡ length pre = omega (arith, index) in
    let after : drop (e.index + 1) r.servers ≡ post =
      ap (λ n. drop (n + 1) r.servers) index'
      ∙ ap (drop (length pre + 1)) split
      ∙ drop-length pre ref post in
    let before : take e.index r.servers ≡ pre =
      ap (λ n. take n r.servers) index'
      ∙ ap (take (length pre)) split
      ∙ take-length pre (ref ∷ post) in
    let ind = subst (Indexed r.objects 0) split h.indexed in
    let dis = subst AreDistinct split h.distinct in
    let (same_view, ind') = removed-view r.objects pre ref post ind dis in
    let (apart, dis', disjoint) = AreDistinct-cut pre ref post dis in
    let own : HasId r.objects ref u.id = (e', there', is_u) in
    let next : RoundRobinWeight = record r {
      objects = decrement post r.objects;
      servers = pre ++ post;
      servers_map = delete u.id r.servers_map;
    } in
    let goal : RoundRobinWeight → Type 0 =
      λ x. IsSound x × (table_of x ≡ select (λ y. not (text_eq y.0 u.id)) (table_of r)) in
    let found : RoundRobinWeight = record r {
      objects = decrement (drop (e.index + 1) r.servers) r.objects;
      servers = take e.index r.servers ++ drop (e.index + 1) r.servers;
      servers_map = delete u.id r.servers_map;
    } in
    let with_parts : List ℕ → List ℕ → RoundRobinWeight = λ a b. record r {
      objects = decrement b r.objects;
      servers = a ++ b;
      servers_map = delete u.id r.servers_map;
    } in
    let same : found ≡ next =
      ap (λ b. with_parts (take e.index r.servers) b) after ∙ ap (λ a. with_parts a post) before in
    let both : some e' ≡ some e = sym there' ∙ there in
    let is_id : e.service.id ≡ u.id =
      ap (λ o. elim o [ none ↦ [] | some x ↦ x.service.id ]) (sym both) ∙ is_u in
    let others : (q : ℕ) → In q (pre ++ post) → ¬ HasId r.objects q u.id = λ q m has.
      (let at_q =
          (h.keyed u.id q).1
            (subst (In q) (sym split) (widen r.objects pre ref post ind dis q m), has) in
        let numbers : some q ≡ some ref = sym at_q ∙ at in
        let is_ref : q ≡ ref = cc in apart (subst (λ x. In x (pre ++ post)) is_ref m)) in
    subst goal (sym same) (
      record {
        indexed = ind';
        distinct = dis';
        keyed = removed_keyed r.objects pre ref post ind dis r.servers_map u.id own (λ k q.
            subst (λ t. (lookup k r.servers_map ≡ some q) ↔ (In q t × HasId r.objects q k)) split
              (h.keyed k q));
      },
      same_view
          ∙ removed_table r.objects pre ref post ind dis u.id e there is_id others
          ∙ ap (λ t. select (λ y. not (text_eq y.0 u.id)) (view r.objects t)) (sym split),
    )
