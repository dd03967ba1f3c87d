-- ===== src/Consul/Dedupe.antt =====
-- adapter/consul/watch.go: the entries that compareService keeps of those with one id.
use mathlib.Core.Path.{subst}
use xdiscovery.Consul.Watch.{note_all, Entry, index_of, note_index, no_repeat}
use xdiscovery.Prelude.{
  ℕ, ◌≤◌, ◌≡◌, refl, sym, ap, ◌∙◌, ◌↔◌, ◌⊎◌, inl, inr, ◌&&◌, List, [], ◌∷◌, arith, if◌then◌else◌,
  Bool-cases, All, In, Text, Map, ltb→lt, text_eq, ltb, lookup-insert, text_eq→≡, text_eq_iff,
  lookup, In-select, ◌==◌, ==_iff, All-In,
}

-- The entry has no newer one with its id.
abbrev pub IsNewest : Entry → List Entry → Type 0
IsNewest e current = All (λ x. x.id ≡ e.id → x.create_index ≤ e.create_index) current

index_of-note_index :
    (k : Text) (e : Entry) (m : Map ℕ)
    → index_of k (note_index e m) ≡ (
        if text_eq e.id k && ltb (index_of k m) e.create_index
        then e.create_index
        else index_of k m)
unfolding index_of note_index
index_of-note_index k e m =
    ground (arith, lookup-insert e.id k e.create_index m, text_eq_iff e.id k)

index_of-grows :
    (k : Text) (es : List Entry) (m : Map ℕ) → index_of k m ≤ index_of k (note_all es m)
unfolding note_all
index_of-grows k [] m = omega arith
index_of-grows k (e ∷ es) m =
    let step = index_of-note_index k e m in
    let rest = index_of-grows k es (note_index e m) in
    ground (arith, ltb→lt (index_of k m) e.create_index)

index_of-bounds :
    (k : Text) (es : List Entry) (m : Map ℕ)
    → All (λ x. x.id ≡ k → x.create_index ≤ index_of k (note_all es m)) es
unfolding note_all
index_of-bounds k [] m = tt
index_of-bounds k (e ∷ es) m = (
  λ same.
      (let step = index_of-note_index k e m in
        let rest = index_of-grows k es (note_index e m) in ground (arith, text_eq_iff e.id k)),
  index_of-bounds k es (note_index e m),
)

-- The index of an id is the one before, or that of an entry.
index_of-attained :
    (k : Text) (es : List Entry) (m : Map ℕ)
    → (index_of k (note_all es m) ≡ index_of k m)
      ⊎ ((x : Entry) × In x es × (x.id ≡ k) × (x.create_index ≡ index_of k (note_all es m)))
unfolding note_all
index_of-attained k [] m = inl refl
index_of-attained k (e ∷ es) m = elim (index_of-attained k es (note_index e m)) [
  | inr (x, i, same, at) ↦ inr (x, inr i, same, at)
  | inl same ↦
      let step = index_of-note_index k e m in
      elim (Bool-cases (text_eq e.id k && ltb (index_of k m) e.create_index)) [
        | inl new ↦ inr (e, inl refl, text_eq→≡ e.id k (ground arith), ground arith)
        | inr old ↦ inl ground arith
      ]
]

-- The index that is noted for the id of an entry without a newer one.
newest_index :
    (current : List Entry) (e : Entry)
    → In e current
    → IsNewest e current
    → e.create_index ≡ index_of e.id (note_all current [])
newest_index current e here top =
    let bound =
      All-In (λ x. x.id ≡ e.id → x.create_index ≤ index_of e.id (note_all current [])) e current
        (index_of-bounds e.id current []) here refl in
    elim (index_of-attained e.id current []) [
      | inl start ↦ unfold index_of lookup in omega (arith, start, bound)
      | inr (x, i, same, at) ↦
          let other =
            All-In (λ y. y.id ≡ e.id → y.create_index ≤ e.create_index) x current top i same in
          omega (arith, bound, other, at)
    ]

-- An entry is kept just if it is there and no entry with its id was created later; of each id that is
-- there some entry is kept.
pub no_repeat-IsNewest :
    (current : List Entry) (e : Entry)
    → (In e (no_repeat current) ↔ (In e current × IsNewest e current))
      × (In e current → (x : Entry) × In x (no_repeat current) × (x.id ≡ e.id))
unfolding no_repeat index_of lookup
no_repeat-IsNewest current e =
    let newest = note_all current [] in
    let kept = λ (x : Entry). In-select (λ y. y.create_index == index_of y.id newest) x current in
    (
      (
        λ m.
            (let (here, same) = (kept e).0 m in
              let at = (==_iff e.create_index (index_of e.id newest)).0 same in
              (
                here,
                subst (λ n. All (λ x. x.id ≡ e.id → x.create_index ≤ n) current) (sym at)
                    (index_of-bounds e.id current []),
              )),
        λ (here, top). (kept e).1 (
          here,
          (==_iff e.create_index (index_of e.id newest)).1 (newest_index current e here top),
        ),
      ),
      λ here. elim (index_of-attained e.id current []) [
        | inl start ↦
            let bound =
              All-In (λ x. x.id ≡ e.id → x.create_index ≤ index_of e.id newest) e current
                (index_of-bounds e.id current []) here refl in
            (
              e,
              (kept e).1 (
                here,
                (==_iff e.create_index (index_of e.id newest)).1 (omega (arith, start, bound)),
              ),
              refl,
            )
        | inr (x, i, same, at) ↦ (
          x,
          (kept x).1 (
            i,
            (==_iff x.create_index (index_of x.id newest)).1
                (at ∙ ap (λ k. index_of k newest) (sym same)),
          ),
          same,
        )
      ],
    )
