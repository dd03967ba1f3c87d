-- ===== src/Etcd.antt =====
-- adapter/etcd: the adapter of an etcd cluster. The client of etcd is a parameter, with what the
-- code relies on of the cluster's state.
use xdiscovery.Prelude.{
  ℕ, zero, suc, ◌+◌, ◌-◌, ◌≤◌, ◌<◌, ◌≡◌, refl, sym, ap, ◌∙◌, ◌≢◌, ◌↔◌, ◌⊎◌, inl, inr, Bool, true,
  false, not, ◌&&◌, ◌||◌, Option, none, some, List, [], ◌∷◌, ◌++◌, arith, if◌then◌else◌, Bool-cases,
  Option-cases, ℤ, pos, negsuc, length, All, In, Text, codes, map, text_eq, ◌==◌,
}
pub mod Registry
pub mod Watch
pub mod Lifecycle
pub mod Listing
use xdiscovery.Service.{Service}

-- `strings.HasPrefix`
abbrev pub has_prefix : Text → Text → Bool
has_prefix [] s = true
has_prefix (c ∷ p) [] = false
has_prefix (c ∷ p) (d ∷ s) = c == d && has_prefix p s

-- The cluster: a value at a key, with the lease that it is attached to (0 for none). `put`, `grant`,
-- `keep_alive`, `revoke` and `get_prefix` are the client's calls, where `none` is an error. The laws
-- are those of the etcd API: a put replaces one key, a lease has a number that is not 0 and changes
-- no key, the end of a lease deletes just the keys that are attached to it, and a range read gives
-- the values of the keys with the prefix.
pub record Etcd : Type 1 where
  pub Store : Type 0
  pub value_at : Text → Store → Option (Text × ℕ)
  pub put : Text → Text → ℕ → Store → Option Store
  pub grant : ℤ → Store → Option (Store × ℕ)
  pub keep_alive : ℕ → Store → Option Store
  pub revoke : ℕ → Store → Option Store
  pub get_prefix : Text → Store → Option (List Text)
  pub value_at-put :
      (k v : Text) (l : ℕ) (s s' : Store)
      → put k v l s ≡ some s'
      → (j : Text) → value_at j s' ≡ (if text_eq k j then some (v, l) else value_at j s)
  pub grant_nonzero : (t : ℤ) (s s' : Store) (l : ℕ) → grant t s ≡ some (s', l) → 0 < l
  pub value_at-grant :
      (t : ℤ) (s s' : Store) (l : ℕ)
      → grant t s ≡ some (s', l)
      → (j : Text) → value_at j s' ≡ value_at j s
  pub value_at-keep_alive :
      (l : ℕ) (s s' : Store) → keep_alive l s ≡ some s' → (j : Text) → value_at j s' ≡ value_at j s
  pub value_at-revoke_other :
      (l : ℕ) (s s' : Store) (j v : Text) (m : ℕ)
      → revoke l s ≡ some s'
      → value_at j s ≡ some (v, m)
      → m ≢ l
      → value_at j s' ≡ some (v, m)
  pub value_at-revoke :
      (l : ℕ) (s s' : Store) (j v : Text)
      → revoke l s ≡ some s'
      → value_at j s ≡ some (v, l)
      → value_at j s' ≡ none
  pub In-get_prefix :
      (p : Text) (s : Store) (vs : List Text)
      → get_prefix p s ≡ some vs
      → (v : Text)
      → In v vs ↔ ((k : Text) × (l : ℕ) × (has_prefix p k ≡ true) × (value_at k s ≡ some (v, l)))
