-- ===== src/Wrr/Sound.antt =====
-- loadbalance/wrr/wrr.go: the slice, the map and the objects of the balancer name the same servers.
use xdiscovery.Wrr.{RoundRobinWeight, reset_state, Server, ok, build_server_list, deref}
use xdiscovery.Wrr.Objects.{Indexed, AreDistinct, view}
use xdiscovery.Prelude.{
  ℕ, ◌≡◌, sym, ap, ◌∙◌, ◌↔◌, inl, inr, some, List, arith, Option-cases, ℤ, In, Text, lookup,
  get_elem?,
}

-- The object of the number is for the id.
abbrev pub HasId : List Server → ℕ → Text → Type 0
HasId objects r k = (s : Server) × (get_elem? objects r ≡ some s) × (s.service.id ≡ k)

-- Each object of the slice has its place as its index, and the map has just the numbers of the slice
-- at their ids.
pub record IsSound (r : RoundRobinWeight) : Type 0 where
  pub indexed : Indexed r.objects 0 r.servers
  pub distinct : AreDistinct r.servers
  pub keyed :
      (k : Text) (ref : ℕ)
      → (lookup k r.servers_map ≡ some ref) ↔ (In ref r.servers × HasId r.objects ref k)

-- The ids of the servers and their weights, in the order of the slice.
abbrev pub table_of : RoundRobinWeight → List (Text × ℤ)
table_of r = view r.objects r.servers

pub reset_state_kept :
    (r : RoundRobinWeight) {r' : RoundRobinWeight}
    → reset_state r ≡ ok r'
    → r' ≡ record r { server_list = r'.server_list }
unfolding reset_state
reset_state_kept r {r'} h = elim (Option-cases (build_server_list (deref r.objects r.servers))) [
  | inl fails ↦ absurd (ground arith)
  | inr (s, built) ↦
      let same : record r { server_list = some s } ≡ r' = ground arith in
      sym same ∙ ap (λ x. record r { server_list = x.server_list }) same
]
