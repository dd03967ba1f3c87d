-- ===== src/Degrade/Nodes.antt =====
-- discovery/downgrade.go: the filter of offline nodes in `getNormalServices`.
use xdiscovery.Prelude.{
  Map, has_key, has_key-insert, select, text_eq, insert, ◌≡◌, sym, inl, inr, Bool, true, false, not,
  ◌&&◌, List, [], ◌∷◌, ◌++◌, arith, if◌then◌else◌, Bool-cases, All, Text,
}
use mathlib.Core.List.{append-nil, append_assoc}
use xdiscovery.Service.{Service}
use xdiscovery.Degrade.{is_offline, get_normal_loop, get_normal_services}

abbrev pub is_online : Service → Bool
is_online srv = not (is_offline srv)

normal_loop :
    (srvs normals : List Service) (offlines : Map Service)
    → (get_normal_loop srvs (normals, offlines)).0 ≡ normals ++ select is_online srvs
unfolding get_normal_loop
normal_loop [] normals offlines = sym (append-nil normals)
normal_loop (srv ∷ srvs) normals offlines = ground (
  arith,
  normal_loop srvs normals (insert srv.id srv offlines),
  normal_loop srvs (normals ++ srv ∷ []) offlines,
  append_assoc normals (srv ∷ []) (select is_online srvs),
)

-- The nodes that are kept are the nodes not marked offline, in order.
pub get_normal_services-online :
    (srvs : List Service) → (get_normal_services srvs).0 ≡ select is_online srvs
unfolding get_normal_services
get_normal_services-online srvs = normal_loop srvs [] []

-- Some node of the list is marked offline under the id.
unfoldable pub is_marked : Text → List Service → Bool
is_marked id [] = false
is_marked id (srv ∷ srvs) =
    let rest = is_marked id srvs in if is_offline srv && text_eq srv.id id then true else rest

offline_loop :
    (id : Text) (srvs normals : List Service) (offlines : Map Service)
    → has_key id (get_normal_loop srvs (normals, offlines)).1
      ≡ (if has_key id offlines then true else is_marked id srvs)
unfolding get_normal_loop is_marked
offline_loop id [] normals offlines = ground arith
offline_loop id (srv ∷ srvs) normals offlines = ground (
  arith,
  offline_loop id srvs normals (insert srv.id srv offlines),
  offline_loop id srvs (normals ++ srv ∷ []) offlines,
  has_key-insert srv.id id srv offlines,
)

-- The offline map has exactly the ids under which a node is marked offline.
pub get_normal_services-offlines :
    (id : Text) (srvs : List Service) → has_key id (get_normal_services srvs).1 ≡ is_marked id srvs
unfolding get_normal_services has_key
get_normal_services-offlines id srvs = offline_loop id srvs [] []

abbrev pub IsOnline : Service → Type 0
IsOnline srv = is_offline srv ≡ false

pub select-IsOnline : (srvs : List Service) → All IsOnline (select is_online srvs)
select-IsOnline [] = tt
select-IsOnline (srv ∷ srvs) = elim (Bool-cases (is_offline srv)) [
  | inl off ↦ rw off (select-IsOnline srvs)
  | inr on ↦ rw on (on, select-IsOnline srvs)
]
