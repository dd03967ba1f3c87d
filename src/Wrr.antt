-- ===== src/Wrr.antt =====
-- loadbalance/wrr/wrr.go: the weighted random balancer. A `*server` is the number of an object in
-- `objects`, since the slice and the map share the objects.
pub mod Search
pub mod Build
pub mod Panic
pub mod Objects
pub mod Places
pub mod Sound
pub mod Removal
pub mod Insertion
pub mod Table
pub mod Filled
pub mod Calls
pub mod Total
use xdiscovery.Prelude.{
  get_elem?, take, drop, set, Map, lookup, insert, delete, leb_ℤ, ltb_ℤ, add64, ℕ, zero, suc, ◌+◌,
  ◌-◌, ◌≤◌, ◌<◌, ◌≡◌, refl, sym, ap, ◌∙◌, ◌≢◌, ◌↔◌, ◌⊎◌, inl, inr, Bool, true, false, not, ◌&&◌,
  ◌||◌, Option, none, some, List, [], ◌∷◌, ◌++◌, arith, if◌then◌else◌, Bool-cases, Option-cases, ℤ,
  pos, negsuc, length, All, In, Text, codes, map, ◌/◌, leb, ◌==◌, ltb,
}
use xdiscovery.Service.{Service}
use xdiscovery.Service.Copy.{copy}

pub record Server : Type 0 where
  pub service : Service
  pub weight : ℤ
  pub index : ℕ

-- `serverList`; its random source is an argument of `nextServer`.
abbrev pub ServerList : Type 0
ServerList = List Server

pub record RoundRobinWeight : Type 0 where
  pub objects : List Server
  pub servers : List ℕ
  pub servers_map : Map ℕ
  pub server_list : Option ServerList

pub data Error : Type 0 where
  no_endpoints server_not_found server_nil : Error

-- A call returns, returns an error, or panics.
pub data Result (A : Type 0) : Type 0 where
  ok : A → Result A
  err : Error → Result A
  panicked : Result A

abbrev pub default_weight : ℤ
default_weight = pos 1

unfoldable pub new_round_robin_weight : RoundRobinWeight
new_round_robin_weight = record { objects = []; servers = []; servers_map = []; server_list = none }

-- The servers that a slice of pointers names.
unfoldable pub deref : List Server → List ℕ → List Server
deref objects [] = []
deref objects (r ∷ rs) =
    let rest = deref objects rs in elim (get_elem? objects r) [ none ↦ rest | some s ↦ s ∷ rest ]

-- The first loop of `buildServerList` leaves out what has no positive weight.
unfoldable pub positive : List Server → List Server
positive [] = []
positive (v ∷ vs) = let rest = positive vs in if leb_ℤ v.weight (pos 0) then rest else v ∷ rest

-- The second loop adds to each weight the one before it, for `rounds` places: it counts the given
-- servers, and goes past the end of the kept ones if some were left out.
unfoldable pub accumulate : ℕ → ℤ → List Server → Option (List Server)
accumulate zero before vs = some vs
accumulate (suc rounds) before [] = none
accumulate (suc rounds) before (v ∷ vs) =
    let weight = add64 v.weight before in
    elim (accumulate rounds weight vs) [
      | none ↦ none
      | some rest ↦ some (record v { weight = weight } ∷ rest)
    ]

-- The second loop, after the first: `n` servers were given. `none` is a panic: an index out of
-- range.
unfoldable pub add_up : ℕ → List Server → Option ServerList
add_up n [] = if leb n 1 then some [] else none
add_up n (v ∷ vs) = elim (accumulate (n - 1) v.weight vs) [
  | none ↦ none
  | some rest ↦ some (v ∷ rest)
]

unfoldable pub build_server_list : List Server → Option ServerList
build_server_list servers = add_up (length servers) (positive servers)

unfoldable pub reset_state : RoundRobinWeight → Result RoundRobinWeight
reset_state r = elim (build_server_list (deref r.objects r.servers)) [
  | none ↦ panicked
  | some s ↦ ok (record r { server_list = some s })
]

-- `weight == 0` becomes the default.
abbrev pub or_default : ℤ → ℤ
or_default (pos zero) = default_weight
or_default (pos (suc n)) = pos (suc n)
or_default (negsuc n) = negsuc n

-- `UpsertServer` of a service that is there, and of a new one.
unfoldable pub upsert_found : ℕ → RoundRobinWeight → Result RoundRobinWeight
unfolding reset_state
upsert_found ref r = elim (get_elem? r.objects ref) [
  | none ↦ panicked
  | some s ↦
      reset_state
        (record r { objects = set r.objects ref (record s { weight = or_default s.weight }) })
]

unfoldable pub upsert_new : Service → RoundRobinWeight → Result RoundRobinWeight
upsert_new u r =
    let ref = length r.objects in
    reset_state (record r {
      objects =
          r.objects
          ++ record { service = copy u; weight = or_default u.weight; index = length r.servers }
            ∷ [];
      servers = r.servers ++ ref ∷ [];
      servers_map = insert u.id ref r.servers_map;
    })

unfoldable pub upsert_server : Option Service → RoundRobinWeight → Result RoundRobinWeight
upsert_server none r = err server_nil
upsert_server (some u) r = elim (lookup u.id r.servers_map) [
  | none ↦ upsert_new u r
  | some ref ↦ upsert_found ref r
]

-- `index--` on each object of the slice.
unfoldable pub decrement : List ℕ → List Server → List Server
decrement [] objects = objects
decrement (ref ∷ refs) objects =
    let changed : List Server = elim (get_elem? objects ref) [
      | none ↦ objects
      | some s ↦ set objects ref (record s { index = s.index - 1 })
    ] in
    decrement refs changed

unfoldable pub remove_server : Service → RoundRobinWeight → Result RoundRobinWeight
remove_server u r = elim (lookup u.id r.servers_map) [
  | none ↦ err server_not_found
  | some ref ↦ elim (get_elem? r.objects ref) [
    | none ↦ panicked
    | some e ↦
        if not (ltb e.index (length r.servers))
        then panicked
        else reset_state (record r {
          objects = decrement (drop (e.index + 1) r.servers) r.objects;
          servers = take e.index r.servers ++ drop (e.index + 1) r.servers;
          servers_map = delete u.id r.servers_map;
        })
  ]
]

-- `Servers`
unfoldable pub servers : RoundRobinWeight → List Service
servers r = map (λ (s : Server). s.service) (deref r.objects r.servers)

-- `s.servers[m].weight`, where m is in range.
unfoldable pub weight_at : ServerList → ℕ → ℤ
weight_at [] i = pos 0
weight_at (s ∷ ss) zero = s.weight
weight_at (s ∷ ss) (suc i) = weight_at ss i

-- The loop of the binary search, with fuel.
unfoldable pub search_loop : ℕ → ServerList → ℤ → ℕ → ℕ → ℕ
search_loop zero ss val li ri = li
search_loop (suc fuel) ss val li ri =
    let m = (li + ri) / 2 in
    let right = search_loop fuel ss val (m + 1) ri in
    let left = search_loop fuel ss val li m in
    if ltb li ri then (if leb_ℤ (weight_at ss m) val then right else left) else li

-- `nextServer`: `intn` is `rand.Intn`, which panics if its argument is not positive; `none` stands
-- for the nil service.
unfoldable pub next_of_list : (ℕ → ℕ) → ServerList → Result (Option Service)
next_of_list intn [] = ok none
next_of_list intn (s ∷ ss) =
    let n = length (s ∷ ss) in
    elim (weight_at (s ∷ ss) (n - 1)) [
      | negsuc w ↦ panicked
      | pos w ↦
          if w == 0
          then panicked
          else (elim (get_elem? (s ∷ ss) (search_loop n (s ∷ ss) (pos (intn w)) 0 n)) [
            | none ↦ panicked
            | some found ↦ ok (some found.service)
          ])
    ]

-- `NextServer`
unfoldable pub next_server : (ℕ → ℕ) → RoundRobinWeight → Result Service
next_server intn r = elim r.server_list [
  | none ↦ err no_endpoints
  | some s ↦ elim (next_of_list intn s) [
    | ok none ↦ err no_endpoints
    | ok (some u) ↦ ok (copy u)
    | err e ↦ err e
    | panicked ↦ panicked
  ]
]
